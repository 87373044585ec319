-- ===== src/Payments/Final.antt =====
-- A paid row of src/lib/payStore.ts stays paid, with the same transaction.
use final_arc.Base.{
  ◌≡◌, refl, inl, inr, Option, none, some, List, [], ◌∷◌, Text, text_eq, get, put, get-put,
  text_eq→eq, to_lower_case, ◌∙◌, arith, Bool-cases, Option-cases,
}
use final_arc.Base.Int.{ℤ}
use final_arc.Payments.{
  PayRecord, PaidProof, CancelCommand, merge_pay_record, next_paid_record, next_cancelled_record,
}
use final_arc.Payments.Settlement.{settle_unpaid_cases}
use final_arc.Payments.Settle.{
  Records, apply_settlement_to_store, settle_row, upsert_record, mark_viewed, mark_paid,
  mark_cancelled, may_cancel, add_submitted_hash, add_hash, is_hash,
}

-- One write of the payment rows.
pub data Write : Type 0 where
  upserts : PayRecord → Write
  views : (token now : Text) → Write
  pays : Text → PaidProof → Write
  settles : Text → PaidProof → Write
  cancels : Text → CancelCommand → Text → ℤ → Write
  submits : (token tx_hash : Text) → Write

unfoldable pub write : Write → Records → Records
unfolding upsert_record mark_viewed mark_paid mark_cancelled add_submitted_hash
write (upserts row) store = upsert_record row store
write (views token now) store = mark_viewed token now store
write (pays token proof) store = mark_paid token proof store
write (settles token proof) store = (apply_settlement_to_store store token proof).0
write (cancels token command now clock_seconds) store =
    mark_cancelled token command now clock_seconds store
write (submits token tx_hash) store = add_submitted_hash token tx_hash store

unfoldable pub write_all : List Write → Records → Records
unfolding write
write_all [] store = store
write_all (w ∷ ws) store = write_all ws (write w store)

-- There is a row at a key, and it is paid with a transaction.
abbrev pub IsPaidWith : Text → Text → Records → Type 0
IsPaidWith key tx store = (row : PayRecord) × (get key store ≡ some row) × (row.paid_tx ≡ some tx)

put-IsPaidWith :
    (key token tx : Text) (old new : PayRecord) (store : Records)
    → get token store ≡ some old
    → ((t : Text) → old.paid_tx ≡ some t → new.paid_tx ≡ some t)
    → IsPaidWith key tx store
    → IsPaidWith key tx (put token new store)
put-IsPaidWith key token tx old new store found keep (row, at, p) =
    elim (Bool-cases (text_eq token key)) [
      | inl same ↦ (
        new,
        rw (get-put key token new store, same),
        keep tx (ground (arith, text_eq→eq token key same)),
      )
      | inr other ↦ (row, rw (get-put key token new store, other) at, p)
    ]

merge-paid :
    (old incoming : PayRecord) (t : Text)
    → old.paid_tx ≡ some t
    → (merge_pay_record (some old) incoming).paid_tx ≡ some t
unfolding merge_pay_record
merge-paid old incoming t e = ground arith

next_paid_record-paid :
    (old next : PayRecord) (proof : PaidProof) (t : Text)
    → next_paid_record old proof ≡ some next
    → old.paid_tx ≡ some t
    → next.paid_tx ≡ some t
unfolding next_paid_record
next_paid_record-paid old next proof t n e = ground arith

next_cancelled_record-paid :
    (old : PayRecord) (now : Text) (command : CancelCommand) (seconds clock : ℤ) (t : Text)
    → old.paid_tx ≡ some t
    → (next_cancelled_record old now command seconds clock).paid_tx ≡ some t
unfolding next_cancelled_record
next_cancelled_record-paid old now command seconds clock t e = ground arith

pub add_hash-paid_tx : (hash : Text) (row : PayRecord) → (add_hash hash row).paid_tx ≡ row.paid_tx
unfolding add_hash
add_hash-paid_tx hash row = ground arith

-- Nothing changes for a paid row but the answer: by the transaction that it was paid with or another.
pub settle_paid :
    (store : Records) (token : Text) (proof : PaidProof) (row : PayRecord) (paid : Text)
    → (settle_row store token proof row (some paid)).0 ≡ store
unfolding settle_row
settle_paid store token proof row paid = ground arith

put_new-IsPaidWith :
    (key token tx : Text) (new : PayRecord) (store : Records)
    → get token store ≡ none
    → IsPaidWith key tx store
    → IsPaidWith key tx (put token new store)
put_new-IsPaidWith key token tx new store missing (row, at, p) =
    elim (Bool-cases (text_eq token key)) [
      | inl same ↦ absurd (let e = text_eq→eq token key same in ground arith)
      | inr other ↦ (row, rw (get-put key token new store, other) at, p)
    ]

settle_row-IsPaidWith :
    (key tx : Text) (store : Records) (token : Text) (proof : PaidProof) (row : PayRecord)
    (paid : Option Text)
    → get token store ≡ some row
    → row.paid_tx ≡ paid
    → IsPaidWith key tx store
    → IsPaidWith key tx (settle_row store token proof row paid).0
settle_row-IsPaidWith key tx store token proof row (some t) found p h =
    rw (settle_paid store token proof row t) h
settle_row-IsPaidWith key tx store token proof row none found p h =
    elim (settle_unpaid_cases store token proof row) [
      | inl e ↦ rw e h
      | inr (new, e, _) ↦
          rw e (put-IsPaidWith key token tx row new store found (λ t q. absurd (cc)) h)
    ]

settlement-IsPaidWith :
    (key tx token : Text) (proof : PaidProof) (store : Records)
    → IsPaidWith key tx store
    → IsPaidWith key tx (apply_settlement_to_store store token proof).0
unfolding apply_settlement_to_store
settlement-IsPaidWith key tx token proof store h = elim (Option-cases (get token store)) [
  | inl e ↦ rw (e, apply_settlement_to_store) h
  | inr (old, e) ↦
      rw (e, apply_settlement_to_store)
        (settle_row-IsPaidWith key tx store token proof old old.paid_tx e refl h)
]

-- Whatever is written next, by any of the operations of the store, a paid row stays and keeps its
-- transaction.
pub write-IsPaidWith :
    (key tx : Text) (w : Write) (store : Records)
    → IsPaidWith key tx store
    → IsPaidWith key tx (write w store)
unfolding write
write-IsPaidWith key tx (upserts row) store h = elim (Option-cases (get row.token store)) [
  | inl e ↦ rw (e, upsert_record) (put_new-IsPaidWith key row.token tx _ store e h)
  | inr (old, e) ↦
      rw (e, upsert_record) (put-IsPaidWith key row.token tx old _ store e (merge-paid old row) h)
]
write-IsPaidWith key tx (views token now) store h = elim (Option-cases (get token store)) [
  | inl e ↦ rw (e, mark_viewed) h
  | inr (old, e) ↦ rw (e, mark_viewed) (put-IsPaidWith key token tx old _ store e (λ t p. p) h)
]
write-IsPaidWith key tx (pays token proof) store h = elim (Option-cases (get token store)) [
  | inl e ↦ rw (e, mark_paid) h
  | inr (old, e) ↦ elim (Option-cases (next_paid_record old proof)) [
    | inl n ↦ rw (e, mark_paid) (rw n h)
    | inr (next, n) ↦
        rw (e, mark_paid)
          (rw n (
            put-IsPaidWith key token tx old next store e
              (λ t. next_paid_record-paid old next proof t n) h))
  ]
]
write-IsPaidWith key tx (settles token proof) store h =
    settlement-IsPaidWith key tx token proof store h
write-IsPaidWith key tx (cancels token command now clock_seconds) store h =
    elim (Option-cases (get token store)) [
      | inl e ↦ rw (e, mark_cancelled) h
      | inr (old, e) ↦ elim (Bool-cases (may_cancel old command)) [
        | inl m ↦
            rw (e, mark_cancelled)
              (rw m (
                put-IsPaidWith key token tx old _ store e
                  (next_cancelled_record-paid old now command _ clock_seconds) h))
        | inr m ↦ rw (e, mark_cancelled) (rw m h)
      ]
    ]
write-IsPaidWith key tx (submits token tx_hash) store h =
    elim (Bool-cases (is_hash (to_lower_case tx_hash))) [
      | inr bad ↦ rw (bad, add_submitted_hash) h
      | inl good ↦ elim (Option-cases (get token store)) [
        | inl e ↦ rw (good, add_submitted_hash) (rw e h)
        | inr (old, e) ↦
            rw (good, add_submitted_hash)
              (rw e (
                put-IsPaidWith key token tx old _ store e
                  (λ t p. add_hash-paid_tx (to_lower_case tx_hash) old ∙ p) h))
      ]
    ]

-- A paid row of the store is final: when the row at a key is paid with a transaction, then after any
-- sequence of writes to any rows (upserts, views, payments, settlements, cancellations, submitted
-- hashes) there is still a row at the key, and it is paid with the same transaction.
pub write_all-IsPaidWith :
    (key tx : Text) (ws : List Write) (store : Records)
    → IsPaidWith key tx store
    → IsPaidWith key tx (write_all ws store)
unfolding write_all
write_all-IsPaidWith key tx [] store h = h
write_all-IsPaidWith key tx (w ∷ ws) store h =
    write_all-IsPaidWith key tx ws (write w store) (write-IsPaidWith key tx w store h)
