-- ===== src/Payments/Replay.antt =====
-- One transaction settles at most one payment row (src/lib/payStore.ts).
use final_arc.Base.{
  ◌≡◌, refl, sym, ◌∙◌, ◌⊎◌, inl, inr, true, false, Option, none, some, Text, text_eq, text_eq→eq,
  text_eq_iff, to_lower_case, get, put, get-put, values, any_of, any_of-values, arith, Option-cases,
}
use final_arc.Base.Int.{ℤ}
use final_arc.Payments.{
  PayRecord, PaidProof, CancelCommand, next_cancelled_record, v1_proof, v2_proof, proof_tx, same_id,
  next_paid_record,
}
use final_arc.Payments.Settle.{Records, apply_settlement_to_store, settle_row, replays}
use final_arc.Payments.Settlement.{settle_unpaid_cases}
use final_arc.Payments.Final.{settle_paid}

-- A row's token is its key, and two rows paid with one transaction, up to case, are one row.
pub record IsSound (store : Records) : Type 0 where
  pub keyed : (key : Text) (row : PayRecord) → get key store ≡ some row → row.token ≡ key
  pub once :
      (j k : Text) (r s : PayRecord) (t u : Text)
      → get j store ≡ some r
      → get k store ≡ some s
      → r.paid_tx ≡ some t
      → s.paid_tx ≡ some u
      → same_id t u ≡ true
      → j ≡ k

same_id_sym : (a b : Text) → same_id a b ≡ true → same_id b a ≡ true
unfolding same_id
same_id_sym a b h =
    (text_eq_iff (to_lower_case b) (to_lower_case a)).1
      (sym ((text_eq_iff (to_lower_case a) (to_lower_case b)).0 h))

-- Another row is not paid with a transaction that the scan has not found.
unused :
    (store : Records) (token tx key u : Text) (row : PayRecord)
    → IsSound store
    → any_of (replays token tx) (values store) ≡ false
    → get key store ≡ some row
    → text_eq key token ≡ false
    → row.paid_tx ≡ some u
    → same_id u tx ≡ false
unfolding replays
unused store token tx key u row sound none_other at differ p =
    ground
      (arith, any_of-values (replays token tx) key row store none_other at, sound.keyed key row at)

-- What the write of one row must meet.
abbrev Fresh : Records → Text → PayRecord → PayRecord → Type 0
Fresh store token old new =
    (new.paid_tx ≡ old.paid_tx)
    ⊎ ((tx : Text) × (new.paid_tx ≡ some tx) × (any_of (replays token tx) (values store) ≡ false))

put-keyed :
    (store : Records) (token : Text) (old new : PayRecord)
    → IsSound store
    → get token store ≡ some old
    → new.token ≡ old.token
    → (key : Text) (row : PayRecord) → get key (put token new store) ≡ some row
    → row.token ≡ key
put-keyed store token old new sound found same key row at = ground (
  arith,
  get-put key token new store,
  sound.keyed key row,
  sound.keyed token old found,
  text_eq→eq token key,
)

-- What stands at a key after the write: the new row, or what stood there.
get-put_cases :
    (key token : Text) (new row : PayRecord) (store : Records)
    → get key (put token new store) ≡ some row
    → ((key ≡ token) × (row ≡ new)) ⊎ ((text_eq key token ≡ false) × (get key store ≡ some row))
get-put_cases key token new row store at =
    ground (arith, get-put key token new store, text_eq_iff token key, text_eq_iff key token)

put-once :
    (store : Records) (token : Text) (old new : PayRecord)
    → IsSound store
    → get token store ≡ some old
    → Fresh store token old new
    → (j k : Text) (r s : PayRecord) (t u : Text) → get j (put token new store) ≡ some r
    → get k (put token new store) ≡ some s
    → r.paid_tx ≡ some t
    → s.paid_tx ≡ some u
    → same_id t u ≡ true
    → j ≡ k
put-once store token old new sound found (inl kept) j k r s t u at bt p q same =
    elim (get-put_cases j token new r store at) [
      | inl (e, f) ↦ elim (get-put_cases k token new s store bt) [
        | inl (e', f') ↦ e ∙ sym e'
        | inr (d', b) ↦ sound.once j k old s t u (rw e found) b (sym kept ∙ (rw f at p)) q same
      ]
      | inr (d, a) ↦ elim (get-put_cases k token new s store bt) [
        | inl (e', f') ↦ sound.once j k r old t u a (rw e' found) p (sym kept ∙ (rw f' at q)) same
        | inr (d', b) ↦ sound.once j k r s t u a b p q same
      ]
    ]
put-once store token old new sound found (inr (tx, paid, none_other)) j k r s t u at bt p q same =
    elim (get-put_cases j token new r store at) [
      | inl (e, f) ↦ elim (get-put_cases k token new s store bt) [
        | inl (e', f') ↦ e ∙ sym e'
        | inr (d', b) ↦
            ground
              (arith, unused store token tx k u s sound none_other b d' q, same_id_sym t u same)
      ]
      | inr (d, a) ↦ elim (get-put_cases k token new s store bt) [
        | inl (e', f') ↦ ground (arith, unused store token tx j t r sound none_other a d p)
        | inr (d', b) ↦ sound.once j k r s t u a b p q same
      ]
    ]

pub put-IsSound :
    (store : Records) (token : Text) (old new : PayRecord)
    → IsSound store
    → get token store ≡ some old
    → new.token ≡ old.token
    → Fresh store token old new
    → IsSound (put token new store)
put-IsSound store token old new sound found same fresh = record {
  keyed = put-keyed store token old new sound found same;
  once = put-once store token old new sound found fresh;
}

pay_unpaid-paid :
    (row new : PayRecord) (proof : PaidProof)
    → row.paid_tx ≡ none
    → next_paid_record row proof ≡ some new
    → (new.token ≡ row.token) × (new.paid_tx ≡ some (proof_tx proof))
unfolding next_paid_record
pay_unpaid-paid row new (v1_proof tx) e n = ground arith
pay_unpaid-paid row new (v2_proof tx request_id at expires_at) e n = ground arith

pub next_cancelled_record-kept :
    (row : PayRecord) (now : Text) (command : CancelCommand) (seconds clock : ℤ)
    → ((next_cancelled_record row now command seconds clock).token ≡ row.token)
      × ((next_cancelled_record row now command seconds clock).paid_tx ≡ row.paid_tx)
unfolding next_cancelled_record
next_cancelled_record-kept row now command seconds clock = ground arith

settle_row-IsSound :
    (store : Records) (token : Text) (proof : PaidProof) (row : PayRecord) (paid : Option Text)
    → IsSound store
    → get token store ≡ some row
    → row.paid_tx ≡ paid
    → IsSound (settle_row store token proof row paid).0
settle_row-IsSound store token proof row (some t) sound found p =
    rw (settle_paid store token proof row t) sound
settle_row-IsSound store token proof row none sound found p =
    elim (settle_unpaid_cases store token proof row) [
      | inl e ↦ rw e sound
      | inr (new, e, inl (r, q, n, _)) ↦
          let done = pay_unpaid-paid row new proof p n in
          rw e
            (put-IsSound store token row new sound found done.0 (inr (proof_tx proof, done.1, r)))
      | inr (new, e, inr (same, kept)) ↦
          rw e (put-IsSound store token row new sound found same (inl kept))
    ]

-- Settling keeps a sound store sound: whatever the proof and the row, no transaction comes to pay
-- two rows.
pub settlement-IsSound :
    (store : Records) (token : Text) (proof : PaidProof)
    → IsSound store
    → IsSound (apply_settlement_to_store store token proof).0
unfolding apply_settlement_to_store
settlement-IsSound store token proof sound = elim (Option-cases (get token store)) [
  | inl e ↦ rw (e, apply_settlement_to_store) sound
  | inr (old, e) ↦
      rw (e, apply_settlement_to_store)
        (settle_row-IsSound store token proof old old.paid_tx sound e refl)
]
