-- ===== src/Payments/Sequence.antt =====
-- Any sequence of the writes of src/lib/payStore.ts, settlement by `applySettlementToStore`.
use final_arc.Base.{
  ◌≡◌, refl, inl, inr, none, some, List, [], ◌∷◌, Text, text_eq→eq, to_lower_case, get, put,
  get-put, arith, Bool-cases, Option-cases, All,
}
use final_arc.Base.Int.{ℤ}
use final_arc.Payments.{PayRecord, CancelCommand, merge_pay_record}
use final_arc.Payments.Settle.{
  Records, upsert_record, mark_viewed, mark_cancelled, may_cancel, add_submitted_hash, add_hash,
  is_hash,
}
use final_arc.Payments.Final.{
  Write, upserts, views, pays, settles, cancels, submits, write, write_all, add_hash-paid_tx,
}
use final_arc.Payments.Replay.{IsSound, put-IsSound, next_cancelled_record-kept, settlement-IsSound}

-- A registered row comes unpaid, and payment goes through settlement.
abbrev pub IsSettlementOnly : Write → Type 0
IsSettlementOnly (upserts row) = row.paid_tx ≡ none
IsSettlementOnly (pays token proof) = ⊥
IsSettlementOnly (views token now) = Unit
IsSettlementOnly (settles token proof) = Unit
IsSettlementOnly (cancels token command now clock_seconds) = Unit
IsSettlementOnly (submits token tx_hash) = Unit

put_new-IsSound :
    (store : Records) (new : PayRecord)
    → IsSound store
    → get new.token store ≡ none
    → new.paid_tx ≡ none
    → IsSound (put new.token new store)
put_new-IsSound store new sound missing unpaid = record {
  keyed = λ key row at.
      ground
        (arith, get-put key new.token new store, sound.keyed key row, text_eq→eq new.token key);
  once = λ j k r s t u a b p q same.
      ground (
        arith,
        get-put j new.token new store,
        get-put k new.token new store,
        sound.once j k r s t u,
      );
}

merge-kept :
    (old incoming : PayRecord)
    → ((merge_pay_record (some old) incoming).token ≡ old.token)
      × ((merge_pay_record (some old) incoming).paid_tx ≡ old.paid_tx)
unfolding merge_pay_record
merge-kept old incoming = ground arith

add_hash-token : (hash : Text) (row : PayRecord) → (add_hash hash row).token ≡ row.token
unfolding add_hash
add_hash-token hash row = ground arith

upsert_record-IsSound :
    (row : PayRecord) (store : Records)
    → row.paid_tx ≡ none
    → IsSound store
    → IsSound (upsert_record row store)
unfolding upsert_record
upsert_record-IsSound row store unpaid sound = elim (Option-cases (get row.token store)) [
  | inl e ↦ rw (e, upsert_record) (put_new-IsSound store row sound e unpaid)
  | inr (old, e) ↦
      let kept = merge-kept old row in
      rw (e, upsert_record) (put-IsSound store row.token old _ sound e kept.0 (inl kept.1))
]

mark_viewed-IsSound :
    (token now : Text) (store : Records) → IsSound store → IsSound (mark_viewed token now store)
unfolding mark_viewed
mark_viewed-IsSound token now store sound = elim (Option-cases (get token store)) [
  | inl e ↦ rw (e, mark_viewed) sound
  | inr (old, e) ↦ rw (e, mark_viewed) (put-IsSound store token old _ sound e refl (inl refl))
]

mark_cancelled-IsSound :
    (token : Text) (command : CancelCommand) (now : Text) (clock_seconds : ℤ) (store : Records)
    → IsSound store
    → IsSound (mark_cancelled token command now clock_seconds store)
unfolding mark_cancelled
mark_cancelled-IsSound token command now clock_seconds store sound =
    elim (Option-cases (get token store)) [
      | inl e ↦ rw (e, mark_cancelled) sound
      | inr (old, e) ↦ elim (Bool-cases (may_cancel old command)) [
        | inl m ↦
            let kept = next_cancelled_record-kept old now command _ clock_seconds in
            rw (e, mark_cancelled)
              (rw m (put-IsSound store token old _ sound e kept.0 (inl kept.1)))
        | inr m ↦ rw (e, mark_cancelled) (rw m sound)
      ]
    ]

add_submitted_hash-IsSound :
    (token tx_hash : Text) (store : Records)
    → IsSound store
    → IsSound (add_submitted_hash token tx_hash store)
unfolding add_submitted_hash
add_submitted_hash-IsSound token tx_hash store sound =
    elim (Bool-cases (is_hash (to_lower_case tx_hash))) [
      | inr bad ↦ rw (bad, add_submitted_hash) sound
      | inl good ↦ elim (Option-cases (get token store)) [
        | inl e ↦ rw (good, add_submitted_hash) (rw e sound)
        | inr (old, e) ↦
            rw (good, add_submitted_hash)
              (rw e (
                put-IsSound store token old _ sound e (add_hash-token (to_lower_case tx_hash) old)
                  (inl (add_hash-paid_tx (to_lower_case tx_hash) old))))
      ]
    ]

write-IsSound :
    (w : Write) (store : Records) → IsSettlementOnly w → IsSound store → IsSound (write w store)
unfolding write
write-IsSound (upserts row) store ok sound = upsert_record-IsSound row store ok sound
write-IsSound (views token now) store ok sound = mark_viewed-IsSound token now store sound
write-IsSound (pays token proof) store ok sound = absurd ok
write-IsSound (settles token proof) store ok sound = settlement-IsSound store token proof sound
write-IsSound (cancels token command now clock_seconds) store ok sound =
    mark_cancelled-IsSound token command now clock_seconds store sound
write-IsSound (submits token tx_hash) store ok sound =
    add_submitted_hash-IsSound token tx_hash store sound

-- Through any sequence of registrations of unpaid rows, views, settlements, cancellations and
-- submitted hashes, in any order, a sound store stays sound: a row's token is its key, and no
-- transaction pays two rows.
pub write_all-IsSound :
    (ws : List Write) (store : Records)
    → All IsSettlementOnly ws
    → IsSound store
    → IsSound (write_all ws store)
unfolding write_all
write_all-IsSound [] store ok sound = sound
write_all-IsSound (w ∷ ws) store ok sound =
    write_all-IsSound ws (write w store) ok.1 (write-IsSound w store ok.0 sound)
