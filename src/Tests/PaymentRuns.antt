-- ===== src/Tests/PaymentRuns.antt =====
-- The payment rows (src/lib/payStore.ts): two requests, one transaction.
use final_arc.Base.Int.{is_safe_integer}
use final_arc.Base.{
  ◌≡◌, refl, ap, true, false, none, some, List, [], ◌∷◌, codes, Text, get, put, text_eq,
  to_lower_case,
}
use final_arc.Base.Int.{pos}
use final_arc.Payments.{PayRecord, PaidProof, v1_proof, v2_proof, v1_cancel}
use final_arc.Payments.Settle.{
  Records, settled, apply_settlement_to_store, refused, settlement_used,
}
use final_arc.Payments.Final.{
  Write, upserts, settles, cancels, views, write_all, IsPaidWith, write_all-IsPaidWith,
}
use final_arc.Payments.Replay.{IsSound}
use final_arc.Payments.Sequence.{write_all-IsSound}
use final_arc.Payments.Once.{settlement_once}

abbrev pub row_of : Text → Text → PayRecord
row_of token id = record {
  token = token;
  id = id;
  to = codes "0xm";
  amount = codes "1";
  memo = codes "coffee";
  created_at = codes "t";
  views = 0;
  last_viewed_at = none;
  cancelled = false;
  cancelled_at = none;
  cancelled_at_seconds = none;
  paid_tx = none;
  paid_block_timestamp = none;
  submitted_hashes = none;
  late_settlement_tx = none;
  webhook_url = none;
}

abbrev pub first_id : Text
first_id = codes "0x00000000000000000000000000000001"

abbrev second_id : Text
second_id = codes "0x00000000000000000000000000000002"

abbrev pub first_row : PayRecord
first_row = row_of (codes "a") first_id

abbrev pub first_proof : PaidProof
first_proof = v2_proof (codes "0xT") first_id (pos 100) (pos 200)

abbrev pub paid_row : PayRecord
paid_row = record first_row { paid_tx = some (codes "0xT"); paid_block_timestamp = some (pos 100) }

abbrev pub two_rows : Records
two_rows = (codes "a", first_row) ∷ (codes "b", row_of (codes "b") second_id) ∷ []

abbrev pub paid_rows : Records
paid_rows = (codes "a", paid_row) ∷ (codes "b", row_of (codes "b") second_id) ∷ []

first_settles :
    apply_settlement_to_store two_rows (codes "a") first_proof ≡ (paid_rows, settled paid_row true)
unfolding apply_settlement_to_store get text_eq to_lower_case is_safe_integer put
first_settles = refl

-- The transaction cannot settle the second request.
second_refused :
    (apply_settlement_to_store paid_rows
      (codes "b")
      (v2_proof (codes "0xt") second_id (pos 100) (pos 200))).1
    ≡ refused settlement_used (some (row_of (codes "b") second_id))
unfolding apply_settlement_to_store get text_eq to_lower_case
second_refused = refl

abbrev later_writes : List Write
later_writes =
    upserts first_row
    ∷ cancels (codes "a") (v1_cancel (codes "0xm")) (codes "t") (pos 150)
    ∷ settles (codes "a") (v1_proof (codes "0xU"))
    ∷ views (codes "a") (codes "t")
    ∷ []

write_all-IsPaidWith_example :
    IsPaidWith (codes "a") (codes "0xT") (write_all later_writes paid_rows)
unfolding get text_eq
write_all-IsPaidWith_example =
    write_all-IsPaidWith (codes "a") (codes "0xT") later_writes paid_rows (paid_row, refl, refl)

empty-IsSound : IsSound []
unfolding get
empty-IsSound = record {
  keyed = λ key row e. absurd (cc);
  once = λ j k r s t u e f p q same. absurd (cc);
}

abbrev first_writes : List Write
first_writes =
    upserts first_row
    ∷ upserts (row_of (codes "b") second_id)
    ∷ settles (codes "a") first_proof
    ∷ settles (codes "b") (v2_proof (codes "0xt") second_id (pos 100) (pos 200))
    ∷ []

write_all-IsSound_example : IsSound (write_all first_writes [])
write_all-IsSound_example =
    write_all-IsSound first_writes [] (refl, (refl, (tt, (tt, tt)))) empty-IsSound

settlement_once_example :
    (get (codes "a") (apply_settlement_to_store two_rows (codes "a") first_proof).0 ≡ some paid_row)
    × (apply_settlement_to_store
          (apply_settlement_to_store two_rows (codes "a") first_proof).0
          (codes "a")
          first_proof
        ≡ ((apply_settlement_to_store two_rows (codes "a") first_proof).0, settled paid_row false))
settlement_once_example =
    settlement_once two_rows (codes "a") first_proof paid_row (ap (λ r. r.1) first_settles)

-- Cancelled in second 100, the second of the settlement block.
abbrev cancelled_row : PayRecord
cancelled_row = record first_row {
  cancelled = true;
  cancelled_at = some (codes "t");
  cancelled_at_seconds = some (pos 100);
}
