-- ===== src/Ledger/Reserve.antt =====
-- `reserveSpendAtomically` and `transitionReservation` of src/lib/policyLedger.ts over the ledger.
pub mod Caps
pub mod Outcome
pub mod Quiet
use final_arc.Base.{
  ℕ, suc, zero, ◌+◌, ◌-◌, ◌≡◌, Bool, true, false, not, ◌&&◌, ◌||◌, Option, none, some, List, [],
  ◌∷◌, ◌++◌, if◌then◌else◌, or_else, ltb, Text, codes, text_eq, big_int, put,
}
use final_arc.Base.Int.{ℤ}
use final_arc.Policy.{PolicyReason, PaymentPolicyRules, window_spend_limit_exceeded}
use final_arc.Ledger.{
  ReservationStatus, reserved, consumed, released, LedgerReservation, LedgerDoc, IntentFact,
  VerifiedSpendFact, read_row_at, recover_reservations, committed_for_cap,
}
use final_arc.Ledger.Store.{Codec, World, read, commit}

pub data LedgerMode : Type 0 where
  atomic single_instance unavailable_mode : LedgerMode

pub data ReserveOutcome : Type 0 where
  reserved_at : ℕ → ReserveOutcome
  already_reserved : ℕ → ReserveOutcome
  deny : List PolicyReason → ℕ → ReserveOutcome
  conflict : ReserveOutcome
  unavailable : ℕ → ReserveOutcome

-- A stored policy as its reader hands it on: its id and its rules.
abbrev pub StoredPolicy : Type 0
StoredPolicy = Text × PaymentPolicyRules

pub record ReserveArgs : Type 0 where
  pub reservation : LedgerReservation
  pub policies : List StoredPolicy
  pub verified : List VerifiedSpendFact
  pub intents : Text → Option IntentFact
  pub now : ℤ

abbrev cap_reason : Text → PolicyReason
cap_reason id = record {
  code = window_spend_limit_exceeded;
  message = codes "Amount exceeds the remaining spend window, including outstanding reservations.";
  policy_id = some id;
}

-- The body of the loop over the policies: the reason that one policy gives.
unfoldable pub cap_reasons_of :
    ReserveArgs → LedgerDoc → Text → Option Text → Option ℤ → List PolicyReason
cap_reasons_of a doc id (some cap) (some window) =
    if ltb (big_int cap)
      (committed_for_cap doc a.verified a.now window + big_int a.reservation.amount_base_units)
    then cap_reason id ∷ []
    else []
cap_reasons_of a doc id none window = []
cap_reasons_of a doc id (some cap) none = []

unfoldable pub cap_reasons : ReserveArgs → LedgerDoc → List StoredPolicy → List PolicyReason
unfolding cap_reasons_of
cap_reasons a doc [] = []
cap_reasons a doc ((id, rules) ∷ ps) =
    cap_reasons_of a doc id rules.max_spend_base_units rules.window_seconds ++ cap_reasons a doc ps

-- How one attempt ends: with an outcome, or with a lost race and another round.
pub data Attempt : Type 0 where
  finished : ReserveOutcome → Attempt
  retry : Attempt

abbrev pub is_released : ReservationStatus → Bool
is_released released = true
is_released _ = false

-- `existing && existing.status !== "RELEASED"`.
unfoldable pub live_row : Option LedgerReservation → Option LedgerReservation
live_row none = none
live_row (some row) = if is_released row.status then none else some row

-- The outcome for a commit's answer.
unfoldable pub after_commit : ReserveOutcome → ℕ → Option Bool → Attempt
after_commit done attempt none = finished (unavailable attempt)
after_commit done attempt (some true) = finished done
after_commit done attempt (some false) = retry

module _ (c : Codec) where
  -- The branch for an existing row that is not released.
  unfoldable pub keep_existing :
      ReserveArgs
      → ℕ
      → Option c.Raw
      → LedgerDoc
      → Bool
      → LedgerReservation
      → World c
      → Attempt × World c
  unfolding after_commit
  keep_existing a attempt version doc recovered existing w =
      if not (text_eq existing.amount_base_units a.reservation.amount_base_units)
      then (finished conflict, w)
      else (if not recovered
          then (finished (already_reserved attempt), w)
          else (let (ok, w') = commit c version doc w in
              (after_commit (already_reserved attempt) attempt ok, w')))

  -- The end of the loop's body, by the reasons that the policies gave.
  unfoldable pub reserve_or_deny :
      ReserveArgs → ℕ → Option c.Raw → LedgerDoc → List PolicyReason → World c → Attempt × World c
  unfolding after_commit
  reserve_or_deny a attempt version doc (r ∷ rs) w = (finished (deny (r ∷ rs) attempt), w)
  reserve_or_deny a attempt version doc [] w =
      let (ok, w') = commit c version (put a.reservation.id a.reservation doc) w in
      (after_commit (reserved_at attempt) attempt ok, w')

  unfoldable pub evaluate_row :
      ReserveArgs
      → ℕ
      → Option c.Raw
      → LedgerDoc
      → Bool
      → Option LedgerReservation
      → World c
      → Attempt × World c
  unfolding keep_existing reserve_or_deny
  evaluate_row a attempt version doc recovered (some existing) w =
      keep_existing a attempt version doc recovered existing w
  evaluate_row a attempt version doc recovered none w =
      reserve_or_deny a attempt version doc (cap_reasons a doc a.policies) w

  -- The body of the loop after the read.
  unfoldable pub evaluate_ledger :
      ReserveArgs → ℕ → LedgerDoc × Option c.Raw → World c → Attempt × World c
  unfolding live_row evaluate_row
  evaluate_ledger a attempt (read_doc, version) w =
      let (doc, recovered) = recover_reservations a.intents a.now read_doc in
      evaluate_row a attempt version doc recovered (live_row (read_row_at a.reservation.id doc)) w

  unfoldable pub attempt_reserve : ReserveArgs → ℕ → World c → Attempt × World c
  unfolding evaluate_ledger
  attempt_reserve a attempt w =
      let (answer, w') = read c w in
      elim answer [
        | none ↦ (finished (unavailable attempt), w')
        | some snapshot ↦ evaluate_ledger a attempt snapshot w'
      ]

  -- `left` counts the rounds that the `for` loop still has.
  unfoldable pub reserve_loop : ℕ → ReserveArgs → ℕ → World c → ReserveOutcome × World c
  reserve_loop zero a attempt w = (unavailable (attempt - 1), w)
  reserve_loop (suc left) a attempt w =
      let (result, w') = attempt_reserve a attempt w in
      elim result [
        | finished outcome ↦ (outcome, w')
        | retry ↦ reserve_loop left a (attempt + 1) w'
      ]

  unfoldable pub reserve_spend_atomically :
      LedgerMode → ℕ → ReserveArgs → World c → ReserveOutcome × World c
  unfolding reserve_loop
  reserve_spend_atomically unavailable_mode max_attempts a w = (unavailable 0, w)
  reserve_spend_atomically mode max_attempts a w = reserve_loop max_attempts a 1 w
