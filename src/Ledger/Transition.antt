-- ===== src/Ledger/Transition.antt =====
-- `transitionReservation` of src/lib/policyLedger.ts: a reserved row becomes consumed or released.
use final_arc.Base.{ℕ, zero, suc, Bool, true, false, Option, none, some, Text, put}
use final_arc.Base.Int.{ℤ}
use final_arc.Ledger.{reserved, consumed, released, LedgerReservation, LedgerDoc, read_row_at}
use final_arc.Ledger.Store.{Codec, World, read, commit}
use final_arc.Ledger.Reserve.{LedgerMode, unavailable_mode}

pub data Next : Type 0 where
  to_consumed : ℤ → Next
  to_released : ℤ → Text → Next

-- The row that is written.
unfoldable pub apply_next : Next → LedgerReservation → LedgerReservation
apply_next (to_consumed at) row = record row { status = consumed; consumed_at = some at }
apply_next (to_released at why) row = record row {
  status = released;
  released_at = some at;
  release_reason = some why;
}

-- `!row || row.status !== "RESERVED"` fails.
unfoldable pub reserved_row : Option LedgerReservation → Option LedgerReservation
reserved_row none = none
reserved_row (some row) = elim row.status [
  | reserved ↦ some row
  | consumed ↦ none
  | released ↦ none
]

-- How one round ends: with the function's result, or with another round.
pub data Round : Type 0 where
  returns : Bool → Round
  again : Round

unfoldable pub round_of : Option Bool → Round
round_of none = returns false
round_of (some true) = returns true
round_of (some false) = again

module _ (c : Codec) where
  -- The end of a round, by the row that it found.
  unfoldable pub write_next :
      Text → Next → Option c.Raw → LedgerDoc → Option LedgerReservation → World c → Round × World c
  unfolding apply_next round_of
  write_next id next version doc none w = (returns false, w)
  write_next id next version doc (some row) w =
      let (ok, w') = commit c version (put id (apply_next next row) doc) w in (round_of ok, w')

  -- The round after the read.
  unfoldable pub transition_ledger :
      Text → Next → LedgerDoc × Option c.Raw → World c → Round × World c
  unfolding write_next reserved_row
  transition_ledger id next (doc, version) w =
      write_next id next version doc (reserved_row (read_row_at id doc)) w

  unfoldable pub transition_round : Text → Next → World c → Round × World c
  unfolding transition_ledger
  transition_round id next w =
      let (answer, w') = read c w in
      elim answer [
        | none ↦ (returns false, w')
        | some snapshot ↦ transition_ledger id next snapshot w'
      ]

  unfoldable pub transition_loop : ℕ → Text → Next → World c → Bool × World c
  unfolding transition_round
  transition_loop zero id next w = (false, w)
  transition_loop (suc left) id next w =
      let (round, w') = transition_round id next w in
      elim round [ returns b ↦ (b, w') | again ↦ transition_loop left id next w' ]

  unfoldable pub transition_reservation : LedgerMode → ℕ → Text → Next → World c → Bool × World c
  unfolding transition_loop
  transition_reservation unavailable_mode attempts id next w = (false, w)
  transition_reservation mode attempts id next w = transition_loop attempts id next w
