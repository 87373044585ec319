-- ===== src/Ledger/Reserve/Caps.antt =====
-- The spend caps that `reserveSpendAtomically` (src/lib/policyLedger.ts) checks, as propositions.
use final_arc.Base.{
  ℕ, ◌+◌, ◌≤◌, ◌≡◌, ◌≢◌, refl, false, Option, none, some, List, [], ◌∷◌, ◌++◌, Text, big_int, put,
  All, arith,
}
use final_arc.Base.Int.{ℤ}
use final_arc.Policy.{PolicyReason}
use final_arc.Ledger.{
  reserved, released, LedgerReservation, LedgerDoc, read_row_at, recover_reservations,
  committed_for_cap,
}
use final_arc.Ledger.Committed.{free-Uncounted, committed-put-le}
use final_arc.Ledger.Reserve.{StoredPolicy, ReserveArgs, cap_reasons, cap_reasons_of, live_row}

-- The committed spend with `extra` on top stays within a cap, where a policy sets one.
abbrev pub CapHolds : ReserveArgs → LedgerDoc → ℕ → Option Text → Option ℤ → Type 0
CapHolds a doc extra (some cap) (some window) =
    committed_for_cap doc a.verified a.now window + extra ≤ big_int cap
CapHolds a doc extra none window = Unit
CapHolds a doc extra (some cap) none = Unit

abbrev pub CapsHold : ReserveArgs → LedgerDoc → ℕ → List StoredPolicy → Type 0
CapsHold a doc extra = All (λ p. CapHolds a doc extra p.1.max_spend_base_units p.1.window_seconds)

cap_reasons_of_iff :
    (a : ReserveArgs) (doc : LedgerDoc) (id : Text) (cap : Option Text) (window : Option ℤ)
    → (cap_reasons_of a doc id cap window ≡ []
        → CapHolds a doc (big_int a.reservation.amount_base_units) cap window)
      × (CapHolds a doc (big_int a.reservation.amount_base_units) cap window
          → cap_reasons_of a doc id cap window ≡ [])
unfolding cap_reasons_of
cap_reasons_of_iff a doc id (some cap) (some window) = ground arith
cap_reasons_of_iff a doc id none window = ((λ _. tt), (λ _. refl))
cap_reasons_of_iff a doc id (some cap) none = ((λ _. tt), (λ _. refl))

append-eq-nil : (xs ys : List PolicyReason) → xs ++ ys ≡ [] → (xs ≡ []) × (ys ≡ [])
append-eq-nil [] ys h = (refl, h)
append-eq-nil (x ∷ xs) ys h = cc

-- No policy gives a reason exactly when the payment fits every cap.
pub cap_reasons_iff :
    (a : ReserveArgs) (doc : LedgerDoc) (ps : List StoredPolicy)
    → (cap_reasons a doc ps ≡ [] → CapsHold a doc (big_int a.reservation.amount_base_units) ps)
      × (CapsHold a doc (big_int a.reservation.amount_base_units) ps → cap_reasons a doc ps ≡ [])
unfolding cap_reasons
cap_reasons_iff a doc [] = ((λ _. tt), (λ _. refl))
cap_reasons_iff a doc ((id, rules) ∷ ps) =
    let one = cap_reasons_of_iff a doc id rules.max_spend_base_units rules.window_seconds in
    let more = cap_reasons_iff a doc ps in
    (
      (λ h. let e = append-eq-nil _ _ h in (one.0 e.0, more.0 e.1)),
      (λ h. rw (one.1 h.0, more.1 h.1)),
    )

-- Writing the reservation over a free key keeps every cap, if it fitted before.
put-CapHolds :
    (a : ReserveArgs) (doc : LedgerDoc) (cap : Option Text) (window : Option ℤ)
    → a.reservation.status ≡ reserved
    → ((row : LedgerReservation)
        → read_row_at a.reservation.id doc ≡ some row
        → row.status ≡ released)
    → CapHolds a doc (big_int a.reservation.amount_base_units) cap window
    → CapHolds a (put a.reservation.id a.reservation doc) 0 cap window
put-CapHolds a doc none window s free h = tt
put-CapHolds a doc (some cap) none s free h = tt
put-CapHolds a doc (some cap) (some window) s free h = omega (
  arith,
  committed-put-le a.now window doc a.verified a.reservation.id a.reservation s
      (free-Uncounted a.now window a.reservation.id doc free),
)

pub put-CapsHold :
    (a : ReserveArgs) (doc : LedgerDoc) (ps : List StoredPolicy)
    → a.reservation.status ≡ reserved
    → ((row : LedgerReservation)
        → read_row_at a.reservation.id doc ≡ some row
        → row.status ≡ released)
    → CapsHold a doc (big_int a.reservation.amount_base_units) ps
    → CapsHold a (put a.reservation.id a.reservation doc) 0 ps
put-CapsHold a doc [] s free h = tt
put-CapsHold a doc ((id, rules) ∷ ps) s free h =
    (put-CapHolds a doc _ _ s free h.0, put-CapsHold a doc ps s free h.1)

pub recover_reservations-unchanged :
    (a : ReserveArgs) (doc : LedgerDoc)
    → (recover_reservations a.intents a.now doc).1 ≡ false
    → (recover_reservations a.intents a.now doc).0 ≡ doc
unfolding recover_reservations
recover_reservations-unchanged a [] h = refl
recover_reservations-unchanged a ((id, value) ∷ doc) h =
    ground (arith, recover_reservations-unchanged a doc)

-- A row that `live_row` passes over is none, or released.
pub live_row-none :
    (o : Option LedgerReservation)
    → live_row o ≡ none
    → (row : LedgerReservation) → o ≡ some row
    → row.status ≡ released
unfolding live_row
live_row-none o h row e = ground arith

pub live_row-some :
    (o : Option LedgerReservation) (row : LedgerReservation)
    → live_row o ≡ some row
    → (o ≡ some row) × (row.status ≢ released)
unfolding live_row
live_row-some o row h = ground arith
