-- ===== src/Ledger/Lifecycle.antt =====
-- What the writes of src/lib/policyLedger.ts leave of a consumed row of a document.
use final_arc.Base.{
  ◌≡◌, ◌≢◌, refl, inl, inr, true, false, Option, none, some, [], ◌∷◌, or_else, Text, text_eq,
  text_eq→eq, text_eq_refl, to_lower_case, get, put, get-put, arith, Bool-cases,
}
use final_arc.Base.Int.{ℤ}
use final_arc.Ledger.{
  consumed, LedgerReservation, LedgerDoc, IntentFact, read_row, read_row_at, recover_value,
  recover_if_reserved, recover_reservations,
}
use final_arc.Ledger.Reserve.{ReserveArgs, live_row}
use final_arc.Ledger.Transition.{Next, apply_next, reserved_row}

abbrev map_some : {A : Type 0} → (A → A) → Option A → Option A
map_some f none = none
map_some f (some a) = some (f a)

-- Recovery rewrites each row on its own, by the intent of its key.
get-recover_reservations :
    (intents : Text → Option IntentFact) (now : ℤ) (key : Text) (doc : LedgerDoc)
    → get key (recover_reservations intents now doc).0
      ≡ map_some
          (λ row. or_else (recover_value now (intents (to_lower_case key)) row) row)
          (get key doc)
unfolding get recover_reservations
get-recover_reservations intents now key [] = refl
get-recover_reservations intents now key ((j, row) ∷ doc) = elim (Bool-cases (text_eq j key)) [
  | inl same ↦ rw (text_eq→eq j key same) (ground (arith, text_eq_refl key))
  | inr other ↦ ground (arith, get-recover_reservations intents now key doc)
]

-- The row at a key is consumed, and can be read.
abbrev pub IsConsumed : Text → LedgerReservation → LedgerDoc → Type 0
IsConsumed key row doc =
    (get key doc ≡ some row) × (row.status ≡ consumed) × (read_row row ≡ some row)

pub recover-IsConsumed :
    (intents : Text → Option IntentFact) (now : ℤ) (key : Text) (row : LedgerReservation)
    (doc : LedgerDoc)
    → IsConsumed key row doc
    → IsConsumed key row (recover_reservations intents now doc).0
unfolding recover_value recover_if_reserved
recover-IsConsumed intents now key row doc (at, s, r) =
    (rw (get-recover_reservations intents now key doc, at) (ground arith), s, r)

put-IsConsumed :
    (key id : Text) (row new : LedgerReservation) (doc : LedgerDoc)
    → text_eq id key ≡ false
    → IsConsumed key row doc
    → IsConsumed key row (put id new doc)
put-IsConsumed key id row new doc other (at, s, r) = (rw (get-put key id new doc, other) at, s, r)

consumed-read_row_at :
    (key id : Text) (row : LedgerReservation) (doc : LedgerDoc)
    → text_eq id key ≡ true
    → IsConsumed key row doc
    → read_row_at id doc ≡ some row
unfolding read_row_at
consumed-read_row_at key id row doc same (at, s, r) =
    rw (text_eq→eq id key same) (rw (read_row_at, at) r)

consumed-live_row :
    (o : Option LedgerReservation) (row : LedgerReservation)
    → o ≡ some row
    → row.status ≡ consumed
    → live_row o ≢ none
unfolding live_row
consumed-live_row o row e s = ground arith

consumed-reserved_row :
    (o : Option LedgerReservation) (row old : LedgerReservation)
    → o ≡ some row
    → row.status ≡ consumed
    → reserved_row o ≢ some old
unfolding reserved_row
consumed-reserved_row o row old e s = ground arith

-- A reservation is only written at an id that holds no consumed row.
pub reserve-IsConsumed :
    (a : ReserveArgs) (key : Text) (row : LedgerReservation) (doc : LedgerDoc)
    → live_row (read_row_at a.reservation.id doc) ≡ none
    → IsConsumed key row doc
    → IsConsumed key row (put a.reservation.id a.reservation doc)
reserve-IsConsumed a key row doc free h = elim (Bool-cases (text_eq a.reservation.id key)) [
  | inl same ↦
      absurd (
        consumed-live_row _ row (consumed-read_row_at key a.reservation.id row doc same h) h.1 free)
  | inr other ↦ put-IsConsumed key a.reservation.id row a.reservation doc other h
]

-- A row only changes its status while it is reserved.
pub apply_next-IsConsumed :
    (id : Text) (next : Next) (old : LedgerReservation) (key : Text) (row : LedgerReservation)
    (doc : LedgerDoc)
    → reserved_row (read_row_at id doc) ≡ some old
    → IsConsumed key row doc
    → IsConsumed key row (put id (apply_next next old) doc)
apply_next-IsConsumed id next old key row doc found h = elim (Bool-cases (text_eq id key)) [
  | inl same ↦
      absurd
        (consumed-reserved_row _ row old (consumed-read_row_at key id row doc same h) h.1 found)
  | inr other ↦ put-IsConsumed key id row (apply_next next old) doc other h
]
