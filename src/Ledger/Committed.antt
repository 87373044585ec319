-- ===== src/Ledger/Committed.antt =====
-- How `committedForCap` of src/lib/policyLedger.ts changes when a reservation is written.
use final_arc.Base.{
  ℕ, ◌+◌, ◌≤◌, ◌≡◌, refl, inl, inr, true, Option, none, some, List, [], ◌∷◌, or_else, arith,
  Bool-cases, Option-cases, Text, text_eq, text_eq_iff, includes, to_lower_case, big_int, get, put,
}
use final_arc.Base.Int.{ℤ}
use final_arc.Ledger.{
  LedgerReservation, LedgerDoc, reserved, released, read_row_at, VerifiedSpendFact, committed_row,
  count_verified, count_reservations, committed_for_cap,
}

module _ (now window : ℤ) where
  count-add :
      (counted : List Text) (total a : ℕ) (doc : LedgerDoc)
      → count_reservations now window counted (total + a) doc
        ≡ count_reservations now window counted total doc + a
  unfolding count_reservations
  count-add counted total a [] = refl
  count-add counted total a ((key, row) ∷ doc) =
      elim (Bool-cases (includes counted (to_lower_case row.id))) [
        | inl seen ↦ rw seen (count-add counted total a doc)
        | inr new ↦ elim (Option-cases (committed_row now window row)) [
          | inl e ↦ rw (new, e) (count-add counted total a doc)
          | inr (b, e) ↦
              rw (new, e)
                (rw (regroup b) (count-add (to_lower_case row.id ∷ counted) (total + b) a doc))
        ]
      ]
    where
      regroup : (b : ℕ) → total + a + b ≡ total + b + a
      regroup b = omega arith

  -- Every id that the one list holds is in the other.
  abbrev Within : List Text → List Text → Type 0
  Within small large = (t : Text) → includes small t ≡ true → includes large t ≡ true

  Within-cons :
      (id : Text) (small large : List Text) → Within small large → Within (id ∷ small) (id ∷ large)
  unfolding includes
  Within-cons id small large h t m = ground (arith, h t)

  Within-add :
      (id : Text) (small large : List Text)
      → Within small large
      → includes large id ≡ true
      → Within (id ∷ small) large
  unfolding includes
  Within-add id small large h at t m = ground (arith, h t, text_eq_iff id t)

  Within-grow : (id : Text) (counted : List Text) → Within counted (id ∷ counted)
  unfolding includes
  Within-grow id counted t m = ground arith

  -- The more ids are counted already, the less is added.
  count-antitone :
      (small large : List Text) (low high : ℕ) (doc : LedgerDoc)
      → Within small large
      → low ≤ high
      → count_reservations now window large low doc ≤ count_reservations now window small high doc
  unfolding count_reservations
  count-antitone small large low high [] h le = le
  count-antitone small large low high ((key, row) ∷ doc) h le =
      elim (Option-cases (committed_row now window row)) [
        | inl e ↦ elim (Bool-cases (includes small id)) [
          | inl s ↦ rw (s, h id s) (count-antitone small large low high doc h le)
          | inr s ↦ elim (Bool-cases (includes large id)) [
            | inl l ↦ rw (s, l, e) (count-antitone small large low high doc h le)
            | inr l ↦ rw (s, l, e) (count-antitone small large low high doc h le)
          ]
        ]
        | inr (a, e) ↦ elim (Bool-cases (includes small id)) [
          | inl s ↦ rw (s, h id s) (count-antitone small large low high doc h le)
          | inr s ↦ elim (Bool-cases (includes large id)) [
            | inl l ↦
                rw (s, l, e)
                  (count-antitone (id ∷ small) large low (high + a) doc
                    (Within-add id small large h l) (omega arith))
            | inr l ↦
                rw (s, l, e)
                  (count-antitone (id ∷ small) (id ∷ large) (low + a) (high + a) doc
                    (Within-cons id small large h) (omega arith))
          ]
        ]
      ]
    where
      id : Text
      id = to_lower_case row.id

  -- What stands at the key before the write counts for nothing.
  abbrev pub Uncounted : Option LedgerReservation → Type 0
  Uncounted none = Unit
  Uncounted (some row) = committed_row now window row ≡ none

  count-put :
      (counted : List Text) (total : ℕ) (key : Text) (r : LedgerReservation) (a : ℕ)
      (doc : LedgerDoc)
      → or_else (committed_row now window r) 0 ≤ a
      → Uncounted (get key doc)
      → count_reservations now window counted total (put key r doc)
        ≤ count_reservations now window counted total doc + a
  unfolding count_reservations put get
  count-put counted total key r a [] small old = ground arith
  count-put counted total key r a ((j, row) ∷ doc) small old = elim (Bool-cases (text_eq j key)) [
    | inl same ↦ ground (
      arith,
      count-add counted total a doc,
      count-add (to_lower_case r.id ∷ counted) total (or_else (committed_row now window r) 0) doc,
      count-antitone counted (to_lower_case r.id ∷ counted) total total doc,
      Within-grow (to_lower_case r.id) counted,
    )
    | inr other ↦ ground (
      arith,
      count-put counted total key r a doc small,
      count-put (to_lower_case row.id ∷ counted) (total + or_else (committed_row now window row) 0)
          key r a doc small,
    )
  ]

  reserved-amount-le :
      (r : LedgerReservation)
      → r.status ≡ reserved
      → or_else (committed_row now window r) 0 ≤ big_int r.amount_base_units
  unfolding committed_row
  reserved-amount-le r e = rw e (ground arith)

  -- A key without a readable row, or with a released one, counts for nothing.
  pub free-Uncounted :
      (key : Text) (doc : LedgerDoc)
      → ((row : LedgerReservation) → read_row_at key doc ≡ some row → row.status ≡ released)
      → Uncounted (get key doc)
  unfolding read_row_at committed_row
  free-Uncounted key doc free = elim (Option-cases (get key doc)) [
    | inl e ↦ rw e tt
    | inr (row, e) ↦ rw e (ground (arith, free row))
  ]

  -- A new reservation at a key that counts for nothing adds at most its amount to the committed
  -- spend, whatever the ids of the other rows.
  pub committed-put-le :
      (doc : LedgerDoc) (facts : List VerifiedSpendFact) (key : Text) (r : LedgerReservation)
      → r.status ≡ reserved
      → Uncounted (get key doc)
      → committed_for_cap (put key r doc) facts now window
        ≤ committed_for_cap doc facts now window + big_int r.amount_base_units
  unfolding committed_for_cap
  committed-put-le doc facts key r e old =
      let (counted, total) = count_verified now window [] 0 facts in
      count-put counted total key r (big_int r.amount_base_units) doc (reserved-amount-le r e) old
