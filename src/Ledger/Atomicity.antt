-- ===== src/Ledger/Atomicity.antt =====
-- The compare-and-set of src/lib/policyLedger.ts loses no update, and what
-- `transitionReservation` returns `true` for is one write of a reserved row.
use final_arc.Base.{
  ℕ, zero, suc, ◌≡◌, refl, ap, subst, ◌⊎◌, inl, inr, Bool, true, false, Option, none, some, or_else,
  Text, put, arith,
}
use final_arc.Ledger.{LedgerReservation, LedgerDoc, read_row_at}
use final_arc.Ledger.Store.{Codec, IsCodec, World, parse_ledger, read, commit, compare_and_set}
use final_arc.Ledger.Reserve.{LedgerMode, atomic, single_instance, unavailable_mode}
use final_arc.Ledger.Transition.{
  Next, apply_next, reserved_row, Round, returns, again, round_of, write_next, transition_round,
  transition_loop, transition_reservation,
}

module _ (c : Codec) where
  open c use {Raw, stringify, empty_text}

  same_value :
      (laws : IsCodec c) (stored version : Option Raw) (d : LedgerDoc)
      → parse_ledger c version ≡ some d
      → or_else stored empty_text ≡ or_else version empty_text
      → (parse_ledger c stored ≡ some d) ⊎ (stored ≡ some empty_text)
  unfolding parse_ledger
  same_value laws none none d h e = inl h
  same_value laws (some x) none d h e = inr (ap some e)
  same_value laws none (some y) d h e = ground (arith, laws.parse_json-empty)
  same_value laws (some x) (some y) d h e = inl (rw e h)

  -- A compare-and-set that succeeds replaces the very document that the caller evaluated: the value
  -- stored at that moment parses to the document that the version stood for. The one exception is a
  -- stored empty text, which the script cannot tell from a missing value.
  pub compare_and_set-atomic :
      (laws : IsCodec c) (version : Option Raw) (d doc : LedgerDoc) (w : World c)
      → parse_ledger c version ≡ some d
      → (compare_and_set c version doc w).0 ≡ true
      → (parse_ledger c w.stored ≡ some d) ⊎ (w.stored ≡ some empty_text)
  unfolding compare_and_set
  compare_and_set-atomic laws version d doc w h ok = same_value laws w.stored version d h (
      ground
        (arith, (laws.same_text_iff (or_else w.stored empty_text) (or_else version empty_text)).0))

  -- What a call that returns `true` has done.
  abbrev pub Transitioned : Text → Next → World c → Type 0
  Transitioned id next w =
      (d : LedgerDoc) × (row : LedgerReservation) × (reserved_row (read_row_at id d) ≡ some row)
      × (w.stored ≡ some (stringify (put id (apply_next next row) d)))

  abbrev RoundDone : Text → Next → Round × World c → Type 0
  RoundDone id next (returns true, w) = Transitioned id next w
  RoundDone id next (returns false, w) = Unit
  RoundDone id next (again, w) = Unit

  commit-stored :
      (version : Option Raw) (doc : LedgerDoc) (w : World c)
      → (commit c version doc w).0 ≡ some true
      → (commit c version doc w).1.stored ≡ some (stringify doc)
  unfolding commit
  commit-stored version doc w h = ground arith

  round_of-RoundDone :
      (id : Text) (next : Next) (ok : Option Bool) (w : World c)
      → (ok ≡ some true → Transitioned id next w)
      → RoundDone id next (round_of ok, w)
  unfolding round_of
  round_of-RoundDone id next none w h = tt
  round_of-RoundDone id next (some false) w h = tt
  round_of-RoundDone id next (some true) w h = h refl

  write_next-RoundDone :
      (id : Text) (next : Next) (version : Option Raw) (d : LedgerDoc)
      (o : Option LedgerReservation) (w : World c)
      → reserved_row (read_row_at id d) ≡ o
      → RoundDone id next (write_next c id next version d o w)
  unfolding write_next
  write_next-RoundDone id next version d none w e = tt
  write_next-RoundDone id next version d (some row) w e =
      let doc = put id (apply_next next row) d in
      round_of-RoundDone id next (commit c version doc w).0 (commit c version doc w).1
        (λ ok. (d, row, e, commit-stored version doc w ok))

  transition_round-RoundDone :
      (id : Text) (next : Next) (w : World c) → RoundDone id next (transition_round c id next w)
  unfolding transition_round
  transition_round-RoundDone id next w = by_answer (read c w).0 refl
    where
      by_answer :
          (o : Option (LedgerDoc × Option Raw))
          → (read c w).0 ≡ o
          → RoundDone id next (transition_round c id next w)
      by_answer none e = rw (e, transition_round) tt
      by_answer (some (d, version)) e =
          rw (e, transition_round) (write_next-RoundDone id next version d _ (read c w).1 refl)

  transition_loop-Transitioned :
      (left : ℕ) (id : Text) (next : Next) (w : World c)
      → (transition_loop c left id next w).0 ≡ true
      → Transitioned id next (transition_loop c left id next w).1
  unfolding transition_loop
  transition_loop-Transitioned zero id next w = λ h. absurd (cc)
  transition_loop-Transitioned (suc left) id next w =
      by_round (transition_loop-Transitioned left id next) (transition_round c id next w).0 refl
    where
      by_round :
          ((w' : World c)
            → (transition_loop c left id next w').0 ≡ true
            → Transitioned id next (transition_loop c left id next w').1)
          → (r : Round) → (transition_round c id next w).0 ≡ r
          → (transition_loop c (suc left) id next w).0 ≡ true
          → Transitioned id next (transition_loop c (suc left) id next w).1
      by_round more again e = rw (e, transition_loop) (more (transition_round c id next w).1)
      by_round more (returns false) e = rw (e, transition_loop) (λ h. absurd (cc))
      by_round more (returns true) e =
          rw (e, transition_loop)
            (λ h.
              subst (λ r. RoundDone id next (r, (transition_round c id next w).1)) e
                (transition_round-RoundDone id next w))

  -- When `transitionReservation` returns `true`, whatever other callers did in between, the stored
  -- document is some document whose row of this id is reserved, with that row replaced by its
  -- consumed or released form.
  pub transition_reservation-Transitioned :
      (mode : LedgerMode) (attempts : ℕ) (id : Text) (next : Next) (w : World c)
      → (transition_reservation c mode attempts id next w).0 ≡ true
      → Transitioned id next (transition_reservation c mode attempts id next w).1
  unfolding transition_reservation
  transition_reservation-Transitioned atomic attempts id next w =
      transition_loop-Transitioned attempts id next w
  transition_reservation-Transitioned single_instance attempts id next w =
      transition_loop-Transitioned attempts id next w
  transition_reservation-Transitioned unavailable_mode attempts id next w = λ h. absurd (cc)
