-- ===== src/Ledger/Finality.antt =====
-- A consumed row of the ledger under the operations of src/lib/policyLedger.ts: no round and no call
-- of `reserveSpendAtomically` or `transitionReservation` replaces it.
use final_arc.Base.{
  ℕ, zero, suc, ◌+◌, ◌≡◌, refl, sym, subst, inl, inr, Option, none, some, List, [], ◌∷◌, Text,
  text_eq, put, Bool-cases,
}
use final_arc.Policy.{PolicyReason}
use final_arc.Ledger.{LedgerReservation, LedgerDoc, read_row_at, recover_reservations}
use final_arc.Ledger.Store.{Codec, IsCodec, World, parse_ledger, read}
use final_arc.Ledger.Reserve.{
  ReserveArgs, LedgerMode, atomic, single_instance, unavailable_mode, Attempt, finished, retry,
  cap_reasons, live_row, keep_existing, reserve_or_deny, evaluate_row, evaluate_ledger,
  attempt_reserve, reserve_loop, reserve_spend_atomically,
}
use final_arc.Ledger.Transition.{
  Next, apply_next, reserved_row, Round, returns, again, write_next, transition_ledger,
  transition_round, transition_loop, transition_reservation,
}
use final_arc.Ledger.Lifecycle.{recover-IsConsumed, reserve-IsConsumed, apply_next-IsConsumed}
use final_arc.Ledger.Interleaving.{
  StoresConsumed, Keeps, Moves, reserve_after_read, transition_after_read, reserve_call,
  transition_call, Reaches, here, after_move, read-parse_ledger, commit-Keeps, read-Keeps,
}

module _ (c : Codec) (laws : IsCodec c) (key : Text) (row : LedgerReservation) where
  module _ (a : ReserveArgs) where
    keep_existing-Keeps :
        (n : ℕ) (version : Option c.Raw) (d : LedgerDoc) (existing : LedgerReservation)
        (w : World c)
        → parse_ledger c version ≡ some d
        → Keeps c key row w
        → Keeps c key row
            (keep_existing c a n version
              (recover_reservations a.intents a.now d).0
              (recover_reservations a.intents a.now d).1
              existing
              w).1
    unfolding keep_existing
    keep_existing-Keeps n version d existing w h kept =
        let doc = (recover_reservations a.intents a.now d).0 in
        elim (Bool-cases (text_eq existing.amount_base_units a.reservation.amount_base_units)) [
          | inr differ ↦ rw (differ, keep_existing) kept
          | inl same ↦ elim (Bool-cases (recover_reservations a.intents a.now d).1) [
            | inr unchanged ↦ rw (same, unchanged, keep_existing) kept
            | inl changed ↦
                rw (same, changed, keep_existing)
                  (commit-Keeps c laws key row version d doc w h
                    (recover-IsConsumed a.intents a.now key row d) kept)
          ]
        ]

    reserve_or_deny-Keeps :
        (n : ℕ) (version : Option c.Raw) (d : LedgerDoc) (reasons : List PolicyReason) (w : World c)
        → parse_ledger c version ≡ some d
        → live_row (read_row_at a.reservation.id (recover_reservations a.intents a.now d).0) ≡ none
        → Keeps c key row w
        → Keeps c key row
            (reserve_or_deny c a n version (recover_reservations a.intents a.now d).0 reasons w).1
    unfolding reserve_or_deny
    reserve_or_deny-Keeps n version d (r ∷ rs) w h free kept = kept
    reserve_or_deny-Keeps n version d [] w h free kept =
        let doc = (recover_reservations a.intents a.now d).0 in
        commit-Keeps c laws key row version d (put a.reservation.id a.reservation doc) w h
          (λ held.
            reserve-IsConsumed a key row doc free
              (recover-IsConsumed a.intents a.now key row d held))
          kept

    evaluate_row-Keeps :
        (n : ℕ) (version : Option c.Raw) (d : LedgerDoc) (o : Option LedgerReservation)
        (w : World c)
        → parse_ledger c version ≡ some d
        → live_row (read_row_at a.reservation.id (recover_reservations a.intents a.now d).0) ≡ o
        → Keeps c key row w
        → Keeps c key row
            (evaluate_row c a n version
              (recover_reservations a.intents a.now d).0
              (recover_reservations a.intents a.now d).1
              o
              w).1
    unfolding evaluate_row
    evaluate_row-Keeps n version d none w h free kept =
        reserve_or_deny-Keeps n version d
          (cap_reasons a (recover_reservations a.intents a.now d).0 a.policies) w h free kept
    evaluate_row-Keeps n version d (some existing) w h found kept =
        keep_existing-Keeps n version d existing w h kept

    evaluate_ledger-Keeps :
        (n : ℕ) (d : LedgerDoc) (version : Option c.Raw) (w : World c)
        → parse_ledger c version ≡ some d
        → Keeps c key row w
        → Keeps c key row (evaluate_ledger c a n (d, version) w).1
    unfolding evaluate_ledger
    evaluate_ledger-Keeps n d version w h kept = evaluate_row-Keeps n version d _ w h refl kept

    attempt_reserve-Keeps :
        (n : ℕ) (w : World c) → Keeps c key row w → Keeps c key row (attempt_reserve c a n w).1
    unfolding attempt_reserve
    attempt_reserve-Keeps n w kept = by_answer (read c w).0 refl
      where
        by_answer :
            (o : Option (LedgerDoc × Option c.Raw))
            → (read c w).0 ≡ o
            → Keeps c key row (attempt_reserve c a n w).1
        by_answer none e = rw (e, attempt_reserve) (read-Keeps c laws key row w kept)
        by_answer (some (d, version)) e =
            rw (e, attempt_reserve)
              (evaluate_ledger-Keeps n d version (read c w).1 (read-parse_ledger c w d version e)
                (read-Keeps c laws key row w kept))

    reserve_loop-Keeps :
        (left n : ℕ) (w : World c)
        → Keeps c key row w
        → Keeps c key row (reserve_loop c left a n w).1
    unfolding reserve_loop
    reserve_loop-Keeps zero n w kept = kept
    reserve_loop-Keeps (suc left) n w kept =
        by_result (reserve_loop-Keeps left (n + 1)) (attempt_reserve c a n w).0 refl
          (attempt_reserve-Keeps n w kept)
      where
        by_result :
            ((w' : World c)
              → Keeps c key row w'
              → Keeps c key row (reserve_loop c left a (n + 1) w').1)
            → (r : Attempt) → (attempt_reserve c a n w).0 ≡ r
            → Keeps c key row (attempt_reserve c a n w).1
            → Keeps c key row (reserve_loop c (suc left) a n w).1
        by_result more retry e = rw (e, reserve_loop) (more (attempt_reserve c a n w).1)
        by_result more (finished outcome) e = rw (e, reserve_loop) (λ k. k)

    reserve_spend_atomically-Keeps :
        (mode : LedgerMode) (max_attempts : ℕ) (w : World c)
        → Keeps c key row w
        → Keeps c key row (reserve_spend_atomically c mode max_attempts a w).1
    unfolding reserve_spend_atomically
    reserve_spend_atomically-Keeps atomic max_attempts = reserve_loop-Keeps max_attempts 1
    reserve_spend_atomically-Keeps single_instance max_attempts = reserve_loop-Keeps max_attempts 1
    reserve_spend_atomically-Keeps unavailable_mode max_attempts = λ w kept. kept

  module _ (id : Text) (next : Next) where
    write_next-Keeps :
        (version : Option c.Raw) (d : LedgerDoc) (o : Option LedgerReservation) (w : World c)
        → parse_ledger c version ≡ some d
        → reserved_row (read_row_at id d) ≡ o
        → Keeps c key row w
        → Keeps c key row (write_next c id next version d o w).1
    unfolding write_next
    write_next-Keeps version d none w h found kept = kept
    write_next-Keeps version d (some old) w h found kept =
        commit-Keeps c laws key row version d (put id (apply_next next old) d) w h
          (apply_next-IsConsumed id next old key row d found) kept

    transition_ledger-Keeps :
        (d : LedgerDoc) (version : Option c.Raw) (w : World c)
        → parse_ledger c version ≡ some d
        → Keeps c key row w
        → Keeps c key row (transition_ledger c id next (d, version) w).1
    unfolding transition_ledger
    transition_ledger-Keeps d version w h kept = write_next-Keeps version d _ w h refl kept

    transition_round-Keeps :
        (w : World c) → Keeps c key row w → Keeps c key row (transition_round c id next w).1
    unfolding transition_round
    transition_round-Keeps w kept = by_answer (read c w).0 refl
      where
        by_answer :
            (o : Option (LedgerDoc × Option c.Raw))
            → (read c w).0 ≡ o
            → Keeps c key row (transition_round c id next w).1
        by_answer none e = rw (e, transition_round) (read-Keeps c laws key row w kept)
        by_answer (some (d, version)) e =
            rw (e, transition_round)
              (transition_ledger-Keeps d version (read c w).1 (read-parse_ledger c w d version e)
                (read-Keeps c laws key row w kept))

    transition_loop-Keeps :
        (left : ℕ) (w : World c)
        → Keeps c key row w
        → Keeps c key row (transition_loop c left id next w).1
    unfolding transition_loop
    transition_loop-Keeps zero w kept = kept
    transition_loop-Keeps (suc left) w kept =
        by_round (transition_loop-Keeps left) (transition_round c id next w).0 refl
          (transition_round-Keeps w kept)
      where
        by_round :
            ((w' : World c)
              → Keeps c key row w'
              → Keeps c key row (transition_loop c left id next w').1)
            → (r : Round) → (transition_round c id next w).0 ≡ r
            → Keeps c key row (transition_round c id next w).1
            → Keeps c key row (transition_loop c (suc left) id next w).1
        by_round more again e = rw (e, transition_loop) (more (transition_round c id next w).1)
        by_round more (returns b) e = rw (e, transition_loop) (λ k. k)

    transition_reservation-Keeps :
        (mode : LedgerMode) (attempts : ℕ) (w : World c)
        → Keeps c key row w
        → Keeps c key row (transition_reservation c mode attempts id next w).1
    unfolding transition_reservation
    transition_reservation-Keeps atomic attempts = transition_loop-Keeps attempts
    transition_reservation-Keeps single_instance attempts = transition_loop-Keeps attempts
    transition_reservation-Keeps unavailable_mode attempts = λ w kept. kept

  Moves-StoresConsumed :
      {s t : Option c.Raw} → Moves c s t → StoresConsumed c key row s → StoresConsumed c key row t
  Moves-StoresConsumed (reserve_after_read a n (d, version) earlier w found own from to) h =
      subst (StoresConsumed c key row) to
        (evaluate_ledger-Keeps a n d version w (read-parse_ledger c earlier d version found)
          (own, subst (StoresConsumed c key row) (sym from) h)).1
  Moves-StoresConsumed (transition_after_read id next (d, version) earlier w found own from to) h =
      subst (StoresConsumed c key row) to
        (transition_ledger-Keeps id next d version w (read-parse_ledger c earlier d version found)
          (own, subst (StoresConsumed c key row) (sym from) h)).1
  Moves-StoresConsumed (reserve_call mode max_attempts a w own from to) h =
      subst (StoresConsumed c key row) to
        (reserve_spend_atomically-Keeps a mode max_attempts w
          (own, subst (StoresConsumed c key row) (sym from) h)).1
  Moves-StoresConsumed (transition_call mode attempts id next w own from to) h =
      subst (StoresConsumed c key row) to
        (transition_reservation-Keeps id next mode attempts w
          (own, subst (StoresConsumed c key row) (sym from) h)).1

  -- A consumed reservation is final. Any callers may run `reserveSpendAtomically` and
  -- `transitionReservation`, with any arguments, as whole calls or as rounds that other callers'
  -- moves fall into between the read and the compare-and-set, and the connection may fail at any
  -- operation, before or after Redis has run it. When the stored ledger has a readable row that is
  -- consumed, it has that very row after all of it, its amount and the time of its consumption
  -- included. The conditions: comparing texts decides their equality, a ledger that is written as
  -- JSON is read back, and the empty text is no JSON.
  pub Reaches-StoresConsumed :
      {s t : Option c.Raw} → Reaches c s t → StoresConsumed c key row s → StoresConsumed c key row t
  Reaches-StoresConsumed here h = h
  Reaches-StoresConsumed (after_move r m) h = Moves-StoresConsumed m (Reaches-StoresConsumed r h)
