-- ===== src/Ledger/Reserve/Outcome.antt =====
-- What each outcome of `reserveSpendAtomically` (src/lib/policyLedger.ts) says of the ledger.
use final_arc.Base.{
  ℕ, suc, zero, ◌+◌, ◌≡◌, ◌≢◌, refl, sym, ◌⊎◌, inl, inr, Bool, true, false, Option, none, some,
  List, [], ◌∷◌, text_eq, text_eq_iff, big_int, put, arith, Bool-cases,
}
use final_arc.Policy.{PolicyReason}
use final_arc.Ledger.{
  reserved, released, LedgerReservation, LedgerDoc, read_row_at, recover_reservations,
}
use final_arc.Ledger.Store.{Codec, World, parse_ledger, read, commit}
use final_arc.Ledger.Reserve.{
  ReserveOutcome, reserved_at, already_reserved, deny, conflict, unavailable, Attempt, finished,
  retry, ReserveArgs, LedgerMode, unavailable_mode, atomic, single_instance, cap_reasons, live_row,
  after_commit, evaluate_ledger, evaluate_row, reserve_or_deny, keep_existing, attempt_reserve,
  reserve_loop, reserve_spend_atomically,
}
use final_arc.Ledger.Reserve.Caps.{
  CapsHold, cap_reasons_iff, put-CapsHold, recover_reservations-unchanged, live_row-none,
  live_row-some,
}

module _ (c : Codec) (a : ReserveArgs) where
  open c use {Raw, stringify}

  abbrev pub recovered_doc : LedgerDoc → LedgerDoc
  recovered_doc d = (recover_reservations a.intents a.now d).0

  abbrev pub amount : ℕ
  amount = big_int a.reservation.amount_base_units

  -- The stored value is this document, as it was read or as it was written.
  abbrev pub Stores : World c → LedgerDoc → Type 0
  Stores w d = (parse_ledger c w.stored ≡ some d) ⊎ (w.stored ≡ some (stringify d))

  -- What an outcome says of the ledger at the moment of the last operation.
  abbrev pub Justified : ReserveOutcome → World c → Type 0
  Justified (reserved_at n) w =
      (d : LedgerDoc) × (w.stored ≡ some (stringify (put a.reservation.id a.reservation d)))
      × CapsHold a (put a.reservation.id a.reservation d) 0 a.policies
  Justified (already_reserved n) w =
      (d : LedgerDoc) × (row : LedgerReservation) × Stores w d
      × (read_row_at a.reservation.id d ≡ some row)
      × (row.status ≢ released)
      × (row.amount_base_units ≡ a.reservation.amount_base_units)
  Justified (deny reasons n) w =
      (d : LedgerDoc) × (parse_ledger c w.stored ≡ some d)
      × (reasons ≢ [])
      × (reasons ≡ cap_reasons a (recovered_doc d) a.policies)
      × ¬ CapsHold a (recovered_doc d) amount a.policies
  Justified conflict w =
      (d : LedgerDoc) × (row : LedgerReservation) × (parse_ledger c w.stored ≡ some d)
      × (read_row_at a.reservation.id (recovered_doc d) ≡ some row)
      × (row.status ≢ released)
      × (row.amount_base_units ≢ a.reservation.amount_base_units)
  Justified (unavailable n) w = Unit

  abbrev AttemptJustified : Attempt × World c → Type 0
  AttemptJustified (finished outcome, w) = Justified outcome w
  AttemptJustified (retry, w) = Unit

  read-parse :
      (w : World c) (doc : LedgerDoc) (version : Option Raw)
      → (read c w).0 ≡ some (doc, version)
      → parse_ledger c (read c w).1.stored ≡ some doc
  unfolding read
  read-parse w doc version h = ground arith

  commit-stored :
      (version : Option Raw) (doc : LedgerDoc) (w : World c)
      → (commit c version doc w).0 ≡ some true
      → (commit c version doc w).1.stored ≡ some (stringify doc)
  unfolding commit
  commit-stored version doc w h = ground arith

  after_commit-Justified :
      (done : ReserveOutcome) (n : ℕ) (ok : Option Bool) (w : World c)
      → (ok ≡ some true → Justified done w)
      → AttemptJustified (after_commit done n ok, w)
  unfolding after_commit
  after_commit-Justified done n none w h = tt
  after_commit-Justified done n (some false) w h = tt
  after_commit-Justified done n (some true) w h = h refl

  keep_existing-Justified :
      (n : ℕ) (d : LedgerDoc) (version : Option Raw) (row : LedgerReservation) (w : World c)
      → parse_ledger c w.stored ≡ some d
      → read_row_at a.reservation.id (recovered_doc d) ≡ some row
      → row.status ≢ released
      → AttemptJustified (
          keep_existing c a n version
            (recovered_doc d)
            (recover_reservations a.intents a.now d).1
            row
            w)
  unfolding keep_existing
  keep_existing-Justified n d version row w h e live =
      elim (Bool-cases (text_eq row.amount_base_units a.reservation.amount_base_units)) [
        | inr differ ↦
            rw (differ, keep_existing)
              (
                d,
                row,
                h,
                e,
                live,
                λ same.
                    ground
                      (arith, text_eq_iff row.amount_base_units a.reservation.amount_base_units),
              )
        | inl same ↦ elim (Bool-cases (recover_reservations a.intents a.now d).1) [
          | inr kept ↦
              rw (same, kept, keep_existing)
                (
                  d,
                  row,
                  inl h,
                  (rw (recover_reservations-unchanged a d kept) at e),
                  live,
                  (text_eq_iff _ _).0 same,
                )
          | inl changed ↦
              rw (same, changed, keep_existing)
                (after_commit-Justified (already_reserved n) n
                  (commit c version (recovered_doc d) w).0 (commit c version (recovered_doc d) w).1
                  (λ ok. (
                    recovered_doc d,
                    row,
                    inr (commit-stored version (recovered_doc d) w ok),
                    e,
                    live,
                    (text_eq_iff _ _).0 same,
                  )))
        ]
      ]

  reserve_or_deny-Justified :
      (n : ℕ) (d : LedgerDoc) (version : Option Raw) (w : World c) (reasons : List PolicyReason)
      → a.reservation.status ≡ reserved
      → parse_ledger c w.stored ≡ some d
      → ((row : LedgerReservation)
          → read_row_at a.reservation.id (recovered_doc d) ≡ some row
          → row.status ≡ released)
      → cap_reasons a (recovered_doc d) a.policies ≡ reasons
      → AttemptJustified (reserve_or_deny c a n version (recovered_doc d) reasons w)
  unfolding reserve_or_deny
  reserve_or_deny-Justified n d version w (r ∷ rs) s h free e = (
    d,
    h,
    (λ nil. cc),
    sym e,
    (λ fits. let nil = (cap_reasons_iff a (recovered_doc d) a.policies).1 fits in cc),
  )
  reserve_or_deny-Justified n d version w [] s h free e =
      let doc = put a.reservation.id a.reservation (recovered_doc d) in
      after_commit-Justified (reserved_at n) n (commit c version doc w).0 (commit c version doc w).1
        (λ ok. (
          recovered_doc d,
          commit-stored version doc w ok,
          put-CapsHold a (recovered_doc d) a.policies s free
              ((cap_reasons_iff a (recovered_doc d) a.policies).0 e),
        ))

  evaluate_row-Justified :
      (n : ℕ) (d : LedgerDoc) (version : Option Raw) (w : World c) (o : Option LedgerReservation)
      → a.reservation.status ≡ reserved
      → parse_ledger c w.stored ≡ some d
      → live_row (read_row_at a.reservation.id (recovered_doc d)) ≡ o
      → AttemptJustified (
          evaluate_row c a n version
            (recovered_doc d)
            (recover_reservations a.intents a.now d).1
            o
            w)
  unfolding evaluate_row
  evaluate_row-Justified n d version w none s h e =
      reserve_or_deny-Justified n d version w _ s h (live_row-none _ e) refl
  evaluate_row-Justified n d version w (some row) s h e =
      let live = live_row-some _ row e in keep_existing-Justified n d version row w h live.0 live.1

  attempt_reserve-Justified :
      (n : ℕ) (w : World c)
      → a.reservation.status ≡ reserved
      → AttemptJustified (attempt_reserve c a n w)
  unfolding attempt_reserve evaluate_ledger
  attempt_reserve-Justified n w s = by_answer (read c w).0 refl
    where
      by_answer :
          (o : Option (LedgerDoc × Option Raw))
          → (read c w).0 ≡ o
          → AttemptJustified (attempt_reserve c a n w)
      by_answer none e = rw (e, attempt_reserve) tt
      by_answer (some (d, version)) e =
          rw (e, attempt_reserve)
            (evaluate_row-Justified n d version (read c w).1 _ s (read-parse w d version e) refl)

  reserve_loop-Justified :
      (left n : ℕ) (w : World c)
      → a.reservation.status ≡ reserved
      → let (outcome, w') = reserve_loop c left a n w in Justified outcome w'
  unfolding reserve_loop
  reserve_loop-Justified zero n w s = tt
  reserve_loop-Justified (suc left) n w s =
      by_result (λ w'. reserve_loop-Justified left (n + 1) w' s) (attempt_reserve c a n w).0 refl
    where
      by_result :
          ((w' : World c)
            → let (outcome, w'') = reserve_loop c left a (n + 1) w' in Justified outcome w'')
          → (t : Attempt) → (attempt_reserve c a n w).0 ≡ t
          → let (outcome, w') = reserve_loop c (suc left) a n w in Justified outcome w'
      by_result again retry e = rw (e, reserve_loop) (again (attempt_reserve c a n w).1)
      by_result again (finished outcome) e =
          rw (e, reserve_loop) (rw e at (attempt_reserve-Justified n w s))

  -- Whatever the other writers and the connection do between the operations, each outcome is true of
  -- the ledger when the call ends. `reserved_at`: the stored document is the reservation written
  -- into a document, and it keeps every cap. `already_reserved`: a row of this id with this amount
  -- is held, not released. `deny`: the reasons are not empty and are those of the stored document,
  -- where the amount does not fit the caps. `conflict`: the id is held for another amount. The
  -- hypothesis: the reservation that the caller passes is a new one, of status `reserved`.
  pub reserve_spend_atomically-Justified :
      (mode : LedgerMode) (max_attempts : ℕ) (w : World c)
      → a.reservation.status ≡ reserved
      → let (outcome, w') = reserve_spend_atomically c mode max_attempts a w in Justified outcome w'
  unfolding reserve_spend_atomically
  reserve_spend_atomically-Justified atomic max_attempts w s =
      reserve_loop-Justified max_attempts 1 w s
  reserve_spend_atomically-Justified single_instance max_attempts w s =
      reserve_loop-Justified max_attempts 1 w s
  reserve_spend_atomically-Justified unavailable_mode max_attempts w s = tt
