-- ===== src/Ledger/Interleaving.antt =====
-- The rounds of `reserveSpendAtomically` and `transitionReservation` (src/lib/policyLedger.ts) of
-- any callers, in any order on one stored ledger.
use final_arc.Base.{
  ℕ, ◌≡◌, refl, ap, sym, ◌∙◌, subst, inl, inr, Option, none, some, or_else, All, Text, arith,
  Bool-cases,
}
use final_arc.Ledger.{LedgerReservation, LedgerDoc}
use final_arc.Ledger.Store.{
  Codec, IsCodec, World, Event, parse_ledger, next_event, read_after, read, compare_and_set,
  commit_after, commit,
}
use final_arc.Ledger.Reserve.{ReserveArgs, LedgerMode, evaluate_ledger, reserve_spend_atomically}
use final_arc.Ledger.Transition.{Next, transition_ledger, transition_reservation}
use final_arc.Ledger.Lifecycle.{IsConsumed}

module _ (c : Codec) where
  open c use {Raw, empty_text, same_text, parse_json, stringify}

  -- No write by another caller: the connection works or fails.
  abbrev pub OwnEvent : Event c → Type 0
  OwnEvent Event.quiet = Unit
  OwnEvent (Event.other_writes v) = ⊥
  OwnEvent Event.outage = Unit
  OwnEvent Event.reply_lost = Unit

  -- The stored text is a document in which a row is consumed.
  abbrev pub StoresConsumed : Text → LedgerReservation → Option Raw → Type 0
  StoresConsumed key row stored =
      (raw : Raw) × (d : LedgerDoc) × (stored ≡ some raw)
      × (parse_json raw ≡ some d)
      × IsConsumed key row d

  abbrev pub Keeps : Text → LedgerReservation → World c → Type 0
  Keeps key row w = All OwnEvent w.events × StoresConsumed key row w.stored

  -- What one caller does to the stored text without another write in between: the rest of a round
  -- after its read, which may lie any number of other moves back, or a whole call. The connection
  -- may fail at each operation, before or after Redis has run it.
  pub data Moves (s t : Option Raw) : Type 0 where
    reserve_after_read :
        (a : ReserveArgs) (n : ℕ) (snapshot : LedgerDoc × Option Raw) (earlier w : World c)
        → (read c earlier).0 ≡ some snapshot
        → All OwnEvent w.events
        → w.stored ≡ s
        → (evaluate_ledger c a n snapshot w).1.stored ≡ t
        → Moves s t
    transition_after_read :
        (id : Text) (next : Next) (snapshot : LedgerDoc × Option Raw) (earlier w : World c)
        → (read c earlier).0 ≡ some snapshot
        → All OwnEvent w.events
        → w.stored ≡ s
        → (transition_ledger c id next snapshot w).1.stored ≡ t
        → Moves s t
    reserve_call :
        (mode : LedgerMode) (max_attempts : ℕ) (a : ReserveArgs) (w : World c)
        → All OwnEvent w.events
        → w.stored ≡ s
        → (reserve_spend_atomically c mode max_attempts a w).1.stored ≡ t
        → Moves s t
    transition_call :
        (mode : LedgerMode) (attempts : ℕ) (id : Text) (next : Next) (w : World c)
        → All OwnEvent w.events
        → w.stored ≡ s
        → (transition_reservation c mode attempts id next w).1.stored ≡ t
        → Moves s t

  -- Any number of moves, by any callers in any order.
  pub data Reaches (s : Option Raw) : Option Raw → Type 0 where
    here : Reaches s s
    after_move : {t u : Option Raw} → Reaches s t → Moves t u → Reaches s u

  pub read-parse_ledger :
      (w : World c) (d : LedgerDoc) (version : Option Raw)
      → (read c w).0 ≡ some (d, version)
      → parse_ledger c version ≡ some d
  unfolding read
  read-parse_ledger w d version h = ground arith

  next_event-OwnEvent :
      (w : World c)
      → All OwnEvent w.events
      → OwnEvent (next_event c w).0
        × All OwnEvent (next_event c w).1.events
        × ((next_event c w).1.stored ≡ w.stored)
  unfolding next_event
  next_event-OwnEvent w own = ground arith

  module _ (laws : IsCodec c) (key : Text) (row : LedgerReservation) where
    -- A version that compares equal to a text with the row is that text.
    same_document :
        (version : Option Raw) (d : LedgerDoc) (raw : Raw) (e : LedgerDoc)
        → parse_ledger c version ≡ some d
        → raw ≡ or_else version empty_text
        → parse_json raw ≡ some e
        → e ≡ d
    unfolding parse_ledger
    same_document none d raw e h same p = ground (arith, laws.parse_json-empty)
    same_document (some x) d raw e h same p = ground arith

    compare_and_set-Keeps :
        (version : Option Raw) (d doc : LedgerDoc) (w : World c)
        → parse_ledger c version ≡ some d
        → (IsConsumed key row d → IsConsumed key row doc)
        → Keeps key row w
        → Keeps key row (compare_and_set c version doc w).1
    unfolding compare_and_set
    compare_and_set-Keeps version d doc w h keep (own, (raw, e, at, p, held)) =
        let stored = or_else w.stored empty_text in
        let expected = or_else version empty_text in
        elim (Bool-cases (same_text stored expected)) [
          | inr other ↦ rw (other, compare_and_set) (own, (raw, e, at, p, held))
          | inl same ↦
              let texts : raw ≡ expected =
                ap (λ o. or_else o empty_text) (sym at)
                ∙ (laws.same_text_iff stored expected).0 same in
              rw (same, compare_and_set)
                (
                  own,
                  (
                    stringify doc,
                    doc,
                    refl,
                    laws.parse_json-stringify doc,
                    keep
                        (subst (IsConsumed key row) (same_document version d raw e h texts p) held),
                  ),
                )
        ]

    commit_after-Keeps :
        (event : Event c) (version : Option Raw) (d doc : LedgerDoc) (w : World c)
        → OwnEvent event
        → parse_ledger c version ≡ some d
        → (IsConsumed key row d → IsConsumed key row doc)
        → Keeps key row w
        → Keeps key row (commit_after c event version doc w).1
    unfolding commit_after
    commit_after-Keeps Event.quiet version d doc w own = compare_and_set-Keeps version d doc w
    commit_after-Keeps (Event.other_writes v) version d doc w own = absurd own
    commit_after-Keeps Event.outage version d doc w own = λ h keep kept. kept
    commit_after-Keeps Event.reply_lost version d doc w own = compare_and_set-Keeps version d doc w

    pub commit-Keeps :
        (version : Option Raw) (d doc : LedgerDoc) (w : World c)
        → parse_ledger c version ≡ some d
        → (IsConsumed key row d → IsConsumed key row doc)
        → Keeps key row w
        → Keeps key row (commit c version doc w).1
    unfolding commit
    commit-Keeps version d doc w h keep (own, held) =
        let (first, rest, stored) = next_event-OwnEvent w own in
        commit_after-Keeps (next_event c w).0 version d doc (next_event c w).1 first h keep
          (rest, subst (StoresConsumed key row) (sym stored) held)

    read_after-Keeps :
        (event : Event c) (w : World c)
        → OwnEvent event
        → Keeps key row w
        → Keeps key row (read_after c event w).1
    unfolding read_after
    read_after-Keeps Event.quiet w own h = h
    read_after-Keeps (Event.other_writes v) w own h = absurd own
    read_after-Keeps Event.outage w own h = h
    read_after-Keeps Event.reply_lost w own h = h

    pub read-Keeps : (w : World c) → Keeps key row w → Keeps key row (read c w).1
    unfolding read
    read-Keeps w (own, held) =
        let (first, rest, stored) = next_event-OwnEvent w own in
        read_after-Keeps (next_event c w).0 (next_event c w).1 first
          (rest, subst (StoresConsumed key row) (sym stored) held)
