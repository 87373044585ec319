-- ===== src/Ledger/Reserve/Quiet.antt =====
-- `reserveSpendAtomically` (src/lib/policyLedger.ts) with no other writer and a working connection.
use final_arc.Base.{ℕ, suc, ◌≡◌, refl, true, none, some, [], put, arith, or_else}
use final_arc.Ledger.{LedgerDoc, read_row_at}
use final_arc.Ledger.Store.{Codec, World, parse_ledger, read, commit}
use final_arc.Ledger.Reserve.{
  reserved_at, finished, ReserveArgs, atomic, live_row, after_commit, evaluate_ledger, evaluate_row,
  reserve_or_deny, attempt_reserve, reserve_loop, reserve_spend_atomically,
}
use final_arc.Ledger.Reserve.Caps.{CapsHold, cap_reasons_iff}
use final_arc.Ledger.Store.{IsCodec}
use final_arc.Ledger.Reserve.Outcome.{recovered_doc, amount}

module _ (c : Codec) (laws : IsCodec c) (a : ReserveArgs) (d : LedgerDoc) (w : World c)
    (calm : w.events ≡ []) (readable : parse_ledger c w.stored ≡ some d) where
  open c use {Raw, stringify}

  read_quiet : read c w ≡ (some (d, w.stored), w)
  unfolding read
  read_quiet = ground arith

  commit_quiet :
      (doc : LedgerDoc)
      → commit c w.stored doc w ≡ (some true, record w { stored = some (stringify doc) })
  unfolding commit
  commit_quiet doc = ground (
    arith,
    (laws.same_text_iff (or_else w.stored c.empty_text) (or_else w.stored c.empty_text)).1 refl,
  )

  module _ (free : live_row (read_row_at a.reservation.id (recovered_doc c a d)) ≡ none) where
    attempt_quiet :
        CapsHold a (recovered_doc c a d) (amount c a) a.policies
        → attempt_reserve c a 1 w ≡ (
          finished (reserved_at 1),
          record w {
            stored = some (stringify (put a.reservation.id a.reservation (recovered_doc c a d)));
          },
        )
    unfolding attempt_reserve evaluate_ledger evaluate_row reserve_or_deny after_commit
    attempt_quiet fits = rw (
      attempt_reserve,
      read_quiet,
      free,
      (cap_reasons_iff a (recovered_doc c a d) a.policies).1 fits,
      read_quiet,
      commit_quiet (put a.reservation.id a.reservation (recovered_doc c a d)),
    )

    -- With no other writer and a working connection, a readable ledger where the id is free (no
    -- readable row, or a released one) and the amount fits every cap grants the reservation in the
    -- first round, and stores it.
    pub reserve_spend_atomically_quiet :
        (more : ℕ)
        → CapsHold a (recovered_doc c a d) (amount c a) a.policies
        → reserve_spend_atomically c atomic (suc more) a w ≡ (
          reserved_at 1,
          record w {
            stored = some (stringify (put a.reservation.id a.reservation (recovered_doc c a d)));
          },
        )
    unfolding reserve_spend_atomically reserve_loop
    reserve_spend_atomically_quiet more fits =
        rw (reserve_loop, attempt_quiet fits, attempt_quiet fits)
