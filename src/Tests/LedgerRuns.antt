-- ===== src/Tests/LedgerRuns.antt =====
-- The reservation ledger (src/lib/policyLedger.ts) over a codec in which documents are their text.
use final_arc.Ledger.{recover_reservations}
use final_arc.Ledger.Reserve.{live_row}
use final_arc.Base.{
  ◌≡◌, ◌⊎◌, refl, true, none, some, [], ◌∷◌, codes, get, put, text_eq, is_positive_decimal, big_int,
  arith,
}
use final_arc.Base.Int.{pos, is_safe_integer}
use final_arc.Ledger.{LedgerReservation, read_row, read_row_at, committed_for_cap, consumed}
use final_arc.Ledger.Store.{World, parse_ledger, compare_and_set, Event, other_writes, read, commit}
use final_arc.Ledger.Reserve.{atomic, reserved_at, evaluate_ledger, reserve_spend_atomically}
use final_arc.Ledger.Reserve.Outcome.{Justified, reserve_spend_atomically-Justified}
use final_arc.Ledger.Reserve.Quiet.{reserve_spend_atomically_quiet}
use final_arc.Ledger.Transition.{to_consumed, to_released, transition_reservation}
use final_arc.Ledger.Interleaving.{
  StoresConsumed, here, after_move, reserve_after_read, transition_call,
}
use final_arc.Ledger.Finality.{Reaches-StoresConsumed}
use final_arc.Ledger.Atomicity.{compare_and_set-atomic}
use final_arc.Tests.Samples.{
  plain_codec, plain_codec-IsCodec, same_doc, same_doc_iff, reservation, reserve_args, empty_world,
  held_doc, held_world,
}

-- A second caller writes between the read and the compare-and-set of the first round.
abbrev raced_world : World plain_codec
raced_world = record {
  stored = none;
  events = Event.quiet ∷ other_writes (some (some held_doc)) ∷ [];
}

reserve_spend_atomically-Justified_example :
    Justified plain_codec reserve_args
      (reserve_spend_atomically plain_codec atomic 5 reserve_args raced_world).0
      (reserve_spend_atomically plain_codec atomic 5 reserve_args raced_world).1
reserve_spend_atomically-Justified_example =
    reserve_spend_atomically-Justified plain_codec reserve_args atomic 5 raced_world refl

reserve_spend_atomically_quiet_example :
    reserve_spend_atomically plain_codec atomic 5 reserve_args empty_world
    ≡ (reserved_at 1, record { stored = some (some held_doc); events = [] })
unfolding parse_ledger read_row_at committed_for_cap big_int put get is_positive_decimal
    is_safe_integer live_row recover_reservations
reserve_spend_atomically_quiet_example =
    reserve_spend_atomically_quiet plain_codec plain_codec-IsCodec reserve_args [] empty_world refl
      refl refl 4 (omega arith, tt)

same_held : same_doc (some held_doc) (some held_doc) ≡ true
same_held = (same_doc_iff (some held_doc) (some held_doc)).1 refl

compare_and_set-atomic_example :
    (parse_ledger plain_codec (some (some held_doc)) ≡ some held_doc)
    ⊎ (held_world.stored ≡ some plain_codec.empty_text)
unfolding parse_ledger compare_and_set is_positive_decimal is_safe_integer
compare_and_set-atomic_example =
    compare_and_set-atomic plain_codec plain_codec-IsCodec (some (some held_doc)) held_doc []
      held_world refl (rw same_held)

held_transitions :
    (transition_reservation plain_codec atomic 5
      (codes "0xa1")
      (to_consumed (pos 1000100))
      held_world).0
    ≡ true
unfolding transition_reservation read commit parse_ledger read_row_at get text_eq
    is_positive_decimal is_safe_integer
held_transitions = ground (arith, same_held)

abbrev consumed_row : LedgerReservation
consumed_row = record reservation { status = consumed; consumed_at = some (pos 1000100) }

abbrev consumed_world : World plain_codec
consumed_world = record { stored = some (some ((codes "0xa1", consumed_row) ∷ [])); events = [] }

-- A caller that read the store before there was a row goes on, and its reply is lost.
abbrev stale_world : World plain_codec
stale_world = record { stored = consumed_world.stored; events = Event.reply_lost ∷ [] }

abbrev after_stale : World plain_codec
after_stale = record {
  stored = (evaluate_ledger plain_codec reserve_args 1 ([], none) stale_world).1.stored;
  events = [];
}

read_empty : (read plain_codec empty_world).0 ≡ some ([], none)
unfolding read
read_empty = refl

Reaches-StoresConsumed_example :
    StoresConsumed plain_codec
      (codes "0xa1")
      consumed_row
      (transition_reservation plain_codec atomic 5
        (codes "0xa1")
        (to_released (pos 2000000) (codes "late"))
        after_stale).1.stored
unfolding get read_row text_eq is_positive_decimal is_safe_integer
Reaches-StoresConsumed_example =
    Reaches-StoresConsumed plain_codec plain_codec-IsCodec (codes "0xa1") consumed_row
      (after_move
        (after_move here (
          reserve_after_read reserve_args 1 ([], none) empty_world stale_world read_empty (tt, tt)
            refl refl))
        (transition_call atomic 5 (codes "0xa1") (to_released (pos 2000000) (codes "late"))
          after_stale tt refl refl))
      (
        some ((codes "0xa1", consumed_row) ∷ []),
        (codes "0xa1", consumed_row) ∷ [],
        refl,
        refl,
        (refl, refl, refl),
      )
