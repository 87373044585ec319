-- ===== src/Ledger/Store.antt =====
-- The atomic ledger of src/lib/policyLedger.ts: one Redis value for each merchant, a read, and the
-- Lua compare-and-set. Other writers and failures of the connection are events between the
-- operations of one caller.
use final_arc.Base.{
  ◌≡◌, ◌↔◌, Bool, true, false, ◌&&◌, Option, none, some, List, [], ◌∷◌, if◌then◌else◌, or_else,
  is_some,
}
use final_arc.Ledger.{LedgerDoc, read_row}

-- The JSON text of a ledger. `parse_json` is `none` where `JSON.parse` throws or the value is no
-- ledger document of version 1.
pub record Codec : Type 1 where
  pub Raw : Type 0
  pub empty_text : Raw
  pub same_text : Raw → Raw → Bool
  pub parse_json : Raw → Option LedgerDoc
  pub stringify : LedgerDoc → Raw

-- What the ledger relies on of JSON and of the comparison of texts.
pub record IsCodec (c : Codec) : Type 0 where
  pub same_text_iff : (a b : c.Raw) → (c.same_text a b ≡ true) ↔ (a ≡ b)
  pub parse_json-stringify : (d : LedgerDoc) → c.parse_json (c.stringify d) ≡ some d
  pub parse_json-empty : c.parse_json c.empty_text ≡ none

-- Every row can be read.
unfoldable pub all_readable : LedgerDoc → Bool
unfolding read_row
all_readable [] = true
all_readable ((key, row) ∷ doc) = is_some (read_row row) && all_readable doc

module _ (c : Codec) where
  open c use {Raw, empty_text, same_text, parse_json, stringify}

  -- `parseLedger`; `none` where it throws.
  unfoldable pub parse_ledger : Option Raw → Option LedgerDoc
  unfolding all_readable
  parse_ledger none = some []
  parse_ledger (some raw) = elim (parse_json raw) [
    | none ↦ none
    | some doc ↦ if all_readable doc then some doc else none
  ]

  -- What happens just before the next operation of this caller reaches Redis: nothing, a write by
  -- another caller, or a failure of the request, before or after Redis has run it.
  pub data Event : Type 0 where
    quiet : Event
    other_writes : Option Raw → Event
    outage : Event
    reply_lost : Event

  pub record World : Type 0 where
    pub stored : Option Raw
    pub events : List Event

  -- The next event, and the world after it. No event left is quiet.
  unfoldable pub next_event : World → Event × World
  next_event w = elim w.events [ [] ↦ (quiet, w) | e ∷ es ↦ (e, record w { events = es }) ]

  unfoldable pub read_after : Event → World → Option (LedgerDoc × Option Raw) × World
  unfolding parse_ledger
  read_after quiet w =
      (elim (parse_ledger w.stored) [ none ↦ none | some doc ↦ some (doc, w.stored) ], w)
  read_after (other_writes v) w =
      (elim (parse_ledger v) [ none ↦ none | some doc ↦ some (doc, v) ], record w { stored = v })
  read_after outage w = (none, w)
  read_after reply_lost w = (none, w)

  -- `read`: the document with its version, the exact stored value; `none` where it throws.
  unfoldable pub read : World → Option (LedgerDoc × Option Raw) × World
  unfolding next_event read_after
  read w = let (e, w') = next_event w in read_after e w'

  -- The Lua script: a missing value compares as the empty text.
  unfoldable pub compare_and_set : Option Raw → LedgerDoc → World → Bool × World
  compare_and_set version doc w =
      if same_text (or_else w.stored empty_text) (or_else version empty_text)
      then (true, record w { stored = some (stringify doc) })
      else (false, w)

  unfoldable pub commit_after : Event → Option Raw → LedgerDoc → World → Option Bool × World
  unfolding compare_and_set
  commit_after quiet version doc w = let (ok, w') = compare_and_set version doc w in (some ok, w')
  commit_after (other_writes v) version doc w =
      let (ok, w') = compare_and_set version doc (record w { stored = v }) in (some ok, w')
  commit_after outage version doc w = (none, w)
  commit_after reply_lost version doc w = let (ok, w') = compare_and_set version doc w in (none, w')

  -- `commit`; `none` where it throws.
  unfoldable pub commit : Option Raw → LedgerDoc → World → Option Bool × World
  unfolding next_event commit_after
  commit version doc w = let (e, w') = next_event w in commit_after e version doc w'
