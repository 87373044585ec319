-- ===== src/Agents/Section.antt =====
-- The store's `agents` section (src/lib/agentPayments.ts): `hashUsedByOther`, `remember`,
-- `mergeAgentIntent` and `persistTouched`.
use final_arc.Base.{
  ℕ, Bool, true, false, not, ◌&&◌, ◌||◌, ◌-◌, Option, none, some, List, [], ◌∷◌, if◌then◌else◌,
  is_empty, is_some, leb, or_else, length, take, Text, text_eq, to_lower_case, Entries, get, put,
  remove,
}
use final_arc.Base.Values.{Value}
use final_arc.Ledger.{IntentStatus, awaiting_payment, submitted, verified, failed}
use final_arc.Payments.{same_id}
use final_arc.Agents.{Kept, row, foreign, read_kept, StoredIntent, IdempotencyRow, AgentStore}

abbrev pub max_agent_idempotency_per_merchant : ℕ
max_agent_idempotency_per_merchant = 500

abbrev pub is_verified : IntentStatus → Bool
is_verified verified = true
is_verified awaiting_payment = false
is_verified submitted = false
is_verified failed = false

-- `row?.verifiedTxHash` that is `hash` up to case; an empty text is falsy.
abbrev pub holds_hash : Text → Option Text → Bool
holds_hash hash none = false
holds_hash hash (some h) = not (is_empty h) && same_id h hash

abbrev pub verified_hash_of : Kept StoredIntent → Option Text
verified_hash_of (row i) = i.verified_tx_hash
verified_hash_of (foreign v) = none

-- `hashUsedByOther`.
unfoldable pub hash_used_by_other : Text → Text → Entries (Kept StoredIntent) → Bool
unfolding same_id
hash_used_by_other hash intent_id [] = false
hash_used_by_other hash intent_id ((id, k) ∷ m) =
    (not (same_id id intent_id) && holds_hash hash (verified_hash_of k))
    || hash_used_by_other hash intent_id m

abbrev pub readable_verified : Option (Kept StoredIntent) → Bool
readable_verified none = false
readable_verified (some (row i)) = is_verified i.status
readable_verified (some (foreign v)) = false

-- `mergeAgentIntent`; none leaves no entry.
unfoldable pub merge_agent_intent :
    Option (Kept StoredIntent) → Kept StoredIntent → Option (Kept StoredIntent)
merge_agent_intent existing (foreign v) = existing
merge_agent_intent existing (row next) =
    if readable_verified existing && not (is_verified next.status)
    then existing
    else some (row next)

abbrev pub put_some : {V : Type 0} → Text → Option V → Entries V → Entries V
put_some id none m = m
put_some id (some v) m = put id v m

-- The guard of `persistTouched` on an incoming row.
unfoldable pub hash_taken : Text → Kept StoredIntent → Entries (Kept StoredIntent) → Bool
unfolding hash_used_by_other
hash_taken id (foreign v) m = false
hash_taken id (row i) m = elim i.verified_tx_hash [
  | none ↦ false
  | some h ↦ is_verified i.status && hash_used_by_other h id m
]

-- The body of the loop over the intents that were touched; the flag is `settlementConflict`.
unfoldable pub touch_intent :
    Text
    → Option (Kept StoredIntent)
    → Entries (Kept StoredIntent) × Bool
    → Entries (Kept StoredIntent) × Bool
unfolding hash_taken merge_agent_intent put get
touch_intent id none (m, conflict) = (m, conflict)
touch_intent id (some k) (m, conflict) =
    if hash_taken id k m
    then (m, true)
    else (put_some id (merge_agent_intent (get id m) k) m, conflict)

unfoldable pub touch_intents :
    Entries (Kept StoredIntent)
    → List Text
    → Entries (Kept StoredIntent) × Bool
    → Entries (Kept StoredIntent) × Bool
unfolding touch_intent get
touch_intents from [] s = s
touch_intents from (id ∷ ids) s = touch_intents from ids (touch_intent id (get id from) s)

-- The body of the loop over the idempotency rows.
unfoldable pub touch_row :
    Text
    → Option (Kept IdempotencyRow)
    → Entries (Kept IdempotencyRow)
    → Entries (Kept IdempotencyRow)
unfolding read_kept get put
touch_row id none m = m
touch_row id (some (foreign v)) m = m
touch_row id (some (row r)) m = if is_some (read_kept (get id m)) then m else put id (row r) m

unfoldable pub touch_rows :
    Entries (Kept IdempotencyRow)
    → List Text
    → Entries (Kept IdempotencyRow)
    → Entries (Kept IdempotencyRow)
unfolding touch_row get
touch_rows from [] m = m
touch_rows from (id ∷ ids) m = touch_rows from ids (touch_row id (get id from) m)

-- The loops over the reservations and the denials.
unfoldable pub touch_new : Entries Value → List Text → Entries Value → Entries Value
unfolding get put
touch_new from [] m = m
touch_new from (id ∷ ids) m =
    touch_new from ids (if is_some (get id m) then m else put_some id (get id from) m)

-- What `persistTouched` is told to write.
pub record Touched : Type 0 where
  pub intent_ids : List Text
  pub idempotency_ids : List Text
  pub reservation_ids : List Text
  pub denial_ids : List Text

-- A call of `persistTouched` for intents and idempotency rows.
abbrev pub touching : (intent_ids idempotency_ids : List Text) → Touched
touching intent_ids idempotency_ids = record {
  intent_ids = intent_ids;
  idempotency_ids = idempotency_ids;
  reservation_ids = [];
  denial_ids = [];
}

-- The mutator of `persistTouched` on a fresh store, with `settlementConflict`.
unfoldable pub persist_touched : AgentStore → Touched → AgentStore → AgentStore × Bool
unfolding touch_intents touch_rows touch_new
persist_touched source touched fresh =
    let (intents, conflict) =
      touch_intents source.intents touched.intent_ids (fresh.intents, false) in
    (
      record {
        intents = intents;
        idempotency = touch_rows source.idempotency touched.idempotency_ids fresh.idempotency;
        reservations = touch_new source.reservations touched.reservation_ids fresh.reservations;
        denials = touch_new source.denials touched.denial_ids fresh.denials;
      },
      conflict,
    )

-- The rows of a merchant, with their times; a row without one is of time 0.
unfoldable pub merchant_rows : Text → Entries (Kept IdempotencyRow) → List (Text × ℕ)
unfolding text_eq to_lower_case
merchant_rows needle [] = []
merchant_rows needle ((id, foreign v) ∷ m) = merchant_rows needle m
merchant_rows needle ((id, row r) ∷ m) =
    let rest = merchant_rows needle m in
    if text_eq (to_lower_case r.merchant) needle then (id, or_else r.stored_at 0) ∷ rest else rest

-- The stable sort by time.
unfoldable pub insert_timed : Text × ℕ → List (Text × ℕ) → List (Text × ℕ)
insert_timed p [] = p ∷ []
insert_timed p (q ∷ qs) =
    let rest = insert_timed p qs in if leb p.1 q.1 then p ∷ q ∷ qs else q ∷ rest

unfoldable pub sort_timed : List (Text × ℕ) → List (Text × ℕ)
unfolding insert_timed
sort_timed [] = []
sort_timed (p ∷ ps) = insert_timed p (sort_timed ps)

unfoldable pub remove_rows_of :
    List (Text × ℕ) → Entries (Kept IdempotencyRow) → Entries (Kept IdempotencyRow)
unfolding remove
remove_rows_of [] m = m
remove_rows_of ((id, at) ∷ ps) m = remove_rows_of ps (remove id m)

-- `pruneMerchantIdempotency`.
unfoldable pub prune_merchant_idempotency :
    Text → Entries (Kept IdempotencyRow) → Entries (Kept IdempotencyRow)
unfolding merchant_rows sort_timed remove_rows_of to_lower_case
prune_merchant_idempotency merchant m =
    let mine = merchant_rows (to_lower_case merchant) m in
    if leb (length mine) max_agent_idempotency_per_merchant
    then m
    else remove_rows_of (take (length mine - max_agent_idempotency_per_merchant) (sort_timed mine))
        m

-- `remember`, for the storage id of the key.
unfoldable pub remember : Text → IdempotencyRow → AgentStore → AgentStore
unfolding prune_merchant_idempotency put
remember id r s = record s {
  idempotency = prune_merchant_idempotency r.merchant (put id (row r) s.idempotency);
}
