-- ===== src/Agents/Commits.antt =====
-- What a write of `persistTouched` (src/lib/agentPayments.ts) never undoes: a verified intent and
-- an idempotency row that another caller committed first.
use final_arc.Base.{
  ◌≡◌, inl, inr, refl, sym, ap, ◌∙◌, subst, Bool, true, false, Option, none, some, List, [], ◌∷◌,
  if◌then◌else◌, is_some, Text, text_eq, text_eq_refl, text_eq→eq, Entries, get, put, get-put,
  arith, Bool-cases,
}
use final_arc.Agents.{Kept, row, foreign, read_kept, StoredIntent, IdempotencyRow, AgentStore}
use final_arc.Agents.Section.{
  readable_verified, merge_agent_intent, put_some, hash_taken, touch_intent, touch_intents,
  touch_row, touch_rows, Touched, persist_touched, touching,
}
use final_arc.Agents.Unique.{Intents}

abbrev pub IsVerifiedAt : Text → Intents → Type 0
IsVerifiedAt id m = readable_verified (get id m) ≡ true

merge-verified :
    (existing : Option (Kept StoredIntent)) (k : Kept StoredIntent)
    → readable_verified existing ≡ true
    → readable_verified (merge_agent_intent existing k) ≡ true
unfolding merge_agent_intent
merge-verified existing (foreign v) h = h
merge-verified existing (row i) h = ground arith

put_some-verified :
    (id j : Text) (o : Option (Kept StoredIntent)) (m : Intents)
    → (IsVerifiedAt id m → readable_verified o ≡ true)
    → IsVerifiedAt j m
    → IsVerifiedAt j (put_some id o m)
put_some-verified id j none m f h = h
put_some-verified id j (some x) m f h = elim (Bool-cases (text_eq id j)) [
  | inl same ↦
      rw (get-put j id x m, same) (f (subst (λ a. IsVerifiedAt a m) (sym (text_eq→eq id j same)) h))
  | inr other ↦ rw (get-put j id x m, other) h
]

touch_intent-verified :
    (id j : Text) (o : Option (Kept StoredIntent)) (m : Intents) (c : Bool)
    → IsVerifiedAt j m
    → IsVerifiedAt j (touch_intent id o (m, c)).0
unfolding touch_intent
touch_intent-verified id j none m c h = h
touch_intent-verified id j (some k) m c h =
    let kept =
      put_some-verified id j (merge_agent_intent (get id m) k) m (merge-verified (get id m) k) h in
    if_kept (hash_taken id k m) kept
  where
    if_kept :
        (b : Bool)
        → IsVerifiedAt j (put_some id (merge_agent_intent (get id m) k) m)
        → let s : Intents × Bool =
            if b then (m, true) else (put_some id (merge_agent_intent (get id m) k) m, c) in
          IsVerifiedAt j s.0
    if_kept true kept = h
    if_kept false kept = kept

touch_intents-verified :
    (from : Intents) (ids : List Text) (j : Text) (m : Intents) (c : Bool)
    → IsVerifiedAt j m
    → IsVerifiedAt j (touch_intents from ids (m, c)).0
unfolding touch_intents
touch_intents-verified from [] j m c h = h
touch_intents-verified from (id ∷ ids) j m c h =
    let next = touch_intent id (get id from) (m, c) in
    touch_intents-verified from ids j next.0 next.1 (touch_intent-verified id j (get id from) m c h)

abbrev pub Rows : Type 0
Rows = Entries (Kept IdempotencyRow)

-- A committed idempotency row.
abbrev pub Committed : Text → IdempotencyRow → Rows → Type 0
Committed id r m = get id m ≡ some (row r)

touch_row-first :
    (id j : Text) (r : IdempotencyRow) (o : Option (Kept IdempotencyRow)) (m : Rows)
    → Committed j r m
    → Committed j r (touch_row id o m)
unfolding touch_row read_kept
touch_row-first id j r none m h = h
touch_row-first id j r (some (foreign v)) m h = h
touch_row-first id j r (some (row q)) m h = elim (Bool-cases (text_eq id j)) [
  | inl same ↦
      let found : get id m ≡ some (row r) =
        subst (λ a. get a m ≡ some (row r)) (sym (text_eq→eq id j same)) h in
      rw found h
  | inr other ↦
      let kept : get j (put id (row q) m) ≡ some (row r) = rw (get-put j id (row q) m, other) h in
      if_first (is_some (read_kept (get id m))) kept
]
  where
    if_first :
        (b : Bool)
        → Committed j r (put id (row q) m)
        → Committed j r (if b then m else put id (row q) m)
    if_first true kept = h
    if_first false kept = kept

touch_rows-first :
    (from : Rows) (ids : List Text) (j : Text) (r : IdempotencyRow) (m : Rows)
    → Committed j r m
    → Committed j r (touch_rows from ids m)
unfolding touch_rows
touch_rows-first from [] j r m h = h
touch_rows-first from (id ∷ ids) j r m h =
    touch_rows-first from ids j r (touch_row id (get id from) m)
      (touch_row-first id j r (get id from) m h)

-- A write leaves every verified intent verified, whatever the rows are that it hands over.
pub persist_touched-verified :
    (source : AgentStore) (touched : Touched) (fresh : AgentStore) (id : Text)
    → IsVerifiedAt id fresh.intents
    → IsVerifiedAt id (persist_touched source touched fresh).0.intents
unfolding persist_touched
persist_touched-verified source touched fresh id h =
    touch_intents-verified source.intents touched.intent_ids id fresh.intents false h

-- A write leaves every idempotency row of the store as it was committed: it neither replaces one nor
-- removes one.
pub persist_touched-first :
    (source : AgentStore) (touched : Touched) (fresh : AgentStore) (id : Text) (r : IdempotencyRow)
    → Committed id r fresh.idempotency
    → Committed id r (persist_touched source touched fresh).0.idempotency
unfolding persist_touched
persist_touched-first source touched fresh id r h =
    touch_rows-first source.idempotency touched.idempotency_ids id r fresh.idempotency h

touch_intent-conflict :
    (id : Text) (o : Option (Kept StoredIntent)) (m : Intents)
    → (touch_intent id o (m, false)).1 ≡ true
    → (touch_intent id o (m, false)).0 ≡ m
unfolding touch_intent
touch_intent-conflict id none m e = refl
touch_intent-conflict id (some k) m e = from (hash_taken id k m) e
  where
    from :
        (b : Bool)
        → (let s : Intents × Bool =
              if b then (m, true) else (put_some id (merge_agent_intent (get id m) k) m, false) in
            s.1 ≡ true)
        → let s : Intents × Bool =
            if b then (m, true) else (put_some id (merge_agent_intent (get id m) k) m, false) in
          s.0 ≡ m
    from true e = refl
    from false e = absurd (cc)

touch_row-new :
    (id : Text) (r : IdempotencyRow) (o : Option (Kept IdempotencyRow)) (m : Rows)
    → o ≡ some (row r)
    → read_kept (get id m) ≡ none
    → Committed id r (touch_row id o m)
unfolding touch_row
touch_row-new id r none m e new = absurd (cc)
touch_row-new id r (some (foreign v)) m e new = absurd (ground arith)
touch_row-new id r (some (row q)) m e new =
    let q_eq : q ≡ r = ground arith in
    rw new (get-put id id (row q) m ∙ rw (text_eq_refl id) (ap (λ x. some (row x)) q_eq))

-- A write that finds the transaction of its one intent used by another leaves the intents as they
-- were, but commits the idempotency row that it hands over, when none is stored under its id.
pub persist_touched-conflict :
    (source : AgentStore) (intent_id memory_id : Text) (fresh : AgentStore) (r : IdempotencyRow)
    → (persist_touched source (touching (intent_id ∷ []) (memory_id ∷ [])) fresh).1 ≡ true
    → get memory_id source.idempotency ≡ some (row r)
    → read_kept (get memory_id fresh.idempotency) ≡ none
    → let after = (persist_touched source (touching (intent_id ∷ []) (memory_id ∷ [])) fresh).0 in
      (after.intents ≡ fresh.intents) × Committed memory_id r after.idempotency
unfolding persist_touched touch_intents touch_rows
persist_touched-conflict source intent_id memory_id fresh r e handed new = (
  touch_intent-conflict intent_id (get intent_id source.intents) fresh.intents e,
  touch_row-new memory_id r (get memory_id source.idempotency) fresh.idempotency handed new,
)
