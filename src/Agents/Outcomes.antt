-- ===== src/Agents/Outcomes.antt =====
-- What `submitAgentPaymentIntent` (src/lib/agentPayments.ts) keeps of the stored intents.
use final_arc.Base.{
  ◌≡◌, refl, Bool, true, false, Option, none, some, [], ◌∷◌, if◌then◌else◌, Text, get,
}
use final_arc.Base.Values.{Fields}
use final_arc.Ledger.Store.{Codec}
use final_arc.Agents.{row, StoredIntent, AgentIntentBody, AgentResult, AgentStore, present_intent}
use final_arc.Agents.Section.{is_verified, hash_used_by_other, remember, touching}
use final_arc.Agents.Unique.{Intents, IsUnique, HoldsVerified, persist_touched-IsUnique}
use final_arc.Agents.Commits.{IsVerifiedAt, persist_touched-verified}
use final_arc.Agents.Proof.{Judgement, Judged, judged, bad_hash, threw, judge_result}
use final_arc.Agents.Load.{
  Step, goes_on, answers, AgentRequest, check_query, read_json, idempotency_key, hash_of_body,
  lookup_idempotency, Loaded, load_owned, store_failure,
}
use final_arc.Agents.Submit.{
  AgentRuntime, AgentWorld, persist, remembered_ids, remembered_row, remembered_view, updated_row,
  handed_over, notify, event_of, ledger_next, move_ledger, store_submission, judged_submission,
  shown_again, same_verified, submit_loaded, submitted_hash, shown_view, settlement_used,
  already_verified,
}
use final_arc.Agents.Preserved.{
  IsKept, load_owned-found, HoldsVerified-updated, Leaves, persist-kept, written-kept, notify-store,
  handed_over-WellFormed,
}
use final_arc.Agents.Handlers.{after, submit_read, submit_route, submit_agent_payment_intent}

module _ (r : AgentRuntime) (c : Codec) (P : Intents → Type 0) (kept : IsKept r P) where
  after-kept :
      {A : Type 0} (step : Step A) (w : AgentWorld c) (next : A → AgentResult × AgentWorld c)
      → P w.store.intents
      → ((x : A) → step ≡ goes_on x → Leaves r c P kept (next x))
      → Leaves r c P kept (after r c step w next)
  after-kept (answers a) w next h f = h
  after-kept (goes_on x) w next h f = f x refl

  if-kept :
      (b : Bool) (x y : AgentResult × AgentWorld c)
      → (b ≡ true → Leaves r c P kept x)
      → (b ≡ false → Leaves r c P kept y)
      → Leaves r c P kept (if b then x else y)
  if-kept true x y f g = f refl
  if-kept false x y f g = g refl

  store_submission-kept :
      (merchant route key hash : Text) (previous updated : StoredIntent)
      (o : Option AgentIntentBody) (w : AgentWorld c)
      → HoldsVerified (row updated)
      → P w.store.intents
      → Leaves r c P kept (store_submission r c merchant route key hash previous updated o w)
  unfolding store_submission
  store_submission-kept merchant route key hash previous updated none w good h = h
  store_submission-kept merchant route key hash previous updated (some view) w good h =
      let memory = remembered_view r merchant route key hash view in
      let source = handed_over r c updated memory w.store in
      let touched = touching (updated.intent_id ∷ []) (remembered_ids memory) in
      written-kept r c P kept (persist r source touched w.store) (shown_view r view)
        (λ x. notify r c (event_of r updated.status previous.status) view (record x {
          ledger =
              move_ledger r c updated.intent_id (ledger_next r updated.status updated.verified_at)
                x.ledger;
        }))
        w
        (λ x. notify-store r c P kept (event_of r updated.status previous.status) view (record x {
          ledger =
              move_ledger r c updated.intent_id (ledger_next r updated.status updated.verified_at)
                x.ledger;
        }))
        (persist-kept r c P kept source touched w.store
          (handed_over-WellFormed r c P kept updated memory w.store good) h)

  judged_submission-kept :
      (merchant route key hash tx_hash : Text) (l : Loaded) (j : Judged) (w : AgentWorld c)
      → ((x : Judgement)
          → HoldsVerified (row (updated_row r.viem r.now tx_hash x l.request l.intent)))
      → P w.store.intents
      → Leaves r c P kept (judged_submission r c merchant route key hash tx_hash l j w)
  unfolding judged_submission
  judged_submission-kept merchant route key hash tx_hash l bad_hash w good h = h
  judged_submission-kept merchant route key hash tx_hash l threw w good h = h
  judged_submission-kept merchant route key hash tx_hash l (judged j) w good h =
      let updated = updated_row r.viem r.now tx_hash j l.request l.intent in
      store_submission-kept merchant route key hash l.intent updated
        (present_intent r.viem r.origin l.token r.now updated l.request) w (good j) h

  shown_again-kept :
      (merchant route key hash : Text) (o : Option AgentIntentBody) (w : AgentWorld c)
      → P w.store.intents
      → Leaves r c P kept (shown_again r c merchant route key hash o w)
  unfolding shown_again
  shown_again-kept merchant route key hash none w h = h
  shown_again-kept merchant route key hash (some view) w h =
      let memory = remembered_row r merchant route key hash view in
      let source = remember memory.id memory.row_ w.store in
      let touched = touching [] (memory.id ∷ []) in
      written-kept r c P kept (persist r source touched w.store) (shown_view r view) (λ x. x) w
        (λ x. refl) (persist-kept r c P kept source touched w.store tt h)

  submit_loaded-kept :
      (id merchant route key hash tx_hash : Text) (l : Loaded) (w : AgentWorld c)
      → get id w.store.intents ≡ some (row l.intent)
      → P w.store.intents
      → Leaves r c P kept (submit_loaded r c merchant route key hash tx_hash l w)
  unfolding submit_loaded
  submit_loaded-kept id merchant route key hash tx_hash l w found h =
      let again =
        shown_again r c merchant route key hash
          (present_intent r.viem r.origin l.token r.now l.intent l.request) w in
      let taken : AgentResult × AgentWorld c = (settlement_used, w) in
      let verified_with = same_verified r c l.intent.verified_tx_hash tx_hash in
      let other : AgentResult × AgentWorld c = (already_verified, w) in
      let (result, block_time) = r.verify tx_hash in
      let j = judge_result r.viem result l.request block_time in
      let checked = judged_submission r c merchant route key hash tx_hash l j w in
      if-kept (hash_used_by_other tx_hash l.intent.intent_id w.store.intents) taken
        (if is_verified l.intent.status then (if verified_with then again else other) else checked)
        (λ _. h)
        (λ _.
          if-kept (is_verified l.intent.status) (if verified_with then again else other) checked
            (λ _.
              if-kept verified_with again other
                (λ _.
                  shown_again-kept merchant route key hash
                    (present_intent r.viem r.origin l.token r.now l.intent l.request) w h)
                (λ _. h))
            (λ open_.
              judged_submission-kept merchant route key hash tx_hash l j w
                (λ x.
                  HoldsVerified-updated r.viem r.now tx_hash x l.request l.intent
                    (λ t held full. kept.marks w.store.intents h id t l.intent found held full)
                    open_)
                h))

  submit_read-kept :
      (id merchant route key hash : Text) (body : Fields) (w : AgentWorld c)
      → P w.store.intents
      → Leaves r c P kept (submit_read r c id merchant route key hash body w)
  unfolding submit_read
  submit_read-kept id merchant route key hash body w h =
      from (lookup_idempotency r.sha256 w.store merchant route key hash)
    where
      rest : Text → AgentResult × AgentWorld c
      rest tx_hash =
          after r c (load_owned w.store id merchant r.links) w
            (λ l. submit_loaded r c merchant route key hash tx_hash l w)

      from :
          (o : Option AgentResult)
          → Leaves r c P kept
              (elim o [ some replay ↦ (replay, w) | none ↦ after r c (submitted_hash body) w rest ])
      from (some replay) = h
      from none = after-kept (submitted_hash body) w rest h (λ tx_hash _.
          after-kept (load_owned w.store id merchant r.links) w
            (λ l. submit_loaded r c merchant route key hash tx_hash l w) h
            (λ l found.
              submit_loaded-kept id merchant route key hash tx_hash l w
                (load_owned-found w.store id merchant r.links l found) h))

  submit-kept :
      (request : AgentRequest) (id : Text) (w : AgentWorld c)
      → P w.store.intents
      → Leaves r c P kept (submit_agent_payment_intent r c request id w)
  unfolding submit_agent_payment_intent
  submit-kept request id w h =
      after-kept (check_query request.query) w (λ _. by_auth) h
        (λ _ _. after-kept r.auth w by_json h (λ merchant _.
          after-kept (read_json request.json) w (by_key merchant) h (λ body _.
            after-kept (idempotency_key request.idempotency_key) w (by_hash merchant body) h
              (λ key _.
                after-kept (hash_of_body r.sha256 r.json body) w (by_read merchant body key) h
                  (λ hash _.
                    if-kept r.read_fails (store_failure, w)
                      (submit_read r c id merchant (submit_route r c id) key hash body w) (λ _. h)
                      (λ _.
                        submit_read-kept id merchant (submit_route r c id) key hash body w h))))))
    where
      by_read : Text → Fields → Text → Text → AgentResult × AgentWorld c
      by_read merchant body key hash =
          if r.read_fails
          then (store_failure, w)
          else submit_read r c id merchant (submit_route r c id) key hash body w

      by_hash : Text → Fields → Text → AgentResult × AgentWorld c
      by_hash merchant body key =
          after r c (hash_of_body r.sha256 r.json body) w (by_read merchant body key)

      by_key : Text → Fields → AgentResult × AgentWorld c
      by_key merchant body =
          after r c (idempotency_key request.idempotency_key) w (by_hash merchant body)

      by_json : Text → AgentResult × AgentWorld c
      by_json merchant = after r c (read_json request.json) w (by_key merchant)

      by_auth : AgentResult × AgentWorld c
      by_auth = after r c r.auth w by_json

-- Submissions keep that no two intents hold the same verified transaction and that only a verified
-- intent holds one, for any request, any answers from outside and any write by others that keeps it.
pub submit_agent_payment_intent-IsUnique :
    (r : AgentRuntime) (c : Codec) (request : AgentRequest) (id : Text) (w : AgentWorld c)
    → ((s : AgentStore) → IsUnique s.intents → IsUnique (r.others s).intents)
    → IsUnique w.store.intents
    → IsUnique (submit_agent_payment_intent r c request id w).1.store.intents
submit_agent_payment_intent-IsUnique r c request id w others unique =
    submit-kept r c IsUnique
      (record {
        by_others = others;
        marks = λ m u. u.1;
        by_write = λ source touched fresh. persist_touched-IsUnique source touched fresh;
      })
      request id w unique

-- A submission leaves every verified intent verified, in a store that is well formed so, where
-- others keep that too.
pub submit_agent_payment_intent-verified :
    (r : AgentRuntime) (c : Codec) (request : AgentRequest) (id k : Text) (w : AgentWorld c)
    → ((s : AgentStore)
        → IsUnique s.intents × IsVerifiedAt k s.intents
        → IsUnique (r.others s).intents × IsVerifiedAt k (r.others s).intents)
    → IsUnique w.store.intents
    → IsVerifiedAt k w.store.intents
    → IsVerifiedAt k (submit_agent_payment_intent r c request id w).1.store.intents
submit_agent_payment_intent-verified r c request id k w others unique at =
    (submit-kept r c (λ m. IsUnique m × IsVerifiedAt k m)
      (record {
        by_others = others;
        marks = λ m u. u.0.1;
        by_write = λ source touched fresh good both. (
          persist_touched-IsUnique source touched fresh good both.0,
          persist_touched-verified source touched fresh k both.1,
        );
      })
      request id w (unique, at)).1
