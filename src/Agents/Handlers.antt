-- ===== src/Agents/Handlers.antt =====
-- `submitAgentPaymentIntent` and `getAgentPaymentIntent` of src/lib/agentPayments.ts, from the
-- request on.
use final_arc.Base.{◌&&◌, Option, none, some, ◌++◌, if◌then◌else◌, Text, codes, to_lower_case}
use final_arc.Base.Int.{◌+ℤ◌, leb_ℤ}
use final_arc.Base.Values.{Fields}
use final_arc.Ledger.{reservation_release_grace_seconds, no_hash}
use final_arc.Ledger.Store.{Codec}
use final_arc.Ledger.Transition.{to_released}
use final_arc.Agents.{AgentIntentBody, AgentResult, present_intent}
use final_arc.Agents.Load.{
  Step, goes_on, answers, AgentRequest, store_failure, internal_error, check_query, read_json,
  idempotency_key, hash_of_body, lookup_idempotency, Loaded, load_owned,
}
use final_arc.Agents.Submit.{
  AgentRuntime, AgentWorld, submitted_hash, is_awaiting_row, shown_view, move_ledger, submit_loaded,
}

module _ (r : AgentRuntime) where
  module _ (c : Codec) where
    -- What follows a guard that may answer in its place.
    abbrev pub after :
        {A : Type 0}
        → Step A
        → AgentWorld c
        → (A → AgentResult × AgentWorld c)
        → AgentResult × AgentWorld c
    after (answers a) w next = (a, w)
    after (goes_on x) w next = next x

    -- From the read of the store on.
    unfoldable pub submit_read :
        (id merchant route key hash : Text) → Fields → AgentWorld c → AgentResult × AgentWorld c
    unfolding submit_loaded submitted_hash load_owned lookup_idempotency
    submit_read id merchant route key hash body w =
        elim (lookup_idempotency r.sha256 w.store merchant route key hash) [
          | some replay ↦ (replay, w)
          | none ↦ after (submitted_hash body) w (λ tx_hash.
              after (load_owned w.store id merchant r.links) w
                (λ l. submit_loaded r c merchant route key hash tx_hash l w))
        ]

    abbrev pub submit_route : Text → Text
    submit_route id =
        codes "POST /api/v1/agent/payment-intents/" ++ (to_lower_case id ++ codes "/submit")

    -- `submitAgentPaymentIntent`.
    unfoldable pub submit_agent_payment_intent :
        AgentRequest → Text → AgentWorld c → AgentResult × AgentWorld c
    unfolding submit_read check_query read_json idempotency_key hash_of_body to_lower_case
    submit_agent_payment_intent request id w = after (check_query request.query) w (λ _.
        after r.auth w (λ merchant. after (read_json request.json) w (λ body.
          after (idempotency_key request.idempotency_key) w (λ key.
            after (hash_of_body r.sha256 r.json body) w (λ hash.
              if r.read_fails
              then (store_failure, w)
              else submit_read id merchant (submit_route id) key hash body w)))))

    -- The release that `getAgentPaymentIntent` asks for once an intent has lapsed.
    unfoldable pub lapse : Loaded → AgentWorld c → AgentWorld c
    unfolding move_ledger ◌+ℤ◌
    lapse l w =
        if is_awaiting_row l.intent.status
          && no_hash l.intent.submitted_tx_hash
          && leb_ℤ (l.request.expires_at +ℤ reservation_release_grace_seconds) r.now
        then record w {
          ledger =
              move_ledger r c l.intent.intent_id (some (to_released r.now (codes "intent_expired")))
                w.ledger;
        }
        else w

    abbrev pub shown_or_error : Option AgentIntentBody → AgentResult
    shown_or_error none = internal_error
    shown_or_error (some view) = shown_view r view

    -- `getAgentPaymentIntent`, and `getAgentPaymentResult`.
    unfoldable pub get_agent_payment_intent :
        AgentRequest → Text → AgentWorld c → AgentResult × AgentWorld c
    unfolding lapse present_intent load_owned check_query
    get_agent_payment_intent request id w = after (check_query request.query) w (λ _.
        after r.auth w (λ merchant.
          if r.read_fails
          then (store_failure, w)
          else after (load_owned w.store id merchant r.links) w (λ l. (
            shown_or_error (present_intent r.viem r.origin l.token r.now l.intent l.request),
            lapse l w,
          ))))
