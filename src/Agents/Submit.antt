-- ===== src/Agents/Submit.antt =====
-- `submitAgentPaymentIntent` and `getAgentPaymentIntent` of src/lib/agentPayments.ts.
use final_arc.Base.{
  ℕ, Bool, true, false, not, ◌&&◌, Option, none, some, List, [], ◌∷◌, ◌++◌, if◌then◌else◌, leb,
  is_empty, or_else, Text, codes, text_eq, to_lower_case, put,
}
use final_arc.Base.Int.{ℤ}
use final_arc.Base.Values.{string, Fields, end, field}
use final_arc.Ledger.{
  IntentStatus, awaiting_payment, submitted, verified, failed, max_reservation_attempts,
}
use final_arc.Ledger.Store.{Codec, World}
use final_arc.Ledger.Reserve.{LedgerMode}
use final_arc.Ledger.Transition.{Next, to_consumed, to_released, transition_reservation}
use final_arc.Payments.{same_id}
use final_arc.Receipts.{Viem, FinalRequest, is_tx_hash}
use final_arc.Receipts.ArcProof.{verified_proof, partial_proof, invalid_proof, ArcProofResult}
use final_arc.Agents.{
  row, AgentProofStatus, checked, hash_not_found, hash_unavailable, StoredIntent, AgentIntentBody,
  AgentBody, intent_body, error_body, AgentResult, IdempotencyRow, AgentStore, error_result,
  safe_time, present_intent,
}
use final_arc.Agents.Canonical.{JsonText}
use final_arc.Agents.Section.{
  is_verified, hash_used_by_other, Touched, persist_touched, remember, touching,
}
use final_arc.Agents.Proof.{Judgement, Judged, judged, bad_hash, threw, judge_result}
use final_arc.Agents.Load.{
  Step, goes_on, answers, store_failure, internal_error, idempotency_storage_id, StoredLink, Loaded,
}

-- What becomes of a write of the store: it is done, it fails, or it is done and the answer is lost.
pub data WriteFate : Type 0 where
  write_done write_fails write_unanswered : WriteFate

-- What a call takes from outside. The clock stands still during a call, `others` is what other
-- callers write between its read of the store and its write, and `auth` is how
-- `authenticateAuthorization` ends.
pub record AgentRuntime : Type 0 where
  pub viem : Viem
  pub json : JsonText
  pub sha256 : Text → Text
  pub origin : Text
  pub now : ℤ
  pub clock : ℕ
  pub auth : Step Text
  pub read_fails : Bool
  pub links : Option (List StoredLink)
  pub others : AgentStore → AgentStore
  pub fate : WriteFate
  pub verify : Text → ArcProofResult × Option ℤ
  pub ledger_mode : LedgerMode

pub record AgentWorld (c : Codec) : Type 0 where
  pub store : AgentStore
  pub ledger : World c
  pub emitted : List (Text × AgentIntentBody)

abbrev pub passing : AgentProofStatus → Bool
passing hash_not_found = true
passing hash_unavailable = true
passing (checked partial_proof) = true
passing (checked verified_proof) = false
passing (checked invalid_proof) = false

abbrev pub passing_body : AgentBody → Bool
passing_body (error_body code message reasons) = false
passing_body (intent_body b) = elim b.proof_status [ none ↦ false | some s ↦ passing s ]

-- `shouldRemember`.
unfoldable pub should_remember : ℕ → AgentBody → Bool
should_remember status body = not (leb 500 status) && not (passing_body body)

-- The hash that a body submits: its only key is `txHash`, and it is a transaction hash.
unfoldable pub submitted_hash : Fields → Step Text
unfolding text_eq is_tx_hash
submitted_hash (field k (string hash) end) =
    if not (text_eq k (codes "txHash"))
    then answers (
        error_result 400 (codes "immutable_terms")
          (codes "Submit accepts only a transaction hash. Payment terms cannot be changed."))
    else (if not (is_tx_hash hash)
        then answers (
            error_result 400 (codes "invalid_transaction")
              (codes "Transaction hash must be 0x plus 64 hex characters."))
        else goes_on hash)
submitted_hash (field k x end) =
    if not (text_eq k (codes "txHash"))
    then answers (
        error_result 400 (codes "immutable_terms")
          (codes "Submit accepts only a transaction hash. Payment terms cannot be changed."))
    else answers (
        error_result 400 (codes "invalid_transaction")
          (codes "Transaction hash must be 0x plus 64 hex characters."))
submitted_hash _ = answers (
    error_result 400 (codes "immutable_terms")
      (codes "Submit accepts only a transaction hash. Payment terms cannot be changed."))

-- `verifiedAt` of the row that is written.
unfoldable pub next_verified_at : Bool → (now : ℤ) → Option ℤ → Option ℤ
next_verified_at true now at = some (or_else (safe_time at) now)
next_verified_at false now at = at

-- `updated`.
unfoldable pub updated_row :
    Viem → (now : ℤ) → (tx_hash : Text) → Judgement → FinalRequest → StoredIntent → StoredIntent
unfolding next_verified_at
updated_row v now tx_hash j request i = record i {
  status = j.next_status;
  submitted_tx_hash = some tx_hash;
  verified_tx_hash = if is_verified j.next_status then some tx_hash else i.verified_tx_hash;
  failure_reason = j.failure_reason;
  proof_status = some j.proof_status;
  binding = j.binding;
  proof = j.proof;
  verified_at = next_verified_at (is_verified j.next_status) now i.verified_at;
  amount_base_units = some (or_else i.amount_base_units (v.decimal request.amount_base_units));
}

abbrev pub settlement_used : AgentResult
settlement_used =
    error_result 409 (codes "settlement_used")
      (codes "This transaction is already verified for a different intent.")

abbrev pub already_verified : AgentResult
already_verified =
    error_result 409 (codes "already_verified")
      (codes "This intent is already verified with a different transaction.")

-- A row that remembers an answer, and its storage id.
pub record Remembered : Type 0 where
  pub id : Text
  pub row_ : IdempotencyRow

unfoldable pub with_remembered : Option Remembered → AgentStore → AgentStore
unfolding remember
with_remembered none s = s
with_remembered (some r) s = remember r.id r.row_ s

abbrev pub remembered_ids : Option Remembered → List Text
remembered_ids none = []
remembered_ids (some r) = r.id ∷ []

-- `persistTouched`: the store after it, and the answer where it fails.
unfoldable pub settle_write : WriteFate → AgentStore → AgentStore × Bool → AgentStore × Step Unit
settle_write write_done fresh (after, conflict) =
    (after, if conflict then answers settlement_used else goes_on tt)
settle_write write_fails fresh (after, conflict) = (fresh, answers store_failure)
settle_write write_unanswered fresh (after, conflict) = (after, answers store_failure)

abbrev pub is_awaiting_row : IntentStatus → Bool
is_awaiting_row awaiting_payment = true
is_awaiting_row submitted = false
is_awaiting_row verified = false
is_awaiting_row failed = false

module _ (r : AgentRuntime) where
  unfoldable pub persist : (source : AgentStore) → Touched → AgentStore → AgentStore × Step Unit
  unfolding settle_write persist_touched
  persist source touched read =
      settle_write r.fate (r.others read) (persist_touched source touched (r.others read))

  -- The row that remembers a view.
  unfoldable pub remembered_row : (merchant route key hash : Text) → AgentIntentBody → Remembered
  unfolding idempotency_storage_id
  remembered_row merchant route key hash view = record {
    id = idempotency_storage_id r.sha256 merchant route key;
    row_ = record {
      merchant = merchant;
      route = route;
      key = key;
      body_hash = hash;
      status = 200;
      body = intent_body view;
      stored_at = some r.clock;
    };
  }

  -- The same where `shouldRemember` lets it.
  unfoldable pub remembered_view :
      (merchant route key hash : Text) → AgentIntentBody → Option Remembered
  unfolding should_remember remembered_row
  remembered_view merchant route key hash view =
      if not (should_remember 200 (intent_body view))
      then none
      else some (remembered_row merchant route key hash view)

  abbrev pub shown_view : AgentIntentBody → AgentResult
  shown_view view = record { status = 200; body = intent_body view }

  -- The transition of the ledger that follows a status.
  abbrev pub ledger_next : IntentStatus → Option ℤ → Option Next
  ledger_next verified (some at) = some (to_consumed at)
  ledger_next verified none = none
  ledger_next failed at = some (to_released r.now (codes "intent_failed"))
  ledger_next submitted at = none
  ledger_next awaiting_payment at = none

  -- The event that follows a change of status.
  abbrev pub event_of : (next previous : IntentStatus) → Option Text
  event_of verified previous = some (codes "agent.payment_intent.verified")
  event_of failed failed = none
  event_of failed previous = some (codes "agent.payment_intent.failed")
  event_of submitted submitted = none
  event_of submitted previous = some (codes "agent.payment_intent.submitted")
  event_of awaiting_payment previous = none

  module _ (c : Codec) where
    unfoldable pub move_ledger : Text → Option Next → World c → World c
    unfolding transition_reservation to_lower_case
    move_ledger intent_id none w = w
    move_ledger intent_id (some next) w =
        (transition_reservation c r.ledger_mode max_reservation_attempts (to_lower_case intent_id)
          next w).1

    abbrev pub notify : Option Text → AgentIntentBody → AgentWorld c → AgentWorld c
    notify none view w = w
    notify (some event) view w = record w { emitted = w.emitted ++ ((event, view) ∷ []) }

    -- A write, and what follows it where it does not fail.
    abbrev pub written :
        AgentStore × Step Unit
        → AgentResult
        → (AgentWorld c → AgentWorld c)
        → AgentWorld c
        → AgentResult × AgentWorld c
    written (store, answers a) done next w = (a, record w { store = store })
    written (store, goes_on _) done next w = (done, next (record w { store = store }))

    -- The store that `submitAgentPaymentIntent` hands to `persistTouched`.
    unfoldable pub handed_over : StoredIntent → Option Remembered → AgentStore → AgentStore
    unfolding with_remembered put
    handed_over updated memory store =
        with_remembered memory
          (record store { intents = put updated.intent_id (row updated) store.intents })

    -- From the updated row on, for the view of it; none where `present` throws.
    unfoldable pub store_submission :
        (merchant route key hash : Text)
        → (previous updated : StoredIntent) → Option AgentIntentBody
        → AgentWorld c
        → AgentResult × AgentWorld c
    unfolding persist remembered_view handed_over move_ledger
    store_submission merchant route key hash previous updated none w = (internal_error, w)
    store_submission merchant route key hash previous updated (some view) w =
        let memory = remembered_view merchant route key hash view in
        written
          (persist (handed_over updated memory w.store)
            (touching (updated.intent_id ∷ []) (remembered_ids memory)) w.store)
          (shown_view view)
          (λ after. notify (event_of updated.status previous.status) view (record after {
            ledger =
                move_ledger updated.intent_id (ledger_next updated.status updated.verified_at)
                  after.ledger;
          }))
          w

    unfoldable pub judged_submission :
        (merchant route key hash tx_hash : Text)
        → Loaded
        → Judged
        → AgentWorld c
        → AgentResult × AgentWorld c
    unfolding store_submission updated_row present_intent
    judged_submission merchant route key hash tx_hash l bad_hash w = (
      error_result 400 (codes "invalid_transaction")
          (codes "Transaction hash must be 0x plus 64 hex characters."),
      w,
    )
    judged_submission merchant route key hash tx_hash l threw w = (internal_error, w)
    judged_submission merchant route key hash tx_hash l (judged j) w =
        let updated = updated_row r.viem r.now tx_hash j l.request l.intent in
        store_submission merchant route key hash l.intent updated
          (present_intent r.viem r.origin l.token r.now updated l.request) w

    -- The answer for an intent that this transaction has verified already.
    unfoldable pub shown_again :
        (merchant route key hash : Text)
        → Option AgentIntentBody
        → AgentWorld c
        → AgentResult × AgentWorld c
    unfolding persist remembered_row remember
    shown_again merchant route key hash none w = (internal_error, w)
    shown_again merchant route key hash (some view) w =
        let memory = remembered_row merchant route key hash view in
        written
          (persist (remember memory.id memory.row_ w.store) (touching [] (memory.id ∷ [])) w.store)
          (shown_view view) (λ after. after) w

    abbrev pub same_verified : Option Text → Text → Bool
    same_verified none tx_hash = false
    same_verified (some h) tx_hash = not (is_empty h) && same_id h tx_hash

    -- From the loaded intent on.
    unfoldable pub submit_loaded :
        (merchant route key hash tx_hash : Text)
        → Loaded
        → AgentWorld c
        → AgentResult × AgentWorld c
    unfolding judged_submission judge_result shown_again present_intent hash_used_by_other same_id
    submit_loaded merchant route key hash tx_hash l w =
        if hash_used_by_other tx_hash l.intent.intent_id w.store.intents
        then (settlement_used, w)
        else (if is_verified l.intent.status
            then (if same_verified l.intent.verified_tx_hash tx_hash
                then shown_again merchant route key hash
                    (present_intent r.viem r.origin l.token r.now l.intent l.request) w
                else (already_verified, w))
            else (let (result, block_time) = r.verify tx_hash in
                judged_submission merchant route key hash tx_hash l
                  (judge_result r.viem result l.request block_time) w))
