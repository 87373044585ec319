-- ===== src/Tests/AgentRuns.antt =====
-- Payment intents of machines (src/lib/agentPayments.ts) at a few inputs.
use final_arc.Base.{to_lower_case}
use final_arc.Base.{
  ◌≡◌, ◌↔◌, refl, ap, ◌∙◌, subst, true, false, some, none, [], ◌∷◌, codes, Text, get, arith,
  text_eq, text_eq_iff,
}
use final_arc.Base.Int.{pos}
use final_arc.Base.Values.{string, object, Fields, end, field, boolean}
use final_arc.Ledger.{awaiting_payment, verified}
use final_arc.Ledger.Reserve.{atomic}
use final_arc.Payments.{same_id}
use final_arc.Receipts.ArcProof.{ArcProofBody, assemble_arc_proof, proof_body}
use final_arc.Receipts.Verify.{parse_memo_receipt}
use final_arc.Agents.{row, read_kept, checked, StoredIntent, IdempotencyRow, AgentStore, error_body}
use final_arc.Agents.Canonical.{JsonText, in_object, swapped}
use final_arc.Agents.Section.{is_verified, persist_touched, touching}
use final_arc.Agents.Unique.{IsUnique}
use final_arc.Agents.Commits.{
  IsVerifiedAt, Committed, persist_touched-first, persist_touched-conflict,
}
use final_arc.Agents.Proof.{bind_proof, Judgement, judged, judge_result, bound}
use final_arc.Agents.Binding.{is_bound, Binds, bind_proof_iff, judge_result-verified}
use final_arc.Agents.Load.{goes_on, AgentRequest, hash_of_body, hash_of_body-Alike}
use final_arc.Agents.Submit.{AgentRuntime, AgentWorld, write_done}
use final_arc.Agents.Handlers.{submit_agent_payment_intent}
use final_arc.Agents.Outcomes.{
  submit_agent_payment_intent-IsUnique, submit_agent_payment_intent-verified,
}
use final_arc.Tests.Samples.{
  plain_viem, plain_codec, paid_request, paid_receipt, paid_certificate, paid_hash,
}

abbrev proof_of_payment : ArcProofBody
proof_of_payment =
    assemble_arc_proof plain_viem (parse_memo_receipt plain_viem paid_receipt)
      (some paid_certificate) none

bind_proof_iff_example :
    (is_bound (bind_proof plain_viem proof_of_payment paid_request (some (pos 1500))) ≡ true)
    ↔ Binds plain_viem proof_of_payment paid_request (some (pos 1500))
bind_proof_iff_example = bind_proof_iff plain_viem proof_of_payment paid_request (some (pos 1500))

abbrev passed : Judgement
passed = record {
  proof_status = checked proof_of_payment.status;
  proof = some proof_of_payment;
  binding = bound;
  next_status = verified;
  failure_reason = none;
}

payment_passes :
    judge_result plain_viem (proof_body proof_of_payment) paid_request (some (pos 1500))
    ≡ judged passed
unfolding judge_result assemble_arc_proof parse_memo_receipt
payment_passes = refl

judge_result-verified_example :
    (proof : ArcProofBody) × (proof_body proof_of_payment ≡ proof_body proof)
    × Binds plain_viem proof paid_request (some (pos 1500))
judge_result-verified_example =
    judge_result-verified plain_viem (proof_body proof_of_payment) paid_request (some (pos 1500))
      passed payment_passes refl

abbrev plain_json : JsonText
plain_json = record { quote = λ s. s; show_number = λ z. [] }

abbrev one_order : Fields
one_order = field (codes "a") (boolean true) (field (codes "b") (boolean false) end)

abbrev other_order : Fields
other_order = field (codes "b") (boolean false) (field (codes "a") (boolean true) end)

a_is_not_b : text_eq (codes "a") (codes "b") ≡ false
unfolding text_eq
a_is_not_b = refl

hash_of_body-Alike_example :
    hash_of_body (λ s. s) plain_json one_order ≡ hash_of_body (λ s. s) plain_json other_order
hash_of_body-Alike_example =
    hash_of_body-Alike (λ s. s) plain_json one_order other_order (in_object (swapped a_is_not_b))

abbrev intent_key : Text
intent_key = paid_request.request_id

abbrev waiting : StoredIntent
waiting = record {
  intent_id = intent_key;
  request_id = intent_key;
  merchant = codes "0xm";
  created_at = [];
  agent_id = none;
  agent_name = none;
  client_reference = none;
  status = awaiting_payment;
  submitted_tx_hash = none;
  verified_tx_hash = none;
  failure_reason = none;
  proof_status = none;
  binding = bound;
  proof = none;
  amount_base_units = none;
  verified_at = none;
  policy = none;
}

abbrev settled_intent : StoredIntent
settled_intent = record waiting { status = verified; verified_tx_hash = some paid_hash }

abbrev store_with : StoredIntent → AgentStore
store_with i = record {
  intents = (i.intent_id, row i) ∷ [];
  idempotency = [];
  reservations = [];
  denials = [];
}

abbrev runtime : AgentRuntime
runtime = record {
  viem = plain_viem;
  json = plain_json;
  sha256 = λ s. s;
  origin = codes "o";
  now = pos 1600;
  clock = 1600;
  auth = goes_on (codes "0xm");
  read_fails = false;
  links =
      some (record { token = codes "t"; created = some (pos 1); request = some paid_request } ∷ []);
  others = λ s. s;
  fate = write_done;
  verify = λ hash. (proof_body proof_of_payment, some (pos 1500));
  ledger_mode = atomic;
}

abbrev submission : AgentRequest
submission = record {
  query = some [];
  json = some (object (field (codes "txHash") (string paid_hash) end));
  idempotency_key = some (codes "k");
}

abbrev world_with : StoredIntent → AgentWorld plain_codec
world_with i = record {
  store = store_with i;
  ledger = record { stored = none; events = [] };
  emitted = [];
}

-- The submission of the payment makes the intent verified.
becomes_verified :
    IsVerifiedAt intent_key
      (submit_agent_payment_intent runtime plain_codec submission intent_key
        (world_with waiting)).1.store.intents
unfolding submit_agent_payment_intent assemble_arc_proof parse_memo_receipt
becomes_verified = refl

one_intent :
    (i : StoredIntent) (k : Text) (x : StoredIntent)
    → get k (store_with i).intents ≡ some (row x)
    → (i.intent_id ≡ k) × (i ≡ x)
unfolding get
one_intent i k x e = ground (arith, text_eq_iff i.intent_id k)

waiting-IsUnique : IsUnique (store_with waiting).intents
waiting-IsUnique = (
  λ j k h g (i, e, held, full) other same.
      let hash_eq : waiting.verified_tx_hash ≡ some h =
        ap (λ x. x.verified_tx_hash) (one_intent waiting j i e).1 ∙ held in
      absurd (cc),
  λ k h i e held full.
      let hash_eq : waiting.verified_tx_hash ≡ some h =
        ap (λ x. x.verified_tx_hash) (one_intent waiting k i e).1 ∙ held in
      absurd (cc),
)

same_key : same_id intent_key intent_key ≡ true
unfolding same_id text_eq to_lower_case
same_key = refl

settled_intent-IsUnique : IsUnique (store_with settled_intent).intents
settled_intent-IsUnique = (
  λ j k h g (i, e, _, _) (x, f, _, _) same.
      let j_eq = (one_intent settled_intent j i e).0 in
      let k_eq = (one_intent settled_intent k x f).0 in
      subst (λ a. same_id a k ≡ true) j_eq (subst (λ b. same_id intent_key b ≡ true) k_eq same_key),
  λ k h i e held full.
      subst (λ x. is_verified x.status ≡ true) (one_intent settled_intent k i e).1 refl,
)

submit_agent_payment_intent-IsUnique_example :
    IsUnique
      (submit_agent_payment_intent runtime plain_codec submission intent_key
        (world_with waiting)).1.store.intents
submit_agent_payment_intent-IsUnique_example =
    submit_agent_payment_intent-IsUnique runtime plain_codec submission intent_key
      (world_with waiting) (λ s u. u) waiting-IsUnique

settled_is_verified : IsVerifiedAt intent_key (store_with settled_intent).intents
unfolding get text_eq
settled_is_verified = refl

submit_agent_payment_intent-verified_example :
    IsVerifiedAt intent_key
      (submit_agent_payment_intent runtime plain_codec submission intent_key
        (world_with settled_intent)).1.store.intents
submit_agent_payment_intent-verified_example =
    submit_agent_payment_intent-verified runtime plain_codec submission intent_key intent_key
      (world_with settled_intent) (λ s u. u) settled_intent-IsUnique settled_is_verified

abbrev memory : IdempotencyRow
memory = record {
  merchant = codes "0xm";
  route = codes "r";
  key = codes "k";
  body_hash = codes "h";
  status = 200;
  body = error_body [] [] none;
  stored_at = some 1600;
}

abbrev remembering : AgentStore → AgentStore
remembering s = record s { idempotency = (codes "m", row memory) ∷ [] }

-- Another intent that claims the transaction of the settled one.
abbrev rival : AgentStore
rival = remembering (store_with (record settled_intent { intent_id = codes "0xother" }))

Committed-memory : Committed (codes "m") memory (remembering (store_with waiting)).idempotency
unfolding get text_eq
Committed-memory = refl

persist_touched-first_example :
    Committed
      (codes "m")
      memory
      (persist_touched rival
        (touching [] (codes "m" ∷ []))
        (remembering (store_with waiting))).0.idempotency
persist_touched-first_example =
    persist_touched-first rival (touching [] (codes "m" ∷ [])) (remembering (store_with waiting))
      (codes "m") memory Committed-memory

rival_conflicts :
    (persist_touched rival
      (touching (codes "0xother" ∷ []) (codes "m" ∷ []))
      (store_with settled_intent)).1
    ≡ true
unfolding persist_touched text_eq to_lower_case
rival_conflicts = refl

rival_memory : get (codes "m") rival.idempotency ≡ some (row memory)
unfolding get text_eq
rival_memory = refl

no_memory : read_kept (get (codes "m") (store_with settled_intent).idempotency) ≡ none
unfolding get read_kept
no_memory = refl

persist_touched-conflict_example :
    let after =
      (persist_touched rival
        (touching (codes "0xother" ∷ []) (codes "m" ∷ []))
        (store_with settled_intent)).0 in
    (after.intents ≡ (store_with settled_intent).intents)
    × Committed (codes "m") memory after.idempotency
persist_touched-conflict_example =
    persist_touched-conflict rival (codes "0xother") (codes "m") (store_with settled_intent) memory
      rival_conflicts rival_memory no_memory
