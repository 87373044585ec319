-- ===== src/Tests/OrchestrationRuns.antt =====
-- Settlements and submitted hashes (src/lib/settlement.ts) at a few inputs.
use final_arc.Base.Int.{is_safe_integer}
use final_arc.Orchestration.Enqueue.{subscribes}
use final_arc.Base.{to_lower_case}
use final_arc.Base.{text_eq}
use final_arc.Base.{get}
use final_arc.Base.{
  ℕ, ◌≤◌, ◌≡◌, ◌≢◌, refl, true, none, some, [], ◌∷◌, codes, Text, arith, any_of, values,
}
use final_arc.Base.Int.{pos}
use final_arc.Payments.{PaidProof}
use final_arc.Payments.Settle.{settled}
use final_arc.Webhooks.{WebhookEndpointRecord}
use final_arc.Orchestration.Enqueue.{
  StoreFile, Outside, payment_paid, fresh_id, is_paid_by, paid_event, enqueue_payment_paid_in_store,
  settle_and_enqueue,
}
use final_arc.Orchestration.Deliveries.{
  Fresh, first_attempts, is_subscriber, enqueue_payment_paid_in_store_exactly_once,
}
use final_arc.Orchestration.Submit.{SubmittedProofResult, proof, no_receipt}
use final_arc.Tests.PaymentRuns.{first_proof, two_rows, paid_row}

abbrev outside : Outside
outside = record {
  sha256_hex = λ s. s;
  iso = λ now. codes "t";
  envelope = λ id at row tx. id;
  random_id = λ n. n ∷ [];
}

abbrev endpoint : WebhookEndpointRecord
endpoint = record {
  id = codes "wh1";
  merchant = codes "0xM";
  url = codes "https://shop";
  enabled = true;
  events = payment_paid ∷ [];
  secret = codes "s";
  created_at = codes "t";
  updated_at = codes "t";
}

abbrev shop : StoreFile
shop = record {
  records = two_rows;
  endpoints = (codes "wh1", some endpoint) ∷ (codes "broken", none) ∷ [];
  deliveries = [];
}

shop-Fresh : Fresh outside 0 shop.deliveries
unfolding fresh_id get
shop-Fresh = ((λ m h. refl), (λ i j e. cc))

paid_by_tx : is_paid_by (codes "0xt") paid_row.paid_tx ≡ true
unfolding is_paid_by text_eq to_lower_case
paid_by_tx = refl

none_before :
    first_attempts (paid_event outside paid_row (codes "0xt") (pos 5)).id (codes "wh1") [] ≤ 1
unfolding first_attempts
none_before = omega arith

wh1_subscribes : any_of (is_subscriber paid_row.to (codes "wh1")) (values shop.endpoints) ≡ true
unfolding subscribes text_eq to_lower_case
wh1_subscribes = refl

enqueue_payment_paid_in_store_exactly_once_example :
    first_attempts
      (paid_event outside paid_row (codes "0xt") (pos 5)).id
      (codes "wh1")
      (enqueue_payment_paid_in_store outside shop paid_row (codes "0xt") (pos 5)).1.deliveries
    ≡ 1
enqueue_payment_paid_in_store_exactly_once_example =
    enqueue_payment_paid_in_store_exactly_once outside shop paid_row (codes "0xt") (pos 5)
      (codes "wh1") shop-Fresh paid_by_tx none_before wh1_subscribes

first_transition :
    (settle_and_enqueue outside (codes "a") first_proof (pos 5) shop).1.outcome
    ≡ settled paid_row true
unfolding settle_and_enqueue get text_eq is_safe_integer
first_transition = refl

abbrev accept : Text → SubmittedProofResult
accept tx = proof first_proof

abbrev unknown : Text → SubmittedProofResult
unknown tx = no_receipt

abbrev nobody : ℕ → StoreFile → StoreFile
nobody n s = s

no_proof : (p : PaidProof) → unknown (codes "0xT") ≢ proof p
no_proof p e = cc
