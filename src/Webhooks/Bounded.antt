-- ===== src/Webhooks/Bounded.antt =====
-- The attempts of a scheduled run (src/lib/webhooks.ts).
use final_arc.Base.{
  ℕ, Bool, true, false, ◌&&◌, Option, none, some, List, [], ◌∷◌, ◌==◌, if◌then◌else◌, All, Text,
  text_eq, or_else, get,
}
use final_arc.Webhooks.{
  WebhookDeliveryRecord, WebhookEndpointRecord, WebhookEnvelope, WebhookStoreSection,
}
use final_arc.Webhooks.Queue.{readable}
use final_arc.Webhooks.Destination.{Checked, allowed, refused, thrown}
use final_arc.Webhooks.Deliver.{
  WebhookDeps, World, mutate, post_to, deliver_signed, http_deliver, finalize, deliver_live,
  deliver_failed, deliver_claimed, after_claim, claim, lease_token, load_endpoint, read_store,
  deliver_row, after_enqueue, enqueue, deliver_once,
}
use final_arc.Webhooks.Queue.{Patch, finalized}
use final_arc.Webhooks.Deliver.{on_deliveries}
use final_arc.Webhooks.Deliver.{outcome_patch, endpoint_unavailable, request_of}
use final_arc.Webhooks.Queue.{find_in, find_delivery}
use final_arc.Webhooks.Attempts.{
  InRange, RowInRange, AttemptsInRange, get-InRange, enqueue-InRange, claim-InRange,
  finalize-InRange, PatchInRange,
}

-- Other callers keep the attempts in range.
abbrev pub OthersInRange : WebhookDeps → Type 0
OthersInRange d =
    (n : ℕ) (s : WebhookStoreSection)
    → AttemptsInRange s.deliveries
    → AttemptsInRange (d.others n s).deliveries

-- A sort adds no row.
abbrev pub AddsNone : (List WebhookDeliveryRecord → List WebhookDeliveryRecord) → Type 1
AddsNone sorted =
    (P : WebhookDeliveryRecord → Type 0) (rows : List WebhookDeliveryRecord)
    → All P rows
    → All P (sorted rows)

abbrev pub RowsInRange : Option (List WebhookDeliveryRecord) → Type 0
RowsInRange none = Unit
RowsInRange (some rows) = All (λ row. InRange row.attempt) rows

abbrev pub WorldInRange : World → Type 0
WorldInRange w = AttemptsInRange w.store.deliveries

module _ (d : WebhookDeps) (others : OthersInRange d) where
  -- A step, and the row that it gives.
  abbrev pub Good : Option WebhookDeliveryRecord × World → Type 0
  Good r = RowInRange r.0 × WorldInRange r.1

  enqueue-Good :
      (endpoint : WebhookEndpointRecord) (envelope : WebhookEnvelope) (raw_body : Text)
      (attempt : ℕ) (w : World)
      → InRange attempt
      → WorldInRange w
      → Good (enqueue d endpoint envelope raw_body attempt w)
  unfolding enqueue mutate on_deliveries
  enqueue-Good endpoint envelope raw_body attempt w h a =
      enqueue-InRange d.clock d.newest_first (request_of d endpoint envelope raw_body attempt w)
        (d.others w.step w.store).deliveries h (others w.step w.store a)

  pub claim-Good : (id : Text) (w : World) → WorldInRange w → Good (claim d id w)
  unfolding claim mutate on_deliveries
  claim-Good id w a =
      claim-InRange d.clock id (lease_token d w) (d.now_seconds w.step)
        (d.others w.step w.store).deliveries (others w.step w.store a)

  pub finalize-Good :
      (id token : Text) (p : Patch) (w : World)
      → PatchInRange p.attempt
      → WorldInRange w
      → Good (finalize d id token p w)
  unfolding finalize mutate on_deliveries
  finalize-Good id token p w q a =
      finalize-InRange id token p (d.others w.step w.store).deliveries q (others w.step w.store a)

  pub read-Good :
      {A : Type 0} (f : WebhookStoreSection → A) (w : World)
      → WorldInRange w
      → WorldInRange (read_store d f w).1
  unfolding read_store mutate
  read-Good f w a = others w.step w.store a

  row-Good :
      (id : Text) (w : World)
      → WorldInRange w
      → RowInRange (read_store d (λ s. readable (get id s.deliveries)) w).0
  unfolding read_store mutate
  row-Good id w a = get-InRange id (d.others w.step w.store).deliveries (others w.step w.store a)

  http-Good :
      (endpoint : WebhookEndpointRecord) (envelope : WebhookEnvelope) (raw_body : Text) (w : World)
      → WorldInRange w
      → WorldInRange (http_deliver d endpoint envelope raw_body w).1
  unfolding http_deliver deliver_signed
  http-Good endpoint envelope raw_body w a = secret (d.decrypt endpoint)
    where
      sent :
          (s : Text) (c : Checked (List Text))
          → WorldInRange (post_to d endpoint envelope raw_body s c w).1
      sent s (refused message) = a
      sent s thrown = a
      sent s (allowed addresses) = a

      secret : (o : Option Text) → WorldInRange (deliver_signed d endpoint envelope raw_body o w).1
      secret none = a
      secret (some s) = sent s _

  or_else-Good :
      (o : Option WebhookDeliveryRecord) (row : WebhookDeliveryRecord)
      → RowInRange o
      → InRange row.attempt
      → InRange (or_else o row).attempt
  or_else-Good none row h k = k
  or_else-Good (some x) row h k = h

  -- One delivery.
  abbrev Fine : WebhookDeliveryRecord × World → Type 0
  Fine r = InRange r.0.attempt × WorldInRange r.1

  if-Fine :
      (b : Bool) (x y : WebhookDeliveryRecord × World) → Fine x → Fine y → Fine (if b then x else y)
  if-Fine true x y f g = f
  if-Fine false x y f g = g

  deliver_live-Fine :
      (live : WebhookEndpointRecord) (envelope : WebhookEnvelope) (raw_body : Text) (attempt : ℕ)
      (row : WebhookDeliveryRecord) (token : Text) (w : World)
      → InRange row.attempt
      → WorldInRange w
      → Fine (deliver_live d live envelope raw_body attempt row token w)
  unfolding deliver_live finalized
  deliver_live-Fine live envelope raw_body attempt row token w h a =
      let sent = http_deliver d live envelope raw_body w in
      let p = outcome_patch d sent.0 attempt sent.1 in
      let done =
        finalize-Good row.delivery_id token p sent.1 tt (http-Good live envelope raw_body w a) in
      (
        or_else-Good (finalize d row.delivery_id token p sent.1).0 (finalized p row) done.0 h,
        done.1,
      )

  deliver_failed-Fine :
      (row : WebhookDeliveryRecord) (token : Text) (w : World)
      → InRange row.attempt
      → WorldInRange w
      → Fine (deliver_failed d row token w)
  unfolding deliver_failed
  deliver_failed-Fine row token w h a =
      let done = finalize-Good row.delivery_id token (endpoint_unavailable d w) w tt a in
      (
        or_else-Good (finalize d row.delivery_id token (endpoint_unavailable d w) w).0 row done.0 h,
        done.1,
      )

  deliver_claimed-Fine :
      (envelope : WebhookEnvelope) (raw_body : Text) (attempt : ℕ) (row : WebhookDeliveryRecord)
      (token : Text) (o : Option WebhookEndpointRecord) (w : World)
      → InRange row.attempt
      → WorldInRange w
      → Fine (deliver_claimed d envelope raw_body attempt row token o w)
  unfolding deliver_claimed
  deliver_claimed-Fine envelope raw_body attempt row token none w h a =
      deliver_failed-Fine row token w h a
  deliver_claimed-Fine envelope raw_body attempt row token (some live) w h a =
      if-Fine live.enabled (deliver_live d live envelope raw_body attempt row token w)
        (deliver_failed d row token w)
        (deliver_live-Fine live envelope raw_body attempt row token w h a)
        (deliver_failed-Fine row token w h a)

  after_claim-Fine :
      (endpoint : WebhookEndpointRecord) (envelope : WebhookEnvelope) (raw_body : Text)
      (attempt : ℕ) (row : WebhookDeliveryRecord) (token : Text) (o : Option WebhookDeliveryRecord)
      (w : World)
      → InRange row.attempt
      → RowInRange o
      → WorldInRange w
      → Fine (after_claim d endpoint envelope raw_body attempt row token o w)
  unfolding after_claim load_endpoint
  after_claim-Fine endpoint envelope raw_body attempt row token none w h k a = (
    or_else-Good (read_store d (λ s. readable (get row.delivery_id s.deliveries)) w).0 row
        (row-Good row.delivery_id w a) h,
    read-Good (λ s. readable (get row.delivery_id s.deliveries)) w a,
  )
  after_claim-Fine endpoint envelope raw_body attempt row token (some claimed) w h k a =
      deliver_claimed-Fine envelope raw_body attempt claimed token (load_endpoint d endpoint.id w).0
        (load_endpoint d endpoint.id w).1 k
        (read-Good (λ s. readable (get endpoint.id s.endpoints)) w a)

  deliver_row-Fine :
      (endpoint : WebhookEndpointRecord) (envelope : WebhookEnvelope) (raw_body : Text)
      (attempt : ℕ) (row : WebhookDeliveryRecord) (w : World)
      → InRange row.attempt
      → WorldInRange w
      → Fine (deliver_row d endpoint envelope raw_body attempt row w)
  unfolding deliver_row
  deliver_row-Fine endpoint envelope raw_body attempt row w h a =
      let claimed = claim-Good row.delivery_id w a in
      after_claim-Fine endpoint envelope raw_body attempt row (lease_token d w)
        (claim d row.delivery_id w).0 (claim d row.delivery_id w).1 h claimed.0 claimed.1

  find_in-InRange :
      (event_id webhook_id : Text) (attempt : ℕ) (rows : List (Option WebhookDeliveryRecord))
      → All RowInRange rows
      → RowInRange (find_in event_id webhook_id attempt rows)
  unfolding find_in
  find_in-InRange event_id webhook_id attempt [] a = tt
  find_in-InRange event_id webhook_id attempt (none ∷ rows) a =
      find_in-InRange event_id webhook_id attempt rows a.1
  find_in-InRange event_id webhook_id attempt (some row ∷ rows) a =
      from
        (text_eq row.event_id event_id
          && text_eq row.webhook_id webhook_id
          && row.attempt == attempt)
        (find_in-InRange event_id webhook_id attempt rows a.1)
    where
      from :
          (b : Bool)
          → RowInRange (find_in event_id webhook_id attempt rows)
          → RowInRange (if b then some row else find_in event_id webhook_id attempt rows)
      from true r = a.0
      from false r = r

  after_enqueue-Good :
      (endpoint : WebhookEndpointRecord) (envelope : WebhookEnvelope) (raw_body : Text)
      (attempt : ℕ) (o : Option WebhookDeliveryRecord) (w : World)
      → RowInRange o
      → WorldInRange w
      → Good (after_enqueue d endpoint envelope raw_body attempt o w)
  unfolding after_enqueue read_store mutate find_delivery
  after_enqueue-Good endpoint envelope raw_body attempt none w h a = (
    find_in-InRange envelope.id endpoint.id attempt _ (others w.step w.store a),
    others w.step w.store a,
  )
  after_enqueue-Good endpoint envelope raw_body attempt (some row) w h a =
      deliver_row-Fine endpoint envelope raw_body attempt row w h a

  pub deliver_once-Good :
      (endpoint : WebhookEndpointRecord) (envelope : WebhookEnvelope) (raw_body : Text)
      (attempt : ℕ) (o : Option WebhookDeliveryRecord) (w : World)
      → InRange attempt
      → RowInRange o
      → WorldInRange w
      → Good (deliver_once d endpoint envelope raw_body attempt o w)
  unfolding deliver_once
  deliver_once-Good endpoint envelope raw_body attempt (some row) w h k a =
      deliver_row-Fine endpoint envelope raw_body attempt row w k a
  deliver_once-Good endpoint envelope raw_body attempt none w h k a =
      let stored = enqueue-Good endpoint envelope raw_body attempt w h a in
      after_enqueue-Good endpoint envelope raw_body attempt
        (enqueue d endpoint envelope raw_body attempt w).0
        (enqueue d endpoint envelope raw_body attempt w).1 stored.0 stored.1
