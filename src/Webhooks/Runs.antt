-- ===== src/Webhooks/Runs.antt =====
-- The requests of a scheduled run (src/lib/webhooks.ts).
use final_arc.Base.{
  ℕ, suc, ◌+◌, ◌≤◌, ◌≡◌, refl, ap, ◌∙◌, Bool, true, false, Option, none, some, List, [], ◌∷◌, ◌++◌,
  length, take, Text, codes, arith, ltb, get, values, zero,
}
use final_arc.Webhooks.{
  WebhookDeliveryRecord, WebhookDeliveryStatus, pending, success, failed, retrying,
  WebhookEndpointRecord, WebhookEnvelope, WebhookStoreSection,
}
use final_arc.Webhooks.Queue.{readable}
use final_arc.Webhooks.Schedule.{is_webhook_delivery_due, webhook_max_attempts}
use final_arc.Webhooks.Deliver.{
  WebhookDeps, World, mutate, finalize, claim, lease_token, load_endpoint, read_store, deliver_once,
}
use final_arc.Webhooks.Due.{
  Ran, prefix_rows, delivered, close_claimed, close_row, pending_parsed, pending_found,
  process_pending, next_attempt, retry_parsed, retry_unavailable, retry_found, retry_claimed,
  process_retrying, process_row, after_row, process_rows, due_now, process_due_webhook_deliveries,
  some_or, use_slot, stopped, due_rows,
}
use final_arc.Webhooks.Posts.{Sends, quiet, Sends-then, if-Sends, deliver_once-Sends}

module _ (d : WebhookDeps) where
  -- A step without requests before a part.
  abbrev Still : World → World → Type 0
  Still v w = v.posts ≡ w.posts

  after-Still : (n : ℕ) (u v w : World) → Still v u → Sends d n v w → Sends d n u w
  after-Still n u v w e s = (s.0, s.1 ∙ ap (λ l. s.0 ++ l) e, s.2, s.3)

  delivered-Sends :
      (n : ℕ) (w : World) (r : Option WebhookDeliveryRecord × World)
      → Sends d n w r.1
      → Sends d n w (delivered d r).1
  delivered-Sends n w (none, v) s = s
  delivered-Sends n w (some row, v) s = s

  close_row-Sends :
      (prior : WebhookDeliveryRecord) (error : Text) (report : Bool) (w : World)
      → Sends d 1 w (close_row d prior error report w).1
  unfolding close_row claim mutate close_claimed finalize
  close_row-Sends prior error report w =
      from (claim d prior.delivery_id w).0 (claim d prior.delivery_id w).1 refl
    where
      from :
          (o : Option WebhookDeliveryRecord) (v : World)
          → Still v w
          → Sends d 1 w (close_claimed d prior error report (lease_token d w) o v).1
      from none v e = ([], e, omega arith, tt)
      from (some claimed) v e = ([], e, omega arith, tt)

  pending_parsed-Sends :
      (prior : WebhookDeliveryRecord) (endpoint : WebhookEndpointRecord)
      (o : Option WebhookEnvelope) (w : World)
      → Sends d 1 w (pending_parsed d prior endpoint o w).1
  unfolding pending_parsed
  pending_parsed-Sends prior endpoint none w = close_row-Sends prior (codes "invalid_body") false w
  pending_parsed-Sends prior endpoint (some envelope) w =
      delivered-Sends 1 w (deliver_once d endpoint envelope prior.body prior.attempt (some prior) w)
        (deliver_once-Sends d endpoint envelope prior.body prior.attempt (some prior) w)

  pending_found-Sends :
      (prior : WebhookDeliveryRecord) (o : Option WebhookEndpointRecord) (w : World)
      → Sends d 1 w (pending_found d prior o w).1
  unfolding pending_found
  pending_found-Sends prior none w = close_row-Sends prior (codes "endpoint_unavailable") true w
  pending_found-Sends prior (some endpoint) w =
      pending_parsed-Sends prior endpoint (d.parse_envelope prior.body) w

  process_pending-Sends :
      (prior : WebhookDeliveryRecord) (o : Option WebhookEndpointRecord) (w : World)
      → Sends d 1 w (process_pending d prior o w).1
  unfolding process_pending load_endpoint read_store mutate
  process_pending-Sends prior (some endpoint) w = pending_found-Sends prior (some endpoint) w
  process_pending-Sends prior none w =
      let live = load_endpoint d prior.webhook_id w in
      after-Still 1 w live.1 (pending_found d prior live.0 live.1).1 refl
        (pending_found-Sends prior live.0 live.1)

  next_attempt-Sends :
      (prior : WebhookDeliveryRecord) (endpoint : WebhookEndpointRecord)
      (envelope : WebhookEnvelope) (id token : Text) (w : World)
      → Sends d 1 w (next_attempt d prior endpoint envelope id token w).1
  unfolding next_attempt finalize mutate use_slot
  next_attempt-Sends prior endpoint envelope id token w =
      let v = use_slot d prior id token w in
      let r = deliver_once d endpoint envelope prior.body (prior.attempt + 1) none v in
      if-Sends d 1 (ltb webhook_max_attempts (prior.attempt + 1))
        (some [], (finalize d id token (stopped d none none) w).1) (delivered d r) w
        ([], refl, omega arith, tt)
        (delivered-Sends 1 w r (
          after-Still 1 w v r.1 refl
            (deliver_once-Sends d endpoint envelope prior.body (prior.attempt + 1) none v)))

  retry_parsed-Sends :
      (prior : WebhookDeliveryRecord) (endpoint : WebhookEndpointRecord)
      (o : Option WebhookEnvelope) (id token : Text) (w : World)
      → Sends d 1 w (retry_parsed d prior endpoint o id token w).1
  unfolding retry_parsed finalize mutate
  retry_parsed-Sends prior endpoint none id token w = ([], refl, omega arith, tt)
  retry_parsed-Sends prior endpoint (some envelope) id token w =
      next_attempt-Sends prior endpoint envelope id token w

  retry_found-Sends :
      (prior : WebhookDeliveryRecord) (o : Option WebhookEndpointRecord) (id token : Text)
      (w : World)
      → Sends d 1 w (retry_found d prior o id token w).1
  unfolding retry_found retry_unavailable finalize mutate
  retry_found-Sends prior none id token w = ([], refl, omega arith, tt)
  retry_found-Sends prior (some endpoint) id token w =
      if-Sends d 1 endpoint.enabled
        (retry_parsed d prior endpoint (d.parse_envelope prior.body) id token w)
        (retry_unavailable d id token w) w
        (retry_parsed-Sends prior endpoint (d.parse_envelope prior.body) id token w)
        ([], refl, omega arith, tt)

  process_retrying-Sends :
      (prior : WebhookDeliveryRecord) (first : Option WebhookEndpointRecord) (w : World)
      → Sends d 1 w (process_retrying d prior first w).1
  unfolding process_retrying retry_claimed claim load_endpoint read_store mutate
  process_retrying-Sends prior first w =
      from (claim d prior.delivery_id w).0 (claim d prior.delivery_id w).1 refl
    where
      from :
          (o : Option WebhookDeliveryRecord) (v : World)
          → Still v w
          → Sends d 1 w (retry_claimed d prior first (lease_token d w) o v).1
      from none v e = ([], e, omega arith, tt)
      from (some claimed) v e =
          let live = load_endpoint d prior.webhook_id v in
          after-Still 1 w live.1
            (retry_found d prior (some_or live.0 first) claimed.delivery_id (lease_token d w)
              live.1).1
            e
            (retry_found-Sends prior (some_or live.0 first) claimed.delivery_id (lease_token d w)
              live.1)

  process_row-Sends :
      (prior : WebhookDeliveryRecord) (status : WebhookDeliveryStatus)
      (first : Option WebhookEndpointRecord) (w : World)
      → Sends d 1 w (process_row d prior status first w).1
  unfolding process_row
  process_row-Sends prior pending first w = process_pending-Sends prior first w
  process_row-Sends prior success first w = process_retrying-Sends prior first w
  process_row-Sends prior failed first w = process_retrying-Sends prior first w
  process_row-Sends prior retrying first w = process_retrying-Sends prior first w

  prefix_rows-Sends :
      (n : ℕ) (out : List WebhookDeliveryRecord) (v : World) (r : Ran)
      → Sends d n v r.1
      → Sends d n v (prefix_rows out r).1
  prefix_rows-Sends n out v (none, w) s = s
  prefix_rows-Sends n out v (some rows, w) s = s

  process_rows-Sends :
      (s : WebhookStoreSection) (rows : List WebhookDeliveryRecord) (w : World)
      → Sends d (length rows) w (process_rows d s rows w).1
  unfolding process_rows after_row
  process_rows-Sends s [] w = quiet d 0 w
  process_rows-Sends s (prior ∷ rows) w =
      from (process_row d prior prior.status (readable (get prior.webhook_id s.endpoints)) w)
        (process_row-Sends prior prior.status (readable (get prior.webhook_id s.endpoints)) w)
        (process_rows-Sends s rows)
    where
      from :
          (r : Ran)
          → Sends d 1 w r.1
          → ((v : World) → Sends d (length rows) v (process_rows d s rows v).1)
          → Sends d (suc (length rows)) w (after_row d (process_rows d s rows) r).1
      from (none, v) (new, e, k, f) later = (new, e, omega arith, f)
      from (some out, v) one later =
          let rest = later v in
          let n = prefix_rows-Sends (length rows) out v (process_rows d s rows v) rest in
          let both =
            Sends-then d 1 (length rows) w v (prefix_rows out (process_rows d s rows v)).1 one n in
          (both.0, both.1, omega (arith, both.2), both.3)

  length-take : (n : ℕ) (rows : List WebhookDeliveryRecord) → length (take n rows) ≤ n
  length-take zero rows = omega arith
  length-take (suc n) [] = omega arith
  length-take (suc n) (row ∷ rows) = omega (arith, length-take n rows)

  -- A scheduled run sends at most 25 requests, whatever other callers do between its steps and
  -- however its connections fail. Each goes to an https URL without credentials whose host is no
  -- internal name and no blocked address, over a list of addresses that is not empty and of which
  -- none is blocked.
  pub process_due_webhook_deliveries-Sends :
      (w : World) → Sends d 25 w (process_due_webhook_deliveries d w).1
  unfolding process_due_webhook_deliveries read_store mutate due_now
  process_due_webhook_deliveries-Sends w =
      let s = read_store d (λ s. s) w in
      let rows = due_now d s.0 (d.now_seconds s.1.step) in
      let sent = process_rows-Sends s.0 rows s.1 in
      (
        sent.0,
        sent.1,
        omega (
          arith,
          sent.2,
          length-take 25 (
              d.earliest_first (
                due_rows (λ row. is_webhook_delivery_due d.clock row (d.now_seconds s.1.step))
                  (values s.0.deliveries))),
        ),
        sent.3,
      )
