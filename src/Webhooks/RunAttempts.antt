-- ===== src/Webhooks/RunAttempts.antt =====
-- The attempts that a scheduled run makes (src/lib/webhooks.ts).
use final_arc.Base.{
  ℕ, suc, ◌+◌, ◌≡◌, refl, Bool, true, false, Option, none, some, List, [], ◌∷◌, ◌++◌, if◌then◌else◌,
  take, All, Text, codes, arith, ltb, get, values, zero,
}
use final_arc.Webhooks.{
  WebhookDeliveryRecord, WebhookDeliveryStatus, pending, success, failed, retrying,
  WebhookEndpointRecord, WebhookEnvelope, WebhookStoreSection,
}
use final_arc.Webhooks.Queue.{readable}
use final_arc.Webhooks.Schedule.{
  is_webhook_delivery_due, webhook_max_attempts, webhook_max_due_per_run,
}
use final_arc.Webhooks.Deliver.{
  WebhookDeps, World, mutate, finalize, claim, lease_token, load_endpoint, read_store, deliver_once,
}
use final_arc.Webhooks.Due.{
  Ran, prefix_rows, delivered, close_claimed, close_row, pending_parsed, pending_found,
  process_pending, next_attempt, retry_parsed, retry_unavailable, retry_found, retry_claimed,
  process_retrying, process_row, after_row, process_rows, due_now, process_due_webhook_deliveries,
  some_or, use_slot, used_up, stopped, reported, due_rows,
}
use final_arc.Webhooks.Deliver.{now_iso}
use final_arc.Webhooks.Attempts.{InRange, RowInRange, AttemptsInRange}
use final_arc.Webhooks.Bounded.{
  OthersInRange, AddsNone, RowsInRange, WorldInRange, Good, claim-Good, finalize-Good, read-Good,
  deliver_once-Good,
}

module _ (d : WebhookDeps) (others : OthersInRange d) where
  abbrev RunInRange : Ran → Type 0
  RunInRange r = RowsInRange r.0 × WorldInRange r.1

  if-RunInRange :
      (b : Bool) (x y : Ran) → RunInRange x → RunInRange y → RunInRange (if b then x else y)
  if-RunInRange true x y f g = f
  if-RunInRange false x y f g = g

  delivered-range :
      (r : Option WebhookDeliveryRecord × World) → Good d others r → RunInRange (delivered d r)
  delivered-range (none, v) g = (tt, g.1)
  delivered-range (some row, v) g = ((g.0, tt), g.1)

  reported-range :
      (o : Option WebhookDeliveryRecord) → RowInRange o → RowsInRange (some (reported o))
  reported-range none h = tt
  reported-range (some row) h = (h, tt)

  report_if-range :
      (b : Bool) (o : Option WebhookDeliveryRecord)
      → RowInRange o
      → RowsInRange (some (if b then reported o else []))
  report_if-range true o h = reported-range o h
  report_if-range false o h = tt

  close_row-range :
      (prior : WebhookDeliveryRecord) (error : Text) (report : Bool) (w : World)
      → WorldInRange w
      → RunInRange (close_row d prior error report w)
  unfolding close_row close_claimed
  close_row-range prior error report w a =
      from (claim d prior.delivery_id w).0 (claim d prior.delivery_id w).1
        (claim-Good d others prior.delivery_id w a).1
    where
      from :
          (o : Option WebhookDeliveryRecord) (v : World)
          → WorldInRange v
          → RunInRange (close_claimed d prior error report (lease_token d w) o v)
      from none v k = (tt, k)
      from (some claimed) v k =
          let p = stopped d (some (some error)) (some (some (now_iso d v))) in
          let done = finalize-Good d others claimed.delivery_id (lease_token d w) p v tt k in
          (
            report_if-range report (finalize d claimed.delivery_id (lease_token d w) p v).0 done.0,
            done.1,
          )

  pending_found-range :
      (prior : WebhookDeliveryRecord) (o : Option WebhookEndpointRecord) (w : World)
      → InRange prior.attempt
      → WorldInRange w
      → RunInRange (pending_found d prior o w)
  unfolding pending_found pending_parsed
  pending_found-range prior none w h a =
      close_row-range prior (codes "endpoint_unavailable") true w a
  pending_found-range prior (some endpoint) w h a = from (d.parse_envelope prior.body)
    where
      from : (o : Option WebhookEnvelope) → RunInRange (pending_parsed d prior endpoint o w)
      from none = close_row-range prior (codes "invalid_body") false w a
      from (some envelope) =
          delivered-range (deliver_once d endpoint envelope prior.body prior.attempt (some prior) w)
            (deliver_once-Good d others endpoint envelope prior.body prior.attempt (some prior) w h
              h a)

  process_pending-range :
      (prior : WebhookDeliveryRecord) (o : Option WebhookEndpointRecord) (w : World)
      → InRange prior.attempt
      → WorldInRange w
      → RunInRange (process_pending d prior o w)
  unfolding process_pending load_endpoint
  process_pending-range prior (some endpoint) w h a =
      pending_found-range prior (some endpoint) w h a
  process_pending-range prior none w h a =
      pending_found-range prior (load_endpoint d prior.webhook_id w).0
        (load_endpoint d prior.webhook_id w).1 h
        (read-Good d others (λ s. readable (get prior.webhook_id s.endpoints)) w a)

  next_attempt-range :
      (prior : WebhookDeliveryRecord) (endpoint : WebhookEndpointRecord)
      (envelope : WebhookEnvelope) (id token : Text) (w : World)
      → InRange prior.attempt
      → WorldInRange w
      → RunInRange (next_attempt d prior endpoint envelope id token w)
  unfolding next_attempt use_slot
  next_attempt-range prior endpoint envelope id token w h a =
      from (ltb webhook_max_attempts (prior.attempt + 1)) refl
    where
      from :
          (b : Bool)
          → ltb webhook_max_attempts (prior.attempt + 1) ≡ b
          → RunInRange (
              if b
              then (some [], (finalize d id token (stopped d none none) w).1)
              else delivered d (
                  deliver_once d endpoint envelope prior.body
                    (prior.attempt + 1)
                    none
                    (use_slot d prior id token w)))
      from true e = (tt, (finalize-Good d others id token (stopped d none none) w tt a).1)
      from false e =
          let v = use_slot d prior id token w in
          delivered-range (deliver_once d endpoint envelope prior.body (prior.attempt + 1) none v) (
            deliver_once-Good d others endpoint envelope prior.body (prior.attempt + 1) none v
              (omega arith, ground arith) tt
              (finalize-Good d others id token (used_up d prior) w tt a).1)

  retry_found-range :
      (prior : WebhookDeliveryRecord) (o : Option WebhookEndpointRecord) (id token : Text)
      (w : World)
      → InRange prior.attempt
      → WorldInRange w
      → RunInRange (retry_found d prior o id token w)
  unfolding retry_found retry_unavailable retry_parsed
  retry_found-range prior o id token w h a = found o
    where
      closed : RunInRange (retry_unavailable d id token w)
      closed =
          let p = stopped d (some (some (codes "endpoint_unavailable"))) none in
          let done = finalize-Good d others id token p w tt a in
          (reported-range (finalize d id token p w).0 done.0, done.1)

      parsed :
          (endpoint : WebhookEndpointRecord) (e : Option WebhookEnvelope)
          → RunInRange (retry_parsed d prior endpoint e id token w)
      parsed endpoint none = (
        tt,
        (finalize-Good d others id token (stopped d (some (some (codes "invalid_body"))) none) w tt
            a).1,
      )
      parsed endpoint (some envelope) = next_attempt-range prior endpoint envelope id token w h a

      found : (o : Option WebhookEndpointRecord) → RunInRange (retry_found d prior o id token w)
      found none = closed
      found (some endpoint) =
          if-RunInRange endpoint.enabled
            (retry_parsed d prior endpoint (d.parse_envelope prior.body) id token w)
            (retry_unavailable d id token w) (parsed endpoint (d.parse_envelope prior.body)) closed

  process_retrying-range :
      (prior : WebhookDeliveryRecord) (first : Option WebhookEndpointRecord) (w : World)
      → InRange prior.attempt
      → WorldInRange w
      → RunInRange (process_retrying d prior first w)
  unfolding process_retrying retry_claimed load_endpoint
  process_retrying-range prior first w h a =
      from (claim d prior.delivery_id w).0 (claim d prior.delivery_id w).1
        (claim-Good d others prior.delivery_id w a).1
    where
      from :
          (o : Option WebhookDeliveryRecord) (v : World)
          → WorldInRange v
          → RunInRange (retry_claimed d prior first (lease_token d w) o v)
      from none v k = (tt, k)
      from (some claimed) v k =
          let live = load_endpoint d prior.webhook_id v in
          retry_found-range prior (some_or live.0 first) claimed.delivery_id (lease_token d w)
            live.1 h (read-Good d others (λ s. readable (get prior.webhook_id s.endpoints)) v k)

  process_row-range :
      (prior : WebhookDeliveryRecord) (status : WebhookDeliveryStatus)
      (first : Option WebhookEndpointRecord) (w : World)
      → InRange prior.attempt
      → WorldInRange w
      → RunInRange (process_row d prior status first w)
  unfolding process_row
  process_row-range prior pending first w h a = process_pending-range prior first w h a
  process_row-range prior success first w h a = process_retrying-range prior first w h a
  process_row-range prior failed first w h a = process_retrying-range prior first w h a
  process_row-range prior retrying first w h a = process_retrying-range prior first w h a

  append-range :
      (out rows : List WebhookDeliveryRecord)
      → RowsInRange (some out)
      → RowsInRange (some rows)
      → RowsInRange (some (out ++ rows))
  append-range [] rows f g = g
  append-range (row ∷ out) rows f g = (f.0, append-range out rows f.1 g)

  prefix_rows-range :
      (out : List WebhookDeliveryRecord) (r : Ran)
      → RowsInRange (some out)
      → RunInRange r
      → RunInRange (prefix_rows out r)
  prefix_rows-range out (none, w) f g = g
  prefix_rows-range out (some rows, w) f g = (append-range out rows f g.0, g.1)

  process_rows-range :
      (s : WebhookStoreSection) (rows : List WebhookDeliveryRecord) (w : World)
      → RowsInRange (some rows)
      → WorldInRange w
      → RunInRange (process_rows d s rows w)
  unfolding process_rows after_row
  process_rows-range s [] w h a = (tt, a)
  process_rows-range s (prior ∷ rows) w h a =
      from (process_row d prior prior.status (readable (get prior.webhook_id s.endpoints)) w)
        (process_row-range prior prior.status (readable (get prior.webhook_id s.endpoints)) w h.0 a)
        (λ v k. process_rows-range s rows v h.1 k)
    where
      from :
          (r : Ran)
          → RunInRange r
          → ((v : World) → WorldInRange v → RunInRange (process_rows d s rows v))
          → RunInRange (after_row d (process_rows d s rows) r)
      from (none, v) g later = g
      from (some out, v) g later = prefix_rows-range out (process_rows d s rows v) g.0 (later v g.1)

  due_rows-range :
      (due : WebhookDeliveryRecord → Bool) (rows : List (Option WebhookDeliveryRecord))
      → All RowInRange rows
      → RowsInRange (some (due_rows due rows))
  unfolding due_rows
  due_rows-range due [] a = tt
  due_rows-range due (none ∷ rows) a = due_rows-range due rows a.1
  due_rows-range due (some row ∷ rows) a = from (due row) (due_rows-range due rows a.1)
    where
      from :
          (b : Bool)
          → RowsInRange (some (due_rows due rows))
          → RowsInRange (some (if b then row ∷ due_rows due rows else due_rows due rows))
      from true r = (a.0, r)
      from false r = r

  take-range :
      (n : ℕ) (rows : List WebhookDeliveryRecord)
      → RowsInRange (some rows)
      → RowsInRange (some (take n rows))
  take-range zero rows a = tt
  take-range (suc n) [] a = tt
  take-range (suc n) (row ∷ rows) a = (a.0, take-range n rows a.1)

  -- No delivery ever has an attempt beyond the fifth: when every stored row has an attempt from one
  -- to five and other callers keep it so, a scheduled run keeps it so too, at whatever point it stops,
  -- and every row that it reports has such an attempt.
  pub process_due_webhook_deliveries-AttemptsInRange :
      (w : World)
      → AddsNone d.earliest_first
      → AttemptsInRange w.store.deliveries
      → let run = process_due_webhook_deliveries d w in
        RowsInRange run.0 × AttemptsInRange run.1.store.deliveries
  unfolding process_due_webhook_deliveries read_store mutate due_now
  process_due_webhook_deliveries-AttemptsInRange w sorts a =
      let s = read_store d (λ s. s) w in
      let now = others w.step w.store a in
      process_rows-range s.0 (due_now d s.0 (d.now_seconds s.1.step)) s.1
        (take-range webhook_max_due_per_run _ (
          sorts (λ row. InRange row.attempt) _
            (due_rows-range (λ row. is_webhook_delivery_due d.clock row (d.now_seconds s.1.step))
              (values s.0.deliveries) now)))
        now
