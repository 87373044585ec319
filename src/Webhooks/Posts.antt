-- ===== src/Webhooks/Posts.antt =====
-- The requests of one delivery (src/lib/webhooks.ts): how many it sends, and to which addresses.
use final_arc.Base.{
  ℕ, ◌+◌, ◌≤◌, ◌≡◌, refl, ap, ◌∙◌, Bool, true, false, Option, none, some, List, [], ◌∷◌, ◌++◌,
  if◌then◌else◌, length, length-append, All, Text, arith,
}
use final_arc.Webhooks.{WebhookDeliveryRecord, WebhookEndpointRecord, WebhookEnvelope}
use final_arc.Webhooks.Destination.{
  Url, Checked, allowed, refused, thrown, not_absolute, validate_url, validate_webhook_url,
  destination_of, assert_safe_webhook_destination,
}
use final_arc.Webhooks.Deliver.{
  Post, WebhookDeps, World, mutate, post_to, deliver_signed, http_deliver, finalize, deliver_live,
  deliver_failed, deliver_claimed, after_claim, claim, lease_token, load_endpoint, read_store,
  deliver_row, after_enqueue, enqueue, deliver_once,
}
use final_arc.Webhooks.Pinned.{Public, Sound, validate_url-Sound, destination-Public}

module _ (d : WebhookDeps) where
  -- A request to a URL that is sound, over addresses that are public.
  abbrev pub SafePost : Post → Type 0
  SafePost p = ((url : Url) × (d.parse_url p.url ≡ some url) × Sound url) × Public p.addresses

  Sound-url :
      (raw href : Text)
      → validate_webhook_url d.parse_url raw ≡ allowed href
      → (url : Url) × (d.parse_url raw ≡ some url) × Sound url
  unfolding validate_webhook_url
  Sound-url raw href e = from (d.parse_url raw) refl e
    where
      from :
          (o : Option Url)
          → d.parse_url raw ≡ o
          → ◌≡◌ {A = Checked Text}
              (elim o [ none ↦ refused not_absolute | some url ↦ validate_url url ])
              (allowed href)
          → (url : Url) × (d.parse_url raw ≡ some url) × Sound url
      from none k e = absurd (cc)
      from (some url) k e = (url, k, validate_url-Sound url href e)

  assert-safe :
      (resolve_host : Text → Option (List Text)) (raw : Text) (addresses : List Text)
      → assert_safe_webhook_destination d.parse_url d.is_ip resolve_host raw ≡ allowed addresses
      → ((url : Url) × (d.parse_url raw ≡ some url) × Sound url) × Public addresses
  unfolding assert_safe_webhook_destination destination_of
  assert-safe resolve_host raw addresses e = from (validate_webhook_url d.parse_url raw) refl e
    where
      from :
          (o : Checked Text)
          → validate_webhook_url d.parse_url raw ≡ o
          → destination_of d.parse_url d.is_ip resolve_host o ≡ allowed addresses
          → ((url : Url) × (d.parse_url raw ≡ some url) × Sound url) × Public addresses
      from thrown k e = absurd (cc)
      from (refused message) k e = absurd (cc)
      from (allowed href) k e = (
        Sound-url raw href k,
        destination-Public d.parse_url d.is_ip resolve_host href addresses e,
      )

  -- A part of a run sends at most n requests, all safe.
  abbrev pub Sends : (n : ℕ) → (before after : World) → Type 0
  Sends n before after =
      (new : List Post) × (after.posts ≡ new ++ before.posts) × (length new ≤ n) × All SafePost new

  All-append : (xs ys : List Post) → All SafePost xs → All SafePost ys → All SafePost (xs ++ ys)
  All-append [] ys f g = g
  All-append (x ∷ xs) ys f g = (f.0, All-append xs ys f.1 g)

  append_assoc : (xs ys zs : List Post) → xs ++ (ys ++ zs) ≡ (xs ++ ys) ++ zs
  append_assoc [] ys zs = refl
  append_assoc (x ∷ xs) ys zs = ap (λ l. x ∷ l) (append_assoc xs ys zs)

  pub Sends-then : (m n : ℕ) (u v w : World) → Sends m u v → Sends n v w → Sends (m + n) u w
  Sends-then m n u v w (xs, e, k, f) (ys, e', k', f') = (
    ys ++ xs,
    e' ∙ ap (λ l. ys ++ l) e ∙ append_assoc ys xs u.posts,
    omega (arith, length-append ys xs),
    All-append ys xs f' f,
  )

  pub quiet : (n : ℕ) (w : World) → Sends n w w
  quiet n w = ([], refl, omega arith, tt)

  pub if-Sends :
      {A : Type 0} (n : ℕ) (b : Bool) (x y : A × World) (w : World)
      → Sends n w x.1
      → Sends n w y.1
      → Sends n w (if b then x else y).1
  if-Sends n true x y w f g = f
  if-Sends n false x y w f g = g

  post_to-Sends :
      (endpoint : WebhookEndpointRecord) (envelope : WebhookEnvelope) (raw_body secret : Text)
      (c : Checked (List Text)) (w : World)
      → assert_safe_webhook_destination d.parse_url d.is_ip (d.resolve_host w.step) endpoint.url ≡ c
      → Sends 1 w (post_to d endpoint envelope raw_body secret c w).1
  unfolding post_to
  post_to-Sends endpoint envelope raw_body secret (refused message) w e = quiet 1 w
  post_to-Sends endpoint envelope raw_body secret thrown w e = quiet 1 w
  post_to-Sends endpoint envelope raw_body secret (allowed addresses) w e = (
    _ ∷ [],
    refl,
    omega arith,
    (assert-safe (d.resolve_host w.step) endpoint.url addresses e, tt),
  )

  http_deliver-Sends :
      (endpoint : WebhookEndpointRecord) (envelope : WebhookEnvelope) (raw_body : Text) (w : World)
      → Sends 1 w (http_deliver d endpoint envelope raw_body w).1
  unfolding http_deliver deliver_signed
  http_deliver-Sends endpoint envelope raw_body w = from (d.decrypt endpoint)
    where
      from : (o : Option Text) → Sends 1 w (deliver_signed d endpoint envelope raw_body o w).1
      from none = quiet 1 w
      from (some secret) = post_to-Sends endpoint envelope raw_body secret _ w refl

  deliver_claimed-Sends :
      (envelope : WebhookEnvelope) (raw_body : Text) (attempt : ℕ) (row : WebhookDeliveryRecord)
      (token : Text) (o : Option WebhookEndpointRecord) (w : World)
      → Sends 1 w (deliver_claimed d envelope raw_body attempt row token o w).1
  unfolding deliver_claimed deliver_failed deliver_live finalize mutate
  deliver_claimed-Sends envelope raw_body attempt row token none w = quiet 1 w
  deliver_claimed-Sends envelope raw_body attempt row token (some live) w =
      if-Sends 1 live.enabled (deliver_live d live envelope raw_body attempt row token w)
        (deliver_failed d row token w) w (http_deliver-Sends live envelope raw_body w) (quiet 1 w)

  after_claim-Sends :
      (endpoint : WebhookEndpointRecord) (envelope : WebhookEnvelope) (raw_body : Text)
      (attempt : ℕ) (row : WebhookDeliveryRecord) (token : Text) (o : Option WebhookDeliveryRecord)
      (w : World)
      → Sends 1 w (after_claim d endpoint envelope raw_body attempt row token o w).1
  unfolding after_claim read_store load_endpoint mutate
  after_claim-Sends endpoint envelope raw_body attempt row token none w = quiet 1 w
  after_claim-Sends endpoint envelope raw_body attempt row token (some claimed) w =
      deliver_claimed-Sends envelope raw_body attempt claimed token
        (load_endpoint d endpoint.id w).0 (load_endpoint d endpoint.id w).1

  deliver_row-Sends :
      (endpoint : WebhookEndpointRecord) (envelope : WebhookEnvelope) (raw_body : Text)
      (attempt : ℕ) (row : WebhookDeliveryRecord) (w : World)
      → Sends 1 w (deliver_row d endpoint envelope raw_body attempt row w).1
  unfolding deliver_row claim mutate
  deliver_row-Sends endpoint envelope raw_body attempt row w =
      after_claim-Sends endpoint envelope raw_body attempt row (lease_token d w)
        (claim d row.delivery_id w).0 (claim d row.delivery_id w).1

  pub deliver_once-Sends :
      (endpoint : WebhookEndpointRecord) (envelope : WebhookEnvelope) (raw_body : Text)
      (attempt : ℕ) (o : Option WebhookDeliveryRecord) (w : World)
      → Sends 1 w (deliver_once d endpoint envelope raw_body attempt o w).1
  unfolding deliver_once enqueue mutate after_enqueue read_store
  deliver_once-Sends endpoint envelope raw_body attempt (some row) w =
      deliver_row-Sends endpoint envelope raw_body attempt row w
  deliver_once-Sends endpoint envelope raw_body attempt none w =
      from (enqueue d endpoint envelope raw_body attempt w).0
        (enqueue d endpoint envelope raw_body attempt w).1 refl
    where
      from :
          (o : Option WebhookDeliveryRecord) (v : World)
          → v.posts ≡ w.posts
          → Sends 1 w (after_enqueue d endpoint envelope raw_body attempt o v).1
      from none v e = ([], e, omega arith, tt)
      from (some row) v e =
          let s = deliver_row-Sends endpoint envelope raw_body attempt row v in
          (s.0, s.1 ∙ ap (λ l. s.0 ++ l) e, s.2, s.3)
