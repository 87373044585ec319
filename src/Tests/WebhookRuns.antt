-- ===== src/Tests/WebhookRuns.antt =====
-- Webhook deliveries (src/lib/webhooks.ts) at a few inputs.
use final_arc.Base.{put}
use final_arc.Base.{all_digits}
use final_arc.Base.{lower_hex}
use final_arc.Base.{
  ℕ, ◌+◌, ◌*◌, ◌≡◌, refl, true, Option, none, some, List, [], ◌∷◌, codes, Text, arith, get, is_some,
  text_eq, map, any_of, ◌++◌,
}
use final_arc.Webhooks.{WebhookEndpointRecord, WebhookDeliveryRecord, Deliveries, retrying}
use final_arc.Webhooks.Schedule.{WebhookClock}
use final_arc.Webhooks.Queue.{claim_delivery, finalize_claimed_delivery, readable, Patch}
use final_arc.Webhooks.Leases.{Op, claims, finalizes, Refused, apply_all, claim_delivery-exclusive}
use final_arc.Webhooks.Destination.{Url, dotted, blocked_within, is_blocked_ip}
use final_arc.Webhooks.Networks.{address_of, in_network, blocked_networks}
use final_arc.Webhooks.Mapped.{blocked_within-is_blocked_ip}
use final_arc.Webhooks.Ranges.{mapped_prefix, is_blocked_ip-in_network}
use final_arc.Webhooks.Deliver.{WebhookDeps, World}
use final_arc.Webhooks.Due.{process_due_webhook_deliveries}
use final_arc.Webhooks.Posts.{Sends}
use final_arc.Webhooks.Runs.{process_due_webhook_deliveries-Sends}
use final_arc.Webhooks.Attempts.{AttemptsInRange}
use final_arc.Webhooks.Bounded.{RowsInRange}
use final_arc.Webhooks.RunAttempts.{process_due_webhook_deliveries-AttemptsInRange}

-- Seconds, written as one code unit.
abbrev seconds_of : Text → Option ℕ
seconds_of (s ∷ []) = some (s * 1000)
seconds_of _ = none

abbrev clock : WebhookClock
clock = record { iso = λ s. s ∷ []; parse = seconds_of }

abbrev row : WebhookDeliveryRecord
row = record {
  delivery_id = codes "d1";
  event_id = codes "e1";
  event_type = codes "payment.paid";
  webhook_id = codes "wh1";
  merchant = codes "0xM";
  attempt = 2;
  status = retrying;
  http_status = some 500;
  created_at = 1 ∷ [];
  attempted_at = none;
  next_retry_at = some (100 ∷ []);
  error = none;
  body = codes "{}";
  lease_owner = none;
  lease_expires_at = none;
}

abbrev rows : Deliveries
rows = (codes "d1", some row) ∷ []

abbrev failure : Patch
failure = record {
  status = none;
  http_status = none;
  attempted_at = none;
  next_retry_at = none;
  error = none;
  attempt = none;
}

-- Another worker claims within the lease and finalizes with its own token.
abbrev rivals : List Op
rivals =
    claims (codes "d1") (codes "other") 150 ∷ finalizes (codes "d1") (codes "other") failure ∷ []

claim_delivery-exclusive_example :
    let claimed = (claim_delivery clock (codes "d1") (codes "mine") 100 rows).1 in
    let after = apply_all clock rivals claimed in
    Refused clock (codes "d1") rivals claimed
    × (is_some (readable (get (codes "d1") after))
        ≡ is_some (finalize_claimed_delivery (codes "d1") (codes "mine") failure after).0)
unfolding claim_delivery get text_eq
claim_delivery-exclusive_example =
    claim_delivery-exclusive clock (codes "d1") (codes "mine") 100 rows
      (record row { lease_owner = some (codes "mine"); lease_expires_at = some (160 ∷ []) }) rivals
      failure (λ s. refl) refl (omega arith, (refl, tt))

blocked_within-is_blocked_ip_example :
    blocked_within 5 (codes "::ffff:7f00:1") ≡ is_blocked_ip (codes "::ffff:7f00:1")
blocked_within-is_blocked_ip_example = blocked_within-is_blocked_ip 3 (codes "::ffff:7f00:1")

-- The address loops back.
loops_back : is_blocked_ip (codes "::ffff:7f00:1") ≡ true
unfolding is_blocked_ip lower_hex all_digits
loops_back = refl

is_blocked_ip-in_network_example :
    (is_blocked_ip (dotted 172 31 0 9)
      ≡ any_of (in_network (address_of 172 31 0 9)) blocked_networks)
    × (is_blocked_ip (mapped_prefix ++ dotted 172 31 0 9)
        ≡ any_of (in_network (address_of 172 31 0 9)) blocked_networks)
is_blocked_ip-in_network_example =
    is_blocked_ip-in_network 172 31 0 9 (omega arith) (omega arith) (omega arith) (omega arith)

abbrev endpoint : WebhookEndpointRecord
endpoint = record {
  id = codes "wh1";
  merchant = codes "0xM";
  url = codes "https://shop";
  enabled = true;
  events = [];
  secret = codes "s";
  created_at = codes "t";
  updated_at = codes "t";
}

abbrev shop_url : Url
shop_url = record {
  protocol = codes "https:";
  username = [];
  password = [];
  hostname = codes "shop";
  href = codes "https://shop";
}

abbrev deps : WebhookDeps
deps = record {
  clock = clock;
  now_seconds = λ n. 100 + n;
  random_id = λ prefix n. n ∷ prefix;
  others = λ n s. s;
  newest_first = λ rows. rows;
  earliest_first = λ rows. rows;
  parse_envelope = λ body. some (record { id = codes "e1"; event_type = codes "payment.paid" });
  decrypt = λ e. some e.secret;
  hmac_hex = λ secret payload. secret;
  show_number = λ n. n ∷ [];
  parse_url = λ raw. some shop_url;
  is_ip = λ a. true;
  resolve_host = λ n host. some (codes "93.184.216.34" ∷ []);
  fetch = λ n p. some 200;
}

abbrev world : World
world = record {
  step = 0;
  store = record { endpoints = (codes "wh1", some endpoint) ∷ []; deliveries = rows };
  posts = [];
}

process_due_webhook_deliveries-Sends_example :
    Sends deps 25 world (process_due_webhook_deliveries deps world).1
process_due_webhook_deliveries-Sends_example = process_due_webhook_deliveries-Sends deps world

process_due_webhook_deliveries-AttemptsInRange_example :
    let run = process_due_webhook_deliveries deps world in
    RowsInRange run.0 × AttemptsInRange run.1.store.deliveries
process_due_webhook_deliveries-AttemptsInRange_example =
    process_due_webhook_deliveries-AttemptsInRange deps (λ n s a. a) world (λ P rows a. a)
      ((omega arith, omega arith), tt)

-- The run sends the third attempt, after the claim of the second and of its own row.
sent_once : map (λ p. p.timestamp) (process_due_webhook_deliveries deps world).1.posts ≡ 107 ∷ []
unfolding process_due_webhook_deliveries put all_digits
sent_once = refl
