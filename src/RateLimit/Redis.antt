-- ===== src/RateLimit/Redis.antt =====
-- src/lib/distributedRateLimit.ts: the counters that the instances share in Redis, and
-- `legacyAllow` and `requestClientKey` of src/lib/publicRateLimit.ts. `sha256` is a parameter.
use final_arc.Base.{
  ℕ, ◌+◌, ◌/◌, Bool, true, false, ◌&&◌, ◌||◌, not, Option, none, some, [], ◌∷◌, ◌++◌, if◌then◌else◌,
  ltb, leb, ◌==◌, Text, codes, length, take, Entries, get, put, is_some, is_digit,
}

abbrev pub rate_limit_key_prefix : Text
rate_limit_key_prefix = codes "final-ratelimit:v1:"

abbrev pub rate_limit_ttl_grace_seconds : ℕ
rate_limit_ttl_grace_seconds = 5

pub data DistributedDecision : Type 0 where
  decided_allow decided_deny decided_unavailable : DistributedDecision

-- A counter of Redis, and the second at which it expires.
pub record Counter : Type 0 where
  pub value : ℕ
  pub expires_at : Option ℕ

abbrev pub Counters : Type 0
Counters = Entries Counter

-- `INCR` on what the key holds; `EXPIRE` on the first hit, or when the key has no expiry.
unfoldable pub incr_counter : ℕ → Option Counter → Counter
incr_counter deadline none = record { value = 1; expires_at = some deadline }
incr_counter deadline (some c) = record {
  value = c.value + 1;
  expires_at = if not (is_some c.expires_at) then some deadline else c.expires_at;
}

-- A key whose time is over is gone.
abbrev pub is_past : ℕ → Option ℕ → Bool
is_past now none = false
is_past now (some e) = leb e now

abbrev pub unexpired : ℕ → Option Counter → Option Counter
unexpired now none = none
unexpired now (some c) = if is_past now c.expires_at then none else some c

-- `RATE_LIMIT_INCR_SCRIPT`, at the clock of the server.
unfoldable pub incr_script : Text → (ttl now : ℕ) → Counters → ℕ × Counters
unfolding incr_counter
incr_script key ttl now store =
    let counter = incr_counter (now + ttl) (unexpired now (get key store)) in
    (counter.value, put key counter store)

-- `/^[a-z0-9._-]{1,64}$/`.
abbrev is_class_unit : ℕ → Bool
is_class_unit c = (leb b'a' c && leb c b'z') || is_digit c || c == b'.' || c == b'_' || c == b'-'

unfoldable all_class_units : Text → Bool
all_class_units [] = true
all_class_units (c ∷ cs) = is_class_unit c && all_class_units cs

unfoldable pub is_route_class : Text → Bool
unfolding all_class_units
is_route_class s = leb 1 (length s) && leb (length s) 64 && all_class_units s

-- What the program takes from `node:crypto` and from the printing of numbers.
pub record Printer : Type 0 where
  pub sha256_hex : Text → Text
  pub show : ℕ → Text

unfoldable pub identity_fingerprint : Printer → Text → Text
identity_fingerprint p identity = take 32 (p.sha256_hex (codes "final-ratelimit:" ++ identity))

-- `rateLimitKey`; none where it throws.
unfoldable pub rate_limit_key : Printer → Text → Text → (seconds now : ℕ) → Option Text
unfolding is_route_class identity_fingerprint
rate_limit_key p route_class identity seconds now =
    if not (is_route_class route_class)
    then none
    else (if not (leb 1 seconds)
        then none
        else some (
            rate_limit_key_prefix
            ++ route_class
            ++ b':' ∷ (identity_fingerprint p identity ++ b':' ∷ p.show (now / seconds))))

-- What the answer to the request becomes.
unfoldable pub decide_count : ℕ → ℕ → DistributedDecision
decide_count limit count =
    if ltb count 1
    then decided_unavailable
    else (if ltb limit count then decided_deny else decided_allow)

-- How a request to Redis ends: with the script's result, without the script having run, or, as on a
-- timeout, with the script run and its result lost.
pub data Reply : Type 0 where
  answered not_run answer_lost : Reply

-- `hit`, by the key.
unfoldable pub hit_key :
    Option Text → (limit seconds now : ℕ) → Reply → Counters → DistributedDecision × Counters
unfolding incr_script decide_count
hit_key none limit seconds now reply store = (decided_unavailable, store)
hit_key (some key) limit seconds now not_run store = (decided_unavailable, store)
hit_key (some key) limit seconds now answer_lost store =
    (decided_unavailable, (incr_script key (seconds + rate_limit_ttl_grace_seconds) now store).1)
hit_key (some key) limit seconds now answered store =
    let (count, store') = incr_script key (seconds + rate_limit_ttl_grace_seconds) now store in
    (decide_count limit count, store')

unfoldable pub hit :
    Printer
    → (route_class identity : Text) → (limit seconds now : ℕ) → Reply
    → Counters
    → DistributedDecision × Counters
unfolding rate_limit_key hit_key
hit p route_class identity limit seconds now reply store =
    hit_key (rate_limit_key p route_class identity seconds now) limit seconds now reply store

-- `decision !== "deny"`.
abbrev pub not_denied : DistributedDecision → Bool
not_denied decided_deny = false
not_denied _ = true

-- `distributedAllow`, with a limiter.
unfoldable pub distributed_allow :
    Printer
    → (route_class identity : Text) → (limit seconds now : ℕ) → Reply
    → Counters
    → Bool × Counters
unfolding hit
distributed_allow p route_class identity limit seconds now reply store =
    let (decision, store') = hit p route_class identity limit seconds now reply store in
    (not_denied decision, store')
