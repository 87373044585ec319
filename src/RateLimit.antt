-- ===== src/RateLimit.antt =====
-- src/lib/publicRateLimit.ts and src/lib/distributedRateLimit.ts: fixed windows of one process, and
-- the counter that the instances share.
pub mod Redis
pub mod Shared
pub mod Legacy
pub mod Bounds
use final_arc.Base.{
  ℕ, ◌+◌, ◌-◌, ◌%◌, Bool, true, false, Option, none, some, List, [], ◌∷◌, if◌then◌else◌, ltb, leb,
  ◌==◌, Text, Entries, get, put, codes, ◌++◌, map, text_eq, filter_by,
}

pub record RateRule : Type 0 where
  pub per_key : ℕ
  pub global : ℕ
  pub window_seconds : ℕ

-- `LEGACY_RATE_RULES`.
abbrev pub rule : ℕ → ℕ → RateRule
rule per_key global = record { per_key = per_key; global = global; window_seconds = 60 }

unfoldable pub legacy_rate_rules : Entries RateRule
legacy_rate_rules =
    (codes "pay.token_read", rule 30 600)
    ∷ (codes "pay.write", rule 30 600)
    ∷ (codes "pay.submit", rule 20 400)
    ∷ (codes "pay.reconcile", rule 12 120)
    ∷ (codes "pay.list_ip", rule 30 600)
    ∷ (codes "pay.list_merchant", rule 20 300)
    ∷ (codes "statement.ip", rule 10 120)
    ∷ (codes "statement.merchant", rule 6 60)
    ∷ (codes "receipt.proof", rule 60 1200)
    ∷ []

pub record Bucket : Type 0 where
  pub start : ℕ
  pub count : ℕ

-- The state of a `FixedWindowLimiter`.
pub record Limiter : Type 0 where
  pub buckets : Entries Bucket
  pub calls : ℕ

-- `reset`.
abbrev pub reset : Limiter
reset = record { buckets = []; calls = 0 }

-- `Map.prototype.delete`.
unfoldable pub delete : Text → Entries Bucket → Entries Bucket
delete k m = filter_by (λ e. if text_eq e.0 k then false else true) m

-- `now - bucket.start >= seconds`; a clock that stepped back leaves a negative age, so no expiry.
unfoldable pub is_over : ℕ → ℕ → Bucket → Bool
is_over now seconds b = leb (b.start + seconds) now

-- `live`, on the bucket that was found.
unfoldable pub live_bucket :
    Text → ℕ → ℕ → Entries Bucket → Option Bucket → Option Bucket × Entries Bucket
unfolding delete is_over
live_bucket slot now seconds m none = (none, m)
live_bucket slot now seconds m (some b) =
    if is_over now seconds b then (none, delete slot m) else (some b, m)

unfoldable pub live : Text → ℕ → ℕ → Entries Bucket → Option Bucket × Entries Bucket
unfolding live_bucket
live slot now seconds m = live_bucket slot now seconds m (get slot m)

-- `Math.max` over the windows of the rules.
unfoldable pub longest_window : Entries RateRule → ℕ
longest_window [] = 0
longest_window ((k, r) ∷ rules) =
    let rest = longest_window rules in if ltb rest r.window_seconds then r.window_seconds else rest

-- `sweep`.
unfoldable pub sweep : Entries RateRule → ℕ → Entries Bucket → Entries Bucket
unfolding longest_window is_over
sweep rules now m =
    filter_by (λ e. if is_over now (longest_window rules) e.1 then false else true) m

-- `` `global\u0000${routeClass}` `` and `` `key\u0000${routeClass}\u0000${key}` ``.
abbrev pub global_slot : Text → Text
global_slot route_class = codes "global" ++ 0 ∷ route_class

abbrev pub key_slot : Text → Text → Text
key_slot route_class key = codes "key" ++ 0 ∷ (route_class ++ 0 ∷ key)

-- `bucket.count >= limit`, of a bucket that lives.
abbrev pub is_full : ℕ → Option Bucket → Bool
is_full limit none = false
is_full limit (some b) = leb limit b.count

-- One more request in a slot.
unfoldable pub count_in : Text → ℕ → Option Bucket → Entries Bucket → Entries Bucket
count_in slot now none m = put slot (record { start = now; count = 1 }) m
count_in slot now (some b) m = put slot (record b { count = b.count + 1 }) m

-- The end of `allow`, by the two buckets that live.
unfoldable pub admit :
    RateRule
    → Text
    → Text
    → ℕ
    → (global per_key : Option Bucket) → Entries Bucket
    → Bool × Entries Bucket
unfolding count_in
admit r route_class key now global per_key kept =
    if is_full r.per_key per_key
    then (false, kept)
    else (if is_full r.global global then (false, kept) else (
      true,
      count_in (key_slot route_class key) now per_key
          (count_in (global_slot route_class) now global kept),
    ))

-- `allow`, after the sweep, for the rule of the route class.
unfoldable pub allow_rule : RateRule → Text → Text → ℕ → Entries Bucket → Bool × Entries Bucket
unfolding live admit
allow_rule r route_class key now m =
    let (global, after_global) = live (global_slot route_class) now r.window_seconds m in
    let (per_key, kept) = live (key_slot route_class key) now r.window_seconds after_global in
    admit r route_class key now global per_key kept

unfoldable pub swept : Entries RateRule → ℕ → ℕ → Entries Bucket → Entries Bucket
unfolding sweep
swept rules calls now m = if calls % 256 == 0 then sweep rules now m else m

-- `allow`, by the rule of the route class.
unfoldable pub allow_by :
    Entries RateRule → Text → Text → ℕ → Limiter → Option RateRule → Bool × Limiter
unfolding swept allow_rule
allow_by rules route_class key now l none = (false, l)
allow_by rules route_class key now l (some r) =
    let calls = l.calls + 1 in
    let (allowed, buckets) = allow_rule r route_class key now (swept rules calls now l.buckets) in
    (allowed, record { buckets = buckets; calls = calls })

-- `allow`.
unfoldable pub allow : Entries RateRule → Text → Text → ℕ → Limiter → Bool × Limiter
unfolding allow_by
allow rules route_class key now l = allow_by rules route_class key now l (get route_class rules)
