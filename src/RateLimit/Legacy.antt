-- ===== src/RateLimit/Legacy.antt =====
-- `legacyAllow` and `requestClientKey` of src/lib/publicRateLimit.ts.
use final_arc.Base.{
  ℕ, ◌≡◌, ◌≢◌, refl, Bool, true, false, not, ◌&&◌, ◌||◌, Option, none, some, List, [], ◌∷◌, ◌++◌,
  if◌then◌else◌, leb, ◌==◌, Text, codes, text_eq, length, is_digit, to_lower_case, get,
}
use final_arc.Base.Values.{trim}
use final_arc.RateLimit.{RateRule, Limiter, legacy_rate_rules, allow, allow_by}
use final_arc.RateLimit.Redis.{
  Printer, Counters, Reply, answered, not_run, answer_lost, distributed_allow, hit, hit_key,
  not_denied,
}

-- The shared counter, where one is configured: how the request to it ends, and what it holds.
pub record Shared : Type 0 where
  pub reply : Reply
  pub counters : Counters

unfoldable pub shared_allow :
    Printer → (route_class key : Text) → RateRule → ℕ → Option Shared → Bool × Option Shared
unfolding distributed_allow
shared_allow p route_class key r now none = (true, none)
shared_allow p route_class key r now (some s) =
    let (allowed, counters) =
      distributed_allow p (codes "legacy." ++ route_class) key r.per_key r.window_seconds now
        s.reply s.counters in
    (allowed, some (record s { counters = counters }))

-- The local limiter has no rule for a class that `LEGACY_RATE_RULES` does not name.
unfoldable pub after_local :
    Printer
    → (route_class key : Text) → ℕ
    → Option Shared
    → Option RateRule
    → Bool
    → Bool × Option Shared
unfolding shared_allow
after_local p route_class key now shared o false = (false, shared)
after_local p route_class key now shared none true = (false, shared)
after_local p route_class key now shared (some r) true = shared_allow p route_class key r now shared

-- `legacyAllow`, with the limiter of the process and the shared one.
unfoldable pub legacy_allow :
    Printer
    → (route_class key : Text) → ℕ
    → Limiter
    → Option Shared
    → Bool × Limiter × Option Shared
unfolding allow after_local legacy_rate_rules
legacy_allow p route_class key now l shared =
    let (allowed, l') = allow legacy_rate_rules route_class key now l in
    let (answer, shared') =
      after_local p route_class key now shared (get route_class legacy_rate_rules) allowed in
    (answer, l', shared')

-- `/^[0-9A-Fa-f:.]{2,45}$/`.
abbrev is_ip_unit : ℕ → Bool
is_ip_unit c =
    is_digit c || (leb b'A' c && leb c b'F') || (leb b'a' c && leb c b'f') || c == b':' || c == b'.'

unfoldable all_ip_units : Text → Bool
all_ip_units [] = true
all_ip_units (c ∷ cs) = is_ip_unit c && all_ip_units cs

unfoldable pub is_ip_text : Text → Bool
unfolding all_ip_units
is_ip_text s = leb 2 (length s) && leb (length s) 45 && all_ip_units s

-- `split(",")[0]`.
unfoldable pub before_comma : Text → Text
before_comma [] = []
before_comma (c ∷ cs) = let rest = before_comma cs in if c == b',' then [] else c ∷ rest

unfoldable pub header_key : Option Text → Option Text
unfolding before_comma is_ip_text trim to_lower_case
header_key none = none
header_key (some raw) =
    let first = trim (before_comma raw) in
    if is_ip_text first then some (codes "ip:" ++ to_lower_case first) else none

unfoldable pub first_header : (Text → Option Text) → List Text → Text
unfolding header_key
first_header headers [] = codes "ip:unknown"
first_header headers (name ∷ names) =
    let rest = first_header headers names in
    elim (header_key (headers name)) [ none ↦ rest | some key ↦ key ]

-- `requestClientKey`, by the variable `VERCEL` and the headers of the request.
unfoldable pub request_client_key : Option Text → (Text → Option Text) → Text
unfolding first_header
request_client_key none headers = codes "ip:untrusted-proxy"
request_client_key (some vercel) headers =
    if not (text_eq vercel (codes "1"))
    then codes "ip:untrusted-proxy"
    else first_header headers
        (codes "x-vercel-forwarded-for" ∷ codes "x-real-ip" ∷ codes "x-forwarded-for" ∷ [])

after_local-allowed :
    (p : Printer) (route_class key : Text) (now : ℕ) (shared : Option Shared) (o : Option RateRule)
    (b : Bool)
    → (after_local p route_class key now shared o b).0 ≡ true
    → b ≡ true
unfolding after_local
after_local-allowed p route_class key now shared o false e = e
after_local-allowed p route_class key now shared o true e = refl

after_local-refused :
    (p : Printer) (route_class key : Text) (now : ℕ) (shared : Option Shared) (o : Option RateRule)
    (b : Bool)
    → b ≡ false
    → ((after_local p route_class key now shared o b).0 ≡ false)
      × ((after_local p route_class key now shared o b).1 ≡ shared)
unfolding after_local
after_local-refused p route_class key now shared o false e = (refl, refl)
after_local-refused p route_class key now shared o true e = absurd (cc)

-- `legacyAllow` lets a request through only if the limiter of the process does.
pub legacy_allow-local :
    (p : Printer) (route_class key : Text) (now : ℕ) (l : Limiter) (shared : Option Shared)
    → (legacy_allow p route_class key now l shared).0 ≡ true
    → (allow legacy_rate_rules route_class key now l).0 ≡ true
unfolding legacy_allow
legacy_allow-local p route_class key now l shared h =
    after_local-allowed p route_class key now shared (get route_class legacy_rate_rules)
      (allow legacy_rate_rules route_class key now l).0 h

-- A request that the limiter of the process refuses is refused, and leaves the shared counter alone.
pub legacy_allow-refused :
    (p : Printer) (route_class key : Text) (now : ℕ) (l : Limiter) (shared : Option Shared)
    → (allow legacy_rate_rules route_class key now l).0 ≡ false
    → ((legacy_allow p route_class key now l shared).0 ≡ false)
      × ((legacy_allow p route_class key now l shared).2 ≡ shared)
unfolding legacy_allow
legacy_allow-refused p route_class key now l shared h =
    after_local-refused p route_class key now shared (get route_class legacy_rate_rules)
      (allow legacy_rate_rules route_class key now l).0 h

unreached-not_denied :
    (k : Option Text) (limit seconds now : ℕ) (reply : Reply) (counters : Counters)
    → reply ≢ answered
    → not_denied (hit_key k limit seconds now reply counters).0 ≡ true
unfolding hit_key
unreached-not_denied none limit seconds now reply counters e = refl
unreached-not_denied (some k) limit seconds now not_run counters e = refl
unreached-not_denied (some k) limit seconds now answer_lost counters e = refl
unreached-not_denied (some k) limit seconds now answered counters e = absurd (e refl)

shared_allow-unreached :
    (p : Printer) (route_class key : Text) (r : RateRule) (now : ℕ) (s : Shared)
    → s.reply ≢ answered
    → (shared_allow p route_class key r now (some s)).0 ≡ true
unfolding shared_allow distributed_allow hit
shared_allow-unreached p route_class key r now s e =
    unreached-not_denied _ r.per_key r.window_seconds now s.reply s.counters e

after_some-unreached :
    (p : Printer) (route_class key : Text) (now : ℕ) (s : Shared) (r : RateRule) (b : Bool)
    → s.reply ≢ answered
    → (after_local p route_class key now (some s) (some r) b).0 ≡ b
unfolding after_local
after_some-unreached p route_class key now s r false e = refl
after_some-unreached p route_class key now s r true e =
    shared_allow-unreached p route_class key r now s e

after_local-unreached :
    (p : Printer) (route_class key : Text) (now : ℕ) (l : Limiter) (s : Shared)
    → s.reply ≢ answered
    → (o : Option RateRule)
    → (after_local p route_class key now
        (some s)
        o
        (allow_by legacy_rate_rules route_class key now l o).0).0
      ≡ (allow_by legacy_rate_rules route_class key now l o).0
unfolding allow_by after_local
after_local-unreached p route_class key now l s e none = refl
after_local-unreached p route_class key now l s e (some r) =
    after_some-unreached p route_class key now s r _ e

-- When no answer of the shared counter arrives, whether or not it has counted the request, the
-- decision is that of the process alone.
pub legacy_allow-unreached :
    (p : Printer) (route_class key : Text) (now : ℕ) (l : Limiter) (s : Shared)
    → s.reply ≢ answered
    → (legacy_allow p route_class key now l (some s)).0
      ≡ (allow legacy_rate_rules route_class key now l).0
unfolding legacy_allow allow
legacy_allow-unreached p route_class key now l s e =
    after_local-unreached p route_class key now l s e (get route_class legacy_rate_rules)
