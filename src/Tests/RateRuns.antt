-- ===== src/Tests/RateRuns.antt =====
-- The limiters (src/lib/publicRateLimit.ts, src/lib/distributedRateLimit.ts) at a few inputs.
use final_arc.RateLimit.Redis.{hit_key, answered, answer_lost}
use final_arc.Base.{put}
use final_arc.Base.{text_eq}
use final_arc.Base.{get}
use final_arc.Base.{
  ◌≤◌, ◌≡◌, refl, true, false, some, List, [], ◌∷◌, codes, All, arith, Entries, Text,
}
use final_arc.RateLimit.{
  RateRule, rule, reset, allow, legacy_rate_rules, Limiter, Bucket, global_slot, key_slot,
}
use final_arc.RateLimit.Bounds.{SoundRules, WithinLimits, allow-WithinLimits}
use final_arc.RateLimit.Redis.{Printer}
use final_arc.RateLimit.Shared.{Hit, allowed_hits, allowed_hits-limit}
use final_arc.RateLimit.Legacy.{Shared, legacy_allow, legacy_allow-unreached}

abbrev one_rule : Entries RateRule
one_rule = (codes "pay", rule 1 2) ∷ []

one_rule-SoundRules : SoundRules one_rule
one_rule-SoundRules = ((refl, omega arith, omega arith), tt)

-- The first request of a key.
abbrev after_first : Limiter
after_first = record {
  buckets =
      (global_slot (codes "pay"), record { start = 7; count = 1 })
      ∷ (key_slot (codes "pay") (codes "ip"), record { start = 7; count = 1 })
      ∷ [];
  calls = 1;
}

first_allowed : allow one_rule (codes "pay") (codes "ip") 7 reset ≡ (true, after_first)
unfolding allow get text_eq put
first_allowed = refl

second_denied : (allow one_rule (codes "pay") (codes "ip") 8 after_first).0 ≡ false
unfolding allow get text_eq
second_denied = refl

allow-WithinLimits_example :
    All (WithinLimits one_rule) (allow one_rule (codes "pay") (codes "ip") 7 reset).1.buckets
allow-WithinLimits_example =
    allow-WithinLimits one_rule one_rule-SoundRules (codes "pay") (codes "ip") 7 reset tt

abbrev StartedAt7 : Text × Bucket → Type 0
StartedAt7 e = e.1.start ≡ 7

abbrev three_hits : List Hit
three_hits =
    record { key = codes "k"; now = 60; reply = answered }
    ∷ record { key = codes "j"; now = 61; reply = answered }
    ∷ record { key = codes "k"; now = 70; reply = answered }
    ∷ record { key = codes "k"; now = 119; reply = answered }
    ∷ []

two_allowed : allowed_hits (codes "k") 2 60 three_hits [] ≡ 2
unfolding allowed_hits text_eq hit_key get put
two_allowed = refl

allowed_hits-limit_example : allowed_hits (codes "k") 2 60 three_hits [] ≤ 2
unfolding get
allowed_hits-limit_example =
    allowed_hits-limit (codes "k") 2 60 60 three_hits []
      (
        (omega arith, omega arith),
        (
          (omega arith, omega arith),
          ((omega arith, omega arith), ((omega arith, omega arith), tt)),
        ),
      )
      refl

abbrev plain : Printer
plain = record { sha256_hex = λ s. s; show = λ n. n ∷ [] }

abbrev down : Shared
down = record { reply = answer_lost; counters = [] }

lone_request : (legacy_allow plain (codes "pay.write") (codes "ip") 7 reset (some down)).0 ≡ true
unfolding legacy_allow get text_eq
lone_request = refl

abbrev full_key : Limiter
full_key = record {
  buckets = (key_slot (codes "pay.write") (codes "ip"), record { start = 7; count = 30 }) ∷ [];
  calls = 30;
}

full_refused : (allow legacy_rate_rules (codes "pay.write") (codes "ip") 8 full_key).0 ≡ false
unfolding allow get legacy_rate_rules text_eq
full_refused = refl

legacy_allow-unreached_example :
    (legacy_allow plain (codes "pay.write") (codes "ip") 7 reset (some down)).0
    ≡ (allow legacy_rate_rules (codes "pay.write") (codes "ip") 7 reset).0
legacy_allow-unreached_example =
    legacy_allow-unreached plain (codes "pay.write") (codes "ip") 7 reset down (λ e. cc)
