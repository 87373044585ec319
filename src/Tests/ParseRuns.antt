-- ===== src/Tests/ParseRuns.antt =====
-- Policy rules from outside (src/lib/paymentPolicy.ts) at a few inputs.
use final_arc.Base.{text_eq}
use final_arc.Base.Int.{is_safe_integer}
use final_arc.Base.{◌≡◌, refl, true, none, some, [], ◌∷◌, codes}
use final_arc.Base.Int.{pos}
use final_arc.Base.Values.{Value, Fields}
use final_arc.Policy.{PaymentPolicyRules, PolicyDecision}
use final_arc.Policy.Evaluate.{Inputs}
use final_arc.Policy.Parse.{parsed, failed, parse_policy_rules}
use final_arc.Policy.WellFormed.{WellFormed, parse_policy_rules-WellFormed}
use final_arc.Policy.Snapshot.{PolicySnapshot, limits_of, snapshot_from_decision}
use final_arc.Tests.Samples.{plain_addresses, no_rules, capped_policy, capped_rules}

abbrev capped_body : Value
capped_body = Value.object (
    Fields.field (codes "maxSpendBaseUnits") (Value.string (codes "900"))
      (Fields.field (codes "windowSeconds") (Value.number (pos 60)) Fields.end))

abbrev capped : PaymentPolicyRules
capped = record no_rules {
  max_spend_base_units = some (codes "900");
  window_seconds = some (pos 60);
}

capped_parsed : parse_policy_rules plain_addresses capped_body ≡ parsed capped
unfolding parse_policy_rules is_safe_integer
capped_parsed = refl

-- A cap without a window.
cap_alone :
    parse_policy_rules plain_addresses (
      Value.object
        (Fields.field (codes "maxSpendBaseUnits") (Value.string (codes "900")) Fields.end))
    ≡ failed (codes "maxSpendBaseUnits and windowSeconds must be set together.")
unfolding parse_policy_rules
cap_alone = refl

parse_policy_rules-WellFormed_example : WellFormed plain_addresses capped
parse_policy_rules-WellFormed_example =
    parse_policy_rules-WellFormed plain_addresses capped_body capped capped_parsed

abbrev payment : Inputs
payment = record {
  recipient = codes "0xr";
  token = codes "0xt";
  amount = 1000;
  agent_id = none;
  chain_id = pos 5042;
  now = pos 100;
  verified_spend = [];
}

abbrev allowed : PolicyDecision
allowed = record { allowed = true; policy_version = 1; policy_ids = codes "p1" ∷ []; reasons = [] }

abbrev kept : PolicySnapshot
kept = record {
  policy_version = 1;
  policy_ids = codes "p1" ∷ [];
  limits = limits_of (codes "p1") capped_rules ∷ [];
  evaluated_at = pos 100;
  agent_id = none;
}

kept_snapshot : snapshot_from_decision allowed (capped_policy ∷ []) (pos 100) none ≡ some kept
unfolding snapshot_from_decision text_eq
kept_snapshot = refl
