-- ===== src/Tests/EnforcementRuns.antt =====
-- Policies of machine payments (src/lib/paymentPolicies.ts) at one payment.
use final_arc.Enforcement.Decide.{used_in}
use final_arc.Policy.Evaluate.{check_chains}
use final_arc.Policy.{check_tokens}
use final_arc.Policy.{check_agents}
use final_arc.Policy.{check_recipients}
use final_arc.Enforcement.Decide.{verified_spend_from_intents}
use final_arc.Policy.{spend_in_window}
use final_arc.Base.{big_int}
use final_arc.Base.{is_decimal}
use final_arc.Policy.{check_max_spend}
use final_arc.Policy.{check_max_amount}
use final_arc.Policy.Evaluate.{check_stored}
use final_arc.Base.Int.{is_safe_integer}
use final_arc.Base.Values.{trim}
use final_arc.Base.{is_positive_decimal}
use final_arc.Policy.{policy_amount}
use final_arc.Base.{ℕ, ◌≡◌, refl, true, false, some, none, [], ◌∷◌, codes, Text}
use final_arc.Base.Int.{ℤ, pos}
use final_arc.Base.Addresses.{canonicalize_address}
use final_arc.Policy.{PaymentPolicy}
use final_arc.Policy.Snapshot.{PolicySnapshot}
use final_arc.Ledger.{LedgerReservation, reserved}
use final_arc.Enforcement.{PolicyStore, policy_row, MachinePolicyInput, allows}
use final_arc.Enforcement.Decide.{enabled_policies, corrupt_merchant_policy, decide_machine_policy}
use final_arc.Enforcement.Promises.{Permitted, decide_machine_policy-Permitted}
use final_arc.Tests.Samples.{plain_addresses, no_rules}

abbrev capped : PaymentPolicy
capped = record {
  id = codes "p1";
  merchant = codes "0xm";
  name = codes "caps";
  enabled = true;
  created_at = [];
  updated_at = [];
  version = 1;
  rules = some (record no_rules {
    max_spend_base_units = some (codes "1000");
    window_seconds = some (pos 3600);
  });
}

abbrev policies : PolicyStore
policies = record {
  records = policy_row capped ∷ [];
  agents = record { intents = []; idempotency = []; reservations = []; denials = [] };
}

abbrev payment : MachinePolicyInput
payment = record {
  merchant = codes "0xm";
  agent_id = none;
  recipient = codes "0xm";
  token = codes "0xt";
  chain_id = some (pos 5042);
  amount = some 400;
  request_id = codes "0x000000000000000000000000000000cd";
  now = pos 1000;
  will_execute = true;
  expires_at = some (pos 2000);
}

abbrev show_amount : ℕ → Text
show_amount n = codes "400"

abbrev kept_snapshot : PolicySnapshot
kept_snapshot = record {
  policy_version = 1;
  policy_ids = codes "p1" ∷ [];
  limits =
      record {
        policy_id = codes "p1";
        max_amount_base_units = none;
        max_spend_base_units = some (codes "1000");
        window_seconds = some (pos 3600);
        allowed_recipients = none;
        allowed_agent_ids = none;
        allowed_tokens = none;
        allowed_chain_ids = none;
      }
      ∷ [];
  evaluated_at = pos 1000;
  agent_id = none;
}

abbrev made_reservation : LedgerReservation
made_reservation = record {
  id = codes "0x000000000000000000000000000000cd";
  intent_id = codes "0x000000000000000000000000000000cd";
  merchant = codes "0xm";
  amount_base_units = codes "400";
  policy_ids = codes "p1" ∷ [];
  reserved_at = pos 1000;
  expires_at = pos 2000;
  status = reserved;
  consumed_at = none;
  released_at = none;
  release_reason = none;
}

payment_allowed :
    decide_machine_policy plain_addresses show_amount policies payment
    ≡ allows kept_snapshot (some made_reservation)
unfolding decide_machine_policy policy_amount is_positive_decimal trim is_safe_integer check_stored
    check_max_amount check_max_spend is_decimal big_int spend_in_window verified_spend_from_intents
    check_recipients check_agents check_tokens check_chains used_in
payment_allowed = refl

decide_machine_policy-Permitted_example :
    (corrupt_merchant_policy plain_addresses show_amount payment.merchant policies.records ≡ false)
    × ((amount : ℕ) × (chain_id : ℤ) × (recipient : Text) × (token : Text) × (payment.amount
          ≡ some amount)
        × (payment.chain_id ≡ some chain_id)
        × (canonicalize_address plain_addresses payment.recipient ≡ some recipient)
        × (canonicalize_address plain_addresses payment.token ≡ some token)
        × Permitted plain_addresses show_amount policies payment
            (enabled_policies plain_addresses show_amount payment.merchant policies.records)
            recipient
            token
            chain_id
            amount
            (some made_reservation))
decide_machine_policy-Permitted_example =
    decide_machine_policy-Permitted plain_addresses show_amount policies payment kept_snapshot
      (some made_reservation) payment_allowed
