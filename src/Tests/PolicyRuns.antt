-- ===== src/Tests/PolicyRuns.antt =====
-- Policy evaluation (src/lib/paymentPolicy.ts) on one policy with an amount and a spend limit.
use final_arc.Policy.Evaluate.{check_chains}
use final_arc.Policy.{check_tokens}
use final_arc.Policy.{check_agents}
use final_arc.Policy.{check_recipients}
use final_arc.Policy.{spend_in_window}
use final_arc.Policy.{check_max_spend}
use final_arc.Policy.{check_max_amount}
use final_arc.Policy.Evaluate.{check_stored}
use final_arc.Base.Values.{trim}
use final_arc.Base.{
  ◌≡◌, ◌↔◌, refl, true, false, codes, text_eq, is_decimal, is_positive_decimal, big_int,
}
use final_arc.Base.Int.{is_safe_integer}
use final_arc.Base.Addresses.{canonicalize_address}
use final_arc.Base.Values.{Value}
use final_arc.Policy.{policy_amount}
use final_arc.Policy.Evaluate.{evaluate_payment_policy}
use final_arc.Policy.Decision.{AuthorizedBy, evaluate_payment_policy_iff}
use final_arc.Tests.Samples.{plain_addresses, payment_input}

payment_allowed : (evaluate_payment_policy plain_addresses payment_input).allowed ≡ true
unfolding evaluate_payment_policy canonicalize_address policy_amount is_positive_decimal trim
    is_safe_integer text_eq check_stored check_max_amount is_decimal big_int check_max_spend
    spend_in_window check_recipients check_agents check_tokens check_chains
payment_allowed = refl

payment_denied :
    (evaluate_payment_policy plain_addresses
      (record payment_input { amount_base_units = codes "501" })).allowed
    ≡ false
unfolding evaluate_payment_policy canonicalize_address policy_amount is_positive_decimal trim
    is_safe_integer text_eq check_stored check_max_amount is_decimal big_int
payment_denied = refl

evaluate_payment_policy_iff_example :
    ((evaluate_payment_policy plain_addresses payment_input).allowed ≡ true)
    ↔ AuthorizedBy plain_addresses payment_input
        (canonicalize_address plain_addresses payment_input.merchant)
        (canonicalize_address plain_addresses payment_input.recipient)
        (canonicalize_address plain_addresses payment_input.token)
        (policy_amount (Value.string payment_input.amount_base_units))
evaluate_payment_policy_iff_example = evaluate_payment_policy_iff plain_addresses payment_input
