-- ===== src/Tests/CheckoutRuns.antt =====
-- The payer's page (src/lib/checkoutState.ts) at a few inputs.
use final_arc.Base.Int.{◌+ℤ◌}
use final_arc.Base.Int.{◌-ℤ◌}
use final_arc.Base.Int.{◌-ℤ◌}
use final_arc.Base.{◌≡◌, ◌↔◌, refl, true, false, some}
use final_arc.Base.Int.{pos, ◌+ℤ◌}
use final_arc.Checkout.{
  CheckoutInput, resolve_checkout_state, ready, idle, connected, enough, classify_balance,
  insufficient,
}
use final_arc.Checkout.State
use final_arc.Checkout.Payable.{Payable, resolve_checkout_state-can_pay_iff}

-- A signed request that expires at second 200, seen at second 100 by a connected payer.
abbrev page : CheckoutInput
page = record {
  link_valid = true;
  signature_ok = some true;
  availability = ready;
  paid = false;
  cancelled = false;
  expires_at = some (pos 200);
  now_seconds = pos 100;
  wallet = connected;
  chain_id = some 5042;
  balance = enough;
  flow = idle;
}

page_payable : (resolve_checkout_state page).can_pay ≡ true
unfolding resolve_checkout_state ◌-ℤ◌
page_payable = refl

wrong_chain :
    (resolve_checkout_state (record page { chain_id = some 1 })).state ≡ State.wrong_network
unfolding resolve_checkout_state ◌-ℤ◌
wrong_chain = refl

short_balance : classify_balance (pos 10) (some (pos 10)) (some (pos 1)) true ≡ insufficient
unfolding classify_balance ◌+ℤ◌
short_balance = refl

resolve_checkout_state-can_pay_iff_example :
    ((resolve_checkout_state page).can_pay ≡ true) ↔ Payable page
resolve_checkout_state-can_pay_iff_example = resolve_checkout_state-can_pay_iff page

balance_read : enough ≡ classify_balance (pos 10) (some (pos 20)) (some (pos 1)) true
unfolding classify_balance ◌+ℤ◌
balance_read = refl
