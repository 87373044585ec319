-- ===== src/Checkout/State.antt =====
-- The states of the payer's page (src/lib/checkoutState.ts).
pub data CheckoutState : Type 0 where
  loading opened connecting connected wrong_network insufficient_balance : CheckoutState
  preparing awaiting_signature submitted completed expired cancelled : CheckoutState
  unavailable error : CheckoutState
