-- ===== src/Checkout/Payable.antt =====
-- When src/lib/checkoutState.ts lets a payer pay.
use final_arc.Base.{
  ℕ, ◌≡◌, ◌↔◌, ◌⊎◌, inl, inr, refl, subst, Bool, true, false, Option, none, some, arith,
}
use final_arc.Base.Int.{ℤ, ◌<ℤ◌, -ℤ_parts, ◌≤ℤ◌}
use final_arc.Checkout.{
  PayLinkPhase, phase_open, phase_paid, phase_cancelled, phase_expired, payment_link_phase,
  can_offer_pay, PayStatusAvailability, unknown, failed, ready, offers_pay, pay_sheet_offer,
  client_expiry, BalanceRead, loading, unavailable, enough, insufficient, classify_balance,
  CheckoutFlow, idle, preparing, awaiting_signature, submitted, flow_error, WalletState,
  disconnected, connecting, connected, CheckoutInput, disconnected_state, balance_state,
  on_chain_state, on_arc, wallet_state, flow_state, phase_state, resolve_checkout_state,
  arc_chain_id, signature_fails, needed_with,
}

-- The request expires in the future, or never.
abbrev pub Alive : Option ℤ → ℤ → Type 0
Alive none now = Unit
Alive (some expires_at) now = now <ℤ expires_at

-- What has to hold for a payer to be offered the payment.
pub record Payable (i : CheckoutInput) : Type 0 where
  pub valid : i.link_valid ≡ true
  pub signed : i.signature_ok ≡ some true
  pub status_known : i.availability ≡ ready
  pub unpaid : i.paid ≡ false
  pub not_cancelled : i.cancelled ≡ false
  pub alive : Alive i.expires_at i.now_seconds
  pub idle_flow : i.flow ≡ idle
  pub wallet_connected : i.wallet ≡ connected
  pub arc_chain : i.chain_id ≡ some arc_chain_id
  pub balance_ok : (i.balance ≡ enough) ⊎ (i.balance ≡ unavailable)

phase_open_iff :
    (paid cancelled : Bool) (e : Option ℤ) (now : ℤ)
    → (payment_link_phase paid cancelled e now ≡ phase_open)
      ↔ ((paid ≡ false) × (cancelled ≡ false) × Alive e now)
unfolding payment_link_phase
phase_open_iff paid cancelled none now = ground arith
phase_open_iff paid cancelled (some e) now = ground arith

client_expiry_iff : (e : Option ℤ) (now : ℤ) → ((client_expiry e now).expired ≡ false) ↔ Alive e now
unfolding client_expiry
client_expiry_iff none now = ground arith
client_expiry_iff (some e) now = ground (arith, -ℤ_parts e now)

balance_state_iff :
    (b : BalanceRead) → ((balance_state b).can_pay ≡ true) ↔ ((b ≡ enough) ⊎ (b ≡ unavailable))
unfolding balance_state
balance_state_iff loading =
    ((λ e. absurd (cc)), (λ h. elim h [ inl e ↦ absurd (cc) | inr e ↦ absurd (cc) ]))
balance_state_iff unavailable = ((λ e. inr refl), (λ h. refl))
balance_state_iff enough = ((λ e. inl refl), (λ h. refl))
balance_state_iff insufficient =
    ((λ e. absurd (cc)), (λ h. elim h [ inl e ↦ absurd (cc) | inr e ↦ absurd (cc) ]))

on_chain_state_iff :
    (s : Option Bool) (a : PayStatusAvailability) (b : BalanceRead)
    → signature_fails s ≡ false
    → ((on_chain_state s a b).can_pay ≡ true)
      ↔ ((s ≡ some true) × (a ≡ ready) × ((balance_state b).can_pay ≡ true))
unfolding on_chain_state
on_chain_state_iff none a b h = ground arith
on_chain_state_iff (some true) unknown b h = ground arith
on_chain_state_iff (some true) failed b h = ground arith
on_chain_state_iff (some true) ready b h = ((λ e. (refl, refl, e)), (λ r. r.2))
on_chain_state_iff (some false) a b h = absurd (cc)

on_arc_iff : (c : Option ℕ) → (on_arc c ≡ true) ↔ (c ≡ some arc_chain_id)
on_arc_iff none = ground arith
on_arc_iff (some id) = ground arith

disconnected-not_payable :
    (s : Option Bool) (a : PayStatusAvailability) → (disconnected_state s a).can_pay ≡ false
unfolding disconnected_state
disconnected-not_payable none a = refl
disconnected-not_payable (some b) unknown = refl
disconnected-not_payable (some b) failed = refl
disconnected-not_payable (some b) ready = refl

wallet_state_iff :
    (w : WalletState) (i : CheckoutInput)
    → ((wallet_state w i).can_pay ≡ true) ↔ (
        (w ≡ connected)
        × (on_arc i.chain_id ≡ true)
        × ((on_chain_state i.signature_ok i.availability i.balance).can_pay ≡ true))
unfolding wallet_state
wallet_state_iff disconnected i =
    ground (arith, disconnected-not_payable i.signature_ok i.availability)
wallet_state_iff connecting i = ground arith
wallet_state_iff connected i = ground arith

flow_state_iff :
    (f : CheckoutFlow) (i : CheckoutInput)
    → ((flow_state f i).can_pay ≡ true) ↔ ((f ≡ idle) × ((wallet_state i.wallet i).can_pay ≡ true))
unfolding flow_state
flow_state_iff idle i = ground arith
flow_state_iff preparing i = ground arith
flow_state_iff awaiting_signature i = ground arith
flow_state_iff submitted i = ground arith
flow_state_iff flow_error i = ground arith

phase_state_iff :
    (p : PayLinkPhase) (i : CheckoutInput)
    → ((phase_state p i).can_pay ≡ true) ↔ (
        (p ≡ phase_open)
        × ((client_expiry i.expires_at i.now_seconds).expired ≡ false)
        × ((flow_state i.flow i).can_pay ≡ true))
unfolding phase_state
phase_state_iff phase_open i = ground arith
phase_state_iff phase_paid i = ground arith
phase_state_iff phase_cancelled i = ground arith
phase_state_iff phase_expired i = ground arith

-- A payer can pay exactly a signed, open request on the Arc chain with a wallet that is connected,
-- with no payment under way and no balance known to fall short or still being read.
pub resolve_checkout_state-can_pay_iff :
    (i : CheckoutInput) → ((resolve_checkout_state i).can_pay ≡ true) ↔ Payable i
unfolding resolve_checkout_state
resolve_checkout_state-can_pay_iff i = grind (
  arith,
  phase_state_iff (payment_link_phase i.paid i.cancelled i.expires_at i.now_seconds) i,
  phase_open_iff i.paid i.cancelled i.expires_at i.now_seconds,
  client_expiry_iff i.expires_at i.now_seconds,
  flow_state_iff i.flow i,
  wallet_state_iff i.wallet i,
  on_arc_iff i.chain_id,
  on_chain_state_iff i.signature_ok i.availability i.balance,
  balance_state_iff i.balance,
)

-- Whenever the checkout lets the payer pay, the pay sheet of the same request offers it too.
pub can_pay-pay_sheet_offer :
    (i : CheckoutInput)
    → (resolve_checkout_state i).can_pay ≡ true
    → offers_pay (pay_sheet_offer i.availability i.paid i.cancelled i.expires_at i.now_seconds)
      ≡ true
unfolding pay_sheet_offer can_offer_pay
can_pay-pay_sheet_offer i h =
    let p = (resolve_checkout_state-can_pay_iff i).0 h in
    rw
      (
        p.status_known,
        (phase_open_iff i.paid i.cancelled i.expires_at i.now_seconds).1
            (p.unpaid, p.not_cancelled, p.alive),
      )
      refl

balance_state-unpaid : (b : BalanceRead) → (balance_state b).is_paid ≡ false
unfolding balance_state
balance_state-unpaid loading = refl
balance_state-unpaid unavailable = refl
balance_state-unpaid enough = refl
balance_state-unpaid insufficient = refl

on_chain_state-unpaid :
    (s : Option Bool) (a : PayStatusAvailability) (b : BalanceRead)
    → (on_chain_state s a b).is_paid ≡ false
unfolding on_chain_state
on_chain_state-unpaid none a b = refl
on_chain_state-unpaid (some c) unknown b = refl
on_chain_state-unpaid (some c) failed b = refl
on_chain_state-unpaid (some c) ready b = balance_state-unpaid b

disconnected_state-unpaid :
    (s : Option Bool) (a : PayStatusAvailability) → (disconnected_state s a).is_paid ≡ false
unfolding disconnected_state
disconnected_state-unpaid none a = refl
disconnected_state-unpaid (some c) unknown = refl
disconnected_state-unpaid (some c) failed = refl
disconnected_state-unpaid (some c) ready = refl

wallet_state-unpaid : (w : WalletState) (i : CheckoutInput) → (wallet_state w i).is_paid ≡ false
unfolding wallet_state
wallet_state-unpaid disconnected i = disconnected_state-unpaid i.signature_ok i.availability
wallet_state-unpaid connecting i = refl
wallet_state-unpaid connected i =
    ground (arith, on_chain_state-unpaid i.signature_ok i.availability i.balance)

flow_state-unpaid : (f : CheckoutFlow) (i : CheckoutInput) → (flow_state f i).is_paid ≡ false
unfolding flow_state
flow_state-unpaid idle i = wallet_state-unpaid i.wallet i
flow_state-unpaid preparing i = refl
flow_state-unpaid awaiting_signature i = refl
flow_state-unpaid submitted i = refl
flow_state-unpaid flow_error i = refl

-- The checkout shows a request as paid exactly when the store says that it is paid, the link is
-- valid and its signature has not been refused: never because of the wallet or of what was sent.
pub resolve_checkout_state-is_paid_iff :
    (i : CheckoutInput)
    → ((resolve_checkout_state i).is_paid ≡ true)
      ↔ ((i.link_valid ≡ true) × (signature_fails i.signature_ok ≡ false) × (i.paid ≡ true))
unfolding resolve_checkout_state payment_link_phase phase_state
resolve_checkout_state-is_paid_iff i = ground (arith, flow_state-unpaid i.flow i)

classify_balance-enough :
    (amount balance : ℤ) (gas : Option ℤ)
    → (classify_balance amount (some balance) gas true ≡ enough)
      ⊎ (classify_balance amount (some balance) gas true ≡ unavailable)
    → needed_with amount gas ≤ℤ balance
unfolding classify_balance
classify_balance-enough amount balance gas (inl e) = ground arith
classify_balance-enough amount balance gas (inr e) = ground arith

-- A payer whose balance has been read is let to pay only if it covers the amount, and the gas
-- headroom too where there is an estimate.
pub can_pay-covered :
    (i : CheckoutInput) (amount balance : ℤ) (gas : Option ℤ)
    → i.balance ≡ classify_balance amount (some balance) gas true
    → (resolve_checkout_state i).can_pay ≡ true
    → needed_with amount gas ≤ℤ balance
can_pay-covered i amount balance gas e h = classify_balance-enough amount balance gas (
    subst (λ b. (b ≡ enough) ⊎ (b ≡ unavailable)) e
      ((resolve_checkout_state-can_pay_iff i).0 h).balance_ok)
