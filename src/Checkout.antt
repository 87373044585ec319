-- ===== src/Checkout.antt =====
-- src/lib/checkoutState.ts, src/lib/paySheetStatus.ts and the phases of src/lib/payRequest.ts: what
-- a payer's page shows and offers. `null` is `none`.
pub mod State
pub mod Payable
use final_arc.Base.{
  ℕ, Bool, true, false, not, ◌&&◌, ◌||◌, Option, none, some, ◌++◌, if◌then◌else◌, ◌==◌, Text, codes,
  is_empty,
}
use final_arc.Base.Int.{ℤ, pos, ◌+ℤ◌, ◌-ℤ◌, ltb_ℤ, leb_ℤ}
use final_arc.Base.Values.{trim}
use final_arc.Checkout.State
use final_arc.Checkout.State.{CheckoutState}

abbrev pub arc_chain_id : ℕ
arc_chain_id = 5042

pub data PayLinkPhase : Type 0 where
  phase_open phase_paid phase_cancelled phase_expired : PayLinkPhase

abbrev at_or_after : Option ℤ → ℤ → Bool
at_or_after none now = false
at_or_after (some expires_at) now = leb_ℤ expires_at now

-- `paymentLinkPhase`.
unfoldable pub payment_link_phase : (paid cancelled : Bool) → Option ℤ → ℤ → PayLinkPhase
payment_link_phase paid cancelled expires_at now =
    if paid
    then phase_paid
    else (if cancelled
        then phase_cancelled
        else (if at_or_after expires_at now then phase_expired else phase_open))

-- `canOfferPay`.
unfoldable pub can_offer_pay : PayLinkPhase → Bool
can_offer_pay phase_open = true
can_offer_pay _ = false

pub data PayStatusAvailability : Type 0 where
  unknown failed ready : PayStatusAvailability

pub data PaySheetOffer : Type 0 where
  not_ready : PayStatusAvailability → PaySheetOffer
  offer : PayLinkPhase → (offers_pay shows_receipt : Bool) → PaySheetOffer

-- `offersPay` of an offer.
abbrev pub offers_pay : PaySheetOffer → Bool
offers_pay (not_ready _) = false
offers_pay (offer _ pays _) = pays

abbrev pub is_paid_phase : PayLinkPhase → Bool
is_paid_phase phase_paid = true
is_paid_phase _ = false

-- `paySheetOffer`.
unfoldable pub pay_sheet_offer :
    PayStatusAvailability → (paid cancelled : Bool) → Option ℤ → ℤ → PaySheetOffer
unfolding payment_link_phase can_offer_pay
pay_sheet_offer unknown paid cancelled expires_at now = not_ready unknown
pay_sheet_offer failed paid cancelled expires_at now = not_ready failed
pay_sheet_offer ready paid cancelled expires_at now =
    let phase = payment_link_phase paid cancelled expires_at now in
    offer phase (can_offer_pay phase) (is_paid_phase phase)

-- `clientExpiry`: whether the request has expired, and the seconds that remain.
pub record Clock : Type 0 where
  pub expired : Bool
  pub remaining_seconds : Option ℤ

unfoldable pub client_expiry : Option ℤ → ℤ → Clock
client_expiry none now = record { expired = false; remaining_seconds = none }
client_expiry (some expires_at) now =
    let remaining = expires_at -ℤ now in
    record {
      expired = leb_ℤ remaining (pos 0);
      remaining_seconds = some (if ltb_ℤ (pos 0) remaining then remaining else pos 0);
    }

pub data BalanceRead : Type 0 where
  loading unavailable enough insufficient : BalanceRead

abbrev pub needed_with : ℤ → Option ℤ → ℤ
needed_with amount none = amount
needed_with amount (some gas) = amount +ℤ gas

-- `classifyBalance`.
unfoldable pub classify_balance :
    (amount : ℤ) (balance gas_headroom : Option ℤ) (settled : Bool) → BalanceRead
classify_balance amount balance gas false = loading
classify_balance amount none gas true = unavailable
classify_balance amount (some balance) gas true =
    if ltb_ℤ balance (needed_with amount gas) then insufficient else enough

pub data CheckoutFlow : Type 0 where
  idle preparing awaiting_signature submitted flow_error : CheckoutFlow

pub data WalletState : Type 0 where
  disconnected connecting connected : WalletState

-- `signature_ok` is none while a V2 signature check runs.
pub record CheckoutInput : Type 0 where
  pub link_valid : Bool
  pub signature_ok : Option Bool
  pub availability : PayStatusAvailability
  pub paid : Bool
  pub cancelled : Bool
  pub expires_at : Option ℤ
  pub now_seconds : ℤ
  pub wallet : WalletState
  pub chain_id : Option ℕ
  pub balance : BalanceRead
  pub flow : CheckoutFlow

pub record Checkout : Type 0 where
  pub state : CheckoutState
  pub is_paid : Bool
  pub can_pay : Bool

-- A checkout that is not paid and cannot be paid now.
abbrev pub idle_in : CheckoutState → Checkout
idle_in s = record { state = s; is_paid = false; can_pay = false }

-- The tests on a disconnected wallet, by the signature check and the availability.
unfoldable pub disconnected_state : Option Bool → PayStatusAvailability → Checkout
disconnected_state none availability = idle_in State.loading
disconnected_state (some _) unknown = idle_in State.loading
disconnected_state (some _) failed = idle_in State.unavailable
disconnected_state (some _) ready = idle_in State.opened

unfoldable pub balance_state : BalanceRead → Checkout
balance_state insufficient = idle_in State.insufficient_balance
balance_state enough = record { state = State.connected; is_paid = false; can_pay = true }
balance_state unavailable = record { state = State.connected; is_paid = false; can_pay = true }
balance_state loading = idle_in State.connected

-- The tests on a connected wallet on the Arc chain.
unfoldable pub on_chain_state : Option Bool → PayStatusAvailability → BalanceRead → Checkout
unfolding balance_state
on_chain_state none availability balance = idle_in State.loading
on_chain_state (some _) unknown balance = idle_in State.loading
on_chain_state (some _) failed balance = idle_in State.unavailable
on_chain_state (some _) ready balance = balance_state balance

abbrev pub on_arc : Option ℕ → Bool
on_arc none = false
on_arc (some id) = id == arc_chain_id

unfoldable pub wallet_state : WalletState → CheckoutInput → Checkout
unfolding disconnected_state on_chain_state
wallet_state connecting i = idle_in State.connecting
wallet_state disconnected i = disconnected_state i.signature_ok i.availability
wallet_state connected i =
    if on_arc i.chain_id
    then on_chain_state i.signature_ok i.availability i.balance
    else idle_in State.wrong_network

unfoldable pub flow_state : CheckoutFlow → CheckoutInput → Checkout
unfolding wallet_state
flow_state flow_error i = idle_in State.error
flow_state preparing i = idle_in State.preparing
flow_state awaiting_signature i = idle_in State.awaiting_signature
flow_state submitted i = idle_in State.submitted
flow_state idle i = wallet_state i.wallet i

unfoldable pub phase_state : PayLinkPhase → CheckoutInput → Checkout
unfolding client_expiry flow_state
phase_state phase_paid i = record { state = State.completed; is_paid = true; can_pay = false }
phase_state phase_cancelled i = idle_in State.cancelled
phase_state phase_expired i = idle_in State.expired
phase_state phase_open i =
    if (client_expiry i.expires_at i.now_seconds).expired
    then idle_in State.expired
    else flow_state i.flow i

abbrev pub signature_fails : Option Bool → Bool
signature_fails none = false
signature_fails (some ok) = not ok

-- `resolveCheckoutState`.
unfoldable pub resolve_checkout_state : CheckoutInput → Checkout
unfolding phase_state payment_link_phase
resolve_checkout_state i =
    if not i.link_valid || signature_fails i.signature_ok
    then idle_in State.error
    else phase_state (payment_link_phase i.paid i.cancelled i.expires_at i.now_seconds) i

-- `checkoutStatusText`; `detail` is none for a missing one.
unfoldable pub error_text : Option Text → Text
unfolding trim
error_text none = codes "This payment link is not valid."
error_text (some detail) =
    if is_empty (trim detail) then codes "This payment link is not valid." else trim detail

unfoldable pub checkout_status_text : CheckoutState → Option Text → Text
unfolding error_text
checkout_status_text State.loading detail = codes "Checking payment status…"
checkout_status_text State.opened detail = codes "Connect a wallet to pay."
checkout_status_text State.connecting detail = codes "Connecting wallet…"
checkout_status_text State.connected detail = codes "Ready to pay on Arc."
checkout_status_text State.wrong_network detail =
    codes "Wrong network. Switch to Arc mainnet to pay."
checkout_status_text State.insufficient_balance detail = codes "Not enough USDC for this payment."
checkout_status_text State.preparing detail = codes "Preparing payment"
checkout_status_text State.awaiting_signature detail = codes "Confirm in wallet"
checkout_status_text State.submitted detail = codes "Transaction submitted"
checkout_status_text State.completed detail = codes "Paid"
checkout_status_text State.expired detail = codes "Payment request expired"
checkout_status_text State.cancelled detail = codes "Payment request cancelled"
checkout_status_text State.unavailable detail = codes "Unable to verify payment status."
checkout_status_text State.error detail = error_text detail
