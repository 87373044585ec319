-- ===== src/Escrow.antt =====
-- src/lib/escrowTerms.ts: the transitions of an escrow, and the match of its events in a
-- transaction's logs.
pub mod Lifecycle
pub mod Events
use final_arc.Base.{Bool, true, false, not, ◌||◌, Option, none, some, if◌then◌else◌}
use final_arc.Base.Int.{ℤ, leb_ℤ, ltb_ℤ, is_safe_integer}

pub data EscrowState : Type 0 where
  created opened funded released refunded cancelled : EscrowState

pub data EscrowAction : Type 0 where
  open_escrow fund release refund cancel : EscrowAction

pub data TransitionCode : Type 0 where
  invalid_state expired too_early unverified : TransitionCode

pub data TransitionResult : Type 0 where
  moved : EscrowState → TransitionResult
  refused : TransitionCode → TransitionResult

-- The actions that do not look at the block time.
unfoldable pub cancel_from : EscrowState → TransitionResult
cancel_from created = moved cancelled
cancel_from opened = moved cancelled
cancel_from _ = refused invalid_state

unfoldable pub open_from : EscrowState → TransitionResult
open_from created = moved opened
open_from _ = refused invalid_state

unfoldable pub fund_from : EscrowState → TransitionResult
fund_from opened = moved funded
fund_from _ = refused invalid_state

unfoldable pub release_from : EscrowState → ℤ → ℤ → TransitionResult
release_from funded at expires_at = if leb_ℤ expires_at at then refused expired else moved released
release_from _ at expires_at = refused invalid_state

unfoldable pub refund_from : EscrowState → ℤ → ℤ → TransitionResult
refund_from funded at expires_at = if ltb_ℤ at expires_at then refused too_early else moved refunded
refund_from _ at expires_at = refused invalid_state

-- The guard on the block time that release and refund pass through.
unfoldable pub with_block_time : Option ℤ → (ℤ → TransitionResult) → TransitionResult
with_block_time none next = refused unverified
with_block_time (some at) next = if not (is_safe_integer at) then refused unverified else next at

unfoldable pub act : EscrowAction → EscrowState → Option ℤ → ℤ → TransitionResult
unfolding cancel_from open_from fund_from release_from refund_from with_block_time
act cancel state block_timestamp expires_at = cancel_from state
act open_escrow state block_timestamp expires_at = open_from state
act fund state block_timestamp expires_at = fund_from state
act release state block_timestamp expires_at =
    with_block_time block_timestamp (λ at. release_from state at expires_at)
act refund state block_timestamp expires_at =
    with_block_time block_timestamp (λ at. refund_from state at expires_at)

-- `applyEscrowTransition`.
unfoldable pub apply_escrow_transition :
    EscrowState → EscrowAction → Option ℤ → ℤ → Bool → TransitionResult
unfolding act
apply_escrow_transition state action block_timestamp expires_at log_ok =
    if not log_ok then refused unverified else act action state block_timestamp expires_at
