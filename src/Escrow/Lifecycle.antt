-- ===== src/Escrow/Lifecycle.antt =====
-- The life of an escrow under the transitions of src/lib/escrowTerms.ts.
use final_arc.Base.{◌≡◌, refl, ◌⊎◌, Bool, true, false, Option, none, some, List, [], ◌∷◌, arith}
use final_arc.Base.Int.{ℤ, ◌<ℤ◌, ◌≤ℤ◌, is_safe_integer}
use final_arc.Escrow.{
  EscrowState, created, opened, funded, released, refunded, cancelled, EscrowAction, open_escrow,
  fund, release, refund, cancel, TransitionResult, moved, refused, TransitionCode, act,
  apply_escrow_transition,
}

-- The transitions that the protocol has, for an escrow that expires at a given second.
pub data Edge (expires_at : ℤ) : EscrowState → EscrowAction → Option ℤ → EscrowState → Type 0 where
  opens : {at : Option ℤ} → Edge expires_at created open_escrow at opened
  funds : {at : Option ℤ} → Edge expires_at opened fund at funded
  cancels_created : {at : Option ℤ} → Edge expires_at created cancel at cancelled
  cancels_opened : {at : Option ℤ} → Edge expires_at opened cancel at cancelled
  releases :
      (at : ℤ)
      → is_safe_integer at ≡ true
      → at <ℤ expires_at
      → Edge expires_at funded release (some at) released
  refunds :
      (at : ℤ)
      → is_safe_integer at ≡ true
      → expires_at ≤ℤ at
      → Edge expires_at funded refund (some at) refunded

ruleset edges = (opens, funds, cancels_created, cancels_opened, releases, refunds)

act-Edge :
    (s t : EscrowState) (a : EscrowAction) (at : Option ℤ) (expires_at : ℤ)
    → act a s at expires_at ≡ moved t
    → Edge expires_at s a at t
unfolding act
act-Edge s t cancel at expires_at h = grind (arith, edges)
act-Edge s t open_escrow at expires_at h = grind (arith, edges)
act-Edge s t fund at expires_at h = grind (arith, edges)
act-Edge s t release none expires_at h = absurd (cc)
act-Edge s t release (some b) expires_at h = grind (arith, edges)
act-Edge s t refund none expires_at h = absurd (cc)
act-Edge s t refund (some b) expires_at h = grind (arith, edges)

-- Every transition that the code makes has a verified log, and is an edge of the protocol.
pub apply_escrow_transition-Edge :
    (s t : EscrowState) (a : EscrowAction) (at : Option ℤ) (expires_at : ℤ) (log_ok : Bool)
    → apply_escrow_transition s a at expires_at log_ok ≡ moved t
    → (log_ok ≡ true) × Edge expires_at s a at t
unfolding apply_escrow_transition
apply_escrow_transition-Edge s t a at expires_at true h = (refl, act-Edge s t a at expires_at h)
apply_escrow_transition-Edge s t a at expires_at false h = absurd (cc)

-- And the code makes every transition of the protocol, given a verified log.
pub Edge-apply_escrow_transition :
    (s t : EscrowState) (a : EscrowAction) (at : Option ℤ) (expires_at : ℤ)
    → Edge expires_at s a at t
    → apply_escrow_transition s a at expires_at true ≡ moved t
unfolding apply_escrow_transition
Edge-apply_escrow_transition s t a at expires_at opens = refl
Edge-apply_escrow_transition s t a at expires_at funds = refl
Edge-apply_escrow_transition s t a at expires_at cancels_created = refl
Edge-apply_escrow_transition s t a at expires_at cancels_opened = refl
Edge-apply_escrow_transition s t a at expires_at (releases b safe early) = ground arith
Edge-apply_escrow_transition s t a at expires_at (refunds b safe late) = ground arith

-- One request to change an escrow: the action, the block time of its transaction, if known, and
-- whether its log was verified.
abbrev pub Request : Type 0
Request = EscrowAction × Option ℤ × Bool

abbrev pub after : EscrowState → TransitionResult → EscrowState
after s (moved t) = t
after s (refused code) = s

-- A refused request leaves the state.
unfoldable pub run : ℤ → EscrowState → List Request → EscrowState
run expires_at s [] = s
run expires_at s ((a, at, log_ok) ∷ rs) =
    run expires_at (after s (apply_escrow_transition s a at expires_at log_ok)) rs

abbrev pub IsTerminal : EscrowState → Type 0
IsTerminal released = Unit
IsTerminal refunded = Unit
IsTerminal cancelled = Unit
IsTerminal created = ⊥
IsTerminal opened = ⊥
IsTerminal funded = ⊥

terminal_step :
    (s : EscrowState) (a : EscrowAction) (at : Option ℤ) (expires_at : ℤ) (log_ok : Bool)
    → IsTerminal s
    → after s (apply_escrow_transition s a at expires_at log_ok) ≡ s
unfolding apply_escrow_transition
terminal_step released a at expires_at log_ok h = ground arith
terminal_step refunded a at expires_at log_ok h = ground arith
terminal_step cancelled a at expires_at log_ok h = ground arith
terminal_step created a at expires_at log_ok h = absurd h
terminal_step opened a at expires_at log_ok h = absurd h
terminal_step funded a at expires_at log_ok h = absurd h

-- A released, refunded or cancelled escrow is final: no sequence of requests changes it, so the
-- escrowed amount leaves at most once.
pub run_of_IsTerminal :
    (expires_at : ℤ) (s : EscrowState) (rs : List Request) → IsTerminal s → run expires_at s rs ≡ s
unfolding run
run_of_IsTerminal expires_at s [] h = refl
run_of_IsTerminal expires_at s ((a, at, log_ok) ∷ rs) h =
    rw (terminal_step s a at expires_at log_ok h) (run_of_IsTerminal expires_at s rs h)

-- At each safe block time a funded escrow, with verified logs, can be released or refunded and
-- never both: released before the expiry, refunded at it and after.
pub release_xor_refund :
    (at expires_at : ℤ)
    → is_safe_integer at ≡ true
    → ((at <ℤ expires_at)
        × (apply_escrow_transition funded release (some at) expires_at true ≡ moved released)
        × (apply_escrow_transition funded refund (some at) expires_at true
            ≡ refused TransitionCode.too_early))
      ⊎ ((expires_at ≤ℤ at)
          × (apply_escrow_transition funded release (some at) expires_at true
              ≡ refused TransitionCode.expired)
          × (apply_escrow_transition funded refund (some at) expires_at true ≡ moved refunded))
unfolding apply_escrow_transition
release_xor_refund at expires_at safe = ground arith
