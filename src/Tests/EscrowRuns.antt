-- ===== src/Tests/EscrowRuns.antt =====
-- Escrows (src/lib/escrowTerms.ts) that expire at second 1000.
use final_arc.Base.{to_lower_case}
use final_arc.Base.{text_eq}
use final_arc.Base.{◌≡◌, ◌⊎◌, refl, Bool, true, Option, none, some, List, [], ◌∷◌, codes}
use final_arc.Base.Int.{pos, ◌<ℤ◌, ◌≤ℤ◌, is_safe_integer}
use final_arc.Escrow.{
  created, funded, released, refunded, open_escrow, fund, release, refund, moved, refused,
  TransitionCode, apply_escrow_transition,
}
use final_arc.Escrow.Lifecycle.{
  Edge, run, Request, apply_escrow_transition-Edge, release_xor_refund,
}
use final_arc.Escrow.Events.{
  EscrowLog, Decoded, was_funded, MatchInput, escrow_funded, ambiguous, match_escrow_event,
}
use final_arc.Tests.Samples.{plain_addresses}

abbrev deal : List Request
deal =
    (open_escrow, none, true)
    ∷ (fund, none, true)
    ∷ (refund, some (pos 999), true)
    ∷ (release, some (pos 999), true)
    ∷ []

deal_released : run (pos 1000) created deal ≡ released
unfolding run apply_escrow_transition is_safe_integer
deal_released = refl

apply_escrow_transition-Edge_example :
    ◌≡◌ {A = Bool} true true × Edge (pos 1000) funded release (some (pos 999)) released
unfolding apply_escrow_transition is_safe_integer
apply_escrow_transition-Edge_example =
    apply_escrow_transition-Edge funded released release (some (pos 999)) (pos 1000) true refl

release_xor_refund_example :
    ((pos 1000 <ℤ pos 1000)
      × (apply_escrow_transition funded release (some (pos 1000)) (pos 1000) true ≡ moved released)
      × (apply_escrow_transition funded refund (some (pos 1000)) (pos 1000) true
          ≡ refused TransitionCode.too_early))
    ⊎ ((pos 1000 ≤ℤ pos 1000)
        × (apply_escrow_transition funded release (some (pos 1000)) (pos 1000) true
            ≡ refused TransitionCode.expired)
        × (apply_escrow_transition funded refund (some (pos 1000)) (pos 1000) true
            ≡ moved refunded))
unfolding is_safe_integer
release_xor_refund_example = release_xor_refund (pos 1000) (pos 1000) refl

funded_log : EscrowLog
funded_log = record { address = codes "0xE"; topics = codes "t" ∷ []; payload = [] }

-- Every log decodes to the funding of escrow 0x1 by 0xp with 400.
abbrev decode : EscrowLog → Option Decoded
decode log = some (was_funded (codes "0x1") (codes "0xp") 400)

abbrev funding : MatchInput
funding = record {
  evidence = record { succeeded = true; logs = funded_log ∷ funded_log ∷ [] };
  contract_address = codes "0xe";
  event_name = escrow_funded;
  escrow_id = codes "0x1";
  amount = some 400;
  party = some (codes "0xp");
  payer = none;
  recipient = none;
  creator = none;
  expires_at = none;
}

two_fundings : match_escrow_event plain_addresses decode funding ≡ ambiguous
unfolding match_escrow_event funded_log text_eq to_lower_case
two_fundings = refl
