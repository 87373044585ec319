-- ===== src/Agents/Proof.antt =====
-- `bindProof` and what follows a proof in `submitAgentPaymentIntent` (src/lib/agentPayments.ts).
use final_arc.Base.{
  Bool, true, false, not, ◌&&◌, ◌==◌, Option, none, some, if◌then◌else◌, is_empty, or_else, Text,
  codes, text_eq,
}
use final_arc.Base.Int.{ℤ, leb_ℤ}
use final_arc.Ledger.{IntentStatus, submitted, verified, failed}
use final_arc.Payments.{same_id}
use final_arc.Receipts.{Viem, FinalRequest, usdc_address, memo_address, derive_memo_id}
use final_arc.Receipts.ArcProof.{
  ArcProofStatus, verified_proof, partial_proof, invalid_proof, ArcProofBody, ArcProofResult,
  invalid_format, no_such_hash, no_reply, proof_body,
}
use final_arc.Agents.{AgentBinding, AgentProofStatus, checked, hash_not_found, hash_unavailable}

abbrev pub unbound : Text → AgentBinding
unbound why = record { bound_to_intent = false; reason = some why }

abbrev pub bound : AgentBinding
bound = record { bound_to_intent = true; reason = none }

-- `value && sameHex(value, other)`.
abbrev pub matches_hex : Option Text → Text → Bool
matches_hex none other = false
matches_hex (some value) other = not (is_empty value) && same_id value other

-- `value === other` on a value that may be null.
abbrev pub is_text : Option Text → Text → Bool
is_text none other = false
is_text (some value) other = text_eq value other

-- The last guards of `bindProof`, on the time of the block.
unfoldable pub bind_time : (expires_at : ℤ) → Option ℤ → AgentBinding
bind_time expires_at none = unbound (codes "block_time")
bind_time expires_at (some at) = if leb_ℤ expires_at at then unbound (codes "expired") else bound

-- `bindProof` from the memo on, for the memo id of the request.
unfoldable pub bind_memo :
    ArcProofBody → (expires_at : ℤ) → Option ℤ → Option Text → Option AgentBinding
unfolding bind_time same_id
bind_memo proof expires_at at none = none
bind_memo proof expires_at at (some memo_id) =
    if not (proof.memo.valid && matches_hex proof.memo.memo_id memo_id)
    then some (unbound (codes "memo"))
    else (if not (matches_hex proof.memo.contract memo_address)
        then some (unbound (codes "memo"))
        else some (bind_time expires_at at))

abbrev pub is_proved : ArcProofStatus → Bool
is_proved verified_proof = true
is_proved partial_proof = false
is_proved invalid_proof = false

abbrev pub unproved_reason : ArcProofStatus → Text
unproved_reason partial_proof = codes "partial"
unproved_reason verified_proof = codes "invalid"
unproved_reason invalid_proof = codes "invalid"

module _ (v : Viem) where
  -- `bindProof`; none where `deriveMemoId` throws.
  unfoldable pub bind_proof : ArcProofBody → FinalRequest → Option ℤ → Option AgentBinding
  unfolding bind_memo same_id text_eq derive_memo_id
  bind_proof proof request at =
      if not (is_proved proof.status)
      then some (unbound (unproved_reason proof.status))
      else (if not proof.transaction.success
          then some (unbound (codes "reverted"))
          else (if not (proof.chain_id == 5042)
              then some (unbound (codes "chain"))
              else (if not
                    (proof.settlement.valid && matches_hex proof.settlement.token usdc_address)
                  then some (unbound (codes "token"))
                  else (if not (matches_hex proof.settlement.to request.recipient)
                      then some (unbound (codes "recipient"))
                      else (if not (
                            is_text proof.settlement.amount_base_units
                              (v.decimal request.amount_base_units))
                          then some (unbound (codes "amount"))
                          else bind_memo proof request.expires_at at
                              (derive_memo_id v request.request_id))))))

-- `proofFailureReason`.
unfoldable pub proof_failure_reason : ArcProofBody → AgentBinding → Text
proof_failure_reason proof binding =
    if not proof.transaction.success
    then codes "reverted"
    else (if not proof.memo.valid
        then codes "memo"
        else (if not proof.settlement.valid
            then codes "settlement"
            else or_else binding.reason (codes "invalid")))

-- What `submitAgentPaymentIntent` makes of the answer of `deps.verify`.
pub record Judgement : Type 0 where
  pub proof_status : AgentProofStatus
  pub proof : Option ArcProofBody
  pub binding : AgentBinding
  pub next_status : IntentStatus
  pub failure_reason : Option Text

pub data Judged : Type 0 where
  judged : Judgement → Judged
  bad_hash : Judged
  threw : Judged

abbrev pub without_proof : AgentProofStatus → Text → Judgement
without_proof status why = record {
  proof_status = status;
  proof = none;
  binding = unbound why;
  next_status = submitted;
  failure_reason = none;
}

abbrev pub is_partial : ArcProofStatus → Bool
is_partial partial_proof = true
is_partial verified_proof = false
is_partial invalid_proof = false

-- The branches on a proof that was read, by its binding.
unfoldable pub judge_body : ArcProofBody → Option AgentBinding → Judged
unfolding proof_failure_reason
judge_body proof none = threw
judge_body proof (some binding) =
    if binding.bound_to_intent && is_proved proof.status
    then judged (record {
      proof_status = checked proof.status;
      proof = some proof;
      binding = binding;
      next_status = verified;
      failure_reason = none;
    })
    else (if is_partial proof.status
        then judged (record {
          proof_status = checked proof.status;
          proof = some proof;
          binding = binding;
          next_status = submitted;
          failure_reason = none;
        })
        else judged (record {
          proof_status = checked proof.status;
          proof = some proof;
          binding = unbound (proof_failure_reason proof binding);
          next_status = failed;
          failure_reason = some (proof_failure_reason proof binding);
        }))

unfoldable pub judge_result : Viem → ArcProofResult → FinalRequest → Option ℤ → Judged
unfolding judge_body bind_proof
judge_result v invalid_format request at = bad_hash
judge_result v (no_such_hash hash) request at =
    judged (without_proof hash_not_found (codes "not_found"))
judge_result v (no_reply hash) request at =
    judged (without_proof hash_unavailable (codes "unavailable"))
judge_result v (proof_body proof) request at = judge_body proof (bind_proof v proof request at)
