-- ===== src/Agents/Binding.antt =====
-- Which proofs `bindProof` (src/lib/agentPayments.ts) binds to an intent, and which submissions become
-- verified by one.
use final_arc.Base.{
  ◌≡◌, ◌↔◌, refl, sym, subst, Bool, true, false, not, ◌&&◌, ◌==◌, ==_iff, and_iff, Option, none,
  some, if◌then◌else◌, Text, codes, text_eq_iff, arith,
}
use final_arc.Base.Int.{ℤ, ◌<ℤ◌}
use final_arc.Ledger.{verified}
use final_arc.Receipts.{Viem, FinalRequest, usdc_address, memo_address, derive_memo_id}
use final_arc.Receipts.ArcProof.{
  ArcProofStatus, verified_proof, partial_proof, invalid_proof, ArcProofBody, ArcProofResult,
  invalid_format, no_such_hash, no_reply, proof_body,
}
use final_arc.Agents.{AgentBinding}
use final_arc.Agents.Proof.{
  unbound, matches_hex, is_text, bind_time, bind_memo, is_proved, unproved_reason, bind_proof,
  judge_body, judge_result, Judgement, judged,
}

abbrev pub is_bound : Option AgentBinding → Bool
is_bound none = false
is_bound (some binding) = binding.bound_to_intent

-- The terms of a request that a proof must show.
abbrev pub Binds : Viem → ArcProofBody → FinalRequest → Option ℤ → Type 0
Binds v proof request at =
    (proof.status ≡ verified_proof)
    × (proof.transaction.success ≡ true)
    × (proof.chain_id ≡ 5042)
    × (proof.settlement.valid ≡ true)
    × (matches_hex proof.settlement.token usdc_address ≡ true)
    × (matches_hex proof.settlement.to request.recipient ≡ true)
    × (proof.settlement.amount_base_units ≡ some (v.decimal request.amount_base_units))
    × (proof.memo.valid ≡ true)
    × ((memo_id : Text) × (derive_memo_id v request.request_id ≡ some memo_id)
        × (matches_hex proof.memo.memo_id memo_id ≡ true))
    × (matches_hex proof.memo.contract memo_address ≡ true)
    × ((seen : ℤ) × (at ≡ some seen) × (seen <ℤ request.expires_at))

bind_time_iff :
    (expires_at : ℤ) (o : Option ℤ)
    → ((bind_time expires_at o).bound_to_intent ≡ true)
      ↔ ((seen : ℤ) × (o ≡ some seen) × (seen <ℤ expires_at))
unfolding bind_time
bind_time_iff expires_at none = (λ e. absurd (cc), λ p. absurd (cc))
bind_time_iff expires_at (some at) = (
  λ e. (at, refl, ground arith),
  λ p.
      let (seen, same, early) = p in
      let at_eq : at ≡ seen = cc in
      let at_early : at <ℤ expires_at = subst (λ x. x <ℤ expires_at) (sym at_eq) early in
      ground arith,
)

guard-bound :
    (b : Bool) (why : Text) (rest : Option AgentBinding)
    → (is_bound (if not b then some (unbound why) else rest) ≡ true)
      ↔ ((b ≡ true) × (is_bound rest ≡ true))
guard-bound true why rest = (λ e. (refl, e), λ p. p.1)
guard-bound false why rest = (λ e. absurd (cc), λ p. absurd (cc))

bind_memo_iff :
    (proof : ArcProofBody) (expires_at : ℤ) (at : Option ℤ) (o : Option Text)
    → (is_bound (bind_memo proof expires_at at o) ≡ true) ↔ (
        (proof.memo.valid ≡ true)
        × ((memo_id : Text) × (o ≡ some memo_id) × (matches_hex proof.memo.memo_id memo_id ≡ true))
        × (matches_hex proof.memo.contract memo_address ≡ true)
        × ((seen : ℤ) × (at ≡ some seen) × (seen <ℤ expires_at)))
unfolding bind_memo
bind_memo_iff proof expires_at at none = (λ e. absurd (cc), λ p. absurd (cc))
bind_memo_iff proof expires_at at (some id) =
    let contract =
      guard-bound (matches_hex proof.memo.contract memo_address) (codes "memo")
        (some (bind_time expires_at at)) in
    let memo = guard-bound (proof.memo.valid && matches_hex proof.memo.memo_id id) (codes "memo") (
      if not (matches_hex proof.memo.contract memo_address)
      then some (unbound (codes "memo"))
      else some (bind_time expires_at at)) in
    let both = and_iff proof.memo.valid (matches_hex proof.memo.memo_id id) in
    (
      λ e.
          let (memo_ok, rest) = memo.0 e in
          let (contract_ok, time_ok) = contract.0 rest in
          (
            (both.0 memo_ok).0,
            (id, refl, (both.0 memo_ok).1),
            contract_ok,
            (bind_time_iff expires_at at).0 time_ok,
          ),
      λ p.
          let (valid, (memo_id, same, matched), contract_ok, time_ok) = p in
          let id_eq : memo_id ≡ id = cc in
          memo.1 (
            both.1 (valid, subst (λ x. matches_hex proof.memo.memo_id x ≡ true) id_eq matched),
            contract.1 (contract_ok, (bind_time_iff expires_at at).1 time_ok),
          ),
    )

is_text_iff : (o : Option Text) (t : Text) → (is_text o t ≡ true) ↔ (o ≡ some t)
is_text_iff none t = ground arith
is_text_iff (some s) t = ground (arith, text_eq_iff s t)

is_proved_iff : (s : ArcProofStatus) → (is_proved s ≡ true) ↔ (s ≡ verified_proof)
is_proved_iff verified_proof = ground arith
is_proved_iff partial_proof = ground arith
is_proved_iff invalid_proof = ground arith

guards-bound :
    (a b c d e f : Bool) (w1 w2 w3 w4 w5 w6 : Text) (rest : Option AgentBinding)
    → (is_bound (
          if not a
          then some (unbound w1)
          else (if not b
              then some (unbound w2)
              else (if not c
                  then some (unbound w3)
                  else (if not d
                      then some (unbound w4)
                      else (if not e
                          then some (unbound w5)
                          else (if not f then some (unbound w6) else rest))))))
        ≡ true)
      ↔ ((a ≡ true)
          × (b ≡ true)
          × (c ≡ true)
          × (d ≡ true)
          × (e ≡ true)
          × (f ≡ true)
          × (is_bound rest ≡ true))
guards-bound a b c d e f w1 w2 w3 w4 w5 w6 rest = ground arith

-- A proof is bound to an intent exactly when it is verified and its transaction succeeded on the Arc
-- chain, its settlement is of the token, to the request's recipient and of its amount, its memo is
-- of the Memo contract and of the request's memo id, and its block is before the request's expiry.
pub bind_proof_iff :
    (v : Viem) (proof : ArcProofBody) (request : FinalRequest) (at : Option ℤ)
    → (is_bound (bind_proof v proof request at) ≡ true) ↔ Binds v proof request at
unfolding bind_proof
bind_proof_iff v proof request at =
    let guards =
      guards-bound (is_proved proof.status) proof.transaction.success (proof.chain_id == 5042)
        (proof.settlement.valid && matches_hex proof.settlement.token usdc_address)
        (matches_hex proof.settlement.to request.recipient)
        (is_text proof.settlement.amount_base_units (v.decimal request.amount_base_units))
        (unproved_reason proof.status) (codes "reverted") (codes "chain") (codes "token")
        (codes "recipient") (codes "amount")
        (bind_memo proof request.expires_at at (derive_memo_id v request.request_id)) in
    let proved = is_proved_iff proof.status in
    let chain = ==_iff proof.chain_id 5042 in
    let token = and_iff proof.settlement.valid (matches_hex proof.settlement.token usdc_address) in
    let amount =
      is_text_iff proof.settlement.amount_base_units (v.decimal request.amount_base_units) in
    let memo = bind_memo_iff proof request.expires_at at (derive_memo_id v request.request_id) in
    (
      λ e.
          let (p, success, c, t, to, a, rest) = guards.0 e in
          let (memo_valid, id, contract, time) = memo.0 rest in
          (
            proved.0 p,
            success,
            chain.0 c,
            (token.0 t).0,
            (token.0 t).1,
            to,
            amount.0 a,
            memo_valid,
            id,
            contract,
            time,
          ),
      λ b.
          let (p, success, c, valid, t, to, a, memo_valid, id, contract, time) = b in
          guards.1 (
            proved.1 p,
            success,
            chain.1 c,
            token.1 (valid, t),
            to,
            amount.1 a,
            memo.1 (memo_valid, id, contract, time),
          ),
    )

judge_body-verified :
    (proof : ArcProofBody) (o : Option AgentBinding) (j : Judgement)
    → judge_body proof o ≡ judged j
    → j.next_status ≡ verified
    → is_bound o ≡ true
unfolding judge_body
judge_body-verified proof none j e h = absurd (cc)
judge_body-verified proof (some binding) j e h = ground arith

-- A submission becomes verified only by a proof that was read and that binds the request's terms.
pub judge_result-verified :
    (v : Viem) (result : ArcProofResult) (request : FinalRequest) (at : Option ℤ) (j : Judgement)
    → judge_result v result request at ≡ judged j
    → j.next_status ≡ verified
    → (proof : ArcProofBody) × (result ≡ proof_body proof) × Binds v proof request at
unfolding judge_result
judge_result-verified v invalid_format request at j e h = absurd (cc)
judge_result-verified v (no_such_hash hash) request at j e h = absurd (ground arith)
judge_result-verified v (no_reply hash) request at j e h = absurd (ground arith)
judge_result-verified v (proof_body proof) request at j e h = (
  proof,
  refl,
  (bind_proof_iff v proof request at).0
      (judge_body-verified proof (bind_proof v proof request at) j e h),
)
