-- ===== src/Receipts/Shown.antt =====
-- What a verified proof of src/lib/arcProof.ts says of the receipt that it is made from.
use final_arc.Base.{
  ℕ, ◌≡◌, ◌↔◌, inl, inr, refl, sym, ap, subst, and_iff, Bool, true, false, ◌&&◌, Option, none, some,
  List, [], ◌∷◌, is_some, Any, ltb, or_else, Text, big_int, arith, Bool-cases,
}
use final_arc.Base.Int.{ℤ, pos, same_integer}
use final_arc.Receipts.{Viem, usdc_decimals, is_tx_hash}
use final_arc.Receipts.Logs.{
  DecodedMemo, DecodedTransfer, decode_memo_events, decode_before_memos, decode_usdc_transfers,
}
use final_arc.Receipts.Window.{bind_transfer_iff, Bound}
use final_arc.Receipts.Verify.{
  TransactionReceipt, ParsedReceipt, first_bound, shown_pair, parsed_with, parse_memo_receipt,
  bind_in,
}
use final_arc.Receipts.ArcProof.{
  Certificate, same_block, check_certificate, verified_proof, proof_status_of, ArcProofBody, when,
  base_units, assembled, assemble_arc_proof, load_receipt, proof_body, verify_arc_transaction,
}

-- The certificate is of the block's height and hash and lists a signature.
abbrev pub Certifies : Option Certificate → ℕ → Option Text → Type 0
Certifies certificate block_number block_hash =
    (c : Certificate) × (certificate ≡ some c)
    × (c.height ≡ pos block_number)
    × (same_block c.block_hash block_hash ≡ true)
    × (ltb 0 (or_else c.signatures 0) ≡ true)

proof_status_of_iff :
    (succeeded memo_valid settled : Bool) (o : Option Bool)
    → (proof_status_of succeeded memo_valid settled o ≡ verified_proof)
      ↔ ((succeeded ≡ true) × (memo_valid ≡ true) × (settled ≡ true) × (o ≡ some true))
unfolding proof_status_of
proof_status_of_iff succeeded memo_valid settled none = ground arith
proof_status_of_iff succeeded memo_valid settled (some true) = ground arith
proof_status_of_iff succeeded memo_valid settled (some false) = ground arith

same_integer_iff : (a : ℤ) (n : ℕ) → (same_integer a (pos n) ≡ true) ↔ (a ≡ pos n)
same_integer_iff a n = ground arith

check_certificate_iff :
    (o : Option Certificate) (n : ℕ) (hash : Option Text)
    → (when (is_some o) (check_certificate o n hash).matched ≡ some true) ↔ Certifies o n hash
unfolding check_certificate
check_certificate_iff none n hash = (λ e. absurd (cc), λ p. absurd (cc))
check_certificate_iff (some c) n hash = (
  λ e. (c, refl, ground (arith, same_integer_iff c.height n), ground arith, ground arith),
  λ p. let (d, same, height, block, signed) = p in ground (arith, same_integer_iff c.height n),
)

settled_iff :
    (v : Viem) (settled : Bool) (amount : Text)
    → ((settled && is_some (base_units v (when settled amount))) ≡ true)
      ↔ ((settled ≡ true) × (is_some (base_units v (some amount)) ≡ true))
settled_iff v true amount = (λ e. (refl, e), λ p. p.1)
settled_iff v false amount = (λ e. absurd (cc), λ p. absurd (cc))

-- A proof is verified exactly when the transaction succeeded, a Memo event is valid, the settlement
-- is valid and its amount parses, and there is a certificate of the block's height and hash that
-- lists a signature.
pub assemble_arc_proof_iff :
    (v : Viem) (parsed : ParsedReceipt) (certificate : Option Certificate) (tx_to : Option Text)
    → ((assemble_arc_proof v parsed certificate tx_to).status ≡ verified_proof) ↔ (
        (parsed.transaction_succeeded ≡ true)
        × (parsed.memo_event_valid ≡ true)
        × (parsed.settlement_valid ≡ true)
        × (is_some (base_units v (some parsed.amount)) ≡ true)
        × Certifies certificate (big_int parsed.block_number) parsed.block_hash)
unfolding assemble_arc_proof assembled
assemble_arc_proof_iff v parsed certificate tx_to =
    let number = big_int parsed.block_number in
    let matched =
      when (is_some certificate) (check_certificate certificate number parsed.block_hash).matched in
    let amount = when parsed.settlement_valid parsed.amount in
    let status =
      proof_status_of_iff parsed.transaction_succeeded parsed.memo_event_valid
        (parsed.settlement_valid && is_some (base_units v amount)) matched in
    let settled = settled_iff v parsed.settlement_valid parsed.amount in
    let certified = check_certificate_iff certificate number parsed.block_hash in
    (
      λ e.
          let (succeeded, memo, valid, certificate_valid) = status.0 e in
          let (settlement, units) = settled.0 valid in
          (succeeded, memo, settlement, units, certified.0 certificate_valid),
      λ p.
          let (succeeded, memo, settlement, units, certificates) = p in
          status.1 (succeeded, memo, settled.1 (settlement, units), certified.1 certificates),
    )

first_bound_sound :
    (bind : DecodedMemo → Option DecodedTransfer) (ms : List DecodedMemo) (m : DecodedMemo)
    (t : DecodedTransfer)
    → first_bound bind ms ≡ some (m, t)
    → Any (λ n. n ≡ m) ms × (bind m ≡ some t)
unfolding first_bound
first_bound_sound bind [] m t e = absurd (cc)
first_bound_sound bind (n ∷ ms) m t e = from (first_bound_sound bind ms m t) (bind n) refl e
  where
    from :
        (first_bound bind ms ≡ some (m, t) → Any (λ k. k ≡ m) ms × (bind m ≡ some t))
        → (o : Option DecodedTransfer) → bind n ≡ o
        → ◌≡◌ {A = Option (DecodedMemo × DecodedTransfer)}
            (elim o [ none ↦ first_bound bind ms | some u ↦ some (n, u) ])
            (some (m, t))
        → Any (λ k. k ≡ m) (n ∷ ms) × (bind m ≡ some t)
    from later none b found = let rest = later found in (inr rest.0, rest.1)
    from later (some u) b found =
        let same : n ≡ m = cc in let taken : u ≡ t = cc in (inl same, rw (sym same, b, taken) refl)

shown_pair-some :
    (o : Option (DecodedMemo × DecodedTransfer)) (ms : List DecodedMemo)
    → is_some (shown_pair o ms).1 ≡ true
    → (m : DecodedMemo) × (t : DecodedTransfer) × (o ≡ some (m, t))
unfolding shown_pair
shown_pair-some none ms h = absurd (cc)
shown_pair-some (some (m, t)) ms h = (m, t, refl)

-- What a proof shows of the memo and the transfer that its receipt holds.
abbrev pub Shows : Viem → TransactionReceipt → Option Certificate → ArcProofBody → Type 0
Shows v receipt certificate body =
    (receipt.succeeded ≡ true)
    × ((memo : DecodedMemo) × (t : DecodedTransfer) × Any (λ m. m ≡ memo)
          (decode_memo_events v receipt.logs)
        × Bound v memo (decode_before_memos v receipt.logs) (decode_usdc_transfers v receipt.logs) t
        × (body.memo.memo_id ≡ some memo.memo_id)
        × (body.memo.sender ≡ some memo.sender)
        × (body.settlement.to ≡ some t.to)
        × (body.settlement.amount_base_units
            ≡ base_units v (some (v.format_units t.value usdc_decimals)))
        × Certifies certificate (big_int (v.decimal receipt.block_number)) receipt.block_hash)

module _ (v : Viem) (receipt : TransactionReceipt) (certificate : Option Certificate) where
  Shows-pair :
      (memo : DecodedMemo) (t : DecodedTransfer)
      → receipt.succeeded ≡ true
      → Any (λ m. m ≡ memo) (decode_memo_events v receipt.logs)
      → Bound v memo (decode_before_memos v receipt.logs) (decode_usdc_transfers v receipt.logs) t
      → is_some (base_units v (some (v.format_units t.value usdc_decimals))) ≡ true
      → Certifies certificate (big_int (v.decimal receipt.block_number)) receipt.block_hash
      → Shows v receipt certificate
          (assemble_arc_proof v (parsed_with v receipt (some memo, some t)) certificate receipt.to)
  unfolding assemble_arc_proof assembled parsed_with
  Shows-pair memo t success found bound units certified =
      rw success (refl, (memo, t, found, bound, refl, refl, ground arith, refl, certified))

  Shows-parsed :
      (assemble_arc_proof v (parse_memo_receipt v receipt) certificate receipt.to).status
        ≡ verified_proof
      → Shows v receipt certificate
          (assemble_arc_proof v (parse_memo_receipt v receipt) certificate receipt.to)
  unfolding parse_memo_receipt parsed_with shown_pair
  Shows-parsed e =
      let memos = decode_memo_events v receipt.logs in
      let befores = decode_before_memos v receipt.logs in
      let transfers = decode_usdc_transfers v receipt.logs in
      let (success, _, settled, units, certified) =
        (assemble_arc_proof_iff v (parse_memo_receipt v receipt) certificate receipt.to).0 e in
      let (memo, t, pair) =
        shown_pair-some (first_bound (bind_in v receipt.logs) memos) memos
          ((and_iff receipt.succeeded _).0 settled).1 in
      let (found, bound) = first_bound_sound (bind_in v receipt.logs) memos memo t pair in
      let same : parse_memo_receipt v receipt ≡ parsed_with v receipt (some memo, some t) =
        ap (λ o. parsed_with v receipt (shown_pair o memos)) pair in
      subst (λ p. Shows v receipt certificate (assemble_arc_proof v p certificate receipt.to))
        (sym same)
        (Shows-pair memo t success found ((bind_transfer_iff v memo befores transfers t).0 bound)
          (subst (λ p. is_some (base_units v (some p.amount)) ≡ true) same units) certified)

-- A verified proof of a receipt shows the memo id and the sender of one of its Memo events, and the
-- recipient and the amount of the one transfer that this event binds; the transaction succeeded,
-- and a certificate of its block's height and hash lists a signature.
pub verify_arc_transaction-Shows :
    (v : Viem) (hash : Text) (receipt : TransactionReceipt) (certificate : Option Certificate)
    (body : ArcProofBody)
    → verify_arc_transaction v hash (some (load_receipt receipt certificate)) ≡ proof_body body
    → body.status ≡ verified_proof
    → (is_tx_hash hash ≡ true) × Shows v receipt certificate body
unfolding verify_arc_transaction
verify_arc_transaction-Shows v hash receipt certificate body e verified =
    elim (Bool-cases (is_tx_hash hash)) [
      | inl valid ↦
          let same : assemble_arc_proof v (parse_memo_receipt v receipt) certificate receipt.to
              ≡ body =
            ground arith in
          (
            valid,
            subst (Shows v receipt certificate) same (
                Shows-parsed v receipt certificate
                  (subst (λ b. b.status ≡ verified_proof) (sym same) verified)),
          )
      | inr other ↦ absurd (ground arith)
    ]
