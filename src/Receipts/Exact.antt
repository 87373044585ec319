-- ===== src/Receipts/Exact.antt =====
-- What `verifyReceiptForRequest` (src/lib/receipt.ts) proves of a version 2 request when it says
-- that a receipt settles exactly that request, and what `parseMemoReceipt` shows of it then.
use final_arc.Base.{
  ℕ, ◌≡◌, ◌↔◌, inl, inr, refl, subst, Bool, true, false, Option, none, some, List, [], ◌∷◌, is_some,
  or_else, Text, text_eq_iff, arith, Bool-cases,
}
use final_arc.Base.Int.{pos, ◌<ℤ◌}
use final_arc.Payments.{same_id}
use final_arc.Receipts.{
  Viem, Log, FinalRequest, usdc_address, derive_memo_id, validate_final_request,
  recover_final_request_signer,
}
use final_arc.Receipts.Logs.{
  DecodedMemo, DecodedTransfer, decode_memo_events, decode_before_memos, decode_usdc_transfers,
}
use final_arc.Receipts.Window.{bind_transfer_iff, Bound, same_id_iff}
use final_arc.Receipts.Verify.{
  TransactionReceipt, ReceiptVerification, v2_request, ReceiptObservation, first_bound, find_memo,
  judge_memo, judge_match, match_memo_settlement, bind_in, check_signer, check_observed, judge_v2,
  verify_v2_fields, verify_receipt_for_request, parse_memo_receipt, parsed_with, shown_pair,
  not_settled, empty_verification, reject,
}

-- `exactForRequest` of a verification that did not throw.
abbrev pub is_exact : Option ReceiptVerification → Bool
is_exact none = false
is_exact (some judged) = judged.exact_for_request

judge_memo_iff :
    (memo : DecodedMemo) (o : Option DecodedTransfer) (recipient : Text) (amount : ℕ)
    → ((judge_memo memo o recipient (pos amount)).exact_for_request ≡ true) ↔ (
        (same_id memo.target usdc_address ≡ true)
        × ((t : DecodedTransfer) × (o ≡ some t) × (t.to ≡ recipient) × (t.value ≡ amount)))
unfolding judge_memo not_settled
judge_memo_iff memo none recipient amount = (λ e. absurd (cc), λ p. absurd (cc))
judge_memo_iff memo (some t) recipient amount = (
  λ e. (ground arith, (t, refl, ground (arith, text_eq_iff t.to recipient), ground arith)),
  λ p. let (calls, (u, found, to, value)) = p in ground (arith, text_eq_iff t.to recipient),
)

-- The memo with an id, and the transfer of its window, are the ones that a payment asks for.
abbrev pub Settles : Viem → List Log → Text → (recipient : Text) → (amount : ℕ) → Type 0
Settles v logs memo_id recipient amount =
    (memo : DecodedMemo) × (t : DecodedTransfer) × (find_memo memo_id (decode_memo_events v logs)
      ≡ some memo)
    × Bound v memo (decode_before_memos v logs) (decode_usdc_transfers v logs) t
    × (t.to ≡ recipient)
    × (t.value ≡ amount)

-- The guards of `verifyV2` that are not about the logs.
abbrev pub Observed :
    Viem → (fields request : FinalRequest) → Option Bool → Option ReceiptObservation → Type 0
Observed v fields request cancelled seen =
    (or_else cancelled false ≡ false)
    × ((o : ReceiptObservation) × (seen ≡ some o)
        × (o.chain_id ≡ 5042)
        × (recover_final_request_signer v request ≡ some fields.merchant)
        × (o.block_timestamp <ℤ fields.expires_at))

check_signer_iff :
    (v : Viem) (fields : FinalRequest) (o : ReceiptObservation) (judged : ReceiptVerification)
    (signer : Option Text)
    → ((check_signer v fields o judged signer).exact_for_request ≡ true) ↔ (
        (judged.exact_for_request ≡ true)
        × (signer ≡ some fields.merchant)
        × (o.block_timestamp <ℤ fields.expires_at))
unfolding check_signer reject
check_signer_iff v fields o judged none = ground arith
check_signer_iff v fields o judged (some signer) =
    ground (arith, text_eq_iff signer fields.merchant)

module _ (v : Viem) where
  judge_found :
      (logs : List Log) (memo_id : Text) (o : Option DecodedMemo) (recipient : Text) (amount : ℕ)
      → ((judge_match
            (elim o [ none ↦ (none, none) | some memo ↦ (some memo, bind_in v logs memo) ])
            recipient
            (pos amount)).exact_for_request
          ≡ true)
        ↔ ((memo : DecodedMemo) × (t : DecodedTransfer) × (o ≡ some memo)
            × Bound v memo (decode_before_memos v logs) (decode_usdc_transfers v logs) t
            × (t.to ≡ recipient)
            × (t.value ≡ amount))
  unfolding judge_match empty_verification
  judge_found logs memo_id none recipient amount = (λ e. absurd (cc), λ p. absurd (cc))
  judge_found logs memo_id (some memo) recipient amount = (
    λ e.
        let (calls, (t, found, to, value)) =
          (judge_memo_iff memo (bind_in v logs memo) recipient amount).0 e in
        (
          memo,
          t,
          refl,
          (bind_transfer_iff v memo (decode_before_memos v logs) (decode_usdc_transfers v logs) t).0
              found,
          to,
          value,
        ),
    λ p.
        let (m, t, same, bound, to, value) = p in
        let same_memo : m ≡ memo = cc in
        let b : Bound v memo (decode_before_memos v logs) (decode_usdc_transfers v logs) t =
          subst (λ x. Bound v x (decode_before_memos v logs) (decode_usdc_transfers v logs) t)
            same_memo bound in
        (judge_memo_iff memo (bind_in v logs memo) recipient amount).1 (
          (same_id_iff memo.target usdc_address).1 b.0,
          (
            t,
            (bind_transfer_iff v memo (decode_before_memos v logs) (decode_usdc_transfers v logs)
                  t).1
                b,
            to,
            value,
          ),
        ),
  )

  Settles-match :
      (logs : List Log) (memo_id recipient : Text) (amount : ℕ)
      → ((judge_match
            (match_memo_settlement v logs memo_id)
            recipient
            (pos amount)).exact_for_request
          ≡ true)
        ↔ Settles v logs memo_id recipient amount
  unfolding match_memo_settlement
  Settles-match logs memo_id recipient amount =
      judge_found logs memo_id (find_memo memo_id (decode_memo_events v logs)) recipient amount

  check_observed_iff :
      (fields request : FinalRequest) (cancelled : Option Bool) (seen : Option ReceiptObservation)
      (judged : ReceiptVerification)
      → ((check_observed v fields request cancelled seen judged).exact_for_request ≡ true)
        ↔ ((judged.exact_for_request ≡ true) × Observed v fields request cancelled seen)
  unfolding check_observed reject
  check_observed_iff fields request cancelled none judged =
      (λ e. absurd (ground arith), λ p. absurd (cc))
  check_observed_iff fields request cancelled (some o) judged = (
    λ e.
        let signer = check_signer_iff v fields o judged (recover_final_request_signer v request) in
        (
          ground (arith, signer),
          (ground arith, (o, refl, ground arith, ground (arith, signer), ground (arith, signer))),
        ),
    λ p.
        let (exact, (fresh, (seen_o, same, chain, signed, early))) = p in
        ground (arith, check_signer_iff v fields o judged (recover_final_request_signer v request)),
  )

-- What makes a receipt the settlement of a version 2 request.
abbrev pub SettlesRequest :
    Viem → TransactionReceipt → FinalRequest → Option Bool → Option ReceiptObservation → Type 0
SettlesRequest v receipt request cancelled seen =
    (receipt.succeeded ≡ true)
    × ((fields : FinalRequest) × (memo_id : Text) × (validate_final_request v request ≡ some fields)
        × (derive_memo_id v fields.request_id ≡ some memo_id)
        × Settles v receipt.logs memo_id fields.recipient fields.amount_base_units
        × Observed v fields request cancelled seen)

module _ (v : Viem) (logs : List Log) (request : FinalRequest) (cancelled : Option Bool)
    (seen : Option ReceiptObservation) where
  judge_v2_iff :
      (fields : FinalRequest) (o : Option Text)
      → (is_exact (judge_v2 v logs request cancelled seen fields o) ≡ true) ↔ (
          (memo_id : Text) × (o ≡ some memo_id)
          × Settles v logs memo_id fields.recipient fields.amount_base_units
          × Observed v fields request cancelled seen)
  unfolding judge_v2
  judge_v2_iff fields none = (λ e. absurd (cc), λ p. absurd (cc))
  judge_v2_iff fields (some memo_id) =
      let judged =
        judge_match (match_memo_settlement v logs memo_id) fields.recipient
          (pos fields.amount_base_units) in
      let guards = check_observed_iff v fields request cancelled seen judged in
      let settles = Settles-match v logs memo_id fields.recipient fields.amount_base_units in
      (
        λ e. (memo_id, refl, settles.0 (guards.0 e).0, (guards.0 e).1),
        λ p.
            let (id, same, settled, observed) = p in
            guards.1 (
              settles.1 (
                  subst (λ x. Settles v logs x fields.recipient fields.amount_base_units) (cc)
                    settled),
              observed,
            ),
      )

  verify_v2_fields_iff :
      (o : Option FinalRequest)
      → (is_exact (verify_v2_fields v logs request cancelled seen o) ≡ true) ↔ (
          (fields : FinalRequest) × (memo_id : Text) × (o ≡ some fields)
          × (derive_memo_id v fields.request_id ≡ some memo_id)
          × Settles v logs memo_id fields.recipient fields.amount_base_units
          × Observed v fields request cancelled seen)
  unfolding verify_v2_fields empty_verification
  verify_v2_fields_iff none = (λ e. absurd (cc), λ p. absurd (cc))
  verify_v2_fields_iff (some fields) = (
    λ e.
        let (memo_id, derived, settled, observed) =
          (judge_v2_iff fields (derive_memo_id v fields.request_id)).0 e in
        (fields, memo_id, refl, derived, settled, observed),
    λ p.
        let (found, memo_id, same, derived, settled, observed) = p in
        let fields_eq : found ≡ fields = cc in
        (judge_v2_iff fields (derive_memo_id v fields.request_id)).1 (
          subst
            (λ x.
              (id : Text) × (derive_memo_id v x.request_id ≡ some id)
              × Settles v logs id x.recipient x.amount_base_units
              × Observed v x request cancelled seen)
            fields_eq (memo_id, derived, settled, observed)),
  )

-- A receipt is exact for a version 2 request exactly when the transaction succeeded, the request is
-- valid and not cancelled, the first Memo event with the request's memo id binds a transfer to its
-- recipient of its amount, the observation is of the Arc chain and before the request's expiry,
-- and the request's signature recovers to its merchant.
pub verify_receipt_for_request_iff :
    (v : Viem) (receipt : TransactionReceipt) (request : FinalRequest) (cancelled : Option Bool)
    (seen : Option ReceiptObservation)
    → (is_exact (verify_receipt_for_request v receipt (v2_request request cancelled) seen) ≡ true)
      ↔ SettlesRequest v receipt request cancelled seen
unfolding verify_receipt_for_request
verify_receipt_for_request_iff v receipt request cancelled seen =
    elim (Bool-cases receipt.succeeded) [
      | inl success ↦ rw success (
        λ e. (
          refl,
          (verify_v2_fields_iff v receipt.logs request cancelled seen
                (validate_final_request v request)).0
              e,
        ),
        λ p.
            (verify_v2_fields_iff v receipt.logs request cancelled seen
                (validate_final_request v request)).1
              p.1,
      )
      | inr reverted ↦ rw reverted (λ e. absurd (cc), λ p. absurd (cc))
    ]

first_bound-found :
    (bind : DecodedMemo → Option DecodedTransfer) (id : Text) (m : DecodedMemo)
    (t : DecodedTransfer) (ms : List DecodedMemo)
    → find_memo id ms ≡ some m
    → bind m ≡ some t
    → is_some (first_bound bind ms) ≡ true
unfolding find_memo first_bound
first_bound-found bind id m t [] e b = absurd (cc)
first_bound-found bind id m t (n ∷ ms) e b = ground (arith, first_bound-found bind id m t ms)

shown_pair-bound :
    (o : Option (DecodedMemo × DecodedTransfer)) (ms : List DecodedMemo)
    → is_some o ≡ true
    → (is_some (shown_pair o ms).0 ≡ true) × (is_some (shown_pair o ms).1 ≡ true)
unfolding shown_pair
shown_pair-bound none ms h = absurd (cc)
shown_pair-bound (some (m, t)) ms h = (refl, refl)

-- When a receipt is exact for a version 2 request, the receipt page shows a valid Memo event and a
-- valid settlement.
pub parse_memo_receipt-agrees :
    (v : Viem) (receipt : TransactionReceipt) (request : FinalRequest) (cancelled : Option Bool)
    (seen : Option ReceiptObservation)
    → is_exact (verify_receipt_for_request v receipt (v2_request request cancelled) seen) ≡ true
    → ((parse_memo_receipt v receipt).memo_event_valid ≡ true)
      × ((parse_memo_receipt v receipt).settlement_valid ≡ true)
unfolding parse_memo_receipt parsed_with
parse_memo_receipt-agrees v receipt request cancelled seen e =
    let (success, (fields, id, _, _, settled, _)) =
      (verify_receipt_for_request_iff v receipt request cancelled seen).0 e in
    let (memo, t, found, bound, _, _) = settled in
    let memos = decode_memo_events v receipt.logs in
    let befores = decode_before_memos v receipt.logs in
    let transfers = decode_usdc_transfers v receipt.logs in
    let some_bound =
      first_bound-found (bind_in v receipt.logs) id memo t memos found
        ((bind_transfer_iff v memo befores transfers t).1 bound) in
    let pair = shown_pair-bound (first_bound (bind_in v receipt.logs) memos) memos some_bound in
    (pair.0, rw (success, pair.1) refl)
