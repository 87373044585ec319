-- ===== src/Receipts/Verify.antt =====
-- `parseMemoReceipt` and `verifyReceiptForRequest` of src/lib/receipt.ts.
use final_arc.Base.{
  ℕ, ◌*◌, Bool, true, false, not, ◌&&◌, ◌||◌, ◌==◌, Option, none, some, List, [], ◌∷◌,
  if◌then◌else◌, is_some, or_else, Text, codes, text_eq,
}
use final_arc.Base.Int.{ℤ, pos, leb_ℤ, same_integer}
use final_arc.Payments.{same_id}
use final_arc.Receipts.{
  Viem, Log, FinalRequest, usdc_address, usdc_decimals, derive_memo_id, validate_final_request,
  recover_final_request_signer,
}
use final_arc.Receipts.Logs.{
  DecodedMemo, DecodedTransfer, decode_memo_events, decode_before_memos, decode_usdc_transfers,
}
use final_arc.Receipts.Window.{bind_transfer}

-- The fields of a receipt that the code reads; `succeeded` is `status === "success"`.
pub record TransactionReceipt : Type 0 where
  pub transaction_hash : Text
  pub succeeded : Bool
  pub block_number : ℕ
  pub block_hash : Option Text
  pub from : Text
  pub to : Option Text
  pub logs : List Log
  pub gas_used : ℕ
  pub effective_gas_price : Option ℕ

pub record ParsedReceipt : Type 0 where
  pub tx_hash : Text
  pub is_memo : Bool
  pub transaction_succeeded : Bool
  pub memo_event_valid : Bool
  pub settlement_valid : Bool
  pub block_number : Text
  pub block_hash : Option Text
  pub from : Text
  pub to : Option Text
  pub amount : Text
  pub memo : Option Text
  pub memo_id : Option Text
  pub memo_index : Option Text
  pub sender : Option Text
  pub fee_usdc : Text
  pub gas_used : Text

-- `reason` is none where it is `null`.
pub record ReceiptVerification : Type 0 where
  pub transaction_succeeded : Bool
  pub memo_event_valid : Bool
  pub settlement_valid : Bool
  pub exact_for_request : Bool
  pub reason : Option Text

pub record V1ReceiptRequest : Type 0 where
  pub to : Text
  pub amount : Text
  pub memo : Text

pub data ReceiptRequest : Type 0 where
  v1_request : V1ReceiptRequest → ReceiptRequest
  v2_request : FinalRequest → (cancelled : Option Bool) → ReceiptRequest

pub record ReceiptObservation : Type 0 where
  pub block_timestamp : ℤ
  pub chain_id : ℕ

abbrev pub native_decimals : ℕ
native_decimals = 18

-- `.map(...).find((candidate) => candidate.transfer != null)`.
unfoldable pub first_bound :
    (DecodedMemo → Option DecodedTransfer)
    → List DecodedMemo
    → Option (DecodedMemo × DecodedTransfer)
first_bound bind [] = none
first_bound bind (m ∷ ms) =
    let rest = first_bound bind ms in elim (bind m) [ none ↦ rest | some t ↦ some (m, t) ]

abbrev pub first_memo : List DecodedMemo → Option DecodedMemo
first_memo [] = none
first_memo (m ∷ ms) = some m

-- `bound?.memo ?? memos[0] ?? null` and `bound?.transfer ?? null`.
unfoldable pub shown_pair :
    Option (DecodedMemo × DecodedTransfer)
    → List DecodedMemo
    → Option DecodedMemo × Option DecodedTransfer
shown_pair none memos = (first_memo memos, none)
shown_pair (some (memo, transfer)) memos = (some memo, some transfer)

-- `find((event) => sameHex(event.memoId, memoId))`.
unfoldable pub find_memo : Text → List DecodedMemo → Option DecodedMemo
unfolding same_id
find_memo memo_id [] = none
find_memo memo_id (m ∷ ms) = if same_id m.memo_id memo_id then some m else find_memo memo_id ms

-- `emptyVerification`.
unfoldable pub empty_verification : Bool → Text → ReceiptVerification
empty_verification succeeded reason = record {
  transaction_succeeded = succeeded;
  memo_event_valid = false;
  settlement_valid = false;
  exact_for_request = false;
  reason = some reason;
}

-- A memo without the transfer that the request asks for.
unfoldable pub not_settled : Text → ReceiptVerification
not_settled reason = record {
  transaction_succeeded = true;
  memo_event_valid = true;
  settlement_valid = false;
  exact_for_request = false;
  reason = some reason;
}

-- `reject`.
unfoldable pub reject : ReceiptVerification → Text → ReceiptVerification
reject judged reason = record judged { exact_for_request = false; reason = some reason }

-- `judgeMatch` for a memo, by its transfer.
unfoldable pub judge_memo :
    DecodedMemo → Option DecodedTransfer → (recipient : Text) → (amount : ℤ) → ReceiptVerification
unfolding not_settled same_id text_eq
judge_memo memo none recipient amount =
    not_settled (if same_id memo.target usdc_address then codes "settlement" else codes "target")
judge_memo memo (some transfer) recipient amount =
    if not (same_id memo.target usdc_address)
    then not_settled (codes "target")
    else (if not (text_eq transfer.to recipient)
        then not_settled (codes "recipient")
        else (if not (same_integer (pos transfer.value) amount)
            then not_settled (codes "amount")
            else record {
              transaction_succeeded = true;
              memo_event_valid = true;
              settlement_valid = true;
              exact_for_request = true;
              reason = none;
            }))

-- `judgeMatch`.
unfoldable pub judge_match :
    Option DecodedMemo × Option DecodedTransfer
    → (recipient : Text) → (amount : ℤ) → ReceiptVerification
unfolding judge_memo empty_verification
judge_match (none, transfer) recipient amount = empty_verification true (codes "memo-id")
judge_match (some memo, transfer) recipient amount = judge_memo memo transfer recipient amount

module _ (v : Viem) where
  open v.addresses use {get_address}

  -- What a memo binds of the receipt's events.
  abbrev pub bind_in : List Log → DecodedMemo → Option DecodedTransfer
  bind_in logs memo =
      bind_transfer v memo (decode_before_memos v logs) (decode_usdc_transfers v logs)

  -- `matchMemoSettlement`.
  unfoldable pub match_memo_settlement :
      List Log → Text → Option DecodedMemo × Option DecodedTransfer
  unfolding find_memo decode_memo_events decode_before_memos decode_usdc_transfers bind_transfer
  match_memo_settlement logs memo_id = elim (find_memo memo_id (decode_memo_events v logs)) [
    | none ↦ (none, none)
    | some memo ↦ (some memo, bind_in logs memo)
  ]

  abbrev pub fee_of : TransactionReceipt → Option ℕ → Text
  fee_of receipt none = codes "0"
  fee_of receipt (some price) = v.format_units (receipt.gas_used * price) native_decimals

  -- What `parseMemoReceipt` returns for the memo and the transfer that it has chosen.
  unfoldable pub parsed_with :
      TransactionReceipt → Option DecodedMemo × Option DecodedTransfer → ParsedReceipt
  parsed_with receipt (memo, transfer) = record {
    tx_hash = receipt.transaction_hash;
    is_memo = is_some memo;
    transaction_succeeded = receipt.succeeded;
    memo_event_valid = is_some memo;
    settlement_valid = receipt.succeeded && is_some transfer;
    block_number = v.decimal receipt.block_number;
    block_hash = receipt.block_hash;
    from = receipt.from;
    to = elim transfer [ none ↦ none | some t ↦ some t.to ];
    amount = elim transfer [ none ↦ codes "0" | some t ↦ v.format_units t.value usdc_decimals ];
    memo = elim memo [ none ↦ none | some m ↦ m.memo_text ];
    memo_id = elim memo [ none ↦ none | some m ↦ some m.memo_id ];
    memo_index = elim memo [ none ↦ none | some m ↦ some (v.decimal m.memo_index) ];
    sender = elim memo [ none ↦ none | some m ↦ some m.sender ];
    fee_usdc = fee_of receipt receipt.effective_gas_price;
    gas_used = v.decimal receipt.gas_used;
  }

  -- `parseMemoReceipt`.
  unfoldable pub parse_memo_receipt : TransactionReceipt → ParsedReceipt
  unfolding parsed_with shown_pair first_bound decode_memo_events decode_before_memos
      decode_usdc_transfers bind_transfer
  parse_memo_receipt receipt =
      let memos = decode_memo_events v receipt.logs in
      parsed_with receipt (shown_pair (first_bound (bind_in receipt.logs) memos) memos)

  -- `legacyMemoId` of src/lib/sendMemo.ts.
  unfoldable pub legacy_memo_id : Text → Text
  legacy_memo_id memo = v.keccak256 (v.string_to_hex memo)

  abbrev pub not_positive : ℤ → Bool
  not_positive amount = leb_ℤ amount (pos 0)

  -- `verifyV1` after the amount is parsed.
  unfoldable pub verify_v1_amount : List Log → V1ReceiptRequest → Option ℤ → ReceiptVerification
  unfolding empty_verification judge_match match_memo_settlement legacy_memo_id
  verify_v1_amount logs request none = empty_verification true (codes "amount")
  verify_v1_amount logs request (some amount) =
      if not_positive amount || not (v.is_address_strict request.to)
      then empty_verification true
          (if not_positive amount then codes "amount" else codes "recipient")
      else judge_match (match_memo_settlement logs (legacy_memo_id request.memo))
          (get_address request.to) amount

  -- `verifyV1`.
  unfoldable pub verify_v1 : List Log → V1ReceiptRequest → ReceiptVerification
  unfolding verify_v1_amount
  verify_v1 logs request =
      verify_v1_amount logs request (v.parse_units request.amount usdc_decimals)

  -- The end of `verifyV2`, by the signer that the signature recovers to.
  unfoldable pub check_signer :
      FinalRequest → ReceiptObservation → ReceiptVerification → Option Text → ReceiptVerification
  unfolding reject text_eq
  check_signer fields seen judged none = reject judged (codes "signature")
  check_signer fields seen judged (some signer) =
      if not (text_eq signer fields.merchant)
      then reject judged (codes "signature")
      else (if leb_ℤ fields.expires_at seen.block_timestamp
          then reject judged (codes "expired")
          else judged)

  -- The guards of `verifyV2` on what it has judged of the logs.
  unfoldable pub check_observed :
      FinalRequest
      → (request : FinalRequest) → (cancelled : Option Bool) → Option ReceiptObservation
      → ReceiptVerification
      → ReceiptVerification
  unfolding reject check_signer recover_final_request_signer
  check_observed fields request cancelled none judged =
      if or_else cancelled false
      then reject judged (codes "cancelled")
      else reject judged (codes "chain")
  check_observed fields request cancelled (some seen) judged =
      if or_else cancelled false
      then reject judged (codes "cancelled")
      else (if not (seen.chain_id == 5042)
          then reject judged (codes "chain")
          else check_signer fields seen judged (recover_final_request_signer v request))

  -- The settlement that `verifyV2` judges, by the memo id of the validated request.
  unfoldable pub judge_v2 :
      List Log
      → (request : FinalRequest) → (cancelled : Option Bool) → Option ReceiptObservation
      → (fields : FinalRequest) → (memo_id : Option Text) → Option ReceiptVerification
  unfolding check_observed judge_match match_memo_settlement
  judge_v2 logs request cancelled seen fields none = none
  judge_v2 logs request cancelled seen fields (some memo_id) = some (
      check_observed fields request cancelled seen (
        judge_match (match_memo_settlement logs memo_id) fields.recipient
          (pos fields.amount_base_units)))

  -- `verifyV2` for the validated fields; none where `deriveMemoId` throws.
  unfoldable pub verify_v2_fields :
      List Log
      → (request : FinalRequest) → (cancelled : Option Bool) → Option ReceiptObservation
      → (fields : Option FinalRequest) → Option ReceiptVerification
  unfolding empty_verification judge_v2 derive_memo_id
  verify_v2_fields logs request cancelled seen none =
      some (empty_verification true (codes "structure"))
  verify_v2_fields logs request cancelled seen (some fields) =
      judge_v2 logs request cancelled seen fields (derive_memo_id v fields.request_id)

  abbrev pub verify_request :
      List Log → ReceiptRequest → Option ReceiptObservation → Option ReceiptVerification
  verify_request logs (v1_request r) seen = some (verify_v1 logs r)
  verify_request logs (v2_request r cancelled) seen =
      verify_v2_fields logs r cancelled seen (validate_final_request v r)

  -- `verifyReceiptForRequest`; none where it throws.
  unfoldable pub verify_receipt_for_request :
      TransactionReceipt → ReceiptRequest → Option ReceiptObservation → Option ReceiptVerification
  unfolding verify_v1 verify_v2_fields validate_final_request parse_memo_receipt
  verify_receipt_for_request receipt request seen =
      if not receipt.succeeded
      then some (record {
        transaction_succeeded = false;
        memo_event_valid = (parse_memo_receipt receipt).memo_event_valid;
        settlement_valid = false;
        exact_for_request = false;
        reason = some (codes "reverted");
      })
      else verify_request receipt.logs request seen
