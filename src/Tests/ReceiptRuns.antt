-- ===== src/Tests/ReceiptRuns.antt =====
-- Receipts and proofs (src/lib/receipt.ts, src/lib/arcProof.ts) at a few inputs.
use final_arc.Base.{to_lower_case}
use final_arc.Base.{◌≡◌, ◌↔◌, refl, true, some, none, [], ◌∷◌, codes, is_some, big_int}
use final_arc.Receipts.{usdc_address, is_tx_hash}
use final_arc.Receipts.Logs.{DecodedMemo, DecodedBefore, DecodedTransfer}
use final_arc.Receipts.Window.{bind_transfer, Bound, bind_transfer_iff}
use final_arc.Receipts.Verify.{v2_request, verify_receipt_for_request, parse_memo_receipt}
use final_arc.Receipts.Exact.{is_exact, SettlesRequest, verify_receipt_for_request_iff}
use final_arc.Receipts.ArcProof.{
  base_units, ArcProofBody, verified_proof, assemble_arc_proof, load_receipt, proof_body,
  verify_arc_transaction,
}
use final_arc.Receipts.Shown.{
  Certifies, assemble_arc_proof_iff, Shows, verify_arc_transaction-Shows,
}
use final_arc.Tests.Samples.{
  plain_viem, paid_request, paid_receipt, paid_seen, paid_certificate, paid_hash,
}

abbrev first_window : DecodedBefore
first_window = record { memo_index = 7; log_index = 0 }

abbrev closing_memo : DecodedMemo
closing_memo = record {
  sender = codes "0xp";
  target = usdc_address;
  call_data_hash = paid_hash;
  memo_id = paid_hash;
  memo = [];
  memo_text = none;
  memo_index = 7;
  log_index = 2;
}

abbrev one_transfer : DecodedTransfer
one_transfer = record { from = codes "0xp"; to = codes "0xm"; value = 5; log_index = 1 }

bind_transfer_iff_example :
    (bind_transfer plain_viem closing_memo (first_window ∷ []) (one_transfer ∷ [])
      ≡ some one_transfer)
    ↔ Bound plain_viem closing_memo (first_window ∷ []) (one_transfer ∷ []) one_transfer
bind_transfer_iff_example =
    bind_transfer_iff plain_viem closing_memo (first_window ∷ []) (one_transfer ∷ []) one_transfer

-- Two transfers of one window that fit are refused.
two_transfers :
    bind_transfer plain_viem closing_memo (first_window ∷ []) (one_transfer ∷ one_transfer ∷ [])
    ≡ none
unfolding bind_transfer to_lower_case
two_transfers = refl

paid_exactly :
    is_exact (
      verify_receipt_for_request plain_viem paid_receipt
        (v2_request paid_request none)
        (some paid_seen))
    ≡ true
unfolding verify_receipt_for_request
paid_exactly = refl

verify_receipt_for_request_iff_example :
    (is_exact (
        verify_receipt_for_request plain_viem paid_receipt
          (v2_request paid_request none)
          (some paid_seen))
      ≡ true)
    ↔ SettlesRequest plain_viem paid_receipt paid_request none (some paid_seen)
verify_receipt_for_request_iff_example =
    verify_receipt_for_request_iff plain_viem paid_receipt paid_request none (some paid_seen)

abbrev paid_body : ArcProofBody
paid_body =
    assemble_arc_proof plain_viem (parse_memo_receipt plain_viem paid_receipt)
      (some paid_certificate) none

paid_verified :
    verify_arc_transaction plain_viem paid_hash
      (some (load_receipt paid_receipt (some paid_certificate)))
    ≡ proof_body paid_body
unfolding verify_arc_transaction
paid_verified = refl

body_verified : paid_body.status ≡ verified_proof
unfolding assemble_arc_proof parse_memo_receipt to_lower_case
body_verified = refl

assemble_arc_proof_iff_example :
    ((assemble_arc_proof plain_viem
        (parse_memo_receipt plain_viem paid_receipt)
        (some paid_certificate)
        none).status
      ≡ verified_proof)
    ↔ (((parse_memo_receipt plain_viem paid_receipt).transaction_succeeded ≡ true)
        × ((parse_memo_receipt plain_viem paid_receipt).memo_event_valid ≡ true)
        × ((parse_memo_receipt plain_viem paid_receipt).settlement_valid ≡ true)
        × (is_some
              (base_units plain_viem (some (parse_memo_receipt plain_viem paid_receipt).amount))
            ≡ true)
        × Certifies
            (some paid_certificate)
            (big_int (parse_memo_receipt plain_viem paid_receipt).block_number)
            (parse_memo_receipt plain_viem paid_receipt).block_hash)
assemble_arc_proof_iff_example =
    assemble_arc_proof_iff plain_viem (parse_memo_receipt plain_viem paid_receipt)
      (some paid_certificate) none

verify_arc_transaction-Shows_example :
    (is_tx_hash paid_hash ≡ true) × Shows plain_viem paid_receipt (some paid_certificate) paid_body
verify_arc_transaction-Shows_example =
    verify_arc_transaction-Shows plain_viem paid_hash paid_receipt (some paid_certificate) paid_body
      paid_verified body_verified
