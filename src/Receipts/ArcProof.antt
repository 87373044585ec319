-- ===== src/Receipts/ArcProof.antt =====
-- The proof of a transaction that the program shows (src/lib/arcProof.ts): `assembleArcProof`, with
-- `checkCertificate` of src/lib/receipt.ts and the paths of `verifyArcTransaction`.
use final_arc.Base.{
  ℕ, Bool, true, false, not, ◌&&◌, ◌||◌, Option, none, some, is_some, if◌then◌else◌, is_empty, ltb,
  or_else, Text, big_int,
}
use final_arc.Base.Int.{ℤ, pos, same_integer}
use final_arc.Payments.{same_id}
use final_arc.Receipts.{Viem, is_tx_hash, usdc_address, memo_address, usdc_decimals}
use final_arc.Receipts.Verify.{TransactionReceipt, ParsedReceipt, parse_memo_receipt}

-- `signatures` counts the entries of the list, which an answer may lack.
pub record Certificate : Type 0 where
  pub height : ℤ
  pub block_hash : Text
  pub signatures : Option ℕ

-- The note is a function of the rest.
pub record CertCheck : Type 0 where
  pub matched : Bool
  pub signature_count : ℕ

pub data ArcProofStatus : Type 0 where
  verified_proof partial_proof invalid_proof : ArcProofStatus

pub record ArcProofTransaction : Type 0 where
  pub tx_hash : Text
  pub block_number : Text
  pub block_hash : Option Text
  pub from : Text
  pub to : Option Text
  pub success : Bool

pub record ArcProofMemo : Type 0 where
  pub contract : Option Text
  pub sender : Option Text
  pub memo_id : Option Text
  pub memo : Option Text
  pub valid : Bool

pub record ArcProofSettlement : Type 0 where
  pub token : Option Text
  pub from : Option Text
  pub to : Option Text
  pub amount : Option Text
  pub amount_base_units : Option Text
  pub valid : Bool

-- `null` is none; `matchesTransaction` and `valid` are one field.
pub record ArcProofCertificate : Type 0 where
  pub height : Option ℤ
  pub block_hash : Option Text
  pub matches_transaction : Option Bool
  pub signature_count : Option ℕ

pub record ArcProofVerification : Type 0 where
  pub receipt_valid : Bool
  pub memo_valid : Bool
  pub settlement_valid : Bool
  pub certificate_valid : Option Bool
  pub verified : Bool

-- The fields that are the same in every proof, and the notes, are left out, but for the chain's id.
pub record ArcProofBody : Type 0 where
  pub status : ArcProofStatus
  pub transaction_hash : Text
  pub chain_id : ℕ
  pub transaction : ArcProofTransaction
  pub memo : ArcProofMemo
  pub settlement : ArcProofSettlement
  pub certificate : ArcProofCertificate
  pub verification : ArcProofVerification

-- `Boolean(blockHash) && ...`.
abbrev pub same_block : Text → Option Text → Bool
same_block hash none = false
same_block hash (some block_hash) = not (is_empty block_hash) && same_id hash block_hash

-- `checkCertificate`.
unfoldable pub check_certificate : Option Certificate → ℕ → Option Text → CertCheck
unfolding same_id
check_certificate none block_number block_hash = record { matched = false; signature_count = 0 }
check_certificate (some c) block_number block_hash = record {
  matched =
      same_integer c.height (pos block_number)
      && same_block c.block_hash block_hash
      && ltb 0 (or_else c.signatures 0);
  signature_count = or_else c.signatures 0;
}

-- The chain of branches that gives the status; `certificate_valid` is none without a certificate.
unfoldable pub proof_status_of :
    (succeeded memo_valid settled : Bool) → Option Bool → ArcProofStatus
proof_status_of succeeded memo_valid settled certificate_valid =
    if not succeeded || not memo_valid || not settled
    then invalid_proof
    else (elim certificate_valid [
      | none ↦ partial_proof
      | some true ↦ verified_proof
      | some false ↦ invalid_proof
    ])

unfoldable pub certificate_facts : Option Certificate → CertCheck → ArcProofCertificate
certificate_facts none check = record {
  height = none;
  block_hash = none;
  matches_transaction = none;
  signature_count = none;
}
certificate_facts (some c) check = record {
  height = some c.height;
  block_hash = some c.block_hash;
  matches_transaction = some check.matched;
  signature_count = some check.signature_count;
}

abbrev pub when : {A : Type 0} → Bool → A → Option A
when b a = if b then some a else none

abbrev pub when_any : {A : Type 0} → Bool → Option A → Option A
when_any b o = if b then o else none

abbrev pub is_verified_proof : ArcProofStatus → Bool
is_verified_proof verified_proof = true
is_verified_proof partial_proof = false
is_verified_proof invalid_proof = false

module _ (v : Viem) where
  -- `baseUnits` of an amount that may be null.
  unfoldable pub base_units : Option Text → Option Text
  base_units none = none
  base_units (some amount) = elim (v.parse_units amount usdc_decimals) [
    | none ↦ none
    | some units ↦ some (v.show_integer units)
  ]

  -- What `assembleArcProof` returns once the certificate is checked and the amount parsed.
  unfoldable pub assembled :
      ParsedReceipt
      → Option Certificate
      → (tx_to : Option Text) → CertCheck
      → (amount amount_base_units : Option Text) → ArcProofBody
  unfolding proof_status_of certificate_facts
  assembled parsed certificate tx_to check amount amount_base_units =
      let settled : Bool = parsed.settlement_valid && is_some amount_base_units in
      let certificate_valid : Option Bool = when (is_some certificate) check.matched in
      let status =
        proof_status_of parsed.transaction_succeeded parsed.memo_event_valid settled
          certificate_valid in
      record {
        status = status;
        transaction_hash = parsed.tx_hash;
        chain_id = 5042;
        transaction = record {
          tx_hash = parsed.tx_hash;
          block_number = parsed.block_number;
          block_hash = parsed.block_hash;
          from = parsed.from;
          to = tx_to;
          success = parsed.transaction_succeeded;
        };
        memo = record {
          contract = when parsed.memo_event_valid memo_address;
          sender = when_any parsed.memo_event_valid parsed.sender;
          memo_id = when_any parsed.memo_event_valid parsed.memo_id;
          memo = when_any parsed.memo_event_valid parsed.memo;
          valid = parsed.memo_event_valid;
        };
        settlement = record {
          token = when settled usdc_address;
          from = when_any settled parsed.sender;
          to = when_any settled parsed.to;
          amount = amount;
          amount_base_units = amount_base_units;
          valid = settled;
        };
        certificate = certificate_facts certificate check;
        verification = record {
          receipt_valid = parsed.transaction_succeeded;
          memo_valid = parsed.memo_event_valid;
          settlement_valid = settled;
          certificate_valid = certificate_valid;
          verified = is_verified_proof status;
        };
      }

  -- `assembleArcProof`.
  unfoldable pub assemble_arc_proof :
      ParsedReceipt → Option Certificate → (tx_to : Option Text) → ArcProofBody
  unfolding assembled base_units check_certificate big_int
  assemble_arc_proof parsed certificate tx_to =
      let amount = when parsed.settlement_valid parsed.amount in
      assembled parsed certificate tx_to
        (check_certificate certificate (big_int parsed.block_number) parsed.block_hash) amount
        (base_units amount)

-- What `deps.load` returns.
pub data ArcProofLoad : Type 0 where
  load_not_found load_unavailable : ArcProofLoad
  load_receipt : TransactionReceipt → Option Certificate → ArcProofLoad
  load_parsed : ParsedReceipt → Option Certificate → (tx_to : Option Text) → ArcProofLoad

pub data ArcProofResult : Type 0 where
  invalid_format : ArcProofResult
  no_such_hash no_reply : (hash : Text) → ArcProofResult
  proof_body : ArcProofBody → ArcProofResult

-- `verifyArcTransaction`, for what the load returns; none where it throws.
unfoldable pub verify_arc_transaction : Viem → Text → Option ArcProofLoad → ArcProofResult
unfolding assemble_arc_proof parse_memo_receipt is_tx_hash
verify_arc_transaction v hash answer =
    if not (is_tx_hash hash) then invalid_format else (elim answer [
      | none ↦ no_reply hash
      | some load_not_found ↦ no_such_hash hash
      | some load_unavailable ↦ no_reply hash
      | some (load_parsed parsed certificate tx_to) ↦
          proof_body (assemble_arc_proof v parsed certificate tx_to)
      | some (load_receipt receipt certificate) ↦
          proof_body (assemble_arc_proof v (parse_memo_receipt v receipt) certificate receipt.to)
    ])
