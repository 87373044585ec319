-- ===== src/Agents.antt =====
-- src/lib/agentPayments.ts: payment intents that a machine prepares and settles with a transaction
-- hash. The rows of the store's `agents` section and what a caller is shown of them.
pub mod Canonical
pub mod Section
pub mod Unique
pub mod Commits
pub mod Proof
pub mod Binding
pub mod Load
pub mod Submit
pub mod Handlers
pub mod Preserved
pub mod Outcomes
use final_arc.Base.{
  ℕ, Bool, true, false, Option, none, some, List, ◌∷◌, ◌++◌, if◌then◌else◌, Text, codes, Entries,
}
use final_arc.Base.Int.{ℤ, leb_ℤ, is_safe_integer}
use final_arc.Base.Values.{Value}
use final_arc.Ledger.{IntentStatus, awaiting_payment, submitted, verified, failed}
use final_arc.Policy.{PolicyReason}
use final_arc.Policy.Snapshot.{PolicySnapshot}
use final_arc.Receipts.{Viem, FinalRequest, usdc_address, derive_memo_id}
use final_arc.Receipts.ArcProof.{ArcProofStatus, ArcProofBody}

-- A stored value: a row that its reader accepts, or any other value.
pub data Kept (A : Type 0) : Type 0 where
  row : A → Kept A
  foreign : Value → Kept A

-- `readIntent` and `readIdempotency` of an entry that may be missing.
unfoldable pub read_kept : {A : Type 0} → Option (Kept A) → Option A
read_kept none = none
read_kept (some (row r)) = some r
read_kept (some (foreign v)) = none

-- The statuses of a proof that was read, and the two of a hash without one.
pub data AgentProofStatus : Type 0 where
  checked : ArcProofStatus → AgentProofStatus
  hash_not_found hash_unavailable : AgentProofStatus

pub record AgentBinding : Type 0 where
  pub bound_to_intent : Bool
  pub reason : Option Text

pub record StoredIntent : Type 0 where
  pub intent_id : Text
  pub request_id : Text
  pub merchant : Text
  pub created_at : Text
  pub agent_id : Option Text
  pub agent_name : Option Text
  pub client_reference : Option Text
  pub status : IntentStatus
  pub submitted_tx_hash : Option Text
  pub verified_tx_hash : Option Text
  pub failure_reason : Option Text
  pub proof_status : Option AgentProofStatus
  pub binding : AgentBinding
  pub proof : Option ArcProofBody
  pub amount_base_units : Option Text
  pub verified_at : Option ℤ
  pub policy : Option PolicySnapshot

-- What `publicStatus` shows.
pub data AgentIntentStatus : Type 0 where
  shown : IntentStatus → AgentIntentStatus
  shown_expired : AgentIntentStatus

-- `publicStatus`.
unfoldable pub public_status : IntentStatus → (expires_at now : ℤ) → AgentIntentStatus
public_status verified expires_at now = shown verified
public_status failed expires_at now = shown failed
public_status submitted expires_at now = shown submitted
public_status awaiting_payment expires_at now =
    if leb_ℤ expires_at now then shown_expired else shown awaiting_payment

-- The fields of an instruction that differ: the chain, the token, the contract, the value "0" and
-- the note are the same in all.
pub record AgentInstruction : Type 0 where
  pub recipient : Text
  pub amount_base_units : Text
  pub data_hex : Text
  pub memo_id : Text
  pub payment_url : Text
  pub intent_id : Text
  pub executable : Bool

-- What the caller is shown of an intent; `token`, `chainId` and `note` are the same in all.
pub record AgentIntentBody : Type 0 where
  pub intent_id : Text
  pub request_id : Text
  pub merchant : Text
  pub recipient : Text
  pub amount_base_units : Text
  pub memo : Text
  pub memo_id : Text
  pub created_at : Text
  pub expires_at : ℤ
  pub status : AgentIntentStatus
  pub agent_id : Option Text
  pub agent_name : Option Text
  pub client_reference : Option Text
  pub payment_url : Text
  pub submitted_tx_hash : Option Text
  pub verified_tx_hash : Option Text
  pub instruction : AgentInstruction
  pub proof_status : Option AgentProofStatus
  pub proof : Option ArcProofBody
  pub binding : AgentBinding
  pub policy : Option PolicySnapshot
  pub verified_at : Option ℤ

-- `AgentIntentBody | AgentErrorBody`.
pub data AgentBody : Type 0 where
  intent_body : AgentIntentBody → AgentBody
  error_body : (code message : Text) → Option (List PolicyReason) → AgentBody

pub record AgentResult : Type 0 where
  pub status : ℕ
  pub body : AgentBody

pub record IdempotencyRow : Type 0 where
  pub merchant : Text
  pub route : Text
  pub key : Text
  pub body_hash : Text
  pub status : ℕ
  pub body : AgentBody
  pub stored_at : Option ℕ

-- The `agents` section, and the reservations and denials of the `policies` section. A missing
-- section is read as an empty one.
pub record AgentStore : Type 0 where
  pub intents : Entries (Kept StoredIntent)
  pub idempotency : Entries (Kept IdempotencyRow)
  pub reservations : Entries Value
  pub denials : Entries Value

-- `errorResult`.
unfoldable pub error_result : ℕ → (code message : Text) → AgentResult
error_result status code message = record { status = status; body = error_body code message none }

-- `paymentUrl` of src/lib/developerApi.ts.
unfoldable pub payment_url : (origin token : Text) → Text
payment_url origin token = origin ++ (codes "/p/" ++ token)

abbrev pub is_awaiting : AgentIntentStatus → Bool
is_awaiting (shown awaiting_payment) = true
is_awaiting (shown submitted) = false
is_awaiting (shown verified) = false
is_awaiting (shown failed) = false
is_awaiting shown_expired = false

-- `typeof verifiedAt === "number" && Number.isSafeInteger(verifiedAt)`.
abbrev pub safe_time : Option ℤ → Option ℤ
safe_time none = none
safe_time (some at) = if is_safe_integer at then some at else none

module _ (v : Viem) where
  -- `memoInstruction`, with `encodeAuthorizedMemoCall` of src/lib/sendMemo.ts.
  unfoldable pub memo_instruction :
      FinalRequest → (intent_id pay_link memo_id : Text) → Bool → AgentInstruction
  memo_instruction request intent_id pay_link memo_id executable = record {
    recipient = request.recipient;
    amount_base_units = v.decimal request.amount_base_units;
    data_hex =
        v.encode_memo usdc_address (v.encode_transfer request.recipient request.amount_base_units)
          memo_id (v.string_to_hex request.memo);
    memo_id = memo_id;
    payment_url = pay_link;
    intent_id = intent_id;
    executable = executable;
  }

  -- `present`, for the memo id of the request.
  unfoldable pub present_with :
      (origin token : Text) → (now : ℤ) → StoredIntent → FinalRequest → Text → AgentIntentBody
  unfolding public_status payment_url memo_instruction is_safe_integer
  present_with origin token now i request memo_id =
      let status = public_status i.status request.expires_at now in
      let link = payment_url origin token in
      record {
        intent_id = i.intent_id;
        request_id = request.request_id;
        merchant = request.merchant;
        recipient = request.recipient;
        amount_base_units = v.decimal request.amount_base_units;
        memo = request.memo;
        memo_id = memo_id;
        created_at = i.created_at;
        expires_at = request.expires_at;
        status = status;
        agent_id = i.agent_id;
        agent_name = i.agent_name;
        client_reference = i.client_reference;
        payment_url = link;
        submitted_tx_hash = i.submitted_tx_hash;
        verified_tx_hash = i.verified_tx_hash;
        instruction = memo_instruction request i.intent_id link memo_id (is_awaiting status);
        proof_status = i.proof_status;
        proof = i.proof;
        binding = i.binding;
        policy = i.policy;
        verified_at = safe_time i.verified_at;
      }

  -- `present`; none where `deriveMemoId` throws.
  unfoldable pub present_intent :
      (origin token : Text) → (now : ℤ) → StoredIntent → FinalRequest → Option AgentIntentBody
  unfolding present_with derive_memo_id
  present_intent origin token now i request = elim (derive_memo_id v request.request_id) [
    | none ↦ none
    | some memo_id ↦ some (present_with origin token now i request memo_id)
  ]
