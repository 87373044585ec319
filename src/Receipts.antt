-- ===== src/Receipts.antt =====
-- What a transaction on the chain shows of a payment: signed requests (src/lib/finalRequest.ts),
-- receipts (src/lib/receipt.ts) and proofs (src/lib/arcProof.ts). viem is an interface.
pub mod Logs
pub mod Window
pub mod Verify
pub mod Exact
pub mod ArcProof
pub mod Shown
use final_arc.Base.{
  ℕ, Bool, List, not, ◌&&◌, ◌||◌, ◌==◌, Option, none, some, if◌then◌else◌, is_empty, ltb, length,
  Text, codes, text_eq, to_lower_case, drop_prefix, all_hex, false,
}
use final_arc.Base.Int.{ℤ, pos, ltb_ℤ, leb_ℤ, is_safe_integer}
use final_arc.Base.Addresses.{Addresses}
use final_arc.Base.Values.{trim}

abbrev pub final_request_version : ℕ
final_request_version = 2

abbrev pub final_memo_max_length : ℕ
final_memo_max_length = 200

abbrev pub usdc_address : Text
usdc_address = codes "0x3600000000000000000000000000000000000000"

abbrev pub memo_address : Text
memo_address = codes "0x5294E9927c3306DcBaDb03fe70b92e01cCede505"

abbrev pub usdc_decimals : ℕ
usdc_decimals = 6

-- `FinalRequestDraft`, with the signature of a `FinalRequest`.
pub record FinalRequest : Type 0 where
  pub version : ℕ
  pub request_id : Text
  pub merchant : Text
  pub recipient : Text
  pub amount_base_units : ℕ
  pub memo : Text
  pub chain_id : ℕ
  pub expires_at : ℤ
  pub nonce : Text
  pub signature : Text

-- The fields that are signed, `FinalRequestMessage`.
pub record FinalRequestMessage : Type 0 where
  pub request_id : Text
  pub recipient : Text
  pub amount_base_units : ℕ
  pub memo : Text
  pub chain_id : ℕ
  pub expires_at : ℤ
  pub nonce : Text

-- What `decodeEventLog` makes of a log with the ABI of the Memo contract: one of its two events,
-- with its arguments, or no such event.
pub data MemoLog : Type 0 where
  memo_event : (sender target call_data_hash memo_id memo : Text) → (memo_index : ℕ) → MemoLog
  before_memo : (memo_index : ℕ) → MemoLog
  no_memo_log : MemoLog

-- The same with the ABI of the token.
pub data TokenLog : Type 0 where
  transfer_event : (from to : Text) → (value : ℕ) → TokenLog
  no_token_log : TokenLog

pub record Log : Type 0 where
  pub address : Text
  pub data_hex : Text
  pub topics : List Text
  pub log_index : Option ℕ

-- The functions of viem that the code calls. `is_address` of the `Addresses` is not strict; one that
-- may throw returns an option; `encode_identity` is `encodeAbiParameters` of a string and 16 bytes.
pub record Viem : Type 0 where
  pub addresses : Addresses
  pub is_address_strict : Text → Bool
  pub is_hex : Text → Bool
  pub size : Text → ℕ
  pub hex_to_string : Text → Option Text
  pub string_to_hex : Text → Text
  pub keccak256 : Text → Text
  pub encode_identity : (domain id : Text) → Text
  pub encode_transfer : (to : Text) → (value : ℕ) → Text
  pub encode_memo : (target call memo_id memo_data : Text) → Text
  pub format_units : (value decimals : ℕ) → Text
  pub parse_units : Text → (decimals : ℕ) → Option ℤ
  pub decimal : ℕ → Text
  pub show_integer : ℤ → Text
  pub decode_memo_log : Log → MemoLog
  pub decode_token_log : Log → TokenLog
  pub recover_typed_data : FinalRequestMessage → (signature : Text) → Option Text

-- `isTxHash` of src/lib/receipt.ts.
unfoldable pub is_tx_hash : Text → Bool
unfolding drop_prefix all_hex
is_tx_hash value = elim (drop_prefix (codes "0x") value) [
  | none ↦ false
  | some digits ↦ all_hex digits && length digits == 64
]

module _ (v : Viem) where
  open v.addresses use {is_address, get_address}

  -- `parseFixedHex`; none where it throws.
  unfoldable pub parse_fixed_hex : Text → ℕ → Option Text
  unfolding to_lower_case
  parse_fixed_hex value bytes =
      if not (v.is_hex value) || not (v.size value == bytes)
      then none
      else some (to_lower_case value)

  -- `deriveMemoId`.
  unfoldable pub derive_memo_id : Text → Option Text
  unfolding parse_fixed_hex
  derive_memo_id request_id = elim (parse_fixed_hex request_id 16) [
    | none ↦ none
    | some id ↦ some (v.keccak256 (v.encode_identity (codes "FINAL V2 request identity") id))
  ]

  -- The checks of `validateFinalRequest` that come before its addresses; `false` where one throws.
  unfoldable pub fields_valid : FinalRequest → Bool
  unfolding trim text_eq is_safe_integer
  fields_valid r =
      r.version == final_request_version
      && r.chain_id == 5042
      && not (is_empty (trim r.memo))
      && not (ltb final_memo_max_length (length (trim r.memo)))
      && text_eq (trim r.memo) r.memo
      && not (r.amount_base_units == 0)
      && is_safe_integer r.expires_at
      && not (ltb_ℤ r.expires_at (pos 0))

  -- The addresses of `validateFinalRequest`.
  unfoldable pub parties_valid : FinalRequest → Bool
  unfolding text_eq
  parties_valid r =
      is_address r.merchant
      && is_address r.recipient
      && text_eq (get_address r.merchant) (get_address r.recipient)

  unfoldable pub with_fixed : FinalRequest → Option Text → Option Text → Option FinalRequest
  with_fixed r none digits = none
  with_fixed r (some id) none = none
  with_fixed r (some id) (some digits) = some (record r {
    request_id = id;
    merchant = get_address r.merchant;
    recipient = get_address r.recipient;
    nonce = digits;
  })

  -- `validateFinalRequest`; none where it throws. The signature stays.
  unfoldable pub validate_final_request : FinalRequest → Option FinalRequest
  unfolding fields_valid parties_valid parse_fixed_hex with_fixed
  validate_final_request r =
      if not (fields_valid r && parties_valid r)
      then none
      else with_fixed r (parse_fixed_hex r.request_id 16) (parse_fixed_hex r.nonce 32)

  -- The message of `finalRequestTypedData`.
  unfoldable pub message_of : FinalRequest → FinalRequestMessage
  message_of r = record {
    request_id = r.request_id;
    recipient = r.recipient;
    amount_base_units = r.amount_base_units;
    memo = r.memo;
    chain_id = r.chain_id;
    expires_at = r.expires_at;
    nonce = r.nonce;
  }

  -- `recoverFinalRequestSigner`; none where it throws.
  unfoldable pub recover_final_request_signer : FinalRequest → Option Text
  unfolding validate_final_request message_of
  recover_final_request_signer r =
      if not (v.is_hex r.signature) then none else (elim (validate_final_request r) [
        | none ↦ none
        | some fields ↦ v.recover_typed_data (message_of fields) r.signature
      ])
