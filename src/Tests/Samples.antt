-- ===== src/Tests/Samples.antt =====
-- Inputs that the tests share.
use final_arc.Base.{
  ◌≡◌, ◌↔◌, refl, Bool, true, false, not, Option, none, some, [], ◌∷◌, codes, is_empty, arith, Text,
  ℕ, length, ◌-◌, ◌/◌, ◌+◌, ◌==◌, if◌then◌else◌,
}
use native.Mathlib.Decide.{ℕ_discrete}
use final_arc.Base.Int.{pos, negsuc}
use final_arc.Base.Addresses.{Addresses}
use final_arc.Policy.{PaymentPolicyRules, PaymentPolicy, EvaluationInput}
use final_arc.Ledger.{reserved, LedgerReservation, LedgerDoc}
use final_arc.Receipts.{
  Viem, FinalRequest, Log, memo_event, before_memo, no_memo_log, transfer_event, usdc_address,
  memo_address,
}
use final_arc.Receipts.Verify.{TransactionReceipt, ReceiptObservation}
use final_arc.Receipts.ArcProof.{Certificate}
use final_arc.Ledger.Store.{Codec, IsCodec, World}
use final_arc.Ledger.Reserve.{ReserveArgs}

-- Every text but the empty one is an address, in its canonical form.
abbrev pub plain_addresses : Addresses
plain_addresses = record { is_address = λ s. not (is_empty s); get_address = λ s. s }

abbrev pub no_rules : PaymentPolicyRules
no_rules = record {
  max_amount_base_units = none;
  max_spend_base_units = none;
  window_seconds = none;
  allowed_recipients = none;
  allowed_agent_ids = none;
  allowed_tokens = none;
  allowed_chain_ids = none;
}

abbrev pub capped_rules : PaymentPolicyRules
capped_rules = record no_rules {
  max_amount_base_units = some (codes "500");
  max_spend_base_units = some (codes "900");
  window_seconds = some (pos 86400);
}

abbrev pub capped_policy : PaymentPolicy
capped_policy = record {
  id = codes "p1";
  merchant = codes "0xm";
  name = codes "daily";
  enabled = true;
  created_at = codes "t";
  updated_at = codes "t";
  version = 1;
  rules = some capped_rules;
}

abbrev pub payment_input : EvaluationInput
payment_input = record {
  merchant = codes "0xm";
  agent_id = none;
  recipient = codes "0xr";
  token = codes "0xu";
  chain_id = pos 5042;
  amount_base_units = codes "400";
  now = pos 1000000;
  policies = capped_policy ∷ [];
  verified_spend = [];
}

Reservation-discrete : Discrete LedgerReservation
Reservation-discrete = hlevel ℕ_discrete

pub Raw-discrete : Discrete (Option LedgerDoc)
Raw-discrete = hlevel ℕ_discrete

abbrev pub same_doc : Option LedgerDoc → Option LedgerDoc → Bool
same_doc a b = elim (Raw-discrete a b) [ yes _ ↦ true | no _ ↦ false ]

-- Documents stand for their own text.
abbrev pub plain_codec : Codec
plain_codec = record {
  Raw = Option LedgerDoc;
  empty_text = none;
  same_text = same_doc;
  parse_json = λ raw. raw;
  stringify = λ doc. some doc;
}

pub same_doc_iff : (a b : Option LedgerDoc) → (same_doc a b ≡ true) ↔ (a ≡ b)
same_doc_iff a b = ground arith

pub plain_codec-IsCodec : IsCodec plain_codec
plain_codec-IsCodec = record {
  same_text_iff = same_doc_iff;
  parse_json-stringify = λ d. refl;
  parse_json-empty = refl;
}

abbrev pub reservation : LedgerReservation
reservation = record {
  id = codes "0xa1";
  intent_id = codes "0xa1";
  merchant = codes "0xm";
  amount_base_units = codes "400";
  policy_ids = codes "p1" ∷ [];
  reserved_at = pos 1000000;
  expires_at = pos 1000600;
  status = reserved;
  consumed_at = none;
  released_at = none;
  release_reason = none;
}

abbrev pub reserve_args : ReserveArgs
reserve_args = record {
  reservation = reservation;
  policies = (codes "p1", capped_rules) ∷ [];
  verified = [];
  intents = λ id. none;
  now = pos 1000000;
}

abbrev pub empty_world : World plain_codec
empty_world = record { stored = none; events = [] }

abbrev pub held_doc : LedgerDoc
held_doc = (codes "0xa1", reservation) ∷ []

abbrev pub held_world : World plain_codec
held_world = record { stored = some (some held_doc); events = [] }

-- A hash of 32 bytes, which stands for all hashes.
abbrev pub paid_hash : Text
paid_hash = codes "0x00000000000000000000000000000000000000000000000000000000000000ab"

-- A receipt's third log is a Memo event, the first its `BeforeMemo`; every token log is a transfer.
abbrev pub plain_viem : Viem
plain_viem = record {
  addresses = plain_addresses;
  is_address_strict = λ a. true;
  is_hex = λ s. true;
  size = λ s. (length s - 2) / 2;
  hex_to_string = λ s. some s;
  string_to_hex = λ s. s;
  keccak256 = λ s. paid_hash;
  encode_identity = λ d s. s;
  encode_transfer = λ to value. to;
  encode_memo = λ target call memo_id data_. call;
  format_units = λ value decimals. value ∷ [];
  parse_units = λ s decimals. elim s [ [] ↦ none | n ∷ ns ↦ some (pos n) ];
  decimal = λ n. (48 + n) ∷ [];
  show_integer = λ z. elim z [ pos n ↦ (48 + n) ∷ [] | negsuc n ↦ b'-' ∷ n ∷ [] ];
  decode_memo_log = λ log. elim log.log_index [
    | none ↦ no_memo_log
    | some n ↦
        if n == 2
        then memo_event (codes "0xp") usdc_address paid_hash paid_hash (codes "0x") 7
        else before_memo 7
  ];
  decode_token_log = λ log. transfer_event (codes "0xp") (codes "0xm") 5;
  recover_typed_data = λ m s. some (codes "0xm");
}

abbrev log_of : Text → ℕ → Log
log_of address index = record {
  address = address;
  data_hex = [];
  topics = [];
  log_index = some index;
}

abbrev pub paid_request : FinalRequest
paid_request = record {
  version = 2;
  request_id = codes "0x000000000000000000000000000000cd";
  merchant = codes "0xm";
  recipient = codes "0xm";
  amount_base_units = 5;
  memo = codes "order";
  chain_id = 5042;
  expires_at = pos 2000;
  nonce = paid_hash;
  signature = codes "0x";
}

abbrev pub paid_receipt : TransactionReceipt
paid_receipt = record {
  transaction_hash = paid_hash;
  succeeded = true;
  block_number = 3;
  block_hash = some paid_hash;
  from = codes "0xp";
  to = none;
  logs = log_of memo_address 0 ∷ log_of usdc_address 1 ∷ log_of memo_address 2 ∷ [];
  gas_used = 1;
  effective_gas_price = none;
}

abbrev pub paid_seen : ReceiptObservation
paid_seen = record { block_timestamp = pos 1500; chain_id = 5042 }

abbrev pub paid_certificate : Certificate
paid_certificate = record { height = pos 3; block_hash = paid_hash; signatures = some 1 }
