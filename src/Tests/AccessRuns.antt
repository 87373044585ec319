-- ===== src/Tests/AccessRuns.antt =====
-- Signed wallet requests (src/lib/apiKeys.ts, src/lib/walletNonce.ts) at a few inputs.
use final_arc.Access.Wallet.{recover_wallet_merchant}
use final_arc.Base.{◌≡◌, refl, true, false, some, none, [], ◌∷◌, codes, Text, arith, big_int}
use final_arc.Access.Wallet.{WalletRequest, Crypto}
use final_arc.Access.Replay.{Attempt, is_authorized, attempt, attempt_all, attempt_once}
use final_arc.Base.Values.{trim}
use final_arc.Access.Keys.{
  ApiKeyRecord, AuthRuntime, AuthState, authorized, bearer_token, authenticate_authorization,
}
use final_arc.Access.Admission.{Justifies, Bearer, authenticate_authorization-Justifies}
use final_arc.Base.{text_eq}
use final_arc.Access.Caps.{is_mine, is_active, create_key, WithinCaps, create_key-WithinCaps}
use final_arc.Tests.Samples.{plain_addresses}

-- Every signature is the merchant's.
abbrev crypto : Crypto
crypto = record { sha256_hex = λ s. s; recover = λ message signature. some (codes "0xm") }

abbrev nonce : Text
nonce = codes "0x0000000000000000000000000000000000000000000000000000000000000001"

abbrev request : WalletRequest
request = record {
  merchant = some (codes "0xm");
  timestamp = some (codes "1000");
  signature = some (codes "0xab");
  nonce = some nonce;
  method = codes "post";
  pathname = some (codes "/");
  body_text = [];
}

abbrev call : Attempt
call = record { action = codes "api_keys.create"; request = request; now = 990; reachable = true }

abbrev second_call : Attempt
second_call = record call { now = 1200 }

first_passes : is_authorized (attempt plain_addresses crypto (λ n. []) call []).0 ≡ true
unfolding attempt recover_wallet_merchant
first_passes = refl

attempt_once_example :
    is_authorized
      (attempt plain_addresses crypto
        (λ n. [])
        second_call
        (attempt_all plain_addresses crypto
          (λ n. [])
          (second_call ∷ [])
          (attempt plain_addresses crypto (λ n. []) call []).1)).0
    ≡ false
unfolding big_int
attempt_once_example =
    attempt_once plain_addresses crypto (λ n. []) call second_call (second_call ∷ []) []
      first_passes (omega arith) (omega arith, tt) refl refl

-- A timestamp 300 seconds ahead of the first call's clock: the same request passes again 361 seconds
-- later.
abbrev early_call : Attempt
early_call = record call { now = 700 }

abbrev replayed_call : Attempt
replayed_call = record call { now = 1061 }

replay_passes :
    is_authorized
      (attempt plain_addresses crypto
        (λ n. [])
        replayed_call
        (attempt plain_addresses crypto (λ n. []) early_call []).1).0
    ≡ true
unfolding attempt recover_wallet_merchant
replay_passes = refl

abbrev key : ApiKeyRecord
key = record {
  id = codes "k1";
  merchant = codes "0xm";
  name = codes "shop";
  prefix = codes "final_live_abcdefgh";
  hash = codes "0000000000000000000000000000000000000000000000000000000000000000";
  scopes = codes "receipts:read" ∷ [];
  enabled = true;
  revoked = false;
  created_at = codes "t";
  last_used_at = none;
  expires_at = none;
}

abbrev runtime : AuthRuntime
runtime = record {
  now = 100;
  pepper = some (codes "p");
  rate_limit = 60;
  hash_api_secret =
      λ secret pepper. codes "0000000000000000000000000000000000000000000000000000000000000000";
  digest = λ t. t;
  iso = λ n. codes "t";
  parse_date = λ t. none;
  shared_pre_auth = λ t. true;
  shared_key = λ t. true;
  store_fails = false;
  touch_fails = false;
  others = λ keys. keys;
}

abbrev state : AuthState
state = record {
  pre_auth = [];
  rates = [];
  last_used_write = [];
  keys = (codes "k1", some key) ∷ [];
}

abbrev bearer : Text
bearer = codes "Bearer final_live_abcdefghijkl"

authenticate_authorization-Justifies_example :
    Justifies plain_addresses runtime
      (codes "receipts:read")
      (Bearer plain_addresses runtime
        (codes "receipts:read")
        (bearer_token (trim bearer))
        state.keys)
      (authenticate_authorization plain_addresses runtime
        (codes "receipts:read")
        (some bearer)
        state)
authenticate_authorization-Justifies_example =
    authenticate_authorization-Justifies plain_addresses runtime (codes "receipts:read") bearer
      state

-- The key is admitted.
admitted :
    (authenticate_authorization plain_addresses runtime
      (codes "receipts:read")
      (some bearer)
      state).0
    ≡ authorized (codes "0xm") (codes "k1") (codes "receipts:read" ∷ [])
unfolding authenticate_authorization
admitted = refl

create_key-WithinCaps_example :
    WithinCaps plain_addresses
      (codes "0xm")
      (create_key plain_addresses (record key { id = codes "k2" }) state.keys).1
unfolding is_mine is_active text_eq
create_key-WithinCaps_example =
    create_key-WithinCaps plain_addresses (record key { id = codes "k2" }) state.keys
      (omega arith, omega arith)
