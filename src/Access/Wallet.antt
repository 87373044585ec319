-- ===== src/Access/Wallet.antt =====
-- A wallet's signed request (src/lib/apiKeys.ts) and its one-time nonce (src/lib/walletNonce.ts).
-- Clocks are whole seconds. Hashing and the recovery of a signer are parameters.
use final_arc.Base.{
  ℕ, ◌+◌, ◌-◌, ◌%◌, Bool, true, false, not, ◌&&◌, ◌||◌, Option, none, some, [], ◌∷◌, ◌++◌, map,
  if◌then◌else◌, ltb, leb, ◌==◌, is_empty, Text, codes, text_eq, to_lower_case, all_hex, all_digits,
  drop_prefix, big_int, length, get, put,
}
use final_arc.Base.Addresses.{Addresses}
use final_arc.Access.{Nonces}

abbrev pub wallet_auth_tolerance_seconds : ℕ
wallet_auth_tolerance_seconds = 300

abbrev pub wallet_nonce_retention_seconds : ℕ
wallet_nonce_retention_seconds = wallet_auth_tolerance_seconds + 60

-- `isHex(value, { strict: true })` of viem: `/^0x[0-9a-fA-F]*$/`.
abbrev pub hex_digits : Option Text → Bool
hex_digits none = false
hex_digits (some digits) = all_hex digits

unfoldable pub is_hex : Text → Bool
unfolding drop_prefix all_hex
is_hex value = hex_digits (drop_prefix (codes "0x") value)

unfoldable pub is_wallet_nonce : Text → Bool
unfolding is_hex
is_wallet_nonce value = is_hex value && length value == 66

unfoldable pub nonce_key : (merchant nonce : Text) → Text
unfolding to_lower_case
nonce_key merchant nonce = to_lower_case merchant ++ (b':' ∷ to_lower_case nonce)

-- The entries that have not expired.
unfoldable pub prune_expired : ℕ → Nonces → Nonces
prune_expired now [] = []
prune_expired now ((key, expires_at) ∷ rest) =
    if leb expires_at now
    then prune_expired now rest
    else (key, expires_at) ∷ prune_expired now rest

-- The pruning before a nonce is read: on numbers the source's two loops drop the same entries.
unfoldable pub pruned : ℕ → Nonces → Nonces
unfolding prune_expired
pruned now nonces =
    if ltb 0 (length nonces) && length nonces % 32 == 0
    then prune_expired now nonces
    else prune_expired now nonces

abbrev pub still_used : Option ℕ → ℕ → Bool
still_used none now = false
still_used (some expires_at) now = ltb now expires_at

-- The mutator of `consumeWalletNonce`, past the pruning.
unfoldable pub mark_key : (key : Text) → ℕ → Nonces → Bool × Nonces
unfolding get put
mark_key key now kept =
    if still_used (get key kept) now
    then (false, kept)
    else (true, put key (now + wallet_nonce_retention_seconds) kept)

-- The mutator of `consumeWalletNonce`.
unfoldable pub consume_key : (key : Text) → ℕ → Nonces → Bool × Nonces
unfolding pruned mark_key
consume_key key now nonces = mark_key key now (pruned now nonces)

-- `consumeWalletNonce`.
unfoldable pub consume_wallet_nonce :
    Addresses → (merchant nonce : Text) → ℕ → Nonces → Bool × Nonces
unfolding is_wallet_nonce nonce_key consume_key
consume_wallet_nonce v merchant nonce now nonces =
    if not (v.is_address merchant) || not (is_wallet_nonce nonce)
    then (false, nonces)
    else consume_key (nonce_key (v.get_address merchant) nonce) now nonces

-- The parts of a `Request` that the check reads, with the headers of `WALLET_AUTH_HEADERS`.
pub record WalletRequest : Type 0 where
  pub merchant : Option Text
  pub timestamp : Option Text
  pub signature : Option Text
  pub nonce : Option Text
  pub method : Text
  pub pathname : Option Text
  pub body_text : Text

-- What the check calls: `recover` is the address that signed a message, none where it throws.
pub record Crypto : Type 0 where
  pub sha256_hex : Text → Text
  pub recover : (message signature : Text) → Option Text

pub data WalletOutcome : Type 0 where
  authorized : (merchant : Text) → WalletOutcome
  unauthorized : WalletOutcome
  store_unavailable : WalletOutcome

-- `toUpperCase` on ASCII.
abbrev pub upper_unit : ℕ → ℕ
upper_unit c = if leb b'a' c && leb c b'z' then c - 32 else c

-- `walletPayloadDigest`.
unfoldable pub wallet_payload_digest : Crypto → (method path body_text : Text) → Text
wallet_payload_digest k method path body_text =
    k.sha256_hex (map upper_unit method ++ (10 ∷ (path ++ (10 ∷ body_text))))

-- `walletAuthMessage`, with the timestamp's digits.
unfoldable pub wallet_auth_message : (action merchant timestamp nonce payload_digest : Text) → Text
wallet_auth_message action merchant timestamp nonce payload_digest =
    codes "FINAL wallet authorization"
    ++ (10 ∷ codes "action:"
        ++ action
        ++ (10 ∷ codes "merchant:"
            ++ merchant
            ++ (10 ∷ codes "timestamp:"
                ++ timestamp
                ++ (10 ∷ codes "nonce:" ++ nonce ++ (10 ∷ codes "payload:" ++ payload_digest)))))

-- `Math.abs(now - timestamp)`.
abbrev pub distance : ℕ → ℕ → ℕ
distance a b = (a - b) + (b - a)

-- The digits of a timestamp within the tolerance.
unfoldable pub timestamp_of : Text → (now : ℕ) → Option ℕ
unfolding big_int all_digits
timestamp_of raw now =
    if not (is_empty raw)
      && all_digits raw
      && leb (big_int raw) 9007199254740991
      && leb (distance now (big_int raw)) wallet_auth_tolerance_seconds
    then some (big_int raw)
    else none

-- `!header` is true of a missing and of an empty header.
abbrev pub present : Option Text → Bool
present none = false
present (some header) = not (is_empty header)

abbrev pub header : Option Text → Text
header none = []
header (some value) = value

module _ (v : Addresses) (k : Crypto) (show_number : ℕ → Text) (action : Text) where
  -- `getAddress(signer) === merchant`.
  abbrev pub signed_by : Option Text → Text → Bool
  signed_by none merchant = false
  signed_by (some signer) merchant = text_eq (v.get_address signer) merchant

  -- After the nonce is consumed.
  abbrev pub after_nonce : (merchant : Text) → Bool × Nonces → WalletOutcome × Nonces
  after_nonce merchant (consumed, nonces) =
      (if consumed then authorized merchant else unauthorized, nonces)

  -- The checks from the timestamp on; a store that cannot be reached is left as it is.
  unfoldable pub check_signed :
      WalletRequest
      → (merchant signature nonce : Text) → Option ℕ
      → Option Text
      → ℕ
      → (reachable : Bool) → Nonces
      → WalletOutcome × Nonces
  unfolding is_hex is_wallet_nonce wallet_payload_digest wallet_auth_message to_lower_case
      consume_wallet_nonce text_eq
  check_signed r merchant signature nonce none path now reachable nonces = (unauthorized, nonces)
  check_signed r merchant signature nonce (some timestamp) none now reachable nonces =
      (unauthorized, nonces)
  check_signed r merchant signature nonce (some timestamp) (some path) now reachable nonces =
      let message =
        wallet_auth_message action merchant (show_number timestamp) (to_lower_case nonce)
          (wallet_payload_digest k r.method path r.body_text) in
      if not (
        is_hex signature
        && is_wallet_nonce nonce
        && signed_by (k.recover message signature) merchant)
      then (unauthorized, nonces)
      else (if reachable
          then after_nonce merchant (consume_wallet_nonce v merchant nonce now nonces)
          else (store_unavailable, nonces))

  -- `recoverWalletMerchant`.
  unfoldable pub recover_wallet_merchant :
      WalletRequest → ℕ → (reachable : Bool) → Nonces → WalletOutcome × Nonces
  unfolding check_signed timestamp_of
  recover_wallet_merchant r now reachable nonces =
      if not (present r.merchant && present r.timestamp && present r.signature && present r.nonce)
        || not (v.is_address (header r.merchant))
      then (unauthorized, nonces)
      else check_signed r (v.get_address (header r.merchant)) (header r.signature) (header r.nonce)
          (timestamp_of (header r.timestamp) now) r.pathname now reachable nonces
