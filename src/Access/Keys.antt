-- ===== src/Access/Keys.antt =====
-- API keys (src/lib/apiKeys.ts): their store, and `authenticateAuthorization`. Clocks are whole
-- seconds; hashing, the clock's text and the shared counters are parameters.
use final_arc.Base.{
  ℕ, ◌+◌, ◌-◌, ◌*◌, Bool, true, false, not, ◌&&◌, ◌||◌, Option, none, some, List, [], ◌∷◌, ◌++◌,
  if◌then◌else◌, ltb, leb, ◌==◌, is_empty, is_some, any_of, take, drop, Text, codes, text_eq,
  to_lower_case, lower_hex, drop_prefix, includes, length, get, put, values, Entries,
}
use final_arc.Base.Values.{trim, trim_start, is_space}
use final_arc.Base.Addresses.{Addresses}

pub record ApiKeyRecord : Type 0 where
  pub id : Text
  pub merchant : Text
  pub name : Text
  pub prefix : Text
  pub hash : Text
  pub scopes : List Text
  pub enabled : Bool
  pub revoked : Bool
  pub created_at : Text
  pub last_used_at : Option Text
  pub expires_at : Option Text

-- An entry that `asApiKeyRecord` cannot read is none.
abbrev pub ApiKeys : Type 0
ApiKeys = Entries (Option ApiKeyRecord)

abbrev pub api_key_prefix_text : Text
api_key_prefix_text = codes "final_live_"

abbrev pub api_key_rate_limit_per_minute : ℕ
api_key_rate_limit_per_minute = 60

abbrev pub pre_auth_rate_limit_per_minute : ℕ
pre_auth_rate_limit_per_minute = 60

abbrev pub api_key_last_used_min_interval_seconds : ℕ
api_key_last_used_min_interval_seconds = 60

abbrev pub body_of_secret : (secret : Text) → Option Text → Text
body_of_secret secret none = secret
body_of_secret secret (some body) = body

-- `apiKeyPrefix`.
unfoldable pub api_key_prefix : Text → Text
unfolding drop_prefix
api_key_prefix secret =
    api_key_prefix_text ++ take 8 (body_of_secret secret (drop_prefix api_key_prefix_text secret))

-- `hashesEqual`: equal bytes are equal lower-case digits.
unfoldable pub hashes_equal : Text → Text → Bool
unfolding lower_hex text_eq
hashes_equal left right =
    lower_hex left
    && length left == 64
    && lower_hex right
    && length right == 64
    && text_eq left right

-- A fixed window: its start and the calls in it.
pub record CallWindow : Type 0 where
  pub start : ℕ
  pub count : ℕ

abbrev pub open_window : Option CallWindow → ℕ → Option CallWindow
open_window none now = none
open_window (some bucket) now = if leb 60 (now - bucket.start) then none else some bucket

abbrev pub counted :
    (slot : Text)
    → (limit now : ℕ) → Option CallWindow
    → Entries CallWindow
    → Bool × Entries CallWindow
counted slot limit now none buckets = (true, put slot (record { start = now; count = 1 }) buckets)
counted slot limit now (some bucket) buckets =
    if leb limit bucket.count
    then (false, buckets)
    else (true, put slot (record bucket { count = bucket.count + 1 }) buckets)

-- `checkRateLimit` on a slot, and `allowPreAuth`.
unfoldable pub count_call :
    (slot : Text) → (limit now : ℕ) → Entries CallWindow → Bool × Entries CallWindow
unfolding get put
count_call slot limit now buckets =
    counted slot limit now (open_window (get slot buckets) now) buckets

-- `routeClassForScope`: up to the colon.
unfoldable pub route_class_for_scope : Text → Text
route_class_for_scope [] = []
route_class_for_scope (c ∷ cs) =
    let rest = route_class_for_scope cs in if c == b':' then [] else c ∷ rest

-- `touchLastUsed`: a revoked or disabled key stays as it is.
abbrev pub touched : (id iso : Text) → Option (Option ApiKeyRecord) → ApiKeys → ApiKeys
touched id iso (some (some row)) keys =
    if row.revoked || not row.enabled
    then keys
    else put id (some (record row { last_used_at = some iso })) keys
touched id iso _ keys = keys

unfoldable pub touch_last_used : (id iso : Text) → ApiKeys → ApiKeys
unfolding get put
touch_last_used id iso keys = touched id iso (get id keys) keys

-- The token of `/^Bearer\s+(\S+)\s*$/i` on a trimmed header.
abbrev pub token_after : Text → Option Text
token_after [] = none
token_after (c ∷ cs) =
    let token = trim_start (c ∷ cs) in
    if not (is_space c) || is_empty token || any_of is_space token then none else some token

unfoldable pub bearer_token : Text → Option Text
unfolding to_lower_case text_eq trim_start is_space
bearer_token header =
    if text_eq (to_lower_case (take 6 header)) (codes "bearer")
    then token_after (drop 6 header)
    else none

-- `ApiKeyRuntime` and the process's counters: `digest` names a prefix's bucket, `parse_date` is
-- none for NaN, `listed` is none where the store fails, `touch_fails` where the write of
-- `lastUsedAt` does, and `others` is what other callers do to the keys before that write.
pub record AuthRuntime : Type 0 where
  pub now : ℕ
  pub pepper : Option Text
  pub rate_limit : ℕ
  pub hash_api_secret : (secret pepper : Text) → Text
  pub digest : Text → Text
  pub iso : ℕ → Text
  pub parse_date : Text → Option ℕ
  pub shared_pre_auth : Text → Bool
  pub shared_key : Text → Bool
  pub store_fails : Bool
  pub touch_fails : Bool
  pub others : ApiKeys → ApiKeys

pub record AuthState : Type 0 where
  pub pre_auth : Entries CallWindow
  pub rates : Entries CallWindow
  pub last_used_write : Entries ℕ
  pub keys : ApiKeys

pub data AuthOutcome : Type 0 where
  authorized : (merchant key_id : Text) → (scopes : List Text) → AuthOutcome
  failure : (status : ℕ) → AuthOutcome

-- `Object.values` and `asApiKeyRecord`.
unfoldable pub readable_keys : List (Option ApiKeyRecord) → List ApiKeyRecord
readable_keys [] = []
readable_keys (none ∷ rows) = readable_keys rows
readable_keys (some row ∷ rows) = row ∷ readable_keys rows

-- The last key with the prefix and the hash.
abbrev pub later_match : Bool → ApiKeyRecord → Option ApiKeyRecord → Option ApiKeyRecord
later_match hit key (some match) = some match
later_match hit key none = if hit then some key else none

unfoldable pub match_key : (prefix hash : Text) → List ApiKeyRecord → Option ApiKeyRecord
unfolding hashes_equal text_eq
match_key prefix hash [] = none
match_key prefix hash (key ∷ keys) =
    later_match (text_eq key.prefix prefix && hashes_equal hash key.hash) key
      (match_key prefix hash keys)

module _ (v : Addresses) (r : AuthRuntime) (scope : Text) where
  abbrev pub date_passed : Option ℕ → Bool
  date_passed none = true
  date_passed (some at) = leb at (r.now * 1000)

  abbrev pub key_expired : Option Text → Bool
  key_expired none = false
  key_expired (some expires_at) = not (is_empty expires_at) && date_passed (r.parse_date expires_at)

  abbrev pub written_lately : Option ℕ → Bool
  written_lately none = false
  written_lately (some at) = ltb (r.now - at) api_key_last_used_min_interval_seconds

  -- `noteLastUsed`.
  unfoldable pub note_last_used : (id : Text) → AuthState → AuthState
  unfolding touch_last_used get put
  note_last_used id s =
      if written_lately (get id s.last_used_write) || r.touch_fails then s else record s {
        last_used_write = put id r.now s.last_used_write;
        keys = touch_last_used id (r.iso r.now) (r.others s.keys);
      }

  unfoldable pub scoped : ApiKeyRecord → AuthState → AuthOutcome × AuthState
  unfolding includes
  scoped key s =
      if not (includes key.scopes scope)
      then (failure 403, s)
      else (if not (v.is_address key.merchant)
          then (failure 401, s)
          else (authorized (v.get_address key.merchant) key.id key.scopes, s))

  -- The limits of a key, its use, its scopes.
  unfoldable pub limited : ApiKeyRecord → AuthState → AuthOutcome × AuthState
  unfolding count_call route_class_for_scope note_last_used scoped
  limited key s =
      let slot = key.id ++ (b':' ∷ route_class_for_scope scope) in
      let hit = count_call slot r.rate_limit r.now s.rates in
      let after = record s { rates = hit.1 } in
      if not hit.0 || not (r.shared_key (codes "key:" ++ slot))
      then (failure 429, after)
      else scoped key (note_last_used key.id after)

  unfoldable pub usable : Option ApiKeyRecord → AuthState → AuthOutcome × AuthState
  unfolding limited
  usable none s = (failure 401, s)
  usable (some key) s =
      if not key.enabled || key.revoked || key_expired key.expires_at
      then (failure 401, s)
      else limited key s

  -- Past the pepper: the bucket of the prefix, then the keys.
  unfoldable pub presented : (token pepper : Text) → AuthState → AuthOutcome × AuthState
  unfolding count_call usable match_key readable_keys api_key_prefix
  presented token pepper s =
      let prefix = api_key_prefix token in
      let hit = count_call (r.digest prefix) pre_auth_rate_limit_per_minute r.now s.pre_auth in
      let after = record s { pre_auth = hit.1 } in
      if not hit.0 || not (r.shared_pre_auth (codes "prefix:" ++ r.digest prefix))
      then (failure 429, after)
      else (if r.store_fails
          then (failure 503, after)
          else usable
              (match_key prefix (r.hash_api_secret token pepper) (readable_keys (values s.keys)))
              after)

  unfoldable pub peppered : (token : Text) → Option Text → AuthState → AuthOutcome × AuthState
  unfolding presented trim
  peppered token none s = (failure 503, s)
  peppered token (some pepper) s =
      if is_empty (trim pepper) then (failure 503, s) else presented token (trim pepper) s

  unfoldable pub with_token : Option Text → AuthState → AuthOutcome × AuthState
  unfolding peppered drop_prefix
  with_token none s = (failure 401, s)
  with_token (some token) s =
      if not (is_some (drop_prefix api_key_prefix_text token))
        || leb (length token) (length api_key_prefix_text)
      then (failure 401, s)
      else peppered token r.pepper s

  -- `authenticateAuthorization`.
  unfoldable pub authenticate_authorization : Option Text → AuthState → AuthOutcome × AuthState
  unfolding with_token bearer_token trim
  authenticate_authorization none s = (failure 401, s)
  authenticate_authorization (some authorization) s =
      let header = trim authorization in
      if is_empty header then (failure 401, s) else with_token (bearer_token header) s
