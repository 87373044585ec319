-- ===== src/Agents/Load.antt =====
-- How a call of src/lib/agentPayments.ts reads its request and its intent: the guards on
-- credentials and keys, `lookupIdempotency`, `loadOwned` and `findStoredRequest`.
use final_arc.Base.{
  Bool, true, false, not, ◌&&◌, ◌||◌, Option, none, some, List, [], ◌∷◌, ◌++◌, if◌then◌else◌, leb,
  is_empty, or_else, length, Text, codes, text_eq, text_lt, to_lower_case, includes, get, ◌≡◌, ap,
}
use final_arc.Base.Int.{ℤ, pos, ltb_ℤ, same_integer}
use final_arc.Base.Values.{Value, object, Fields, end, field}
use final_arc.Payments.{same_id, is_v2_request_id}
use final_arc.Receipts.{FinalRequest}
use final_arc.Agents.{
  read_kept, StoredIntent, AgentResult, IdempotencyRow, AgentStore, error_result,
}
use final_arc.Agents.Canonical.{JsonText, canonical_json, Alike, canonical_json-Alike}

-- A value, or the answer that a guard gives in its place: what `fail` throws and `asError` shows.
pub data Step (A : Type 0) : Type 0 where
  goes_on : A → Step A
  answers : AgentResult → Step A

-- What a handler reads of a `Request`: the names of its query, none where the URL does not parse; the
-- JSON of its body, none where it does not parse; its `Idempotency-Key`.
pub record AgentRequest : Type 0 where
  pub query : Option (List Text)
  pub json : Option Value
  pub idempotency_key : Option Text

abbrev pub missing_key : AgentResult
missing_key = error_result 401 (codes "unauthorized") (codes "API authentication required")

abbrev pub invalid_request : Text → AgentResult
invalid_request message = error_result 400 (codes "invalid_request") message

abbrev pub store_failure : AgentResult
store_failure = error_result 503 (codes "store_unavailable") (codes "Payment store is unavailable.")

abbrev pub internal_error : AgentResult
internal_error = error_result 500 (codes "internal") (codes "Something went wrong.")

-- `name in body`.
unfoldable pub has_field : Text → Fields → Bool
unfolding text_eq
has_field k end = false
has_field k (field j x fs) = text_eq j k || has_field k fs

-- The loop of `rejectSmuggledCredentials` over the query.
unfoldable pub check_query : Option (List Text) → Step Unit
unfolding includes
check_query none = answers (invalid_request (codes "Request URL is invalid."))
check_query (some names) =
    if includes names (codes "api_key")
      || includes names (codes "apiKey")
      || includes names (codes "key")
    then answers missing_key
    else goes_on tt

-- `readJson` and the guard on credentials in the body.
unfoldable pub read_json : Option Value → Step Fields
unfolding has_field
read_json none =
    answers (error_result 400 (codes "invalid_json") (codes "Request body must be JSON."))
read_json (some (object fs)) =
    if has_field (codes "apiKey") fs
      || has_field (codes "api_key") fs
      || has_field (codes "authorization") fs
    then answers (invalid_request (codes "API keys are not accepted in the request body."))
    else goes_on fs
read_json (some _) =
    answers (error_result 400 (codes "invalid_json") (codes "Request body must be a JSON object."))

-- `[\x21-\x7e]*`, to the end.
unfoldable pub all_visible : Text → Bool
all_visible [] = true
all_visible (c ∷ cs) = leb 33 c && leb c 126 && all_visible cs

-- `idempotencyKey`.
unfoldable pub idempotency_key : Option Text → Step Text
unfolding all_visible
idempotency_key none = answers (invalid_request (codes "Idempotency-Key header is required."))
idempotency_key (some raw) =
    if is_empty raw
    then answers (invalid_request (codes "Idempotency-Key header is required."))
    else (if not (all_visible raw && leb (length raw) 128)
        then answers
            (invalid_request (codes "Idempotency-Key must be 1 to 128 visible ASCII characters."))
        else goes_on raw)

-- The hash of the body.
unfoldable pub hash_of_body : (Text → Text) → JsonText → Fields → Step Text
unfolding canonical_json
hash_of_body sha256 json fs = elim (canonical_json json (object fs)) [
  | none ↦
      answers
        (invalid_request (codes "Request body must not contain floating-point or unsafe numbers."))
  | some text ↦ goes_on (sha256 text)
]

-- `idempotencyStorageId`.
unfoldable pub idempotency_storage_id : (Text → Text) → (merchant route key : Text) → Text
unfolding to_lower_case
idempotency_storage_id sha256 merchant route key =
    sha256 (to_lower_case merchant ++ (10 ∷ route ++ (10 ∷ key)))

-- The guards of `lookupIdempotency` on the row that is stored; none where it returns `null`.
unfoldable pub replay_of :
    (merchant route key hash : Text) → Option IdempotencyRow → Option AgentResult
unfolding same_id text_eq
replay_of merchant route key hash none = none
replay_of merchant route key hash (some r) =
    if not (same_id r.merchant merchant && text_eq r.route route && text_eq r.key key)
    then none
    else (if not (text_eq r.body_hash hash)
        then some (
            error_result 409 (codes "idempotency_conflict")
              (codes "This Idempotency-Key was already used with a different request body."))
        else some (record { status = r.status; body = r.body }))

-- `lookupIdempotency`; a conflict is an answer too.
unfoldable pub lookup_idempotency :
    (Text → Text) → AgentStore → (merchant route key hash : Text) → Option AgentResult
unfolding replay_of idempotency_storage_id read_kept get
lookup_idempotency sha256 store merchant route key hash =
    replay_of merchant route key hash
      (read_kept (get (idempotency_storage_id sha256 merchant route key) store.idempotency))

-- A payment record as `findStoredRequest` reads it: its token, the time of its creation, none where
-- that does not parse, and the version 2 request that its token encodes, if any.
pub record StoredLink : Type 0 where
  pub token : Text
  pub created : Option ℤ
  pub request : Option FinalRequest

-- The order of the sort.
abbrev pub comes_before : StoredLink → StoredLink → Bool
comes_before a b =
    let s : ℤ = or_else a.created (pos 0) in
    let t : ℤ = or_else b.created (pos 0) in
    ltb_ℤ s t || (same_integer s t && text_lt a.token b.token)

-- The filter of the loop.
unfoldable pub link_matches : (request_id merchant : Text) → StoredLink → Option FinalRequest
unfolding same_id
link_matches request_id merchant link = elim link.request [
  | none ↦ none
  | some r ↦ if same_id r.request_id request_id && same_id r.merchant merchant then some r else none
]

abbrev pub earlier_of :
    StoredLink × FinalRequest → Option (StoredLink × FinalRequest) → StoredLink × FinalRequest
earlier_of a none = a
earlier_of (a, r) (some (b, s)) = if comes_before b a then (b, s) else (a, r)

-- The first of the matches once they are sorted.
unfoldable pub first_match :
    (request_id merchant : Text) → List StoredLink → Option (StoredLink × FinalRequest)
unfolding link_matches text_lt
first_match request_id merchant [] = none
first_match request_id merchant (link ∷ links) =
    let rest = first_match request_id merchant links in
    elim (link_matches request_id merchant link) [
      | none ↦ rest
      | some r ↦ some (earlier_of (link, r) rest)
    ]

-- `findStoredRequest` of src/lib/developerApi.ts.
unfoldable pub find_stored_request :
    List StoredLink → (request_id merchant : Text) → Option (StoredLink × FinalRequest)
unfolding first_match is_v2_request_id
find_stored_request links request_id merchant =
    if not (is_v2_request_id request_id) then none else first_match request_id merchant links

pub record Loaded : Type 0 where
  pub intent : StoredIntent
  pub request : FinalRequest
  pub token : Text

abbrev pub unknown_intent : AgentResult
unknown_intent = error_result 404 (codes "not_found") (codes "Unknown payment intent.")

-- `loadOwned` for an intent that is the merchant's; `links` is none where `listRecords` throws.
unfoldable pub load_request : StoredIntent → Text → Option (List StoredLink) → Step Loaded
unfolding find_stored_request
load_request i merchant none = answers store_failure
load_request i merchant (some links) = elim (find_stored_request links i.request_id merchant) [
  | none ↦ answers unknown_intent
  | some (link, request) ↦ goes_on (record { intent = i; request = request; token = link.token })
]

-- `loadOwned`.
unfoldable pub load_owned :
    AgentStore → (id merchant : Text) → Option (List StoredLink) → Step Loaded
unfolding load_request read_kept get same_id
load_owned store id merchant links = elim (read_kept (get id store.intents)) [
  | none ↦ answers unknown_intent
  | some i ↦
      if not (same_id i.merchant merchant)
      then answers unknown_intent
      else load_request i merchant links
]

-- Two bodies that differ only in the order of the keys of their objects, at any depth, have the same
-- hash, or are refused alike.
pub hash_of_body-Alike :
    (sha256 : Text → Text) (json : JsonText) (fs gs : Fields)
    → Alike (object fs) (object gs)
    → hash_of_body sha256 json fs ≡ hash_of_body sha256 json gs
unfolding hash_of_body
hash_of_body-Alike sha256 json fs gs alike =
    ap
      (λ o. elim o [
        | none ↦ answers (
            invalid_request
              (codes "Request body must not contain floating-point or unsafe numbers."))
        | some text ↦ goes_on (sha256 text)
      ])
      (canonical_json-Alike json alike)
