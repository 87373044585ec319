-- ===== src/Policy/Parse.antt =====
-- `parsePolicyRules` of src/lib/paymentPolicy.ts, on a value from outside. The address of USDC is that
-- of src/lib/arc.ts.
use final_arc.Base.{
  ℕ, Bool, true, false, not, ◌&&◌, ◌||◌, Option, none, some, List, [], ◌∷◌, ◌++◌, if◌then◌else◌,
  leb, ◌==◌, Text, codes, text_eq, includes, is_decimal, is_digit, length, is_some, any_of,
}
use final_arc.Base.Int.{ℤ, pos, leb_ℤ, is_safe_integer, same_integer}
use final_arc.Base.Addresses.{Addresses, canonicalize_address}
use final_arc.Base.Values.{Value, Items, Fields, trim, read_field}
use final_arc.Policy.{PaymentPolicyRules}

-- What a parser returns, or its `{ error }`.
pub data Result (A : Type 0) : Type 0 where
  parsed : A → Result A
  failed : Text → Result A

-- `if (isError(parsed)) return parsed;` and what follows.
abbrev pub and_then : {A B : Type 0} → Result A → (A → Result B) → Result B
and_then (parsed a) next = next a
and_then (failed message) next = failed message

-- `parseBaseUnitField`.
unfoldable pub parse_base_unit_field : Text → Value → Result Text
unfolding is_decimal trim
parse_base_unit_field field (Value.string s) =
    if is_decimal (trim s) && text_eq (trim s) s
    then parsed s
    else failed (field ++ codes " must be a canonical integer string of base units.")
parse_base_unit_field field _ =
    failed (field ++ codes " must be a canonical integer string of base units.")

-- The check of `windowSeconds`.
unfoldable pub parse_window : Value → Result ℤ
parse_window (Value.number n) =
    if is_safe_integer n && not (leb_ℤ n (pos 0))
    then parsed n
    else failed (codes "windowSeconds must be a positive integer.")
parse_window _ = failed (codes "windowSeconds must be a positive integer.")

-- `if (only && next !== only) return { error };`.
unfoldable pub admit_only : Text → (only : Option Text) → Text → Result Text
admit_only field none next = parsed next
admit_only field (some only) next =
    if not (text_eq next only)
    then failed (field ++ codes " only supports " ++ only ++ codes ".")
    else parsed next

-- The checks on the canonical form of an address.
unfoldable pub admit_canonical :
    Text → (only : Option Text) → (out : List Text) → Option Text → Result Text
unfolding admit_only includes
admit_canonical field only out none = failed (field ++ codes " contains an invalid address.")
admit_canonical field only out (some next) = and_then (admit_only field only next) (λ same.
    if includes out same
    then failed (field ++ codes " contains a duplicate address.")
    else parsed same)

unfoldable pub admit_address :
    Addresses → Text → (only : Option Text) → (out : List Text) → Value → Result Text
unfolding admit_canonical
admit_address v field only out (Value.string entry) =
    admit_canonical field only out (canonicalize_address v entry)
admit_address v field only out _ = failed (field ++ codes " must be an array of addresses.")

-- `/^[A-Za-z0-9._:-]{1,64}$/`.
abbrev is_agent_unit : ℕ → Bool
is_agent_unit c =
    (leb b'A' c && leb c b'Z')
    || (leb b'a' c && leb c b'z')
    || is_digit c
    || c == b'.'
    || c == b'_'
    || c == b':'
    || c == b'-'

unfoldable all_agent_units : Text → Bool
all_agent_units [] = true
all_agent_units (c ∷ cs) = is_agent_unit c && all_agent_units cs

unfoldable pub is_agent_id : Text → Bool
unfolding all_agent_units
is_agent_id s = leb 1 (length s) && leb (length s) 64 && all_agent_units s

abbrev agent_error : Text
agent_error = codes "allowedAgentIds entries must be 1 to 64 letters, numbers, or . _ : -."

unfoldable pub admit_agent : (out : List Text) → Value → Result Text
unfolding is_agent_id includes
admit_agent out (Value.string entry) =
    if not (is_agent_id entry)
    then failed agent_error
    else (if includes out entry
        then failed (codes "allowedAgentIds contains a duplicate id.")
        else parsed entry)
admit_agent out _ = failed agent_error

unfoldable pub admit_chain : (out : List ℤ) → Value → Result ℤ
admit_chain out (Value.number entry) =
    if not (is_safe_integer entry)
    then failed (codes "allowedChainIds must contain integer chain ids.")
    else (if not (same_integer entry (pos 5042))
        then failed (codes "allowedChainIds only supports chain 5042.")
        else (if any_of (same_integer entry) out
            then failed (codes "allowedChainIds contains a duplicate chain.")
            else parsed entry))
admit_chain out _ = failed (codes "allowedChainIds must contain integer chain ids.")

-- The loop that the three list parsers share: each entry is checked against those before it.
unfoldable pub parse_entries :
    {A : Type 0} → (List A → Value → Result A) → List A → Items → Result (List A)
parse_entries admit out Items.nil = parsed out
parse_entries admit out (Items.cons value rest) =
    and_then (admit out value) (λ next. parse_entries admit (out ++ next ∷ []) rest)

unfoldable pub parse_list :
    {A : Type 0} → Text → (List A → Value → Result A) → Value → Result (List A)
unfolding parse_entries
parse_list message admit (Value.array items) = parse_entries admit [] items
parse_list message admit _ = failed message

unfoldable pub parse_address_list :
    Addresses → Text → (only : Option Text) → Value → Result (List Text)
unfolding parse_list admit_address
parse_address_list v field only value =
    parse_list (field ++ codes " must be an array of addresses.") (admit_address v field only) value

unfoldable pub parse_agent_list : Value → Result (List Text)
unfolding parse_list admit_agent
parse_agent_list value =
    parse_list (codes "allowedAgentIds must be an array of agent ids.") admit_agent value

unfoldable pub parse_chain_list : Value → Result (List ℤ)
unfolding parse_list admit_chain
parse_chain_list value =
    parse_list (codes "allowedChainIds must be an array of chain ids.") admit_chain value

abbrev pub is_undefined : Value → Bool
is_undefined Value.undefined = true
is_undefined _ = false

-- A rule that the body does not set is left out.
unfoldable pub optional : {A : Type 0} → (Value → Result A) → Value → Result (Option A)
optional parse value =
    if is_undefined value then parsed none else and_then (parse value) (λ a. parsed (some a))

unfoldable pub rule_keys : List Text
rule_keys =
    codes "maxAmountBaseUnits"
    ∷ codes "maxSpendBaseUnits"
    ∷ codes "windowSeconds"
    ∷ codes "allowedRecipients"
    ∷ codes "allowedAgentIds"
    ∷ codes "allowedTokens"
    ∷ codes "allowedChainIds"
    ∷ []

-- The first key that is none of the rules'.
unfoldable pub unknown_key : Fields → Option Text
unfolding rule_keys includes
unknown_key Fields.end = none
unknown_key (Fields.field key value rest) =
    let more = unknown_key rest in if includes rule_keys key then more else some key

-- `hasConstraint`.
unfoldable pub has_constraint : PaymentPolicyRules → Bool
has_constraint r =
    is_some r.max_amount_base_units
    || is_some r.max_spend_base_units
    || is_some r.allowed_recipients
    || is_some r.allowed_agent_ids
    || is_some r.allowed_tokens
    || is_some r.allowed_chain_ids

abbrev pub same_presence : Bool → Bool → Bool
same_presence true b = b
same_presence false b = not b

-- The two tests at the end of `parsePolicyRules`.
unfoldable pub check_parsed : PaymentPolicyRules → Result PaymentPolicyRules
unfolding has_constraint
check_parsed r =
    if not (same_presence (is_some r.max_spend_base_units) (is_some r.window_seconds))
    then failed (codes "maxSpendBaseUnits and windowSeconds must be set together.")
    else (if not (has_constraint r)
        then failed (codes "A policy must set at least one limit or allowlist.")
        else parsed r)

-- The rules from what became of each key: the first failure in the order of the source, or the
-- tests at the end.
unfoldable pub assemble :
    (amount spend : Result (Option Text))
    → (window : Result (Option ℤ)) → (recipients agents tokens : Result (Option (List Text)))
    → (chains : Result (Option (List ℤ))) → Result PaymentPolicyRules
unfolding check_parsed
assemble (failed m) _ _ _ _ _ _ = failed m
assemble (parsed a) (failed m) _ _ _ _ _ = failed m
assemble (parsed a) (parsed s) (failed m) _ _ _ _ = failed m
assemble (parsed a) (parsed s) (parsed w) (failed m) _ _ _ = failed m
assemble (parsed a) (parsed s) (parsed w) (parsed r) (failed m) _ _ = failed m
assemble (parsed a) (parsed s) (parsed w) (parsed r) (parsed g) (failed m) _ = failed m
assemble (parsed a) (parsed s) (parsed w) (parsed r) (parsed g) (parsed t) (failed m) = failed m
assemble (parsed a) (parsed s) (parsed w) (parsed r) (parsed g) (parsed t) (parsed c) =
    check_parsed (record {
      max_amount_base_units = a;
      max_spend_base_units = s;
      window_seconds = w;
      allowed_recipients = r;
      allowed_agent_ids = g;
      allowed_tokens = t;
      allowed_chain_ids = c;
    })

module _ (v : Addresses) where
  -- `getAddress(USDC_ADDRESS)`.
  abbrev pub usdc_only : Option Text
  usdc_only = some (v.get_address (codes "0x3600000000000000000000000000000000000000"))

  -- The rules of the body, each read from its key.
  unfoldable pub parse_body : Fields → Result PaymentPolicyRules
  unfolding read_field parse_base_unit_field parse_window parse_address_list parse_agent_list
      parse_chain_list optional assemble
  parse_body body =
      assemble
        (optional (parse_base_unit_field (codes "maxAmountBaseUnits"))
          (read_field (codes "maxAmountBaseUnits") body))
        (optional (parse_base_unit_field (codes "maxSpendBaseUnits"))
          (read_field (codes "maxSpendBaseUnits") body))
        (optional parse_window (read_field (codes "windowSeconds") body))
        (optional (parse_address_list v (codes "allowedRecipients") none)
          (read_field (codes "allowedRecipients") body))
        (optional parse_agent_list (read_field (codes "allowedAgentIds") body))
        (optional (parse_address_list v (codes "allowedTokens") usdc_only)
          (read_field (codes "allowedTokens") body))
        (optional parse_chain_list (read_field (codes "allowedChainIds") body))

  unfoldable pub parse_fields : Option Text → Fields → Result PaymentPolicyRules
  unfolding parse_body
  parse_fields (some key) body = failed (codes "Unknown policy rule " ++ key ++ codes ".")
  parse_fields none body = parse_body body

  -- `parsePolicyRules`.
  unfoldable pub parse_policy_rules : Value → Result PaymentPolicyRules
  unfolding parse_fields unknown_key
  parse_policy_rules (Value.object body) = parse_fields (unknown_key body) body
  parse_policy_rules _ = failed (codes "rules must be an object.")
