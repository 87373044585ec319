-- ===== src/Policy/WellFormed.antt =====
-- What `parsePolicyRules` of src/lib/paymentPolicy.ts accepts, and that the evaluation can read it.
use final_arc.Base.{
  ◌≡◌, refl, subst, Bool, true, false, not, Option, none, some, List, [], ◌∷◌, ◌++◌, if◌then◌else◌,
  Text, codes, text_eq_iff, is_decimal, is_some, All, arith, includes,
}
use final_arc.Base.Int.{ℤ, pos, leb_ℤ, is_safe_integer, same_integer_iff}
use final_arc.Base.Addresses.{Addresses}
use final_arc.Base.Values.{Value, Items, Fields, trim, read_field}
use final_arc.Policy.{PaymentPolicyRules}
use final_arc.Policy.Parse.{
  Result, parsed, failed, and_then, parse_base_unit_field, parse_window, admit_only,
  admit_canonical, admit_address, admit_chain, parse_entries, parse_list, parse_address_list,
  parse_chain_list, optional, is_undefined, has_constraint, same_presence, check_parsed, usdc_only,
  assemble, parse_body, parse_fields, parse_policy_rules, unknown_key,
}

and_then-parsed :
    {A B : Type 0} (o : Result A) (f : A → Result B) (b : B)
    → and_then o f ≡ parsed b
    → (a : A) × (o ≡ parsed a) × (f a ≡ parsed b)
and_then-parsed (parsed a) f b e = (a, refl, e)
and_then-parsed (failed m) f b e = absurd (cc)

-- A predicate holds of a rule that is set.
abbrev pub Each : {A : Type 0} → (A → Type 0) → Option A → Type 0
Each P none = Unit
Each P (some a) = P a

parsed_inj : {A : Type 0} (a b : A) → ◌≡◌ {A = Result A} (parsed a) (parsed b) → a ≡ b
parsed_inj a b e = cc

optional_by :
    {A : Type 0} (u : Bool) (r : Result A) (a : A)
    → ◌≡◌ {A = Result (Option A)}
        (if u then parsed none else and_then r (λ b. parsed (some b)))
        (parsed (some a))
    → r ≡ parsed a
optional_by true r a e = absurd (cc)
optional_by false (parsed b) a e = cc
optional_by false (failed m) a e = absurd (cc)

module _ {A : Type 0} (P : A → Type 0) where
  optional-Each :
      (parse : Value → Result A) (value : Value) (o : Option A)
      → ((w : Value) (a : A) → parse w ≡ parsed a → P a)
      → optional parse value ≡ parsed o
      → Each P o
  unfolding optional
  optional-Each parse value none h e = tt
  optional-Each parse value (some a) h e =
      h value a (optional_by (is_undefined value) (parse value) a e)

  All-append : (xs ys : List A) → All P xs → All P ys → All P (xs ++ ys)
  All-append [] ys h k = k
  All-append (x ∷ xs) ys h k = (h.0, All-append xs ys h.1 k)

  parse_entries-All :
      (admit : List A → Value → Result A) (out : List A) (items : Items) (final : List A)
      → ((o : List A) (w : Value) (a : A) → admit o w ≡ parsed a → P a)
      → All P out
      → parse_entries admit out items ≡ parsed final
      → All P final
  unfolding parse_entries
  parse_entries-All admit out Items.nil final h k e = subst (All P) (parsed_inj out final e) k
  parse_entries-All admit out (Items.cons value rest) final h k e =
      let (a, admitted, more) =
        and_then-parsed (admit out value) (λ next. parse_entries admit (out ++ next ∷ []) rest)
          final e in
      parse_entries-All admit (out ++ a ∷ []) rest final h
        (All-append out (a ∷ []) k (h out value a admitted, tt)) more

  parse_list-All :
      (message : Text) (admit : List A → Value → Result A) (value : Value) (final : List A)
      → ((o : List A) (w : Value) (a : A) → admit o w ≡ parsed a → P a)
      → parse_list message admit value ≡ parsed final
      → All P final
  unfolding parse_list
  parse_list-All message admit (Value.array items) final h e =
      parse_entries-All admit [] items final h tt e
  parse_list-All message admit _ final h e = absurd (cc)

abbrev pub IsDecimal : Text → Type 0
IsDecimal s = is_decimal s ≡ true

abbrev pub IsWindow : ℤ → Type 0
IsWindow w = (is_safe_integer w ≡ true) × (leb_ℤ w (pos 0) ≡ false)

parse_base_unit_field-IsDecimal :
    (field : Text) (value : Value) (s : Text)
    → parse_base_unit_field field value ≡ parsed s
    → IsDecimal s
unfolding parse_base_unit_field
parse_base_unit_field-IsDecimal field (Value.string t) s e = ground (arith, text_eq_iff (trim t) t)
parse_base_unit_field-IsDecimal field _ s e = absurd (cc)

parse_window-IsWindow : (value : Value) (w : ℤ) → parse_window value ≡ parsed w → IsWindow w
unfolding parse_window
parse_window-IsWindow (Value.number n) w e = ground arith
parse_window-IsWindow _ w e = absurd (cc)

admit_chain-arc :
    (out : List ℤ) (value : Value) (c : ℤ) → admit_chain out value ≡ parsed c → c ≡ pos 5042
unfolding admit_chain
admit_chain-arc out (Value.number n) c e = ground (arith, same_integer_iff n (pos 5042))
admit_chain-arc out _ c e = absurd (cc)

admit_only-same :
    (field : Text) (only : Text) (next a : Text)
    → admit_only field (some only) next ≡ parsed a
    → a ≡ only
unfolding admit_only
admit_only-same field only next a e = ground (arith, text_eq_iff next only)

after_only :
    (field : Text) (out : List Text) (o : Result Text) (a only : Text)
    → ((b : Text) → o ≡ parsed b → b ≡ only)
    → and_then o (λ same.
      if includes out same
      then failed (field ++ codes " contains a duplicate address.")
      else parsed same)
      ≡ parsed a
    → a ≡ only
after_only field out (failed m) a only h e = absurd (cc)
after_only field out (parsed b) a only h e = ground (arith, h b refl)

admit_canonical-same :
    (field only : Text) (out : List Text) (o : Option Text) (a : Text)
    → admit_canonical field (some only) out o ≡ parsed a
    → a ≡ only
unfolding admit_canonical
admit_canonical-same field only out none a e = absurd (cc)
admit_canonical-same field only out (some next) a e =
    after_only field out (admit_only field (some only) next) a only
      (λ b h. admit_only-same field only next b h) e

admit_address-same :
    (v : Addresses) (field only : Text) (out : List Text) (value : Value) (a : Text)
    → admit_address v field (some only) out value ≡ parsed a
    → a ≡ only
unfolding admit_address
admit_address-same v field only out (Value.string entry) a e =
    admit_canonical-same field only out _ a e
admit_address-same v field only out _ a e = absurd (cc)

-- Rules that can be stored: canonical decimal amounts, a positive window that is set if and only if
-- the cap on spending is, USDC as the only token, Arc as the only chain, and at least one limit.
pub record WellFormed (v : Addresses) (r : PaymentPolicyRules) : Type 0 where
  pub amount : Each IsDecimal r.max_amount_base_units
  pub spend : Each IsDecimal r.max_spend_base_units
  pub window : Each IsWindow r.window_seconds
  pub paired : is_some r.max_spend_base_units ≡ is_some r.window_seconds
  pub tokens :
      Each
        (All (λ t. t ≡ v.get_address (codes "0x3600000000000000000000000000000000000000")))
        r.allowed_tokens
  pub chains : Each (All (λ c. c ≡ pos 5042)) r.allowed_chain_ids
  pub constrained : has_constraint r ≡ true

same_presence-eq : (a b : Bool) → same_presence a b ≡ true → a ≡ b
same_presence-eq a b h = ground arith

facts_by :
    (pair limit : Bool) (r q : PaymentPolicyRules)
    → ◌≡◌ {A = Result PaymentPolicyRules}
        (if not pair
          then failed (codes "maxSpendBaseUnits and windowSeconds must be set together.")
          else (if not limit
              then failed (codes "A policy must set at least one limit or allowlist.")
              else parsed r))
        (parsed q)
    → (r ≡ q) × (pair ≡ true) × (limit ≡ true)
facts_by true true r q e = (parsed_inj r q e, refl, refl)
facts_by true false r q e = absurd (cc)
facts_by false limit r q e = absurd (cc)

check_parsed-facts :
    (r q : PaymentPolicyRules)
    → check_parsed r ≡ parsed q
    → (r ≡ q)
      × (same_presence (is_some r.max_spend_base_units) (is_some r.window_seconds) ≡ true)
      × (has_constraint r ≡ true)
unfolding check_parsed
check_parsed-facts r q e =
    facts_by (same_presence (is_some r.max_spend_base_units) (is_some r.window_seconds))
      (has_constraint r) r q e

module _ (v : Addresses) where
  abbrev IsUsdc : Text → Type 0
  IsUsdc t = t ≡ v.get_address (codes "0x3600000000000000000000000000000000000000")

  abbrev IsArc : ℤ → Type 0
  IsArc c = c ≡ pos 5042

  assemble-WellFormed :
      (amount spend : Result (Option Text)) (window : Result (Option ℤ))
      (recipients agents tokens : Result (Option (List Text))) (chains : Result (Option (List ℤ)))
      (q : PaymentPolicyRules)
      → ((x : Option Text) → amount ≡ parsed x → Each IsDecimal x)
      → ((x : Option Text) → spend ≡ parsed x → Each IsDecimal x)
      → ((x : Option ℤ) → window ≡ parsed x → Each IsWindow x)
      → ((x : Option (List Text)) → tokens ≡ parsed x → Each (All IsUsdc) x)
      → ((x : Option (List ℤ)) → chains ≡ parsed x → Each (All IsArc) x)
      → assemble amount spend window recipients agents tokens chains ≡ parsed q
      → WellFormed v q
  unfolding assemble
  assemble-WellFormed (failed m) _ _ _ _ _ _ q ha hs hw ht hc e = absurd (cc)
  assemble-WellFormed (parsed a) (failed m) _ _ _ _ _ q ha hs hw ht hc e = absurd (cc)
  assemble-WellFormed (parsed a) (parsed s) (failed m) _ _ _ _ q ha hs hw ht hc e = absurd (cc)
  assemble-WellFormed (parsed a) (parsed s) (parsed w) (failed m) _ _ _ q ha hs hw ht hc e =
      absurd (cc)
  assemble-WellFormed (parsed a) (parsed s) (parsed w) (parsed r) (failed m) _ _ q ha hs hw ht hc
        e =
      absurd (cc)
  assemble-WellFormed (parsed a) (parsed s) (parsed w) (parsed r) (parsed g) (failed m) _ q ha hs hw
        ht hc e =
      absurd (cc)
  assemble-WellFormed (parsed a) (parsed s) (parsed w) (parsed r) (parsed g) (parsed t) (failed m) q
        ha hs hw ht hc e =
      absurd (cc)
  assemble-WellFormed (parsed a) (parsed s) (parsed w) (parsed r) (parsed g) (parsed t) (parsed c) q
        ha hs hw ht hc e =
      let (same, pair, limit) = check_parsed-facts _ q e in
      subst (WellFormed v) same (record {
        amount = ha a refl;
        spend = hs s refl;
        window = hw w refl;
        paired = same_presence-eq (is_some s) (is_some w) pair;
        tokens = ht t refl;
        chains = hc c refl;
        constrained = limit;
      })

  parse_body-WellFormed :
      (body : Fields) (r : PaymentPolicyRules) → parse_body v body ≡ parsed r → WellFormed v r
  unfolding parse_body parse_address_list parse_chain_list
  parse_body-WellFormed body r e =
      assemble-WellFormed _ _ _ _ _ _ _ r
        (λ x.
          optional-Each IsDecimal (parse_base_unit_field (codes "maxAmountBaseUnits"))
            (read_field (codes "maxAmountBaseUnits") body) x
            (λ w a. parse_base_unit_field-IsDecimal (codes "maxAmountBaseUnits") w a))
        (λ x.
          optional-Each IsDecimal (parse_base_unit_field (codes "maxSpendBaseUnits"))
            (read_field (codes "maxSpendBaseUnits") body) x
            (λ w a. parse_base_unit_field-IsDecimal (codes "maxSpendBaseUnits") w a))
        (λ x.
          optional-Each IsWindow parse_window (read_field (codes "windowSeconds") body) x
            parse_window-IsWindow)
        (λ x.
          optional-Each (All IsUsdc) (parse_address_list v (codes "allowedTokens") (usdc_only v))
            (read_field (codes "allowedTokens") body) x
            (λ w l.
              parse_list-All IsUsdc _ (admit_address v (codes "allowedTokens") (usdc_only v)) w l
                (λ o u a. admit_address-same v (codes "allowedTokens") _ o u a)))
        (λ x.
          optional-Each (All IsArc) parse_chain_list (read_field (codes "allowedChainIds") body) x
            (λ w l. parse_list-All IsArc _ admit_chain w l admit_chain-arc))
        e

  parse_fields-WellFormed :
      (o : Option Text) (body : Fields) (r : PaymentPolicyRules)
      → parse_fields v o body ≡ parsed r
      → WellFormed v r
  unfolding parse_fields
  parse_fields-WellFormed none body r e = parse_body-WellFormed body r e
  parse_fields-WellFormed (some key) body r e = absurd (cc)

  -- Whatever value arrives from outside, rules that `parsePolicyRules` accepts are well formed: the
  -- amounts are canonical decimals, the window is a positive safe integer that is set exactly when
  -- the cap on spending is, the tokens are all USDC, the chains are all Arc, and there is a limit.
  pub parse_policy_rules-WellFormed :
      (value : Value) (r : PaymentPolicyRules)
      → parse_policy_rules v value ≡ parsed r
      → WellFormed v r
  unfolding parse_policy_rules
  parse_policy_rules-WellFormed (Value.object body) r e =
      parse_fields-WellFormed (unknown_key body) body r e
  parse_policy_rules-WellFormed _ r e = absurd (cc)
