-- ===== src/Access/Admission.antt =====
-- Whom a bearer key admits (src/lib/apiKeys.ts).
use final_arc.Base.{
  ◌≡◌, refl, subst, inl, inr, ◌⊎◌, Bool, true, false, not, ◌&&◌, ◌||◌, Option, none, some, List, [],
  ◌∷◌, ◌++◌, if◌then◌else◌, leb, is_empty, is_some, Text, codes, text_eq, drop_prefix, includes,
  length, values, arith, and_iff,
}
use final_arc.Base.Values.{trim}
use final_arc.Base.Addresses.{Addresses}
use final_arc.Access.Keys.{
  ApiKeyRecord, ApiKeys, api_key_prefix, api_key_prefix_text, pre_auth_rate_limit_per_minute,
  hashes_equal, count_call, route_class_for_scope, bearer_token, AuthRuntime, AuthState,
  AuthOutcome, authorized, failure, readable_keys, later_match, match_key, key_expired,
  note_last_used, scoped, limited, usable, presented, peppered, with_token,
  authenticate_authorization,
}

-- A row of a list.
abbrev pub Among : ApiKeyRecord → List ApiKeyRecord → Type 0
Among key [] = ⊥
Among key (row ∷ rows) = (row ≡ key) ⊎ Among key rows

match_key-some :
    (prefix hash : Text) (rows : List ApiKeyRecord) (key : ApiKeyRecord)
    → match_key prefix hash rows ≡ some key
    → Among key rows × (text_eq key.prefix prefix ≡ true) × (hashes_equal hash key.hash ≡ true)
unfolding match_key
match_key-some prefix hash [] key e = absurd (cc)
match_key-some prefix hash (row ∷ rows) key e =
    from (match_key prefix hash rows) (λ k. match_key-some prefix hash rows key k)
      (text_eq row.prefix prefix && hashes_equal hash row.hash) refl e
  where
    from :
        (o : Option ApiKeyRecord)
        → (o ≡ some key
            → Among key rows
              × (text_eq key.prefix prefix ≡ true)
              × (hashes_equal hash key.hash ≡ true))
        → (hit : Bool) → (text_eq row.prefix prefix && hashes_equal hash row.hash) ≡ hit
        → later_match hit row o ≡ some key
        → (Among key (row ∷ rows))
          × (text_eq key.prefix prefix ≡ true)
          × (hashes_equal hash key.hash ≡ true)
    from (some match) f hit h e = let r = f e in (inr r.0, r.1, r.2)
    from none f false h e = absurd (cc)
    from none f true h e =
        let same = injective e in
        let both = (and_iff (text_eq row.prefix prefix) (hashes_equal hash row.hash)).0 h in
        (
          inl same,
          subst (λ k. text_eq k.prefix prefix ≡ true) same both.0,
          subst (λ k. hashes_equal hash k.hash ≡ true) same both.1,
        )
      where
        injective : ◌≡◌ {A = Option ApiKeyRecord} (some row) (some key) → row ≡ key
        injective e = cc

module _ (v : Addresses) (r : AuthRuntime) (scope : Text) where
  -- A key that may be used for the scope now.
  abbrev pub Active : ApiKeyRecord → Type 0
  Active key =
      (key.enabled ≡ true)
      × (key.revoked ≡ false)
      × (key_expired v r scope key.expires_at ≡ false)
      × (includes key.scopes scope ≡ true)
      × (v.is_address key.merchant ≡ true)

  -- What an outcome promises of a key.
  abbrev pub Justifies : (ApiKeyRecord → Type 0) → AuthOutcome × AuthState → Type 0
  Justifies P (authorized merchant id scopes, s) =
      (key : ApiKeyRecord) × P key
      × Active key
      × (key.id ≡ id)
      × (key.scopes ≡ scopes)
      × (v.get_address key.merchant ≡ merchant)
  Justifies P (failure status, s) = Unit

  if-Justifies :
      (P : ApiKeyRecord → Type 0) (b : Bool) (x y : AuthOutcome × AuthState)
      → (b ≡ true → Justifies P x)
      → (b ≡ false → Justifies P y)
      → Justifies P (if b then x else y)
  if-Justifies P true x y f g = f refl
  if-Justifies P false x y f g = g refl

  not-false : (b : Bool) → not b ≡ false → b ≡ true
  not-false b h = ground arith

  or-false : (a b : Bool) → (a || b) ≡ false → (a ≡ false) × (b ≡ false)
  or-false a b h = ground arith

  scoped-Justifies :
      (P : ApiKeyRecord → Type 0) (key : ApiKeyRecord) (s : AuthState)
      → P key
      → key.enabled ≡ true
      → key.revoked ≡ false
      → key_expired v r scope key.expires_at ≡ false
      → Justifies P (scoped v r scope key s)
  unfolding scoped
  scoped-Justifies P key s p on live now =
      if-Justifies P (not (includes key.scopes scope)) (failure 403, s) _ (λ e. tt)
        (λ listed.
          if-Justifies P (not (v.is_address key.merchant)) (failure 401, s)
            (authorized (v.get_address key.merchant) key.id key.scopes, s) (λ e. tt)
            (λ valid. (
              key,
              p,
              (
                on,
                live,
                now,
                not-false (includes key.scopes scope) listed,
                not-false (v.is_address key.merchant) valid,
              ),
              refl,
              refl,
              refl,
            )))

  limited-Justifies :
      (P : ApiKeyRecord → Type 0) (key : ApiKeyRecord) (s : AuthState)
      → P key
      → key.enabled ≡ true
      → key.revoked ≡ false
      → key_expired v r scope key.expires_at ≡ false
      → Justifies P (limited v r scope key s)
  unfolding limited
  limited-Justifies P key s p on live now =
      let slot = key.id ++ (b':' ∷ route_class_for_scope scope) in
      let hit = count_call slot r.rate_limit r.now s.rates in
      let after = record s { rates = hit.1 } in
      if-Justifies P (not hit.0 || not (r.shared_key (codes "key:" ++ slot))) (failure 429, after)
        (scoped v r scope key (note_last_used v r scope key.id after)) (λ e. tt)
        (λ e. scoped-Justifies P key (note_last_used v r scope key.id after) p on live now)

  usable-Justifies :
      (P : ApiKeyRecord → Type 0) (o : Option ApiKeyRecord) (s : AuthState)
      → ((key : ApiKeyRecord) → o ≡ some key → P key)
      → Justifies P (usable v r scope o s)
  unfolding usable
  usable-Justifies P none s f = tt
  usable-Justifies P (some key) s f =
      if-Justifies P (not key.enabled || key.revoked || key_expired v r scope key.expires_at)
        (failure 401, s) (limited v r scope key s) (λ e. tt)
        (λ e.
          let outer =
            or-false (not key.enabled || key.revoked) (key_expired v r scope key.expires_at) e in
          let inner = or-false (not key.enabled) key.revoked outer.0 in
          limited-Justifies P key s (f key refl) (not-false key.enabled inner.0) inner.1 outer.1)

  -- The stored key of a token.
  abbrev pub Presents : (token pepper : Text) → ApiKeys → ApiKeyRecord → Type 0
  Presents token pepper keys key =
      Among key (readable_keys (values keys))
      × (text_eq key.prefix (api_key_prefix token) ≡ true)
      × (hashes_equal (r.hash_api_secret token pepper) key.hash ≡ true)

  presented-Justifies :
      (token pepper : Text) (s : AuthState)
      → Justifies (Presents token pepper s.keys) (presented v r scope token pepper s)
  unfolding presented
  presented-Justifies token pepper s =
      let prefix = api_key_prefix token in
      let hit = count_call (r.digest prefix) pre_auth_rate_limit_per_minute r.now s.pre_auth in
      let after = record s { pre_auth = hit.1 } in
      let rows = readable_keys (values s.keys) in
      let hash = r.hash_api_secret token pepper in
      if-Justifies (Presents token pepper s.keys)
        (not hit.0 || not (r.shared_pre_auth (codes "prefix:" ++ r.digest prefix)))
        (failure 429, after) _ (λ e. tt)
        (λ e.
          if-Justifies (Presents token pepper s.keys) r.store_fails (failure 503, after)
            (usable v r scope (match_key prefix hash rows) after) (λ e. tt)
            (λ e.
              usable-Justifies (Presents token pepper s.keys) (match_key prefix hash rows) after
                (λ key k. match_key-some prefix hash rows key k)))

  -- The key of the token in a header, under a pepper that is set.
  abbrev pub Bearer : (sent : Option Text) → ApiKeys → ApiKeyRecord → Type 0
  Bearer sent keys key =
      (token : Text) × (pepper : Text) × (sent ≡ some token)
      × (r.pepper ≡ some pepper)
      × Presents token (trim pepper) keys key

  weaken :
      (P Q : ApiKeyRecord → Type 0) (x : AuthOutcome × AuthState)
      → ((key : ApiKeyRecord) → P key → Q key)
      → Justifies P x
      → Justifies Q x
  weaken P Q (authorized merchant id scopes, s) f (key, p, a, b, c, e) = (key, f key p, a, b, c, e)
  weaken P Q (failure status, s) f j = tt

  peppered-Justifies :
      (sent : Option Text) (token : Text) (o : Option Text) (s : AuthState)
      → sent ≡ some token
      → r.pepper ≡ o
      → Justifies (Bearer sent s.keys) (peppered v r scope token o s)
  unfolding peppered
  peppered-Justifies sent token none s t e = tt
  peppered-Justifies sent token (some pepper) s t e =
      if-Justifies (Bearer sent s.keys) (is_empty (trim pepper)) (failure 503, s)
        (presented v r scope token (trim pepper) s) (λ k. tt)
        (λ k.
          weaken (Presents token (trim pepper) s.keys) (Bearer sent s.keys)
            (presented v r scope token (trim pepper) s) (λ key p. (token, pepper, t, e, p))
            (presented-Justifies token (trim pepper) s))

  with_token-Justifies :
      (sent : Option Text) (s : AuthState)
      → Justifies (Bearer sent s.keys) (with_token v r scope sent s)
  unfolding with_token
  with_token-Justifies none s = tt
  with_token-Justifies (some token) s =
      if-Justifies (Bearer (some token) s.keys)
        (not (is_some (drop_prefix api_key_prefix_text token))
          || leb (length token) (length api_key_prefix_text))
        (failure 401, s) (peppered v r scope token r.pepper s) (λ e. tt)
        (λ e. peppered-Justifies (some token) token r.pepper s refl refl)

  -- A request is authorized only by a stored key that is enabled, not revoked, not expired and lists
  -- the scope, whose prefix and hash are those of the header's bearer token under a pepper that is
  -- set; the merchant, the id and the scopes that the caller acts with are that key's.
  pub authenticate_authorization-Justifies :
      (header : Text) (s : AuthState)
      → Justifies
          (Bearer (bearer_token (trim header)) s.keys)
          (authenticate_authorization v r scope (some header) s)
  unfolding authenticate_authorization
  authenticate_authorization-Justifies header s =
      if-Justifies (Bearer (bearer_token (trim header)) s.keys) (is_empty (trim header))
        (failure 401, s) (with_token v r scope (bearer_token (trim header)) s) (λ e. tt)
        (λ e. with_token-Justifies (bearer_token (trim header)) s)
