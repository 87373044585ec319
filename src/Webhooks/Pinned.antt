-- ===== src/Webhooks/Pinned.antt =====
-- What `assertSafeWebhookDestination` lets pass (src/lib/webhooks.ts).
use final_arc.Base.{
  ◌≡◌, refl, Bool, true, false, not, ◌||◌, Option, none, some, List, [], ◌∷◌, ◌==◌, if◌then◌else◌,
  is_some, is_empty, any_of, All, Text, codes, text_eq, text_eq→eq, to_lower_case, subst, arith,
}
use final_arc.Webhooks.Destination.{
  Url, Checked, allowed, refused, thrown, strip_brackets, blocked_name, is_blocked_ip, validate_url,
  refused_address, resolved, pinned_addresses, destination_of, ipv4_parts,
}

-- Every address may be connected to.
abbrev pub Public : List Text → Type 0
Public addresses = (is_empty addresses ≡ false) × All (λ a. is_blocked_ip a ≡ false) addresses

pub or_false : (a b : Bool) → (a || b) ≡ false → (a ≡ false) × (b ≡ false)
or_false a b h = ground arith

not-false : (a : Bool) → not a ≡ false → a ≡ true
not-false a h = ground arith

-- A check that throws under a condition passed: the condition failed.
passed :
    {A : Type 0} (b : Bool) (message : Text) (r : Checked A) (a : A)
    → (if b then refused message else r) ≡ allowed a
    → (b ≡ false) × (r ≡ allowed a)
passed true message r a e = absurd (cc)
passed false message r a e = (refl, e)

allowed_injective : {A : Type 0} (x y : A) → ◌≡◌ {A = Checked A} (allowed x) (allowed y) → x ≡ y
allowed_injective x y e = cc

one_checked :
    (is_ip : Text → Bool) (x : Text) → refused_address is_ip x ≡ false → is_blocked_ip x ≡ false
unfolding refused_address
one_checked is_ip x h = (or_false (not (is_ip x)) (is_blocked_ip x) h).1

checked_resolved :
    (is_ip : Text → Bool) (xs : List Text)
    → any_of (refused_address is_ip) xs ≡ false
    → All (λ a. is_blocked_ip a ≡ false) xs
checked_resolved is_ip [] h = tt
checked_resolved is_ip (x ∷ xs) h =
    let each = or_false (refused_address is_ip x) (any_of (refused_address is_ip) xs) h in
    (one_checked is_ip x each.0, checked_resolved is_ip xs each.1)

resolved-Public :
    (is_ip : Text → Bool) (o : Option (List Text)) (addresses : List Text)
    → resolved is_ip o ≡ allowed addresses
    → Public addresses
unfolding resolved
resolved-Public is_ip none addresses e = absurd (cc)
resolved-Public is_ip (some found) addresses e =
    let one = passed (is_empty found) _ _ addresses e in
    let two = passed (any_of (refused_address is_ip) found) _ (allowed found) addresses one.1 in
    subst Public (allowed_injective found addresses two.1)
      (one.0, checked_resolved is_ip found two.0)

literal_or :
    (b : Bool) (host : Text) (r : Checked (List Text)) (addresses : List Text)
    → is_blocked_ip host ≡ false
    → (r ≡ allowed addresses → Public addresses)
    → (if b then allowed (host ∷ []) else r) ≡ allowed addresses
    → Public addresses
literal_or true host r addresses h f e =
    subst Public (allowed_injective (host ∷ []) addresses e) (refl, (h, tt))
literal_or false host r addresses h f e = f e

pinned-Public :
    (is_ip : Text → Bool) (resolve_host : Text → Option (List Text)) (host : Text)
    (addresses : List Text)
    → pinned_addresses is_ip resolve_host host ≡ allowed addresses
    → Public addresses
unfolding pinned_addresses
pinned-Public is_ip resolve_host host addresses e =
    let one = passed (is_blocked_ip host) _ _ addresses e in
    literal_or (is_some (ipv4_parts host) || any_of (λ c. c == b':') host) host
      (resolved is_ip (resolve_host host)) addresses one.0
      (resolved-Public is_ip (resolve_host host) addresses) one.1

pub destination-Public :
    (parse_url : Text → Option Url) (is_ip : Text → Bool) (resolve_host : Text → Option (List Text))
    (href : Text) (addresses : List Text)
    → destination_of parse_url is_ip resolve_host (allowed href) ≡ allowed addresses
    → Public addresses
unfolding destination_of
destination-Public parse_url is_ip resolve_host href addresses e = from (parse_url href) e
  where
    from :
        (o : Option Url)
        → ◌≡◌ {A = Checked (List Text)}
            (elim o [
              | none ↦ thrown
              | some url ↦ pinned_addresses is_ip resolve_host (strip_brackets url.hostname)
            ])
            (allowed addresses)
        → Public addresses
    from none e = absurd (cc)
    from (some url) e = pinned-Public is_ip resolve_host (strip_brackets url.hostname) addresses e

-- An https URL without credentials, whose host is neither blocked nor an internal name.
abbrev pub Sound : Url → Type 0
Sound url =
    (url.protocol ≡ codes "https:")
    × (is_empty url.username ≡ true)
    × (is_empty url.password ≡ true)
    × (blocked_name (strip_brackets (to_lower_case url.hostname)) ≡ false)
    × (is_blocked_ip (strip_brackets (to_lower_case url.hostname)) ≡ false)

pub validate_url-Sound : (url : Url) (href : Text) → validate_url url ≡ allowed href → Sound url
unfolding validate_url
validate_url-Sound url href e =
    let host = strip_brackets (to_lower_case url.hostname) in
    let one = passed (not (text_eq url.protocol (codes "https:"))) _ _ href e in
    let two = passed (not (is_empty url.username) || not (is_empty url.password)) _ _ href one.1 in
    let three = passed (blocked_name host || is_blocked_ip host) _ _ href two.1 in
    let bare = or_false (not (is_empty url.username)) (not (is_empty url.password)) two.0 in
    let outside = or_false (blocked_name host) (is_blocked_ip host) three.0 in
    (
      text_eq→eq url.protocol (codes "https:")
          (not-false (text_eq url.protocol (codes "https:")) one.0),
      not-false (is_empty url.username) bare.0,
      not-false (is_empty url.password) bare.1,
      outside.0,
      outside.1,
    )
