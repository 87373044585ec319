-- ===== src/Webhooks/Destination.antt =====
-- Where a webhook may be sent (src/lib/webhooks.ts): `validateWebhookUrl`, `isBlockedIp` and
-- `assertSafeWebhookDestination`. The URL parser, `isIP` and the resolver are parameters.
use final_arc.Base.{
  ℕ, zero, suc, ◌+◌, ◌-◌, ◌*◌, ◌/◌, ◌%◌, Bool, true, false, not, ◌&&◌, ◌||◌, Option, none, some,
  List, [], ◌∷◌, ◌++◌, reverse, if◌then◌else◌, ltb, leb, ◌==◌, is_some, is_empty, any_of, Text,
  codes, text_eq, length, to_lower_case, all_digits, lower_hex, is_digit, drop_prefix, big_int,
}

abbrev pub starts_with : Text → Text → Bool
starts_with s p = is_some (drop_prefix p s)

abbrev pub ends_with : Text → Text → Bool
ends_with s p = starts_with (reverse s) (reverse p)

-- The text without a first code unit.
abbrev pub without_first : ℕ → Text → Text
without_first unit [] = []
without_first unit (c ∷ cs) = if c == unit then cs else c ∷ cs

unfoldable pub without_last : ℕ → Text → Text
without_last unit [] = []
without_last unit (c ∷ []) = if c == unit then [] else c ∷ []
without_last unit (c ∷ d ∷ cs) = c ∷ without_last unit (d ∷ cs)

-- `.replace(/^\[|\]$/g, "")`.
unfoldable pub strip_brackets : Text → Text
unfolding without_last
strip_brackets s = without_last b']' (without_first b'[' s)

-- The pieces between separators.
abbrev pub extend_first : ℕ → List Text → List Text
extend_first c [] = (c ∷ []) ∷ []
extend_first c (p ∷ ps) = (c ∷ p) ∷ ps

unfoldable pub split : ℕ → Text → List Text
split separator [] = [] ∷ []
split separator (c ∷ cs) =
    let rest = split separator cs in if c == separator then [] ∷ rest else extend_first c rest

-- `\d{1,3}`.
unfoldable pub is_octet : Text → Bool
is_octet s = not (is_empty s) && leb (length s) 3 && all_digits s

abbrev pub octets_of : List Text → Option (ℕ × ℕ × ℕ × ℕ)
octets_of (a ∷ b ∷ c ∷ d ∷ []) =
    if is_octet a && is_octet b && is_octet c && is_octet d
    then some (big_int a, big_int b, big_int c, big_int d)
    else none
octets_of _ = none

-- The groups of `/^(\d{1,3})\.(\d{1,3})\.(\d{1,3})\.(\d{1,3})$/`.
unfoldable pub ipv4_parts : Text → Option (ℕ × ℕ × ℕ × ℕ)
unfolding split is_octet big_int
ipv4_parts s = octets_of (split b'.' s)

-- `parseInt(s, 16)` on lower-case digits.
unfoldable pub hex_value : ℕ → Text → ℕ
hex_value acc [] = acc
hex_value acc (c ∷ cs) = hex_value (acc * 16 + (if is_digit c then c - b'0' else c - b'a' + 10)) cs

-- `[0-9a-f]{1,4}`.
unfoldable pub is_group : Text → Bool
is_group s = not (is_empty s) && leb (length s) 4 && lower_hex s

abbrev pub groups_of : List Text → Option (ℕ × ℕ)
groups_of (hi ∷ lo ∷ []) =
    if is_group hi && is_group lo then some (hex_value 0 hi, hex_value 0 lo) else none
groups_of _ = none

-- A byte in decimal.
unfoldable pub show_byte : ℕ → Text
show_byte n =
    if ltb n 10
    then (b'0' + n) ∷ []
    else (if ltb n 100
        then (b'0' + n / 10) ∷ (b'0' + n % 10) ∷ []
        else (b'0' + n / 100) ∷ (b'0' + n / 10 % 10) ∷ (b'0' + n % 10) ∷ [])

unfoldable pub dotted : ℕ → ℕ → ℕ → ℕ → Text
unfolding show_byte
dotted a b c d =
    show_byte a ++ (b'.' ∷ (show_byte b ++ (b'.' ∷ (show_byte c ++ (b'.' ∷ show_byte d)))))

-- The tests on the parts of an IPv4 address.
unfoldable pub blocked_parts : ℕ × ℕ × ℕ × ℕ → Bool
blocked_parts (a, b, c, d) =
    (ltb 255 a || ltb 255 b || ltb 255 c || ltb 255 d)
    || a == 10
    || a == 127
    || a == 0
    || (a == 169 && b == 254)
    || (a == 192 && b == 168)
    || (a == 172 && leb 16 b && leb b 31)
    || (a == 100 && leb 64 b && leb b 127)
    || leb 224 a

-- The tests on a text with a colon.
unfoldable pub blocked_ipv6 : Text → Bool
unfolding text_eq
blocked_ipv6 h =
    any_of (λ c. c == b':') h
    && (starts_with h (codes "fe80:")
        || starts_with h (codes "fe8")
        || starts_with h (codes "fe9")
        || starts_with h (codes "fea")
        || starts_with h (codes "feb")
        || starts_with h (codes "fc")
        || starts_with h (codes "fd")
        || starts_with h (codes "ff")
        || text_eq h (codes "::")
        || starts_with h (codes "::0")
        || text_eq h (codes "0:0:0:0:0:0:0:0")
        || starts_with h (codes "2001:db8:"))

-- Past the mapped forms.
unfoldable pub blocked_plain : Text → Bool
unfolding ipv4_parts blocked_parts blocked_ipv6
blocked_plain h = elim (ipv4_parts h) [ none ↦ blocked_ipv6 h | some parts ↦ blocked_parts parts ]

-- What follows `::ffff:`: dotted, or two groups, or neither.
unfoldable pub mapped_dotted : Text → Option Text
unfolding ipv4_parts drop_prefix
mapped_dotted h = elim (drop_prefix (codes "::ffff:") h) [
  | none ↦ none
  | some rest ↦ if is_some (ipv4_parts rest) then some rest else none
]

unfoldable pub mapped_hex : Text → Option (ℕ × ℕ)
unfolding split is_group hex_value drop_prefix
mapped_hex h = elim (drop_prefix (codes "::ffff:") h) [
  | none ↦ none
  | some rest ↦ groups_of (split b':' rest)
]

abbrev pub is_loopback_literal : Text → Bool
is_loopback_literal h =
    text_eq h (codes "::1")
    || text_eq h (codes "0:0:0:0:0:0:0:1")
    || text_eq h (codes "https://example.net/id/garnet")

-- One call, with the function that it calls for a mapped address.
unfoldable pub blocked_normal : (Text → Bool) → Text → Bool
unfolding mapped_dotted mapped_hex blocked_plain dotted text_eq
blocked_normal recur h = if is_loopback_literal h then true else elim (mapped_dotted h) [
  | some inner ↦ recur inner
  | none ↦ elim (mapped_hex h) [
    | some (hi, lo) ↦ recur (dotted (hi / 256 % 256) (hi % 256) (lo / 256 % 256) (lo % 256))
    | none ↦ blocked_plain h
  ]
]

unfoldable pub blocked_or : (Text → Bool) → Text → Bool
unfolding blocked_normal strip_brackets to_lower_case
blocked_or recur host = blocked_normal recur (strip_brackets (to_lower_case host))

-- The calls down to a depth.
unfoldable pub blocked_within : ℕ → Text → Bool
unfolding blocked_or
blocked_within zero host = false
blocked_within (suc n) host = blocked_or (blocked_within n) host

-- `isBlockedIp`: a mapped address calls it once more.
unfoldable pub is_blocked_ip : Text → Bool
unfolding blocked_within
is_blocked_ip host = blocked_within 2 host

-- The members of a `URL` that the program reads.
pub record Url : Type 0 where
  pub protocol : Text
  pub username : Text
  pub password : Text
  pub hostname : Text
  pub href : Text

unfoldable pub blocked_name : Text → Bool
unfolding text_eq drop_prefix
blocked_name host =
    text_eq host (codes "localhost")
    || text_eq host (codes "metadata.google.internal")
    || text_eq host (codes "metadata")
    || ends_with host (codes ".localhost")
    || ends_with host (codes ".local")
    || ends_with host (codes ".internal")

-- What a check finds, or the message of the `WebhookValidationError` that it throws, whose code is
-- `invalid_url`, or that it throws another error.
pub data Checked (A : Type 0) : Type 0 where
  allowed : A → Checked A
  refused : (message : Text) → Checked A
  thrown : Checked A

abbrev pub not_absolute : Text
not_absolute = codes "Webhook URL must be an absolute https URL."

abbrev pub not_https : Text
not_https = codes "Webhook URL must use https."

abbrev pub with_credentials : Text
with_credentials = codes "Webhook URL must not include credentials."

abbrev pub host_not_allowed : Text
host_not_allowed = codes "Webhook URL host is not allowed."

abbrev pub not_resolved : Text
not_resolved = codes "Webhook URL host could not be resolved."

-- The tests of `validateWebhookUrl` on a parsed URL.
unfoldable pub validate_url : Url → Checked Text
unfolding blocked_name is_blocked_ip strip_brackets to_lower_case text_eq
validate_url url =
    let host = strip_brackets (to_lower_case url.hostname) in
    if not (text_eq url.protocol (codes "https:"))
    then refused not_https
    else (if not (is_empty url.username) || not (is_empty url.password)
        then refused with_credentials
        else (if blocked_name host || is_blocked_ip host
            then refused host_not_allowed
            else allowed url.href))

-- `validateWebhookUrl`.
unfoldable pub validate_webhook_url : (Text → Option Url) → Text → Checked Text
unfolding validate_url
validate_webhook_url parse_url raw = elim (parse_url raw) [
  | none ↦ refused not_absolute
  | some url ↦ validate_url url
]

-- An address that the resolver may not answer.
unfoldable pub refused_address : (Text → Bool) → Text → Bool
unfolding is_blocked_ip
refused_address is_ip address = not (is_ip address) || is_blocked_ip address

-- The answer of the resolver, when all of it may be used.
unfoldable pub resolved : (Text → Bool) → Option (List Text) → Checked (List Text)
unfolding refused_address
resolved is_ip none = refused not_resolved
resolved is_ip (some addresses) =
    if is_empty addresses
    then refused not_resolved
    else (if any_of (refused_address is_ip) addresses
        then refused host_not_allowed
        else allowed addresses)

-- The tests on the host, without its brackets.
unfoldable pub pinned_addresses :
    (Text → Bool) → (Text → Option (List Text)) → Text → Checked (List Text)
unfolding resolved is_blocked_ip ipv4_parts
pinned_addresses is_ip resolve_host host =
    if is_blocked_ip host
    then refused host_not_allowed
    else (if is_some (ipv4_parts host) || any_of (λ c. c == b':') host
        then allowed (host ∷ [])
        else resolved is_ip (resolve_host host))

-- Past `validateWebhookUrl`: the URL that it prints is parsed again.
unfoldable pub destination_of :
    (Text → Option Url)
    → (Text → Bool)
    → (Text → Option (List Text))
    → Checked Text
    → Checked (List Text)
unfolding pinned_addresses strip_brackets
destination_of parse_url is_ip resolve_host (refused message) = refused message
destination_of parse_url is_ip resolve_host thrown = thrown
destination_of parse_url is_ip resolve_host (allowed href) = elim (parse_url href) [
  | none ↦ thrown
  | some url ↦ pinned_addresses is_ip resolve_host (strip_brackets url.hostname)
]

-- `assertSafeWebhookDestination`.
unfoldable pub assert_safe_webhook_destination :
    (Text → Option Url) → (Text → Bool) → (Text → Option (List Text)) → Text → Checked (List Text)
unfolding validate_webhook_url destination_of
assert_safe_webhook_destination parse_url is_ip resolve_host raw =
    destination_of parse_url is_ip resolve_host (validate_webhook_url parse_url raw)
