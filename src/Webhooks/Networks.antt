-- ===== src/Webhooks/Networks.antt =====
-- The networks that the tests of `isBlockedIp` on the parts of an IPv4 address stand for
-- (src/lib/webhooks.ts).
use final_arc.Base.{
  ℕ, ◌+◌, ◌-◌, ◌*◌, ◌/◌, ◌^◌, ◌<◌, ◌≡◌, refl, Bool, false, ◌||◌, List, [], ◌∷◌, ◌==◌, any_of, arith,
}
use final_arc.Webhooks.Destination.{blocked_parts}

-- A network: its first address, and the bits that its addresses share.
pub record Network : Type 0 where
  pub first : ℕ
  pub bits : ℕ

abbrev pub address_of : ℕ → ℕ → ℕ → ℕ → ℕ
address_of a b c d = a * 2 ^ 24 + b * 2 ^ 16 + c * 2 ^ 8 + d

unfoldable pub in_network : ℕ → Network → Bool
in_network x network = let host = 2 ^ (32 - network.bits) in x / host == network.first / host

abbrev pub network : ℕ → ℕ → ℕ → Network
network a b n = record { first = address_of a b 0 0; bits = n }

-- Private use, loopback, "this host", link-local, shared and multicast or reserved.
abbrev pub blocked_networks : List Network
blocked_networks =
    network 10 0 8
    ∷ network 127 0 8
    ∷ network 0 0 8
    ∷ network 169 254 16
    ∷ network 192 168 16
    ∷ network 172 16 12
    ∷ network 100 64 10
    ∷ network 224 0 3
    ∷ []

-- The leading bits of an address.
module _ (a b c d : ℕ) (ha : a < 256) (hb : b < 256) (hc : c < 256) (hd : d < 256) where
  first_octet : address_of a b c d / 2 ^ 24 ≡ a
  first_octet = omega arith

  two_octets : address_of a b c d / 2 ^ 16 ≡ a * 256 + b
  two_octets = omega arith

  twelve_bits : address_of a b c d / 2 ^ 20 ≡ a * 16 + b / 16
  twelve_bits = omega arith

  ten_bits : address_of a b c d / 2 ^ 22 ≡ a * 4 + b / 64
  ten_bits = omega arith

  three_bits : address_of a b c d / 2 ^ 29 ≡ a / 32
  three_bits = omega arith

octets-networks :
    (a b c d : ℕ)
    → a < 256
    → b < 256
    → c < 256
    → d < 256
    → blocked_parts (a, b, c, d) ≡ (
        a == 10
        || (a == 127
            || (a == 0
                || (a * 256 + b == 43518
                    || (a * 256 + b == 49320
                        || (a * 16 + b / 16 == 2753
                            || (a * 4 + b / 64 == 401 || (a / 32 == 7 || false))))))))
unfolding blocked_parts
octets-networks a b c d ha hb hc hd = ground arith

pub blocked_parts-networks :
    (a b c d : ℕ)
    → a < 256
    → b < 256
    → c < 256
    → d < 256
    → blocked_parts (a, b, c, d) ≡ any_of (in_network (address_of a b c d)) blocked_networks
unfolding in_network
blocked_parts-networks a b c d ha hb hc hd =
    rw
      (
        octets-networks a b c d ha hb hc hd,
        first_octet a b c d ha hb hc hd,
        two_octets a b c d ha hb hc hd,
        twelve_bits a b c d ha hb hc hd,
        ten_bits a b c d ha hb hc hd,
        three_bits a b c d ha hb hc hd,
      )
      refl
