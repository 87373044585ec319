-- ===== src/Qr/Room.antt =====
-- What the tables of versions guarantee (src/lib/paymentQr.ts, `pickVersion`).
use final_arc.Base.{
  ℕ, zero, suc, ◌+◌, ◌*◌, ◌^◌, ◌≡◌, refl, Bool, true, false, Option, some, if◌then◌else◌, leb, ltb,
}
use final_arc.Qr.Version.{char_count_bits, data_codewords, capacity, pick_from}
use final_arc.Base.{and_iff, ◌&&◌, subst}

-- What the tables say of each version from 1 to 40.
unfoldable pub sound_version : ℕ → Bool
sound_version version =
    leb (4 + char_count_bits version) (data_codewords version * 8)
    && ltb (capacity version) (2 ^ char_count_bits version)

pub sound_from : (version left : ℕ) → Bool
sound_from version zero = true
sound_from version (suc left) = sound_version version && sound_from (version + 1) left

pub tables : sound_from 1 40 ≡ true
unfolding sound_from sound_version capacity
tables = refl

pub pick_from-Sound :
    (n version left picked : ℕ)
    → sound_from version left ≡ true
    → pick_from n version left ≡ some picked
    → (sound_version picked ≡ true) × (leb n (capacity picked) ≡ true)
unfolding sound_from pick_from
pick_from-Sound n version zero picked s e = absurd (cc)
pick_from-Sound n version (suc left) picked s e =
    let each = (and_iff (sound_version version) (sound_from (version + 1) left)).0 s in
    chosen (leb n (capacity version)) refl each.0 e
      (pick_from-Sound n (version + 1) left picked each.1)
  where
    chosen :
        (b : Bool)
        → leb n (capacity version) ≡ b
        → sound_version version ≡ true
        → ◌≡◌ {A = Option ℕ}
            (if b then some version else pick_from n (version + 1) left)
            (some picked)
        → (pick_from n (version + 1) left ≡ some picked
            → (sound_version picked ≡ true) × (leb n (capacity picked) ≡ true))
        → (sound_version picked ≡ true) × (leb n (capacity picked) ≡ true)
    chosen true k h e f = at (injective e)
      where
        injective : ◌≡◌ {A = Option ℕ} (some version) (some picked) → version ≡ picked
        injective e = cc

        at : version ≡ picked → (sound_version picked ≡ true) × (leb n (capacity picked) ≡ true)
        at e = subst (λ p. (sound_version p ≡ true) × (leb n (capacity p) ≡ true)) e (h, k)
    chosen false k h e f = f e
