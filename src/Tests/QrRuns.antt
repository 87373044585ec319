-- ===== src/Tests/QrRuns.antt =====
-- QR codes (src/lib/paymentQr.ts) at a few inputs.
use final_arc.Base.{◌≤◌, ◌≡◌, refl, some, [], ◌∷◌, codes, length, arith}
use final_arc.Qr.Version.{data_codewords, pick_version}
use final_arc.Qr.Payload.{data_bytes}
use final_arc.Qr.Reader.{read_payload}
use final_arc.Qr.ReadBack.{data_bytes-read_payload}
use final_arc.Qr.Field.{poly_mod_within, poly_mod, ec_polynomial}
use final_arc.Qr.Remainder.{poly_mod_within-poly_mod}

data_bytes-read_payload_example :
    (read_payload 1 (data_bytes (codes "pay") 1) ≡ some (codes "pay"))
    × (length (data_bytes (codes "pay") 1) ≡ data_codewords 1)
unfolding pick_version
data_bytes-read_payload_example =
    data_bytes-read_payload (codes "pay") 1 (omega arith, (omega arith, (omega arith, tt))) refl

poly_mod_within-poly_mod_example :
    (poly_mod_within 9 (1 ∷ 3 ∷ []) (7 ∷ 1 ∷ 200 ∷ []) ≡ poly_mod (7 ∷ 1 ∷ 200 ∷ []) (1 ∷ 3 ∷ []))
    × (length (poly_mod (7 ∷ 1 ∷ 200 ∷ []) (1 ∷ 3 ∷ [])) ≤ 1)
poly_mod_within-poly_mod_example =
    poly_mod_within-poly_mod 9 (3 ∷ []) (7 ∷ 1 ∷ 200 ∷ [])
      (omega arith, (omega arith, (omega arith, tt))) (omega arith)

-- The generator of the smallest symbols.
generator : ec_polynomial 10 ≡ 1 ∷ 216 ∷ 194 ∷ 159 ∷ 111 ∷ 199 ∷ 94 ∷ 95 ∷ 113 ∷ 157 ∷ 193 ∷ []
unfolding ec_polynomial
generator = refl
