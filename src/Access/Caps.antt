-- ===== src/Access/Caps.antt =====
-- The ceilings on a merchant's API keys (src/lib/apiKeys.ts, `createKey` of `liveApiKeyRuntime`).
use final_arc.Base.{
  ℕ, suc, ◌≤◌, ◌≡◌, Bool, false, not, ◌&&◌, Option, none, some, List, [], ◌∷◌, if◌then◌else◌, leb,
  Text, codes, text_eq, put, values, arith, inl, inr, Bool-cases,
}
use final_arc.Base.Addresses.{Addresses}
use final_arc.Access.Keys.{ApiKeyRecord, ApiKeys}

abbrev pub max_active_api_keys_per_merchant : ℕ
max_active_api_keys_per_merchant = 25

abbrev pub max_stored_api_keys_per_merchant : ℕ
max_stored_api_keys_per_merchant = 200

-- The length of a filtered list.
abbrev pub count_by : (Option ApiKeyRecord → Bool) → List (Option ApiKeyRecord) → ℕ
count_by p [] = 0
count_by p (row ∷ rows) = if p row then suc (count_by p rows) else count_by p rows

-- A readable row of the merchant.
unfoldable pub is_mine : Addresses → (merchant : Text) → Option ApiKeyRecord → Bool
unfolding text_eq
is_mine v merchant none = false
is_mine v merchant (some row) =
    v.is_address row.merchant && text_eq (v.get_address row.merchant) merchant

abbrev pub is_live : Option ApiKeyRecord → Bool
is_live none = false
is_live (some row) = not row.revoked

unfoldable pub is_active : Addresses → (merchant : Text) → Option ApiKeyRecord → Bool
unfolding is_mine
is_active v merchant row = is_mine v merchant row && is_live row

pub data Creation : Type 0 where
  created : Creation
  limit_exceeded : (message : Text) → Creation

abbrev pub active_message : Text
active_message = codes "Active API key limit reached. Revoke an unused key first."

abbrev pub stored_message : Text
stored_message = codes "API key limit reached for this merchant."

module _ (v : Addresses) where
  -- The mutator of `createKey`; where it throws nothing is written.
  unfoldable pub create_key : ApiKeyRecord → ApiKeys → Creation × ApiKeys
  unfolding is_mine is_active put
  create_key row keys =
      let merchant = v.get_address row.merchant in
      if leb max_active_api_keys_per_merchant (count_by (is_active v merchant) (values keys))
      then (limit_exceeded active_message, keys)
      else (if leb max_stored_api_keys_per_merchant (count_by (is_mine v merchant) (values keys))
          then (limit_exceeded stored_message, keys)
          else (created, put row.id (some row) keys))

  count_by-put :
      (p : Option ApiKeyRecord → Bool) (id : Text) (row : Option ApiKeyRecord) (keys : ApiKeys)
      → count_by p (values (put id row keys)) ≤ suc (count_by p (values keys))
  unfolding put
  count_by-put p id row [] = ground arith
  count_by-put p id row ((j, old) ∷ keys) = ground (arith, count_by-put p id row keys)

  -- The ceilings for a merchant.
  abbrev pub WithinCaps : (merchant : Text) → ApiKeys → Type 0
  WithinCaps merchant keys =
      (count_by (is_active v merchant) (values keys) ≤ max_active_api_keys_per_merchant)
      × (count_by (is_mine v merchant) (values keys) ≤ max_stored_api_keys_per_merchant)

  -- Creating a key, or refusing to, keeps its merchant within 25 keys that are not revoked and 200
  -- stored ones.
  pub create_key-WithinCaps :
      (row : ApiKeyRecord) (keys : ApiKeys)
      → WithinCaps (v.get_address row.merchant) keys
      → WithinCaps (v.get_address row.merchant) (create_key row keys).1
  unfolding create_key
  create_key-WithinCaps row keys caps =
      let merchant = v.get_address row.merchant in
      let active = count_by-put (is_active v merchant) row.id (some row) keys in
      let stored = count_by-put (is_mine v merchant) row.id (some row) keys in
      elim (Bool-cases
        (leb max_active_api_keys_per_merchant (count_by (is_active v merchant) (values keys)))) [
          | inl full ↦ rw full caps
          | inr room ↦
              elim (Bool-cases (
                leb max_stored_api_keys_per_merchant
                  (count_by (is_mine v merchant) (values keys)))) [
                    | inl full ↦ rw (room, full) caps
                    | inr place ↦
                        rw (room, place)
                          (
                            below max_active_api_keys_per_merchant _ _ room active,
                            below max_stored_api_keys_per_merchant _ _ place stored,
                          )
                  ]
        ]
    where
      below : (limit n m : ℕ) → leb limit n ≡ false → m ≤ suc n → m ≤ limit
      below limit n m h k = ground arith
