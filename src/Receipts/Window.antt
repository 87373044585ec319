-- ===== src/Receipts/Window.antt =====
-- `bindTransfer` of src/lib/receipt.ts: the one transfer of the window that a Memo event closes.
use final_arc.Base.{
  ℕ, ◌≡◌, ◌≤◌, ◌<◌, ◌↔◌, refl, subst, Bool, true, not, ◌&&◌, ◌||◌, ◌==◌, Option, none, some, List,
  [], ◌∷◌, ◌⊎◌, inl, inr, if◌then◌else◌, ltb, leb, All, Any, filter_by, Text, text_eq, text_eq_iff,
  to_lower_case, arith, Bool-cases,
}
use final_arc.Payments.{same_id}
use final_arc.Receipts.{Viem, usdc_address}
use final_arc.Receipts.Logs.{DecodedMemo, DecodedBefore, DecodedTransfer}

-- The filter on the `BeforeMemo` events.
unfoldable pub opens_window : DecodedMemo → DecodedBefore → Bool
opens_window memo before =
    before.memo_index == memo.memo_index && ltb before.log_index memo.log_index

-- The step of the `reduce`.
unfoldable pub later : Option ℕ → DecodedBefore → Option ℕ
later none before = some before.log_index
later (some latest) before =
    if ltb latest before.log_index then some before.log_index else some latest

unfoldable pub latest_from : Option ℕ → List DecodedBefore → Option ℕ
unfolding later
latest_from start [] = start
latest_from start (b ∷ bs) = latest_from (later start b) bs

-- `windowStart`.
unfoldable pub memo_window_start : DecodedMemo → List DecodedBefore → Option ℕ
unfolding opens_window latest_from
memo_window_start memo befores = latest_from none (filter_by (opens_window memo) befores)

-- `matches.length !== 1`.
unfoldable pub only_one : List DecodedTransfer → Option DecodedTransfer
only_one [] = none
only_one (t ∷ []) = some t
only_one (t ∷ u ∷ ts) = none

module _ (v : Viem) where
  -- `transferCalldataHash`.
  unfoldable pub transfer_calldata_hash : Text → ℕ → Text
  transfer_calldata_hash to value = v.keccak256 (v.encode_transfer to value)

  -- The filter on the transfers.
  unfoldable pub fits : DecodedMemo → ℕ → DecodedTransfer → Bool
  unfolding text_eq same_id transfer_calldata_hash
  fits memo start t =
      not (leb t.log_index start || leb memo.log_index t.log_index)
      && text_eq t.from memo.sender
      && same_id (transfer_calldata_hash t.to t.value) memo.call_data_hash

  unfoldable pub bind_from : DecodedMemo → List DecodedTransfer → Option ℕ → Option DecodedTransfer
  unfolding fits only_one
  bind_from memo transfers none = none
  bind_from memo transfers (some start) = only_one (filter_by (fits memo start) transfers)

  -- `bindTransfer`.
  unfoldable pub bind_transfer :
      DecodedMemo → List DecodedBefore → List DecodedTransfer → Option DecodedTransfer
  unfolding bind_from memo_window_start same_id
  bind_transfer memo befores transfers =
      if not (same_id memo.target usdc_address)
      then none
      else bind_from memo transfers (memo_window_start memo befores)

-- A `BeforeMemo` event opens the memo's window: it has the memo's index and lies before the memo.
abbrev pub Opens : DecodedMemo → DecodedBefore → Type 0
Opens memo b = (b.memo_index ≡ memo.memo_index) × (b.log_index < memo.log_index)

opens_window_iff :
    (memo : DecodedMemo) (b : DecodedBefore) → (opens_window memo b ≡ true) ↔ Opens memo b
unfolding opens_window
opens_window_iff memo b = ground arith

-- A bound that a first value gives.
abbrev AtMost : Option ℕ → ℕ → Type 0
AtMost none n = Unit
AtMost (some a) n = a ≤ n

-- The latest of a first value and the events that open the memo's window.
abbrev pub Latest : DecodedMemo → Option ℕ → List DecodedBefore → ℕ → Type 0
Latest memo first befores n =
    ((first ≡ some n) ⊎ Any (λ b. Opens memo b × (b.log_index ≡ n)) befores)
    × AtMost first n
    × All (λ b. Opens memo b → b.log_index ≤ n) befores

later_iff :
    (memo : DecodedMemo) (first : Option ℕ) (b : DecodedBefore) (bs : List DecodedBefore) (n : ℕ)
    → Opens memo b
    → Latest memo (later first b) bs n ↔ Latest memo first (b ∷ bs) n
unfolding later
later_iff memo none b bs n h = ground arith
later_iff memo (some a) b bs n h = ground arith

skip_iff :
    (memo : DecodedMemo) (first : Option ℕ) (b : DecodedBefore) (bs : List DecodedBefore) (n : ℕ)
    → ¬ Opens memo b
    → Latest memo first bs n ↔ Latest memo first (b ∷ bs) n
skip_iff memo first b bs n h = ground arith

latest_from_iff :
    (memo : DecodedMemo) (first : Option ℕ) (bs : List DecodedBefore) (n : ℕ)
    → (latest_from first (filter_by (opens_window memo) bs) ≡ some n) ↔ Latest memo first bs n
unfolding latest_from
latest_from_iff memo none [] n = ground arith
latest_from_iff memo (some a) [] n = ground arith
latest_from_iff memo first (b ∷ bs) n = elim (Bool-cases (opens_window memo b)) [
  | inl yes_opens ↦
      let opens = (opens_window_iff memo b).0 yes_opens in
      rw yes_opens (
        ground
          (arith, latest_from_iff memo (later first b) bs n, later_iff memo first b bs n opens))
  | inr no_opens ↦
      let closed : ¬ Opens memo b = λ o. let e = (opens_window_iff memo b).1 o in cc in
      rw no_opens
        (ground (arith, latest_from_iff memo first bs n, skip_iff memo first b bs n closed))
]

-- One place of a list holds `t`, of which `P` is true, and `P` is true at no other place.
abbrev pub Only : (DecodedTransfer → Type 0) → DecodedTransfer → List DecodedTransfer → Type 0
Only P t [] = ⊥
Only P t (u ∷ us) = ((u ≡ t) × P u × All (λ w. ¬ P w) us) ⊎ ((¬ P u) × Only P t us)

filter_by-empty :
    (p : DecodedTransfer → Bool) (P : DecodedTransfer → Type 0) (ts : List DecodedTransfer)
    → ((u : DecodedTransfer) → (p u ≡ true) ↔ P u)
    → (filter_by p ts ≡ []) ↔ All (λ w. ¬ P w) ts
filter_by-empty p P [] h = ground arith
filter_by-empty p P (t ∷ ts) h = ground (arith, filter_by-empty p P ts h, h t)

only_one-cons :
    (t u : DecodedTransfer) (us : List DecodedTransfer)
    → (only_one (u ∷ us) ≡ some t) ↔ ((u ≡ t) × (us ≡ []))
unfolding only_one
only_one-cons t u [] = ground arith
only_one-cons t u (w ∷ us) = ground arith

only_one_iff :
    (p : DecodedTransfer → Bool) (P : DecodedTransfer → Type 0) (t : DecodedTransfer)
    (ts : List DecodedTransfer)
    → ((u : DecodedTransfer) → (p u ≡ true) ↔ P u)
    → (only_one (filter_by p ts) ≡ some t) ↔ Only P t ts
unfolding only_one
only_one_iff p P t [] h = ground arith
only_one_iff p P t (u ∷ us) h = elim (Bool-cases (p u)) [
  | inl passes ↦
      rw passes (ground (arith, only_one-cons t u (filter_by p us), filter_by-empty p P us h, h u))
  | inr fails ↦ rw fails (ground (arith, only_one_iff p P t us h, h u))
]

-- The transfer lies in the window, the memo's sender made it, and its call is the one whose hash
-- the memo names, up to the hash's case.
abbrev pub Fits : Viem → DecodedMemo → ℕ → DecodedTransfer → Type 0
Fits v memo start t =
    (start < t.log_index)
    × (t.log_index < memo.log_index)
    × (t.from ≡ memo.sender)
    × (to_lower_case (v.keccak256 (v.encode_transfer t.to t.value))
        ≡ to_lower_case memo.call_data_hash)

fits_iff :
    (v : Viem) (memo : DecodedMemo) (start : ℕ) (t : DecodedTransfer)
    → (fits v memo start t ≡ true) ↔ Fits v memo start t
unfolding fits same_id transfer_calldata_hash
fits_iff v memo start t = ground (
  arith,
  text_eq_iff t.from memo.sender,
  text_eq_iff (to_lower_case (v.keccak256 (v.encode_transfer t.to t.value)))
      (to_lower_case memo.call_data_hash),
)

-- The memo calls the token. The latest `BeforeMemo` event of the memo's index before it opens the
-- window, and the transfer is alone in the window among those that the memo's sender made with the
-- call that the memo names.
abbrev pub Bound :
    Viem → DecodedMemo → List DecodedBefore → List DecodedTransfer → DecodedTransfer → Type 0
Bound v memo befores transfers t =
    (to_lower_case memo.target ≡ to_lower_case usdc_address)
    × ((start : ℕ) × Latest memo none befores start × Only (Fits v memo start) t transfers)

pub same_id_iff : (a b : Text) → (same_id a b ≡ true) ↔ (to_lower_case a ≡ to_lower_case b)
unfolding same_id
same_id_iff a b = text_eq_iff (to_lower_case a) (to_lower_case b)

module _ (v : Viem) where
  bind_from_iff :
      (memo : DecodedMemo) (transfers : List DecodedTransfer) (o : Option ℕ) (t : DecodedTransfer)
      → (bind_from v memo transfers o ≡ some t)
        ↔ ((start : ℕ) × (o ≡ some start) × Only (Fits v memo start) t transfers)
  unfolding bind_from
  bind_from_iff memo transfers none t = (λ e. absurd (cc), λ s. absurd (cc))
  bind_from_iff memo transfers (some start) t =
      let alone =
        only_one_iff (fits v memo start) (Fits v memo start) t transfers (fits_iff v memo start) in
      (
        λ e. (start, refl, alone.0 e),
        λ s. alone.1 (subst (λ n. Only (Fits v memo n) t transfers) (cc) s.2),
      )

  -- A transfer is bound to a memo exactly when the memo calls the token (up to the address's case)
  -- and some `BeforeMemo` event with the memo's index lies before the memo, and of the transfers
  -- after the latest such event and before the memo, this is the only one that the memo's sender
  -- made and whose call (a transfer of its amount to its recipient) has the hash that the memo
  -- names, up to the hash's case.
  pub bind_transfer_iff :
      (memo : DecodedMemo) (befores : List DecodedBefore) (transfers : List DecodedTransfer)
      (t : DecodedTransfer)
      → (bind_transfer v memo befores transfers ≡ some t) ↔ Bound v memo befores transfers t
  unfolding bind_transfer memo_window_start
  bind_transfer_iff memo befores transfers t =
      let opened = latest_from none (filter_by (opens_window memo) befores) in
      elim (Bool-cases (same_id memo.target usdc_address)) [
        | inl calls ↦ rw calls (
          λ e.
              let (start, found, only) = (bind_from_iff memo transfers opened t).0 e in
              (
                (same_id_iff memo.target usdc_address).0 calls,
                (start, (latest_from_iff memo none befores start).0 found, only),
              ),
          λ b.
              let (_, (start, latest, only)) = b in
              (bind_from_iff memo transfers opened t).1
                (start, (latest_from_iff memo none befores start).1 latest, only),
        )
        | inr other ↦ rw other (
          λ e. absurd (cc),
          λ b. absurd (let e = (same_id_iff memo.target usdc_address).1 b.0 in cc),
        )
      ]
