-- ===== src/Receipts/Logs.antt =====
-- The events of a receipt (src/lib/receipt.ts): `decodeMemoEvents`, `decodeBeforeMemos` and
-- `decodeUsdcTransfers`.
use final_arc.Base.{
  ℕ, Bool, not, ◌&&◌, ◌||◌, ◌==◌, Option, none, some, List, [], ◌∷◌, if◌then◌else◌, is_empty, leb,
  Text, codes, text_eq,
}
use final_arc.Payments.{same_id}
use final_arc.Receipts.{
  Viem, Log, MemoLog, memo_event, before_memo, no_memo_log, TokenLog, transfer_event, no_token_log,
  usdc_address, memo_address,
}

pub record DecodedMemo : Type 0 where
  pub sender : Text
  pub target : Text
  pub call_data_hash : Text
  pub memo_id : Text
  pub memo : Text
  pub memo_text : Option Text
  pub memo_index : ℕ
  pub log_index : ℕ

pub record DecodedBefore : Type 0 where
  pub memo_index : ℕ
  pub log_index : ℕ

pub record DecodedTransfer : Type 0 where
  pub from : Text
  pub to : Text
  pub value : ℕ
  pub log_index : ℕ

-- `found.push(...)` for the logs that give one.
abbrev pub collect : {A B : Type 0} → (A → Option B) → List A → List B
collect f [] = []
collect f (x ∷ xs) = let rest = collect f xs in elim (f x) [ none ↦ rest | some y ↦ y ∷ rest ]

-- `sort` by the index of the log, which is stable.
unfoldable pub insert_memo : DecodedMemo → List DecodedMemo → List DecodedMemo
insert_memo m [] = m ∷ []
insert_memo m (n ∷ ns) =
    let rest = insert_memo m ns in if leb m.log_index n.log_index then m ∷ n ∷ ns else n ∷ rest

unfoldable pub sort_memos : List DecodedMemo → List DecodedMemo
unfolding insert_memo
sort_memos [] = []
sort_memos (m ∷ ms) = insert_memo m (sort_memos ms)

module _ (v : Viem) where
  open v.addresses use {get_address}

  -- `isBytes32`.
  unfoldable pub is_bytes32 : Text → Bool
  is_bytes32 value = v.is_hex value && v.size value == 32

  -- `decodeMemoText`.
  unfoldable pub decode_memo_text : Text → Option Text
  unfolding text_eq
  decode_memo_text value =
      if is_empty value || text_eq value (codes "0x")
      then none
      else (elim (v.hex_to_string value) [ none ↦ some value | some text ↦ some text ])

  -- The body of the loop of `decodeMemoEvents` after the decoding.
  unfoldable pub memo_of : ℕ → MemoLog → Option DecodedMemo
  unfolding is_bytes32 decode_memo_text
  memo_of index no_memo_log = none
  memo_of index (before_memo i) = none
  memo_of index (memo_event sender target call_data_hash memo_id memo memo_index) =
      if not (v.is_address_strict sender) || not (v.is_address_strict target)
      then none
      else (if not (is_bytes32 call_data_hash) || not (is_bytes32 memo_id) || not (v.is_hex memo)
          then none
          else some (record {
            sender = get_address sender;
            target = get_address target;
            call_data_hash = call_data_hash;
            memo_id = memo_id;
            memo = memo;
            memo_text = decode_memo_text memo;
            memo_index = memo_index;
            log_index = index;
          }))

  unfoldable pub before_of : ℕ → MemoLog → Option DecodedBefore
  before_of index no_memo_log = none
  before_of index (memo_event s t h i m k) = none
  before_of index (before_memo memo_index) =
      some (record { memo_index = memo_index; log_index = index })

  unfoldable pub transfer_of : ℕ → TokenLog → Option DecodedTransfer
  transfer_of index no_token_log = none
  transfer_of index (transfer_event from to value) =
      if not (v.is_address_strict from) || not (v.is_address_strict to)
      then none
      else some (record {
        from = get_address from;
        to = get_address to;
        value = value;
        log_index = index;
      })

  -- The guards on a log's address and index, before the decoding.
  abbrev pub contract_log : {A : Type 0} → Text → Log → (ℕ → Option A) → Option A
  contract_log contract log decode =
      if not (same_id log.address contract)
      then none
      else (elim log.log_index [ none ↦ none | some index ↦ decode index ])

  -- `decodeMemoEvents`.
  unfoldable pub decode_memo_events : List Log → List DecodedMemo
  unfolding memo_of sort_memos same_id
  decode_memo_events logs =
      sort_memos (
        collect (λ log. contract_log memo_address log (λ i. memo_of i (v.decode_memo_log log)))
          logs)

  -- `decodeBeforeMemos`.
  unfoldable pub decode_before_memos : List Log → List DecodedBefore
  unfolding before_of same_id
  decode_before_memos logs =
      collect (λ log. contract_log memo_address log (λ i. before_of i (v.decode_memo_log log))) logs

  -- `decodeUsdcTransfers`.
  unfoldable pub decode_usdc_transfers : List Log → List DecodedTransfer
  unfolding transfer_of same_id
  decode_usdc_transfers logs =
      collect (λ log. contract_log usdc_address log (λ i. transfer_of i (v.decode_token_log log)))
        logs
