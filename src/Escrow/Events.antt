-- ===== src/Escrow/Events.antt =====
-- `matchEscrowEvent` of src/lib/escrowTerms.ts. `decodeEventLog` of viem, on the escrow ABI, is a
-- parameter: `none` where it throws.
use final_arc.Base.{
  ℕ, ◌+◌, ◌≤◌, ◌≡◌, ◌↔◌, inl, inr, refl, ap, Bool, true, false, not, ◌&&◌, Option, none, some, List,
  [], ◌∷◌, ◌++◌, if◌then◌else◌, ◌==◌, ltb, is_empty, Text, text_eq, to_lower_case, All, arith,
  Bool-cases,
}
use final_arc.Base.Addresses.{Addresses}

pub record EscrowLog : Type 0 where
  pub address : Text
  pub topics : List Text
  pub payload : Text

pub record EscrowTxEvidence : Type 0 where
  pub succeeded : Bool
  pub logs : List EscrowLog

pub data EventName : Type 0 where
  escrow_opened escrow_funded escrow_released escrow_refunded escrow_cancelled : EventName

-- A decoded log, with the arguments of its event.
pub data Decoded : Type 0 where
  was_opened : (id payer recipient creator : Text) (amount expires_at : ℕ) → Decoded
  was_funded : (id payer : Text) (amount : ℕ) → Decoded
  was_released : (id recipient : Text) (amount : ℕ) → Decoded
  was_refunded : (id payer : Text) (amount : ℕ) → Decoded
  was_cancelled : (id : Text) → Decoded

pub record MatchInput : Type 0 where
  pub evidence : EscrowTxEvidence
  pub contract_address : Text
  pub event_name : EventName
  pub escrow_id : Text
  pub amount : Option ℕ
  pub party : Option Text
  pub payer : Option Text
  pub recipient : Option Text
  pub creator : Option Text
  pub expires_at : Option ℕ

pub data MatchResult : Type 0 where
  matched transaction_failed ambiguous mismatch : MatchResult

unfoldable pub same_hex : Text → Text → Bool
same_hex left right = text_eq (to_lower_case left) (to_lower_case right)

-- `expected && getAddress(found) === expected`.
unfoldable pub is_party : Addresses → Option Text → Text → Bool
is_party v none found = false
is_party v (some []) found = false
is_party v (some (c ∷ cs)) found = text_eq (v.get_address found) (c ∷ cs)

-- `expected != null && found === expected`; a missing expectation equals no number.
unfoldable pub is_amount : Option ℕ → ℕ → Bool
is_amount none found = false
is_amount (some expected) found = found == expected

-- The branches on the event's name and the arguments.
unfoldable pub matches_decoded : Addresses → MatchInput → EventName → Decoded → Bool
unfolding same_hex is_party is_amount
matches_decoded v i escrow_opened (was_opened id payer recipient creator amount expires_at) =
    same_hex id i.escrow_id
    && is_party v i.payer payer
    && is_party v i.recipient recipient
    && is_party v i.creator creator
    && is_amount i.amount amount
    && is_amount i.expires_at expires_at
matches_decoded v i escrow_funded (was_funded id payer amount) =
    same_hex id i.escrow_id && is_party v i.party payer && is_amount i.amount amount
matches_decoded v i escrow_released (was_released id recipient amount) =
    same_hex id i.escrow_id && is_party v i.party recipient && is_amount i.amount amount
matches_decoded v i escrow_refunded (was_refunded id payer amount) =
    same_hex id i.escrow_id && is_party v i.party payer && is_amount i.amount amount
matches_decoded v i escrow_cancelled (was_cancelled id) = same_hex id i.escrow_id
matches_decoded v i _ _ = false

module _ (v : Addresses) (decode_event_log : EscrowLog → Option Decoded) where
  -- Whether the loop counts a log.
  unfoldable pub matches_log : MatchInput → EscrowLog → Bool
  unfolding matches_decoded same_hex
  matches_log i log =
      same_hex log.address i.contract_address
      && not (is_empty log.topics)
      && (elim (decode_event_log log) [
        | none ↦ false
        | some decoded ↦ matches_decoded v i i.event_name decoded
      ])

  unfoldable pub count_matches : MatchInput → ℕ → List EscrowLog → ℕ
  unfolding matches_log
  count_matches i n [] = n
  count_matches i n (log ∷ logs) = count_matches i (if matches_log i log then n + 1 else n) logs

  unfoldable pub match_escrow_event : MatchInput → MatchResult
  unfolding count_matches
  match_escrow_event i =
      if not i.evidence.succeeded
      then transaction_failed
      else (let matches = count_matches i 0 i.evidence.logs in
          if matches == 0 then mismatch else (if ltb 1 matches then ambiguous else matched))

  abbrev pub None : MatchInput → List EscrowLog → Type 0
  None i = All (λ log. matches_log i log ≡ false)

  -- One log of the list matches, and no other.
  abbrev pub OneMatch : MatchInput → List EscrowLog → Type 0
  OneMatch i logs =
      (before after : List EscrowLog) × (log : EscrowLog) × (logs ≡ before ++ log ∷ after)
      × (matches_log i log ≡ true)
      × None i before
      × None i after

  count-ge :
      (i : MatchInput) (n : ℕ) (logs : List EscrowLog) → ltb (count_matches i n logs) n ≡ false
  unfolding count_matches
  count-ge i n [] = ground arith
  count-ge i n (log ∷ logs) = ground (arith, count-ge i n logs, count-ge i (n + 1) logs)

  -- No further log matches when the count stays.
  count-stays :
      (i : MatchInput) (n : ℕ) (logs : List EscrowLog) → (count_matches i n logs ≡ n) ↔ None i logs
  unfolding count_matches
  count-stays i n [] = ((λ _. tt), (λ _. refl))
  count-stays i n (log ∷ logs) = ground (arith, count-stays i n logs, count-ge i (n + 1) logs)

  count-one :
      (i : MatchInput) (logs : List EscrowLog) → count_matches i 0 logs ≡ 1 → OneMatch i logs
  unfolding count_matches
  count-one i [] h = absurd (omega arith)
  count-one i (log ∷ logs) h = elim (Bool-cases (matches_log i log)) [
    | inl m ↦ ([], logs, log, refl, m, tt, (count-stays i 1 logs).0 (rw (m, count_matches) at h))
    | inr m ↦
        let (before, after, found, eq, m', none_before, none_after) =
          count-one i logs (rw (m, count_matches) at h) in
        (log ∷ before, after, found, ap (◌∷◌ log) eq, m', (m, none_before), none_after)
  ]

  one-count :
      (i : MatchInput) (before after : List EscrowLog) (log : EscrowLog)
      → matches_log i log ≡ true
      → None i before
      → None i after
      → count_matches i 0 (before ++ log ∷ after) ≡ 1
  unfolding count_matches
  one-count i [] after log m b a = rw (m, count_matches) ((count-stays i 1 after).1 a)
  one-count i (x ∷ before) after log m b a =
      rw (b.0, count_matches) (one-count i before after log m b.1 a)

  -- A match is found exactly when the transaction succeeded and one log, and no other, is from the
  -- contract and decodes to the wanted event of this escrow with the wanted parties and amounts.
  pub match_escrow_event_iff :
      (i : MatchInput)
      → (match_escrow_event i ≡ matched)
        ↔ ((i.evidence.succeeded ≡ true) × OneMatch i i.evidence.logs)
  unfolding match_escrow_event
  match_escrow_event_iff i = (
    (λ h. (ground arith, count-one i i.evidence.logs (ground arith))),
    (λ h.
        let (before, after, log, eq, m, b, a) = h.1 in
        let one : count_matches i 0 i.evidence.logs ≡ 1 =
          rw eq (one-count i before after log m b a) in
        ground arith),
  )

  -- More than one matching log is refused as ambiguous, and none as a mismatch.
  pub match_escrow_event_count :
      (i : MatchInput)
      → i.evidence.succeeded ≡ true
      → ((match_escrow_event i ≡ ambiguous) ↔ (2 ≤ count_matches i 0 i.evidence.logs))
        × ((match_escrow_event i ≡ mismatch) ↔ None i i.evidence.logs)
  unfolding match_escrow_event
  match_escrow_event_count i ok = ground (arith, count-stays i 0 i.evidence.logs)
