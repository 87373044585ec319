-- ===== src/Ledger.antt =====
-- src/lib/policyLedger.ts: the reservations that hold a merchant's spend caps. The document, lazy
-- recovery and the committed spend of a cap.

pub mod Committed
pub mod Store
pub mod Reserve
pub mod Transition
pub mod Lifecycle
pub mod Atomicity
pub mod Interleaving
pub mod Finality
use final_arc.Base.{
  ℕ, ◌+◌, Bool, true, false, not, ◌&&◌, ◌||◌, Option, none, some, List, [], ◌∷◌, if◌then◌else◌,
  Text, codes, text_eq, includes, to_lower_case, is_positive_decimal, big_int, Entries, get, put,
}
use final_arc.Base.Int.{ℤ, pos, ltb_ℤ, leb_ℤ, ◌+ℤ◌, ◌-ℤ◌, is_safe_integer}

pub data ReservationStatus : Type 0 where
  reserved consumed released : ReservationStatus

pub record LedgerReservation : Type 0 where
  pub id : Text
  pub intent_id : Text
  pub merchant : Text
  pub amount_base_units : Text
  pub policy_ids : List Text
  pub reserved_at : ℤ
  pub expires_at : ℤ
  pub status : ReservationStatus
  pub consumed_at : Option ℤ
  pub released_at : Option ℤ
  pub release_reason : Option Text

-- The `reservations` of a document; its version is always 1.
abbrev pub LedgerDoc : Type 0
LedgerDoc = Entries LedgerReservation

abbrev pub reservation_release_grace_seconds : ℤ
reservation_release_grace_seconds = pos 3600

abbrev pub max_reservation_attempts : ℕ
max_reservation_attempts = 5

-- `readRow`. The types of the record stand for its `typeof` tests and the test of the status.
unfoldable pub read_row : LedgerReservation → Option LedgerReservation
read_row row =
    if not (is_positive_decimal row.amount_base_units)
    then none
    else (if not (is_safe_integer row.reserved_at) || not (is_safe_integer row.expires_at)
        then none
        else some row)

-- `readRow(doc.reservations[id])`.
unfoldable pub read_row_at : Text → LedgerDoc → Option LedgerReservation
unfolding read_row
read_row_at id doc = elim (get id doc) [ none ↦ none | some row ↦ read_row row ]

pub data IntentStatus : Type 0 where
  awaiting_payment submitted verified failed : IntentStatus

pub record IntentFact : Type 0 where
  pub status : IntentStatus
  pub submitted_tx_hash : Option Text
  pub verified_at : Option ℤ
  pub amount_base_units : Option Text

pub record VerifiedSpendFact : Type 0 where
  pub id : Text
  pub amount_base_units : Text
  pub verified_at : ℤ

abbrev pub expire : ℤ → Text → LedgerReservation → Option LedgerReservation
expire now why row =
    if leb_ℤ (row.expires_at +ℤ reservation_release_grace_seconds) now
    then some (record row { status = released; released_at = some now; release_reason = some why })
    else none

-- `!hash`: an empty text is falsy.
abbrev pub no_hash : Option Text → Bool
no_hash none = true
no_hash (some []) = true
no_hash (some (c ∷ cs)) = false

-- The chain of branches on the intent of a row that is reserved: the row's replacement, if any.
unfoldable pub recover_intent :
    ℤ → IntentStatus → Option ℤ → Option Text → LedgerReservation → Option LedgerReservation
recover_intent now verified (some at) hash row =
    some (record row { status = consumed; consumed_at = some at })
recover_intent now verified none hash row = none
recover_intent now failed at hash row = some (record row {
  status = released;
  released_at = some now;
  release_reason = some (codes "intent_failed");
})
recover_intent now awaiting_payment at hash row =
    if no_hash hash then expire now (codes "intent_expired") row else none
recover_intent now submitted at hash row = none

unfoldable pub recover_row : ℤ → Option IntentFact → LedgerReservation → Option LedgerReservation
unfolding recover_intent
recover_row now none row = expire now (codes "intent_never_stored") row
recover_row now (some intent) row =
    recover_intent now intent.status intent.verified_at intent.submitted_tx_hash row

-- The guard of the loop: a row that can be read and is reserved.
unfoldable pub recover_if_reserved :
    ℤ → Option IntentFact → ReservationStatus → LedgerReservation → Option LedgerReservation
unfolding recover_row
recover_if_reserved now intent reserved row = recover_row now intent row
recover_if_reserved now intent consumed row = none
recover_if_reserved now intent released row = none

unfoldable pub recover_value : ℤ → Option IntentFact → LedgerReservation → Option LedgerReservation
unfolding read_row recover_if_reserved
recover_value now intent value = elim (read_row value) [
  | none ↦ none
  | some row ↦ recover_if_reserved now intent row.status row
]

-- `recoverReservations`: the document after the loop, and whether it changed. The loop writes only
-- the entry that it has reached.
unfoldable pub recover_reservations : (Text → Option IntentFact) → ℤ → LedgerDoc → LedgerDoc × Bool
recover_reservations intents now [] = ([], false)
recover_reservations intents now ((id, value) ∷ doc) =
    let (rest, changed) = recover_reservations intents now doc in
    elim (recover_value now (intents (to_lower_case id)) value) [
      | none ↦ ((id, value) ∷ rest, changed)
      | some row ↦ ((id, row) ∷ rest, true)
    ]

-- The window `(now - windowSeconds, now]`.
unfoldable pub in_window : ℤ → ℤ → ℤ → Bool
in_window now window_seconds at = ltb_ℤ (now -ℤ window_seconds) at && leb_ℤ at now

-- The first loop of `committedForCap`: the ids counted, and the total.
unfoldable pub count_verified : ℤ → ℤ → List Text → ℕ → List VerifiedSpendFact → List Text × ℕ
unfolding in_window
count_verified now window counted total [] = (counted, total)
count_verified now window counted total (row ∷ rows) =
    let id = to_lower_case row.id in
    let seen = includes counted id in
    count_verified now window (if seen then counted else id ∷ counted)
      (if not seen && in_window now window row.verified_at
        then total + big_int row.amount_base_units
        else total)
      rows

-- What a row that is not counted yet adds: `none` where the row is passed over.
unfoldable pub committed_amount : ℤ → ℤ → ReservationStatus → Option ℤ → Text → Option ℕ
unfolding in_window
committed_amount now window reserved at amount = some (big_int amount)
committed_amount now window consumed (some at) amount =
    some (if in_window now window at then big_int amount else 0)
committed_amount now window consumed none amount = none
committed_amount now window released at amount = none

unfoldable pub committed_row : ℤ → ℤ → LedgerReservation → Option ℕ
unfolding read_row committed_amount
committed_row now window value = elim (read_row value) [
  | none ↦ none
  | some row ↦ committed_amount now window row.status row.consumed_at row.amount_base_units
]

-- The second loop.
unfoldable pub count_reservations : ℤ → ℤ → List Text → ℕ → LedgerDoc → ℕ
unfolding committed_row
count_reservations now window counted total [] = total
count_reservations now window counted total ((key, row) ∷ doc) =
    let id = to_lower_case row.id in
    let amount = if includes counted id then none else committed_row now window row in
    count_reservations now window (elim amount [ none ↦ counted | some a ↦ id ∷ counted ])
      (elim amount [ none ↦ total | some a ↦ total + a ]) doc

-- `committedForCap`.
unfoldable pub committed_for_cap : LedgerDoc → List VerifiedSpendFact → ℤ → ℤ → ℕ
unfolding count_verified count_reservations
committed_for_cap doc facts now window =
    let (counted, total) = count_verified now window [] 0 facts in
    count_reservations now window counted total doc
