-- ===== src/Access/Replay.antt =====
-- A signed request is authorized once (src/lib/apiKeys.ts, src/lib/walletNonce.ts).
use final_arc.Base.{
  ℕ, ◌+◌, ◌≤◌, ◌<◌, ◌≡◌, ◌≢◌, refl, sym, subst, inl, inr, Bool, true, false, not, ◌&&◌, ◌||◌,
  Option, none, some, List, [], ◌∷◌, All, if◌then◌else◌, ltb, leb, Text, text_eq, text_eq_refl,
  ltb→lt, Bool-cases, arith, big_int, is_empty, all_digits,
}
use final_arc.Base.Addresses.{Addresses}
use final_arc.Access.{Nonces}
use final_arc.Access.Wallet.{
  wallet_nonce_retention_seconds, wallet_auth_tolerance_seconds, is_wallet_nonce, nonce_key,
  consume_key, consume_wallet_nonce, WalletRequest, Crypto, WalletOutcome, authorized, unauthorized,
  store_unavailable, after_nonce, timestamp_of, check_signed, header, present,
  recover_wallet_merchant, distance,
}
use final_arc.Access.Nonces.{Holds, Quiet, consume_key-Quiet, consume_key-Holds}

-- A call of the check.
pub record Attempt : Type 0 where
  pub action : Text
  pub request : WalletRequest
  pub now : ℕ
  pub reachable : Bool

abbrev pub is_authorized : WalletOutcome → Bool
is_authorized (authorized merchant) = true
is_authorized unauthorized = false
is_authorized store_unavailable = false

module _ (v : Addresses) (k : Crypto) (show_number : ℕ → Text) where
  unfoldable pub attempt : Attempt → Nonces → WalletOutcome × Nonces
  attempt a nonces =
      recover_wallet_merchant v k show_number a.action a.request a.now a.reachable nonces

  unfoldable pub attempt_all : List Attempt → Nonces → Nonces
  unfolding attempt
  attempt_all [] nonces = nonces
  attempt_all (a ∷ rest) nonces = attempt_all rest (attempt a nonces).1

  -- The key under which the nonce of a request is kept.
  abbrev pub key_of : WalletRequest → Text
  key_of r = nonce_key (v.get_address (v.get_address (header r.merchant))) (header r.nonce)

  -- What one call does to the entry of a nonce.
  abbrev Refuses : (key other : Text) (end : ℕ) → WalletOutcome × Nonces → Type 0
  Refuses key other end r =
      (text_eq other key ≡ true → is_authorized r.0 ≡ false) × Holds key end r.1

  refuse :
      (key other : Text) (end : ℕ) (o : WalletOutcome) (nonces : Nonces)
      → is_authorized o ≡ false
      → Holds key end nonces
      → Refuses key other end (o, nonces)
  refuse key other end o nonces e h = ((λ same. e), h)

  if-Refuses :
      (b : Bool) (key other : Text) (end : ℕ) (x y : WalletOutcome × Nonces)
      → Refuses key other end x
      → Refuses key other end y
      → Refuses key other end (if b then x else y)
  if-Refuses true key other end x y p q = p
  if-Refuses false key other end x y p q = q

  after_nonce-Refuses :
      (key other : Text) (end : ℕ) (merchant : Text) (r : Bool × Nonces)
      → Quiet key other end r
      → Refuses key other end (after_nonce v k show_number [] merchant r)
  after_nonce-Refuses key other end merchant (true, nonces) q =
      ((λ same. absurd (apart (q.0 same))), q.1)
    where
      apart : true ≢ false
      apart e = cc
  after_nonce-Refuses key other end merchant (false, nonces) q = ((λ same. refl), q.1)

  consume-Quiet :
      (key : Text) (end : ℕ) (merchant nonce : Text) (now : ℕ) (nonces : Nonces)
      → now < end
      → Holds key end nonces
      → Quiet key
          (nonce_key (v.get_address merchant) nonce)
          end
          (consume_wallet_nonce v merchant nonce now nonces)
  unfolding consume_wallet_nonce
  consume-Quiet key end merchant nonce now nonces lt h =
      from (not (v.is_address merchant) || not (is_wallet_nonce nonce))
        (consume_key-Quiet key (nonce_key (v.get_address merchant) nonce) end now nonces lt h)
    where
      from :
          (b : Bool)
          → Quiet key
              (nonce_key (v.get_address merchant) nonce)
              end
              (consume_key (nonce_key (v.get_address merchant) nonce) now nonces)
          → Quiet key (nonce_key (v.get_address merchant) nonce) end (
              if b
              then (false, nonces)
              else consume_key (nonce_key (v.get_address merchant) nonce) now nonces)
      from true q = ((λ e. refl), h)
      from false q = q

  check_signed-Refuses :
      (action : Text) (r : WalletRequest) (merchant signature nonce : Text) (t : Option ℕ)
      (path : Option Text) (now : ℕ) (reachable : Bool) (nonces : Nonces) (key : Text) (end : ℕ)
      → now < end
      → Holds key end nonces
      → Refuses key (nonce_key (v.get_address merchant) nonce) end (
          check_signed v k show_number action r merchant signature nonce t path now reachable
            nonces)
  unfolding check_signed
  check_signed-Refuses action r merchant signature nonce none path now reachable nonces key end lt
        h =
      refuse key (nonce_key (v.get_address merchant) nonce) end unauthorized nonces refl h
  check_signed-Refuses action r merchant signature nonce (some t) none now reachable nonces key end
        lt h =
      refuse key (nonce_key (v.get_address merchant) nonce) end unauthorized nonces refl h
  check_signed-Refuses action r merchant signature nonce (some t) (some path) now reachable nonces
        key end lt h =
      let other = nonce_key (v.get_address merchant) nonce in
      let quiet = consume-Quiet key end merchant nonce now nonces lt h in
      if-Refuses _ key other end (unauthorized, nonces) _
        (refuse key other end unauthorized nonces refl h)
        (if-Refuses reachable key other end
          (after_nonce v k show_number action merchant
            (consume_wallet_nonce v merchant nonce now nonces))
          (store_unavailable, nonces)
          (after_nonce-Refuses key other end merchant
            (consume_wallet_nonce v merchant nonce now nonces) quiet)
          (refuse key other end store_unavailable nonces refl h))

  attempt-Refuses :
      (a : Attempt) (nonces : Nonces) (key : Text) (end : ℕ)
      → a.now < end
      → Holds key end nonces
      → Refuses key (key_of a.request) end (attempt a nonces)
  unfolding attempt recover_wallet_merchant
  attempt-Refuses a nonces key end lt h =
      let r = a.request in
      if-Refuses
        (not (present r.merchant && present r.timestamp && present r.signature && present r.nonce)
          || not (v.is_address (header r.merchant)))
        key (key_of r) end (unauthorized, nonces) _
        (refuse key (key_of r) end unauthorized nonces refl h)
        (check_signed-Refuses a.action r (v.get_address (header r.merchant)) (header r.signature)
          (header r.nonce) (timestamp_of (header r.timestamp) a.now) r.pathname a.now a.reachable
          nonces key end lt h)

  attempt_all-Holds :
      (others : List Attempt) (nonces : Nonces) (key : Text) (end : ℕ)
      → All (λ a. a.now < end) others
      → Holds key end nonces
      → Holds key end (attempt_all others nonces)
  unfolding attempt_all
  attempt_all-Holds [] nonces key end f h = h
  attempt_all-Holds (a ∷ others) nonces key end f h =
      attempt_all-Holds others (attempt a nonces).1 key end f.1
        (attempt-Refuses a nonces key end f.0 h).1

  -- A call that authorizes keeps the nonce for the retention.
  abbrev Keeps : (key : Text) (end : ℕ) → WalletOutcome × Nonces → Type 0
  Keeps key end r = is_authorized r.0 ≡ true → Holds key end r.1

  keep_none : (key : Text) (end : ℕ) (nonces : Nonces) → Keeps key end (unauthorized, nonces)
  keep_none key end nonces e = absurd (cc)

  if-Keeps :
      (b : Bool) (key : Text) (end : ℕ) (x y : WalletOutcome × Nonces)
      → Keeps key end x
      → Keeps key end y
      → Keeps key end (if b then x else y)
  if-Keeps true key end x y p q = p
  if-Keeps false key end x y p q = q

  after_nonce-Keeps :
      (key : Text) (end : ℕ) (merchant : Text) (r : Bool × Nonces)
      → (r.0 ≡ true → Holds key end r.1)
      → Keeps key end (after_nonce v k show_number [] merchant r)
  after_nonce-Keeps key end merchant (true, nonces) f = λ e. f refl
  after_nonce-Keeps key end merchant (false, nonces) f = λ e. absurd (cc)

  consume-Holds :
      (merchant nonce : Text) (now : ℕ) (nonces : Nonces)
      → (consume_wallet_nonce v merchant nonce now nonces).0 ≡ true
      → Holds
          (nonce_key (v.get_address merchant) nonce)
          (now + wallet_nonce_retention_seconds)
          (consume_wallet_nonce v merchant nonce now nonces).1
  unfolding consume_wallet_nonce
  consume-Holds merchant nonce now nonces e =
      from (not (v.is_address merchant) || not (is_wallet_nonce nonce))
        (consume_key (nonce_key (v.get_address merchant) nonce) now nonces)
        (consume_key-Holds (nonce_key (v.get_address merchant) nonce) now nonces) e
    where
      from :
          (b : Bool) (r : Bool × Nonces)
          → (r.0 ≡ true
              → Holds
                  (nonce_key (v.get_address merchant) nonce)
                  (now + wallet_nonce_retention_seconds)
                  r.1)
          → (if◌then◌else◌ {A = Bool × Nonces} b (false, nonces) r).0 ≡ true
          → Holds
              (nonce_key (v.get_address merchant) nonce)
              (now + wallet_nonce_retention_seconds)
              (if◌then◌else◌ {A = Bool × Nonces} b (false, nonces) r).1
      from true r f e = absurd (cc)
      from false r f e = f e

  check_signed-Keeps :
      (action : Text) (r : WalletRequest) (merchant signature nonce : Text) (t : Option ℕ)
      (path : Option Text) (now : ℕ) (reachable : Bool) (nonces : Nonces)
      → Keeps (nonce_key (v.get_address merchant) nonce) (now + wallet_nonce_retention_seconds) (
          check_signed v k show_number action r merchant signature nonce t path now reachable
            nonces)
  unfolding check_signed
  check_signed-Keeps action r merchant signature nonce none path now reachable nonces =
      λ e. absurd (cc)
  check_signed-Keeps action r merchant signature nonce (some t) none now reachable nonces =
      λ e. absurd (cc)
  check_signed-Keeps action r merchant signature nonce (some t) (some path) now reachable nonces =
      let key = nonce_key (v.get_address merchant) nonce in
      let end = now + wallet_nonce_retention_seconds in
      if-Keeps _ key end (unauthorized, nonces) _ (keep_none key end nonces)
        (if-Keeps reachable key end
          (after_nonce v k show_number action merchant
            (consume_wallet_nonce v merchant nonce now nonces))
          (store_unavailable, nonces)
          (after_nonce-Keeps key end merchant (consume_wallet_nonce v merchant nonce now nonces)
            (consume-Holds merchant nonce now nonces))
          (λ e. absurd (cc)))

  attempt-Keeps :
      (a : Attempt) (nonces : Nonces)
      → Keeps (key_of a.request) (a.now + wallet_nonce_retention_seconds) (attempt a nonces)
  unfolding attempt recover_wallet_merchant
  attempt-Keeps a nonces =
      let r = a.request in
      let key = key_of r in
      let end = a.now + wallet_nonce_retention_seconds in
      if-Keeps
        (not (present r.merchant && present r.timestamp && present r.signature && present r.nonce)
          || not (v.is_address (header r.merchant)))
        key end (unauthorized, nonces) _ (keep_none key end nonces)
        (check_signed-Keeps a.action r (v.get_address (header r.merchant)) (header r.signature)
          (header r.nonce) (timestamp_of (header r.timestamp) a.now) r.pathname a.now a.reachable
          nonces)

  late_timestamp :
      (raw : Text) (now : ℕ)
      → big_int raw + wallet_auth_tolerance_seconds < now
      → timestamp_of raw now ≡ none
  unfolding timestamp_of
  late_timestamp raw now lt = late (big_int raw) (not (is_empty raw) && all_digits raw) lt
    where
      late :
          (t : ℕ) (b : Bool)
          → t + wallet_auth_tolerance_seconds < now
          → ◌≡◌ {A = Option ℕ}
              (if b && leb t 9007199254740991 && leb (distance now t) wallet_auth_tolerance_seconds
                then some t
                else none)
              none
      late t b lt = ground arith

  if-unauthorized :
      (b : Bool) (x y : WalletOutcome × Nonces)
      → is_authorized x.0 ≡ false
      → is_authorized y.0 ≡ false
      → is_authorized (if◌then◌else◌ {A = WalletOutcome × Nonces} b x y).0 ≡ false
  if-unauthorized true x y p q = p
  if-unauthorized false x y p q = q

  attempt-late :
      (a : Attempt) (nonces : Nonces)
      → big_int (header a.request.timestamp) + wallet_auth_tolerance_seconds < a.now
      → is_authorized (attempt a nonces).0 ≡ false
  unfolding attempt recover_wallet_merchant check_signed
  attempt-late a nonces lt =
      let r = a.request in
      if-unauthorized
        (not (present r.merchant && present r.timestamp && present r.signature && present r.nonce)
          || not (v.is_address (header r.merchant)))
        (unauthorized, nonces) _ refl
        (subst
          (λ t.
            is_authorized
              (check_signed v k show_number a.action r (v.get_address (header r.merchant))
                (header r.signature) (header r.nonce) t r.pathname a.now a.reachable nonces).0
            ≡ false)
          (sym (late_timestamp (header r.timestamp) a.now lt)) refl)

  -- An authorized request whose timestamp is less than 60 seconds ahead of the server's clock cannot
  -- be replayed: whatever calls follow, with clocks up to that of the replay, no request with the
  -- same merchant, nonce and timestamp is authorized again, whatever its action and payload.
  pub attempt_once :
      (first replay : Attempt) (others : List Attempt) (nonces : Nonces)
      → is_authorized (attempt first nonces).0 ≡ true
      → big_int (header first.request.timestamp) < first.now + 60
      → All (λ a. a.now ≤ replay.now) others
      → key_of replay.request ≡ key_of first.request
      → replay.request.timestamp ≡ first.request.timestamp
      → is_authorized (attempt replay (attempt_all others (attempt first nonces).1)).0 ≡ false
  attempt_once first replay others nonces accepted early between same_key same_time =
      elim (Bool-cases (ltb replay.now (first.now + wallet_nonce_retention_seconds))) [
        | inl within ↦
            let lt = ltb→lt replay.now (first.now + wallet_nonce_retention_seconds) within in
            let end = first.now + wallet_nonce_retention_seconds in
            let kept = attempt-Keeps first nonces accepted in
            let still =
              attempt_all-Holds others (attempt first nonces).1 (key_of first.request) end
                (before others end lt between) kept in
            (attempt-Refuses replay (attempt_all others (attempt first nonces).1)
                (key_of first.request) end lt still).0
              (rw same_key (text_eq_refl (key_of first.request)))
        | inr past ↦
            attempt-late replay (attempt_all others (attempt first nonces).1)
              (rw same_time (ground arith))
      ]
    where
      before :
          (xs : List Attempt) (end : ℕ)
          → replay.now < end
          → All (λ a. a.now ≤ replay.now) xs
          → All (λ a. a.now < end) xs
      before [] end lt f = tt
      before (x ∷ xs) end lt f = (omega (arith, f.0), before xs end lt f.1)
