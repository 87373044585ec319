-- ===== src/Access/Nonces.antt =====
-- The store of used nonces (src/lib/walletNonce.ts).
use final_arc.Base.{
  ℕ, ◌+◌, ◌<◌, ◌≡◌, ◌≢◌, refl, sym, ◌∙◌, subst, inl, inr, Bool, true, false, ◌&&◌, some, [], ◌∷◌,
  if◌then◌else◌, ltb, Text, text_eq, text_eq_refl, text_eq_iff, get, put, get-put, Bool-cases,
  arith, length, ◌%◌, ◌==◌,
}
use final_arc.Access.{Nonces}
use final_arc.Access.Wallet.{
  wallet_nonce_retention_seconds, prune_expired, pruned, still_used, mark_key, consume_key,
}

-- The entry of a nonce that is not forgotten before `end`.
abbrev pub Holds : (key : Text) (end : ℕ) → Nonces → Type 0
Holds key end nonces = get key nonces ≡ some end

prune_expired-Holds :
    (key : Text) (end now : ℕ) (nonces : Nonces)
    → now < end
    → Holds key end nonces
    → Holds key end (prune_expired now nonces)
unfolding prune_expired get
prune_expired-Holds key end now [] lt h = cc
prune_expired-Holds key end now ((j, e) ∷ rest) lt h =
    ground (arith, prune_expired-Holds key end now rest)

pruned-Holds :
    (key : Text) (end now : ℕ) (nonces : Nonces)
    → now < end
    → Holds key end nonces
    → Holds key end (pruned now nonces)
unfolding pruned
pruned-Holds key end now nonces lt h =
    same (ltb 0 (length nonces) && length nonces % 32 == 0)
      (prune_expired-Holds key end now nonces lt h)
  where
    same :
        (b : Bool)
        → Holds key end (prune_expired now nonces)
        → Holds key end (if b then prune_expired now nonces else prune_expired now nonces)
    same true p = p
    same false p = p

-- A call before the end keeps the entry, and does not consume this nonce again.
abbrev pub Quiet : (key other : Text) (end : ℕ) → Bool × Nonces → Type 0
Quiet key other end r = (text_eq other key ≡ true → r.0 ≡ false) × Holds key end r.1

mark_if :
    (b : Bool) (key other : Text) (end : ℕ) (kept marked : Nonces)
    → (text_eq other key ≡ true → b ≡ true)
    → Holds key end kept
    → (text_eq other key ≡ false → Holds key end marked)
    → Quiet key other end (if b then (false, kept) else (true, marked))
mark_if true key other end kept marked f p q = ((λ e. refl), p)
mark_if false key other end kept marked f p q = elim (Bool-cases (text_eq other key)) [
  | inl same ↦ absurd (apart (f same))
  | inr differs ↦ ((λ e. absurd (cc)), q differs)
]
  where
    apart : false ≢ true
    apart e = cc

mark_key-Quiet :
    (key other : Text) (end now : ℕ) (kept : Nonces)
    → now < end
    → Holds key end kept
    → Quiet key other end (mark_key other now kept)
unfolding mark_key
mark_key-Quiet key other end now kept lt p =
    mark_if (still_used (get other kept) now) key other end kept
      (put other (now + wallet_nonce_retention_seconds) kept)
      (λ same.
        subst (λ i. still_used (get i kept) now ≡ true) (sym ((text_eq_iff other key).0 same))
          (rw p (ground arith)))
      p (λ differs. get-put key other (now + wallet_nonce_retention_seconds) kept ∙ rw differs p)

pub consume_key-Quiet :
    (key other : Text) (end now : ℕ) (nonces : Nonces)
    → now < end
    → Holds key end nonces
    → Quiet key other end (consume_key other now nonces)
unfolding consume_key
consume_key-Quiet key other end now nonces lt h =
    mark_key-Quiet key other end now (pruned now nonces) lt (pruned-Holds key end now nonces lt h)

marked_kept :
    (b : Bool) (key : Text) (end : ℕ) (kept marked : Nonces)
    → Holds key end marked
    → (if◌then◌else◌ {A = Bool × Nonces} b (false, kept) (true, marked)).0 ≡ true
    → Holds key end (if◌then◌else◌ {A = Bool × Nonces} b (false, kept) (true, marked)).1
marked_kept true key end kept marked p e = absurd (cc)
marked_kept false key end kept marked p e = p

-- A nonce that a call consumes is kept for the retention.
pub consume_key-Holds :
    (key : Text) (now : ℕ) (nonces : Nonces)
    → (consume_key key now nonces).0 ≡ true
    → Holds key (now + wallet_nonce_retention_seconds) (consume_key key now nonces).1
unfolding consume_key mark_key
consume_key-Holds key now nonces e =
    let kept = pruned now nonces in
    marked_kept (still_used (get key kept) now) key (now + wallet_nonce_retention_seconds) kept
      (put key (now + wallet_nonce_retention_seconds) kept)
      (get-put key key (now + wallet_nonce_retention_seconds) kept ∙ rw (text_eq_refl key) refl) e
