-- ===== src/Agents/Preserved.antt =====
-- What a write of the stored intents (src/lib/agentPayments.ts) keeps, and the rows that a submission
-- hands over.
use final_arc.Base.{
  ◌≡◌, refl, sym, ap, ◌∙◌, subst, Bool, true, false, not, Option, none, some, List, [], ◌∷◌,
  if◌then◌else◌, is_empty, Text, text_eq, text_eq_refl, get, put, get-put, arith,
}
use final_arc.Base.Int.{ℤ}
use final_arc.Ledger.Store.{Codec}
use final_arc.Payments.{same_id}
use final_arc.Receipts.{Viem, FinalRequest}
use final_arc.Agents.{
  Kept, row, foreign, read_kept, StoredIntent, AgentIntentBody, AgentResult, AgentStore,
}
use final_arc.Agents.Section.{is_verified, Touched, persist_touched, remember}
use final_arc.Agents.Unique.{Intents, HoldsVerified, WellFormed}
use final_arc.Agents.Proof.{Judgement}
use final_arc.Agents.Load.{
  Step, goes_on, answers, Loaded, load_owned, load_request, StoredLink, find_stored_request,
  unknown_intent,
}
use final_arc.Agents.Submit.{
  AgentRuntime, AgentWorld, WriteFate, write_done, write_fails, write_unanswered, settle_write,
  persist, Remembered, with_remembered, updated_row, handed_over, written, notify,
}

-- A stored intent that is not verified holds no transaction.
abbrev pub Marked : Intents → Type 0
Marked m =
    (k h : Text)
    → (i : StoredIntent) → get k m ≡ some (row i)
    → i.verified_tx_hash ≡ some h
    → is_empty h ≡ false
    → is_verified i.status ≡ true

-- A property of the stored intents that other callers keep and that a write keeps when its rows are
-- well formed.
pub record IsKept (r : AgentRuntime) (P : Intents → Type 0) : Type 0 where
  pub by_others : (s : AgentStore) → P s.intents → P (r.others s).intents
  pub marks : (m : Intents) → P m → Marked m
  pub by_write :
      (source : AgentStore) (touched : Touched) (fresh : AgentStore)
      → WellFormed source.intents touched.intent_ids
      → P fresh.intents
      → P (persist_touched source touched fresh).0.intents

pub settle_write-kept :
    (P : Intents → Type 0) (fate : WriteFate) (fresh : AgentStore) (p : AgentStore × Bool)
    → P fresh.intents
    → P p.0.intents
    → P (settle_write fate fresh p).0.intents
unfolding settle_write
settle_write-kept P write_done fresh (s, conflict) f h = h
settle_write-kept P write_fails fresh (s, conflict) f h = f
settle_write-kept P write_unanswered fresh (s, conflict) f h = h

pub load_request-intent :
    (i : StoredIntent) (merchant : Text) (links : Option (List StoredLink)) (l : Loaded)
    → load_request i merchant links ≡ goes_on l
    → i ≡ l.intent
unfolding load_request
load_request-intent i merchant none l e = absurd (cc)
load_request-intent i merchant (some links) l e =
    from (find_stored_request links i.request_id merchant) e
  where
    from :
        (o : Option (StoredLink × FinalRequest))
        → ◌≡◌ {A = Step Loaded}
            (elim o [
              | none ↦ answers unknown_intent
              | some (link, request) ↦
                  goes_on (record { intent = i; request = request; token = link.token })
            ])
            (goes_on l)
        → i ≡ l.intent
    from none e = absurd (cc)
    from (some (link, request)) e = ground arith

pub read_kept-row :
    (o : Option (Kept StoredIntent)) (i : StoredIntent) → read_kept o ≡ some i → o ≡ some (row i)
unfolding read_kept
read_kept-row none i e = absurd (cc)
read_kept-row (some (row j)) i e = ground arith
read_kept-row (some (foreign v)) i e = absurd (cc)

pub load_owned-found :
    (store : AgentStore) (id merchant : Text) (links : Option (List StoredLink)) (l : Loaded)
    → load_owned store id merchant links ≡ goes_on l
    → get id store.intents ≡ some (row l.intent)
unfolding load_owned
load_owned-found store id merchant links l e =
    from (read_kept (get id store.intents)) (read_kept-row (get id store.intents)) e
  where
    guarded :
        (b : Bool) (i : StoredIntent)
        → ◌≡◌ {A = Step Loaded}
            (if not b then answers unknown_intent else load_request i merchant links)
            (goes_on l)
        → i ≡ l.intent
    guarded true i e = load_request-intent i merchant links l e
    guarded false i e = absurd (cc)

    from :
        (o : Option StoredIntent)
        → ((i : StoredIntent) → o ≡ some i → get id store.intents ≡ some (row i))
        → ◌≡◌ {A = Step Loaded}
            (elim o [
              | none ↦ answers unknown_intent
              | some i ↦
                  if not (same_id i.merchant merchant)
                  then answers unknown_intent
                  else load_request i merchant links
            ])
            (goes_on l)
        → get id store.intents ≡ some (row l.intent)
    from none f e = absurd (cc)
    from (some i) f e =
        f i refl ∙ ap (λ x. some (row x)) (guarded (same_id i.merchant merchant) i e)

pub HoldsVerified-updated :
    (v : Viem) (now : ℤ) (tx_hash : Text) (j : Judgement) (request : FinalRequest)
    (i : StoredIntent)
    → ((h : Text) → i.verified_tx_hash ≡ some h → is_empty h ≡ false → is_verified i.status ≡ true)
    → is_verified i.status ≡ false
    → HoldsVerified (row (updated_row v now tx_hash j request i))
unfolding updated_row
HoldsVerified-updated v now tx_hash j request i marked fresh h e full =
    from (is_verified j.next_status) refl e
  where
    from :
        (b : Bool)
        → is_verified j.next_status ≡ b
        → (if b then some tx_hash else i.verified_tx_hash) ≡ some h
        → is_verified j.next_status ≡ true
    from true b e = b
    from false b e = absurd (ground (arith, marked h e full))

pub put_found :
    (id : Text) (x y : Kept StoredIntent) (m : Intents) → get id (put id x m) ≡ some y → x ≡ y
put_found id x y m e =
    let found : (if text_eq id id then some x else get id m) ≡ some y =
      sym (get-put id id x m) ∙ e in
    let same = text_eq_refl id in ground arith

module _ (r : AgentRuntime) (c : Codec) (P : Intents → Type 0) (kept : IsKept r P) where
  -- The property of the store that a call leaves.
  abbrev pub Leaves : AgentResult × AgentWorld c → Type 0
  Leaves result = P result.1.store.intents

  pub persist-kept :
      (source : AgentStore) (touched : Touched) (read : AgentStore)
      → WellFormed source.intents touched.intent_ids
      → P read.intents
      → P (persist r source touched read).0.intents
  unfolding persist
  persist-kept source touched read good h =
      let fresh = kept.by_others read h in
      settle_write-kept P r.fate (r.others read) (persist_touched source touched (r.others read))
        fresh (kept.by_write source touched (r.others read) good fresh)

  pub written-kept :
      (p : AgentStore × Step Unit) (done : AgentResult) (next : AgentWorld c → AgentWorld c)
      (w : AgentWorld c)
      → ((x : AgentWorld c) → (next x).store ≡ x.store)
      → P p.0.intents
      → Leaves (written r c p done next w)
  written-kept (store, answers a) done next w same h = h
  written-kept (store, goes_on u) done next w same h =
      subst (λ s. P s.intents) (sym (same (record w { store = store }))) h

  pub notify-store :
      (event : Option Text) (view : AgentIntentBody) (w : AgentWorld c)
      → (notify r c event view w).store ≡ w.store
  notify-store none view w = refl
  notify-store (some e) view w = refl

  pub handed_over-intents :
      (updated : StoredIntent) (memory : Option Remembered) (store : AgentStore)
      → (handed_over r c updated memory store).intents
        ≡ put updated.intent_id (row updated) store.intents
  unfolding handed_over with_remembered remember
  handed_over-intents updated none store = refl
  handed_over-intents updated (some m) store = refl

  pub handed_over-WellFormed :
      (updated : StoredIntent) (memory : Option Remembered) (store : AgentStore)
      → HoldsVerified (row updated)
      → WellFormed (handed_over r c updated memory store).intents (updated.intent_id ∷ [])
  handed_over-WellFormed updated memory store good = (
    λ k e.
        let found : get updated.intent_id (put updated.intent_id (row updated) store.intents)
            ≡ some k =
          subst (λ m. get updated.intent_id m ≡ some k) (handed_over-intents updated memory store)
            e in
        let same : row updated ≡ k =
          put_found updated.intent_id (row updated) k store.intents found in
        subst HoldsVerified same good,
    tt,
  )
