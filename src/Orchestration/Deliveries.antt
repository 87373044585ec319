-- ===== src/Orchestration/Deliveries.antt =====
-- Each subscriber gets one first delivery of an event (src/lib/settlement.ts).
use final_arc.Base.{
  ℕ, suc, ◌+◌, ◌≤◌, ◌≡◌, inl, inr, refl, subst, ◌∙◌, Bool, true, false, ◌&&◌, Option, none, some,
  List, [], ◌∷◌, if◌then◌else◌, Text, text_eq, text_eq_iff, text_eq_refl, any_of, get, put, get-put,
  values, arith, Bool-cases, Option-cases,
}
use final_arc.Base.Int.{ℤ}
use final_arc.Payments.{PayRecord}
use final_arc.Webhooks.{WebhookEndpointRecord, WebhookDeliveryRecord, Deliveries}
use final_arc.Orchestration.Enqueue.{
  StoreFile, Outside, is_first_attempt, has_delivery, subscribes, target, Event, first_delivery,
  fresh_id, enqueue_loop, enqueue_payment_paid_in_store, is_paid_by, paid_event,
}

-- How many first deliveries of an event a webhook has.
unfoldable pub first_attempts : Text → Text → Deliveries → ℕ
first_attempts event_id webhook_id [] = 0
first_attempts event_id webhook_id ((k, row) ∷ more) =
    (if is_first_attempt event_id webhook_id row then 1 else 0)
    + first_attempts event_id webhook_id more

-- The draws from the nth on are new keys, and no draw is repeated.
abbrev pub Fresh : Outside → ℕ → Deliveries → Type 0
Fresh x n deliveries =
    ((m : ℕ) → n ≤ m → get (fresh_id x m) deliveries ≡ none)
    × ((i j : ℕ) → fresh_id x i ≡ fresh_id x j → i ≡ j)

first_attempts-put :
    (ev wh k : Text) (v : Option WebhookDeliveryRecord) (d : Deliveries)
    → get k d ≡ none
    → first_attempts ev wh (put k v d)
      ≡ first_attempts ev wh d + (if is_first_attempt ev wh v then 1 else 0)
unfolding first_attempts put get
first_attempts-put ev wh k v [] h = ground arith
first_attempts-put ev wh k v ((j, w) ∷ d) h = ground (arith, first_attempts-put ev wh k v d)

has_delivery-none :
    (ev wh : Text) (d : Deliveries) → has_delivery d ev wh ≡ false → first_attempts ev wh d ≡ 0
unfolding first_attempts has_delivery
has_delivery-none ev wh [] h = refl
has_delivery-none ev wh ((k, v) ∷ d) h = ground (arith, has_delivery-none ev wh d)

has_delivery-some :
    (ev wh : Text) (d : Deliveries) → has_delivery d ev wh ≡ true → 1 ≤ first_attempts ev wh d
unfolding first_attempts has_delivery
has_delivery-some ev wh [] h = absurd (cc)
has_delivery-some ev wh ((k, v) ∷ d) h = ground (arith, has_delivery-some ev wh d)

first_delivery-counted :
    (v : Event) (id wh : Text) (e : WebhookEndpointRecord)
    → is_first_attempt v.id wh (some (first_delivery v id e)) ≡ text_eq e.id wh
unfolding is_first_attempt first_delivery
first_delivery-counted v id wh e = ground (arith, text_eq_refl v.id)

different_draws :
    (x : Outside) (n m : ℕ) (d : Deliveries)
    → Fresh x n d
    → suc n ≤ m
    → text_eq (fresh_id x n) (fresh_id x m) ≡ false
different_draws x n m d f h = elim (Bool-cases (text_eq (fresh_id x n) (fresh_id x m))) [
  | inl e ↦
      let same = f.1 n m ((text_eq_iff (fresh_id x n) (fresh_id x m)).0 e) in
      absurd (omega (arith, same))
  | inr e ↦ e
]

Fresh-put :
    (x : Outside) (n : ℕ) (v : Option WebhookDeliveryRecord) (d : Deliveries)
    → Fresh x n d
    → Fresh x (suc n) (put (fresh_id x n) v d)
Fresh-put x n v d f = (
  (λ m h.
      get-put (fresh_id x m) (fresh_id x n) v d
      ∙ rw (different_draws x n m d f h) (f.0 m (omega arith))),
  f.1,
)

-- The webhook has an endpoint that the event goes to.
abbrev pub is_subscriber : Text → Text → Option WebhookEndpointRecord → Bool
is_subscriber merchant wh none = false
is_subscriber merchant wh (some e) = subscribes merchant e && text_eq e.id wh

-- Where the loop inserts a delivery there was none.
target-some :
    (merchant ev : Text) (d : Deliveries) (value : Option WebhookEndpointRecord)
    (e : WebhookEndpointRecord)
    → target merchant ev d value ≡ some e
    → (has_delivery d ev e.id ≡ false) × (value ≡ some e)
unfolding target
target-some merchant ev d none e h = absurd (cc)
target-some merchant ev d (some c) e h = ground arith

-- Where it inserts none, a subscriber has one already.
target-none :
    (merchant ev wh : Text) (d : Deliveries) (value : Option WebhookEndpointRecord)
    → target merchant ev d value ≡ none
    → is_subscriber merchant wh value ≡ true
    → has_delivery d ev wh ≡ true
unfolding target
target-none merchant ev wh d none h s = absurd (cc)
target-none merchant ev wh d (some c) h s = ground (arith, text_eq_iff c.id wh)

inserted-count :
    (x : Outside) (v : Event) (n : ℕ) (wh : Text) (d : Deliveries) (e : WebhookEndpointRecord)
    → Fresh x n d
    → first_attempts v.id wh (put (fresh_id x n) (some (first_delivery v (fresh_id x n) e)) d)
      ≡ first_attempts v.id wh d + (if text_eq e.id wh then 1 else 0)
inserted-count x v n wh d e f =
    first_attempts-put v.id wh (fresh_id x n) (some (first_delivery v (fresh_id x n) e)) d
      (f.0 n (omega arith))
    ∙ rw (first_delivery-counted v (fresh_id x n) wh e) refl

-- What the loop makes of a webhook's count: no count passes one, none falls, and the webhook of a
-- subscriber has one.
Delivered : Text → Event → List (Option WebhookEndpointRecord) → Deliveries → Deliveries → Type 0
Delivered wh v endpoints d final =
    (first_attempts v.id wh d ≤ 1 → first_attempts v.id wh final ≤ 1)
    × (first_attempts v.id wh d ≤ first_attempts v.id wh final)
    × (any_of (is_subscriber v.merchant wh) endpoints ≡ true → 1 ≤ first_attempts v.id wh final)

module _ (x : Outside) (v : Event) (wh : Text) where
  at_end : (d : Deliveries) → Delivered wh v [] d d
  unfolding Delivered
  at_end d = ((λ h. h), omega arith, (λ h. absurd (cc)))

  not_here :
      (value : Option WebhookEndpointRecord) (e : WebhookEndpointRecord)
      (rest : List (Option WebhookEndpointRecord))
      → value ≡ some e
      → false ≡ text_eq e.id wh
      → any_of (is_subscriber v.merchant wh) (value ∷ rest) ≡ true
      → any_of (is_subscriber v.merchant wh) rest ≡ true
  not_here none e rest q s h = absurd (cc)
  not_here (some c) e rest q s h = ground arith

  skip :
      (value : Option WebhookEndpointRecord) (rest : List (Option WebhookEndpointRecord))
      (d final : Deliveries)
      → target v.merchant v.id d value ≡ none
      → Delivered wh v rest d final
      → Delivered wh v (value ∷ rest) d final
  unfolding Delivered
  skip value rest d final h i = (
    i.0,
    i.1,
    (λ s. elim (Bool-cases (is_subscriber v.merchant wh value)) [
      | inl q ↦
          let had = has_delivery-some v.id wh d (target-none v.merchant v.id wh d value h q) in
          omega (arith, had, i.1)
      | inr q ↦ i.2 (ground arith)
    ]),
  )

  insert_counts :
      (same : Bool) (value : Option WebhookEndpointRecord) (e : WebhookEndpointRecord)
      (rest : List (Option WebhookEndpointRecord)) (d final next : Deliveries)
      → first_attempts v.id wh next ≡ first_attempts v.id wh d + (if same then 1 else 0)
      → (same ≡ true → first_attempts v.id wh d ≡ 0)
      → value ≡ some e
      → same ≡ text_eq e.id wh
      → Delivered wh v rest next final
      → Delivered wh v (value ∷ rest) d final
  unfolding Delivered
  insert_counts true value e rest d final next count z q s i = (
    (λ h. i.0 (omega (arith, count, z refl))),
    omega (arith, count, i.1),
    (λ h. omega (arith, count, i.1)),
  )
  insert_counts false value e rest d final next count z q s i = (
    (λ h. i.0 (omega (arith, count))),
    omega (arith, count, i.1),
    (λ h. i.2 (not_here value e rest q s h)),
  )

  insert :
      (value : Option WebhookEndpointRecord) (e : WebhookEndpointRecord)
      (rest : List (Option WebhookEndpointRecord)) (n : ℕ) (d final : Deliveries)
      → Fresh x n d
      → target v.merchant v.id d value ≡ some e
      → Delivered wh v rest (put (fresh_id x n) (some (first_delivery v (fresh_id x n) e)) d) final
      → Delivered wh v (value ∷ rest) d final
  unfolding Delivered
  insert value e rest n d final f h i =
      let count = inserted-count x v n wh d e f in
      let t = target-some v.merchant v.id d value e h in
      insert_counts (text_eq e.id wh) value e rest d final _ count
        (λ q.
          subst (λ w. first_attempts v.id w d ≡ 0) ((text_eq_iff e.id wh).0 q)
            (has_delivery-none v.id e.id d t.0))
        t.1 refl i

  enqueue_loop-Delivered :
      (endpoints : List (Option WebhookEndpointRecord)) (n : ℕ) (d : Deliveries)
      → Fresh x n d
      → Delivered wh v endpoints d (enqueue_loop x v endpoints n d).1
  unfolding enqueue_loop
  enqueue_loop-Delivered [] n d f = at_end d
  enqueue_loop-Delivered (value ∷ rest) n d f =
      elim (Option-cases (target v.merchant v.id d value)) [
        | inl h ↦ rw (h, enqueue_loop) (skip value rest d _ h (enqueue_loop-Delivered rest n d f))
        | inr (e, h) ↦
            rw (h, enqueue_loop)
              (insert value e rest n d _ f h
                (enqueue_loop-Delivered rest (suc n) _ (Fresh-put x n _ d f)))
      ]

  exactly_one :
      (endpoints : List (Option WebhookEndpointRecord)) (d final : Deliveries)
      → Delivered wh v endpoints d final
      → first_attempts v.id wh d ≤ 1
      → any_of (is_subscriber v.merchant wh) endpoints ≡ true
      → first_attempts v.id wh final ≡ 1
  unfolding Delivered
  exactly_one endpoints d final i one sub = omega (arith, i.0 one, i.2 sub)

-- Where the random ids are new, `enqueuePaymentPaidInStore` on a row that this transaction pays
-- leaves every enabled endpoint of the merchant that subscribes to `payment.paid` with exactly one
-- first delivery of the event, if it had at most one before: also when it runs again.
pub enqueue_payment_paid_in_store_exactly_once :
    (x : Outside) (store : StoreFile) (row : PayRecord) (paid_tx : Text) (now : ℤ) (wh : Text)
    → Fresh x 0 store.deliveries
    → is_paid_by paid_tx row.paid_tx ≡ true
    → let v = paid_event x row paid_tx now in
      first_attempts v.id wh store.deliveries ≤ 1
      → any_of (is_subscriber row.to wh) (values store.endpoints) ≡ true
      → first_attempts
          (paid_event x row paid_tx now).id
          wh
          (enqueue_payment_paid_in_store x store row paid_tx now).1.deliveries
        ≡ 1
unfolding enqueue_payment_paid_in_store
enqueue_payment_paid_in_store_exactly_once x store row paid_tx now wh f p one sub = rw p (
    exactly_one x (paid_event x row paid_tx now) wh (values store.endpoints) store.deliveries _
      (enqueue_loop-Delivered x (paid_event x row paid_tx now) wh (values store.endpoints) 0
        store.deliveries f)
      one sub)
