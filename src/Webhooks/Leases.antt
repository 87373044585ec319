-- ===== src/Webhooks/Leases.antt =====
-- The lease of a claimed delivery keeps other workers away (src/lib/webhooks.ts).
use final_arc.Base.{
  ℕ, ◌+◌, ◌*◌, ◌<◌, ◌≡◌, ◌≢◌, refl, sym, subst, ◌∙◌, ◌⊎◌, inl, inr, Bool, true, false, not, Option,
  none, some, List, [], ◌∷◌, if◌then◌else◌, is_some, Text, text_eq, text_eq_iff, text_eq_refl,
  values, drop, get, put, get-put, remove, get-remove, All, arith, Bool-cases,
}
use final_arc.Webhooks.{WebhookDeliveryRecord, Deliveries}
use final_arc.Webhooks.Schedule.{
  WebhookClock, lease_lives, lease_active, is_webhook_delivery_due, webhook_claim_lease_seconds,
}
use final_arc.Webhooks.Queue.{
  rows_of, keep_deliveries, remove_rows, prune_deliveries, DeliveryRequest, pending_row,
  enqueue_pending_delivery, readable, leased, claim_row, claim_delivery, Patch, finalized, owned_by,
  finalize_row, finalize_claimed_delivery, has_delivery_for_event_endpoint,
}

-- What `Date.parse` makes of a printed second.
abbrev pub ReadsBack : WebhookClock → Type 0
ReadsBack c = (s : ℕ) → c.parse (c.iso s) ≡ some (s * 1000)

-- What other callers do to the store.
pub data Op : Type 0 where
  enqueues : (List WebhookDeliveryRecord → List WebhookDeliveryRecord) → DeliveryRequest → Op
  claims : (id token : Text) → ℕ → Op
  finalizes : (id token : Text) → Patch → Op

module _ (c : WebhookClock) where
  -- The row that an operation returns, and the deliveries that it leaves.
  unfoldable pub apply : Op → Deliveries → Option WebhookDeliveryRecord × Deliveries
  apply (enqueues newest_first r) d = enqueue_pending_delivery c newest_first r d
  apply (claims id token now) d = claim_delivery c id token now d
  apply (finalizes id token p) d = finalize_claimed_delivery id token p d

  -- Operations that hand this delivery to a caller: claims, and finalizations.
  abbrev pub concerns : Text → Op → Bool
  concerns id (enqueues newest_first r) = false
  concerns id (claims other token now) = text_eq other id
  concerns id (finalizes other token p) = text_eq other id

  unfoldable pub apply_all : List Op → Deliveries → Deliveries
  unfolding apply
  apply_all [] d = d
  apply_all (op ∷ ops) d = apply_all ops (apply op d).1

  -- No operation on this delivery in a run succeeds.
  unfoldable pub Refused : Text → List Op → Deliveries → Type 0
  Refused id [] d = Unit
  Refused id (op ∷ ops) d =
      (concerns id op ≡ true → (apply op d).0 ≡ none) × Refused id ops (apply op d).1

  -- What a caller other than the lease's owner may do while the lease runs: it draws other ids and
  -- tokens, and its clock has not passed the end.
  abbrev pub Foreign : (id token : Text) (end : ℕ) → Op → Type 0
  Foreign id token end (enqueues newest_first r) = text_eq r.delivery_id id ≡ false
  Foreign id token end (claims other t now) = now < end
  Foreign id token end (finalizes other t p) = text_eq token t ≡ false

  -- The lease's entry, or none any more: a delivery may be pruned.
  abbrev Guarded : (token : Text) (end : ℕ) → Option WebhookDeliveryRecord → Type 0
  Guarded token end none = Unit
  Guarded token end (some row) =
      (row.lease_owner ≡ some token) × (row.lease_expires_at ≡ some (c.iso end))

  abbrev pub IsGuarded : (id token : Text) (end : ℕ) → Deliveries → Type 0
  IsGuarded id token end d = Guarded token end (readable (get id d))

  remove_rows-get :
      (id : Text) (rows : List WebhookDeliveryRecord) (d : Deliveries)
      → (get id (remove_rows rows d) ≡ get id d) ⊎ (get id (remove_rows rows d) ≡ none)
  unfolding remove_rows
  remove_rows-get id [] d = inl refl
  remove_rows-get id (row ∷ rows) d = elim (remove_rows-get id rows (remove row.delivery_id d)) [
    | inr e ↦ inr e
    | inl e ↦ elim (Bool-cases (text_eq row.delivery_id id)) [
      | inl same ↦ inr (e ∙ get-remove id row.delivery_id d ∙ rw same refl)
      | inr other ↦ inl (e ∙ get-remove id row.delivery_id d ∙ rw other refl)
    ]
  ]

  removed-IsGuarded :
      (id token : Text) (end : ℕ) (rows : List WebhookDeliveryRecord) (d : Deliveries)
      → IsGuarded id token end d
      → IsGuarded id token end (remove_rows rows d)
  removed-IsGuarded id token end rows d g = elim (remove_rows-get id rows d) [
    | inl e ↦ rw e g
    | inr e ↦ rw e tt
  ]

  prune-IsGuarded :
      (id token : Text) (end : ℕ)
      (newest_first : List WebhookDeliveryRecord → List WebhookDeliveryRecord) (webhook : Text)
      (d : Deliveries)
      → IsGuarded id token end d
      → IsGuarded id token end (prune_deliveries newest_first webhook d)
  unfolding prune_deliveries
  prune-IsGuarded id token end newest_first webhook d g =
      removed-IsGuarded id token end
        (drop keep_deliveries (newest_first (rows_of webhook (values d)))) d g

  put-IsGuarded :
      (id token other : Text) (end : ℕ) (v : Option WebhookDeliveryRecord) (d : Deliveries)
      → (text_eq other id ≡ true → Guarded token end v)
      → IsGuarded id token end d
      → IsGuarded id token end (put other v d)
  put-IsGuarded id token other end v d h g =
      subst (λ o. Guarded token end (readable o)) (sym (get-put id other v d))
        (either (text_eq other id) h)
    where
      either :
          (b : Bool)
          → (b ≡ true → Guarded token end v)
          → Guarded token end (readable (if b then some v else get id d))
      either true k = k refl
      either false k = g

  lease_lives-until :
      (token : Text) (end now : ℕ) (owner expires_at : Option Text)
      → ReadsBack c
      → now < end
      → owner ≡ some token
      → expires_at ≡ some (c.iso end)
      → lease_lives c owner expires_at now ≡ true
  unfolding lease_lives
  lease_lives-until token end now none expires_at reads lt e f = cc
  lease_lives-until token end now (some o) none reads lt e f = cc
  lease_lives-until token end now (some o) (some x) reads lt e f = ground (arith, reads end)

  Guarded-not_due :
      (token : Text) (end now : ℕ) (row : WebhookDeliveryRecord)
      → ReadsBack c
      → now < end
      → Guarded token end (some row)
      → is_webhook_delivery_due c row now ≡ false
  unfolding is_webhook_delivery_due lease_active
  Guarded-not_due token end now row reads lt g =
      rw (lease_lives-until token end now row.lease_owner row.lease_expires_at reads lt g.0 g.1)
        refl

  module _ (reads : ReadsBack c) (id token : Text) (end : ℕ) where
    -- What one operation of another caller does.
    abbrev Harmless : Op → Deliveries → Option WebhookDeliveryRecord × Deliveries → Type 0
    Harmless op d result =
        (concerns id op ≡ true → result.0 ≡ none) × IsGuarded id token end result.1

    claim-Harmless :
        (other t : Text) (now : ℕ) (d : Deliveries) (o : Option WebhookDeliveryRecord)
        → now < end
        → (text_eq other id ≡ true → Guarded token end o)
        → IsGuarded id token end d
        → Harmless (claims other t now) d (claim_row c other t now d o)
    unfolding claim_row
    claim-Harmless other t now d none lt h g = ((λ e. refl), g)
    claim-Harmless other t now d (some row) lt h g = elim (Bool-cases (text_eq other id)) [
      | inl same ↦
          let quiet = Guarded-not_due token end now row reads lt (h same) in
          rw (quiet, same) ((λ e. refl), g)
      | inr differs ↦ elim (Bool-cases (is_webhook_delivery_due c row now)) [
        | inr idle ↦ rw (idle, differs) ((λ e. refl), g)
        | inl due ↦
            rw (due, differs)
              (
                (λ e. absurd (cc)),
                put-IsGuarded id token other end (some (leased c t now row)) d (λ e. absurd (cc)) g,
              )
      ]
    ]

    finalize-Harmless :
        (other t : Text) (p : Patch) (d : Deliveries) (o : Option WebhookDeliveryRecord)
        → text_eq token t ≡ false
        → (text_eq other id ≡ true → Guarded token end o)
        → IsGuarded id token end d
        → Harmless (finalizes other t p) d (finalize_row other t p d o)
    unfolding finalize_row
    finalize-Harmless other t p d none ne h g = ((λ e. refl), g)
    finalize-Harmless other t p d (some row) ne h g = elim (Bool-cases (text_eq other id)) [
      | inl same ↦ rw (h same).0 (rw (ne, same) ((λ e. refl), g))
      | inr differs ↦ elim (Bool-cases (owned_by t row.lease_owner)) [
        | inr idle ↦ rw (idle, differs) ((λ e. refl), g)
        | inl owner ↦
            rw (owner, differs)
              (
                (λ e. absurd (cc)),
                put-IsGuarded id token other end (some (finalized p row)) d (λ e. absurd (cc)) g,
              )
      ]
    ]

    enqueue-Harmless :
        (newest_first : List WebhookDeliveryRecord → List WebhookDeliveryRecord)
        (r : DeliveryRequest) (d : Deliveries)
        → text_eq r.delivery_id id ≡ false
        → IsGuarded id token end d
        → IsGuarded id token end (enqueue_pending_delivery c newest_first r d).1
    unfolding enqueue_pending_delivery prune_deliveries
    enqueue-Harmless newest_first r d ne g =
        elim (Bool-cases (has_delivery_for_event_endpoint d r.event_id r.endpoint.id r.attempt)) [
          | inl had ↦ rw had g
          | inr new ↦ rw new (
              prune-IsGuarded id token end newest_first r.endpoint.id _ (
                put-IsGuarded id token r.delivery_id end (some (pending_row c r)) d
                  (λ e. absurd (cc)) g))
        ]

    apply-Harmless :
        (op : Op) (d : Deliveries)
        → Foreign id token end op
        → IsGuarded id token end d
        → Harmless op d (apply op d)
    unfolding apply claim_delivery finalize_claimed_delivery
    apply-Harmless (enqueues newest_first r) d f g =
        ((λ e. absurd (cc)), enqueue-Harmless newest_first r d f g)
    apply-Harmless (claims other t now) d f g =
        claim-Harmless other t now d (readable (get other d)) f
          (λ e.
            subst (λ i. Guarded token end (readable (get i d))) (sym ((text_eq_iff other id).0 e))
              g)
          g
    apply-Harmless (finalizes other t p) d f g =
        finalize-Harmless other t p d (readable (get other d)) f
          (λ e.
            subst (λ i. Guarded token end (readable (get i d))) (sym ((text_eq_iff other id).0 e))
              g)
          g

    run-IsGuarded :
        (ops : List Op) (d : Deliveries)
        → All (Foreign id token end) ops
        → IsGuarded id token end d
        → Refused id ops d × IsGuarded id token end (apply_all ops d)
    unfolding Refused apply_all
    run-IsGuarded [] d f g = (tt, g)
    run-IsGuarded (op ∷ ops) d f g =
        let one = apply-Harmless op d f.0 g in
        let rest = run-IsGuarded ops (apply op d).1 f.1 one.1 in ((one.0, rest.0), rest.1)

  claim_idle :
      (due : Bool) (d : Deliveries) (r : WebhookDeliveryRecord) (id : Text)
      (row : WebhookDeliveryRecord)
      → due ≡ false
      → ◌≢◌ {A = Option WebhookDeliveryRecord}
          (if◌then◌else◌ {A = Option WebhookDeliveryRecord × Deliveries}
            (not due)
            (none, d)
            (some r, put id (some r) d)).0
          (some row)
  claim_idle false d r id row e h = cc
  claim_idle true d r id row e h = cc

  claim_row-IsGuarded :
      (id token : Text) (now : ℕ) (d : Deliveries) (o : Option WebhookDeliveryRecord)
      (row : WebhookDeliveryRecord)
      → (claim_row c id token now d o).0 ≡ some row
      → IsGuarded id token (now + webhook_claim_lease_seconds) (claim_row c id token now d o).1
  unfolding claim_row leased
  claim_row-IsGuarded id token now d none row e = absurd (cc)
  claim_row-IsGuarded id token now d (some r) row e =
      elim (Bool-cases (is_webhook_delivery_due c r now)) [
        | inl due ↦
            rw (due, get-put id id (some (leased c token now r)) d, text_eq_refl id) (refl, refl)
        | inr idle ↦
            absurd
              (claim_idle (is_webhook_delivery_due c r now) d (leased c token now r) id row idle e)
      ]

  finalize_owner :
      (id token : Text) (end : ℕ) (p : Patch) (d : Deliveries) (o : Option WebhookDeliveryRecord)
      → Guarded token end o
      → is_some o ≡ is_some (finalize_row id token p d o).0
  unfolding finalize_row
  finalize_owner id token end p d none g = refl
  finalize_owner id token end p d (some r) g = rw (g.0, owned_by, text_eq_refl token) refl

  -- A claim that succeeds holds for its sixty seconds: whatever other callers enqueue, claim with
  -- clocks before its end or finalize with their own tokens, in any order, none of them gets or
  -- finalizes this delivery. Afterwards the owner's finalization succeeds whenever the row is still
  -- there.
  pub claim_delivery-exclusive :
      (id token : Text) (now : ℕ) (d : Deliveries) (row : WebhookDeliveryRecord) (ops : List Op)
      (p : Patch)
      → ReadsBack c
      → (claim_delivery c id token now d).0 ≡ some row
      → All (Foreign id token (now + webhook_claim_lease_seconds)) ops
      → let claimed = (claim_delivery c id token now d).1 in
        let after = apply_all ops claimed in
        Refused id ops claimed
        × (is_some (readable (get id after))
            ≡ is_some (finalize_claimed_delivery id token p after).0)
  unfolding claim_delivery finalize_claimed_delivery
  claim_delivery-exclusive id token now d row ops p reads e f =
      let g = claim_row-IsGuarded id token now d (readable (get id d)) row e in
      let r = run-IsGuarded reads id token (now + webhook_claim_lease_seconds) ops _ f g in
      (r.0, finalize_owner id token (now + webhook_claim_lease_seconds) p _ _ r.1)
