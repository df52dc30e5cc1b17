-- ===== src/Broker/Deliver/Untouched.antt =====
-- broker/client.go, ProcessPublishMessage: the loop over the subscribers leaves the other clients.
use hmq.Prelude.{
  ℕ, zero, suc, subst, ◌≡◌, ◌≢◌, refl, sym, ap, ◌∙◌, inl, inr, Bool, true, false, not, ◌&&◌, Option,
  none, some, some_inj, List, [], ◌∷◌, ◌++◌, Memᴰ, length, is_empty, Bool-cases, Option-cases,
  if◌then◌else◌,
}
use hmq.Prelude.Heap.{get_elem?, get_elem?-modify_ne}
use hmq.Packets.{PublishPacket}
use hmq.Client.Outgoing.{publish_to}
use hmq.Topics.Value.{Value, subscription}
use hmq.Broker.{ClientType, Subscription, Broker, Env, on_state}
use hmq.Broker.Deliver.{
  subscription_at, is_client, leads_to_router, publish_sub, publish_one, publish_each,
  publish_shared,
}
use hmq.Broker.View.{View, view, AreLive}
use hmq.Broker.View.Writes.{view-publish_one}

-- Subscriptions of others than the client at an address
abbrev pub AreOthers : ℕ → List Subscription → Type 0
AreOthers a [] = Unit
AreOthers a (s ∷ ss) = (s.client ≢ a) × AreOthers a ss

AreOthers-snoc :
    (a : ℕ) (ss : List Subscription) (s : Subscription)
    → AreOthers a ss
    → s.client ≢ a
    → AreOthers a (ss ++ s ∷ [])
AreOthers-snoc a [] s h ne = (ne, tt)
AreOthers-snoc a (x ∷ ss) s (h, hs) ne = (h, AreOthers-snoc a ss s hs ne)

AreOthers-get :
    (a : ℕ) (ss : List Subscription) (i : ℕ) (s : Subscription)
    → AreOthers a ss
    → get_elem? ss i ≡ some s
    → s.client ≢ a
AreOthers-get a [] i s h e = cc
AreOthers-get a (x ∷ ss) zero s (h, hs) e =
    λ q. h (ap (λ (s : Subscription). s.client) (some_inj e) ∙ q)
AreOthers-get a (x ∷ ss) (suc i) s (h, hs) e = AreOthers-get a ss i s hs e

module _ (env : Env) (packet : PublishPacket) (a : ℕ) where
  publish_sub-other :
      (s : Subscription) (w : Broker)
      → s.client ≢ a
      → get_elem? (publish_sub env packet s w).objects a ≡ get_elem? w.objects a
  unfolding publish_sub
  publish_sub-other s w ne =
      get_elem?-modify_ne w.objects (on_state (publish_to (env.network s.client) env.now packet))
        s.client a ne

  kept_or_sent-other :
      (s : Subscription) (w : Broker) (qsub : List Subscription) (b : Bool)
      → s.client ≢ a
      → AreOthers a qsub
      → let r : Broker × List Subscription =
          (if b then (w, qsub ++ s ∷ []) else (publish_sub env packet s w, qsub)) in
        (get_elem? r.0.objects a ≡ get_elem? w.objects a) × AreOthers a r.1
  kept_or_sent-other s w qsub true ne hs = (refl, AreOthers-snoc a qsub s hs ne)
  kept_or_sent-other s w qsub false ne hs = (publish_sub-other s w ne, hs)

  -- One turn, for a subscription of another client if it is one at all.
  publish_one-other :
      (typ : ClientType) (o : Option Subscription) (w : Broker) (qsub : List Subscription)
      → ((s : Subscription) → o ≡ some s → s.client ≢ a)
      → AreOthers a qsub
      → (get_elem? (publish_one env typ packet o (w, qsub)).0.objects a ≡ get_elem? w.objects a)
        × AreOthers a (publish_one env typ packet o (w, qsub)).1
  unfolding publish_one
  publish_one-other typ none w qsub ne hs = (refl, hs)
  publish_one-other typ (some s) w qsub ne hs =
      elim (Bool-cases (leads_to_router (get_elem? w.objects s.client) && not (is_client typ))) [
        | inl b ↦ rw (b, publish_one) (refl, hs)
        | inr b ↦ rw (b, publish_one) (kept_or_sent-other s w qsub s.share (ne s refl) hs)
      ]

  subscription_at-other :
      (v : Value) (s : Subscription) (w : Broker)
      → ((p : ℕ) → subscription p ≡ v → get_elem? w.subscriptions p ≡ some s → s.client ≢ a)
      → subscription_at w v ≡ some s
      → s.client ≢ a
  unfolding subscription_at
  subscription_at-other (subscription p) s w h e = h p refl e
  subscription_at-other (Value.func f) s w h e = cc
  subscription_at-other (Value.text t) s w h e = cc
  subscription_at-other (Value.number k n) s w h e = cc

  pub publish_each-other :
      (typ : ClientType) (vs : List Value) (w : Broker) (qsub : List Subscription)
      → ((p : ℕ) (s : Subscription)
          → Memᴰ (subscription p) vs
          → get_elem? w.subscriptions p ≡ some s
          → s.client ≢ a)
      → AreOthers a qsub
      → AreLive (view w).links
      → (get_elem? (publish_each env typ packet vs (w, qsub)).0.objects a ≡ get_elem? w.objects a)
        × AreOthers a (publish_each env typ packet vs (w, qsub)).1
  unfolding publish_each
  publish_each-other typ [] w qsub ne hs live = (refl, hs)
  publish_each-other typ (v ∷ vs) w qsub ne hs live =
      let r = publish_one env typ packet (subscription_at w v) (w, qsub) in
      let same = view-publish_one env typ packet (subscription_at w v) w qsub live in
      let first =
        publish_one-other typ (subscription_at w v) w qsub
          (λ s e. subscription_at-other v s w (λ p i. ne p s (Memᴰ.head i)) e) hs in
      let rest =
        publish_each-other typ vs r.0 r.1
          (λ p s i e.
            ne p s (Memᴰ.tail i) (ap (λ (v : View). get_elem? v.subscriptions p) (sym same) ∙ e))
          first.1 (subst (λ (v : View). AreLive v.links) (sym same) live) in
      (rest.0 ∙ first.0, rest.1)

  pub publish_shared-other :
      (qsub : List Subscription) (w : Broker)
      → AreOthers a qsub
      → get_elem? (publish_shared env packet (w, qsub)).objects a ≡ get_elem? w.objects a
  unfolding publish_shared
  publish_shared-other qsub w hs = elim (Bool-cases (is_empty qsub)) [
    | inl b ↦ rw (b, publish_shared) refl
    | inr b ↦ elim (Option-cases (get_elem? qsub (env.random (length qsub)))) [
      | inl e ↦ rw (b, e, publish_shared) refl
      | inr (s, e) ↦
          rw (b, e, publish_shared)
            (publish_sub-other s w (AreOthers-get a qsub (env.random (length qsub)) s hs e))
    ]
  ]
