-- ===== src/Broker/Deliver/Sent.antt =====
-- broker/client.go, ProcessPublishMessage: the loop over the subscribers hands the message to them.
use hmq.Prelude.{
  ℕ, ◌≡◌, sym, ap, subst, ◌∙◌, inl, inr, true, false, not, ◌&&◌, nat_eq, Option, none, some,
  some_inj, List, [], ◌∷◌, Memᴰ, length, is_empty, Bool-cases, Option-cases, beq_cases,
}
use mathlib.Core.List.Memᴰ
use hmq.Prelude.Heap.{get_elem?, modify, get_elem?-modify_self, get_elem?-modify_ne}
use hmq.Client
use hmq.Client.{ControlPacket, Client, Status, connected, disconnected, writer_packet, write_on}
use hmq.Client.Outgoing.{publish_to}
use hmq.Packets.{PublishPacket}
use hmq.Topics.Value.{Value, subscription}
use hmq.Topics.MemTopics.{valid_qos}
use hmq.Broker.{ClientType, client, Subscription, ClientObject, Broker, Env, on_state}
use hmq.Broker.Deliver.{
  subscription_at, is_router, is_client, leads_to_router, publish_sub, publish_one, publish_each,
  publish_shared,
}
use hmq.Broker.View.{Link, View, link, view, AreLive, get_elem?-link, get_elem?-none}
use hmq.Broker.View.Writes.{view-publish_one}
use hmq.Client.Outgoing.Sent.{publish_to-sent, publish_to-hands}

-- The packet has been handed to the connection of the client at an address.
abbrev pub HasSent : Broker → ℕ → ControlPacket → Type 0
HasSent w a x = (o : ClientObject) × (get_elem? w.objects a ≡ some o) × Memᴰ x o.state.sent

module _ (env : Env) (packet : PublishPacket) (a : ℕ) where
  publish_sub-HasSent :
      (x : ControlPacket) (s : Subscription) (w : Broker)
      → HasSent w a x
      → HasSent (publish_sub env packet s w) a x
  unfolding publish_sub
  publish_sub-HasSent x s w (o, e, i) = elim (beq_cases s.client a) [
    | inl (_, q) ↦
        let f = publish_to (env.network s.client) env.now packet in
        (
          on_state f o,
          ap (λ j. get_elem? (modify j (on_state f) w.objects) a) q
              ∙ get_elem?-modify_self w.objects (on_state f) o a e,
          publish_to-sent (env.network s.client) env.now packet x o.state i,
        )
    | inr (_, ne) ↦ (o, get_elem?-modify_ne w.objects _ s.client a ne ∙ e, i)
  ]

  publish_one-HasSent :
      (x : ControlPacket) (typ : ClientType) (s : Option Subscription) (w : Broker)
      (qsub : List Subscription)
      → HasSent w a x
      → HasSent (publish_one env typ packet s (w, qsub)).0 a x
  unfolding publish_one
  publish_one-HasSent x typ none w qsub h = h
  publish_one-HasSent x typ (some s) w qsub h =
      elim (Bool-cases (leads_to_router (get_elem? w.objects s.client) && not (is_client typ))) [
        | inl b ↦ rw (b, publish_one) h
        | inr b ↦ elim (Bool-cases s.share) [
          | inl b' ↦ rw (b, b', publish_one) h
          | inr b' ↦ rw (b, b', publish_one) (publish_sub-HasSent x s w h)
        ]
      ]

  pub publish_each-HasSent :
      (x : ControlPacket) (typ : ClientType) (vs : List Value) (w : Broker)
      (qsub : List Subscription)
      → HasSent w a x
      → HasSent (publish_each env typ packet vs (w, qsub)).0 a x
  unfolding publish_each
  publish_each-HasSent x typ [] w qsub h = h
  publish_each-HasSent x typ (v ∷ vs) w qsub h =
      let r = publish_one env typ packet (subscription_at w v) (w, qsub) in
      publish_each-HasSent x typ vs r.0 r.1
        (publish_one-HasSent x typ (subscription_at w v) w qsub h)

  pub publish_shared-HasSent :
      (x : ControlPacket) (qsub : List Subscription) (w : Broker)
      → HasSent w a x
      → HasSent (publish_shared env packet (w, qsub)) a x
  unfolding publish_shared
  publish_shared-HasSent x qsub w h = elim (Bool-cases (is_empty qsub)) [
    | inl b ↦ rw (b, publish_shared) h
    | inr b ↦ elim (Option-cases (get_elem? qsub (env.random (length qsub)))) [
      | inl e ↦ rw (b, e, publish_shared) h
      | inr (s, e) ↦ rw (b, e, publish_shared) (publish_sub-HasSent x s w h)
    ]
  ]

  -- The client is connected, has a connection and is a client.
  abbrev pub IsReady : View → Type 0
  IsReady v =
      (l : Link) × (get_elem? v.links a ≡ some l)
      × (l.typ ≡ client)
      × (l.status ≡ connected)
      × (l.conn ≡ true)

  ready_object :
      (w : Broker)
      → IsReady (view w)
      → (o : ClientObject) × (get_elem? w.objects a ≡ some o)
        × (o.typ ≡ client)
        × (o.state.status ≡ connected)
        × (o.state.conn ≡ true)
  ready_object w (l, e, c, on, cn) = elim (Option-cases (get_elem? w.objects a)) [
    | inl f ↦ absurd (missing l (sym (get_elem?-none w.objects a f) ∙ e))
    | inr (o, f) ↦
        let same : link o ≡ l = some_inj (sym (get_elem?-link w.objects a o f) ∙ e) in
        (
          o,
          f,
          ap (λ (x : Link). x.typ) same ∙ c,
          ap (λ (x : Link). x.status) same ∙ on,
          ap (λ (x : Link). x.conn) same ∙ cn,
        )
  ]
    where
      missing : (l : Link) → ¬ (none ≡ some l)
      missing l q = cc

  publish_sub-hands :
      (s : Subscription) (w : Broker)
      → s.client ≡ a
      → valid_qos packet.qos ≡ true
      → IsReady (view w)
      → HasSent (publish_sub env packet s w) a (Client.publish packet)
  unfolding publish_sub
  publish_sub-hands s w mine q ready =
      let (o, e, c, on, cn) = ready_object w ready in
      let f = publish_to (env.network s.client) env.now packet in
      (
        on_state f o,
        ap (λ j. get_elem? (modify j (on_state f) w.objects) a) mine
            ∙ get_elem?-modify_self w.objects (on_state f) o a e,
        publish_to-hands (env.network s.client) env.now packet o.state q on cn,
      )

  leads_to_client :
      (w : Broker) → IsReady (view w) → leads_to_router (get_elem? w.objects a) ≡ false
  leads_to_client w ready = let (o, e, c, on, cn) = ready_object w ready in rw e (ap is_router c)

  publish_one-hands :
      (typ : ClientType) (s : Subscription) (w : Broker) (qsub : List Subscription)
      → s.client ≡ a
      → s.share ≡ false
      → valid_qos packet.qos ≡ true
      → IsReady (view w)
      → HasSent (publish_one env typ packet (some s) (w, qsub)).0 a (Client.publish packet)
  unfolding publish_one
  publish_one-hands typ s w qsub mine own q ready =
      let here : leads_to_router (get_elem? w.objects s.client) ≡ false =
        ap (λ j. leads_to_router (get_elem? w.objects j)) mine ∙ leads_to_client w ready in
      rw (here, own, publish_one) (publish_sub-hands s w mine q ready)

  pub publish_each-hands :
      (typ : ClientType) (p : ℕ) (s : Subscription) (vs : List Value) (w : Broker)
      (qsub : List Subscription)
      → Memᴰ (subscription p) vs
      → get_elem? w.subscriptions p ≡ some s
      → s.client ≡ a
      → s.share ≡ false
      → valid_qos packet.qos ≡ true
      → AreLive (view w).links
      → IsReady (view w)
      → HasSent (publish_each env typ packet vs (w, qsub)).0 a (Client.publish packet)
  unfolding publish_each subscription_at
  publish_each-hands typ p s [] w qsub i e mine own q live ready = absurd (Memᴰ.not-nil i)
  publish_each-hands typ p s (v ∷ vs) w qsub i e mine own q live ready =
      let r = publish_one env typ packet (subscription_at w v) (w, qsub) in
      let same = sym (view-publish_one env typ packet (subscription_at w v) w qsub live) in
      elim (Memᴰ.cases_cons i) [
        | inl z ↦
            let found : subscription_at w v ≡ some s = ap (subscription_at w) (sym z) ∙ e in
            publish_each-HasSent (Client.publish packet) typ vs r.0 r.1 (
              subst
                (λ x. HasSent (publish_one env typ packet x (w, qsub)).0 a (Client.publish packet))
                (sym found) (publish_one-hands typ s w qsub mine own q ready))
        | inr later ↦
            publish_each-hands typ p s vs r.0 r.1 later
              (subst (λ (v : View). get_elem? v.subscriptions p ≡ some s) same e) mine own q
              (subst (λ (v : View). AreLive v.links) same live) (subst IsReady same ready)
      ]
