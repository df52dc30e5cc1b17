-- ===== src/Broker/Agrees/Routing.antt =====
-- broker/client.go: processRouterSubscribe and processRouterUnSubscribe keep the invariant, for a
-- client that is a router or a remote.
use hmq.Prelude.{
  ℕ, ◌≡◌, ◌≢◌, refl, sym, ap, subst, ◌∙◌, Bool, inl, inr, Option, none, some, some_inj, List, [],
  ◌∷◌, Bytes, length, ltb, Bool-cases, Option-cases,
}
use hmq.Prelude.Heap.{get_elem?}
use hmq.Packets.{SubscribePacket, UnsubscribePacket}
use hmq.Client
use hmq.Client.{ControlPacket}
use hmq.Broker.{client, Subscription, Broker, Env, on_client}
use hmq.Broker.Deliver.{write_packet}
use hmq.Broker.Subscribe.{share_of, sub_of, subscribe_new, remember, is_online, first, tail}
use hmq.Broker.Subscribe.Routers.{
  count_route, router_subscribed, router_subscribe, router_subscribe_each, uncount_route,
  routes_left, router_unsubscribe_one, router_unsubscribe_each, process_router_subscribe,
  process_router_unsubscribe,
}
use hmq.Broker.View.{View, Link, view, view-on_client}
use hmq.Broker.View.Writes.{IsQuiet, write_packet-IsQuiet}
use hmq.Broker.Agrees.{Owns, Agrees}
use hmq.Broker.Agrees.Links.{remember_link, typ-modify}
use hmq.Broker.Agrees.Steps.{
  Serves, Attends, quiet-Agrees, sub_of-Owns, detach-Serves, online-Serves,
}
use hmq.Broker.Agrees.Remembered.{remembered-view, remembered-Serves, unremembered-Serves}

count_route-IsQuiet : (a : ℕ) (topic : Bytes) → IsQuiet (on_client a (count_route topic))
unfolding count_route
count_route-IsQuiet a topic w live = view-on_client (count_route topic) a w (λ o e. refl)

uncount_route-view :
    (a : ℕ) (topic : Bytes) (w : Broker) → view (on_client a (uncount_route topic) w) ≡ view w
unfolding uncount_route
uncount_route-view a topic w = view-on_client (uncount_route topic) a w (λ o e. refl)

-- A connection of another node, with its subscriptions
abbrev pub IsNode : ℕ → View → Type 0
IsNode a v = (l : Link) × (get_elem? v.links a ≡ some l) × (l.typ ≢ client)

abbrev Routes : ℕ → View → Type 0
Routes a v = Serves a v × IsNode a v

quiet-Routes :
    (f : Broker → Broker) (a : ℕ) (w : Broker)
    → IsQuiet f
    → Routes a (view w)
    → Routes a (view (f w))
quiet-Routes f a w q (g, n) = subst (Routes a) (sym (q w g.agrees.live)) (g, n)

remembered-IsNode :
    (a : ℕ) (t : Bytes) (s : Subscription) (w : Broker)
    → IsNode a (view w)
    → IsNode a (view (on_client a (remember t (length w.subscriptions)) (subscribe_new s w).0))
remembered-IsNode a t s w (l, e, ne) =
    let (m, e', same) =
      typ-modify (remember_link t (length w.subscriptions)) (view w).links a a l (λ l. refl) e in
    subst (IsNode a) (sym (remembered-view a t s w)) (m, e', λ c. ne (sym same ∙ c))

unremembered-IsNode :
    (a : ℕ) (s : Subscription) (w : Broker)
    → IsNode a (view w)
    → IsNode a (view (subscribe_new s w).0)
unfolding subscribe_new
unremembered-IsNode a s w n = n

router_subscribed-Routes :
    (a : ℕ) (t : Bytes) (s : Subscription) (w : Broker)
    → Routes a (view w)
    → s.client ≡ a
    → Routes a (view (router_subscribed a t (length w.subscriptions) s (subscribe_new s w)).0)
unfolding router_subscribed
router_subscribed-Routes a t s w (g, n) mine = elim (Option-cases (subscribe_new s w).2) [
  | inl e ↦
      rw (e, router_subscribed)
        (quiet-Routes (on_client a (count_route s.topic)) a
          (on_client a (remember t (length w.subscriptions)) (subscribe_new s w).0)
          (count_route-IsQuiet a s.topic)
          (
            remembered-Serves a t s w g (λ c. absurd (not_client c)) mine e,
            remembered-IsNode a t s w n,
          ))
  | inr (x, e) ↦
      rw (e, router_subscribed) (unremembered-Serves a s w x g e, unremembered-IsNode a s w n)
]
  where
    not_client : g.link.typ ≢ client
    not_client c = n.2 (ap (λ (l : Link). l.typ) (some_inj (sym n.1 ∙ g.here)) ∙ c)

router_subscribe-Routes :
    (a : ℕ) (t : Bytes) (qos : Option ℕ) (o : Option (Bool × Bytes × Bytes)) (w : Broker)
    → Routes a (view w)
    → Routes a (view (router_subscribe a t qos o w).0)
unfolding router_subscribe
router_subscribe-Routes a t qos none w g = g
router_subscribe-Routes a t none (some share) w g = g
router_subscribe-Routes a t (some qos) (some (share, group, topic)) w g =
    router_subscribed-Routes a t
      (record { client = a; topic = topic; qos = qos; share = share; group_name = group }) w g refl

router_subscribe_each-Routes :
    (a : ℕ) (ts : List Bytes) (qoss : List ℕ) (w : Broker)
    → Routes a (view w)
    → Routes a (view (router_subscribe_each a ts qoss w).0)
unfolding router_subscribe_each
router_subscribe_each-Routes a [] qoss w g = g
router_subscribe_each-Routes a (t ∷ ts) qoss w g =
    router_subscribe_each-Routes a ts (tail qoss)
      (router_subscribe a t (first qoss) (share_of t) w).0
      (router_subscribe-Routes a t (first qoss) (share_of t) w g)

router_unsubscribe_one-Serves : (a : ℕ) (t : Bytes) → Attends a (router_unsubscribe_one a t)
unfolding router_unsubscribe_one
router_unsubscribe_one-Serves a t w g = elim (Option-cases (sub_of w a t)) [
  | inl e ↦ rw (e, router_unsubscribe_one) g
  | inr (p, e) ↦
      let w' = on_client a (uncount_route t) w in
      let same = sym (uncount_route-view a t w) in
      let g' : Serves a (view w') = subst (Serves a) same g in
      let o : Owns (view w').links a t p =
        subst (λ (v : View). Owns v.links a t p) same (sub_of-Owns a t p w g e) in
      elim (Bool-cases (ltb 0 (routes_left t (get_elem? w.objects a)))) [
        | inl b ↦ rw (e, b, router_unsubscribe_one) g'
        | inr b ↦ rw (e, b, router_unsubscribe_one) (detach-Serves a t p w' g' o)
      ]
]

router_unsubscribe_each-Serves :
    (a : ℕ) (ts : List Bytes) → Attends a (router_unsubscribe_each a ts)
unfolding router_unsubscribe_each
router_unsubscribe_each-Serves a [] w g = g
router_unsubscribe_each-Serves a (t ∷ ts) w g =
    router_unsubscribe_each-Serves a ts (router_unsubscribe_one a t w)
      (router_unsubscribe_one-Serves a t w g)

module _ (env : Env) where
  pub process_router_subscribe-Agrees :
      (a : ℕ) (packet : SubscribePacket) (w : Broker)
      → IsNode a (view w)
      → Agrees (view w)
      → Agrees (view (process_router_subscribe env a packet w))
  unfolding process_router_subscribe
  process_router_subscribe-Agrees a packet w n ag =
      elim (Bool-cases (is_online (get_elem? w.objects a))) [
        | inl b ↦
            let r = router_subscribe_each a packet.topics packet.qoss w in
            let suback = Client.suback packet.message_id r.1 in
            let served =
              router_subscribe_each-Routes a packet.topics packet.qoss w
                (online-Serves a w ag b, n) in
            rw (b, process_router_subscribe)
              (quiet-Agrees (λ w. (write_packet env a suback w).0) r.0
                (write_packet-IsQuiet env a suback) served.0.agrees)
        | inr b ↦ rw (b, process_router_subscribe) ag
      ]

  pub process_router_unsubscribe-Agrees :
      (a : ℕ) (packet : UnsubscribePacket) (w : Broker)
      → Agrees (view w)
      → Agrees (view (process_router_unsubscribe env a packet w))
  unfolding process_router_unsubscribe
  process_router_unsubscribe-Agrees a packet w ag =
      elim (Bool-cases (is_online (get_elem? w.objects a))) [
        | inl b ↦
            let w' = router_unsubscribe_each a packet.topics w in
            let unsuback = Client.unsuback packet.message_id in
            let served =
              router_unsubscribe_each-Serves a packet.topics w (online-Serves a w ag b) in
            rw (b, process_router_unsubscribe)
              (quiet-Agrees (λ w. (write_packet env a unsuback w).0) w'
                (write_packet-IsQuiet env a unsuback) served.agrees)
        | inr b ↦ rw (b, process_router_unsubscribe) ag
      ]
