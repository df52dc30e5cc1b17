-- ===== src/Broker/Reachable/Publication.antt =====
-- Whom a publication reaches, in a state that the broker can get to.
use hmq.Prelude.{ℕ, ◌≡◌, sym, ap, subst, ◌∙◌, ◌↔◌, true, some, some_inj, List, Memᴰ, Bytes}
use hmq.Prelude.Heap.{get_elem?}
use hmq.Client.{connected}
use hmq.Topics.Filter.{Matches}
use hmq.Topics.Value.{subscription, subscription_inj}
use hmq.Topics.MemTopics.{valid_qos}
use hmq.Topics.MemTopics.Delivery.{Reads, Receives, Receives-iff}
use hmq.Topics.MemTopics.Pointers.{Reads-unique}
use hmq.Broker.{client, Subscription, ClientObject, Broker}
use hmq.Broker.View.{Link, link, view, get_elem?-link}
use hmq.Broker.Reachable.{Reachable, Reachable-Agrees}

-- The subscription at an address is the client's.
abbrev pub IsOf : Broker → ℕ → ℕ → Type 0
IsOf w a p = (s : Subscription) × (get_elem? w.subscriptions p ≡ some s) × (s.client ≡ a)

-- The client is connected and has the subscription in its map, with a filter for the topic.
abbrev pub Follows : Broker → ClientObject → List Bytes → ℕ → Type 0
Follows w o ls p =
    (o.state.status ≡ connected)
    × (t : Bytes) × (s : Subscription) × (ks : List Bytes) × Memᴰ (t, p) o.sub_map
    × (get_elem? w.subscriptions p ≡ some s)
    × Reads s.topic ks
    × Matches ks ls

-- In every state that the broker can get to, for an object of the type CLIENT, a valid QoS and a
-- topic all of whose levels are read: Subscribers finds a subscription of that client for the topic
-- exactly if the client is connected and has the subscription in its map, with a filter that
-- matches the topic.
pub Reachable-Receives :
    (w : Broker) (topic : Bytes) (ls : List Bytes) (qos a p : ℕ) (o : ClientObject)
    → Reachable w
    → get_elem? w.objects a ≡ some o
    → o.typ ≡ client
    → valid_qos qos ≡ true
    → Reads topic ls
    → (Receives w.topics topic qos (subscription p) × IsOf w a p) ↔ Follows w o ls p
Reachable-Receives w topic ls qos a p o reach e c q r =
    let ag = Reachable-Agrees reach in
    let found = Receives-iff w.topics topic ls qos (subscription p) ag.valid q r in
    let here = get_elem?-link w.objects a o e in
    (
      λ (h, (u, f, of_a)).
          let (ks, m, x) = found.0 h in
          let (p', s, z, f', rk, l, el, own) = ag.stored ks (subscription p) x in
          let same : p ≡ p' = subscription_inj z in
          let su : s ≡ u = some_inj (sym f' ∙ ap (get_elem? w.subscriptions) (sym same) ∙ f) in
          let mine : s.client ≡ a = ap (λ (s : Subscription). s.client) su ∙ of_a in
          let lo : l ≡ link o = some_inj (sym el ∙ ap (get_elem? (view w).links) mine ∙ here) in
          let (t, (k, ek, on, i)) = own (ap (λ (l : Link). l.typ) lo ∙ c) in
          let ko : k ≡ link o = some_inj (sym ek ∙ ap (get_elem? (view w).links) mine ∙ here) in
          (
            ap (λ (l : Link). l.status) (sym ko) ∙ on,
            t,
            s,
            ks,
            subst (λ (l : Link). Memᴰ (t, p) l.sub_map) ko
                (subst (λ j. Memᴰ (t, j) k.sub_map) (sym same) i),
            ap (get_elem? w.subscriptions) same ∙ f',
            rk,
            m,
          ),
      λ (on, t, s, ks, i, f, rk, m).
          let (s', ks', f', c', rk', x) = ag.kept a t p (link o, here, on, i) in
          let same : s ≡ s' = some_inj (sym f ∙ f') in
          let one : ks ≡ ks' =
            Reads-unique s.topic ks ks' rk
              (subst (λ (s : Subscription). Reads s.topic ks') (sym same) rk') in
          (found.1 (ks', subst (λ js. Matches js ls) one m, x), (s', f', c')),
    )
