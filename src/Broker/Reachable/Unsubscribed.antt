-- ===== src/Broker/Reachable/Unsubscribed.antt =====
-- broker/client.go, processClientUnSubscribe: behind an UNSUBSCRIBE the client has no subscription
-- under any of its topics.
use hmq.Prelude.{
  ℕ, ◌≡◌, refl, sym, ap, subst, ◌∙◌, ◌⊎◌, inl, inr, none, some, some_inj, List, [], ◌∷◌, Memᴰ,
  Bytes, bytes_eq, Option-cases, beq_cases,
}
use mathlib.Core.List.Memᴰ
use hmq.Prelude.Assoc.{lookup, lookup-delete}
use hmq.Prelude.Heap.{get_elem?, get_elem?-modify_self}
use hmq.Packets.{UnsubscribePacket}
use hmq.Bridge
use hmq.Client
use hmq.Client.{ControlPacket, connected, disconnected}
use hmq.Broker.{ClientObject, Broker, Env, on_client}
use hmq.Broker.Deliver.{write_packet}
use hmq.Broker.Subscribe.{sub_of, drop_from_topics, forget, sub_event}
use hmq.Broker.Subscribe.Clients.{
  client_unsubscribe_one, client_unsubscribe_each, broadcast_if_written, process_client_unsubscribe,
}
use hmq.Broker.View.{Link, View, link, view, AreLive, get_elem?-link}
use hmq.Broker.View.Writes.{write_packet-IsQuiet}
use hmq.Broker.Agrees.Links.{forget_link}
use hmq.Broker.Agrees.Steps.{Serves, quiet-Serves, detach-view, sub_of-none, online-Serves}
use hmq.Broker.Agrees.Unsubscribing.{
  forget_behind, client_unsubscribe_one-Serves, client_unsubscribe_each-Serves,
  broadcast_if_written-IsQuiet,
}
use hmq.Broker.Reachable.{Reachable, Reachable-Agrees}
use hmq.Broker.Agrees.Subscribing.{sub_event-IsQuiet}
use hmq.Broker.Reachable.Subscribed.{connected-is_online}

-- The map of the client at an address has nothing under the text.
abbrev Lacks : ℕ → Bytes → View → Type 0
Lacks a t v = (l : Link) → get_elem? v.links a ≡ some l → lookup t l.sub_map ≡ none

detached-Lacks :
    (a : ℕ) (t u : Bytes) (p : ℕ) (w : Broker)
    → Serves a (view w)
    → (u ≡ t) ⊎ Lacks a u (view w)
    → Lacks a u (view (on_client a (forget t) (drop_from_topics p w)))
detached-Lacks a t u p w g h = subst (Lacks a u) (sym (detach-view a t p w)) (λ l e.
    let same : forget_link t g.link ≡ l =
      some_inj (sym (get_elem?-modify_self (view w).links (forget_link t) g.link a g.here) ∙ e) in
    ap (λ (l : Link). lookup u l.sub_map) (sym same)
    ∙ lookup-delete t u g.link.sub_map
    ∙ elim (beq_cases t u) [
      | inl (b, _) ↦ rw b refl
      | inr (b, ne) ↦ elim h [
        | inl q ↦ absurd (ne (sym q))
        | inr lacks ↦ rw b (lacks g.link g.here)
      ]
    ])

module _ (env : Env) where
  client_unsubscribe_one-Lacks :
      (a : ℕ) (t u : Bytes) (w : Broker)
      → Serves a (view w)
      → (u ≡ t) ⊎ Lacks a u (view w)
      → Lacks a u (view (client_unsubscribe_one env a t w))
  unfolding client_unsubscribe_one
  client_unsubscribe_one-Lacks a t u w g h =
      let w' = on_client a (sub_event env Bridge.unsubscribe t) w in
      let quiet = sub_event-IsQuiet env a Bridge.unsubscribe t in
      let g' : Serves a (view w') =
        quiet-Serves (on_client a (sub_event env Bridge.unsubscribe t)) a w quiet g in
      let h' : (u ≡ t) ⊎ Lacks a u (view w') =
        subst (λ v. (u ≡ t) ⊎ Lacks a u v) (sym (quiet w g.agrees.live)) h in
      elim (Option-cases (sub_of w' a t)) [
        | inl e ↦
            rw (e, client_unsubscribe_one)
              (λ l here. elim h' [
                | inl q ↦ ap (λ x. lookup x l.sub_map) q ∙ sub_of-none a t w' l here e
                | inr lacks ↦ lacks l here
              ])
        | inr (p, e) ↦
            rw (e, client_unsubscribe_one)
              (subst (Lacks a u) (sym (forget_behind a t (drop_from_topics p w')))
                (detached-Lacks a t u p w' g' h'))
      ]

  client_unsubscribe_each-Lacks :
      (a : ℕ) (ts : List Bytes) (u : Bytes) (w : Broker)
      → Serves a (view w)
      → Memᴰ u ts ⊎ Lacks a u (view w)
      → Lacks a u (view (client_unsubscribe_each env a ts w))
  unfolding client_unsubscribe_each
  client_unsubscribe_each-Lacks a [] u w g (inl i) = absurd (Memᴰ.not-nil i)
  client_unsubscribe_each-Lacks a [] u w g (inr h) = h
  client_unsubscribe_each-Lacks a (t ∷ ts) u w g h =
      client_unsubscribe_each-Lacks a ts u (client_unsubscribe_one env a t w)
        (client_unsubscribe_one-Serves env a t w g) (behind h)
    where
      behind :
          Memᴰ u (t ∷ ts) ⊎ Lacks a u (view w)
          → Memᴰ u ts ⊎ Lacks a u (view (client_unsubscribe_one env a t w))
      behind (inl (Memᴰ.head e)) = inr (client_unsubscribe_one-Lacks a t u w g (inl e))
      behind (inl (Memᴰ.tail i)) = inl i
      behind (inr k) = inr (client_unsubscribe_one-Lacks a t u w g (inr k))

-- In every state that the broker can get to, for a client that is connected: behind the processing
-- of its UNSUBSCRIBE, whatever filters that names, the client has nothing in its map under any of
-- them.
pub process_client_unsubscribe-lookup :
    (env : Env) (w : Broker) (a : ℕ) (packet : UnsubscribePacket) (o o' : ClientObject) (t : Bytes)
    → Reachable w
    → get_elem? w.objects a ≡ some o
    → o.state.status ≡ connected
    → Memᴰ t packet.topics
    → get_elem? (process_client_unsubscribe env a packet w).objects a ≡ some o'
    → lookup t o'.sub_map ≡ none
unfolding process_client_unsubscribe
process_client_unsubscribe-lookup env w a packet o o' t reach e on i e' =
    let online = connected-is_online w a o e on in
    let g = online-Serves a w (Reachable-Agrees reach) online in
    let each = client_unsubscribe_each env a packet.topics w in
    let unsuback = Client.unsuback packet.message_id in
    let written = write_packet env a unsuback each in
    let served = client_unsubscribe_each-Serves env a packet.topics w g in
    let quiet : view written.0 ≡ view each =
      write_packet-IsQuiet env a unsuback each served.agrees.live in
    let last : view (broadcast_if_written env packet (written.0, written.1)) ≡ view written.0 =
      broadcast_if_written-IsQuiet env packet written.1 written.0
        (subst (λ (v : View). AreLive v.links) (sym quiet) served.agrees.live) in
    let lacks : Lacks a t (view (process_client_unsubscribe env a packet w)) =
      rw (online, process_client_unsubscribe)
        (subst (Lacks a t) (sym (last ∙ quiet))
          (client_unsubscribe_each-Lacks env a packet.topics t w g (inl i))) in
    lacks (link o') (get_elem?-link (process_client_unsubscribe env a packet w).objects a o' e')
