-- ===== src/Broker/Reachable/Subscribed.antt =====
-- broker/client.go, processClientSubscribe: behind a SUBSCRIBE the client follows the topics of its
-- filter.
use hmq.Prelude.{
  ℕ, ◌≡◌, refl, sym, ap, subst, ◌∙◌, inl, inr, true, false, none, some, some_inj, List, [], ◌∷◌,
  Memᴰ, Bytes, bytes_eq, length, Option-cases,
}
use hmq.Prelude.Entries.{mem-insert}
use hmq.Prelude.Heap.{get_elem?, get_elem?-alloc, get_elem?-modify_self}
use hmq.Go.{has_prefix}
use hmq.Packets.{SubscribePacket}
use hmq.Bridge
use hmq.Client
use hmq.Client.{ControlPacket, connected, disconnected}
use hmq.Topics.Filter.{Matches}
use hmq.Topics.Value.{subscription}
use hmq.Topics.MemTopics.{valid_qos}
use hmq.Topics.MemTopics.Delivery.{Reads, subscribe-eq}
use hmq.Broker.{Subscription, ClientObject, Broker, Env, on_client}
use hmq.Broker.Auth.{share_prefix, sub}
use hmq.Broker.Deliver.{write_packet}
use hmq.Broker.Subscribe.{
  share_of, drop_sub, subscribe_new, remember, add_session_topic, collect_retained, is_online,
  sub_event, is_authorized,
}
use hmq.Broker.Subscribe.Clients.{
  client_subscribed, client_subscribe, client_subscribe_if, client_subscribe_one,
  client_subscribe_each, client_subscribe_end, process_client_subscribe,
}
use hmq.Broker.View.{Link, View, link, view, AreLive, get_elem?-link, get_elem?-none}
use hmq.Broker.View.Writes.{IsQuiet, IsQuiet-then, write_packet-IsQuiet}
use hmq.Broker.Agrees.Links.{remember_link}
use hmq.Broker.Agrees.Remembered.{remembered-view, remembered-Serves}
use hmq.Broker.Agrees.Steps.{Serves, HasRoom, quiet-Serves, drop_sub-HasRoom, online-Serves}
use hmq.Broker.Agrees.Subscribing.{
  add_session_topic-IsQuiet, collect_retained-IsQuiet, sub_event-IsQuiet,
  client_subscribe_end-IsQuiet,
}
use hmq.Broker.Reachable.{Reachable, Reachable-Agrees}
use hmq.Broker.Reachable.Publication.{Follows}

-- The client at an address is connected and has a subscription in its map with a filter for the
-- topic, as the view shows it.
abbrev HasFollowed : ℕ → List Bytes → View → Type 0
HasFollowed a ls v =
    (l : Link) × (p : ℕ) × (t : Bytes) × (s : Subscription) × (ks : List Bytes) × (get_elem? v.links
        a
      ≡ some l)
    × (l.status ≡ connected)
    × Memᴰ (t, p) l.sub_map
    × (get_elem? v.subscriptions p ≡ some s)
    × Reads s.topic ks
    × Matches ks ls

abbrev Done : ℕ → List Bytes → View → Type 0
Done a ls v = AreLive v.links × HasFollowed a ls v

quiet-Done :
    (f : Broker → Broker) (a : ℕ) (ls : List Bytes) (w : Broker)
    → IsQuiet f
    → Done a ls (view w)
    → Done a ls (view (f w))
quiet-Done f a ls w q (live, h) = subst (Done a ls) (sym (q w live)) (live, h)

-- The subscription is in the store and in the map.
remembered-Done :
    (a : ℕ) (t : Bytes) (s : Subscription) (w : Broker) (fs ls : List Bytes)
    → HasRoom a t (view w)
    → s.client ≡ a
    → (subscribe_new s w).2 ≡ none
    → Reads s.topic fs
    → Matches fs ls
    → Done a ls (view (on_client a (remember t (length w.subscriptions)) (subscribe_new s w).0))
remembered-Done a t s w fs ls room mine e r m =
    let n = length w.subscriptions in
    let l = room.serves.link in
    let served = remembered-Serves a t s w room.serves (λ _. room.free) mine e in
    (
      served.agrees.live,
      subst (HasFollowed a ls) (sym (remembered-view a t s w)) (
        remember_link t n l,
        n,
        t,
        s,
        fs,
        get_elem?-modify_self (view w).links (remember_link t n) l a room.serves.here,
        room.serves.online,
        mem-insert t n l.sub_map,
        get_elem?-alloc w.subscriptions s,
        r,
        m,
      ),
    )

subscribe_new-succeeds :
    (s : Subscription) (w : Broker) (fs : List Bytes)
    → valid_qos s.qos ≡ true
    → Reads s.topic fs
    → (subscribe_new s w).2 ≡ none
unfolding subscribe_new
subscribe_new-succeeds s w fs q r =
    ap (λ x. x.2)
      (subscribe-eq w.topics s.topic fs s.qos (subscription (length w.subscriptions)) q r)

module _ (env : Env) (a : ℕ) (t : Bytes) (qos : ℕ) (fs ls : List Bytes) where
  abbrev plain : Subscription
  plain = record { client = a; topic = t; qos = qos; share = false; group_name = [] }

  client_subscribed-Done :
      (w : Broker)
      → HasRoom a t (view w)
      → valid_qos qos ≡ true
      → Reads t fs
      → Matches fs ls
      → Done a ls
          (view (client_subscribed a t (length w.subscriptions) plain (subscribe_new plain w)).0)
  unfolding client_subscribed
  client_subscribed-Done w room q r m =
      let e = subscribe_new-succeeds plain w fs q r in
      rw (e, client_subscribed)
        (quiet-Done (λ w. collect_retained a t (add_session_topic a t qos w)) a ls
          (on_client a (remember t (length w.subscriptions)) (subscribe_new plain w).0)
          (IsQuiet-then (add_session_topic a t qos) (collect_retained a t)
            (add_session_topic-IsQuiet a t qos) (collect_retained-IsQuiet a t))
          (remembered-Done a t plain w fs ls room refl e r m))

  client_subscribe_one-Done :
      (w : Broker)
      → Serves a (view w)
      → is_authorized env sub (get_elem? w.objects a) t ≡ true
      → has_prefix t share_prefix ≡ false
      → valid_qos qos ≡ true
      → Reads t fs
      → Matches fs ls
      → Done a ls (view (client_subscribe_one env a t (some qos) w).0)
  unfolding client_subscribe_one client_subscribe_if client_subscribe share_of
  client_subscribe_one-Done w g b h q r m =
      let w' = on_client a (sub_event env Bridge.subscribe t) w in
      let g' =
        quiet-Serves (on_client a (sub_event env Bridge.subscribe t)) a w
          (sub_event-IsQuiet env a Bridge.subscribe t) g in
      rw (b, client_subscribe_one)
        (rw (h, share_of)
          (client_subscribed-Done (drop_sub a t w') (drop_sub-HasRoom a t w' g') q r m))

-- The client follows the topic now.
abbrev pub IsFollower : Broker → ℕ → List Bytes → Type 0
IsFollower w a ls =
    (o : ClientObject) × (p : ℕ) × (get_elem? w.objects a ≡ some o) × Follows w o ls p

followed : (w : Broker) (a : ℕ) (ls : List Bytes) → HasFollowed a ls (view w) → IsFollower w a ls
followed w a ls (l, p, t, s, ks, e, on, i, f, r, m) = elim (Option-cases (get_elem? w.objects a)) [
  | inl g ↦ absurd (missing (sym (get_elem?-none w.objects a g) ∙ e))
  | inr (o, g) ↦
      let same : l ≡ link o = some_inj (sym e ∙ get_elem?-link w.objects a o g) in
      (
        o,
        p,
        g,
        (
          ap (λ (x : Link). x.status) (sym same) ∙ on,
          t,
          s,
          ks,
          subst (λ (x : Link). Memᴰ (t, p) x.sub_map) same i,
          f,
          r,
          m,
        ),
      )
]
  where
    missing : ¬ (none ≡ some l)
    missing q = cc

pub connected-is_online :
    (w : Broker) (a : ℕ) (o : ClientObject)
    → get_elem? w.objects a ≡ some o
    → o.state.status ≡ connected
    → is_online (get_elem? w.objects a) ≡ true
connected-is_online w a o e on = rw (e, is_online) (by_status o.state.status on)
  where
    by_status :
        (s : Client.Status)
        → s ≡ connected
        → (elim s [ connected ↦ true | disconnected ↦ false ]) ≡ true
    by_status connected q = refl
    by_status disconnected q = cc

-- In every state that the broker can get to, for a client that is connected and authorised to
-- subscribe to a filter that is not shared, all of whose levels are read, and for a valid QoS: behind
-- the processing of its SUBSCRIBE for that filter, the client follows every topic that the filter
-- matches; it is connected and has a subscription in its map with a filter for the topic.
pub process_client_subscribe-IsFollower :
    (env : Env) (w : Broker) (a id qos : ℕ) (o : ClientObject) (t : Bytes) (fs ls : List Bytes)
    → Reachable w
    → get_elem? w.objects a ≡ some o
    → o.state.status ≡ connected
    → is_authorized env sub (some o) t ≡ true
    → has_prefix t share_prefix ≡ false
    → valid_qos qos ≡ true
    → Reads t fs
    → Matches fs ls
    → IsFollower
        (process_client_subscribe env a
          (record { message_id = id; topics = t ∷ []; qoss = qos ∷ [] })
          w)
        a
        ls
unfolding process_client_subscribe client_subscribe_each
process_client_subscribe-IsFollower env w a id qos o t fs ls reach e on b h q r m =
    let packet : SubscribePacket = record { message_id = id; topics = t ∷ []; qoss = qos ∷ [] } in
    let online = connected-is_online w a o e on in
    let one = client_subscribe_one env a t (some qos) w in
    let suback = Client.suback id (one.1 ∷ []) in
    let written = write_packet env a suback one.0 in
    let done =
      client_subscribe_one-Done env a t qos fs ls w
        (online-Serves a w (Reachable-Agrees reach) online)
        (ap (λ x. is_authorized env sub x t) e ∙ b) h q r m in
    followed (process_client_subscribe env a packet w) a ls (
      rw (online, process_client_subscribe)
        (quiet-Done (λ w. client_subscribe_end env a packet (w, written.1)) a ls written.0
          (client_subscribe_end-IsQuiet env a packet written.1)
          (quiet-Done (λ w. (write_packet env a suback w).0) a ls one.0
            (write_packet-IsQuiet env a suback) done)).1)
