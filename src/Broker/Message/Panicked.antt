-- ===== src/Broker/Message/Panicked.antt =====
-- broker/client.go, processClientSubscribe: its loop and the rest of it, on panics.
use hmq.Prelude.{
  ℕ, ◌≡◌, refl, ◌∙◌, Bool, true, false, Option, none, some, List, [], ◌∷◌, Bytes, bytes_eq, length,
  Bool-cases, Option-cases, inl, inr,
}
use hmq.Prelude.Assoc.{Assoc}
use hmq.Prelude.Heap.{get_elem?}
use hmq.Packets.{PublishPacket, SubscribePacket}
use hmq.Bridge
use hmq.Client
use hmq.Client.{ControlPacket, connected, disconnected}
use hmq.Topics.Level.{TopicError}
use hmq.Broker.{Subscription, Broker, Env, on_client}
use hmq.Broker.Auth.{sub}
use hmq.Broker.Deliver.{write_packet, write_routes, broadcast}
use hmq.Broker.Subscribe.{
  share_of, sub_of, drop_from_topics, drop_sub, subscribe_new, remember, session_of,
  add_session_topic, collect_retained, is_online, sub_event, is_authorized, first, tail,
}
use hmq.Broker.Subscribe.Clients.{
  client_subscribed, client_subscribe, client_subscribe_if, client_subscribe_one,
  client_subscribe_each, write_retained, rmsgs_of, client_subscribe_end, process_client_subscribe,
}

-- What is written behind the loop leaves whether there was a panic.
module _ (env : Env) where
  write_routes-panicked :
      (packet : ControlPacket) (rs : Assoc Bytes ℕ) (w : Broker)
      → (write_routes env packet rs w).panicked ≡ w.panicked
  unfolding write_routes write_packet
  write_routes-panicked packet [] w = refl
  write_routes-panicked packet ((id, r) ∷ rs) w =
      write_routes-panicked packet rs (write_packet env r packet w).0

  write_retained-panicked :
      (a : ℕ) (ms : List PublishPacket) (w : Broker)
      → (write_retained env a ms w).panicked ≡ w.panicked
  unfolding write_retained write_packet
  write_retained-panicked a [] w = refl
  write_retained-panicked a (m ∷ ms) w =
      write_retained-panicked a ms (write_packet env a (Client.publish m) w).0

  client_subscribe_end-panicked :
      (a : ℕ) (packet : SubscribePacket) (w : Broker) (b : Bool)
      → (client_subscribe_end env a packet (w, b)).panicked ≡ w.panicked
  unfolding client_subscribe_end broadcast
  client_subscribe_end-panicked a packet w false = refl
  client_subscribe_end-panicked a packet w true =
      let w' = broadcast env (Client.subscribe packet) w in
      write_retained-panicked a (rmsgs_of (get_elem? w'.objects a)) w'
      ∙ write_routes-panicked (Client.subscribe packet) w.routes w

  -- Behind the loop the handler neither panics nor hides a panic.
  pub process_client_subscribe-panicked :
      (a : ℕ) (packet : SubscribePacket) (w : Broker)
      → is_online (get_elem? w.objects a) ≡ true
      → (process_client_subscribe env a packet w).panicked
        ≡ (client_subscribe_each env a packet.topics packet.qoss w).0.panicked
  unfolding process_client_subscribe write_packet
  process_client_subscribe-panicked a packet w b =
      let r = client_subscribe_each env a packet.topics packet.qoss w in
      let written = write_packet env a (Client.suback packet.message_id r.1) r.0 in
      rw (b, process_client_subscribe) (client_subscribe_end-panicked a packet written.0 written.1)

-- A panic is not taken back.
module _ (a : ℕ) where
  drop_sub-panicked : (t : Bytes) (w : Broker) → (drop_sub a t w).panicked ≡ w.panicked
  unfolding drop_sub drop_from_topics
  drop_sub-panicked t w = elim (Option-cases (sub_of w a t)) [
    | inl e ↦ rw (e, drop_sub) refl
    | inr (p, e) ↦ rw (e, drop_sub) refl
  ]

  client_subscribed-panicked :
      (t : Bytes) (p : ℕ) (x : Subscription) (w : Broker) (q : ℕ) (e : Option TopicError)
      → w.panicked ≡ true
      → (client_subscribed a t p x (w, q, e)).0.panicked ≡ true
  unfolding client_subscribed add_session_topic collect_retained
  client_subscribed-panicked t p x w q (some e) h = h
  client_subscribed-panicked t p x w q none h =
      let w' = on_client a (remember t p) w in
      elim (Option-cases (session_of (get_elem? w'.objects a))) [
        | inl e ↦ rw (e, add_session_topic) refl
        | inr (s, e) ↦ rw (e, add_session_topic) h
      ]

  client_subscribe_if-panicked :
      (t : Bytes) (q : Option ℕ) (o : Option (Bool × Bytes × Bytes)) (w : Broker)
      → w.panicked ≡ true
      → (client_subscribe_if a t q o w).0.panicked ≡ true
  unfolding client_subscribe_if client_subscribe subscribe_new
  client_subscribe_if-panicked t q none w h = h
  client_subscribe_if-panicked t none (some share) w h = refl
  client_subscribe_if-panicked t (some q) (some (share, group, topic)) w h =
      let x : Subscription = record {
        client = a;
        topic = topic;
        qos = q;
        share = share;
        group_name = group;
      } in
      let w' = drop_sub a t w in
      let r = subscribe_new x w' in
      client_subscribed-panicked t (length w'.subscriptions) x r.0 r.1 r.2
        (drop_sub-panicked t w ∙ h)

module _ (env : Env) (a : ℕ) where
  client_subscribe_one-panicked :
      (t : Bytes) (q : Option ℕ) (w : Broker)
      → w.panicked ≡ true
      → (client_subscribe_one env a t q w).0.panicked ≡ true
  unfolding client_subscribe_one
  client_subscribe_one-panicked t q w h =
      elim (Bool-cases (is_authorized env sub (get_elem? w.objects a) t)) [
        | inl b ↦
            rw (b, client_subscribe_one)
              (client_subscribe_if-panicked a t q (share_of t)
                (on_client a (sub_event env Bridge.subscribe t) w) h)
        | inr b ↦ rw (b, client_subscribe_one) h
      ]

  pub client_subscribe_each-panicked :
      (ts : List Bytes) (qs : List ℕ) (w : Broker)
      → w.panicked ≡ true
      → (client_subscribe_each env a ts qs w).0.panicked ≡ true
  unfolding client_subscribe_each
  client_subscribe_each-panicked [] qs w h = h
  client_subscribe_each-panicked (t ∷ ts) qs w h =
      client_subscribe_each-panicked ts (tail qs) (client_subscribe_one env a t (first qs) w).0
        (client_subscribe_one-panicked t (first qs) w h)

  -- The turn for a topic that has no QoS.
  pub client_subscribe_one-without_qos :
      (t : Bytes) (share : Bool × Bytes × Bytes) (w : Broker)
      → is_authorized env sub (get_elem? w.objects a) t ≡ true
      → share_of t ≡ some share
      → (client_subscribe_one env a t none w).0.panicked ≡ true
  unfolding client_subscribe_one client_subscribe_if
  client_subscribe_one-without_qos t share w b e =
      rw (b, client_subscribe_one) (rw (e, client_subscribe_if) refl)
