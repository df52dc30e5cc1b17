-- ===== src/Broker/Subscribe/Clients.antt =====
-- broker/client.go: processClientSubscribe and processClientUnSubscribe.
use hmq.Prelude.{
  ℕ, Bool, true, false, Option, none, some, List, [], ◌∷◌, Bytes, bytes_eq, length, if◌then◌else◌,
}
use hmq.Prelude.Heap.{get_elem?}
use hmq.Packets.{PublishPacket, SubscribePacket, UnsubscribePacket}
use hmq.Bridge
use hmq.Client
use hmq.Client.{ControlPacket, Status, connected, disconnected, bridge_event, writer_packet}
use hmq.Topics.Level.{TopicError}
use hmq.Topics.MemTopics.{qos_failure}
use hmq.Broker.{Subscription, ClientObject, Broker, Env, on_client, panic}
use hmq.Broker.Auth.{sub}
use hmq.Broker.Deliver.{write_packet, broadcast}
use hmq.Broker.Subscribe.{
  share_of, drop_from_topics, forget, sub_of, drop_sub, subscribe_new, remember, add_session_topic,
  remove_session_topic, collect_retained, is_online, sub_event, is_authorized, first, tail,
}

-- The part of the loop behind the checks, for a client. The result has the return code.
unfoldable pub client_subscribed :
    ℕ → Bytes → ℕ → Subscription → Broker × ℕ × Option TopicError → Broker × ℕ
unfolding add_session_topic collect_retained
client_subscribed a t p s (w, rqos, some e) = (w, qos_failure)
client_subscribed a t p s (w, rqos, none) =
    (collect_retained a s.topic (add_session_topic a t s.qos (on_client a (remember t p) w)), rqos)

unfoldable pub client_subscribe : ℕ → Bytes → ℕ → Bool × Bytes × Bytes → Broker → Broker × ℕ
unfolding drop_sub subscribe_new client_subscribed
client_subscribe a t qos (share, group, topic) w =
    let s : Subscription = record {
      client = a;
      topic = topic;
      qos = qos;
      share = share;
      group_name = group;
    } in
    let w' = drop_sub a t w in
    client_subscribed a t (length w'.subscriptions) s (subscribe_new s w')

-- `qoss[i]` panics where the packet has no QoS for the topic (`none`).
unfoldable pub client_subscribe_if :
    ℕ → Bytes → Option ℕ → Option (Bool × Bytes × Bytes) → Broker → Broker × ℕ
unfolding client_subscribe drop_sub
client_subscribe_if a t qos none w = (w, qos_failure)
client_subscribe_if a t (some qos) (some share) w = client_subscribe a t qos share w
client_subscribe_if a t none (some share) w = (panic (drop_sub a t w), qos_failure)

abbrev pub rmsgs_of : Option ClientObject → List PublishPacket
rmsgs_of none = []
rmsgs_of (some o) = o.rmsgs

module _ (env : Env) where
  -- One turn of the loop of processClientSubscribe
  unfoldable pub client_subscribe_one : ℕ → Bytes → Option ℕ → Broker → Broker × ℕ
  unfolding is_authorized client_subscribe_if share_of
  client_subscribe_one a t qos w =
      if is_authorized env sub (get_elem? w.objects a) t
      then client_subscribe_if a t qos (share_of t)
          (on_client a (sub_event env Bridge.subscribe t) w)
      else (w, qos_failure)

  -- The loop, over the topics with their QoS, and the return codes.
  unfoldable pub client_subscribe_each : ℕ → List Bytes → List ℕ → Broker → Broker × List ℕ
  unfolding client_subscribe_one
  client_subscribe_each a [] qoss w = (w, [])
  client_subscribe_each a (t ∷ ts) qoss w =
      let (w', code) = client_subscribe_one a t (first qoss) w in
      let (w'', codes) = client_subscribe_each a ts (tail qoss) w' in (w'', code ∷ codes)

  unfoldable pub write_retained : ℕ → List PublishPacket → Broker → Broker
  unfolding write_packet
  write_retained a [] w = w
  write_retained a (m ∷ ms) w = write_retained a ms (write_packet env a (Client.publish m) w).0

  -- Behind the write of the SUBACK. The broadcast is a goroutine, which is run at once here.
  unfoldable pub client_subscribe_end : ℕ → SubscribePacket → Broker × Bool → Broker
  unfolding write_retained broadcast
  client_subscribe_end a packet (w, false) = w
  client_subscribe_end a packet (w, true) =
      let w' = broadcast env (Client.subscribe packet) w in
      write_retained a (rmsgs_of (get_elem? w'.objects a)) w'

  unfoldable pub process_client_subscribe : ℕ → SubscribePacket → Broker → Broker
  unfolding client_subscribe_each client_subscribe_end
  process_client_subscribe a packet w =
      if is_online (get_elem? w.objects a)
      then (let (w', codes) = client_subscribe_each a packet.topics packet.qoss w in
          client_subscribe_end a packet
            (write_packet env a (Client.suback packet.message_id codes) w'))
      else w

  -- One turn of the loop of processClientUnSubscribe
  unfoldable pub client_unsubscribe_one : ℕ → Bytes → Broker → Broker
  unfolding drop_sub remove_session_topic
  client_unsubscribe_one a t w =
      let w' = on_client a (sub_event env Bridge.unsubscribe t) w in
      elim (sub_of w' a t) [
        | none ↦ w'
        | some p ↦ on_client a (forget t) (remove_session_topic a t (drop_from_topics p w'))
      ]

  unfoldable pub client_unsubscribe_each : ℕ → List Bytes → Broker → Broker
  unfolding client_unsubscribe_one
  client_unsubscribe_each a [] w = w
  client_unsubscribe_each a (t ∷ ts) w = client_unsubscribe_each a ts (client_unsubscribe_one a t w)

  unfoldable pub broadcast_if_written : UnsubscribePacket → Broker × Bool → Broker
  unfolding broadcast
  broadcast_if_written packet (w, false) = w
  broadcast_if_written packet (w, true) = broadcast env (Client.unsubscribe packet) w

  unfoldable pub process_client_unsubscribe : ℕ → UnsubscribePacket → Broker → Broker
  unfolding client_unsubscribe_each broadcast_if_written write_packet
  process_client_unsubscribe a packet w =
      if is_online (get_elem? w.objects a)
      then broadcast_if_written packet (
          write_packet env a (Client.unsuback packet.message_id)
            (client_unsubscribe_each a packet.topics w))
      else w
