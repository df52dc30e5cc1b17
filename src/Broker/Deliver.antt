-- ===== src/Broker/Deliver.antt =====
-- broker/client.go, ProcessPublishMessage, and the parts of broker/broker.go that write to many
-- clients.
pub mod Sent
pub mod Untouched
use hmq.Prelude.{
  ℕ, Bool, true, false, ◌&&◌, not, Option, none, some, List, [], ◌∷◌, ◌++◌, map, Bytes, codes,
  Result, ok, err, length, is_empty, if◌then◌else◌,
}
use hmq.Prelude.Assoc.{Assoc}
use hmq.Prelude.Heap.{get_elem?, modify}
use hmq.Packets.{PublishPacket, UnsubscribePacket}
use hmq.Client
use hmq.Client.{ControlPacket, Client, writer_packet}
use hmq.Client.Outgoing.{publish_to}
use hmq.Topics.Level.{TopicError}
use hmq.Topics.Value.{Value, subscription, func, text, number}
use hmq.Topics.Snode.{Matched}
use hmq.Topics.MemTopics.{MemTopics, retain, subscribers}
use hmq.Broker.{
  ClientType, client, router, remote, cluster, Subscription, ClientObject, Broker, Env, on_client,
  on_state,
}
use hmq.Broker.Auth.{clients_topic}

-- `s, ok := sub.(*subscription)`
unfoldable pub subscription_at : Broker → Value → Option Subscription
subscription_at w (subscription p) = get_elem? w.subscriptions p
subscription_at w v = none

abbrev pub is_router : ClientType → Bool
is_router router = true
is_router t = false

abbrev pub is_client : ClientType → Bool
is_client client = true
is_client t = false

-- `s.client.typ == ROUTER`
abbrev pub leads_to_router : Option ClientObject → Bool
leads_to_router none = false
leads_to_router (some o) = is_router o.typ

abbrev pub retained_first : PublishPacket → Broker → Broker
retained_first packet w =
    if packet.retain then record w { topics = (retain w.topics packet).0 } else w

abbrev pub bool_text : Bool → Bytes
bool_text true = codes "true"
bool_text false = codes "false"

module _ (env : Env) where
  -- WriterPacket on a client, and whether it returns no error.
  unfoldable pub write_packet : ℕ → ControlPacket → Broker → Broker × Bool
  unfolding writer_packet
  write_packet a packet w = (
    on_client a (on_state (λ c. (writer_packet (env.network a) packet c).0)) w,
    elim (get_elem? w.objects a) [
      | none ↦ true
      | some o ↦ (writer_packet (env.network a) packet o.state).1
    ],
  )

  -- comm.go's publish
  unfoldable pub publish_sub : PublishPacket → Subscription → Broker → Broker
  unfolding publish_to
  publish_sub packet s w =
      on_client s.client (on_state (publish_to (env.network s.client) env.now packet)) w

  -- One turn of the loop over the subscribers, for a publisher of a type: the broker, and the
  -- shared subscriptions that are left for the choice at the end.
  unfoldable pub publish_one :
      ClientType
      → PublishPacket
      → Option Subscription
      → Broker × List Subscription
      → Broker × List Subscription
  unfolding publish_sub
  publish_one typ packet none (w, qsub) = (w, qsub)
  publish_one typ packet (some s) (w, qsub) =
      if leads_to_router (get_elem? w.objects s.client) && not (is_client typ)
      then (w, qsub)
      else if s.share
      then (w, qsub ++ s ∷ [])
      else (publish_sub packet s w, qsub)

  unfoldable pub publish_each :
      ClientType
      → PublishPacket
      → List Value
      → Broker × List Subscription
      → Broker × List Subscription
  unfolding publish_one subscription_at
  publish_each typ packet [] r = r
  publish_each typ packet (v ∷ vs) r =
      publish_each typ packet vs (publish_one typ packet (subscription_at r.0 v) r)

  -- One of the shared subscriptions is chosen at random.
  unfoldable pub publish_shared : PublishPacket → Broker × List Subscription → Broker
  unfolding publish_sub
  publish_shared packet (w, qsub) =
      if is_empty qsub then w else elim (get_elem? qsub (env.random (length qsub))) [
        | none ↦ w
        | some s ↦ publish_sub packet s w
      ]

  unfoldable pub deliver : ClientType → PublishPacket → Result TopicError Matched → Broker → Broker
  unfolding publish_each publish_shared
  deliver typ packet (err e) w = w
  deliver typ packet (ok (subs, qoss)) w =
      publish_shared packet (publish_each typ packet subs (w, []))

  -- ProcessPublishMessage, for a publisher of a type
  unfoldable pub process_publish_message : ClientType → PublishPacket → Broker → Broker
  unfolding deliver retain subscribers
  process_publish_message typ packet w =
      let w' = retained_first packet w in
      deliver typ packet (subscribers w'.topics packet.topic_name packet.qos) w'

  -- Broker.PublishMessage
  unfoldable pub write_one : PublishPacket → Option Subscription → Broker → Broker
  unfolding write_packet
  write_one packet none w = w
  write_one packet (some s) w = (write_packet s.client (Client.publish packet) w).0

  unfoldable pub write_each : PublishPacket → List Value → Broker → Broker
  unfolding write_one subscription_at
  write_each packet [] w = w
  write_each packet (v ∷ vs) w = write_each packet vs (write_one packet (subscription_at w v) w)

  unfoldable pub write_found : PublishPacket → Result TopicError Matched → Broker → Broker
  unfolding write_each
  write_found packet (err e) w = w
  write_found packet (ok (subs, qoss)) w = write_each packet subs w

  unfoldable pub publish_message : PublishPacket → Broker → Broker
  unfolding write_found subscribers
  publish_message packet w =
      write_found packet (subscribers w.topics packet.topic_name packet.qos) w

  -- BroadcastSubOrUnsubMessage
  unfoldable pub write_routes : ControlPacket → Assoc Bytes ℕ → Broker → Broker
  unfolding write_packet
  write_routes packet [] w = w
  write_routes packet ((id, r) ∷ rs) w = write_routes packet rs (write_packet r packet w).0

  unfoldable pub broadcast : ControlPacket → Broker → Broker
  unfolding write_routes
  broadcast packet w = write_routes packet w.routes w

  -- BroadcastUnSubscribe
  unfoldable pub broadcast_unsubscribe : Assoc Bytes ℕ → Broker → Broker
  unfolding broadcast
  broadcast_unsubscribe subs w =
      if is_empty subs
      then w
      else broadcast (Client.unsubscribe (record { message_id = 0; topics = map (λ e. e.0) subs }))
          w

  -- The message of OnlineOfflineNotification
  abbrev pub notification : Bytes → Bool → PublishPacket
  notification client_id online = record {
    topic_name = clients_topic ++ client_id;
    payload =
        codes "{\"clientID\":\""
        ++ client_id
        ++ codes "\",\"online\":"
        ++ bool_text online
        ++ codes ",\"timestamp\":\""
        ++ env.time_text
        ++ codes "\"}";
    qos = 0;
    retain = false;
    dup = false;
    message_id = 0;
  }

  unfoldable pub notify : Bytes → Bool → Broker → Broker
  unfolding publish_message
  notify client_id online w = publish_message (notification client_id online) w
