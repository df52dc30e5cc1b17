-- ===== src/Broker/Message.antt =====
-- broker/client.go: ProcessMessage, from the checks of a packet's text to its handler.
pub mod Calm
pub mod Panicked
pub mod Subscribes
use hmq.Prelude.{
  ℕ, Bool, true, ◌&&◌, not, Option, none, some, List, [], ◌∷◌, Bytes, ◌==◌, bytes_eq, if◌then◌else◌,
}
use hmq.Prelude.Assoc.{Assoc}
use hmq.Prelude.Heap.{get_elem?}
use hmq.Go.{contains_byte}
use hmq.Packets.{PublishPacket, SubscribePacket, UnsubscribePacket}
use hmq.Client
use hmq.Client.{ControlPacket, Client, Status, connected, disconnected}
use hmq.Client.Outgoing.{process_puback, process_pubrec, process_pubcomp, process_ping}
use hmq.Client.Incoming.{admit_client_publish, admit_router_publish, process_pubrel}
use hmq.Broker.{
  ClientType, client, router, remote, cluster, ClientObject, Broker, Env, on_client, on_state,
}
use hmq.Broker.Auth.{pub_action}
use hmq.Broker.Deliver.{process_publish_message}
use hmq.Broker.Subscribe.{is_authorized}
use hmq.Broker.Subscribe.Clients.{process_client_subscribe, process_client_unsubscribe}
use hmq.Broker.Subscribe.Routers.{process_router_subscribe, process_router_unsubscribe}
use hmq.Broker.Close.{close}
use hmq.Broker.Cluster.{broker_info_topic, process_info}

-- extractPacketFields
unfoldable pub extract_packet_fields : ControlPacket → List Bytes
extract_packet_fields (Client.publish packet) = packet.topic_name ∷ []
extract_packet_fields (Client.unsubscribe packet) = packet.topics
extract_packet_fields packet = []

unfoldable pub are_valid : (Bytes → Bool) → List Bytes → Bool
unfolding contains_byte
are_valid valid_string [] = true
are_valid valid_string (field ∷ fields) =
    valid_string field && not (contains_byte field 0) && are_valid valid_string fields

-- validatePacketFields
unfoldable pub validate_packet_fields : (Bytes → Bool) → ControlPacket → Bool
unfolding extract_packet_fields are_valid
validate_packet_fields valid_string packet = are_valid valid_string (extract_packet_fields packet)

unfoldable pub remote_publish :
    (Bytes → Option (Assoc Bytes (Option Bytes))) → ℕ → PublishPacket → Status → Broker → Broker
unfolding process_info
remote_publish parse a packet disconnected w = w
remote_publish parse a packet connected w =
    if packet.topic_name == broker_info_topic then process_info parse a packet w else w

-- readLoop, on a packet that it has read: a DISCONNECT takes the will away.
unfoldable pub take_will : ControlPacket → ClientObject → ClientObject
take_will Client.disconnect o = record o { will_msg = none }
take_will packet o = o

-- The broker behind a handler; none behind a panic.
unfoldable pub finished : Broker → Option Broker
finished w = if w.panicked then none else some w

module _ (env : Env) where
  -- What processClientPublish and processRouterPublish do behind their acknowledgement.
  unfoldable pub process_admitted : ℕ → ClientType → PublishPacket → Client × Bool → Broker → Broker
  unfolding process_publish_message
  process_admitted a typ packet (c, b) w =
      let w' = on_client a (on_state (λ _. c)) w in
      if b then process_publish_message env typ packet w' else w'

  unfoldable pub process_client_publish : ℕ → ClientObject → PublishPacket → Broker → Broker
  unfolding admit_client_publish process_admitted
  process_client_publish a o packet w =
      process_admitted a o.typ packet
        (admit_client_publish (env.network a)
          (is_authorized env pub_action (some o) packet.topic_name) env.now packet o.state)
        w

  unfoldable pub process_router_publish : ℕ → ClientObject → PublishPacket → Broker → Broker
  unfolding admit_router_publish process_admitted
  process_router_publish a o packet w =
      process_admitted a o.typ packet (admit_router_publish (env.network a) packet o.state) w

  -- ProcessSubscribe and ProcessUnSubscribe
  unfoldable pub process_subscribe : ℕ → SubscribePacket → ClientType → Broker → Broker
  unfolding process_client_subscribe process_router_subscribe
  process_subscribe a packet client w = process_client_subscribe env a packet w
  process_subscribe a packet router w = process_router_subscribe env a packet w
  process_subscribe a packet remote w = process_router_subscribe env a packet w
  process_subscribe a packet cluster w = w

  unfoldable pub process_unsubscribe : ℕ → UnsubscribePacket → ClientType → Broker → Broker
  unfolding process_client_unsubscribe process_router_unsubscribe
  process_unsubscribe a packet client w = process_client_unsubscribe env a packet w
  process_unsubscribe a packet router w = process_router_unsubscribe env a packet w
  process_unsubscribe a packet typ w = w

module _ (env : Env) (parse : Bytes → Option (Assoc Bytes (Option Bytes))) where
  -- ProcessPublish
  unfoldable pub process_publish : ℕ → ClientObject → PublishPacket → ClientType → Broker → Broker
  unfolding process_client_publish process_router_publish remote_publish
  process_publish a o packet client w = process_client_publish env a o packet w
  process_publish a o packet router w = process_router_publish env a o packet w
  process_publish a o packet cluster w = remote_publish parse a packet o.state.status w
  process_publish a o packet remote w = w

  -- The switch on the packet
  unfoldable pub dispatch : ℕ → ClientObject → ControlPacket → Broker → Broker
  unfolding process_publish process_subscribe process_unsubscribe process_puback process_pubrec
      process_pubrel process_pubcomp process_ping close
  dispatch a o (Client.publish packet) w = process_publish a o packet o.typ w
  dispatch a o (Client.puback id) w = on_client a (on_state (process_puback id)) w
  dispatch a o (Client.pubrec id) w =
      on_client a (on_state (process_pubrec (env.network a) env.now id)) w
  dispatch a o (Client.pubrel id) w = on_client a (on_state (process_pubrel (env.network a) id)) w
  dispatch a o (Client.pubcomp id) w = on_client a (on_state (process_pubcomp id)) w
  dispatch a o (Client.subscribe packet) w = process_subscribe env a packet o.typ w
  dispatch a o (Client.unsubscribe packet) w = process_unsubscribe env a packet o.typ w
  dispatch a o Client.pingreq w = on_client a (on_state (process_ping (env.network a))) w
  dispatch a o Client.disconnect w = close env a w
  dispatch a o packet w = w

  -- A packet whose text is malformed closes the network connection. There is a panic (`none`) if the
  -- client has none any more.
  unfoldable pub process_object : ℕ → ClientObject → ControlPacket → Broker → Option Broker
  unfolding validate_packet_fields dispatch finished
  process_object a o packet w =
      if validate_packet_fields env.valid_string packet
      then finished (dispatch a o packet w)
      else if o.state.conn
      then some w
      else none

  unfoldable pub process_message : ℕ → ControlPacket → Broker → Option Broker
  unfolding process_object
  process_message a packet w = elim (get_elem? w.objects a) [
    | none ↦ none
    | some o ↦ process_object a o packet w
  ]

  unfoldable pub read_packet : ℕ → ControlPacket → Broker → Option Broker
  unfolding take_will process_message
  read_packet a packet w = process_message a packet (on_client a (take_will packet) w)
