-- ===== src/Broker/Cluster.antt =====
-- broker/broker.go and broker/info.go: the other nodes of a cluster.
use hmq.Prelude.{
  ℕ, Bool, true, false, Option, none, some, List, [], ◌∷◌, ◌++◌, Bytes, codes, ◌==◌, bytes_eq,
  is_empty, if◌then◌else◌,
}
use hmq.Prelude.Assoc.{Assoc}
use hmq.Prelude.Heap.{get_elem?}
use hmq.Packets.{PublishPacket, ConnectPacket}
use hmq.Client
use hmq.Client.{ControlPacket}
use hmq.Broker.{ClientObject, route, Broker, Env, on_client}
use hmq.Broker.Deliver.{write_packet}

abbrev pub broker_info_topic : Bytes
broker_info_topic = codes "broker000100101info"

-- The message of NewInfo
unfoldable pub new_info : Bytes → Bytes → PublishPacket
new_info sid url = record {
  topic_name = broker_info_topic;
  payload = codes "{\"brokerID\":\"" ++ sid ++ codes "\",\"brokerUrl\":\"" ++ url ++ codes "\"}";
  qos = 0;
  retain = false;
  dup = false;
  message_id = 0;
}

-- The packet of SendConnect
unfoldable pub connect_packet : Bytes → ConnectPacket
connect_packet client_id = record {
  client_identifier = client_id;
  username = [];
  password = [];
  keepalive = 60;
  clean_session = true;
  dup = false;
  qos = 0;
  will_flag = false;
  will_qos = 0;
  will_retain = false;
  will_topic = [];
  will_message = [];
}

abbrev pub has_url : Option Bytes → Bytes → Bool
has_url none url = false
has_url (some u) url = url == u

-- The loop of checkNodeExist
unfoldable pub node_exists : Bytes → Bytes → Assoc Bytes (Option Bytes) → Bool
node_exists id url [] = false
node_exists id url ((k, v) ∷ nodes) =
    let rest = node_exists id url nodes in
    if k == id then true else if has_url v url then true else rest

unfoldable pub check_node_exist : Bytes → Bytes → Broker → Bool
unfolding node_exists
check_node_exist id url w = if id == w.id then false else node_exists id url w.nodes

abbrev pub is_remote_at : Bytes → Option ClientObject → Bool
is_remote_at url none = false
is_remote_at url (some o) = o.remote_url == url

-- CheckRemoteExist stops at the first client with the address, and gives it the identifier.
unfoldable pub remote_exists : Bytes → Bytes → Assoc Bytes ℕ → Broker → Broker × Bool
remote_exists id url [] w = (w, false)
remote_exists id url ((k, a) ∷ remotes) w =
    let rest = remote_exists id url remotes w in
    if is_remote_at url (get_elem? w.objects a)
    then (on_client a (λ o. record o { remote_id = id }) w, true)
    else rest

unfoldable pub check_remote_exist : Bytes → Bytes → Broker → Broker × Bool
unfolding remote_exists
check_remote_exist id url w = remote_exists id url w.remotes w

-- connectRouter up to its first call of net.Dial
unfoldable pub connect_router : Bytes → Bytes → Broker → Broker
unfolding check_node_exist
connect_router id url w =
    if check_node_exist id url w then record w { dials = w.dials ++ route id url ∷ [] } else w

unfoldable pub connect_unless : Bytes → Bytes → Broker × Bool → Broker
unfolding connect_router
connect_unless id url (w, exist) = if exist then w else connect_router id url w

-- One turn of the loop of ProcessInfo
unfoldable pub process_route : Bytes → Option Bytes → Broker → Broker
unfolding check_remote_exist connect_unless
process_route id none w = w
process_route id (some url) w =
    if id == w.id then w else connect_unless id url (check_remote_exist id url w)

unfoldable pub process_routes : Assoc Bytes (Option Bytes) → Broker → Broker
unfolding process_route
process_routes [] w = w
process_routes ((id, url) ∷ routes) w = process_routes routes (process_route id url w)

-- `routes` is what simplejson reads in the payload, none where that fails.
unfoldable pub process_read : Option (Assoc Bytes (Option Bytes)) → Broker → Broker
unfolding process_routes
process_read none w = w
process_read (some routes) w = process_routes routes (record w { nodes = routes })

abbrev pub has_conn : Option ClientObject → Bool
has_conn none = false
has_conn (some o) = o.state.conn

unfoldable pub process_info :
    (Bytes → Option (Assoc Bytes (Option Bytes))) → ℕ → PublishPacket → Broker → Broker
unfolding process_read
process_info parse a packet w =
    if has_conn (get_elem? w.objects a) then process_read (parse packet.payload) w else w

-- The topics and their QoS of a client's subscriptions
unfoldable pub subs_of_map : Broker → Assoc Bytes ℕ → List Bytes × List ℕ
subs_of_map w [] = ([], [])
subs_of_map w ((t, p) ∷ subs) =
    let (topics, qoss) = subs_of_map w subs in
    elim (get_elem? w.subscriptions p) [
      | none ↦ (topics, qoss)
      | some s ↦ (s.topic ∷ topics, s.qos ∷ qoss)
    ]

unfoldable pub subs_of_clients : Broker → Assoc Bytes ℕ → List Bytes × List ℕ
unfolding subs_of_map
subs_of_clients w [] = ([], [])
subs_of_clients w ((id, a) ∷ clients) =
    let (topics, qoss) = subs_of_clients w clients in
    elim (get_elem? w.objects a) [
      | none ↦ (topics, qoss)
      | some o ↦ let (ts, qs) = subs_of_map w o.sub_map in (ts ++ topics, qs ++ qoss)
    ]

module _ (env : Env) where
  -- SendLocalSubsToRouter
  unfoldable pub send_local_subs : ℕ → Broker → Broker
  unfolding subs_of_clients write_packet
  send_local_subs a w =
      let (topics, qoss) = subs_of_clients w w.clients in
      if is_empty topics
      then w
      else (write_packet env a
          (Client.subscribe (record { message_id = 0; topics = topics; qoss = qoss })) w).0

  abbrev pub is_from : Bytes → Option ClientObject → Bool
  is_from id none = false
  is_from id (some o) = o.remote_id == id

  -- BroadcastInfoMessage
  unfoldable pub write_info : Bytes → PublishPacket → Assoc Bytes ℕ → Broker → Broker
  unfolding write_packet
  write_info id msg [] w = w
  write_info id msg ((k, a) ∷ routes) w = write_info id msg routes (
      if is_from id (get_elem? w.objects a)
      then w
      else (write_packet env a (Client.publish msg) w).0)

  unfoldable pub broadcast_info : Bytes → PublishPacket → Broker → Broker
  unfolding write_info
  broadcast_info id msg w = write_info id msg w.routes w
