-- ===== src/Broker/Dialled.antt =====
-- broker/broker.go, ConnectToDiscovery and connectRouter, behind the net.Dial that succeeds, and
-- broker/info.go, SendConnect, SendInfo and StartPing.
use hmq.Prelude.{ℕ, Bool, true, false, none, [], ◌∷◌, ◌++◌, Bytes, bytes_eq, length, if◌then◌else◌}
use hmq.Prelude.Assoc.{insert}
use hmq.Prelude.Heap.{get_elem?}
use hmq.Client
use hmq.Client.{ControlPacket}
use hmq.Broker.{remote, cluster, Broker, Env}
use hmq.Broker.Close.{close}
use hmq.Broker.Cluster.{connect_packet, new_info}
use hmq.Broker.Connect.{new_object}
use hmq.Broker.Deliver.{write_packet}
use hmq.Broker.Subscribe.{is_online}

module _ (env : Env) where
  -- A packet of SendConnect or SendInfo
  unfoldable pub send_online : ℕ → ControlPacket → Broker → Broker
  unfolding write_packet
  send_online a packet w =
      if is_online (get_elem? w.objects a) then (write_packet env a packet w).0 else w

  unfoldable pub send_connect : ℕ → Bytes → Broker → Broker
  unfolding send_online connect_packet
  send_connect a client_id w = send_online a (Client.connect (connect_packet client_id)) w

  unfoldable pub send_info : ℕ → Bytes → Broker → Broker
  unfolding send_online new_info
  send_info a url w = send_online a (Client.publish (new_info w.id url)) w

  -- ConnectToDiscovery, over the address of the other side and the broker's own.
  unfoldable pub dialled_discovery : Bytes → Bytes → Broker → Broker
  unfolding new_object send_connect send_info
  dialled_discovery remote_ip url w =
      let a = length w.objects in
      let o = new_object cluster w.id [] remote_ip none in
      send_info a url (send_connect a w.id (record w { objects = w.objects ++ o ∷ [] }))

  -- connectRouter, with the identifier that is made up for the new client.
  unfoldable pub dialled_router : Bytes → Bytes → Bytes → Bytes → Broker → Broker
  unfolding new_object send_connect
  dialled_router id addr client_id remote_ip w =
      let a = length w.objects in
      let o = record (new_object remote client_id [] remote_ip none) {
        remote_id = id;
        remote_url = addr;
      } in
      send_connect a client_id
        (record w { objects = w.objects ++ o ∷ []; remotes = insert client_id a w.remotes })

  -- One tick of StartPing
  unfoldable pub closed_unless : ℕ → Broker × Bool → Broker
  unfolding close
  closed_unless a (w, true) = w
  closed_unless a (w, false) = close env a w

  unfoldable pub ping : ℕ → Broker → Broker
  unfolding closed_unless write_packet
  ping a w = closed_unless a (write_packet env a Client.pingreq w)
