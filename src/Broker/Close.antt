-- ===== src/Broker/Close.antt =====
-- broker/client.go, Close, and broker/broker.go, removeClient.
use hmq.Prelude.{ℕ, false, Option, none, some, [], ◌∷◌, ◌++◌, Bytes, bytes_eq}
use hmq.Prelude.Assoc.{Assoc, delete}
use hmq.Prelude.Heap.{get_elem?}
use hmq.Packets.{PublishPacket}
use hmq.Bridge
use hmq.Client.{Status, connected, disconnected, bridge_event}
use hmq.Broker.{
  ClientType, client, router, remote, cluster, ClientObject, discovery, route, Broker, Env,
  on_client,
}
use hmq.Broker.Deliver.{publish_message, broadcast_unsubscribe, notify}
use hmq.Broker.Subscribe.{drop_from_topics}

unfoldable pub remove_client : ClientType → Bytes → Broker → Broker
remove_client client id w = record w { clients = delete id w.clients }
remove_client router id w = record w { routes = delete id w.routes }
remove_client remote id w = record w { remotes = delete id w.remotes }
remove_client cluster id w = w

-- The loop over the client's subscriptions
unfoldable pub drop_each : Assoc Bytes ℕ → Broker → Broker
unfolding drop_from_topics
drop_each [] w = w
drop_each ((t, p) ∷ subs) w = drop_each subs (drop_from_topics p w)

-- The calls of ConnectToDiscovery and connectRouter
unfoldable pub reconnect : ClientObject → ClientType → Broker → Broker
reconnect o cluster w = record w { dials = w.dials ++ discovery ∷ [] }
reconnect o remote w = record w { dials = w.dials ++ route o.remote_id o.remote_url ∷ [] }
reconnect o typ w = w

module _ (env : Env) where
  -- The status, the event for the bridge, and the connection
  abbrev pub hang_up : ClientObject → ClientObject
  hang_up o = record o {
    state =
        record (bridge_event env.now Bridge.disconnect [] []
          (record o.state { status = disconnected })) { conn = false };
  }

  unfoldable pub announce_closed : ClientType → Bytes → Assoc Bytes ℕ → Broker → Broker
  unfolding broadcast_unsubscribe notify
  announce_closed client id subs w = notify env id false (broadcast_unsubscribe env subs w)
  announce_closed typ id subs w = w

  unfoldable pub publish_will : Option PublishPacket → Broker → Broker
  unfolding publish_message
  publish_will none w = w
  publish_will (some msg) w = publish_message env msg w

  unfoldable pub close_object : ℕ → ClientObject → Status → Broker → Broker
  unfolding remove_client drop_each announce_closed publish_will reconnect
  close_object a o disconnected w = w
  close_object a o connected w =
      let hung_up = on_client a hang_up w in
      let removed = remove_client o.typ o.state.client_id hung_up in
      let dropped = drop_each o.sub_map removed in
      let announced = announce_closed o.typ o.state.client_id o.sub_map dropped in
      reconnect o o.typ (publish_will o.will_msg announced)

  unfoldable pub close : ℕ → Broker → Broker
  unfolding close_object
  close a w = elim (get_elem? w.objects a) [ none ↦ w | some o ↦ close_object a o o.state.status w ]
