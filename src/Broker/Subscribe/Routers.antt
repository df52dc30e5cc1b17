-- ===== src/Broker/Subscribe/Routers.antt =====
-- broker/client.go: processRouterSubscribe and processRouterUnSubscribe.
use hmq.Prelude.{
  ℕ, Bool, Option, none, some, List, [], ◌∷◌, Bytes, bytes_eq, length, ltb, if◌then◌else◌,
}
use hmq.Prelude.Heap.{get_elem?}
use hmq.Packets.{SubscribePacket, UnsubscribePacket}
use hmq.Client
use hmq.Client.{ControlPacket, Status, connected, disconnected, bridge_event, writer_packet}
use hmq.Client.SubMap.{add_sub_map, del_sub_map}
use hmq.Topics.Level.{TopicError}
use hmq.Topics.MemTopics.{qos_failure}
use hmq.Broker.{Subscription, ClientObject, Broker, Env, on_client, panic}
use hmq.Broker.Deliver.{write_packet}
use hmq.Broker.Subscribe.{
  share_of, drop_from_topics, forget, sub_of, subscribe_new, remember, is_online, first, tail,
}

-- One turn of the loop of processRouterSubscribe
unfoldable pub count_route : Bytes → ClientObject → ClientObject
unfolding add_sub_map
count_route topic o = record o { route_sub_map = add_sub_map topic o.route_sub_map }

unfoldable pub router_subscribed :
    ℕ → Bytes → ℕ → Subscription → Broker × ℕ × Option TopicError → Broker × ℕ
unfolding count_route
router_subscribed a t p s (w, rqos, some e) = (w, qos_failure)
router_subscribed a t p s (w, rqos, none) =
    (on_client a (count_route s.topic) (on_client a (remember t p) w), rqos)

-- `qoss[i]` panics where the packet has no QoS for the topic (`none`).
unfoldable pub router_subscribe :
    ℕ → Bytes → Option ℕ → Option (Bool × Bytes × Bytes) → Broker → Broker × ℕ
unfolding subscribe_new router_subscribed
router_subscribe a t qos none w = (w, qos_failure)
router_subscribe a t none (some share) w = (panic w, qos_failure)
router_subscribe a t (some qos) (some (share, group, topic)) w =
    let s : Subscription = record {
      client = a;
      topic = topic;
      qos = qos;
      share = share;
      group_name = group;
    } in
    router_subscribed a t (length w.subscriptions) s (subscribe_new s w)

unfoldable pub router_subscribe_each : ℕ → List Bytes → List ℕ → Broker → Broker × List ℕ
unfolding router_subscribe share_of
router_subscribe_each a [] qoss w = (w, [])
router_subscribe_each a (t ∷ ts) qoss w =
    let (w', code) = router_subscribe a t (first qoss) (share_of t) w in
    let (w'', codes) = router_subscribe_each a ts (tail qoss) w' in (w'', code ∷ codes)

-- One turn of the loop of processRouterUnSubscribe
unfoldable pub uncount_route : Bytes → ClientObject → ClientObject
unfolding del_sub_map
uncount_route topic o = record o { route_sub_map = (del_sub_map topic o.route_sub_map).0 }

unfoldable pub routes_left : Bytes → Option ClientObject → ℕ
unfolding del_sub_map
routes_left topic none = 0
routes_left topic (some o) = (del_sub_map topic o.route_sub_map).1

unfoldable pub router_unsubscribe_one : ℕ → Bytes → Broker → Broker
unfolding drop_from_topics uncount_route routes_left
router_unsubscribe_one a t w = elim (sub_of w a t) [
  | none ↦ w
  | some p ↦
      let w' = on_client a (uncount_route t) w in
      if ltb 0 (routes_left t (get_elem? w.objects a))
      then w'
      else on_client a (forget t) (drop_from_topics p w')
]

unfoldable pub router_unsubscribe_each : ℕ → List Bytes → Broker → Broker
unfolding router_unsubscribe_one
router_unsubscribe_each a [] w = w
router_unsubscribe_each a (t ∷ ts) w = router_unsubscribe_each a ts (router_unsubscribe_one a t w)

module _ (env : Env) where
  unfoldable pub process_router_subscribe : ℕ → SubscribePacket → Broker → Broker
  unfolding router_subscribe_each write_packet
  process_router_subscribe a packet w =
      if is_online (get_elem? w.objects a)
      then (let (w', codes) = router_subscribe_each a packet.topics packet.qoss w in
          (write_packet env a (Client.suback packet.message_id codes) w').0)
      else w

  unfoldable pub process_router_unsubscribe : ℕ → UnsubscribePacket → Broker → Broker
  unfolding router_unsubscribe_each write_packet
  process_router_unsubscribe a packet w =
      if is_online (get_elem? w.objects a)
      then (write_packet env a (Client.unsuback packet.message_id)
          (router_unsubscribe_each a packet.topics w)).0
      else w
