-- ===== src/Client/Incoming.antt =====
-- The messages a client sends: client.go's processClientPublish and the set of QoS 2 identifiers
-- that wait for a PUBREL. Times are in seconds.
pub mod Laws
use hmq.Prelude.{
  ℕ, ◌-◌, Bool, true, false, Option, none, some, List, [], ◌∷◌, ◌++◌, Bytes, ◌==◌, nat_eq, ltb, leb,
  not, if◌then◌else◌, length,
}
use hmq.Prelude.Assoc.{Assoc, lookup, insert, delete}
use hmq.Packets.{PublishPacket}
use hmq.Bridge
use hmq.Client.{
  ControlPacket, puback, pubrec, pubcomp, Status, connected, disconnected, Client, bridge_event,
  await_rel_timeout, writer_packet,
}

unfoldable pub is_awaiting_full : Client → Bool
is_awaiting_full c =
    if c.max_awaiting_rel == 0
    then false
    else if ltb (length c.awaiting_rel) c.max_awaiting_rel
    then false
    else true

-- The Boolean is whether the identifier is registered: no error.
unfoldable pub register_publish_packet_id : ℕ → ℕ → Client → Client × Bool
unfolding is_awaiting_full
register_publish_packet_id now id c =
    if is_awaiting_full c then (c, false) else elim (lookup id c.awaiting_rel) [
      | some t ↦ (c, false)
      | none ↦ (record c { awaiting_rel = insert id now c.awaiting_rel }, true)
    ]

-- The loop of expireAwaitingRel, which deletes from the map it ranges over.
unfoldable pub expire_each : ℕ → Assoc ℕ ℕ → Assoc ℕ ℕ → Assoc ℕ ℕ
expire_each now [] m = m
expire_each now ((id, t) ∷ es) m =
    expire_each now es (if leb await_rel_timeout (now - t) then delete id m else m)

unfoldable pub expire_awaiting_rel : ℕ → Client → Client
unfolding expire_each
expire_awaiting_rel now c = record c {
  awaiting_rel = expire_each now c.awaiting_rel c.awaiting_rel;
}

unfoldable pub pub_rel : ℕ → Client → Client × Bool
pub_rel id c = elim (lookup id c.awaiting_rel) [
  | some t ↦ (record c { awaiting_rel = delete id c.awaiting_rel }, true)
  | none ↦ (c, false)
]

-- Broker.Publish with the event of a PUBLISH
abbrev pub bridge_publish : ℕ → PublishPacket → Client → Client
bridge_publish now packet c = bridge_event now Bridge.publish packet.topic_name packet.payload c

module _ (network : List ControlPacket → ControlPacket → Bool) where
  -- The branch of QoS 2, on what registerPublishPacketId returns.
  unfoldable pub answer_registered : ℕ → Client × Bool → Client × Bool
  unfolding writer_packet
  answer_registered id (c, b) = if b then writer_packet network (pubrec id) c else (c, false)

  -- The switch on the QoS. ProcessPublishMessage stands at the end of each branch that calls it.
  unfoldable pub answer_by_qos : ℕ → PublishPacket → Client → Client × Bool
  unfolding writer_packet register_publish_packet_id answer_registered
  answer_by_qos now packet c =
      if packet.qos == 0
      then (c, true)
      else if packet.qos == 1
      then writer_packet network (puback packet.message_id) c
      else if packet.qos == 2
      then answer_registered packet.message_id (register_publish_packet_id now packet.message_id c)
      else (c, false)

  -- processClientPublish up to its call of ProcessPublishMessage: the client, and whether the
  -- message is processed. `authorized` is the answer of CheckTopicAuth for the action PUB, the
  -- client and the topic.
  unfoldable pub admit_client_publish : Bool → ℕ → PublishPacket → Client → Client × Bool
  unfolding answer_by_qos
  admit_client_publish authorized now packet c =
      if not authorized then (c, false) else answer_by_qos now packet (bridge_publish now packet c)

  unfoldable pub answer_router_qos : PublishPacket → Client → Status → Client × Bool
  unfolding writer_packet
  answer_router_qos packet c disconnected = (c, false)
  answer_router_qos packet c connected =
      if packet.qos == 0
      then (c, true)
      else if packet.qos == 1
      then writer_packet network (puback packet.message_id) c
      else (c, false)

  -- The same of processRouterPublish
  unfoldable pub admit_router_publish : PublishPacket → Client → Client × Bool
  unfolding answer_router_qos
  admit_router_publish packet c = answer_router_qos packet c c.status

  -- ProcessMessage's branch for PUBREL
  unfoldable pub process_pubrel : ℕ → Client → Client
  unfolding writer_packet pub_rel
  process_pubrel id c = (writer_packet network (pubcomp id) (pub_rel id c).0).0
