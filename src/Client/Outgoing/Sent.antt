-- ===== src/Client/Outgoing/Sent.antt =====
-- What a client has been sent: a write adds to it, and takes nothing away.
use hmq.Prelude.{
  ℕ, ◌≡◌, refl, inl, inr, Bool, true, false, ◌||◌, ◌==◌, nat_eq, Option, none, some, List, [], ◌∷◌,
  Memᴰ, Bool-cases,
}
use mathlib.Core.List.Memᴰ
use hmq.Client
use hmq.Client.{ControlPacket, Client, Status, connected, disconnected, writer_packet, write_on}
use hmq.Client.Outgoing.{publish_to, ensure_timer, ensure_retry_timer, in_flight}
use hmq.Packets.{PublishPacket}
use hmq.Topics.MemTopics.{valid_qos}

module _ (network : List ControlPacket → ControlPacket → Bool) where
  -- What has been handed to the connection stays handed to it.
  write_on-sent :
      (packet x : ControlPacket) (c : Client) (s : Status) (n : Bool)
      → Memᴰ x c.sent
      → Memᴰ x (write_on network packet c s n).0.sent
  write_on-sent packet x c connected true i = Memᴰ.append_left (packet ∷ []) i
  write_on-sent packet x c connected false i = i
  write_on-sent packet x c disconnected n i = i

  writer_packet-sent :
      (packet x : ControlPacket) (c : Client)
      → Memᴰ x c.sent
      → Memᴰ x (writer_packet network packet c).0.sent
  unfolding writer_packet
  writer_packet-sent packet x c i = write_on-sent packet x c c.status c.conn i

  write_on-hands :
      (packet : ControlPacket) (c : Client) (s : Status) (n : Bool)
      → s ≡ connected
      → n ≡ true
      → Memᴰ packet (write_on network packet c s n).0.sent
  write_on-hands packet c connected true on cn = Memᴰ.append_right c.sent (Memᴰ.head refl)
  write_on-hands packet c connected false on cn = cc
  write_on-hands packet c disconnected n on cn = cc

  writer_packet-hands :
      (packet : ControlPacket) (c : Client)
      → c.status ≡ connected
      → c.conn ≡ true
      → Memᴰ packet (writer_packet network packet c).0.sent
  unfolding writer_packet
  writer_packet-hands packet c on cn = write_on-hands packet c c.status c.conn on cn

  ensure_timer-sent :
      (x : ControlPacket) (c : Client) (t : Option ℕ)
      → Memᴰ x c.sent
      → Memᴰ x (ensure_timer none c t).sent
  ensure_timer-sent x c none i = i
  ensure_timer-sent x c (some t) i = i

  pub publish_to-sent :
      (now : ℕ) (packet : PublishPacket) (x : ControlPacket) (c : Client)
      → Memᴰ x c.sent
      → Memᴰ x (publish_to network now packet c).sent
  unfolding publish_to ensure_retry_timer
  publish_to-sent now packet x c i = elim (Bool-cases (packet.qos == 0)) [
    | inl b ↦ rw (b, publish_to) (writer_packet-sent (Client.publish packet) x c i)
    | inr b ↦ elim (Bool-cases (packet.qos == 1 || packet.qos == 2)) [
      | inl b' ↦
          let c' = (writer_packet network (Client.publish packet) (in_flight now packet c)).0 in
          rw (b, b', publish_to)
            (ensure_timer-sent x c' c'.retry_timer
              (writer_packet-sent (Client.publish packet) x (in_flight now packet c) i))
      | inr b' ↦ rw (b, b', publish_to) i
    ]
  ]

  pub publish_to-hands :
      (now : ℕ) (packet : PublishPacket) (c : Client)
      → valid_qos packet.qos ≡ true
      → c.status ≡ connected
      → c.conn ≡ true
      → Memᴰ (Client.publish packet) (publish_to network now packet c).sent
  unfolding publish_to ensure_retry_timer valid_qos
  publish_to-hands now packet c q on cn = elim (Bool-cases (packet.qos == 0)) [
    | inl b ↦ rw (b, publish_to) (writer_packet-hands (Client.publish packet) c on cn)
    | inr b ↦
        let b' : (packet.qos == 1 || packet.qos == 2) ≡ true = rw b at q in
        let c' = (writer_packet network (Client.publish packet) (in_flight now packet c)).0 in
        rw (b, b', publish_to)
          (ensure_timer-sent (Client.publish packet) c' c'.retry_timer
            (writer_packet-hands (Client.publish packet) (in_flight now packet c) on cn))
  ]
