-- ===== src/Client/Link.antt =====
-- The connection of a client: no call of its delivery state opens it or, while it stands, closes it.
use hmq.Prelude.{
  ℕ, ◌-◌, ◌∷◌, leb, not, ◌||◌, is_empty, nat_eq, ◌≡◌, refl, ◌∙◌, Bool, true, false, Option, none,
  some, List, [], Bool-cases, Option-cases, inl, inr, arith,
}
use hmq.Prelude.Assoc.{Assoc, lookup}
use hmq.Packets.{PublishPacket}
use hmq.Client
use hmq.Client.{
  ControlPacket, Client, Status, connected, disconnected, InflightStatus, published, pubrelled,
  InflightElem, retry_interval, write_on, writer_packet,
}
use hmq.Client.Incoming.{
  register_publish_packet_id, answer_registered, answer_by_qos, admit_client_publish,
  admit_router_publish, answer_router_qos, expire_awaiting_rel, pub_rel, process_pubrel,
  bridge_publish,
}
use hmq.Client.Outgoing.{
  resend, retry_element, retry_elements, retry_delivery, reset_retry_timer, ensure_timer,
  ensure_retry_timer, publish_to, process_puback, process_pubrec, process_pubcomp, process_ping,
  received, in_flight,
}

-- A client that is connected has a connection.
abbrev pub IsLive : Client → Type 0
IsLive c = c.status ≡ connected → c.conn ≡ true

abbrev pub Keeps : Client → Client → Type 0
Keeps c d = (d.status ≡ c.status) × (d.conn ≡ c.conn)

Keeps-trans : (a b c : Client) → Keeps a b → Keeps b c → Keeps a c
Keeps-trans a b c (s, n) (s', n') = (s' ∙ s, n' ∙ n)

Keeps-IsLive : (c d : Client) → Keeps c d → IsLive c → IsLive d
Keeps-IsLive c d (s, n) live h = n ∙ live (cc)

ensure_timer-Keeps : (i : Option ℕ) (c : Client) (t : Option ℕ) → Keeps c (ensure_timer i c t)
ensure_timer-Keeps i c none = (refl, refl)
ensure_timer-Keeps i c (some t) = (refl, refl)

module _ (network : List ControlPacket → ControlPacket → Bool) where
  write_on-Keeps :
      (packet : ControlPacket) (c : Client) (s : Status) (n : Bool)
      → c.status ≡ s
      → (s ≡ connected → n ≡ true)
      → Keeps c (write_on network packet c s n).0
  write_on-Keeps packet c disconnected n e live = (refl, refl)
  write_on-Keeps packet c connected true e live = (refl, refl)
  write_on-Keeps packet c connected false e live = absurd (closed (live refl))
    where
      closed : ¬ (false ≡ true)
      closed p = cc

  pub writer_packet-Keeps :
      (packet : ControlPacket) (c : Client) → IsLive c → Keeps c (writer_packet network packet c).0
  unfolding writer_packet
  writer_packet-Keeps packet c live = write_on-Keeps packet c c.status c.conn refl live

  -- A write that comes behind a call that keeps the connection.
  write_after :
      (packet : ControlPacket) (c d : Client)
      → IsLive c
      → Keeps c d
      → Keeps c (writer_packet network packet d).0
  write_after packet c d live k =
      Keeps-trans c d (writer_packet network packet d).0 k
        (writer_packet-Keeps packet d (Keeps-IsLive c d k live))

  pub publish_to-Keeps :
      (now : ℕ) (packet : PublishPacket) (c : Client)
      → IsLive c
      → Keeps c (publish_to network now packet c)
  unfolding publish_to ensure_retry_timer
  publish_to-Keeps now packet c live =
      let sent = writer_packet-Keeps (Client.publish packet) c live in
      let again =
        write_after (Client.publish packet) c (in_flight now packet c) live (refl, refl) in
      let timer =
        ensure_timer-Keeps none
          (writer_packet network (Client.publish packet) (in_flight now packet c)).0
          (writer_packet network (Client.publish packet) (in_flight now packet c)).0.retry_timer in
      ground arith

  pub register-Keeps : (now id : ℕ) (c : Client) → Keeps c (register_publish_packet_id now id c).0
  unfolding register_publish_packet_id
  register-Keeps now id c = ground arith

  answer_registered-Keeps :
      (id : ℕ) (c : Client) (r : Client × Bool)
      → IsLive c
      → Keeps c r.0
      → Keeps c (answer_registered network id r).0
  unfolding answer_registered
  answer_registered-Keeps id c (d, true) live k = write_after (Client.pubrec id) c d live k
  answer_registered-Keeps id c (d, false) live k = k

  answer_by_qos-Keeps :
      (now : ℕ) (packet : PublishPacket) (c : Client)
      → IsLive c
      → Keeps c (answer_by_qos network now packet c).0
  unfolding answer_by_qos
  answer_by_qos-Keeps now packet c live =
      let puback = writer_packet-Keeps (Client.puback packet.message_id) c live in
      let pubrec =
        answer_registered-Keeps packet.message_id c
          (register_publish_packet_id now packet.message_id c) live
          (register-Keeps now packet.message_id c) in
      ground arith

  pub admit_client_publish-Keeps :
      (b : Bool) (now : ℕ) (packet : PublishPacket) (c : Client)
      → IsLive c
      → Keeps c (admit_client_publish network b now packet c).0
  unfolding admit_client_publish
  admit_client_publish-Keeps true now packet c live =
      answer_by_qos-Keeps now packet (bridge_publish now packet c) live
  admit_client_publish-Keeps false now packet c live = (refl, refl)

  answer_router_qos-Keeps :
      (packet : PublishPacket) (c : Client) (s : Status)
      → IsLive c
      → Keeps c (answer_router_qos network packet c s).0
  unfolding answer_router_qos
  answer_router_qos-Keeps packet c disconnected live = (refl, refl)
  answer_router_qos-Keeps packet c connected live =
      let puback = writer_packet-Keeps (Client.puback packet.message_id) c live in ground arith

  pub admit_router_publish-Keeps :
      (packet : PublishPacket) (c : Client)
      → IsLive c
      → Keeps c (admit_router_publish network packet c).0
  unfolding admit_router_publish
  admit_router_publish-Keeps packet c live = answer_router_qos-Keeps packet c c.status live

  pub_rel-Keeps : (id : ℕ) (c : Client) → Keeps c (pub_rel id c).0
  unfolding pub_rel
  pub_rel-Keeps id c = elim (Option-cases (lookup id c.awaiting_rel)) [
    | inl e ↦ rw (e, pub_rel) (refl, refl)
    | inr (t, e) ↦ rw (e, pub_rel) (refl, refl)
  ]

  pub process_pubrel-Keeps :
      (id : ℕ) (c : Client) → IsLive c → Keeps c (process_pubrel network id c)
  unfolding process_pubrel
  process_pubrel-Keeps id c live =
      write_after (Client.pubcomp id) c (pub_rel id c).0 live (pub_rel-Keeps id c)

  received-Keeps : (now id : ℕ) (c : Client) → Keeps c (received now id c)
  received-Keeps now id c = elim (Option-cases (lookup id c.inflight)) [
    | inl e ↦ rw (e, received) (refl, refl)
    | inr (t, e) ↦ rw (e, received) (refl, refl)
  ]

  pub process_pubrec-Keeps :
      (now id : ℕ) (c : Client) → IsLive c → Keeps c (process_pubrec network now id c)
  unfolding process_pubrec
  process_pubrec-Keeps now id c live =
      write_after (Client.pubrel id) c (received now id c) live (received-Keeps now id c)

  pub process_ping-Keeps : (c : Client) → IsLive c → Keeps c (process_ping network c)
  unfolding process_ping
  process_ping-Keeps c live = let sent = writer_packet-Keeps Client.pingresp c live in ground arith

pub process_puback-Keeps : (id : ℕ) (c : Client) → Keeps c (process_puback id c)
unfolding process_puback
process_puback-Keeps id c = elim (Option-cases (lookup id c.inflight)) [
  | inl e ↦ rw (e, process_puback) (refl, refl)
  | inr (t, e) ↦ rw (e, process_puback) (refl, refl)
]

pub process_pubcomp-Keeps : (id : ℕ) (c : Client) → Keeps c (process_pubcomp id c)
unfolding process_pubcomp
process_pubcomp-Keeps id c = (refl, refl)

module _ (network : List ControlPacket → ControlPacket → Bool) where
  resend-Keeps :
      (e : InflightElem) (c : Client) (s : InflightStatus)
      → IsLive c
      → Keeps c (resend network e c s)
  unfolding writer_packet
  resend-Keeps e c published live = writer_packet-Keeps network (Client.publish e.packet) c live
  resend-Keeps e c pubrelled live =
      writer_packet-Keeps network (Client.pubrel e.packet.message_id) c live

  retry_element-Keeps :
      (now : ℕ) (e : InflightElem) (c : Client)
      → IsLive c
      → Keeps c (retry_element network now e c).1
  unfolding retry_element ensure_retry_timer
  retry_element-Keeps now e c live = elim (Bool-cases (leb retry_interval (now - e.timestamp))) [
    | inl b ↦ rw (b, retry_element) (resend-Keeps e c e.status live)
    | inr b ↦
        rw (b, retry_element)
          (ensure_timer-Keeps (some (retry_interval - (now - e.timestamp))) c c.retry_timer)
  ]

  retry_elements-Keeps :
      (now : ℕ) (es : Assoc ℕ InflightElem) (c : Client)
      → IsLive c
      → Keeps c (retry_elements network now es c).1
  unfolding retry_elements
  retry_elements-Keeps now [] c live = (refl, refl)
  retry_elements-Keeps now ((id, e) ∷ es) c live =
      let c' = (retry_element network now e c).1 in
      let k = retry_element-Keeps now e c live in
      Keeps-trans c c' (retry_elements network now es c').1 k
        (retry_elements-Keeps now es c' (Keeps-IsLive c c' k live))

  pub retry_delivery-Keeps :
      (now : ℕ) (c : Client) → IsLive c → Keeps c (retry_delivery network now c)
  unfolding retry_delivery ensure_retry_timer reset_retry_timer
  retry_delivery-Keeps now c live = elim (Bool-cases (not c.conn || is_empty c.inflight)) [
    | inl b ↦ rw (b, retry_delivery) (refl, refl)
    | inr b ↦
        let c' = reset_retry_timer c in
        let r = retry_elements network now c.inflight c' in
        rw (b, retry_delivery)
          (Keeps-trans c r.1 (ensure_timer none (record r.1 { inflight = r.0 }) r.1.retry_timer)
            (retry_elements-Keeps now c.inflight c' live)
            (ensure_timer-Keeps none (record r.1 { inflight = r.0 }) r.1.retry_timer))
  ]

pub expire_awaiting_rel-Keeps : (now : ℕ) (c : Client) → Keeps c (expire_awaiting_rel now c)
unfolding expire_awaiting_rel
expire_awaiting_rel-Keeps now c = (refl, refl)
