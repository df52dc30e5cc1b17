-- ===== src/Client/Outgoing.antt =====
-- The messages on their way to a client: comm.go's publish and its retry timer, and the branches of
-- client.go's ProcessMessage for the acknowledgements. Times are in seconds.
pub mod Sent
pub mod Laws
pub mod Handshake
use hmq.Prelude.{
  ℕ, ◌-◌, Bool, true, false, Option, none, some, List, [], ◌∷◌, ◌==◌, nat_eq, ltb, leb, ◌||◌, ◌&&◌,
  if◌then◌else◌, is_empty, not,
}
use hmq.Prelude.Assoc.{Assoc, lookup, insert, delete}
use hmq.Packets.{PublishPacket}
use hmq.Client.{
  ControlPacket, publish, pubrel, pingresp, Status, connected, disconnected, InflightStatus,
  published, pubrelled, InflightElem, Client, retry_interval, writer_packet,
}

-- `ensureRetryTimer(interval...)`, whose callers give one interval or none.
abbrev pub timer_interval : Option ℕ → ℕ
timer_interval none = retry_interval
timer_interval (some i) = i

abbrev pub ensure_timer : Option ℕ → Client → Option ℕ → Client
ensure_timer interval c (some t) = c
ensure_timer interval c none = record c { retry_timer = some (timer_interval interval) }

unfoldable pub ensure_retry_timer : Option ℕ → Client → Client
ensure_retry_timer interval c = ensure_timer interval c c.retry_timer

unfoldable pub reset_retry_timer : Client → Client
reset_retry_timer c = record c { retry_timer = none }

abbrev pub in_flight : ℕ → PublishPacket → Client → Client
in_flight now packet c = record c {
  inflight =
      insert packet.message_id (record { status = published; packet = packet; timestamp = now })
        c.inflight;
}

abbrev pub released : ℕ → InflightElem → InflightElem
released now e = elim e.status [
  | published ↦ record e { status = pubrelled; timestamp = now }
  | pubrelled ↦ e
]

-- The element is changed where it stands in the map.
abbrev pub received : ℕ → ℕ → Client → Client
received now id c = elim (lookup id c.inflight) [
  | some e ↦ record c { inflight = insert id (released now e) c.inflight }
  | none ↦ c
]

unfoldable pub process_puback : ℕ → Client → Client
process_puback id c = elim (lookup id c.inflight) [
  | some e ↦ record c { inflight = delete id c.inflight }
  | none ↦ c
]

unfoldable pub process_pubcomp : ℕ → Client → Client
process_pubcomp id c = record c { inflight = delete id c.inflight }

module _ (network : List ControlPacket → ControlPacket → Bool) where
  -- comm.go's publish, to the subscription's client.
  unfoldable pub publish_to : ℕ → PublishPacket → Client → Client
  unfolding writer_packet ensure_retry_timer
  publish_to now packet c =
      if packet.qos == 0
      then (writer_packet network (publish packet) c).0
      else if packet.qos == 1 || packet.qos == 2
      then ensure_retry_timer none
          (writer_packet network (publish packet) (in_flight now packet c)).0
      else c

  abbrev pub resend : InflightElem → Client → InflightStatus → Client
  unfolding writer_packet
  resend e c published = (writer_packet network (publish e.packet) c).0
  resend e c pubrelled = (writer_packet network (pubrel e.packet.message_id) c).0

  -- One element of the loop of retryDelivery: the element, and the client, after it.
  unfoldable pub retry_element : ℕ → InflightElem → Client → InflightElem × Client
  unfolding writer_packet ensure_retry_timer
  retry_element now e c =
      if leb retry_interval (now - e.timestamp)
      then (record e { timestamp = now }, resend e c e.status)
      else (e, ensure_retry_timer (some (retry_interval - (now - e.timestamp))) c)

  unfoldable pub retry_elements : ℕ → Assoc ℕ InflightElem → Client → Assoc ℕ InflightElem × Client
  unfolding retry_element
  retry_elements now [] c = ([], c)
  retry_elements now ((id, e) ∷ es) c =
      let (e', c') = retry_element now e c in
      let (es', c'') = retry_elements now es c' in ((id, e') ∷ es', c'')

  -- The elements are shared with the map, so that it has their new timestamps.
  unfoldable pub retry_delivery : ℕ → Client → Client
  unfolding retry_elements ensure_retry_timer reset_retry_timer
  retry_delivery now c =
      let c' = reset_retry_timer c in
      if not c'.conn || is_empty c'.inflight
      then c'
      else let (es, c'') = retry_elements now c'.inflight c' in
        ensure_retry_timer none (record c'' { inflight = es })

  unfoldable pub process_pubrec : ℕ → ℕ → Client → Client
  unfolding writer_packet
  process_pubrec now id c = (writer_packet network (pubrel id) (received now id c)).0

  unfoldable pub process_ping : Client → Client
  unfolding writer_packet
  process_ping c = elim c.status [
    | disconnected ↦ c
    | connected ↦ (writer_packet network pingresp c).0
  ]
