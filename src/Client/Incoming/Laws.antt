-- ===== src/Client/Incoming/Laws.antt =====
-- broker/client.go: a message of QoS 2 from its first PUBLISH to its PUBREL.
use hmq.Prelude.{
  ℕ, ◌≡◌, refl, ap, ◌∙◌, inl, inr, Bool, true, false, none, some, List, [], ◌∷◌, ◌++◌, ◌==◌, nat_eq,
  if◌then◌else◌, beq_refl, Bool-cases,
}
use hmq.Prelude.Assoc.{lookup, insert, delete, lookup-insert, lookup-delete}
use hmq.Packets.{PublishPacket}
use hmq.Client.{
  ControlPacket, pubrec, pubcomp, Status, connected, disconnected, Client, write_on, writer_packet,
}
use hmq.Client.Outgoing.Laws.{IsOnline, writer_packet-IsOnline}
use hmq.Client.Incoming.{
  is_awaiting_full, register_publish_packet_id, pub_rel, bridge_publish, answer_registered,
  answer_by_qos, admit_client_publish, process_pubrel,
}

answer_by_qos-two :
    (network : List ControlPacket → ControlPacket → Bool) (now : ℕ) (packet : PublishPacket)
    (c : Client)
    → packet.qos ≡ 2
    → answer_by_qos network now packet c
      ≡ answer_registered network packet.message_id
          (register_publish_packet_id now packet.message_id c)
unfolding answer_by_qos
answer_by_qos-two network now packet c two =
    rw (ap (λ q. q == 0) two, ap (λ q. q == 1) two, ap (λ q. q == 2) two) refl

register-taken :
    (c : Client) (now id t : ℕ)
    → lookup id c.awaiting_rel ≡ some t
    → register_publish_packet_id now id c ≡ (c, false)
unfolding register_publish_packet_id
register-taken c now id t h = elim (Bool-cases (is_awaiting_full c)) [
  | inl b ↦ rw (b, register_publish_packet_id) refl
  | inr b ↦ rw (b, h, register_publish_packet_id) refl
]

register-free :
    (c : Client) (now id : ℕ)
    → is_awaiting_full c ≡ false
    → lookup id c.awaiting_rel ≡ none
    → register_publish_packet_id now id c
      ≡ (record c { awaiting_rel = insert id now c.awaiting_rel }, true)
unfolding register_publish_packet_id
register-free c now id b h = rw (b, h, register_publish_packet_id) refl

-- A message whose identifier waits is dropped.
admit_client_publish-duplicate :
    (network : List ControlPacket → ControlPacket → Bool) (authorized : Bool) (now t : ℕ)
    (packet : PublishPacket) (c : Client)
    → packet.qos ≡ 2
    → lookup packet.message_id c.awaiting_rel ≡ some t
    → ((admit_client_publish network authorized now packet c).1 ≡ false)
      × ((admit_client_publish network authorized now packet c).0.awaiting_rel ≡ c.awaiting_rel)
unfolding admit_client_publish
admit_client_publish-duplicate network false now t packet c two h = (refl, refl)
admit_client_publish-duplicate network true now t packet c two h =
    let b = bridge_publish now packet c in
    let e =
      answer_by_qos-two network now packet b two
      ∙ ap (answer_registered network packet.message_id)
          (register-taken b now packet.message_id t h) in
    (ap (λ d. d.1) e, ap (λ d. d.0.awaiting_rel) e)

-- A message whose identifier does not wait, of a client that is online and whose set is not full.
admit_client_publish-first :
    (network : List ControlPacket → ControlPacket → Bool) (now : ℕ) (packet : PublishPacket)
    (c : Client)
    → packet.qos ≡ 2
    → IsOnline c
    → is_awaiting_full c ≡ false
    → lookup packet.message_id c.awaiting_rel ≡ none
    → network c.sent (pubrec packet.message_id) ≡ true
    → let d = admit_client_publish network true now packet c in
      (d.1 ≡ true)
      × (d.0.sent ≡ c.sent ++ pubrec packet.message_id ∷ [])
      × (d.0.awaiting_rel ≡ insert packet.message_id now c.awaiting_rel)
unfolding admit_client_publish is_awaiting_full
admit_client_publish-first network now packet c two o free h accepted =
    let id = packet.message_id in
    let b = bridge_publish now packet c in
    let r = record b { awaiting_rel = insert id now c.awaiting_rel } in
    let e =
      answer_by_qos-two network now packet b two
      ∙ ap (answer_registered network packet.message_id) (register-free b now id free h)
      ∙ writer_packet-IsOnline network (pubrec id) r
          (record { status = o.status; conn = o.conn }) in
    (ap (λ d. d.1) e ∙ accepted, ap (λ d. d.0.sent) e, ap (λ d. d.0.awaiting_rel) e)

awaiting_rel-write_on :
    (network : List ControlPacket → ControlPacket → Bool) (p : ControlPacket) (c : Client)
    (s : Status) (b : Bool)
    → (write_on network p c s b).0.awaiting_rel ≡ c.awaiting_rel
awaiting_rel-write_on network p c disconnected b = refl
awaiting_rel-write_on network p c connected true = refl
awaiting_rel-write_on network p c connected false = refl

pub_rel-found :
    (id t : ℕ) (c : Client)
    → lookup id c.awaiting_rel ≡ some t
    → pub_rel id c ≡ (record c { awaiting_rel = delete id c.awaiting_rel }, true)
unfolding pub_rel
pub_rel-found id t c h = rw (h, pub_rel) refl

process_pubrel-released :
    (network : List ControlPacket → ControlPacket → Bool) (id t : ℕ) (c : Client)
    → lookup id c.awaiting_rel ≡ some t
    → lookup id (process_pubrel network id c).awaiting_rel ≡ none
unfolding process_pubrel writer_packet
process_pubrel-released network id t c h =
    let d = (pub_rel id c).0 in
    ap (lookup id) (
      awaiting_rel-write_on network (pubcomp id) d d.status d.conn
      ∙ ap (λ x. x.0.awaiting_rel) (pub_rel-found id t c h))
    ∙ lookup-delete id id c.awaiting_rel
    ∙ ap (λ b. if b then none else lookup id c.awaiting_rel) (beq_refl id)

-- A QoS 2 message that is authorised, whose identifier does not wait, from a client that is
-- online, whose set of identifiers is not full and whose connection takes the PUBREC, is
-- processed; a PUBLISH of QoS 2 with its identifier that comes next is not processed and leaves
-- the identifier waiting; a PUBREL after that frees it.
pub qos2_processed_once :
    (network : List ControlPacket → ControlPacket → Bool) (authorized : Bool) (now later : ℕ)
    (packet again : PublishPacket) (c : Client)
    → packet.qos ≡ 2
    → again.qos ≡ 2
    → again.message_id ≡ packet.message_id
    → IsOnline c
    → is_awaiting_full c ≡ false
    → lookup packet.message_id c.awaiting_rel ≡ none
    → network c.sent (pubrec packet.message_id) ≡ true
    → let once = admit_client_publish network true now packet c in
      let twice = admit_client_publish network authorized later again once.0 in
      (once.1 ≡ true)
      × (once.0.sent ≡ c.sent ++ pubrec packet.message_id ∷ [])
      × (twice.1 ≡ false)
      × (lookup packet.message_id twice.0.awaiting_rel ≡ some now)
      × (lookup packet.message_id (process_pubrel network packet.message_id twice.0).awaiting_rel
          ≡ none)
qos2_processed_once network authorized now later packet again c two two' same o free h accepted =
    let id = packet.message_id in
    let once = admit_client_publish network true now packet c in
    let (processed, sent, awaiting) =
      admit_client_publish-first network now packet c two o free h accepted in
    let waits =
      ap (lookup id) awaiting
      ∙ lookup-insert id id now c.awaiting_rel
      ∙ ap (λ b. if b then some now else lookup id c.awaiting_rel) (beq_refl id) in
    let (dropped, kept) =
      admit_client_publish-duplicate network authorized later now again once.0 two'
        (ap (λ k. lookup k once.0.awaiting_rel) same ∙ waits) in
    let still = ap (lookup id) kept ∙ waits in
    (
      processed,
      sent,
      dropped,
      still,
      process_pubrel-released network id now
          (admit_client_publish network authorized later again once.0).0 still,
    )
