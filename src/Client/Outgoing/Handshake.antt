-- ===== src/Client/Outgoing/Handshake.antt =====
-- broker/comm.go and broker/client.go: the handshake of QoS 2 as the broker sends.
use hmq.Prelude.{
  ℕ, ◌≡◌, refl, sym, ap, subst, ◌∙◌, Bool, true, false, ◌||◌, Option, none, some, List, [], ◌∷◌,
  ◌++◌, ◌==◌, nat_eq, if◌then◌else◌, beq_refl,
}
use hmq.Prelude.Assoc.{Assoc, lookup, insert, delete, lookup-insert, lookup-delete}
use hmq.Packets.{PublishPacket}
use hmq.Client.{
  ControlPacket, publish, pubrel, published, pubrelled, InflightElem, Client, writer_packet,
}
use hmq.Client.Outgoing.{
  ensure_timer, ensure_retry_timer, in_flight, released, received, process_pubcomp, publish_to,
  process_pubrec,
}
use hmq.Client.Outgoing.Laws.{IsOnline, writer_packet-IsOnline}

record Left (c d : Client) (sent : List ControlPacket) (inflight : Assoc ℕ InflightElem)
    : Type 0 where
  sent_eq : d.sent ≡ sent
  inflight_eq : d.inflight ≡ inflight
  online : IsOnline d

timer-Left :
    (c d : Client) (t : Option ℕ) → IsOnline d → Left c (ensure_timer none d t) d.sent d.inflight
timer-Left c d none o = record {
  sent_eq = refl;
  inflight_eq = refl;
  online = record { status = o.status; conn = o.conn };
}
timer-Left c d (some i) o = record { sent_eq = refl; inflight_eq = refl; online = o }

elem_of : ℕ → PublishPacket → InflightElem
elem_of now packet = record { status = published; packet = packet; timestamp = now }

written-Left :
    (network : List ControlPacket → ControlPacket → Bool) (p : ControlPacket) (c d : Client)
    → IsOnline d
    → Left c (writer_packet network p d).0 (d.sent ++ p ∷ []) d.inflight
written-Left network p c d o = rw (writer_packet-IsOnline network p d o) (record {
  sent_eq = refl;
  inflight_eq = refl;
  online = record { status = o.status; conn = o.conn };
})

publish_to-Left :
    (network : List ControlPacket → ControlPacket → Bool) (now : ℕ) (packet : PublishPacket)
    (c : Client)
    → (packet.qos == 0) ≡ false
    → (packet.qos == 1 || packet.qos == 2) ≡ true
    → IsOnline c
    → Left c
        (publish_to network now packet c)
        (c.sent ++ publish packet ∷ [])
        (insert packet.message_id (elem_of now packet) c.inflight)
unfolding publish_to ensure_retry_timer elem_of
publish_to-Left network now packet c a b o =
    let d = in_flight now packet c in
    let d' = (writer_packet network (publish packet) d).0 in
    let w =
      written-Left network (publish packet) c d (record { status = o.status; conn = o.conn }) in
    let timer = timer-Left c d' d'.retry_timer w.online in
    rw (a, b)
      (record {
        sent_eq = timer.sent_eq ∙ w.sent_eq;
        inflight_eq = timer.inflight_eq ∙ w.inflight_eq;
        online = timer.online;
      })

received-found :
    (now id : ℕ) (c : Client) (e : InflightElem)
    → lookup id c.inflight ≡ some e
    → received now id c ≡ record c { inflight = insert id (released now e) c.inflight }
received-found now id c e h = rw (h, received) refl

process_pubrec-Left :
    (network : List ControlPacket → ControlPacket → Bool) (now id : ℕ) (c d : Client)
    (e : InflightElem)
    → lookup id d.inflight ≡ some e
    → IsOnline d
    → Left c
        (process_pubrec network now id d)
        (d.sent ++ pubrel id ∷ [])
        (insert id (released now e) d.inflight)
unfolding process_pubrec
process_pubrec-Left network now id c d e h o =
    let d' = record d { inflight = insert id (released now e) d.inflight } in
    subst
      (λ x.
        Left c (writer_packet network (pubrel id) x).0 (d.sent ++ pubrel id ∷ [])
          (insert id (released now e) d.inflight))
      (sym (received-found now id d e h))
      (written-Left network (pubrel id) c d' (record { status = o.status; conn = o.conn }))

lookup-insert_self :
    {V : Type 0} (id : ℕ) (v : V) (m : Assoc ℕ V) → lookup id (insert id v m) ≡ some v
lookup-insert_self id v m =
    lookup-insert id id v m ∙ ap (λ b. if b then some v else lookup id m) (beq_refl id)

lookup-delete_inserted :
    {V : Type 0} (id j : ℕ) (v w : V) (m : Assoc ℕ V)
    → lookup j (delete id (insert id v (insert id w m))) ≡ (if id == j then none else lookup j m)
lookup-delete_inserted id j v w m =
    lookup-delete id j (insert id v (insert id w m))
    ∙ ap (λ o. if id == j then none else o) (lookup-insert id j v (insert id w m))
    ∙ ap (λ o. if id == j then none else if id == j then some v else o) (lookup-insert id j w m)
    ∙ nested (id == j)
  where
    nested :
        (b : Bool)
        → (if b then none else if b then some v else if b then some w else lookup j m)
          ≡ (if b then none else lookup j m)
    nested true = refl
    nested false = refl

-- The handshake of QoS 2 with a client that is online: the PUBLISH is written; the client's PUBREC
-- turns the element in flight into one that waits for the PUBCOMP, and a PUBREL is written; its
-- PUBCOMP takes the element out, and every other element is what it was before.
pub qos2_handshake :
    (network : List ControlPacket → ControlPacket → Bool) (t u : ℕ) (packet : PublishPacket)
    (c : Client) (j : ℕ)
    → packet.qos ≡ 2
    → IsOnline c
    → let id = packet.message_id in
      let sending = publish_to network t packet c in
      let releasing = process_pubrec network u id sending in
      (releasing.sent ≡ (c.sent ++ publish packet ∷ []) ++ pubrel id ∷ [])
      × (lookup id releasing.inflight
          ≡ some (record { status = pubrelled; packet = packet; timestamp = u }))
      × (lookup j (process_pubcomp id releasing).inflight
          ≡ (if id == j then none else lookup j c.inflight))
unfolding process_pubrec process_pubcomp elem_of
qos2_handshake network t u packet c j two o =
    let id = packet.message_id in
    let e = elem_of t packet in
    let w =
      publish_to-Left network t packet c (ap (λ q. q == 0) two) (ap (λ q. q == 1 || q == 2) two)
        o in
    let sending = publish_to network t packet c in
    let there = ap (lookup id) w.inflight_eq ∙ lookup-insert_self id e c.inflight in
    let v = process_pubrec-Left network u id c sending e there w.online in
    let inflight_eq = v.inflight_eq ∙ ap (insert id (released u e)) w.inflight_eq in
    (
      v.sent_eq ∙ ap (λ xs. xs ++ pubrel id ∷ []) w.sent_eq,
      ap (lookup id) v.inflight_eq ∙ lookup-insert_self id (released u e) sending.inflight,
      ap (λ m. lookup j (delete id m)) inflight_eq
          ∙ lookup-delete_inserted id j (released u e) e c.inflight,
    )
