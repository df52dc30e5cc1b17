-- ===== src/Client/Outgoing/Laws.antt =====
-- broker/comm.go: what the retry timer repeats, and writes to a client that is online.
use hmq.Prelude.{
  ℕ, ◌-◌, ◌≡◌, refl, sym, ap, ap₂, subst, ◌∙◌, inl, inr, Bool, true, false, ◌||◌, not, Option, none,
  some, List, [], ◌∷◌, ◌++◌, append-nil, append_assoc, nat_eq, leb, if◌then◌else◌, is_empty,
  Bool-cases,
}
use hmq.Prelude.Assoc.{Assoc}
use hmq.Client.{
  ControlPacket, publish, pubrel, connected, InflightStatus, published, pubrelled, InflightElem,
  Client, retry_interval, written, write_on, writer_packet,
}
use hmq.Client.Outgoing.{
  ensure_timer, ensure_retry_timer, reset_retry_timer, resend, retry_element, retry_elements,
  retry_delivery,
}

-- A client whose connection is there.
pub record IsOnline (c : Client) : Type 0 where
  pub status : c.status ≡ connected
  pub conn : c.conn ≡ true

pub writer_packet-IsOnline :
    (network : List ControlPacket → ControlPacket → Bool) (packet : ControlPacket) (c : Client)
    → IsOnline c
    → writer_packet network packet c ≡ (written packet c, network c.sent packet)
unfolding writer_packet
writer_packet-IsOnline network packet c o = ap₂ (write_on network packet c) o.status o.conn

-- The packet that repeats an element of the map.
abbrev pub repeat : InflightElem → InflightStatus → ControlPacket
repeat e published = publish e.packet
repeat e pubrelled = pubrel e.packet.message_id

-- What the retry timer is to repeat: the packets of the elements that are as old as its interval.
unfoldable pub due : ℕ → Assoc ℕ InflightElem → List ControlPacket
due now [] = []
due now ((id, e) ∷ es) =
    let rest = due now es in
    if leb retry_interval (now - e.timestamp) then repeat e e.status ∷ rest else rest

-- One step of the timer's loop: it writes some packets, and leaves the rest but the timer, which it
-- sets to at most the interval.
record Wrote (c d : Client) (ps : List ControlPacket) : Type 0 where
  sent : d.sent ≡ c.sent ++ ps
  status : d.status ≡ c.status
  conn : d.conn ≡ c.conn

ensure_timer-Wrote : (i t : Option ℕ) (c : Client) → Wrote c (ensure_timer i c t) []
ensure_timer-Wrote i none c = record { sent = sym (append-nil c.sent); status = refl; conn = refl }
ensure_timer-Wrote i (some t) c = record {
  sent = sym (append-nil c.sent);
  status = refl;
  conn = refl;
}

resend-Wrote :
    (network : List ControlPacket → ControlPacket → Bool) (e : InflightElem) (s : InflightStatus)
    (c : Client)
    → IsOnline c
    → Wrote c (resend network e c s) (repeat e s ∷ [])
unfolding resend
resend-Wrote network e published c o =
    rw (writer_packet-IsOnline network (publish e.packet) c o, resend)
      (record { sent = refl; status = refl; conn = refl })
resend-Wrote network e pubrelled c o =
    rw (writer_packet-IsOnline network (pubrel e.packet.message_id) c o, resend)
      (record { sent = refl; status = refl; conn = refl })

Wrote-IsOnline : (c d : Client) (ps : List ControlPacket) → Wrote c d ps → IsOnline c → IsOnline d
Wrote-IsOnline c d ps w o = record { status = w.status ∙ o.status; conn = w.conn ∙ o.conn }

retry_elements-Wrote :
    (network : List ControlPacket → ControlPacket → Bool) (now : ℕ) (es : Assoc ℕ InflightElem)
    (c : Client)
    → IsOnline c
    → Wrote c (retry_elements network now es c).1 (due now es)
unfolding retry_elements retry_element due ensure_retry_timer
retry_elements-Wrote network now [] c o = record {
  sent = sym (append-nil c.sent);
  status = refl;
  conn = refl;
}
retry_elements-Wrote network now ((id, e) ∷ es) c o =
    elim (Bool-cases (leb retry_interval (now - e.timestamp))) [
      | inl b ↦
          let w = resend-Wrote network e e.status c o in
          let ih =
            retry_elements-Wrote network now es (resend network e c e.status)
              (Wrote-IsOnline c _ _ w o) in
          rw b (record {
            sent =
                ih.sent
                ∙ ap (λ xs. xs ++ due now es) w.sent
                ∙ append_assoc c.sent (repeat e e.status ∷ []) (due now es);
            status = ih.status ∙ w.status;
            conn = ih.conn ∙ w.conn;
          })
      | inr b ↦
          let i = some (retry_interval - (now - e.timestamp)) in
          let w = ensure_timer-Wrote i c.retry_timer c in
          let ih =
            retry_elements-Wrote network now es (ensure_timer i c c.retry_timer)
              (Wrote-IsOnline c _ _ w o) in
          rw b (record {
            sent = ih.sent ∙ ap (λ xs. xs ++ due now es) (w.sent ∙ append-nil c.sent);
            status = ih.status ∙ w.status;
            conn = ih.conn ∙ w.conn;
          })
    ]

timer_armed :
    (c : Client) (t : Option ℕ)
    → c.retry_timer ≡ t
    → (i : ℕ) × ((ensure_timer none c t).retry_timer ≡ some i)
timer_armed c (some i) e = (i, e)
timer_armed c none e = (retry_interval, refl)

-- The retry timer of a client that is online and has messages in flight writes again, in the map's
-- order, the PUBLISH or the PUBREL of every element that is at least as old as the interval, and
-- nothing else; and the timer runs again.
pub retry_delivery-due :
    (network : List ControlPacket → ControlPacket → Bool) (now : ℕ) (c : Client)
    → IsOnline c
    → is_empty c.inflight ≡ false
    → let d = retry_delivery network now c in
      (d.sent ≡ c.sent ++ due now c.inflight) × ((i : ℕ) × (d.retry_timer ≡ some i))
unfolding retry_delivery ensure_retry_timer reset_retry_timer
retry_delivery-due network now c o full =
    let c' = record c { retry_timer = none } in
    let r = retry_elements network now c.inflight c' in
    let w =
      retry_elements-Wrote network now c.inflight c'
        (record { status = o.status; conn = o.conn }) in
    let d = record r.1 { inflight = r.0 } in
    let timer = ensure_timer-Wrote none d.retry_timer d in
    rw full (
      subst
        (λ b.
          ((if not b || false then c' else ensure_timer none d d.retry_timer).sent
            ≡ c.sent ++ due now c.inflight)
          × ((i : ℕ) × ((if not b || false
                  then c'
                  else ensure_timer none d d.retry_timer).retry_timer
                ≡ some i)))
        (sym o.conn) (timer.sent ∙ append-nil d.sent ∙ w.sent, timer_armed d d.retry_timer refl))
