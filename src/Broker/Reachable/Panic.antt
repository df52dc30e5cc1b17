-- ===== src/Broker/Reachable/Panic.antt =====
-- broker/client.go, ProcessMessage, on a packet whose text is malformed: `c.conn.Close()`.
use hmq.Prelude.{
  ℕ, ◌≡◌, refl, sym, ap, ◌∙◌, inl, inr, true, false, Option, none, some, some_inj, Bytes,
  Option-cases,
}
use hmq.Prelude.Assoc.{Assoc}
use hmq.Prelude.Heap.{get_elem?}
use hmq.Client.{ControlPacket, connected}
use hmq.Broker.{ClientObject, Broker, Env}
use hmq.Broker.Close.{close}
use hmq.Broker.Message.{dispatch, validate_packet_fields, process_object, process_message, finished}
use hmq.Broker.View.{Link, get_elem?-link}
use hmq.Broker.Agrees.Closing.{link-close}
use hmq.Broker.Reachable.{Reachable, Reachable-Agrees}

module _ (env : Env) (parse : Bytes → Option (Assoc Bytes (Option Bytes))) where
  pub process_message-dispatch :
      (a : ℕ) (packet : ControlPacket) (w : Broker) (o : ClientObject)
      → get_elem? w.objects a ≡ some o
      → validate_packet_fields env.valid_string packet ≡ true
      → (dispatch env parse a o packet w).panicked ≡ false
      → process_message env parse a packet w ≡ some (dispatch env parse a o packet w)
  unfolding process_message process_object finished
  process_message-dispatch a packet w o e b calm =
      rw (e, process_message) (rw (b, process_object) (rw (calm, finished) refl))

  -- In every state that the broker can get to: behind the Close of a client that was connected, the
  -- processing of a packet of that client whose text is malformed panics.
  pub process_message-closed :
      (a : ℕ) (packet : ControlPacket) (w : Broker) (o : ClientObject)
      → Reachable w
      → get_elem? w.objects a ≡ some o
      → o.state.status ≡ connected
      → validate_packet_fields env.valid_string packet ≡ false
      → process_message env parse a packet (close env a w) ≡ none
  unfolding process_message process_object
  process_message-closed a packet w o reach e on bad =
      let w' = close env a w in
      let gone = link-close env a o w (Reachable-Agrees reach) e on in
      elim (Option-cases (get_elem? w'.objects a)) [
        | inl f ↦ rw (f, process_message) refl
        | inr (o', f) ↦
            let conn : o'.state.conn ≡ false =
              ap (λ (l : Link). l.conn)
                (some_inj (sym (get_elem?-link w'.objects a o' f) ∙ gone)) in
            rw (f, process_message) (rw (bad, conn, process_object) refl)
      ]
