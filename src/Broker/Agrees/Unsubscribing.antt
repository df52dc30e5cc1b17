-- ===== src/Broker/Agrees/Unsubscribing.antt =====
-- broker/client.go: processClientUnSubscribe keeps the invariant.
use hmq.Prelude.{
  ℕ, ◌≡◌, refl, sym, ap, subst, ◌∙◌, Bool, true, false, inl, inr, List, [], ◌∷◌, Bytes, Bool-cases,
  Option-cases,
}
use hmq.Prelude.Heap.{get_elem?, modify}
use hmq.Packets.{UnsubscribePacket}
use hmq.Bridge
use hmq.Client
use hmq.Client.{ControlPacket}
use hmq.Broker.{Broker, Env, on_client}
use hmq.Broker.Deliver.{write_packet}
use hmq.Broker.Subscribe.{
  sub_of, drop_from_topics, forget, session_of, remove_session_topic, is_online, sub_event,
}
use hmq.Broker.Subscribe.Clients.{
  client_unsubscribe_one, client_unsubscribe_each, broadcast_if_written, process_client_unsubscribe,
}
use hmq.Broker.View.{View, view, on_client-link, view-on_client}
use hmq.Broker.View.Writes.{IsQuiet, write_packet-IsQuiet, broadcast-IsQuiet}
use hmq.Broker.Agrees.Links.{forget_link}
use hmq.Broker.Agrees.Steps.{
  Serves, Keeps, Attends, quiet-Agrees, quiet-Serves, sub_of-Owns, detach-Serves, online-Serves,
}

view-remove_session_topic :
    (a : ℕ) (t : Bytes) (w : Broker) → view (remove_session_topic a t w) ≡ view w
unfolding remove_session_topic
view-remove_session_topic a t w = elim (Option-cases (session_of (get_elem? w.objects a))) [
  | inl e ↦ rw (e, remove_session_topic)
  | inr (s, e) ↦ rw (e, remove_session_topic)
]

-- The session is changed between the store and the map.
pub forget_behind :
    (a : ℕ) (t : Bytes) (w : Broker)
    → view (on_client a (forget t) (remove_session_topic a t w)) ≡ view (on_client a (forget t) w)
forget_behind a t w =
    on_client-link (forget t) (forget_link t) a (remove_session_topic a t w) (λ o e. refl)
    ∙ ap (λ (v : View). record v { links = modify a (forget_link t) v.links })
        (view-remove_session_topic a t w)
    ∙ sym (on_client-link (forget t) (forget_link t) a w (λ o e. refl))

module _ (env : Env) where
  pub client_unsubscribe_one-Serves :
      (a : ℕ) (t : Bytes) → Attends a (client_unsubscribe_one env a t)
  unfolding client_unsubscribe_one
  client_unsubscribe_one-Serves a t w g =
      let w' = on_client a (sub_event env Bridge.unsubscribe t) w in
      let g' : Serves a (view w') =
        quiet-Serves (on_client a (sub_event env Bridge.unsubscribe t)) a w
          (λ w live. view-on_client (sub_event env Bridge.unsubscribe t) a w (λ o e. refl)) g in
      elim (Option-cases (sub_of w' a t)) [
        | inl e ↦ rw (e, client_unsubscribe_one) g'
        | inr (p, e) ↦
            rw (e, client_unsubscribe_one)
              (subst (Serves a) (sym (forget_behind a t (drop_from_topics p w')))
                (detach-Serves a t p w' g' (sub_of-Owns a t p w' g' e)))
      ]

  pub client_unsubscribe_each-Serves :
      (a : ℕ) (ts : List Bytes) → Attends a (client_unsubscribe_each env a ts)
  unfolding client_unsubscribe_each
  client_unsubscribe_each-Serves a [] w g = g
  client_unsubscribe_each-Serves a (t ∷ ts) w g =
      client_unsubscribe_each-Serves a ts (client_unsubscribe_one env a t w)
        (client_unsubscribe_one-Serves a t w g)

  pub broadcast_if_written-IsQuiet :
      (packet : UnsubscribePacket) (b : Bool)
      → IsQuiet (λ w. broadcast_if_written env packet (w, b))
  unfolding broadcast_if_written
  broadcast_if_written-IsQuiet packet false w live = refl
  broadcast_if_written-IsQuiet packet true w live =
      broadcast-IsQuiet env (Client.unsubscribe packet) w live

  pub process_client_unsubscribe-Agrees :
      (a : ℕ) (packet : UnsubscribePacket) → Keeps (process_client_unsubscribe env a packet)
  unfolding process_client_unsubscribe
  process_client_unsubscribe-Agrees a packet w ag =
      elim (Bool-cases (is_online (get_elem? w.objects a))) [
        | inl b ↦
            let w' = client_unsubscribe_each env a packet.topics w in
            let unsuback = Client.unsuback packet.message_id in
            let served =
              client_unsubscribe_each-Serves a packet.topics w (online-Serves a w ag b) in
            rw (b, process_client_unsubscribe)
              (quiet-Agrees
                (λ w. broadcast_if_written env packet (w, (write_packet env a unsuback w').1))
                (write_packet env a unsuback w').0
                (broadcast_if_written-IsQuiet packet (write_packet env a unsuback w').1)
                (quiet-Agrees (λ w. (write_packet env a unsuback w).0) w'
                  (write_packet-IsQuiet env a unsuback) served.agrees))
        | inr b ↦ rw (b, process_client_unsubscribe) ag
      ]
