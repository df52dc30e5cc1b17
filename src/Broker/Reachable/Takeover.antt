-- ===== src/Broker/Reachable/Takeover.antt =====
-- broker/broker.go, handleConnection: a client that connects takes the place of the one that had its
-- name.
use hmq.Prelude.{
  ℕ, ◌≡◌, refl, sym, ap, subst, ◌∙◌, inl, inr, Bool, true, false, ◌==◌, nat_eq, bytes_eq, beq_refl,
  Option, none, some, some_inj, List, [], ◌∷◌, ◌++◌, Bytes, Result, ok, err, length, Option-cases,
}
use hmq.Prelude.Assoc.{lookup, insert, lookup-insert}
use hmq.Prelude.Heap.{get_elem?, get_elem?-append}
use hmq.Packets.{PublishPacket, ConnectPacket}
use hmq.Bridge
use hmq.Client
use hmq.Client.{ControlPacket, connected, disconnected, bridge_event}
use hmq.Sessions.GetSession.{get_session}
use hmq.Topics.Level.{TopicError}
use hmq.Topics.Snode.{Matched}
use hmq.Topics.MemTopics.{subscribers}
use hmq.Topics.Value.{Value}
use hmq.Broker.{client, ClientObject, Subscription, Broker, Env, on_client, on_state}
use hmq.Broker.Close.{close}
use hmq.Broker.Connect.{
  accepted, will_of, count_client, new_object, return_code, close_old, register, register_if,
  start_client, handle_connect, handle_connection,
}
use hmq.Broker.Deliver.{
  write_packet, write_one, write_each, write_found, publish_message, notification, notify,
  subscription_at,
}
use hmq.Broker.View.{Link, View, link, view, get_elem?-link, get_elem?-none, view-on_client}
use hmq.Broker.View.Writes.{notify-IsQuiet}
use hmq.Broker.Agrees.{Agrees}
use hmq.Broker.Agrees.Closing.{close-Keeps, link-close}
use hmq.Broker.Agrees.Joining.{opened-Agrees}
use hmq.Broker.Reachable.{Reachable, Reachable-Agrees}

-- The object at an address is that of a client that is closed.
abbrev pub IsClosedAt : Broker → ℕ → Type 0
IsClosedAt w a =
    (o : ClientObject) × (get_elem? w.objects a ≡ some o)
    × (o.state.status ≡ disconnected)
    × (o.state.conn ≡ false)

closed_link :
    (w : Broker) (a : ℕ) (l : Link)
    → get_elem? (view w).links a ≡ some l
    → l.status ≡ disconnected
    → l.conn ≡ false
    → IsClosedAt w a
closed_link w a l e s n = elim (Option-cases (get_elem? w.objects a)) [
  | inl f ↦ absurd (missing (sym (get_elem?-none w.objects a f) ∙ e))
  | inr (o, f) ↦
      let same : link o ≡ l = some_inj (sym (get_elem?-link w.objects a o f) ∙ e) in
      (o, f, ap (λ (x : Link). x.status) same ∙ s, ap (λ (x : Link). x.conn) same ∙ n)
]
  where
    missing : ¬ (none ≡ some l)
    missing q = cc

module _ (env : Env) where
  write_one-clients :
      (packet : PublishPacket) (s : Option Subscription) (w : Broker)
      → (write_one env packet s w).clients ≡ w.clients
  unfolding write_one write_packet
  write_one-clients packet none w = refl
  write_one-clients packet (some s) w = refl

  write_each-clients :
      (packet : PublishPacket) (vs : List Value) (w : Broker)
      → (write_each env packet vs w).clients ≡ w.clients
  unfolding write_each
  write_each-clients packet [] w = refl
  write_each-clients packet (v ∷ vs) w =
      write_each-clients packet vs (write_one env packet (subscription_at w v) w)
      ∙ write_one-clients packet (subscription_at w v) w

  write_found-clients :
      (packet : PublishPacket) (r : Result TopicError Matched) (w : Broker)
      → (write_found env packet r w).clients ≡ w.clients
  unfolding write_found
  write_found-clients packet (err e) w = refl
  write_found-clients packet (ok (subs, qoss)) w = write_each-clients packet subs w

  notify-clients :
      (id : Bytes) (online : Bool) (w : Broker) → (notify env id online w).clients ≡ w.clients
  unfolding notify publish_message
  notify-clients id online w =
      let packet = notification env id online in
      write_found-clients packet (subscribers w.topics packet.topic_name packet.qos) w

  register-takes_over :
      (a old : ℕ) (o : ClientObject) (msg : ConnectPacket) (w : Broker)
      → Agrees (view w)
      → lookup msg.client_identifier w.clients ≡ some old
      → get_elem? w.objects old ≡ some o
      → o.state.status ≡ connected
      → (lookup msg.client_identifier (register env client a msg w).clients ≡ some a)
        × IsClosedAt (register env client a msg w) old
  unfolding register close_old
  register-takes_over a old o msg w ag known e on =
      let cid = msg.client_identifier in
      let closed = close env old w in
      let stored = record closed { clients = insert cid a closed.clients } in
      let notified = notify env cid true stored in
      let after = on_client a (on_state (bridge_event env.now Bridge.connect [] [])) notified in
      let same : view after ≡ view closed =
        view-on_client (on_state (bridge_event env.now Bridge.connect [] [])) a notified
          (λ o e. refl)
        ∙ notify-IsQuiet env cid true stored (close-Keeps env old w ag).live in
      rw known (
        ap (lookup cid) (notify-clients cid true stored)
            ∙ lookup-insert cid cid a closed.clients
            ∙ rw (beq_refl cid) refl,
        closed_link after old _
            (ap (λ (v : View). get_elem? v.links old) same ∙ link-close env old o w ag e on) refl
            refl,
      )

  -- The broker with the new object, before it is registered.
  abbrev opened : Bytes → ConnectPacket → Broker → Broker
  opened remote_ip msg w =
      let g = get_session env.session_id none msg msg.clean_session w.sessions in
      let o =
        record (new_object client msg.client_identifier msg.username remote_ip (will_of msg)) {
          session = g.session;
        } in
      record w { objects = w.objects ++ o ∷ []; sessions = g.provider }

  start_client-register :
      (remote_ip : Bytes) (msg : ConnectPacket) (w : Broker)
      → (get_session env.session_id none msg msg.clean_session w.sessions).error ≡ none
      → start_client env client remote_ip msg w
        ≡ count_client env (register env client (length w.objects) msg (opened remote_ip msg w))
  unfolding start_client register_if
  start_client-register remote_ip msg w h = rw h refl

  handle_connection-start_client :
      (remote_ip : Bytes) (code : ℕ) (msg : ConnectPacket) (w : Broker)
      → (return_code env client msg code == accepted) ≡ true
      → (handle_connection env client remote_ip code true (some (Client.connect msg)) w).0
        ≡ start_client env client remote_ip msg w
  unfolding handle_connection handle_connect
  handle_connection-start_client remote_ip code msg w h = rw h refl

  -- In every state that the broker can get to: when a CONNECT of a client is accepted, its CONNACK is
  -- written and getSession reports no error, and another connection had its name and was connected,
  -- then the name stands for the new connection's object, and the other client is disconnected and
  -- has no connection.
  pub handle_connection-takes_over :
      (remote_ip : Bytes) (code old : ℕ) (o : ClientObject) (msg : ConnectPacket) (w : Broker)
      → Reachable w
      → (return_code env client msg code == accepted) ≡ true
      → (get_session env.session_id none msg msg.clean_session w.sessions).error ≡ none
      → lookup msg.client_identifier w.clients ≡ some old
      → get_elem? w.objects old ≡ some o
      → o.state.status ≡ connected
      → let w' =
          (handle_connection env client remote_ip code true (some (Client.connect msg)) w).0 in
        (lookup msg.client_identifier w'.clients ≡ some (length w.objects)) × IsClosedAt w' old
  unfolding new_object
  handle_connection-takes_over remote_ip code old o msg w reach ok_code no_error known e on =
      subst
        (λ w'.
          (lookup msg.client_identifier w'.clients ≡ some (length w.objects)) × IsClosedAt w' old)
        (sym (
          handle_connection-start_client remote_ip code msg w ok_code
          ∙ start_client-register remote_ip msg w no_error))
        (register-takes_over (length w.objects) old o msg (opened remote_ip msg w)
          (opened-Agrees _ w refl refl (Reachable-Agrees reach)) known
          (get_elem?-append w.objects _ o old e) on)
