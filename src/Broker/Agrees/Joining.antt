-- ===== src/Broker/Agrees/Joining.antt =====
-- broker/broker.go: the connections that are made keep the invariant, those that others make
-- (handleConnection) and the broker's own.
use hmq.Prelude.{
  ℕ, ◌≡◌, refl, sym, ap, subst, ◌&&◌, Bool, true, false, ◌==◌, nat_eq, bytes_eq, Option, none, some,
  List, [], ◌∷◌, ◌++◌, map, Bytes, length,
}
use hmq.Prelude.Assoc.{lookup, insert}
use hmq.Prelude.Heap.{get_elem?}
use hmq.Packets.{ConnectPacket}
use hmq.Bridge
use hmq.Client
use hmq.Client.{ControlPacket, bridge_event}
use hmq.Sessions.Session.{SessionError}
use hmq.Sessions.GetSession.{get_session}
use hmq.Broker.{ClientType, client, router, remote, cluster, ClientObject, Broker, Env, on_state}
use hmq.Broker.Cluster.{connect_packet, new_info}
use hmq.Broker.Connect.{
  accepted, will_of, new_object, return_code, close_old, register, register_if, start_client,
  handle_connect, handle_connection,
}
use hmq.Broker.Deliver.{notify, write_packet}
use hmq.Broker.Dialled.{
  send_online, send_connect, send_info, dialled_discovery, dialled_router, closed_unless, ping,
}
use hmq.Broker.Subscribe.{is_online}
use hmq.Broker.View.{link, view, view-on_client}
use hmq.Broker.View.Writes.{notify-IsQuiet, write_packet-IsQuiet}
use hmq.Broker.Agrees.{Agrees}
use hmq.Broker.Agrees.Join.{join-Agrees}
use hmq.Broker.Agrees.Closing.{close-Keeps}
use hmq.Broker.Agrees.Publishing.{choose}
use hmq.Broker.Agrees.Steps.{Keeps, quiet-Agrees}

map-snoc :
    (os : List ClientObject) (o : ClientObject)
    → map link (os ++ o ∷ []) ≡ map link os ++ link o ∷ []
map-snoc [] o = refl
map-snoc (x ∷ os) o = ap (◌∷◌ (link x)) (map-snoc os o)

-- A new object that is connected and has no subscriptions.
pub opened-Agrees :
    (o : ClientObject) (w : Broker)
    → o.state.conn ≡ true
    → o.sub_map ≡ []
    → Agrees (view w)
    → Agrees (view (record w { objects = w.objects ++ o ∷ [] }))
opened-Agrees o w on empty ag =
    subst (λ ls. Agrees (record (view w) { links = ls })) (sym (map-snoc w.objects o))
      (join-Agrees (view w) (link o) ag on empty)

module _ (env : Env) where
  close_old-Keeps : (old : Option ℕ) → Keeps (close_old env old)
  unfolding close_old
  close_old-Keeps none w ag = ag
  close_old-Keeps (some a) w ag = close-Keeps env a w ag

  register-Keeps : (typ : ClientType) (a : ℕ) (msg : ConnectPacket) → Keeps (register env typ a msg)
  unfolding register
  register-Keeps client a msg w ag =
      let cid = msg.client_identifier in
      let closed = close_old env (lookup cid w.clients) w in
      let stored = record closed { clients = insert cid a closed.clients } in
      let notified = notify env cid true stored in
      subst Agrees
        (sym (
          view-on_client (on_state (bridge_event env.now Bridge.connect [] [])) a notified
            (λ o e. refl)))
        (quiet-Agrees (notify env cid true) stored (notify-IsQuiet env cid true)
          (close_old-Keeps (lookup cid w.clients) w ag))
  register-Keeps router a msg w ag = close_old-Keeps (lookup msg.client_identifier w.routes) w ag
  register-Keeps remote a msg w ag = ag
  register-Keeps cluster a msg w ag = ag

  register_if-Keeps :
      (e : Option SessionError) (typ : ClientType) (a : ℕ) (msg : ConnectPacket)
      → Keeps (register_if env e typ a msg)
  unfolding register_if
  register_if-Keeps none typ a msg w ag = register-Keeps typ a msg w ag
  register_if-Keeps (some e) typ a msg w ag = ag

  start_client-Keeps :
      (typ : ClientType) (remote_ip : Bytes) (msg : ConnectPacket)
      → Keeps (start_client env typ remote_ip msg)
  unfolding start_client new_object
  start_client-Keeps typ remote_ip msg w ag =
      let g = get_session env.session_id none msg msg.clean_session w.sessions in
      let o = record (new_object typ msg.client_identifier msg.username remote_ip (will_of msg)) {
        session = g.session;
      } in
      let opened = record w { objects = w.objects ++ o ∷ []; sessions = g.provider } in
      register_if-Keeps g.error typ (length w.objects) msg opened (opened-Agrees o w refl refl ag)

  pub handle_connection-Agrees :
      (typ : ClientType) (remote_ip : Bytes) (code : ℕ) (written : Bool)
      (packet : Option ControlPacket) (w : Broker)
      → Agrees (view w)
      → Agrees (view (handle_connection env typ remote_ip code written packet w).0)
  unfolding handle_connection handle_connect
  handle_connection-Agrees typ remote_ip code written (some (Client.connect msg)) w ag =
      choose (return_code env typ msg code == accepted && written)
        (start_client env typ remote_ip msg w) w (start_client-Keeps typ remote_ip msg w ag) ag
  handle_connection-Agrees typ remote_ip code written none w ag = ag
  handle_connection-Agrees typ remote_ip code written (some (Client.connack b n)) w ag = ag
  handle_connection-Agrees typ remote_ip code written (some (Client.publish p)) w ag = ag
  handle_connection-Agrees typ remote_ip code written (some (Client.puback n)) w ag = ag
  handle_connection-Agrees typ remote_ip code written (some (Client.pubrec n)) w ag = ag
  handle_connection-Agrees typ remote_ip code written (some (Client.pubrel n)) w ag = ag
  handle_connection-Agrees typ remote_ip code written (some (Client.pubcomp n)) w ag = ag
  handle_connection-Agrees typ remote_ip code written (some (Client.subscribe p)) w ag = ag
  handle_connection-Agrees typ remote_ip code written (some (Client.suback n ns)) w ag = ag
  handle_connection-Agrees typ remote_ip code written (some (Client.unsubscribe p)) w ag = ag
  handle_connection-Agrees typ remote_ip code written (some (Client.unsuback n)) w ag = ag
  handle_connection-Agrees typ remote_ip code written (some Client.pingreq) w ag = ag
  handle_connection-Agrees typ remote_ip code written (some Client.pingresp) w ag = ag
  handle_connection-Agrees typ remote_ip code written (some Client.disconnect) w ag = ag

  send_online-Keeps : (a : ℕ) (packet : ControlPacket) → Keeps (send_online env a packet)
  unfolding send_online
  send_online-Keeps a packet w ag =
      choose (is_online (get_elem? w.objects a)) (write_packet env a packet w).0 w
        (quiet-Agrees (λ w. (write_packet env a packet w).0) w (write_packet-IsQuiet env a packet)
          ag)
        ag

  pub dialled_discovery-Keeps :
      (remote_ip url : Bytes) → Keeps (dialled_discovery env remote_ip url)
  unfolding dialled_discovery send_connect send_info new_object
  dialled_discovery-Keeps remote_ip url w ag =
      let a = length w.objects in
      let o = new_object cluster w.id [] remote_ip none in
      let opened = record w { objects = w.objects ++ o ∷ [] } in
      let hello = Client.connect (connect_packet w.id) in
      send_online-Keeps a (Client.publish (new_info (send_online env a hello opened).id url))
        (send_online env a hello opened)
        (send_online-Keeps a hello opened (opened-Agrees o w refl refl ag))

  pub dialled_router-Keeps :
      (id addr client_id remote_ip : Bytes) → Keeps (dialled_router env id addr client_id remote_ip)
  unfolding dialled_router send_connect new_object
  dialled_router-Keeps id addr client_id remote_ip w ag =
      let a = length w.objects in
      let o = record (new_object remote client_id [] remote_ip none) {
        remote_id = id;
        remote_url = addr;
      } in
      let opened = record w {
        objects = w.objects ++ o ∷ [];
        remotes = insert client_id a w.remotes;
      } in
      send_online-Keeps a (Client.connect (connect_packet client_id)) opened
        (opened-Agrees o w refl refl ag)

  closed_unless-Agrees :
      (a : ℕ) (w : Broker) (b : Bool) → Agrees (view w) → Agrees (view (closed_unless env a (w, b)))
  unfolding closed_unless
  closed_unless-Agrees a w true ag = ag
  closed_unless-Agrees a w false ag = close-Keeps env a w ag

  pub ping-Keeps : (a : ℕ) → Keeps (ping env a)
  unfolding ping
  ping-Keeps a w ag =
      closed_unless-Agrees a (write_packet env a Client.pingreq w).0
        (write_packet env a Client.pingreq w).1
        (quiet-Agrees (λ w. (write_packet env a Client.pingreq w).0) w
          (write_packet-IsQuiet env a Client.pingreq) ag)
