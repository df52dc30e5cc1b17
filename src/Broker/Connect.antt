-- ===== src/Broker/Connect.antt =====
-- broker/broker.go, handleConnection: from the first packet of a connection to its read loop.
use hmq.Prelude.{
  ℕ, Bool, true, ◌&&◌, ◌||◌, not, Option, none, some, [], ◌∷◌, ◌++◌, Bytes, ◌==◌, nat_eq, bytes_eq,
  length, if◌then◌else◌,
}
use hmq.Prelude.Assoc.{lookup, insert}
use hmq.Packets.{PublishPacket, ConnectPacket}
use hmq.Bridge
use hmq.Client
use hmq.Client.{ControlPacket, Client, connected, bridge_event}
use hmq.Sessions.Session.{SessionError}
use hmq.Sessions.GetSession.{get_session}
use hmq.Broker.{ClientType, client, router, ClientObject, Broker, Env, on_client, on_state}
use hmq.Broker.Auth.{check_connect_auth}
use hmq.Broker.Deliver.{is_client, notify}
use hmq.Broker.Close.{close}

-- packets.Accepted and packets.ErrRefusedNotAuthorised
abbrev pub accepted : ℕ
accepted = 0

abbrev pub not_authorised : ℕ
not_authorised = 5

abbrev pub will_of : ConnectPacket → Option PublishPacket
will_of msg =
    if msg.will_flag
    then some (record {
      topic_name = msg.will_topic;
      payload = msg.will_message;
      qos = msg.will_qos;
      retain = msg.will_retain;
      dup = msg.dup;
      message_id = 0;
    })
    else none

-- `&client{…}` and c.init(), with the remote address of the connection.
unfoldable pub new_object : ClientType → Bytes → Bytes → Bytes → Option PublishPacket → ClientObject
new_object typ client_id username remote_ip will_msg = record {
  typ = typ;
  state = record {
    client_id = client_id;
    username = username;
    remote_ip = remote_ip;
    status = connected;
    conn = true;
    awaiting_rel = [];
    max_awaiting_rel = 0;
    inflight = [];
    retry_timer = none;
    sent = [];
    bridged = [];
  };
  sub_map = [];
  route_sub_map = [];
  rmsgs = [];
  session = none;
  will_msg = will_msg;
  remote_id = [];
  remote_url = [];
}

-- The return code of the CONNACK, for the code that msg.Validate() returns.
unfoldable pub return_code : Env → ClientType → ConnectPacket → ℕ → ℕ
unfolding check_connect_auth
return_code env typ msg code =
    if not (code == accepted)
    then code
    else if is_client typ
        && not (check_connect_auth env.auth msg.client_identifier msg.username msg.password)
    then not_authorised
    else accepted

module _ (env : Env) where
  -- The client that had the name before is closed.
  unfoldable pub close_old : Option ℕ → Broker → Broker
  unfolding close
  close_old none w = w
  close_old (some old) w = close env old w

  -- The switch on the type
  unfoldable pub register : ClientType → ℕ → ConnectPacket → Broker → Broker
  unfolding close_old notify
  register client a msg w =
      let cid = msg.client_identifier in
      let closed = close_old (lookup cid w.clients) w in
      let stored = record closed { clients = insert cid a closed.clients } in
      on_client a (on_state (bridge_event env.now Bridge.connect [] []))
        (notify env cid true stored)
  register router a msg w =
      let cid = msg.client_identifier in
      let closed = close_old (lookup cid w.routes) w in
      record closed { routes = insert cid a closed.routes }
  register typ a msg w = w

  -- `b.metrics.Inc` panics where b.metrics is nil: it reads a field of it.
  abbrev pub count_client : Broker → Broker
  count_client w = record w { panicked = w.panicked || not env.metrics }

  -- An error of getSession ends the connection.
  unfoldable pub register_if :
      Option SessionError → ClientType → ℕ → ConnectPacket → Broker → Broker
  unfolding register
  register_if none typ a msg w = count_client (register typ a msg w)
  register_if (some e) typ a msg w = w

  -- From the CONNACK that was written to the read loop of the new client.
  unfoldable pub start_client : ClientType → Bytes → ConnectPacket → Broker → Broker
  unfolding new_object get_session register_if
  start_client typ remote_ip msg w =
      let a = length w.objects in
      let g = get_session env.session_id none msg msg.clean_session w.sessions in
      let o = record (new_object typ msg.client_identifier msg.username remote_ip (will_of msg)) {
        session = g.session;
      } in
      register_if g.error typ a msg
        (record w { objects = w.objects ++ o ∷ []; sessions = g.provider })

  -- On a CONNECT: the CONNACK, and the broker. `written` is whether the CONNACK is written.
  unfoldable pub handle_connect :
      ClientType → Bytes → ℕ → Bool → ConnectPacket → Broker → Broker × Option ControlPacket
  unfolding return_code start_client
  handle_connect typ remote_ip code written msg w =
      let answer = return_code env typ msg code in
      (
        if answer == accepted && written then start_client typ remote_ip msg w else w,
        some (Client.connack msg.clean_session answer),
      )

  -- handleConnection, on the first packet, none where it cannot be read.
  unfoldable pub handle_connection :
      ClientType → Bytes → ℕ → Bool → Option ControlPacket → Broker → Broker × Option ControlPacket
  unfolding handle_connect
  handle_connection typ remote_ip code written (some (Client.connect msg)) w =
      handle_connect typ remote_ip code written msg w
  handle_connection typ remote_ip code written packet w = (w, none)
