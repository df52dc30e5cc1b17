-- ===== src/Sessions/Session.antt =====
-- broker/lib/sessions/session.go: one session. Its lock makes each method one step.
pub mod Laws
use hmq.Prelude.{
  ℕ, ◌≡◌, refl, Bool, true, false, Option, none, some, List, [], ◌∷◌, map, Bytes, Result, ok, err,
  bytes_eq, if◌then◌else◌,
}
use hmq.Prelude.Assoc.{Assoc, insert, delete}
use hmq.Packets.{PublishPacket, ConnectPacket}

pub data SessionError : Type 0 where
  already_initialized : SessionError
  not_initialized : SessionError
  -- memprovider.go, Get
  not_found : SessionError

-- A nil pointer is `none`. The CONNECT packet is reached only through the session once it is there.
pub record Session : Type 0 where
  pub cmsg : Option ConnectPacket
  pub will : Option PublishPacket
  pub retained : Option PublishPacket
  pub topics : Assoc Bytes ℕ
  pub initted : Bool
  pub id : Bytes

-- &Session{id: id}
unfoldable pub new_session : Bytes → Session
new_session id = record {
  cmsg = none;
  will = none;
  retained = none;
  topics = [];
  initted = false;
  id = id;
}

-- The new packet's own fields are those of its constructor.
unfoldable pub will_of : ConnectPacket → PublishPacket
will_of msg = record {
  topic_name = msg.will_topic;
  payload = msg.will_message;
  qos = msg.qos;
  retain = msg.will_retain;
  dup = false;
  message_id = 0;
}

unfoldable pub init : ConnectPacket → Session → Session × Option SessionError
init msg s = if s.initted then (s, some already_initialized) else (
  record {
    cmsg = some msg;
    will = if msg.will_flag then some (will_of msg) else s.will;
    retained = s.retained;
    topics = [];
    initted = true;
    id = msg.client_identifier;
  },
  none,
)

unfoldable pub update : ConnectPacket → Session → Session
update msg s = record s { cmsg = some msg }

unfoldable pub retain_message : PublishPacket → Session → Session
retain_message msg s = record s { retained = some msg }

unfoldable pub add_topic : Bytes → ℕ → Session → Session × Option SessionError
add_topic topic qos s =
    if s.initted
    then (record s { topics = insert topic qos s.topics }, none)
    else (s, some not_initialized)

unfoldable pub remove_topic : Bytes → Session → Session × Option SessionError
remove_topic topic s =
    if s.initted
    then (record s { topics = delete topic s.topics }, none)
    else (s, some not_initialized)

unfoldable pub topics : Session → Result SessionError (List Bytes × List ℕ)
topics s =
    if s.initted then ok (map (λ e. e.0) s.topics, map (λ e. e.1) s.topics) else err not_initialized

-- The four below read through `cmsg`, and panic (`none`) where it is nil.
unfoldable pub session_id : Session → Option Bytes
session_id s = elim s.cmsg [ some m ↦ some m.client_identifier | none ↦ none ]

unfoldable pub will_flag : Session → Option Bool
will_flag s = elim s.cmsg [ some m ↦ some m.will_flag | none ↦ none ]

unfoldable pub set_will_flag : Bool → Session → Option Session
set_will_flag v s = elim s.cmsg [
  | some m ↦ some (record s { cmsg = some (record m { will_flag = v }) })
  | none ↦ none
]

unfoldable pub clean_session : Session → Option Bool
clean_session s = elim s.cmsg [ some m ↦ some m.clean_session | none ↦ none ]
