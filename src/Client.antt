-- ===== src/Client.antt =====
-- broker/client.go and broker/comm.go: one client's delivery state. Each call is one step of it.
pub mod Outgoing
pub mod Incoming
pub mod SubMap
pub mod Link
use hmq.Prelude.{
  ℕ, Bool, true, false, Option, none, some, List, [], ◌∷◌, ◌++◌, Bytes, if◌then◌else◌,
}
use hmq.Prelude.Assoc.{Assoc}
use hmq.Packets.{PublishPacket, ConnectPacket, SubscribePacket, UnsubscribePacket}
use hmq.Bridge.{Elements}

-- packets.ControlPacket. A CONNACK carries SessionPresent and the return code, a SUBACK its return
-- codes.
pub data ControlPacket : Type 0 where
  connect : ConnectPacket → ControlPacket
  connack : Bool → ℕ → ControlPacket
  publish : PublishPacket → ControlPacket
  puback : ℕ → ControlPacket
  pubrec : ℕ → ControlPacket
  pubrel : ℕ → ControlPacket
  pubcomp : ℕ → ControlPacket
  subscribe : SubscribePacket → ControlPacket
  suback : ℕ → List ℕ → ControlPacket
  unsubscribe : UnsubscribePacket → ControlPacket
  unsuback : ℕ → ControlPacket
  pingreq : ControlPacket
  pingresp : ControlPacket
  disconnect : ControlPacket

pub data Status : Type 0 where
  connected : Status
  disconnected : Status

pub data InflightStatus : Type 0 where
  published : InflightStatus
  pubrelled : InflightStatus

pub record InflightElem : Type 0 where
  pub status : InflightStatus
  pub packet : PublishPacket
  pub timestamp : ℕ

abbrev pub await_rel_timeout : ℕ
await_rel_timeout = 20

abbrev pub retry_interval : ℕ
retry_interval = 20

-- The fields of `client` that the calls below use. `conn` is whether there is a connection, `sent`
-- what has been handed to it, `retry_timer` the interval of the running timer; `bridged` are the
-- events that the client has passed on to the bridge.
pub record Client : Type 0 where
  pub client_id : Bytes
  pub username : Bytes
  pub remote_ip : Bytes
  pub status : Status
  pub conn : Bool
  pub awaiting_rel : Assoc ℕ ℕ
  pub max_awaiting_rel : ℕ
  pub inflight : Assoc ℕ InflightElem
  pub retry_timer : Option ℕ
  pub sent : List ControlPacket
  pub bridged : List Elements

-- broker/bridge.go, Publish, with an event of the client.
abbrev pub bridge_event : ℕ → Bytes → Bytes → Bytes → Client → Client
bridge_event now action topic payload c = record c {
  bridged =
      c.bridged
      ++ record {
        client_id = c.client_id;
        username = c.username;
        topic = topic;
        payload = payload;
        timestamp = now;
        size = 0;
        action = action;
      }
        ∷ [];
}

abbrev pub written : ControlPacket → Client → Client
written packet c = record c { sent = c.sent ++ packet ∷ [] }

-- The network, whose answer to a write is `true` where the write succeeds, is a parameter: it sees
-- what was written before. A client without a connection is closed; of Close, this is what
-- changes the fields above.
abbrev pub write_on :
    (List ControlPacket → ControlPacket → Bool)
    → ControlPacket
    → Client
    → Status
    → Bool
    → Client × Bool
write_on network packet c disconnected conn = (c, true)
write_on network packet c connected true = (written packet c, network c.sent packet)
write_on network packet c connected false = (record c { status = disconnected }, false)

unfoldable pub writer_packet :
    (List ControlPacket → ControlPacket → Bool) → ControlPacket → Client → Client × Bool
writer_packet network packet c = write_on network packet c c.status c.conn
