-- ===== src/Bridge.antt =====
-- plugins/bridge: the events that the broker reports, and the topics of Kafka they are sent to.
pub mod Kafka
use hmq.Prelude.{ℕ, Bytes, codes}

-- bridge.go
abbrev pub connect : Bytes
connect = codes "connect"

abbrev pub publish : Bytes
publish = codes "publish"

abbrev pub subscribe : Bytes
subscribe = codes "subscribe"

abbrev pub unsubscribe : Bytes
unsubscribe = codes "unsubscribe"

abbrev pub disconnect : Bytes
disconnect = codes "disconnect"

pub record Elements : Type 0 where
  pub client_id : Bytes
  pub username : Bytes
  pub topic : Bytes
  pub payload : Bytes
  pub timestamp : ℕ
  pub size : ℕ
  pub action : Bytes
