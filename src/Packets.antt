-- ===== src/Packets.antt =====
-- The fields of github.com/eclipse/paho.mqtt.golang/packets that the broker reads and writes.
use hmq.Prelude.{ℕ, Bool, List, Bytes}

-- packets.PublishPacket
pub record PublishPacket : Type 0 where
  pub topic_name : Bytes
  pub payload : Bytes
  pub qos : ℕ
  pub retain : Bool
  pub dup : Bool
  pub message_id : ℕ

-- packets.ConnectPacket; `qos` is the FixedHeader's.
pub record ConnectPacket : Type 0 where
  pub client_identifier : Bytes
  pub username : Bytes
  pub password : Bytes
  pub keepalive : ℕ
  pub clean_session : Bool
  pub dup : Bool
  pub qos : ℕ
  pub will_flag : Bool
  pub will_qos : ℕ
  pub will_retain : Bool
  pub will_topic : Bytes
  pub will_message : Bytes

-- packets.SubscribePacket
pub record SubscribePacket : Type 0 where
  pub message_id : ℕ
  pub topics : List Bytes
  pub qoss : List ℕ

-- packets.UnsubscribePacket
pub record UnsubscribePacket : Type 0 where
  pub message_id : ℕ
  pub topics : List Bytes
