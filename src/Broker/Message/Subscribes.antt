-- ===== src/Broker/Message/Subscribes.antt =====
-- broker/client.go, ProcessMessage on a SUBSCRIBE: where it panics.
use hmq.Prelude.{ℕ, ◌≤◌, ◌≡◌, refl, ap, ◌∙◌, true, false, Option, some, Bytes, bytes_eq, length}
use hmq.Prelude.Assoc.{Assoc}
use hmq.Prelude.Heap.{get_elem?}
use hmq.Packets.{SubscribePacket}
use hmq.Client
use hmq.Client.{ControlPacket, connected, disconnected}
use hmq.Broker.{client, ClientObject, Broker, Env}
use hmq.Broker.Subscribe.{session_of, is_online}
use hmq.Broker.Subscribe.Clients.{process_client_subscribe}
use hmq.Broker.Message.{
  validate_packet_fields, extract_packet_fields, are_valid, finished, process_subscribe, dispatch,
  process_object, process_message,
}
use hmq.Broker.Message.Calm.{client_subscribe_each-IsCalm}
use hmq.Broker.Message.Panicked.{process_client_subscribe-panicked}

module _ (env : Env) (parse : Bytes → Option (Assoc Bytes (Option Bytes))) where
  process_message-object :
      (a : ℕ) (packet : ControlPacket) (w : Broker) (o : ClientObject)
      → get_elem? w.objects a ≡ some o
      → process_message env parse a packet w ≡ process_object env parse a o packet w
  unfolding process_message
  process_message-object a packet w o e = rw (e, process_message) refl

  -- ProcessMessage on a SUBSCRIBE of a client, which is never malformed.
  process_message-finished :
      (a : ℕ) (packet : SubscribePacket) (w : Broker) (o : ClientObject)
      → get_elem? w.objects a ≡ some o
      → o.typ ≡ client
      → process_message env parse a (Client.subscribe packet) w
        ≡ finished (process_client_subscribe env a packet w)
  unfolding process_object validate_packet_fields extract_packet_fields are_valid dispatch
      process_subscribe
  process_message-finished a packet w o e typ =
      process_message-object a (Client.subscribe packet) w o e
      ∙ ap (λ t. finished (process_subscribe env a packet t w)) typ

  online :
      (w : Broker) (a : ℕ) (o : ClientObject)
      → get_elem? w.objects a ≡ some o
      → o.state.status ≡ connected
      → is_online (get_elem? w.objects a) ≡ true
  online w a o e on =
      ap is_online e ∙ ap (λ s. elim s [ connected ↦ true | disconnected ↦ false ]) on

  -- Where no handler has panicked, a client is connected and has a session, and its SUBSCRIBE has a
  -- QoS for each topic: ProcessMessage does not panic on it, and does what processClientSubscribe does.
  pub process_message-subscribe :
      (a s : ℕ) (packet : SubscribePacket) (w : Broker) (o : ClientObject)
      → w.panicked ≡ false
      → get_elem? w.objects a ≡ some o
      → o.typ ≡ client
      → o.state.status ≡ connected
      → o.session ≡ some s
      → length packet.topics ≤ length packet.qoss
      → process_message env parse a (Client.subscribe packet) w
        ≡ some (process_client_subscribe env a packet w)
  unfolding finished
  process_message-subscribe a s packet w o calm e typ on has h =
      let r =
        client_subscribe_each-IsCalm env a s packet.topics packet.qoss w h
          (calm, ap session_of e ∙ has) in
      process_message-finished a packet w o e typ
      ∙ rw (process_client_subscribe-panicked env a packet w (online w a o e on), r.0) refl
