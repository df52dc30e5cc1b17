-- ===== src/Broker/Agrees/Messages.antt =====
-- broker/client.go, ProcessMessage, and broker/info.go: a packet that is processed keeps the
-- invariant.
use hmq.Prelude.{
  ℕ, ◌≡◌, ◌≢◌, refl, sym, subst, ◌∙◌, ◌==◌, bytes_eq, inl, inr, Option, none, some, some_inj, Bytes,
  Bool-cases, Option-cases,
}
use hmq.Prelude.Assoc.{Assoc}
use hmq.Prelude.Heap.{get_elem?}
use hmq.Packets.{PublishPacket, SubscribePacket, UnsubscribePacket}
use hmq.Client
use hmq.Client.{ControlPacket, Client, Status, connected, disconnected}
use hmq.Client.Link.{
  admit_client_publish-Keeps, admit_router_publish-Keeps, process_pubrel-Keeps,
  process_puback-Keeps, process_pubrec-Keeps, process_pubcomp-Keeps, process_ping-Keeps, IsLive,
}
use hmq.Client.Link
use hmq.Client.Incoming.{admit_client_publish, admit_router_publish, process_pubrel}
use hmq.Client.Outgoing.{process_puback, process_pubrec, process_pubcomp, process_ping}
use hmq.Broker.{
  ClientType, client, router, remote, cluster, ClientObject, Broker, Env, on_client, on_state,
}
use hmq.Broker.Auth.{pub_action}
use hmq.Broker.Cluster.{process_info, broker_info_topic}
use hmq.Broker.Message.{
  process_client_publish, process_router_publish, remote_publish, process_publish,
  process_subscribe, process_unsubscribe, dispatch, process_object, process_message, take_will,
  read_packet, validate_packet_fields, finished,
}
use hmq.Broker.Subscribe.{is_authorized}
use hmq.Broker.View.{link, view, get_elem?-link, view-on_client, on_live}
use hmq.Broker.Agrees.{Agrees}
use hmq.Broker.Agrees.Closing.{close-Keeps}
use hmq.Broker.View.Infos.{process_info-IsQuiet}
use hmq.Broker.Agrees.Routing.{process_router_subscribe-Agrees, process_router_unsubscribe-Agrees}
use hmq.Broker.Agrees.Steps.{quiet-Agrees}
use hmq.Broker.Agrees.Subscribing.{process_client_subscribe-Agrees}
use hmq.Broker.Agrees.Unsubscribing.{process_client_unsubscribe-Agrees}
use hmq.Broker.Agrees.Publishing.{process_admitted-Agrees}

finished-Agrees : (w w' : Broker) → Agrees (view w) → finished w ≡ some w' → Agrees (view w')
unfolding finished
finished-Agrees w w' ag h = elim (Bool-cases w.panicked) [
  | inl b ↦ absurd (panics (rw (b, finished) at h))
  | inr b ↦ subst (λ w. Agrees (view w)) (some_inj (rw (b, finished) at h)) ag
]
  where
    panics : ¬ (none ≡ some w')
    panics q = cc

module _ (env : Env) where
  module _ (a : ℕ) (o : ClientObject) (w : Broker) (e : get_elem? w.objects a ≡ some o)
      (ag : Agrees (view w)) where
    live : IsLive o.state
    live = ag.live a (link o) (get_elem?-link w.objects a o e)

    process_client_publish-Agrees :
        (packet : PublishPacket) → Agrees (view (process_client_publish env a o packet w))
    unfolding process_client_publish
    process_client_publish-Agrees packet =
        let b = is_authorized env pub_action (some o) packet.topic_name in
        process_admitted-Agrees env a o packet
          (admit_client_publish (env.network a) b env.now packet o.state) w e
          (admit_client_publish-Keeps (env.network a) b env.now packet o.state live) ag

    process_router_publish-Agrees :
        (packet : PublishPacket) → Agrees (view (process_router_publish env a o packet w))
    unfolding process_router_publish
    process_router_publish-Agrees packet =
        process_admitted-Agrees env a o packet (admit_router_publish (env.network a) packet o.state)
          w e (admit_router_publish-Keeps (env.network a) packet o.state live) ag

    process_subscribe-Agrees :
        (packet : SubscribePacket) (typ : ClientType)
        → o.typ ≡ typ
        → Agrees (view (process_subscribe env a packet typ w))
    unfolding process_subscribe
    process_subscribe-Agrees packet client q = process_client_subscribe-Agrees env a packet w ag
    process_subscribe-Agrees packet router q =
        process_router_subscribe-Agrees env a packet w
          (link o, get_elem?-link w.objects a o e, λ c. other (sym q ∙ c)) ag
      where
        other : router ≢ client
        other h = cc
    process_subscribe-Agrees packet remote q =
        process_router_subscribe-Agrees env a packet w
          (link o, get_elem?-link w.objects a o e, λ c. other (sym q ∙ c)) ag
      where
        other : remote ≢ client
        other h = cc
    process_subscribe-Agrees packet cluster q = ag

    process_unsubscribe-Agrees :
        (packet : UnsubscribePacket) (typ : ClientType)
        → Agrees (view (process_unsubscribe env a packet typ w))
    unfolding process_unsubscribe
    process_unsubscribe-Agrees packet client = process_client_unsubscribe-Agrees env a packet w ag
    process_unsubscribe-Agrees packet router = process_router_unsubscribe-Agrees env a packet w ag
    process_unsubscribe-Agrees packet remote = ag
    process_unsubscribe-Agrees packet cluster = ag

    module _ (parse : Bytes → Option (Assoc Bytes (Option Bytes))) where
      remote_publish-Agrees :
          (packet : PublishPacket) (s : Status) → Agrees (view (remote_publish parse a packet s w))
      unfolding remote_publish
      remote_publish-Agrees packet disconnected = ag
      remote_publish-Agrees packet connected =
          elim (Bool-cases (packet.topic_name == broker_info_topic)) [
            | inl b ↦
                rw (b, remote_publish)
                  (quiet-Agrees (process_info parse a packet) w
                    (process_info-IsQuiet parse a packet) ag)
            | inr b ↦ rw (b, remote_publish) ag
          ]

      process_publish-Agrees :
          (packet : PublishPacket) (typ : ClientType)
          → Agrees (view (process_publish env parse a o packet typ w))
      unfolding process_publish
      process_publish-Agrees packet client = process_client_publish-Agrees packet
      process_publish-Agrees packet router = process_router_publish-Agrees packet
      process_publish-Agrees packet remote = ag
      process_publish-Agrees packet cluster = remote_publish-Agrees packet o.state.status

      -- A call that only concerns the client's own delivery state.
      own_state :
          (f : Client → Client)
          → ((c : Client) → IsLive c → Link.Keeps c (f c))
          → Agrees (view (on_client a (on_state f) w))
      own_state f k = quiet-Agrees (on_client a (on_state f)) w (λ w live. on_live f a w live k) ag

      dispatch-Agrees : (packet : ControlPacket) → Agrees (view (dispatch env parse a o packet w))
      unfolding dispatch
      dispatch-Agrees (Client.publish packet) = process_publish-Agrees packet o.typ
      dispatch-Agrees (Client.puback id) =
          own_state (process_puback id) (λ c live. process_puback-Keeps id c)
      dispatch-Agrees (Client.pubrec id) =
          own_state (process_pubrec (env.network a) env.now id)
            (λ c live. process_pubrec-Keeps (env.network a) env.now id c live)
      dispatch-Agrees (Client.pubrel id) =
          own_state (process_pubrel (env.network a) id)
            (λ c live. process_pubrel-Keeps (env.network a) id c live)
      dispatch-Agrees (Client.pubcomp id) =
          own_state (process_pubcomp id) (λ c live. process_pubcomp-Keeps id c)
      dispatch-Agrees (Client.subscribe packet) = process_subscribe-Agrees packet o.typ refl
      dispatch-Agrees (Client.unsubscribe packet) = process_unsubscribe-Agrees packet o.typ
      dispatch-Agrees Client.pingreq =
          own_state (process_ping (env.network a))
            (λ c live. process_ping-Keeps (env.network a) c live)
      dispatch-Agrees Client.disconnect = close-Keeps env a w ag
      dispatch-Agrees (Client.connect m) = ag
      dispatch-Agrees (Client.connack b n) = ag
      dispatch-Agrees (Client.suback n ns) = ag
      dispatch-Agrees (Client.unsuback n) = ag
      dispatch-Agrees Client.pingresp = ag

      process_object-Agrees :
          (packet : ControlPacket) (w' : Broker)
          → process_object env parse a o packet w ≡ some w'
          → Agrees (view w')
      unfolding process_object
      process_object-Agrees packet w' h =
          elim (Bool-cases (validate_packet_fields env.valid_string packet)) [
            | inl b ↦
                finished-Agrees (dispatch env parse a o packet w) w' (dispatch-Agrees packet)
                  (rw (b, process_object) at h)
            | inr b ↦ elim (Bool-cases o.state.conn) [
              | inl c ↦ subst (λ w. Agrees (view w)) (some_inj (rw (b, c, process_object) at h)) ag
              | inr c ↦ absurd (panics (rw (b, c, process_object) at h))
            ]
          ]
        where
          panics : ¬ (none ≡ some w')
          panics q = cc

pub process_message-Agrees :
    (env : Env) (parse : Bytes → Option (Assoc Bytes (Option Bytes))) (a : ℕ)
    (packet : ControlPacket) (w w' : Broker)
    → Agrees (view w)
    → process_message env parse a packet w ≡ some w'
    → Agrees (view w')
unfolding process_message
process_message-Agrees env parse a packet w w' ag h = elim (Option-cases (get_elem? w.objects a)) [
  | inl e ↦ absurd (missing (rw (e, process_message) at h))
  | inr (o, e) ↦ process_object-Agrees env a o w e ag parse packet w' (rw (e, process_message) at h)
]
  where
    missing : ¬ (none ≡ some w')
    missing q = cc

pub take_will-link :
    (packet : ControlPacket) (o : ClientObject) → link (take_will packet o) ≡ link o
unfolding take_will
take_will-link Client.disconnect o = refl
take_will-link (Client.connect m) o = refl
take_will-link (Client.connack b n) o = refl
take_will-link (Client.publish p) o = refl
take_will-link (Client.puback n) o = refl
take_will-link (Client.pubrec n) o = refl
take_will-link (Client.pubrel n) o = refl
take_will-link (Client.pubcomp n) o = refl
take_will-link (Client.subscribe p) o = refl
take_will-link (Client.suback n ns) o = refl
take_will-link (Client.unsubscribe p) o = refl
take_will-link (Client.unsuback n) o = refl
take_will-link Client.pingreq o = refl
take_will-link Client.pingresp o = refl

pub read_packet-Agrees :
    (env : Env) (parse : Bytes → Option (Assoc Bytes (Option Bytes))) (a : ℕ)
    (packet : ControlPacket) (w w' : Broker)
    → Agrees (view w)
    → read_packet env parse a packet w ≡ some w'
    → Agrees (view w')
unfolding read_packet
read_packet-Agrees env parse a packet w w' ag h =
    process_message-Agrees env parse a packet (on_client a (take_will packet) w) w'
      (subst Agrees (sym (view-on_client (take_will packet) a w (λ o e. take_will-link packet o)))
        ag)
      h
