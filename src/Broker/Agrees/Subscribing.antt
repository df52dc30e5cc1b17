-- ===== src/Broker/Agrees/Subscribing.antt =====
-- broker/client.go: processClientSubscribe, processRouterSubscribe and their counterparts keep the
-- invariant.
use hmq.Prelude.{
  ℕ, ◌≡◌, refl, Bool, true, false, inl, inr, Option, none, some, List, [], ◌∷◌, Bytes, Result, ok,
  err, length, Bool-cases, Option-cases, subst, sym, ◌∙◌,
}
use hmq.Prelude.Heap.{get_elem?}
use hmq.Packets.{PublishPacket, SubscribePacket}
use hmq.Bridge
use hmq.Client
use hmq.Client.{Client, ControlPacket, connected, disconnected, bridge_event}
use hmq.Topics.Level.{TopicError}
use hmq.Topics.MemTopics
use hmq.Topics.MemTopics.{MemTopics}
use hmq.Broker.{ClientObject, Subscription, Broker, Env, on_client}
use hmq.Broker.Auth.{sub}
use hmq.Broker.Deliver.{write_packet, broadcast}
use hmq.Broker.Subscribe.{
  share_of, drop_sub, subscribe_new, remember, session_of, add_session_topic, with_retained,
  collect_retained, is_online, sub_event, is_authorized, first, tail,
}
use hmq.Broker.Subscribe.Clients.{
  client_subscribed, client_subscribe, client_subscribe_if, rmsgs_of, client_subscribe_one,
  client_subscribe_each, write_retained, client_subscribe_end, process_client_subscribe,
}
use hmq.Broker.View.{link, view, view-on_client, View, AreLive}
use hmq.Broker.View.Writes.{IsQuiet, IsQuiet-then, write_packet-IsQuiet, broadcast-IsQuiet}
use hmq.Broker.Agrees.Steps.{
  Serves, HasRoom, quiet-Agrees, quiet-Serves, drop_sub-HasRoom, online-Serves, Keeps,
}
use hmq.Broker.Agrees.Remembered.{remembered-Serves, unremembered-Serves}

pub add_session_topic-IsQuiet : (a : ℕ) (t : Bytes) (qos : ℕ) → IsQuiet (add_session_topic a t qos)
unfolding add_session_topic
add_session_topic-IsQuiet a t qos w live =
    elim (Option-cases (session_of (get_elem? w.objects a))) [
      | inl e ↦ rw (e, add_session_topic)
      | inr (s, e) ↦ rw (e, add_session_topic)
    ]

with_retained-link :
    (r : Result TopicError (List PublishPacket)) (o : ClientObject)
    → link (with_retained r o) ≡ link o
with_retained-link (ok msgs) o = refl
with_retained-link (err e) o = refl

pub collect_retained-IsQuiet : (a : ℕ) (topic : Bytes) → IsQuiet (collect_retained a topic)
unfolding collect_retained
collect_retained-IsQuiet a topic w live =
    view-on_client (λ o. with_retained (MemTopics.retained w.topics topic o.rmsgs) o) a w
      (λ o e. with_retained-link (MemTopics.retained w.topics topic o.rmsgs) o)

module _ (env : Env) where
  pub sub_event-IsQuiet :
      (a : ℕ) (action t : Bytes) → IsQuiet (on_client a (sub_event env action t))
  sub_event-IsQuiet a action t w live = view-on_client (sub_event env action t) a w (λ o e. refl)

  client_subscribed-Serves :
      (a : ℕ) (t : Bytes) (s : Subscription) (w : Broker)
      → HasRoom a t (view w)
      → s.client ≡ a
      → Serves a (view (client_subscribed a t (length w.subscriptions) s (subscribe_new s w)).0)
  unfolding client_subscribed
  client_subscribed-Serves a t s w room mine = elim (Option-cases (subscribe_new s w).2) [
    | inl e ↦
        rw (e, client_subscribed)
          (quiet-Serves (λ w. collect_retained a s.topic (add_session_topic a t s.qos w)) a
            (on_client a (remember t (length w.subscriptions)) (subscribe_new s w).0)
            (IsQuiet-then (add_session_topic a t s.qos) (collect_retained a s.topic)
              (add_session_topic-IsQuiet a t s.qos) (collect_retained-IsQuiet a s.topic))
            (remembered-Serves a t s w room.serves (λ _. room.free) mine e))
    | inr (x, e) ↦ rw (e, client_subscribed) (unremembered-Serves a s w x room.serves e)
  ]

  client_subscribe_if-Serves :
      (a : ℕ) (t : Bytes) (qos : Option ℕ) (o : Option (Bool × Bytes × Bytes)) (w : Broker)
      → Serves a (view w)
      → Serves a (view (client_subscribe_if a t qos o w).0)
  unfolding client_subscribe_if client_subscribe
  client_subscribe_if-Serves a t qos none w g = g
  client_subscribe_if-Serves a t none (some share) w g = (drop_sub-HasRoom a t w g).serves
  client_subscribe_if-Serves a t (some qos) (some (share, group, topic)) w g =
      client_subscribed-Serves a t
        (record { client = a; topic = topic; qos = qos; share = share; group_name = group })
        (drop_sub a t w) (drop_sub-HasRoom a t w g) refl

  client_subscribe_one-Serves :
      (a : ℕ) (t : Bytes) (qos : Option ℕ) (w : Broker)
      → Serves a (view w)
      → Serves a (view (client_subscribe_one env a t qos w).0)
  unfolding client_subscribe_one
  client_subscribe_one-Serves a t qos w g =
      elim (Bool-cases (is_authorized env sub (get_elem? w.objects a) t)) [
        | inl b ↦
            rw (b, client_subscribe_one)
              (client_subscribe_if-Serves a t qos (share_of t)
                (on_client a (sub_event env Bridge.subscribe t) w)
                (quiet-Serves (on_client a (sub_event env Bridge.subscribe t)) a w
                  (sub_event-IsQuiet a Bridge.subscribe t) g))
        | inr b ↦ rw (b, client_subscribe_one) g
      ]

  client_subscribe_each-Serves :
      (a : ℕ) (ts : List Bytes) (qoss : List ℕ) (w : Broker)
      → Serves a (view w)
      → Serves a (view (client_subscribe_each env a ts qoss w).0)
  unfolding client_subscribe_each
  client_subscribe_each-Serves a [] qoss w g = g
  client_subscribe_each-Serves a (t ∷ ts) qoss w g =
      client_subscribe_each-Serves a ts (tail qoss) (client_subscribe_one env a t (first qoss) w).0
        (client_subscribe_one-Serves a t (first qoss) w g)

  write_retained-IsQuiet : (a : ℕ) (ms : List PublishPacket) → IsQuiet (write_retained env a ms)
  unfolding write_retained
  write_retained-IsQuiet a [] w live = refl
  write_retained-IsQuiet a (m ∷ ms) w live =
      IsQuiet-then (λ w. (write_packet env a (Client.publish m) w).0) (write_retained env a ms)
        (write_packet-IsQuiet env a (Client.publish m)) (write_retained-IsQuiet a ms) w live

  pub client_subscribe_end-IsQuiet :
      (a : ℕ) (packet : SubscribePacket) (b : Bool)
      → IsQuiet (λ w. client_subscribe_end env a packet (w, b))
  unfolding client_subscribe_end
  client_subscribe_end-IsQuiet a packet false w live = refl
  client_subscribe_end-IsQuiet a packet true w live =
      let w' = broadcast env (Client.subscribe packet) w in
      let e = broadcast-IsQuiet env (Client.subscribe packet) w live in
      write_retained-IsQuiet a (rmsgs_of (get_elem? w'.objects a)) w'
        (subst (λ (v : View). AreLive v.links) (sym e) live)
      ∙ e

  pub process_client_subscribe-Agrees :
      (a : ℕ) (packet : SubscribePacket) → Keeps (process_client_subscribe env a packet)
  unfolding process_client_subscribe
  process_client_subscribe-Agrees a packet w ag =
      elim (Bool-cases (is_online (get_elem? w.objects a))) [
        | inl b ↦
            let r = client_subscribe_each env a packet.topics packet.qoss w in
            let suback = Client.suback packet.message_id r.1 in
            let served =
              client_subscribe_each-Serves a packet.topics packet.qoss w (online-Serves a w ag b) in
            rw (b, process_client_subscribe)
              (quiet-Agrees
                (λ w. client_subscribe_end env a packet (w, (write_packet env a suback r.0).1))
                (write_packet env a suback r.0).0
                (client_subscribe_end-IsQuiet a packet (write_packet env a suback r.0).1)
                (quiet-Agrees (λ w. (write_packet env a suback w).0) r.0
                  (write_packet-IsQuiet env a suback) served.agrees))
        | inr b ↦ rw (b, process_client_subscribe) ag
      ]
