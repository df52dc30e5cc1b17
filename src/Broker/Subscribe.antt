-- ===== src/Broker/Subscribe.antt =====
-- broker/client.go: what the handlers of SUBSCRIBE and UNSUBSCRIBE share. A client is given by its
-- address.
pub mod Clients
pub mod Routers
use hmq.Prelude.{
  ℕ, Bool, true, false, not, Option, none, some, List, [], ◌∷◌, ◌++◌, Bytes, bytes_eq, Result, ok,
  err, length, ltb, if◌then◌else◌,
}
use hmq.Prelude.Assoc.{Assoc, lookup, insert, delete}
use hmq.Prelude.Heap.{get_elem?, modify}
use hmq.Go.{has_prefix}
use hmq.Packets.{PublishPacket, SubscribePacket, UnsubscribePacket}
use hmq.Bridge
use hmq.Client
use hmq.Client.{ControlPacket, Status, connected, disconnected, bridge_event, writer_packet}
use hmq.Client.SubMap.{add_sub_map, del_sub_map}
use hmq.Topics.Level.{TopicError}
use hmq.Topics.Value.{Value, subscription}
use hmq.Topics.MemTopics
use hmq.Topics.MemTopics.{MemTopics, qos_failure}
use hmq.Sessions.Session.{add_topic, remove_topic}
use hmq.Broker.{Subscription, ClientObject, Broker, Env, on_client, on_state, panic}
use hmq.Broker.Auth.{share_prefix, find_group, check_topic_auth, sub}
use hmq.Broker.Deliver.{write_packet, broadcast}

-- `strings.HasPrefix(topic, "$share/")`: whether the subscription is shared, its group and its
-- topic; none where it is malformed.
unfoldable pub share_of : Bytes → Option (Bool × Bytes × Bytes)
unfolding has_prefix find_group
share_of topic =
    if has_prefix topic share_prefix
    then elim (find_group topic) [ none ↦ none | some (group, t) ↦ some (true, group, t) ]
    else some (false, [], topic)

abbrev pub topic_of : Broker → ℕ → Bytes
topic_of w p = elim (get_elem? w.subscriptions p) [ none ↦ [] | some s ↦ s.topic ]

-- `_ = c.topicsMgr.Unsubscribe([]byte(sub.topic), sub)`
unfoldable pub drop_from_topics : ℕ → Broker → Broker
unfolding MemTopics.unsubscribe
drop_from_topics p w = record w {
  topics = (MemTopics.unsubscribe w.topics (topic_of w p) (some (subscription p))).0;
}

abbrev pub forget : Bytes → ClientObject → ClientObject
forget t o = record o { sub_map = delete t o.sub_map }

abbrev pub sub_of : Broker → ℕ → Bytes → Option ℕ
sub_of w a t = elim (get_elem? w.objects a) [ none ↦ none | some o ↦ lookup t o.sub_map ]

-- `if oldSub, exist := c.subMap[t]; exist`
unfoldable pub drop_sub : ℕ → Bytes → Broker → Broker
unfolding drop_from_topics
drop_sub a t w = elim (sub_of w a t) [
  | none ↦ w
  | some p ↦ on_client a (forget t) (drop_from_topics p w)
]

-- `sub := &subscription{…}` and the call of Subscribe: the broker, the granted QoS and the error.
unfoldable pub subscribe_new : Subscription → Broker → Broker × ℕ × Option TopicError
unfolding MemTopics.subscribe
subscribe_new s w =
    let (topics, qos, e) =
      MemTopics.subscribe w.topics s.topic s.qos (some (subscription (length w.subscriptions))) in
    (record w { topics = topics; subscriptions = w.subscriptions ++ s ∷ [] }, qos, e)

abbrev pub remember : Bytes → ℕ → ClientObject → ClientObject
remember t p o = record o { sub_map = insert t p o.sub_map }

abbrev pub session_of : Option ClientObject → Option ℕ
session_of none = none
session_of (some o) = o.session

-- A call of a method of the client's session, which panics on nil.
abbrev pub on_session : Option ℕ → (ℕ → Broker → Broker) → Broker → Broker
on_session none f w = panic w
on_session (some s) f w = f s w

-- `_ = c.session.AddTopic(t, qoss[i])`
unfoldable pub add_session_topic : ℕ → Bytes → ℕ → Broker → Broker
unfolding add_topic
add_session_topic a t qos w =
    on_session (session_of (get_elem? w.objects a))
      (λ s w. record w {
        sessions = record w.sessions {
          heap = modify s (λ x. (add_topic t qos x).0) w.sessions.heap;
        };
      })
      w

unfoldable pub remove_session_topic : ℕ → Bytes → Broker → Broker
unfolding remove_topic
remove_session_topic a t w =
    on_session (session_of (get_elem? w.objects a))
      (λ s w. record w {
        sessions = record w.sessions {
          heap = modify s (λ x. (remove_topic t x).0) w.sessions.heap;
        };
      })
      w

-- An error of Retained leaves in the slice what it had appended; it is the filter's own, so that
-- nothing was.
abbrev pub with_retained : Result TopicError (List PublishPacket) → ClientObject → ClientObject
with_retained (ok msgs) o = record o { rmsgs = msgs }
with_retained (err e) o = o

-- `_ = c.topicsMgr.Retained([]byte(topic), &c.rmsgs)`
unfoldable pub collect_retained : ℕ → Bytes → Broker → Broker
unfolding MemTopics.retained
collect_retained a topic w =
    on_client a (λ o. with_retained (MemTopics.retained w.topics topic o.rmsgs) o) w

-- `qoss[i]`, in the turn for the first topic that is left.
abbrev pub first : List ℕ → Option ℕ
first [] = none
first (q ∷ qoss) = some q

abbrev pub tail : List ℕ → List ℕ
tail [] = []
tail (q ∷ qoss) = qoss

abbrev pub is_online : Option ClientObject → Bool
is_online none = false
is_online (some o) = elim o.state.status [ connected ↦ true | disconnected ↦ false ]

module _ (env : Env) where
  abbrev pub sub_event : Bytes → Bytes → ClientObject → ClientObject
  sub_event action topic o = on_state (bridge_event env.now action topic []) o

  unfoldable pub is_authorized : Bytes → Option ClientObject → Bytes → Bool
  unfolding check_topic_auth
  is_authorized action none topic = false
  is_authorized action (some o) topic =
      check_topic_auth env.auth action o.state.client_id o.state.username o.state.remote_ip topic
