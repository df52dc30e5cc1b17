-- ===== src/Topics/MemTopics.antt =====
-- broker/lib/topics/memtopics.go, memTopics: the provider "mem". A method returns the provider
-- after it; its locks make each method one step.
pub mod Valid
pub mod Delivery
pub mod Pointers
pub mod Retention
pub mod Descents
pub mod Fuel
use hmq.Prelude.{
  ℕ, ◌<◌, ◌≡◌, Bool, true, false, ◌||◌, Option, none, some, List, [], ◌∷◌, Bytes, Result, ok, err,
  not, ◌==◌, nat_eq, ltb, if◌then◌else◌, length, is_empty,
}
use hmq.Packets.{PublishPacket}
use hmq.Topics.Level.{TopicError, invalid_qos, nil_subscriber, no_topic}
use hmq.Topics.Value.{Value}
use hmq.Topics.Snode
use hmq.Topics.Snode.{Snode, Matched, sinsert, sremove, smatch}
use hmq.Topics.Rnode
use hmq.Topics.Rnode.{Rnode, rinsert_or_update, rremove, rmatch}

pub record MemTopics : Type 0 where
  pub sroot : Snode
  pub rroot : Rnode

-- NewMemProvider
abbrev pub new_mem_provider : MemTopics
new_mem_provider = record { sroot = Snode.new_snode; rroot = Rnode.new_rnode }

abbrev pub qos_at_most_once : ℕ
qos_at_most_once = 0

abbrev pub qos_at_least_once : ℕ
qos_at_least_once = 1

abbrev pub qos_exactly_once : ℕ
qos_exactly_once = 2

abbrev pub qos_failure : ℕ
qos_failure = 0x80

unfoldable pub valid_qos : ℕ → Bool
valid_qos qos = qos == qos_at_most_once || qos == qos_at_least_once || qos == qos_exactly_once

abbrev pub subscribed :
    MemTopics → ℕ → Snode × Option TopicError → MemTopics × ℕ × Option TopicError
subscribed t qos (s, none) = (record t { sroot = s }, qos, none)
subscribed t qos (s, some e) = (record t { sroot = s }, qos_failure, some e)

-- A nil subscriber is `none`. The result is the granted QoS and the error.
unfoldable pub subscribe : MemTopics → Bytes → ℕ → Option Value → MemTopics × ℕ × Option TopicError
unfolding valid_qos
subscribe t topic qos none =
    if not (valid_qos qos)
    then (t, qos_failure, some invalid_qos)
    else (t, qos_failure, some nil_subscriber)
subscribe t topic qos (some sub) =
    if not (valid_qos qos)
    then (t, qos_failure, some invalid_qos)
    else let granted = if ltb qos_exactly_once qos then qos_exactly_once else qos in
      subscribed t granted (sinsert (length topic) topic granted sub t.sroot)

abbrev pub unsubscribed : MemTopics → Result TopicError Snode → MemTopics × Option TopicError
unsubscribed t (ok s) = (record t { sroot = s }, none)
unsubscribed t (err e) = (t, some e)

unfoldable pub unsubscribe : MemTopics → Bytes → Option Value → MemTopics × Option TopicError
unsubscribe t topic sub = unsubscribed t (sremove (length topic) topic sub t.sroot)

-- The slices are emptied first, so what they held does not show.
unfoldable pub subscribers : MemTopics → Bytes → ℕ → Result TopicError Matched
unfolding valid_qos
subscribers t topic qos =
    if not (valid_qos qos)
    then err invalid_qos
    else smatch (length topic) topic qos t.sroot ([], [])

abbrev pub removed_retained : MemTopics → Result TopicError Rnode → MemTopics × Option TopicError
removed_retained t (ok r) = (record t { rroot = r }, none)
removed_retained t (err e) = (t, some e)

abbrev pub stored : MemTopics → Rnode × Option TopicError → MemTopics × Option TopicError
stored t (r, e) = (record t { rroot = r }, e)

-- An empty payload deletes the retained message.
unfoldable pub retain : MemTopics → PublishPacket → MemTopics × Option TopicError
retain t msg =
    if is_empty msg.payload
    then removed_retained t (rremove (length msg.topic_name) msg.topic_name t.rroot)
    else stored t (rinsert_or_update (length msg.topic_name) msg.topic_name msg t.rroot)

-- The messages are appended to the slice that is passed in.
unfoldable pub retained :
    MemTopics → Bytes → List PublishPacket → Result TopicError (List PublishPacket)
retained t topic msgs = rmatch (length topic) topic t.rroot msgs
