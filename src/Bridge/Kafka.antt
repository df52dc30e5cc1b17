-- ===== src/Bridge/Kafka.antt =====
-- plugins/bridge/kafka.go: the topics of Kafka that an event is sent to. The producer is not under
-- the model.
pub mod Laws
use hmq.Prelude.{
  ℕ, Bool, true, false, ◌||◌, not, Option, none, some, List, [], ◌∷◌, Bytes, codes, ◌==◌, bytes_eq,
  is_empty, if◌then◌else◌,
}
use hmq.Prelude.Assoc.{Assoc, insert}
use hmq.Go.{split, split_from}
use hmq.Bridge
use hmq.Bridge.{Elements}

pub record KafkaConfig : Type 0 where
  pub connect_topic : Bytes
  pub subscribe_topic : Bytes
  pub publish_topic : Bytes
  pub unsubscribe_topic : Bytes
  pub disconnect_topic : Bytes
  pub deliver_map : Assoc Bytes Bytes

-- kafka.go's match
unfoldable pub match_levels : List Bytes → List Bytes → Bool
match_levels [] topic = is_empty topic
match_levels (s ∷ sub_topic) [] = s == codes "#"
match_levels (s ∷ sub_topic) (t ∷ topic) =
    let rest = match_levels sub_topic topic in
    if s == codes "#" then true else if s == codes "+" || s == t then rest else false

unfoldable pub match_topic : Bytes → Bytes → Bool
unfolding match_levels split_from
match_topic sub_topic topic = match_levels (split b'/' sub_topic) (split b'/' topic)

-- `if topic != "" { topics[topic] = true }`
unfoldable pub add_configured : Bytes → Assoc Bytes Bool → Assoc Bytes Bool
add_configured topic topics = if is_empty topic then topics else insert topic true topics

-- The loop over DeliverMap
unfoldable pub add_delivered : Assoc Bytes Bytes → Bytes → Assoc Bytes Bool → Assoc Bytes Bool
unfolding match_topic
add_delivered [] topic topics = topics
add_delivered ((reg, to) ∷ m) topic topics =
    add_delivered m topic (if match_topic reg topic then insert to true topics else topics)

-- The set of topics that Publish makes; an action that is not one of the five is an error.
unfoldable pub publish_topics : KafkaConfig → Elements → Option (Assoc Bytes Bool)
unfolding add_configured add_delivered
publish_topics config e =
    if e.action == Bridge.connect
    then some (add_configured config.connect_topic [])
    else if e.action == Bridge.publish
    then some (add_delivered config.deliver_map e.topic (add_configured config.publish_topic []))
    else if e.action == Bridge.subscribe
    then some (add_configured config.subscribe_topic [])
    else if e.action == Bridge.unsubscribe
    then some (add_configured config.unsubscribe_topic [])
    else if e.action == Bridge.disconnect
    then some (add_configured config.disconnect_topic [])
    else none
