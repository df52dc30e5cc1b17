-- ===== src/Sessions/Session/Laws.antt =====
-- The topics of one session.
use hmq.Prelude.{ℕ, ◌≡◌, refl, true, none, some, Bytes, bytes_eq, if◌then◌else◌, ◌==◌}
use hmq.Prelude.Assoc.{lookup, lookup-insert, lookup-delete}
use hmq.Sessions.Session.{Session, add_topic, remove_topic}

-- On an initialised session, AddTopic sets the QoS of its topic and RemoveTopic drops it; every
-- other topic keeps its QoS, and neither fails.
pub lookup-add_remove_topic :
    (s : Session) (topic t : Bytes) (qos : ℕ)
    → s.initted ≡ true
    → ((add_topic topic qos s).1 ≡ none)
      × (lookup t (add_topic topic qos s).0.topics
          ≡ (if topic == t then some qos else lookup t s.topics))
      × ((remove_topic topic s).1 ≡ none)
      × (lookup t (remove_topic topic s).0.topics
          ≡ (if topic == t then none else lookup t s.topics))
unfolding add_topic remove_topic
lookup-add_remove_topic s topic t qos e =
    rw e (refl, lookup-insert topic t qos s.topics, refl, lookup-delete topic t s.topics)
