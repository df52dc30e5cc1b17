-- ===== src/Examples/Access.antt =====
-- plugins/auth/authfile and plugins/bridge: a small list of rules, and the filters of both.
use hmq.Prelude.{
  ◌≡◌, refl, ◌⊎◌, inr, ◌↔◌, true, false, not, Bool, some, List, [], ◌∷◌, Memᴰ, Bytes, codes, ok,
  err, is_empty, bytes_eq,
}
use hmq.Prelude.Assoc.{Assoc, lookup}
use hmq.Go.{trim_space}
use hmq.Topics.Level.{mwc}
use hmq.Topics.Filter.{Matches}
use hmq.Acl.Spilt.{index_of_hash, subscribe_topic_spilt}
use hmq.Acl.Check.{
  AuthInfo, acl_sub, acl_pub, acl_pubsub, username, allow, deny, check_auth, check_topic_auth,
  pub_topic_match, sub_topic_match,
}
use hmq.Acl.Check.Rules.{Allows, check_topic_auth_iff, check_auth-deny}
use hmq.Acl.Check.Topics.{malformed_covers_all}
use hmq.Acl.Config.{acl_config_load}
use hmq.Acl.Config.Loaded.{AreRules, acl_config_load-AreRules}
use hmq.Bridge
use hmq.Bridge.{Elements}
use hmq.Bridge.Kafka
use hmq.Bridge.Kafka.{KafkaConfig, match_topic, publish_topics}
use hmq.Bridge.Kafka.Laws.{match_levels-Matches, publish_topics_iff}

abbrev rule : AuthInfo
rule = record {
  auth = allow;
  typ = username;
  val = codes "joe";
  pub_sub = acl_pub;
  topics = codes "a/+" ∷ [];
}

check_topic_auth_iff_example :
    (check_topic_auth
        (rule ∷ [])
        acl_pub
        (codes "10.0.0.1")
        (codes "joe")
        (codes "lamp")
        (codes "a/b")
      ≡ true)
    ↔ Allows acl_pub (codes "10.0.0.1") (codes "joe") (codes "lamp") (codes "a/b") (rule ∷ [])
check_topic_auth_iff_example =
    check_topic_auth_iff acl_pub (codes "10.0.0.1") (codes "joe") (codes "lamp") (codes "a/b")
      (rule ∷ [])

check_auth-deny_example :
    check_auth (record rule { auth = deny; pub_sub = acl_pubsub }) acl_sub
    ≡ not (check_auth (record rule { auth = allow; pub_sub = acl_pubsub }) acl_sub)
check_auth-deny_example = check_auth-deny rule acl_pubsub acl_sub (inr (inr refl)) (inr refl)

malformed : subscribe_topic_spilt (codes "a/#/b") ≡ err index_of_hash
unfolding subscribe_topic_spilt
malformed = refl

malformed_covers_all_example :
    (pub_topic_match (codes "c") (codes "a/#/b") ≡ true)
    × (sub_topic_match (codes "c") (codes "a/#/b") ≡ true)
malformed_covers_all_example =
    malformed_covers_all (codes "a/#/b") (codes "c") index_of_hash malformed

abbrev content : Bytes
content = codes "allow username joe 2 a/+"

abbrev infos : List AuthInfo
infos = rule ∷ []

loads : acl_config_load (some content) ≡ ok infos
unfolding acl_config_load
loads = refl

acl_config_load-AreRules_example : AreRules infos
acl_config_load-AreRules_example = acl_config_load-AreRules (some content) infos loads

blank : trim_space (codes "  ") ≡ []
unfolding trim_space
blank = refl

abbrev below_a : List Bytes
below_a = codes "a" ∷ mwc ∷ []

match_levels-Matches_example :
    (Kafka.match_levels below_a (codes "a" ∷ codes "b" ∷ []) ≡ true)
    ↔ Matches below_a (codes "a" ∷ codes "b" ∷ [])
match_levels-Matches_example =
    match_levels-Matches below_a (codes "a" ∷ codes "b" ∷ []) ((λ e. cc), ((λ e. refl), tt))

abbrev config : KafkaConfig
config = record {
  connect_topic = [];
  subscribe_topic = [];
  publish_topic = codes "messages";
  unsubscribe_topic = [];
  disconnect_topic = [];
  deliver_map = (codes "a/#", codes "below-a") ∷ [];
}

abbrev event : Elements
event = record {
  client_id = codes "lamp";
  username = codes "joe";
  topic = codes "a/b";
  payload = codes "on";
  timestamp = 3;
  size = 0;
  action = Bridge.publish;
}

publish_topics_iff_example :
    (topics : Assoc Bytes Bool) × (publish_topics config event ≡ some topics)
    × ((lookup (codes "below-a") topics ≡ some true)
        ↔ ((config.publish_topic ≡ codes "below-a") × (is_empty (codes "below-a") ≡ false))
          ⊎ ((reg : Bytes) × Memᴰ (reg, codes "below-a") config.deliver_map
              × (match_topic reg event.topic ≡ true)))
publish_topics_iff_example = publish_topics_iff config event (codes "below-a") refl
