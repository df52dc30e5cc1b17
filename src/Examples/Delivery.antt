-- ===== src/Examples/Delivery.antt =====
-- broker/lib/topics: two subscribers on a small tree of topics.
use hmq.Prelude.{◌≡◌, refl, ◌⊎◌, ◌↔◌, true, ℕ, ◌≤◌, none, some, List, [], ◌∷◌, Bytes, codes, arith}
use hmq.Topics.Level.{
  next_topic_level, no_topic_for_subscriber, mwc_not_last, mwc, swc, topic_path, path_of, of_levels,
}
use hmq.Topics.Filter.{Matches}
use hmq.Topics.Value.{Value, subscription, equal}
use hmq.Topics.Snode.{sinsert, sremove}
use hmq.Topics.Snode.Spec.{subs_at}
use hmq.Topics.MemTopics.{MemTopics, new_mem_provider, valid_qos, subscribe, unsubscribe}
use hmq.Topics.MemTopics.Valid.{new_mem_provider-IsValid, subscribe-IsValid}
use hmq.Topics.MemTopics.Delivery.{
  Reads, HasFilter, Receives, Receives-iff, Receives-subscribe, HasFilter-unsubscribe,
  unsubscribe_fails, subs_at-subscribe_failed, Receives-leading_slash,
}

abbrev wild : Bytes
wild = codes "a/+"

abbrev topic : Bytes
topic = codes "a/b"

abbrev filter_levels : List Bytes
filter_levels = codes "a" ∷ swc ∷ []

abbrev topic_levels : List Bytes
topic_levels = codes "a" ∷ codes "b" ∷ []

abbrev alice : Value
alice = subscription 1

abbrev bob : Value
bob = subscription 2

abbrev one_subscriber : MemTopics
one_subscriber = (subscribe new_mem_provider wild 1 (some alice)).0

wild-Reads : Reads wild filter_levels
unfolding path_of
wild-Reads = refl

topic-Reads : Reads topic topic_levels
unfolding path_of
topic-Reads = refl

valid : (q : ℕ) → q ≤ 2 → valid_qos q ≡ true
unfolding valid_qos
valid q h = ground arith

Receives-iff_example :
    Receives one_subscriber topic 1 alice
    ↔ ((ks : List Bytes) × Matches ks topic_levels × HasFilter one_subscriber ks alice)
Receives-iff_example =
    Receives-iff one_subscriber topic topic_levels 1 alice
      (subscribe-IsValid new_mem_provider wild 1 (some alice) refl new_mem_provider-IsValid)
      (valid 1 (omega arith)) topic-Reads

Receives-subscribe_example :
    Receives (subscribe new_mem_provider wild 1 (some alice)).0 topic 2 alice ↔ (
      Receives new_mem_provider topic 2 alice
      ⊎ (Matches filter_levels topic_levels × (alice ≡ alice)))
Receives-subscribe_example =
    Receives-subscribe new_mem_provider wild topic filter_levels topic_levels 1 2 alice alice
      new_mem_provider-IsValid refl (valid 1 (omega arith)) (valid 2 (omega arith)) wild-Reads
      topic-Reads

unsubscribed : (unsubscribe one_subscriber wild (some alice)).1 ≡ none
unfolding unsubscribe subscribe valid_qos sremove next_topic_level sinsert equal
unsubscribed = refl

HasFilter-unsubscribe_example :
    HasFilter (unsubscribe one_subscriber wild (some alice)).0 filter_levels alice ↔ (
      HasFilter one_subscriber filter_levels alice
      × (¬ ((filter_levels ≡ filter_levels) × (alice ≡ alice))))
HasFilter-unsubscribe_example =
    HasFilter-unsubscribe one_subscriber wild filter_levels alice
      (subscribe-IsValid new_mem_provider wild 1 (some alice) refl new_mem_provider-IsValid) refl
      wild-Reads unsubscribed filter_levels alice

not_subscribed : (unsubscribe one_subscriber wild (some bob)).1 ≡ some no_topic_for_subscriber
unfolding unsubscribe subscribe valid_qos sremove next_topic_level sinsert equal
not_subscribed = refl

unsubscribe_fails_example :
    ((unsubscribe one_subscriber wild (some bob)).0 ≡ one_subscriber)
    × (¬ HasFilter one_subscriber filter_levels bob)
unsubscribe_fails_example =
    unsubscribe_fails one_subscriber wild filter_levels bob no_topic_for_subscriber
      (subscribe-IsValid new_mem_provider wild 1 (some alice) refl new_mem_provider-IsValid) refl
      wild-Reads not_subscribed

rejected : (subscribe one_subscriber (codes "a/#/b") 1 (some bob)).2 ≡ some mwc_not_last
unfolding subscribe valid_qos sinsert next_topic_level
rejected = refl

subs_at-subscribe_failed_example :
    subs_at filter_levels (subscribe one_subscriber (codes "a/#/b") 1 (some bob)).0.sroot
    ≡ subs_at filter_levels one_subscriber.sroot
subs_at-subscribe_failed_example =
    subs_at-subscribe_failed one_subscriber (codes "a/#/b") 1 (some bob) mwc_not_last rejected
      filter_levels

b-Reads : Reads (codes "b") (codes "b" ∷ [])
unfolding path_of
b-Reads = refl

Receives-leading_slash_example :
    Receives (subscribe new_mem_provider (codes "/b") 1 (some alice)).0 topic 0 alice
Receives-leading_slash_example =
    Receives-leading_slash new_mem_provider (codes "b") topic (codes "a") (codes "b" ∷ []) 1 0 alice
      new_mem_provider-IsValid refl (valid 1 (omega arith)) (valid 0 (omega arith)) b-Reads
      topic-Reads

all_levels : topic_path 7 (codes "a/#") ≡ of_levels (codes "a" ∷ mwc ∷ [])
unfolding topic_path next_topic_level
all_levels = refl
