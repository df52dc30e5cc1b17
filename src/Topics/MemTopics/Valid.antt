-- ===== src/Topics/MemTopics/Valid.antt =====
-- The well-formedness of the provider's two trees under its methods.
use hmq.Prelude.{
  ℕ, refl, inl, inr, Option, none, some, Bytes, Result-cases, Bool-cases, length, is_empty,
}
use hmq.Packets.{PublishPacket}
use hmq.Topics.Tree.{IsTree}
use hmq.Topics.Level.{TopicError}
use hmq.Topics.Value.{Value, NotFunc}
use hmq.Topics.Snode.{Snode, sremove}
use hmq.Topics.Snode.Spec.{IsSnode}
use hmq.Topics.Snode.Subscribed.{sinsert-IsTree}
use hmq.Topics.Snode.Kept.{sremove-IsTree}
use hmq.Topics.Rnode.{rremove}
use hmq.Topics.Rnode.Spec.{IsRnode}
use hmq.Topics.Rnode.Retained.{rinsert_or_update-IsRnode}
use hmq.Topics.Rnode.Removed.{rremove-IsRnode}
use hmq.Topics.MemTopics.{
  new_mem_provider, MemTopics, valid_qos, subscribed, subscribe, unsubscribe, retain,
}

pub record IsValid (t : MemTopics) : Type 0 where
  pub subscriptions : IsSnode t.sroot
  pub messages : IsRnode t.rroot

-- The provider at first.
pub new_mem_provider-IsValid : IsValid new_mem_provider
unfolding IsTree
new_mem_provider-IsValid = record { subscriptions = ((refl, tt), tt); messages = (tt, tt) }

subscribed-IsValid :
    (t : MemTopics) (qos : ℕ) (r : Snode × Option TopicError)
    → IsValid t
    → IsSnode r.0
    → IsValid (subscribed t qos r).0
subscribed-IsValid t qos (s, none) v w = record { subscriptions = w; messages = v.messages }
subscribed-IsValid t qos (s, some e) v w = record { subscriptions = w; messages = v.messages }

-- Subscribe with a subscriber that is nil or no function value keeps both trees well-formed, also
-- where it fails.
pub subscribe-IsValid :
    (t : MemTopics) (topic : Bytes) (qos : ℕ) (sub : Option Value)
    → NotFunc sub
    → IsValid t
    → IsValid (subscribe t topic qos sub).0
unfolding subscribe
subscribe-IsValid t topic qos none nf v = elim (Bool-cases (valid_qos qos)) [
  | inl b ↦ rw (b, subscribe) v
  | inr b ↦ rw (b, subscribe) v
]
subscribe-IsValid t topic qos (some sub) nf v = elim (Bool-cases (valid_qos qos)) [
  | inl b ↦
      rw (b, subscribe)
        (subscribed-IsValid t _ _ v
          (sinsert-IsTree (length topic) topic _ sub t.sroot nf v.subscriptions))
  | inr b ↦ rw (b, subscribe) v
]

-- Unsubscribe with a subscriber that is nil or no function value keeps both trees well-formed.
pub unsubscribe-IsValid :
    (t : MemTopics) (topic : Bytes) (sub : Option Value)
    → NotFunc sub
    → IsValid t
    → IsValid (unsubscribe t topic sub).0
unfolding unsubscribe
unsubscribe-IsValid t topic sub nf v =
    elim (Result-cases (sremove (length topic) topic sub t.sroot)) [
      | inl (s, e) ↦
          rw (e, unsubscribe)
            (record {
              subscriptions =
                  sremove-IsTree (length topic) topic sub t.sroot s nf v.subscriptions e;
              messages = v.messages;
            })
      | inr (x, e) ↦ rw (e, unsubscribe) v
    ]

-- Retain keeps both trees well-formed.
pub retain-IsValid : (t : MemTopics) (msg : PublishPacket) → IsValid t → IsValid (retain t msg).0
unfolding retain
retain-IsValid t msg v = elim (Bool-cases (is_empty msg.payload)) [
  | inl b ↦ elim (Result-cases (rremove (length msg.topic_name) msg.topic_name t.rroot)) [
    | inl (r, e) ↦
        rw (b, e, retain)
          (record {
            subscriptions = v.subscriptions;
            messages =
                rremove-IsRnode (length msg.topic_name) msg.topic_name t.rroot r v.messages e;
          })
    | inr (x, e) ↦ rw (b, e, retain) v
  ]
  | inr b ↦
      rw (b, retain)
        (record {
          subscriptions = v.subscriptions;
          messages =
              rinsert_or_update-IsRnode (length msg.topic_name) msg.topic_name msg t.rroot
                v.messages;
        })
]
