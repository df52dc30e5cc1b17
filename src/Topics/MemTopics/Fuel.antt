-- ===== src/Topics/MemTopics/Fuel.antt =====
-- broker/lib/topics/memtopics.go: the fuel of the provider's calls.
use hmq.Prelude.{
  ℕ, ◌≢◌, ◌∙◌, ap, inl, inr, Option, none, some, some_inj, List, [], Bytes, bytes_eq, err,
  Result-cases, Bool-cases, length, ltb, is_empty, if◌then◌else◌, arith,
}
use hmq.Packets.{PublishPacket}
use hmq.Topics.Level.{TopicError, out_of_fuel}
use hmq.Topics.Value.{Value}
use hmq.Topics.Snode.{Snode, sinsert, sremove}
use hmq.Topics.Rnode.{rremove}
use hmq.Topics.MemTopics.{
  MemTopics, qos_exactly_once, valid_qos, subscribed, subscribe, unsubscribe, subscribers, retain,
  retained,
}
use hmq.Topics.MemTopics.Descents.{
  Ends, IsReal, smatch-Ends, sremove-Ends, rremove-Ends, rmatch-Ends, sinsert-IsReal,
  rinsert_or_update-IsReal,
}

subscribed-IsReal :
    (t : MemTopics) (granted : ℕ) (r : Snode × Option TopicError)
    → IsReal r.1
    → IsReal (subscribed t granted r).2
subscribed-IsReal t granted (s, none) h = h
subscribed-IsReal t granted (s, some e) h = h

module _ (t : MemTopics) (topic : Bytes) where
  subscribe-IsReal : (qos : ℕ) (sub : Option Value) → IsReal (subscribe t topic qos sub).2
  unfolding subscribe
  subscribe-IsReal qos none = elim (Bool-cases (valid_qos qos)) [
    | inl b ↦ rw (b, subscribe) (λ e. cc)
    | inr b ↦ rw (b, subscribe) (λ e. cc)
  ]
  subscribe-IsReal qos (some sub) = elim (Bool-cases (valid_qos qos)) [
    | inl b ↦
        let granted = if ltb qos_exactly_once qos then qos_exactly_once else qos in
        rw (b, subscribe)
          (subscribed-IsReal t granted (sinsert (length topic) topic granted sub t.sroot)
            (sinsert-IsReal (length topic) topic granted sub t.sroot (omega arith)))
    | inr b ↦ rw (b, subscribe) (λ e. cc)
  ]

  unsubscribe-IsReal : (sub : Option Value) → IsReal (unsubscribe t topic sub).1
  unfolding unsubscribe
  unsubscribe-IsReal sub =
      let h = sremove-Ends (length topic) topic sub t.sroot (omega arith) in
      elim (Result-cases (sremove (length topic) topic sub t.sroot)) [
        | inl (s, e) ↦ rw (e, unsubscribe) (λ q. cc)
        | inr (x, e) ↦ rw (e, unsubscribe) (λ q. h (e ∙ ap err (some_inj q)))
      ]

  subscribers-Ends : (qos : ℕ) → Ends (subscribers t topic qos)
  unfolding subscribers
  subscribers-Ends qos = elim (Bool-cases (valid_qos qos)) [
    | inl b ↦
        rw (b, subscribers) (smatch-Ends (length topic) topic qos t.sroot ([], []) (omega arith))
    | inr b ↦ rw (b, subscribers) (λ e. cc)
  ]

  retained-Ends : (msgs : List PublishPacket) → Ends (retained t topic msgs)
  unfolding retained
  retained-Ends msgs = rmatch-Ends (length topic) topic t.rroot msgs (omega arith)

retain-IsReal : (t : MemTopics) (msg : PublishPacket) → IsReal (retain t msg).1
unfolding retain
retain-IsReal t msg =
    let topic = msg.topic_name in
    let h = rremove-Ends (length topic) topic t.rroot (omega arith) in
    elim (Bool-cases (is_empty msg.payload)) [
      | inl b ↦ elim (Result-cases (rremove (length topic) topic t.rroot)) [
        | inl (s, e) ↦ rw (b, e, retain) (λ q. cc)
        | inr (x, e) ↦ rw (b, e, retain) (λ q. h (e ∙ ap err (some_inj q)))
      ]
      | inr b ↦
          rw (b, retain) (rinsert_or_update-IsReal (length topic) topic msg t.rroot (omega arith))
    ]

-- The recursion on the levels of a topic ends in every call: the fuel that Subscribe, Unsubscribe,
-- Subscribers, Retain and Retained give it, the length of the topic, is enough for every store,
-- topic, QoS, subscriber and message, where the topic is malformed too; an error is one of the code's.
pub calls_end :
    (t : MemTopics) (topic : Bytes) (qos : ℕ) (sub : Option Value) (msg : PublishPacket)
    (msgs : List PublishPacket)
    → ((subscribe t topic qos sub).2 ≢ some out_of_fuel)
      × ((unsubscribe t topic sub).1 ≢ some out_of_fuel)
      × (subscribers t topic qos ≢ err out_of_fuel)
      × ((retain t msg).1 ≢ some out_of_fuel)
      × (retained t topic msgs ≢ err out_of_fuel)
calls_end t topic qos sub msg msgs = (
  subscribe-IsReal t topic qos sub,
  unsubscribe-IsReal t topic sub,
  subscribers-Ends t topic qos,
  retain-IsReal t msg,
  retained-Ends t topic msgs,
)
