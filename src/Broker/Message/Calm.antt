-- ===== src/Broker/Message/Calm.antt =====
-- broker/client.go, processClientSubscribe: its loop, for a client with a session and a QoS for each
-- topic.
use hmq.Prelude.{
  ℕ, zero, suc, ◌≤◌, ◌≡◌, refl, ◌∙◌, Bool, false, Option, none, some, List, [], ◌∷◌, Bytes,
  bytes_eq, length, Bool-cases, Option-cases, inl, inr, Result, ok, err, arith,
}
use hmq.Prelude.Heap.{get_elem?, modify}
use hmq.Packets.{PublishPacket}
use hmq.Bridge
use hmq.Topics.Level.{TopicError}
use hmq.Topics.MemTopics
use hmq.Broker.{ClientObject, Subscription, Broker, Env, on_client}
use hmq.Broker.Auth.{sub}
use hmq.Broker.Subscribe.{
  share_of, sub_of, drop_from_topics, forget, drop_sub, subscribe_new, remember, session_of,
  add_session_topic, with_retained, collect_retained, sub_event, is_authorized,
}
use hmq.Broker.Subscribe.Clients.{
  client_subscribed, client_subscribe, client_subscribe_if, client_subscribe_one,
  client_subscribe_each,
}

-- No handler has panicked, and the client at an address has a session.
abbrev pub IsCalm : ℕ → ℕ → Broker → Type 0
IsCalm a s w = (w.panicked ≡ false) × (session_of (get_elem? w.objects a) ≡ some s)

session-modify :
    (f : ClientObject → ClientObject) (b a : ℕ) (os : List ClientObject)
    → ((o : ClientObject) → (f o).session ≡ o.session)
    → session_of (get_elem? (modify b f os) a) ≡ session_of (get_elem? os a)
session-modify f b a [] h = refl
session-modify f zero zero (o ∷ os) h = h o
session-modify f zero (suc a) (o ∷ os) h = refl
session-modify f (suc b) zero (o ∷ os) h = refl
session-modify f (suc b) (suc a) (o ∷ os) h = session-modify f b a os h

module _ (a s : ℕ) where
  on_client-IsCalm :
      (f : ClientObject → ClientObject) (b : ℕ) (w : Broker)
      → ((o : ClientObject) → (f o).session ≡ o.session)
      → IsCalm a s w
      → IsCalm a s (on_client b f w)
  on_client-IsCalm f b w h (p, e) = (p, session-modify f b a w.objects h ∙ e)

  drop_sub-IsCalm : (t : Bytes) (w : Broker) → IsCalm a s w → IsCalm a s (drop_sub a t w)
  unfolding drop_sub drop_from_topics
  drop_sub-IsCalm t w c = elim (Option-cases (sub_of w a t)) [
    | inl e ↦ rw (e, drop_sub) c
    | inr (p, e) ↦
        rw (e, drop_sub) (on_client-IsCalm (forget t) a (drop_from_topics p w) (λ o. refl) c)
  ]

  add_session_topic-IsCalm :
      (t : Bytes) (q : ℕ) (w : Broker) → IsCalm a s w → IsCalm a s (add_session_topic a t q w)
  unfolding add_session_topic
  add_session_topic-IsCalm t q w (p, e) = rw (e, add_session_topic) (p, e)

  with_retained-session :
      (r : Result TopicError (List PublishPacket)) (o : ClientObject)
      → (with_retained r o).session ≡ o.session
  with_retained-session (ok ms) o = refl
  with_retained-session (err x) o = refl

  collect_retained-IsCalm :
      (t : Bytes) (w : Broker) → IsCalm a s w → IsCalm a s (collect_retained a t w)
  unfolding collect_retained
  collect_retained-IsCalm t w c =
      on_client-IsCalm (λ o. with_retained (MemTopics.retained w.topics t o.rmsgs) o) a w
        (λ o. with_retained-session (MemTopics.retained w.topics t o.rmsgs) o) c

  client_subscribed-IsCalm :
      (t : Bytes) (p : ℕ) (x : Subscription) (w : Broker) (q : ℕ) (e : Option TopicError)
      → IsCalm a s w
      → IsCalm a s (client_subscribed a t p x (w, q, e)).0
  unfolding client_subscribed
  client_subscribed-IsCalm t p x w q (some e) c = c
  client_subscribed-IsCalm t p x w q none c =
      let w' = on_client a (remember t p) w in
      collect_retained-IsCalm x.topic (add_session_topic a t x.qos w')
        (add_session_topic-IsCalm t x.qos w' (on_client-IsCalm (remember t p) a w (λ o. refl) c))

  client_subscribe_if-IsCalm :
      (t : Bytes) (q : ℕ) (o : Option (Bool × Bytes × Bytes)) (w : Broker)
      → IsCalm a s w
      → IsCalm a s (client_subscribe_if a t (some q) o w).0
  unfolding client_subscribe_if client_subscribe subscribe_new
  client_subscribe_if-IsCalm t q none w c = c
  client_subscribe_if-IsCalm t q (some (share, group, topic)) w c =
      let x : Subscription = record {
        client = a;
        topic = topic;
        qos = q;
        share = share;
        group_name = group;
      } in
      let w' = drop_sub a t w in
      let r = subscribe_new x w' in
      client_subscribed-IsCalm t (length w'.subscriptions) x r.0 r.1 r.2 (drop_sub-IsCalm t w c)

module _ (env : Env) (a s : ℕ) where
  client_subscribe_one-IsCalm :
      (t : Bytes) (q : ℕ) (w : Broker)
      → IsCalm a s w
      → IsCalm a s (client_subscribe_one env a t (some q) w).0
  unfolding client_subscribe_one
  client_subscribe_one-IsCalm t q w c =
      elim (Bool-cases (is_authorized env sub (get_elem? w.objects a) t)) [
        | inl b ↦
            rw (b, client_subscribe_one)
              (client_subscribe_if-IsCalm a s t q (share_of t)
                (on_client a (sub_event env Bridge.subscribe t) w)
                (on_client-IsCalm a s (sub_event env Bridge.subscribe t) a w (λ o. refl) c))
        | inr b ↦ rw (b, client_subscribe_one) c
      ]

  pub client_subscribe_each-IsCalm :
      (ts : List Bytes) (qs : List ℕ) (w : Broker)
      → length ts ≤ length qs
      → IsCalm a s w
      → IsCalm a s (client_subscribe_each env a ts qs w).0
  unfolding client_subscribe_each
  client_subscribe_each-IsCalm [] qs w h c = c
  client_subscribe_each-IsCalm (t ∷ ts) [] w h c = absurd (omega arith)
  client_subscribe_each-IsCalm (t ∷ ts) (q ∷ qs) w h c =
      client_subscribe_each-IsCalm ts qs (client_subscribe_one env a t (some q) w).0 (omega arith)
        (client_subscribe_one-IsCalm t q w c)
