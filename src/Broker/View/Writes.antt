-- ===== src/Broker/View/Writes.antt =====
-- The deliveries, the broadcasts and the calls of the delivery state leave the view of the broker.
use hmq.Prelude.{
  ℕ, ◌≡◌, refl, sym, subst, ◌∙◌, Bool, not, ◌&&◌, Option, none, some, List, [], ◌∷◌, Bytes, Result,
  ok, err, inl, inr, Option-cases, Bool-cases, length, is_empty,
}
use hmq.Prelude.Assoc.{Assoc}
use hmq.Prelude.Heap.{get_elem?}
use hmq.Packets.{PublishPacket}
use hmq.Client
use hmq.Client.{ControlPacket, writer_packet}
use hmq.Client.Link.{writer_packet-Keeps, publish_to-Keeps}
use hmq.Client.Outgoing.{publish_to}
use hmq.Topics.Level.{TopicError}
use hmq.Topics.Value.{Value}
use hmq.Topics.Snode.{Matched}
use hmq.Topics.MemTopics.{subscribers}
use hmq.Broker.{ClientType, Subscription, Broker, Env}
use hmq.Broker.Deliver.{
  write_packet, publish_sub, publish_one, publish_each, publish_shared, deliver, write_one,
  write_each, write_found, publish_message, write_routes, broadcast, broadcast_unsubscribe,
  notification, notify, subscription_at, is_client, leads_to_router,
}
use hmq.Broker.View.{View, view, AreLive, on_live}

-- A step that leaves the view, so that the clients stay live.
abbrev pub IsQuiet : (Broker → Broker) → Type 0
IsQuiet f = (w : Broker) → AreLive (view w).links → view (f w) ≡ view w

pub IsQuiet-id : IsQuiet (λ w. w)
IsQuiet-id w live = refl

pub IsQuiet-then : (f g : Broker → Broker) → IsQuiet f → IsQuiet g → IsQuiet (λ w. g (f w))
IsQuiet-then f g qf qg w live =
    let e = qf w live in qg (f w) (subst (λ (v : View). AreLive v.links) (sym e) live) ∙ e

module _ (env : Env) where
  pub write_packet-IsQuiet :
      (a : ℕ) (packet : ControlPacket) → IsQuiet (λ w. (write_packet env a packet w).0)
  unfolding write_packet
  write_packet-IsQuiet a packet w live =
      on_live (λ c. (writer_packet (env.network a) packet c).0) a w live
        (λ c l. writer_packet-Keeps (env.network a) packet c l)

  pub publish_sub-IsQuiet :
      (packet : PublishPacket) (s : Subscription) → IsQuiet (publish_sub env packet s)
  unfolding publish_sub
  publish_sub-IsQuiet packet s w live =
      on_live (publish_to (env.network s.client) env.now packet) s.client w live
        (λ c l. publish_to-Keeps (env.network s.client) env.now packet c l)

  pub view-publish_one :
      (typ : ClientType) (packet : PublishPacket) (s : Option Subscription) (w : Broker)
      (qsub : List Subscription)
      → AreLive (view w).links
      → view (publish_one env typ packet s (w, qsub)).0 ≡ view w
  unfolding publish_one
  view-publish_one typ packet none w qsub live = refl
  view-publish_one typ packet (some s) w qsub live =
      elim (Bool-cases (leads_to_router (get_elem? w.objects s.client) && not (is_client typ))) [
        | inl b ↦ rw (b, publish_one)
        | inr b ↦ elim (Bool-cases s.share) [
          | inl b' ↦ rw (b, b', publish_one)
          | inr b' ↦ rw (b, b', publish_one) (publish_sub-IsQuiet packet s w live)
        ]
      ]

  view-publish_each :
      (typ : ClientType) (packet : PublishPacket) (vs : List Value) (w : Broker)
      (qsub : List Subscription)
      → AreLive (view w).links
      → view (publish_each env typ packet vs (w, qsub)).0 ≡ view w
  unfolding publish_each
  view-publish_each typ packet [] w qsub live = refl
  view-publish_each typ packet (x ∷ vs) w qsub live =
      let r = publish_one env typ packet (subscription_at w x) (w, qsub) in
      let e = view-publish_one typ packet (subscription_at w x) w qsub live in
      view-publish_each typ packet vs r.0 r.1 (subst (λ (v : View). AreLive v.links) (sym e) live)
      ∙ e

  publish_shared-IsQuiet :
      (packet : PublishPacket) (qsub : List Subscription)
      → IsQuiet (λ w. publish_shared env packet (w, qsub))
  unfolding publish_shared
  publish_shared-IsQuiet packet qsub w live = elim (Bool-cases (is_empty qsub)) [
    | inl b ↦ rw (b, publish_shared)
    | inr b ↦ elim (Option-cases (get_elem? qsub (env.random (length qsub)))) [
      | inl e ↦ rw (b, e, publish_shared)
      | inr (s, e) ↦ rw (b, e, publish_shared) (publish_sub-IsQuiet packet s w live)
    ]
  ]

  pub deliver-IsQuiet :
      (typ : ClientType) (packet : PublishPacket) (r : Result TopicError Matched)
      → IsQuiet (deliver env typ packet r)
  unfolding deliver
  deliver-IsQuiet typ packet (err e) w live = refl
  deliver-IsQuiet typ packet (ok (subs, qoss)) w live =
      let r = publish_each env typ packet subs (w, []) in
      let e = view-publish_each typ packet subs w [] live in
      publish_shared-IsQuiet packet r.1 r.0 (subst (λ (v : View). AreLive v.links) (sym e) live) ∙ e

  write_one-IsQuiet :
      (packet : PublishPacket) (s : Option Subscription) → IsQuiet (write_one env packet s)
  unfolding write_one
  write_one-IsQuiet packet none w live = refl
  write_one-IsQuiet packet (some s) w live =
      write_packet-IsQuiet s.client (Client.publish packet) w live

  write_each-IsQuiet :
      (packet : PublishPacket) (vs : List Value) → IsQuiet (write_each env packet vs)
  unfolding write_each
  write_each-IsQuiet packet [] w live = refl
  write_each-IsQuiet packet (x ∷ vs) w live =
      IsQuiet-then (write_one env packet (subscription_at w x)) (write_each env packet vs)
        (write_one-IsQuiet packet (subscription_at w x)) (write_each-IsQuiet packet vs) w live

  write_found-IsQuiet :
      (packet : PublishPacket) (r : Result TopicError Matched) → IsQuiet (write_found env packet r)
  unfolding write_found
  write_found-IsQuiet packet (err e) w live = refl
  write_found-IsQuiet packet (ok (subs, qoss)) w live = write_each-IsQuiet packet subs w live

  pub publish_message-IsQuiet : (packet : PublishPacket) → IsQuiet (publish_message env packet)
  unfolding publish_message
  publish_message-IsQuiet packet w live =
      write_found-IsQuiet packet (subscribers w.topics packet.topic_name packet.qos) w live

  write_routes-IsQuiet :
      (packet : ControlPacket) (rs : Assoc Bytes ℕ) → IsQuiet (write_routes env packet rs)
  unfolding write_routes
  write_routes-IsQuiet packet [] w live = refl
  write_routes-IsQuiet packet ((id, r) ∷ rs) w live =
      IsQuiet-then (λ w. (write_packet env r packet w).0) (write_routes env packet rs)
        (write_packet-IsQuiet r packet) (write_routes-IsQuiet packet rs) w live

  pub broadcast-IsQuiet : (packet : ControlPacket) → IsQuiet (broadcast env packet)
  unfolding broadcast
  broadcast-IsQuiet packet w live = write_routes-IsQuiet packet w.routes w live

  pub broadcast_unsubscribe-IsQuiet :
      (subs : Assoc Bytes ℕ) → IsQuiet (broadcast_unsubscribe env subs)
  unfolding broadcast_unsubscribe
  broadcast_unsubscribe-IsQuiet [] w live = refl
  broadcast_unsubscribe-IsQuiet (x ∷ subs) w live = broadcast-IsQuiet _ w live

  pub notify-IsQuiet : (id : Bytes) (online : Bool) → IsQuiet (notify env id online)
  unfolding notify
  notify-IsQuiet id online w live = publish_message-IsQuiet (notification env id online) w live
