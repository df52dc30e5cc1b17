-- ===== src/Broker/Reachable/Delivered.antt =====
-- broker/client.go, ProcessPublishMessage, in a state that the broker can get to.
use hmq.Prelude.{
  ℕ, ◌≡◌, refl, sym, ap, subst, ◌∙◌, Bool, true, false, not, nat_eq, some, some_inj, List, [], map,
  Bytes, err, length, if◌then◌else◌,
}
use hmq.Prelude.Heap.{get_elem?}
use hmq.Client
use hmq.Client.{ControlPacket, Client, Status, connected, disconnected, writer_packet, write_on}
use hmq.Packets.{PublishPacket}
use hmq.Topics.Level.{invalid_qos}
use hmq.Topics.Snode.{Snode, Matched, smatch}
use hmq.Topics.MemTopics.{MemTopics, valid_qos, subscribers, retain}
use hmq.Topics.Snode.Spec.{found}
use hmq.Topics.MemTopics.Delivery.{Reads, subscribers-eq}
use hmq.Broker.Deliver.Untouched.{publish_each-other, publish_shared-other}
use hmq.Topics.MemTopics.Pointers.{sroot-retain}
use hmq.Broker.{ClientType, client, Subscription, ClientObject, Broker, Env}
use hmq.Broker.Deliver.{publish_each, retained_first, deliver, process_publish_message}
use hmq.Broker.View.{link, view, AreLive, get_elem?-link}
use hmq.Broker.Reachable.{Reachable, Reachable-Agrees}
use hmq.Broker.Reachable.Publication.{Follows, Reachable-Receives}
use hmq.Broker.Deliver.Sent.{HasSent, publish_each-hands, publish_shared-HasSent}

subscribers-root :
    (t t' : MemTopics) (topic : Bytes) (qos : ℕ)
    → t'.sroot ≡ t.sroot
    → subscribers t' topic qos ≡ subscribers t topic qos
unfolding subscribers
subscribers-root t t' topic qos e =
    ap
      (λ (r : Snode).
        if not (valid_qos qos) then err invalid_qos else smatch (length topic) topic qos r ([], []))
      e

-- What Retain leaves, whether it is called or not.
left_alone :
    (b : Bool) (packet : PublishPacket) (w : Broker)
    → let w' = (if b then record w { topics = (retain w.topics packet).0 } else w) in
      (w'.topics.sroot ≡ w.topics.sroot)
      × (w'.subscriptions ≡ w.subscriptions)
      × ((view w').links ≡ (view w).links)
left_alone true packet w = (sroot-retain w.topics packet, refl, refl)
left_alone false packet w = (refl, refl, refl)

objects_left :
    (b : Bool) (packet : PublishPacket) (w : Broker) (a : ℕ)
    → get_elem? (if b then record w { topics = (retain w.topics packet).0 } else w).objects a
      ≡ get_elem? w.objects a
objects_left true packet w a = refl
objects_left false packet w a = refl

-- In every state that the broker can get to, for a client that is connected, a valid QoS and a topic
-- all of whose levels are read: when ProcessPublishMessage is called with a message for the topic,
-- by a publisher of any type, the message is handed to the client's connection if the client has a
-- subscription that is not shared, with a filter that matches the topic.
pub process_publish_message-delivers :
    (env : Env) (typ : ClientType) (packet : PublishPacket) (w : Broker) (ls : List Bytes) (a p : ℕ)
    (o : ClientObject) (s : Subscription)
    → Reachable w
    → get_elem? w.objects a ≡ some o
    → o.typ ≡ client
    → valid_qos packet.qos ≡ true
    → Reads packet.topic_name ls
    → Follows w o ls p
    → get_elem? w.subscriptions p ≡ some s
    → s.share ≡ false
    → HasSent (process_publish_message env typ packet w) a (Client.publish packet)
unfolding process_publish_message deliver
process_publish_message-delivers env typ packet w ls a p o s reach e c q r fol f own =
    let ag = Reachable-Agrees reach in
    let here = get_elem?-link w.objects a o e in
    let ((m, g, i), (u, f', mine)) =
      (Reachable-Receives w packet.topic_name ls packet.qos a p o reach e c q r).1 fol in
    let w' = retained_first packet w in
    let (root, subs, links) = left_alone packet.retain packet w in
    let mine' : s.client ≡ a = ap (λ (s : Subscription). s.client) (some_inj (sym f ∙ f')) ∙ mine in
    let hit =
      publish_each-hands env packet a typ p s m.0 w' [] i (ap (λ x. get_elem? x p) subs ∙ f) mine'
        own q (subst AreLive (sym links) ag.live)
        (link o, ap (λ ls. get_elem? ls a) links ∙ here, c, fol.0, ag.live a (link o) here fol.0) in
    let each = publish_each env typ packet m.0 (w', []) in
    subst (λ x. HasSent (deliver env typ packet x w') a (Client.publish packet))
      (sym (subscribers-root w.topics w'.topics packet.topic_name packet.qos root ∙ g))
      (publish_shared-HasSent env packet a (Client.publish packet) each.1 each.0 hit)

-- In every state that the broker can get to, for an object of the type CLIENT, a valid QoS and a
-- topic all of whose levels are read: when ProcessPublishMessage is called with a message for the
-- topic, by a publisher of any type, and the client is not connected or has no subscription with a
-- filter that matches the topic, then the client is left as it is.
pub process_publish_message-untouched :
    (env : Env) (typ : ClientType) (packet : PublishPacket) (w : Broker) (ls : List Bytes) (a : ℕ)
    (o : ClientObject)
    → Reachable w
    → get_elem? w.objects a ≡ some o
    → o.typ ≡ client
    → valid_qos packet.qos ≡ true
    → Reads packet.topic_name ls
    → ((p : ℕ) → ¬ Follows w o ls p)
    → get_elem? (process_publish_message env typ packet w).objects a ≡ some o
unfolding process_publish_message deliver
process_publish_message-untouched env typ packet w ls a o reach e c q r none_follows =
    let ag = Reachable-Agrees reach in
    let m : Matched = (found ls w.topics.sroot, map (λ _. packet.qos) (found ls w.topics.sroot)) in
    let g = subscribers-eq w.topics packet.topic_name ls packet.qos q r in
    let w' = retained_first packet w in
    let (root, subs, links) = left_alone packet.retain packet w in
    let others =
      publish_each-other env packet a typ m.0 w' []
        (λ p s i f mine. none_follows p (
          (Reachable-Receives w packet.topic_name ls packet.qos a p o reach e c q r).0
            ((m, g, i), (s, ap (λ x. get_elem? x p) (sym subs) ∙ f, mine))))
        tt (subst AreLive (sym links) ag.live) in
    let each = publish_each env typ packet m.0 (w', []) in
    subst (λ x. get_elem? (deliver env typ packet x w').objects a ≡ some o)
      (sym (subscribers-root w.topics w'.topics packet.topic_name packet.qos root ∙ g))
      (publish_shared-other env packet a each.1 each.0 others.1
        ∙ others.0
        ∙ objects_left packet.retain packet w a
        ∙ e)
