-- ===== src/Broker/Agrees/Publishing.antt =====
-- broker/client.go: processClientPublish and processRouterPublish behind their acknowledgement keep
-- the invariant.
use hmq.Prelude.{
  ℕ, ◌≡◌, sym, subst, ◌∙◌, Bool, true, false, bytes_eq, inl, inr, some, some_inj, Bool-cases,
  if◌then◌else◌,
}
use hmq.Prelude.Heap.{get_elem?}
use hmq.Packets.{PublishPacket}
use hmq.Client.{Client}
use hmq.Client.Link.{
  admit_client_publish-Keeps, admit_router_publish-Keeps, process_pubrel-Keeps,
  process_puback-Keeps, process_pubrec-Keeps, process_pubcomp-Keeps, process_ping-Keeps, IsLive,
}
use hmq.Client.Link
use hmq.Topics.MemTopics.{subscribers, retain}
use hmq.Broker.{ClientType, ClientObject, Broker, Env, on_client, on_state}
use hmq.Broker.Deliver.{process_publish_message, retained_first, deliver}
use hmq.Broker.Message.{process_admitted}
use hmq.Broker.View.{view, view-on_state}
use hmq.Broker.View.Writes.{deliver-IsQuiet}
use hmq.Broker.Agrees.{Agrees}
use hmq.Broker.Agrees.Steps.{Keeps, quiet-Agrees, retain-Agrees}

pub choose :
    (b : Bool) (x y : Broker)
    → Agrees (view x)
    → Agrees (view y)
    → Agrees (view (if b then x else y))
choose true x y agx agy = agx
choose false x y agx agy = agy

module _ (env : Env) where
  process_publish_message-Keeps :
      (typ : ClientType) (packet : PublishPacket) → Keeps (process_publish_message env typ packet)
  unfolding process_publish_message
  process_publish_message-Keeps typ packet w ag =
      let w' = retained_first packet w in
      quiet-Agrees (deliver env typ packet (subscribers w'.topics packet.topic_name packet.qos)) w'
        (deliver-IsQuiet env typ packet (subscribers w'.topics packet.topic_name packet.qos))
        (choose packet.retain (record w { topics = (retain w.topics packet).0 }) w
          (retain-Agrees (view w) packet ag) ag)

  pub process_admitted-Agrees :
      (a : ℕ) (o : ClientObject) (packet : PublishPacket) (r : Client × Bool) (w : Broker)
      → get_elem? w.objects a ≡ some o
      → Link.Keeps o.state r.0
      → Agrees (view w)
      → Agrees (view (process_admitted env a o.typ packet r w))
  unfolding process_admitted
  process_admitted-Agrees a o packet (c, b) w e k ag =
      let w' = on_client a (on_state (λ _. c)) w in
      let kept : Agrees (view w') =
        subst Agrees
          (sym (
            view-on_state (λ _. c) a w
              (λ x f. subst (λ (y : ClientObject). Link.Keeps y.state c) (some_inj (sym e ∙ f)) k)))
          ag in
      elim (Bool-cases b) [
        | inl h ↦ rw (h, process_admitted) (process_publish_message-Keeps o.typ packet w' kept)
        | inr h ↦ rw (h, process_admitted) kept
      ]
