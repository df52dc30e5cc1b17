-- ===== src/Broker/Agrees/Remembered.antt =====
-- A client that is connected subscribes: the store of topics and its map, behind the two writes.
use hmq.Prelude.{
  ℕ, ◌≡◌, refl, sym, subst, Option, none, some, [], ◌∷◌, ◌++◌, Bytes, bytes_eq, length,
}
use hmq.Prelude.Assoc.{lookup}
use hmq.Prelude.Heap.{modify, get_elem?-modify_self}
use hmq.Topics.Level.{TopicError}
use hmq.Topics.Value.{subscription}
use hmq.Topics.MemTopics.{MemTopics, subscribe}
use hmq.Topics.MemTopics.Valid.{subscribe-IsValid}
use hmq.Topics.MemTopics.Delivery.{HasFilter-subscribe, subs_at-subscribe_failed}
use hmq.Topics.MemTopics.Pointers.{subscribe-Reads}
use hmq.Broker.{client, Subscription, Broker, on_client}
use hmq.Broker.Subscribe.{remember, subscribe_new}
use hmq.Broker.View.{View, view, on_client-link}
use hmq.Broker.Agrees.Links.{remember_link}
use hmq.Broker.Agrees.Add.{topics-Agrees, alloc-Agrees, add-Agrees}
use hmq.Broker.Agrees.Steps.{Serves}

-- A Subscribe for a new subscription of the client, where it fails and where it succeeds.
module _ (a : ℕ) (t : Bytes) (s : Subscription) (v : View) where
  abbrev result : MemTopics × ℕ × Option TopicError
  result = subscribe v.topics s.topic s.qos (some (subscription (length v.subscriptions)))

  pub failed-Serves :
      (x : TopicError)
      → Serves a v
      → result.2 ≡ some x
      → Serves a (record v { topics = result.0; subscriptions = v.subscriptions ++ s ∷ [] })
  failed-Serves x g h = record {
    agrees =
        alloc-Agrees (record v { topics = result.0 }) s
          (topics-Agrees v result.0 g.agrees
            (subscribe-IsValid v.topics s.topic s.qos _ refl g.agrees.valid)
            (subs_at-subscribe_failed v.topics s.topic s.qos _ x h));
    link = g.link;
    here = g.here;
    online = g.online;
  }

  pub added-Serves :
      (g : Serves a v)
      → (g.link.typ ≡ client → lookup t g.link.sub_map ≡ none)
      → s.client ≡ a
      → result.2 ≡ none
      → Serves a (record v {
        topics = result.0;
        subscriptions = v.subscriptions ++ s ∷ [];
        links = modify a (remember_link t (length v.subscriptions)) v.links;
      })
  added-Serves g free mine h =
      let (q, (fs, r)) = subscribe-Reads v.topics s.topic s.qos _ h in
      record {
        agrees =
            add-Agrees v a t g.link s result.0 fs g.agrees g.here g.online free mine r
              (subscribe-IsValid v.topics s.topic s.qos _ refl g.agrees.valid)
              (λ ks x. HasFilter-subscribe v.topics s.topic fs s.qos _ x refl q r ks);
        link = remember_link t (length v.subscriptions) g.link;
        here =
            get_elem?-modify_self v.links (remember_link t (length v.subscriptions)) g.link a
              g.here;
        online = g.online;
      }

-- The state behind the call of Subscribe and the write to the map.
pub remembered-view :
    (a : ℕ) (t : Bytes) (s : Subscription) (w : Broker)
    → view (on_client a (remember t (length w.subscriptions)) (subscribe_new s w).0)
      ≡ record (view w) {
        topics = (subscribe_new s w).0.topics;
        subscriptions = w.subscriptions ++ s ∷ [];
        links = modify a (remember_link t (length w.subscriptions)) (view w).links;
      }
unfolding subscribe_new
remembered-view a t s w =
    on_client-link (remember t (length w.subscriptions)) (remember_link t (length w.subscriptions))
      a (subscribe_new s w).0 (λ o e. refl)

pub remembered-Serves :
    (a : ℕ) (t : Bytes) (s : Subscription) (w : Broker)
    → (g : Serves a (view w)) → (g.link.typ ≡ client → lookup t g.link.sub_map ≡ none)
    → s.client ≡ a
    → (subscribe_new s w).2 ≡ none
    → Serves a (view (on_client a (remember t (length w.subscriptions)) (subscribe_new s w).0))
unfolding subscribe_new
remembered-Serves a t s w g free mine e =
    subst (Serves a) (sym (remembered-view a t s w)) (added-Serves a t s (view w) g free mine e)

pub unremembered-Serves :
    (a : ℕ) (s : Subscription) (w : Broker) (x : TopicError)
    → Serves a (view w)
    → (subscribe_new s w).2 ≡ some x
    → Serves a (view (subscribe_new s w).0)
unfolding subscribe_new
unremembered-Serves a s w x g h = failed-Serves a [] s (view w) x g h
