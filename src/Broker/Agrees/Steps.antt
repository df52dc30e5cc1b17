-- ===== src/Broker/Agrees/Steps.antt =====
-- The steps that the handlers of a client's subscriptions share, with the client connected.
use hmq.Prelude.{
  ℕ, ◌≡◌, refl, sym, ap, subst, ◌∙◌, inl, inr, true, false, none, some, some_inj, Bytes, bytes_eq,
  Option-cases, beq_refl,
}
use hmq.Prelude.Assoc.{lookup, lookup-delete}
use hmq.Prelude.Entries.{lookup-mem}
use hmq.Prelude.Heap.{get_elem?, modify, get_elem?-modify_self}
use hmq.Packets.{PublishPacket}
use hmq.Client.{connected, disconnected, Status}
use hmq.Topics.MemTopics.{retain}
use hmq.Topics.MemTopics.Valid.{retain-IsValid}
use hmq.Topics.MemTopics.Pointers.{sroot-retain}
use hmq.Topics.Snode.Spec.{subs_at}
use hmq.Broker.{Broker, on_client}
use hmq.Broker.Subscribe.{sub_of, drop_from_topics, forget, drop_sub, is_online}
use hmq.Broker.View.{Link, View, link, view, get_elem?-link, get_elem?-none, on_client-link}
use hmq.Broker.View.Writes.{IsQuiet}
use hmq.Broker.Agrees.{Owns, Agrees}
use hmq.Broker.Agrees.Links.{forget_link}
use hmq.Broker.Agrees.Drop.{detach-Agrees}
use hmq.Broker.Agrees.Dropped.{drop_topic}
use hmq.Broker.Agrees.Add.{topics-Agrees}

abbrev pub Keeps : (Broker → Broker) → Type 0
Keeps f = (w : Broker) → Agrees (view w) → Agrees (view (f w))

-- The invariant, while the client at an address is connected.
pub record Serves (a : ℕ) (v : View) : Type 0 where
  pub agrees : Agrees v
  pub link : Link
  pub here : get_elem? v.links a ≡ some link
  pub online : link.status ≡ connected

abbrev pub Attends : ℕ → (Broker → Broker) → Type 0
Attends a f = (w : Broker) → Serves a (view w) → Serves a (view (f w))

pub quiet-Agrees :
    (f : Broker → Broker) (w : Broker) → IsQuiet f → Agrees (view w) → Agrees (view (f w))
quiet-Agrees f w q ag = subst Agrees (sym (q w ag.live)) ag

pub quiet-Serves :
    (f : Broker → Broker) (a : ℕ) (w : Broker)
    → IsQuiet f
    → Serves a (view w)
    → Serves a (view (f w))
quiet-Serves f a w q g = subst (Serves a) (sym (q w g.agrees.live)) g

-- Retain keeps the invariant.
pub retain-Agrees :
    (v : View) (msg : PublishPacket)
    → Agrees v
    → Agrees (record v { topics = (retain v.topics msg).0 })
retain-Agrees v msg ag =
    topics-Agrees v (retain v.topics msg).0 ag (retain-IsValid v.topics msg ag.valid)
      (λ ks. ap (subs_at ks) (sroot-retain v.topics msg))

pub sub_of-Owns :
    (a : ℕ) (t : Bytes) (p : ℕ) (w : Broker)
    → Serves a (view w)
    → sub_of w a t ≡ some p
    → Owns (view w).links a t p
sub_of-Owns a t p w g h = elim (Option-cases (get_elem? w.objects a)) [
  | inl e ↦ absurd (missing (rw (e, sub_of) at h))
  | inr (o, e) ↦
      let e' = get_elem?-link w.objects a o e in
      (
        link o,
        e',
        ap (λ (l : Link). l.status) (some_inj (sym e' ∙ g.here)) ∙ g.online,
        lookup-mem t p o.sub_map (rw (e, sub_of) at h),
      )
]
  where
    missing : ¬ (none ≡ some p)
    missing q = cc

-- A subscription that is in the client's map is taken out of the store and of the map.
pub detach-view :
    (a : ℕ) (t : Bytes) (p : ℕ) (w : Broker)
    → view (on_client a (forget t) (drop_from_topics p w)) ≡ record (view w) {
      topics = drop_topic w.subscriptions p w.topics;
      links = modify a (forget_link t) (view w).links;
    }
unfolding drop_from_topics
detach-view a t p w =
    on_client-link (forget t) (forget_link t) a (drop_from_topics p w) (λ o e. refl)

pub detach-Serves :
    (a : ℕ) (t : Bytes) (p : ℕ) (w : Broker)
    → Serves a (view w)
    → Owns (view w).links a t p
    → Serves a (view (on_client a (forget t) (drop_from_topics p w)))
detach-Serves a t p w g o = subst (Serves a) (sym (detach-view a t p w)) (record {
  agrees = detach-Agrees (view w) a t p g.agrees o;
  link = forget_link t g.link;
  here = get_elem?-modify_self (view w).links (forget_link t) g.link a g.here;
  online = g.online;
})

-- Behind drop_sub there is room in the map for a subscription under the text.
pub record HasRoom (a : ℕ) (t : Bytes) (v : View) : Type 0 where
  pub serves : Serves a v
  pub free : lookup t serves.link.sub_map ≡ none

pub sub_of-none :
    (a : ℕ) (t : Bytes) (w : Broker) (l : Link)
    → get_elem? (view w).links a ≡ some l
    → sub_of w a t ≡ none
    → lookup t l.sub_map ≡ none
sub_of-none a t w l here h = elim (Option-cases (get_elem? w.objects a)) [
  | inl e ↦ absurd (missing (sym (get_elem?-none w.objects a e) ∙ here))
  | inr (o, e) ↦
      ap (λ (l : Link). lookup t l.sub_map) (some_inj (sym here ∙ get_elem?-link w.objects a o e))
      ∙ (rw (e, sub_of) at h)
]
  where
    missing : ¬ (none ≡ some l)
    missing q = cc

pub drop_sub-HasRoom :
    (a : ℕ) (t : Bytes) (w : Broker) → Serves a (view w) → HasRoom a t (view (drop_sub a t w))
unfolding drop_sub
drop_sub-HasRoom a t w g = elim (Option-cases (sub_of w a t)) [
  | inl e ↦ rw (e, drop_sub) (record { serves = g; free = sub_of-none a t w g.link g.here e })
  | inr (p, e) ↦
      rw (e, drop_sub)
        (subst (HasRoom a t) (sym (detach-view a t p w)) (record {
          serves = record {
            agrees = detach-Agrees (view w) a t p g.agrees (sub_of-Owns a t p w g e);
            link = forget_link t g.link;
            here = get_elem?-modify_self (view w).links (forget_link t) g.link a g.here;
            online = g.online;
          };
          free = lookup-delete t t g.link.sub_map ∙ (rw (beq_refl t) refl);
        }))
]

-- A client that is_online finds connected.
pub online-Serves :
    (a : ℕ) (w : Broker)
    → Agrees (view w)
    → is_online (get_elem? w.objects a) ≡ true
    → Serves a (view w)
online-Serves a w ag h = elim (Option-cases (get_elem? w.objects a)) [
  | inl e ↦ absurd (offline (rw (e, is_online) at h))
  | inr (o, e) ↦ record {
    agrees = ag;
    link = link o;
    here = get_elem?-link w.objects a o e;
    online = is_connected o.state.status (rw (e, is_online) at h);
  }
]
  where
    offline : ¬ (false ≡ true)
    offline q = cc

    is_connected :
        (s : Status) → (elim s [ connected ↦ true | disconnected ↦ false ]) ≡ true → s ≡ connected
    is_connected connected q = refl
    is_connected disconnected q = cc
