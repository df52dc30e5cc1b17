-- ===== src/Broker/Agrees/Add.antt =====
-- A subscription comes, or a client; and what leaves the subscriptions as they are.
use hmq.Prelude.{
  ℕ, ◌≡◌, ◌≢◌, refl, sym, ap, subst, ◌∙◌, ◌⊎◌, inl, inr, ◌↔◌, none, some, some_inj, List, [], ◌∷◌,
  ◌++◌, Memᴰ, Bytes, bytes_eq, length,
}
use hmq.Prelude.Assoc.{lookup}
use hmq.Prelude.Entries.{not-mem_lookup}
use hmq.Prelude.Heap.{
  get_elem?, modify, get_elem?-alloc, get_elem?-append, get_elem?-length, get_elem?-modify_self,
}
use hmq.Client.{connected}
use hmq.Topics.Value.{Value, subscription}
use hmq.Topics.Snode.Spec.{subs_at}
use hmq.Topics.MemTopics.{MemTopics}
use hmq.Topics.MemTopics.Valid.{IsValid}
use hmq.Topics.MemTopics.Delivery.{Reads, HasFilter}
use hmq.Broker.{client, Subscription}
use hmq.Broker.View.{Link, View}
use hmq.Broker.Agrees.{Owns, IsClient, Agrees}
use hmq.Broker.Agrees.Links.{
  remember_link, IsClient-of-modify, typ-modify, AreLive-modify, Owns-of-remember, Owns-remember,
  Owns-remember_new,
}

-- The store changes, but not its subscriptions: a message is retained, or a Subscribe fails.
pub topics-Agrees :
    (v : View) (t : MemTopics)
    → Agrees v
    → IsValid t
    → ((ks : List Bytes) → subs_at ks t.sroot ≡ subs_at ks v.topics.sroot)
    → Agrees (record v { topics = t })
topics-Agrees v t ag valid same = record {
  valid = valid;
  live = ag.live;
  stored = λ ks x h. ag.stored ks x (subst (Memᴰ x) (same ks) h);
  kept = λ b k p o.
      let (s, ks, e, c, r, h) = ag.kept b k p o in
      (s, ks, e, c, r, subst (Memᴰ (subscription p)) (sym (same ks)) h);
  apart = ag.apart;
  single = ag.single;
}

pub alloc-Agrees :
    (v : View) (s : Subscription)
    → Agrees v
    → Agrees (record v { subscriptions = v.subscriptions ++ s ∷ [] })
alloc-Agrees v s ag = record {
  valid = ag.valid;
  live = ag.live;
  stored = λ ks x h.
      let (p, u, z, e, r, m, em, own) = ag.stored ks x h in
      (p, u, z, get_elem?-append v.subscriptions s u p e, r, m, em, own);
  kept = λ b k p o.
      let (u, ks, e, c, r, h) = ag.kept b k p o in
      (u, ks, get_elem?-append v.subscriptions s u p e, c, r, h);
  apart = ag.apart;
  single = ag.single;
}

module _ (v : View) (a : ℕ) (t : Bytes) (l : Link) (s : Subscription) (store : MemTopics)
    (fs : List Bytes) where
  abbrev pub added : View
  added = record {
    topics = store;
    subscriptions = v.subscriptions ++ s ∷ [];
    links = modify a (remember_link t (length v.subscriptions)) v.links;
  }

  pub add-Agrees :
      Agrees v
      → get_elem? v.links a ≡ some l
      → l.status ≡ connected
      → (l.typ ≡ client → lookup t l.sub_map ≡ none)
      → s.client ≡ a
      → Reads s.topic fs
      → IsValid store
      → ((ks : List Bytes) (x : Value)
          → HasFilter store ks x
            ↔ (HasFilter v.topics ks x ⊎ ((ks ≡ fs) × (x ≡ subscription (length v.subscriptions)))))
      → Agrees added
  add-Agrees ag e on free mine reads valid table =
      let n = length v.subscriptions in
      let before = Owns-of-remember v.links a t n in
      let here : Owns added.links a t n = Owns-remember_new v.links a t n l e on in
      let is_client : (b : ℕ) → IsClient added.links b → IsClient v.links b =
        λ b. IsClient-of-modify (remember_link t n) v.links a b (λ l. refl) in
      let fresh : (b : ℕ) (k : Bytes) → ¬ Owns v.links b k n = λ b k o.
        let (u, ks, f, c, r, h) = ag.kept b k n o in get_elem?-length v.subscriptions u n f refl in
      let is_free : (b : ℕ) (k : Bytes) (p : ℕ)
          → IsClient v.links b
          → Owns v.links b k p
          → a ≡ b
          → k ≢ t =
        λ b k p c o ab kt. taken b k p c o ab kt (free (typ_of b c ab)) in
      record {
        valid = valid;
        live = AreLive-modify (remember_link t n) v.links a (λ l live. live) ag.live;
        stored = λ ks x h. elim ((table ks x).0 h) [
          | inl old ↦
              let (p, u, z, f, r, m, em, own) = ag.stored ks x old in
              let (m', em', same_typ) =
                typ-modify (remember_link t n) v.links a u.client m (λ l. refl) em in
              (
                p,
                u,
                z,
                get_elem?-append v.subscriptions s u p f,
                r,
                m',
                em',
                λ c.
                    let c' : IsClient v.links u.client = (m, em, sym same_typ ∙ c) in
                    let (k, o) = own (sym same_typ ∙ c) in
                    (k, Owns-remember v.links a t n u.client k p o (is_free u.client k p c' o)),
              )
          | inr (kf, z) ↦ (
            n,
            s,
            z,
            get_elem?-alloc v.subscriptions s,
            subst (Reads s.topic) (sym kf) reads,
            remember_link t n l,
            subst (λ b. get_elem? added.links b ≡ some (remember_link t n l)) (sym mine)
                (get_elem?-modify_self v.links (remember_link t n) l a e),
            λ c. (t, subst (λ b. Owns added.links b t n) (sym mine) here),
          )
        ];
        kept = λ b k p o. elim (before b k p o) [
          | inl (ab, _, pn) ↦ (
            s,
            fs,
            subst (λ q. get_elem? added.subscriptions q ≡ some s) (sym pn)
                (get_elem?-alloc v.subscriptions s),
            mine ∙ ab,
            reads,
            (table fs (subscription p)).1 (inr (refl, ap subscription pn)),
          )
          | inr old ↦
              let (u, ks, f, c, r, h) = ag.kept b k p old in
              (
                u,
                ks,
                get_elem?-append v.subscriptions s u p f,
                c,
                r,
                (table ks (subscription p)).1 (inl h),
              )
        ];
        apart = λ b k k' p o o'. elim (before b k p o) [
          | inl (_, kt, pn) ↦ elim (before b k' p o') [
            | inl (_, kt', _) ↦ kt ∙ sym kt'
            | inr old ↦ absurd (fresh b k' (subst (Owns v.links b k') pn old))
          ]
          | inr old ↦ elim (before b k' p o') [
            | inl (_, _, pn) ↦ absurd (fresh b k (subst (Owns v.links b k) pn old))
            | inr old' ↦ ag.apart b k k' p old old'
          ]
        ];
        single = λ b k p p' c o o'. elim (before b k p o) [
          | inl (ab, kt, pn) ↦ elim (before b k p' o') [
            | inl (_, _, pn') ↦ pn ∙ sym pn'
            | inr old ↦ absurd (is_free b k p' (is_client b c) old ab kt)
          ]
          | inr old ↦ elim (before b k p' o') [
            | inl (ab, kt, _) ↦ absurd (is_free b k p (is_client b c) old ab kt)
            | inr old' ↦ ag.single b k p p' (is_client b c) old old'
          ]
        ];
      }
    where
      same_link : (b : ℕ) (m : Link) → get_elem? v.links b ≡ some m → a ≡ b → m ≡ l
      same_link b m f ab = some_inj (sym f ∙ ap (get_elem? v.links) (sym ab) ∙ e)

      typ_of : (b : ℕ) → IsClient v.links b → a ≡ b → l.typ ≡ client
      typ_of b (m, f, c) ab = ap (λ (x : Link). x.typ) (sym (same_link b m f ab)) ∙ c

      taken :
          (b : ℕ) (k : Bytes) (p : ℕ)
          → IsClient v.links b
          → Owns v.links b k p
          → a ≡ b
          → k ≡ t
          → ¬ (lookup t l.sub_map ≡ none)
      taken b k p c (m, f, _, i) ab kt none_there = not-mem_lookup t p l.sub_map none_there (
          subst (λ k. Memᴰ (k, p) l.sub_map) kt
            (subst (λ (x : Link). Memᴰ (k, p) x.sub_map) (same_link b m f ab) i))
