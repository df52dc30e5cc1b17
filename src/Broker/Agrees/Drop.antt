-- ===== src/Broker/Agrees/Drop.antt =====
-- A subscription goes: one that a client replaces or ends, and all of a client that is closed.
use hmq.Prelude.{ℕ, ◌≡◌, refl, sym, ap, subst, ◌∙◌, some, some_inj, Memᴰ, Bytes}
use hmq.Prelude.Heap.{get_elem?, modify}
use hmq.Client
use hmq.Client.{connected}
use hmq.Topics.Value.{subscription, subscription_inj}
use hmq.Broker.{Subscription}
use hmq.Broker.View.{Link, View}
use hmq.Broker.Agrees.{Owns, IsClient, Agrees, one_filter}
use hmq.Broker.Agrees.Links.{
  forget_link, hang_link, IsClient-of-modify, typ-modify, AreLive-modify, Owns-of-forget,
  Owns-forget, Owns-of-hang, Owns-hang,
}
use hmq.Broker.Agrees.Dropped.{
  drop_topic, drop_topics, IsPlaced, drop_topic-IsValid, HasFilter-drop_topic, drop_topics-IsValid,
  HasFilter-drop_topics,
}

owned-IsPlaced :
    (v : View) (a : ℕ) (t : Bytes) (p : ℕ)
    → Agrees v
    → Owns v.links a t p
    → IsPlaced v.subscriptions v.topics p
owned-IsPlaced v a t p ag o =
    let (s, fs, e, c, r, h) = ag.kept a t p o in (s, fs, e, r, one_filter v p s fs ag e r)

-- A pointer has one owner.
one_owner :
    (v : View) (a b : ℕ) (t u : Bytes) (p : ℕ)
    → Agrees v
    → Owns v.links a t p
    → Owns v.links b u p
    → a ≡ b
one_owner v a b t u p ag o o' =
    let (s, fs, e, c, r, h) = ag.kept a t p o in
    let (s', fs', e', c', r', h') = ag.kept b u p o' in
    sym c ∙ ap (λ (s : Subscription). s.client) (some_inj (sym e ∙ e')) ∙ c'

pub detach-Agrees :
    (v : View) (a : ℕ) (t : Bytes) (p : ℕ)
    → Agrees v
    → Owns v.links a t p
    → Agrees (record v {
      topics = drop_topic v.subscriptions p v.topics;
      links = modify a (forget_link t) v.links;
    })
detach-Agrees v a t p ag o =
    let table =
      HasFilter-drop_topic v.subscriptions v.topics p ag.valid (owned-IsPlaced v a t p ag o) in
    let before = Owns-of-forget v.links a t in
    let is_client : (b : ℕ) → IsClient (modify a (forget_link t) v.links) b → IsClient v.links b =
      λ b. IsClient-of-modify (forget_link t) v.links a b (λ l. refl) in
    record {
      valid = drop_topic-IsValid v.subscriptions v.topics p ag.valid;
      live = AreLive-modify (forget_link t) v.links a (λ l live. live) ag.live;
      stored = λ ks x h.
          let (old, ne) = (table ks x).0 h in
          let (q, s, e, f, r, m, em, own) = ag.stored ks x old in
          let (l, el, same_typ) = typ-modify (forget_link t) v.links a s.client m (λ l. refl) em in
          (
            q,
            s,
            e,
            f,
            r,
            l,
            el,
            λ c.
                let c' : IsClient v.links s.client = (m, em, sym same_typ ∙ c) in
                let (u, mine) = own (sym same_typ ∙ c) in
                (
                  u,
                  Owns-forget v.links a t s.client u q mine (λ same ut. ne (
                      e
                      ∙ ap subscription (
                          ag.single s.client u q p c' mine (
                            subst (λ b. Owns v.links b u p) same
                              (subst (λ k. Owns v.links a k p) (sym ut) o))))),
                ),
          );
      kept = λ b u q now.
          let (mine, other) = before b u q now in
          let (s, ks, e, c, r, h) = ag.kept b u q mine in
          (
            s,
            ks,
            e,
            c,
            r,
            (table ks (subscription q)).1 (
              h,
              λ z.
                  let mine' = subst (Owns v.links b u) (subscription_inj z) mine in
                  let ab = one_owner v a b t u p ag o mine' in
                  other ab (ag.apart a u t p (subst (λ i. Owns v.links i u p) (sym ab) mine') o),
            ),
          );
      apart = λ b u u' q h h'. ag.apart b u u' q (before b u q h).0 (before b u' q h').0;
      single = λ b u q q' c h h'.
          ag.single b u q q' (is_client b c) (before b u q h).0 (before b u q' h').0;
    }

pub close-Agrees :
    (v : View) (a : ℕ) (l : Link)
    → Agrees v
    → get_elem? v.links a ≡ some l
    → l.status ≡ connected
    → Agrees (record v {
      topics = drop_topics v.subscriptions l.sub_map v.topics;
      links = modify a hang_link v.links;
    })
close-Agrees v a l ag e s =
    let mine : (k : Bytes) (p : ℕ) → Memᴰ (k, p) l.sub_map → Owns v.links a k p =
      λ k p i. (l, e, s, i) in
    let table =
      HasFilter-drop_topics v.subscriptions l.sub_map v.topics ag.valid
        (λ k p i. owned-IsPlaced v a k p ag (mine k p i)) in
    let before = Owns-of-hang v.links a in
    let is_client : (b : ℕ) → IsClient (modify a hang_link v.links) b → IsClient v.links b =
      λ b. IsClient-of-modify hang_link v.links a b (λ l. refl) in
    record {
      valid = drop_topics-IsValid v.subscriptions l.sub_map v.topics ag.valid;
      live = AreLive-modify hang_link v.links a (λ l live h. absurd (hung h)) ag.live;
      stored = λ ks x h.
          let (old, gone) = (table ks x).0 h in
          let (q, u, z, f, r, m, em, own) = ag.stored ks x old in
          let (m', em', same_typ) = typ-modify hang_link v.links a u.client m (λ l. refl) em in
          (
            q,
            u,
            z,
            f,
            r,
            m',
            em',
            λ c.
                let (k, o) = own (sym same_typ ∙ c) in
                (
                  k,
                  Owns-hang v.links a u.client k q (λ same. gone k q (in_map u.client k q same o) z)
                      o,
                ),
          );
      kept = λ b k p now.
          let (ne, o) = before b k p now in
          let (u, ks, f, c, r, h) = ag.kept b k p o in
          (
            u,
            ks,
            f,
            c,
            r,
            (table ks (subscription p)).1 (
              h,
              λ j q i z. ne (
                  one_owner v a b j k p ag
                    (subst (Owns v.links a j) (sym (subscription_inj z)) (mine j q i)) o),
            ),
          );
      apart = λ b k k' p h h'. ag.apart b k k' p (before b k p h).1 (before b k' p h').1;
      single = λ b k p p' c h h'.
          ag.single b k p p' (is_client b c) (before b k p h).1 (before b k p' h').1;
    }
  where
    hung : ¬ (Client.disconnected ≡ connected)
    hung h = cc

    in_map : (b : ℕ) (k : Bytes) (q : ℕ) → a ≡ b → Owns v.links b k q → Memᴰ (k, q) l.sub_map
    in_map b k q same (m, f, _, i) =
        subst (λ (x : Link). Memᴰ (k, q) x.sub_map)
          (some_inj (sym f ∙ ap (get_elem? v.links) (sym same) ∙ e)) i
