-- ===== src/Broker/Agrees/Join.antt =====
-- A client comes that has no subscriptions yet.
use hmq.Prelude.{
  ℕ, zero, suc, ◌≡◌, sym, ap, subst, ◌∙◌, ◌⊎◌, inl, inr, true, some, some_inj, List, [], ◌∷◌, ◌++◌,
  Memᴰ, Bytes, bytes_eq,
}
use mathlib.Core.List.Memᴰ
use hmq.Prelude.Heap.{get_elem?, get_elem?-append}
use hmq.Broker.View.{Link, View}
use hmq.Broker.Agrees.{Owns, IsClient, Agrees}

get_elem?-snoc :
    (ls : List Link) (l m : Link) (b : ℕ)
    → get_elem? (ls ++ l ∷ []) b ≡ some m
    → (get_elem? ls b ≡ some m) ⊎ (m ≡ l)
get_elem?-snoc [] l m zero h = inr (some_inj (sym h))
get_elem?-snoc [] l m (suc b) h = cc
get_elem?-snoc (k ∷ ls) l m zero h = inl h
get_elem?-snoc (k ∷ ls) l m (suc b) h = get_elem?-snoc ls l m b h

pub join-Agrees :
    (v : View) (l : Link)
    → Agrees v
    → l.conn ≡ true
    → l.sub_map ≡ []
    → Agrees (record v { links = v.links ++ l ∷ [] })
join-Agrees v l ag on empty = record {
  valid = ag.valid;
  live = λ b m e s. elim (get_elem?-snoc v.links l m b e) [
    | inl f ↦ ag.live b m f s
    | inr q ↦ ap (λ (x : Link). x.conn) q ∙ on
  ];
  stored = λ ks x h.
      let (p, s, z, e, r, m, em, own) = ag.stored ks x h in
      (
        p,
        s,
        z,
        e,
        r,
        m,
        get_elem?-append v.links l m s.client em,
        λ c. let (k, o) = own c in (k, new s.client k p o),
      );
  kept = λ b k p o. ag.kept b k p (old b k p o);
  apart = λ b k k' p o o'. ag.apart b k k' p (old b k p o) (old b k' p o');
  single = λ b k p p' c o o'.
      ag.single b k p p' (is_client b k p c (old b k p o)) (old b k p o) (old b k p' o');
}
  where
    old : (b : ℕ) (k : Bytes) (p : ℕ) → Owns (v.links ++ l ∷ []) b k p → Owns v.links b k p
    old b k p (m, e, s, i) = elim (get_elem?-snoc v.links l m b e) [
      | inl f ↦ (m, f, s, i)
      | inr q ↦ absurd (
          Memᴰ.not-nil
            (subst (Memᴰ (k, p)) empty (subst (λ (x : Link). Memᴰ (k, p) x.sub_map) q i)))
    ]

    new : (b : ℕ) (k : Bytes) (p : ℕ) → Owns v.links b k p → Owns (v.links ++ l ∷ []) b k p
    new b k p (m, e, s, i) = (m, get_elem?-append v.links l m b e, s, i)

    is_client :
        (b : ℕ) (k : Bytes) (p : ℕ)
        → IsClient (v.links ++ l ∷ []) b
        → Owns v.links b k p
        → IsClient v.links b
    is_client b k p (x, f, c) (m, e, s, i) =
        (m, e, ap (λ (x : Link). x.typ) (some_inj (sym (get_elem?-append v.links l m b e) ∙ f)) ∙ c)
