-- ===== src/Topics/Snode/Subscribed.antt =====
-- `sinsert` on a whole topic: the table from filters to subscribers after it.
use hmq.Prelude.{
  ℕ, zero, suc, ◌≡◌, refl, sym, ◌∙◌, ◌⊎◌, inl, inr, ◌↔◌, false, Option, none, some, List, [], ◌∷◌,
  Memᴰ, Bytes, Result-cases, Option-cases, beq_cases, ◌==◌, bytes_eq, if◌then◌else◌,
}
use hmq.Topics.Level.{TopicError, next_topic_level, topic_path, of_levels}
use hmq.Topics.Level.Paths.{topic_path-cons, topic_path-nil, topic_path-zero}
use hmq.Topics.Value.{Value, is_func}
use hmq.Topics.Snode.{Snode, Snodes, snode, subs_of, new_snode, or_new, add_sub, put_child, sinsert}
use hmq.Topics.Tree.{
  nodes, get_child, descend, node_at, IsTree, get_child-set, nodes-IsForest, get_child-IsTree,
  set_child-IsForest,
}
use hmq.Topics.Snode.Spec.{subs_at, Slices, IsSnode, AreSnodes}
use hmq.Topics.Snode.Insert.{add_sub-IsTree, mem-add_sub, nodes-add_sub}

-- `sinsert` on a topic whose levels are all read.
unfoldable pub insert_at : List Bytes → ℕ → Value → Snode → Snode
unfolding put_child
insert_at [] q sub s = add_sub sub q s
insert_at (l ∷ ls) q sub s =
    (put_child l s (insert_at ls q sub (or_new (get_child l (nodes s))), none)).0

pub sinsert-eq :
    (f : ℕ) (t : Bytes) (ls : List Bytes) (q : ℕ) (sub : Value) (s : Snode)
    → topic_path f t ≡ of_levels ls
    → sinsert f t q sub s ≡ (insert_at ls q sub s, none)
unfolding sinsert insert_at
sinsert-eq f [] ls q sub s h = rw (topic_path-nil f ls h)
sinsert-eq zero (c ∷ t) ls q sub s h = absurd (topic_path-zero c t ls h)
sinsert-eq (suc f) (c ∷ t) ls q sub (snode vs qs m) h =
    let (l, rem, ls', read, rest, e) = topic_path-cons f c t ls h in
    rw (e, read, sinsert) (rw (sinsert-eq f rem ls' q sub (or_new (get_child l m)) rest))

new_snode-IsTree : IsSnode new_snode
unfolding IsTree
new_snode-IsTree = ((refl, tt), tt)

or_new-IsTree : (l : Bytes) (m : Snodes) → AreSnodes m → IsSnode (or_new (get_child l m))
or_new-IsTree l m w = elim (Option-cases (get_child l m)) [
  | inl e ↦ rw e new_snode-IsTree
  | inr (n, e) ↦ rw e (get_child-IsTree Slices l n m w e)
]

put_child-IsTree :
    (l : Bytes) (s n : Snode) (e : Option TopicError)
    → IsSnode s
    → IsSnode n
    → IsSnode (put_child l s (n, e)).0
unfolding put_child IsTree
put_child-IsTree l (snode vs qs m) n e ((len, d), w) t =
    ((len, d), set_child-IsForest Slices l n m w t)

-- Whatever the topic, an insertion keeps the tree well-formed, also where it fails half-way.
pub sinsert-IsTree :
    (f : ℕ) (t : Bytes) (q : ℕ) (sub : Value) (s : Snode)
    → is_func sub ≡ false
    → IsSnode s
    → IsSnode (sinsert f t q sub s).0
unfolding sinsert
sinsert-IsTree f [] q sub s nf w = add_sub-IsTree sub q nf s w
sinsert-IsTree zero (c ∷ t) q sub s nf w = w
sinsert-IsTree (suc f) (c ∷ t) q sub s nf w = elim (Result-cases (next_topic_level (c ∷ t))) [
  | inl ((l, rem), e) ↦
      rw (e, sinsert)
        (put_child-IsTree l s _ _ w (
          sinsert-IsTree f rem q sub (or_new (get_child l (nodes s))) nf
            (or_new-IsTree l (nodes s) (nodes-IsForest Slices s w))))
  | inr (x, e) ↦ rw (e, sinsert) w
]

subs_at-or_new :
    (ks : List Bytes) (o : Option Snode) → subs_at ks (or_new o) ≡ subs_of (descend o (node_at ks))
unfolding get_child
subs_at-or_new ks (some n) = refl
subs_at-or_new [] none = refl
subs_at-or_new (k ∷ ks) none = refl

subs_at-put_child :
    (k l : Bytes) (ks : List Bytes) (s n : Snode) (e : Option TopicError)
    → subs_at (k ∷ ks) (put_child l s (n, e)).0
      ≡ (if l == k then subs_at ks n else subs_at (k ∷ ks) s)
unfolding put_child
subs_at-put_child k l ks (snode vs qs m) n e =
    rw get_child-set (elim (beq_cases l k) [ inl (b, _) ↦ rw b | inr (b, _) ↦ rw b ])

subs_at-put_child_nil :
    (l : Bytes) (s n : Snode) (e : Option TopicError)
    → subs_at [] (put_child l s (n, e)).0 ≡ subs_at [] s
unfolding put_child
subs_at-put_child_nil l (snode vs qs m) n e = refl

module _ (q : ℕ) (sub : Value) (nf : is_func sub ≡ false) (v : Value) where
  abbrev pub Added : List Bytes → List Bytes → Snode → Type 0
  Added ks ls s = Memᴰ v (subs_at ks s) ⊎ ((ks ≡ ls) × (v ≡ sub))

  mem-below :
      (k l : Bytes) (ks ls : List Bytes) (s : Snode)
      → l ≡ k
      → Memᴰ v (subs_at ks (insert_at ls q sub (or_new (get_child l (nodes s)))))
        ↔ Added ks ls (or_new (get_child l (nodes s)))
      → Memᴰ v (subs_at ks (insert_at ls q sub (or_new (get_child l (nodes s)))))
        ↔ Added (k ∷ ks) (l ∷ ls) s
  mem-below k l ks ls s p ih = (
    λ h. elim (ih.0 h) [
      | inl a ↦ inl (rw (← p) (rw subs_at-or_new at a))
      | inr (e, x) ↦ inr (cc (e, p), x)
    ],
    λ h.
        ih.1
          (elim h [ inl a ↦ inl (rw subs_at-or_new (rw (← p) at a)) | inr (e, x) ↦ inr (cc e, x) ]),
  )

  pub mem-insert_at :
      (ks ls : List Bytes) (s : Snode) → Memᴰ v (subs_at ks (insert_at ls q sub s)) ↔ Added ks ls s
  unfolding insert_at
  mem-insert_at [] [] s = (
    λ h. elim ((mem-add_sub sub q nf s v).0 h) [ inl a ↦ inl a | inr b ↦ inr (refl, b) ],
    λ h. (mem-add_sub sub q nf s v).1 (elim h [ inl a ↦ inl a | inr b ↦ inr b.1 ]),
  )
  mem-insert_at (k ∷ ks) [] s =
      rw nodes-add_sub (λ h. inl h, λ h. elim h [ inl a ↦ a | inr b ↦ absurd (cc b.0) ])
  mem-insert_at [] (l ∷ ls) s =
      rw subs_at-put_child_nil (λ h. inl h, λ h. elim h [ inl a ↦ a | inr b ↦ absurd (cc b.0) ])
  mem-insert_at (k ∷ ks) (l ∷ ls) s = rw subs_at-put_child (elim (beq_cases l k) [
    | inl (b, p) ↦
        rw b (mem-below k l ks ls s p (mem-insert_at ks ls (or_new (get_child l (nodes s)))))
    | inr (b, ne) ↦ rw b (λ h. inl h, λ h. elim h [ inl a ↦ a | inr (e, _) ↦ absurd (ne (cc e)) ])
  ])

put_child-unchanged :
    (l : Bytes) (s n : Snode) (e : Option TopicError) (ks : List Bytes)
    → ((js : List Bytes) → subs_at js n ≡ subs_at js (or_new (get_child l (nodes s))))
    → subs_at ks (put_child l s (n, e)).0 ≡ subs_at ks s
put_child-unchanged l s n e [] same = subs_at-put_child_nil l s n e
put_child-unchanged l s n e (k ∷ ks) same = rw subs_at-put_child (elim (beq_cases l k) [
  | inl (b, p) ↦ rw (b, ← p) (same ks ∙ subs_at-or_new ks (get_child l (nodes s)))
  | inr (b, ne) ↦ rw b
])

pub put_child-error :
    (l : Bytes) (s n : Snode) (e : Option TopicError) → (put_child l s (n, e)).1 ≡ e
unfolding put_child
put_child-error l (snode vs qs m) n e = refl

-- An insertion that fails leaves the subscribers of every filter, although it may create nodes.
pub sinsert_failed :
    (f : ℕ) (t : Bytes) (q : ℕ) (sub : Value) (s : Snode) (x : TopicError) (ks : List Bytes)
    → (sinsert f t q sub s).1 ≡ some x
    → subs_at ks (sinsert f t q sub s).0 ≡ subs_at ks s
unfolding sinsert
sinsert_failed f [] q sub s x ks h = cc
sinsert_failed zero (c ∷ t) q sub s x ks h = refl
sinsert_failed (suc f) (c ∷ t) q sub s x ks h = elim (Result-cases (next_topic_level (c ∷ t))) [
  | inl ((l, rem), e) ↦
      rw (e, sinsert)
        (let (n, y) = sinsert f rem q sub (or_new (get_child l (nodes s))) in
          put_child-unchanged l s n y ks λ js.
            sinsert_failed f rem q sub (or_new (get_child l (nodes s))) x js
              (sym (put_child-error l s n y) ∙ (rw (e, sinsert) at h)))
  | inr (y, e) ↦ rw (e, sinsert)
]
