-- ===== src/Topics/Snode/Removed.antt =====
-- `sremove` on a whole topic: the table from filters to subscribers after it.
use hmq.Prelude.{
  ℕ, zero, suc, ◌≡◌, refl, sym, ap, inl, inr, ◌↔◌, true, false, Option, some, fun_ext, List, [],
  ◌∷◌, Memᴰ, Bytes, Result, ok, err, Result-cases, Option-cases, Bool-cases, beq_cases, ◌==◌,
  bytes_eq, if◌then◌else◌, arith,
}
use mathlib.Core.List.Memᴰ
use hmq.Topics.Level.{TopicError, topic_path, of_levels}
use hmq.Topics.Level.Paths.{topic_path-cons, topic_path-nil, topic_path-zero}
use hmq.Topics.Value.{Value, is_func}
use hmq.Topics.Snode.{
  Snode, Snodes, snode, subs, drop_sub, remove_sub, is_dead, put_or_delete, remove_in, sremove,
}
use hmq.Topics.Tree.{
  leaf, child, nodes, get_child, IsTree, get_child-set, nodes-IsForest, get_child-IsTree,
  get_child-delete, set_child-IsForest, delete_child-IsForest,
}
use hmq.Topics.Snode.Spec.{subs_at, Distinct, Slices, IsSnode}
use hmq.Topics.Snode.Drop.{Dropped, drop_sub-none, drop_sub-some}

-- `sremove` on a topic whose levels are all read.
unfoldable pub remove_at : List Bytes → Option Value → Snode → Result TopicError Snode
unfolding remove_in
remove_at [] sub s = remove_sub sub s
remove_at (l ∷ ls) sub s = remove_in l s (remove_at ls sub) (get_child l (nodes s))

pub sremove-eq :
    (f : ℕ) (t : Bytes) (ls : List Bytes) (sub : Option Value) (s : Snode)
    → topic_path f t ≡ of_levels ls
    → sremove f t sub s ≡ remove_at ls sub s
unfolding sremove remove_at
sremove-eq f [] ls sub s h = rw (topic_path-nil f ls h)
sremove-eq zero (c ∷ t) ls sub s h = absurd (topic_path-zero c t ls h)
sremove-eq (suc f) (c ∷ t) ls sub s h =
    let (l, rem, ls', read, rest, e) = topic_path-cons f c t ls h in
    rw (e, read)
      (ap (λ next. remove_in l s next (get_child l (nodes s)))
        (fun_ext λ n. sremove-eq f rem ls' sub n rest))

subs_at_dead : (n : Snode) (ks : List Bytes) → is_dead n ≡ true → subs_at ks n ≡ []
unfolding is_dead get_child
subs_at_dead (snode [] qs leaf) [] h = refl
subs_at_dead (snode [] qs leaf) (k ∷ ks) h = refl
subs_at_dead (snode [] qs (child j o m)) ks h = cc
subs_at_dead (snode (v ∷ vs) qs m) ks h = cc

subs_at-put_or_delete :
    (k l : Bytes) (ks : List Bytes) (s n : Snode)
    → IsSnode s
    → subs_at (k ∷ ks) (put_or_delete l s n) ≡ (if l == k then subs_at ks n else subs_at (k ∷ ks) s)
unfolding put_or_delete IsTree
subs_at-put_or_delete k l ks (snode vs qs m) n w = elim (Bool-cases (is_dead n)) [
  | inl dead ↦
      rw (dead, subs_at_dead n ks dead)
        (rw (get_child-delete Slices k l m w.1)
          (elim (beq_cases l k) [ inl (b, _) ↦ rw b | inr (b, _) ↦ rw b ]))
  | inr live ↦
      rw live (rw get_child-set (elim (beq_cases l k) [ inl (b, _) ↦ rw b | inr (b, _) ↦ rw b ]))
]

subs_at-put_or_delete_nil :
    (l : Bytes) (s n : Snode) → subs_at [] (put_or_delete l s n) ≡ subs_at [] s
unfolding put_or_delete
subs_at-put_or_delete_nil l (snode vs qs m) n = refl

pub put_or_delete-IsTree :
    (l : Bytes) (s n : Snode) → IsSnode s → IsSnode n → IsSnode (put_or_delete l s n)
unfolding put_or_delete IsTree
put_or_delete-IsTree l (snode vs qs m) n ((len, d), w) t = elim (Bool-cases (is_dead n)) [
  | inl dead ↦ rw dead ((len, d), delete_child-IsForest Slices l m w)
  | inr live ↦ rw live ((len, d), set_child-IsForest Slices l n m w t)
]

-- The table after a removal.
pub record Removed (ls : List Bytes) (sub : Value) (s s' : Snode) : Type 0 where
  pub tree : IsSnode s'
  pub mem :
      (ks : List Bytes) (v : Value)
      → Memᴰ v (subs_at ks s') ↔ (Memᴰ v (subs_at ks s) × (¬ ((ks ≡ ls) × (v ≡ sub))))

-- What the entry says of one filter and one subscriber.
abbrev pub Kept : List Bytes → Value → List Bytes → Value → Type 0
Kept ls sub ks v = ¬ ((ks ≡ ls) × (v ≡ sub))

Kept-cons :
    (k l : Bytes) (ks ls : List Bytes) (sub v : Value)
    → k ≡ l
    → Kept ls sub ks v ↔ Kept (l ∷ ls) sub (k ∷ ks) v
Kept-cons k l ks ls sub v p = (λ h e. h (cc e.0, e.1), λ h e. h (cc (p, e.0), e.1))

module _ (sub : Value) (nf : is_func sub ≡ false) where
  mem-here :
      (vs ws : List Value) (qs rs : List ℕ) (m : Snodes)
      → Distinct vs
      → Dropped vs qs sub ws rs
      → (ks : List Bytes) (v : Value)
      → Memᴰ v (subs_at ks (snode ws rs m))
        ↔ (Memᴰ v (subs_at ks (snode vs qs m)) × Kept [] sub ks v)
  mem-here vs ws qs rs m d dropped [] v = (
    λ h. (dropped.old v h, λ e. (dropped.gone d).0 (Memᴰ.cast (sym e.1) h)),
    λ h. elim (dropped.kept v h.0) [ inl p ↦ absurd (h.1 (refl, p)) | inr t ↦ t ],
  )
  mem-here vs ws qs rs m d dropped (k ∷ ks) v = (λ h. (h, λ e. cc e.0), λ h. h.0)

  Removed-here : (s s' : Snode) → IsSnode s → remove_sub (some sub) s ≡ ok s' → Removed [] sub s s'
  unfolding remove_sub IsTree
  Removed-here (snode vs qs m) s' ((len, d), w) h = elim (Option-cases (drop_sub vs qs sub)) [
    | inl e ↦ absurd (ground arith)
    | inr ((ws, rs), e) ↦
        let p : s' ≡ snode ws rs m = ground arith in
        let dropped = drop_sub-some vs ws qs rs sub nf e in
        rw p (record {
          tree = ((omega (arith, dropped.shorter.0, dropped.shorter.1), (dropped.gone d).1), w);
          mem = mem-here vs ws qs rs m d dropped;
        })
  ]

  remove_sub-fails :
      (s : Snode) (x : TopicError)
      → IsSnode s
      → remove_sub (some sub) s ≡ err x
      → ¬ Memᴰ sub (subs s)
  unfolding remove_sub IsTree
  remove_sub-fails (snode vs qs m) x ((len, d), w) h = elim (Option-cases (drop_sub vs qs sub)) [
    | inl e ↦ drop_sub-none vs qs sub len nf e
    | inr ((ws, rs), e) ↦ absurd (ground arith)
  ]

  mem-below :
      (l : Bytes) (ls : List Bytes) (s n n' : Snode)
      → IsSnode s
      → get_child l (nodes s) ≡ some n
      → Removed ls sub n n'
      → (ks : List Bytes) (v : Value)
      → Memᴰ v (subs_at ks (put_or_delete l s n'))
        ↔ (Memᴰ v (subs_at ks s) × Kept (l ∷ ls) sub ks v)
  mem-below l ls s n n' w g r [] v = rw subs_at-put_or_delete_nil (λ h. (h, λ e. cc e.0), λ h. h.0)
  mem-below l ls s n n' w g r (k ∷ ks) v =
      rw (subs_at-put_or_delete k l ks s n' w) (elim (beq_cases l k) [
        | inl (b, p) ↦
            rw (b, ← p, g)
              (
                λ h.
                    (((r.mem ks v).0 h).0, (Kept-cons l l ks ls sub v refl).0 ((r.mem ks v).0 h).1),
                λ h. (r.mem ks v).1 (h.0, (Kept-cons l l ks ls sub v refl).1 h.1),
              )
        | inr (b, ne) ↦ rw b (λ h. (h, λ e. ne (cc e.0)), λ h. h.0)
      ])

  -- A removal that succeeds takes the one entry away, and no other.
  pub remove_at-Removed :
      (ls : List Bytes) (s s' : Snode)
      → IsSnode s
      → remove_at ls (some sub) s ≡ ok s'
      → Removed ls sub s s'
  unfolding remove_at
  remove_at-Removed [] s s' w h = Removed-here s s' w h
  remove_at-Removed (l ∷ ls) s s' w h = elim (Option-cases (get_child l (nodes s))) [
    | inl g ↦ absurd (ground arith)
    | inr (n, g) ↦ elim (Result-cases (remove_at ls (some sub) n)) [
      | inl (n', e) ↦
          let p : s' ≡ put_or_delete l s n' = ground arith in
          let t : IsSnode n = get_child-IsTree Slices l n (nodes s) (nodes-IsForest Slices s w) g in
          let r = remove_at-Removed ls n n' t e in
          rw p (record {
            tree = put_or_delete-IsTree l s n' w r.tree;
            mem = mem-below l ls s n n' w g r;
          })
      | inr (x, e) ↦ absurd (ground arith)
    ]
  ]

  -- A removal fails only where the subscriber does not have the filter.
  pub remove_at_fails :
      (ls : List Bytes) (s : Snode) (x : TopicError)
      → IsSnode s
      → remove_at ls (some sub) s ≡ err x
      → ¬ Memᴰ sub (subs_at ls s)
  unfolding remove_at
  remove_at_fails [] s x w h = remove_sub-fails s x w h
  remove_at_fails (l ∷ ls) s x w h = elim (Option-cases (get_child l (nodes s))) [
    | inl g ↦ rw g (λ m. Memᴰ.not-nil m)
    | inr (n, g) ↦ elim (Result-cases (remove_at ls (some sub) n)) [
      | inl (n', e) ↦ absurd (ground arith)
      | inr (y, e) ↦
          let t : IsSnode n = get_child-IsTree Slices l n (nodes s) (nodes-IsForest Slices s w) g in
          rw g (remove_at_fails ls n y t e)
    ]
  ]
