-- ===== src/Topics/Snode/Kept.antt =====
-- `sremove` and the well-formedness of the tree.
use hmq.Prelude.{
  ℕ, zero, suc, ◌≡◌, refl, inl, inr, Option, none, some, [], ◌∷◌, Bytes, ok, Result-cases,
  Option-cases, bytes_eq, arith,
}
use hmq.Topics.Level.{next_topic_level}
use hmq.Topics.Value.{Value, NotFunc}
use hmq.Topics.Snode.Removed.{put_or_delete-IsTree}
use hmq.Topics.Snode.{Snode, snode, drop_sub, remove_sub, put_or_delete, sremove}
use hmq.Topics.Tree.{nodes, get_child, IsTree, nodes-IsForest, get_child-IsTree}
use hmq.Topics.Snode.Spec.{Slices, IsSnode}
use hmq.Topics.Snode.Drop.{drop_sub-some}

remove_sub-IsTree :
    (sub : Option Value) (s s' : Snode)
    → NotFunc sub
    → IsSnode s
    → remove_sub sub s ≡ ok s'
    → IsSnode s'
unfolding remove_sub IsTree
remove_sub-IsTree none (snode vs qs m) s' nf w h =
    let p : s' ≡ snode [] [] m = ground arith in rw p ((refl, tt), w.1)
remove_sub-IsTree (some sub) (snode vs qs m) s' nf ((len, d), w) h =
    elim (Option-cases (drop_sub vs qs sub)) [
      | inl e ↦ absurd (ground arith)
      | inr ((ws, rs), e) ↦
          let p : s' ≡ snode ws rs m = ground arith in
          let dropped = drop_sub-some vs ws qs rs sub nf e in
          rw p ((omega (arith, dropped.shorter.0, dropped.shorter.1), (dropped.gone d).1), w)
    ]

pub sremove-IsTree :
    (f : ℕ) (t : Bytes) (sub : Option Value) (s s' : Snode)
    → NotFunc sub
    → IsSnode s
    → sremove f t sub s ≡ ok s'
    → IsSnode s'
unfolding sremove
sremove-IsTree f [] sub s s' nf w h = remove_sub-IsTree sub s s' nf w h
sremove-IsTree zero (c ∷ t) sub s s' nf w h = cc
sremove-IsTree (suc f) (c ∷ t) sub s s' nf w h = elim (Result-cases (next_topic_level (c ∷ t))) [
  | inr (x, e) ↦ absurd (ground arith)
  | inl ((l, rem), e) ↦ elim (Option-cases (get_child l (nodes s))) [
    | inl g ↦ absurd (ground arith)
    | inr (n, g) ↦ elim (Result-cases (sremove f rem sub n)) [
      | inr (x, q) ↦ absurd (ground arith)
      | inl (n', q) ↦
          let p : s' ≡ put_or_delete l s n' = ground arith in
          let t = get_child-IsTree Slices l n (nodes s) (nodes-IsForest Slices s w) g in
          rw p (put_or_delete-IsTree l s n' w (sremove-IsTree f rem sub n n' nf t q))
    ]
  ]
]
