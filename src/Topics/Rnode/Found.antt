-- ===== src/Topics/Rnode/Found.antt =====
-- `rmatch` finds what `found` lists.
use hmq.Prelude.{
  ℕ, zero, suc, ◌≡◌, refl, ap, ◌∙◌, inl, inr, Option, none, some, List, [], ◌∷◌, ◌++◌, append-nil,
  append_assoc, Bytes, ok, Bool-cases, ◌==◌, bytes_eq,
}
use hmq.Packets.{PublishPacket}
use hmq.Topics.Level.{mwc, swc, topic_path, of_levels}
use hmq.Topics.Level.Paths.{topic_path-cons, topic_path-nil, topic_path-zero}
use hmq.Topics.Tree.{node, leaf, child, nodes, get_child}
use hmq.Topics.Rnode.{
  Rnode, Rnodes, msg, add_msg, all_retained, all_retained_in, Gather, match_each, match_one,
  match_level, rmatch,
}
use hmq.Topics.Rnode.Spec.{
  one_msg, everything, everything_in, found, found_level, each_in, at_child,
}

add_msg-eq :
    (m : Option PublishPacket) (msgs : List PublishPacket) → add_msg m msgs ≡ msgs ++ one_msg m
add_msg-eq none msgs = simp append-nil
add_msg-eq (some p) msgs = refl

mutual
  unfolding all_retained everything

  all_retained-eq :
      (r : Rnode) (msgs : List PublishPacket) → all_retained r msgs ≡ msgs ++ everything r
  all_retained-eq (node m rs) msgs =
      all_retained_in-eq rs (add_msg m msgs) ∙ rw add_msg-eq (simp append_assoc)

  all_retained_in-eq :
      (rs : Rnodes) (msgs : List PublishPacket) → all_retained_in rs msgs ≡ msgs ++ everything_in rs
  all_retained_in-eq leaf msgs = simp append-nil
  all_retained_in-eq (child k n rs) msgs =
      all_retained_in-eq rs (all_retained n msgs) ∙ rw (all_retained-eq n msgs) (simp append_assoc)

module _ (next : Gather) (found_next : Rnode → List PublishPacket)
    (next-eq : (n : Rnode) (msgs : List PublishPacket)
      → next n msgs ≡ ok (msgs ++ found_next n)) where
  match_each-eq :
      (rs : Rnodes) (msgs : List PublishPacket)
      → match_each next rs msgs ≡ ok (msgs ++ each_in found_next rs)
  unfolding match_each each_in
  match_each-eq leaf msgs = simp append-nil
  match_each-eq (child k n rs) msgs =
      rw next-eq (match_each-eq rs (msgs ++ found_next n) ∙ simp append_assoc)

  match_one-eq :
      (o : Option Rnode) (msgs : List PublishPacket)
      → match_one next o msgs ≡ ok (msgs ++ at_child found_next o)
  match_one-eq none msgs = simp append-nil
  match_one-eq (some n) msgs = next-eq n msgs

  match_level-eq :
      (l : Bytes) (r : Rnode) (msgs : List PublishPacket)
      → match_level next l r msgs ≡ ok (msgs ++ found_level found_next l r)
  unfolding match_level found_level
  match_level-eq l r msgs = elim (Bool-cases (l == mwc)) [
    | inl a ↦ rw a (ap ok (all_retained-eq r msgs))
    | inr a ↦ elim (Bool-cases (l == swc)) [
      | inl b ↦ rw (a, b) (match_each-eq (nodes r) msgs)
      | inr b ↦ rw (a, b) (match_one-eq (get_child l (nodes r)) msgs)
    ]
  ]

-- `rmatch` appends to the slice what `found` lists.
pub rmatch-eq :
    (f : ℕ) (t : Bytes) (ls : List Bytes) (r : Rnode) (msgs : List PublishPacket)
    → topic_path f t ≡ of_levels ls
    → rmatch f t r msgs ≡ ok (msgs ++ found ls r)
unfolding rmatch found
rmatch-eq f [] ls r msgs h = rw (topic_path-nil f ls h) (ap ok (add_msg-eq (msg r) msgs))
rmatch-eq zero (c ∷ t) ls r msgs h = absurd (topic_path-zero c t ls h)
rmatch-eq (suc f) (c ∷ t) ls r msgs h =
    let (l, rem, ls', read, rest, e) = topic_path-cons f c t ls h in
    rw (e, read)
      (match_level-eq (rmatch f rem) (found ls') (λ n ms. rmatch-eq f rem ls' n ms rest) l r msgs)
