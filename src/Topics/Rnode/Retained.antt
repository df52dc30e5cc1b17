-- ===== src/Topics/Rnode/Retained.antt =====
-- `rinsertOrUpdate`: the message of every topic after it.
use hmq.Prelude.{
  ℕ, zero, suc, ◌≡◌, ◌≢◌, refl, ◌∙◌, inl, inr, Option, none, some, List, [], ◌∷◌, Bytes,
  Result-cases, Option-cases, beq_cases, bytes_beq_refl, ◌==◌, bytes_eq, if◌then◌else◌,
}
use hmq.Packets.{PublishPacket}
use hmq.Topics.Level.{TopicError, next_topic_level, topic_path, of_levels}
use hmq.Topics.Level.Paths.{topic_path-cons, topic_path-nil, topic_path-zero}
use hmq.Topics.Tree.{
  nodes, get_child, descend, node_at, IsTree, get_child-set, nodes-IsForest, get_child-IsTree,
  set_child-IsForest,
}
use hmq.Topics.Rnode.{Rnode, Rnodes, rnode, new_rnode, or_new, put_child, rinsert_or_update}
use hmq.Topics.Rnode.Spec.{msg_of, msg_at, IsRnode, AreRnodes}

-- `rinsertOrUpdate` on a topic whose levels are all read.
unfoldable pub insert_at : List Bytes → PublishPacket → Rnode → Rnode
unfolding put_child
insert_at [] p (rnode m rs) = rnode (some p) rs
insert_at (l ∷ ls) p r = (put_child l r (insert_at ls p (or_new (get_child l (nodes r))), none)).0

put_child_lem :
    (l : Bytes) (r n : Rnode) (e : Option TopicError)
    → put_child l r (n, e) ≡ ((put_child l r (n, none)).0, e)
unfolding put_child
put_child_lem l (rnode m rs) n e = refl

pub rinsert_or_update-eq :
    (f : ℕ) (t : Bytes) (ls : List Bytes) (p : PublishPacket) (r : Rnode)
    → topic_path f t ≡ of_levels ls
    → rinsert_or_update f t p r ≡ (insert_at ls p r, none)
unfolding rinsert_or_update insert_at
rinsert_or_update-eq f [] ls p (rnode m rs) h = rw (topic_path-nil f ls h)
rinsert_or_update-eq zero (c ∷ t) ls p r h = absurd (topic_path-zero c t ls h)
rinsert_or_update-eq (suc f) (c ∷ t) ls p r h =
    let (l, rem, ls', read, rest, e) = topic_path-cons f c t ls h in
    rw (e, read, rinsert_or_update)
      (rw (rinsert_or_update-eq f rem ls' p (or_new (get_child l (nodes r))) rest)
        (put_child_lem l r _ none))

new_rnode-IsRnode : IsRnode new_rnode
unfolding IsTree
new_rnode-IsRnode = (tt, tt)

or_new-IsRnode : (l : Bytes) (rs : Rnodes) → AreRnodes rs → IsRnode (or_new (get_child l rs))
or_new-IsRnode l rs w = elim (Option-cases (get_child l rs)) [
  | inl e ↦ rw e new_rnode-IsRnode
  | inr (n, e) ↦ rw e (get_child-IsTree (λ _. Unit) l n rs w e)
]

put_child-IsRnode :
    (l : Bytes) (r n : Rnode) (e : Option TopicError)
    → IsRnode r
    → IsRnode n
    → IsRnode (put_child l r (n, e)).0
unfolding put_child IsTree
put_child-IsRnode l (rnode m rs) n e w t = (tt, set_child-IsForest (λ _. Unit) l n rs w.1 t)

pub rinsert_or_update-IsRnode :
    (f : ℕ) (t : Bytes) (p : PublishPacket) (r : Rnode)
    → IsRnode r
    → IsRnode (rinsert_or_update f t p r).0
unfolding rinsert_or_update
rinsert_or_update-IsRnode f [] p (rnode m rs) w = unfold IsTree in (tt, w.1)
rinsert_or_update-IsRnode zero (c ∷ t) p r w = w
rinsert_or_update-IsRnode (suc f) (c ∷ t) p r w = elim (Result-cases (next_topic_level (c ∷ t))) [
  | inl ((l, rem), e) ↦
      rw (e, rinsert_or_update)
        (put_child-IsRnode l r _ _ w (
          rinsert_or_update-IsRnode f rem p (or_new (get_child l (nodes r)))
            (or_new-IsRnode l (nodes r) (nodes-IsForest (λ _. Unit) r w))))
  | inr (x, e) ↦ rw (e, rinsert_or_update) w
]

msg_at-or_new :
    (ks : List Bytes) (o : Option Rnode) → msg_at ks (or_new o) ≡ msg_of (descend o (node_at ks))
unfolding get_child
msg_at-or_new ks (some n) = refl
msg_at-or_new [] none = refl
msg_at-or_new (k ∷ ks) none = refl

msg_at-put_child :
    (k l : Bytes) (ks : List Bytes) (r n : Rnode) (e : Option TopicError)
    → msg_at (k ∷ ks) (put_child l r (n, e)).0 ≡ (if l == k then msg_at ks n else msg_at (k ∷ ks) r)
unfolding put_child
msg_at-put_child k l ks (rnode m rs) n e =
    rw get_child-set (elim (beq_cases l k) [ inl (b, _) ↦ rw b | inr (b, _) ↦ rw b ])

msg_at-put_child_nil :
    (l : Bytes) (r n : Rnode) (e : Option TopicError)
    → msg_at [] (put_child l r (n, e)).0 ≡ msg_at [] r
unfolding put_child
msg_at-put_child_nil l (rnode m rs) n e = refl

-- The topic has the new message.
pub msg_at-insert_self :
    (ls : List Bytes) (p : PublishPacket) (r : Rnode) → msg_at ls (insert_at ls p r) ≡ some p
unfolding insert_at
msg_at-insert_self [] p (rnode m rs) = refl
msg_at-insert_self (l ∷ ls) p r =
    msg_at-put_child l l ls r _ none ∙ rw bytes_beq_refl (msg_at-insert_self ls p _)

-- Every other topic has the message that it had.
pub msg_at-insert_ne :
    (ks ls : List Bytes) (p : PublishPacket) (r : Rnode)
    → ks ≢ ls
    → msg_at ks (insert_at ls p r) ≡ msg_at ks r
unfolding insert_at
msg_at-insert_ne [] [] p r ne = absurd (ne refl)
msg_at-insert_ne (k ∷ ks) [] p (rnode m rs) ne = refl
msg_at-insert_ne [] (l ∷ ls) p r ne = msg_at-put_child_nil l r _ none
msg_at-insert_ne (k ∷ ks) (l ∷ ls) p r ne = rw msg_at-put_child (elim (beq_cases l k) [
  | inl (b, e) ↦
      rw (b, ← e)
        (msg_at-insert_ne ks ls p (or_new (get_child l (nodes r))) (λ q. ne (cc (e, q)))
          ∙ msg_at-or_new ks (get_child l (nodes r)))
  | inr (b, _) ↦ rw b
])
