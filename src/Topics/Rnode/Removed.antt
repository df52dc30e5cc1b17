-- ===== src/Topics/Rnode/Removed.antt =====
-- `rremove`: the message of every topic after it.
use hmq.Prelude.{
  ℕ, zero, suc, ◌≡◌, ◌≢◌, refl, sym, ap, ◌∙◌, fun_ext, inl, inr, true, Option, none, some, some_inj,
  List, [], ◌∷◌, Bytes, Result, ok, Result-cases, Option-cases, Bool-cases, beq_cases,
  bytes_beq_refl, bytes_eq, if◌then◌else◌, arith,
}
use hmq.Packets.{PublishPacket}
use hmq.Topics.Level.{TopicError, next_topic_level, topic_path, of_levels}
use hmq.Topics.Level.Paths.{topic_path-cons, topic_path-nil, topic_path-zero}
use hmq.Topics.Tree.{
  node, leaf, child, nodes, get_child, IsTree, get_child-set, nodes-IsForest, get_child-IsTree,
  get_child-delete, set_child-IsForest, delete_child-IsForest,
}
use hmq.Topics.Rnode.{Rnode, Rnodes, rnode, msg, has_no_nodes, put_or_delete, remove_in, rremove}
use hmq.Topics.Rnode.Spec.{msg_at, IsRnode}

-- `rremove` on a topic whose levels are all read.
unfoldable pub remove_at : List Bytes → Rnode → Result TopicError Rnode
unfolding remove_in
remove_at [] (rnode m rs) = ok (rnode none rs)
remove_at (l ∷ ls) r = remove_in l r (remove_at ls) (get_child l (nodes r))

pub rremove-eq :
    (f : ℕ) (t : Bytes) (ls : List Bytes) (r : Rnode)
    → topic_path f t ≡ of_levels ls
    → rremove f t r ≡ remove_at ls r
unfolding rremove remove_at
rremove-eq f [] ls (rnode m rs) h = rw (topic_path-nil f ls h)
rremove-eq zero (c ∷ t) ls r h = absurd (topic_path-zero c t ls h)
rremove-eq (suc f) (c ∷ t) ls r h =
    let (l, rem, ls', read, rest, e) = topic_path-cons f c t ls h in
    rw (e, read)
      (ap (λ next. remove_in l r next (get_child l (nodes r)))
        (fun_ext λ n. rremove-eq f rem ls' n rest))

msg_at_below :
    (n : Rnode) (k : Bytes) (ks : List Bytes) → has_no_nodes n ≡ true → msg_at (k ∷ ks) n ≡ none
unfolding get_child
msg_at_below (rnode m leaf) k ks h = refl
msg_at_below (rnode m (child j o rs)) k ks h = cc

-- The level that the removal goes through, with a message kept below it.
msg_at-put_or_delete_ne :
    (k l : Bytes) (ks : List Bytes) (r n : Rnode)
    → IsRnode r
    → l ≢ k
    → msg_at (k ∷ ks) (put_or_delete l r n) ≡ msg_at (k ∷ ks) r
unfolding put_or_delete IsTree
msg_at-put_or_delete_ne k l ks (rnode m rs) n w ne = elim (beq_cases l k) [
  | inl (_, e) ↦ absurd (ne e)
  | inr (b, _) ↦ elim (Bool-cases (has_no_nodes n)) [
    | inl dead ↦ rw dead (rw (get_child-delete (λ _. Unit) k l rs w.1) (rw b))
    | inr live ↦ rw live (rw get_child-set (rw b))
  ]
]

msg_at-put_or_delete_below :
    (l k : Bytes) (ks : List Bytes) (r n : Rnode)
    → IsRnode r
    → msg_at (l ∷ k ∷ ks) (put_or_delete l r n) ≡ msg_at (k ∷ ks) n
unfolding put_or_delete IsTree
msg_at-put_or_delete_below l k ks (rnode m rs) n w = elim (Bool-cases (has_no_nodes n)) [
  | inl dead ↦ rw dead (
      rw (get_child-delete (λ _. Unit) l l rs w.1)
        (rw bytes_beq_refl (sym (msg_at_below n k ks dead))))
  | inr live ↦ rw live (rw get_child-set (rw bytes_beq_refl))
]

-- The node itself: its message is lost with the node if no node is left below it.
msg_at-put_or_delete_self :
    (l : Bytes) (r n : Rnode)
    → IsRnode r
    → msg_at (l ∷ []) (put_or_delete l r n) ≡ (if has_no_nodes n then none else msg n)
unfolding put_or_delete IsTree
msg_at-put_or_delete_self l (rnode m rs) n w = elim (Bool-cases (has_no_nodes n)) [
  | inl dead ↦ rw dead (rw (get_child-delete (λ _. Unit) l l rs w.1) (rw bytes_beq_refl))
  | inr live ↦ rw live (rw get_child-set (rw bytes_beq_refl))
]

put_or_delete-IsRnode :
    (l : Bytes) (r n : Rnode) → IsRnode r → IsRnode n → IsRnode (put_or_delete l r n)
unfolding put_or_delete IsTree
put_or_delete-IsRnode l (rnode m rs) n w t = elim (Bool-cases (has_no_nodes n)) [
  | inl dead ↦ rw dead (tt, delete_child-IsForest (λ _. Unit) l rs w.1)
  | inr live ↦ rw live (tt, set_child-IsForest (λ _. Unit) l n rs w.1 t)
]

-- A successful step: the child was there, its removal succeeded, and it was put back or deleted.
pub remove_at-cons :
    (l : Bytes) (ls : List Bytes) (r r' : Rnode)
    → remove_at (l ∷ ls) r ≡ ok r'
    → (n : Rnode) × (n' : Rnode) × (get_child l (nodes r) ≡ some n)
      × (remove_at ls n ≡ ok n')
      × (r' ≡ put_or_delete l r n')
unfolding remove_at
remove_at-cons l ls r r' h = elim (Option-cases (get_child l (nodes r))) [
  | inl g ↦ absurd (ground arith)
  | inr (n, g) ↦ elim (Result-cases (remove_at ls n)) [
    | inl (n', e) ↦ (n, n', g, e, ground arith)
    | inr (x, e) ↦ absurd (ground arith)
  ]
]

remove_at-nil :
    (m : Option PublishPacket) (rs : Rnodes) (r' : Rnode)
    → remove_at [] (rnode m rs) ≡ ok r'
    → r' ≡ rnode none rs
unfolding remove_at
remove_at-nil m rs r' h = ground arith

pub remove_at-IsRnode :
    (ls : List Bytes) (r r' : Rnode) → IsRnode r → remove_at ls r ≡ ok r' → IsRnode r'
unfolding remove_at IsTree
remove_at-IsRnode [] (rnode m rs) r' w h = rw (remove_at-nil m rs r' h) (tt, w.1)
remove_at-IsRnode (l ∷ ls) r r' w h =
    let (n, n', g, e, p) = remove_at-cons l ls r r' h in
    rw p (
      put_or_delete-IsRnode l r n' w (
        remove_at-IsRnode ls n n'
          (get_child-IsTree (λ _. Unit) l n (nodes r) (nodes-IsForest (λ _. Unit) r w) g) e))

-- The topic itself has no message after its removal.
pub msg_at-remove_self :
    (ls : List Bytes) (r r' : Rnode) → IsRnode r → remove_at ls r ≡ ok r' → msg_at ls r' ≡ none
msg_at-remove_self [] (rnode m rs) r' w h = rw (remove_at-nil m rs r' h)
msg_at-remove_self (l ∷ []) r r' w h =
    let (n, n', g, e, p) = remove_at-cons l [] r r' h in
    let t = get_child-IsTree (λ _. Unit) l n (nodes r) (nodes-IsForest (λ _. Unit) r w) g in
    rw (p, msg_at-put_or_delete_self l r n' w)
      (elim (Bool-cases (has_no_nodes n')) [
        | inl dead ↦ rw dead
        | inr live ↦ rw live (msg_at-remove_self [] n n' t e)
      ])
msg_at-remove_self (l ∷ k ∷ ls) r r' w h =
    let (n, n', g, e, p) = remove_at-cons l (k ∷ ls) r r' h in
    let t = get_child-IsTree (λ _. Unit) l n (nodes r) (nodes-IsForest (λ _. Unit) r w) g in
    rw (p, msg_at-put_or_delete_below l k ls r n' w) (msg_at-remove_self (k ∷ ls) n n' t e)

-- A topic, and the topics that it stands below.
abbrev pub IsAbove : List Bytes → List Bytes → Type 0
IsAbove [] ls = Unit
IsAbove (k ∷ ks) [] = ⊥
IsAbove (k ∷ ks) (l ∷ ls) = (k ≡ l) × IsAbove ks ls

kept_below :
    (l : Bytes) (ks ls : List Bytes) (r n n' : Rnode)
    → IsRnode r
    → get_child l (nodes r) ≡ some n
    → ¬ IsAbove ks ls
    → (¬ IsAbove ks ls → msg_at ks n' ≡ msg_at ks n)
    → msg_at (l ∷ ks) (put_or_delete l r n') ≡ msg_at (l ∷ ks) r
kept_below l [] ls r n n' w g apart ih = absurd (apart tt)
kept_below l (k ∷ ks) ls r n n' w g apart ih =
    rw (msg_at-put_or_delete_below l k ks r n' w, g) (ih apart)

-- A removal leaves the message of every topic that is neither the removed one nor above it.
pub msg_at-remove_kept :
    (ks ls : List Bytes) (r r' : Rnode)
    → IsRnode r
    → ¬ IsAbove ks ls
    → remove_at ls r ≡ ok r'
    → msg_at ks r' ≡ msg_at ks r
msg_at-remove_kept [] ls r r' w apart h = absurd (apart tt)
msg_at-remove_kept (k ∷ ks) [] (rnode m rs) r' w apart h = rw (remove_at-nil m rs r' h)
msg_at-remove_kept (k ∷ ks) (l ∷ ls) r r' w apart h =
    let (n, n', g, e, p) = remove_at-cons l ls r r' h in
    let t = get_child-IsTree (λ _. Unit) l n (nodes r) (nodes-IsForest (λ _. Unit) r w) g in
    rw p (elim (beq_cases l k) [
      | inr (_, ne) ↦ msg_at-put_or_delete_ne k l ks r n' w ne
      | inl (_, same) ↦ rw (← same) (
          kept_below l ks ls r n n' w g (λ a. apart (sym same, a))
            λ q. msg_at-remove_kept ks ls n n' t q e)
    ])

only_child :
    (k : Bytes) (p : PublishPacket) (n : Option PublishPacket) (m' : Rnode)
    → remove_at (k ∷ []) (rnode (some p) (child k (rnode n leaf) leaf)) ≡ ok m'
    → has_no_nodes m' ≡ true
unfolding remove_at put_or_delete get_child
only_child k p n m' h = ground (arith, bytes_beq_refl k)

-- The node above a removed message goes with it where no other node is below: its message is lost.
pub msg_at-remove_parent :
    (l k : Bytes) (p : PublishPacket) (n : Option PublishPacket) (r r' : Rnode)
    → IsRnode r
    → get_child l (nodes r) ≡ some (rnode (some p) (child k (rnode n leaf) leaf))
    → remove_at (l ∷ k ∷ []) r ≡ ok r'
    → msg_at (l ∷ []) r' ≡ none
msg_at-remove_parent l k p n r r' w g h =
    let (m, m', g', e, q) = remove_at-cons l (k ∷ []) r r' h in
    let same : m ≡ rnode (some p) (child k (rnode n leaf) leaf) = some_inj (sym g' ∙ g) in
    rw (q, msg_at-put_or_delete_self l r m' w, only_child k p n m' (rw same at e))

-- Whatever the topic, a removal keeps the tree well-formed.
pub rremove-IsRnode :
    (f : ℕ) (t : Bytes) (r r' : Rnode) → IsRnode r → rremove f t r ≡ ok r' → IsRnode r'
unfolding rremove
rremove-IsRnode f [] (node m rs) r' w h =
    unfold remove_at in remove_at-IsRnode [] (node m rs) r' w h
rremove-IsRnode zero (c ∷ t) r r' w h = cc
rremove-IsRnode (suc f) (c ∷ t) r r' w h = elim (Result-cases (next_topic_level (c ∷ t))) [
  | inr (x, e) ↦ absurd (ground arith)
  | inl ((l, rem), e) ↦ elim (Option-cases (get_child l (nodes r))) [
    | inl g ↦ absurd (ground arith)
    | inr (n, g) ↦ elim (Result-cases (rremove f rem n)) [
      | inr (x, q) ↦ absurd (ground arith)
      | inl (n', q) ↦
          let p : r' ≡ put_or_delete l r n' = ground arith in
          let t = get_child-IsTree (λ _. Unit) l n (nodes r) (nodes-IsForest (λ _. Unit) r w) g in
          rw p (put_or_delete-IsRnode l r n' w (rremove-IsRnode f rem n n' t q))
    ]
  ]
]
