-- ===== src/Topics/Rnode.antt =====
-- broker/lib/topics/memtopics.go, rnode: the tree of retained messages.
pub mod Spec
pub mod Retained
pub mod Found
pub mod Matching
pub mod Removed
use hmq.Prelude.{
  ℕ, zero, suc, ◌≡◌, Bool, true, false, ◌&&◌, ◌||◌, Option, none, some, List, [], ◌∷◌, ◌++◌, Bytes,
  Result, ok, err, ◌>>=◌, ◌==◌, bytes_eq, if◌then◌else◌,
}
use hmq.Packets.{PublishPacket}
use hmq.Topics.Level.{TopicError, no_topic, out_of_fuel, mwc, swc, next_topic_level}
use hmq.Topics.Tree.{Tree, Forest, node, leaf, child, nodes, get_child, set_child, delete_child}

-- The field `msg`, nil where no message is retained, and the map `rnodes`.
abbrev pub Rnode : Type 0
Rnode = Tree (Option PublishPacket)

abbrev pub Rnodes : Type 0
Rnodes = Forest (Option PublishPacket)

pattern abbrev pub rnode : Option PublishPacket → Rnodes → Rnode
rnode msg m = node msg m

abbrev pub msg : Rnode → Option PublishPacket
msg (rnode m rs) = m

-- newRNode
abbrev pub new_rnode : Rnode
new_rnode = rnode none leaf

abbrev pub or_new : Option Rnode → Rnode
or_new none = new_rnode
or_new (some n) = n

unfoldable pub put_child : Bytes → Rnode → Rnode × Option TopicError → Rnode × Option TopicError
put_child l (rnode m rs) (n, e) = (rnode m (set_child l n rs), e)

-- rinsertOrUpdate; the levels before an error are created.
unfoldable pub rinsert_or_update : ℕ → Bytes → PublishPacket → Rnode → Rnode × Option TopicError
unfolding put_child get_child set_child
rinsert_or_update f [] p (rnode m rs) = (rnode (some p) rs, none)
rinsert_or_update zero (c ∷ t) p r = (r, some out_of_fuel)
rinsert_or_update (suc f) (c ∷ t) p r = elim (next_topic_level (c ∷ t)) [
  | err e ↦ (r, some e)
  | ok (l, rem) ↦ put_child l r (rinsert_or_update f rem p (or_new (get_child l (nodes r))))
]

-- len(n.rnodes) == 0
abbrev pub has_no_nodes : Rnode → Bool
has_no_nodes (rnode m leaf) = true
has_no_nodes (rnode m (child k n rs)) = false

-- After the recursive call: the node is deleted from the map if no node is left below it.
unfoldable pub put_or_delete : Bytes → Rnode → Rnode → Rnode
unfolding set_child delete_child
put_or_delete l (rnode m rs) n =
    rnode m (if has_no_nodes n then delete_child l rs else set_child l n rs)

-- The part of `rremove` after the lookup of the level, where `next` is `rremove` on the rest.
unfoldable pub remove_in :
    Bytes → Rnode → (Rnode → Result TopicError Rnode) → Option Rnode → Result TopicError Rnode
remove_in l r next none = err no_topic
remove_in l r next (some n) = next n >>= λ n'. ok (put_or_delete l r n')

-- Nothing is written before the last error return, so an error leaves the tree as it was.
unfoldable pub rremove : ℕ → Bytes → Rnode → Result TopicError Rnode
unfolding put_or_delete remove_in get_child
rremove f [] (rnode m rs) = ok (rnode none rs)
rremove zero (c ∷ t) r = err out_of_fuel
rremove (suc f) (c ∷ t) r = do
  (l, rem) ← next_topic_level (c ∷ t)
  remove_in l r (rremove f rem) (get_child l (nodes r))

-- `*msgs = append(*msgs, r.msg)` where the message is there.
abbrev pub add_msg : Option PublishPacket → List PublishPacket → List PublishPacket
add_msg none msgs = msgs
add_msg (some p) msgs = msgs ++ p ∷ []

unfoldable mutual
  pub all_retained : Rnode → List PublishPacket → List PublishPacket
  all_retained (node m rs) msgs = all_retained_in rs (add_msg m msgs)

  pub all_retained_in : Rnodes → List PublishPacket → List PublishPacket
  all_retained_in leaf msgs = msgs
  all_retained_in (child k n rs) msgs = all_retained_in rs (all_retained n msgs)

abbrev pub Gather : Type 0
Gather = Rnode → List PublishPacket → Result TopicError (List PublishPacket)

-- The loop over all nodes at the level, for "+".
unfoldable pub match_each :
    Gather → Rnodes → List PublishPacket → Result TopicError (List PublishPacket)
match_each next leaf msgs = ok msgs
match_each next (child k n rs) msgs = next n msgs >>= λ msgs'. match_each next rs msgs'

abbrev pub match_one :
    Gather → Option Rnode → List PublishPacket → Result TopicError (List PublishPacket)
match_one next none msgs = ok msgs
match_one next (some n) msgs = next n msgs

-- The three branches of `rmatch` on the level `l`, where `next` is `rmatch` on the rest.
unfoldable pub match_level :
    Gather → Bytes → Rnode → List PublishPacket → Result TopicError (List PublishPacket)
unfolding all_retained match_each get_child
match_level next l r msgs =
    if l == mwc
    then ok (all_retained r msgs)
    else if l == swc
    then match_each next (nodes r) msgs
    else match_one next (get_child l (nodes r)) msgs

unfoldable pub rmatch : ℕ → Bytes → Gather
unfolding match_level
rmatch f [] r msgs = ok (add_msg (msg r) msgs)
rmatch zero (c ∷ t) r msgs = err out_of_fuel
rmatch (suc f) (c ∷ t) r msgs = do
  (l, rem) ← next_topic_level (c ∷ t)
  match_level (rmatch f rem) l r msgs
