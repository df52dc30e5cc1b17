-- ===== src/Topics/Snode.antt =====
-- broker/lib/topics/memtopics.go, snode: the subscription tree. A node holds the parallel slices
-- `subs` and `qos` and a map from levels to nodes.
pub mod Spec
pub mod Found
pub mod Matching
pub mod Insert
pub mod Subscribed
pub mod Reading
pub mod Drop
pub mod Removed
pub mod Kept
use hmq.Prelude.{
  ℕ, zero, suc, ◌≡◌, Bool, true, false, ◌&&◌, ◌||◌, Option, none, some, List, [], ◌∷◌, ◌++◌, Bytes,
  Result, ok, err, ◌>>=◌, ◌==◌, nat_eq, bytes_eq, if◌then◌else◌, is_empty,
}
use hmq.Topics.Level.{TopicError, no_topic_for_subscriber, no_topic, out_of_fuel}
use hmq.Topics.Level.{mwc, swc, next_topic_level}
use hmq.Topics.Tree.{Tree, Forest, node, leaf, child, nodes, get_child, set_child, delete_child}
use hmq.Topics.Value.{Value, equal}

-- The slices `subs` and `qos`, and the map `snodes`.
abbrev pub Snode : Type 0
Snode = Tree (List Value × List ℕ)

abbrev pub Snodes : Type 0
Snodes = Forest (List Value × List ℕ)

pattern abbrev pub snode : List Value → List ℕ → Snodes → Snode
snode vs qs m = node (vs, qs) m

abbrev pub subs : Snode → List Value
subs (snode vs qs m) = vs

-- newSNode
abbrev pub new_snode : Snode
new_snode = snode [] [] leaf

-- The loop over `s.subs` that updates the QoS of a subscriber; `none` when it is not there.
unfoldable pub update_qos : List Value → List ℕ → ℕ → Value → Option (List ℕ)
update_qos [] qs q sub = none
update_qos (v ∷ vs) [] q sub = none
update_qos (v ∷ vs) (r ∷ qs) q sub =
    if equal v sub
    then some (q ∷ qs)
    else elim (update_qos vs qs q sub) [ none ↦ none | some qs' ↦ some (r ∷ qs') ]

-- `sinsert` at the node of the last level.
unfoldable pub add_sub : Value → ℕ → Snode → Snode
unfolding update_qos
add_sub sub q (snode vs qs m) = elim (update_qos vs qs q sub) [
  | some qs' ↦ snode vs qs' m
  | none ↦ snode (vs ++ sub ∷ []) (qs ++ q ∷ []) m
]

-- A node may change although an error is returned: the levels before the error are created.
abbrev pub or_new : Option Snode → Snode
or_new none = new_snode
or_new (some n) = n

unfoldable pub put_child : Bytes → Snode → Snode × Option TopicError → Snode × Option TopicError
put_child l (snode vs qs m) (n, e) = (snode vs qs (set_child l n m), e)

unfoldable pub sinsert : ℕ → Bytes → ℕ → Value → Snode → Snode × Option TopicError
unfolding put_child get_child set_child add_sub
sinsert f [] q sub s = (add_sub sub q s, none)
sinsert zero (c ∷ t) q sub s = (s, some out_of_fuel)
sinsert (suc f) (c ∷ t) q sub s = elim (next_topic_level (c ∷ t)) [
  | err e ↦ (s, some e)
  | ok (l, rem) ↦ put_child l s (sinsert f rem q sub (or_new (get_child l (nodes s))))
]

-- The loop over `s.subs` that drops a subscriber; `none` when it is not there.
unfoldable pub drop_sub : List Value → List ℕ → Value → Option (List Value × List ℕ)
drop_sub [] qs sub = none
drop_sub (v ∷ vs) [] sub = none
drop_sub (v ∷ vs) (r ∷ qs) sub =
    if equal v sub
    then some (vs, qs)
    else elim (drop_sub vs qs sub) [ none ↦ none | some (vs', qs') ↦ some (v ∷ vs', r ∷ qs') ]

-- `sremove` at the node of the last level; a nil subscriber removes them all.
unfoldable pub remove_sub : Option Value → Snode → Result TopicError Snode
unfolding drop_sub
remove_sub none (snode vs qs m) = ok (snode [] [] m)
remove_sub (some sub) (snode vs qs m) = elim (drop_sub vs qs sub) [
  | none ↦ err no_topic_for_subscriber
  | some (vs', qs') ↦ ok (snode vs' qs' m)
]

-- len(n.subs) == 0 && len(n.nodes) == 0
unfoldable pub is_dead : Snode → Bool
is_dead (snode [] qs leaf) = true
is_dead (snode vs qs m) = false

-- After the recursive call: the node is deleted from the map if nothing is left in it.
unfoldable pub put_or_delete : Bytes → Snode → Snode → Snode
unfolding is_dead set_child delete_child
put_or_delete l (snode vs qs m) n =
    snode vs qs (if is_dead n then delete_child l m else set_child l n m)

-- The part of `sremove` after the lookup of the level, where `next` is `sremove` on the rest.
unfoldable pub remove_in :
    Bytes → Snode → (Snode → Result TopicError Snode) → Option Snode → Result TopicError Snode
remove_in l s next none = err no_topic
remove_in l s next (some n) = next n >>= λ n'. ok (put_or_delete l s n')

-- Nothing is written before the last error return, so an error leaves the tree as it was.
unfoldable pub sremove : ℕ → Bytes → Option Value → Snode → Result TopicError Snode
unfolding put_or_delete remove_sub remove_in get_child
sremove f [] sub s = remove_sub sub s
sremove zero (c ∷ t) sub s = err out_of_fuel
sremove (suc f) (c ∷ t) sub s = do
  (l, rem) ← next_topic_level (c ∷ t)
  remove_in l s (sremove f rem sub) (get_child l (nodes s))

-- The slices `*subs` and `*qoss` that a match appends to.
abbrev pub Matched : Type 0
Matched = List Value × List ℕ

-- matchQos: every subscriber of the node, with the QoS of the published message.
unfoldable pub match_qos : ℕ → List Value → Matched → Matched
match_qos q [] (vs, qs) = (vs, qs)
match_qos q (v ∷ subs) (vs, qs) = match_qos q subs (vs ++ v ∷ [], qs ++ q ∷ [])

abbrev pub subs_of : Option Snode → List Value
subs_of none = []
subs_of (some n) = subs n

-- smatch at the end of the topic: the node's subscribers, and those of its child "#".
unfoldable pub match_end : ℕ → Snode → Matched → Matched
unfolding match_qos get_child
match_end q s acc = match_qos q (subs_of (get_child mwc (nodes s))) (match_qos q (subs s) acc)

-- The loop over `s.snodes`, where `next` is `smatch` on the rest of the topic.
unfoldable pub match_snodes :
    (Snode → Matched → Result TopicError Matched)
    → Bytes
    → ℕ
    → Snodes
    → Matched
    → Result TopicError Matched
unfolding match_qos
match_snodes next l q leaf acc = ok acc
match_snodes next l q (child k n m) acc =
    (if k == mwc
      then ok (match_qos q (subs n) acc)
      else if k == swc || k == l
      then next n acc
      else ok acc)
    >>= λ acc'. match_snodes next l q m acc'

unfoldable pub smatch : ℕ → Bytes → ℕ → Snode → Matched → Result TopicError Matched
unfolding match_end match_snodes
smatch f [] q s acc = ok (match_end q s acc)
smatch zero (c ∷ t) q s acc = err out_of_fuel
smatch (suc f) (c ∷ t) q s acc = do
  (l, rem) ← next_topic_level (c ∷ t)
  match_snodes (smatch f rem q) l q (nodes s) acc
