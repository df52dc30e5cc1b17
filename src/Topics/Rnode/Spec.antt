-- ===== src/Topics/Rnode/Spec.antt =====
-- The tree of retained messages as a table from topics to messages.
use hmq.Prelude.{Option, none, some, List, [], ◌∷◌, ◌++◌, Bytes, ◌==◌, bytes_eq, if◌then◌else◌}
use hmq.Packets.{PublishPacket}
use hmq.Topics.Level.{mwc, swc}
use hmq.Topics.Tree.{node, leaf, child, nodes, get_child, node_at, IsTree, IsForest}
use hmq.Topics.Rnode.{Rnode, Rnodes, msg}

abbrev pub msg_of : Option Rnode → Option PublishPacket
msg_of none = none
msg_of (some n) = msg n

-- The message retained for a topic.
abbrev pub msg_at : List Bytes → Rnode → Option PublishPacket
msg_at ks r = msg_of (node_at ks r)

-- A map has one entry for each key.
abbrev pub IsRnode : Rnode → Type 0
IsRnode = IsTree (λ _. Unit)

abbrev pub AreRnodes : Rnodes → Type 0
AreRnodes = IsForest (λ _. Unit)

abbrev pub one_msg : Option PublishPacket → List PublishPacket
one_msg none = []
one_msg (some p) = p ∷ []

-- The messages of a node and of all nodes below it.
unfoldable mutual
  pub everything : Rnode → List PublishPacket
  everything (node m rs) = one_msg m ++ everything_in rs

  pub everything_in : Rnodes → List PublishPacket
  everything_in leaf = []
  everything_in (child k n rs) = everything n ++ everything_in rs

unfoldable pub each_in : (Rnode → List PublishPacket) → Rnodes → List PublishPacket
each_in next leaf = []
each_in next (child k n rs) = next n ++ each_in next rs

abbrev pub at_child : (Rnode → List PublishPacket) → Option Rnode → List PublishPacket
at_child next none = []
at_child next (some n) = next n

-- What one level of a filter finds below a node, where `next` is for the rest of the filter.
unfoldable pub found_level : (Rnode → List PublishPacket) → Bytes → Rnode → List PublishPacket
unfolding each_in everything
found_level next l r =
    if l == mwc
    then everything r
    else if l == swc
    then each_in next (nodes r)
    else at_child next (get_child l (nodes r))

-- What `rmatch` finds, as one list.
unfoldable pub found : List Bytes → Rnode → List PublishPacket
unfolding found_level
found [] r = one_msg (msg r)
found (l ∷ ls) r = found_level (found ls) l r
