-- ===== src/Topics/Snode/Spec.antt =====
-- The subscription tree as a table from filters to subscribers.
use hmq.Prelude.{
  ℕ, ◌≡◌, ◌||◌, List, [], ◌∷◌, ◌++◌, Memᴰ, Bytes, length, ◌==◌, bytes_eq, if◌then◌else◌,
}
use hmq.Topics.Level.{mwc, swc}
use hmq.Topics.Value.{Value}
use hmq.Topics.Snode.{Snode, Snodes, subs, subs_of}
use hmq.Topics.Tree.{leaf, child, nodes, get_child, node_at, IsTree, IsForest}

-- The subscribers of a filter.
abbrev pub subs_at : List Bytes → Snode → List Value
subs_at ks s = subs_of (node_at ks s)

abbrev pub Distinct : List Value → Type 0
Distinct [] = Unit
Distinct (v ∷ vs) = (¬ Memᴰ v vs) × Distinct vs

-- The two slices of a node are parallel, and no subscriber is in a node twice.
abbrev pub Slices : List Value × List ℕ → Type 0
Slices (vs, qs) = (length vs ≡ length qs) × Distinct vs

abbrev pub IsSnode : Snode → Type 0
IsSnode = IsTree Slices

abbrev pub AreSnodes : Snodes → Type 0
AreSnodes = IsForest Slices

-- What `smatch` finds, as one list.
unfoldable pub found_in : (Snode → List Value) → Bytes → Snodes → List Value
found_in next l leaf = []
found_in next l (child k n m) =
    (if k == mwc then subs n else if k == swc || k == l then next n else []) ++ found_in next l m

unfoldable pub found : List Bytes → Snode → List Value
unfolding found_in
found [] s = subs s ++ subs_of (get_child mwc (nodes s))
found (l ∷ ls) s = found_in (found ls) l (nodes s)
