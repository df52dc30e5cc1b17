-- ===== src/Topics/Tree.antt =====
-- The shape that snode and rnode of broker/lib/topics/memtopics.go share: a node has its own data
-- and a map from topic levels to nodes.
use hmq.Prelude.{
  ◌≡◌, ◌≢◌, refl, inl, inr, Bool-cases, Option, none, some, List, [], ◌∷◌, Bytes, beq_cases,
  bytes_beq_iff, bytes_eq, ◌==◌, if◌then◌else◌, some_inj, arith,
}

mutual
  pub data Tree (A : Type 0) : Type 0 where
    node : A → Forest A → Tree A

  -- map[string]*node
  pub data Forest (A : Type 0) : Type 0 where
    leaf : Forest A
    child : Bytes → Tree A → Forest A → Forest A

module _ {A : Type 0} where
  abbrev pub nodes : Tree A → Forest A
  nodes (node a m) = m

  abbrev pub payload : Tree A → A
  payload (node a m) = a

  -- m[level]
  unfoldable pub get_child : Bytes → Forest A → Option (Tree A)
  get_child k leaf = none
  get_child k (child j n m) = if j == k then some n else get_child k m

  -- m[level] = n
  unfoldable pub set_child : Bytes → Tree A → Forest A → Forest A
  set_child k n leaf = child k n leaf
  set_child k n (child j o m) = if j == k then child j n m else child j o (set_child k n m)

  -- delete(m, level)
  unfoldable pub delete_child : Bytes → Forest A → Forest A
  delete_child k leaf = leaf
  delete_child k (child j n m) = if j == k then m else child j n (delete_child k m)

  abbrev pub descend : Option (Tree A) → (Tree A → Option (Tree A)) → Option (Tree A)
  descend none next = none
  descend (some n) next = next n

  -- The node that the levels of a topic lead to.
  abbrev pub node_at : List Bytes → Tree A → Option (Tree A)
  node_at [] s = some s
  node_at (k ∷ ks) s = descend (get_child k (nodes s)) (node_at ks)

-- Each node has `P`, and a map has one entry for each key.
unfoldable mutual
  pub IsTree : {A : Type 0} → (A → Type 0) → Tree A → Type 0
  IsTree P (node a m) = P a × IsForest P m

  pub IsForest : {A : Type 0} → (A → Type 0) → Forest A → Type 0
  IsForest P leaf = Unit
  IsForest P (child k n m) = (get_child k m ≡ none) × IsTree P n × IsForest P m

pub get_child_skip :
    {A : Type 0} (k j : Bytes) (n o : Tree A) (m : Forest A)
    → get_child j m ≡ none
    → get_child k m ≡ some n
    → get_child k (child j o m) ≡ some n
unfolding get_child
get_child_skip k j n o m new e = elim (beq_cases j k) [
  | inl (_, p) ↦ absurd (none_some (rw p at new))
  | inr (b, _) ↦ rw b e
]
  where
    none_some : get_child k m ≢ none
    none_some h = cc

pub get_child-set :
    {A : Type 0} (k l : Bytes) (n : Tree A) (m : Forest A)
    → get_child k (set_child l n m) ≡ (if l == k then some n else get_child k m)
unfolding get_child set_child
get_child-set k l n leaf = refl
get_child-set k l n (child j o m) =
    ground (arith, bytes_beq_iff j l, bytes_beq_iff j k, bytes_beq_iff l k, get_child-set k l n m)

module _ {A : Type 0} (P : A → Type 0) where
  pub nodes-IsForest : (s : Tree A) → IsTree P s → IsForest P (nodes s)
  unfolding IsTree
  nodes-IsForest (node a m) w = w.1

  pub get_child-IsTree :
      (k : Bytes) (n : Tree A) (m : Forest A) → IsForest P m → get_child k m ≡ some n → IsTree P n
  unfolding IsTree get_child
  get_child-IsTree k n leaf w e = cc
  get_child-IsTree k n (child j o m) w e = elim (Bool-cases (j == k)) [
    | inl same ↦ rw (some_inj (rw (same, get_child) at e)) at w.1
    | inr other ↦ get_child-IsTree k n m w.2 (rw (other, get_child) at e)
  ]

  pub get_child-delete :
      (k l : Bytes) (m : Forest A)
      → IsForest P m
      → get_child k (delete_child l m) ≡ (if l == k then none else get_child k m)
  unfolding get_child delete_child IsTree
  get_child-delete k l leaf w = ground arith
  get_child-delete k l (child j o m) w = elim (beq_cases j l) [
    | inl (b, p) ↦ elim (beq_cases l k) [
      | inl (c, q) ↦ rw (b, c) (rw (p, q) at w.0)
      | inr (c, ne) ↦ ground (arith, bytes_beq_iff j k)
    ]
    | inr (b, ne) ↦ ground (arith, bytes_beq_iff j k, bytes_beq_iff l k, get_child-delete k l m w.2)
  ]

  pub set_child-IsForest :
      (l : Bytes) (n : Tree A) (m : Forest A)
      → IsForest P m
      → IsTree P n
      → IsForest P (set_child l n m)
  unfolding set_child IsTree get_child
  set_child-IsForest l n leaf w t = (refl, t, tt)
  set_child-IsForest l n (child j o m) (new, w, ws) t = elim (beq_cases j l) [
    | inl (b, p) ↦ rw b (new, t, ws)
    | inr (b, ne) ↦ rw b (
      ground (arith, get_child-set j l n m, bytes_beq_iff l j, bytes_beq_iff j l),
      w,
      set_child-IsForest l n m ws t,
    )
  ]

  pub delete_child-IsForest :
      (l : Bytes) (m : Forest A) → IsForest P m → IsForest P (delete_child l m)
  unfolding delete_child IsTree get_child
  delete_child-IsForest l leaf w = tt
  delete_child-IsForest l (child j o m) (new, w, ws) = elim (beq_cases j l) [
    | inl (b, p) ↦ rw b ws
    | inr (b, ne) ↦
        rw b (ground (arith, get_child-delete j l m ws), w, delete_child-IsForest l m ws)
  ]
