-- ===== src/Topics/Snode/Matching.antt =====
-- What `smatch` finds, against the filters that match the topic.
use hmq.Prelude.{
  ◌≡◌, ◌≢◌, refl, ◌⊎◌, inl, inr, ◌↔◌, ◌||◌, some, List, [], ◌∷◌, Memᴰ, Bytes, Bool-cases, beq_cases,
  ◌==◌, bytes_eq, bytes_beq_iff, bytes_beq_refl, if◌then◌else◌, Option-cases, some_inj,
}
use mathlib.Core.List.Memᴰ
use hmq.Topics.Level.{mwc, swc}
use hmq.Topics.Value.{Value}
use hmq.Topics.Snode.{Snode, Snodes, snode, subs}
use hmq.Topics.Tree.{leaf, child, nodes, get_child, IsTree, get_child_skip, get_child-IsTree}
use hmq.Topics.Filter.{Matches}
use hmq.Topics.Snode.Spec.{subs_at, Slices, IsSnode, AreSnodes, found, found_in}

-- A child whose subscribers `smatch` looks at when it reads the level `l`.
abbrev Chosen : (Snode → List Value) → Bytes → Value → Bytes → Snode → Type 0
Chosen next l v k n =
    ((k ≡ mwc) × Memᴰ v (subs n)) ⊎ ((k ≢ mwc) × ((k ≡ swc) ⊎ (k ≡ l)) × Memᴰ v (next n))

Chosen-of_mem :
    (next : Snode → List Value) (l : Bytes) (v : Value) (k : Bytes) (n : Snode)
    → Memᴰ v (if k == mwc then subs n else if k == swc || k == l then next n else [])
    → Chosen next l v k n
Chosen-of_mem next l v k n h = elim (beq_cases k mwc) [
  | inl (b, e) ↦ inl (e, rw b at h)
  | inr (b, ne) ↦ elim (beq_cases k swc) [
    | inl (c, e) ↦ inr (ne, inl e, rw (b, c) at h)
    | inr (c, _) ↦ elim (beq_cases k l) [
      | inl (d, e) ↦ inr (ne, inr e, rw (b, c, d) at h)
      | inr (d, _) ↦ absurd (Memᴰ.not-nil (rw (b, c, d) at h))
    ]
  ]
]

mem_of_Chosen :
    (next : Snode → List Value) (l : Bytes) (v : Value) (k : Bytes) (n : Snode)
    → Chosen next l v k n
    → Memᴰ v (if k == mwc then subs n else if k == swc || k == l then next n else [])
mem_of_Chosen next l v k n (inl (e, h)) = rw e h
mem_of_Chosen next l v k n (inr (ne, fits, h)) = elim (beq_cases k mwc) [
  | inl (b, e) ↦ absurd (ne e)
  | inr (b, _) ↦ rw b (elim fits [
    | inl e ↦ rw e h
    | inr e ↦ elim (Bool-cases (k == swc)) [
      | inl c ↦ rw c h
      | inr c ↦ rw (c, (bytes_beq_iff k l).1 e) h
    ]
  ])
]

module _ (next : Snode → List Value) (l : Bytes) (v : Value) where
  found_in_sound :
      (m : Snodes)
      → AreSnodes m
      → Memᴰ v (found_in next l m)
      → (k : Bytes) × (n : Snode) × (get_child k m ≡ some n) × Chosen next l v k n
  unfolding found_in IsTree get_child
  found_in_sound leaf w h = absurd (Memᴰ.not-nil h)
  found_in_sound (child k n m) w h = elim (Memᴰ.append_cases _ h) [
    | inl here ↦ (k, n, rw (bytes_beq_refl k), Chosen-of_mem next l v k n here)
    | inr there ↦
        let (j, o, e, chosen) = found_in_sound m w.2 there in
        (j, o, get_child_skip j k o n m w.0 e, chosen)
  ]

  found_in-complete :
      (m : Snodes) (k : Bytes) (n : Snode)
      → get_child k m ≡ some n
      → Chosen next l v k n
      → Memᴰ v (found_in next l m)
  unfolding found_in get_child
  found_in-complete leaf k n e chosen = cc
  found_in-complete (child j o m) k n e chosen = elim (beq_cases j k) [
    | inl (b, p) ↦
        let same : o ≡ n = some_inj (rw (b, get_child) at e) in
        Memᴰ.append_left _ (mem_of_Chosen next l v j o (rw (p, same) chosen))
    | inr (b, _) ↦ Memᴰ.append_right _ (found_in-complete m k n (rw (b, get_child) at e) chosen)
  ]

subs_at-cons :
    (k : Bytes) (ks : List Bytes) (s n : Snode)
    → get_child k (nodes s) ≡ some n
    → subs_at (k ∷ ks) s ≡ subs_at ks n
subs_at-cons k ks s n e = rw e

found_sound :
    (ls : List Bytes) (s : Snode) (v : Value)
    → IsSnode s
    → Memᴰ v (found ls s)
    → (ks : List Bytes) × Matches ks ls × Memᴰ v (subs_at ks s)
unfolding found IsTree
found_sound [] s v w h = elim (Memᴰ.append_cases (subs s) h) [
  | inl here ↦ ([], tt, here)
  | inr below ↦ elim (Option-cases (get_child mwc (nodes s))) [
    | inl e ↦ absurd (Memᴰ.not-nil (rw e at below))
    | inr (n, e) ↦ (mwc ∷ [], (refl, refl), rw e (rw e at below))
  ]
]
found_sound (l ∷ ls) (snode vs qs m) v w h =
    let (k, n, e, chosen) = found_in_sound (found ls) l v m w.1 h in
    elim chosen [
      | inl (p, here) ↦ (k ∷ [], inl (p, refl), rw e here)
      | inr (ne, fits, below) ↦
          let (ks, matches, there) =
            found_sound ls n v (get_child-IsTree Slices k n m w.1 e) below in
          (k ∷ ks, inr (ne, fits, matches), rw e there)
    ]

module _ (k : Bytes) (s n : Snode) (v : Value) (e : get_child k (nodes s) ≡ some n) where
  found-hash : (ls : List Bytes) → k ≡ mwc → Memᴰ v (subs n) → Memᴰ v (found ls s)
  unfolding found
  found-hash [] p h = Memᴰ.append_right (subs s) (rw (rw p at e) h)
  found-hash (l ∷ ls) p h = found_in-complete (found ls) l v _ k n e (inl (p, h))

  -- `below` is the induction hypothesis at the child.
  found-child :
      (ks ls : List Bytes)
      → ((ls' : List Bytes) → Matches ks ls' → Memᴰ v (subs_at ks n) → Memᴰ v (found ls' n))
      → Matches (k ∷ ks) ls
      → Memᴰ v (subs_at ks n)
      → Memᴰ v (found ls s)
  unfolding found
  found-child ks [] below (p, q) h = found-hash [] p (rw q at h)
  found-child ks (l ∷ ls) below (inl (p, q)) h = found-hash (l ∷ ls) p (rw q at h)
  found-child ks (l ∷ ls) below (inr (ne, fits, m)) h =
      found_in-complete (found ls) l v _ k n e (inr (ne, fits, below ls m h))

found-complete :
    (ks ls : List Bytes) (s : Snode) (v : Value)
    → Matches ks ls
    → Memᴰ v (subs_at ks s)
    → Memᴰ v (found ls s)
unfolding found
found-complete [] [] s v m h = Memᴰ.append_left _ h
found-complete [] (l ∷ ls) s v m h = absurd m
found-complete (k ∷ ks) ls s v m h = elim (Option-cases (get_child k (nodes s))) [
  | inl e ↦ absurd (Memᴰ.not-nil (rw e at h))
  | inr (n, e) ↦
      found-child k s n v e ks ls (λ ls' m' h'. found-complete ks ls' n v m' h') m (rw e at h)
]

-- A subscriber is found for a topic exactly if it subscribes to a filter that matches the topic.
pub found_iff :
    (ls : List Bytes) (s : Snode) (v : Value)
    → IsSnode s
    → Memᴰ v (found ls s) ↔ ((ks : List Bytes) × Matches ks ls × Memᴰ v (subs_at ks s))
found_iff ls s v w = (found_sound ls s v w, λ t. found-complete t.0 ls s v t.1 t.2)
