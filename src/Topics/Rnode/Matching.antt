-- ===== src/Topics/Rnode/Matching.antt =====
-- What `rmatch` finds, against the topics that the filter matches.
use hmq.Prelude.{
  ◌≡◌, ◌≢◌, refl, sym, ap, ◌⊎◌, inl, inr, ◌↔◌, Option, none, some, some_inj, List, [], ◌∷◌, Memᴰ,
  Bytes, Option-cases, Bool-cases, beq_cases, bytes_beq_refl, ◌==◌, bytes_eq,
}
use mathlib.Core.List.Memᴰ
use hmq.Packets.{PublishPacket}
use hmq.Topics.Level.{mwc, swc}
use hmq.Topics.Filter.{Matches, HashLast}
use hmq.Topics.Tree.{
  node, leaf, child, nodes, get_child, IsTree, get_child_skip, nodes-IsForest, get_child-IsTree,
}
use hmq.Topics.Rnode.{Rnode, Rnodes, msg}
use hmq.Topics.Rnode.Spec.{
  msg_at, IsRnode, AreRnodes, one_msg, everything, everything_in, found, found_level, each_in,
}

one_msg-eq : (m : Option PublishPacket) (p : PublishPacket) → Memᴰ p (one_msg m) → m ≡ some p
one_msg-eq none p h = absurd (Memᴰ.not-nil h)
one_msg-eq (some q) p h = ap some (sym (Memᴰ.eq_of_singleton h))

mem-one_msg : (m : Option PublishPacket) (p : PublishPacket) → m ≡ some p → Memᴰ p (one_msg m)
mem-one_msg none p h = cc
mem-one_msg (some q) p h = Memᴰ.head (sym (some_inj h))

-- A child, and a topic below it that has the message.
abbrev Below : PublishPacket → Rnodes → Type 0
Below p rs =
    (k : Bytes) × (n : Rnode) × (get_child k rs ≡ some n)
    × (ks : List Bytes) × (msg_at ks n ≡ some p)

mutual
  unfolding everything IsTree get_child

  everything_sound :
      (r : Rnode) (p : PublishPacket)
      → IsRnode r
      → Memᴰ p (everything r)
      → (ks : List Bytes) × (msg_at ks r ≡ some p)
  everything_sound (node m rs) p w h = elim (Memᴰ.append_cases (one_msg m) h) [
    | inl here ↦ ([], one_msg-eq m p here)
    | inr below ↦ let (k, n, e, ks, q) = everything_in_sound rs p w.1 below in (k ∷ ks, rw e q)
  ]

  everything_in_sound :
      (rs : Rnodes) (p : PublishPacket) → AreRnodes rs → Memᴰ p (everything_in rs) → Below p rs
  everything_in_sound leaf p w h = absurd (Memᴰ.not-nil h)
  everything_in_sound (child k n rs) p w h = elim (Memᴰ.append_cases (everything n) h) [
    | inl here ↦ let (ks, q) = everything_sound n p w.1 here in (k, n, rw (bytes_beq_refl k), ks, q)
    | inr there ↦
        let (j, o, e, ks, q) = everything_in_sound rs p w.2 there in
        (j, o, get_child_skip j k o n rs w.0 e, ks, q)
  ]

module _ (next : Rnode → List PublishPacket) (p : PublishPacket) where
  each_in_sound :
      (rs : Rnodes)
      → AreRnodes rs
      → Memᴰ p (each_in next rs)
      → (k : Bytes) × (n : Rnode) × (get_child k rs ≡ some n) × Memᴰ p (next n)
  unfolding each_in IsTree get_child
  each_in_sound leaf w h = absurd (Memᴰ.not-nil h)
  each_in_sound (child k n rs) w h = elim (Memᴰ.append_cases (next n) h) [
    | inl here ↦ (k, n, rw (bytes_beq_refl k), here)
    | inr there ↦
        let (j, o, e, below) = each_in_sound rs w.2 there in
        (j, o, get_child_skip j k o n rs w.0 e, below)
  ]

  each_in-complete :
      (rs : Rnodes) (k : Bytes) (n : Rnode)
      → get_child k rs ≡ some n
      → Memᴰ p (next n)
      → Memᴰ p (each_in next rs)
  unfolding each_in get_child
  each_in-complete leaf k n e h = cc
  each_in-complete (child j o rs) k n e h = elim (Bool-cases (j == k)) [
    | inl b ↦
        let same : o ≡ n = some_inj (rw (b, get_child) at e) in
        Memᴰ.append_left {s = next o} _ (rw same h)
    | inr b ↦ Memᴰ.append_right (next o) (each_in-complete rs k n (rw (b, get_child) at e) h)
  ]

everything_in-eq : (rs : Rnodes) → everything_in rs ≡ each_in everything rs
unfolding everything each_in
everything_in-eq leaf = refl
everything_in-eq (child k n rs) = rw (everything_in-eq rs)

everything-complete :
    (ks : List Bytes) (r : Rnode) (p : PublishPacket) → msg_at ks r ≡ some p → Memᴰ p (everything r)
unfolding everything
everything-complete [] (node m rs) p h = Memᴰ.append_left _ (mem-one_msg m p h)
everything-complete (k ∷ ks) (node m rs) p h = elim (Option-cases (get_child k rs)) [
  | inl e ↦ absurd (none_some (rw e at h))
  | inr (n, e) ↦ Memᴰ.append_right (one_msg m) (
      rw everything_in-eq
        (each_in-complete everything p rs k n e (everything-complete ks n p (rw e at h))))
]
  where
    none_some : none ≢ some p
    none_some q = cc

hash-Matches : (l : Bytes) (ls ks : List Bytes) → l ≡ mwc → ls ≡ [] → Matches (l ∷ ls) ks
hash-Matches l ls [] e q = (e, q)
hash-Matches l ls (k ∷ ks) e q = inl (e, q)

abbrev Hit : List Bytes → Rnode → PublishPacket → Type 0
Hit ls r p = (ks : List Bytes) × Matches ls ks × (msg_at ks r ≡ some p)

found_sound :
    (ls : List Bytes) (r : Rnode) (p : PublishPacket)
    → HashLast ls
    → IsRnode r
    → Memᴰ p (found ls r)
    → Hit ls r p
unfolding found
found_sound [] r p last w h = ([], tt, one_msg-eq (msg r) p h)
found_sound (l ∷ ls) r p last w h = elim (beq_cases l mwc) [
  | inl (a, e) ↦
      let (ks, q) = everything_sound r p w (rw (a, found_level) at h) in
      (ks, hash-Matches l ls ks e (last.0 e), q)
  | inr (a, ne) ↦ elim (beq_cases l swc) [
    | inl (b, plus) ↦
        let (k, n, e, below) =
          each_in_sound (found ls) p (nodes r) (nodes-IsForest (λ _. Unit) r w)
            (rw (a, b, found_level) at h) in
        let (ks, m, q) =
          found_sound ls n p last.1
            (get_child-IsTree (λ _. Unit) k n (nodes r) (nodes-IsForest (λ _. Unit) r w) e) below in
        (k ∷ ks, inr (ne, inl plus, m), rw e q)
    | inr (b, _) ↦ elim (Option-cases (get_child l (nodes r))) [
      | inl e ↦ absurd (Memᴰ.not-nil (rw (a, b, e, found_level) at h))
      | inr (n, e) ↦
          let (ks, m, q) =
            found_sound ls n p last.1
              (get_child-IsTree (λ _. Unit) l n (nodes r) (nodes-IsForest (λ _. Unit) r w) e)
              (rw (a, b, e, found_level) at h) in
          (l ∷ ks, inr (ne, inr refl, m), rw e q)
    ]
  ]
]

found_level-complete :
    (next : Rnode → List PublishPacket) (l k : Bytes) (r n : Rnode) (p : PublishPacket)
    → l ≢ mwc
    → (l ≡ swc) ⊎ (l ≡ k)
    → get_child k (nodes r) ≡ some n
    → Memᴰ p (next n)
    → Memᴰ p (found_level next l r)
unfolding found_level
found_level-complete next l k r n p ne fits e h = elim (beq_cases l mwc) [
  | inl (_, hash) ↦ absurd (ne hash)
  | inr (a, _) ↦ elim (beq_cases l swc) [
    | inl (b, _) ↦ rw (a, b) (each_in-complete next p (nodes r) k n e h)
    | inr (b, not_plus) ↦ elim fits [
      | inl plus ↦ absurd (not_plus plus)
      | inr same ↦ rw (a, b, same, e) h
    ]
  ]
]

found-hash :
    (l : Bytes) (ls : List Bytes) (r : Rnode) (p : PublishPacket)
    → l ≡ mwc
    → Memᴰ p (everything r)
    → Memᴰ p (found (l ∷ ls) r)
unfolding found
found-hash l ls r p e h = rw (e, found_level) h

found-complete :
    (ls ks : List Bytes) (r : Rnode) (p : PublishPacket)
    → Matches ls ks
    → msg_at ks r ≡ some p
    → Memᴰ p (found ls r)
unfolding found
found-complete [] [] r p m q = mem-one_msg (msg r) p q
found-complete [] (k ∷ ks) r p m q = absurd m
found-complete (l ∷ ls) [] r p m q = found-hash l ls r p m.0 (everything-complete [] r p q)
found-complete (l ∷ ls) (k ∷ ks) r p (inl hash) q =
    found-hash l ls r p hash.0 (everything-complete (k ∷ ks) r p q)
found-complete (l ∷ ls) (k ∷ ks) r p (inr (ne, fits, m)) q =
    elim (Option-cases (get_child k (nodes r))) [
      | inl e ↦ absurd (none_some (rw e at q))
      | inr (n, e) ↦
          found_level-complete (found ls) l k r n p ne fits e
            (found-complete ls ks n p m (rw e at q))
    ]
  where
    none_some : none ≢ some p
    none_some x = cc

-- A retained message is found exactly if its topic matches the filter.
pub found_iff :
    (ls : List Bytes) (r : Rnode) (p : PublishPacket)
    → HashLast ls
    → IsRnode r
    → Memᴰ p (found ls r) ↔ ((ks : List Bytes) × Matches ls ks × (msg_at ks r ≡ some p))
found_iff ls r p last w = (found_sound ls r p last w, λ t. found-complete ls t.0 r p t.1 t.2)
