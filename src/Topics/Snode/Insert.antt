-- ===== src/Topics/Snode/Insert.antt =====
-- `sinsert` at one node: the subscribers of every filter after it, and the well-formedness.
use hmq.Prelude.{
  ℕ, ◌≡◌, sym, ◌⊎◌, inl, inr, ◌↔◌, false, none, some, List, [], ◌∷◌, ◌++◌, Memᴰ, Bool-cases,
  Option-cases, length, length-append, bytes_eq, arith,
}
use mathlib.Core.List.Memᴰ
use hmq.Topics.Value.{Value, equal, equal_iff, is_func}
use hmq.Topics.Snode.{Snode, snode, subs, update_qos, add_sub}
use hmq.Topics.Tree.{nodes, IsTree}
use hmq.Topics.Snode.Spec.{Distinct, IsSnode}

-- The loop finds the subscriber exactly if it is in the node.
update_qos-none :
    (vs : List Value) (qs : List ℕ) (q : ℕ) (sub : Value)
    → length vs ≡ length qs
    → is_func sub ≡ false
    → update_qos vs qs q sub ≡ none
    → ¬ Memᴰ sub vs
unfolding update_qos
update_qos-none [] qs q sub w nf h mem = absurd (Memᴰ.not-nil mem)
update_qos-none (v ∷ vs) [] q sub w nf h mem = absurd (omega arith)
update_qos-none (v ∷ vs) (r ∷ qs) q sub w nf h mem = elim (Memᴰ.cases_cons mem) [
  | inl e ↦ ground (arith, equal_iff v sub)
  | inr there ↦ update_qos-none vs qs q sub (omega arith) nf (ground (arith, equal_iff v sub)) there
]

update_qos-some :
    (vs : List Value) (qs qs' : List ℕ) (q : ℕ) (sub : Value)
    → update_qos vs qs q sub ≡ some qs'
    → Memᴰ sub vs × (length qs' ≡ length qs)
unfolding update_qos
update_qos-some [] qs qs' q sub h = cc
update_qos-some (v ∷ vs) [] qs' q sub h = cc
update_qos-some (v ∷ vs) (r ∷ qs) qs' q sub h = elim (Bool-cases (equal v sub)) [
  | inl b ↦ (Memᴰ.head (sym ((equal_iff v sub).0 b).0), ground arith)
  | inr b ↦ elim (Option-cases (update_qos vs qs q sub)) [
    | inl e ↦ absurd (ground arith)
    | inr (qs0, e) ↦
        let (mem, len) = update_qos-some vs qs qs0 q sub e in (Memᴰ.tail mem, ground arith)
  ]
]

Distinct-append :
    (vs : List Value) (v : Value) → Distinct vs → ¬ Memᴰ v vs → Distinct (vs ++ v ∷ [])
Distinct-append [] v d new = (λ h. Memᴰ.not-nil h, tt)
Distinct-append (x ∷ vs) v (fresh, d) new = (
  λ h. elim (Memᴰ.append_cases vs h) [
    | inl old ↦ fresh old
    | inr last ↦ new (Memᴰ.head (sym (Memᴰ.eq_of_singleton last)))
  ],
  Distinct-append vs v d (λ h. new (Memᴰ.tail h)),
)

module _ (sub : Value) (q : ℕ) (nf : is_func sub ≡ false) where
  pub add_sub-IsTree : (s : Snode) → IsSnode s → IsSnode (add_sub sub q s)
  unfolding add_sub IsTree
  add_sub-IsTree (snode vs qs m) ((len, d), w) = elim (Option-cases (update_qos vs qs q sub)) [
    | inl e ↦
        rw (e, add_sub)
          (
            (
              omega (arith, length-append vs (sub ∷ []), length-append qs (q ∷ [])),
              Distinct-append vs sub d (update_qos-none vs qs q sub len nf e),
            ),
            w,
          )
    | inr (qs', e) ↦ rw (e, add_sub) ((omega (arith, (update_qos-some vs qs qs' q sub e).1), d), w)
  ]

  pub mem-add_sub :
      (s : Snode) (v : Value) → Memᴰ v (subs (add_sub sub q s)) ↔ (Memᴰ v (subs s) ⊎ (v ≡ sub))
  unfolding add_sub
  mem-add_sub (snode vs qs m) v = elim (Option-cases (update_qos vs qs q sub)) [
    | inl e ↦
        rw (e, add_sub)
          (
            λ h. elim (Memᴰ.append_cases vs h) [
              | inl a ↦ inl a
              | inr b ↦ inr (Memᴰ.eq_of_singleton b)
            ],
            λ h. elim h [
              | inl a ↦ Memᴰ.append_left _ a
              | inr p ↦ Memᴰ.append_right vs (Memᴰ.head p)
            ],
          )
    | inr (qs', e) ↦
        rw (e, add_sub)
          (
            λ h. inl h,
            λ h. elim h [ inl a ↦ a | inr p ↦ Memᴰ.cast p (update_qos-some vs qs qs' q sub e).0 ],
          )
  ]

  pub nodes-add_sub : (s : Snode) → nodes (add_sub sub q s) ≡ nodes s
  unfolding add_sub
  nodes-add_sub (snode vs qs m) = elim (Option-cases (update_qos vs qs q sub)) [
    | inl e ↦ rw (e, add_sub)
    | inr (qs', e) ↦ rw (e, add_sub)
  ]
