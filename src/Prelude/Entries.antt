-- ===== src/Prelude/Entries.antt =====
-- The entries of an association list, as a list.
use mathlib.Core.Path.{◌≡◌, refl, sym, ap, ap₂, ◌∙◌}
use mathlib.Core.Logic.{◌≢◌, ◌⊎◌, inl, inr}
use mathlib.Core.Option.{none, some}
use mathlib.Core.List.Memᴰ
use mathlib.Core.List.{Memᴰ, [], ◌∷◌}
use hmq.Prelude.Tests.{HasEq, beq_cases, some_inj}
use hmq.Prelude.Assoc.{Assoc, lookup, insert, delete}

module _ {ℓ κ} {K : Type ℓ} {V : Type κ} ⦃e : HasEq K⦄ where
  pub lookup-mem : (k : K) (v : V) (m : Assoc K V) → lookup k m ≡ some v → Memᴰ (k, v) m
  lookup-mem k v [] h = cc
  lookup-mem k v ((j, u) ∷ m) h = elim (beq_cases j k) [
    | inl (b, p) ↦
        let q : u ≡ v = some_inj (rw b at h) in Memᴰ.head (ap₂ (λ x y. (x, y)) (sym p) (sym q))
    | inr (b, p) ↦ Memᴰ.tail (lookup-mem k v m (rw b at h))
  ]

  pub not-mem_lookup : (k : K) (v : V) (m : Assoc K V) → lookup k m ≡ none → ¬ Memᴰ (k, v) m
  not-mem_lookup k v [] h i = Memᴰ.not-nil i
  not-mem_lookup k v ((j, u) ∷ m) h i = elim (beq_cases j k) [
    | inl (b, p) ↦ absurd (missing (rw b at h))
    | inr (b, p) ↦ elim (Memᴰ.cases_cons i) [
      | inl q ↦ p (sym (ap (λ x. x.0) q))
      | inr r ↦ not-mem_lookup k v m (rw b at h) r
    ]
  ]
    where
      missing : ¬ (some u ≡ none)
      missing q = cc

  pub mem_of-delete :
      (k j : K) (v : V) (m : Assoc K V) → Memᴰ (j, v) (delete k m) → Memᴰ (j, v) m × (j ≢ k)
  mem_of-delete k j v [] i = absurd (Memᴰ.not-nil i)
  mem_of-delete k j v ((n, u) ∷ m) i = elim (beq_cases n k) [
    | inl (b, p) ↦ let (r, ne) = mem_of-delete k j v m (rw b at i) in (Memᴰ.tail r, ne)
    | inr (b, p) ↦ elim (Memᴰ.cases_cons (rw b at i)) [
      | inl q ↦ (Memᴰ.head q, λ jk. p (sym (ap (λ x. x.0) q) ∙ jk))
      | inr r ↦ let (r', ne) = mem_of-delete k j v m r in (Memᴰ.tail r', ne)
    ]
  ]

  pub mem-delete :
      (k j : K) (v : V) (m : Assoc K V) → Memᴰ (j, v) m → j ≢ k → Memᴰ (j, v) (delete k m)
  mem-delete k j v [] i ne = absurd (Memᴰ.not-nil i)
  mem-delete k j v ((n, u) ∷ m) i ne = elim (beq_cases n k) [
    | inl (b, p) ↦ elim (Memᴰ.cases_cons i) [
      | inl q ↦ absurd (ne (ap (λ x. x.0) q ∙ p))
      | inr r ↦ rw b (mem-delete k j v m r ne)
    ]
    | inr (b, p) ↦ elim (Memᴰ.cases_cons i) [
      | inl q ↦ rw b (Memᴰ.head q)
      | inr r ↦ rw b (Memᴰ.tail (mem-delete k j v m r ne))
    ]
  ]

  pub mem_of-insert :
      (k j : K) (v u : V) (m : Assoc K V)
      → Memᴰ (j, u) (insert k v m)
      → ((j ≡ k) × (u ≡ v)) ⊎ Memᴰ (j, u) m
  mem_of-insert k j v u [] i =
      let q = Memᴰ.eq_of_singleton i in inl (ap (λ x. x.0) q, ap (λ x. x.1) q)
  mem_of-insert k j v u ((n, x) ∷ m) i = elim (beq_cases n k) [
    | inl (b, p) ↦ elim (Memᴰ.cases_cons (rw b at i)) [
      | inl q ↦ inl (ap (λ x. x.0) q ∙ p, ap (λ x. x.1) q)
      | inr r ↦ inr (Memᴰ.tail r)
    ]
    | inr (b, p) ↦ elim (Memᴰ.cases_cons (rw b at i)) [
      | inl q ↦ inr (Memᴰ.head q)
      | inr r ↦ elim (mem_of-insert k j v u m r) [ inl h ↦ inl h | inr h ↦ inr (Memᴰ.tail h) ]
    ]
  ]

  pub mem-insert : (k : K) (v : V) (m : Assoc K V) → Memᴰ (k, v) (insert k v m)
  mem-insert k v [] = Memᴰ.head refl
  mem-insert k v ((n, x) ∷ m) = elim (beq_cases n k) [
    | inl (b, p) ↦ rw b (Memᴰ.head (ap (λ y. (y, v)) (sym p)))
    | inr (b, p) ↦ rw b (Memᴰ.tail (mem-insert k v m))
  ]

  pub mem-insert_other :
      (k j : K) (v u : V) (m : Assoc K V) → Memᴰ (j, u) m → j ≢ k → Memᴰ (j, u) (insert k v m)
  mem-insert_other k j v u [] i ne = absurd (Memᴰ.not-nil i)
  mem-insert_other k j v u ((n, x) ∷ m) i ne = elim (beq_cases n k) [
    | inl (b, p) ↦ elim (Memᴰ.cases_cons i) [
      | inl q ↦ absurd (ne (ap (λ x. x.0) q ∙ p))
      | inr r ↦ rw b (Memᴰ.tail r)
    ]
    | inr (b, p) ↦ elim (Memᴰ.cases_cons i) [
      | inl q ↦ rw b (Memᴰ.head q)
      | inr r ↦ rw b (Memᴰ.tail (mem-insert_other k j v u m r ne))
    ]
  ]
