-- ===== src/Topics/Snode/Drop.antt =====
-- `sremove` at the node of the last level.
use hmq.Prelude.{
  ℕ, ◌+◌, ◌≡◌, ◌≢◌, sym, ap, ◌∙◌, ◌⊎◌, inl, inr, false, none, some, List, [], ◌∷◌, Memᴰ, Bool-cases,
  Option-cases, length, some_inj, arith,
}
use mathlib.Core.List.Memᴰ
use hmq.Topics.Value.{Value, equal, equal_iff, is_func}
use hmq.Topics.Snode.{drop_sub}
use hmq.Topics.Snode.Spec.{Distinct}

pub drop_sub-none :
    (vs : List Value) (qs : List ℕ) (sub : Value)
    → length vs ≡ length qs
    → is_func sub ≡ false
    → drop_sub vs qs sub ≡ none
    → ¬ Memᴰ sub vs
unfolding drop_sub
drop_sub-none [] qs sub w nf h mem = absurd (Memᴰ.not-nil mem)
drop_sub-none (v ∷ vs) [] sub w nf h mem = absurd (omega arith)
drop_sub-none (v ∷ vs) (r ∷ qs) sub w nf h mem = elim (Memᴰ.cases_cons mem) [
  | inl e ↦ ground (arith, equal_iff v sub)
  | inr there ↦ drop_sub-none vs qs sub (omega arith) nf (ground (arith, equal_iff v sub)) there
]

-- What is left is what was there, less the subscriber.
pub record Dropped (vs : List Value) (qs : List ℕ) (sub : Value) (vs' : List Value) (qs' : List ℕ)
    : Type 0 where
  pub was_there : Memᴰ sub vs
  pub shorter : (length vs ≡ length vs' + 1) × (length qs ≡ length qs' + 1)
  pub kept : (v : Value) → Memᴰ v vs → (v ≡ sub) ⊎ Memᴰ v vs'
  pub old : (v : Value) → Memᴰ v vs' → Memᴰ v vs
  pub gone : Distinct vs → (¬ Memᴰ sub vs') × Distinct vs'

Dropped-here :
    (v sub : Value) (vs : List Value) (r : ℕ) (qs : List ℕ)
    → v ≡ sub
    → Dropped (v ∷ vs) (r ∷ qs) sub vs qs
Dropped-here v sub vs r qs e = record {
  was_there = Memᴰ.head (sym e);
  shorter = omega arith;
  kept = λ x h. elim (Memᴰ.cases_cons h) [ inl p ↦ inl (p ∙ e) | inr t ↦ inr t ];
  old = λ x h. Memᴰ.tail h;
  gone = λ d. (rw e at d.0, d.1);
}

Dropped-there :
    (v sub : Value) (vs vs' : List Value) (r : ℕ) (qs qs' : List ℕ)
    → v ≢ sub
    → Dropped vs qs sub vs' qs'
    → Dropped (v ∷ vs) (r ∷ qs) sub (v ∷ vs') (r ∷ qs')
Dropped-there v sub vs vs' r qs qs' ne d = record {
  was_there = Memᴰ.tail d.was_there;
  shorter = omega (arith, d.shorter.0, d.shorter.1);
  kept = λ x h. elim (Memᴰ.cases_cons h) [
    | inl p ↦ inr (Memᴰ.head p)
    | inr t ↦ elim (d.kept x t) [ inl p ↦ inl p | inr m ↦ inr (Memᴰ.tail m) ]
  ];
  old = λ x h. elim (Memᴰ.cases_cons h) [ inl p ↦ Memᴰ.head p | inr t ↦ Memᴰ.tail (d.old x t) ];
  gone = λ (fresh, rest). (
    λ h. elim (Memᴰ.cases_cons h) [ inl p ↦ ne (sym p) | inr t ↦ (d.gone rest).0 t ],
    (λ h. fresh (d.old v h), (d.gone rest).1),
  );
}

pub drop_sub-some :
    (vs vs' : List Value) (qs qs' : List ℕ) (sub : Value)
    → is_func sub ≡ false
    → drop_sub vs qs sub ≡ some (vs', qs')
    → Dropped vs qs sub vs' qs'
unfolding drop_sub
drop_sub-some [] vs' qs qs' sub nf h = cc
drop_sub-some (v ∷ vs) vs' [] qs' sub nf h = cc
drop_sub-some (v ∷ vs) vs' (r ∷ qs) qs' sub nf h = elim (Bool-cases (equal v sub)) [
  | inl b ↦
      let e : some (vs, qs) ≡ some (vs', qs') = (rw (b, drop_sub) at h) in
      let p : vs ≡ vs' = ap (λ (x : List Value × List ℕ). x.0) (some_inj e) in
      let q : qs ≡ qs' = ap (λ (x : List Value × List ℕ). x.1) (some_inj e) in
      rw (← p, ← q) (Dropped-here v sub vs r qs ((equal_iff v sub).0 b).0)
  | inr b ↦ elim (Option-cases (drop_sub vs qs sub)) [
    | inl e ↦ absurd (ground arith)
    | inr ((ws, rs), e) ↦
        let p : vs' ≡ v ∷ ws = ground arith in
        let q : qs' ≡ r ∷ rs = ground arith in
        rw (p, q)
          (Dropped-there v sub vs ws r qs rs (λ x. cc (b, (equal_iff v sub).1 (x, rw x nf)))
            (drop_sub-some vs ws qs rs sub nf e))
  ]
]
