-- ===== src/Broker/Backoff/Bounds.antt =====
-- broker/broker.go: bounds on the waits of the loops that accept and that make connections.
use hmq.Prelude.{
  ℕ, ◌+◌, ◌-◌, ◌*◌, ◌≤◌, ◌≡◌, refl, ◌⊎◌, inl, inr, Bool, true, false, nat_eq, List, [], ◌∷◌, Memᴰ,
  length, arith,
}
use mathlib.Core.List.Memᴰ
use mathlib.Core.Path.{subst, sym}
use hmq.Broker.Backoff.{
  accept_min_sleep, accept_max_sleep, Accept, accepted, temporary, failed, at_most, accept_loop,
  accept_sleeps, dial_delay, discovery_loop, Attempt, gone, dialled, refused, router_loop,
}

abbrev Within : ℕ → ℕ → ℕ → Type 0
Within lo hi n = (lo ≤ n) × (n ≤ hi)

doubled : (d : ℕ) → Within 100 10000 d → Within 100 10000 (at_most accept_max_sleep (d * 2))
doubled d h = ground arith

accept_loop-Within :
    (d : ℕ) (rs : List Accept) (s : ℕ)
    → Within 100 10000 d
    → Memᴰ s (accept_loop d rs)
    → Within 100 10000 s
unfolding accept_loop
accept_loop-Within d [] s h i = absurd (Memᴰ.not-nil i)
accept_loop-Within d (temporary ∷ rs) s h i = elim (Memᴰ.cases_cons i) [
  | inl q ↦ subst (Within 100 10000) (sym q) h
  | inr r ↦ accept_loop-Within (at_most accept_max_sleep (d * 2)) rs s (doubled d h) r
]
accept_loop-Within d (failed ∷ rs) s h i = accept_loop-Within d rs s h i
accept_loop-Within d (accepted ∷ rs) s h i =
    accept_loop-Within accept_min_sleep rs s (omega arith, omega arith) i

-- Whatever the calls of Accept return, in any order, every sleep of the listeners is at least the
-- minimum (100 ms) and at most the maximum (10 s).
pub accept_sleeps-Within :
    (rs : List Accept) (s : ℕ)
    → Memᴰ s (accept_sleeps rs)
    → (accept_min_sleep ≤ s) × (s ≤ accept_max_sleep)
unfolding accept_sleeps
accept_sleeps-Within rs s i = accept_loop-Within 1000 rs s (omega arith, omega arith) i

-- The delay so far is none, or at least that of the first retry.
abbrev HasBegun : ℕ → Type 0
HasBegun d = (d ≡ 0) ⊎ (1000 ≤ d)

dial_delay-Within : (max d : ℕ) → 1000 ≤ max → HasBegun d → Within 1000 max (dial_delay max d)
dial_delay-Within max d h b = ground arith

discovery_loop-Within_from :
    (d : ℕ) (rs : List Bool) (s : ℕ)
    → HasBegun d
    → Memᴰ s (discovery_loop d rs)
    → Within 1000 20000 s
unfolding discovery_loop
discovery_loop-Within_from d [] s b i = absurd (Memᴰ.not-nil i)
discovery_loop-Within_from d (true ∷ rs) s b i = absurd (Memᴰ.not-nil i)
discovery_loop-Within_from d (false ∷ rs) s b i =
    let now = dial_delay-Within 20000 d (omega arith) b in
    elim (Memᴰ.cases_cons i) [
      | inl q ↦ subst (Within 1000 20000) (sym q) now
      | inr r ↦ discovery_loop-Within_from (dial_delay 20000 d) rs s (inr now.0) r
    ]

-- Whatever the calls of Dial return, every wait of ConnectToDiscovery is at least 1 s and at most
-- 20 s.
pub discovery_loop-Within :
    (rs : List Bool) (s : ℕ) → Memᴰ s (discovery_loop 0 rs) → (1000 ≤ s) × (s ≤ 20000)
discovery_loop-Within rs s i = discovery_loop-Within_from 0 rs s (inl refl) i

router_loop-length : (d n : ℕ) (rs : List Attempt) → length (router_loop d n rs) ≤ 51 - n
unfolding router_loop
router_loop-length d n [] = omega arith
router_loop-length d n (gone ∷ rs) = omega arith
router_loop-length d n (dialled ∷ rs) = omega arith
router_loop-length d n (refused ∷ rs) =
    let rest = router_loop-length (dial_delay 32000 d) (n + 1) rs in ground arith

-- The loop of connectRouter ends whatever the node does: over any results of its attempts it sleeps
-- at most 51 times.
pub router_loop-Bounded : (rs : List Attempt) → length (router_loop 0 0 rs) ≤ 51
router_loop-Bounded rs = router_loop-length 0 0 rs
