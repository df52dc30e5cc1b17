-- ===== src/Prelude/Heap.antt =====
-- Go's heap for one type of object: an address is an index, and a new object gets the next one.
use Prim.Native.Nat.{ℕ, zero, suc}
use mathlib.Core.Path.{◌≡◌, refl, ap}
use mathlib.Core.Logic.{◌≢◌}
use mathlib.Core.Option.{Option, none, some}
use mathlib.Core.List.{List, [], ◌∷◌, ◌++◌}
use native.Mathlib.Omega.{arith}
use hmq.Prelude.Lists.{length}

module _ {ℓ} {A : Type ℓ} where
  abbrev pub get_elem? : List A → ℕ → Option A
  get_elem? [] i = none
  get_elem? (x ∷ xs) zero = some x
  get_elem? (x ∷ xs) (suc i) = get_elem? xs i

  -- A write through a pointer.
  abbrev pub modify : ℕ → (A → A) → List A → List A
  modify i f [] = []
  modify zero f (x ∷ xs) = f x ∷ xs
  modify (suc i) f (x ∷ xs) = x ∷ modify i f xs

  pub get_elem?-alloc : (h : List A) (x : A) → get_elem? (h ++ x ∷ []) (length h) ≡ some x
  get_elem?-alloc [] x = refl
  get_elem?-alloc (y ∷ h) x = get_elem?-alloc h x

  pub get_elem?-append :
      (h : List A) (x a : A) (i : ℕ) → get_elem? h i ≡ some a → get_elem? (h ++ x ∷ []) i ≡ some a
  get_elem?-append [] x a i e = cc
  get_elem?-append (y ∷ h) x a zero e = e
  get_elem?-append (y ∷ h) x a (suc i) e = get_elem?-append h x a i e

  pub get_elem?-modify_self :
      (h : List A) (f : A → A) (a : A) (i : ℕ)
      → get_elem? h i ≡ some a
      → get_elem? (modify i f h) i ≡ some (f a)
  get_elem?-modify_self [] f a i e = cc
  get_elem?-modify_self (y ∷ h) f a zero e = cc
  get_elem?-modify_self (y ∷ h) f a (suc i) e = get_elem?-modify_self h f a i e

  pub get_elem?-modify_ne :
      (h : List A) (f : A → A) (i j : ℕ) → i ≢ j → get_elem? (modify i f h) j ≡ get_elem? h j
  get_elem?-modify_ne [] f i j ne = refl
  get_elem?-modify_ne (y ∷ h) f zero zero ne = absurd (ne refl)
  get_elem?-modify_ne (y ∷ h) f zero (suc j) ne = refl
  get_elem?-modify_ne (y ∷ h) f (suc i) zero ne = refl
  get_elem?-modify_ne (y ∷ h) f (suc i) (suc j) ne =
      get_elem?-modify_ne h f i j (λ e. ne (ap suc e))

  -- The next address is not one in use.
  pub get_elem?-length : (h : List A) (a : A) (i : ℕ) → get_elem? h i ≡ some a → i ≢ length h
  get_elem?-length [] a i e = cc
  get_elem?-length (y ∷ h) a zero e = λ p. omega arith
  get_elem?-length (y ∷ h) a (suc i) e = λ p. get_elem?-length h a i e (omega arith)
