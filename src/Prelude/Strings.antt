-- ===== src/Prelude/Strings.antt =====
-- Go's strings and byte slices: sequences of bytes, compared by `==`.
use Prim.Native.Nat.{ℕ}
use Prim.Native.Char.{code}
use Prim.Native.String.{String}
use mathlib.Core.Path.{◌≡◌, refl}
use mathlib.Core.Bool.{Bool, true, false, ◌&&◌}
use mathlib.Core.Logic.{◌↔◌}
use mathlib.Core.List.{List, [], ◌∷◌}
use native.Mathlib.Omega.{arith}
use hmq.Prelude.Tests.{HasEq, nat_beq}

abbrev pub Bytes : Type 0
Bytes = List ℕ

-- The bytes of an ASCII literal.
abbrev pub codes : String → Bytes
codes String.[] = []
codes (String.◌∷◌ c s) = code c ∷ codes s

abbrev pub bytes_beq : Bytes → Bytes → Bool
bytes_beq [] [] = true
bytes_beq [] (y ∷ ys) = false
bytes_beq (x ∷ xs) [] = false
bytes_beq (x ∷ xs) (y ∷ ys) = nat_beq x y && bytes_beq xs ys

bytes_eq_of_beq : (a b : Bytes) → bytes_beq a b ≡ true → a ≡ b
bytes_eq_of_beq [] [] h = refl
bytes_eq_of_beq [] (y ∷ ys) h = cc
bytes_eq_of_beq (x ∷ xs) [] h = cc
bytes_eq_of_beq (x ∷ xs) (y ∷ ys) h = ground (arith, bytes_eq_of_beq xs ys)

pub bytes_beq_refl : (a : Bytes) → bytes_beq a a ≡ true
bytes_beq_refl [] = refl
bytes_beq_refl (x ∷ xs) = ground (arith, bytes_beq_refl xs)

pub bytes_beq_iff : (a b : Bytes) → (bytes_beq a b ≡ true) ↔ (a ≡ b)
bytes_beq_iff a b = (bytes_eq_of_beq a b, λ e. rw e (bytes_beq_refl b))

instance abbrev pub bytes_eq : HasEq Bytes
bytes_eq = record { equals = bytes_beq; equals_iff = bytes_beq_iff }
