-- ===== src/Prelude/Int.antt =====
-- Go's int, over the native numbers.
use hmq.Prelude.{ℕ, zero, suc, Bool, true, false}

-- The integers, with `negsuc n` for -(n + 1)
pub data ℤ : Type 0 where
  pos : ℕ → ℤ
  negsuc : ℕ → ℤ

abbrev pub is_zero : ℤ → Bool
is_zero (pos zero) = true
is_zero (pos (suc n)) = false
is_zero (negsuc n) = false
