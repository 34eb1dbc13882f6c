-- ===== src/Base/Int.antt =====
-- The results of system calls: signed integers over the native numbers.
use Prim.Native.Nat.{ℕ, zero, suc}
use mathlib.Core.Bool.{Bool, true, false}
use mathlib.Core.Path.{◌≡◌, refl}
use mathlib.Core.Logic.{◌⊎◌, inl, inr}

-- `negsuc n` is -(n + 1).
pub data ℤ : Type 0 where
  pos : ℕ → ℤ
  negsuc : ℕ → ℤ

abbrev pub is_negative : ℤ → Bool
is_negative (pos n) = false
is_negative (negsuc n) = true

abbrev pub is_minus_one : ℤ → Bool
is_minus_one (pos n) = false
is_minus_one (negsuc zero) = true
is_minus_one (negsuc (suc n)) = false

-- What a caller tells apart in a count of bytes: an error, nothing, and something.
pub result_cases :
    (z : ℤ) → ((n : ℕ) × (z ≡ negsuc n)) ⊎ (z ≡ pos 0) ⊎ ((n : ℕ) × (z ≡ pos (suc n)))
result_cases (pos zero) = inr (inl refl)
result_cases (pos (suc n)) = inr (inr (n, refl))
result_cases (negsuc n) = inl (n, refl)
