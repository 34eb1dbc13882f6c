-- ===== src/Decimal.antt =====
-- `std::to_string` on integers: the decimal digits, as PacketForge_V1/apps/client_main.cpp prints a
-- code and Version_2/src/Server.cpp a request's number.
use mathlib.Core.WellFounded.{Acc}
use thread_pool.Base.{
  ℕ, zero, suc, ◌+◌, ◌/◌, ◌%◌, ◌<◌, List, [], ◌∷◌, ◌++◌, ◌==◌, if◌then◌else◌, ℤ, pos, negsuc, arith,
  all_below,
}

-- The digits of `n / 10`, then the last digit; nothing for 0.
unfoldable pub digits_of : (n : ℕ) → Acc ◌<◌ n → List ℕ
digits_of zero _ = []
digits_of (suc n) (Acc.intro _ smaller) =
    digits_of (suc n / 10) (smaller (suc n / 10) (omega arith)) ++ ((0x30 + suc n % 10) ∷ [])

unfoldable pub to_string : ℕ → List ℕ
unfolding digits_of
to_string n = if n == 0 then 0x30 ∷ [] else digits_of n (all_below n)

-- A negative number has its sign in front.
unfoldable pub int_to_string : ℤ → List ℕ
int_to_string (pos n) = to_string n
int_to_string (negsuc n) = 0x2D ∷ to_string (suc n)
