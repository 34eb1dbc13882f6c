-- ===== src/Base/Loops.antt =====
-- Loops that consume a list or count down: what is left is accessible, so they recur on that.
use Prim.Native.Nat.{ℕ, zero, suc, ◌-◌, ◌<◌}
use mathlib.Core.List.{List, ◌∷◌}
use mathlib.Core.WellFounded.{Acc}
use native.Mathlib.Omega.{arith}
use thread_pool.Base.Lists.{length, drop, length-drop}

abbrev pub Shorter : List ℕ → List ℕ → Type 0
Shorter xs ys = length xs < length ys

Acc-shorter : (n : ℕ) (xs : List ℕ) → length xs < n → Acc Shorter xs
Acc-shorter zero xs h = elim h [ ]
Acc-shorter (suc n) xs h = Acc.intro xs (λ ys hy. Acc-shorter n ys (omega arith))

pub all_shorter : (xs : List ℕ) → Acc Shorter xs
unfolding Acc-shorter
all_shorter xs = Acc-shorter (suc (length xs)) xs (omega arith)

Acc-below : (k n : ℕ) → n < k → Acc ◌<◌ n
Acc-below zero n h = elim h [ ]
Acc-below (suc k) n h = Acc.intro n (λ m hm. Acc-below k m (omega arith))

pub all_below : (n : ℕ) → Acc ◌<◌ n
unfolding Acc-below
all_below n = Acc-below (suc n) n (omega arith)

pub drop-Shorter : (n b : ℕ) (bs : List ℕ) → Shorter (drop n bs) (b ∷ bs)
drop-Shorter n b bs = omega (arith, length-drop n bs)

pub sub-lt-suc : (m k : ℕ) → m - k < suc m
sub-lt-suc m k = omega arith
