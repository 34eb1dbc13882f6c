-- ===== src/Base/Lists.antt =====
-- Lists measured and cut by native numbers, under the library's names.
use Prim.Native.Nat.{ℕ, zero, suc, ◌+◌, ◌-◌, ◌≤◌, min}
use mathlib.Core.Path.{◌≡◌, refl}
use mathlib.Core.Logic.{◌≢◌}
use mathlib.Core.List.{List, [], ◌∷◌, ◌++◌}
use native.Mathlib.Omega.{arith}

module _ {ℓ} {A : Type ℓ} where
  abbrev pub length : List A → ℕ
  length [] = 0
  length (x ∷ xs) = suc (length xs)

  abbrev pub get_or : List A → ℕ → A → A
  get_or [] i d = d
  get_or (x ∷ xs) zero d = x
  get_or (x ∷ xs) (suc i) d = get_or xs i d

  abbrev pub take : ℕ → List A → List A
  take zero xs = []
  take (suc n) [] = []
  take (suc n) (x ∷ xs) = x ∷ take n xs

  abbrev pub drop : ℕ → List A → List A
  drop zero xs = xs
  drop (suc n) [] = []
  drop (suc n) (x ∷ xs) = drop n xs

  abbrev pub All {κ} : (A → Type κ) → List A → Type κ
  All P [] = Unit
  All P (x ∷ xs) = P x × All P xs

  pub length-append : (xs ys : List A) → length (xs ++ ys) ≡ length xs + length ys
  length-append [] ys = omega arith
  length-append (x ∷ xs) ys = omega (arith, length-append xs ys)

  pub take-append-drop : (n : ℕ) (xs : List A) → take n xs ++ drop n xs ≡ xs
  take-append-drop zero xs = refl
  take-append-drop (suc n) [] = refl
  take-append-drop (suc n) (x ∷ xs) = rw (take-append-drop n xs)

  pub length-take : (n : ℕ) (xs : List A) → length (take n xs) ≡ min n (length xs)
  length-take zero xs = omega arith
  length-take (suc n) [] = omega arith
  length-take (suc n) (x ∷ xs) = omega (arith, length-take n xs)

  pub length-drop : (n : ℕ) (xs : List A) → length (drop n xs) ≡ length xs - n
  length-drop zero xs = omega arith
  length-drop (suc n) [] = omega arith
  length-drop (suc n) (x ∷ xs) = omega (arith, length-drop n xs)

  pub take-length : (xs : List A) → take (length xs) xs ≡ xs
  take-length [] = refl
  take-length (x ∷ xs) = rw (take-length xs)

  pub take-length_append : (xs ys : List A) → take (length xs) (xs ++ ys) ≡ xs
  take-length_append [] ys = refl
  take-length_append (x ∷ xs) ys = rw (take-length_append xs ys)

  pub drop-length_append : (xs ys : List A) → drop (length xs) (xs ++ ys) ≡ ys
  drop-length_append [] ys = refl
  drop-length_append (x ∷ xs) ys = drop-length_append xs ys

  pub take_plus : (m n : ℕ) (xs : List A) → take (m + n) xs ≡ take m xs ++ take n (drop m xs)
  take_plus zero n xs = let same : zero + n ≡ n = omega arith in rw same refl
  take_plus (suc m) zero [] = let same : suc m + zero ≡ suc m = omega arith in rw same refl
  take_plus (suc m) (suc n) [] =
      let same : suc m + suc n ≡ suc (m + suc n) = omega arith in rw same refl
  take_plus (suc m) n (x ∷ xs) =
      let same : suc m + n ≡ suc (m + n) = omega arith in rw (same, take_plus m n xs)

  take-take : (n : ℕ) (xs : List A) → take n (take n xs) ≡ take n xs
  take-take zero xs = refl
  take-take (suc n) [] = refl
  take-take (suc n) (x ∷ xs) = rw (take-take n xs)

  -- A piece that a front part has whole.
  pub take-drop-take :
      (m n : ℕ) (xs : List A) → take n (drop m (take (m + n) xs)) ≡ take n (drop m xs)
  take-drop-take zero n xs = let same : zero + n ≡ n = omega arith in rw same (take-take n xs)
  take-drop-take (suc m) zero xs = refl
  take-drop-take (suc m) (suc n) [] =
      let same : suc m + suc n ≡ suc (m + suc n) = omega arith in rw same refl
  take-drop-take (suc m) (suc n) (x ∷ xs) =
      let same : suc m + suc n ≡ suc (m + suc n) = omega arith in
      rw same (take-drop-take m (suc n) xs)

  pub append-nonempty : (xs ys : List A) → xs ≢ [] → xs ++ ys ≢ []
  append-nonempty [] ys h e = h refl
  append-nonempty (x ∷ xs) ys h e = cc

  pub drop-zero_length : (xs : List A) → length xs ≡ 0 → xs ≡ []
  drop-zero_length [] h = refl
  drop-zero_length (x ∷ xs) h = absurd (omega arith)

  pub All-append {κ} : (P : A → Type κ) (xs ys : List A) → All P xs → All P ys → All P (xs ++ ys)
  All-append P [] ys h h' = h'
  All-append P (x ∷ xs) ys h h' = (h.0, All-append P xs ys h.1 h')

  -- Two ways to cut a list in two, the first one earlier.
  pub append_overlap :
      (xs us ys vs : List A)
      → length xs ≤ length us
      → xs ++ ys ≡ us ++ vs
      → (mid : List A) × (us ≡ xs ++ mid) × (ys ≡ mid ++ vs)
  append_overlap [] us ys vs n e = (us, refl, e)
  append_overlap (x ∷ xs) [] ys vs n e = absurd (omega (arith, n))
  append_overlap (x ∷ xs) (u ∷ us) ys vs n e =
      let tails : xs ++ ys ≡ us ++ vs = cc in
      let (mid, same, rest) = append_overlap xs us ys vs (omega (arith, n)) tails in (mid, cc, rest)

  pub append_split :
      (xs us ys vs : List A) → length xs ≡ length us → xs ++ ys ≡ us ++ vs → (xs ≡ us) × (ys ≡ vs)
  append_split [] [] ys vs n e = (refl, e)
  append_split [] (u ∷ us) ys vs n e = absurd (omega arith)
  append_split (x ∷ xs) [] ys vs n e = absurd (omega arith)
  append_split (x ∷ xs) (u ∷ us) ys vs n e =
      let (heads, tails) = append_split xs us ys vs (omega arith) (cc) in (cc, tails)
