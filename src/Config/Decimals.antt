-- ===== src/Config/Decimals.antt =====
-- PacketForge_V1/src/config/config_loader.cpp: integers that are written in decimal are read back.
use mathlib.Core.WellFounded.{Acc}
use thread_pool.Base.{
  ℕ, zero, suc, ◌+◌, ◌-◌, ◌*◌, ◌/◌, ◌%◌, ◌^◌, ◌≤◌, ◌<◌, ◌≡◌, ◌⊎◌, refl, ◌∙◌, List, [], ◌∷◌, ◌++◌,
  true, false, ◌==◌, length, get_or, All, All-append, length-append, ℤ, pos, negsuc, some, arith,
  all_below,
}
use thread_pool.Decimal.{digits_of, to_string, int_to_string}
use thread_pool.Config.{integer}
use thread_pool.Config.Loader.{digits, unsigned_part, stoll, typed_value, parse_value, loads}
use thread_pool.Config.Trim.{IsTrimmed, trim-id}

abbrev pub IsDigit : ℕ → Type 0
IsDigit c = (0x30 ≤ c) × (c ≤ 0x39)

digits_of-IsDigit : (n : ℕ) (a : Acc ◌<◌ n) → All IsDigit (digits_of n a)
unfolding digits_of
digits_of-IsDigit zero a = tt
digits_of-IsDigit (suc n) (Acc.intro _ smaller) =
    All-append IsDigit _ _ (digits_of-IsDigit (suc n / 10) (smaller (suc n / 10) (omega arith)))
      (omega arith, tt)

-- One more digit at the end.
digits-append :
    (n : ℕ) (xs : List ℕ) (c : ℕ)
    → All IsDigit xs
    → IsDigit c
    → digits n (xs ++ (c ∷ [])) ≡ ((digits n xs).0 * 10 + (c - 0x30), length xs + 1)
digits-append n [] c h d = ground (arith, d)
digits-append n (x ∷ xs) c h d =
    let rest = digits-append (n * 10 + (x - 0x30)) xs c h.1 d in ground (arith, rest, h.0)

digits-digits_of : (n : ℕ) (a : Acc ◌<◌ n) → digits 0 (digits_of n a) ≡ (n, length (digits_of n a))
unfolding digits_of
digits-digits_of zero a = refl
digits-digits_of (suc n) (Acc.intro _ smaller) =
    let a' = smaller (suc n / 10) (omega arith) in
    let front = digits_of (suc n / 10) a' in
    let read = digits-digits_of (suc n / 10) (smaller (suc n / 10) (omega arith)) in
    ground (
      arith,
      digits-append 0 front (0x30 + suc n % 10) (digits_of-IsDigit (suc n / 10) a') (omega arith),
      read,
      length-append front ((0x30 + suc n % 10) ∷ []),
    )

digits_of-positive : (n : ℕ) (a : Acc ◌<◌ (suc n)) → 0 < length (digits_of (suc n) a)
unfolding digits_of
digits_of-positive n (Acc.intro _ smaller) = omega (
  arith,
  length-append (digits_of (suc n / 10) (smaller (suc n / 10) (omega arith)))
      ((0x30 + suc n % 10) ∷ []),
)

-- What is known of the text of a number: its digits, their value, and that there is one.
Reads : ℕ → List ℕ → Type 0
Reads n text = All IsDigit text × (digits 0 text ≡ (n, length text)) × (0 < length text)

to_string-Reads : (n : ℕ) → Reads n (to_string n)
unfolding to_string Reads
to_string-Reads zero = (omega arith, refl, omega arith)
to_string-Reads (suc n) =
    let a = all_below (suc n) in
    let more : (suc n == 0) ≡ false = ground arith in
    rw more (digits_of-IsDigit (suc n) a, digits-digits_of (suc n) a, digits_of-positive n a)

unsigned_part-Reads :
    (n k : ℕ) (text : List ℕ)
    → Reads n text
    → ((2 ^ 63 ≤ n) ⊎ (unsigned_part false k text ≡ some (pos n, k + length text)))
unfolding Reads
unsigned_part-Reads n k text (_, value, more) = ground (arith, value, more)

unsigned_part_negative-Reads :
    (n k : ℕ) (text : List ℕ)
    → Reads (suc n) text
    → ((2 ^ 63 ≤ n) ⊎ (unsigned_part true k text ≡ some (negsuc n, k + length text)))
unfolding Reads
unsigned_part_negative-Reads n k text (_, value, more) = ground (arith, value, more)

last-IsDigit :
    (c : ℕ) (cs : List ℕ) → All IsDigit (c ∷ cs) → IsDigit (get_or (c ∷ cs) (length cs) 0)
last-IsDigit c [] h = h.0
last-IsDigit c (x ∷ xs) h = last-IsDigit x xs h.1

-- A text of digits, with or without a sign in front, has no spaces at its ends.
digits-IsTrimmed :
    (text : List ℕ) → All IsDigit text → 0 < length text → IsTrimmed text × IsTrimmed (0x2D ∷ text)
digits-IsTrimmed [] h more = absurd (omega (arith, more))
digits-IsTrimmed (c ∷ cs) h more = let last = last-IsDigit c cs h in ground (arith, h.0, last)

stoll-digits :
    (text : List ℕ) → All IsDigit text → 0 < length text → stoll text ≡ unsigned_part false 0 text
unfolding stoll
stoll-digits [] h more = absurd (omega (arith, more))
stoll-digits (c ∷ cs) h more = ground (arith, h.0)

stoll-minus : (text : List ℕ) → stoll (0x2D ∷ text) ≡ unsigned_part true 1 text
unfolding stoll
stoll-minus text = refl

parse_value-number :
    (c : ℕ) (cs : List ℕ) (z : ℤ)
    → c ≤ 0x39
    → IsTrimmed (c ∷ cs)
    → stoll (c ∷ cs) ≡ some (z, length (c ∷ cs))
    → parse_value (c ∷ cs) ≡ loads (integer z)
unfolding parse_value typed_value
parse_value-number c cs z small trimmed read =
    rw (trim-id (c ∷ cs) trimmed) (ground (arith, small, read))

-- What 64 bits hold: from -2^63 to 2^63 - 1.
abbrev pub Is64 : ℤ → Type 0
Is64 (pos n) = n < 2 ^ 63
Is64 (negsuc n) = n < 2 ^ 63

parse_value-unsigned :
    (n : ℕ) (text : List ℕ) → Reads n text → n < 2 ^ 63 → parse_value text ≡ loads (integer (pos n))
unfolding Reads
parse_value-unsigned n [] (h, value, more) fits = absurd (omega (arith, more))
parse_value-unsigned n (c ∷ cs) (h, value, more) fits =
    parse_value-number c cs (pos n) (h.0.1) (digits-IsTrimmed (c ∷ cs) h more).0 (
      stoll-digits (c ∷ cs) h more
      ∙ ground (arith, unsigned_part-Reads n 0 (c ∷ cs) (h, value, more), fits))

-- A configuration value that is a 64-bit integer in decimal is read as that integer.
pub parse_value-int_to_string : (z : ℤ) → Is64 z → parse_value (int_to_string z) ≡ loads (integer z)
unfolding int_to_string Reads
parse_value-int_to_string (pos n) fits =
    parse_value-unsigned n (to_string n) (to_string-Reads n) fits
parse_value-int_to_string (negsuc n) fits =
    let text = to_string (suc n) in
    let reads = to_string-Reads (suc n) in
    parse_value-number 0x2D text (negsuc n) (omega arith) (digits-IsTrimmed text reads.0 reads.2).1
      (stoll-minus text ∙ ground (arith, unsigned_part_negative-Reads n 1 text reads, fits))
