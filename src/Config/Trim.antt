-- ===== src/Config/Trim.antt =====
-- PacketForge_V1/src/config/config_loader.cpp: what `trim` takes away and what it leaves.
use thread_pool.Base.{
  ℕ, zero, suc, ◌+◌, ◌-◌, ◌≤◌, ◌<◌, ◌≡◌, ◌⊎◌, inl, inr, refl, sym, ◌∙◌, ap, subst, List, [], ◌∷◌,
  ◌++◌, true, false, leb, length, get_or, take, drop, All, length-take, length-drop,
  take-append-drop, take-length, Bool-cases, arith,
}
use thread_pool.Config.Loader.{is_space, begin_of, end_of, trim}

abbrev pub Space : ℕ → Type 0
Space c = is_space c ≡ true

-- A text that neither starts nor ends with a space.
abbrev pub IsTrimmed : List ℕ → Type 0
IsTrimmed t =
    (t ≡ []) ⊎ ((is_space (get_or t 0 0) ≡ false) × (is_space (get_or t (length t - 1) 0) ≡ false))

get_or-drop : (n i k : ℕ) (xs : List ℕ) → k ≡ n + i → get_or (drop n xs) i 0 ≡ get_or xs k 0
get_or-drop zero i k xs e = ap (λ j. get_or xs j 0) (omega (arith, e))
get_or-drop (suc n) i k [] e = refl
get_or-drop (suc n) i zero (x ∷ xs) e = absurd (omega (arith, e))
get_or-drop (suc n) i (suc k) (x ∷ xs) e = get_or-drop n i k xs (omega (arith, e))

get_or-take : (n i : ℕ) (xs : List ℕ) → i < n → get_or (take n xs) i 0 ≡ get_or xs i 0
get_or-take zero i xs h = absurd (omega (arith, h))
get_or-take (suc n) i [] h = refl
get_or-take (suc n) zero (x ∷ xs) h = refl
get_or-take (suc n) (suc i) (x ∷ xs) h = get_or-take n i xs (omega (arith, h))

begin_of-Space : (xs : List ℕ) → All Space (take (begin_of xs) xs)
begin_of-Space [] = tt
begin_of-Space (x ∷ xs) = elim (Bool-cases (is_space x)) [
  | inl space ↦ simp space (refl, begin_of-Space xs)
  | inr other ↦ simp other tt
]

-- Where the first loop stops: behind the text, or at a byte that is no space.
begin_of-stops :
    (xs : List ℕ)
    → (begin_of xs ≡ length xs)
      ⊎ ((begin_of xs < length xs) × (is_space (get_or xs (begin_of xs) 0) ≡ false))
begin_of-stops [] = inl refl
begin_of-stops (x ∷ xs) = elim (Bool-cases (is_space x)) [
  | inl space ↦ ground (arith, space, begin_of-stops xs)
  | inr other ↦ ground (arith, other)
]

-- Where the second loop stops, when it starts at `end`.
end_of-stops :
    (xs : List ℕ) (begin end : ℕ)
    → (end_of xs begin end ≤ end)
      × ((end < begin) ⊎ (begin ≤ end_of xs begin end))
      × ((end_of xs begin end ≤ begin) ⊎ (is_space (get_or xs (end_of xs begin end - 1) 0) ≡ false))
end_of-stops xs begin zero = ground arith
end_of-stops xs begin (suc end) = ground (arith, end_of-stops xs begin end)

end_of-Space :
    (xs : List ℕ) (begin end i : ℕ) → end_of xs begin end ≤ i → i < end → Space (get_or xs i 0)
end_of-Space xs begin zero i low high = absurd (omega (arith, high))
end_of-Space xs begin (suc end) i low high = elim (Bool-cases (is_space (get_or xs end 0))) [
  | inl space ↦ elim (Bool-cases (leb end i)) [
    | inl last ↦ let same : i ≡ end = ground arith in simp same space
    | inr before ↦ end_of-Space xs begin end i (ground arith) (ground arith)
  ]
  | inr other ↦ absurd (ground (arith, low, high, other))
]

All-index : (xs : List ℕ) → ((i : ℕ) → i < length xs → Space (get_or xs i 0)) → All Space xs
All-index [] each = tt
All-index (x ∷ xs) each =
    (each 0 (omega arith), All-index xs (λ i h. each (suc i) (omega (arith, h))))

-- A piece of a text starts and ends with bytes of the text.
piece-ends :
    (text : List ℕ) (begin end : ℕ)
    → end ≤ length text
    → begin < end
    → is_space (get_or text begin 0) ≡ false
    → is_space (get_or text (end - 1) 0) ≡ false
    → let piece = take (end - begin) (drop begin text) in
      (is_space (get_or piece 0 0) ≡ false) × (is_space (get_or piece (length piece - 1) 0) ≡ false)
piece-ends text begin end fits order starts_well ends_well =
    let rest = drop begin text in
    let piece = take (end - begin) rest in
    let size : length piece ≡ end - begin =
      omega (arith, fits, order, length-take (end - begin) rest, length-drop begin text) in
    let first : get_or piece 0 0 ≡ get_or text begin 0 =
      get_or-take (end - begin) 0 rest (omega (arith, order))
      ∙ get_or-drop begin 0 begin text (omega arith) in
    let last : get_or piece (length piece - 1) 0 ≡ get_or text (end - 1) 0 =
      get_or-take (end - begin) (length piece - 1) rest (omega (arith, order, size))
      ∙ get_or-drop begin (length piece - 1) (end - 1) text (omega (arith, order, size)) in
    (
      subst (λ c. is_space c ≡ false) (sym first) starts_well,
      subst (λ c. is_space c ≡ false) (sym last) ends_well,
    )

-- `trim` cuts off spaces in front and behind, and what it leaves neither starts nor ends with one.
pub trim-IsTrimmed :
    (text : List ℕ)
    → (front back : List ℕ) × (front ++ (trim text ++ back) ≡ text)
      × All Space front
      × All Space back
      × IsTrimmed (trim text)
unfolding trim
trim-IsTrimmed text =
    let begin = begin_of text in
    let end = end_of text begin (length text) in
    let rest = drop begin text in
    let (low, high, stop) = end_of-stops text begin (length text) in
    let fits : begin ≤ length text = ground (arith, begin_of-stops text) in
    (
      take begin text,
      drop (end - begin) rest,
      ap (λ t. take begin text ++ t) (take-append-drop (end - begin) rest)
          ∙ take-append-drop begin text,
      begin_of-Space text,
      All-index (drop (end - begin) rest) (λ i h.
          let high' : begin ≤ end = ground (arith, high, fits) in
          let size = length-drop begin text in
          let same : get_or (drop (end - begin) rest) i 0 ≡ get_or text (end + i) 0 =
            get_or-drop (end - begin) i ((end - begin) + i) rest refl
            ∙ get_or-drop begin ((end - begin) + i) (end + i) text (omega (arith, high')) in
          subst (λ c. is_space c ≡ true) (sym same)
            (end_of-Space text begin (length text) (end + i) (omega arith)
              (omega (arith, h, high', low, size, length-drop (end - begin) rest)))),
      elim (Bool-cases (leb end begin)) [
        | inl empty ↦ let none_left : end - begin ≡ 0 = ground arith in inl (simp none_left refl)
        | inr more ↦
            let ends_well : is_space (get_or text (end - 1) 0) ≡ false =
              ground (arith, stop, more) in
            let starts_well : is_space (get_or text begin 0) ≡ false =
              ground (arith, more, low, begin_of-stops text) in
            inr (piece-ends text begin end low (ground (arith, more)) starts_well ends_well)
      ],
    )

end_of-kept :
    (xs : List ℕ) (end : ℕ) → is_space (get_or xs (end - 1) 0) ≡ false → end_of xs 0 end ≡ end
end_of-kept xs zero e = refl
end_of-kept xs (suc end) e =
    let same : end ≡ suc end - 1 = omega arith in
    let last : is_space (get_or xs end 0) ≡ false =
      subst (λ k. is_space (get_or xs k 0) ≡ false) (sym same) e in
    ground (arith, last)

trim-at :
    (text : List ℕ) (begin end : ℕ)
    → begin ≡ 0
    → end ≡ length text
    → take (end - begin) (drop begin text) ≡ text
trim-at text zero end b e = ap (λ k. take k text) (omega (arith, e)) ∙ take-length text
trim-at text (suc begin) end b e = absurd (omega (arith, b))

-- Trimming what is trimmed changes nothing.
pub trim-id : (text : List ℕ) → IsTrimmed text → trim text ≡ text
unfolding trim
trim-id [] v = refl
trim-id (c ∷ cs) (inl e) = absurd cc
trim-id (c ∷ cs) (inr (starts_well, ends_well)) =
    let none_skipped : begin_of (c ∷ cs) ≡ 0 = simp starts_well refl in
    let all_kept = end_of-kept (c ∷ cs) (length (c ∷ cs)) ends_well in
    trim-at (c ∷ cs) (begin_of (c ∷ cs)) (end_of (c ∷ cs) (begin_of (c ∷ cs)) (length (c ∷ cs)))
      none_skipped (ap (λ b. end_of (c ∷ cs) b (length (c ∷ cs))) none_skipped ∙ all_kept)
