-- ===== src/Config/Load.antt =====
-- PacketForge_V1/src/config/config_loader.cpp: which line an error names.
use thread_pool.Base.{
  ℕ, suc, ◌+◌, ◌≡◌, inl, inr, refl, sym, ◌∙◌, ap, List, [], ◌∷◌, ◌++◌, Option, some, none, length,
  Bool-cases, Option-cases, arith, ◌==◌,
}
use thread_pool.Config.{Config, new_config}
use thread_pool.Config.Loader.{
  LoadError, cannot_open, malformed, empty_key, empty_value, value_cannot_be_empty, loads, refuses,
  trim, parse_trimmed, Loaded-cases, parse_value, typed_value, split_at_separator, assign,
  load_trimmed, load_line, load_lines, lines_of, load,
}
use thread_pool.Config.Trim.{IsTrimmed, trim-id, trim-IsTrimmed}

-- The line that an error's text names.
abbrev pub line_number : LoadError → Option ℕ
line_number cannot_open = none
line_number (malformed n) = some n
line_number (empty_key n) = some n
line_number (empty_value n) = some n
line_number value_cannot_be_empty = none

pub parse_value-loads :
    (v : ℕ) (vs : List ℕ) → IsTrimmed (v ∷ vs) → parse_value (v ∷ vs) ≡ loads (typed_value (v ∷ vs))
unfolding parse_value
parse_value-loads v vs h = ap parse_trimmed (trim-id (v ∷ vs) h)

assign-number :
    (n : ℕ) (key value : List ℕ) (c : Config) (e : LoadError)
    → IsTrimmed value
    → assign n key value c ≡ refuses e
    → line_number e ≡ some n
assign-number n [] value c e t h = ground (arith, h)
assign-number n (k ∷ ks) [] c e t h = ground (arith, h)
assign-number n (k ∷ ks) (v ∷ vs) c e t h = absurd (ground (arith, h, parse_value-loads v vs t))

load_trimmed-number :
    (n : ℕ) (line : List ℕ) (c : Config) (e : LoadError)
    → load_trimmed n line c ≡ refuses e
    → line_number e ≡ some n
load_trimmed-number n [] c e h = absurd (ground (arith, h))
load_trimmed-number n (b ∷ bs) c e h = elim (Bool-cases (b == 0x23)) [
  | inl comment ↦ absurd (ground (arith, h, comment))
  | inr other ↦ elim (Option-cases (split_at_separator (b ∷ bs))) [
    | inl missing ↦
        let step : load_trimmed n (b ∷ bs) c ≡ refuses (malformed n) = simp (other, missing) refl in
        ground (arith, h, step)
    | inr ((key, value), found) ↦
        let step : load_trimmed n (b ∷ bs) c ≡ assign n (trim key) (trim value) c =
          simp (other, found) refl in
        assign-number n (trim key) (trim value) c e (trim-IsTrimmed value).5 (sym step ∙ h)
  ]
]

load_line-number :
    (n : ℕ) (line : List ℕ) (c : Config) (e : LoadError)
    → load_line n line c ≡ refuses e
    → line_number e ≡ some n
unfolding load_line
load_line-number n line c e h = load_trimmed-number n (trim line) c e h

load_lines-refuses :
    (lines : List (List ℕ)) (n : ℕ) (c : Config) (e : LoadError)
    → load_lines n lines c ≡ refuses e
    → (good rest : List (List ℕ)) × (bad : List ℕ) × (c' : Config) × (k : ℕ) × (lines
        ≡ good ++ (bad ∷ rest))
      × (load_lines n good c ≡ loads c')
      × (k ≡ suc (n + length good))
      × (load_line k bad c' ≡ refuses e)
      × (line_number e ≡ some k)
load_lines-refuses [] n c e h = absurd (ground (arith, h))
load_lines-refuses (line ∷ lines) n c e h = elim (Loaded-cases (load_line (suc n) line c)) [
  | inr (e', refused) ↦
      let same : e' ≡ e = ground (arith, h, refused) in
      (
        [],
        lines,
        line,
        c,
        suc n,
        refl,
        refl,
        omega arith,
        refused ∙ ap refuses same,
        load_line-number (suc n) line c e (refused ∙ ap refuses same),
      )
  | inl (c₁, accepted) ↦
      let step : (more : List (List ℕ))
          → load_lines n (line ∷ more) c ≡ load_lines (suc n) more c₁ =
        λ more. ground (arith, accepted) in
      let (good, rest, bad, c', k, split, loaded, number, refused, named) =
        load_lines-refuses lines (suc n) c₁ e (sym (step lines) ∙ h) in
      (
        line ∷ good,
        rest,
        bad,
        c',
        k,
        ap (λ t. line ∷ t) split,
        step good ∙ loaded,
        omega (arith, number),
        refused,
        named,
      )
]

-- The first line that is refused: those before it are accepted, the error is that line's own, and it
-- names the line's number, counted from 1.
abbrev pub RefusedAt : List (List ℕ) → LoadError → Type 0
RefusedAt lines e =
    (good rest : List (List ℕ)) × (bad : List ℕ) × (c : Config) × (k : ℕ) × (lines
      ≡ good ++ (bad ∷ rest))
    × (load_lines 0 good new_config ≡ loads c)
    × (k ≡ suc (length good))
    × (load_line k bad c ≡ refuses e)
    × (line_number e ≡ some k)

-- When a text is refused, then at a line: the lines before it are accepted, the error is that line's
-- own and names its number, counted from 1. No other error comes out of a file that was opened.
pub load-refuses :
    (text : List ℕ) (e : LoadError) → load (some text) ≡ refuses e → RefusedAt (lines_of text) e
unfolding load
load-refuses text e h =
    let (good, rest, bad, c, k, split, loaded, number, refused, named) =
      load_lines-refuses (lines_of text) 0 new_config e h in
    (good, rest, bad, c, k, split, loaded, omega (arith, number), refused, named)
