-- ===== src/Config/Values.antt =====
-- PacketForge_V1/src/config/config_loader.cpp: the values that a loaded configuration holds.
use thread_pool.Base.{
  ℕ, suc, ◌≡◌, inl, inr, refl, sym, ◌∙◌, ap, List, [], ◌∷◌, Option, some, none, Bool-cases,
  Option-cases, arith, if◌then◌else◌, ◌==◌,
}
use thread_pool.Config.{Config, ConfigValue, new_config, get, same_text}
use thread_pool.Config.Map.{get-set_cases}
use thread_pool.Config.Loader.{
  loads, trim, typed_value, split_at_separator, assign, load_trimmed, load_line, load_lines,
  Loaded-cases, lines_of, load,
}
use thread_pool.Config.Trim.{IsTrimmed, trim-IsTrimmed}
use thread_pool.Config.Load.{parse_value-loads}

-- What a line assigns: nothing if it is blank, a comment or without a separator.
abbrev pub trimmed_assignment : List ℕ → Option (List ℕ × ConfigValue)
trimmed_assignment [] = none
trimmed_assignment (c ∷ cs) = if c == 0x23 then none else elim (split_at_separator (c ∷ cs)) [
  | none ↦ none
  | some (key, value) ↦ some (trim key, typed_value (trim value))
]

abbrev pub value_for : List ℕ → Option (List ℕ × ConfigValue) → Option ConfigValue
value_for key none = none
value_for key (some (k, v)) = if same_text key k then some v else none

abbrev pub or_else : Option ConfigValue → Option ConfigValue → Option ConfigValue
or_else none other = other
or_else (some v) other = some v

-- The value of the last line that assigns the key.
abbrev pub last_value : List ℕ → List (List ℕ) → Option ConfigValue
last_value key [] = none
last_value key (line ∷ lines) =
    or_else (last_value key lines) (value_for key (trimmed_assignment (trim line)))

assign-value :
    (n : ℕ) (k value : List ℕ) (c c' : Config) (key : List ℕ)
    → IsTrimmed value
    → assign n k value c ≡ loads c'
    → get key c' ≡ or_else (value_for key (some (k, typed_value value))) (get key c)
assign-value n [] value c c' key t h = absurd (ground (arith, h))
assign-value n (k ∷ ks) [] c c' key t h = absurd (ground (arith, h))
assign-value n (k ∷ ks) (v ∷ vs) c c' key t h =
    ground (arith, h, parse_value-loads v vs t, get-set_cases key (k ∷ ks) (typed_value (v ∷ vs)) c)

load_trimmed-value :
    (n : ℕ) (line : List ℕ) (c c' : Config) (key : List ℕ)
    → load_trimmed n line c ≡ loads c'
    → get key c' ≡ or_else (value_for key (trimmed_assignment line)) (get key c)
load_trimmed-value n [] c c' key h = ground (arith, h)
load_trimmed-value n (b ∷ bs) c c' key h = elim (Bool-cases (b == 0x23)) [
  | inl comment ↦ ground (arith, h, comment)
  | inr other ↦ elim (Option-cases (split_at_separator (b ∷ bs))) [
    | inl missing ↦ absurd (ground (arith, h, other, missing))
    | inr ((k, value), found) ↦
        let step : load_trimmed n (b ∷ bs) c ≡ assign n (trim k) (trim value) c =
          simp (other, found) refl in
        let assigned : trimmed_assignment (b ∷ bs) ≡ some (trim k, typed_value (trim value)) =
          simp (other, found) refl in
        assign-value n (trim k) (trim value) c c' key (trim-IsTrimmed value).5 (sym step ∙ h)
        ∙ ap (λ x. or_else (value_for key x) (get key c)) (sym assigned)
  ]
]

or_else_assoc : (a b c : Option ConfigValue) → or_else a (or_else b c) ≡ or_else (or_else a b) c
or_else_assoc none b c = refl
or_else_assoc (some v) b c = refl

load_lines-value :
    (lines : List (List ℕ)) (n : ℕ) (c c' : Config) (key : List ℕ)
    → load_lines n lines c ≡ loads c'
    → get key c' ≡ or_else (last_value key lines) (get key c)
unfolding load_line
load_lines-value [] n c c' key h = ground (arith, h)
load_lines-value (line ∷ lines) n c c' key h = elim (Loaded-cases (load_line (suc n) line c)) [
  | inr (e, refused) ↦ absurd (ground (arith, h, refused))
  | inl (c₁, accepted) ↦
      let step : load_lines n (line ∷ lines) c ≡ load_lines (suc n) lines c₁ =
        ground (arith, accepted) in
      load_lines-value lines (suc n) c₁ c' key (sym step ∙ h)
      ∙ ap (λ x. or_else (last_value key lines) x)
          (load_trimmed-value (suc n) (trim line) c c₁ key accepted)
      ∙ or_else_assoc (last_value key lines) (value_for key (trimmed_assignment (trim line)))
          (get key c)
]

or_else-none : (a : Option ConfigValue) → or_else a none ≡ a
or_else-none none = refl
or_else-none (some v) = refl

-- A configuration that was loaded from a text holds for every key the value of the last line that
-- assigns the key, and nothing for a key that no line assigns.
pub load-last_value :
    (text : List ℕ) (c : Config) (key : List ℕ)
    → load (some text) ≡ loads c
    → get key c ≡ last_value key (lines_of text)
unfolding load get
load-last_value text c key h =
    load_lines-value (lines_of text) 0 new_config c key h
    ∙ or_else-none (last_value key (lines_of text))
