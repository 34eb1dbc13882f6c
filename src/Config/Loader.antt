-- ===== src/Config/Loader.antt =====
-- PacketForge_V1/src/config/config_loader.cpp: from the text of a file to a configuration.
use thread_pool.Base.{
  ℕ, zero, suc, ◌+◌, ◌-◌, ◌*◌, ◌^◌, List, [], ◌∷◌, ◌++◌, Bool, true, false, ◌&&◌, ◌||◌, ltb, leb,
  ◌==◌, if◌then◌else◌, Option, none, some, ℤ, pos, negsuc, length, get_or, take, drop, ◌≡◌, ◌⊎◌,
  refl, inl, inr,
}
use thread_pool.Config.{ConfigValue, string, integer, boolean, Config, new_config, set, same_text}

-- `std::isspace` in the C locale.
abbrev pub is_space : ℕ → Bool
is_space c = c == 0x20 || (leb 9 c && leb c 13)

-- The first loop of `trim`: where it stops.
abbrev pub begin_of : List ℕ → ℕ
begin_of [] = 0
begin_of (c ∷ cs) = let rest = begin_of cs in if is_space c then suc rest else 0

-- The second loop.
abbrev pub end_of : List ℕ → ℕ → ℕ → ℕ
end_of value begin zero = 0
end_of value begin (suc end) =
    let rest = end_of value begin end in
    if ltb begin (suc end) && is_space (get_or value end 0) then rest else suc end

unfoldable pub trim : List ℕ → List ℕ
trim value =
    let begin = begin_of value in
    take (end_of value begin (length value) - begin) (drop begin value)

-- The decimal digits at the front of a text: their value after `n`, and how many there are.
abbrev pub digits : ℕ → List ℕ → ℕ × ℕ
digits n [] = (n, 0)
digits n (c ∷ cs) =
    let (value, count) = digits (n * 10 + (c - 0x30)) cs in
    if leb 0x30 c && leb c 0x39 then (value, suc count) else (n, 0)

-- `std::stoll` after the sign: the value and the position behind it. It throws (`none`) where there
-- is no digit or the number is out of the range of 64 bits.
abbrev pub unsigned_part : Bool → ℕ → List ℕ → Option (ℤ × ℕ)
unsigned_part negative skipped cs =
    let (value, count) = digits 0 cs in
    if count == 0
    then none
    else if negative
    then (if ltb (2 ^ 63) value
        then none
        else if value == 0
        then some (pos 0, skipped + count)
        else some (negsuc (value - 1), skipped + count))
    else if leb (2 ^ 63) value
    then none
    else some (pos value, skipped + count)

-- `std::stoll` on a text, which skips spaces and takes a sign.
unfoldable pub stoll : List ℕ → Option (ℤ × ℕ)
stoll text =
    let skipped = begin_of text in
    elim (drop skipped text) [
      | [] ↦ none
      | c ∷ cs ↦
          if c == 0x2D
          then unsigned_part true (skipped + 1) cs
          else if c == 0x2B
          then unsigned_part false (skipped + 1) cs
          else unsigned_part false skipped (c ∷ cs)
    ]

-- What `std::runtime_error` says: each constructor stands for one of the texts, with the line number
-- that the text ends in.
pub data LoadError : Type 0 where
  cannot_open : LoadError
  malformed empty_key empty_value : ℕ → LoadError
  value_cannot_be_empty : LoadError

pub data Loaded {ℓ} (A : Type ℓ) : Type ℓ where
  loads : A → Loaded A
  refuses : LoadError → Loaded A

abbrev true_text : List ℕ
true_text = b't' ∷ b'r' ∷ b'u' ∷ b'e' ∷ []

abbrev false_text : List ℕ
false_text = b'f' ∷ b'a' ∷ b'l' ∷ b's' ∷ b'e' ∷ []

abbrev integer_or_string : List ℕ → Option (ℤ × ℕ) → ConfigValue
integer_or_string value none = string value
integer_or_string value (some (n, position)) =
    if position == length value then integer n else string value

-- The value of a text that is trimmed and not empty.
unfoldable pub typed_value : List ℕ → ConfigValue
typed_value value =
    if same_text value true_text
    then boolean true
    else if same_text value false_text
    then boolean false
    else integer_or_string value (stoll value)

abbrev pub parse_trimmed : List ℕ → Loaded ConfigValue
parse_trimmed [] = refuses value_cannot_be_empty
parse_trimmed (c ∷ cs) = loads (typed_value (c ∷ cs))

unfoldable pub parse_value : List ℕ → Loaded ConfigValue
parse_value text = parse_trimmed (trim text)

-- `find('=')`: the part before the separator and the part behind it.
abbrev pub split_at_separator : List ℕ → Option (List ℕ × List ℕ)
split_at_separator [] = none
split_at_separator (c ∷ cs) =
    let rest = split_at_separator cs in
    if c == 0x3D
    then some ([], cs)
    else elim rest [ none ↦ none | some (key, value) ↦ some (c ∷ key, value) ]

-- The end of the loop's body, with the two parts trimmed.
abbrev pub assign : ℕ → List ℕ → List ℕ → Config → Loaded Config
assign line_number [] value config = refuses (empty_key line_number)
assign line_number (k ∷ ks) [] config = refuses (empty_value line_number)
assign line_number (k ∷ ks) (v ∷ vs) config = elim (parse_value (v ∷ vs)) [
  | refuses e ↦ refuses e
  | loads value ↦ loads (set (k ∷ ks) value config)
]

-- The loop's body, with the line trimmed.
abbrev pub load_trimmed : ℕ → List ℕ → Config → Loaded Config
load_trimmed line_number [] config = loads config
load_trimmed line_number (c ∷ cs) config =
    if c == 0x23 then loads config else elim (split_at_separator (c ∷ cs)) [
      | none ↦ refuses (malformed line_number)
      | some (key, value) ↦ assign line_number (trim key) (trim value) config
    ]

unfoldable pub load_line : ℕ → List ℕ → Config → Loaded Config
load_line line_number line config = load_trimmed line_number (trim line) config

-- The loop; the number is that of the lines already read.
abbrev pub load_lines : ℕ → List (List ℕ) → Config → Loaded Config
load_lines n [] config = loads config
load_lines n (line ∷ lines) config = elim (load_line (suc n) line config) [
  | refuses e ↦ refuses e
  | loads config' ↦ load_lines (suc n) lines config'
]

-- What `std::getline` makes of the rest of a file, with the line begun so far.
abbrev lines_from : List ℕ → List ℕ → List (List ℕ)
lines_from [] [] = []
lines_from (b ∷ bs) [] = (b ∷ bs) ∷ []
lines_from begun (c ∷ cs) =
    if c == 0x0A then begun ∷ lines_from [] cs else lines_from (begun ++ (c ∷ [])) cs

abbrev pub lines_of : List ℕ → List (List ℕ)
lines_of text = lines_from [] text

-- `ConfigLoader::load`, on the text of the file or on a file that cannot be opened.
unfoldable pub load : Option (List ℕ) → Loaded Config
load none = refuses cannot_open
load (some text) = load_lines 0 (lines_of text) new_config

pub Loaded-cases {ℓ} :
    {A : Type ℓ} (r : Loaded A) → ((a : A) × (r ≡ loads a)) ⊎ ((e : LoadError) × (r ≡ refuses e))
Loaded-cases (loads a) = inl (a, refl)
Loaded-cases (refuses e) = inr (e, refl)
