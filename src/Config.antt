-- ===== src/Config.antt =====
-- PacketForge_V1/include/config/config_value.hpp, config.hpp and src/config: typed values, and the map
-- from keys to them. A text is the list of its bytes; the loader is Config/Loader.
pub mod Loader
pub mod Map
pub mod Trim
pub mod Load
pub mod Values
pub mod Decimals
use thread_pool.Base.{
  ℕ, List, [], ◌∷◌, Bool, true, false, ◌&&◌, ◌==◌, if◌then◌else◌, Option, none, some, ℤ,
}
use thread_pool.Exception.{Outcome, returns, throws, runtime_error}

pub data ConfigValue : Type 0 where
  string : List ℕ → ConfigValue
  integer : ℤ → ConfigValue
  boolean : Bool → ConfigValue

-- `ConfigValue::ConfigValue` with no argument.
abbrev pub new_value : ConfigValue
new_value = string []

abbrev pub is_string : ConfigValue → Bool
is_string (string s) = true
is_string (integer n) = false
is_string (boolean b) = false

abbrev pub is_integer : ConfigValue → Bool
is_integer (integer n) = true
is_integer (string s) = false
is_integer (boolean b) = false

abbrev pub is_boolean : ConfigValue → Bool
is_boolean (boolean b) = true
is_boolean (string s) = false
is_boolean (integer n) = false

-- `asString`, `asInteger` and `asBoolean` throw on a value of another type.
abbrev pub as_string : ConfigValue → Outcome (List ℕ)
as_string (string s) = returns s
as_string (integer n) = throws (runtime_error "ConfigValue does not contain a string")
as_string (boolean b) = throws (runtime_error "ConfigValue does not contain a string")

abbrev pub as_integer : ConfigValue → Outcome ℤ
as_integer (integer n) = returns n
as_integer (string s) = throws (runtime_error "ConfigValue does not contain an integer")
as_integer (boolean b) = throws (runtime_error "ConfigValue does not contain an integer")

abbrev pub as_boolean : ConfigValue → Outcome Bool
as_boolean (boolean b) = returns b
as_boolean (string s) = throws (runtime_error "ConfigValue does not contain a boolean")
as_boolean (integer n) = throws (runtime_error "ConfigValue does not contain a boolean")

-- `==` on strings.
abbrev pub same_text : List ℕ → List ℕ → Bool
same_text [] [] = true
same_text [] (y ∷ ys) = false
same_text (x ∷ xs) [] = false
same_text (x ∷ xs) (y ∷ ys) = x == y && same_text xs ys

-- The hash map, as the list of its entries.
pub record Config : Type 0 where
  pub values : List (List ℕ × ConfigValue)

abbrev pub new_config : Config
new_config = record { values = [] }

abbrev pub find : List ℕ → List (List ℕ × ConfigValue) → Option ConfigValue
find key [] = none
find key ((k, v) ∷ rest) = let found = find key rest in if same_text key k then some v else found

-- `values_[key] = value`.
abbrev pub put : List ℕ → ConfigValue → List (List ℕ × ConfigValue) → List (List ℕ × ConfigValue)
put key value [] = (key, value) ∷ []
put key value ((k, v) ∷ rest) =
    let changed = put key value rest in
    if same_text key k then (k, value) ∷ rest else (k, v) ∷ changed

unfoldable pub get : List ℕ → Config → Option ConfigValue
get key c = find key c.values

unfoldable pub contains : List ℕ → Config → Bool
contains key c = elim (find key c.values) [ none ↦ false | some v ↦ true ]

unfoldable pub set : List ℕ → ConfigValue → Config → Config
set key value c = record { values = put key value c.values }

abbrev pub clear : Config → Config
clear c = record { values = [] }
