-- ===== src/Config/Map.antt =====
-- PacketForge_V1/src/config/config.cpp: setting and getting.
use thread_pool.Base.{
  ℕ, ◌≡◌, ◌≢◌, refl, sym, List, [], ◌∷◌, true, false, some, if◌then◌else◌, arith, Bool-cases, inl,
  inr, subst,
}
use thread_pool.Config.{ConfigValue, Config, find, put, get, set, same_text}

pub same_text_refl : (xs : List ℕ) → same_text xs xs ≡ true
same_text_refl [] = refl
same_text_refl (x ∷ xs) = ground (arith, same_text_refl xs)

pub same_text-≡ : (xs ys : List ℕ) → same_text xs ys ≡ true → xs ≡ ys
same_text-≡ [] [] e = refl
same_text-≡ [] (y ∷ ys) e = absurd (ground arith)
same_text-≡ (x ∷ xs) [] e = absurd (ground arith)
same_text-≡ (x ∷ xs) (y ∷ ys) e =
    let head : x ≡ y = ground arith in
    let tail = same_text-≡ xs ys (ground arith) in ground (arith, head, tail)

pub same_text-≢ : (xs ys : List ℕ) → xs ≢ ys → same_text xs ys ≡ false
same_text-≢ xs ys ne = elim (Bool-cases (same_text xs ys)) [
  | inl same ↦ absurd (ne (same_text-≡ xs ys same))
  | inr other ↦ other
]

find-put :
    (key : List ℕ) (value : ConfigValue) (entries : List (List ℕ × ConfigValue))
    → find key (put key value entries) ≡ some value
find-put key value [] = ground (arith, same_text_refl key)
find-put key value ((k, v) ∷ rest) = elim (Bool-cases (same_text key k)) [
  | inl same ↦ simp (same, same) refl
  | inr other ↦ simp (other, find-put key value rest) refl
]

find-put_other :
    (key other : List ℕ) (value : ConfigValue) (entries : List (List ℕ × ConfigValue))
    → other ≢ key
    → find other (put key value entries) ≡ find other entries
find-put_other key other value [] ne = ground (arith, same_text-≢ other key ne)
find-put_other key other value ((k, v) ∷ rest) ne = elim (Bool-cases (same_text key k)) [
  | inl same ↦
      ground (arith, same, same_text-≢ other k (subst (λ x. other ≢ x) (same_text-≡ key k same) ne))
  | inr different ↦ ground (arith, different, find-put_other key other value rest ne)
]

-- After setting a key, it has the value that was set, and every other key has the value it had.
pub get-set :
    (key other : List ℕ) (value : ConfigValue) (c : Config)
    → other ≢ key
    → (get key (set key value c) ≡ some value) × (get other (set key value c) ≡ get other c)
unfolding get set
get-set key other value c ne =
    (find-put key value c.values, find-put_other key other value c.values ne)

-- Setting and getting, with the comparison of the keys decided.
pub get-set_cases :
    (key k : List ℕ) (value : ConfigValue) (c : Config)
    → get key (set k value c) ≡ (if same_text key k then some value else get key c)
unfolding get set
get-set_cases key k value c = elim (Bool-cases (same_text key k)) [
  | inl same ↦ simp same (
      subst (λ x. find x (put k value c.values) ≡ some value) (sym (same_text-≡ key k same))
        (find-put k value c.values))
  | inr other ↦ simp other (
      find-put_other k key value c.values (λ e.
        absurd (ground (arith, other, subst (λ x. same_text key x ≡ true) e (same_text_refl key)))))
]
