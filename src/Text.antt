-- ===== src/Text.antt =====
-- What the program uses of Python's `str` and `bytes`, both as lists of numbers. `lower` changes the
-- ASCII letters alone: header names and values are ASCII.
pub mod Utf8
mod Tests
use vcrpy.Prelude.{
  Bool, Eq, List, Str, [], arith, false, if◌then◌else◌, leb, map, refl, true, ℕ, ◌&&◌, ◌++◌, ◌+◌,
  ◌==◌, ◌||◌, ◌∷◌, ◌≡◌,
}

lower_char : ℕ → ℕ
lower_char c = if leb b'A' c && leb c b'Z' then c + 32 else c

-- s.lower()
unfoldable pub lower : Str → Str
unfolding lower_char
lower = map lower_char

module _ {A : Type 0} ⦃e : Eq A⦄ where
  -- s.startswith(prefix)
  unfoldable pub starts_with : List A → List A → Bool
  starts_with [] s = true
  starts_with (x ∷ prefix) [] = false
  starts_with (x ∷ prefix) (y ∷ s) = x == y && starts_with prefix s

  -- part in s
  unfoldable pub is_in : List A → List A → Bool
  unfolding starts_with
  is_in part [] = starts_with part []
  is_in part (x ∷ s) = starts_with part (x ∷ s) || is_in part s

  pub starts_with-append : (p s : List A) → starts_with p (p ++ s) ≡ true
  unfolding starts_with
  starts_with-append [] s = refl
  starts_with-append (x ∷ p) s = ground (arith, e.beq_iff x x, starts_with-append p s)

  pub append-of_starts_with : (p s : List A) → starts_with p s ≡ true → (t : List A) × (s ≡ p ++ t)
  unfolding starts_with
  append-of_starts_with [] s h = (s, refl)
  append-of_starts_with (x ∷ p) [] h = cc
  append-of_starts_with (x ∷ p) (y ∷ s) h =
      let both : (x ≡ y) × (starts_with p s ≡ true) = ground (arith, e.beq_iff x y) in
      let (t, same) = append-of_starts_with p s both.1 in (t, cc (both.0, same))

lower_char-lower_char : (c : ℕ) → lower_char (lower_char c) ≡ lower_char c
unfolding lower_char
lower_char-lower_char c = ground arith

pub lower-lower : (s : Str) → lower (lower s) ≡ lower s
unfolding lower
lower-lower [] = refl
lower-lower (c ∷ s) = unfold lower_char in cc (lower_char-lower_char c, lower-lower s)
