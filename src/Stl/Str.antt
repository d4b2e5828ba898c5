-- ===== src/Stl/Str.antt =====
-- include/stl/bits/string.hh: a string in an array of `n + 1` characters. The list holds the
-- characters before `m_size`.
use arabos.Prelude.{
  ℕ, ◌+◌, ◌≡◌, refl, ap, ◌↔◌, Bool, true, false, List, [], ◌∷◌, arith, ◌==◌, if◌then◌else◌, length,
  take,
}

-- `string(char const*)`: the test is `i < N + 1`, so one character more than `n` is taken.
unfoldable pub of_cstr : ℕ → List ℕ → List ℕ
of_cstr n str = take (n + 1) str

-- `find(c)`, and whether it is other than npos.
unfoldable pub has_char : List ℕ → ℕ → Bool
has_char [] c = false
has_char (x ∷ xs) c = if x == c then true else has_char xs c

-- `operator==`: the sizes, then each character.
unfoldable pub same_chars : List ℕ → List ℕ → Bool
same_chars [] [] = true
same_chars [] (y ∷ ys) = false
same_chars (x ∷ xs) [] = false
same_chars (x ∷ xs) (y ∷ ys) = if x == y then same_chars xs ys else false

unfoldable pub str_eq : List ℕ → List ℕ → Bool
unfolding same_chars
str_eq a b = if length a == length b then same_chars a b else false

same_chars_iff : (a b : List ℕ) → (same_chars a b ≡ true) ↔ (a ≡ b)
unfolding same_chars
same_chars_iff [] [] = (λ e. refl, λ e. refl)
same_chars_iff [] (y ∷ ys) = (λ e. cc, λ e. cc)
same_chars_iff (x ∷ xs) [] = (λ e. cc, λ e. cc)
same_chars_iff (x ∷ xs) (y ∷ ys) =
    let ih = same_chars_iff xs ys in (λ e. ground (arith, ih.0), λ e. ground (arith, ih.1))

-- The comparison of two strings holds exactly when they have the same characters.
pub str_eq_iff : (a b : List ℕ) → (str_eq a b ≡ true) ↔ (a ≡ b)
unfolding str_eq
str_eq_iff a b =
    let s = same_chars_iff a b in (λ e. ground (arith, s.0), λ e. ground (arith, s.1, ap length e))
