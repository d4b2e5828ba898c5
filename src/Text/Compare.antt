-- ===== src/Text/Compare.antt =====
-- lib/string.cpp, strnlen, strncmp and strncmp_prefix. A text is the list of its characters, as
-- bytes, before the zero that ends it; what is past the list reads as that zero.
use arabos.Prelude.{
  ℕ, zero, suc, ◌+◌, ◌-◌, ◌%◌, ◌<◌, ◌≡◌, refl, sym, ap, ◌∙◌, ◌↔◌, Bool, true, false, ◌&&◌, List, [],
  ◌∷◌, ◌++◌, arith, ℕ_discrete, ltb, leb, ◌==◌, if◌then◌else◌, ==_iff, ne→==_false, take, drop,
  take-append-drop,
}
use mathlib.Core.Path.{subst}
use arabos.Prelude.Int.{ℤ, pos, negsuc}

-- `*s1 - s2[-1]`: the difference of two characters, which are signed bytes.
unfoldable pub char_diff : ℕ → ℕ → ℤ
char_diff a b =
    let m = (a + 128) % 256 in
    let n = (b + 128) % 256 in if leb n m then pos (m - n) else negsuc (n - m - 1)

unfoldable pub strnlen : List ℕ → ℕ → ℕ
strnlen [] max = 0
strnlen (x ∷ xs) zero = 0
strnlen (x ∷ xs) (suc max) = suc (strnlen xs max)

-- The loop and the final difference. With no `len` left, two equal characters end it too.
unfoldable pub compare_loop : List ℕ → List ℕ → ℕ → ℤ
compare_loop [] [] len = pos 0
compare_loop [] (y ∷ ys) len = char_diff 0 y
compare_loop (x ∷ xs) [] len = char_diff x 0
compare_loop (x ∷ xs) (y ∷ ys) zero = char_diff x y
compare_loop (x ∷ xs) (y ∷ ys) (suc len) = if x == y then compare_loop xs ys len else char_diff x y

-- `same` tells whether the two pointers are equal.
unfoldable pub strncmp : Bool → List ℕ → List ℕ → ℕ → ℤ
strncmp same s1 s2 len = if same then pos 0 else compare_loop s1 s2 len

-- The loop of `strncmp_prefix`: a difference counts only while `len` is not 0. After two equal
-- characters with no `len` left, the difference that is returned is 0.
unfoldable pub prefix_loop : List ℕ → List ℕ → ℕ → ℤ
prefix_loop [] [] len = pos 0
prefix_loop [] (y ∷ ys) zero = pos 0
prefix_loop [] (y ∷ ys) (suc len) = char_diff 0 y
prefix_loop (x ∷ xs) [] zero = pos 0
prefix_loop (x ∷ xs) [] (suc len) = char_diff x 0
prefix_loop (x ∷ xs) (y ∷ ys) zero = pos 0
prefix_loop (x ∷ xs) (y ∷ ys) (suc len) = if x == y then prefix_loop xs ys len else char_diff x y

unfoldable pub strncmp_prefix : Bool → List ℕ → List ℕ → ℤ
strncmp_prefix same s1 prefix = if same then pos 0 else prefix_loop s1 prefix (strnlen prefix 100)

-- Bytes other than the zero that ends a text.
abbrev pub is_text : List ℕ → Bool
is_text [] = true
is_text (x ∷ xs) = (ltb 0 x && ltb x 256) && is_text xs

char_diff_iff : (a b : ℕ) → a < 256 → b < 256 → (char_diff a b ≡ pos 0) ↔ (a ≡ b)
unfolding char_diff
char_diff_iff a b h k = (λ e. ground arith, λ e. ground arith)

is_text-head : (x : ℕ) (xs : List ℕ) → is_text (x ∷ xs) ≡ true → (0 < x) × (x < 256)
is_text-head x xs h = (ground arith, ground arith)

is_text-tail : (x : ℕ) (xs : List ℕ) → is_text (x ∷ xs) ≡ true → is_text xs ≡ true
is_text-tail x xs h = ground arith

-- The characters that `strncmp` looks at: `len + 1` of them, the ending zero included.
abbrev pub seen : ℕ → List ℕ → List ℕ
seen len s = take (suc len) (s ++ 0 ∷ [])

compare_loop_iff :
    (s1 s2 : List ℕ) (len : ℕ)
    → is_text s1 ≡ true
    → is_text s2 ≡ true
    → (compare_loop s1 s2 len ≡ pos 0) ↔ (seen len s1 ≡ seen len s2)
unfolding compare_loop
compare_loop_iff [] [] len h k = (λ e. refl, λ e. refl)
compare_loop_iff [] (y ∷ ys) len h k =
    let t = is_text-head y ys k in
    let d = char_diff_iff 0 y (omega arith) t.1 in
    (λ e. ground (arith, d.0), λ e. ground (arith, d.1))
compare_loop_iff (x ∷ xs) [] len h k =
    let t = is_text-head x xs h in
    let d = char_diff_iff x 0 t.1 (omega arith) in
    (λ e. ground (arith, d.0), λ e. ground (arith, d.1))
compare_loop_iff (x ∷ xs) (y ∷ ys) zero h k =
    let t = is_text-head x xs h in
    let u = is_text-head y ys k in
    let d = char_diff_iff x y t.1 u.1 in (λ e. ground (arith, d.0), λ e. ground (arith, d.1))
compare_loop_iff (x ∷ xs) (y ∷ ys) (suc len) h k =
    let t = is_text-head x xs h in
    let u = is_text-head y ys k in
    let d = char_diff_iff x y t.1 u.1 in
    let ih = compare_loop_iff xs ys len (is_text-tail x xs h) (is_text-tail y ys k) in
    (λ e. ground (arith, d.0, ih.0), λ e. ground (arith, ih.1))

-- For texts of bytes, `strncmp` answers 0 exactly when the first `len + 1` characters are the same,
-- the ending zero included; equal pointers are to the same text.
pub strncmp_iff :
    (same : Bool) (s1 s2 : List ℕ) (len : ℕ)
    → (same ≡ true → s1 ≡ s2)
    → is_text s1 ≡ true
    → is_text s2 ≡ true
    → (strncmp same s1 s2 len ≡ pos 0) ↔ (seen len s1 ≡ seen len s2)
unfolding strncmp
strncmp_iff true s1 s2 len p h k = (λ e. ap (seen len) (p refl), λ e. refl)
strncmp_iff false s1 s2 len p h k = compare_loop_iff s1 s2 len h k

-- `s1` goes on after `prefix`.
pub record Starts (prefix s1 : List ℕ) : Type 0 where
  pub rest : List ℕ
  pub whole : s1 ≡ prefix ++ rest

Starts-nil : (s1 : List ℕ) → Starts [] s1
Starts-nil s1 = record { rest = s1; whole = refl }

not-Starts : (y : ℕ) (ys : List ℕ) → Starts (y ∷ ys) [] → ⊥
not-Starts y ys s = ground (arith, s.whole)

Starts-same : (x : ℕ) (xs ys : List ℕ) → Starts ys xs → Starts (x ∷ ys) (x ∷ xs)
Starts-same x xs ys s = record { rest = s.rest; whole = ap (λ l. x ∷ l) s.whole }

Starts-head : (x y : ℕ) (xs ys : List ℕ) → Starts (y ∷ ys) (x ∷ xs) → x ≡ y
Starts-head x y xs ys s = ground (arith, s.whole)

Starts-tail : (x y : ℕ) (xs ys : List ℕ) → Starts (y ∷ ys) (x ∷ xs) → Starts ys xs
Starts-tail x y xs ys s = record { rest = s.rest; whole = ground (arith, s.whole) }

prefix_loop_iff :
    (s1 prefix : List ℕ) (max : ℕ)
    → is_text s1 ≡ true
    → is_text prefix ≡ true
    → (prefix_loop s1 prefix (strnlen prefix max) ≡ pos 0) ↔ Starts (take max prefix) s1
unfolding prefix_loop strnlen
prefix_loop_iff [] [] zero h k = (λ e. Starts-nil [], λ s. refl)
prefix_loop_iff [] [] (suc max) h k = (λ e. Starts-nil [], λ s. refl)
prefix_loop_iff (x ∷ xs) [] zero h k = (λ e. Starts-nil (x ∷ xs), λ s. refl)
prefix_loop_iff (x ∷ xs) [] (suc max) h k = (λ e. Starts-nil (x ∷ xs), λ s. refl)
prefix_loop_iff [] (y ∷ ys) zero h k = (λ e. Starts-nil [], λ s. refl)
prefix_loop_iff [] (y ∷ ys) (suc max) h k =
    let t = is_text-head y ys k in
    let d = char_diff_iff 0 y (omega arith) t.1 in
    (λ e. absurd (omega (arith, t.0, d.0 e)), λ s. absurd (not-Starts y (take max ys) s))
prefix_loop_iff (x ∷ xs) (y ∷ ys) zero h k = (λ e. Starts-nil (x ∷ xs), λ s. refl)
prefix_loop_iff (x ∷ xs) (y ∷ ys) (suc max) h k =
    let t = is_text-head x xs h in
    let u = is_text-head y ys k in
    let d = char_diff_iff x y t.1 u.1 in
    let ih = prefix_loop_iff xs ys max (is_text-tail x xs h) (is_text-tail y ys k) in
    elim (ℕ_discrete x y) [
      | yes e ↦ rw ((==_iff x y).1 e) (
        λ z.
            subst (λ (c : ℕ). Starts (c ∷ take max ys) (x ∷ xs)) e
              (Starts-same x xs (take max ys) (ih.0 z)),
        λ s. ih.1 (Starts-tail x y xs (take max ys) s),
      )
      | no ne ↦
          rw (ne→==_false x y ne)
            (λ z. absurd (ne (d.0 z)), λ s. absurd (ne (Starts-head x y xs (take max ys) s)))
    ]

-- For texts of bytes, `strncmp_prefix` answers 0 exactly when the text starts with the prefix, of
-- which only the first 100 characters are looked at; equal pointers are to the same text.
strncmp_prefix_iff :
    (same : Bool) (s1 prefix : List ℕ)
    → (same ≡ true → s1 ≡ prefix)
    → is_text s1 ≡ true
    → is_text prefix ≡ true
    → (strncmp_prefix same s1 prefix ≡ pos 0) ↔ Starts (take 100 prefix) s1
unfolding strncmp_prefix
strncmp_prefix_iff true s1 prefix p h k = (
  λ e. record { rest = drop 100 prefix; whole = p refl ∙ sym (take-append-drop 100 prefix) },
  λ s. refl,
)
strncmp_prefix_iff false s1 prefix p h k = prefix_loop_iff s1 prefix 100 h k
