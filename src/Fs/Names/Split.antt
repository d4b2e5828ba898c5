-- ===== src/Fs/Names/Split.antt =====
-- fs/file_t.cpp: `split` gives back the parts of a path.
use arabos.Prelude.{
  ℕ, zero, suc, ◌+◌, ◌≤◌, ◌<◌, ◌≡◌, refl, sym, ap, ◌∙◌, Bool, true, not, ◌&&◌, some, List, [], ◌∷◌,
  ◌++◌, arith, ◌==◌, le→leb, length, length-append,
}
use arabos.Stl.StaticVector.{push_back}
use arabos.Stl.Str.{has_char}
use arabos.Fs.Names.{slash, skip_delims, word, after_word, split_rounds, split}
use mathlib.Core.List.{append_assoc, append-nil}

-- A name that can stand between two slashes: it is not empty, fits its string, and has no slash.
unfoldable pub no_slash : List ℕ → Bool
no_slash [] = true
no_slash (c ∷ cs) = not (slash == c) && no_slash cs

pub record IsName (name : List ℕ) : Type 0 where
  pub some_char : 0 < length name
  pub short : length name ≤ 20
  pub plain : no_slash name ≡ true

abbrev pub AreNames : List (List ℕ) → Type 0
AreNames [] = Unit
AreNames (x ∷ xs) = IsName x × AreNames xs

-- The path with these parts.
unfoldable pub path_of : List (List ℕ) → List ℕ
path_of [] = []
path_of (x ∷ xs) = slash ∷ (x ++ path_of xs)

abbrev delim : List ℕ
delim = slash ∷ []

-- What follows a name in a path: nothing, or a slash.
abbrev Stops : List ℕ → Type 0
Stops [] = Unit
Stops (c ∷ cs) = c ≡ slash

path_of-Stops : (xs : List (List ℕ)) → Stops (path_of xs)
unfolding path_of
path_of-Stops [] = tt
path_of-Stops (x ∷ xs) = refl

word_lem :
    (x rest : List ℕ)
    → no_slash x ≡ true
    → Stops rest
    → (word delim (x ++ rest) ≡ x) × (after_word delim (x ++ rest) ≡ rest)
unfolding word after_word no_slash has_char
word_lem [] [] h s = (refl, refl)
word_lem [] (c ∷ rest) h s = (ground arith, ground arith)
word_lem (c ∷ x) rest h s =
    let ih = word_lem x rest (ground arith) s in (ground (arith, ih), ground (arith, ih))

skip_lem :
    (x rest : List ℕ)
    → 0 < length x
    → no_slash x ≡ true
    → skip_delims delim (slash ∷ (x ++ rest)) ≡ x ++ rest
unfolding skip_delims no_slash has_char
skip_lem [] rest h p = absurd (omega arith)
skip_lem (c ∷ x) rest h p = ground arith

split_rounds_lem :
    (n : ℕ) (xs parts : List (List ℕ))
    → AreNames xs
    → length (path_of xs) ≤ n
    → length parts + length xs ≤ 10
    → split_rounds n delim (path_of xs) parts ≡ some (parts ++ xs)
unfolding split_rounds path_of push_back
split_rounds_lem zero [] parts a h k = ap some (sym (append-nil parts))
split_rounds_lem (suc n) [] parts a h k = ap some (sym (append-nil parts))
split_rounds_lem zero (x ∷ xs) parts a h k = absurd (omega arith)
split_rounds_lem (suc n) ([] ∷ xs) parts a h k = absurd (omega (arith, a.0.some_char))
split_rounds_lem (suc n) ((c ∷ cs) ∷ xs) parts a h k =
    let x : List ℕ = c ∷ cs in
    let skipped = skip_lem x (path_of xs) a.0.some_char a.0.plain in
    let taken = word_lem x (path_of xs) a.0.plain (path_of-Stops xs) in
    let ih =
      split_rounds_lem n xs (parts ++ x ∷ []) a.1 (omega (arith, length-append x (path_of xs)))
        (omega (arith, length-append parts (x ∷ []))) in
    rw (skipped, taken.0, taken.1, le→leb _ _ a.0.short, le→leb (length parts + 1) 10 (omega arith))
      (ih ∙ ap some (append_assoc parts (x ∷ []) xs))

-- The parts of a path of at most ten names, each of 1 to 20 characters other than a slash, and of at most
-- 128 characters, which is what the string that `split` takes can hold, come back in order.
pub split-path_of :
    (xs : List (List ℕ))
    → AreNames xs
    → length xs ≤ 10
    → length (path_of xs) ≤ 128
    → split (path_of xs) delim ≡ some xs
unfolding split
split-path_of xs a h fits =
    split_rounds_lem (length (path_of xs)) xs [] a (omega arith) (omega arith)
