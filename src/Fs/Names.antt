-- ===== src/Fs/Names.antt =====
-- fs/file_t.cpp and lib/string.cpp: the parts of a path. A C string is the list of its characters
-- without the terminator.
pub mod Split
pub mod Dirs
use arabos.Text.Compare.{strnlen}
use arabos.Prelude.{
  ℕ, zero, suc, ◌+◌, ◌-◌, ◌*◌, ◌/◌, ◌%◌, ◌^◌, ◌≤◌, ◌<◌, min, bit_and, bit_or, bit_xor, ◌≡◌, refl,
  sym, ap, ap₂, ◌∙◌, fun_ext, ◌≢◌, ◌↔◌, ◌⊎◌, inl, inr, Bool, true, false, not, ◌&&◌, ◌||◌, Option,
  none, some, List, [], ◌∷◌, ◌++◌, map, arith, dec_lt, ℕ_discrete, ltb, leb, ◌==◌, if◌then◌else◌,
  Bool-cases, Option-cases, ==_iff, ltb→lt, lt→ltb, leb→le, length, get_elem?, set, get_or, take,
  drop, replicate, length-append, length-set, get_elem?-set_self, get_elem?-set_ne, length-take,
  length-drop, take-append-drop,
}
use arabos.Stl.StaticVector.{push_back}
use arabos.Stl.Str.{has_char}

abbrev pub slash : ℕ
slash = b'/'

-- `strndup`: the bytes of the new buffer. The terminator is copied only if the string is shorter
-- than `at_most`, so what is read from a full buffer goes on with the bytes `beyond` it.
unfoldable pub strndup : List ℕ → ℕ → List ℕ → List ℕ
unfolding strnlen
strndup s at_most beyond =
    let len = strnlen s at_most in if leb at_most len then take at_most s ++ beyond else take len s

-- `while(last!=path && *last == '/') *last-- = 0;` leaves `last` here.
unfoldable pub strip_slashes : List ℕ → ℕ → ℕ
strip_slashes path zero = zero
strip_slashes path (suc last) =
    let rest = strip_slashes path last in
    if get_or path (suc last) 0 == slash then rest else suc last

-- `while(last!=path && *last != '/') last--;`
unfoldable pub prev_slash : List ℕ → ℕ → ℕ
prev_slash path zero = zero
prev_slash path (suc last) =
    let rest = prev_slash path last in if get_or path (suc last) 0 == slash then suc last else rest

abbrev pub is_empty : List ℕ → Bool
is_empty [] = true
is_empty (c ∷ cs) = false

unfoldable pub dirname : List ℕ → List ℕ → List ℕ
unfolding strip_slashes prev_slash strndup
dirname path beyond =
    if is_empty path
    then slash ∷ []
    else (let stripped = strip_slashes path (strnlen path 10000 - 1) in
        let last = prev_slash path stripped in
        if last == 0 then slash ∷ [] else strndup (take (suc stripped) path) last beyond)

-- The second test of `last == path` follows the loop.
unfoldable pub basename : List ℕ → List ℕ
unfolding strip_slashes prev_slash strnlen
basename path =
    if is_empty path
    then slash ∷ []
    else (let stripped = strip_slashes path (strnlen path 10000 - 1) in
        let trimmed = take (suc stripped) path in
        let last = prev_slash path stripped in
        if stripped == 0
        then slash ∷ []
        else if last == 0 && strnlen trimmed 10000 == 1
        then trimmed
        else drop (suc last) trimmed)

-- The loops of `split` over what is left of the string: skip the delimiters, then take a word.
unfoldable pub skip_delims : List ℕ → List ℕ → List ℕ
skip_delims delim [] = []
skip_delims delim (c ∷ str) = if has_char delim c then skip_delims delim str else c ∷ str

unfoldable pub word : List ℕ → List ℕ → List ℕ
word delim [] = []
word delim (c ∷ str) = if has_char delim c then [] else c ∷ word delim str

unfoldable pub after_word : List ℕ → List ℕ → List ℕ
after_word delim [] = []
after_word delim (c ∷ str) = if has_char delim c then c ∷ str else after_word delim str

-- `split`, with a round of fuel for each character. A part that is longer than the 20 characters of
-- its string is written past it: `none`.
unfoldable pub split_rounds : ℕ → List ℕ → List ℕ → List (List ℕ) → Option (List (List ℕ))
unfolding skip_delims word after_word push_back
split_rounds zero delim str parts = some parts
split_rounds (suc n) delim str parts =
    let start = skip_delims delim str in
    let part = word delim start in
    let rest =
      split_rounds n delim (after_word delim start)
        (if is_empty part then parts else push_back 10 parts part) in
    if is_empty str then some parts else if leb (length part) 20 then rest else none

-- `str` is what a `string<128>` holds: the callers make it of a C string, of which it takes 128 characters
-- at most.
unfoldable pub split : List ℕ → List ℕ → Option (List (List ℕ))
unfolding split_rounds
split str delim = split_rounds (length str) delim str []
