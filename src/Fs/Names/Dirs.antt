-- ===== src/Fs/Names/Dirs.antt =====
-- fs/file_t.cpp: the two halves of a path, by `dirname` and `basename`.
use arabos.Prelude.{
  ℕ, zero, suc, ◌+◌, ◌-◌, ◌≤◌, ◌<◌, ◌≡◌, refl, ap, ◌∙◌, ◌≢◌, true, false, ◌&&◌, List, [], ◌∷◌, ◌++◌,
  arith, ◌==◌, if◌then◌else◌, le→leb, ne→==_false, length, get_or, take, drop, length-append,
  take-all, take-append,
}
use arabos.Text.Compare.{strnlen}
use arabos.Fs.Names.{slash, strndup, strip_slashes, prev_slash, dirname, basename, is_empty}
use arabos.Fs.Names.Split.{no_slash}

strnlen_lem : (s : List ℕ) (max : ℕ) → length s ≤ max → strnlen s max ≡ length s
unfolding strnlen
strnlen_lem [] max h = refl
strnlen_lem (c ∷ s) zero h = absurd (omega arith)
strnlen_lem (c ∷ s) (suc max) h = ap suc (strnlen_lem s max (omega arith))

get_or-append :
    (pre ys : List ℕ) (k n : ℕ) → n ≡ length pre + k → get_or (pre ++ ys) n 0 ≡ get_or ys k 0
get_or-append [] ys k n h = ap (λ (i : ℕ). get_or ys i 0) (omega arith)
get_or-append (c ∷ pre) ys k zero h = absurd (omega arith)
get_or-append (c ∷ pre) ys k (suc n) h = get_or-append pre ys k n (omega arith)

plain_char : (name : List ℕ) (k : ℕ) → no_slash name ≡ true → get_or name k 0 ≢ slash
unfolding no_slash
plain_char [] k h e = absurd (omega arith)
plain_char (c ∷ name) zero h e = absurd (ground arith)
plain_char (c ∷ name) (suc k) h e = plain_char name k (ground arith) e

last_plain :
    (x : List ℕ) → no_slash x ≡ true → 0 < length x → get_or (slash ∷ x) (length x) 0 ≢ slash
last_plain [] q r = absurd (omega arith)
last_plain (c ∷ x) q r = plain_char (c ∷ x) (length x) q

module _ (pre name : List ℕ) (plain : no_slash name ≡ true) where
  abbrev path : List ℕ
  path = pre ++ slash ∷ name

  prev_slash_lem : (k n : ℕ) → n ≡ length pre + k → prev_slash path n ≡ length pre
  unfolding prev_slash
  prev_slash_lem k zero h = omega arith
  prev_slash_lem zero (suc n) h = ground (arith, get_or-append pre (slash ∷ name) 0 (suc n) h)
  prev_slash_lem (suc k) (suc n) h = ground (
    arith,
    get_or-append pre (slash ∷ name) (suc k) (suc n) h,
    plain_char name k plain,
    prev_slash_lem k n (omega arith),
  )

  strip_lem : (n : ℕ) → n ≡ length pre + length name → 0 < length name → strip_slashes path n ≡ n
  unfolding strip_slashes
  strip_lem zero h p = refl
  strip_lem (suc n) h p =
      ground
        (arith, get_or-append pre (slash ∷ name) (length name) (suc n) h, last_plain name plain p)

  module _ (some_char : 0 < length name) (fits : length path ≤ 10000) where
    size : length path ≡ suc (length pre + length name)
    size = omega (arith, length-append pre (slash ∷ name))

    last_lem : strnlen path 10000 - 1 ≡ length pre + length name
    last_lem = omega (arith, strnlen_lem path 10000 fits, size)

    stripped_lem : strip_slashes path (strnlen path 10000 - 1) ≡ length pre + length name
    stripped_lem = rw last_lem (strip_lem (length pre + length name) refl some_char)

    trimmed_lem : take (suc (strip_slashes path (strnlen path 10000 - 1))) path ≡ path
    trimmed_lem =
        take-all (suc (strip_slashes path (strnlen path 10000 - 1))) path
          (omega (arith, stripped_lem, size))

    found_lem : prev_slash path (strip_slashes path (strnlen path 10000 - 1)) ≡ length pre
    found_lem = prev_slash_lem (length name) _ stripped_lem

module _ (path beyond : List ℕ) (some_char : is_empty path ≡ false) (s q : ℕ)
    (stripped : strip_slashes path (strnlen path 10000 - 1) ≡ s) (whole : take (suc s) path ≡ path)
    (found : prev_slash path s ≡ q) where
  basename_runs : basename path ≡ (
      if s == 0
      then slash ∷ []
      else if q == 0 && strnlen path 10000 == 1
      then path
      else drop (suc q) path)
  unfolding basename
  basename_runs = rw (some_char, stripped, whole, found)

  dirname_runs : dirname path beyond ≡ (if q == 0 then slash ∷ [] else strndup path q beyond)
  unfolding dirname
  dirname_runs = rw (some_char, stripped, whole, found)

strnlen_full : (s : List ℕ) (max : ℕ) → max ≤ length s → strnlen s max ≡ max
unfolding strnlen
strnlen_full [] max h = omega arith
strnlen_full (c ∷ s) zero h = refl
strnlen_full (c ∷ s) (suc max) h = ap suc (strnlen_full s max (omega arith))

strndup_full :
    (s : List ℕ) (n : ℕ) (beyond : List ℕ) → n ≤ length s → strndup s n beyond ≡ take n s ++ beyond
unfolding strndup
strndup_full s n beyond h = rw (strnlen_full s n h, le→leb n n (omega arith))

drop_past : (pre : List ℕ) (c : ℕ) (xs : List ℕ) → drop (suc (length pre)) (pre ++ c ∷ xs) ≡ xs
drop_past [] c xs = refl
drop_past (p ∷ pre) c xs = drop_past pre c xs

nonempty : (pre : List ℕ) (c : ℕ) (xs : List ℕ) → is_empty (pre ++ c ∷ xs) ≡ false
nonempty [] c xs = refl
nonempty (p ∷ pre) c xs = refl

-- The directory and the name of a path, `pre/name`: `basename` gives back the name, and `dirname`
-- what stands before the last slash, followed by the bytes behind its buffer, since its copy has no
-- terminator. A path whose only slash is its first has the directory `/`.
dirname-basename :
    (pre name beyond : List ℕ)
    → no_slash name ≡ true
    → 0 < length name
    → length (pre ++ slash ∷ name) ≤ 10000
    → (basename (pre ++ slash ∷ name) ≡ name)
      × (dirname (pre ++ slash ∷ name) beyond
          ≡ (if length pre == 0 then slash ∷ [] else pre ++ beyond))
dirname-basename pre name beyond plain p fits =
    let path : List ℕ = pre ++ slash ∷ name in
    let s = length pre + length name in
    let stripped = stripped_lem pre name plain p fits in
    let whole : take (suc s) path ≡ path =
      take-all (suc s) path (omega (arith, size pre name plain p fits)) in
    let found = prev_slash_lem pre name plain (length name) s refl in
    let long : strnlen path 10000 ≡ suc s =
      strnlen_lem path 10000 fits ∙ size pre name plain p fits in
    (
      basename_runs path beyond (nonempty pre slash name) s (length pre) stripped whole found
          ∙ rw (ne→==_false s 0 (omega arith), long, ne→==_false (suc s) 1 (omega arith), drop_past)
              (ground arith),
      dirname_runs path beyond (nonempty pre slash name) s (length pre) stripped whole found
          ∙ rw (
            strndup_full path (length pre) beyond (omega (arith, size pre name plain p fits)),
            take-append (length pre) pre (slash ∷ name) refl,
          ),
    )

-- The parent of a path of one part is the root directory.
pub dirname_root :
    (name beyond : List ℕ)
    → no_slash name ≡ true
    → 0 < length name
    → length name < 10000
    → dirname (slash ∷ name) beyond ≡ slash ∷ []
unfolding dirname
dirname_root name beyond plain some_char fits =
    rw (found_lem [] name plain some_char (omega arith)) refl
