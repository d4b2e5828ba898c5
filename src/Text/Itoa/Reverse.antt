-- ===== src/Text/Itoa/Reverse.antt =====
-- lib/string.cpp, itoa: the loop that swaps the first and the last character reverses the text.
use arabos.Prelude.{
  ℕ, zero, suc, ◌+◌, ◌-◌, ◌<◌, ◌≡◌, refl, sym, ap, ◌∙◌, true, some, List, [], ◌∷◌, ◌++◌, arith, ltb,
  lt→ltb, le→ltb_false, length, set, get_or, get_or-append, length-append,
}
use arabos.Text.Itoa.{swap_chars, swap_loop}
use mathlib.Core.Path.{subst}
use mathlib.Core.List.{append_assoc}

-- The characters from the last to the first.
abbrev pub flip : List ℕ → List ℕ
flip [] = []
flip (x ∷ xs) = flip xs ++ x ∷ []

-- A list from its last character on.
record Ending (xs : List ℕ) : Type 0 where
  front : List ℕ
  last : ℕ
  whole : xs ≡ front ++ last ∷ []

ending : (x : ℕ) (xs : List ℕ) → Ending (x ∷ xs)
ending x [] = record { front = []; last = x; whole = refl }
ending x (y ∷ ys) =
    let e = ending y ys in
    record { front = x ∷ e.front; last = e.last; whole = ap (λ l. x ∷ l) e.whole }

flip-append : (xs : List ℕ) (y : ℕ) → flip (xs ++ y ∷ []) ≡ y ∷ flip xs
flip-append [] y = refl
flip-append (x ∷ xs) y = ap (λ l. l ++ x ∷ []) (flip-append xs y)

set-append :
    (pre : List ℕ) (x : ℕ) (xs : List ℕ) (v : ℕ)
    → set (pre ++ x ∷ xs) (length pre) v ≡ pre ++ v ∷ xs
set-append [] x xs v = refl
set-append (y ∷ pre) x xs v = ap (λ l. y ∷ l) (set-append pre x xs v)

-- One swap at the ends of `x ∷ mid ++ y ∷ []`.
swap_chars_lem :
    (pre mid post : List ℕ) (x y : ℕ)
    → swap_chars (pre ++ x ∷ (mid ++ y ∷ post)) (length pre) (length (pre ++ x ∷ mid))
      ≡ (pre ++ y ∷ []) ++ (mid ++ x ∷ post)
unfolding swap_chars
swap_chars_lem pre mid post x y =
    let whole : pre ++ x ∷ (mid ++ y ∷ post) ≡ (pre ++ x ∷ mid) ++ y ∷ post =
      sym (append_assoc pre (x ∷ mid) (y ∷ post)) in
    let first : get_or (pre ++ x ∷ (mid ++ y ∷ post)) (length pre) 0 ≡ x =
      get_or-append pre x (mid ++ y ∷ post) 0 in
    let last : get_or (pre ++ x ∷ (mid ++ y ∷ post)) (length (pre ++ x ∷ mid)) 0 ≡ y =
      ap (λ (l : List ℕ). get_or l (length (pre ++ x ∷ mid)) 0) whole
      ∙ get_or-append (pre ++ x ∷ mid) y post 0 in
    let stored : set (pre ++ x ∷ (mid ++ y ∷ post)) (length pre) y ≡ (pre ++ y ∷ mid) ++ y ∷ post =
      set-append pre x (mid ++ y ∷ post) y ∙ sym (append_assoc pre (y ∷ mid) (y ∷ post)) in
    let same : length (pre ++ x ∷ mid) ≡ length (pre ++ y ∷ mid) =
      omega (arith, length-append pre (x ∷ mid), length-append pre (y ∷ mid)) in
    rw (first, last, stored, same)
      (set-append (pre ++ y ∷ mid) y post x
        ∙ append_assoc pre (y ∷ mid) (x ∷ post)
        ∙ sym (append_assoc pre (y ∷ []) (mid ++ x ∷ post)))

-- One turn of the loop on `x ∷ mid ++ y ∷ []`, given what the rest of it does.
swap_turn :
    (fuel : ℕ) (pre mid post : List ℕ) (x y : ℕ)
    → swap_loop fuel
        ((pre ++ y ∷ []) ++ (mid ++ x ∷ post))
        (length (pre ++ y ∷ []))
        (length (pre ++ y ∷ []) + length mid - 1)
      ≡ some ((pre ++ y ∷ []) ++ (flip mid ++ x ∷ post))
    → swap_loop
        (suc fuel)
        (pre ++ ((x ∷ (mid ++ y ∷ [])) ++ post))
        (length pre)
        (length pre + length (x ∷ (mid ++ y ∷ [])) - 1)
      ≡ some (pre ++ (flip (x ∷ (mid ++ y ∷ [])) ++ post))
unfolding swap_loop
swap_turn fuel pre mid post x y ih =
    let text : pre ++ ((x ∷ (mid ++ y ∷ [])) ++ post) ≡ pre ++ x ∷ (mid ++ y ∷ post) =
      ap (λ (l : List ℕ). pre ++ x ∷ l) (append_assoc mid (y ∷ []) post) in
    let p1 : length pre + 1 ≡ length (pre ++ y ∷ []) = omega (arith, length-append pre (y ∷ [])) in
    let p2 : length pre + length (x ∷ (mid ++ y ∷ [])) - 1 ≡ length (pre ++ x ∷ mid) =
      omega (arith, length-append pre (x ∷ mid), length-append mid (y ∷ [])) in
    let p3 : length (pre ++ x ∷ mid) - 1 ≡ length (pre ++ y ∷ []) + length mid - 1 =
      omega (arith, length-append pre (x ∷ mid), length-append pre (y ∷ [])) in
    let more : ltb (length pre) (length (pre ++ x ∷ mid)) ≡ true =
      lt→ltb (length pre) (length (pre ++ x ∷ mid)) (omega (arith, length-append pre (x ∷ mid))) in
    let result : (pre ++ y ∷ []) ++ (flip mid ++ x ∷ post)
        ≡ pre ++ (flip (x ∷ (mid ++ y ∷ [])) ++ post) =
      append_assoc pre (y ∷ []) (flip mid ++ x ∷ post)
      ∙ ap (λ (l : List ℕ). pre ++ y ∷ l) (sym (append_assoc (flip mid) (x ∷ []) post))
      ∙ ap (λ (l : List ℕ). pre ++ ((l ++ x ∷ []) ++ post)) (sym (flip-append mid y)) in
    rw (text, p2, more, swap_chars_lem pre mid post x y, p1, p3) (ih ∙ ap some result)

-- The loop, with what is already swapped on both sides.
pub swap_loop_lem :
    (fuel : ℕ) (pre mid post : List ℕ)
    → length mid < fuel
    → swap_loop fuel (pre ++ (mid ++ post)) (length pre) (length pre + length mid - 1)
      ≡ some (pre ++ (flip mid ++ post))
unfolding swap_loop
swap_loop_lem zero pre mid post h = absurd (omega arith)
swap_loop_lem (suc fuel) pre [] post h =
    rw (le→ltb_false (length pre) (length pre + 0 - 1) (omega arith)) refl
swap_loop_lem (suc fuel) pre (x ∷ []) post h =
    rw (le→ltb_false (length pre) (length pre + 1 - 1) (omega arith)) refl
swap_loop_lem (suc fuel) pre (x ∷ y ∷ ys) post h =
    let e = ending y ys in
    let short : length e.front < fuel =
      omega (arith, h, ap length e.whole, length-append e.front (e.last ∷ [])) in
    let turn =
      swap_turn fuel pre e.front post x e.last
        (swap_loop_lem fuel (pre ++ e.last ∷ []) e.front (x ∷ post) short) in
    subst
      (λ (l : List ℕ).
        swap_loop (suc fuel) (pre ++ ((x ∷ l) ++ post)) (length pre)
          (length pre + length (x ∷ l) - 1)
        ≡ some (pre ++ (flip (x ∷ l) ++ post)))
      (sym e.whole) turn
