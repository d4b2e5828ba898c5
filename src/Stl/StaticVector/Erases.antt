-- ===== src/Stl/StaticVector/Erases.antt =====
-- include/stl/bits/static_vector.hh and iterator_funcs.hh: what `erase` of a range leaves, and what
-- `distance` counts.
use arabos.Prelude.{
  ℕ, zero, suc, ◌+◌, ◌-◌, ◌≤◌, ◌<◌, ◌≡◌, refl, ap, ◌∙◌, some, List, [], ◌∷◌, ◌++◌, arith,
  ℕ_discrete, ==_iff, le→leb, lt→leb_false, ne→==_false, length, length-append,
}
use mathlib.Core.List.{append_assoc}
use arabos.Stl.StaticVector.{remove_at, erase, erase_steps, erase_range}
use arabos.Stl.StaticVector.Ranges.{distance_loop, distance}

module _ {A : Type 0} where
  -- What the rounds of `erase(first, last)` leave from `first` on: every second element of the first `2 * n`.
  abbrev pub every_second : ℕ → List A → List A
  every_second zero xs = xs
  every_second (suc n) [] = []
  every_second (suc n) (x ∷ []) = []
  every_second (suc n) (x ∷ y ∷ xs) = y ∷ every_second n xs

  pub remove_at-append :
      (pre : List A) (x : A) (xs : List A) → remove_at (pre ++ x ∷ xs) (length pre) ≡ pre ++ xs
  unfolding remove_at
  remove_at-append [] x xs = refl
  remove_at-append (y ∷ pre) x xs = ap (λ l. y ∷ l) (remove_at-append pre x xs)

  pub erase-append :
      (pre : List A) (x : A) (xs : List A) → erase (pre ++ x ∷ xs) (length pre) ≡ pre ++ xs
  unfolding erase
  erase-append pre x xs =
      let size = length-append pre (x ∷ xs) in
      rw (lt→leb_false (length (pre ++ x ∷ xs)) (length pre) (omega (arith, size)))
        (remove_at-append pre x xs)

  erase_steps-behind : (xs : List A) (first n : ℕ) → length xs ≤ first → erase_steps xs first n ≡ xs
  unfolding erase_steps erase
  erase_steps-behind xs first zero h = refl
  erase_steps-behind xs first (suc n) h =
      rw (le→leb (length xs) first h) (erase_steps-behind xs (first + 1) n (omega arith))

  erase_steps-append :
      (pre xs : List A) (n : ℕ) → erase_steps (pre ++ xs) (length pre) n ≡ pre ++ every_second n xs
  unfolding erase_steps
  erase_steps-append pre xs zero = refl
  erase_steps-append pre [] (suc n) =
      erase_steps-behind (pre ++ []) (length pre) (suc n) (omega (arith, length-append pre []))
  erase_steps-append pre (x ∷ []) (suc n) =
      rw (erase-append pre x [])
        (erase_steps-behind (pre ++ []) (length pre + 1) n (omega (arith, length-append pre [])))
  erase_steps-append pre (x ∷ y ∷ xs) (suc n) =
      let longer : length pre + 1 ≡ length (pre ++ y ∷ []) =
        omega (arith, length-append pre (y ∷ [])) in
      rw (erase-append pre x (y ∷ xs), ← append_assoc pre (y ∷ []) xs, longer)
        (erase_steps-append (pre ++ y ∷ []) xs n ∙ append_assoc pre (y ∷ []) (every_second n xs))

  -- `erase` of a range of n elements takes out every second one of the 2 n from its first on, so it
  -- leaves half of the range, and takes as many of what follows it.
  pub erase_range_lem :
      (pre xs : List A) (n : ℕ)
      → erase_range (pre ++ xs) (length pre) (length pre + n) ≡ pre ++ every_second n xs
  unfolding erase_range
  erase_range_lem pre xs n =
      let steps : length pre + n - length pre ≡ n = omega arith in
      rw steps (erase_steps-append pre xs n)

distance_loop_lem :
    (fuel first last dist : ℕ)
    → first < last
    → last - first ≤ fuel
    → distance_loop fuel first last dist ≡ some (dist + (last - first - 1))
unfolding distance_loop
distance_loop_lem zero first last dist h f = absurd (omega arith)
distance_loop_lem (suc fuel) first last dist h f = elim (ℕ_discrete (first + 1) last) [
  | yes e ↦ rw ((==_iff (first + 1) last).1 e) (ap some (omega (arith, e)))
  | no ne ↦ rw (ne→==_false (first + 1) last ne) (
      distance_loop_lem fuel (first + 1) last (dist + 1) (omega (arith, ne)) (omega arith)
      ∙ ap some (omega (arith, ne)))
]

-- With a round of fuel for each place between them, `distance` ends, and counts one place too few,
-- unless the iterators are the same.
pub distance_lem :
    (fuel first last : ℕ)
    → first ≤ last
    → last - first ≤ fuel
    → distance fuel first last ≡ some (last - first - 1)
unfolding distance
distance_lem fuel first last h f = elim (ℕ_discrete first last) [
  | yes e ↦ rw ((==_iff first last).1 e) (ap some (omega (arith, e)))
  | no ne ↦
      rw (ne→==_false first last ne)
        (distance_loop_lem fuel first last 0 (omega (arith, ne)) f ∙ ap some (omega arith))
]
