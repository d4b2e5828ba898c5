-- ===== src/Stl/Vector/Iterators/Walk.antt =====
-- include/stl/bits/vector.hh: a loop over a vector that does not change.
use arabos.Prelude.{
  ℕ, zero, suc, ◌+◌, ◌*◌, ◌%◌, ◌^◌, ◌≤◌, ◌<◌, ◌≡◌, refl, sym, ap, ap₂, ◌∙◌, true, false, Option,
  none, some, List, [], ◌∷◌, ◌++◌, arith, ◌==◌, if◌then◌else◌, ==_iff, le→ltb_false, ne→==_false,
  length, get_elem?,
}
use arabos.Stl.Vector.{Vector}
use arabos.Stl.Vector.Iterators.{
  Iterator, Report, note, check_bounds, iterator_at, checked, forward, increment, equal, begin_of,
  end_of,
}

-- The elements that a loop saw, and all that its iterator reported.
pub record Seen (A : Type 0) : Type 0 where
  pub elements : List A
  pub reports : List Report

module _ {A : Type 0} (size : ℕ) (memory : ℕ → A) where
  -- The elements of an array of `n` at an address.
  unfoldable pub array_at : ℕ → ℕ → List A
  array_at a zero = []
  array_at a (suc n) = memory a ∷ array_at (a + size) n

  pub array_next : (a n : ℕ) → a + size * suc n ≡ (a + size) + size * n
  array_next a n = omega arith

module _ {A : Type 0} (latest size : ℕ) (memory : ℕ → A) where
  -- `for (; it != end; ++it)` with a read of `*it`, for at most `fuel` rounds.
  unfoldable pub each : ℕ → Iterator → Iterator → Option (Seen A)
  each zero it end = none
  each (suc fuel) it end =
      let moved = increment latest size it in
      let rest = each fuel moved.iterator end in
      if equal it end then some (record { elements = []; reports = [] }) else elim rest [
        | none ↦ none
        | some s ↦ some (record {
          elements = memory it.current ∷ s.elements;
          reports = check_bounds latest it ++ moved.reports ++ s.reports;
        })
      ]

  abbrev pub iterator : ℕ → ℕ → ℕ → Iterator
  iterator b a e = record { begin = b; current = a; end = e; version = latest; tracked = true }

  pub no_reports : (b a e : ℕ) → 0 < b → b ≤ a → a ≤ e → check_bounds latest (iterator b a e) ≡ []
  unfolding check_bounds note
  no_reports b a e p h k =
      rw
        (
          (==_iff latest latest).1 refl,
          ne→==_false a 0 (λ q. omega (arith, q)),
          le→ltb_false a b h,
          le→ltb_false e a k,
        )
        refl

  forward_one :
      (b a e : ℕ) → a + size < 2 ^ 32 → forward size (iterator b a e) 1 ≡ iterator b (a + size) e
  unfolding forward
  forward_one b a e h =
      let inside : (a + size * 1) % 2 ^ 32 ≡ a + size = omega arith in rw inside refl

  each-array :
      (n fuel b a e : ℕ)
      → 0 < size
      → 0 < b
      → b ≤ a
      → e ≡ a + size * n
      → e < 2 ^ 32
      → n < fuel
      → each fuel (iterator b a e) (iterator b e e)
        ≡ some (record { elements = array_at size memory a n; reports = [] })
  unfolding each equal array_at increment checked
  each-array n zero b a e s p h q w f = absurd (omega arith)
  each-array zero (suc fuel) b a e s p h q w f =
      let same : a ≡ e = omega arith in rw ((==_iff a e).1 same) refl
  each-array (suc n) (suc fuel) b a e s p h q w f =
      let one_less : e ≡ (a + size) + size * n = q ∙ array_next size memory a n in
      let differ : (a == e) ≡ false = ne→==_false a e (λ x. omega arith) in
      let ih = each-array n fuel b (a + size) e s p (omega arith) one_less w (omega arith) in
      let to_next = forward_one b a e (omega arith) in
      let here = no_reports b a e p h (omega arith) in
      let there = no_reports b (a + size) e p (omega arith) (omega arith) in
      rw (differ, to_next, ih, to_next, here, there) refl

module _ {A : Type 0} where
  pub array_at-elements :
      (size : ℕ) (memory : ℕ → A) (xs : List A) (a : ℕ)
      → ((i : ℕ) → i < length xs → get_elem? xs i ≡ some (memory (a + size * i)))
      → array_at size memory a (length xs) ≡ xs
  unfolding array_at
  array_at-elements size memory [] a h = refl
  array_at-elements size memory (x ∷ xs) a h =
      let first : x ≡ memory (a + size * 0) = cc (h 0 (omega arith)) in
      let at_a : a + size * 0 ≡ a = omega arith in
      let rest =
        array_at-elements size memory xs (a + size) (λ i k.
          h (suc i) (omega arith) ∙ ap (λ b. some (memory b)) (array_next size memory a i)) in
      ap₂ (λ y ys. y ∷ ys) (sym (first ∙ ap memory at_a)) rest

  -- For a vector of elements of some size, whose array is not at null, ends below 4 GB and holds the
  -- elements: the loop from `begin()` to `end()` ends, sees the elements, in order, and no iterator
  -- reports anything.
  pub each_lem :
      (v : Vector A) (size array : ℕ) (memory : ℕ → A)
      → 0 < size
      → 0 < array
      → array + size * length v.elements < 2 ^ 32
      → ((i : ℕ)
          → i < length v.elements
          → get_elem? v.elements i ≡ some (memory (array + size * i)))
      → each v.version size memory
          (suc (length v.elements))
          (begin_of v size array).iterator
          (end_of v size array).iterator
        ≡ some (record { elements = v.elements; reports = [] })
  unfolding begin_of end_of iterator_at
  each_lem v size array memory s p w h =
      let inside : (array + size * length v.elements) % 2 ^ 32 ≡ array + size * length v.elements =
        omega arith in
      let n = length v.elements in
      let loop =
        each-array v.version size memory n (suc n) array array (array + size * n) s p (omega arith)
          refl w (omega arith) in
      rw (inside, loop, array_at-elements size memory v.elements array h) refl
