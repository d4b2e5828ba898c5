-- ===== src/Stl/ReverseIterator/Walk.antt =====
-- include/stl/bits/reverse_iterator.hh: a loop back over a vector that does not change.
use arabos.Prelude.{
  ℕ, zero, suc, ◌+◌, ◌-◌, ◌*◌, ◌%◌, ◌^◌, ◌≤◌, ◌<◌, ◌≡◌, refl, sym, ap, ◌∙◌, false, Option, none,
  some, [], ◌∷◌, ◌++◌, arith, ◌==◌, if◌then◌else◌, ==_iff, ne→==_false, length, get_elem?,
}
use arabos.Stl.Vector.{Vector}
use arabos.Stl.Vector.Iterators.{iterator_at, backward, decrement, equal, begin_of, end_of}
use arabos.Stl.Vector.Iterators.Walk.{
  Seen, each, each_lem, array_at, array_next, array_at-elements, iterator, no_reports,
}
use arabos.Stl.ReverseIterator.{
  ReverseIterator, over, read_address, read_reports, reverse_increment, reverse_equal, rbegin_of,
  rend_of,
}
use mathlib.Core.List.{reverse, reverse-append}

module _ {A : Type 0} (latest size : ℕ) (memory : ℕ → A) where
  -- `for (; it != end; ++it)` with a read of `*it`, for at most `fuel` rounds.
  unfoldable pub each_back : ℕ → ReverseIterator → ReverseIterator → Option (Seen A)
  each_back zero it end = none
  each_back (suc fuel) it end =
      let moved = reverse_increment latest size it in
      let rest = each_back fuel moved.iterator end in
      if reverse_equal it end then some (record { elements = []; reports = [] }) else elim rest [
        | none ↦ none
        | some s ↦ some (record {
          elements = memory (read_address latest size it) ∷ s.elements;
          reports = read_reports latest size it ++ moved.reports ++ s.reports;
        })
      ]

  -- The last element of an array is the first of the reverse.
  array_at-last :
      (n a : ℕ)
      → array_at size memory a (suc n) ≡ array_at size memory a n ++ memory (a + size * n) ∷ []
  unfolding array_at
  array_at-last zero a = let e : a + size * 0 ≡ a = omega arith in rw e refl
  array_at-last (suc n) a =
      ap (λ xs. memory a ∷ xs)
        (array_at-last n (a + size)
          ∙ ap (λ b. array_at size memory (a + size) n ++ memory b ∷ [])
              (sym (array_next size memory a n)))

  reverse_array :
      (n a : ℕ)
      → reverse (array_at size memory a (suc n))
        ≡ memory (a + size * n) ∷ reverse (array_at size memory a n)
  reverse_array n a =
      ap reverse (array_at-last n a)
      ∙ reverse-append (array_at size memory a n) (memory (a + size * n) ∷ [])

  abbrev reversed : ℕ → ℕ → ℕ → ReverseIterator
  reversed b a e = record { current = iterator latest size memory b a e }

  backward_one :
      (b a e : ℕ)
      → a + size < 2 ^ 32
      → decrement latest size (iterator latest size memory b (a + size) e)
        ≡ iterator latest size memory b a e
  unfolding decrement backward
  backward_one b a e h =
      let before : (a + size + (2 ^ 32 - size * 1 % 2 ^ 32)) % 2 ^ 32 ≡ a = omega arith in
      rw before refl

  no_array : (b : ℕ) → reverse (array_at size memory b 0) ≡ []
  unfolding array_at
  no_array b = refl

  -- One step back, from the end of an element, with the read before it.
  record Back (b a e : ℕ) : Type 0 where
    pub moved :
        reverse_increment latest size (reversed b (a + size) e)
        ≡ record { iterator = reversed b a e; reports = [] }
    pub address : read_address latest size (reversed b (a + size) e) ≡ a
    pub reports : read_reports latest size (reversed b (a + size) e) ≡ []

  reversed-Back : (b a e : ℕ) → 0 < b → b ≤ a → a ≤ e → a + size < 2 ^ 32 → Back b a e
  unfolding reverse_increment read_address read_reports
  reversed-Back b a e p h k w =
      let before = backward_one b a e w in
      record {
        moved = rw (reverse_increment, before) refl;
        address = rw (read_address, before) refl;
        reports = rw (read_reports, before) (no_reports latest size memory b a e p h k);
      }

  each_back-array :
      (n fuel b e : ℕ)
      → 0 < size
      → 0 < b
      → b + size * n ≤ e
      → e < 2 ^ 32
      → n < fuel
      → each_back fuel (reversed b (b + size * n) e) (reversed b b e)
        ≡ some (record { elements = reverse (array_at size memory b n); reports = [] })
  unfolding each_back reverse_equal equal
  each_back-array n zero b e s p h w f = absurd (omega arith)
  each_back-array zero (suc fuel) b e s p h w f =
      let none_left : b + size * 0 ≡ b = omega arith in
      rw (none_left, (==_iff b b).1 refl, no_array b) refl
  each_back-array (suc n) (suc fuel) b e s p h w f =
      let a = b + size * n in
      let next : b + size * suc n ≡ a + size = omega arith in
      let differ : (a + size == b) ≡ false = ne→==_false (a + size) b (λ x. omega arith) in
      let ih = each_back-array n fuel b e s p (omega arith) w (omega arith) in
      let one = reversed-Back b a e p (omega arith) (omega arith) (omega arith) in
      rw (next, differ, one.moved, ih, next, one.moved, one.address, one.reports, reverse_array n b)
        refl

module _ {A : Type 0} where
  -- For a vector of elements of some size, whose array is not at null, ends below 4 GB and holds the
  -- elements: the loop from `begin()` to `end()` and the loop from `rbegin()` to `rend()` end, the first
  -- sees the elements in order, the second in the reverse order, and no iterator reports anything.
  pub both_ways :
      (v : Vector A) (size array : ℕ) (memory : ℕ → A)
      → 0 < size
      → 0 < array
      → array + size * length v.elements < 2 ^ 32
      → ((i : ℕ)
          → i < length v.elements
          → get_elem? v.elements i ≡ some (memory (array + size * i)))
      → (each v.version size memory
            (suc (length v.elements))
            (begin_of v size array).iterator
            (end_of v size array).iterator
          ≡ some (record { elements = v.elements; reports = [] }))
        × (each_back v.version size memory
              (suc (length v.elements))
              (rbegin_of v size array).iterator
              (rend_of v size array).iterator
            ≡ some (record { elements = reverse v.elements; reports = [] }))
  unfolding rbegin_of rend_of over begin_of end_of iterator_at
  both_ways v size array memory s p w h =
      let n = length v.elements in
      let inside : (array + size * n) % 2 ^ 32 ≡ array + size * n = omega arith in
      let loop =
        each_back-array v.version size memory n (suc n) array (array + size * n) s p (omega arith) w
          (omega arith) in
      (
        each_lem v size array memory s p w h,
        rw (inside, loop, array_at-elements size memory v.elements array h) refl,
      )
