-- ===== src/Stl/Vector/Growth.antt =====
-- include/stl/bits/vector.hh: what `guarantee_capacity` guarantees, and what each operation that adds
-- elements does to them.
use arabos.Prelude.{
  ℕ, ◌+◌, ◌*◌, ◌/◌, ◌%◌, ◌^◌, ◌≤◌, ◌<◌, ◌≡◌, refl, ◌↔◌, ◌⊎◌, inl, inr, List, arith, dec_lt, ==_iff,
  le→leb, lt→leb_false, length,
}
use arabos.Stl.Vector.{Vector, Outcome, ok, grown, guarantee_capacity, next, stored}

grown_lem : (c : ℕ) → c < 2 ^ 30 → (grown c ≡ c * 3) × (grown c / 3 ≡ c)
unfolding grown
grown_lem c h = (omega arith, omega arith)

module _ {A : Type 0} where
  -- There is room for some element, and the elements are in the array.
  pub record IsVector (v : Vector A) : Type 0 where
    pub some_room : 0 < v.capacity
    pub in_array : length v.elements ≤ v.capacity

  -- A vector with the elements `xs`, and with a capacity that is no more than before or than `3 * most`.
  pub record Holds (xs : List A) (old most : ℕ) (o : Outcome A) : Type 0 where
    pub vector : Vector A
    pub done : o ≡ ok vector
    pub elements : vector.elements ≡ xs
    pub valid : IsVector vector
    pub bounded : (vector.capacity ≡ old) ⊎ (vector.capacity ≤ 3 * most)

  -- One more element fits after `guarantee_capacity`.
  pub one_more :
      (v : Vector A) (xs : List A)
      → IsVector v
      → length v.elements < 2 ^ 30
      → length xs ≡ length v.elements + 1
      → Holds xs v.capacity
          (length v.elements)
          (next (guarantee_capacity v ((length v.elements + 1) % 2 ^ 32)) (stored xs))
  unfolding guarantee_capacity next stored
  one_more v xs w small l =
      let e : (length v.elements + 1) % 2 ^ 32 ≡ length v.elements + 1 = omega arith in
      elim (dec_lt (length v.elements) v.capacity) [
        | yes room ↦
            rw
              (
                e,
                le→leb (length v.elements + 1) v.capacity (omega arith),
                le→leb (length xs) v.capacity (omega (arith, l)),
              )
              (record {
                vector = record v { elements = xs };
                done = refl;
                elements = refl;
                valid = record { some_room = w.some_room; in_array = omega (arith, l) };
                bounded = inl refl;
              })
        | no full ↦
            let g = grown_lem v.capacity (omega (arith, w.in_array)) in
            rw
              (
                e,
                lt→leb_false (length v.elements + 1) v.capacity (omega arith),
                (==_iff (grown v.capacity / 3) v.capacity).1 g.1,
                le→leb (length xs) (grown v.capacity)
                    (omega (arith, l, g.0, w.in_array, w.some_room)),
              )
              (record {
                vector = record {
                  elements = xs;
                  capacity = grown v.capacity;
                  version = v.version + 1;
                };
                done = refl;
                elements = refl;
                valid = record {
                  some_room = omega (arith, g.0, w.some_room);
                  in_array = omega (arith, l, g.0, w.in_array, w.some_room);
                };
                bounded = inr (omega (arith, g.0, w.in_array));
              })
      ]

  -- What `guarantee_capacity` leaves.
  pub record Guaranteed (v : Vector A) (minimum : ℕ) : Type 0 where
    pub vector : Vector A
    pub done : guarantee_capacity v minimum ≡ ok vector
    pub same : vector.elements ≡ v.elements
    pub no_less : v.capacity ≤ vector.capacity
    pub enough : (minimum ≤ vector.capacity) ↔ (minimum ≤ 3 * v.capacity)

  -- With a capacity below 2^30, `guarantee_capacity` does not panic and keeps the elements, and the
  -- capacity after it is the minimum or more exactly when the minimum is at most three times the
  -- capacity before.
  pub guarantee_capacity-Guaranteed :
      (v : Vector A) (minimum : ℕ) → v.capacity < 2 ^ 30 → Guaranteed v minimum
  unfolding guarantee_capacity
  guarantee_capacity-Guaranteed v minimum h = elim (dec_lt v.capacity minimum) [
    | no room ↦ record {
      vector = v;
      done = rw (le→leb minimum v.capacity (omega arith)) refl;
      same = refl;
      no_less = omega arith;
      enough = (λ e. omega (arith, e), λ e. omega arith);
    }
    | yes small ↦
        let g = grown_lem v.capacity h in
        record {
          vector = record v { capacity = grown v.capacity; version = v.version + 1 };
          done =
              rw
                (
                  lt→leb_false minimum v.capacity small,
                  (==_iff (grown v.capacity / 3) v.capacity).1 g.1,
                )
                refl;
          same = refl;
          no_less = omega (arith, g.0);
          enough = (λ e. omega (arith, e, g.0), λ e. omega (arith, e, g.0));
        }
  ]
