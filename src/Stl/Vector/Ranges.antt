-- ===== src/Stl/Vector/Ranges.antt =====
-- include/stl/bits/vector.hh: a range that is inserted in a new vector.
use arabos.Prelude.{
  ℕ, suc, ◌+◌, ◌-◌, ◌%◌, ◌^◌, ◌<◌, ◌≡◌, refl, sym, ap, ◌∙◌, fun_ext, List, [], ◌∷◌, ◌++◌, arith,
  le→ltb_false, length, length-append, take-append, drop-append,
}
use mathlib.Core.List.{append_assoc}
use arabos.Stl.Vector.{Vector, ok, empty_vector, next, insert, insert_each, insert_range, place}
use arabos.Stl.Vector.Growth.{IsVector, Guaranteed, guarantee_capacity-Guaranteed}
use arabos.Stl.Vector.Refine.{Call, inserting, calls, on_list, all_on_list, calls_lem}

module _ {A : Type 0} where
  -- The calls that the loop makes.
  each_calls : ℕ → List A → List (Call A)
  each_calls dist [] = []
  each_calls dist (x ∷ xs) = inserting dist x ∷ each_calls (dist + 1) xs

  insert_each-calls :
      (v : Vector A) (dist : ℕ) (xs : List A) → insert_each v dist xs ≡ calls (each_calls dist xs) v
  unfolding insert_each each_calls
  insert_each-calls v dist [] = refl
  insert_each-calls v dist (x ∷ xs) =
      ap (next (insert v dist x)) (fun_ext (λ v'. insert_each-calls v' (dist + 1) xs))

  length-each_calls : (dist : ℕ) (xs : List A) → length (each_calls dist xs) ≡ length xs
  unfolding each_calls
  length-each_calls dist [] = refl
  length-each_calls dist (x ∷ xs) = ap suc (length-each_calls (dist + 1) xs)

  -- An insertion behind the last element but one goes before the last element.
  before_last :
      (pre : List A) (x y : A)
      → on_list (inserting (length pre + 1) y) (pre ++ x ∷ []) ≡ (pre ++ y ∷ []) ++ x ∷ []
  before_last pre x y =
      let l = length-append pre (x ∷ []) in
      let at : length pre + 1 - 1 ≡ length pre = omega arith in
      rw
        (
          le→ltb_false (length (pre ++ x ∷ [])) (length pre + 1) (omega (arith, l)),
          at,
          take-append (length pre) pre (x ∷ []) refl,
          drop-append (length pre) pre (x ∷ []) refl,
        )
        (sym (append_assoc pre (y ∷ []) (x ∷ [])))

  all_before_last :
      (pre : List A) (x : A) (ys : List A)
      → all_on_list (each_calls (length pre + 1) ys) (pre ++ x ∷ []) ≡ pre ++ (ys ++ x ∷ [])
  unfolding each_calls
  all_before_last pre x [] = refl
  all_before_last pre x (y ∷ ys) =
      let longer : length pre + 1 + 1 ≡ length (pre ++ y ∷ []) + 1 =
        omega (arith, length-append pre (y ∷ [])) in
      ap (all_on_list (each_calls (length pre + 1 + 1) ys)) (before_last pre x y)
      ∙ ap (λ d. all_on_list (each_calls d ys) ((pre ++ y ∷ []) ++ x ∷ [])) longer
      ∙ all_before_last (pre ++ y ∷ []) x ys
      ∙ append_assoc pre (y ∷ []) (ys ++ x ∷ [])

  -- `insert` of a range of one element or more, and fewer than 2^30, in a new vector neither panics nor
  -- stores past the array, and leaves the first element behind all others, which are in order.
  pub insert_range-empty :
      (x : A) (ys : List A)
      → length ys + 1 < 2 ^ 30
      → (v : Vector A) × (insert_range empty_vector 0 (x ∷ ys) ≡ ok v) × (v.elements ≡ ys ++ x ∷ [])
  unfolding insert_range empty_vector each_calls place next
  insert_range-empty x ys h =
      let n = length ys + 1 in
      let room : Guaranteed empty_vector ((0 + place (suc (length ys))) % 2 ^ 32) =
        guarantee_capacity-Guaranteed empty_vector ((0 + place (suc (length ys))) % 2 ^ 32)
          (omega arith) in
      let start = room.vector in
      let valid : IsVector start = record {
        some_room = omega (arith, room.no_less);
        in_array = omega (arith, ap length room.same);
      } in
      let cs = each_calls 0 (x ∷ ys) in
      let g =
        calls_lem cs start 0 n valid (omega (arith, ap length room.same))
          (omega (arith, length-each_calls 0 (x ∷ ys))) (omega arith) in
      let first : all_on_list cs [] ≡ ys ++ x ∷ [] = all_before_last [] x ys in
      (
        g.vector,
        ap (λ o. next o (λ v'. insert_each v' 0 (x ∷ ys))) room.done
            ∙ insert_each-calls start 0 (x ∷ ys)
            ∙ g.done,
        g.at.elements ∙ ap (all_on_list cs) room.same ∙ first,
      )
