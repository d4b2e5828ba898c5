-- ===== src/Stl/StaticVector/Inserts.antt =====
-- include/stl/bits/static_vector.hh and string.hh: what `insert` of a range leaves.
use arabos.Prelude.{
  ℕ, zero, suc, ◌+◌, ◌-◌, ◌≤◌, ◌<◌, ◌≡◌, refl, sym, ap, ◌∙◌, List, [], ◌∷◌, ◌++◌, arith, dec_lt,
  ltb, if◌then◌else◌, lt→ltb, le→leb, le→ltb_false, length, take, drop, take-append-drop,
}
use mathlib.Core.List.{reverse, reverse-cons, append_assoc}
use arabos.Stl.StaticVector.{insert_at, insert}
use arabos.Stl.StaticVector.Ranges.{
  insert_each, insert_range, string_insert_each, string_insert_range,
}

module _ {A : Type 0} where
  -- An element put in at its place.
  record Inserted (xs xs' : List A) (pos : ℕ) (y : A) : Type 0 where
    size : length xs' ≡ suc (length xs)
    upto : take pos xs' ≡ take pos xs
    through : take (pos + 1) xs' ≡ take pos xs ++ y ∷ []
    from : drop pos xs' ≡ y ∷ drop pos xs
    behind : drop (pos + 1) xs' ≡ drop pos xs

  insert_at-Inserted :
      (xs : List A) (pos : ℕ) (y : A) → pos ≤ length xs → Inserted xs (insert_at xs pos y) pos y
  unfolding insert_at
  insert_at-Inserted xs zero y h = record {
    size = refl;
    upto = refl;
    through = refl;
    from = refl;
    behind = refl;
  }
  insert_at-Inserted [] (suc pos) y h = absurd (omega arith)
  insert_at-Inserted (x ∷ xs) (suc pos) y h =
      let ih = insert_at-Inserted xs pos y (omega arith) in
      let up : suc pos + 1 ≡ suc (pos + 1) = omega arith in
      record {
        size = ap suc ih.size;
        upto = ap (λ l. x ∷ l) ih.upto;
        through = rw up (ap (λ l. x ∷ l) ih.through);
        from = ih.from;
        behind = rw up ih.behind;
      }

  insert-full : (n : ℕ) (xs : List A) (pos : ℕ) (y : A) → n ≤ length xs → insert n xs pos y ≡ xs
  unfolding insert
  insert-full n xs pos y h = ground arith

  insert-room :
      (n : ℕ) (xs : List A) (pos : ℕ) (y : A)
      → pos ≤ length xs
      → length xs < n
      → insert n xs pos y ≡ insert_at xs pos y
  unfolding insert
  insert-room n xs pos y h l =
      rw (le→ltb_false (length xs) pos h, le→leb (length xs + 1) n (omega arith)) refl

  take-nil : (m : ℕ) → take {A = A} m [] ≡ []
  take-nil zero = refl
  take-nil (suc m) = refl

  insert_each-full :
      (n : ℕ) (xs : List A) (pos : ℕ) (ys : List A) → n ≤ length xs → insert_each n xs pos ys ≡ xs
  unfolding insert_each
  insert_each-full n xs pos [] h = refl
  insert_each-full n xs pos (y ∷ ys) h =
      rw (insert-full n xs pos y h) (insert_each-full n xs (pos + 1) ys h)

  insert_each_lem :
      (n : ℕ) (xs : List A) (pos : ℕ) (ys : List A)
      → pos ≤ length xs
      → insert_each n xs pos ys ≡ take pos xs ++ (take (n - length xs) ys ++ drop pos xs)
  unfolding insert_each
  insert_each_lem n xs pos [] h = rw (take-nil (n - length xs)) (sym (take-append-drop pos xs))
  insert_each_lem n xs pos (y ∷ ys) h = elim (dec_lt (length xs) n) [
    | no full ↦
        let none_left : n - length xs ≡ 0 = omega arith in
        rw (insert-full n xs pos y (omega arith), none_left)
          (insert_each-full n xs (pos + 1) ys (omega arith) ∙ sym (take-append-drop pos xs))
    | yes room ↦
        let i = insert_at-Inserted xs pos y h in
        let left : n - length xs ≡ suc (n - suc (length xs)) = omega arith in
        rw (insert-room n xs pos y h room, left)
          (insert_each_lem n (insert_at xs pos y) (pos + 1) ys (omega (arith, i.size))
            ∙ rw (i.size, i.through, i.behind)
                (append_assoc (take pos xs) (y ∷ [])
                  (take (n - suc (length xs)) ys ++ drop pos xs)))
  ]

  -- `insert` of a range in a static vector puts the elements in at the place, in their order, as many
  -- as there is room for; at a place behind the end it does nothing.
  insert_range_lem :
      (n : ℕ) (xs : List A) (pos : ℕ) (ys : List A)
      → insert_range n xs pos ys ≡ (
          if ltb (length xs) pos
          then xs
          else take pos xs ++ (take (n - length xs) ys ++ drop pos xs))
  unfolding insert_range
  insert_range_lem n xs pos ys = elim (dec_lt (length xs) pos) [
    | yes out ↦ rw (lt→ltb (length xs) pos out) refl
    | no inside ↦
        rw (le→ltb_false (length xs) pos (omega arith)) (insert_each_lem n xs pos ys (omega arith))
  ]

  string_insert_each-full :
      (n : ℕ) (xs : List A) (pos : ℕ) (ys : List A)
      → n ≤ length xs
      → string_insert_each n xs pos ys ≡ xs
  unfolding string_insert_each
  string_insert_each-full n xs pos [] h = refl
  string_insert_each-full n xs pos (y ∷ ys) h =
      rw (insert-full n xs pos y h) (string_insert_each-full n xs pos ys h)

  string_insert_each_lem :
      (n : ℕ) (xs : List A) (pos : ℕ) (ys : List A)
      → pos ≤ length xs
      → string_insert_each n xs pos ys
        ≡ take pos xs ++ (reverse (take (n - length xs) ys) ++ drop pos xs)
  unfolding string_insert_each
  string_insert_each_lem n xs pos [] h =
      rw (take-nil (n - length xs)) (sym (take-append-drop pos xs))
  string_insert_each_lem n xs pos (y ∷ ys) h = elim (dec_lt (length xs) n) [
    | no full ↦
        let none_left : n - length xs ≡ 0 = omega arith in
        rw (insert-full n xs pos y (omega arith), none_left)
          (string_insert_each-full n xs pos ys (omega arith) ∙ sym (take-append-drop pos xs))
    | yes room ↦
        let i = insert_at-Inserted xs pos y h in
        let left : n - length xs ≡ suc (n - suc (length xs)) = omega arith in
        let some_of = take (n - suc (length xs)) ys in
        rw (insert-room n xs pos y h room, left)
          (string_insert_each_lem n (insert_at xs pos y) pos ys (omega (arith, i.size))
            ∙ rw (i.size, i.upto, i.from, reverse-cons y some_of)
                (ap (λ l. take pos xs ++ l)
                  (sym (append_assoc (reverse some_of) (y ∷ []) (drop pos xs)))))
  ]

  -- `insert` of a range in a string puts the characters in in the reverse order.
  pub string_insert_range_lem :
      (n : ℕ) (xs : List A) (pos : ℕ) (ys : List A)
      → string_insert_range n xs pos ys ≡ (
          if ltb (length xs) pos
          then xs
          else take pos xs ++ (reverse (take (n - length xs) ys) ++ drop pos xs))
  unfolding string_insert_range
  string_insert_range_lem n xs pos ys = elim (dec_lt (length xs) pos) [
    | yes out ↦ rw (lt→ltb (length xs) pos out) refl
    | no inside ↦
        rw (le→ltb_false (length xs) pos (omega arith))
          (string_insert_each_lem n xs pos ys (omega arith))
  ]
