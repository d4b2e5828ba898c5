-- ===== src/Stl/StaticVector/Ranges.antt =====
-- include/stl/bits/static_vector.hh, string.hh and iterator_funcs.hh: the calls that insert or erase
-- several elements, on the list of the elements.
use arabos.Prelude.{
  ℕ, zero, suc, ◌+◌, Option, none, some, List, [], ◌∷◌, ltb, ◌==◌, if◌then◌else◌, length,
}
use arabos.Stl.StaticVector.{insert}

module _ {A : Type 0} where
  -- The loop of `insert(pos, n, value)`.
  unfoldable pub insert_copies : ℕ → List A → ℕ → ℕ → A → List A
  insert_copies n xs pos zero x = xs
  insert_copies n xs pos (suc count) x = insert_copies n (insert n xs pos x) pos count x

  unfoldable pub insert_n : ℕ → List A → ℕ → ℕ → A → List A
  insert_n n xs pos count x = if ltb (length xs) pos then xs else insert_copies n xs pos count x

  -- The loop of `insert(pos, first, last)`: `insert(pos++, *first++)`.
  unfoldable pub insert_each : ℕ → List A → ℕ → List A → List A
  insert_each n xs pos [] = xs
  insert_each n xs pos (y ∷ ys) = insert_each n (insert n xs pos y) (pos + 1) ys

  unfoldable pub insert_range : ℕ → List A → ℕ → List A → List A
  insert_range n xs pos ys = if ltb (length xs) pos then xs else insert_each n xs pos ys

  -- That loop in `string`: `insert(pos, *first++)`.
  unfoldable pub string_insert_each : ℕ → List A → ℕ → List A → List A
  string_insert_each n xs pos [] = xs
  string_insert_each n xs pos (y ∷ ys) = string_insert_each n (insert n xs pos y) pos ys

  unfoldable pub string_insert_range : ℕ → List A → ℕ → List A → List A
  string_insert_range n xs pos ys =
      if ltb (length xs) pos then xs else string_insert_each n xs pos ys

-- `distance`, with a round of fuel for each `++first`; no result when the fuel runs out.
unfoldable pub distance_loop : ℕ → ℕ → ℕ → ℕ → Option ℕ
distance_loop zero first last dist = none
distance_loop (suc fuel) first last dist =
    let rest = distance_loop fuel (first + 1) last (dist + 1) in
    if first + 1 == last then some dist else rest

unfoldable pub distance : ℕ → ℕ → ℕ → Option ℕ
distance fuel first last = if first == last then some 0 else distance_loop fuel first last 0
