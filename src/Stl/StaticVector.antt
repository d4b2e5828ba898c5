-- ===== src/Stl/StaticVector.antt =====
-- include/stl/bits/static_vector.hh: a vector in an array of `n` elements. The list holds the
-- elements before `m_size`, and an iterator is its distance from `m_array`.
use arabos.Prelude.{
  ℕ, zero, suc, ◌+◌, ◌-◌, Option, none, some, List, [], ◌∷◌, ◌++◌, ltb, leb, ◌==◌, if◌then◌else◌,
  length,
}
pub mod Ranges
pub mod Inserts
pub mod Erases

module _ {ℓ} {A : Type ℓ} where
  -- An element that does not fit is dropped, after a message.
  unfoldable pub push_back : ℕ → List A → A → List A
  push_back n xs v = if leb (length xs + 1) n then xs ++ v ∷ [] else xs

  -- The `move` of what follows the element over it.
  unfoldable pub remove_at : List A → ℕ → List A
  remove_at [] i = []
  remove_at (x ∷ xs) zero = xs
  remove_at (x ∷ xs) (suc i) = x ∷ remove_at xs i

  -- `erase(it)`: past the end, a message and no change.
  unfoldable pub erase : List A → ℕ → List A
  unfolding remove_at
  erase xs it = if leb (length xs) it then xs else remove_at xs it

  -- The loop of `erase(first, last)`, with `n` steps from `first` to `last`.
  unfoldable pub erase_steps : List A → ℕ → ℕ → List A
  erase_steps xs first zero = xs
  erase_steps xs first (suc n) = erase_steps (erase xs first) (first + 1) n

  unfoldable pub erase_range : List A → ℕ → ℕ → List A
  unfolding erase_steps
  erase_range xs first last = erase_steps xs first (last - first)

  unfoldable pub insert_at : List A → ℕ → A → List A
  insert_at xs zero v = v ∷ xs
  insert_at [] (suc i) v = v ∷ []
  insert_at (x ∷ xs) (suc i) v = x ∷ insert_at xs i v

  -- `insert(pos, value)`: no change out of range or without room.
  unfoldable pub insert : ℕ → List A → ℕ → A → List A
  unfolding insert_at
  insert n xs pos v =
      if ltb (length xs) pos then xs else if leb (length xs + 1) n then insert_at xs pos v else xs

  unfoldable pub back : List A → Option A
  back [] = none
  back (x ∷ []) = some x
  back (x ∷ y ∷ xs) = back (y ∷ xs)

  unfoldable pub front : List A → Option A
  front [] = none
  front (x ∷ xs) = some x

-- `aos::find` on numbers: the distance of the first equal element, or of the end.
unfoldable pub find : List ℕ → ℕ → ℕ
find [] v = 0
find (x ∷ xs) v = if x == v then 0 else suc (find xs v)
