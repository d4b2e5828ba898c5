-- ===== src/Stl/Vector.antt =====
-- include/stl/bits/vector.hh: a vector in an array that grows. The list holds the elements before
-- `m_size`, an iterator is its distance from the array, and sizes are 32-bit words.
use arabos.Prelude.{
  ℕ, zero, suc, ◌+◌, ◌-◌, ◌*◌, ◌/◌, ◌%◌, ◌^◌, ◌≤◌, ◌<◌, min, bit_and, bit_or, bit_xor, ◌≡◌, refl,
  sym, ap, ap₂, ◌∙◌, fun_ext, ◌≢◌, ◌↔◌, ◌⊎◌, inl, inr, Bool, true, false, not, ◌&&◌, ◌||◌, Option,
  none, some, List, [], ◌∷◌, ◌++◌, map, arith, dec_lt, ℕ_discrete, ltb, leb, ◌==◌, if◌then◌else◌,
  Bool-cases, Option-cases, ==_iff, ltb→lt, lt→ltb, leb→le, le→leb, lt→leb_false, le→ltb_false,
  ne→==_false, length, get_elem?, set, get_or, get_or-append, take, drop, replicate, length-append,
  length-set, get_elem?-set_self, get_elem?-set_ne, length-take, length-drop, take-append-drop,
  take-prefix, take-all, take-append, drop-append,
}
use arabos.Stl.StaticVector.{remove_at, insert_at}
pub mod Growth
pub mod Refine
pub mod Ranges
pub mod Iterators

-- Three times the capacity.
unfoldable pub grown : ℕ → ℕ
grown capacity = capacity * 3 % 2 ^ 32

-- `distance(cbegin(), pos)`, which is one less than the place, but for the begin.
unfoldable pub place : ℕ → ℕ
place pos = pos - 1

module _ (A : Type 0) where
  pub record Vector : Type 0 where
    pub elements : List A
    pub capacity : ℕ
    pub version : ℕ

  -- What an operation comes to: `overrun` is a store past the end of the array.
  pub data Outcome : Type 0 where
    ok : Vector → Outcome
    panicked : Outcome
    overrun : Outcome

module _ {A : Type 0} where
  -- `explicit vector()`
  unfoldable pub empty_vector : Vector A
  empty_vector = record { elements = []; capacity = 8; version = 1 }

  unfoldable pub guarantee_capacity : Vector A → ℕ → Outcome A
  guarantee_capacity v minimum =
      if leb minimum v.capacity
      then ok v
      else if grown v.capacity / 3 == v.capacity
      then ok (record v { capacity = grown v.capacity; version = v.version + 1 })
      else panicked

  -- A step that may run after the one before it.
  unfoldable pub next : Outcome A → (Vector A → Outcome A) → Outcome A
  next (ok v) f = f v
  next panicked f = panicked
  next overrun f = overrun

  -- The elements, one of which is new, and the size one more: the last cell is in the array or not.
  unfoldable pub stored : List A → Vector A → Outcome A
  stored xs v = if leb (length xs) v.capacity then ok (record v { elements = xs }) else overrun

  unfoldable pub push_back : Vector A → A → Outcome A
  push_back v x =
      next (guarantee_capacity v ((length v.elements + 1) % 2 ^ 32)) (stored (v.elements ++ x ∷ []))

  -- `insert(pos, value)`: `move_backward`, then the value.
  unfoldable pub insert : Vector A → ℕ → A → Outcome A
  insert v pos x =
      if ltb (length v.elements) pos
      then ok v
      else next (guarantee_capacity v ((length v.elements + 1) % 2 ^ 32))
          (stored (insert_at v.elements (place pos) x))

  -- The loop of `insert(pos, n, value)`.
  unfoldable pub insert_copies : Vector A → ℕ → ℕ → A → Outcome A
  insert_copies v dist zero x = ok v
  insert_copies v dist (suc n) x = next (insert v dist x) (λ v'. insert_copies v' dist n x)

  unfoldable pub insert_n : Vector A → ℕ → ℕ → A → Outcome A
  insert_n v pos n x =
      if ltb (length v.elements) pos
      then ok v
      else next (guarantee_capacity v ((length v.elements + n) % 2 ^ 32))
          (λ v'. insert_copies v' (place pos) n x)

  -- The loop of `insert(pos, first, last)`, with `dist` elements before the place of the first.
  unfoldable pub insert_each : Vector A → ℕ → List A → Outcome A
  insert_each v dist [] = ok v
  insert_each v dist (x ∷ xs) = next (insert v dist x) (λ v'. insert_each v' (dist + 1) xs)

  unfoldable pub insert_range : Vector A → ℕ → List A → Outcome A
  insert_range v pos xs =
      if ltb (length v.elements) pos
      then ok v
      else next (guarantee_capacity v ((length v.elements + place (length xs)) % 2 ^ 32))
          (λ v'. insert_each v' (place pos) xs)

  -- `erase(it)`: past the end, a message and no change.
  unfoldable pub erase : Vector A → ℕ → Vector A
  erase v it =
      if leb (length v.elements) it
      then v
      else record v { elements = remove_at v.elements it; version = v.version + 1 }

  unfoldable pub clear : Vector A → Vector A
  clear v = record v { elements = [] }
