-- ===== src/Stl/Cells.antt =====
-- include/stl/bits/static_vector.hh and string.hh: the array of `n` cells under a vector or a string of
-- fixed capacity, and the loops of move.hh and move_backward.hh. An iterator is its distance from
-- `m_array`, and a call answers the iterator that it returns, too.
use arabos.Prelude.{
  ℕ, zero, suc, ◌+◌, ◌-◌, ◌*◌, ◌/◌, ◌%◌, ◌^◌, ◌≤◌, ◌<◌, min, bit_and, bit_or, bit_xor, ◌≡◌, refl,
  sym, ap, ap₂, ◌∙◌, fun_ext, ◌≢◌, ◌↔◌, ◌⊎◌, inl, inr, Bool, true, false, not, ◌&&◌, ◌||◌, Option,
  none, some, List, [], ◌∷◌, ◌++◌, map, arith, dec_lt, ℕ_discrete, ltb, leb, ◌==◌, if◌then◌else◌,
  Bool-cases, Option-cases, ==_iff, ltb→lt, lt→ltb, leb→le, le→leb, lt→leb_false, le→ltb_false,
  ne→==_false, length, get_elem?, set, get_or, get_or-append, take, drop, replicate, length-append,
  length-set, get_elem?-set_self, get_elem?-set_ne, length-take, length-drop, take-append-drop,
  take-prefix, take-all, take-append, drop-append,
}
pub mod Elements
pub mod Moves
pub mod Refine

abbrev pub stored_at {ℓ} : {A : Type ℓ} → (ℕ → A) → ℕ → A → ℕ → A
stored_at f at v i = if i == at then v else f i

pub record Cells (A : Type 0) : Type 0 where
  pub m_array : ℕ → A
  pub m_size : ℕ

unfoldable pub guarantee_capacity : ℕ → ℕ → Bool
guarantee_capacity n minimum = leb minimum n

module _ {A : Type 0} where
  -- `move(first, last, d_first)`, where `n` elements are left.
  unfoldable pub move_range : (ℕ → A) → ℕ → ℕ → ℕ → ℕ → A
  move_range cells zero first d_first = cells
  move_range cells (suc n) first d_first =
      move_range (stored_at cells d_first (cells first)) n (first + 1) (d_first + 1)

  -- `move_backward(first, last, d_last)`, where `n` elements are left.
  unfoldable pub move_backward : (ℕ → A) → ℕ → ℕ → ℕ → ℕ → A
  move_backward cells zero last d_last = cells
  move_backward cells (suc n) last d_last =
      move_backward (stored_at cells (d_last - 1) (cells (last - 1))) n (last - 1) (d_last - 1)

  unfoldable pub push_back : ℕ → Cells A → A → Cells A
  push_back n v x =
      if guarantee_capacity n ((v.m_size + 1) % 2 ^ 32)
      then record { m_array = stored_at v.m_array v.m_size x; m_size = (v.m_size + 1) % 2 ^ 32 }
      else v

  -- `z` is what the default constructor makes.
  unfoldable pub insert : A → ℕ → Cells A → ℕ → A → Cells A × ℕ
  insert z n v pos x =
      if ltb v.m_size pos || not (guarantee_capacity n ((v.m_size + 1) % 2 ^ 32))
      then (v, v.m_size)
      else (
        record {
          m_array =
              stored_at
                (move_backward (stored_at v.m_array v.m_size z) (v.m_size - pos) v.m_size
                  (v.m_size + 1))
                pos x;
          m_size = (v.m_size + 1) % 2 ^ 32;
        },
        pos,
      )

  -- The iterator is the end's if the last element was erased.
  unfoldable pub erase : Cells A → ℕ → Cells A × ℕ
  erase v it = if leb v.m_size it then (v, v.m_size) else (
    record {
      m_array = move_range v.m_array (v.m_size - (it + 1)) (it + 1) it;
      m_size = v.m_size - 1;
    },
    min it (v.m_size - 1),
  )

  -- The iterator of `string::erase` is made before the elements move.
  unfoldable pub string_erase : Cells A → ℕ → Cells A × ℕ
  string_erase v it = if leb v.m_size it then (v, v.m_size) else (
    record {
      m_array = move_range v.m_array (v.m_size - (it + 1)) (it + 1) it;
      m_size = v.m_size - 1;
    },
    it + 1,
  )

  unfoldable pub clear : Cells A → Cells A
  clear v = record v { m_size = 0 }

  -- The elements from a place on.
  abbrev pub elements_from : (ℕ → A) → ℕ → ℕ → List A
  elements_from cells from zero = []
  elements_from cells from (suc n) = cells from ∷ elements_from cells (from + 1) n

  abbrev pub elements : Cells A → List A
  elements v = elements_from v.m_array 0 v.m_size
