-- ===== src/Stl/ReverseIterator.antt =====
-- include/stl/bits/reverse_iterator.hh: the iterators that go back, over those of a vector.
use arabos.Prelude.{
  ℕ, zero, suc, ◌+◌, ◌-◌, ◌*◌, ◌/◌, ◌%◌, ◌^◌, ◌≤◌, ◌<◌, min, bit_and, bit_or, bit_xor, ◌≡◌, refl,
  sym, ap, ap₂, ◌∙◌, fun_ext, ◌≢◌, ◌↔◌, ◌⊎◌, inl, inr, Bool, true, false, not, ◌&&◌, ◌||◌, Option,
  none, some, List, [], ◌∷◌, ◌++◌, map, arith, dec_lt, ℕ_discrete, ltb, leb, ◌==◌, if◌then◌else◌,
  Bool-cases, Option-cases, ==_iff, ltb→lt, lt→ltb, leb→le, le→leb, lt→leb_false, le→ltb_false,
  ne→==_false, length, get_elem?, set, get_or, get_or-append, take, drop, replicate, length-append,
  length-set, get_elem?-set_self, get_elem?-set_ne, length-take, length-drop, take-append-drop,
  take-prefix, take-all, take-append, drop-append,
}
use arabos.Stl.Vector.{Vector}
use arabos.Stl.Vector.Iterators.{
  Iterator, Report, Moved, check_bounds, increment, decrement, plus, minus, plus_assign,
  minus_assign, equal, less, begin_of, end_of,
}
pub mod Walk

pub record ReverseIterator : Type 0 where
  pub current : Iterator

-- The iterator that an operation leaves or returns, and what the vector's iterator reports.
pub record Turned : Type 0 where
  pub iterator : ReverseIterator
  pub reports : List Report

unfoldable pub over : Moved → Turned
over m = record { iterator = record { current = m.iterator }; reports = m.reports }

module _ (latest size : ℕ) where
  -- `*it`: the address that is read, and the reports of `*--tmp`.
  unfoldable pub read_address : ReverseIterator → ℕ
  read_address it = (decrement latest size it.current).current

  unfoldable pub read_reports : ReverseIterator → List Report
  read_reports it = check_bounds latest (decrement latest size it.current)

  -- `++it`
  unfoldable pub reverse_increment : ReverseIterator → Turned
  reverse_increment it = record {
    iterator = record { current = decrement latest size it.current };
    reports = [];
  }

  -- `--it`
  unfoldable pub reverse_decrement : ReverseIterator → Turned
  reverse_decrement it = over (increment latest size it.current)

  unfoldable pub reverse_plus : ReverseIterator → ℕ → Turned
  reverse_plus it n = over (minus latest size it.current n)

  unfoldable pub reverse_plus_assign : ReverseIterator → ℕ → Turned
  reverse_plus_assign it n = over (minus_assign latest size it.current n)

  unfoldable pub reverse_minus : ReverseIterator → ℕ → Turned
  reverse_minus it n = over (plus latest size it.current n)

  unfoldable pub reverse_minus_assign : ReverseIterator → ℕ → Turned
  reverse_minus_assign it n = over (plus_assign latest size it.current n)

unfoldable pub reverse_equal : ReverseIterator → ReverseIterator → Bool
reverse_equal x y = equal x.current y.current

unfoldable pub reverse_less : ReverseIterator → ReverseIterator → Bool
reverse_less x y = less y.current x.current

unfoldable pub reverse_greater : ReverseIterator → ReverseIterator → Bool
reverse_greater x y = reverse_less y x

unfoldable pub reverse_less_equal : ReverseIterator → ReverseIterator → Bool
reverse_less_equal x y = not (reverse_less y x)

unfoldable pub reverse_greater_equal : ReverseIterator → ReverseIterator → Bool
reverse_greater_equal x y = not (reverse_less x y)

module _ {A : Type 0} where
  -- `rbegin()` and `rend()` of a vector whose array is at `array`.
  unfoldable pub rbegin_of : Vector A → ℕ → ℕ → Turned
  rbegin_of v size array = over (end_of v size array)

  unfoldable pub rend_of : Vector A → ℕ → ℕ → Turned
  rend_of v size array = over (begin_of v size array)
