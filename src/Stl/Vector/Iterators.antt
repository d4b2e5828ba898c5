-- ===== src/Stl/Vector/Iterators.antt =====
-- include/stl/bits/vector.hh: the iterators of a vector, which check themselves and report what is wrong.
-- Pointers are 32-bit addresses. An iterator that is not tracked has a null pointer for the version, and
-- its conversion is left out; the report of a null pointer stands for its two lines.
use arabos.Prelude.{
  ℕ, zero, suc, ◌+◌, ◌-◌, ◌*◌, ◌/◌, ◌%◌, ◌^◌, ◌≤◌, ◌<◌, min, bit_and, bit_or, bit_xor, ◌≡◌, refl,
  sym, ap, ap₂, ◌∙◌, fun_ext, ◌≢◌, ◌↔◌, ◌⊎◌, inl, inr, Bool, true, false, not, ◌&&◌, ◌||◌, Option,
  none, some, List, [], ◌∷◌, ◌++◌, map, arith, dec_lt, ℕ_discrete, ltb, leb, ◌==◌, if◌then◌else◌,
  Bool-cases, Option-cases, ==_iff, ltb→lt, lt→ltb, leb→le, le→leb, lt→leb_false, le→ltb_false,
  ne→==_false, length, get_elem?, set, get_or, get_or-append, take, drop, replicate, length-append,
  length-set, get_elem?-set_self, get_elem?-set_ne, length-take, length-drop, take-append-drop,
  take-prefix, take-all, take-append, drop-append,
}
use arabos.Stl.Vector.{Vector, Outcome, ok, panicked, guarantee_capacity}
pub mod Walk
pub mod Stale

pub record Iterator : Type 0 where
  pub begin : ℕ
  pub current : ℕ
  pub end : ℕ
  pub version : ℕ
  pub tracked : Bool

pub data Report : Type 0 where
  invalid : Report
  is_null : Report
  below_begin : Report
  above_end : Report

-- The iterator that an operation leaves, and what it reports.
pub record Moved : Type 0 where
  pub iterator : Iterator
  pub reports : List Report

-- The iterator that an operation returns, beside the one that it leaves.
pub record Returned : Type 0 where
  pub result : Iterator
  pub iterator : Iterator
  pub reports : List Report

unfoldable pub note : Bool → Report → List Report
note happens r = if happens then r ∷ [] else []

-- `size` is that of an element.
module _ (size : ℕ) where
  unfoldable pub forward : Iterator → ℕ → Iterator
  forward it n = record it { current = (it.current + size * n) % 2 ^ 32 }

  unfoldable pub backward : Iterator → ℕ → Iterator
  backward it n = record it { current = (it.current + (2 ^ 32 - size * n % 2 ^ 32)) % 2 ^ 32 }

-- `latest` is the version of the vector at the time of the call.
module _ (latest : ℕ) where
  unfoldable pub check_bounds : Iterator → List Report
  check_bounds it =
      note (it.tracked && not (it.version == latest)) invalid
      ++ note (it.current == 0) is_null
      ++ note (ltb it.current it.begin) below_begin
      ++ note (ltb it.end it.current) above_end

  -- The two constructors: `current` is the first argument or the second.
  unfoldable pub iterator_at : ℕ → ℕ → ℕ → Moved
  iterator_at begin current end =
      let it : Iterator = record {
        begin = begin;
        current = current;
        end = end;
        version = latest;
        tracked = true;
      } in
      record { iterator = it; reports = check_bounds it }

  -- The conversion to `const_iterator`.
  unfoldable pub to_const : Iterator → Moved
  to_const it = iterator_at it.begin it.current it.end

  unfoldable pub checked : Iterator → Moved
  checked it = record { iterator = it; reports = check_bounds it }

  module _ (size : ℕ) where
    -- `++it`
    unfoldable pub increment : Iterator → Moved
    increment it = checked (forward size it 1)

    -- `it++`
    unfoldable pub post_increment : Iterator → Returned
    post_increment it =
        let moved = forward size it 1 in
        record { result = it; iterator = moved; reports = check_bounds moved }

    -- `--it`, which does not check.
    unfoldable pub decrement : Iterator → Iterator
    decrement it = backward size it 1

    -- `it--`
    unfoldable pub post_decrement : Iterator → Returned
    post_decrement it =
        let moved = backward size it 1 in
        record { result = it; iterator = moved; reports = check_bounds moved }

    -- What `it + n` and `it - n` do with the iterator that they make: it keeps the version.
    unfoldable pub derived : Iterator → Iterator → Moved
    derived it moved =
        let p = iterator_at moved.begin moved.current moved.end in
        record {
          iterator = record p.iterator { version = it.version };
          reports = p.reports ++ check_bounds it;
        }

    unfoldable pub plus : Iterator → ℕ → Moved
    plus it n = derived it (forward size it n)

    unfoldable pub minus : Iterator → ℕ → Moved
    minus it n = derived it (backward size it n)

    unfoldable pub plus_assign : Iterator → ℕ → Moved
    plus_assign it n = checked (forward size it n)

    unfoldable pub minus_assign : Iterator → ℕ → Moved
    minus_assign it n = checked (backward size it n)

unfoldable pub equal : Iterator → Iterator → Bool
equal x y = x.current == y.current

unfoldable pub less : Iterator → Iterator → Bool
less x y = ltb x.current y.current

unfoldable pub greater : Iterator → Iterator → Bool
greater x y = less y x

unfoldable pub less_equal : Iterator → Iterator → Bool
less_equal x y = not (greater x y)

unfoldable pub greater_equal : Iterator → Iterator → Bool
greater_equal x y = not (less x y)

module _ {A : Type 0} where
  -- The iterators of a vector whose array is at `array`.
  unfoldable pub begin_of : Vector A → ℕ → ℕ → Moved
  begin_of v size array =
      iterator_at v.version array array ((array + size * length v.elements) % 2 ^ 32)

  unfoldable pub end_of : Vector A → ℕ → ℕ → Moved
  end_of v size array =
      let end = (array + size * length v.elements) % 2 ^ 32 in iterator_at v.version array end end
