-- ===== src/Stl/Vector/Iterators/Stale.antt =====
-- include/stl/bits/vector.hh: iterators of a vector that has changed since.
use arabos.Prelude.{
  ℕ, ◌+◌, ◌/◌, ◌<◌, ◌≡◌, refl, ◌≢◌, inl, inr, Bool, true, false, List, [], ◌∷◌, ◌++◌, arith, ltb,
  leb, ◌==◌, Bool-cases, ==_iff, lt→leb_false, ne→==_false,
}
use arabos.Stl.Vector.{Vector, ok, panicked, guarantee_capacity, grown}
use arabos.Stl.Vector.Iterators.{
  Iterator, Report, invalid, is_null, below_begin, above_end, note, check_bounds, iterator_at,
  checked, forward, backward, increment, post_increment, post_decrement, plus_assign, minus_assign,
  to_const, begin_of,
}

-- The first of the reports says that the iterator is invalid.
abbrev pub says_invalid : List Report → Bool
says_invalid [] = false
says_invalid (invalid ∷ rs) = true
says_invalid (r ∷ rs) = false

other_reports :
    (a b c : Bool) → says_invalid (note a is_null ++ note b below_begin ++ note c above_end) ≡ false
unfolding note
other_reports true b c = refl
other_reports false true c = refl
other_reports false false true = refl
other_reports false false false = refl

module _ (latest size : ℕ) where
  stale_check :
      (it : Iterator)
      → it.tracked ≡ true
      → it.version ≢ latest
      → says_invalid (check_bounds latest it) ≡ true
  unfolding check_bounds note
  stale_check it t h = rw (t, ne→==_false it.version latest h) refl

  -- What the operations report of an iterator.
  pub record IsReported (it : Iterator) (n : ℕ) : Type 0 where
    pub at_read : says_invalid (check_bounds latest it) ≡ true
    pub at_increment : says_invalid (increment latest size it).reports ≡ true
    pub at_post_increment : says_invalid (post_increment latest size it).reports ≡ true
    pub at_post_decrement : says_invalid (post_decrement latest size it).reports ≡ true
    pub at_plus_assign : says_invalid (plus_assign latest size it n).reports ≡ true
    pub at_minus_assign : says_invalid (minus_assign latest size it n).reports ≡ true

  stale-IsReported :
      (it : Iterator) (n : ℕ) → it.tracked ≡ true → it.version ≢ latest → IsReported it n
  unfolding increment post_increment post_decrement plus_assign minus_assign checked forward
      backward
  stale-IsReported it n t h = record {
    at_read = stale_check it t h;
    at_increment = stale_check (forward size it 1) t h;
    at_post_increment = stale_check (forward size it 1) t h;
    at_post_decrement = stale_check (backward size it 1) t h;
    at_plus_assign = stale_check (forward size it n) t h;
    at_minus_assign = stale_check (backward size it n) t h;
  }

  -- The conversion takes the vector's version, whatever the iterator's.
  converted : (it : Iterator) → says_invalid (to_const latest it).reports ≡ false
  unfolding to_const iterator_at check_bounds note
  converted it =
      rw ((==_iff latest latest).1 refl)
        (other_reports (it.current == 0) (ltb it.current it.begin) (ltb it.end it.current))

module _ {A : Type 0} where
  -- A change of the capacity is a change of the version.
  version_changes :
      (v v' : Vector A) (minimum : ℕ)
      → guarantee_capacity v minimum ≡ ok v'
      → v.capacity < minimum
      → v.version ≢ v'.version
  unfolding guarantee_capacity
  version_changes v v' minimum e h =
      let room : leb minimum v.capacity ≡ false = lt→leb_false minimum v.capacity h in
      elim (Bool-cases (grown v.capacity / 3 == v.capacity)) [
        | inl fits ↦
            let grows : guarantee_capacity v minimum
                ≡ ok (record v { capacity = grown v.capacity; version = v.version + 1 }) =
              rw (room, fits) refl in
            let next : v.version + 1 ≡ v'.version = cc (e, grows) in
            λ same. omega (arith, same, next)
        | inr over ↦
            let panics : guarantee_capacity v minimum ≡ panicked = rw (room, over) refl in
            absurd (cc (e, panics))
      ]

  -- An iterator of a vector whose array has grown since is reported as invalid when it is read, by `++`
  -- in both forms, `it--`, `+=` and `-=`, but not by the conversion to `const_iterator`, which makes it
  -- look valid.
  pub invalidated :
      (v v' : Vector A) (minimum size array n : ℕ)
      → guarantee_capacity v minimum ≡ ok v'
      → v.capacity < minimum
      → IsReported v'.version size (begin_of v size array).iterator n
        × (says_invalid (to_const v'.version (begin_of v size array).iterator).reports ≡ false)
        × (check_bounds v'.version (to_const v'.version (begin_of v size array).iterator).iterator
            ≡ (to_const v'.version (begin_of v size array).iterator).reports)
  unfolding begin_of iterator_at to_const
  invalidated v v' minimum size array n e h =
      let it = (begin_of v size array).iterator in
      (
        stale-IsReported v'.version size it n refl (version_changes v v' minimum e h),
        converted v'.version size it,
        refl,
      )
