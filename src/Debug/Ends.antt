-- ===== src/Debug/Ends.antt =====
-- lib/debug.cpp: `seek` ends, and what holds of its bounds then.
use arabos.Prelude.{
  ℕ, zero, suc, ◌+◌, ◌-◌, ◌≤◌, ◌<◌, ◌≡◌, refl, inl, inr, ◌&&◌, Option, none, some, arith, dec_lt,
  ltb, leb, ◌==◌, Bool-cases, lt→ltb, le→ltb_false,
}
use arabos.Debug.{
  Stab, rank, Round, again, broken, returned, Range, last_before, first_from, middle, go_up,
  go_down, compare_with, round, seek_loop, or_behind, or_before, finish, after_loop, seek,
}
use arabos.Debug.Scan.{Lasts, Firsts, last_before-Lasts, first_from-Firsts, Between, middle-Between}

-- A round keeps within the bounds, and narrows them if another follows.
abbrev pub Narrows : ℕ → ℕ → Round → Type 0
Narrows low high (again l h) = (low ≤ l) × (l ≤ h) × (h ≤ high) × (h - l < high - low)
Narrows low high (broken l h) = (low ≤ l) × (l ≤ h) × (h ≤ high)
Narrows low high (returned l h) = (low ≤ l) × (l ≤ h) × (h ≤ high)

abbrev pub Stops : ℕ → ℕ → Round → Type 0
Stops low high (again l h) = ⊥
Stops low high (broken l h) = (low ≤ l) × (l ≤ h) × (h ≤ high)
Stops low high (returned l h) = (low ≤ l) × (l ≤ h) × (h ≤ high)

-- The bounds after `seek`, where `none` is -1.
abbrev pub Bounds : ℕ → ℕ → Option ℕ → ℕ → Type 0
Bounds low high none h = (low ≡ 0) × (h ≤ high + 1)
Bounds low high (some l) h = (low ≤ l + 1) × (l ≤ h) × (h ≤ high + 1)

module _ (t : ℕ → Stab) (type addr : ℕ) where
  go_up-Narrows :
      (low high old : ℕ) (o : Option ℕ)
      → low ≤ old
      → old ≤ high
      → Firsts t type (old + 1) (high - old) o
      → Narrows low high (go_up t type addr high old o)
  unfolding go_up
  go_up-Narrows low high old none a b f = omega arith
  go_up-Narrows low high old (some tmp) a b f =
      elim (Bool-cases (leb (rank (t tmp).n_value) (rank addr))) [
        | inl up ↦ rw up (omega (arith, f.above, f.below))
        | inr down ↦ rw down (omega arith)
      ]

  go_down-Narrows :
      (low high old : ℕ) (o : Option ℕ)
      → low ≤ old
      → old ≤ high
      → Lasts t type low old o
      → Narrows low high (go_down t type addr low old o)
  unfolding go_down
  go_down-Narrows low high old none a b f = omega arith
  go_down-Narrows low high old (some tmp) a b f =
      elim (Bool-cases (leb (rank addr) (rank (t tmp).n_value))) [
        | inl down ↦ rw down (omega (arith, f.above, f.below))
        | inr up ↦ rw up (omega arith)
      ]

  compare_with-Narrows :
      (low high : ℕ) (o : Option ℕ)
      → low < high
      → Between t type low high o
      → Narrows low high (compare_with t type addr low high o)
  unfolding compare_with
  compare_with-Narrows low high none h b = omega arith
  compare_with-Narrows low high (some tmp) h b =
      let up = first_from-Firsts t type (tmp + 1) (high - tmp) in
      let down = last_before-Lasts t type low tmp in
      elim (Bool-cases (ltb (rank (t tmp).n_value) (rank addr))) [
        | inl below ↦
            rw below
              (go_up-Narrows low high tmp (first_from t type (tmp + 1) (high - tmp)) b.0 b.1 up)
        | inr other ↦ elim (Bool-cases (ltb (rank addr) (rank (t tmp).n_value))) [
          | inl above ↦
              rw (other, above)
                (go_down-Narrows low high tmp (last_before t type low tmp) b.0 b.1 down)
          | inr same ↦ rw (other, same) (omega (arith, b.0, b.1))
        ]
      ]

  round-Narrows : (low high : ℕ) → low ≤ high → Narrows low high (round t type addr low high)
  unfolding round
  round-Narrows low high h = elim (dec_lt low high) [
    | yes more ↦ rw (lt→ltb low high more) (
        compare_with-Narrows low high (middle t type low high) more
          (middle-Between t type low high more))
    | no done ↦ rw (le→ltb_false low high (omega arith)) (omega arith)
  ]

  -- The loop stops, within the bounds that it began with.
  abbrev pub Stopped : ℕ → ℕ → Option Round → Type 0
  Stopped low high o = (r : Round) × (o ≡ some r) × Stops low high r

  continue :
      (fuel low high : ℕ) (r : Round)
      → Narrows low high r
      → ((l h : ℕ) → l ≤ h → h - l < fuel → Stopped l h (seek_loop t type fuel addr l h))
      → high - low < suc fuel
      → Stopped low high (elim r [
        | again l h ↦ seek_loop t type fuel addr l h
        | broken l h ↦ some (broken l h)
        | returned l h ↦ some (returned l h)
      ])
  continue fuel low high (broken l h) n ih f = (broken l h, refl, n)
  continue fuel low high (returned l h) n ih f = (returned l h, refl, n)
  continue fuel low high (again l h) n ih f =
      let (r, e, s) = ih l h n.1 (omega (arith, n)) in (r, e, widen r s)
    where
      widen : (r : Round) → Stops l h r → Stops low high r
      widen (again a b) s = s
      widen (broken a b) s = omega (arith, n, s)
      widen (returned a b) s = omega (arith, n, s)

  pub seek_loop-Stopped :
      (fuel low high : ℕ)
      → low ≤ high
      → high - low < fuel
      → Stopped low high (seek_loop t type fuel addr low high)
  unfolding seek_loop
  seek_loop-Stopped zero low high h f = absurd (omega arith)
  seek_loop-Stopped (suc fuel) low high h f =
      continue fuel low high (round t type addr low high) (round-Narrows low high h)
        (seek_loop-Stopped fuel) f

  or_behind-le :
      (orig_high low : ℕ) (o : Option ℕ)
      → low ≤ orig_high
      → Firsts t type (low + 1) (orig_high - low) o
      → (low ≤ or_behind t type orig_high o) × (or_behind t type orig_high o ≤ orig_high + 1)
  or_behind-le orig_high low none h f = omega arith
  or_behind-le orig_high low (some p) h f = omega (arith, f.above, f.below)

  or_before-Bounds :
      (orig_low orig_high high : ℕ) (o : Option ℕ)
      → orig_low ≤ high
      → high ≤ orig_high
      → Lasts t type orig_low high o
      → Bounds orig_low orig_high (or_before t type orig_low o) high
  or_before-Bounds zero orig_high high none a b l = omega arith
  or_before-Bounds (suc n) orig_high high none a b l = omega arith
  or_before-Bounds zero orig_high high (some p) a b l = omega (arith, l.above, l.below)
  or_before-Bounds (suc n) orig_high high (some p) a b l = omega (arith, l.above, l.below)

  finish-Bounds :
      (orig_low orig_high low high : ℕ)
      → orig_low ≤ low
      → low ≤ high
      → high ≤ orig_high
      → Bounds orig_low orig_high
          (finish t type addr orig_low orig_high low high).low
          (finish t type addr orig_low orig_high low high).high
  unfolding finish
  finish-Bounds orig_low orig_high low high a b c =
      elim (Bool-cases ((t low).n_type == type && ltb (rank (t low).n_value) (rank addr))) [
        | inl up ↦
            let o = first_from t type (low + 1) (orig_high - low) in
            let f = first_from-Firsts t type (low + 1) (orig_high - low) in
            rw up (omega (arith, or_behind-le orig_high low o (omega arith) f))
        | inr other ↦
            elim (Bool-cases ((t high).n_type == type && ltb (rank addr) (rank (t high).n_value))) [
              | inl down ↦
                  rw (other, down)
                    (or_before-Bounds orig_low orig_high high (last_before t type orig_low high)
                      (omega arith) c (last_before-Lasts t type orig_low high))
              | inr neither ↦ rw (other, neither) (omega arith)
            ]
      ]

  after_loop-Bounds :
      (low high : ℕ) (r : Round)
      → Stops low high r
      → Bounds low high
          (after_loop t type addr low high r).low
          (after_loop t type addr low high r).high
  after_loop-Bounds low high (again l h) s = absurd s
  after_loop-Bounds low high (broken l h) s = finish-Bounds low high l h s.0 s.1 s.2
  after_loop-Bounds low high (returned l h) s = omega (arith, s)

  -- From bounds with `low` at most `high`, `seek` ends, with a round of fuel for each stab between them
  -- and one more. Then `low` is not above `high`, at most one below the `low` that was, and `high` at
  -- most one above the `high` that was.
  pub seek-ends :
      (fuel low high : ℕ)
      → low ≤ high
      → high - low < fuel
      → (r : Range) × (seek t type fuel addr low high ≡ some r) × Bounds low high r.low r.high
  unfolding seek
  seek-ends fuel low high h f =
      let (r, e, s) = seek_loop-Stopped fuel low high h f in
      (after_loop t type addr low high r, rw (seek, e), after_loop-Bounds low high r s)
