-- ===== src/Debug/Exact.antt =====
-- lib/debug.cpp: `seek` for the address of a stab.
use arabos.Prelude.{
  ℕ, zero, suc, ◌+◌, ◌-◌, ◌≤◌, ◌<◌, ◌≡◌, refl, ap, Option, none, some, arith, dec_lt, ℕ_discrete,
  ==_iff, lt→ltb, le→leb, le→ltb_false,
}
use arabos.Debug.{
  Stab, rank, Round, again, broken, returned, Range, last_before, first_from, middle, go_up,
  go_down, compare_with, round, seek_loop, finish, after_loop, seek,
}
use arabos.Debug.Scan.{Lasts, Firsts, last_before-Lasts, first_from-Firsts, Between, middle-Between}

-- Between `low` and `high`, the stabs of the type have ascending values.
abbrev pub Ascending : (ℕ → Stab) → ℕ → ℕ → ℕ → Type 0
Ascending t type low high =
    (i j : ℕ)
    → low ≤ i
    → i < j
    → j ≤ high
    → (t i).n_type ≡ type
    → (t j).n_type ≡ type
    → rank (t i).n_value < rank (t j).n_value

-- A round finds the stab `k`, or keeps it between narrower bounds.
abbrev pub Keeps : ℕ → ℕ → ℕ → Round → Type 0
Keeps k low high (again l h) = (low ≤ l) × (l ≤ k) × (k ≤ h) × (h ≤ high) × (h - l < high - low)
Keeps k low high (broken l h) = (l ≡ k) × (h ≡ k)
Keeps k low high (returned l h) = l ≡ k

module _ (t : ℕ → Stab) (type addr lo hi k : ℕ) (sorted : Ascending t type lo hi) (k_above : lo ≤ k)
    (k_below : k ≤ hi) (k_typed : (t k).n_type ≡ type) (k_value : (t k).n_value ≡ addr) where
  before_k :
      (i : ℕ) → lo ≤ i → i ≤ hi → (t i).n_type ≡ type → rank (t i).n_value < rank addr → i < k
  before_k i a b e v = elim (dec_lt i k) [
    | yes h ↦ h
    | no h ↦ elim (ℕ_discrete i k) [
      | yes same ↦ absurd (omega (arith, ap (λ j. rank (t j).n_value) same, ap rank k_value))
      | no ne ↦
          absurd
            (omega (arith, ne, sorted k i k_above (omega (arith, ne)) b k_typed e, ap rank k_value))
    ]
  ]

  after_k : (i : ℕ) → lo ≤ i → i ≤ hi → (t i).n_type ≡ type → rank addr < rank (t i).n_value → k < i
  after_k i a b e v = elim (dec_lt k i) [
    | yes h ↦ h
    | no h ↦ elim (ℕ_discrete i k) [
      | yes same ↦ absurd (omega (arith, ap (λ j. rank (t j).n_value) same, ap rank k_value))
      | no ne ↦
          absurd
            (omega (arith, ne, sorted i k a (omega (arith, ne)) k_below e k_typed, ap rank k_value))
    ]
  ]

  -- The stab is `k` itself, or on the side of `k` that its number says.
  value_le : (i : ℕ) → lo ≤ i → i ≤ k → (t i).n_type ≡ type → rank (t i).n_value ≤ rank addr
  value_le i a b e = elim (ℕ_discrete i k) [
    | yes same ↦ omega (arith, ap (λ j. rank (t j).n_value) same, ap rank k_value)
    | no ne ↦ omega (arith, ne, sorted i k a (omega (arith, ne)) k_below e k_typed, ap rank k_value)
  ]

  le_value : (i : ℕ) → k ≤ i → i ≤ hi → (t i).n_type ≡ type → rank addr ≤ rank (t i).n_value
  le_value i a b e = elim (ℕ_discrete i k) [
    | yes same ↦ omega (arith, ap (λ j. rank (t j).n_value) same, ap rank k_value)
    | no ne ↦ omega (arith, ne, sorted k i k_above (omega (arith, ne)) b k_typed e, ap rank k_value)
  ]

  go_up-Keeps :
      (low high old : ℕ) (o : Option ℕ)
      → lo ≤ low
      → low ≤ old
      → old < k
      → k ≤ high
      → high ≤ hi
      → Firsts t type (old + 1) (high - old) o
      → Keeps k low high (go_up t type addr high old o)
  unfolding go_up
  go_up-Keeps low high old none a b c d e f = absurd (f k (omega arith) (omega arith) k_typed)
  go_up-Keeps low high old (some p) a b c d e f = elim (dec_lt k p) [
    | yes past ↦ absurd (f.first k (omega arith) past k_typed)
    | no near ↦
        rw
          (le→leb (rank (t p).n_value) (rank addr)
            (value_le p (omega (arith, f.above)) (omega arith) f.typed))
          (omega (arith, f.above))
  ]

  go_down-Keeps :
      (low high old : ℕ) (o : Option ℕ)
      → lo ≤ low
      → low ≤ k
      → k < old
      → old ≤ high
      → high ≤ hi
      → Lasts t type low old o
      → Keeps k low high (go_down t type addr low old o)
  unfolding go_down
  go_down-Keeps low high old none a b c d e f = absurd (f k b c k_typed)
  go_down-Keeps low high old (some p) a b c d e f = elim (dec_lt p k) [
    | yes past ↦ absurd (f.last k past c k_typed)
    | no near ↦
        rw
          (le→leb (rank addr) (rank (t p).n_value)
            (le_value p (omega arith) (omega (arith, f.below)) f.typed))
          (omega (arith, f.above, f.below))
  ]

  same_value :
      (p : ℕ) → lo ≤ p → p ≤ hi → (t p).n_type ≡ type → rank (t p).n_value ≡ rank addr → p ≡ k
  same_value p a b e v = elim (ℕ_discrete p k) [
    | yes same ↦ same
    | no ne ↦ elim (dec_lt p k) [
      | yes l ↦ absurd (omega (arith, v, sorted p k a l k_below e k_typed, ap rank k_value))
      | no g ↦ absurd (
          omega (arith, v, ne, sorted k p k_above (omega (arith, ne)) b k_typed e, ap rank k_value))
    ]
  ]

  compare_with-Keeps :
      (low high : ℕ) (o : Option ℕ)
      → lo ≤ low
      → low ≤ k
      → k ≤ high
      → high ≤ hi
      → Between t type low high o
      → Keeps k low high (compare_with t type addr low high o)
  unfolding compare_with
  compare_with-Keeps low high none a b c d m = absurd (m k b c k_typed)
  compare_with-Keeps low high (some p) a b c d m =
      let v = rank (t p).n_value in
      elim (dec_lt v (rank addr)) [
        | yes l ↦ rw (lt→ltb v (rank addr) l) (
            go_up-Keeps low high p (first_from t type (p + 1) (high - p)) a m.0
              (before_k p (omega (arith, m.0)) (omega (arith, m.1)) m.2 l) c d
              (first_from-Firsts t type (p + 1) (high - p)))
        | no nl ↦ elim (dec_lt (rank addr) v) [
          | yes g ↦
              rw (le→ltb_false v (rank addr) (omega arith), lt→ltb (rank addr) v g)
                (go_down-Keeps low high p (last_before t type low p) a b
                  (after_k p (omega (arith, m.0)) (omega (arith, m.1)) m.2 g) m.1 d
                  (last_before-Lasts t type low p))
          | no ng ↦
              rw
                (le→ltb_false v (rank addr) (omega arith), le→ltb_false (rank addr) v (omega arith))
                (same_value p (omega (arith, m.0)) (omega (arith, m.1)) m.2 (omega arith))
        ]
      ]

  round-Keeps :
      (low high : ℕ)
      → lo ≤ low
      → low ≤ k
      → k ≤ high
      → high ≤ hi
      → Keeps k low high (round t type addr low high)
  unfolding round
  round-Keeps low high a b c d = elim (dec_lt low high) [
    | yes more ↦ rw (lt→ltb low high more) (
        compare_with-Keeps low high (middle t type low high) a b c d
          (middle-Between t type low high more))
    | no done ↦ rw (le→ltb_false low high (omega arith)) (omega arith)
  ]

  -- The range that is left when the loop ends has `k` for its `low`.
  abbrev Hit : Option Round → Type 0
  Hit o = (r : Round) × (o ≡ some r) × ((after_loop t type addr lo hi r).low ≡ some k)

  Keeps-Hit :
      (fuel low high : ℕ) (r : Round)
      → Keeps k low high r
      → lo ≤ low
      → high ≤ hi
      → high - low < suc fuel
      → ((l h : ℕ)
          → lo ≤ l
          → l ≤ k
          → k ≤ h
          → h ≤ hi
          → h - l < fuel
          → Hit (seek_loop t type fuel addr l h))
      → Hit (elim r [
        | again l h ↦ seek_loop t type fuel addr l h
        | broken l h ↦ some (broken l h)
        | returned l h ↦ some (returned l h)
      ])
  unfolding finish
  Keeps-Hit fuel low high (again l h) n a d f ih =
      ih l h (omega (arith, n)) n.1 n.2 (omega (arith, n)) (omega (arith, n))
  Keeps-Hit fuel low high (returned l h) n a d f ih = (returned l h, refl, ap some n)
  Keeps-Hit fuel low high (broken l h) n a d f ih =
      let v : rank (t k).n_value ≡ rank addr = ap rank k_value in
      let up = le→ltb_false (rank (t k).n_value) (rank addr) (omega arith) in
      let down = le→ltb_false (rank addr) (rank (t k).n_value) (omega arith) in
      (broken l h, refl, rw (n.0, n.1, up, down, (==_iff (t k).n_type type).1 k_typed) refl)

  seek_loop-Hit :
      (fuel low high : ℕ)
      → lo ≤ low
      → low ≤ k
      → k ≤ high
      → high ≤ hi
      → high - low < fuel
      → Hit (seek_loop t type fuel addr low high)
  unfolding seek_loop
  seek_loop-Hit zero low high a b c d f = absurd (omega arith)
  seek_loop-Hit (suc fuel) low high a b c d f =
      Keeps-Hit fuel low high (round t type addr low high) (round-Keeps low high a b c d) a d f
        (seek_loop-Hit fuel)

-- Where the stabs of the type between `low` and `high` have ascending values, `seek` finds the one
-- whose value is the address, with a round of fuel for each stab between the bounds and one more.
pub seek-exact :
    (t : ℕ → Stab) (type fuel low high k : ℕ)
    → Ascending t type low high
    → low ≤ k
    → k ≤ high
    → (t k).n_type ≡ type
    → high - low < fuel
    → (r : Range) × (seek t type fuel (t k).n_value low high ≡ some r) × (r.low ≡ some k)
unfolding seek
seek-exact t type fuel low high k sorted a b e f =
    let addr = (t k).n_value in
    let (r, s, l) =
      seek_loop-Hit t type addr low high k sorted a b e refl fuel low high (omega arith) a b
        (omega arith) f in
    (after_loop t type addr low high r, rw (seek, s), l)
