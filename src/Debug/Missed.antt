-- ===== src/Debug/Missed.antt =====
-- lib/debug.cpp: addresses for which `seek` answers another stab than the nearest below.
use arabos.Prelude.{
  ℕ, suc, ◌+◌, ◌/◌, ◌≤◌, ◌<◌, ◌≡◌, refl, some, arith, ==_iff, lt→ltb, le→leb, lt→leb_false,
  le→ltb_false,
}
use arabos.Debug.{
  Stab, rank, broken, Range, last_before, middle, go_down, compare_with, round, seek_loop, finish,
  seek,
}

last_before-here :
    (t : ℕ → Stab) (type low n : ℕ)
    → low ≤ n
    → (t n).n_type ≡ type
    → last_before t type low (suc n) ≡ some n
unfolding last_before
last_before-here t type low n h e = rw (le→leb low n h, (==_iff (t n).n_type type).1 e) refl

module _ (t : ℕ → Stab) (type addr low high p : ℕ) (half : (high + low) / 2 ≡ p + 1)
    (between : low < p) (first_typed : (t low).n_type ≡ type) (typed : (t p).n_type ≡ type)
    (next_typed : (t (suc p)).n_type ≡ type) (first_below : rank (t low).n_value < rank addr)
    (value_below : rank (t p).n_value < rank addr)
    (next_above : rank addr < rank (t (suc p)).n_value) where
  middle-next : middle t type low high ≡ some (suc p)
  unfolding middle
  middle-next =
      let m : (high + low) / 2 + 1 ≡ suc (suc p) = omega (arith, half) in
      let found : last_before t type low ((high + low) / 2 + 1) ≡ some (suc p) =
        rw m (last_before-here t type low (suc p) (omega arith) next_typed) in
      rw (middle, found) refl

  round-broken : round t type addr low high ≡ broken low (suc p)
  unfolding round compare_with go_down
  round-broken =
      let v = rank (t p).n_value in
      let w = rank (t (suc p)).n_value in
      rw
        (
          lt→ltb low high (omega (arith, half)),
          middle-next,
          le→ltb_false w (rank addr) (omega arith),
          lt→ltb (rank addr) w next_above,
          last_before-here t type low p (omega arith) typed,
          lt→leb_false (rank addr) v value_below,
        )
        refl

  finish-first : (finish t type addr low high low (suc p)).low ≡ some low
  unfolding finish
  finish-first =
      rw
        (
          (==_iff (t low).n_type type).1 first_typed,
          lt→ltb (rank (t low).n_value) (rank addr) first_below,
        )
        refl

-- Where the middle stab is above the address, the one before it, p, is below it and so is `low`, all of
-- the type, `seek` answers `low`.
seek-missed :
    (t : ℕ → Stab) (type addr fuel low high p : ℕ)
    → (high + low) / 2 ≡ p + 1
    → low < p
    → (t low).n_type ≡ type
    → (t p).n_type ≡ type
    → (t (suc p)).n_type ≡ type
    → rank (t low).n_value < rank addr
    → rank (t p).n_value < rank addr
    → rank addr < rank (t (suc p)).n_value
    → (r : Range) × (seek t type (suc fuel) addr low high ≡ some r) × (r.low ≡ some low)
unfolding seek seek_loop
seek-missed t type addr fuel low high p half between e f g a b c =
    let once = round-broken t type addr low high p half between e f g a b c in
    (
      finish t type addr low high low (suc p),
      rw (seek, seek_loop, once) refl,
      finish-first t type addr low high p half between e f g a b c,
    )
