-- ===== src/Stl/Cells/Moves.antt =====
-- include/stl/bits/move.hh and move_backward.hh: the cells after a move by one place.
use arabos.Prelude.{
  ℕ, zero, suc, ◌+◌, ◌-◌, ◌≤◌, ◌<◌, ◌≡◌, refl, ◌∙◌, ◌≢◌, arith, ℕ_discrete, ==_iff, ne→==_false,
}
use arabos.Stl.Cells.{stored_at, move_range, move_backward}

module _ {A : Type 0} where
  pub stored_at_self : (f : ℕ → A) (at : ℕ) (v : A) → stored_at f at v at ≡ v
  stored_at_self f at v = rw ((==_iff at at).1 refl) refl

  pub stored_at_other : (f : ℕ → A) (at i : ℕ) (v : A) → i ≢ at → stored_at f at v i ≡ f i
  stored_at_other f at i v ne = rw (ne→==_false i at ne) refl

  -- The cells after `n` of them have moved down by one, to `d` and those behind it.
  pub record MovedDown (f g : ℕ → A) (n d : ℕ) : Type 0 where
    pub before : (i : ℕ) → i < d → g i ≡ f i
    pub moved : (i : ℕ) → d ≤ i → i < d + n → g i ≡ f (i + 1)
    pub behind : (i : ℕ) → d + n ≤ i → g i ≡ f i

  pub move_range-MovedDown : (f : ℕ → A) (n d : ℕ) → MovedDown f (move_range f n (d + 1) d) n d
  unfolding move_range
  move_range-MovedDown f zero d = record {
    before = λ i h. refl;
    moved = λ i h k. absurd (omega arith);
    behind = λ i h. refl;
  }
  move_range-MovedDown f (suc n) d =
      let next = stored_at f d (f (d + 1)) in
      let ih = move_range-MovedDown next n (d + 1) in
      record {
        before = λ i h.
            ih.before i (omega arith) ∙ stored_at_other f d i (f (d + 1)) (λ e. omega (arith, e));
        moved = λ i h k. elim (ℕ_discrete i d) [
          | yes e ↦
              let here = ih.before d (omega arith) ∙ stored_at_self f d (f (d + 1)) in rw e here
          | no ne ↦
              ih.moved i (omega (arith, ne)) (omega arith)
              ∙ stored_at_other f d (i + 1) (f (d + 1)) (λ e. omega (arith, e))
        ];
        behind = λ i h.
            ih.behind i (omega arith) ∙ stored_at_other f d i (f (d + 1)) (λ e. omega (arith, e));
      }

  -- The cells after the `n` before `last` have moved up by one.
  pub record MovedUp (f g : ℕ → A) (n last : ℕ) : Type 0 where
    pub before : (i : ℕ) → i + n ≤ last → g i ≡ f i
    pub moved : (i : ℕ) → last ≤ i + n → i < last → g (i + 1) ≡ f i
    pub behind : (i : ℕ) → last < i → g i ≡ f i

  pub move_backward-MovedUp :
      (f : ℕ → A) (n last : ℕ) → n ≤ last → MovedUp f (move_backward f n last (last + 1)) n last
  unfolding move_backward
  move_backward-MovedUp f zero last h = record {
    before = λ i k. refl;
    moved = λ i k l. absurd (omega arith);
    behind = λ i k. refl;
  }
  move_backward-MovedUp f (suc n) zero h = absurd (omega arith)
  move_backward-MovedUp f (suc n) (suc l) h =
      let next = stored_at f (l + 1) (f l) in
      let ih = move_backward-MovedUp next n l (omega arith) in
      let down : suc l - 1 ≡ l = omega arith in
      let up : suc l + 1 - 1 ≡ l + 1 = omega arith in
      rw (up, down)
        (record {
          before = λ i k.
              ih.before i (omega arith) ∙ stored_at_other f (l + 1) i (f l) (λ e. omega (arith, e));
          moved = λ i k b. elim (ℕ_discrete i l) [
            | yes e ↦
                let here = ih.behind (l + 1) (omega arith) ∙ stored_at_self f (l + 1) (f l) in
                rw e here
            | no ne ↦
                ih.moved i (omega arith) (omega (arith, ne))
                ∙ stored_at_other f (l + 1) i (f l) (λ e. omega (arith, e))
          ];
          behind = λ i k.
              ih.behind i (omega arith) ∙ stored_at_other f (l + 1) i (f l) (λ e. omega (arith, e));
        })
