-- ===== src/Debug/Scan.antt =====
-- lib/debug.cpp: what the inner loops of `seek` find.
use arabos.Prelude.{
  ℕ, zero, suc, ◌+◌, ◌-◌, ◌/◌, ◌≤◌, ◌<◌, ◌≡◌, ◌≢◌, Option, none, some, arith, dec_lt, ℕ_discrete,
  ==_iff, le→leb, lt→leb_false, ne→==_false,
}
use arabos.Debug.{Stab, last_before, first_from, middle}

-- The last stab of the type between `low` and `n`.
pub record IsLast (t : ℕ → Stab) (type low n p : ℕ) : Type 0 where
  pub above : low ≤ p
  pub below : p < n
  pub typed : (t p).n_type ≡ type
  pub last : (j : ℕ) → p < j → j < n → (t j).n_type ≢ type

abbrev pub Lasts : (ℕ → Stab) → ℕ → ℕ → ℕ → Option ℕ → Type 0
Lasts t type low n none = (j : ℕ) → low ≤ j → j < n → (t j).n_type ≢ type
Lasts t type low n (some p) = IsLast t type low n p

-- The first stab of the type among `n`, from `tmp` on.
pub record IsFirst (t : ℕ → Stab) (type tmp n p : ℕ) : Type 0 where
  pub above : tmp ≤ p
  pub below : p < tmp + n
  pub typed : (t p).n_type ≡ type
  pub first : (j : ℕ) → tmp ≤ j → j < p → (t j).n_type ≢ type

abbrev pub Firsts : (ℕ → Stab) → ℕ → ℕ → ℕ → Option ℕ → Type 0
Firsts t type tmp n none = (j : ℕ) → tmp ≤ j → j < tmp + n → (t j).n_type ≢ type
Firsts t type tmp n (some p) = IsFirst t type tmp n p

module _ (t : ℕ → Stab) (type : ℕ) where
  Lasts-suc :
      (low n : ℕ) (o : Option ℕ)
      → (t n).n_type ≢ type
      → Lasts t type low n o
      → Lasts t type low (suc n) o
  Lasts-suc low n none ne f =
      λ j a b. elim (ℕ_discrete j n) [ yes e ↦ rw e ne | no other ↦ f j a (omega (arith, other)) ]
  Lasts-suc low n (some p) ne f = record {
    above = f.above;
    below = omega (arith, f.below);
    typed = f.typed;
    last = λ j a b. elim (ℕ_discrete j n) [
      | yes e ↦ rw e ne
      | no other ↦ f.last j a (omega (arith, other))
    ];
  }

  pub last_before-Lasts : (low n : ℕ) → Lasts t type low n (last_before t type low n)
  unfolding last_before
  last_before-Lasts low zero = λ j a b. absurd (omega arith)
  last_before-Lasts low (suc n) = elim (dec_lt n low) [
    | yes under ↦ rw (lt→leb_false low n under) (λ j a b. absurd (omega arith))
    | no over ↦ elim (ℕ_discrete (t n).n_type type) [
      | yes e ↦
          rw (le→leb low n (omega arith), (==_iff (t n).n_type type).1 e)
            (record {
              above = omega arith;
              below = omega arith;
              typed = e;
              last = λ j a b. absurd (omega arith);
            })
      | no ne ↦
          rw (le→leb low n (omega arith), ne→==_false (t n).n_type type ne)
            (Lasts-suc low n (last_before t type low n) ne (last_before-Lasts low n))
    ]
  ]

  Firsts-suc :
      (tmp n : ℕ) (o : Option ℕ)
      → (t tmp).n_type ≢ type
      → Firsts t type (tmp + 1) n o
      → Firsts t type tmp (suc n) o
  Firsts-suc tmp n none ne f = λ j a b. elim (ℕ_discrete j tmp) [
    | yes e ↦ rw e ne
    | no other ↦ f j (omega (arith, other)) (omega arith)
  ]
  Firsts-suc tmp n (some p) ne f = record {
    above = omega (arith, f.above);
    below = omega (arith, f.below);
    typed = f.typed;
    first = λ j a b. elim (ℕ_discrete j tmp) [
      | yes e ↦ rw e ne
      | no other ↦ f.first j (omega (arith, other)) b
    ];
  }

  pub first_from-Firsts : (tmp n : ℕ) → Firsts t type tmp n (first_from t type tmp n)
  unfolding first_from
  first_from-Firsts tmp zero = λ j a b. absurd (omega arith)
  first_from-Firsts tmp (suc n) = elim (ℕ_discrete (t tmp).n_type type) [
    | yes e ↦ rw ((==_iff (t tmp).n_type type).1 e) (record {
      above = omega arith;
      below = omega arith;
      typed = e;
      first = λ j a b. absurd (omega arith);
    })
    | no ne ↦
        rw (ne→==_false (t tmp).n_type type ne)
          (Firsts-suc tmp n (first_from t type (tmp + 1) n) ne (first_from-Firsts (tmp + 1) n))
  ]

  -- A stab of the type between `low` and `high`, or that there is none.
  abbrev pub Between : ℕ → ℕ → Option ℕ → Type 0
  Between low high none = (j : ℕ) → low ≤ j → j ≤ high → (t j).n_type ≢ type
  Between low high (some p) = (low ≤ p) × (p ≤ high) × ((t p).n_type ≡ type)

  middle_half :
      (low high : ℕ) (before after : Option ℕ)
      → low < high
      → Lasts t type low ((high + low) / 2 + 1) before
      → Firsts t type ((high + low) / 2) (high + 1 - (high + low) / 2) after
      → Between low high (elim before [ some tmp ↦ some tmp | none ↦ after ])
  middle_half low high (some p) after h l f = (l.above, omega (arith, l.below), l.typed)
  middle_half low high none (some p) h l f =
      (omega (arith, f.above), omega (arith, f.below), f.typed)
  middle_half low high none none h l f = λ j a b. elim (dec_lt ((high + low) / 2) j) [
    | yes up ↦ f j (omega arith) (omega arith)
    | no down ↦ l j a (omega arith)
  ]

  pub middle-Between : (low high : ℕ) → low < high → Between low high (middle t type low high)
  unfolding middle
  middle-Between low high h =
      let m = (high + low) / 2 in
      middle_half low high (last_before t type low (m + 1)) (first_from t type m (high + 1 - m)) h
        (last_before-Lasts low (m + 1)) (first_from-Firsts m (high + 1 - m))
