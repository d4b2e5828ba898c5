-- ===== src/Stl/SharedPtr/Holders.antt =====
-- include/stl/bits/shared_ptr.hh: how many variables name an object.
use arabos.Prelude.{
  ℕ, zero, suc, ◌+◌, ◌≤◌, ◌<◌, ◌≡◌, refl, sym, ap, ◌∙◌, Option, none, some, arith, ℕ_discrete, ◌==◌,
  if◌then◌else◌, ==_iff, ne→==_false,
}
use arabos.Stl.Cells.{stored_at}

abbrev pub names : Option ℕ → ℕ → ℕ
names none p = 0
names (some q) p = if p == q then 1 else 0

-- How many of the first `n` variables name an object.
unfoldable pub holders : ℕ → (ℕ → Option ℕ) → ℕ → ℕ
holders zero vars p = 0
holders (suc n) vars p = holders n vars p + names (vars n) p

holders-above :
    (n : ℕ) (vars : ℕ → Option ℕ) (i : ℕ) (v : Option ℕ) (p : ℕ)
    → n ≤ i
    → holders n (stored_at vars i v) p ≡ holders n vars p
unfolding holders
holders-above zero vars i v p h = refl
holders-above (suc n) vars i v p h =
    rw (ne→==_false n i (λ e. omega (arith, e)))
      (ap (λ x. x + names (vars n) p) (holders-above n vars i v p (omega arith)))

pub holders-stored_at :
    (n : ℕ) (vars : ℕ → Option ℕ) (i : ℕ) (v : Option ℕ) (p : ℕ)
    → i < n
    → holders n (stored_at vars i v) p + names (vars i) p ≡ holders n vars p + names v p
unfolding holders
holders-stored_at zero vars i v p h = absurd (omega arith)
holders-stored_at (suc n) vars i v p h = elim (ℕ_discrete n i) [
  | yes e ↦
      let above = holders-above n vars n v p (omega arith) in
      rw (← e, (==_iff n n).1 refl) (omega (arith, above))
  | no ne ↦ rw (ne→==_false n i ne) (omega (arith, holders-stored_at n vars i v p (omega arith)))
]

pub holders-pos :
    (n : ℕ) (vars : ℕ → Option ℕ) (i p : ℕ) → i < n → vars i ≡ some p → 0 < holders n vars p
unfolding holders
holders-pos zero vars i p h e = absurd (omega arith)
holders-pos (suc n) vars i p h e = elim (ℕ_discrete i n) [
  | yes at ↦
      let here : names (vars n) p ≡ 1 =
        ap (λ v. names v p) (sym (ap vars at) ∙ e) ∙ rw ((==_iff p p).1 refl) refl in
      omega (arith, here)
  | no ne ↦ omega (arith, holders-pos n vars i p (omega arith) e)
]

pub no_holders : (n p : ℕ) → holders n (λ i. none) p ≤ 0
unfolding holders
no_holders zero p = omega arith
no_holders (suc n) p = omega (arith, no_holders n p)
