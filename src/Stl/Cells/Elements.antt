-- ===== src/Stl/Cells/Elements.antt =====
-- include/stl/bits/static_vector.hh: the list of the elements in an array.
use arabos.Prelude.{
  ℕ, zero, suc, ◌+◌, ◌≤◌, ◌<◌, ◌≡◌, refl, ap, ap₂, ◌∙◌, [], ◌∷◌, ◌++◌, arith, length,
}
use arabos.Stl.StaticVector.{remove_at, insert_at}
use arabos.Stl.Cells.{elements_from}

module _ {A : Type 0} where
  pub elements_from-eq :
      (f g : ℕ → A) (from to n : ℕ)
      → ((i : ℕ) → i < n → f (from + i) ≡ g (to + i))
      → elements_from f from n ≡ elements_from g to n
  elements_from-eq f g from to zero h = refl
  elements_from-eq f g from to (suc n) h =
      let first : f from ≡ g to = ap f (omega arith) ∙ h 0 (omega arith) ∙ ap g (omega arith) in
      let rest =
        elements_from-eq f g (from + 1) (to + 1) n
          (λ i l. ap f (omega arith) ∙ h (i + 1) (omega arith) ∙ ap g (omega arith)) in
      ap₂ (λ x xs. x ∷ xs) first rest

  pub length-elements_from : (f : ℕ → A) (from n : ℕ) → length (elements_from f from n) ≡ n
  length-elements_from f from zero = refl
  length-elements_from f from (suc n) = ap suc (length-elements_from f (from + 1) n)

  pub elements_from-snoc :
      (f : ℕ → A) (from n : ℕ)
      → elements_from f from (suc n) ≡ elements_from f from n ++ f (from + n) ∷ []
  elements_from-snoc f from zero = ap (λ i. f i ∷ []) (omega arith)
  elements_from-snoc f from (suc n) =
      ap (λ xs. f from ∷ xs)
        (elements_from-snoc f (from + 1) n
          ∙ ap (λ i. elements_from f (from + 1) n ++ f i ∷ []) (omega arith))

  pub elements_from-insert_at :
      (f g : ℕ → A) (from n pos : ℕ) (x : A)
      → pos ≤ n
      → ((i : ℕ) → i < from + pos → g i ≡ f i)
      → g (from + pos) ≡ x
      → ((i : ℕ) → from + pos ≤ i → i < from + n → g (i + 1) ≡ f i)
      → elements_from g from (suc n) ≡ insert_at (elements_from f from n) pos x
  unfolding insert_at
  elements_from-insert_at f g from n zero x h before here behind =
      ap₂ (λ y ys. y ∷ ys) (ap g (omega arith) ∙ here)
        (elements_from-eq g f (from + 1) from n
          (λ i l. ap g (omega arith) ∙ behind (from + i) (omega arith) (omega arith)))
  elements_from-insert_at f g from zero (suc pos) x h before here behind = absurd (omega arith)
  elements_from-insert_at f g from (suc n) (suc pos) x h before here behind =
      ap₂ (λ y ys. y ∷ ys) (before from (omega arith))
        (elements_from-insert_at f g (from + 1) n pos x (omega arith)
          (λ i l. before i (omega arith)) (ap g (omega arith) ∙ here)
          (λ i k l. behind i (omega arith) (omega arith)))

  pub elements_from-remove_at :
      (f g : ℕ → A) (from n pos : ℕ)
      → pos < suc n
      → ((i : ℕ) → i < from + pos → g i ≡ f i)
      → ((i : ℕ) → from + pos ≤ i → i < from + n → g i ≡ f (i + 1))
      → elements_from g from n ≡ remove_at (elements_from f from (suc n)) pos
  unfolding remove_at
  elements_from-remove_at f g from n zero h before behind =
      elements_from-eq g f from (from + 1) n
        (λ i l. behind (from + i) (omega arith) (omega arith) ∙ ap f (omega arith))
  elements_from-remove_at f g from zero (suc pos) h before behind = absurd (omega arith)
  elements_from-remove_at f g from (suc n) (suc pos) h before behind =
      ap₂ (λ y ys. y ∷ ys) (before from (omega arith))
        (elements_from-remove_at f g (from + 1) n pos (omega arith) (λ i l. before i (omega arith))
          (λ i k l. behind i (omega arith) (omega arith)))
