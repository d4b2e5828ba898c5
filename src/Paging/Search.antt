-- ===== src/Paging/Search.antt =====
-- mm/paging.cpp: what the loops of `alloc_page` find.
use arabos.Prelude.Below.{holds_to, holds_to_lem}
use arabos.Prelude.{
  ℕ, zero, suc, ◌+◌, ◌*◌, ◌≤◌, ◌<◌, ◌≡◌, refl, ap, ◌∙◌, ◌≢◌, inl, inr, Bool, true, false, ◌||◌,
  none, some, arith, ℕ_discrete, ◌==◌, Bool-cases, Option-cases, set,
}
use arabos.Paging.Words.{get_bit}
use arabos.Paging.Pte
use arabos.Paging.Frames.{first_zero, found, stuck, Panic, out_of_memory, find_frame, find_pte}

pub first_zero_lem :
    (n b pack r : ℕ)
    → first_zero n b pack ≡ some r
    → (b ≤ r)
      × (r < b + n)
      × (get_bit pack r ≡ false)
      × ((k : ℕ) → b ≤ k → k < r → get_bit pack k ≡ true)
unfolding first_zero
first_zero_lem zero b pack r h = absurd (grind arith)
first_zero_lem (suc n) b pack r h = elim (Bool-cases (get_bit pack b)) [
  | inl set ↦
      let later = first_zero_lem n (b + 1) pack r (ground arith) in
      (
        omega arith,
        omega arith,
        later.2,
        λ k p q. elim (ℕ_discrete k b) [ yes e ↦ rw e set | no ne ↦ later.3 k (omega arith) q ],
      )
  | inr clear ↦
      let here : b ≡ r = ground arith in
      (omega arith, omega arith, rw (← here) clear, λ k p q. absurd (omega arith))
]

-- A byte that is not full has a 0 bit.
abbrev has_room : ℕ → Bool
has_room pack = pack == 0xFF || elim (first_zero 8 0 pack) [ none ↦ false | some b ↦ true ]

room_table : holds_to has_room 255 ≡ true
unfolding holds_to first_zero get_bit
room_table = refl

pub first_zero-ne-none : (pack : ℕ) → pack < 256 → pack ≢ 0xFF → first_zero 8 0 pack ≢ none
first_zero-ne-none pack h ne e =
    ground (arith, e, holds_to_lem has_room 255 pack (omega arith) room_table)

pub find_frame_found :
    (f : ℕ → ℕ) (n i : ℕ) {j b : ℕ}
    → find_frame f n i ≡ found j b
    → (i ≤ j)
      × (j < i + n)
      × (first_zero 8 0 (f j) ≡ some b)
      × ((k : ℕ) → i ≤ k → k < j → f k ≡ 0xFF)
unfolding find_frame
find_frame_found f zero i h = absurd (cc)
find_frame_found f (suc n) i {j} {b} h = elim (ℕ_discrete (f i) 0xFF) [
  | yes full ↦
      let later = find_frame_found f n (i + 1) {j = j} {b = b} (ground arith) in
      (
        omega arith,
        omega arith,
        later.2,
        λ k p q. elim (ℕ_discrete k i) [ yes e ↦ rw e full | no ne ↦ later.3 k (omega arith) q ],
      )
  | no room ↦ elim (Option-cases (first_zero 8 0 (f i))) [
    | inl e ↦ absurd (ground arith)
    | inr (c, e) ↦
        let here : i ≡ j = ground arith in
        let same : c ≡ b = ground arith in
        (omega arith, omega arith, rw (← here) (e ∙ ap some same), λ k p q. absurd (omega arith))
  ]
]

pub find_frame-stuck :
    (f : ℕ → ℕ) (n i : ℕ) {p : Panic}
    → ((k : ℕ) → f k < 256)
    → find_frame f n i ≡ stuck p
    → (p ≡ out_of_memory) × ((k : ℕ) → i ≤ k → k < i + n → f k ≡ 0xFF)
unfolding find_frame
find_frame-stuck f zero i bytes h = (cc, λ k a b. absurd (omega arith))
find_frame-stuck f (suc n) i {p} bytes h = elim (ℕ_discrete (f i) 0xFF) [
  | yes full ↦
      let later = find_frame-stuck f n (i + 1) {p = p} bytes (ground arith) in
      (
        later.0,
        λ k a b. elim (ℕ_discrete k i) [
          | yes e ↦ rw e full
          | no ne ↦ later.1 k (omega arith) (omega arith)
        ],
      )
  | no room ↦ absurd (ground (arith, first_zero-ne-none (f i) (bytes i) room))
]

pub find_pte_lem :
    (table : ℕ → ℕ) (base n i e : ℕ)
    → find_pte table base n i ≡ some e
    → (i ≤ e)
      × (e < i + n)
      × (Pte.get_present (table (base + 4 * e)) ≡ false)
      × ((k : ℕ) → i ≤ k → k < e → Pte.get_present (table (base + 4 * k)) ≡ true)
unfolding find_pte
find_pte_lem table base zero i e h = absurd (grind arith)
find_pte_lem table base (suc n) i e h = elim (Bool-cases (Pte.get_present (table (base + 4 * i)))) [
  | inl taken ↦
      let later = find_pte_lem table base n (i + 1) e (ground arith) in
      (
        omega arith,
        omega arith,
        later.2,
        λ k p q. elim (ℕ_discrete k i) [ yes s ↦ rw s taken | no ne ↦ later.3 k (omega arith) q ],
      )
  | inr absent ↦
      let here : i ≡ e = ground arith in
      (omega arith, omega arith, rw (← here) absent, λ k p q. absurd (omega arith))
]

pub find_pte-none :
    (table : ℕ → ℕ) (base n i : ℕ)
    → find_pte table base n i ≡ none
    → (k : ℕ) → i ≤ k
    → k < i + n
    → Pte.get_present (table (base + 4 * k)) ≡ true
unfolding find_pte
find_pte-none table base zero i h k p q = absurd (omega arith)
find_pte-none table base (suc n) i h k p q =
    elim (Bool-cases (Pte.get_present (table (base + 4 * i)))) [
      | inl taken ↦ elim (ℕ_discrete k i) [
        | yes s ↦ rw s taken
        | no ne ↦ find_pte-none table base n (i + 1) (ground arith) k (omega arith) (omega arith)
      ]
      | inr absent ↦ absurd (ground arith)
    ]
