-- ===== src/Process/Turns.antt =====
-- kernel/fork.cpp: `schedule` takes the processes in turn.
use arabos.Prelude.{
  ℕ, zero, suc, ◌+◌, ◌-◌, ◌%◌, ◌≤◌, ◌<◌, ◌≡◌, refl, sym, ◌≢◌, ◌⊎◌, inl, inr, true, false, some,
  arith, dec_lt, ℕ_discrete, ◌==◌, Bool-cases, ==_iff,
}
use arabos.Process.Switch.{Process, search, next_process}

-- The process `k` that follows `c`: `distance` places on, it is ready, or `c` itself; and each
-- process between the two is not.
pub record Turn (processes : ℕ → Process) (c k : ℕ) : Type 0 where
  pub distance : ℕ
  pub at : k ≡ (c + distance) % 8
  pub range : (1 ≤ distance) × (distance ≤ 8)
  pub ready : ((processes k).valid ≡ true) ⊎ (k ≡ c)
  pub skipped : (e : ℕ) → 1 ≤ e → e < distance → (processes ((c + e) % 8)).valid ≡ false

module _ (processes : ℕ → Process) (c : ℕ) (h : c < 8) where
  search_lem :
      (n i : ℕ)
      → i + n ≡ 9
      → 1 ≤ i
      → i ≤ 8
      → ((e : ℕ) → 1 ≤ e → e < i → (processes ((c + e) % 8)).valid ≡ false)
      → (k : ℕ) × (search processes (some c) n ((c + i) % 8) ≡ some k) × Turn processes c k
  unfolding search
  search_lem zero i s p q before = absurd (omega arith)
  search_lem (suc n) i s p q before = elim (Bool-cases (c == (c + i) % 8)) [
    | inl same ↦ (
      (c + i) % 8,
      rw same refl,
      record {
        distance = i;
        at = refl;
        range = (p, q);
        ready = inr (sym ((==_iff c ((c + i) % 8)).0 same));
        skipped = before;
      },
    )
    | inr other ↦ elim (Bool-cases (processes ((c + i) % 8)).valid) [
      | inl ready ↦ (
        (c + i) % 8,
        rw (other, ready) refl,
        record { distance = i; at = refl; range = (p, q); ready = inl ready; skipped = before },
      )
      | inr idle ↦
          let not_self : c ≢ (c + i) % 8 =
            λ q. (let same : (c == (c + i) % 8) ≡ true = (==_iff c ((c + i) % 8)).1 q in cc) in
          let shorter : i ≤ 7 = omega (arith, not_self) in
          let further : ((c + i) % 8 + 1) % 8 ≡ (c + (i + 1)) % 8 = omega arith in
          rw (other, idle, further)
            (search_lem n (i + 1) (omega arith) (omega arith) (omega arith) (λ e l m.
              elim (ℕ_discrete e i) [ yes at ↦ rw at idle | no ne ↦ before e l (omega arith) ]))
    ]
  ]

  -- The loop ends, and the process that it finds is the first ready one behind the current one, in
  -- the order of the table and round its end, or the current one if no other is ready.
  pub next_process_lem : (k : ℕ) × (next_process processes (some c) ≡ some k) × Turn processes c k
  unfolding next_process
  next_process_lem =
      search_lem 8 1 (omega arith) (omega arith) (omega arith) (λ e l m. absurd (omega arith))

-- How far `p` stands behind `c`, round the end of the table.
abbrev pub ahead : ℕ → ℕ → ℕ
ahead c p = (p + 8 - c) % 8

-- A ready process is not passed over.
pub not_passed :
    (processes : ℕ → Process) (c p k : ℕ) (turn : Turn processes c k)
    → c < 8
    → p < 8
    → p ≢ c
    → (processes p).valid ≡ true
    → turn.distance ≤ ahead c p
not_passed processes c p k turn hc hp ne ready = elim (dec_lt (ahead c p) turn.distance) [
  | no l ↦ omega arith
  | yes l ↦
      let place : (c + ahead c p) % 8 ≡ p = omega arith in
      let idle : (processes ((c + ahead c p) % 8)).valid ≡ false =
        turn.skipped (ahead c p) (omega arith) l in
      let at_place : (processes ((c + ahead c p) % 8)).valid ≡ true = rw place ready in absurd cc
]

-- A ready process other than the current one comes nearer with each switch, until it is its turn:
-- the process that the loop finds is it, or it stands less far ahead of that one than before.
pub next_process-nearer :
    (processes : ℕ → Process) (c p k : ℕ)
    → c < 8
    → p < 8
    → p ≢ c
    → (processes p).valid ≡ true
    → next_process processes (some c) ≡ some k
    → (k < 8) × (ahead k p < ahead c p)
next_process-nearer processes c p k hc hp ne ready e =
    let (n, found, turn) = next_process_lem processes c hc in
    let same : n ≡ k = cc in
    let near : turn.distance ≤ ahead c p = not_passed processes c p n turn hc hp ne ready in
    (omega (arith, turn.at, same), omega (arith, turn.at, turn.range, near, same))
