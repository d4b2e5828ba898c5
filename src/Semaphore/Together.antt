-- ===== src/Semaphore/Together.antt =====
-- lib/semaphore.cpp: threads that share one semaphore, interleaved access by access.
use arabos.Prelude.{
  ℕ, zero, suc, ◌≤◌, ◌<◌, ◌≡◌, refl, ◌∙◌, fun_ext, arith, ltb, ◌==◌, if◌then◌else◌, ==_iff, lt→ltb,
  le→ltb_false,
}
use mathlib.Core.Path.{subst}
use arabos.Semaphore.{
  is_positive, cmpxchg, Pc, idle, polling, loading, trying, inside, after_load, after_cmpxchg,
  word_after, pc_after,
}

pub record Threads : Type 0 where
  pub word : ℕ
  pub pc : ℕ → Pc

abbrev pub update : (ℕ → Pc) → ℕ → Pc → ℕ → Pc
update f i p j = if j == i then p else f j

-- Thread `i` makes its next access.
unfoldable pub access : Threads → ℕ → Threads
access s i = record {
  word = word_after (s.pc i) s.word;
  pc = update s.pc i (pc_after (s.pc i) s.word);
}

-- `n` threads outside, and a semaphore of `value`.
unfoldable pub initial : ℕ → Threads
initial value = record { word = value; pc = λ i. idle }

-- The states that `n` threads can come to, in any order of their accesses.
pub data Reach (n value : ℕ) : Threads → Type 0 where
  start : Reach n value (initial value)
  later : {s : Threads} (i : ℕ) → i < n → Reach n value s → Reach n value (access s i)

-- The threads below `k` stand at one place, the others at another.
abbrev split_at : ℕ → Pc → Pc → ℕ → Pc
split_at k p q i = if ltb i k then p else q

abbrev state : ℕ → (ℕ → Pc) → Threads
state w f = record { word = w; pc = f }

-- A move of thread `k`, by where it stands.
access_lem :
    (n w k : ℕ) (f : ℕ → Pc) (p : Pc) (w' : ℕ) (p' : Pc)
    → k < n
    → f k ≡ p
    → word_after p w ≡ w'
    → pc_after p w ≡ p'
    → Reach n 1 (state w f)
    → Reach n 1 (state w' (update f k p'))
unfolding access
access_lem n w k f p w' p' h at e g r =
    let next : access (state w f) k ≡ state w' (update f k p') = rw (at, e, g) refl in
    subst (Reach n 1) next (later k h r)

update_same : (f : ℕ → Pc) (k : ℕ) (p : Pc) → update f k p k ≡ p
update_same f k p = rw ((==_iff k k).1 refl) refl

update_twice : (f : ℕ → Pc) (k : ℕ) (p q : Pc) → update (update f k p) k q ≡ update f k q
update_twice f k p q = fun_ext (λ i. ground arith)

split_at_self : (k : ℕ) (p q : Pc) → split_at k p q k ≡ q
split_at_self k p q = rw (le→ltb_false k k (omega arith)) refl

split_at-suc : (k : ℕ) (p q : Pc) → update (split_at k p q) k p ≡ split_at (suc k) p q
split_at-suc k p q = fun_ext (λ i. ground arith)

split_at-zero : (p q : Pc) → split_at 0 p q ≡ (λ i. q)
split_at-zero p q = fun_ext (λ i. ground arith)

-- The threads below `k` have read the semaphore, which is still 1.
all_read : (n k : ℕ) → k ≤ n → Reach n 1 (state 1 (split_at k (trying 1) idle))
unfolding initial word_after pc_after after_load is_positive
all_read n zero h = rw (split_at-zero (trying 1) idle) start
all_read n (suc k) h =
    let f = split_at k (trying 1) idle in
    let r0 = all_read n k (omega arith) in
    let r1 =
      access_lem n 1 k f idle 1 polling (omega arith) (split_at_self k (trying 1) idle) refl refl
        r0 in
    let r2 =
      access_lem n 1 k (update f k polling) polling 1 loading (omega arith)
        (update_same f k polling) refl refl r1 in
    let r3 =
      access_lem n 1 k (update (update f k polling) k loading) loading 1 (trying 1) (omega arith)
        (update_same (update f k polling) k loading) refl refl r2 in
    subst (λ g. Reach n 1 (state 1 g))
      (update_twice (update f k polling) k loading (trying 1)
        ∙ update_twice f k polling (trying 1)
        ∙ split_at-suc k (trying 1) idle)
      r3

-- Thread 0 has taken the semaphore, and tries again.
one_taken : (n : ℕ) → 0 < n → Reach n 1 (state 0 (split_at n (trying 1) idle))
unfolding word_after pc_after after_cmpxchg cmpxchg
one_taken n h =
    let f = split_at n (trying 1) idle in
    let at : f 0 ≡ trying 1 = rw (lt→ltb 0 n h) refl in
    let same : update f 0 (trying 1) ≡ f = fun_ext (λ i. ground (arith, h)) in
    subst (λ g. Reach n 1 (state 0 g)) same
      (access_lem n 1 0 f (trying 1) 0 (trying 1) h at refl refl (all_read n n (omega arith)))

-- The threads below `k` have left `wait`.
some_inside :
    (n k : ℕ)
    → 0 < n
    → k ≤ n
    → Reach n 1 (state 0 (λ i. if ltb i k then inside else split_at n (trying 1) idle i))
unfolding word_after pc_after after_cmpxchg cmpxchg
some_inside n zero h l =
    let e : (λ i. if ltb i 0 then inside else split_at n (trying 1) idle i)
        ≡ split_at n (trying 1) idle =
      fun_ext (λ i. ground arith) in
    rw e (one_taken n h)
some_inside n (suc k) h l =
    let f : ℕ → Pc = λ i. if ltb i k then inside else split_at n (trying 1) idle i in
    let at : f k ≡ trying 1 = ground (arith, l) in
    let next : update f k inside
        ≡ (λ i. if ltb i (suc k) then inside else split_at n (trying 1) idle i) =
      fun_ext (λ i. ground arith) in
    subst (λ g. Reach n 1 (state 0 g)) next
      (access_lem n 0 k f (trying 1) 0 inside (omega arith) at refl refl
        (some_inside n k h (omega arith)))

-- Any number of threads can be past `wait` on a semaphore of 1 at the same time.
pub all_inside :
    (n : ℕ) → 0 < n → (s : Threads) × (Reach n 1 s × ((i : ℕ) → i < n → s.pc i ≡ inside))
all_inside n h = (
  state 0 (λ i. if ltb i n then inside else split_at n (trying 1) idle i),
  (some_inside n n h (omega arith), λ i l. rw (lt→ltb i n l) refl),
)
