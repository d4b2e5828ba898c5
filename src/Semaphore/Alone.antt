-- ===== src/Semaphore/Alone.antt =====
-- lib/semaphore.cpp: `wait` while no other thread runs.
use arabos.Prelude.{
  ℕ, zero, suc, ◌-◌, ◌<◌, ◌≡◌, refl, ◌≢◌, inl, inr, true, Option, none, some, arith, ℕ_discrete,
  ◌==◌, if◌then◌else◌, Bool-cases, ==_iff, ne→==_false,
}
use arabos.Semaphore.{
  is_positive, cmpxchg, Pc, idle, polling, loading, trying, inside, after_load, after_cmpxchg,
  word_after, pc_after,
}

-- `wait`, for as many accesses as the fuel allows: the word that it leaves, if it returns.
unfoldable pub run_alone : ℕ → Pc → ℕ → Option ℕ
run_alone zero pc w = none
run_alone (suc fuel) idle w = run_alone fuel (pc_after idle w) (word_after idle w)
run_alone (suc fuel) polling w = run_alone fuel (pc_after polling w) (word_after polling w)
run_alone (suc fuel) loading w = run_alone fuel (pc_after loading w) (word_after loading w)
run_alone (suc fuel) (trying old) w =
    run_alone fuel (pc_after (trying old) w) (word_after (trying old) w)
run_alone (suc fuel) inside w = some w

unfoldable pub wait : ℕ → ℕ → Option ℕ
wait fuel w = run_alone fuel polling w

-- Two words that are not equal, neither of which is 0: the exchange fails for ever.
stuck : (fuel old w : ℕ) → w ≢ old → w ≢ 0 → run_alone fuel (trying old) w ≡ none
unfolding run_alone word_after pc_after after_cmpxchg cmpxchg
stuck zero old w ne nz = refl
stuck (suc fuel) old w ne nz =
    rw (ne→==_false w old ne, ne→==_false w 0 nz) (stuck fuel old w ne nz)

never_again : (fuel w : ℕ) → 1 < w → run_alone fuel (trying w) w ≡ none
unfolding run_alone word_after pc_after after_cmpxchg cmpxchg
never_again zero w h = refl
never_again (suc fuel) w h =
    rw ((==_iff w w).1 refl, ne→==_false w 0 (omega arith))
      (stuck fuel w (w - 1) (omega arith) (omega arith))

load_positive : (fuel w : ℕ) → 1 < w → is_positive w ≡ true → run_alone fuel loading w ≡ none
unfolding run_alone word_after pc_after after_load
load_positive zero w h p = refl
load_positive (suc fuel) w h p = rw p (never_again fuel w h)

positive-gt : (w : ℕ) → w ≢ 1 → is_positive w ≡ true → 1 < w
unfolding is_positive
positive-gt w h p = ground arith

poll_lem : (fuel w : ℕ) → w ≢ 1 → run_alone fuel polling w ≡ none
unfolding run_alone word_after pc_after
poll_lem zero w h = refl
poll_lem (suc fuel) w h = elim (Bool-cases (is_positive w)) [
  | inl p ↦ rw p (load_positive fuel w (positive-gt w h p) p)
  | inr n ↦ rw n (poll_lem fuel w h)
]

takes_one : (fuel : ℕ) → run_alone (suc (suc (suc (suc (suc fuel))))) polling 1 ≡ some 0
unfolding run_alone word_after pc_after after_load after_cmpxchg cmpxchg is_positive
takes_one fuel = refl

-- With no other thread, `wait` on a semaphore of 1 returns and leaves 0; on any other value, it does
-- not return, however long it runs (from five accesses on).
pub wait-alone :
    (fuel w : ℕ) → wait (suc (suc (suc (suc (suc fuel))))) w ≡ (if w == 1 then some 0 else none)
unfolding wait
wait-alone fuel w = elim (ℕ_discrete w 1) [
  | yes e ↦ rw e (takes_one fuel)
  | no ne ↦ rw (ne→==_false w 1 ne) (poll_lem (suc (suc (suc (suc (suc fuel))))) w ne)
]
