-- ===== src/Prelude/Below.antt =====
-- A test of every number up to a bound, which computes.
use Prim.Native.Nat.{ℕ, zero, suc, ◌≤◌}
use mathlib.Core.Path.{◌≡◌}
use mathlib.Core.Bool.{Bool, true, false}
use native.Mathlib.Omega.{arith}
use native.Mathlib.Decide.{ℕ_discrete}
use arabos.Prelude.Tests.{if◌then◌else◌}

-- The test holds of the numbers up to `last`.
unfoldable pub holds_to : (ℕ → Bool) → ℕ → Bool
holds_to test zero = test zero
holds_to test (suc last) =
    let before = holds_to test last in if test (suc last) then before else false

pub holds_to_lem :
    (test : ℕ → Bool) (last k : ℕ) → k ≤ last → holds_to test last ≡ true → test k ≡ true
unfolding holds_to
holds_to_lem test zero k below all = let e : k ≡ 0 = omega arith in rw e all
holds_to_lem test (suc last) k below all = elim (ℕ_discrete k (suc last)) [
  | yes e ↦ rw e (ground arith)
  | no ne ↦ holds_to_lem test last k (omega arith) (ground arith)
]
