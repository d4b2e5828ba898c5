-- ===== src/Prelude/Bits/Step.antt =====
-- `|` and `&` of the C++ code as arithmetic, at every width: one binary digit at a time.
use Prim.Native.Nat.{
  ℕ, zero, suc, ◌+◌, ◌*◌, ◌/◌, ◌%◌, ◌≤◌, min, max, bit_and, bit_or, digits, bit_and-bitwise,
  bit_or-bitwise,
}
use mathlib.Core.Path.{◌≡◌, refl}
use native.Mathlib.Omega.{arith}

-- The digit recursion does not depend on its fuel, as long as there is enough.
module _ (rest : ℕ → ℕ) (digit : ℕ → ℕ → ℕ) where
  enough : (x y k l : ℕ) → x ≤ k → x ≤ l → digits rest digit k x y ≡ digits rest digit l x y
  enough zero y zero zero h i = refl
  enough zero y zero (suc l) h i = refl
  enough zero y (suc k) zero h i = refl
  enough zero y (suc k) (suc l) h i = refl
  enough (suc x) y zero l h i = absurd (omega arith)
  enough (suc x) y (suc k) zero h i = absurd (omega arith)
  enough (suc x) y (suc k) (suc l) h i =
      let half = suc x / 2 in omega (arith, enough half (y / 2) k l (omega arith) (omega arith))

pub zero-bit_or : (y : ℕ) → bit_or 0 y ≡ y
zero-bit_or y = bit_or-bitwise 0 y

pub bit_or_step : (x y : ℕ) → bit_or x y ≡ bit_or (x / 2) (y / 2) * 2 + max (x % 2) (y % 2)
bit_or_step zero y = omega (arith, zero-bit_or y, zero-bit_or (y / 2))
bit_or_step (suc x) y =
    let half = suc x / 2 in
    let same = enough (λ z. z) max half (y / 2) x half (omega arith) (omega arith) in
    omega (arith, same, bit_or-bitwise half (y / 2), bit_or-bitwise (suc x) y)

pub zero-bit_and : (y : ℕ) → bit_and 0 y ≡ 0
zero-bit_and y = bit_and-bitwise 0 y

pub bit_and_step : (x y : ℕ) → bit_and x y ≡ bit_and (x / 2) (y / 2) * 2 + min (x % 2) (y % 2)
bit_and_step zero y = omega (arith, zero-bit_and y, zero-bit_and (y / 2))
bit_and_step (suc x) y =
    let half = suc x / 2 in
    let same = enough (λ z. zero) min half (y / 2) x half (omega arith) (omega arith) in
    omega (arith, same, bit_and-bitwise half (y / 2), bit_and-bitwise (suc x) y)

-- Both operations with 0 on the right, by the steps.
zeros : (k x : ℕ) → x ≤ k → (bit_or x 0 ≡ x) × (bit_and x 0 ≡ 0)
zeros k zero h = (refl, refl)
zeros zero (suc x) h = absurd (omega arith)
zeros (suc k) (suc x) h =
    let halves = zeros k (suc x / 2) (omega arith) in
    (
      omega (arith, bit_or_step (suc x) 0, halves.0),
      omega (arith, bit_and_step (suc x) 0, halves.1),
    )

pub bit_or-zero : (x : ℕ) → bit_or x 0 ≡ x
bit_or-zero x = (zeros x x (omega arith)).0

pub bit_and-zero : (x : ℕ) → bit_and x 0 ≡ 0
bit_and-zero x = (zeros x x (omega arith)).1
