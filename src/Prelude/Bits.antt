-- ===== src/Prelude/Bits.antt =====
-- `|`, `&` and `~` of the C++ code: what they do to a single bit, and to a word split in two fields.
mod Step
pub use Step.{bit_or-zero, zero-bit_or}
use Step.{zero-bit_and, bit_and_step, bit_or_step, bit_and-zero}
use Prim.Native.Nat.{
  ℕ, zero, suc, ◌+◌, ◌-◌, ◌*◌, ◌/◌, ◌%◌, ◌^◌, ◌≤◌, ◌<◌, min, max, bit_and, bit_or,
}
use mathlib.Core.Path.{◌≡◌, refl, ap}
use mathlib.Core.Logic.{◌≢◌}
use native.Mathlib.Nat.{pow-suc, one-le-pow}
use native.Mathlib.Omega.{arith}
use arabos.Prelude.Tests.{◌==◌, if◌then◌else◌}

-- Bit `k` of `x`.
unfoldable pub bit : ℕ → ℕ → ℕ
bit x zero = x % 2
bit x (suc k) = bit (x / 2) k

pub bit-bit_or : (k a b : ℕ) → bit (bit_or a b) k ≡ max (bit a k) (bit b k)
unfolding bit
bit-bit_or zero a b = omega (arith, bit_or_step a b)
bit-bit_or (suc k) a b =
    let e : bit_or a b / 2 ≡ bit_or (a / 2) (b / 2) = omega (arith, bit_or_step a b) in
    ground (arith, e, bit-bit_or k (a / 2) (b / 2))

pub bit-bit_and : (k a b : ℕ) → bit (bit_and a b) k ≡ min (bit a k) (bit b k)
unfolding bit
bit-bit_and zero a b = omega (arith, bit_and_step a b)
bit-bit_and (suc k) a b =
    let e : bit_and a b / 2 ≡ bit_and (a / 2) (b / 2) = omega (arith, bit_and_step a b) in
    ground (arith, e, bit-bit_and k (a / 2) (b / 2))

pub bit-lt : (k a : ℕ) → bit a k < 2
unfolding bit
bit-lt zero a = omega arith
bit-lt (suc k) a = bit-lt k (a / 2)

pub bit-zero : (k : ℕ) → bit 0 k ≡ 0
unfolding bit
bit-zero zero = refl
bit-zero (suc k) = bit-zero k

-- `1 << b`
pub bit-pow : (b k : ℕ) → bit (2 ^ b) k ≡ (if b == k then 1 else 0)
unfolding bit
bit-pow zero zero = refl
bit-pow zero (suc k) = ground (arith, bit-zero k)
bit-pow (suc b) zero = ground (arith, pow-suc 2 b)
bit-pow (suc b) (suc k) =
    let e : 2 ^ suc b / 2 ≡ 2 ^ b = omega (arith, pow-suc 2 b) in ground (arith, e, bit-pow b k)

pub pow-lt : (b w : ℕ) → b < w → 2 ^ b < 2 ^ w
pow-lt b zero h = elim h [ ]
pow-lt zero (suc w) h = omega (arith, pow-suc 2 w, one-le-pow w 2)
pow-lt (suc b) (suc w) h = omega (arith, pow-suc 2 w, pow-suc 2 b, pow-lt b w (omega arith))

-- `2 ^ w - 1` is all ones.
pub bit-ones : (w k : ℕ) → k < w → bit (2 ^ w - 1) k ≡ 1
unfolding bit
bit-ones zero k h = elim h [ ]
bit-ones (suc w) zero h = omega (arith, pow-suc 2 w, one-le-pow w 2)
bit-ones (suc w) (suc k) h =
    let e : (2 ^ suc w - 1) / 2 ≡ 2 ^ w - 1 = omega (arith, pow-suc 2 w, one-le-pow w 2) in
    ground (arith, e, bit-ones w k (omega arith))

-- `~(1 << b)` in a word of `w` bits.
pub bit-not_pow :
    (w b k : ℕ) → b < w → k < w → bit (2 ^ w - 1 - 2 ^ b) k ≡ (if b == k then 0 else 1)
unfolding bit
bit-not_pow zero b k p q = elim p [ ]
bit-not_pow (suc w) zero zero p q = omega (arith, pow-suc 2 w, one-le-pow w 2)
bit-not_pow (suc w) zero (suc k) p q =
    let e : (2 ^ suc w - 1 - 2 ^ 0) / 2 ≡ 2 ^ w - 1 = omega (arith, pow-suc 2 w, one-le-pow w 2) in
    ground (arith, e, bit-ones w k (omega arith))
bit-not_pow (suc w) (suc b) zero p q =
    ground (arith, pow-suc 2 w, pow-suc 2 b, pow-lt b w (omega arith))
bit-not_pow (suc w) (suc b) (suc k) p q =
    let e : (2 ^ suc w - 1 - 2 ^ suc b) / 2 ≡ 2 ^ w - 1 - 2 ^ b =
      omega (arith, pow-suc 2 w, pow-suc 2 b, pow-lt b w (omega arith)) in
    ground (arith, e, bit-not_pow w b k (omega arith) (omega arith))

-- Half a word, kept in two fields of `k` low bits and the rest.
mul-pow-suc : (q k : ℕ) → q * 2 ^ suc k ≡ q * 2 ^ k * 2
mul-pow-suc q k = omega (arith, ap (λ (t : ℕ). q * t) (pow-suc 2 k))

record Split (f : ℕ → ℕ → ℕ) (k q r q' r' : ℕ) : Type 0 where
  joined : f (q * 2 ^ k + r) (q' * 2 ^ k + r') ≡ f q q' * 2 ^ k + f r r'
  fits : f r r' < 2 ^ k

bit_or-Split : (k q r q' r' : ℕ) → r < 2 ^ k → r' < 2 ^ k → Split bit_or k q r q' r'
bit_or-Split zero q r q' r' h h' = record {
  joined = ground (arith, bit_or-zero 0);
  fits = ground (arith, bit_or-zero 0);
}
bit_or-Split (suc k) q r q' r' h h' =
    let ih : Split bit_or k q (r / 2) q' (r' / 2) =
      bit_or-Split k q (r / 2) q' (r' / 2) (omega (arith, pow-suc 2 k))
        (omega (arith, pow-suc 2 k)) in
    let a : (q * 2 ^ suc k + r) / 2 ≡ q * 2 ^ k + r / 2 = omega (arith, mul-pow-suc q k) in
    let b : (q' * 2 ^ suc k + r') / 2 ≡ q' * 2 ^ k + r' / 2 = omega (arith, mul-pow-suc q' k) in
    record {
      joined = ground (
        arith,
        bit_or_step (q * 2 ^ suc k + r) (q' * 2 ^ suc k + r'),
        bit_or_step r r',
        a,
        b,
        mul-pow-suc q k,
        mul-pow-suc q' k,
        mul-pow-suc (bit_or q q') k,
        ih.joined,
      );
      fits = omega (arith, bit_or_step r r', pow-suc 2 k, ih.fits);
    }

bit_and-Split : (k q r q' r' : ℕ) → r < 2 ^ k → r' < 2 ^ k → Split bit_and k q r q' r'
bit_and-Split zero q r q' r' h h' = record {
  joined = ground (arith, bit_and-zero 0);
  fits = ground (arith, bit_and-zero 0);
}
bit_and-Split (suc k) q r q' r' h h' =
    let ih : Split bit_and k q (r / 2) q' (r' / 2) =
      bit_and-Split k q (r / 2) q' (r' / 2) (omega (arith, pow-suc 2 k))
        (omega (arith, pow-suc 2 k)) in
    let a : (q * 2 ^ suc k + r) / 2 ≡ q * 2 ^ k + r / 2 = omega (arith, mul-pow-suc q k) in
    let b : (q' * 2 ^ suc k + r') / 2 ≡ q' * 2 ^ k + r' / 2 = omega (arith, mul-pow-suc q' k) in
    record {
      joined = ground (
        arith,
        bit_and_step (q * 2 ^ suc k + r) (q' * 2 ^ suc k + r'),
        bit_and_step r r',
        a,
        b,
        mul-pow-suc q k,
        mul-pow-suc q' k,
        mul-pow-suc (bit_and q q') k,
        ih.joined,
      );
      fits = omega (arith, bit_and_step r r', pow-suc 2 k, ih.fits);
    }

-- A mask of `k` ones keeps the remainder by `2 ^ k`.
pub bit_and-ones : (k a : ℕ) → a < 2 ^ k → bit_and a (2 ^ k - 1) ≡ a
bit_and-ones zero a h = ground (arith, bit_and-zero 0)
bit_and-ones (suc k) a h =
    let e : (2 ^ suc k - 1) / 2 ≡ 2 ^ k - 1 = omega (arith, pow-suc 2 k, one-le-pow k 2) in
    ground (
      arith,
      bit_and_step a (2 ^ suc k - 1),
      e,
      pow-suc 2 k,
      one-le-pow k 2,
      bit_and-ones k (a / 2) (omega (arith, pow-suc 2 k)),
    )

-- `x & (1 << b)`
pub bit_and-pow : (b x : ℕ) → bit_and x (2 ^ b) ≡ bit x b * 2 ^ b
unfolding bit
bit_and-pow zero x = ground (arith, bit_and_step x 1, bit_and-zero (x / 2))
bit_and-pow (suc b) x =
    let e : 2 ^ suc b / 2 ≡ 2 ^ b = omega (arith, pow-suc 2 b) in
    ground (
      arith,
      bit_and_step x (2 ^ suc b),
      e,
      pow-suc 2 b,
      mul-pow-suc (bit (x / 2) b) b,
      bit_and-pow b (x / 2),
    )

-- The frame number and the offset in a page of what `|` and `&` return.
pub bit_or_page :
    (a b : ℕ)
    → (bit_or a b / 4096 ≡ bit_or (a / 4096) (b / 4096))
      × (bit_or a b % 4096 ≡ bit_or (a % 4096) (b % 4096))
bit_or_page a b =
    let s : Split bit_or 12 (a / 4096) (a % 4096) (b / 4096) (b % 4096) =
      bit_or-Split 12 (a / 4096) (a % 4096) (b / 4096) (b % 4096) (omega arith) (omega arith) in
    let ea : a / 4096 * 4096 + a % 4096 ≡ a = omega arith in
    let eb : b / 4096 * 4096 + b % 4096 ≡ b = omega arith in
    let j : bit_or a b ≡ bit_or (a / 4096) (b / 4096) * 4096 + bit_or (a % 4096) (b % 4096) =
      ground (arith, s.joined, ea, eb) in
    (omega (arith, j, s.fits), omega (arith, j, s.fits))

pub bit_and_page :
    (a b : ℕ)
    → (bit_and a b / 4096 ≡ bit_and (a / 4096) (b / 4096))
      × (bit_and a b % 4096 ≡ bit_and (a % 4096) (b % 4096))
bit_and_page a b =
    let s : Split bit_and 12 (a / 4096) (a % 4096) (b / 4096) (b % 4096) =
      bit_and-Split 12 (a / 4096) (a % 4096) (b / 4096) (b % 4096) (omega arith) (omega arith) in
    let ea : a / 4096 * 4096 + a % 4096 ≡ a = omega arith in
    let eb : b / 4096 * 4096 + b % 4096 ≡ b = omega arith in
    let j : bit_and a b ≡ bit_and (a / 4096) (b / 4096) * 4096 + bit_and (a % 4096) (b % 4096) =
      ground (arith, s.joined, ea, eb) in
    (omega (arith, j, s.fits), omega (arith, j, s.fits))

-- `x & ~0xFFF` and `x & 0xFFF`, in a word of 32 bits.
pub bit_and-high : (x : ℕ) → x < 2 ^ 32 → bit_and x 0xFFFFF000 ≡ x / 4096 * 4096
bit_and-high x h = ground (
  arith,
  bit_and_page x 0xFFFFF000,
  bit_and-ones 20 (x / 4096) (omega arith),
  bit_and-zero (x % 4096),
)

pub bit_and-low : (x : ℕ) → bit_and x 0xFFF ≡ x % 4096
bit_and-low x =
    ground (
      arith,
      bit_and_page x 0xFFF,
      bit_and-ones 12 (x % 4096) (omega arith),
      bit_and-zero (x / 4096),
    )

pub bit_and-seven : (x : ℕ) → bit_and x 7 ≡ x % 8
bit_and-seven x =
    let s : Split bit_and 3 (x / 8) (x % 8) 0 7 =
      bit_and-Split 3 (x / 8) (x % 8) 0 7 (omega arith) (omega arith) in
    let e : x / 8 * 8 + x % 8 ≡ x = omega arith in
    ground (arith, s.joined, e, bit_and-ones 3 (x % 8) (omega arith), bit_and-zero (x / 8))

-- The low bits of a multiple of `2 ^ k`.
pub bit-mul_pow : (k c m : ℕ) → c < k → bit (m * 2 ^ k) c ≡ 0
unfolding bit
bit-mul_pow zero c m h = elim h [ ]
bit-mul_pow (suc k) zero m h = omega (arith, mul-pow-suc m k)
bit-mul_pow (suc k) (suc c) m h =
    let e : m * 2 ^ suc k / 2 ≡ m * 2 ^ k = omega (arith, mul-pow-suc m k) in
    ground (arith, e, bit-mul_pow k c m (omega arith))

pub bit_or-lt : (k a b : ℕ) → a < 2 ^ k → b < 2 ^ k → bit_or a b < 2 ^ k
bit_or-lt k a b h l = let s : Split bit_or k 0 a 0 b = bit_or-Split k 0 a 0 b h l in s.fits

bit_and-le_fuel : (n a b : ℕ) → a ≤ n → bit_and a b ≤ a
bit_and-le_fuel n zero b h = omega (arith, zero-bit_and b)
bit_and-le_fuel zero (suc a) b h = absurd (omega arith)
bit_and-le_fuel (suc n) (suc a) b h =
    omega (arith, bit_and_step (suc a) b, bit_and-le_fuel n (suc a / 2) (b / 2) (omega arith))

pub bit_and-le : (a b : ℕ) → bit_and a b ≤ a
bit_and-le a b = bit_and-le_fuel a a b (omega arith)

bit_and-le_right_fuel : (n a b : ℕ) → b ≤ n → bit_and a b ≤ b
bit_and-le_right_fuel n a zero h = omega (arith, bit_and-zero a)
bit_and-le_right_fuel zero a (suc b) h = absurd (omega arith)
bit_and-le_right_fuel (suc n) a (suc b) h =
    omega (arith, bit_and_step a (suc b), bit_and-le_right_fuel n (a / 2) (suc b / 2) (omega arith))

pub bit_and-le_right : (a b : ℕ) → bit_and a b ≤ b
bit_and-le_right a b = bit_and-le_right_fuel b a b (omega arith)

-- `(q << k) | r` for disjoint fields.
pub bit_or_disjoint : (k q r : ℕ) → r < 2 ^ k → bit_or (q * 2 ^ k) r ≡ q * 2 ^ k + r
bit_or_disjoint k q r h =
    let s : Split bit_or k q 0 0 r = bit_or-Split k q 0 0 r (omega (arith, one-le-pow k 2)) h in
    let e : q * 2 ^ k + 0 ≡ q * 2 ^ k = omega arith in
    let d : 0 * 2 ^ k + r ≡ r = omega arith in
    ground (arith, s.joined, e, d, bit_or-zero q, zero-bit_or r)

bit_or_comm_fuel : (n a b : ℕ) → a ≤ n → bit_or a b ≡ bit_or b a
bit_or_comm_fuel n zero b h = omega (arith, zero-bit_or b, bit_or-zero b)
bit_or_comm_fuel zero (suc a) b h = absurd (omega arith)
bit_or_comm_fuel (suc n) (suc a) b h = omega (
  arith,
  bit_or_step (suc a) b,
  bit_or_step b (suc a),
  bit_or_comm_fuel n (suc a / 2) (b / 2) (omega arith),
)

pub bit_or_comm : (a b : ℕ) → bit_or a b ≡ bit_or b a
bit_or_comm a b = bit_or_comm_fuel a a b (omega arith)
