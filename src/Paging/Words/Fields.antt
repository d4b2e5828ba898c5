-- ===== src/Paging/Words/Fields.antt =====
-- mm/paging.cpp: a bit is read back after a write, and the rest of the word stays.
use arabos.Prelude.{
  ℕ, ◌-◌, ◌^◌, ◌<◌, ◌≡◌, Bool, true, false, ◌==◌, if◌then◌else◌, bit_and, bit_or, arith,
}
use arabos.Prelude.Bits.{bit, bit-bit_or, bit-bit_and, bit-lt, bit-pow, bit-not_pow, bit_and-pow}
use native.Mathlib.Nat.{one-le-pow}
use arabos.Paging.Words.{get_bit, set_bit_to}

pub get_bit_lem : (x b : ℕ) → get_bit x b ≡ (bit x b == 1)
unfolding get_bit
get_bit_lem x b = grind (arith, bit_and-pow b x, bit-lt b x, one-le-pow b 2)

-- For bits of a 32-bit word, after a bit is set to a value, reading a bit returns that value if it is the same bit, and the
-- old bit otherwise.
pub get_bit-set_bit_to :
    (x b c : ℕ) (v : Bool)
    → b < 32
    → c < 32
    → get_bit (set_bit_to x b v) c ≡ (if b == c then v else get_bit x c)
unfolding set_bit_to
get_bit-set_bit_to x b c true h k = ground (
  arith,
  get_bit_lem (bit_or x (2 ^ b)) c,
  get_bit_lem x c,
  bit-bit_or c x (2 ^ b),
  bit-pow b c,
  bit-lt c x,
)
get_bit-set_bit_to x b c false h k = ground (
  arith,
  get_bit_lem (bit_and x (2 ^ 32 - 1 - 2 ^ b)) c,
  get_bit_lem x c,
  bit-bit_and c x (2 ^ 32 - 1 - 2 ^ b),
  bit-not_pow 32 b c,
  bit-lt c x,
)
