-- ===== src/Paging/Entry.antt =====
-- mm/paging.cpp: the page base and the flags of a page table entry do not disturb one another.
use arabos.Prelude.{
  ℕ, ◌+◌, ◌-◌, ◌*◌, ◌/◌, ◌%◌, ◌^◌, ◌<◌, ◌≡◌, refl, Bool, true, false, bit_and, bit_or, arith,
}
use arabos.Prelude.Bits.{
  bit, bit-bit_or, bit-bit_and, bit-lt, bit-ones, bit-mul_pow, bit_or_page, bit_and_page,
  bit_or-zero, bit_and-ones, bit_and-high, bit_and-low, bit_and-seven, pow-lt, zero-bit_or,
}
use native.Mathlib.Nat.{one-le-pow}
use arabos.Paging.Words.{get_bit, set_bit_to}
use arabos.Paging.Words.Fields.{get_bit_lem}
use arabos.Paging.Pte

-- Storing a 32-bit page base in a 32-bit entry makes the entry's page base the 4 KB page of that
-- address, leaves each of the twelve low bits of the entry as it was, and gives a 32-bit word.
pub set_page_base_lem :
    (value base c : ℕ)
    → value < 2 ^ 32
    → base < 2 ^ 32
    → c < 12
    → (Pte.get_page_base (Pte.set_page_base value base) ≡ base / 4096 * 4096)
      × (get_bit (Pte.set_page_base value base) c ≡ get_bit value c)
      × (Pte.set_page_base value base < 2 ^ 32)
unfolding Pte.get_page_base Pte.set_page_base
set_page_base_lem value base c h k l = (
  ground (arith, size, bit_and-high _ size.1, size.0),
  ground (
    arith,
    get_bit_lem x c,
    get_bit_lem value c,
    bit-bit_or c (bit_and value 0xFFF) (bit_and base 0xFFFFF000),
    bit-bit_and c value 0xFFF,
    bit-ones 12 c l,
    bit_and-high base k,
    bit-mul_pow 12 c (base / 4096) l,
    bit-lt c value,
  ),
  size.1,
)
  where
    x : ℕ
    x = bit_or (bit_and value 0xFFF) (bit_and base 0xFFFFF000)

    size : (x / 4096 ≡ base / 4096) × (x < 2 ^ 32)
    size =
        let low : bit_and value 0xFFF / 4096 ≡ 0 = omega (arith, bit_and-low value) in
        let high : bit_and base 0xFFFFF000 / 4096 ≡ base / 4096 =
          omega (arith, bit_and-high base k) in
        ground (
          arith,
          low,
          high,
          zero-bit_or (base / 4096),
          bit_or_page (bit_and value 0xFFF) (bit_and base 0xFFFFF000),
        )

page-set_bit_to : (x b : ℕ) (v : Bool) → x < 2 ^ 32 → b < 12 → set_bit_to x b v / 4096 ≡ x / 4096
unfolding set_bit_to
page-set_bit_to x b true h l =
    let none_above : 2 ^ b / 4096 ≡ 0 = omega (arith, pow-lt b 12 l) in
    ground (arith, bit_or_page x (2 ^ b), none_above, bit_or-zero (x / 4096))
page-set_bit_to x b false h l =
    let all_above : (2 ^ 32 - 1 - 2 ^ b) / 4096 ≡ 2 ^ 20 - 1 =
      omega (arith, pow-lt b 12 l, one-le-pow b 2) in
    ground (
      arith,
      bit_and_page x (2 ^ 32 - 1 - 2 ^ b),
      all_above,
      bit_and-ones 20 (x / 4096) (omega arith),
    )

-- Writing a flag keeps the entry's page base, and a 32-bit word.
pub get_page_base-set_bit_to :
    (x b : ℕ) (v : Bool)
    → x < 2 ^ 32
    → b < 12
    → (Pte.get_page_base (set_bit_to x b v) ≡ Pte.get_page_base x) × (set_bit_to x b v < 2 ^ 32)
unfolding Pte.get_page_base set_bit_to
get_page_base-set_bit_to x b v h l = (
  ground (arith, page, bit_and-high x h, bit_and-high (set_bit_to x b v) (omega (arith, page))),
  omega (arith, page),
)
  where
    page : set_bit_to x b v / 4096 ≡ x / 4096
    page = page-set_bit_to x b v h l

three_bits : (x : ℕ) → x / 512 % 8 ≡ bit x 9 + 2 * bit x 10 + 4 * bit x 11
unfolding bit
three_bits x = omega arith

abbrev with_extra : ℕ → ℕ → ℕ
with_extra value extra = bit_or (bit_and value 0xFFFFFE00) (bit_and extra 0xFFFFFFFF)

high_kept :
    (value extra k : ℕ)
    → bit 0xFFFFFE00 k ≡ 1
    → bit extra k ≡ 0
    → bit (with_extra value extra) k ≡ bit value k
high_kept value extra k h l = omega (
  arith,
  bit-bit_or k (bit_and value 0xFFFFFE00) (bit_and extra 0xFFFFFFFF),
  bit-bit_and k value 0xFFFFFE00,
  bit-bit_and k extra 0xFFFFFFFF,
  bit-lt k value,
)

high_clear : (extra : ℕ) → extra < 512 → (bit extra 9 ≡ 0) × (bit extra 10 ≡ 0) × (bit extra 11 ≡ 0)
unfolding bit
high_clear extra h = omega arith

high_ones : (bit 0xFFFFFE00 9 ≡ 1) × (bit 0xFFFFFE00 10 ≡ 1) × (bit 0xFFFFFE00 11 ≡ 1)
unfolding bit
high_ones = (refl, refl, refl)

low_taken : (value extra c : ℕ) → c < 9 → bit (with_extra value extra) c ≡ bit extra c
low_taken value extra c l = omega (
  arith,
  bit-bit_or c (bit_and value 0xFFFFFE00) (bit_and extra 0xFFFFFFFF),
  bit-bit_and c value 0xFFFFFE00,
  bit-bit_and c extra 0xFFFFFFFF,
  bit-mul_pow 9 c 0x7FFFFF l,
  bit-ones 32 c (omega arith),
  bit-lt c extra,
)

-- `setExtra` stores nothing in the bits that `getExtra` reads, and overwrites the flags: for every
-- value below 512 the extra bits stay as they were, and each of the nine flags becomes the bit of
-- that value.
set_extra_lem :
    (value extra c : ℕ)
    → extra < 512
    → c < 9
    → (Pte.get_extra (Pte.set_extra value extra) ≡ Pte.get_extra value)
      × (get_bit (Pte.set_extra value extra) c ≡ get_bit extra c)
unfolding Pte.get_extra Pte.set_extra
set_extra_lem value extra c h l =
    let x = with_extra value extra in
    let clear = high_clear extra h in
    (
      omega (
        arith,
        bit_and-seven (value / 512),
        bit_and-seven (x / 512),
        three_bits value,
        three_bits x,
        high_kept value extra 9 high_ones.0 clear.0,
        high_kept value extra 10 high_ones.1 clear.1,
        high_kept value extra 11 high_ones.2 clear.2,
      ),
      ground (arith, get_bit_lem x c, get_bit_lem extra c, low_taken value extra c l),
    )
