-- ===== src/Interrupts/Segments.antt =====
-- i386/gdt.cpp and include/gdt.h: the segment descriptors.
use arabos.Prelude.{
  ℕ, ◌+◌, ◌-◌, ◌*◌, ◌/◌, ◌%◌, ◌^◌, ◌<◌, bit_and, bit_or, ◌≡◌, refl, ◌∙◌, Bool, true, List, arith,
  ◌==◌, set,
}
use arabos.Prelude.Below.{holds_to, holds_to_lem}
use arabos.Prelude.Bits.{bit_or_disjoint, bit_or_comm}

-- `struct gdt_entry`
pub record GdtEntry : Type 0 where
  pub limit_low : ℕ
  pub base_low : ℕ
  pub base_middle : ℕ
  pub access : ℕ
  pub granularity : ℕ
  pub base_high : ℕ

-- The entry that `gdt_set_gate` leaves: `>>` divides, and `&` with ones takes the low bits.
unfoldable pub gdt_gate : ℕ → ℕ → ℕ → ℕ → GdtEntry
gdt_gate base limit access gran = record {
  base_low = base % 2 ^ 16;
  base_middle = base / 2 ^ 16 % 2 ^ 8;
  base_high = base / 2 ^ 24 % 2 ^ 8;
  limit_low = limit % 2 ^ 16;
  granularity = bit_or (limit / 2 ^ 16 % 2 ^ 4) (bit_and gran 0xF0);
  access = access;
}

unfoldable pub gdt_set_gate : List GdtEntry → ℕ → ℕ → ℕ → ℕ → ℕ → List GdtEntry
gdt_set_gate gdt num base limit access gran = set gdt num (gdt_gate base limit access gran)

-- GRAN_4K_PAGES, GRAN_OP_SIZE_32 and 0xF
unfoldable pub kernel_gran : ℕ
kernel_gran = bit_or (bit_or 0x80 0x40) 0xF

-- GDT_PRESENT, ring 0, GDT_EXECUTABLE, GDT_WRITABLE and GDT_ACCESSED
unfoldable pub kernel_code_flags : ℕ
kernel_code_flags = bit_or (bit_or (bit_or (bit_or (bit_or 0x10 0x80) 0) 0x8) 0x2) 0x1

-- GDT_PRESENT, ring 0 and GDT_WRITABLE
unfoldable pub kernel_data_flags : ℕ
kernel_data_flags = bit_or (bit_or (bit_or 0x10 0x80) 0) 0x2

-- What the processor is given: the table, and the limit and the base of the pointer to it.
pub record GdtLoaded : Type 0 where
  pub table : List GdtEntry
  pub limit : ℕ
  pub base : ℕ

-- `address` is that of `gdt`; an entry has 8 bytes.
unfoldable pub gdt_install : List GdtEntry → ℕ → GdtLoaded
gdt_install gdt address = record {
  table =
      gdt_set_gate
        (gdt_set_gate (gdt_set_gate gdt 0 0 0 0 0) 1 0 0xFFFFFFFF kernel_code_flags kernel_gran) 2 0
        0xFFFFFFFF kernel_data_flags kernel_gran;
  limit = 8 * 3 - 1;
  base = address;
}

-- How the processor reads an entry.
abbrev pub segment_base : GdtEntry → ℕ
segment_base e = e.base_low + e.base_middle * 2 ^ 16 + e.base_high * 2 ^ 24

abbrev pub segment_limit : GdtEntry → ℕ
segment_limit e = e.limit_low + e.granularity % 2 ^ 4 * 2 ^ 16

high_nibble : ℕ → Bool
high_nibble gran = bit_and gran 0xF0 == gran / 16 * 16

high_nibble_table : holds_to high_nibble 255 ≡ true
unfolding holds_to high_nibble
high_nibble_table = refl

bit_and-high_nibble : (gran : ℕ) → gran < 256 → bit_and gran 0xF0 ≡ gran / 16 * 16
unfolding high_nibble
bit_and-high_nibble gran h =
    ground (arith, holds_to_lem high_nibble 255 gran (omega arith) high_nibble_table)

granularity_lem :
    (low gran : ℕ) → low < 16 → gran < 256 → bit_or low (bit_and gran 0xF0) ≡ gran / 16 * 16 + low
granularity_lem low gran h k =
    rw (bit_and-high_nibble gran k)
      (bit_or_comm low (gran / 16 * 16) ∙ bit_or_disjoint 4 (gran / 16) low h)

-- A descriptor as the processor reads it.
pub record Reads (e : GdtEntry) (base limit access flags : ℕ) : Type 0 where
  pub base_read : segment_base e ≡ base
  pub limit_read : segment_limit e ≡ limit
  pub access_read : e.access ≡ access
  pub flags_read : e.granularity / 16 ≡ flags

-- The processor reads from the entry of `gdt_set_gate` the base, the access byte, the low 20 bits of
-- the limit, and the high half of `gran`, for a base of 32 bits and a `gran` of 8.
gdt_gate-Reads :
    (base limit access gran : ℕ)
    → base < 2 ^ 32
    → gran < 2 ^ 8
    → Reads (gdt_gate base limit access gran) base (limit % 2 ^ 20) access (gran / 16)
unfolding gdt_gate
gdt_gate-Reads base limit access gran h k =
    let g = granularity_lem (limit / 2 ^ 16 % 2 ^ 4) gran (omega arith) k in
    record {
      base_read = omega arith;
      limit_read = omega (arith, g);
      access_read = refl;
      flags_read = omega (arith, g);
    }
