-- ===== src/Paging/Boot.antt =====
-- mm/paging.cpp: what `init_paging` leaves behind.
use arabos.Prelude.{
  ℕ, zero, suc, ◌+◌, ◌*◌, ◌/◌, ◌%◌, ◌^◌, ◌≤◌, ◌<◌, ◌≡◌, refl, ap, ◌∙◌, ◌⊎◌, inl, inr, true, false,
  ◌&&◌, some, arith, ℕ_discrete, ltb, leb, if◌then◌else◌,
}
use arabos.Paging.Words.{get_bit, read_write}
use arabos.Paging.Words.Fields.{get_bit_lem}
use arabos.Prelude.Bits.{bit-zero}
use arabos.Paging.Mapping.{map_entry_lem}
use arabos.Paging.Pte
use arabos.Paging.Pde
use arabos.Paging.Frames.{
  Memory, store, store_self, pg_size, mem_in_bytes, clear_words, directory_entry, map_entry,
  identity_map, fill, first_page_after_kernel, init_paging,
}
use arabos.Paging.Alloc.{used, entry, present, full_byte}
use arabos.Paging.Invariant.{IsValid}

within : (a b : ℕ) → b ≤ a → ltb a b ≡ false
within a b h = ground arith

fill_lem :
    (f : ℕ → ℕ) (v n i j : ℕ) → fill f v n i j ≡ (if leb i j && ltb j (i + n) then v else f j)
unfolding fill
fill_lem f v zero i j = ground arith
fill_lem f v (suc n) i j = ground (arith, fill_lem (store f i v) v n (i + 1) j)

identity_map_out :
    (t : ℕ → ℕ) (base n i a : ℕ)
    → (a < base + 4 * i) ⊎ (base + 4 * (i + n) ≤ a)
    → identity_map t base n i a ≡ t a
unfolding identity_map
identity_map_out t base zero i a h = refl
identity_map_out t base (suc n) i a (inl h) = ground (
  arith,
  identity_map_out (store t (base + 4 * i) (map_entry Pte.empty (i * 2 ^ 12))) base n (i + 1) a
      (inl (omega arith)),
)
identity_map_out t base (suc n) i a (inr h) = ground (
  arith,
  identity_map_out (store t (base + 4 * i) (map_entry Pte.empty (i * 2 ^ 12))) base n (i + 1) a
      (inr (omega arith)),
)

empty_word : Pte.empty < 2 ^ 32
unfolding Pte.empty
empty_word = omega arith

identity_map_in :
    (t : ℕ → ℕ) (base n i k : ℕ)
    → i ≤ k
    → k < i + n
    → identity_map t base n i (base + 4 * k) ≡ map_entry Pte.empty (k * 4096)
unfolding identity_map
identity_map_in t base zero i k p q = absurd (omega arith)
identity_map_in t base (suc n) i k p q =
    let stored = store t (base + 4 * i) (map_entry Pte.empty (i * 2 ^ 12)) in
    elim (ℕ_discrete k i) [
      | yes e ↦
          identity_map_out stored base n (i + 1) (base + 4 * k) (inl (omega arith))
          ∙ rw e (store_self t (base + 4 * i) _)
      | no ne ↦ identity_map_in stored base n (i + 1) k (omega arith) (omega arith)
    ]

identity_map_words :
    (t : ℕ → ℕ) (base n i : ℕ)
    → i + n ≤ 1024
    → ((a : ℕ) → t a < 2 ^ 32)
    → (a : ℕ) → identity_map t base n i a < 2 ^ 32
unfolding identity_map
identity_map_words t base zero i h w a = w a
identity_map_words t base (suc n) i h w a =
    identity_map_words (store t (base + 4 * i) (map_entry Pte.empty (i * 2 ^ 12))) base n (i + 1)
      (omega arith)
      (λ k. ground (arith, w k, map_entry_lem Pte.empty (i * 2 ^ 12) empty_word (omega arith))) a

directory_entry-map_entry : (base : ℕ) → directory_entry base ≡ map_entry Pte.empty base
unfolding directory_entry map_entry Pte.empty Pde.empty Pde.set_page_table_base Pde.set_privilage
    Pde.set_access Pde.set_present
directory_entry-map_entry base = refl

directory_entry_lem :
    (base : ℕ)
    → base < 2 ^ 32
    → base % 4096 ≡ 0
    → (Pde.get_page_table_base (directory_entry base) ≡ base) × (directory_entry base < 2 ^ 32)
unfolding Pde.get_page_table_base Pte.get_page_base
directory_entry_lem base h a =
    let e = map_entry_lem Pte.empty base empty_word h in
    let d = directory_entry-map_entry base in (ground (arith, d, e.0), ground (arith, d, e.4))

absent_zero : Pte.get_present 0 ≡ false
unfolding Pte.get_present get_bit
absent_zero = refl

zero_clear : (k : ℕ) → get_bit 0 k ≡ false
zero_clear k = rw (get_bit_lem 0 k, bit-zero k)

-- The memory after boot.
pub record Booted (m : Memory) : Type 0 where
  pub valid : IsValid m
  -- page 0 is not mapped; each later page of the kernel's image is mapped to itself, writable
  pub image : ℕ
  pub image_entry : Pde.get_page_table_base (m.table m.kernel_page_dir) ≡ image
  pub null_page : Pte.get_present (m.table image) ≡ false
  pub identity :
      (k : ℕ)
      → 1 ≤ k
      → k < 1024
      → (Pte.get_page_base (m.table (image + 4 * k)) ≡ k * 4096)
        × (Pte.get_present (m.table (image + 4 * k)) ≡ true)
        × (Pte.get_access (m.table (image + 4 * k)) ≡ read_write)
  -- the heap has no page yet, and every frame behind the kernel's is free
  pub no_heap_page : (e : ℕ) → e < 1024 → present m e ≡ false
  pub pool_free : (g : ℕ) → 1024 ≤ g → g < 2048 → used m g ≡ false

module _ (table free_mem : ℕ → ℕ) (kernel_end_addr : ℕ) (w : (a : ℕ) → table a < 2 ^ 32)
    (b : (i : ℕ) → free_mem i < 256)
    (fits : first_page_after_kernel kernel_end_addr + 3 * pg_size ≤ 1024 * 1024 * 4) where
  abbrev dir : ℕ
  dir = first_page_after_kernel kernel_end_addr

  abbrev img : ℕ
  img = dir + pg_size

  abbrev heap : ℕ
  heap = dir + 2 * pg_size

  abbrev cleared : ℕ → ℕ
  cleared = clear_words (clear_words (clear_words table dir pg_size) img pg_size) heap pg_size

  abbrev entered : ℕ → ℕ
  entered = store (store cleared dir (directory_entry img)) (dir + 4) (directory_entry heap)

  aligned : (dir % 4096 ≡ 0) × (img % 4096 ≡ 0) × (heap % 4096 ≡ 0)
  aligned = omega arith

  dirs : (directory_entry img < 2 ^ 32) × (directory_entry heap < 2 ^ 32)
  dirs = (
    (directory_entry_lem img (omega arith) (omega arith)).1,
    (directory_entry_lem heap (omega arith) (omega arith)).1,
  )

  entered_words : (a : ℕ) → entered a < 2 ^ 32
  entered_words a = ground (arith, w a, dirs)

  abbrev booted : Memory
  booted = record {
    table = identity_map entered img 1023 1;
    free_mem = fill (fill free_mem 0 (mem_in_bytes / 8) 0) 0xFF (1024 / 8) 0;
    kernel_page_dir = dir;
    kernel_heap_page_table = heap;
  }

  heap_word : (e : ℕ) → e < 1024 → entry booted e ≡ 0
  heap_word e h =
      identity_map_out entered img 1023 1 (heap + 4 * e) (inr (omega arith)) ∙ ground arith

  byte : (i : ℕ) → i < mem_in_bytes / 8 → booted.free_mem i ≡ (if ltb i 128 then 0xFF else 0)
  byte i h = ground (
    arith,
    fill_lem (fill free_mem 0 (mem_in_bytes / 8) 0) 0xFF (1024 / 8) 0 i,
    fill_lem free_mem 0 (mem_in_bytes / 8) 0 i,
  )

  no_page : (e : ℕ) → e < 1024 → present booted e ≡ false
  no_page e h = rw (heap_word e h) absent_zero

  kernel_taken : (g : ℕ) → g < 1024 → used booted g ≡ true
  kernel_taken g h =
      let e : booted.free_mem (g / 8) ≡ 0xFF = ground (arith, byte (g / 8) (omega arith)) in
      rw e (full_byte (g % 8) (omega arith))

  others_free : (g : ℕ) → 1024 ≤ g → g < 2048 → used booted g ≡ false
  others_free g h k =
      let e : booted.free_mem (g / 8) ≡ 0 = ground (arith, byte (g / 8) (omega arith)) in
      rw e (zero_clear (g % 8))

  all_bytes : (i : ℕ) → booted.free_mem i < 256
  all_bytes i = ground (
    arith,
    b i,
    fill_lem (fill free_mem 0 (mem_in_bytes / 8) 0) 0xFF (1024 / 8) 0 i,
    fill_lem free_mem 0 (mem_in_bytes / 8) 0 i,
  )

  second_entry : booted.table (dir + 4) ≡ directory_entry heap
  second_entry = identity_map_out entered img 1023 1 (dir + 4) (inl (omega arith)) ∙ ground arith

  first_entry : booted.table dir ≡ directory_entry img
  first_entry = identity_map_out entered img 1023 1 dir (inl (omega arith)) ∙ ground arith

  null_word : booted.table img ≡ 0
  null_word = identity_map_out entered img 1023 1 img (inl (omega arith)) ∙ ground arith

  booted-IsValid : IsValid booted
  booted-IsValid = record {
    is_words = record {
      words = identity_map_words entered img 1023 1 (omega arith) entered_words;
      bytes = all_bytes;
    };
    apart = omega arith;
    heap_entry =
        ap Pde.get_page_table_base second_entry
        ∙ (directory_entry_lem heap (omega arith) (omega arith)).0;
    in_pool = λ e h p. absurd (ground (arith, no_page e h));
    taken = λ e h p. absurd (ground (arith, no_page e h));
    unshared = λ e k h l p q r. absurd (ground (arith, no_page e h));
    kernel = kernel_taken;
  }

  mapped : (k : ℕ) → 1 ≤ k → k < 1024 → booted.table (img + 4 * k) ≡ map_entry Pte.empty (k * 4096)
  mapped k p q = identity_map_in entered img 1023 1 k p (omega arith)

  booted-Booted : Booted booted
  booted-Booted = record {
    valid = booted-IsValid;
    image = img;
    image_entry =
        ap Pde.get_page_table_base first_entry
        ∙ (directory_entry_lem img (omega arith) (omega arith)).0;
    null_page = ap Pte.get_present null_word ∙ absent_zero;
    identity = λ k p q.
        let e = map_entry_lem Pte.empty (k * 4096) empty_word (omega arith) in
        (
          ground (arith, mapped k p q, e.0),
          ap Pte.get_present (mapped k p q) ∙ e.1,
          ap Pte.get_access (mapped k p q) ∙ e.2,
        );
    no_heap_page = no_page;
    pool_free = others_free;
  }

-- If the kernel and its three pages of tables end within 4 MB, `init_paging` returns, and leaves a
-- memory that satisfies the allocator's invariant: page 0 is not mapped, each later page of the
-- first 4 MB is mapped to itself, writable, the heap has no page, the kernel's frames are taken and
-- the 1024 frames behind them free.
pub init_paging_lem :
    (table free_mem : ℕ → ℕ) (kernel_end_addr : ℕ)
    → ((a : ℕ) → table a < 2 ^ 32)
    → ((i : ℕ) → free_mem i < 256)
    → first_page_after_kernel kernel_end_addr + 3 * pg_size ≤ 1024 * 1024 * 4
    → (m : Memory) × (init_paging table free_mem kernel_end_addr ≡ some m) × Booted m
unfolding init_paging
init_paging_lem table free_mem end w b fits = (
  booted table free_mem end w b fits,
  rw (within _ _ fits),
  booted-Booted table free_mem end w b fits,
)
