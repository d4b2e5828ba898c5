-- ===== src/Paging/Alloc.antt =====
-- mm/paging.cpp: what `alloc_page` allocates.
use arabos.Prelude.{
  ℕ, ◌+◌, ◌*◌, ◌/◌, ◌%◌, ◌^◌, ◌≤◌, ◌<◌, ◌≡◌, refl, ◌≢◌, Bool, true, false, Option, none, some,
  arith, dec_lt, ◌==◌, if◌then◌else◌,
}
use arabos.Prelude.Bits.{bit_or_disjoint, bit_or-lt, pow-lt, bit-ones}
use arabos.Paging.Words.{get_bit, set_bit, set_bit_to, supervisor, read_write}
use arabos.Paging.Words.Fields.{get_bit_lem, get_bit-set_bit_to}
use arabos.Paging.Pte
use arabos.Paging.Frames.{
  Memory, store, store_self, store_ne, FrameSearch, found, stuck, pg_size, find_frame, find_pte,
  map_entry, map_frame, Alloc, page, panic, alloc_page, heap_address, out_of_memory, no_empty_pte,
  bug,
}
use arabos.Paging.Search.{
  first_zero_lem, find_frame_found, find_frame-stuck, find_pte_lem, find_pte-none,
}
use arabos.Paging.Mapping.{map_entry_lem}

-- Whether the bitmap has a page frame as taken.
abbrev pub used : Memory → ℕ → Bool
used m frame = get_bit (m.free_mem (frame / 8)) (frame % 8)

-- Entry `e` of the heap's page table.
abbrev pub entry : Memory → ℕ → ℕ
entry m e = m.table (m.kernel_heap_page_table + 4 * e)

abbrev pub present : Memory → ℕ → Bool
present m e = Pte.get_present (entry m e)

-- The page frame that entry `e` maps.
abbrev pub frame_of : Memory → ℕ → ℕ
frame_of m e = Pte.get_page_base (entry m e) / 4096

-- Tables hold 32-bit words, and the bitmap bytes.
pub record IsWords (m : Memory) : Type 0 where
  pub words : (a : ℕ) → m.table a < 2 ^ 32
  pub bytes : (i : ℕ) → m.free_mem i < 256

-- What a successful `alloc_page` did.
pub record Allocated (m : Memory) (vaddr : ℕ) (m' : Memory) : Type 0 where
  pub frame : ℕ
  pub slot : ℕ
  -- the lowest free frame behind the kernel's, and the first absent entry
  pub frame_in : (1024 ≤ frame) × (frame < 2048)
  pub was_free : used m frame ≡ false
  pub lowest : (g : ℕ) → 1024 ≤ g → g < frame → used m g ≡ true
  pub slot_in : slot < 1024
  pub was_absent : present m slot ≡ false
  pub first_absent : (e : ℕ) → e < slot → present m e ≡ true
  -- the address, and the entry that now maps it
  pub address : vaddr ≡ 2 ^ 22 + slot * 4096
  pub maps : frame_of m' slot ≡ frame
  pub now_present : present m' slot ≡ true
  pub writable : Pte.get_access (entry m' slot) ≡ read_write
  pub kernel_only : Pte.get_privilage (entry m' slot) ≡ supervisor
  -- nothing else changed
  pub bitmap : (g : ℕ) → used m' g ≡ (if g == frame then true else used m g)
  pub others : (a : ℕ) → a ≢ m.kernel_heap_page_table + 4 * slot → m'.table a ≡ m.table a
  pub same_dir : m'.kernel_page_dir ≡ m.kernel_page_dir
  pub same_heap : m'.kernel_heap_page_table ≡ m.kernel_heap_page_table
  pub still_words : IsWords m'

pub heap_address_lem : (e : ℕ) → e < 1024 → heap_address e ≡ 2 ^ 22 + e * 4096
heap_address_lem e h = omega (arith, bit_or_disjoint 22 1 (e * 4096) (omega arith))

pub full_byte : (k : ℕ) → k < 8 → get_bit 0xFF k ≡ true
full_byte k h = rw (get_bit_lem 0xFF k, bit-ones 8 k h)

-- `used` after bit `b` of byte `i` is set.
bitmap_set :
    (f : ℕ → ℕ) (i b g : ℕ)
    → b < 8
    → get_bit (store f i (set_bit (f i) b) (g / 8)) (g % 8)
      ≡ (if g == i * 8 + b then true else get_bit (f (g / 8)) (g % 8))
unfolding set_bit_to
bitmap_set f i b g h =
    ground (arith, get_bit-set_bit_to (f i) b (g % 8) true (omega arith) (omega arith))

taken_below :
    (m : Memory) (i b : ℕ)
    → b < 8
    → ((k : ℕ) → 0 ≤ k → k < b → get_bit (m.free_mem i) k ≡ true)
    → ((k : ℕ) → 128 ≤ k → k < i → m.free_mem k ≡ 0xFF)
    → (g : ℕ) → 1024 ≤ g
    → g < i * 8 + b
    → used m g ≡ true
taken_below m i b small low full g p q = elim (dec_lt (g / 8) i) [
  | yes l ↦ rw (full (g / 8) (omega arith) l) (full_byte (g % 8) (omega arith))
  | no ge ↦ let e : g / 8 ≡ i = omega arith in rw e (low (g % 8) (omega arith) (omega arith))
]

module _ (m : Memory) (v : IsWords m) (i b slot : ℕ)
    (frames : find_frame m.free_mem 128 128 ≡ found i b)
    (ptes : find_pte m.table m.kernel_heap_page_table 1024 0 ≡ some slot) where
  map_frame-Allocated : Allocated m (heap_address slot) (map_frame m i b slot)
  unfolding map_frame set_bit
  map_frame-Allocated =
      let f = find_frame_found m.free_mem 128 128 {j = i} {b = b} frames in
      let z = first_zero_lem 8 0 (m.free_mem i) b f.2 in
      let p = find_pte_lem m.table m.kernel_heap_page_table 1024 0 slot ptes in
      let e =
        map_entry_lem (entry m slot) ((i * 8 + b) * 4096)
          (v.words (m.kernel_heap_page_table + 4 * slot)) (omega arith) in
      let pte = m.kernel_heap_page_table + 4 * slot in
      let self = store_self m.table pte (map_entry (m.table pte) ((i * 8 + b) * pg_size)) in
      record {
        frame = i * 8 + b;
        slot = slot;
        frame_in = omega arith;
        was_free = ground (arith, z.2);
        lowest = λ g p q. taken_below m i b (omega arith) z.3 f.3 g p q;
        slot_in = omega arith;
        was_absent = p.2;
        first_absent = λ k l. p.3 k (omega arith) l;
        address = heap_address_lem slot (omega arith);
        maps = ground (arith, self, e.0);
        now_present = ground (arith, self, e.1);
        writable = ground (arith, self, e.2);
        kernel_only = ground (arith, self, e.3);
        bitmap = λ g. bitmap_set m.free_mem i b g (omega arith);
        others = λ a ne. store_ne m.table pte _ a ne;
        same_dir = refl;
        same_heap = refl;
        still_words = record {
          words = λ a. ground (arith, v.words a, e.4);
          bytes = λ k.
              ground (arith, v.bytes k, v.bytes i, bit_or-lt 8 (m.free_mem i) (2 ^ b), pow-lt b 8);
        };
      }

-- What each outcome of `alloc_page` says about the memory that it was called in.
abbrev pub Outcome : Memory → Alloc → Type 0
Outcome m (page vaddr m') = Allocated m vaddr m'
Outcome m (panic out_of_memory) = (g : ℕ) → 1024 ≤ g → g < 2048 → used m g ≡ true
Outcome m (panic no_empty_pte) = (e : ℕ) → e < 1024 → present m e ≡ true
Outcome m (panic bug) = ⊥

-- In a memory of words and bytes, `alloc_page` takes the lowest free frame behind the kernel's and
-- maps it, writable and for the kernel only, through the first absent entry of the heap's page
-- table, whose address it returns, and it changes nothing else; it panics for want of memory only if
-- each of these frames is taken, for want of an entry only if each of the 1024 entries is present,
-- and never for the third reason, which the code calls a bug.
pub alloc_page_lem : (m : Memory) → IsWords m → Outcome m (alloc_page m)
unfolding alloc_page
alloc_page_lem m v = frames (find_frame m.free_mem 128 128) refl
  where
    ptes :
        (i b : ℕ)
        → find_frame m.free_mem 128 128 ≡ found i b
        → (o : Option ℕ) → find_pte m.table m.kernel_heap_page_table 1024 0 ≡ o
        → Outcome m (elim o [
          | none ↦ panic no_empty_pte
          | some empty_pte ↦ page (heap_address empty_pte) (map_frame m i b empty_pte)
        ])
    ptes i b f none p =
        λ e h. find_pte-none m.table m.kernel_heap_page_table 1024 0 p e (omega arith) (omega arith)
    ptes i b f (some slot) p = map_frame-Allocated m v i b slot f p

    frames :
        (s : FrameSearch)
        → find_frame m.free_mem 128 128 ≡ s
        → Outcome m (elim s [
          | stuck p ↦ panic p
          | found i b ↦ elim (find_pte m.table m.kernel_heap_page_table 1024 0) [
            | none ↦ panic no_empty_pte
            | some empty_pte ↦ page (heap_address empty_pte) (map_frame m i b empty_pte)
          ]
        ])
    frames (found i b) f = ptes i b f (find_pte m.table m.kernel_heap_page_table 1024 0) refl
    frames (stuck out_of_memory) f = λ g h k.
        rw
          ((find_frame-stuck m.free_mem 128 128 {p = out_of_memory} v.bytes f).1 (g / 8)
            (omega arith) (omega arith))
          (full_byte (g % 8) (omega arith))
    frames (stuck bug) f = cc ((find_frame-stuck m.free_mem 128 128 {p = bug} v.bytes f).0)
    frames (stuck no_empty_pte) f =
        absurd (cc ((find_frame-stuck m.free_mem 128 128 {p = no_empty_pte} v.bytes f).0))
