-- ===== src/Paging/Frames.antt =====
-- mm/paging.cpp: `alloc_page`, `free_page` and `init_paging` over the bitmap `freeMem` and the page
-- tables in physical memory.
use arabos.Prelude.{
  ℕ, zero, suc, ◌+◌, ◌-◌, ◌*◌, ◌/◌, ◌%◌, ◌^◌, bit_or, ◌≡◌, ◌≢◌, true, false, Option, none, some,
  arith, ltb, ◌==◌, if◌then◌else◌,
}
use arabos.Paging.Words.{set_bit, clr_bit, get_bit, supervisor, read_write}
use arabos.Paging.Pte
use arabos.Paging.Pde

-- `table` reads the 32-bit word at a physical address; `free_mem` is the byte array `freeMem`, one
-- bit for a page frame.
pub record Memory : Type 0 where
  pub table : ℕ → ℕ
  pub free_mem : ℕ → ℕ
  pub kernel_page_dir : ℕ
  pub kernel_heap_page_table : ℕ

abbrev pub pg_size : ℕ
pg_size = 1024 * 4

abbrev pub mem_in_bytes : ℕ
mem_in_bytes = 8 * 1024 * 1024

abbrev pub phys_pages : ℕ
phys_pages = mem_in_bytes / pg_size

abbrev pub kernel_pages : ℕ
kernel_pages = 4 * 1024 * 1024 / pg_size

-- A store to one index of an array.
abbrev pub store : (ℕ → ℕ) → ℕ → ℕ → ℕ → ℕ
store f i v j = if i == j then v else f j

pub store_self : (f : ℕ → ℕ) (i v : ℕ) → store f i v i ≡ v
store_self f i v = ground arith

pub store_ne : (f : ℕ → ℕ) (i v j : ℕ) → j ≢ i → store f i v j ≡ f j
store_ne f i v j ne = ground arith

-- The first of the bits `b`, `b + 1`, … that is 0 in `pack`, with `n` bits left to look at.
unfoldable pub first_zero : ℕ → ℕ → ℕ → Option ℕ
first_zero zero b pack = none
first_zero (suc n) b pack =
    let rest = first_zero n (b + 1) pack in if get_bit pack b then rest else some b

pub data Panic : Type 0 where
  bug out_of_memory no_empty_pte : Panic

pub data FrameSearch : Type 0 where
  found : ℕ → ℕ → FrameSearch
  stuck : Panic → FrameSearch

-- The loop over the bytes `i`, `i + 1`, … of the bitmap, with `n` bytes left.
unfoldable pub find_frame : (ℕ → ℕ) → ℕ → ℕ → FrameSearch
find_frame free_mem zero i = stuck out_of_memory
find_frame free_mem (suc n) i =
    let rest = find_frame free_mem n (i + 1) in
    if free_mem i == 0xFF
    then rest
    else elim (first_zero 8 0 (free_mem i)) [ none ↦ stuck bug | some b ↦ found i b ]

-- The loop over the entries `i`, `i + 1`, … of the heap's page table, with `n` entries left.
unfoldable pub find_pte : (ℕ → ℕ) → ℕ → ℕ → ℕ → Option ℕ
find_pte table base zero i = none
find_pte table base (suc n) i =
    let rest = find_pte table base n (i + 1) in
    if Pte.get_present (table (base + 4 * i)) then rest else some i

-- The entry that maps a page: the old word with its base, privilege, access and presence stored.
unfoldable pub map_entry : ℕ → ℕ → ℕ
unfolding Pte.set_page_base Pte.set_privilage Pte.set_access Pte.set_present
map_entry pte paddr =
    Pte.set_present
      (Pte.set_access (Pte.set_privilage (Pte.set_page_base pte paddr) supervisor) read_write) true

-- `panic` halts the machine.
pub data Alloc : Type 0 where
  page : ℕ → Memory → Alloc
  panic : Panic → Alloc

-- `(1<<22) | (emptyPte<<12)`
abbrev pub heap_address : ℕ → ℕ
heap_address empty_pte = bit_or (2 ^ 22) (empty_pte * 2 ^ 12)

unfoldable pub map_frame : Memory → ℕ → ℕ → ℕ → Memory
map_frame m i b empty_pte =
    let pte = m.kernel_heap_page_table + 4 * empty_pte in
    record m {
      free_mem = store m.free_mem i (set_bit (m.free_mem i) b);
      table = store m.table pte (map_entry (m.table pte) ((i * 8 + b) * pg_size));
    }

unfoldable pub alloc_page : Memory → Alloc
unfolding map_frame
alloc_page m = elim (find_frame m.free_mem (phys_pages / 8 - kernel_pages / 8) (kernel_pages / 8)) [
  | stuck p ↦ panic p
  | found i b ↦ elim (find_pte m.table m.kernel_heap_page_table 1024 0) [
    | none ↦ panic no_empty_pte
    | some empty_pte ↦ page (heap_address empty_pte) (map_frame m i b empty_pte)
  ]
]

-- The address of the page table entry for a virtual address, found through the page directory.
unfoldable pub pte_address : Memory → ℕ → ℕ
pte_address m vaddr =
    Pde.get_page_table_base (m.table (m.kernel_page_dir + 4 * (vaddr / 2 ^ 22 % 1024)))
    + 4 * (vaddr / 2 ^ 12 % 1024)

unfoldable pub free_page : Memory → ℕ → Memory
free_page m vaddr =
    let pte = pte_address m vaddr in
    let frame_index = Pte.get_page_base (m.table pte) / pg_size in
    record m {
      free_mem =
          store m.free_mem (frame_index / 8)
            (clr_bit (m.free_mem (frame_index / 8)) (frame_index % 8));
      table = store m.table pte (Pte.set_present (m.table pte) false);
    }

-- `init_paging`. `first` is FIRST_PAGE_AFTER_KERNEL(): the directory stands there, and the page
-- tables of the kernel's image and heap in the two pages behind it.
abbrev pub first_page_after_kernel : ℕ → ℕ
first_page_after_kernel kernel_end_addr = kernel_end_addr + (pg_size - kernel_end_addr % pg_size)

-- `memset(dest, 0, count)` on words.
abbrev pub clear_words : (ℕ → ℕ) → ℕ → ℕ → ℕ → ℕ
clear_words table dest count a =
    if ltb a dest then table a else if ltb a (dest + count) then 0 else table a

-- A directory entry of the kernel for the page table at `base`.
unfoldable pub directory_entry : ℕ → ℕ
directory_entry base =
    Pde.set_present
      (Pde.set_access (Pde.set_privilage (Pde.set_page_table_base Pde.empty base) supervisor)
        read_write)
      true

-- The loop that maps page `i`, `i + 1`, … to itself, with `n` pages left.
unfoldable pub identity_map : (ℕ → ℕ) → ℕ → ℕ → ℕ → ℕ → ℕ
identity_map table base zero i = table
identity_map table base (suc n) i =
    identity_map (store table (base + 4 * i) (map_entry Pte.empty (i * 2 ^ 12))) base n (i + 1)

-- A loop that stores `v` in the bytes `i`, `i + 1`, …, with `n` bytes left.
unfoldable pub fill : (ℕ → ℕ) → ℕ → ℕ → ℕ → ℕ → ℕ
fill f v zero i = f
fill f v (suc n) i = fill (store f i v) v n (i + 1)

-- `enable_paging` stores a zero byte at 4 MB - 1, in a page that is not a table or in the last word of the
-- heap's table, which is 0: it is left out.
unfoldable pub init_paging : (ℕ → ℕ) → (ℕ → ℕ) → ℕ → Option Memory
init_paging table free_mem kernel_end_addr =
    let dir = first_page_after_kernel kernel_end_addr in
    let image = dir + pg_size in
    let heap = dir + 2 * pg_size in
    let cleared =
      clear_words (clear_words (clear_words table dir pg_size) image pg_size) heap pg_size in
    let entered =
      store (store cleared dir (directory_entry image)) (dir + 4) (directory_entry heap) in
    let taken = fill (fill free_mem 0 (mem_in_bytes / 8) 0) 0xFF (1024 / 8) 0 in
    if ltb (1024 * 1024 * 4) (dir + 3 * pg_size)
    then none
    else some (record {
      table = identity_map entered image 1023 1;
      free_mem = taken;
      kernel_page_dir = dir;
      kernel_heap_page_table = heap;
    })
