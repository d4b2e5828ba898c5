-- ===== src/Examples/Frames.antt =====
-- A memory with one page of the heap allocated, and runs of mm/paging.cpp on it.
use arabos.Prelude.{
  false, Bool, ℕ, zero, suc, ◌+◌, ◌*◌, ◌/◌, ◌%◌, ◌^◌, ◌<◌, ◌≡◌, refl, sym, ◌∙◌, true, false, some,
  arith, ltb, ◌==◌, if◌then◌else◌, ne→==_false,
}
use arabos.Paging.Words.{get_bit}
use arabos.Paging.Pte
use arabos.Paging.Pde
use arabos.Paging.Frames.{
  Memory, page, panic, find_frame, first_zero, find_pte, alloc_page, free_page, heap_address,
  init_paging,
}
use arabos.Paging.Alloc.{used, present, frame_of, IsWords, Outcome, full_byte, alloc_page_lem}
use arabos.Paging.Invariant.{IsValid, alloc_page-IsValid}
use arabos.Paging.Free.{free_page-IsValid, free_page-alloc_page}
use arabos.Heap.{Heap, answers, liballoc_alloc, liballoc_lock}
use arabos.Heap.Pages.{starts, locks, IsPage}
use arabos.Heap.Contract.{liballoc_lock-answers, liballoc_alloc-unheld}
use arabos.Paging.Boot.{Booted, init_paging_lem}

-- The directory at 2 MB, with the heap's table two pages behind it.
abbrev dir : ℕ
dir = 0x200000

abbrev heap : ℕ
heap = 0x202000

-- Entry 0 of the heap maps frame 1024.
abbrev words : ℕ → ℕ
words a = if a == dir + 4 then heap + 3 else if a == heap then 1024 * 4096 + 3 else 0

abbrev bitmap : ℕ → ℕ
bitmap i = if ltb i 128 then 0xFF else if i == 128 then 1 else 0

abbrev one_page : Memory
one_page = record {
  table = words;
  free_mem = bitmap;
  kernel_page_dir = dir;
  kernel_heap_page_table = heap;
}

one_page-IsWords : IsWords one_page
one_page-IsWords = record { words = λ a. ground arith; bytes = λ i. ground arith }

entry_lem : (e : ℕ) → words (heap + 4 * e) ≡ (if e == 0 then 1024 * 4096 + 3 else 0)
entry_lem e = ground arith

only_first : (e : ℕ) → present one_page e ≡ true → e ≡ 0
unfolding Pte.get_present get_bit
only_first zero p = refl
only_first (suc e) p =
    let absent : present one_page (suc e) ≡ false =
      rw (entry_lem (suc e), ne→==_false (suc e) 0 (λ q. omega arith)) refl in
    absurd cc

first_frame : frame_of one_page 0 ≡ 1024
unfolding Pte.get_page_base
first_frame = refl

pool : (e : ℕ) → present one_page e ≡ true → frame_of one_page e ≡ 1024
pool e p = rw (only_first e p) first_frame

kernel_frame : (g : ℕ) → g < 1024 → used one_page g ≡ true
kernel_frame g h =
    let e : bitmap (g / 8) ≡ 0xFF = ground arith in rw e (full_byte (g % 8) (omega arith))

directory_lem : Pde.get_page_table_base (words (dir + 4)) ≡ heap
unfolding Pde.get_page_table_base
directory_lem = refl

frame_taken : used one_page 1024 ≡ true
unfolding get_bit
frame_taken = refl

first_present : present one_page 0 ≡ true
unfolding Pte.get_present get_bit
first_present = refl

one_page-IsValid : IsValid one_page
one_page-IsValid = record {
  is_words = one_page-IsWords;
  apart = omega arith;
  heap_entry = directory_lem;
  in_pool = λ e h p. omega (arith, pool e p);
  taken = λ e h p. rw (pool e p) frame_taken;
  unshared = λ e k h l p q r. only_first e p ∙ sym (only_first k q);
  kernel = kernel_frame;
}

abbrev two_pages : Memory
unfolding alloc_page
two_pages = elim (alloc_page one_page) [ page vaddr m ↦ m | panic p ↦ one_page ]

allocates : alloc_page one_page ≡ page (2 ^ 22 + 4096) two_pages
unfolding alloc_page find_frame first_zero get_bit find_pte Pte.get_present
allocates = refl

alloc_page_lem_example : Outcome one_page (alloc_page one_page)
alloc_page_lem_example = alloc_page_lem one_page one_page-IsWords

alloc_page-IsValid_example : IsValid two_pages
alloc_page-IsValid_example =
    alloc_page-IsValid one_page one_page-IsValid (2 ^ 22 + 4096) two_pages allocates

free_page-IsValid_example : IsValid (free_page one_page (heap_address 0))
free_page-IsValid_example =
    free_page-IsValid one_page 0 one_page-IsValid (omega arith) first_present

free_page-alloc_page_example :
    ((g : ℕ) → used (free_page two_pages (2 ^ 22 + 4096)) g ≡ used one_page g)
    × ((e : ℕ) → present (free_page two_pages (2 ^ 22 + 4096)) e ≡ present one_page e)
    × ((e : ℕ)
        → present one_page e ≡ true
        → frame_of (free_page two_pages (2 ^ 22 + 4096)) e ≡ frame_of one_page e)
free_page-alloc_page_example =
    free_page-alloc_page one_page one_page-IsValid (2 ^ 22 + 4096) two_pages allocates

-- A kernel that ends at 1.5 MB.
init_paging_lem_example :
    (m : Memory) × (init_paging (λ a. 7) (λ i. 0xFF) 0x180000 ≡ some m) × Booted m
init_paging_lem_example =
    init_paging_lem (λ a. 7) (λ i. 0xFF) 0x180000 (λ a. omega arith) (λ i. omega arith)
      (omega arith)

-- Nobody holds the lock, and one page of the heap is allocated already.
abbrev unlocked : Heap
unlocked = record { mutex = 1; memory = one_page }

abbrev locked : Heap
locked = record { mutex = 0; memory = one_page }

abbrev handed : Heap
handed = record { mutex = 0; memory = two_pages }

abbrev nothing : ℕ → Bool
nothing a = false

locks_first : liballoc_lock 5 unlocked ≡ answers 0 locked
locks_first =
    liballoc_lock-answers 0 {start = unlocked} {held = nothing} {h = unlocked} refl one_page-IsValid
      starts

hands_out : liballoc_alloc locked 1 ≡ answers (2 ^ 22 + 4096) handed
unfolding liballoc_alloc
hands_out = rw (liballoc_alloc, allocates) refl

liballoc_alloc-unheld_example :
    (false ≡ false) × IsPage two_pages (2 ^ 22 + 4096) × IsValid two_pages
liballoc_alloc-unheld_example =
    liballoc_alloc-unheld 0 {start = unlocked} {held = nothing} {h = locked} {h' = handed}
      (2 ^ 22 + 4096) refl one_page-IsValid (locks starts locks_first) hands_out
