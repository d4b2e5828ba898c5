-- ===== src/Paging/Invariant.antt =====
-- mm/paging.cpp: the invariant of the bitmap and the heap's page table, which `alloc_page` and
-- `free_page` keep.
use arabos.Prelude.{ℕ, ◌+◌, ◌*◌, ◌≤◌, ◌<◌, ◌≡◌, sym, ap, ◌∙◌, ◌≢◌, true, false, arith, ℕ_discrete}
use mathlib.Core.Path.{subst}
use arabos.Paging.Pde
use arabos.Paging.Frames.{Memory, page, alloc_page}
use arabos.Paging.Alloc.{
  used, entry, present, frame_of, IsWords, Allocated, Outcome, alloc_page_lem,
}

pub record IsValid (m : Memory) : Type 0 where
  pub is_words : IsWords m
  -- the directory's page lies below the heap's table, and its second entry leads there
  pub apart : m.kernel_page_dir + 4096 ≤ m.kernel_heap_page_table
  pub heap_entry :
      Pde.get_page_table_base (m.table (m.kernel_page_dir + 4)) ≡ m.kernel_heap_page_table
  -- a present entry maps a taken frame behind the kernel's, and no other entry maps it
  pub in_pool :
      (e : ℕ) → e < 1024 → present m e ≡ true → (1024 ≤ frame_of m e) × (frame_of m e < 2048)
  pub taken : (e : ℕ) → e < 1024 → present m e ≡ true → used m (frame_of m e) ≡ true
  pub unshared :
      (e k : ℕ)
      → e < 1024
      → k < 1024
      → present m e ≡ true
      → present m k ≡ true
      → frame_of m e ≡ frame_of m k
      → e ≡ k
  -- the kernel's own frames are taken
  pub kernel : (g : ℕ) → g < 1024 → used m g ≡ true

module _ {m m' : Memory} {vaddr : ℕ} (v : IsValid m) (a : Allocated m vaddr m') where
  pub entry_kept : (e : ℕ) → e ≢ a.slot → entry m' e ≡ entry m e
  entry_kept e ne =
      ap m'.table (ap (λ (h : ℕ). h + 4 * e) a.same_heap)
      ∙ a.others (m.kernel_heap_page_table + 4 * e) (omega arith)

  was_present : (e : ℕ) → e ≢ a.slot → present m' e ≡ true → present m e ≡ true
  was_present e ne p = rw (← entry_kept e ne) p

  frame_kept : (e : ℕ) → e ≢ a.slot → frame_of m' e ≡ frame_of m e
  frame_kept e ne = rw (entry_kept e ne)

  frame_new : (e : ℕ) → e ≡ a.slot → frame_of m' e ≡ a.frame
  frame_new e s = rw s a.maps

  not_new : (e : ℕ) → e < 1024 → e ≢ a.slot → present m' e ≡ true → frame_of m' e ≢ a.frame
  not_new e h ne p q =
      let t : used m (frame_of m' e) ≡ true =
        rw (frame_kept e ne) (v.taken e h (was_present e ne p)) in
      let f : used m (frame_of m' e) ≡ false = rw q a.was_free in cc

  taken' : (e : ℕ) → e < 1024 → present m' e ≡ true → used m' (frame_of m' e) ≡ true
  taken' e h p = elim (ℕ_discrete e a.slot) [
    | yes s ↦ ground (arith, a.bitmap (frame_of m' e), frame_new e s)
    | no ne ↦
        let t : used m (frame_of m' e) ≡ true =
          rw (frame_kept e ne) (v.taken e h (was_present e ne p)) in
        ground (arith, a.bitmap (frame_of m' e))
  ]

  unshared' :
      (e k : ℕ)
      → e < 1024
      → k < 1024
      → present m' e ≡ true
      → present m' k ≡ true
      → frame_of m' e ≡ frame_of m' k
      → e ≡ k
  unshared' e k he hk pe pk q = elim (ℕ_discrete e a.slot) [
    | yes s ↦ elim (ℕ_discrete k a.slot) [
      | yes t ↦ omega arith
      | no ne ↦ absurd (not_new k hk ne pk (sym q ∙ frame_new e s))
    ]
    | no ne ↦ elim (ℕ_discrete k a.slot) [
      | yes t ↦ absurd (not_new e he ne pe (q ∙ frame_new k t))
      | no nk ↦
          v.unshared e k he hk (was_present e ne pe) (was_present k nk pk)
            (sym (frame_kept e ne) ∙ q ∙ frame_kept k nk)
    ]
  ]

  dir_kept : m'.table (m'.kernel_page_dir + 4) ≡ m.table (m.kernel_page_dir + 4)
  dir_kept =
      ap m'.table (ap (λ (d : ℕ). d + 4) a.same_dir)
      ∙ a.others (m.kernel_page_dir + 4) (omega (arith, v.apart))

  pub Allocated-IsValid : IsValid m'
  Allocated-IsValid = record {
    is_words = a.still_words;
    apart = omega (arith, a.same_dir, a.same_heap, v.apart);
    heap_entry = ap Pde.get_page_table_base dir_kept ∙ v.heap_entry ∙ sym a.same_heap;
    in_pool = λ e h p. elim (ℕ_discrete e a.slot) [
      | yes s ↦ omega (arith, frame_new e s, a.frame_in)
      | no ne ↦ omega (arith, frame_kept e ne, v.in_pool e h (was_present e ne p))
    ];
    taken = taken';
    unshared = unshared';
    kernel = λ g h. ground (arith, a.bitmap g, v.kernel g h, a.frame_in);
  }

-- An `alloc_page` that returns a page keeps the invariant: each page of the kernel's heap has a page frame of its own.
pub alloc_page-IsValid :
    (m : Memory) → IsValid m → (vaddr : ℕ) (m' : Memory) → alloc_page m ≡ page vaddr m' → IsValid m'
alloc_page-IsValid m v vaddr m' e =
    let a : Allocated m vaddr m' = subst (Outcome m) e (alloc_page_lem m v.is_words) in
    Allocated-IsValid v a
