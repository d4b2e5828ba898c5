-- ===== src/Paging/Free.antt =====
-- mm/paging.cpp: what `free_page` frees, and that it undoes `alloc_page`.
use arabos.Prelude.{
  ℕ, ◌+◌, ◌-◌, ◌*◌, ◌/◌, ◌%◌, ◌^◌, ◌<◌, ◌≡◌, refl, sym, ap, ◌∙◌, ◌≢◌, true, false, arith,
  ℕ_discrete, ◌==◌, if◌then◌else◌,
}
use arabos.Prelude.Bits.{bit_and-le}
use arabos.Paging.Words.{get_bit, clr_bit, set_bit_to}
use arabos.Paging.Words.Fields.{get_bit-set_bit_to}
use arabos.Paging.Mapping.{get_present-cleared}
use arabos.Paging.Pte
use arabos.Paging.Pde
use arabos.Paging.Frames.{
  Memory, store, store_self, store_ne, page, alloc_page, free_page, pte_address, heap_address,
}
use arabos.Paging.Alloc.{
  used, entry, present, frame_of, IsWords, Allocated, Outcome, alloc_page_lem, heap_address_lem,
}
use arabos.Paging.Invariant
use arabos.Paging.Invariant.{IsValid, Allocated-IsValid}
use mathlib.Core.Path.{subst}

-- What `free_page` did with entry `slot`.
pub record Freed (m : Memory) (slot : ℕ) (m' : Memory) : Type 0 where
  pub absent : present m' slot ≡ false
  pub bitmap : (g : ℕ) → used m' g ≡ (if g == frame_of m slot then false else used m g)
  pub others : (a : ℕ) → a ≢ m.kernel_heap_page_table + 4 * slot → m'.table a ≡ m.table a
  pub same_dir : m'.kernel_page_dir ≡ m.kernel_page_dir
  pub same_heap : m'.kernel_heap_page_table ≡ m.kernel_heap_page_table
  pub still_words : IsWords m'

pte_address-heap :
    (m : Memory) (e : ℕ)
    → IsValid m
    → e < 1024
    → pte_address m (heap_address e) ≡ m.kernel_heap_page_table + 4 * e
unfolding pte_address
pte_address-heap m e v h =
    let at = heap_address_lem e h in
    let i : heap_address e / 2 ^ 22 % 1024 ≡ 1 = omega (arith, at) in
    let j : heap_address e / 2 ^ 12 % 1024 ≡ e = omega (arith, at) in
    ground (arith, i, j, v.heap_entry)

bitmap_clear :
    (f : ℕ → ℕ) (frame g : ℕ)
    → get_bit (store f (frame / 8) (clr_bit (f (frame / 8)) (frame % 8)) (g / 8)) (g % 8)
      ≡ (if g == frame then false else get_bit (f (g / 8)) (g % 8))
unfolding set_bit_to
bitmap_clear f frame g = ground (
  arith,
  get_bit-set_bit_to (f (frame / 8)) (frame % 8) (g % 8) false (omega arith) (omega arith),
)

-- In a valid memory, freeing the page of one of the heap's 1024 entries makes the entry absent and
-- the frame that it names free, and changes nothing else.
pub free_page_lem :
    (m : Memory) (slot : ℕ)
    → IsValid m
    → slot < 1024
    → Freed m slot (free_page m (heap_address slot))
unfolding free_page clr_bit
free_page_lem m slot v h =
    let pte = pte_address m (heap_address slot) in
    let at = pte_address-heap m slot v h in
    let frame = Pte.get_page_base (m.table pte) / 4096 in
    let is_frame : frame ≡ frame_of m slot =
      ap (λ (a : ℕ). Pte.get_page_base (m.table a) / 4096) at in
    let cleared = get_present-cleared (m.table pte) in
    let self = store_self m.table pte (Pte.set_present (m.table pte) false) in
    record {
      absent = ground (arith, self, cleared.0, at);
      bitmap = λ g. ground (arith, bitmap_clear m.free_mem frame g, is_frame);
      others = λ a ne. store_ne m.table pte _ a (λ e. ne (e ∙ at));
      same_dir = refl;
      same_heap = refl;
      still_words = record {
        words = λ a. ground (arith, v.is_words.words a, cleared.1);
        bytes = λ k. ground (
          arith,
          v.is_words.bytes k,
          v.is_words.bytes (frame / 8),
          bit_and-le (m.free_mem (frame / 8)) (2 ^ 32 - 1 - 2 ^ (frame % 8)),
        );
      };
    }

module _ {m m' : Memory} {slot : ℕ} (v : IsValid m) (h : slot < 1024) (was : present m slot ≡ true)
    (f : Freed m slot m') where
  pub entry_kept : (e : ℕ) → e ≢ slot → entry m' e ≡ entry m e
  entry_kept e ne =
      ap m'.table (ap (λ (h : ℕ). h + 4 * e) f.same_heap)
      ∙ f.others (m.kernel_heap_page_table + 4 * e) (omega arith)

  gone : (e : ℕ) → present m' e ≡ true → e ≢ slot
  gone e p q = let n : present m' e ≡ false = rw q f.absent in cc

  was_present : (e : ℕ) → present m' e ≡ true → present m e ≡ true
  was_present e p = rw (← entry_kept e (gone e p)) p

  frame_kept : (e : ℕ) → present m' e ≡ true → frame_of m' e ≡ frame_of m e
  frame_kept e p = rw (entry_kept e (gone e p))

  taken' : (e : ℕ) → e < 1024 → present m' e ≡ true → used m' (frame_of m' e) ≡ true
  taken' e l p =
      let ne : frame_of m e ≢ frame_of m slot =
        λ q. gone e p (v.unshared e slot l h (was_present e p) was q) in
      let t = v.taken e l (was_present e p) in
      rw (frame_kept e p) (ground (arith, f.bitmap (frame_of m e)))

  pub Freed-IsValid : IsValid m'
  Freed-IsValid = record {
    is_words = f.still_words;
    apart = omega (arith, f.same_dir, f.same_heap, v.apart);
    heap_entry =
        ap Pde.get_page_table_base (
          ap m'.table (ap (λ (d : ℕ). d + 4) f.same_dir)
          ∙ f.others (m.kernel_page_dir + 4) (omega (arith, v.apart)))
        ∙ v.heap_entry
        ∙ sym f.same_heap;
    in_pool = λ e l p. omega (arith, frame_kept e p, v.in_pool e l (was_present e p));
    taken = taken';
    unshared = λ e k he hk pe pk q.
        v.unshared e k he hk (was_present e pe) (was_present k pk)
          (sym (frame_kept e pe) ∙ q ∙ frame_kept k pk);
    kernel = λ g l. ground (arith, f.bitmap g, v.kernel g l, v.in_pool slot h was);
  }

-- `free_page` of the page of a present entry of the heap keeps the invariant.
pub free_page-IsValid :
    (m : Memory) (slot : ℕ)
    → IsValid m
    → slot < 1024
    → present m slot ≡ true
    → IsValid (free_page m (heap_address slot))
free_page-IsValid m slot v h p = Freed-IsValid v h p (free_page_lem m slot v h)

-- In a valid memory, freeing the page that `alloc_page` returned gives back the bitmap from before the allocation, and
-- every heap entry is present, and maps the frame, as before.
pub free_page-alloc_page :
    (m : Memory)
    → IsValid m
    → (vaddr : ℕ) (m' : Memory) → alloc_page m ≡ page vaddr m'
    → ((g : ℕ) → used (free_page m' vaddr) g ≡ used m g)
      × ((e : ℕ) → present (free_page m' vaddr) e ≡ present m e)
      × ((e : ℕ) → present m e ≡ true → frame_of (free_page m' vaddr) e ≡ frame_of m e)
free_page-alloc_page m v vaddr m' eq =
    let a : Allocated m vaddr m' = subst (Outcome m) eq (alloc_page_lem m v.is_words) in
    let v' : IsValid m' = Allocated-IsValid v a in
    let where_is : vaddr ≡ heap_address a.slot =
      a.address ∙ sym (heap_address_lem a.slot a.slot_in) in
    let f : Freed m' a.slot (free_page m' vaddr) =
      rw where_is (free_page_lem m' a.slot v' a.slot_in) in
    let kept = λ (e : ℕ) (ne : e ≢ a.slot).
      entry_kept v' a.slot_in a.now_present f e ne ∙ Invariant.entry_kept v a e ne in
    (
      λ g. ground (arith, f.bitmap g, a.bitmap g, a.maps, a.was_free),
      λ e. elim (ℕ_discrete e a.slot) [
        | yes s ↦ rw s (f.absent ∙ sym a.was_absent)
        | no ne ↦ rw (kept e ne)
      ],
      λ e p. elim (ℕ_discrete e a.slot) [
        | yes s ↦ absurd (ground (arith, a.was_absent))
        | no ne ↦ rw (kept e ne)
      ],
    )
