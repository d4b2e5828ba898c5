-- ===== src/Heap.antt =====
-- mm/liballoc_link.cpp: the four functions through which the allocator of mm/liballoc.cpp, another
-- project's library, locks itself and asks for pages. One thread calls them.
use arabos.Prelude.{
  ℕ, zero, suc, ◌+◌, ◌-◌, ◌*◌, ◌/◌, ◌%◌, ◌^◌, ◌≤◌, ◌<◌, min, bit_and, bit_or, bit_xor, ◌≡◌, refl,
  sym, ap, ap₂, ◌∙◌, fun_ext, ◌≢◌, ◌↔◌, ◌⊎◌, inl, inr, Bool, true, false, not, ◌&&◌, ◌||◌, Option,
  none, some, List, [], ◌∷◌, ◌++◌, map, arith, dec_lt, ℕ_discrete, ltb, leb, ◌==◌, if◌then◌else◌,
  Bool-cases, Option-cases, ==_iff, ltb→lt, lt→ltb, leb→le, le→leb, lt→leb_false, le→ltb_false,
  ne→==_false, length, get_elem?, set, get_or, get_or-append, take, drop, replicate, length-append,
  length-set, get_elem?-set_self, get_elem?-set_ne, length-take, length-drop, take-append-drop,
  take-prefix, take-all, take-append, drop-append,
}
use arabos.Semaphore.{fetch_and_add}
use arabos.Semaphore.Alone.{wait}
use arabos.Paging.Frames.{Memory, Alloc, page, panic, alloc_page, free_page}
pub mod Pages
pub mod Contract

-- The semaphore `mutex`, and the memory that the pages come from.
pub record Heap : Type 0 where
  pub mutex : ℕ
  pub memory : Memory

-- A function returns, it panics, or it waits for ever.
pub data Hooked : Type 0 where
  answers : ℕ → Heap → Hooked
  panics : Hooked
  waits : Hooked

-- `fuel` is the number of accesses that `wait` may make.
unfoldable pub liballoc_lock : ℕ → Heap → Hooked
liballoc_lock fuel h = elim (wait fuel h.mutex) [
  | none ↦ waits
  | some m ↦ answers 0 (record h { mutex = m })
]

unfoldable pub liballoc_unlock : Heap → Hooked
liballoc_unlock h = answers 0 (record h { mutex = (fetch_and_add h.mutex 1).word })

unfoldable pub liballoc_alloc : Heap → ℕ → Hooked
liballoc_alloc h pages = if ltb 1 pages then panics else elim (alloc_page h.memory) [
  | panic p ↦ panics
  | page base m ↦ answers base (record h { memory = m })
]

unfoldable pub liballoc_free : Heap → ℕ → ℕ → Hooked
liballoc_free h ptr pages =
    if ltb 1 pages then panics else answers 0 (record h { memory = free_page h.memory ptr })
