-- ===== src/Heap/Pages.antt =====
-- mm/liballoc_link.cpp: the pages that an allocator holds, by the contract of liballoc.
use arabos.Prelude.{
  ℕ, ◌<◌, ◌≡◌, sym, ap, ◌∙◌, ◌≢◌, inl, inr, Bool, true, false, arith, ℕ_discrete, if◌then◌else◌,
  Bool-cases,
}
use arabos.Stl.Cells.{stored_at}
use arabos.Paging.Frames.{Memory, Alloc, page, panic, alloc_page, free_page, heap_address}
use arabos.Paging.Alloc.{Allocated, Outcome, alloc_page_lem, heap_address_lem, present, entry}
use arabos.Paging.Pte
use arabos.Stl.Cells.Moves.{stored_at_self, stored_at_other}
use arabos.Paging.Invariant.{IsValid, alloc_page-IsValid}
use arabos.Paging.Invariant
use arabos.Paging.Free.{free_page-IsValid, free_page_lem}
use arabos.Paging.Free
use arabos.Heap.{
  Heap, answers, panics, liballoc_lock, liballoc_unlock, liballoc_alloc, liballoc_free,
}
use mathlib.Core.Path.{subst}

-- What an allocator that keeps to liballoc's contract comes to: whether it is locked, and which addresses
-- it holds. It locks when it is not locked, asks for one page at a time while it is locked, and frees
-- only pages that it holds.
pub data Follows (fuel : ℕ) (start : Heap) : Bool → (ℕ → Bool) → Heap → Type 0 where
  starts : Follows fuel start false (λ a. false) start
  locks :
      {held : ℕ → Bool} {h h' : Heap}
      → Follows fuel start false held h
      → liballoc_lock fuel h ≡ answers 0 h'
      → Follows fuel start true held h'
  unlocks :
      {held : ℕ → Bool} {h h' : Heap}
      → Follows fuel start true held h
      → liballoc_unlock h ≡ answers 0 h'
      → Follows fuel start false held h'
  asks :
      {held : ℕ → Bool} {h h' : Heap} (base : ℕ)
      → Follows fuel start true held h
      → liballoc_alloc h 1 ≡ answers base h'
      → Follows fuel start true (stored_at held base true) h'
  frees :
      {held : ℕ → Bool} {h h' : Heap} (base : ℕ)
      → Follows fuel start true held h
      → held base ≡ true
      → liballoc_free h base 1 ≡ answers 0 h'
      → Follows fuel start true (stored_at held base false) h'

-- The entry of a page that is held is present.
pub record IsPage (m : Memory) (a : ℕ) : Type 0 where
  pub slot : ℕ
  pub slot_in : slot < 1024
  pub address : a ≡ heap_address slot
  pub mapped : present m slot ≡ true

pub record IsSound (locked : Bool) (held : ℕ → Bool) (h : Heap) : Type 0 where
  pub mutex : h.mutex ≡ (if locked then 0 else 1)
  pub memory : IsValid h.memory
  pub pages : (a : ℕ) → held a ≡ true → IsPage h.memory a

heap_address-injective : (i j : ℕ) → i < 1024 → j < 1024 → heap_address i ≡ heap_address j → i ≡ j
heap_address-injective i j h k e = omega (arith, heap_address_lem i h, heap_address_lem j k, e)

-- The page that `alloc_page` returns is not held: its entry was absent.
Allocated-unheld :
    (m m' : Memory) (base : ℕ) (held : ℕ → Bool)
    → ((a : ℕ) → held a ≡ true → IsPage m a)
    → Allocated m base m'
    → held base ≡ false
Allocated-unheld m m' base held pages a = elim (Bool-cases (held base)) [
  | inr free ↦ free
  | inl taken ↦
      let p = pages base taken in
      let same =
        heap_address-injective p.slot a.slot p.slot_in a.slot_in
          (sym p.address ∙ a.address ∙ sym (heap_address_lem a.slot a.slot_in)) in
      let was : present m a.slot ≡ true = rw (← same) p.mapped in absurd (cc (was, a.was_absent))
]

module _ (held : ℕ → Bool) (h : Heap) (s : IsSound true held h) where
  IsPage-kept :
      (a : ℕ) (m' : Memory) (slot : ℕ)
      → ((e : ℕ) → e ≢ slot → entry m' e ≡ entry h.memory e)
      → (p : IsPage h.memory a) → p.slot ≢ slot
      → IsPage m' a
  IsPage-kept a m' slot kept p ne = record {
    slot = p.slot;
    slot_in = p.slot_in;
    address = p.address;
    mapped = ap (λ x. Pte.get_present x) (kept p.slot ne) ∙ p.mapped;
  }

  asked-pages :
      (base : ℕ) (m' : Memory)
      → Allocated h.memory base m'
      → (a : ℕ) → stored_at held base true a ≡ true
      → IsPage m' a
  asked-pages base m' new a taken = elim (ℕ_discrete a base) [
    | yes e ↦ record {
      slot = new.slot;
      slot_in = new.slot_in;
      address = e ∙ new.address ∙ sym (heap_address_lem new.slot new.slot_in);
      mapped = new.now_present;
    }
    | no ne ↦
        let p = s.pages a (sym (stored_at_other held base a true ne) ∙ taken) in
        IsPage-kept a m' new.slot (Invariant.entry_kept s.memory new) p
          (λ e. cc (ap (present h.memory) e, p.mapped, new.was_absent))
  ]

  pub freed-pages :
      (base : ℕ)
      → held base ≡ true
      → (a : ℕ) → stored_at held base false a ≡ true
      → IsPage (free_page h.memory base) a
  freed-pages base had a taken = elim (ℕ_discrete a base) [
    | yes e ↦
        let here : stored_at held base false a ≡ false =
          ap (stored_at held base false) e ∙ stored_at_self held base false in
        absurd (cc (here, taken))
    | no ne ↦
        let q = s.pages base had in
        let p = s.pages a (sym (stored_at_other held base a false ne) ∙ taken) in
        let f = free_page_lem h.memory q.slot s.memory q.slot_in in
        subst (λ b. IsPage (free_page h.memory b) a) (sym q.address)
          (IsPage-kept a (free_page h.memory (heap_address q.slot)) q.slot
            (Free.entry_kept s.memory q.slot_in q.mapped f) p
            (λ e. ne (p.address ∙ ap heap_address e ∙ sym q.address)))
  ]

  -- What a request for a page comes to.
  pub record Asked (base : ℕ) (h' : Heap) : Type 0 where
    pub unheld : held base ≡ false
    pub sound : IsSound true (stored_at held base true) h'

  pub alloc_page-Asked :
      (al : Alloc) (base : ℕ) (h' : Heap)
      → alloc_page h.memory ≡ al
      → (elim al [ panic p ↦ panics | page b m ↦ answers b (record h { memory = m }) ])
        ≡ answers base h'
      → Asked base h'
  alloc_page-Asked (panic p) base h' e q = absurd (cc q)
  alloc_page-Asked (page b m') base h' e q =
      let new : Allocated h.memory b m' =
        subst (Outcome h.memory) e (alloc_page_lem h.memory s.memory.is_words) in
      let same_base : b ≡ base = cc q in
      let same_heap : record h { memory = m' } ≡ h' = cc q in
      subst (λ k. Asked base k) same_heap
        (subst (λ k. Asked k (record h { memory = m' })) same_base
          (record {
            unheld = Allocated-unheld h.memory m' b held s.pages new;
            sound = record {
              mutex = s.mutex;
              memory = alloc_page-IsValid h.memory s.memory b m' e;
              pages = asked-pages b m' new;
            };
          }))
