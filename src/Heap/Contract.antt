-- ===== src/Heap/Contract.antt =====
-- mm/liballoc_link.cpp: what liballoc can rely on.
use arabos.Prelude.{
  ℕ, suc, ◌+◌, ◌%◌, ◌^◌, ◌≡◌, refl, sym, ◌∙◌, Bool, true, false, some, arith, ==_iff,
}
use arabos.Semaphore.{fetch_and_add}
use arabos.Semaphore.Alone.{wait, wait-alone}
use arabos.Stl.Cells.{stored_at}
use arabos.Stl.Cells.Moves.{stored_at_self}
use arabos.Paging.Frames.{alloc_page, free_page}
use arabos.Paging.Invariant.{IsValid}
use arabos.Paging.Free.{free_page-IsValid}
use arabos.Heap.{Heap, answers, liballoc_lock, liballoc_unlock, liballoc_alloc, liballoc_free}
use arabos.Heap.Pages.{
  Follows, starts, locks, unlocks, asks, frees, IsPage, IsSound, Asked, alloc_page-Asked,
  freed-pages,
}
use mathlib.Core.Path.{subst}

module _ (fuel : ℕ) where
  -- Five accesses are enough for `wait`.
  abbrev enough : ℕ
  enough = suc (suc (suc (suc (suc fuel))))

  lock_lem : (h : Heap) → h.mutex ≡ 1 → liballoc_lock enough h ≡ answers 0 (record h { mutex = 0 })
  unfolding liballoc_lock
  lock_lem h e =
      let returns : wait enough h.mutex ≡ some 0 =
        wait-alone fuel h.mutex ∙ rw ((==_iff h.mutex 1).1 e) refl in
      rw (liballoc_lock, returns) refl

  alloc_lem :
      (held : ℕ → Bool) (h : Heap) (s : IsSound true held h) (base : ℕ) (h' : Heap)
      → liballoc_alloc h 1 ≡ answers base h'
      → Asked held h s base h'
  unfolding liballoc_alloc
  alloc_lem held h s base h' e = alloc_page-Asked held h s (alloc_page h.memory) base h' refl e

  unlock-IsSound :
      (held : ℕ → Bool) (h : Heap)
      → IsSound true held h
      → (h' : Heap) → liballoc_unlock h ≡ answers 0 h'
      → IsSound false held h'
  unfolding liballoc_unlock fetch_and_add
  unlock-IsSound held h s h' e =
      let same : record h { mutex = (h.mutex + 1) % 2 ^ 32 } ≡ h' = cc e in
      subst (IsSound false held) same
        (record { mutex = omega (arith, s.mutex); memory = s.memory; pages = s.pages })

  free-IsSound :
      (held : ℕ → Bool) (h : Heap)
      → IsSound true held h
      → (base : ℕ) (h' : Heap) → held base ≡ true
      → liballoc_free h base 1 ≡ answers 0 h'
      → IsSound true (stored_at held base false) h'
  unfolding liballoc_free
  free-IsSound held h s base h' had e =
      let q = s.pages base had in
      let same : record h { memory = free_page h.memory base } ≡ h' = cc e in
      subst (IsSound true (stored_at held base false)) same (record {
        mutex = s.mutex;
        memory =
            subst (λ b. IsValid (free_page h.memory b)) (sym q.address)
              (free_page-IsValid h.memory q.slot s.memory q.slot_in q.mapped);
        pages = freed-pages held h s base had;
      })

  Follows-IsSound :
      {start : Heap} {locked : Bool} {held : ℕ → Bool} {h : Heap}
      → start.mutex ≡ 1
      → IsValid start.memory
      → Follows enough start locked held h
      → IsSound locked held h
  Follows-IsSound m v starts = record { mutex = m; memory = v; pages = λ a e. absurd (cc e) }
  Follows-IsSound m v (locks {held} {h} {h'} before e) =
      let s = Follows-IsSound m v before in
      let same : record h { mutex = 0 } ≡ h' = cc (e, lock_lem h s.mutex) in
      subst (IsSound true held) same (record { mutex = refl; memory = s.memory; pages = s.pages })
  Follows-IsSound m v (unlocks {held} {h} {h'} before e) =
      unlock-IsSound held h (Follows-IsSound m v before) h' e
  Follows-IsSound m v (asks {held} {h} {h'} base before e) =
      (alloc_lem held h (Follows-IsSound m v before) base h' e).sound
  Follows-IsSound m v (frees {held} {h} {h'} base before had e) =
      free-IsSound held h (Follows-IsSound m v before) base h' had e

  -- For one thread that keeps to liballoc's contract, from an unlocked semaphore and a valid memory on:
  -- when it is not locked, the lock is taken, if `wait` may make five accesses or more.
  pub liballoc_lock-answers :
      {start : Heap} {held : ℕ → Bool} {h : Heap}
      → start.mutex ≡ 1
      → IsValid start.memory
      → Follows enough start false held h
      → liballoc_lock enough h ≡ answers 0 (record h { mutex = 0 })
  liballoc_lock-answers {start} {held} {h} m v f = lock_lem h (Follows-IsSound m v f).mutex

  -- For one thread that keeps to liballoc's contract, from an unlocked semaphore and a valid memory on,
  -- with five accesses or more for `wait`: a page that `liballoc_alloc` hands out is not held already,
  -- it is a mapped page of the heap afterwards, and the memory is valid.
  pub liballoc_alloc-unheld :
      {start : Heap} {held : ℕ → Bool} {h h' : Heap} (base : ℕ)
      → start.mutex ≡ 1
      → IsValid start.memory
      → Follows enough start true held h
      → liballoc_alloc h 1 ≡ answers base h'
      → (held base ≡ false) × IsPage h'.memory base × IsValid h'.memory
  liballoc_alloc-unheld {start} {held} {h} {h'} base m v f e =
      let a = alloc_lem held h (Follows-IsSound m v f) base h' e in
      (a.unheld, a.sound.pages base (stored_at_self held base true), a.sound.memory)
