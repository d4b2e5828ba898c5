-- ===== src/Process/Spawn.antt =====
-- kernel/fork.cpp: `spawn_handler` and `taskend`.
use arabos.Prelude.{
  ℕ, zero, suc, ◌+◌, ◌*◌, ◌≤◌, ◌<◌, ◌≡◌, refl, sym, ◌≢◌, ◌⊎◌, inl, inr, true, false, Option, none,
  some, arith, ℕ_discrete, ◌==◌, if◌then◌else◌, Bool-cases, ==_iff, ne→==_false,
}
use arabos.Paging.Frames.{Memory, Alloc, page, panic, Panic, alloc_page}
use arabos.Process.Switch.{Frame, Process, Kernel, max_processes}

-- The first slot that is not valid, of `n` slots from `i` on.
unfoldable pub find_slot : (ℕ → Process) → ℕ → ℕ → Option ℕ
find_slot processes zero i = none
find_slot processes (suc n) i =
    let rest = find_slot processes n (i + 1) in if (processes i).valid then rest else some i

-- A store of a word.
abbrev pub poke : ℕ → ℕ → (ℕ → ℕ) → ℕ → ℕ
poke at v words a = if a == at then v else words a

-- The stack of a new process, from the end of its page down: the address of `taskend`, a 0, what the
-- interrupt's return takes, and two words that it skips.
unfoldable pub new_stack : (ℕ → ℕ) → ℕ → ℕ → Frame → ℕ → ℕ
new_stack words base taskend r = poke (base + 4 * 1017) 0x112211 (
    poke (base + 4 * 1018) 0x221122 (
      poke (base + 4 * 1019) r.ebx (
        poke (base + 4 * 1020) r.cs (
          poke (base + 4 * 1021) r.eflags
            (poke (base + 4 * 1022) 0 (poke (base + 4 * 1023) taskend words))))))

unfoldable pub new_frame : Frame → ℕ → ℕ → Frame
new_frame r slot base = record r {
  ecx = 0;
  ebx = 0;
  edx = 0;
  esi = 0;
  edi = 0;
  esp = base + 4 * 1017;
  ebp = 0;
  eax = slot + 1;
  eip = r.ebx;
}

-- The kernel with the new process in a slot.
abbrev pub with_child : ℕ → Kernel → Frame → ℕ → ℕ → Kernel
with_child taskend k r slot base = record k {
  processes = λ p.
      if p == slot then record { frame = new_frame r slot base; valid = true } else k.processes p;
  words = new_stack k.words base taskend r;
}

-- What `spawn_handler` does: it returns -1, or it panics for want of a page, or it returns 0, with the
-- parent's frame, the kernel and the page tables.
pub data Spawned : Type 0 where
  full : Spawned
  halted : Panic → Spawned
  made : Frame → Kernel → Memory → Spawned

-- `taskend` is the address of the function of this name.
unfoldable pub spawn_handler : ℕ → Kernel → Memory → Frame → Spawned
unfolding find_slot new_stack new_frame alloc_page
spawn_handler taskend k m r = elim (find_slot k.processes max_processes 0) [
  | none ↦ full
  | some slot ↦ elim (alloc_page m) [
    | panic p ↦ halted p
    | page base m' ↦ made (record r { eax = 0 }) (with_child taskend k r slot base) m'
  ]
]

-- `taskend`, less the calls of the C++ runtime that process 0 makes, and its last loop.
unfoldable pub end_task : Kernel → ℕ → Kernel
end_task k current = record k {
  processes = λ p. if p == current then record (k.processes p) { valid = false } else k.processes p;
}

pub find_slot_lem :
    (processes : ℕ → Process) (n i slot : ℕ)
    → find_slot processes n i ≡ some slot
    → (i ≤ slot)
      × (slot < i + n)
      × ((processes slot).valid ≡ false)
      × ((p : ℕ) → i ≤ p → p < slot → (processes p).valid ≡ true)
unfolding find_slot
find_slot_lem processes zero i slot e = absurd cc
find_slot_lem processes (suc n) i slot e = elim (Bool-cases (processes i).valid) [
  | inr free ↦
      let here : i ≡ slot = ground (arith, e) in
      (omega arith, omega arith, rw (sym here) free, λ p l h. absurd (omega arith))
  | inl taken ↦
      let later : find_slot processes n (i + 1) ≡ some slot = ground (arith, e) in
      let ih = find_slot_lem processes n (i + 1) slot later in
      (
        omega (arith, ih.0),
        omega (arith, ih.1),
        ih.2,
        λ p l h. elim (ℕ_discrete p i) [ yes at ↦ rw at taken | no ne ↦ ih.3 p (omega arith) h ],
      )
]

pub find_slot-full :
    (processes : ℕ → Process) (n i : ℕ)
    → find_slot processes n i ≡ none
    → (p : ℕ) → i ≤ p
    → p < i + n
    → (processes p).valid ≡ true
unfolding find_slot
find_slot-full processes zero i e p l h = absurd (omega arith)
find_slot-full processes (suc n) i e p l h = elim (Bool-cases (processes i).valid) [
  | inr free ↦ absurd (ground (arith, e))
  | inl taken ↦ elim (ℕ_discrete p i) [
    | yes at ↦ rw at taken
    | no ne ↦ find_slot-full processes n (i + 1) (ground (arith, e)) p (omega arith) (omega arith)
  ]
]

-- What a successful `spawn_handler` did.
pub record Child (taskend : ℕ) (k : Kernel) (m : Memory) (r r' : Frame) (k' : Kernel) (m' : Memory)
    : Type 0 where
  pub slot : ℕ
  pub base : ℕ
  -- the lowest free slot, and a page for the stack
  pub slot_in : slot < 8
  pub was_free : (k.processes slot).valid ≡ false
  pub lowest : (p : ℕ) → p < slot → (k.processes p).valid ≡ true
  pub stack_page : alloc_page m ≡ page base m'
  -- the child is ready, at the function, and its number is never 0, which the parent gets
  pub ready : (k'.processes slot).valid ≡ true
  pub starts_at : (k'.processes slot).frame.eip ≡ r.ebx
  pub child_number : (k'.processes slot).frame.eax ≡ slot + 1
  pub parent_number : r'.eax ≡ 0
  -- behind two words of its stack stands what the interrupt's return takes, and behind that, where the
  -- function finds its return address, a 0; `taskend` is one word further
  pub takes :
      (k'.words ((k'.processes slot).frame.esp + 8) ≡ r.ebx)
      × (k'.words ((k'.processes slot).frame.esp + 12) ≡ r.cs)
      × (k'.words ((k'.processes slot).frame.esp + 16) ≡ r.eflags)
  pub returns_to : k'.words ((k'.processes slot).frame.esp + 20) ≡ 0
  pub taskend_behind : k'.words ((k'.processes slot).frame.esp + 24) ≡ taskend
  -- nothing else changed
  pub others : (p : ℕ) → p ≢ slot → k'.processes p ≡ k.processes p
  pub same_current : k'.current ≡ k.current
  pub memory : (a : ℕ) → (a < base) ⊎ (base + 4096 ≤ a) → k'.words a ≡ k.words a

abbrev pub Spawning : ℕ → Kernel → Memory → Frame → Spawned → Type 0
Spawning taskend k m r full = (p : ℕ) → p < 8 → (k.processes p).valid ≡ true
Spawning taskend k m r (halted p) = alloc_page m ≡ panic p
Spawning taskend k m r (made r' k' m') = Child taskend k m r r' k' m'

outside :
    (words : ℕ → ℕ) (base taskend : ℕ) (r : Frame) (a : ℕ)
    → (a < base) ⊎ (base + 4096 ≤ a)
    → new_stack words base taskend r a ≡ words a
unfolding new_stack
outside words base taskend r a (inl h) = ground arith
outside words base taskend r a (inr h) = ground arith

own_slot :
    (taskend : ℕ) (k : Kernel) (r : Frame) (slot base : ℕ)
    → (with_child taskend k r slot base).processes slot
      ≡ record { frame = new_frame r slot base; valid = true }
own_slot taskend k r slot base = rw ((==_iff slot slot).1 refl) refl

child :
    (taskend : ℕ) (k : Kernel) (m : Memory) (r : Frame) (slot base : ℕ) (m' : Memory)
    → find_slot k.processes 8 0 ≡ some slot
    → alloc_page m ≡ page base m'
    → Child taskend k m r (record r { eax = 0 }) (with_child taskend k r slot base) m'
unfolding new_frame new_stack
child taskend k m r slot base m' e a =
    let found = find_slot_lem k.processes 8 0 slot e in
    let own = own_slot taskend k r slot base in
    record {
      slot = slot;
      base = base;
      slot_in = omega (arith, found.1);
      was_free = found.2;
      lowest = λ p h. found.3 p (omega arith) h;
      stack_page = a;
      ready = rw own refl;
      starts_at = rw own refl;
      child_number = rw own refl;
      parent_number = refl;
      takes = (rw own (ground arith), rw own (ground arith), rw own (ground arith));
      returns_to = rw own (ground arith);
      taskend_behind = rw own (ground arith);
      others = λ p ne. rw (ne→==_false p slot ne) refl;
      same_current = refl;
      memory = outside k.words base taskend r;
    }

-- `spawn_handler` returns -1 only if each slot is taken, and halts only where `alloc_page` panics;
-- otherwise it makes a ready child in the lowest free slot, with a stack on a new page from which it
-- starts at the given function with the return address 0 (`taskend` stands one word behind it), and
-- changes no other process.
pub spawn_handler_lem :
    (taskend : ℕ) (k : Kernel) (m : Memory) (r : Frame)
    → Spawning taskend k m r (spawn_handler taskend k m r)
unfolding spawn_handler new_frame
spawn_handler_lem taskend k m r = slots (find_slot k.processes 8 0) refl
  where
    pages :
        (slot : ℕ)
        → find_slot k.processes 8 0 ≡ some slot
        → (a : Alloc) → alloc_page m ≡ a
        → Spawning taskend k m r (elim a [
          | panic p ↦ halted p
          | page base m' ↦ made (record r { eax = 0 }) (with_child taskend k r slot base) m'
        ])
    pages slot e (panic p) a = a
    pages slot e (page base m') a = child taskend k m r slot base m' e a

    slots :
        (o : Option ℕ)
        → find_slot k.processes 8 0 ≡ o
        → Spawning taskend k m r (elim o [
          | none ↦ full
          | some slot ↦ elim (alloc_page m) [
            | panic p ↦ halted p
            | page base m' ↦ made (record r { eax = 0 }) (with_child taskend k r slot base) m'
          ]
        ])
    slots none e = λ p h. find_slot-full k.processes 8 0 e p (omega arith) h
    slots (some slot) e = pages slot e (alloc_page m) refl
