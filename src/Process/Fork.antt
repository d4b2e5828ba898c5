-- ===== src/Process/Fork.antt =====
-- kernel/fork.cpp: `fork_handler`. Addresses and the words in memory are 32-bit words; a pointer into a
-- stack is an address that differs from `esp` by whole words.
use arabos.Prelude.{
  ℕ, zero, suc, ◌+◌, ◌-◌, ◌*◌, ◌%◌, ◌^◌, ◌≤◌, ◌<◌, ◌≡◌, refl, ◌∙◌, ◌≢◌, inl, inr, true, false,
  Option, none, some, arith, ◌==◌, if◌then◌else◌, Bool-cases, ==_iff, ne→==_false,
}
use arabos.Paging.Frames.{Memory, Alloc, page, panic, Panic, alloc_page}
use arabos.Process.Switch.{Frame, Kernel, max_processes}
use arabos.Process.Spawn.{find_slot, find_slot_lem, find_slot-full, poke}

-- The first `n` words of the `memcpy` from the parent's stack, the loop from the lowest one up.
unfoldable pub copy_words : (ℕ → ℕ) → ℕ → ℕ → ℕ → ℕ → ℕ
copy_words words dst src zero = words
copy_words words dst src (suc n) =
    let copied = copy_words words dst src n in poke (dst + 4 * n) (copied (src + 4 * n)) copied

-- `stack + (p - esp)`: the place in the child's stack of an address in the parent's.
unfoldable pub moved : ℕ → ℕ → ℕ → ℕ
moved stack esp p = (stack + p + 2 ^ 32 - esp) % 2 ^ 32

-- The `do` loop, at the child's place of a saved `ebp`: each saved `ebp` is moved. No result when the
-- fuel runs out.
unfoldable pub move_frames : ℕ → (ℕ → ℕ) → ℕ → ℕ → ℕ → Option (ℕ → ℕ)
move_frames zero words stack esp at = none
move_frames (suc fuel) words stack esp at =
    let next = moved stack esp (words at) in
    let words' = poke at next words in
    let rest = move_frames fuel words' stack esp next in
    if words' next == 0 then some words' else rest

-- The caller's frame returns to `taskend`, and is the last one.
unfoldable pub cut_frames : (ℕ → ℕ) → ℕ → ℕ → ℕ → ℕ
cut_frames words taskend at = poke (words at) 0 (poke ((words at + 4) % 2 ^ 32) taskend words)

unfoldable pub forked_frame : Frame → ℕ → ℕ → Frame
forked_frame r slot stack = record r { esp = stack; ebp = moved stack r.esp r.ebp; eax = slot + 1 }

-- What `fork_handler` does: it returns -1, it panics for want of a page, its loop does not end, or it
-- returns 0, with the parent's frame, the kernel and the page tables.
pub data Forked : Type 0 where
  full : Forked
  halted : Panic → Forked
  loops : Forked
  made : Frame → Kernel → Memory → Forked

-- The child's stack: half of the page is filled, from its 524th word on.
unfoldable pub child_stack : ℕ → (ℕ → ℕ) → Frame → ℕ → Option (ℕ → ℕ)
child_stack fuel words r base =
    let stack = base + 4 * (1024 - 500) in
    move_frames fuel (copy_words words stack r.esp 500) stack r.esp (moved stack r.esp r.ebp)

abbrev pub with_forked : ℕ → Kernel → Frame → ℕ → ℕ → (ℕ → ℕ) → Kernel
with_forked taskend k r slot base words =
    let stack = base + 4 * (1024 - 500) in
    record k {
      processes = λ p.
          if p == slot
          then record { frame = forked_frame r slot stack; valid = true }
          else k.processes p;
      words = cut_frames words taskend (moved stack r.esp r.ebp);
    }

-- `taskend` is the address of the function of this name.
unfoldable pub fork_handler : ℕ → ℕ → Kernel → Memory → Frame → Forked
fork_handler fuel taskend k m r = elim (find_slot k.processes max_processes 0) [
  | none ↦ full
  | some slot ↦ elim (alloc_page m) [
    | panic p ↦ halted p
    | page base m' ↦ elim (child_stack fuel k.words r base) [
      | none ↦ loops
      | some words ↦ made (record r { eax = 0 }) (with_forked taskend k r slot base words) m'
    ]
  ]
]

-- What a successful `fork_handler` did.
pub record Twin (k : Kernel) (m : Memory) (r r' : Frame) (k' : Kernel) (m' : Memory) : Type 0 where
  pub slot : ℕ
  pub base : ℕ
  -- the lowest free slot, and a page for the stack
  pub slot_in : slot < 8
  pub was_free : (k.processes slot).valid ≡ false
  pub lowest : (p : ℕ) → p < slot → (k.processes p).valid ≡ true
  pub stack_page : alloc_page m ≡ page base m'
  -- the child goes on where the parent is, on the other stack, with its own number
  pub ready : (k'.processes slot).valid ≡ true
  pub twin : (k'.processes slot).frame ≡ record r {
    esp = base + 2096;
    ebp = (base + 2096 + r.ebp + 2 ^ 32 - r.esp) % 2 ^ 32;
    eax = slot + 1;
  }
  pub parent : r' ≡ record r { eax = 0 }
  -- nothing else changed
  pub others : (p : ℕ) → p ≢ slot → k'.processes p ≡ k.processes p
  pub same_current : k'.current ≡ k.current

-- The stack on which the loop used up its fuel.
pub record Endless (fuel : ℕ) (k : Kernel) (m : Memory) (r : Frame) : Type 0 where
  pub base : ℕ
  pub after : Memory
  pub stack_page : alloc_page m ≡ page base after
  pub no_end : child_stack fuel k.words r base ≡ none

abbrev pub Forking : ℕ → Kernel → Memory → Frame → Forked → Type 0
Forking fuel k m r full = (p : ℕ) → p < 8 → (k.processes p).valid ≡ true
Forking fuel k m r (halted p) = alloc_page m ≡ panic p
Forking fuel k m r loops = Endless fuel k m r
Forking fuel k m r (made r' k' m') = Twin k m r r' k' m'

pub twin_lem :
    (taskend : ℕ) (k : Kernel) (m : Memory) (r : Frame) (slot base : ℕ) (words : ℕ → ℕ)
    (m' : Memory)
    → find_slot k.processes 8 0 ≡ some slot
    → alloc_page m ≡ page base m'
    → Twin k m r (record r { eax = 0 }) (with_forked taskend k r slot base words) m'
unfolding forked_frame moved
twin_lem taskend k m r slot base words m' e a =
    let found = find_slot_lem k.processes 8 0 slot e in
    let here : (slot == slot) ≡ true = (==_iff slot slot).1 refl in
    record {
      slot = slot;
      base = base;
      slot_in = omega (arith, found.1);
      was_free = found.2;
      lowest = λ p h. found.3 p (omega arith) h;
      stack_page = a;
      ready = rw here refl;
      twin = rw here refl;
      parent = refl;
      others = λ p ne. rw (ne→==_false p slot ne) refl;
      same_current = refl;
    }

-- `fork_handler` returns -1 only if each slot is taken, halts only where `alloc_page` panics, and uses up
-- its fuel only on a chain of saved frames that does; otherwise it makes a ready child in the lowest free
-- slot, whose registers are the parent's but for `esp` and `ebp`, moved to a new page, and `eax`, the
-- slot's number and one where the parent's is 0, and changes no other process.
pub fork_handler_lem :
    (fuel taskend : ℕ) (k : Kernel) (m : Memory) (r : Frame)
    → Forking fuel k m r (fork_handler fuel taskend k m r)
unfolding fork_handler
fork_handler_lem fuel taskend k m r = slots (find_slot k.processes 8 0) refl
  where
    stacks :
        (slot base : ℕ) (m' : Memory)
        → find_slot k.processes 8 0 ≡ some slot
        → alloc_page m ≡ page base m'
        → (o : Option (ℕ → ℕ)) → child_stack fuel k.words r base ≡ o
        → Forking fuel k m r (elim o [
          | none ↦ loops
          | some words ↦ made (record r { eax = 0 }) (with_forked taskend k r slot base words) m'
        ])
    stacks slot base m' e a none c = record { base = base; after = m'; stack_page = a; no_end = c }
    stacks slot base m' e a (some words) c = twin_lem taskend k m r slot base words m' e a

    pages :
        (slot : ℕ)
        → find_slot k.processes 8 0 ≡ some slot
        → (a : Alloc) → alloc_page m ≡ a
        → Forking fuel k m r (elim a [
          | panic p ↦ halted p
          | page base m' ↦ elim (child_stack fuel k.words r base) [
            | none ↦ loops
            | some words ↦ made (record r { eax = 0 }) (with_forked taskend k r slot base words) m'
          ]
        ])
    pages slot e (panic p) a = a
    pages slot e (page base m') a = stacks slot base m' e a (child_stack fuel k.words r base) refl

    slots :
        (o : Option ℕ)
        → find_slot k.processes 8 0 ≡ o
        → Forking fuel k m r (elim o [
          | none ↦ full
          | some slot ↦ elim (alloc_page m) [
            | panic p ↦ halted p
            | page base m' ↦ elim (child_stack fuel k.words r base) [
              | none ↦ loops
              | some words ↦
                  made (record r { eax = 0 }) (with_forked taskend k r slot base words) m'
            ]
          ]
        ])
    slots none e = λ p h. find_slot-full k.processes 8 0 e p (omega arith) h
    slots (some slot) e = pages slot e (alloc_page m) refl

-- A chain of saved frames in the copied stack, from the one at `at` up: each moved `ebp` is further up,
-- and the last one leads to a word that is 0.
pub data Frames (words : ℕ → ℕ) (stack esp : ℕ) : ℕ → ℕ → Type 0 where
  last :
      {at : ℕ}
      → at < moved stack esp (words at)
      → words (moved stack esp (words at)) ≡ 0
      → Frames words stack esp at 1
  more :
      {at n : ℕ}
      → at < moved stack esp (words at)
      → Frames words stack esp (moved stack esp (words at)) n
      → Frames words stack esp at (suc n)

pub poke-above : (at v : ℕ) (words : ℕ → ℕ) (a : ℕ) → at < a → poke at v words a ≡ words a
poke-above at v words a h = rw (ne→==_false a at (λ e. omega arith)) refl

pub Frames-same :
    {words words' : ℕ → ℕ} {stack esp at n : ℕ}
    → ((a : ℕ) → at ≤ a → words' a ≡ words a)
    → Frames words stack esp at n
    → Frames words' stack esp at n
Frames-same {words} {stack} {esp} {at} same (last up z) =
    let e = same at (omega arith) in
    last (rw e up) (rw e (same (moved stack esp (words at)) (omega (arith, up)) ∙ z))
Frames-same {at} same (more up f) =
    let e = same at (omega arith) in
    more (rw e up) (rw e (Frames-same (λ a h. same a (omega (arith, up, h))) f))

-- On a chain of `n` saved frames, the loop of `fork_handler` ends, with `n` rounds of fuel or more.
pub move_frames-ends :
    (fuel n : ℕ) (words : ℕ → ℕ) (stack esp at : ℕ)
    → Frames words stack esp at n
    → n ≤ fuel
    → move_frames fuel words stack esp at ≢ none
unfolding move_frames
move_frames-ends zero zero words stack esp at f h = elim f [ ]
move_frames-ends (suc fuel) zero words stack esp at f h = elim f [ ]
move_frames-ends zero (suc zero) words stack esp at (last up z) h = absurd (omega arith)
move_frames-ends zero (suc n) words stack esp at (more up f) h = absurd (omega arith)
move_frames-ends (suc fuel) (suc zero) words stack esp at (last up z) h =
    let next = moved stack esp (words at) in
    let ends : (poke at next words next == 0) ≡ true =
      (==_iff (poke at next words next) 0).1 (poke-above at next words next up ∙ z) in
    rw ends (λ x. cc)
move_frames-ends (suc fuel) (suc n) words stack esp at (more up f) h =
    let next = moved stack esp (words at) in
    let f' = Frames-same (λ a l. poke-above at next words a (omega (arith, up, l))) f in
    elim (Bool-cases (poke at next words next == 0)) [
      | inl e ↦ rw e (λ x. cc)
      | inr e ↦ rw e (move_frames-ends fuel n (poke at next words) stack esp next f' (omega arith))
    ]
