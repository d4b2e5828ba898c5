-- ===== src/Examples/Processes.antt =====
-- A table with two processes, and runs of kernel/fork.cpp on it.
use arabos.Prelude.{
  ◌^◌, ◌∙◌, ap, inr, if◌then◌else◌, ℕ, ◌+◌, ◌*◌, ◌<◌, ◌≡◌, refl, ◌||◌, some, arith, ◌==◌,
}
use arabos.Paging.Words.{get_bit}
use arabos.Paging.Pte
use arabos.Paging.Frames.{Memory, page, panic, alloc_page, find_frame, first_zero, find_pte}
use arabos.Process.Switch.{Frame, Process, Kernel, search, next_process, schedule}
use arabos.Process.Turns.{ahead, next_process-nearer}
use arabos.Process.Kept.{Outcome, schedule_lem}
use arabos.Process.Stack.{ForkedStack, Disjoint, copied_words, fork_handler-ForkedStack}
use arabos.Process.Fork.{Frames, last, copy_words, moved, fork_handler}
use arabos.Process.Spawn.{Spawning, find_slot, spawn_handler, spawn_handler_lem}

-- A frame at an address, with its stack.
abbrev frame_at : ℕ → ℕ → Frame
frame_at eip esp = record {
  ss = 16;
  gs = 16;
  fs = 16;
  es = 16;
  ds = 16;
  edi = 0;
  esi = 0;
  ebp = 0;
  esp = esp;
  ebx = 0x150000;
  edx = 0;
  ecx = 0;
  eax = 0;
  int_no = 32;
  err_code = 0;
  eip = eip;
  cs = 8;
  eflags = 0x202;
}

-- Processes 1 and 6 are ready.
abbrev table : ℕ → Process
table n = record { frame = frame_at (0x100000 + n) (0x400000 + 4096 * n); valid = n == 1 || n == 6 }

abbrev kernel : Kernel
kernel = record { processes = table; current = some 6; words = λ a. 0 }

abbrev no_pages : Memory
no_pages = record {
  table = λ a. 0;
  free_mem = λ i. 0;
  kernel_page_dir = 0x200000;
  kernel_heap_page_table = 0x202000;
}

finds : next_process table (some 6) ≡ some 1
unfolding next_process search
finds = refl

next_process-nearer_example : (1 < 8) × (ahead 1 1 < ahead 6 1)
next_process-nearer_example =
    next_process-nearer table 6 1 1 (omega arith) (omega arith) (λ e. omega arith) refl finds

schedule_lem_example :
    Outcome kernel (frame_at 0x123456 0x406F00) 6 (schedule kernel (frame_at 0x123456 0x406F00))
schedule_lem_example =
    schedule_lem kernel (frame_at 0x123456 0x406F00) 6 (omega arith) refl refl (omega arith)

spawn_handler_lem_example :
    Spawning 0x140000 kernel no_pages
      (frame_at 0x123456 0x406F00)
      (spawn_handler 0x140000 kernel no_pages (frame_at 0x123456 0x406F00))
spawn_handler_lem_example = spawn_handler_lem 0x140000 kernel no_pages (frame_at 0x123456 0x406F00)

-- A parent that has saved two words since its `ebp`, with one caller.
abbrev parent : Frame
parent = record (frame_at 0x150000 0x300000) { ebp = 0x300008 }

abbrev stack_words : ℕ → ℕ
stack_words a = if a == 0x300008 then 0x300020 else 0

abbrev busy : Kernel
busy = record { processes = table; current = some 6; words = stack_words }

abbrev one_taken : Memory
unfolding alloc_page
one_taken = elim (alloc_page no_pages) [ page vaddr m ↦ m | panic p ↦ no_pages ]

stack_page : alloc_page no_pages ≡ page (2 ^ 22) one_taken
unfolding alloc_page find_frame first_zero get_bit find_pte Pte.get_present
stack_page = refl

first_slot : find_slot table 8 0 ≡ some 0
unfolding find_slot
first_slot = refl

apart : Disjoint (2 ^ 22 + 2096) 0x300000 500
apart = inr (omega arith)

copied_at :
    (i : ℕ)
    → i < 500
    → copy_words stack_words (2 ^ 22 + 2096) 0x300000 500 (2 ^ 22 + 2096 + 4 * i)
      ≡ stack_words (0x300000 + 4 * i)
copied_at i h = copied_words stack_words (2 ^ 22 + 2096) 0x300000 500 500 i apart (omega arith) h

caller_lem : moved (2 ^ 22 + 2096) 0x300000 0x300020 ≡ 2 ^ 22 + 2096 + 4 * 8
unfolding moved
caller_lem = refl

one_frame :
    Frames
      (copy_words stack_words (2 ^ 22 + 2096) 0x300000 500)
      (2 ^ 22 + 2096)
      0x300000
      (2 ^ 22 + 2096 + 4 * 2)
      1
one_frame =
    let next = ap (moved (2 ^ 22 + 2096) 0x300000) (copied_at 2 (omega arith)) ∙ caller_lem in
    last (rw next (omega arith)) (rw next (copied_at 8 (omega arith)))

fork_handler-ForkedStack_example :
    ForkedStack 0x150100 busy no_pages parent
      (2 ^ 22)
      2
      one_taken
      (fork_handler 9 0x150100 busy no_pages parent)
fork_handler-ForkedStack_example =
    fork_handler-ForkedStack 9 0x150100 busy no_pages parent 0 (2 ^ 22) 2 1 one_taken first_slot
      stack_page apart (omega arith) refl (omega arith) one_frame (omega arith)
      (rw caller_lem (omega arith))
