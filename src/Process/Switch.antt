-- ===== src/Process/Switch.antt =====
-- kernel/fork.cpp, include/idt.h and include/timer.h: the table of processes and `schedule`.
use arabos.Prelude.{
  ℕ, zero, suc, ◌+◌, ◌%◌, Bool, true, false, ◌&&◌, Option, none, some, ltb, leb, ◌==◌,
  if◌then◌else◌,
}

pub record Frame : Type 0 where
  pub ss : ℕ
  pub gs : ℕ
  pub fs : ℕ
  pub es : ℕ
  pub ds : ℕ
  pub edi : ℕ
  pub esi : ℕ
  pub ebp : ℕ
  pub esp : ℕ
  pub ebx : ℕ
  pub edx : ℕ
  pub ecx : ℕ
  pub eax : ℕ
  pub int_no : ℕ
  pub err_code : ℕ
  pub eip : ℕ
  pub cs : ℕ
  pub eflags : ℕ

-- `valid` is only ever 0 or 1.
pub record Process : Type 0 where
  pub frame : Frame
  pub valid : Bool

abbrev pub max_processes : ℕ
max_processes = 8

-- The array, by index; the current process, where `none` is -1; and the words of memory.
pub record Kernel : Type 0 where
  pub processes : ℕ → Process
  pub current : Option ℕ
  pub words : ℕ → ℕ

abbrev pub is_current : Option ℕ → ℕ → Bool
is_current none n = false
is_current (some c) n = c == n

-- `(currentProcess + 1) % MAX_PROCESSES`
abbrev pub after : Option ℕ → ℕ
after none = 0
after (some c) = (c + 1) % max_processes

-- The loop from `next` on, with `n` rounds of fuel; `none` is fuel that ran out.
unfoldable pub search : (ℕ → Process) → Option ℕ → ℕ → ℕ → Option ℕ
search processes current zero next = none
search processes current (suc n) next =
    let rest = search processes current n ((next + 1) % max_processes) in
    if is_current current next
    then some next
    else if (processes next).valid
    then some next
    else rest

unfoldable pub next_process : (ℕ → Process) → Option ℕ → Option ℕ
unfolding search
next_process processes current = search processes current max_processes (after current)

-- What `schedule` does: it returns -1, or it goes on in the frame of another process, or its loop
-- does not end.
pub data Scheduled : Type 0 where
  refused : Scheduled
  resumes : Frame → Kernel → Scheduled
  hangs : Scheduled

-- The interrupted process keeps its frame, unless it has ended or its stack is not its own.
unfoldable pub save : Kernel → Frame → ℕ → Process
save k r n =
    if leb 0x260000 r.esp && is_current k.current n && (k.processes n).valid
    then record (k.processes n) { frame = r }
    else k.processes n

unfoldable pub schedule : Kernel → Frame → Scheduled
unfolding next_process save
schedule k r =
    if ltb r.esp 0x300000 && is_some k.current
    then refused
    else elim (next_process k.processes k.current) [
      | none ↦ hangs
      | some next ↦
          let frame = (save k r next).frame in
          if is_current k.current next
          then refused
          else resumes frame (record {
            processes = save k r;
            current = some next;
            words = λ a. if a == frame.esp + 8 then frame.eip else k.words a;
          })
    ]
  where
    is_some : Option ℕ → Bool
    is_some none = false
    is_some (some c) = true
