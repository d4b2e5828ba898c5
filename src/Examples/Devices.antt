-- ===== src/Examples/Devices.antt =====
-- A keyboard, a drive, a semaphore and the tables of the processor, and runs of the code on them.
use arabos.Prelude.{
  true, ℕ, ◌+◌, ◌*◌, ◌/◌, ◌^◌, ◌≤◌, ◌<◌, ◌≡◌, refl, false, none, some, List, [], ◌∷◌, ◌++◌, arith,
  ◌==◌, if◌then◌else◌, replicate,
}
use arabos.Semaphore.Alone.{wait, wait-alone}
use arabos.Semaphore.Together.{Threads, Reach, all_inside}
use arabos.Semaphore.{inside}
use arabos.Console.Keyboard.{at_boot, readline}
use arabos.Console.Keyboard.Line.{Answered, readline-line}
use arabos.Console.Keyboard.Shift.{Scan, Shows, scans, held_by, scans-Shows}
use arabos.Interrupts.Handlers.{divisor_for, timer_phase, reload, timer_phase_lem}
use arabos.Disk.{read, write}
use arabos.Disk.Drive.{Drive, run, read-write}
use arabos.Fs.Types.{sector}

wait-alone_example : wait 8 2 ≡ none
wait-alone_example = wait-alone 3 2

all_inside_example : (s : Threads) × (Reach 3 1 s × ((i : ℕ) → i < 3 → s.pc i ≡ inside))
all_inside_example = all_inside 3 (omega arith)

-- Shift is pressed, an 'a' too, and shift is released.
abbrev shift_a : List Scan
shift_a =
    record { status = 1; scancode = 42 }
    ∷ record { status = 1; scancode = 30 }
    ∷ record { status = 1; scancode = 170 }
    ∷ []

scans-Shows_example : Shows (scans at_boot shift_a) (held_by false shift_a)
scans-Shows_example = scans-Shows shift_a refl

-- The timer fires between the two keys of a line for which there is room for one.
readline-line_example :
    Answered 1
      (b'l' ∷ b's' ∷ [])
      (readline 1 at_boot ((some b'l' ∷ none ∷ some b's' ∷ []) ++ some 10 ∷ []))
readline-line_example =
    readline-line 1 at_boot (some b'l' ∷ none ∷ some b's' ∷ []) [] (omega arith)
      (record { none_read = refl; no_newline = refl; not_frozen = refl }) refl

-- At the kernel's 10 interrupts a second, the divisor has 17 bits and the timer is loaded with another.
ten_hertz : (divisor_for 10 ≡ 119318) × (reload (timer_phase 10) ≡ 53782)
unfolding timer_phase divisor_for
ten_hertz = (refl, refl)

timer_phase_lem_example :
    (reload (timer_phase 100) * 100 ≤ 1193180 + 100 / 2)
    × (1193180 + 100 / 2 < (reload (timer_phase 100) + 1) * 100)
timer_phase_lem_example = timer_phase_lem 100 (omega arith)

abbrev drive : Drive
drive = record {
  device = 0;
  count = 0;
  lo = 0;
  mid = 0;
  hi = 0;
  command = 0;
  idle = false;
  ready = false;
  data_request = false;
  prompt = true;
  buffer = [];
  sectors = λ n. replicate 256 0;
  given = [];
}

read-write_example : (run (run drive (write (replicate 256 7) 5)) (read (2 ^ 28 + 5))).given ≡ (
    if sector (2 ^ 28 + 5) == sector 5
    then replicate 256 7
    else (run drive (read (2 ^ 28 + 5))).given)
read-write_example = read-write drive (replicate 256 7) 5 (2 ^ 28 + 5) refl refl

abbrev slow_drive : Drive
slow_drive = record drive { prompt = false }
