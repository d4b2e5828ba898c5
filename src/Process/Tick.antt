-- ===== src/Process/Tick.antt =====
-- kernel/timer.cpp and include/asm.h: the interrupt of the timer, and the counter that keeps it from
-- switching processes.
use arabos.Prelude.{
  ℕ, ◌+◌, ◌-◌, ◌%◌, ◌^◌, ◌<◌, ◌≡◌, refl, Option, none, some, List, [], ◌∷◌, arith, ◌==◌,
  if◌then◌else◌, ne→==_false,
}
use arabos.Interrupts.Handlers.{Action, outportb}
use arabos.Process.Switch.{Frame, Kernel, Scheduled, schedule}

-- `block_timer` and `unmask_timer`: `scheduling_started` is an unsigned int.
unfoldable pub block_timer : ℕ → ℕ
block_timer started = (started + 2 ^ 32 - 1) % 2 ^ 32

unfoldable pub unmask_timer : ℕ → ℕ
unmask_timer started = (started + 1) % 2 ^ 32

-- The five bytes to the master controller; with the last one the interrupts are masked or not.
unfoldable pub set_mask : ℕ → List Action
set_mask mask =
    outportb 0x20 0x11
    ∷ outportb 0x21 0x20
    ∷ outportb 0x21 0x04
    ∷ outportb 0x21 0x01
    ∷ outportb 0x21 mask
    ∷ []

-- What `timer_handler` does: the ticks after it, the call of `schedule` between the bytes to the
-- controller, if there is one.
pub record Ticked : Type 0 where
  pub ticks : ℕ
  pub before : List Action
  pub scheduled : Option Scheduled
  pub after : List Action

unfoldable pub timer_handler : ℕ → ℕ → Kernel → Frame → Ticked
timer_handler timer_ticks scheduling_started k r = record {
  ticks = (timer_ticks + 1) % 2 ^ 32;
  before = set_mask 0x01;
  scheduled = if scheduling_started == 1 then some (schedule k r) else none;
  after = set_mask 0x00;
}

-- While `print0` holds the counter, from `block_timer` to `unmask_timer`, a tick never switches
-- processes, if the counter was 0 or 1; after it, the counter is what it was.
timer_handler-blocked :
    (started ticks : ℕ) (k : Kernel) (r : Frame)
    → started < 2
    → ((timer_handler ticks (block_timer started) k r).scheduled ≡ none)
      × (unmask_timer (block_timer started) ≡ started)
unfolding timer_handler block_timer unmask_timer
timer_handler-blocked started ticks k r h =
    (rw (ne→==_false ((started + 2 ^ 32 - 1) % 2 ^ 32) 1 (λ e. omega arith)) refl, omega arith)
