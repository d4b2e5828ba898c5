-- ===== src/Interrupts/Handlers.antt =====
-- i386/irqs.cpp, i386/isrs.cpp and kernel/timer.cpp: the handlers of the IRQs, and what the kernel tells
-- the two interrupt controllers.
use arabos.Prelude.{
  ℕ, Bool, true, zero, suc, ◌+◌, ◌*◌, ◌/◌, ◌%◌, ◌≤◌, ◌<◌, ◌≡◌, refl, ◌≢◌, inl, inr, ◌&&◌, List, [],
  ◌∷◌, ◌++◌, arith, leb, ◌==◌, if◌then◌else◌, Bool-cases, ne→==_false, length, set, get_or,
}
use native.Mathlib.Nat.{div-lt_iff_lt-mul, mul-le-mul_left, div-add-mod, mod-lt}

-- A byte that `outportb` sends to a port, or a call of a handler, by the handler's address.
pub data Action : Type 0 where
  outportb : (port data_byte : ℕ) → Action
  call : (handler : ℕ) → Action

-- `irq_routines`, 160 addresses; 0 is no handler.
unfoldable pub irq_install_custom_handler : List ℕ → ℕ → ℕ → List ℕ
irq_install_custom_handler routines irq handler = set routines irq handler

-- What `irq_install_custom_handler` returns.
unfoldable pub old_handler : List ℕ → ℕ → ℕ
old_handler routines irq = get_or routines irq 0

unfoldable pub irq_uninstall_custom_handler : List ℕ → ℕ → List ℕ
irq_uninstall_custom_handler routines irq = set routines irq 0

unfoldable pub irq_remap : List Action
irq_remap =
    outportb 0x20 0x11
    ∷ outportb 0x21 0x20
    ∷ outportb 0x21 0x04
    ∷ outportb 0x21 0x01
    ∷ outportb 0x21 0x0
    ∷ outportb 0xA0 0x11
    ∷ outportb 0xA1 0x28
    ∷ outportb 0xA1 0x02
    ∷ outportb 0xA1 0x01
    ∷ outportb 0xA1 0x0
    ∷ []

-- `EOI`
abbrev pub eoi : ℕ
eoi = 0x20

-- `returns` tells which handlers come back. `timer_handler` does not where `schedule` leaves for another
-- process, after an end of interrupt of its own.
unfoldable pub irq_handler : (ℕ → Bool) → List ℕ → ℕ → List Action
irq_handler returns routines int_no =
    let handler = get_or routines int_no 0 in
    let after = (if leb 8 int_no then outportb 0xA0 eoi ∷ [] else []) ++ outportb 0x20 eoi ∷ [] in
    if handler == 0 then after else call handler ∷ (if returns handler then after else [])

-- The divisor of `timer_phase`, for a frequency other than 0.
unfoldable pub divisor_for : ℕ → ℕ
divisor_for hz = (1193180 + hz / 2) / hz

-- `(char)(divisor & 0xFF)`, and `(char)(divisor >> 8)`, of which the port takes the low byte.
unfoldable pub timer_phase : ℕ → List Action
timer_phase hz =
    outportb 0x43 0x36
    ∷ outportb 0x40 (divisor_for hz % 256)
    ∷ outportb 0x40 (divisor_for hz / 256 % 256)
    ∷ []

-- A controller's view: how many interrupts have been acknowledged at its command port.
abbrev pub acknowledged : ℕ → List Action → ℕ
acknowledged port [] = 0
acknowledged port (call h ∷ rest) = acknowledged port rest
acknowledged port (outportb p b ∷ rest) =
    (if p == port && b == eoi then 1 else 0) + acknowledged port rest

abbrev pub called : List Action → List ℕ
called [] = []
called (call h ∷ rest) = h ∷ called rest
called (outportb p b ∷ rest) = called rest

-- What a handled IRQ comes to.
pub record Handled (handlers : List ℕ) (int_no : ℕ) (actions : List Action) : Type 0 where
  pub handler_called : called actions ≡ handlers
  pub master_once : acknowledged 0x20 actions ≡ 1
  pub slave : acknowledged 0xA0 actions ≡ (if leb 8 int_no then 1 else 0)

get_or-set : (xs : List ℕ) (i v : ℕ) → i < length xs → get_or (set xs i v) i 0 ≡ v
get_or-set [] i v h = absurd (omega arith)
get_or-set (x ∷ xs) zero v h = refl
get_or-set (x ∷ xs) (suc i) v h = get_or-set xs i v (omega arith)

handled_lem :
    (returns : ℕ → Bool) (routines : List ℕ) (irq handler : ℕ)
    → returns handler ≡ true
    → get_or routines irq 0 ≡ handler
    → handler ≢ 0
    → Handled (handler ∷ []) irq (irq_handler returns routines irq)
unfolding irq_handler
handled_lem returns routines irq handler b e nz = elim (Bool-cases (leb 8 irq)) [
  | inl s ↦
      rw (e, ne→==_false handler 0 nz, b, s)
        (record { handler_called = refl; master_once = refl; slave = rw s refl })
  | inr s ↦
      rw (e, ne→==_false handler 0 nz, b, s)
        (record { handler_called = refl; master_once = refl; slave = rw s refl })
]

unhandled_lem :
    (returns : ℕ → Bool) (routines : List ℕ) (irq : ℕ)
    → get_or routines irq 0 ≡ 0
    → Handled [] irq (irq_handler returns routines irq)
unfolding irq_handler
unhandled_lem returns routines irq e = elim (Bool-cases (leb 8 irq)) [
  | inl s ↦ rw (e, s) (record { handler_called = refl; master_once = refl; slave = rw s refl })
  | inr s ↦ rw (e, s) (record { handler_called = refl; master_once = refl; slave = rw s refl })
]

-- With a handler that returns installed for an IRQ below 160, `irq_handler` calls that handler once, and after
-- `irq_uninstall_custom_handler` none; either way it acknowledges the interrupt once at the master
-- controller, and once at the slave exactly for an IRQ from 8 on.
irq_handler-Handled :
    (returns : ℕ → Bool) (routines : List ℕ) (irq handler : ℕ)
    → returns handler ≡ true
    → irq < length routines
    → handler ≢ 0
    → Handled
        (handler ∷ [])
        irq
        (irq_handler returns (irq_install_custom_handler routines irq handler) irq)
      × Handled [] irq (irq_handler returns (irq_uninstall_custom_handler routines irq) irq)
unfolding irq_handler irq_install_custom_handler irq_uninstall_custom_handler
irq_handler-Handled returns routines irq handler b h nz = (
  handled_lem returns (set routines irq handler) irq handler b (get_or-set routines irq handler h)
      nz,
  unhandled_lem returns (set routines irq 0) irq (get_or-set routines irq 0 h),
)

-- The counter that the timer is loaded with: two bytes at its port, the low one first.
abbrev pub reload : List Action → ℕ
reload [] = 0
reload (call h ∷ rest) = reload rest
reload (outportb p b ∷ rest) = if p == 0x40 then b + 256 * reload rest else reload rest

quotient_lem : (n k : ℕ) → 0 < k → (n / k * k ≤ n) × (n < (n / k + 1) * k)
quotient_lem n k h =
    (grind (arith, div-add-mod n k, mod-lt n h), grind (arith, div-add-mod n k, mod-lt n h))

half_lem : (hz : ℕ) → 19 ≤ hz → (1193180 + hz / 2) / hz < 65536
half_lem hz h = (div-lt_iff_lt-mul (omega arith)).1 (omega (arith, mul-le-mul_left 65536 h))

-- From 19 interrupts a second on, the timer is loaded with the number of its ticks that comes closest to
-- 1193180 divided by the frequency.
pub timer_phase_lem :
    (hz : ℕ)
    → 19 ≤ hz
    → (reload (timer_phase hz) * hz ≤ 1193180 + hz / 2)
      × (1193180 + hz / 2 < (reload (timer_phase hz) + 1) * hz)
unfolding timer_phase divisor_for
timer_phase_lem hz h =
    let n = 1193180 + hz / 2 in
    let two = half_lem hz h in
    let read : n / hz % 256 + 256 * (n / hz / 256 % 256 + 0) ≡ n / hz = omega (arith, two) in
    rw read (quotient_lem n hz (omega arith))
