-- ===== src/Interrupts/Gates.antt =====
-- i386/idt.cpp and i386/isrs.cpp: the interrupt gates.
use arabos.Prelude.{
  ℕ, zero, suc, ◌+◌, ◌-◌, ◌*◌, ◌/◌, ◌%◌, ◌^◌, ◌≤◌, ◌<◌, bit_or, ◌≡◌, refl, ap, ◌∙◌, ◌&&◌, Option,
  none, some, arith, dec_lt, ℕ_discrete, ltb, ◌==◌, if◌then◌else◌, ==_iff, lt→ltb, le→ltb_false,
  ne→==_false,
}
use mathlib.Core.Path.{subst}

-- `struct idt_entry`
pub record IdtEntry : Type 0 where
  pub base_lo : ℕ
  pub sel : ℕ
  pub always0 : ℕ
  pub flags : ℕ
  pub base_hi : ℕ

unfoldable pub idt_gate : ℕ → ℕ → ℕ → IdtEntry
idt_gate base sel flags = record {
  base_hi = base / 2 ^ 16;
  base_lo = base % 2 ^ 16;
  sel = sel;
  always0 = 0;
  flags = flags;
}

-- The table of 256 entries; `num` is a byte.
unfoldable pub idt_set_gate : (ℕ → IdtEntry) → ℕ → ℕ → ℕ → ℕ → ℕ → IdtEntry
idt_set_gate idt num base sel flags i = if i == num then idt_gate base sel flags else idt i

-- INTERRUPT_PRESENT, ring 0, INTERRUPT_OP_SIZE_32 and IDT_GATE_TYPE_INTERRUPT
unfoldable pub isr_gate : ℕ
isr_gate = bit_or (bit_or (bit_or 0x80 0) 0x8) 0x6

-- The gates from `num` on, for `n` functions of a list that gives each its address.
unfoldable pub set_gates : (ℕ → IdtEntry) → (ℕ → ℕ) → ℕ → ℕ → ℕ → IdtEntry
set_gates idt address first zero = idt
set_gates idt address first (suc n) =
    idt_set_gate (set_gates idt address first n) (first + n) (address n) 0x08 isr_gate

-- The loop over `isrs`, 32 functions.
unfoldable pub isr_install : (ℕ → IdtEntry) → (ℕ → ℕ) → ℕ → IdtEntry
isr_install idt isrs = set_gates idt isrs 0 32

-- The `memset` of the table.
abbrev pub cleared : ℕ → IdtEntry
cleared i = record { base_lo = 0; sel = 0; always0 = 0; flags = 0; base_hi = 0 }

-- `memset`, then `isr_install`.
unfoldable pub idt_install : (ℕ → ℕ) → ℕ → IdtEntry
idt_install isrs = isr_install cleared isrs

-- The sixteen INSTALL_IRQ of `irq_install`; IRQ_GATE is ISR_GATE.
unfoldable pub irq_gates : (ℕ → IdtEntry) → (ℕ → ℕ) → ℕ → IdtEntry
irq_gates idt irqs = set_gates idt irqs 32 16

-- How the processor reads an entry: where it goes, in which segment.
abbrev pub gate_target : IdtEntry → ℕ
gate_target e = e.base_lo + e.base_hi * 2 ^ 16

-- Where an interrupt goes by its entry, if the gate is present, for the kernel, and in its code segment.
abbrev pub goes_to : IdtEntry → Option ℕ
goes_to e =
    if e.flags == 0x8E && e.sel == 0x08 && e.always0 == 0 then some (gate_target e) else none

goes_to-idt_gate :
    (address : ℕ) → address < 2 ^ 32 → goes_to (idt_gate address 0x08 isr_gate) ≡ some address
unfolding idt_gate isr_gate
goes_to-idt_gate address h = ap some (omega arith)

set_gates-in :
    (idt : ℕ → IdtEntry) (address : ℕ → ℕ) (first n i : ℕ)
    → i < n
    → set_gates idt address first n (first + i) ≡ idt_gate (address i) 0x08 isr_gate
unfolding set_gates idt_set_gate
set_gates-in idt address first zero i h = absurd (omega arith)
set_gates-in idt address first (suc n) i h = elim (ℕ_discrete i n) [
  | yes e ↦ rw (e, (==_iff (first + n) (first + n)).1 refl) refl
  | no ne ↦
      rw (ne→==_false (first + i) (first + n) (λ e. ne (omega arith)))
        (set_gates-in idt address first n i (omega arith))
]

set_gates-below :
    (idt : ℕ → IdtEntry) (address : ℕ → ℕ) (first n i : ℕ)
    → i < first
    → set_gates idt address first n i ≡ idt i
unfolding set_gates idt_set_gate
set_gates-below idt address first zero i h = refl
set_gates-below idt address first (suc n) i h =
    rw (ne→==_false i (first + n) (λ e. omega arith)) (set_gates-below idt address first n i h)

set_gates-above :
    (idt : ℕ → IdtEntry) (address : ℕ → ℕ) (first n i : ℕ)
    → first + n ≤ i
    → set_gates idt address first n i ≡ idt i
unfolding set_gates idt_set_gate
set_gates-above idt address first zero i h = refl
set_gates-above idt address first (suc n) i h =
    rw (ne→==_false i (first + n) (λ e. omega arith))
      (set_gates-above idt address first n i (omega arith))

-- The table after `idt_install` and the gates of `irq_install`.
abbrev pub installed : (ℕ → ℕ) → (ℕ → ℕ) → ℕ → IdtEntry
installed isrs irqs = irq_gates (idt_install isrs) irqs

-- Where each interrupt is meant to go.
abbrev pub target_of : (ℕ → ℕ) → (ℕ → ℕ) → ℕ → Option ℕ
target_of isrs irqs i =
    if ltb i 32 then some (isrs i) else if ltb i 48 then some (irqs (i - 32)) else none

irq_lem :
    (idt : ℕ → IdtEntry) (irqs : ℕ → ℕ) (i : ℕ)
    → 32 ≤ i
    → i < 48
    → irqs (i - 32) < 2 ^ 32
    → goes_to (set_gates idt irqs 32 16 i) ≡ some (irqs (i - 32))
irq_lem idt irqs i l h b =
    let at : 32 + (i - 32) ≡ i = omega arith in
    let set_to : set_gates idt irqs 32 16 i ≡ idt_gate (irqs (i - 32)) 0x08 isr_gate =
      subst (λ j. set_gates idt irqs 32 16 j ≡ idt_gate (irqs (i - 32)) 0x08 isr_gate) at
        (set_gates-in idt irqs 32 16 (i - 32) (omega arith)) in
    ap goes_to set_to ∙ goes_to-idt_gate (irqs (i - 32)) b

isr_lem :
    (idt : ℕ → IdtEntry) (isrs : ℕ → ℕ) (i : ℕ)
    → i < 32
    → isrs i < 2 ^ 32
    → goes_to (set_gates idt isrs 0 32 i) ≡ some (isrs i)
isr_lem idt isrs i h b =
    let at : 0 + i ≡ i = omega arith in
    let set_to : set_gates idt isrs 0 32 i ≡ idt_gate (isrs i) 0x08 isr_gate =
      subst (λ j. set_gates idt isrs 0 32 j ≡ idt_gate (isrs i) 0x08 isr_gate) at
        (set_gates-in idt isrs 0 32 i h) in
    ap goes_to set_to ∙ goes_to-idt_gate (isrs i) b

-- After `idt_install` and `irq_install`, with functions at 32-bit addresses, the first 32 gates go to the
-- exceptions' functions, the next 16 to the IRQs' functions, all in the kernel's code segment, and no
-- other gate is present.
goes_to-installed :
    (isrs irqs : ℕ → ℕ) (i : ℕ)
    → ((j : ℕ) → isrs j < 2 ^ 32)
    → ((j : ℕ) → irqs j < 2 ^ 32)
    → goes_to (installed isrs irqs i) ≡ target_of isrs irqs i
unfolding irq_gates idt_install isr_install
goes_to-installed isrs irqs i a b = elim (dec_lt i 32) [
  | yes low ↦ rw (lt→ltb i 32 low) (
      ap goes_to (set_gates-below (idt_install isrs) irqs 32 16 i low)
      ∙ isr_lem cleared isrs i low (a i))
  | no not_low ↦ elim (dec_lt i 48) [
    | yes mid ↦
        rw (le→ltb_false i 32 (omega arith), lt→ltb i 48 mid)
          (irq_lem (idt_install isrs) irqs i (omega arith) mid (b (i - 32)))
    | no high ↦
        rw (le→ltb_false i 32 (omega arith), le→ltb_false i 48 (omega arith))
          (ap goes_to (
            set_gates-above (idt_install isrs) irqs 32 16 i (omega arith)
            ∙ set_gates-above cleared isrs 0 32 i (omega arith)))
  ]
]
