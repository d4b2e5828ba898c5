-- ===== src/Interrupts.antt =====
-- i386/gdt.cpp, i386/idt.cpp, i386/isrs.cpp and i386/irqs.cpp: the tables of the processor, and what
-- runs at an interrupt.
pub mod Segments
pub mod Gates
pub mod Handlers
