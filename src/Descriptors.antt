-- ===== src/Descriptors.antt =====
-- The descriptor tables, kernel/src/arch/x86/gdt.c and kernel/src/arch/x86/idt.c.
pub mod Gdt
pub mod Idt
mod Tests
