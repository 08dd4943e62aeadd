-- ===== src/Keyboard.antt =====
-- The PS/2 keyboard driver, kernel/src/arch/x86/keyboard.c.
pub mod Tables
pub mod Buffer
pub mod Ports
pub mod Input
pub mod Start
mod Tests
