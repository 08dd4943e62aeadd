-- ===== src/Mouse.antt =====
-- The PS/2 mouse, kernel/src/arch/x86/mouse.c and kernel/src/arch/x86/include/mouse.h.
pub mod Ports
pub mod Packet
pub mod Start
mod Tests
