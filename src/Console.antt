-- ===== src/Console.antt =====
-- The formatted output of kernel/src/kernel/io.c and the serial port that it goes to.
pub mod Number
pub mod Format
pub mod Serial
pub mod Output
mod Tests
