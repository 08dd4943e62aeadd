-- ===== src/Drivers.antt =====
-- The driver registry, kernel/src/drivers/driversys.c and kernel/src/drivers/driversys.h.
pub mod Types
pub mod Registry
mod Tests
