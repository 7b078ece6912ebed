-- ===== src/Shifts.antt =====
-- application/engines/shifts: cash counts and the opening and the close of a shift.
pub mod Counts
pub mod Checks
pub mod Engine
