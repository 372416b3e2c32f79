-- ===== src/Tests.antt =====
-- Concrete runs: the theorems at inputs that exercise the code, with fixed-point numbers and the
-- insertion sort.
pub mod Data
pub mod Records
pub mod Latencies
pub mod Periods
pub mod Tracing
pub mod Modes
pub mod Reports
pub mod Setup
pub mod Program
