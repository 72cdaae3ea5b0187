-- ===== src/Tests.antt =====
-- Runs at concrete inputs, and the theorems at inputs that meet their hypotheses.
pub mod Keys
pub mod Lease
pub mod Recovery
pub mod Api
pub mod Handler
