-- ===== src/Tests.antt =====
-- Runs of the model at concrete inputs, and the theorems at inputs that meet their hypotheses.
pub mod Buffers
pub mod Connections
pub mod Tables
pub mod Balances
pub mod Logs
pub mod Texts
pub mod Configs
pub mod Workers
pub mod Serving
pub mod Draws
pub mod Rounds
pub mod Guards
pub mod Clocks
pub mod Admissions
