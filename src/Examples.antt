-- ===== src/Examples.antt =====
-- Small machines and what the theorems say of them: each theorem is applied where its hypotheses
-- hold.
pub mod Machine
mod Runs
mod Accesses
mod Words
mod Contract
mod Directory
mod Tables
mod Programs
