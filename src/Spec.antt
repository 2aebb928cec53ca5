-- ===== src/Spec.antt =====
-- spec/src: the contract that the engines share.
pub mod Map
pub mod Checkpoint
pub mod Line
pub mod Halt
