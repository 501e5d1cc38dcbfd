-- ===== src/Demo.antt =====
-- The dice demo: apps/dice-demo/src.
pub mod Host
pub mod Draw
pub mod Commands
pub mod Loops
pub mod Steps
pub mod Value
pub mod History
pub mod Life
pub mod Counts
