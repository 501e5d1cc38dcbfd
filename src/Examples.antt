-- ===== src/Examples.antt =====
-- The theorems applied at concrete inputs.
mod Toy
mod Proofs
mod Codec
mod Streams
mod Network
mod Ledger
mod Scenario
mod Registry
mod Dice
mod Games
mod Commits
mod Search
mod Site
mod Wallet
