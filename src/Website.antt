-- ===== src/Website.antt =====
-- The logic of apps/website/src: the pages that verify a roll and look an authority up, and the
-- demos in the browser and with a wallet.
pub mod Verify
pub mod Lookup
pub mod ClientDemo
pub mod WalletDemo
pub mod Steps
pub mod Soundness
