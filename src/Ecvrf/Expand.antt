-- ===== src/Ecvrf/Expand.antt =====
-- packages/ecvrf/src/expand.ts: the stream of values that a VRF output expands to.
mod Defs
pub mod Numbers
pub mod Slots
pub mod Position
pub mod Draws
pub mod Range
pub mod Shuffle
unfoldable pub use Defs.*
