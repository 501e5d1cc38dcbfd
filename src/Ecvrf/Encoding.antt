-- ===== src/Ecvrf/Encoding.antt =====
-- packages/ecvrf/src/encoding.ts: byte strings, integers and hexadecimal text.
-- A `Uint8Array` is a list of numbers below 256, a JavaScript string the list of its UTF-16 code
-- units, and a `bigint` an integer.
mod Defs
pub mod Concat
pub mod Integers
pub mod Hex
unfoldable pub use Defs.*
