-- ===== src/Parser.antt =====
-- packages/battlebelief-runtime/src/battlebelief_runtime/adapters/showdown_protocol/parser.py: the
-- canonical event of a line.
mod Words
mod Idents
mod Metadata
mod Pokemon
mod Boosts
mod Effects
mod Lines
pub mod Yields
pub mod Sound
pub mod Known
pub mod Dispatch
pub mod Numbers
pub mod SplitTexts
pub mod IdentTexts
pub mod HitPoints
unfoldable pub use Words.*
unfoldable pub use Idents.*
unfoldable pub use Metadata.*
unfoldable pub use Pokemon.*
unfoldable pub use Boosts.*
unfoldable pub use Effects.*
unfoldable pub use Lines.*
