-- ===== src/Session.antt =====
-- packages/battlebelief-runtime/src/battlebelief_runtime/composition/battle_session.py and what it
-- uses of packages/battlebelief-core/src/battlebelief_core/domain/records: a session of one battle.
pub mod Ledger
pub mod Answers
pub mod Submits
pub mod Receives
pub mod Sound
pub mod Commands
pub mod Traces
pub mod Shapes
pub mod Decided
pub mod Journals
pub mod Recorded
pub mod Constructed
pub mod Reports
pub mod Tried
pub mod Tries
pub mod Progress
mod Frames
pub mod Decoding
pub mod Dispatched
pub mod Choices
mod Records
mod Fields
mod Model
mod Encoder
mod Classifier
mod Steps
unfoldable pub use Records.*
unfoldable pub use Fields.*
unfoldable pub use Model.*
unfoldable pub use Frames.*
unfoldable pub use Encoder.*
unfoldable pub use Classifier.*
unfoldable pub use Steps.*
