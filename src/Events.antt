-- ===== src/Events.antt =====
-- packages/battlebelief-core/src/battlebelief_core/domain/events: the canonical battle events.
mod Metadata
mod Pokemon
mod Field
unfoldable pub use Metadata.*
unfoldable pub use Pokemon.*
unfoldable pub use Field.*
