-- ===== src/State.antt =====
-- packages/battlebelief-core/src/battlebelief_core/domain/state: what was observed of a battle.
mod Values
mod Details
mod Pokemon
mod Observed
unfoldable pub use Values.*
unfoldable pub use Details.*
unfoldable pub use Pokemon.*
unfoldable pub use Observed.*
