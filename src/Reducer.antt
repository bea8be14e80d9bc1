-- ===== src/Reducer.antt =====
-- packages/battlebelief-core/src/battlebelief_core/application/observation/reducer.py: the observed
-- state after one more battle event. The definitions are in `Lookup`, `Boosts`, `Conditions`,
-- `Switching`, `Handlers` and `Reduce`.
mod Lookup
mod Boosts
mod Conditions
mod Switching
mod Handlers
mod Reduce
pub mod History
pub mod Handled
pub mod Grows
pub mod Chronicle
pub mod Valid
pub mod Values
pub mod Opened
pub mod Views
pub mod Sides
pub mod Layers
pub mod SideMap
pub mod SwitchIn
pub mod Pairs
pub mod Fielded
pub mod Facts
pub mod Kinds
pub mod Preserve
pub mod Invariant
unfoldable pub use Lookup.*
unfoldable pub use Boosts.*
unfoldable pub use Conditions.*
unfoldable pub use Switching.*
unfoldable pub use Handlers.*
unfoldable pub use Reduce.*
