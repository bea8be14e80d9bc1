-- ===== src/RequestReader.antt =====
-- packages/battlebelief-runtime/src/battlebelief_runtime/adapters/showdown_protocol/request_reader.py:
-- the request of a payload.
mod JsonValues
mod Side
mod Active
mod Submissions
mod Reader
pub mod Orders
pub mod Safe
pub mod Offers
pub mod TeamOrders
pub mod Readers
pub mod Sound
pub mod Agreed
pub mod Choices
pub mod Slots
pub mod Bench
pub mod Offered
pub mod AllOrders
pub mod Complete
unfoldable pub use JsonValues.*
unfoldable pub use Side.*
unfoldable pub use Active.*
unfoldable pub use Submissions.*
unfoldable pub use Reader.*
