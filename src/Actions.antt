-- ===== src/Actions.antt =====
-- packages/battlebelief-core/src/battlebelief_core/domain/actions, application/decision and
-- application/safety/action_gate.py: submissions, the policy that selects one, and the gate.
mod Submission
mod Policy
pub mod Checks
pub mod Safety
unfoldable pub use Submission.*
unfoldable pub use Policy.*
