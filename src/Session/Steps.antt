-- ===== src/Session/Steps.antt =====
-- composition/battle_session.py: the methods of `BattleSession`.
mod Trace
mod Submission
mod Lines
unfoldable pub use Trace.*
unfoldable pub use Submission.*
unfoldable pub use Lines.*
