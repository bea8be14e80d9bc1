-- ===== src/Failures.antt =====
-- packages/battlebelief-runtime/src/battlebelief_runtime/errors and composition/battle_session.py: the
-- exceptions that a session may see.
use battle_belief.Base.{String}
use battle_belief.Errors.{CoreError}
use battle_belief.Actions.{SafetyError}

-- The exceptions, by class; `other` is one that the program does not name.
pub data Failure : Type 0 where
  core : CoreError → Failure
  safety : SafetyError → Failure
  server_invalid_choice server_unavailable_choice : Failure
  unknown_protocol_event malformed_protocol_message : Failure
  request_state_reconciliation_mismatch reducer_invariant_failure : Failure
  transport_timeout disconnect timer_or_forfeit : Failure
  trace_sink_failure decision_record_construction_failure : Failure
  other : String → Failure
