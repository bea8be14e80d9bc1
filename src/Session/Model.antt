-- ===== src/Session/Model.antt =====
-- composition/battle_session.py: the state of a session, its errors, and what it is run with.
use battle_belief.Base.{ℕ, String, Bool, false, Option, none, some, List, [], Result}
use battle_belief.Errors.{reducer_invariant}
use battle_belief.State.{ObservedState}
use battle_belief.Actions.{
  RequestIdentity, BattleSubmission, SafeSubmissionSet, DecisionRequest, stale_request_identity,
}
use battle_belief.RequestReader.{Loaded, Fields}
pub use battle_belief.Session.Fields.{MeasurementRunContext}
pub use battle_belief.Failures.{
  Failure, core, safety, server_invalid_choice, server_unavailable_choice, unknown_protocol_event,
  malformed_protocol_message, request_state_reconciliation_mismatch, reducer_invariant_failure,
  transport_timeout, disconnect, timer_or_forfeit, trace_sink_failure,
  decision_record_construction_failure, other,
}
use battle_belief.Session.Records.{
  DecisionRecord, PendingTrace, DecisionRecordErrorCode, mismatch_code, stale_rqid_code,
  disconnect_code, transport_timeout_code, timer_or_forfeit_code, unknown_event_code,
  malformed_code, reducer_code,
}

-- `_record_error_code`: the code of an exception, if it is one of `_ABORT_RECORD_ERROR_CODES`
unfoldable pub record_error_code : Failure → Option DecisionRecordErrorCode
record_error_code (core (reducer_invariant f)) = some reducer_code
record_error_code (safety stale_request_identity) = some stale_rqid_code
record_error_code unknown_protocol_event = some unknown_event_code
record_error_code malformed_protocol_message = some malformed_code
record_error_code request_state_reconciliation_mismatch = some mismatch_code
record_error_code reducer_invariant_failure = some reducer_code
record_error_code transport_timeout = some transport_timeout_code
record_error_code disconnect = some disconnect_code
record_error_code timer_or_forfeit = some timer_or_forfeit_code
record_error_code _ = none

-- A command that the connection took, `/choose {choice}|{rqid}`, with the request it answers, the
-- submission it encodes and the public state it was decided in.
pub record Sent : Type 0 where
  pub choice : String
  pub rqid : ℕ
  pub request : DecisionRequest
  pub submission : BattleSubmission
  pub decided_in : ObservedState

pub record RoomLine : Type 0 where
  pub room_id : Option String
  pub payload : String

pub data RoomPayloadKind : Type 0 where
  battle_event decision_request battle_error : RoomPayloadKind
  timer_message room_control_or_chat unknown : RoomPayloadKind

-- What a session is given: its room, the policy, the connection, `json.loads`, the digests, and the
-- sink of the records. The digests of the state and of a public set of submissions may raise,
-- `sink_takes` is whether the sink, which took these records, takes another one, and `send` what the
-- connection, which took these commands, does with another.
pub record Environment : Type 0 where
  pub room_id : String
  pub loads : String → Loaded
  pub canonical_digest : Fields → String
  pub select : DecisionRequest → Result Failure BattleSubmission
  pub send : List Sent → Sent → Result Failure (Unit {0})
  pub observed_state_digest : ObservedState → Result Failure String
  pub projected_set_digest : SafeSubmissionSet → Result Failure String
  pub decision_record_context : Option MeasurementRunContext
  pub sink_takes : List DecisionRecord → DecisionRecord → Bool

-- The attributes of `BattleSession`, and the commands sent and the records emitted, newest first.
pub record Session : Type 0 where
  pub state : ObservedState
  pub pending_request : Option DecisionRequest
  pub latest_request : Option RequestIdentity
  pub submitted_request : Option RequestIdentity
  pub primary_error : Option Failure
  pub trace_error : Option Failure
  pub record_error : Option Failure
  pub done : Bool
  pub room_control_or_chat_count : ℕ
  pub explicit_request_submissions : ℕ
  pub default_submissions : ℕ
  pub pending_trace : Option PendingTrace
  pub next_decision_index : ℕ
  pub trace_failed : Bool
  pub sent : List Sent
  pub emitted : List DecisionRecord

-- `BattleSession.__init__`, of a state; its check that a sink comes with a context is left out, since
-- without a context nothing is recorded.
unfoldable pub start : ObservedState → Session
start state = record {
  state = state;
  pending_request = none;
  latest_request = none;
  submitted_request = none;
  primary_error = none;
  trace_error = none;
  record_error = none;
  done = false;
  room_control_or_chat_count = 0;
  explicit_request_submissions = 0;
  default_submissions = 0;
  pending_trace = none;
  next_decision_index = 0;
  trace_failed = false;
  sent = [];
  emitted = [];
}

-- How a method is left: it returns, or it raises; either way the session is what it has made of it.
pub data Ran : Type 0 where
  returned : Session → Ran
  raised : Failure → Session → Ran

-- a call, and what comes after it when it returns
abbrev pub then_run : Ran → (Session → Ran) → Ran
then_run (raised e s) next = raised e s
then_run (returned s) next = next s

abbrev pub first_error : Option Failure → Failure → Option Failure
first_error none e = some e
first_error (some earlier) e = some earlier

-- `if self._primary_error is None: self._primary_error = error`
abbrev pub keep_error : Failure → Session → Session
keep_error e s = record s { primary_error = first_error s.primary_error e }
