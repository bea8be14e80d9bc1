-- ===== src/Session/Records.antt =====
-- domain/records/decision_record.py: the statuses, the error codes and the checks that tie them.
use battle_belief.Base.{
  ℕ, String, Bool, true, false, ◌&&◌, Option, none, some, is_none, is_some, ◌==◌, option_eq,
}
use battle_belief.Actions.{
  ActionProvenance, provenance_eq, RequestIdentity, BattleSubmission, DecisionRequest,
}

pub data DecisionRecordStatus : Type 0 where
  submitted wait_noop policy_rejected action_gate_rejected : DecisionRecordStatus
  command_encoding_failed send_failed session_aborted : DecisionRecordStatus
  superseded_before_selection terminally_discarded : DecisionRecordStatus
  reconciliation_rejected freshness_invalidated : DecisionRecordStatus

-- A name ends in `_code` where a status or an exception has the plain one.
pub data DecisionRecordErrorCode : Type 0 where
  no_legal_action_available gate_rejection_code encoding_failed_code : DecisionRecordErrorCode
  send_failed_code invalid_choice_code unavailable_choice_code : DecisionRecordErrorCode
  mismatch_code stale_rqid_code disconnect_code transport_timeout_code : DecisionRecordErrorCode
  timer_or_forfeit_code unknown_event_code malformed_code reducer_code : DecisionRecordErrorCode

-- `STATUS_ERROR_CODES`: whether a code is listed for a status
unfoldable pub is_listed : DecisionRecordStatus → DecisionRecordErrorCode → Bool
is_listed policy_rejected no_legal_action_available = true
is_listed action_gate_rejected gate_rejection_code = true
is_listed command_encoding_failed encoding_failed_code = true
is_listed send_failed send_failed_code = true
is_listed send_failed invalid_choice_code = true
is_listed send_failed unavailable_choice_code = true
is_listed session_aborted disconnect_code = true
is_listed session_aborted transport_timeout_code = true
is_listed session_aborted timer_or_forfeit_code = true
is_listed session_aborted unknown_event_code = true
is_listed session_aborted malformed_code = true
is_listed session_aborted reducer_code = true
is_listed reconciliation_rejected mismatch_code = true
is_listed reconciliation_rejected stale_rqid_code = true
is_listed _ _ = false

-- `selected_required`
unfoldable pub selected_required : DecisionRecordStatus → Bool
selected_required submitted = true
selected_required action_gate_rejected = true
selected_required command_encoding_failed = true
selected_required send_failed = true
selected_required _ = false

-- `selection_forbidden`
unfoldable pub selection_forbidden : DecisionRecordStatus → Bool
selection_forbidden wait_noop = true
selection_forbidden policy_rejected = true
selection_forbidden superseded_before_selection = true
selection_forbidden terminally_discarded = true
selection_forbidden reconciliation_rejected = true
selection_forbidden freshness_invalidated = true
selection_forbidden _ = false

-- `error_forbidden`
unfoldable pub error_forbidden : DecisionRecordStatus → Bool
error_forbidden submitted = true
error_forbidden wait_noop = true
error_forbidden superseded_before_selection = true
error_forbidden terminally_discarded = true
error_forbidden freshness_invalidated = true
error_forbidden _ = false

-- `error_required`, the keys of `STATUS_ERROR_CODES`
unfoldable pub error_required : DecisionRecordStatus → Bool
error_required policy_rejected = true
error_required action_gate_rejected = true
error_required command_encoding_failed = true
error_required send_failed = true
error_required session_aborted = true
error_required reconciliation_rejected = true
error_required _ = false

abbrev pub has_listed_code : DecisionRecordStatus → Option DecisionRecordErrorCode → Bool
has_listed_code status none = false
has_listed_code status (some code) = is_listed status code

abbrev pub implies : Bool → Bool → Bool
implies true b = b
implies false b = true

abbrev pub provenance_of : Option BattleSubmission → Option ActionProvenance
provenance_of none = none
provenance_of (some s) = some s.provenance

pub record DecisionRecord : Type 0 where
  pub record_status : DecisionRecordStatus
  pub decision_index : ℕ
  pub request_identity : RequestIdentity
  pub observed_state_digest : String
  pub safe_submission_set_digest : String
  pub selected_submission : Option BattleSubmission
  pub submission_provenance : Option ActionProvenance
  pub fallback_or_error_class : Option DecisionRecordErrorCode

-- The checks of `DecisionRecord.__post_init__` on status, selection, provenance and error code.
unfoldable pub is_consistent : DecisionRecord → Bool
is_consistent r =
    implies (is_none r.selected_submission) (is_none r.submission_provenance)
    && implies (is_some r.selected_submission)
        (r.submission_provenance == provenance_of r.selected_submission)
    && implies (selected_required r.record_status) (is_some r.selected_submission)
    && implies (selection_forbidden r.record_status) (is_none r.selected_submission)
    && implies (error_forbidden r.record_status) (is_none r.fallback_or_error_class)
    && implies (error_required r.record_status) (is_some r.fallback_or_error_class)
    && implies (error_required r.record_status)
        (has_listed_code r.record_status r.fallback_or_error_class)

-- `_PendingTrace`
pub record PendingTrace : Type 0 where
  pub request : DecisionRequest
  pub observed_state_digest : String
  pub safe_submission_set_digest : String
  pub decision_index : ℕ

unfoldable pub make_record :
    PendingTrace
    → DecisionRecordStatus
    → Option DecisionRecordErrorCode
    → Option BattleSubmission
    → DecisionRecord
make_record pending status code selected = record {
  record_status = status;
  decision_index = pending.decision_index;
  request_identity = pending.request.identity;
  observed_state_digest = pending.observed_state_digest;
  safe_submission_set_digest = pending.safe_submission_set_digest;
  selected_submission = selected;
  submission_provenance = provenance_of selected;
  fallback_or_error_class = code;
}
