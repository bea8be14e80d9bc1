-- ===== src/Session/Steps/Submission.antt =====
-- composition/battle_session.py: answering the pending request.
use battle_belief.Base.{
  ℕ, ◌+◌, String, Bool, true, false, not, ◌&&◌, ◌||◌, Option, none, some, ◌∷◌, Result, ok, err,
  ◌==◌, nat_eq, string_eq, option_eq, if◌then◌else◌,
}
use battle_belief.Errors.{Core}
use battle_belief.State.{ObservedState}
use battle_belief.Actions.{
  ActionProvenance, explicit_request, server_default, RequestKind, wait, RequestIdentity,
  BattleSubmission, DecisionRequest, identity_eq, SafetyError, local_action_gate_rejection,
  no_legal_action, authorize,
}
use battle_belief.Reconciler.{
  ReconciliationResult, ReconciliationStatus, accept, pending_public_state, reject, Reason,
  active_unknown, reconcile,
}
use battle_belief.Session.Records.{
  DecisionRecordStatus, submitted, wait_noop, policy_rejected, action_gate_rejected,
  command_encoding_failed, send_failed, DecisionRecordErrorCode, no_legal_action_available,
  gate_rejection_code, encoding_failed_code, send_failed_code, invalid_choice_code,
  unavailable_choice_code,
}
use battle_belief.Session.Encoder.{encode_submission}
use battle_belief.Session.Model.{
  Failure, core, safety, server_invalid_choice, server_unavailable_choice, Sent, Environment,
  Session, Ran, returned, raised, then_run, keep_error,
}
use battle_belief.Session.Steps.Trace.{
  finalize_pending, refresh_pending_trace_state, reject_reconciliation,
}

-- the failure branches of `_submit`: remember the error, finalize the record, raise
abbrev pub fail_submit :
    Environment
    → DecisionRecordStatus
    → DecisionRecordErrorCode
    → Option BattleSubmission
    → Failure
    → Session
    → Ran
fail_submit env status code selected e s =
    raised e (finalize_pending env status (some code) selected (keep_error e s))

abbrev pub send_error_code : Failure → DecisionRecordErrorCode
send_error_code server_invalid_choice = invalid_choice_code
send_error_code server_unavailable_choice = unavailable_choice_code
send_error_code _ = send_failed_code

abbrev pub count_submission : ActionProvenance → Session → Session
count_submission explicit_request s = record s {
  explicit_request_submissions = s.explicit_request_submissions + 1;
}
count_submission server_default s = record s { default_submissions = s.default_submissions + 1 }

unfoldable pub after_send :
    Environment
    → DecisionRequest
    → BattleSubmission
    → Sent
    → Session
    → Result Failure (Unit {0})
    → Ran
after_send env request authorized command s (err e) =
    fail_submit env send_failed (send_error_code e) (some authorized) e s
after_send env request authorized command s (ok _) = returned (
    finalize_pending env submitted none (some authorized)
      (record (count_submission authorized.provenance (record s { sent = command ∷ s.sent })) {
        submitted_request = some request.identity;
        pending_request = none;
      }))

abbrev pub command_of : DecisionRequest → BattleSubmission → String → ObservedState → Sent
command_of request authorized choice state = record {
  choice = choice;
  rqid = request.identity.rqid;
  request = request;
  submission = authorized;
  decided_in = state;
}

unfoldable pub after_encode :
    Environment → DecisionRequest → BattleSubmission → Session → Result Failure String → Ran
after_encode env request authorized s (err e) =
    fail_submit env command_encoding_failed encoding_failed_code (some authorized) e s
after_encode env request authorized s (ok choice) =
    let command = command_of request authorized choice s.state in
    after_send env request authorized command s (env.send s.sent command)

unfoldable pub after_gate :
    Environment
    → DecisionRequest
    → BattleSubmission
    → Session
    → Result SafetyError BattleSubmission
    → Ran
after_gate env request candidate s (ok authorized) =
    after_encode env request authorized s (ok (encode_submission authorized))
after_gate env request candidate s (err local_action_gate_rejection) =
    fail_submit env action_gate_rejected gate_rejection_code (some candidate)
      (safety local_action_gate_rejection) s
after_gate env request candidate s (err e) = raised (safety e) s

unfoldable pub after_policy :
    Environment → DecisionRequest → Session → Result Failure BattleSubmission → Ran
after_policy env request s (ok candidate) =
    after_gate env request candidate s
      (authorize candidate request.identity request.safe_submissions)
after_policy env request s (err (safety no_legal_action)) =
    fail_submit env policy_rejected no_legal_action_available none (safety no_legal_action) s
after_policy env request s (err e) = raised e s

abbrev pub is_wait : RequestKind → Bool
is_wait wait = true
is_wait _ = false

-- `_submit`
unfoldable pub submit : Environment → DecisionRequest → Session → Ran
submit env request s =
    if some request.identity == s.submitted_request
    then returned (record s { pending_request = none })
    else if is_wait request.kind
    then returned (
        finalize_pending env wait_noop none none
          (record s { submitted_request = some request.identity; pending_request = none }))
    else after_policy env request s (env.select request)

abbrev pub rqid_of : Option RequestIdentity → Option ℕ
rqid_of none = none
rqid_of (some identity) = some identity.rqid

abbrev pub is_active_unknown : Reason → Bool
is_active_unknown active_unknown = true
is_active_unknown _ = false

unfoldable pub follow_status :
    Environment → Bool → DecisionRequest → Session → ReconciliationStatus → Reason → Ran
follow_status env strict request s reject reason = reject_reconciliation env s
follow_status env strict request s pending_public_state reason =
    if strict || s.state.battle_started && not (is_active_unknown reason)
    then reject_reconciliation env s
    else returned s
follow_status env strict request s accept reason =
    then_run (refresh_pending_trace_state env s) (submit env request)

unfoldable pub after_reconcile :
    Environment → Bool → DecisionRequest → Session → Core ReconciliationResult → Ran
after_reconcile env strict request s (err e) = raised (core e) s
after_reconcile env strict request s (ok r) = follow_status env strict request s r.status r.reason

unfoldable pub retry_request : Environment → Bool → Session → Option DecisionRequest → Ran
retry_request env strict s none = returned s
retry_request env strict s (some request) =
    after_reconcile env strict request s
      (reconcile env.room_id request s.state (rqid_of s.submitted_request))

-- `_retry_pending`
unfoldable pub retry_pending : Environment → Bool → Session → Ran
retry_pending env strict s = retry_request env strict s s.pending_request
