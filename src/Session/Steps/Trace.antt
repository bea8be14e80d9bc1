-- ===== src/Session/Steps/Trace.antt =====
-- composition/battle_session.py: the record of the decision that is open.
use battle_belief.Base.{
  ◌+◌, String, Bool, true, false, not, ◌&&◌, ◌||◌, Option, none, some, ◌∷◌, is_some, is_none,
  Result, ok, err, ◌>>=◌, ◌>>◌, guard, nat_eq, string_eq, option_eq, if◌then◌else◌,
}
use battle_belief.Errors.{value_error}
use battle_belief.Actions.{BattleSubmission, SafeSubmissionSet, DecisionRequest, identity_eq}
use battle_belief.Session.Fields.{is_public, fields_valid}
use battle_belief.Session.Records.{
  DecisionRecord, DecisionRecordStatus, reconciliation_rejected, DecisionRecordErrorCode,
  mismatch_code, PendingTrace, is_consistent, make_record,
}
use battle_belief.Session.Model.{
  request_state_reconciliation_mismatch, trace_sink_failure, decision_record_construction_failure,
  MeasurementRunContext, Environment, Session, Ran, returned, raised, keep_error, Failure, core,
}

-- `_handle_record_construction_failure`
unfoldable pub handle_record_construction_failure : Session → Session
handle_record_construction_failure s = keep_error decision_record_construction_failure (record s {
  trace_failed = true;
  record_error = some decision_record_construction_failure;
  done = true;
})

-- `_handle_trace_failure`
unfoldable pub handle_trace_failure : Session → Session
handle_trace_failure s =
    keep_error trace_sink_failure
      (record s { trace_failed = true; trace_error = some trace_sink_failure; done = true })

-- `context is not None and context.resolved_binding is not None`
abbrev pub is_bound : Option MeasurementRunContext → Bool
is_bound none = false
is_bound (some context) = is_some context.resolved_binding

unfoldable pub emit_record : Environment → Bool → DecisionRecord → Session → Session
emit_record env valid r s =
    if valid && is_consistent r
    then (if env.sink_takes s.emitted r
        then record s { emitted = r ∷ s.emitted }
        else handle_trace_failure s)
    else handle_record_construction_failure s

abbrev pub finalize_trace :
    Environment
    → DecisionRecordStatus
    → Option DecisionRecordErrorCode
    → Option BattleSubmission
    → Option PendingTrace
    → Session
    → Session
finalize_trace env status code selected none s = s
finalize_trace env status code selected (some pending) s =
    if is_bound env.decision_record_context && not s.trace_failed
    then emit_record env (fields_valid env.decision_record_context pending)
        (make_record pending status code selected) (record s { pending_trace = none })
    else record s { pending_trace = none }

-- `_finalize_pending`
unfoldable pub finalize_pending :
    Environment
    → DecisionRecordStatus
    → Option DecisionRecordErrorCode
    → Option BattleSubmission
    → Session
    → Session
finalize_pending env status code selected s =
    finalize_trace env status code selected s.pending_trace s

-- `safe_submission_set_digest`: the identity is projected first, then the set is hashed.
unfoldable pub safe_submission_set_digest : Environment → SafeSubmissionSet → Result Failure String
unfolding is_public
safe_submission_set_digest env submissions = do
  guard (is_public submissions.request_identity) (core value_error)
  env.projected_set_digest submissions

-- `_PendingTrace(...)`, with its two digests
unfoldable pub trace_of : Environment → DecisionRequest → Session → Result Failure PendingTrace
unfolding safe_submission_set_digest
trace_of env request s = do
  observed ← env.observed_state_digest s.state
  submissions ← safe_submission_set_digest env request.safe_submissions
  ok (record {
    request = request;
    observed_state_digest = observed;
    safe_submission_set_digest = submissions;
    decision_index = s.next_decision_index;
  })

abbrev pub opened_with : Session → Result Failure PendingTrace → Ran
opened_with s (err e) = raised e s
opened_with s (ok trace) =
    returned
      (record s { pending_trace = some trace; next_decision_index = s.next_decision_index + 1 })

-- `_open_trace`
unfoldable pub open_trace : Environment → DecisionRequest → Session → Ran
unfolding trace_of
open_trace env request s =
    if is_none env.decision_record_context || s.trace_failed
    then returned s
    else opened_with s (trace_of env request s)

abbrev pub refreshed_with : Session → PendingTrace → Result Failure String → Ran
refreshed_with s pending (err e) = raised e s
refreshed_with s pending (ok digest) =
    returned (record s { pending_trace = some (record pending { observed_state_digest = digest }) })

abbrev pub refresh_trace : Environment → Session → Option PendingTrace → Ran
refresh_trace env s none = returned s
refresh_trace env s (some pending) = refreshed_with s pending (env.observed_state_digest s.state)

-- `_refresh_pending_trace_state`
unfoldable pub refresh_pending_trace_state : Environment → Session → Ran
refresh_pending_trace_state env s = refresh_trace env s s.pending_trace

-- `_reject_reconciliation`, and the `raise` of its result
unfoldable pub reject_reconciliation : Environment → Session → Ran
reject_reconciliation env s = raised request_state_reconciliation_mismatch (
    finalize_pending env reconciliation_rejected (some mismatch_code) none
      (keep_error request_state_reconciliation_mismatch s))
