-- ===== src/Session/Shapes.antt =====
-- battle_session.py: the records that the methods make, and what a predicate on them is kept by.
use battle_belief.Base.{
  ℕ, true, Option, none, some, List, ◌≡◌, refl, ◌==◌, option_eq, nat_eq, string_eq,
}
use battle_belief.Actions.{
  BattleSubmission, DecisionRequest, submission_eq, provenance_eq, identity_eq,
  stale_request_identity, local_action_gate_rejection, no_legal_action,
}
use battle_belief.Session.Records
use battle_belief.Session.Records.{DecisionRecord, DecisionRecordStatus, DecisionRecordErrorCode}
use battle_belief.Session.Model
use battle_belief.Session.Model.{
  Failure, core, safety, Sent, RoomLine, RoomPayloadKind, Environment, Session, Ran, returned,
  raised, keep_error, record_error_code, start,
}
use battle_belief.RequestReader.Readers.{IsReadRequest}
use battle_belief.Session.Ledger.{Left}
use battle_belief.Session.Steps.{
  finalize_pending, open_trace, refresh_pending_trace_state, send_error_code,
}
use battle_belief.Errors.{reducer_invariant, value_error, index_error, assertion_error}
use battle_belief.Session.Records.{PendingTrace, make_record, is_consistent, provenance_of, implies}
use battle_belief.Base.{==_refl}

-- The part of a session that says which decisions it recorded.
pub record Journal : Type 0 where
  pub pending : Option PendingTrace
  pub next : ℕ
  pub emitted : List DecisionRecord
  pub record_error : Option Failure
  pub primary_error : Option Failure

abbrev pub journal_of : Session → Journal
journal_of s = record {
  pending = s.pending_trace;
  next = s.next_decision_index;
  emitted = s.emitted;
  record_error = s.record_error;
  primary_error = s.primary_error;
}

-- A record with this status, error code and selection passes the checks that tie them.
unfoldable pub IsShape :
    DecisionRecordStatus → Option DecisionRecordErrorCode → Option BattleSubmission → Type 0
IsShape status code selected =
    (pending : PendingTrace) → is_consistent (make_record pending status code selected) ≡ true

-- What keeps P: finalizing, with a consistent record, opening and refreshing the open record, for a request that was read, and
-- remembering an error.
pub record Keeps (env : Environment) (P : Journal → Type 0) : Type 0 where
  pub finalized :
      (status : DecisionRecordStatus) (code : Option DecisionRecordErrorCode)
      (selected : Option BattleSubmission) (s : Session)
      → IsShape status code selected
      → P (journal_of s)
      → P (journal_of (finalize_pending env status code selected s))
  pub opened :
      (request : DecisionRequest) (s : Session)
      → IsReadRequest env.room_id request
      → P (journal_of s)
      → Left (λ s'. P (journal_of s')) (open_trace env request s)
  pub refreshed :
      (s : Session)
      → P (journal_of s)
      → Left (λ s'. P (journal_of s')) (refresh_pending_trace_state env s)
  pub reported : (e : Failure) (s : Session) → P (journal_of s) → P (journal_of (keep_error e s))

chosen-IsShape :
    (status : DecisionRecordStatus) (code : Option DecisionRecordErrorCode) (s : BattleSubmission)
    → ((p : PendingTrace)
        → (some s.provenance == some s.provenance) ≡ true
        → is_consistent (make_record p status code (some s)) ≡ true)
    → IsShape status code (some s)
unfolding IsShape
chosen-IsShape status code s h pending = h pending (==_refl (some s.provenance))

pub submitted-IsShape : (s : BattleSubmission) → IsShape Records.submitted none (some s)
unfolding is_consistent make_record Records.selected_required Records.selection_forbidden
    Records.error_forbidden Records.error_required Records.is_listed
submitted-IsShape s = chosen-IsShape _ _ s (λ p e. rw e refl)

pub gate-IsShape :
    (s : BattleSubmission)
    → IsShape Records.action_gate_rejected (some Records.gate_rejection_code) (some s)
unfolding is_consistent make_record Records.selected_required Records.selection_forbidden
    Records.error_forbidden Records.error_required Records.is_listed
gate-IsShape s = chosen-IsShape _ _ s (λ p e. rw e refl)

pub encoding-IsShape :
    (s : BattleSubmission)
    → IsShape Records.command_encoding_failed (some Records.encoding_failed_code) (some s)
unfolding is_consistent make_record Records.selected_required Records.selection_forbidden
    Records.error_forbidden Records.error_required Records.is_listed
encoding-IsShape s = chosen-IsShape _ _ s (λ p e. rw e refl)

pub send-IsShape :
    (e : Failure) (s : BattleSubmission)
    → IsShape Records.send_failed (some (send_error_code e)) (some s)
unfolding is_consistent make_record Records.selected_required Records.selection_forbidden
    Records.error_forbidden Records.error_required Records.is_listed
send-IsShape (core (reducer_invariant f)) s = chosen-IsShape _ _ s (λ p e. rw e refl)
send-IsShape (core value_error) s = chosen-IsShape _ _ s (λ p e. rw e refl)
send-IsShape (core index_error) s = chosen-IsShape _ _ s (λ p e. rw e refl)
send-IsShape (core assertion_error) s = chosen-IsShape _ _ s (λ p e. rw e refl)
send-IsShape (safety no_legal_action) s = chosen-IsShape _ _ s (λ p e. rw e refl)
send-IsShape (safety stale_request_identity) s = chosen-IsShape _ _ s (λ p e. rw e refl)
send-IsShape (safety local_action_gate_rejection) s = chosen-IsShape _ _ s (λ p e. rw e refl)
send-IsShape Model.server_invalid_choice s = chosen-IsShape _ _ s (λ p e. rw e refl)
send-IsShape Model.server_unavailable_choice s = chosen-IsShape _ _ s (λ p e. rw e refl)
send-IsShape Model.unknown_protocol_event s = chosen-IsShape _ _ s (λ p e. rw e refl)
send-IsShape Model.malformed_protocol_message s = chosen-IsShape _ _ s (λ p e. rw e refl)
send-IsShape Model.request_state_reconciliation_mismatch s = chosen-IsShape _ _ s (λ p e. rw e refl)
send-IsShape Model.reducer_invariant_failure s = chosen-IsShape _ _ s (λ p e. rw e refl)
send-IsShape Model.transport_timeout s = chosen-IsShape _ _ s (λ p e. rw e refl)
send-IsShape Model.disconnect s = chosen-IsShape _ _ s (λ p e. rw e refl)
send-IsShape Model.timer_or_forfeit s = chosen-IsShape _ _ s (λ p e. rw e refl)
send-IsShape Model.trace_sink_failure s = chosen-IsShape _ _ s (λ p e. rw e refl)
send-IsShape Model.decision_record_construction_failure s = chosen-IsShape _ _ s (λ p e. rw e refl)
send-IsShape (Model.other text) s = chosen-IsShape _ _ s (λ p e. rw e refl)

pub wait-IsShape : IsShape Records.wait_noop none none
unfolding IsShape is_consistent make_record Records.selected_required Records.selection_forbidden
    Records.error_forbidden Records.error_required Records.is_listed
wait-IsShape pending = refl

pub policy-IsShape : IsShape Records.policy_rejected (some Records.no_legal_action_available) none
unfolding IsShape is_consistent make_record Records.selected_required Records.selection_forbidden
    Records.error_forbidden Records.error_required Records.is_listed
policy-IsShape pending = refl

pub superseded-IsShape : IsShape Records.superseded_before_selection none none
unfolding IsShape is_consistent make_record Records.selected_required Records.selection_forbidden
    Records.error_forbidden Records.error_required Records.is_listed
superseded-IsShape pending = refl

pub discarded-IsShape : IsShape Records.terminally_discarded none none
unfolding IsShape is_consistent make_record Records.selected_required Records.selection_forbidden
    Records.error_forbidden Records.error_required Records.is_listed
discarded-IsShape pending = refl

pub mismatch-IsShape : IsShape Records.reconciliation_rejected (some Records.mismatch_code) none
unfolding IsShape is_consistent make_record Records.selected_required Records.selection_forbidden
    Records.error_forbidden Records.error_required Records.is_listed
mismatch-IsShape pending = refl

pub invalidated-IsShape : IsShape Records.freshness_invalidated none none
unfolding IsShape is_consistent make_record Records.selected_required Records.selection_forbidden
    Records.error_forbidden Records.error_required Records.is_listed
invalidated-IsShape pending = refl

pub aborted-IsShape :
    (code : DecisionRecordErrorCode)
    → Records.is_listed Records.session_aborted code ≡ true
    → IsShape Records.session_aborted (some code) none
unfolding IsShape is_consistent make_record Records.selected_required Records.selection_forbidden
    Records.error_forbidden Records.error_required
aborted-IsShape code listed pending = rw listed refl
