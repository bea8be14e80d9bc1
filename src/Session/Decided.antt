-- ===== src/Session/Decided.antt =====
-- battle_session.py: `_submit` and the open record of a decision.
use battle_belief.Base.{
  String, none, some, ◌∷◌, Result, ok, err, if_intro, ◌==◌, option_eq, nat_eq, string_eq,
}
use battle_belief.Actions.{
  ActionProvenance, explicit_request, server_default, BattleSubmission, DecisionRequest,
  submission_eq, provenance_eq, identity_eq, SafetyError, stale_request_identity,
  local_action_gate_rejection, no_legal_action, authorize,
}
use battle_belief.Session.Model
use battle_belief.Session.Encoder.{encode_submission}
use battle_belief.Session.Model.{
  Failure, core, safety, Sent, RoomLine, RoomPayloadKind, Environment, Session, Ran, returned,
  raised, keep_error, record_error_code, start,
}
use battle_belief.Session.Steps.{
  reject_reconciliation, count_submission, command_of, after_send, after_encode, after_gate,
  after_policy, is_wait, submit,
}
use battle_belief.Session.Ledger.{Left}
use battle_belief.Session.Shapes.{
  Journal, journal_of, Keeps, submitted-IsShape, gate-IsShape, encoding-IsShape, send-IsShape,
  wait-IsShape, policy-IsShape, mismatch-IsShape,
}

module _ (env : Environment) (P : Journal → Type 0) (k : Keeps env P) where
  abbrev Kept : Session → Type 0
  Kept s = P (journal_of s)

  pub reject_reconciliation-keeps : (s : Session) → Kept s → Left Kept (reject_reconciliation env s)
  unfolding reject_reconciliation
  reject_reconciliation-keeps s p =
      k.finalized _ _ _ (keep_error _ s) mismatch-IsShape (k.reported _ s p)

  counted-keeps :
      (request : DecisionRequest) (x : Sent) (provenance : ActionProvenance) (s : Session)
      → Kept s
      → Kept (record (count_submission provenance (record s { sent = x ∷ s.sent })) {
        submitted_request = some request.identity;
        pending_request = none;
      })
  counted-keeps request x explicit_request s p = p
  counted-keeps request x server_default s p = p

  after_send-keeps :
      (request : DecisionRequest) (authorized : BattleSubmission) (x : Sent) (s : Session)
      (result : Result Failure (Unit {0}))
      → Kept s
      → Left Kept (after_send env request authorized x s result)
  unfolding after_send
  after_send-keeps request authorized x s (err e) p =
      k.finalized _ _ _ (keep_error e s) (send-IsShape e authorized) (k.reported e s p)
  after_send-keeps request authorized x s (ok _) p =
      k.finalized _ _ _ _ (submitted-IsShape authorized)
        (counted-keeps request x authorized.provenance s p)

  after_encode-keeps :
      (request : DecisionRequest) (authorized : BattleSubmission) (s : Session)
      (result : Result Failure String)
      → Kept s
      → Left Kept (after_encode env request authorized s result)
  unfolding after_encode
  after_encode-keeps request authorized s (err e) p =
      k.finalized _ _ _ (keep_error e s) (encoding-IsShape authorized) (k.reported e s p)
  after_encode-keeps request authorized s (ok choice) p =
      after_send-keeps request authorized (command_of request authorized choice s.state) s _ p

  after_gate-keeps :
      (request : DecisionRequest) (candidate : BattleSubmission) (s : Session)
      (result : Result SafetyError BattleSubmission)
      → Kept s
      → Left Kept (after_gate env request candidate s result)
  unfolding after_gate
  after_gate-keeps request candidate s (ok authorized) p =
      after_encode-keeps request authorized s (ok (encode_submission authorized)) p
  after_gate-keeps request candidate s (err local_action_gate_rejection) p =
      k.finalized _ _ _ (keep_error _ s) (gate-IsShape candidate) (k.reported _ s p)
  after_gate-keeps request candidate s (err stale_request_identity) p = p
  after_gate-keeps request candidate s (err no_legal_action) p = p

  after_policy-keeps :
      (request : DecisionRequest) (s : Session) (result : Result Failure BattleSubmission)
      → Kept s
      → Left Kept (after_policy env request s result)
  unfolding after_policy
  after_policy-keeps request s (ok candidate) p =
      after_gate-keeps request candidate s
        (authorize candidate request.identity request.safe_submissions) p
  after_policy-keeps request s (err (safety no_legal_action)) p =
      k.finalized _ _ _ (keep_error _ s) policy-IsShape (k.reported _ s p)
  after_policy-keeps request s (err (core e)) p = p
  after_policy-keeps request s (err (safety stale_request_identity)) p = p
  after_policy-keeps request s (err (safety local_action_gate_rejection)) p = p
  after_policy-keeps request s (err Model.server_invalid_choice) p = p
  after_policy-keeps request s (err Model.server_unavailable_choice) p = p
  after_policy-keeps request s (err Model.unknown_protocol_event) p = p
  after_policy-keeps request s (err Model.malformed_protocol_message) p = p
  after_policy-keeps request s (err Model.request_state_reconciliation_mismatch) p = p
  after_policy-keeps request s (err Model.reducer_invariant_failure) p = p
  after_policy-keeps request s (err Model.transport_timeout) p = p
  after_policy-keeps request s (err Model.disconnect) p = p
  after_policy-keeps request s (err Model.timer_or_forfeit) p = p
  after_policy-keeps request s (err Model.trace_sink_failure) p = p
  after_policy-keeps request s (err Model.decision_record_construction_failure) p = p
  after_policy-keeps request s (err (Model.other text)) p = p

  pub submit-keeps :
      (request : DecisionRequest) (s : Session) → Kept s → Left Kept (submit env request s)
  unfolding submit
  submit-keeps request s p = if_intro (Left Kept) (some request.identity == s.submitted_request) p (
      if_intro (Left Kept) (is_wait request.kind)
        (k.finalized _ _ _
          (record s { submitted_request = some request.identity; pending_request = none })
          wait-IsShape p)
        (after_policy-keeps request s (env.select request) p))
