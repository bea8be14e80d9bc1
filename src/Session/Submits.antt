-- ===== src/Session/Submits.antt =====
-- battle_session.py: submitting a request, and the ledger.
use battle_belief.Base.{
  sym, ap, subst, ◌∙◌, ℕ, String, Bool, true, false, not, ◌&&◌, ◌||◌, Option, none, some, ◌∷◌,
  Result, ok, err, ◌≡◌, refl, contains, if_cases, if_intro, arith, ◌==◌, option_eq, nat_eq,
  string_eq,
}
use battle_belief.Errors.{Core}
use battle_belief.Actions.{
  ActionProvenance, explicit_request, server_default, BattleSubmission, DecisionRequest,
  submission_eq, provenance_eq, identity_eq, SafetyError, stale_request_identity,
  local_action_gate_rejection, no_legal_action, authorize,
}
use battle_belief.Actions.Safety.{authorize_iff}
use battle_belief.Reconciler.{
  ReconciliationResult, ReconciliationStatus, accept, pending_public_state, reject, Reason,
  reconcile,
}
use battle_belief.Reconciler.Accepts.{IsAccepted, reconcile-IsAccepted}
use battle_belief.RequestReader.Readers.{IsReadRequest}
use battle_belief.Session.Model
use battle_belief.Session.Encoder.{encode_submission}
use battle_belief.Session.Model.{
  Failure, core, safety, Sent, RoomLine, RoomPayloadKind, Environment, Session, Ran, returned,
  raised, keep_error, record_error_code, start,
}
use battle_belief.Session.Steps.{
  refresh_pending_trace_state, count_submission, command_of, after_send, after_encode, after_gate,
  after_policy, is_wait, submit, rqid_of, is_active_unknown, follow_status, after_reconcile,
  retry_request, retry_pending,
}
use battle_belief.Session.Ledger.{
  ledger_of, Left, Left-then, IsRetraced, refresh-IsRetraced, IsSoundLedger, IsLatest, WasRead,
  IsAuthorized,
}
use battle_belief.Session.Answers.{
  IsSound, finalize-IsSound, reject_reconciliation-IsSound, settled-IsSoundLedger,
  noop-IsSoundLedger, sent-IsSoundLedger,
}

-- A method that submits a request runs on the latest request, which is not answered yet.
record IsOpen (env : Environment) (request : DecisionRequest) (s : Session) : Type 0 where
  pub latest : s.latest_request ≡ some request.identity
  pub unanswered : (some request.identity == s.submitted_request) ≡ false
  pub agrees : (latest : Option ℕ) × IsAccepted env.room_id request s.state latest
  pub read : IsReadRequest env.room_id request
  pub sound : IsSound env s

counted_send-IsSound :
    (env : Environment) (request : DecisionRequest) (x : Sent) (s : Session) (p : ActionProvenance)
    → p ≡ x.submission.provenance
    → x.rqid ≡ request.identity.rqid
    → IsAuthorized env x
    → IsOpen env request s
    → IsSound env (record (count_submission p (record s { sent = x ∷ s.sent })) {
      submitted_request = some request.identity;
      pending_request = none;
    })
counted_send-IsSound env request x s explicit_request is same auth o =
    sent-IsSoundLedger env (ledger_of s) request.identity x _ _ o.latest o.unanswered same auth
      (ground (arith, o.sound.explicit_counted)) (ground (arith, o.sound.defaults_counted)) o.sound
counted_send-IsSound env request x s server_default is same auth o =
    sent-IsSoundLedger env (ledger_of s) request.identity x _ _ o.latest o.unanswered same auth
      (ground (arith, o.sound.explicit_counted)) (ground (arith, o.sound.defaults_counted)) o.sound

after_send-IsSound :
    (env : Environment) (request : DecisionRequest) (x : Sent) (s : Session)
    (result : Result Failure (Unit {0}))
    → x.rqid ≡ request.identity.rqid
    → IsAuthorized env x
    → IsOpen env request s
    → Left (IsSound env) (after_send env request x.submission x s result)
unfolding after_send
after_send-IsSound env request x s (err e) same auth o =
    finalize-IsSound env _ _ _ (keep_error e s) o.sound
after_send-IsSound env request x s (ok _) same auth o =
    finalize-IsSound env _ _ _ _
      (counted_send-IsSound env request x s x.submission.provenance refl same auth o)

ok_injective : {a b : String} → ◌≡◌ {A = Result Failure String} (ok a) (ok b) → a ≡ b
ok_injective same = cc

after_encode-IsSound :
    (env : Environment) (request : DecisionRequest) (submission : BattleSubmission) (s : Session)
    (result : Result Failure String)
    → env.select request ≡ ok submission
    → contains request.safe_submissions.submissions submission ≡ true
    → ok (encode_submission submission) ≡ result
    → IsOpen env request s
    → Left (IsSound env) (after_encode env request submission s result)
unfolding after_encode
after_encode-IsSound env request submission s (err e) selected own encoded o =
    finalize-IsSound env _ _ _ (keep_error e s) o.sound
after_encode-IsSound env request submission s (ok choice) selected own encoded o =
    after_send-IsSound env request (command_of request submission choice s.state) s _ refl
      (record {
        same_rqid = refl;
        read = o.read;
        selected = selected;
        own = own;
        encoded = ok_injective encoded;
        accepted = o.agrees;
      })
      o

after_gate-IsSound :
    (env : Environment) (request : DecisionRequest) (candidate : BattleSubmission) (s : Session)
    (result : Result SafetyError BattleSubmission)
    → env.select request ≡ ok candidate
    → authorize candidate request.identity request.safe_submissions ≡ result
    → IsOpen env request s
    → Left (IsSound env) (after_gate env request candidate s result)
unfolding after_gate
after_gate-IsSound env request candidate s (ok authorized) selected passed o =
    let (same, _, own) =
      (authorize_iff candidate authorized request.identity request.safe_submissions).0 passed in
    after_encode-IsSound env request authorized s (ok (encode_submission authorized))
      (rw same selected) (rw same own) refl o
after_gate-IsSound env request candidate s (err local_action_gate_rejection) selected passed o =
    finalize-IsSound env _ _ _ (keep_error _ s) o.sound
after_gate-IsSound env request candidate s (err stale_request_identity) selected passed o = o.sound
after_gate-IsSound env request candidate s (err no_legal_action) selected passed o = o.sound

after_policy-IsSound :
    (env : Environment) (request : DecisionRequest) (s : Session)
    (result : Result Failure BattleSubmission)
    → env.select request ≡ result
    → IsOpen env request s
    → Left (IsSound env) (after_policy env request s result)
unfolding after_policy
after_policy-IsSound env request s (ok candidate) selected o =
    after_gate-IsSound env request candidate s
      (authorize candidate request.identity request.safe_submissions) selected refl o
after_policy-IsSound env request s (err (safety no_legal_action)) selected o =
    finalize-IsSound env _ _ _ (keep_error _ s) o.sound
after_policy-IsSound env request s (err (core e)) selected o = o.sound
after_policy-IsSound env request s (err (safety stale_request_identity)) selected o = o.sound
after_policy-IsSound env request s (err (safety local_action_gate_rejection)) selected o = o.sound
after_policy-IsSound env request s (err Model.server_invalid_choice) selected o = o.sound
after_policy-IsSound env request s (err Model.server_unavailable_choice) selected o = o.sound
after_policy-IsSound env request s (err Model.unknown_protocol_event) selected o = o.sound
after_policy-IsSound env request s (err Model.malformed_protocol_message) selected o = o.sound
after_policy-IsSound env request s (err Model.request_state_reconciliation_mismatch) selected o =
    o.sound
after_policy-IsSound env request s (err Model.reducer_invariant_failure) selected o = o.sound
after_policy-IsSound env request s (err Model.transport_timeout) selected o = o.sound
after_policy-IsSound env request s (err Model.disconnect) selected o = o.sound
after_policy-IsSound env request s (err Model.timer_or_forfeit) selected o = o.sound
after_policy-IsSound env request s (err Model.trace_sink_failure) selected o = o.sound
after_policy-IsSound env request s (err Model.decision_record_construction_failure) selected o =
    o.sound
after_policy-IsSound env request s (err (Model.other text)) selected o = o.sound

submit-IsSound :
    (env : Environment) (request : DecisionRequest) (s : Session)
    → s.latest_request ≡ some request.identity
    → ((latest : Option ℕ) × IsAccepted env.room_id request s.state latest)
    → IsReadRequest env.room_id request
    → IsSound env s
    → Left (IsSound env) (submit env request s)
unfolding submit
submit-IsSound env request s latest agrees read v =
    if_cases (Left (IsSound env)) (some request.identity == s.submitted_request)
      (λ again. settled-IsSoundLedger env (ledger_of s) v)
      (λ other.
        if_intro (Left (IsSound env)) (is_wait request.kind)
          (finalize-IsSound env _ _ _ _
            (noop-IsSoundLedger env (ledger_of s) request.identity latest v))
          (after_policy-IsSound env request s (env.select request) refl (record {
            latest = latest;
            unanswered = other;
            agrees = agrees;
            read = read;
            sound = v;
          })))

follow_status-IsSound :
    (env : Environment) (strict : Bool) (request : DecisionRequest) (s : Session)
    (status : ReconciliationStatus) (reason : Reason)
    → s.latest_request ≡ some request.identity
    → (status ≡ accept → (latest : Option ℕ) × IsAccepted env.room_id request s.state latest)
    → IsReadRequest env.room_id request
    → IsSound env s
    → Left (IsSound env) (follow_status env strict request s status reason)
unfolding follow_status
follow_status-IsSound env strict request s reject reason latest agrees read v =
    reject_reconciliation-IsSound env s v
follow_status-IsSound env strict request s pending_public_state reason latest agrees read v =
    if_intro (Left (IsSound env))
      (strict || s.state.battle_started && not (is_active_unknown reason))
      (reject_reconciliation-IsSound env s v) v
follow_status-IsSound env strict request s accept reason latest agrees read v =
    Left-then (IsRetraced s) (IsSound env) (refresh_pending_trace_state env s) (submit env request)
      (refresh-IsRetraced env s) (λ s' same. subst (IsSoundLedger env) (sym same.ledger) v)
      (λ s' same.
        submit-IsSound env request s' (ap (λ l. l.latest) same.ledger ∙ latest)
          (subst (λ state. (known : Option ℕ) × IsAccepted env.room_id request state known)
            (sym same.state) (agrees refl))
          read (subst (IsSoundLedger env) (sym same.ledger) v))

after_reconcile-IsSound :
    (env : Environment) (strict : Bool) (request : DecisionRequest) (s : Session)
    (result : Core ReconciliationResult)
    → s.latest_request ≡ some request.identity
    → reconcile env.room_id request s.state (rqid_of s.submitted_request) ≡ result
    → IsReadRequest env.room_id request
    → IsSound env s
    → Left (IsSound env) (after_reconcile env strict request s result)
unfolding after_reconcile
after_reconcile-IsSound env strict request s (err e) latest reconciled read v = v
after_reconcile-IsSound env strict request s (ok r) latest reconciled read v =
    follow_status-IsSound env strict request s r.status r.reason latest
      (λ accepted. (
        rqid_of s.submitted_request,
        reconcile-IsAccepted env.room_id request s.state (rqid_of s.submitted_request) r reconciled
            accepted,
      ))
      read v

retry_request-IsSound :
    (env : Environment) (strict : Bool) (s : Session) (pending : Option DecisionRequest)
    → IsLatest pending s.latest_request
    → WasRead env pending
    → IsSound env s
    → Left (IsSound env) (retry_request env strict s pending)
unfolding retry_request
retry_request-IsSound env strict s none latest read v = v
retry_request-IsSound env strict s (some request) latest read v =
    after_reconcile-IsSound env strict request s _ latest refl read v

pub retry_pending-IsSound :
    (env : Environment) (strict : Bool) (s : Session)
    → IsSound env s
    → Left (IsSound env) (retry_pending env strict s)
unfolding retry_pending
retry_pending-IsSound env strict s v =
    retry_request-IsSound env strict s s.pending_request v.pending_latest v.pending_read v
