-- ===== src/Session/Traces.antt =====
-- battle_session.py: what is opened as the record of a decision.
use battle_belief.Base.{
  String, true, ok, Ensures, Ensures-bind, Ensures-guard, Ensures-each, Ensures-ok, ◌≡◌, refl,
}
use battle_belief.Errors.{value_error}
use battle_belief.Actions.{DecisionRequest}
use battle_belief.Session.Records.{PendingTrace}
use battle_belief.Session.Fields.{is_public}
use battle_belief.Session.Model.{core, Environment, Session}
use battle_belief.Session.Steps.{safe_submission_set_digest, trace_of}

-- A record of the decision on a request, with the digests of the state and of the submissions.
pub record IsTraceOf (env : Environment) (request : DecisionRequest) (s : Session)
    (t : PendingTrace) : Type 0 where
  pub request_of : t.request ≡ request
  pub index : t.decision_index ≡ s.next_decision_index
  pub observed : env.observed_state_digest s.state ≡ ok t.observed_state_digest
  pub projected :
      env.projected_set_digest request.safe_submissions ≡ ok t.safe_submission_set_digest
  pub published : is_public request.safe_submissions.request_identity ≡ true

-- The digest of a set is that of its projection, and its identity is one that can be published.
abbrev IsSetDigest : Environment → DecisionRequest → String → Type 0
IsSetDigest env request digest =
    (env.projected_set_digest request.safe_submissions ≡ ok digest)
    × (is_public request.safe_submissions.request_identity ≡ true)

guarded-IsSetDigest :
    (env : Environment) (request : DecisionRequest)
    → Ensures (IsSetDigest env request) (safe_submission_set_digest env request.safe_submissions)
unfolding safe_submission_set_digest
guarded-IsSetDigest env request =
    Ensures-guard (IsSetDigest env request) (is_public request.safe_submissions.request_identity)
      (core value_error) (env.projected_set_digest request.safe_submissions)
      λ published.
        Ensures-each (IsSetDigest env request) (env.projected_set_digest request.safe_submissions)
          λ digest e. (e, published)

pub trace_of-IsTraceOf :
    (env : Environment) (request : DecisionRequest) (s : Session)
    → Ensures (IsTraceOf env request s) (trace_of env request s)
unfolding trace_of
trace_of-IsTraceOf env request s =
    Ensures-bind (IsTraceOf env request s) (env.observed_state_digest s.state) _ λ observed e.
      Ensures-bind (IsTraceOf env request s)
        (safe_submission_set_digest env request.safe_submissions) _
        λ digest f.
          let (projected, published) =
            Ensures-ok (IsSetDigest env request) _ digest f (guarded-IsSetDigest env request) in
          record {
            request_of = refl;
            index = refl;
            observed = e;
            projected = projected;
            published = published;
          }
