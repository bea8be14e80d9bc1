-- ===== src/Session/Progress.antt =====
-- battle_session.py: what a session does with a request that it receives.
use battle_belief.Base.{◌<◌, true, none, some, err, ◌≡◌, ◌≢◌, ◌⊎◌, option_eq, nat_eq, string_eq}
use battle_belief.Actions.{
  RequestIdentity, DecisionRequest, submission_eq, provenance_eq, identity_eq,
  stale_request_identity,
}
use battle_belief.Session.Records
use battle_belief.Session.Model
use battle_belief.Session.Model.{Failure, safety, Environment, Session, Ran, returned, raised}
use battle_belief.Session.Steps.{safe_submission_set_digest}
use battle_belief.Session.Ledger.{Ledger, ledger_of}
use battle_belief.Session.Tried.{IsTried}

-- Finalizing leaves the public state as it is, and ends a session only where its trace has failed.
record IsFinalized (s s' : Session) : Type 0 where
  pub state : s'.state ≡ s.state
  pub stopped : s'.done ≡ true → (s.done ≡ true) ⊎ (s'.trace_failed ≡ true)

-- The ledger of a session that holds a request.
abbrev pub held : DecisionRequest → Ledger → Ledger
held request l = record l { latest = some request.identity; pending = some request }

-- What comes of a request that is taken: it is the latest and the pending one, and it is tried in the
-- present state, unless the session has ended, or the record of the decision cannot be opened since a
-- digest raises.
pub data IsTaken (env : Environment) (request : DecisionRequest) (s : Session) : Ran → Type 0 where
  tried :
      (r : Ran)
      → IsTried env request s.state (held request (ledger_of s)) r
      → IsTaken env request s r
  stops :
      (s' : Session)
      → (s.done ≡ true) ⊎ (s'.trace_failed ≡ true)
      → ledger_of s' ≡ held request (ledger_of s)
      → IsTaken env request s (returned s')
  unopened :
      (s' : Session) (e : Failure)
      → (env.observed_state_digest s.state ≡ err e)
        ⊎ (safe_submission_set_digest env request.safe_submissions ≡ err e)
      → ledger_of s' ≡ held request (ledger_of s)
      → IsTaken env request s (raised e s')

-- a request that a session holds, after what was open has been finalized
module _ (env : Environment) (request : DecisionRequest) (s : Session) where
  -- what a session that holds the request has kept of the one before
  record IsHeld (s' : Session) : Type 0 where
    pub ledger : ledger_of s' ≡ held request (ledger_of s)
    pub state : s'.state ≡ s.state
    pub stopped : s'.done ≡ true → (s.done ≡ true) ⊎ (s'.trace_failed ≡ true)
    pub pending : s'.pending_request ≡ some request

-- What becomes of a request, by its id and digest and those of the latest one.
pub data Received (env : Environment) (request : DecisionRequest) (s : Session) : Ran → Type 0 where
  first : (r : Ran) → s.latest_request ≡ none → IsTaken env request s r → Received env request s r
  fresh :
      (r : Ran) (latest : RequestIdentity)
      → s.latest_request ≡ some latest
      → latest.rqid < request.identity.rqid
      → IsTaken env request s r
      → Received env request s r
  repeated :
      (latest : RequestIdentity)
      → s.latest_request ≡ some latest
      → request.identity.rqid ≡ latest.rqid
      → request.identity.request_digest ≡ latest.request_digest
      → Received env request s (returned s)
  conflicting :
      (latest : RequestIdentity)
      → s.latest_request ≡ some latest
      → request.identity.rqid ≡ latest.rqid
      → request.identity.request_digest ≢ latest.request_digest
      → Received env request s (raised Model.request_state_reconciliation_mismatch s)
  outdated :
      (latest : RequestIdentity)
      → s.latest_request ≡ some latest
      → request.identity.rqid < latest.rqid
      → Received env request s (raised (safety stale_request_identity) s)
