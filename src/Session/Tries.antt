-- ===== src/Session/Tries.antt =====
-- battle_session.py: what comes of trying to answer a request.
use battle_belief.Base.{option_eq, nat_eq, string_eq}
use battle_belief.Actions.{DecisionRequest, submission_eq, provenance_eq, identity_eq}
use battle_belief.Session.Records
use battle_belief.Session.Model
use battle_belief.Session.Model.{Sent, Environment, Session, Ran}
use battle_belief.Session.Ledger.{ledger_of}
use battle_belief.Session.Tried.{IsTried}

module _ (env : Environment) (request : DecisionRequest) (s : Session) where
  abbrev Tried : Ran → Type 0
  Tried = IsTried env request s.state (ledger_of s)
