-- ===== src/Session/Tried.antt =====
-- battle_session.py: what an attempt to answer a request may come to.
use battle_belief.Base.{
  ◌+◌, true, Option, none, some, ◌∷◌, ok, err, ◌≡◌, ◌≢◌, refl, sym, ◌∙◌, contains, option_eq,
  nat_eq, string_eq,
}
use battle_belief.Errors.{Core}
use battle_belief.State.{ObservedState}
use battle_belief.Actions.{
  ActionProvenance, explicit_request, server_default, wait, BattleSubmission, DecisionRequest,
  submission_eq, provenance_eq, identity_eq, SafetyError, authorize,
}
use battle_belief.Actions.Safety.{authorize_iff}
use battle_belief.Reconciler.{ReconciliationResult, accept, agreed, reconcile}
use battle_belief.Reconciler.Accepts.{IsAccepted, reconcile-accept_iff}
use battle_belief.Session.Records.{DecisionRecordStatus, DecisionRecordErrorCode}
use battle_belief.Session.Encoder.{encode_submission}
use battle_belief.Session.Model.{Failure, Sent, Environment, Session, Ran, returned, raised}
use battle_belief.Session.Steps.{finalize_pending, count_submission, command_of, rqid_of}
use battle_belief.Session.Ledger.{Ledger, ledger_of, finalize_pending-keeps}

-- A submission that its request lets pass: it carries the request's identity and is one of its own.
abbrev pub IsOwn : DecisionRequest → BattleSubmission → Type 0
IsOwn request c =
    (request.identity ≡ request.safe_submissions.request_identity)
    × (contains request.safe_submissions.submissions c ≡ true)

-- One command more is counted, by its provenance.
abbrev pub counted : ActionProvenance → Ledger → Ledger
counted explicit_request l = record l { explicit = l.explicit + 1 }
counted server_default l = record l { defaults = l.defaults + 1 }

module _ (env : Environment) (request : DecisionRequest) (state : ObservedState) (l : Ledger) where
  -- The request agrees with the public state.
  abbrev pub Agrees : Type 0
  Agrees = IsAccepted env.room_id request state (rqid_of l.submitted)

  -- The request is to be answered: it agrees, was not answered before, and is none to wait.
  pub record IsDue : Type 0 where
    pub agrees : Agrees
    pub new : l.submitted ≢ some request.identity
    pub acts : request.kind ≢ wait

  abbrev pub command_for : BattleSubmission → Sent
  command_for c = command_of request c (encode_submission c) state

  -- Why a request is not answered: it does not agree with the state; or it does and the state has no
  -- digest; or it is due and the policy raises, or its choice is not one of the request's own, or the
  -- connection raises.
  pub data IsFault : Type 0 where
    disagrees : (¬ Agrees) → IsFault
    undigested : (e : Failure) → Agrees → env.observed_state_digest state ≡ err e → IsFault
    unselected : (e : Failure) → IsDue → env.select request ≡ err e → IsFault
    foreign :
        (c : BattleSubmission) → IsDue → env.select request ≡ ok c → (¬ IsOwn request c) → IsFault
    untaken :
        (c : BattleSubmission) (e : Failure)
        → IsDue
        → env.select request ≡ ok c
        → env.send l.sent (command_for c) ≡ err e
        → IsFault

  -- What comes of a try. Either a command goes out and is noted and counted, or a request to wait is
  -- noted, or a request that was answered before is dropped, or one that does not agree is kept, or
  -- an exception is raised for a fault and nothing of this changes.
  pub data IsTried : Ran → Type 0 where
    answers :
        (s : Session) (c : BattleSubmission)
        → IsDue
        → env.select request ≡ ok c
        → IsOwn request c
        → env.send l.sent (command_for c) ≡ ok tt
        → ledger_of s
          ≡ counted c.provenance (record l {
            pending = none;
            submitted = some request.identity;
            sent = command_for c ∷ l.sent;
          })
        → IsTried (returned s)
    notes :
        (s : Session)
        → Agrees
        → l.submitted ≢ some request.identity
        → request.kind ≡ wait
        → ledger_of s ≡ record l { pending = none; submitted = some request.identity }
        → IsTried (returned s)
    drops :
        (s : Session)
        → Agrees
        → l.submitted ≡ some request.identity
        → ledger_of s ≡ record l { pending = none }
        → IsTried (returned s)
    holds : (s : Session) → (¬ Agrees) → ledger_of s ≡ l → IsTried (returned s)
    fails : (s : Session) (e : Failure) → IsFault → ledger_of s ≡ l → IsTried (raised e s)

pub refused :
    (request : DecisionRequest) (c : BattleSubmission) (e : SafetyError)
    → authorize c request.identity request.safe_submissions ≡ err e
    → ¬ IsOwn request c
refused request c e gate (same, own) =
    let passed =
      (authorize_iff c c request.identity request.safe_submissions).1 (refl, same, own) in
    cc (sym gate ∙ passed)

-- A result of the reconciler other than that the request is accepted.
pub refusal :
    (env : Environment) (request : DecisionRequest) (state : ObservedState) (l : Ledger)
    (result : Core ReconciliationResult)
    → reconcile env.room_id request state (rqid_of l.submitted) ≡ result
    → result ≢ ok (record { status = accept; reason = agreed })
    → ¬ Agrees env request state l
refusal env request state l result reconciled other agrees = other (
    sym reconciled
    ∙ (reconcile-accept_iff env.room_id request state (rqid_of l.submitted)).1 agrees)

pub finalized_ledger :
    (env : Environment) (status : DecisionRecordStatus) (code : Option DecisionRecordErrorCode)
    (selected : Option BattleSubmission) (s : Session)
    → ledger_of (finalize_pending env status code selected s) ≡ ledger_of s
finalized_ledger env status code selected s =
    finalize_pending-keeps (λ l. l ≡ ledger_of s) env status code selected s refl

pub counted_ledger :
    (request : DecisionRequest) (x : Sent) (s : Session) (p : ActionProvenance)
    → ledger_of (record (count_submission p (record s { sent = x ∷ s.sent })) {
      submitted_request = some request.identity;
      pending_request = none;
    })
      ≡ counted p (record (ledger_of s) {
        pending = none;
        submitted = some request.identity;
        sent = x ∷ s.sent;
      })
counted_ledger request x s explicit_request = refl
counted_ledger request x s server_default = refl
