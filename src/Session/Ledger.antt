-- ===== src/Session/Ledger.antt =====
-- battle_session.py: what the requests, the commands and the counts of a session have to satisfy.
use battle_belief.Base.{
  Result, err, String, if_intro, ℕ, suc, ◌≤◌, ◌<◌, Bool, true, not, ◌&&◌, Option, none, some, List,
  [], ◌∷◌, ok, ◌≡◌, ◌⊎◌, inl, inr, refl, sym, subst, All, contains, Bool-cases, is_none, ◌||◌,
  if◌then◌else◌, ◌==◌,
}
use battle_belief.Actions.{
  ActionProvenance, explicit_request, server_default, RequestIdentity, BattleSubmission,
  DecisionRequest, submission_eq, provenance_eq,
}
use battle_belief.Reconciler.Accepts.{IsAccepted}
use battle_belief.RequestReader.Readers.{IsReadRequest}
use battle_belief.Session.Records.{
  DecisionRecord, DecisionRecordStatus, DecisionRecordErrorCode, PendingTrace, make_record,
  is_consistent,
}
use battle_belief.Session.Encoder.{encode_submission}
use battle_belief.Session.Fields.{fields_valid}
use battle_belief.Session.Model.{
  Sent, Environment, Session, Ran, returned, raised, then_run, Failure,
}
use battle_belief.Session.Steps.{
  finalize_pending, finalize_trace, emit_record, handle_trace_failure,
  handle_record_construction_failure, is_bound, open_trace, trace_of, opened_with, refreshed_with,
  refresh_trace, refresh_pending_trace_state,
}

-- The part of a session that says which requests it answered.
pub record Ledger : Type 0 where
  pub pending : Option DecisionRequest
  pub latest : Option RequestIdentity
  pub submitted : Option RequestIdentity
  pub sent : List Sent
  pub explicit : ℕ
  pub defaults : ℕ

abbrev pub ledger_of : Session → Ledger
ledger_of s = record {
  pending = s.pending_request;
  latest = s.latest_request;
  submitted = s.submitted_request;
  sent = s.sent;
  explicit = s.explicit_request_submissions;
  defaults = s.default_submissions;
}

-- Whether a method returns or raises, the session satisfies P.
abbrev pub Left : (Session → Type 0) → Ran → Type 0
Left P (returned s) = P s
Left P (raised e s) = P s

pub Left-then :
    (P Q : Session → Type 0) (r : Ran) (next : Session → Ran)
    → Left P r
    → ((s : Session) → P s → Q s)
    → ((s : Session) → P s → Left Q (next s))
    → Left Q (then_run r next)
Left-then P Q (raised e s) next p weaken step = weaken s p
Left-then P Q (returned s) next p weaken step = step s p

abbrev pub IsLatest : Option DecisionRequest → Option RequestIdentity → Type 0
IsLatest none latest = Unit
IsLatest (some request) latest = latest ≡ some request.identity

-- The answered request is the latest one, or an older one.
abbrev pub IsAnswered : Option RequestIdentity → Option RequestIdentity → Type 0
IsAnswered none latest = Unit
IsAnswered (some i) none = ⊥
IsAnswered (some i) (some l) = (i ≡ l) ⊎ (i.rqid < l.rqid)

abbrev pub AreAnswers : Option RequestIdentity → List Sent → Type 0
AreAnswers none sent = sent ≡ []
AreAnswers (some i) sent = All (λ x. x.rqid ≤ i.rqid) sent

-- Newest first, each command answers a request with a smaller id than the one before it.
abbrev pub IsDescending : List Sent → Type 0
IsDescending [] = Unit
IsDescending (x ∷ sent) = All (λ y. y.rqid < x.rqid) sent × IsDescending sent

-- A command encodes the policy's choice from the submissions of its request, which agreed with
-- the public state it was decided in.
pub record IsAuthorized (env : Environment) (x : Sent) : Type 0 where
  pub same_rqid : x.rqid ≡ x.request.identity.rqid
  pub read : IsReadRequest env.room_id x.request
  pub selected : env.select x.request ≡ ok x.submission
  pub own : contains x.request.safe_submissions.submissions x.submission ≡ true
  pub encoded : encode_submission x.submission ≡ x.choice
  pub accepted : (latest : Option ℕ) × IsAccepted env.room_id x.request x.decided_in latest

-- How many of the commands carry a submission of this provenance.
abbrev pub count_of : ActionProvenance → List Sent → ℕ
count_of provenance [] = 0
count_of provenance (x ∷ sent) =
    if x.submission.provenance == provenance
    then suc (count_of provenance sent)
    else count_of provenance sent

-- The pending request is one that the reader returned.
abbrev pub WasRead : Environment → Option DecisionRequest → Type 0
WasRead env none = Unit
WasRead env (some request) = IsReadRequest env.room_id request

pub record IsSoundLedger (env : Environment) (l : Ledger) : Type 0 where
  pub pending_latest : IsLatest l.pending l.latest
  pub pending_read : WasRead env l.pending
  pub answered : IsAnswered l.submitted l.latest
  pub answers : AreAnswers l.submitted l.sent
  pub once : IsDescending l.sent
  pub authorized : All (IsAuthorized env) l.sent
  pub explicit_counted : l.explicit ≡ count_of explicit_request l.sent
  pub defaults_counted : l.defaults ≡ count_of server_default l.sent

emit_record_ledger :
    (env : Environment) (valid : Bool) (r : DecisionRecord) (s : Session)
    → ledger_of (emit_record env valid r s) ≡ ledger_of s
unfolding emit_record handle_trace_failure handle_record_construction_failure
emit_record_ledger env valid r s = elim (Bool-cases (valid && is_consistent r)) [
  | inr broken ↦ rw broken refl
  | inl valid_record ↦ elim (Bool-cases (env.sink_takes s.emitted r)) [
    | inl takes ↦ rw (valid_record, takes) refl
    | inr raises ↦ rw (valid_record, raises) refl
  ]
]

finalize_trace_ledger :
    (env : Environment) (status : DecisionRecordStatus) (code : Option DecisionRecordErrorCode)
    (selected : Option BattleSubmission) (trace : Option PendingTrace) (s : Session)
    → ledger_of (finalize_trace env status code selected trace s) ≡ ledger_of s
finalize_trace_ledger env status code selected none s = refl
finalize_trace_ledger env status code selected (some pending) s =
    elim (Bool-cases (is_bound env.decision_record_context && not s.trace_failed)) [
      | inl bound ↦ rw bound (
          emit_record_ledger env (fields_valid env.decision_record_context pending)
            (make_record pending status code selected) (record s { pending_trace = none }))
      | inr unbound ↦ rw unbound refl
    ]

pub finalize_pending-keeps :
    (P : Ledger → Type 0) (env : Environment) (status : DecisionRecordStatus)
    (code : Option DecisionRecordErrorCode) (selected : Option BattleSubmission) (s : Session)
    → P (ledger_of s)
    → P (ledger_of (finalize_pending env status code selected s))
unfolding finalize_pending
finalize_pending-keeps P env status code selected s p =
    subst P (sym (finalize_trace_ledger env status code selected s.pending_trace s)) p

-- Opening and refreshing the open record leave everything else as it is.
pub record IsRetraced (s s' : Session) : Type 0 where
  pub ledger : ledger_of s' ≡ ledger_of s
  pub state : s'.state ≡ s.state
  pub done : s'.done ≡ s.done
  pub failed : s'.trace_failed ≡ s.trace_failed

opened_with-IsRetraced :
    (s : Session) (trace : Result Failure PendingTrace) → Left (IsRetraced s) (opened_with s trace)
opened_with-IsRetraced s (err e) = (record {
  ledger = refl;
  state = refl;
  done = refl;
  failed = refl;
})
opened_with-IsRetraced s (ok trace) = (record {
  ledger = refl;
  state = refl;
  done = refl;
  failed = refl;
})

pub open_trace-IsRetraced :
    (env : Environment) (request : DecisionRequest) (s : Session)
    → Left (IsRetraced s) (open_trace env request s)
unfolding open_trace
open_trace-IsRetraced env request s =
    if_intro (Left (IsRetraced s)) (is_none env.decision_record_context || s.trace_failed)
      (record { ledger = refl; state = refl; done = refl; failed = refl })
      (opened_with-IsRetraced s (trace_of env request s))

refreshed_with-IsRetraced :
    (s : Session) (pending : PendingTrace) (digest : Result Failure String)
    → Left (IsRetraced s) (refreshed_with s pending digest)
refreshed_with-IsRetraced s pending (err e) = (record {
  ledger = refl;
  state = refl;
  done = refl;
  failed = refl;
})
refreshed_with-IsRetraced s pending (ok digest) = (record {
  ledger = refl;
  state = refl;
  done = refl;
  failed = refl;
})

refresh_trace-IsRetraced :
    (env : Environment) (s : Session) (trace : Option PendingTrace)
    → Left (IsRetraced s) (refresh_trace env s trace)
refresh_trace-IsRetraced env s none = (record {
  ledger = refl;
  state = refl;
  done = refl;
  failed = refl;
})
refresh_trace-IsRetraced env s (some pending) = refreshed_with-IsRetraced s pending _

pub refresh-IsRetraced :
    (env : Environment) (s : Session) → Left (IsRetraced s) (refresh_pending_trace_state env s)
unfolding refresh_pending_trace_state
refresh-IsRetraced env s = refresh_trace-IsRetraced env s s.pending_trace
