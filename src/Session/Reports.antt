-- ===== src/Session/Reports.antt =====
-- battle_session.py: the error that a session reports.
use battle_belief.Base.{
  Result, ok, err, String, Bool, not, ◌&&◌, ◌||◌, Option, none, some, List, ◌≡◌, Bool-cases,
  is_none, inl, inr,
}
use battle_belief.Actions.{BattleSubmission, DecisionRequest}
use battle_belief.Session.Records.{
  DecisionRecord, DecisionRecordStatus, DecisionRecordErrorCode, PendingTrace, make_record,
  is_consistent,
}
use battle_belief.Session.Fields.{fields_valid}
use battle_belief.Session.Model.{first_error, Failure, RoomLine, Environment, Session}
use battle_belief.Session.Steps.{
  finalize_pending, finalize_trace, emit_record, handle_trace_failure,
  handle_record_construction_failure, is_bound, open_trace, trace_of, opened_with, refreshed_with,
  refresh_trace, refresh_pending_trace_state, run,
}
use battle_belief.Base.{
  refl, List, [], ◌∷◌, true, if◌then◌else◌, if_cases, if_intro, ◌==◌, string_eq, option_eq,
}
use battle_belief.Session.Model.{Ran, returned, raised}
use battle_belief.Session.Steps.{process_line, continue_with, abort}
use battle_belief.Session.Ledger.{Left}
use battle_belief.Session.Shapes.{Journal, Keeps}
use battle_belief.Session.Journals.{run-keeps}

IsFirst : Failure → Journal → Type 0
IsFirst e j = j.primary_error ≡ some e

first_error_stays :
    (kept : Option Failure) (e later : Failure) → kept ≡ some e → first_error kept later ≡ some e
first_error_stays none e later h = cc
first_error_stays (some earlier) e later h = h

emit_record-primary_error :
    (env : Environment) (valid : Bool) (r : DecisionRecord) (s : Session) (e : Failure)
    → s.primary_error ≡ some e
    → (emit_record env valid r s).primary_error ≡ some e
unfolding emit_record handle_trace_failure handle_record_construction_failure
emit_record-primary_error env valid r s e h = elim (Bool-cases (valid && is_consistent r)) [
  | inr broken ↦ rw broken (first_error_stays s.primary_error e _ h)
  | inl good ↦ elim (Bool-cases (env.sink_takes s.emitted r)) [
    | inr raises ↦ rw (good, raises) (first_error_stays s.primary_error e _ h)
    | inl takes ↦ rw (good, takes) h
  ]
]

finalize_trace-primary_error :
    (env : Environment) (status : DecisionRecordStatus) (code : Option DecisionRecordErrorCode)
    (selected : Option BattleSubmission) (trace : Option PendingTrace) (s : Session) (e : Failure)
    → s.primary_error ≡ some e
    → (finalize_trace env status code selected trace s).primary_error ≡ some e
finalize_trace-primary_error env status code selected none s e h = h
finalize_trace-primary_error env status code selected (some pending) s e h =
    elim (Bool-cases (is_bound env.decision_record_context && not s.trace_failed)) [
      | inr unbound ↦ rw unbound h
      | inl bound ↦ rw bound (
          emit_record-primary_error env (fields_valid env.decision_record_context pending)
            (make_record pending status code selected) (record s { pending_trace = none }) e h)
    ]

opened_with-IsFirst :
    (s : Session) (trace : Result Failure PendingTrace) (e : Failure)
    → s.primary_error ≡ some e
    → Left (λ s'. s'.primary_error ≡ some e) (opened_with s trace)
opened_with-IsFirst s (err later) e h = h
opened_with-IsFirst s (ok trace) e h = h

open_trace-IsFirst :
    (env : Environment) (request : DecisionRequest) (s : Session) (e : Failure)
    → s.primary_error ≡ some e
    → Left (λ s'. s'.primary_error ≡ some e) (open_trace env request s)
unfolding open_trace
open_trace-IsFirst env request s e h =
    if_intro (Left (λ s'. s'.primary_error ≡ some e))
      (is_none env.decision_record_context || s.trace_failed) h
      (opened_with-IsFirst s (trace_of env request s) e h)

refreshed_with-IsFirst :
    (s : Session) (pending : PendingTrace) (digest : Result Failure String) (e : Failure)
    → s.primary_error ≡ some e
    → Left (λ s'. s'.primary_error ≡ some e) (refreshed_with s pending digest)
refreshed_with-IsFirst s pending (err later) e h = h
refreshed_with-IsFirst s pending (ok digest) e h = h

refresh_trace-IsFirst :
    (env : Environment) (s : Session) (trace : Option PendingTrace) (e : Failure)
    → s.primary_error ≡ some e
    → Left (λ s'. s'.primary_error ≡ some e) (refresh_trace env s trace)
refresh_trace-IsFirst env s none e h = h
refresh_trace-IsFirst env s (some pending) e h = refreshed_with-IsFirst s pending _ e h

Keeps-IsFirst : (env : Environment) (e : Failure) → Keeps env (IsFirst e)
unfolding IsFirst finalize_pending refresh_pending_trace_state
Keeps-IsFirst env e = record {
  finalized = λ status code selected s shape h.
      finalize_trace-primary_error env status code selected s.pending_trace s e h;
  opened = λ request s read h. open_trace-IsFirst env request s e h;
  refreshed = λ s h. refresh_trace-IsFirst env s s.pending_trace e h;
  reported = λ later s h. first_error_stays s.primary_error e later h;
}

-- The first error of a session is the one it reports: no later line, failure or end of the
-- connection replaces it.
pub run-primary_error :
    (env : Environment) (lines : List RoomLine) (ending : Option Failure) (s : Session)
    (e : Failure)
    → s.primary_error ≡ some e
    → (run env lines ending s).primary_error ≡ some e
unfolding IsFirst
run-primary_error env lines ending s e h =
    run-keeps env (IsFirst e) (Keeps-IsFirst env e) lines ending s h

continue_with-done :
    (env : Environment) (r : Ran) (next : Session → Session)
    → ((s : Session) → (next s).done ≡ true)
    → (continue_with env r next).done ≡ true
unfolding abort
continue_with-done env (raised e s) next h = refl
continue_with-done env (returned s) next h =
    if_cases (λ (s' : Session). s'.done ≡ true) s.done {x = s} {y = next s} (λ done. done)
      (λ _. h s)

-- If the connection ends with an exception, the session is done at the end, whatever the lines were.
pub run-done :
    (env : Environment) (lines : List RoomLine) (e : Failure) (s : Session)
    → (run env lines (some e) s).done ≡ true
unfolding run abort
run-done env [] e s = refl
run-done env (line ∷ lines) e s =
    let next : Session → Session = λ s'. run env lines (some e) s' in
    let r = process_line env line.payload s in
    if_cases (λ (s' : Session). s'.done ≡ true) s.done {x = s}
      {y = if line.room_id == some env.room_id then continue_with env r next else next s}
      (λ done. done)
      (λ _.
        if_intro (λ (s' : Session). s'.done ≡ true) (line.room_id == some env.room_id)
          {x = continue_with env r next} {y = next s}
          (continue_with-done env r next (λ s'. run-done env lines e s')) (run-done env lines e s))
