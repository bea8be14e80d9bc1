-- ===== src/Session/Sound.antt =====
-- battle_session.py: a whole run, and the ledger.
use battle_belief.Base.{
  Option, none, some, List, [], ◌∷◌, refl, if_intro, ◌==◌, option_eq, nat_eq, string_eq,
}
use battle_belief.State.{ObservedState}
use battle_belief.Actions.{submission_eq, provenance_eq, identity_eq}
use battle_belief.Session.Records
use battle_belief.Session.Records.{DecisionRecord, DecisionRecordStatus, DecisionRecordErrorCode}
use battle_belief.Session.Model.{
  Failure, RoomLine, Environment, Session, Ran, returned, raised, keep_error, record_error_code,
  start,
}
use battle_belief.Session.Steps.{process_line, abort_trace, abort, continue_with, run}
use battle_belief.Session.Ledger.{Left}
use battle_belief.Session.Answers.{IsSound, finalize-IsSound, settled-IsSoundLedger}
use battle_belief.Session.Receives.{dispatch-IsSound}

abort_trace-IsSound :
    (env : Environment) (code : Option DecisionRecordErrorCode) (s : Session)
    → IsSound env s
    → IsSound env (abort_trace env code s)
abort_trace-IsSound env none s v = v
abort_trace-IsSound env (some Records.no_legal_action_available) s v =
    finalize-IsSound env _ _ _ s v
abort_trace-IsSound env (some Records.gate_rejection_code) s v = finalize-IsSound env _ _ _ s v
abort_trace-IsSound env (some Records.encoding_failed_code) s v = finalize-IsSound env _ _ _ s v
abort_trace-IsSound env (some Records.send_failed_code) s v = finalize-IsSound env _ _ _ s v
abort_trace-IsSound env (some Records.invalid_choice_code) s v = finalize-IsSound env _ _ _ s v
abort_trace-IsSound env (some Records.unavailable_choice_code) s v = finalize-IsSound env _ _ _ s v
abort_trace-IsSound env (some Records.mismatch_code) s v = finalize-IsSound env _ _ _ s v
abort_trace-IsSound env (some Records.stale_rqid_code) s v = finalize-IsSound env _ _ _ s v
abort_trace-IsSound env (some Records.disconnect_code) s v = finalize-IsSound env _ _ _ s v
abort_trace-IsSound env (some Records.transport_timeout_code) s v = finalize-IsSound env _ _ _ s v
abort_trace-IsSound env (some Records.timer_or_forfeit_code) s v = finalize-IsSound env _ _ _ s v
abort_trace-IsSound env (some Records.unknown_event_code) s v = finalize-IsSound env _ _ _ s v
abort_trace-IsSound env (some Records.malformed_code) s v = finalize-IsSound env _ _ _ s v
abort_trace-IsSound env (some Records.reducer_code) s v = finalize-IsSound env _ _ _ s v

abort-IsSound :
    (env : Environment) (e : Failure) (s : Session) → IsSound env s → IsSound env (abort env e s)
unfolding abort
abort-IsSound env e s v =
    settled-IsSoundLedger env _ (abort_trace-IsSound env (record_error_code e) (keep_error e s) v)

continue_with-IsSound :
    (env : Environment) (r : Ran) (next : Session → Session)
    → Left (IsSound env) r
    → ((s : Session) → IsSound env s → IsSound env (next s))
    → IsSound env (continue_with env r next)
continue_with-IsSound env (raised e s) next v step = abort-IsSound env e s v
continue_with-IsSound env (returned s) next v step = if_intro (IsSound env) s.done v (step s v)

-- A run keeps the ledger sound, however the messages are ordered.
pub run-IsSound :
    (env : Environment) (lines : List RoomLine) (ending : Option Failure) (s : Session)
    → IsSound env s
    → IsSound env (run env lines ending s)
unfolding run process_line
run-IsSound env [] none s v = v
run-IsSound env [] (some e) s v = abort-IsSound env e s v
run-IsSound env (line ∷ lines) ending s v = if_intro (IsSound env) s.done v (
    if_intro (IsSound env) (line.room_id == some env.room_id)
      (continue_with-IsSound env (process_line env line.payload s) (λ s'. run env lines ending s')
        (dispatch-IsSound env line.payload s _ v) (λ s' v'. run-IsSound env lines ending s' v'))
      (run-IsSound env lines ending s v))

-- Whatever lines a session receives from its start, it sends only commands that encode a submission
-- its policy chose from those of the request it answers, at a time when that request agreed with the
-- public state; no request is answered twice, and each command answers a newer request than the one
-- before; the two counters are the numbers of commands by provenance; the pending request is the
-- latest one received; and the pending and the answered requests are well-formed, as the reader
-- returns them.
pub session-IsSound :
    (env : Environment) (lines : List RoomLine) (ending : Option Failure) (state : ObservedState)
    → IsSound env (run env lines ending (start state))
unfolding start
session-IsSound env lines ending state = run-IsSound env lines ending (start state) (record {
  pending_latest = tt;
  pending_read = tt;
  answered = tt;
  answers = refl;
  once = tt;
  authorized = tt;
  explicit_counted = refl;
  defaults_counted = refl;
})
