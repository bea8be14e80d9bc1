-- ===== src/Session/Steps/Lines.antt =====
-- composition/battle_session.py: the lines of the connection.
use battle_belief.Base.{
  ℕ, zero, suc, ◌+◌, pos, ◌+ℤ◌, String, Bool, true, false, Option, none, some, List, [], ◌∷◌,
  Result, ok, err, ltb, ◌==◌, nat_eq, string_eq, option_eq, if◌then◌else◌,
}
use battle_belief.Base.Text.{starts_with}
use battle_belief.Errors.{reducer_invariant}
use battle_belief.State.{ObservedState}
use battle_belief.Events.{
  BattleEvent, EventBody, battle_init, game_type_declared, generation_declared, player_declared,
  tier_declared, turn_started, battle_won, battle_tied, pokemon_dragged, pokemon_switched, metadata,
  progress, pokemon,
}
use battle_belief.Events
use battle_belief.Reducer.{reduce}
use battle_belief.Actions.{RequestIdentity, DecisionRequest, identity_eq, stale_request_identity}
use battle_belief.Parser.{parse_battle_line, parse_inactive_line}
use battle_belief.RequestReader.{read_request}
use battle_belief.Session.Records.{
  session_aborted, superseded_before_selection, terminally_discarded, freshness_invalidated,
  DecisionRecordErrorCode, mismatch_code, stale_rqid_code,
}
use battle_belief.Session.Model.{
  Failure, core, safety, server_invalid_choice, server_unavailable_choice, unknown_protocol_event,
  malformed_protocol_message, request_state_reconciliation_mismatch, reducer_invariant_failure,
  record_error_code, RoomLine, RoomPayloadKind, battle_event, decision_request, battle_error,
  timer_message, room_control_or_chat, unknown, Environment, Session, Ran, returned, raised,
  then_run, keep_error,
}
use battle_belief.Session.Classifier.{classify_room_payload}
use battle_belief.Session.Steps.Trace.{finalize_pending, open_trace}
use battle_belief.Session.Steps.Submission.{retry_pending}

-- what the freshness check says of a request
pub data Freshness : Type 0 where
  newer duplicate stale changed : Freshness

-- `_check_freshness`
unfoldable pub check_freshness : Option RequestIdentity → RequestIdentity → Freshness
check_freshness none identity = newer
check_freshness (some latest) identity =
    if ltb identity.rqid latest.rqid
    then stale
    else if identity.rqid == latest.rqid
    then (if identity.request_digest == latest.request_digest then duplicate else changed)
    else newer

abbrev pub hold_request : DecisionRequest → Session → Session
hold_request request s = record s {
  latest_request = some request.identity;
  pending_request = some request;
}

-- `if self._done: return`, and the first try
unfoldable pub first_try : Environment → Session → Ran
first_try env s = if s.done then returned s else retry_pending env false s

-- `_process_request` after the freshness check
unfoldable pub take_request : Environment → DecisionRequest → Session → Ran
take_request env request s =
    then_run
      (open_trace env request
        (hold_request request (finalize_pending env superseded_before_selection none none s)))
      (first_try env)

unfoldable pub after_freshness : Environment → DecisionRequest → Session → Freshness → Ran
after_freshness env request s duplicate = returned s
after_freshness env request s stale = raised (safety stale_request_identity) s
after_freshness env request s changed = raised request_state_reconciliation_mismatch s
after_freshness env request s newer = take_request env request s

unfoldable pub receive_request : Environment → Session → Result Failure DecisionRequest → Ran
receive_request env s (err e) = raised e s
receive_request env s (ok request) =
    after_freshness env request s (check_freshness s.latest_request request.identity)

-- `payload[n:]`
unfoldable pub drop_chars : ℕ → String → String
drop_chars zero s = s
drop_chars (suc n) String.[] = ""
drop_chars (suc n) (String.◌∷◌ c s) = drop_chars n s

-- `_process_request`; the prefix `|request|` has nine characters
unfoldable pub process_request : Environment → String → Session → Ran
process_request env payload s =
    receive_request env s
      (read_request env.loads env.canonical_digest env.room_id (drop_chars 9 payload))

-- `except ReducerInvariantError as exc: raise ReducerInvariantFailure`
abbrev pub as_failure : Failure → Failure
as_failure (core (reducer_invariant f)) = reducer_invariant_failure
as_failure e = e

abbrev pub observe :
    Result Failure BattleEvent → ObservedState → Result Failure (BattleEvent × ObservedState)
observe (err e) state = err (as_failure e)
observe (ok event) state = elim (reduce state event) [
  | ok state' ↦ ok (event, state')
  | err e ↦ err (as_failure (core e))
]

-- how `_process_battle_event` goes on after an event
pub data FollowUp : Type 0 where
  ends : FollowUp
  retries : Bool → FollowUp
  nothing : FollowUp

-- The tests of `_process_battle_event` on the class of the event; `_RETRY_EVENTS` is the third one.
unfoldable pub follow_up : EventBody → FollowUp
follow_up (progress (battle_won winner)) = ends
follow_up (progress battle_tied) = ends
follow_up (progress (turn_started turn)) = retries true
follow_up (progress Events.battle_started) = retries true
follow_up (metadata (game_type_declared game_type)) = retries false
follow_up (metadata (generation_declared generation)) = retries false
follow_up (metadata (player_declared side_id user_id display_name)) = retries false
follow_up (metadata (tier_declared tier)) = retries false
follow_up (pokemon (pokemon_dragged side_id slot nickname details hp)) = retries false
follow_up (pokemon (pokemon_switched side_id slot nickname details hp)) = retries false
follow_up _ = nothing

unfoldable pub after_event : Environment → FollowUp → Session → Ran
after_event env ends s = returned (record (finalize_pending env terminally_discarded none none s) {
  pending_request = none;
  done = true;
})
after_event env (retries strict) s = retry_pending env strict s
after_event env nothing s = returned s

unfoldable pub after_observe :
    Environment → Session → Result Failure (BattleEvent × ObservedState) → Ran
after_observe env s (err e) = raised e s
after_observe env s (ok (event, state')) =
    after_event env (follow_up event.body) (record s { state = state' })

-- `_process_battle_event`
unfoldable pub process_battle_event : Environment → String → Session → Ran
process_battle_event env payload s =
    after_observe env s (
      observe (parse_battle_line payload (s.state.event_index +ℤ pos 1) (some env.room_id)) s.state)

unfoldable pub after_timer : Session → Result Failure (BattleEvent × ObservedState) → Ran
after_timer s (err e) = raised e s
after_timer s (ok (event, state')) = returned (record s { state = state' })

-- `_process_timer`
unfoldable pub process_timer : Environment → String → Session → Ran
process_timer env payload s =
    after_timer s (observe (parse_inactive_line payload (s.state.event_index +ℤ pos 1)) s.state)

-- `_process_battle_error`
unfoldable pub process_battle_error : String → Session → Ran
process_battle_error payload s =
    if starts_with payload "|error|[Invalid choice]"
    then raised server_invalid_choice s
    else if starts_with payload "|error|[Unavailable choice]"
    then raised server_unavailable_choice s
    else raised malformed_protocol_message s

unfoldable pub dispatch : Environment → String → Session → RoomPayloadKind → Ran
dispatch env payload s battle_event = process_battle_event env payload s
dispatch env payload s decision_request = process_request env payload s
dispatch env payload s battle_error = process_battle_error payload s
dispatch env payload s timer_message = process_timer env payload s
dispatch env payload s room_control_or_chat =
    returned (record s { room_control_or_chat_count = s.room_control_or_chat_count + 1 })
dispatch env payload s unknown = raised unknown_protocol_event s

-- `_process_line`
unfoldable pub process_line : Environment → String → Session → Ran
process_line env payload s = dispatch env payload s (classify_room_payload payload)

abbrev pub abort_trace : Environment → Option DecisionRecordErrorCode → Session → Session
abort_trace env none s = s
abort_trace env (some mismatch_code) s = finalize_pending env freshness_invalidated none none s
abort_trace env (some stale_rqid_code) s = finalize_pending env freshness_invalidated none none s
abort_trace env (some code) s = finalize_pending env session_aborted (some code) none s

-- `_abort`
unfoldable pub abort : Environment → Failure → Session → Session
abort env e s = record (abort_trace env (record_error_code e) (keep_error e s)) {
  pending_request = none;
  done = true;
}

abbrev pub continue_with : Environment → Ran → (Session → Session) → Session
continue_with env (raised e s) next = abort env e s
continue_with env (returned s) next = if s.done then s else next s

-- The loop of `run` over the lines of the connection, which end by themselves or with an exception.
unfoldable pub run : Environment → List RoomLine → Option Failure → Session → Session
run env [] none s = s
run env [] (some e) s = abort env e s
run env (line ∷ lines) ending s =
    if s.done
    then s
    else if line.room_id == some env.room_id
    then continue_with env (process_line env line.payload s) (λ s'. run env lines ending s')
    else run env lines ending s
