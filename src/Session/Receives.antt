-- ===== src/Session/Receives.antt =====
-- battle_session.py: receiving a line, and the ledger.
use battle_belief.Base.{
  sym, subst, String, false, Option, none, some, Result, ok, err, Ensures, ◌≡◌, inr, refl, if_intro,
  arith, option_eq, nat_eq, string_eq,
}
use battle_belief.Base.Text.{starts_with}
use battle_belief.State.{ObservedState}
use battle_belief.Events.{BattleEvent}
use battle_belief.Actions.{
  RequestIdentity, DecisionRequest, submission_eq, provenance_eq, identity_eq,
}
use battle_belief.RequestReader.Sound.{read_request-IsReadRequest}
use battle_belief.RequestReader.Readers.{IsReadRequest}
use battle_belief.Session.Records
use battle_belief.Session.Records.{DecisionRecord, DecisionRecordStatus, DecisionRecordErrorCode}
use battle_belief.Session.Model
use battle_belief.Session.Model.{
  Failure, core, safety, Sent, RoomLine, RoomPayloadKind, Environment, Session, Ran, returned,
  raised, keep_error, record_error_code, start,
}
use battle_belief.Session.Steps.{
  finalize_pending, open_trace, Freshness, newer, duplicate, stale, changed, check_freshness,
  drop_chars, hold_request, first_try, take_request, after_freshness, receive_request,
  process_request, FollowUp, ends, retries, nothing, follow_up, after_event, after_observe,
  process_battle_event, after_timer, process_timer, process_battle_error, dispatch,
}
use battle_belief.Session.Ledger.{
  Ledger, ledger_of, Left, IsAnswered, IsSoundLedger, finalize_pending-keeps, Left-then, IsRetraced,
  open_trace-IsRetraced,
}
use battle_belief.Session.Answers.{IsSound, finalize-IsSound, settled-IsSoundLedger}
use battle_belief.Session.Submits.{retry_pending-IsSound}

-- A request that is not the latest one any more was answered, or is older than the new one.
IsAnswered-newer :
    (submitted latest : Option RequestIdentity) (i : RequestIdentity)
    → check_freshness latest i ≡ newer
    → IsAnswered submitted latest
    → IsAnswered submitted (some i)
unfolding check_freshness
IsAnswered-newer none latest i fresh h = tt
IsAnswered-newer (some j) none i fresh h = absurd h
IsAnswered-newer (some j) (some l) i fresh h = inr (ground arith)

newer-IsSoundLedger :
    (env : Environment) (request : DecisionRequest) (l : Ledger)
    → check_freshness l.latest request.identity ≡ newer
    → IsReadRequest env.room_id request
    → IsSoundLedger env l
    → IsSoundLedger env (record l { latest = some request.identity; pending = some request })
newer-IsSoundLedger env request l fresh read v = record {
  pending_read = read;
  pending_latest = refl;
  answered = IsAnswered-newer l.submitted l.latest request.identity fresh v.answered;
  answers = v.answers;
  once = v.once;
  authorized = v.authorized;
  explicit_counted = v.explicit_counted;
  defaults_counted = v.defaults_counted;
}

first_try-IsSound :
    (env : Environment) (s : Session) → IsSound env s → Left (IsSound env) (first_try env s)
unfolding first_try
first_try-IsSound env s v =
    if_intro (Left (IsSound env)) s.done v (retry_pending-IsSound env false s v)

take_request-IsSound :
    (env : Environment) (request : DecisionRequest) (s : Session)
    → check_freshness s.latest_request request.identity ≡ newer
    → IsReadRequest env.room_id request
    → IsSound env s
    → Left (IsSound env) (take_request env request s)
unfolding take_request
take_request-IsSound env request s fresh read v =
    let s' = finalize_pending env Records.superseded_before_selection none none s in
    let held =
      finalize_pending-keeps
        (λ l.
          IsSoundLedger env (record l { latest = some request.identity; pending = some request }))
        env Records.superseded_before_selection none none s
        (newer-IsSoundLedger env request (ledger_of s) fresh read v) in
    let s'' = hold_request request s' in
    Left-then (IsRetraced s'') (IsSound env) (open_trace env request s'') (first_try env)
      (open_trace-IsRetraced env request s'')
      (λ t same. subst (IsSoundLedger env) (sym same.ledger) held)
      (λ t same. first_try-IsSound env t (subst (IsSoundLedger env) (sym same.ledger) held))

after_freshness-IsSound :
    (env : Environment) (request : DecisionRequest) (s : Session) (freshness : Freshness)
    → check_freshness s.latest_request request.identity ≡ freshness
    → IsReadRequest env.room_id request
    → IsSound env s
    → Left (IsSound env) (after_freshness env request s freshness)
unfolding after_freshness
after_freshness-IsSound env request s duplicate fresh read v = v
after_freshness-IsSound env request s stale fresh read v = v
after_freshness-IsSound env request s changed fresh read v = v
after_freshness-IsSound env request s newer fresh read v =
    take_request-IsSound env request s fresh read v

receive_request-IsSound :
    (env : Environment) (s : Session) (result : Result Failure DecisionRequest)
    → Ensures (IsReadRequest env.room_id) result
    → IsSound env s
    → Left (IsSound env) (receive_request env s result)
unfolding receive_request
receive_request-IsSound env s (err e) read v = v
receive_request-IsSound env s (ok request) read v =
    after_freshness-IsSound env request s _ refl read v

after_event-IsSound :
    (env : Environment) (next : FollowUp) (s : Session)
    → IsSound env s
    → Left (IsSound env) (after_event env next s)
unfolding after_event
after_event-IsSound env ends s v =
    settled-IsSoundLedger env _ (finalize-IsSound env Records.terminally_discarded none none s v)
after_event-IsSound env (retries strict) s v = retry_pending-IsSound env strict s v
after_event-IsSound env nothing s v = v

after_observe-IsSound :
    (env : Environment) (s : Session) (result : Result Failure (BattleEvent × ObservedState))
    → IsSound env s
    → Left (IsSound env) (after_observe env s result)
unfolding after_observe
after_observe-IsSound env s (err e) v = v
after_observe-IsSound env s (ok (event, state')) v =
    after_event-IsSound env (follow_up event.body) (record s { state = state' }) v

after_timer-IsSound :
    (env : Environment) (s : Session) (result : Result Failure (BattleEvent × ObservedState))
    → IsSound env s
    → Left (IsSound env) (after_timer s result)
unfolding after_timer
after_timer-IsSound env s (err e) v = v
after_timer-IsSound env s (ok (event, state')) v = v

pub dispatch-IsSound :
    (env : Environment) (payload : String) (s : Session) (kind : RoomPayloadKind)
    → IsSound env s
    → Left (IsSound env) (dispatch env payload s kind)
unfolding dispatch process_battle_event process_request process_battle_error process_timer
dispatch-IsSound env payload s Model.battle_event v = after_observe-IsSound env s _ v
dispatch-IsSound env payload s Model.decision_request v =
    receive_request-IsSound env s _
      (read_request-IsReadRequest env.loads env.canonical_digest env.room_id (drop_chars 9 payload))
      v
dispatch-IsSound env payload s Model.battle_error v =
    if_intro (Left (IsSound env)) (starts_with payload "|error|[Invalid choice]") v
      (if_intro (Left (IsSound env)) (starts_with payload "|error|[Unavailable choice]") v v)
dispatch-IsSound env payload s Model.timer_message v = after_timer-IsSound env s _ v
dispatch-IsSound env payload s Model.room_control_or_chat v = v
dispatch-IsSound env payload s Model.unknown v = v
