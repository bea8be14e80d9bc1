-- ===== src/Session/Journals.antt =====
-- battle_session.py: the methods and the open record, for any predicate on the records.
use battle_belief.Base.{
  String, Bool, false, not, ◌&&◌, ◌||◌, Option, none, some, List, [], ◌∷◌, Result, ok, err, Ensures,
  refl, if_intro, if◌then◌else◌, ◌==◌, option_eq, nat_eq, string_eq,
}
use battle_belief.Base.Text.{starts_with}
use battle_belief.Errors.{Core}
use battle_belief.State.{ObservedState}
use battle_belief.Events.{BattleEvent}
use battle_belief.Actions.{
  DecisionRequest, submission_eq, provenance_eq, identity_eq, stale_request_identity,
  local_action_gate_rejection, no_legal_action,
}
use battle_belief.Reconciler.{
  ReconciliationResult, ReconciliationStatus, accept, pending_public_state, reject, Reason,
}
use battle_belief.RequestReader.Readers.{IsReadRequest}
use battle_belief.RequestReader.Sound.{read_request-IsReadRequest}
use battle_belief.Session.Records
use battle_belief.Session.Records.{DecisionRecord, DecisionRecordStatus, DecisionRecordErrorCode}
use battle_belief.Session.Model
use battle_belief.Session.Model.{
  Failure, core, safety, Sent, RoomLine, RoomPayloadKind, Environment, Session, Ran, returned,
  raised, keep_error, record_error_code, start,
}
use battle_belief.Session.Steps.{
  finalize_pending, open_trace, refresh_pending_trace_state, is_active_unknown, follow_status,
  after_reconcile, retry_request, retry_pending, Freshness, newer, duplicate, stale, changed,
  hold_request, first_try, take_request, after_freshness, receive_request, process_request,
  FollowUp, ends, retries, nothing, follow_up, after_event, after_observe, process_battle_event,
  after_timer, process_timer, process_battle_error, dispatch, process_line, abort_trace, abort,
  continue_with, run, submit, drop_chars,
}
use battle_belief.Errors.{reducer_invariant, value_error, index_error, assertion_error}
use battle_belief.Session.Ledger.{Left, Left-then}
use battle_belief.Session.Shapes.{
  Journal, journal_of, Keeps, superseded-IsShape, discarded-IsShape, invalidated-IsShape,
  aborted-IsShape,
}
use battle_belief.Session.Decided.{reject_reconciliation-keeps, submit-keeps}

module _ (env : Environment) (P : Journal → Type 0) (k : Keeps env P) where
  abbrev Kept : Session → Type 0
  Kept s = P (journal_of s)

  follow_status-keeps :
      (strict : Bool) (request : DecisionRequest) (s : Session) (status : ReconciliationStatus)
      (reason : Reason)
      → Kept s
      → Left Kept (follow_status env strict request s status reason)
  unfolding follow_status
  follow_status-keeps strict request s reject reason p = reject_reconciliation-keeps env P k s p
  follow_status-keeps strict request s pending_public_state reason p =
      if_intro (Left Kept) (strict || s.state.battle_started && not (is_active_unknown reason))
        (reject_reconciliation-keeps env P k s p) p
  follow_status-keeps strict request s accept reason p =
      Left-then Kept Kept (refresh_pending_trace_state env s) (submit env request) (k.refreshed s p)
        (λ s' q. q) (λ s' q. submit-keeps env P k request s' q)

  after_reconcile-keeps :
      (strict : Bool) (request : DecisionRequest) (s : Session) (result : Core ReconciliationResult)
      → Kept s
      → Left Kept (after_reconcile env strict request s result)
  unfolding after_reconcile
  after_reconcile-keeps strict request s (err e) p = p
  after_reconcile-keeps strict request s (ok r) p =
      follow_status-keeps strict request s r.status r.reason p

  retry_request-keeps :
      (strict : Bool) (s : Session) (pending : Option DecisionRequest)
      → Kept s
      → Left Kept (retry_request env strict s pending)
  unfolding retry_request
  retry_request-keeps strict s none p = p
  retry_request-keeps strict s (some request) p = after_reconcile-keeps strict request s _ p

  retry_pending-keeps :
      (strict : Bool) (s : Session) → Kept s → Left Kept (retry_pending env strict s)
  unfolding retry_pending
  retry_pending-keeps strict s p = retry_request-keeps strict s s.pending_request p

  first_try-keeps : (s : Session) → Kept s → Left Kept (first_try env s)
  unfolding first_try
  first_try-keeps s p =
      if_intro (Left Kept) s.done {x = returned s} {y = retry_pending env false s} p
        (retry_pending-keeps false s p)

  take_request-keeps :
      (request : DecisionRequest) (s : Session)
      → IsReadRequest env.room_id request
      → Kept s
      → Left Kept (take_request env request s)
  unfolding take_request
  take_request-keeps request s read p =
      let s' =
        hold_request request
          (finalize_pending env Records.superseded_before_selection none none s) in
      Left-then Kept Kept (open_trace env request s') (first_try env)
        (k.opened request s' read (k.finalized _ none none s superseded-IsShape p)) (λ t q. q)
        (λ t q. first_try-keeps t q)

  after_freshness-keeps :
      (request : DecisionRequest) (s : Session) (freshness : Freshness)
      → IsReadRequest env.room_id request
      → Kept s
      → Left Kept (after_freshness env request s freshness)
  unfolding after_freshness
  after_freshness-keeps request s duplicate read p = p
  after_freshness-keeps request s stale read p = p
  after_freshness-keeps request s changed read p = p
  after_freshness-keeps request s newer read p = take_request-keeps request s read p

  receive_request-keeps :
      (s : Session) (result : Result Failure DecisionRequest)
      → Ensures (IsReadRequest env.room_id) result
      → Kept s
      → Left Kept (receive_request env s result)
  unfolding receive_request
  receive_request-keeps s (err e) read p = p
  receive_request-keeps s (ok request) read p = after_freshness-keeps request s _ read p

  after_event-keeps : (next : FollowUp) (s : Session) → Kept s → Left Kept (after_event env next s)
  unfolding after_event
  after_event-keeps ends s p =
      k.finalized Records.terminally_discarded none none s discarded-IsShape p
  after_event-keeps (retries strict) s p = retry_pending-keeps strict s p
  after_event-keeps nothing s p = p

  after_observe-keeps :
      (s : Session) (result : Result Failure (BattleEvent × ObservedState))
      → Kept s
      → Left Kept (after_observe env s result)
  unfolding after_observe
  after_observe-keeps s (err e) p = p
  after_observe-keeps s (ok (event, state')) p =
      after_event-keeps (follow_up event.body) (record s { state = state' }) p

  after_timer-keeps :
      (s : Session) (result : Result Failure (BattleEvent × ObservedState))
      → Kept s
      → Left Kept (after_timer s result)
  unfolding after_timer
  after_timer-keeps s (err e) p = p
  after_timer-keeps s (ok (event, state')) p = p

  dispatch-keeps :
      (payload : String) (s : Session) (kind : RoomPayloadKind)
      → Kept s
      → Left Kept (dispatch env payload s kind)
  unfolding dispatch process_battle_event process_request process_battle_error process_timer
  dispatch-keeps payload s Model.battle_event p = after_observe-keeps s _ p
  dispatch-keeps payload s Model.decision_request p =
      receive_request-keeps s _
        (read_request-IsReadRequest env.loads env.canonical_digest env.room_id
          (drop_chars 9 payload))
        p
  dispatch-keeps payload s Model.battle_error p =
      if_intro (Left Kept) (starts_with payload "|error|[Invalid choice]") p
        (if_intro (Left Kept) (starts_with payload "|error|[Unavailable choice]") p p)
  dispatch-keeps payload s Model.timer_message p = after_timer-keeps s _ p
  dispatch-keeps payload s Model.room_control_or_chat p = p
  dispatch-keeps payload s Model.unknown p = p

  abort_trace-keeps :
      (e : Failure) (s : Session) → Kept s → Kept (abort_trace env (record_error_code e) s)
  unfolding record_error_code Records.is_listed
  abort_trace-keeps (core (reducer_invariant f)) s p =
      k.finalized _ _ _ s (aborted-IsShape Records.reducer_code refl) p
  abort_trace-keeps (core value_error) s p = p
  abort_trace-keeps (core index_error) s p = p
  abort_trace-keeps (core assertion_error) s p = p
  abort_trace-keeps (safety no_legal_action) s p = p
  abort_trace-keeps (safety stale_request_identity) s p = k.finalized _ _ _ s invalidated-IsShape p
  abort_trace-keeps (safety local_action_gate_rejection) s p = p
  abort_trace-keeps Model.server_invalid_choice s p = p
  abort_trace-keeps Model.server_unavailable_choice s p = p
  abort_trace-keeps Model.unknown_protocol_event s p =
      k.finalized _ _ _ s (aborted-IsShape Records.unknown_event_code refl) p
  abort_trace-keeps Model.malformed_protocol_message s p =
      k.finalized _ _ _ s (aborted-IsShape Records.malformed_code refl) p
  abort_trace-keeps Model.request_state_reconciliation_mismatch s p =
      k.finalized _ _ _ s invalidated-IsShape p
  abort_trace-keeps Model.reducer_invariant_failure s p =
      k.finalized _ _ _ s (aborted-IsShape Records.reducer_code refl) p
  abort_trace-keeps Model.transport_timeout s p =
      k.finalized _ _ _ s (aborted-IsShape Records.transport_timeout_code refl) p
  abort_trace-keeps Model.disconnect s p =
      k.finalized _ _ _ s (aborted-IsShape Records.disconnect_code refl) p
  abort_trace-keeps Model.timer_or_forfeit s p =
      k.finalized _ _ _ s (aborted-IsShape Records.timer_or_forfeit_code refl) p
  abort_trace-keeps Model.trace_sink_failure s p = p
  abort_trace-keeps Model.decision_record_construction_failure s p = p
  abort_trace-keeps (Model.other text) s p = p

  abort-keeps : (e : Failure) (s : Session) → Kept s → Kept (abort env e s)
  unfolding abort
  abort-keeps e s p = abort_trace-keeps e (keep_error e s) (k.reported e s p)

  continue_with-keeps :
      (r : Ran) (next : Session → Session)
      → Left Kept r
      → ((s : Session) → Kept s → Kept (next s))
      → Kept (continue_with env r next)
  continue_with-keeps (raised e s) next p step = abort-keeps e s p
  continue_with-keeps (returned s) next p step =
      if_intro Kept s.done {x = s} {y = next s} p (step s p)

  pub run-keeps :
      (lines : List RoomLine) (ending : Option Failure) (s : Session)
      → Kept s
      → Kept (run env lines ending s)
  unfolding run process_line
  run-keeps [] none s p = p
  run-keeps [] (some e) s p = abort-keeps e s p
  run-keeps (line ∷ lines) ending s p =
      let next : Session → Session = λ s'. run env lines ending s' in
      let r = process_line env line.payload s in
      if_intro Kept s.done {x = s}
        {y = if line.room_id == some env.room_id then continue_with env r next else next s} p
        (if_intro Kept (line.room_id == some env.room_id) {x = continue_with env r next}
          {y = next s}
          (continue_with-keeps r next (dispatch-keeps line.payload s _ p)
            (λ s' p'. run-keeps lines ending s' p'))
          (run-keeps lines ending s p))
