-- ===== src/Scenarios/Sent.antt =====
-- A session in which a team preview is answered.
use battle_belief.Base.{◌∷◌, [], map, none, ◌≡◌, refl, string_eq, list_eq, nat_eq, option_eq}
use battle_belief.Session
use battle_belief.RequestReader
use battle_belief.Reconciler
use battle_belief.Actions
use battle_belief.State
use battle_belief.Base.Text
use battle_belief.Base.Int
use battle_belief.Parser
use battle_belief.Session.{run, start, submitted}
use battle_belief.Scenarios.{quiet, request_lines, known_state}

-- From its start the session takes the team preview, sends the default, and records the decision.
request_lines-sent :
    (map (λ x. x.choice) (run quiet request_lines none (start known_state)).sent ≡ "default" ∷ [])
    × (map (λ r. r.record_status) (run quiet request_lines none (start known_state)).emitted
        ≡ submitted ∷ [])
unfolding Session.selected_required Session.selection_forbidden Session.error_forbidden
    Session.error_required Session.is_consistent Session.make_record Session.are_valid_fields
    Session.record_error_code Session.start Session.encode_kind Session.encode_submission
    Session.classify_room_payload Session.emit_record Session.finalize_pending Session.open_trace
    Session.refresh_pending_trace_state Session.after_send Session.after_encode Session.after_gate
    Session.after_policy Session.submit Session.follow_status Session.after_reconcile
    Session.retry_request Session.retry_pending Session.check_freshness Session.first_try
    Session.take_request Session.after_freshness Session.receive_request Session.process_request
    Session.dispatch Session.process_line Session.abort Session.run RequestReader.find_key
    RequestReader.get_key RequestReader.require_rqid RequestReader.require_string
    RequestReader.optional_bool RequestReader.require_list RequestReader.map_parsed
    RequestReader.check_key RequestReader.is_ident_of RequestReader.parse_request_pokemon
    RequestReader.count_active RequestReader.parse_side RequestReader.first_active
    RequestReader.validate_active_shape RequestReader.parse_force_switch RequestReader.construct
    RequestReader.default_submission RequestReader.permutations RequestReader.max_chosen_of
    RequestReader.read_request Reconciler.is_singles Reconciler.tier_matches Reconciler.is_allowed
    Reconciler.range_from Reconciler.same_set Reconciler.has_default Reconciler.check_contents
    Reconciler.check_kinds Reconciler.check_orders Reconciler.check_preview
    Reconciler.check_active_identity Reconciler.check_state Reconciler.check_request
    Reconciler.reconcile Actions.ActionKind-discrete Actions.kind_eq Actions.provenance_eq
    Actions.RequestIdentity-discrete Actions.identity_eq Actions.BattleSubmission-discrete
    Actions.submission_eq Actions.distinct Actions.check_kind Actions.make_submission
    Actions.authorize State.initial State.side Text.starts_with Text.codes Text.lower_codes
    Text.without_code Int.int_eq Parser.split_once string_eq list_eq nat_eq option_eq
request_lines-sent = (refl, refl)
