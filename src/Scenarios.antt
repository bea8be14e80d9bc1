-- ===== src/Scenarios.antt =====
-- A request of a battle, the submissions it allows, and a session that answers it.
mod Protocol
mod Pools
mod Sent
use battle_belief.Base.{
  Result, subst, ◌<◌, String, pos, negsuc, true, false, none, some, List, [], ◌∷◌, ◌≡◌, ◌↔◌, ◌⊎◌,
  refl, ok, err, Ensures, All, contains, arith, nat_eq, string_eq, option_eq, list_eq,
  String-discrete,
}
use battle_belief.Base.Int.{int_eq}
use battle_belief.Base.Text.{starts_with, codes, lower_codes, without_code}
use battle_belief.State.{
  normalize_identity_details, join_details, without_tera, split_details, onto_first, HpObservation,
  exact, ObservedState, initial, empty_side, side,
}
use battle_belief.Events.{BattleEvent, pokemon, pokemon_switched}
use battle_belief.Reducer.{
  Entry, lookup, reduce, reduce_all, activate_pokemon, update_side_condition, layer_cap,
  open_interval,
}
use battle_belief.Reducer.Valid.{
  IsValidHp, IsValidState, IsValidSide, active_count, IsTimeline, IsLayered,
}
use battle_belief.Reducer.Preserve.{initial-IsValidState, reduce-IsValidState, battle-IsValidState}
use battle_belief.Reducer.Chronicle.{IsNext, IsChronicle, reduce-IsNext, battle-IsChronicle}
use battle_belief.Reducer.Fielded.{IsFielded, activate_pokemon-IsFielded}
use battle_belief.Reducer.SwitchIn.{activate_pokemon-IsValidSide}
use battle_belief.Reducer.Layers.{update_side_condition-AreLayered}
use battle_belief.Reducer.SideMap.{AreKeys, layers_after, update_side_condition-layers_after}
use battle_belief.State.{EvidenceInterval}
use battle_belief.Actions.{
  move, team, default, explicit_request, server_default, team_preview, move_request,
  RequestIdentity, BattleSubmission, SafeSubmissionSet, DecisionRequest, make_submission, select,
  no_legal_action, authorize, submission_eq, identity_eq, min_by_priority, priority, kind_priority,
}
use battle_belief.Actions.Checks.{IsWellFormed, a_team, make_submission-IsWellFormed}
use battle_belief.Actions.Safety.{IsFirstBest, select-IsFirstBest, authorize_iff, authorize-select}
use battle_belief.Reconciler.{
  accept, agreed, reconcile, is_singles, tier_matches, has_default, is_allowed,
}
use battle_belief.Reconciler.Accepts.{IsAccepted, reconcile-accept_iff}
use battle_belief.Session.{
  Failure, Session, RoomLine, Environment, start, run, encode_submission, encode_kind, decode_frame,
  chop_return, read_line, classify_room_payload, classify_wire_type, wire_type_of, until_pipe,
  decision_request, command_of, disconnect,
}
use battle_belief.RequestReader
use battle_belief.RequestReader.{
  Json, bool, int, text, array, object, no_items, item, no_fields, field, Loaded, loaded,
}
use battle_belief.Session.{max_safe_integer, is_digest, is_arm_id, are_hex_codes, is_arm_text}
use battle_belief.Session.Constructed.{IsCheckedContext, IsHashing, session-record_error}
use battle_belief.Reducer.Opened.{IsOpened, open_interval-IsOpened}
use battle_belief.Session.Ledger.{ledger_of, IsSoundLedger}
use battle_belief.Session.Sound.{session-IsSound}
use battle_belief.Session.Recorded.{IsOrdered, session-IsOrdered}
use battle_belief.Session.Reports.{run-primary_error, run-done}
use battle_belief.Session.Shapes.{journal_of}
use battle_belief.Session.Choices.{read_choice, choice_of, read_choice-encode_submission}
use battle_belief.Session.Decoding.{Block, IsBlock, frame_of, room_lines, decode_frame-frame_of}

abbrev pikachu_sent_out : BattleEvent
pikachu_sent_out = record {
  event_index = pos 0;
  body = pokemon (
      pokemon_switched "p1" 0 "Pika" "Pikachu, L50, M"
        (record { current = pos 100; maximum = pos 100; status = none; fainted = false }));
}

abbrev tackle : BattleSubmission
tackle = record {
  kind = move;
  provenance = explicit_request;
  slot = some 1;
  move_id = some "tackle";
  terastallize = false;
  team_order = [];
}

abbrev by_default : BattleSubmission
by_default = record {
  kind = default;
  provenance = server_default;
  slot = none;
  move_id = none;
  terastallize = false;
  team_order = [];
}

abbrev first_identity : RequestIdentity
first_identity = record { room_id = "battle-1"; rqid = 3; request_digest = "sha256:0" }

abbrev moves_or_default : SafeSubmissionSet
moves_or_default = record {
  request_identity = first_identity;
  submissions = by_default ∷ tackle ∷ [];
}

abbrev preview : DecisionRequest
preview = record {
  identity = first_identity;
  kind = team_preview;
  side_id = "p1";
  team_member_count = 6;
  active_identity = none;
  safe_submissions = record { request_identity = first_identity; submissions = by_default ∷ [] };
  is_update = false;
}

abbrev turn_request : DecisionRequest
turn_request = record {
  identity = first_identity;
  kind = move_request;
  side_id = "p1";
  team_member_count = 6;
  active_identity = some "Pika";
  safe_submissions = moves_or_default;
  is_update = false;
}

abbrev pub known_state : ObservedState
known_state = record (initial "me") {
  our_side = some "p1";
  generation = some (pos 9);
  game_type = some "singles";
  tier = some "[Gen 9] OU";
}

abbrev pub a_member : String → String → Json → Json
a_member ident condition active = object (
    field "ident" (text ident) (
      field "details" (text "Pikachu, L50")
        (field "condition" (text condition) (field "active" active no_fields))))

-- A team preview for a team of one.
abbrev pub preview_json : Json
preview_json = object (
    field "rqid" (int (pos 3)) (
      field "teamPreview" (bool true) (
        field "side"
          (object (
            field "id" (text "p1") (
              field "pokemon" (array (item (a_member "p1: Pika" "50/50" (bool false)) no_items))
                no_fields)))
          no_fields)))

abbrev hex_digits : String
hex_digits = "0123456789abcdef0123456789abcdef0123456789abcdef0123456789abcdef"

abbrev some_digest : String
some_digest = "sha256:0123456789abcdef0123456789abcdef0123456789abcdef0123456789abcdef"

-- An environment in which every request line is this team preview, the policy takes the default, and
-- every command is sent and every record taken.
abbrev pub quiet : Environment
quiet = record {
  room_id = "battle-1";
  loads = λ payload. loaded preview_json;
  canonical_digest = λ fields. hex_digits;
  select = λ request. ok by_default;
  send = λ sent command. ok tt;
  observed_state_digest = λ state. ok some_digest;
  projected_set_digest = λ submissions. ok some_digest;
  decision_record_context = some (record {
    run_context_digest = some_digest;
    battle_id_digest = some_digest;
    resolved_binding = some (record { arm_id = "heuristic-1" });
  });
  sink_takes = λ records r. true;
}

abbrev pub request_lines : List RoomLine
request_lines =
    (record { room_id = none; payload = "hello" })
    ∷ (record { room_id = some "battle-1"; payload = "|request|{}" })
    ∷ []

reduce-IsValidState_example : Ensures IsValidState (reduce (initial "me") pikachu_sent_out)
reduce-IsValidState_example =
    reduce-IsValidState (initial "me") pikachu_sent_out (initial-IsValidState "me")

battle-IsValidState_example :
    Ensures IsValidState (reduce_all (initial "me") (pikachu_sent_out ∷ []))
battle-IsValidState_example = battle-IsValidState "me" (pikachu_sent_out ∷ [])

reduce-IsNext_example :
    Ensures
      (λ after. IsNext (initial "me") after pikachu_sent_out)
      (reduce (initial "me") pikachu_sent_out)
reduce-IsNext_example = reduce-IsNext (initial "me") pikachu_sent_out

battle-IsChronicle_example : Ensures IsChronicle (reduce_all (initial "me") (pikachu_sent_out ∷ []))
battle-IsChronicle_example = battle-IsChronicle "me" (pikachu_sent_out ∷ [])

session-IsSound_example :
    IsSoundLedger quiet (ledger_of (run quiet request_lines (some disconnect) (start known_state)))
session-IsSound_example = session-IsSound quiet request_lines (some disconnect) known_state

session-IsOrdered_example :
    IsOrdered (journal_of (run quiet request_lines (some disconnect) (start known_state)))
session-IsOrdered_example = session-IsOrdered quiet request_lines (some disconnect) known_state

some_digest-is_digest : is_digest some_digest ≡ true
unfolding is_digest are_hex_codes starts_with codes nat_eq
some_digest-is_digest = refl

quiet-IsHashing : IsHashing quiet
quiet-IsHashing = record {
  observed = λ state digest is. only digest is;
  projected = λ submissions digest is. only digest is;
}
  where
    only :
        (digest : String)
        → ◌≡◌ {A = Result Failure String} (ok some_digest) (ok digest)
        → is_digest digest ≡ true
    only digest is =
        let same : some_digest ≡ digest = cc is in
        subst (λ d. is_digest d ≡ true) same some_digest-is_digest

quiet-IsCheckedContext : IsCheckedContext quiet.decision_record_context
unfolding is_arm_id is_arm_text codes nat_eq
quiet-IsCheckedContext = (some_digest-is_digest, some_digest-is_digest, refl)

session-record_error_example :
    ((run quiet request_lines (some disconnect) (start known_state)).record_error ≡ none)
    ⊎ (max_safe_integer
        < (run quiet request_lines (some disconnect) (start known_state)).next_decision_index)
session-record_error_example =
    session-record_error quiet quiet-IsCheckedContext quiet-IsHashing request_lines
      (some disconnect) known_state

run-primary_error_example :
    (run quiet request_lines none
      (record (start known_state) { primary_error = some disconnect })).primary_error
    ≡ some disconnect
run-primary_error_example =
    run-primary_error quiet request_lines none
      (record (start known_state) { primary_error = some disconnect }) disconnect refl

reconcile-accept_iff_example :
    (reconcile "battle-1" preview known_state none
      ≡ ok (record { status = accept; reason = agreed }))
    ↔ IsAccepted "battle-1" preview known_state none
reconcile-accept_iff_example = reconcile-accept_iff "battle-1" preview known_state none

make_submission-IsWellFormed_example : (make_submission tackle ≡ ok tackle) ↔ IsWellFormed tackle
make_submission-IsWellFormed_example = make_submission-IsWellFormed tackle

authorize_iff_example : (authorize tackle first_identity moves_or_default ≡ ok tackle) ↔ (
    (tackle ≡ tackle)
    × (first_identity ≡ moves_or_default.request_identity)
    × (contains moves_or_default.submissions tackle ≡ true))
authorize_iff_example = authorize_iff tackle tackle first_identity moves_or_default

tackle_selected : select turn_request ≡ ok tackle
unfolding select min_by_priority priority kind_priority
tackle_selected = refl

authorize-select_example :
    authorize tackle turn_request.identity turn_request.safe_submissions ≡ ok tackle
authorize-select_example = authorize-select turn_request tackle refl tackle_selected

update_side_condition-AreLayered_example :
    All IsLayered (update_side_condition (("spikes", 3) ∷ []) "spikes" "start")
unfolding layer_cap string_eq String-discrete
update_side_condition-AreLayered_example =
    update_side_condition-AreLayered (("spikes", 3) ∷ []) "spikes" "start"
      ((omega arith, omega arith), tt)

select-IsFirstBest_example :
    ((select turn_request ≡ err no_legal_action) × (turn_request.safe_submissions.submissions ≡ []))
    ⊎ ((s : BattleSubmission) × (select turn_request ≡ ok s)
        × IsFirstBest s turn_request.safe_submissions.submissions)
select-IsFirstBest_example = select-IsFirstBest turn_request

abbrev full_health : HpObservation
full_health = record { current = pos 100; maximum = pos 100; precision = exact; fainted = false }

full_health-IsValidHp : IsValidHp full_health
full_health-IsValidHp = record {
  some_maximum = omega arith;
  not_negative = omega arith;
  capped = omega arith;
  zero_if_fainted = λ p. cc;
}

activate_pokemon-IsValidSide_example :
    IsValidSide
      (pos 4)
      (activate_pokemon (empty_side "p1") "Pika" "Pikachu, L50, M" full_health none (pos 4))
    × (active_count
          (activate_pokemon
            (empty_side "p1")
            "Pika"
            "Pikachu, L50, M"
            full_health
            none
            (pos 4)).pokemon
        ≡ 1)
unfolding empty_side
activate_pokemon-IsValidSide_example =
    activate_pokemon-IsValidSide (pos 4) (empty_side "p1")
      (record { views = tt; one_active = omega arith; layers = tt }) "Pika" "Pikachu, L50, M"
      full_health none (omega arith) full_health-IsValidHp

abbrev held_item : List EvidenceInterval
held_item =
    (record {
      value = some "leftovers";
      source_event_index = pos 2;
      valid_from = pos 2;
      valid_until = none;
    })
    ∷ []

open_interval-IsOpened_example :
    IsOpened (negsuc 0) (pos 7) none held_item (open_interval held_item none (pos 7))
open_interval-IsOpened_example =
    open_interval-IsOpened (negsuc 0) (pos 5) (pos 7) held_item none (omega arith)
      (omega arith, (omega arith, refl))

abbrev holding : Session
holding = record (start known_state) { pending_request = some preview }

activate_pokemon-IsFielded_example :
    (e : Entry) × IsFielded
      (activate_pokemon (empty_side "p1") "Pika" "Pikachu, L50, M" full_health none (pos 4))
      "Pika"
      "Pikachu, L50, M"
      full_health
      none
      e
activate_pokemon-IsFielded_example =
    activate_pokemon-IsFielded (empty_side "p1") "Pika" "Pikachu, L50, M" full_health none (pos 4)

update_side_condition-layers_after_example :
    AreKeys (update_side_condition (("spikes", 2) ∷ []) "stealthrock" "start")
    × ((k : String)
        → lookup k (update_side_condition (("spikes", 2) ∷ []) "stealthrock" "start")
          ≡ layers_after (λ j. lookup j (("spikes", 2) ∷ [])) "stealthrock" "start" k)
unfolding lookup
update_side_condition-layers_after_example =
    update_side_condition-layers_after (("spikes", 2) ∷ []) "stealthrock" "start" (refl, tt)

abbrev turn_block : Block
turn_block = record { room_id = "battle-1"; payloads = "|turn|1" ∷ "|" ∷ [] }

turn_block-IsBlock : IsBlock turn_block
unfolding chop_return read_line nat_eq
turn_block-IsBlock = record {
  named = λ e. cc;
  room = record { no_newline = refl; no_return = refl };
  contents = (
    (record { no_newline = refl; no_return = refl }, refl),
    ((record { no_newline = refl; no_return = refl }, refl), tt),
  );
}

decode_frame-frame_of_example :
    decode_frame (frame_of (turn_block ∷ [])) ≡ ok (room_lines (turn_block ∷ []))
decode_frame-frame_of_example = decode_frame-frame_of turn_block [] (turn_block-IsBlock, tt)

tera_suffix_dropped : normalize_identity_details "Pikachu, L50, tera:Fire" ≡ "Pikachu, L50"
unfolding normalize_identity_details join_details without_tera split_details onto_first starts_with
    nat_eq
tera_suffix_dropped = refl

requests_classified : classify_room_payload "|request|{}" ≡ decision_request
unfolding classify_room_payload classify_wire_type wire_type_of until_pipe codes starts_with nat_eq
    string_eq list_eq String-discrete
requests_classified = refl

abbrev reversed : BattleSubmission
reversed = record {
  kind = team;
  provenance = explicit_request;
  slot = none;
  move_id = none;
  terastallize = false;
  team_order = 3 ∷ 2 ∷ 1 ∷ [];
}

reversed-IsWellFormed : IsWellFormed reversed
unfolding nat_eq
reversed-IsWellFormed =
    a_team 3 (2 ∷ 1 ∷ [])
      ((omega arith, omega arith), ((omega arith, omega arith), ((omega arith, omega arith), tt)))
      (refl, (refl, (refl, tt))) refl

read_choice-encode_submission_example :
    read_choice (encode_submission reversed) ≡ choice_of reversed.kind reversed
read_choice-encode_submission_example = read_choice-encode_submission reversed reversed-IsWellFormed

run-done_example : (run quiet request_lines (some disconnect) (start known_state)).done ≡ true
run-done_example = run-done quiet request_lines disconnect (start known_state)
