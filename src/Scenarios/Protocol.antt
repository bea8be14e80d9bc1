-- ===== src/Scenarios/Protocol.antt =====
-- Lines and requests of the protocol, and what they are read as.
use battle_belief.Base.{
  err, contains, ◌||◌, ◌↔◌, ℕ, pos, negsuc, String, true, false, none, some, Option, map, List, [],
  ◌∷◌, ◌≡◌, refl, ok, Ensures, All, length, arith, nat_eq, string_eq, option_eq, list_eq,
  String-discrete,
}
use battle_belief.Base.Text.{codes, decimal, digits_of, digit}
use battle_belief.State.{onto_first}
use battle_belief.Events.{boost_changed, delta, pokemon}
use battle_belief.RequestReader
use battle_belief.Actions.{
  forced_switch, revival, switch, revive, make_submission, check_kind, provenance_eq,
  DecisionRequest,
}
use battle_belief.Reconciler.{range_from}
use battle_belief.Parser.{
  Parsed, parse_boost, require, arg, parse_active_ident, parse_parts, split_once, after_prefix,
  ends_with, parse_int, read_int, normalize_boost_stat, parse_battle_line, parse_wire,
  split_payload, split_on, parse_pokemon_ident, parse_hp_token,
}
use battle_belief.Parser.Known.{is_known}
use battle_belief.Parser.Dispatch.{
  IsExpected, parse_battle_line-IsExpected, parse_battle_line-parse_wire,
}
use battle_belief.Parser.IdentTexts.{ident_text, side_text, slot_of, parse_pokemon_ident-ident_text}
use battle_belief.Parser.HitPoints.{hp_text, token, parse_hp_token-hp_text}
use battle_belief.RequestReader.Bench.{IsStanding, IsFainted}
use battle_belief.RequestReader.{
  Loaded, loaded, Json, null, bool, int, text, array, object, no_items, item, no_fields, field,
  RequestPokemon, RequestMove, ActiveRequest, active_submissions, read_request, permutations,
}
use battle_belief.RequestReader.Orders.{IsTeamOrder}
use battle_belief.RequestReader.Readers.{IsReadRequest}
use battle_belief.RequestReader.Sound.{read_request-IsReadRequest}
use battle_belief.RequestReader.Agreed.{
  DecidedByState, IsAnswerable, reconcile-read_request, read_request-IsAnswerable,
}
use battle_belief.RequestReader.Offered.{AreOffers, is_restricted, active_submissions-AreOffers}
use battle_belief.RequestReader.Choices.{have_ids}
use battle_belief.RequestReader.Complete.{
  IsBenchRequest, IsPreview, read_forced_switch-IsBenchRequest, read_team_preview-IsPreview,
}
use battle_belief.RequestReader.AllOrders.{permutations-IsTeamOrder}
use battle_belief.RequestReader.{
  Head, Fields, find_key, can_switch, can_revive, read_forced_switch, read_revival,
  read_team_preview, max_chosen_of,
}
use battle_belief.Session.{classify_room_payload, start, run, disconnect}
use battle_belief.Session.Dispatched.{IsReadable, classify_room_payload-IsReadable}
use battle_belief.Session.Commands.{IsUnderstood, session-IsUnderstood}
use battle_belief.Scenarios.{a_member, quiet, request_lines, known_state}

abbrev boost_line : String
boost_line = "|-unboost|p1a: Garchomp|accuracy|2"

classify_room_payload-IsReadable_example :
    IsReadable (classify_room_payload boost_line) (pos 7) (some "battle-1") boost_line
classify_room_payload-IsReadable_example =
    classify_room_payload-IsReadable boost_line (pos 7) (some "battle-1")

parse_battle_line-IsExpected_example :
    IsExpected
      (pos 7)
      (is_known boost_line (split_payload boost_line).0)
      (parse_battle_line boost_line (pos 7) none)
parse_battle_line-IsExpected_example = parse_battle_line-IsExpected boost_line (pos 7) none

parse_battle_line-parse_wire_example :
    parse_battle_line boost_line (pos 7) none
    ≡ parse_wire boost_line none (split_payload boost_line).0 (split_payload boost_line).1 (pos 7)
parse_battle_line-parse_wire_example = parse_battle_line-parse_wire boost_line (pos 7) none

parse_pokemon_ident-ident_text_example :
    parse_pokemon_ident (ident_text 2 true "Type: Null")
    ≡ ok (side_text 2, slot_of true, "Type: Null")
parse_pokemon_ident-ident_text_example =
    parse_pokemon_ident-ident_text 2 true "Type: Null" (λ e. cc)

short_number : length (codes (decimal 341)) ≡ 3
unfolding codes decimal digits_of digit
short_number = refl

parse_hp_token-hp_text_example :
    parse_hp_token (hp_text 341 341 (some "par")) ≡ ok (token 341 341 (some "par"))
parse_hp_token-hp_text_example =
    parse_hp_token-hp_text 341 341 (some "par") (omega (arith, short_number))
      (omega (arith, short_number))

-- A forced switch of a team of two, the active one of which has fainted.
abbrev forced_json : Json
forced_json = object (
    field "rqid" (int (pos 4)) (
      field "forceSwitch" (array (item (bool true) no_items)) (
        field "side"
          (object (
            field "id" (text "p1") (
              field "pokemon"
                (array (
                  item (a_member "p1: Pika" "0 fnt" (bool true))
                    (item (a_member "p1: Chu" "50/100" (bool false)) no_items)))
                no_fields)))
          no_fields)))

read_request-IsReadRequest_example :
    Ensures
      (IsReadRequest "battle-1")
      (read_request (λ s. loaded forced_json) (λ fields. "0") "battle-1" "")
read_request-IsReadRequest_example =
    read_request-IsReadRequest (λ s. loaded forced_json) (λ fields. "0") "battle-1" ""

reconcile-read_request_example :
    Ensures
      (DecidedByState "battle-1" known_state (some 3))
      (read_request (λ s. loaded forced_json) (λ fields. "0") "battle-1" "")
reconcile-read_request_example =
    reconcile-read_request (λ s. loaded forced_json) (λ fields. "0") "battle-1" "" known_state
      (some 3)

read_request-IsAnswerable_example :
    Ensures IsAnswerable (read_request (λ s. loaded forced_json) (λ fields. "0") "battle-1" "")
read_request-IsAnswerable_example =
    read_request-IsAnswerable (λ s. loaded forced_json) (λ fields. "0") "battle-1" ""

permutations-IsTeamOrder_example :
    contains (permutations 3 (range_from 1 3)) (2 ∷ 3 ∷ 1 ∷ []) ≡ true
    ↔ IsTeamOrder 3 (2 ∷ 3 ∷ 1 ∷ [])
permutations-IsTeamOrder_example = permutations-IsTeamOrder 3 (2 ∷ 3 ∷ 1 ∷ []) (omega arith)

abbrev free_turn : ActiveRequest
free_turn = record {
  moves =
      (record { move_id = "tackle"; disabled = false })
      ∷ (record { move_id = "splash"; disabled = true })
      ∷ [];
  can_terastallize = "Fire";
  trapped = false;
  maybe_trapped = false;
  maybe_disabled = false;
  maybe_locked = false;
}

abbrev bench : List RequestPokemon
bench =
    (record {
      ident = "p1: Pika";
      details = "Pikachu";
      condition = "50/100";
      active = true;
      reviving = false;
    })
    ∷ (record {
      ident = "p1: Chu";
      details = "Raichu";
      condition = "0 fnt";
      active = false;
      reviving = false;
    })
    ∷ []

active_submissions-AreOffers_example :
    AreOffers free_turn bench
      (is_restricted free_turn || have_ids free_turn.moves)
      (active_submissions free_turn bench)
active_submissions-AreOffers_example =
    active_submissions-AreOffers free_turn bench (omega arith) (omega arith)

abbrev bench_head : Head
bench_head = record {
  identity = record { room_id = "battle-1"; rqid = 4; request_digest = "sha256:0" };
  side_id = "p1";
  members = bench;
  active_identity = some "Pika";
  update = false;
}

read_forced_switch-IsBenchRequest_example :
    IsBenchRequest bench_head forced_switch switch IsStanding (read_forced_switch bench_head)
    × IsBenchRequest bench_head revival revive IsFainted (read_revival bench_head)
read_forced_switch-IsBenchRequest_example =
    read_forced_switch-IsBenchRequest bench_head (omega arith)

abbrev whole_team : Fields
whole_team = field "maxChosenTeamSize" (int (pos 2)) no_fields

read_team_preview-IsPreview_example :
    IsPreview bench_head
      (find_key whole_team "maxChosenTeamSize")
      (read_team_preview bench_head whole_team)
read_team_preview-IsPreview_example =
    read_team_preview-IsPreview bench_head whole_team (omega arith) (omega arith)

session-IsUnderstood_example :
    All IsUnderstood (run quiet request_lines (some disconnect) (start known_state)).sent
session-IsUnderstood_example =
    session-IsUnderstood quiet request_lines (some disconnect) known_state

unboost_read :
    parse_battle_line boost_line (pos 7) none
    ≡ ok (record {
      event_index = pos 7;
      body = pokemon (boost_changed "p1" 1 "Garchomp" "acc" delta (negsuc 1));
    })
unfolding parse_battle_line split_payload split_on parse_boost require arg parse_active_ident
    parse_pokemon_ident parse_parts split_once parse_int read_int codes normalize_boost_stat nat_eq
    string_eq String-discrete onto_first
unboost_read = refl

abbrev offered_slots : Parsed DecisionRequest → List (Option ℕ)
offered_slots (ok r) = map (λ s. s.slot) r.safe_submissions.submissions
offered_slots (err e) = []

-- The bench member is offered, then the default.
forced_read :
    offered_slots (read_request (λ s. loaded forced_json) (λ fields. "0") "battle-1" "")
    ≡ some 2 ∷ none ∷ []
unfolding read_request RequestReader.require_object RequestReader.require_rqid
    RequestReader.find_key RequestReader.optional_bool RequestReader.parse_force_switch
    RequestReader.parse_side RequestReader.get_key RequestReader.require_string
    RequestReader.check_key RequestReader.require_list RequestReader.map_parsed
    RequestReader.parse_request_pokemon RequestReader.is_ident_of RequestReader.count_active
    RequestReader.items RequestReader.require_bool RequestReader.rqid_of_value
    RequestReader.read_kind RequestReader.read_payload RequestReader.read_forced_switch
    RequestReader.slot_submissions RequestReader.first_active RequestReader.nickname_from_ident
    RequestReader.pokemon_fainted RequestReader.candidates RequestReader.construct
    RequestReader.default_submission string_eq String-discrete list_eq nat_eq codes split_once
    after_prefix ends_with make_submission check_kind provenance_eq
forced_read = refl
