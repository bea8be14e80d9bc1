-- ===== src/RequestReader/Reader.antt =====
-- request_reader.py: `read_request`, and the readers of the five kinds of request.
use battle_belief.Base.{
  ℕ, suc, ℤ, pos, leb_ℤ, String, Bool, true, false, not, ◌&&◌, ◌||◌, Option, none, some, List, [],
  ◌∷◌, ◌++◌, length, ok, err, ◌>>=◌, ◌>>◌, guard, ◌==◌, nat_eq, string_eq, if◌then◌else◌,
}
use battle_belief.Base.Int.{int_eq}
use battle_belief.Base.Text.{◌<>◌}
use battle_belief.Actions.{
  ActionKind, switch, revive, RequestIdentity, BattleSubmission, RequestKind, move_request,
  forced_switch, revival, team_preview, wait, DecisionRequest,
}
use battle_belief.Reconciler.{range_from}
use battle_belief.Failures.{
  Failure, malformed_protocol_message, request_state_reconciliation_mismatch,
}
use battle_belief.Parser.{Parsed, malformed}
use battle_belief.RequestReader.JsonValues.{
  Json, int, Fields, find_key, get_key, require_rqid, require_object, optional_bool, map_parsed,
}
use battle_belief.RequestReader.Side.{
  RequestPokemon, pokemon_fainted, nickname_from_ident, parse_side, first_active,
}
use battle_belief.RequestReader.Active.{
  RequestMove, ActiveRequest, validate_active_shape, parse_force_switch, parse_active_request,
}
use battle_belief.RequestReader.Submissions.{
  construct, slot_arguments, team_arguments, move_arguments, default_submission, candidates,
  permutations,
}

-- What every request takes from its payload: its identity, the side's id, the members, the nickname
-- of the active one, and whether it is an update.
pub record Head : Type 0 where
  pub identity : RequestIdentity
  pub side_id : String
  pub members : List RequestPokemon
  pub active_identity : Option String
  pub update : Bool

abbrev pub request_of :
    Head → RequestKind → Option String → Bool → List BattleSubmission → DecisionRequest
request_of head kind active_identity is_update submissions = record {
  identity = head.identity;
  kind = kind;
  side_id = head.side_id;
  team_member_count = length head.members;
  active_identity = active_identity;
  safe_submissions = record { request_identity = head.identity; submissions = submissions };
  is_update = is_update;
}

-- `data.get("maxChosenTeamSize", team_size)`, a positive integer
unfoldable pub max_chosen_of : ℕ → Option Json → Parsed ℤ
max_chosen_of team_size none = ok (pos team_size)
max_chosen_of team_size (some (int n)) = do guard (leb_ℤ (pos 1) n) malformed_protocol_message; ok n
max_chosen_of team_size (some _) = malformed

-- `_read_team_preview`
unfoldable pub read_team_preview : Head → Fields → Parsed DecisionRequest
read_team_preview head payload = do
  let team_size = length head.members
  max_chosen ← max_chosen_of team_size (find_key payload "maxChosenTeamSize")
  guard (max_chosen == pos team_size) request_state_reconciliation_mismatch
  orders ←
      map_parsed (λ order. construct (team_arguments order))
        (permutations team_size (range_from 1 team_size))
  fallback ← default_submission
  ok (request_of head team_preview none false (orders ++ fallback ∷ []))

-- whether a member can be revived, and whether it can be switched to
abbrev pub can_revive : RequestPokemon → Bool
can_revive p = not p.active && pokemon_fainted p.condition

abbrev pub can_switch : RequestPokemon → Bool
can_switch p = not p.active && not (pokemon_fainted p.condition)

-- the submissions for the slots
unfoldable pub slot_submissions : ActionKind → List ℕ → Parsed (List BattleSubmission)
slot_submissions kind slots = map_parsed (λ slot. construct (slot_arguments kind slot)) slots

-- `_read_revival`
unfoldable pub read_revival : Head → Parsed DecisionRequest
unfolding slot_submissions
read_revival head = do
  revivals ← slot_submissions revive (candidates can_revive 1 head.members)
  fallback ← default_submission
  ok (request_of head revival head.active_identity head.update (revivals ++ fallback ∷ []))

-- `_read_forced_switch`
unfoldable pub read_forced_switch : Head → Parsed DecisionRequest
unfolding slot_submissions
read_forced_switch head = do
  switches ← slot_submissions switch (candidates can_switch 1 head.members)
  fallback ← default_submission
  ok (request_of head forced_switch head.active_identity head.update (switches ++ fallback ∷ []))

-- the submission that terastallizes, in a list, where it is possible
unfoldable pub tera_choices : Bool → ℕ → String → Parsed (List BattleSubmission)
tera_choices false slot move_id = ok []
tera_choices true slot move_id = do
  terastallized ← construct (move_arguments slot move_id true)
  ok (terastallized ∷ [])

-- the submissions of one move that is not disabled
unfoldable pub move_choices : Bool → ℕ → String → Parsed (List BattleSubmission)
unfolding tera_choices
move_choices can_tera slot move_id = do
  plain ← construct (move_arguments slot move_id false)
  more ← tera_choices can_tera slot move_id
  ok (plain ∷ more)

-- the loop over the moves, from a slot on
unfoldable pub move_submissions : Bool → ℕ → List RequestMove → Parsed (List BattleSubmission)
unfolding move_choices
move_submissions can_tera slot [] = ok []
move_submissions can_tera slot (m ∷ ms) = do
  choices ← if m.disabled then ok [] else move_choices can_tera slot m.move_id
  rest ← move_submissions can_tera (suc slot) ms
  ok (choices ++ rest)

-- the submissions of a normal request
unfoldable pub active_submissions :
    ActiveRequest → List RequestPokemon → Parsed (List BattleSubmission)
unfolding slot_submissions
active_submissions request members =
    if request.maybe_disabled || request.maybe_locked
    then (do fallback ← default_submission; ok (fallback ∷ []))
    else (do
      moves ← move_submissions (not (request.can_terastallize == "")) 1 request.moves
      switches ←
          slot_submissions switch (
            if request.trapped || request.maybe_trapped
            then []
            else candidates can_switch 1 members)
      fallback ← default_submission
      ok ((moves ++ switches) ++ fallback ∷ []))

-- `_read_normal_move`
unfoldable pub read_normal_move : Head → Fields → Parsed DecisionRequest
unfolding active_submissions
read_normal_move head payload = do
  request ← parse_active_request payload
  submissions ← active_submissions request head.members
  ok (request_of head move_request head.active_identity head.update submissions)

abbrev pub nickname_of : Option RequestPokemon → Parsed (Option String)
nickname_of none = ok none
nickname_of (some p) = do nickname ← nickname_from_ident p.ident; ok (some nickname)

abbrev pub is_reviving : Option RequestPokemon → Bool
is_reviving none = false
is_reviving (some p) = p.reviving

abbrev pub is_forced : Option Bool → Bool
is_forced none = false
is_forced (some forced) = forced

-- the order in which the kinds are told apart
unfoldable pub read_kind :
    Bool → Bool → Option RequestPokemon → Option Bool → Head → Fields → Parsed DecisionRequest
unfolding read_team_preview read_revival read_forced_switch read_normal_move
read_kind is_wait preview active_pv force_switch head payload =
    if is_wait
    then ok (request_of head wait none false [])
    else if preview
    then read_team_preview head payload
    else if is_reviving active_pv
    then read_revival head
    else if is_forced force_switch
    then read_forced_switch head
    else read_normal_move head payload

abbrev pub check_active : Option Json → Parsed Unit
check_active none = ok tt
check_active (some value) = validate_active_shape value >>= (λ _. ok tt)

-- `read_request` after `json.loads`; `digest` is `_canonical_digest`.
unfoldable pub read_payload : (Fields → String) → String → Fields → Parsed DecisionRequest
unfolding read_kind
read_payload digest room_id payload = do
  rqid ← require_rqid payload
  is_wait ← optional_bool payload "wait"
  preview ← optional_bool payload "teamPreview"
  update ← optional_bool payload "update"
  force_switch ← parse_force_switch payload
  check_active (find_key payload "active")
  (side_id, members) ← parse_side (get_key payload "side")
  let active_pv = first_active members
  active_identity ← nickname_of active_pv
  read_kind is_wait preview active_pv force_switch
      (record {
        identity = record {
          room_id = room_id;
          rqid = rqid;
          request_digest = "sha256:" <> digest payload;
        };
        side_id = side_id;
        members = members;
        active_identity = active_identity;
        update = update;
      })
      payload

-- what `json.loads` returned, or what it raised: a `JSONDecodeError`, or another exception, as for an
-- integer of too many digits
pub data Loaded : Type 0 where
  loaded : Json → Loaded
  decode_error : Loaded
  load_failed : Failure → Loaded

abbrev pub after_loads : (Fields → String) → String → Loaded → Parsed DecisionRequest
after_loads digest room_id decode_error = malformed
after_loads digest room_id (load_failed e) = err e
after_loads digest room_id (loaded data_value) =
    require_object data_value >>= read_payload digest room_id

-- `read_request`; `loads` is `json.loads`.
unfoldable pub read_request :
    (String → Loaded) → (Fields → String) → String → String → Parsed DecisionRequest
unfolding read_payload
read_request loads digest room_id payload = after_loads digest room_id (loads payload)
