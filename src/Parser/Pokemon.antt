-- ===== src/Parser/Pokemon.antt =====
-- adapters/showdown_protocol/parser.py: the handler of the pokemon and their moves.
use battle_belief.Base.{
  ℕ, ℤ, String, ◌||◌, Option, none, some, List, [], ◌∷◌, drop, get_elem?, ok, err, ◌>>=◌, ◌>>◌,
  ◌==◌, string_eq, if◌then◌else◌,
}
use battle_belief.Events.{
  BattleEvent, pokemon_switched, pokemon_dragged, pokemon_fainted, move_used, move_prevented,
  identity_changed, form_changed, persistent_details, pokemon,
}
use battle_belief.Failures.{unknown_protocol_event}
use battle_belief.Parser.Words.{to_id}
use battle_belief.Parser.Idents.{
  Parsed, event_at, require, arg, parse_pokemon_ident, parse_active_ident, parse_hp_token,
  looks_like_pokemon_ident, sorted_annotations,
}

-- `_to_id(args[2]) if len(args) > 2 and args[2] else None`
abbrev pub id_unless_empty : Option String → Option String
id_unless_empty none = none
id_unless_empty (some text) = if text == "" then none else some (to_id text)

-- A pokemon that a line may name, `(side_id, slot, nickname)`, and the arguments after it.
pub record Target : Type 0 where
  pub side_id : Option String
  pub slot : Option ℕ
  pub nickname : Option String
  pub rest : List String

abbrev no_target : List String → Target
no_target rest = record { side_id = none; slot = none; nickname = none; rest = rest }

-- The pokemon that the first argument names, if it looks like one.
unfoldable pub parse_target : List String → Parsed Target
parse_target [] = ok (no_target [])
parse_target (first ∷ rest) =
    if looks_like_pokemon_ident first
    then (do
      (side_id, slot, nickname) ← parse_pokemon_ident first
      ok (record { side_id = some side_id; slot = slot; nickname = some nickname; rest = rest }))
    else ok (no_target (first ∷ rest))

-- the branch of `switch` and `drag`
unfoldable pub parse_switch : String → List String → ℤ → Parsed BattleEvent
parse_switch wire_type args ei = do
  require args 3
  ident ← arg args 0
  (side_id, slot, nickname) ← parse_active_ident ident
  details ← arg args 1
  hp_str ← arg args 2
  hp ← parse_hp_token hp_str
  ok (
      event_at ei (
        pokemon (
          if wire_type == "switch"
          then pokemon_switched side_id slot nickname details hp
          else pokemon_dragged side_id slot nickname details hp)))

-- the branches of `detailschange` and `replace`
unfoldable pub parse_details : String → List String → ℤ → Parsed BattleEvent
parse_details wire_type args ei = do
  require args 3
  ident ← arg args 0
  (side_id, slot, nickname) ← parse_active_ident ident
  hp_str ← arg args 2
  hp ← parse_hp_token hp_str
  details ← arg args 1
  ok (
      event_at ei (
        pokemon (
          if wire_type == "detailschange"
          then form_changed side_id slot nickname persistent_details details hp
          else identity_changed side_id slot nickname details hp)))

-- the branch of `move`
unfoldable pub parse_move : List String → ℤ → Parsed BattleEvent
unfolding parse_target
parse_move args ei = do
  require args 2
  ident ← arg args 0
  (side_id, slot, nickname) ← parse_active_ident ident
  move_name ← arg args 1
  target ← parse_target (drop 2 args)
  ok (
      event_at ei (
        pokemon (
          move_used side_id slot nickname (to_id move_name) target.side_id target.slot
            target.nickname (sorted_annotations target.rest))))

-- the branch of `faint`
unfoldable pub parse_faint : List String → ℤ → Parsed BattleEvent
parse_faint args ei = do
  require args 1
  ident ← arg args 0
  (side_id, slot, nickname) ← parse_active_ident ident
  ok (event_at ei (pokemon (pokemon_fainted side_id slot nickname)))

-- the branch of `cant`
unfoldable pub parse_cant : List String → ℤ → Parsed BattleEvent
parse_cant args ei = do
  require args 2
  ident ← arg args 0
  (side_id, slot, nickname) ← parse_active_ident ident
  reason ← arg args 1
  ok (
      event_at ei (
        pokemon (move_prevented side_id slot nickname reason (id_unless_empty (get_elem? args 2)))))

-- `_parse_pokemon_identity`
unfoldable pub parse_pokemon_identity : String → List String → ℤ → Parsed BattleEvent
unfolding parse_switch parse_details parse_move parse_faint parse_cant
parse_pokemon_identity wire_type args ei =
    if wire_type == "switch" || wire_type == "drag"
    then parse_switch wire_type args ei
    else if wire_type == "faint"
    then parse_faint args ei
    else if wire_type == "cant"
    then parse_cant args ei
    else if wire_type == "detailschange" || wire_type == "replace"
    then parse_details wire_type args ei
    else if wire_type == "move"
    then parse_move args ei
    else err unknown_protocol_event
