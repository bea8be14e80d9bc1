-- ===== src/Parser/Metadata.antt =====
-- adapters/showdown_protocol/parser.py: the handlers of the metadata, the preview, the progress,
-- the health and the status.
use battle_belief.Base.{
  ℤ, String, true, none, some, List, drop, get_elem?, ok, err, ◌>>=◌, ◌>>◌, ◌==◌, string_eq,
  option_eq, if◌then◌else◌,
}
use battle_belief.Events.{
  BattleEvent, player_declared, team_size_declared, game_type_declared, generation_declared,
  tier_declared, battle_rated, rule_declared, preview_pokemon_declared, preview_cleared,
  team_preview_started, battle_started, turn_started, battle_won, battle_tied, health_changed,
  status_changed, team_status_cured, metadata, progress, pokemon,
}
use battle_belief.Failures.{unknown_protocol_event}
use battle_belief.Parser.Words.{to_id, join_with}
use battle_belief.Parser.Idents.{
  Parsed, event_at, require, arg, parse_int, parse_pokemon_ident, parse_active_ident,
  parse_hp_token, sorted_annotations,
}

-- the branch of `player`
unfoldable pub parse_player : List String → ℤ → Parsed BattleEvent
parse_player args ei = do
  require args 2
  side_id ← arg args 0
  username ← arg args 1
  ok (event_at ei (metadata (player_declared side_id (to_id username) username)))

-- the branch of `teamsize`
unfoldable pub parse_team_size : List String → ℤ → Parsed BattleEvent
parse_team_size args ei = do
  require args 2
  size_text ← arg args 1
  size ← parse_int size_text
  side_id ← arg args 0
  ok (event_at ei (metadata (team_size_declared side_id size)))

-- the branch of `gametype`
unfoldable pub parse_game_type : List String → ℤ → Parsed BattleEvent
parse_game_type args ei = do
  require args 1
  game_type ← arg args 0
  ok (event_at ei (metadata (game_type_declared game_type)))

-- the branch of `gen`
unfoldable pub parse_generation : List String → ℤ → Parsed BattleEvent
parse_generation args ei = do
  require args 1
  generation_text ← arg args 0
  generation ← parse_int generation_text
  ok (event_at ei (metadata (generation_declared generation)))

-- the branch of `tier`
unfoldable pub parse_tier : List String → ℤ → Parsed BattleEvent
parse_tier args ei = do
  require args 1
  ok (event_at ei (metadata (tier_declared (join_with "|" args))))

-- the branch of `rule`
unfoldable pub parse_rule : List String → ℤ → Parsed BattleEvent
parse_rule args ei = do
  require args 1
  ok (event_at ei (metadata (rule_declared (join_with "|" args))))

-- `_parse_metadata`
unfoldable pub parse_metadata : String → List String → ℤ → Parsed BattleEvent
unfolding parse_player parse_team_size parse_game_type parse_generation parse_tier parse_rule
parse_metadata wire_type args ei =
    if wire_type == "player"
    then parse_player args ei
    else if wire_type == "teamsize"
    then parse_team_size args ei
    else if wire_type == "gametype"
    then parse_game_type args ei
    else if wire_type == "gen"
    then parse_generation args ei
    else if wire_type == "tier"
    then parse_tier args ei
    else if wire_type == "rated"
    then ok (event_at ei (metadata (battle_rated true)))
    else if wire_type == "rule"
    then parse_rule args ei
    else err unknown_protocol_event

-- the branch of `poke`
unfoldable pub parse_poke : List String → ℤ → Parsed BattleEvent
parse_poke args ei = do
  require args 2
  side_id ← arg args 0
  details ← arg args 1
  ok (
      event_at ei
        (metadata (preview_pokemon_declared side_id details (get_elem? args 2 == some "item"))))

-- `_parse_preview`
unfoldable pub parse_preview : String → List String → ℤ → Parsed BattleEvent
unfolding parse_poke
parse_preview wire_type args ei =
    if wire_type == "clearpoke"
    then ok (event_at ei (metadata preview_cleared))
    else if wire_type == "poke"
    then parse_poke args ei
    else if wire_type == "teampreview"
    then ok (event_at ei (metadata team_preview_started))
    else err unknown_protocol_event

-- the branch of `turn`
unfoldable pub parse_turn : List String → ℤ → Parsed BattleEvent
parse_turn args ei = do
  require args 1
  turn_text ← arg args 0
  turn ← parse_int turn_text
  ok (event_at ei (progress (turn_started turn)))

-- the branch of `win`
unfoldable pub parse_win : List String → ℤ → Parsed BattleEvent
parse_win args ei = do
  require args 1
  winner ← arg args 0
  ok (event_at ei (progress (battle_won winner)))

-- `_parse_progress`
unfoldable pub parse_progress : String → List String → ℤ → Parsed BattleEvent
unfolding parse_turn parse_win
parse_progress wire_type args ei =
    if wire_type == "start"
    then ok (event_at ei (progress battle_started))
    else if wire_type == "turn"
    then parse_turn args ei
    else if wire_type == "win"
    then parse_win args ei
    else if wire_type == "tie"
    then ok (event_at ei (progress battle_tied))
    else err unknown_protocol_event

-- `_parse_health`
unfoldable pub parse_health : String → List String → ℤ → Parsed BattleEvent
parse_health wire_type args ei = do
  require args 2
  ident ← arg args 0
  (side_id, slot, nickname) ← parse_pokemon_ident ident
  hp_str ← arg args 1
  hp ← parse_hp_token hp_str
  ok (
      event_at ei
        (pokemon (health_changed side_id slot nickname hp (sorted_annotations (drop 2 args)))))

-- the branch of `-cureteam`
unfoldable pub parse_cure_team : List String → ℤ → Parsed BattleEvent
parse_cure_team args ei = do
  require args 1
  ident ← arg args 0
  (side_id, slot, nickname) ← parse_pokemon_ident ident
  ok (event_at ei (pokemon (team_status_cured side_id)))

-- the branch of the other wire types
unfoldable pub parse_status_change : String → List String → ℤ → Parsed BattleEvent
parse_status_change wire_type args ei = do
  require args 1
  ident ← arg args 0
  (side_id, slot, nickname) ← parse_active_ident ident
  ok (
      event_at ei (
        pokemon (
          status_changed side_id slot nickname
            (if wire_type == "-curestatus" then none else get_elem? args 1)
            (sorted_annotations (drop 2 args)))))

-- `_parse_status`
unfoldable pub parse_status : String → List String → ℤ → Parsed BattleEvent
unfolding parse_cure_team parse_status_change
parse_status wire_type args ei =
    if wire_type == "-cureteam"
    then parse_cure_team args ei
    else parse_status_change wire_type args ei
