-- ===== src/Parser/Effects.antt =====
-- adapters/showdown_protocol/parser.py: the handlers of the field, the volatiles, the items and
-- abilities, the forms, and the evidence.
use battle_belief.Base.{
  ℤ, String, Bool, true, false, not, ◌||◌, Option, none, some, List, [], ◌∷◌, drop, get_elem?,
  contains, ok, err, ◌>>=◌, ◌>>◌, ◌==◌, nat_eq, string_eq, list_eq, if◌then◌else◌,
}
use battle_belief.Base.Text.{codes, lower_codes, starts_with}
use battle_belief.Events.{
  BattleEvent, weather_changed, field_condition_changed, side_condition_changed,
  side_conditions_swapped, recharge_changed, volatile_changed, item_changed, ability_changed,
  pokemon_transformed, form_changed, temporary_species, terastallized, pokemon, battlefield,
}
use battle_belief.Events
use battle_belief.Failures.{unknown_protocol_event}
use battle_belief.Parser.Words.{to_id}
use battle_belief.Parser.Idents.{
  Parsed, event_at, require, arg, parse_side_ident, parse_active_ident, parse_hp_token,
  sorted_annotations,
}
use battle_belief.Parser.Pokemon.{parse_target}

abbrev start_or_end : Bool → String
start_or_end starts = if starts then "start" else "end"

-- the branch of `-weather`
unfoldable pub parse_weather : List String → ℤ → Parsed BattleEvent
parse_weather args ei = do
  require args 1
  weather_name ← arg args 0
  ok (
      event_at ei (
        battlefield (
          if lower_codes (codes weather_name) == codes "none"
          then weather_changed none "end"
          else weather_changed (some weather_name)
              (if contains (drop 1 args) "[upkeep]" then "upkeep" else "start"))))

-- the branch of `-fieldstart` and `-fieldend`
unfoldable pub parse_field_condition : String → List String → ℤ → Parsed BattleEvent
parse_field_condition wire_type args ei = do
  require args 1
  condition ← arg args 0
  ok (
      event_at ei (
        battlefield (
          field_condition_changed condition (start_or_end (wire_type == "-fieldstart"))
            (sorted_annotations (drop 1 args)))))

-- the branch of `-sidestart` and `-sideend`
unfoldable pub parse_side_condition : String → List String → ℤ → Parsed BattleEvent
parse_side_condition wire_type args ei = do
  require args 2
  ident ← arg args 0
  side_id ← parse_side_ident ident
  condition ← arg args 1
  ok (
      event_at ei (
        battlefield
          (side_condition_changed side_id condition (start_or_end (wire_type == "-sidestart")))))

-- `_parse_field`
unfoldable pub parse_field : String → List String → ℤ → Parsed BattleEvent
unfolding parse_weather parse_field_condition parse_side_condition
parse_field wire_type args ei =
    if wire_type == "-weather"
    then parse_weather args ei
    else if wire_type == "-fieldstart" || wire_type == "-fieldend"
    then parse_field_condition wire_type args ei
    else if wire_type == "-sidestart" || wire_type == "-sideend"
    then parse_side_condition wire_type args ei
    else if wire_type == "-swapsideconditions"
    then ok (event_at ei (battlefield side_conditions_swapped))
    else err unknown_protocol_event

-- the branch of `-mustrecharge`
unfoldable pub parse_recharge : List String → ℤ → Parsed BattleEvent
parse_recharge args ei = do
  require args 1
  ident ← arg args 0
  (side_id, slot, nickname) ← parse_active_ident ident
  ok (event_at ei (pokemon (recharge_changed side_id slot nickname true)))

-- the branch of the other wire types
unfoldable pub parse_volatile_change : String → List String → ℤ → Parsed BattleEvent
parse_volatile_change wire_type args ei = do
  require args 2
  ident ← arg args 0
  (side_id, slot, nickname) ← parse_active_ident ident
  volatile ← arg args 1
  ok (
      event_at ei (
        pokemon (
          volatile_changed side_id slot nickname volatile (start_or_end (not (wire_type == "-end")))
            (sorted_annotations (drop 2 args)))))

-- `_parse_volatile`
unfoldable pub parse_volatile : String → List String → ℤ → Parsed BattleEvent
unfolding parse_recharge parse_volatile_change
parse_volatile wire_type args ei =
    if wire_type == "-mustrecharge"
    then parse_recharge args ei
    else parse_volatile_change wire_type args ei

-- `_to_id(rest[0]) if is_set and rest else None`
abbrev pub id_if_set : Bool → Option String → Option String
id_if_set false first = none
id_if_set true none = none
id_if_set true (some text) = some (to_id text)

abbrev set_or_end : Bool → String
set_or_end is_set = if is_set then "set" else "end"

-- `_parse_item_ability`
unfoldable pub parse_item_ability : String → List String → ℤ → Parsed BattleEvent
parse_item_ability wire_type args ei = do
  require args 1
  ident ← arg args 0
  (side_id, slot, nickname) ← parse_active_ident ident
  let is_set = wire_type == "-item" || wire_type == "-ability"
  let value = id_if_set is_set (get_elem? args 1)
  let annotations = sorted_annotations (if is_set then drop 2 args else drop 1 args)
  ok (
      event_at ei (
        pokemon (
          if wire_type == "-item" || wire_type == "-enditem"
          then item_changed side_id slot nickname value (set_or_end is_set) annotations
          else ability_changed side_id slot nickname value (set_or_end is_set) annotations)))

-- the branch of `-transform`
unfoldable pub parse_transform : List String → ℤ → Parsed BattleEvent
parse_transform args ei = do
  require args 2
  ident ← arg args 0
  (side_id, slot, nickname) ← parse_active_ident ident
  target ← arg args 1
  (target_side_id, target_slot, target_nickname) ← parse_active_ident target
  ok (
      event_at ei (
        pokemon
          (pokemon_transformed side_id slot nickname target_side_id target_slot target_nickname)))

-- the branch of `-formechange`
unfoldable pub parse_forme_change : List String → ℤ → Parsed BattleEvent
parse_forme_change args ei = do
  require args 3
  ident ← arg args 0
  (side_id, slot, nickname) ← parse_active_ident ident
  hp_str ← arg args 2
  hp ← parse_hp_token hp_str
  species ← arg args 1
  ok (event_at ei (pokemon (form_changed side_id slot nickname temporary_species species hp)))

-- the branch of `-terastallize`
unfoldable pub parse_terastallize : List String → ℤ → Parsed BattleEvent
parse_terastallize args ei = do
  require args 2
  ident ← arg args 0
  (side_id, slot, nickname) ← parse_active_ident ident
  tera_type ← arg args 1
  ok (event_at ei (pokemon (Events.terastallized side_id slot nickname tera_type)))

-- `_parse_form_tera`
unfoldable pub parse_form_tera : String → List String → ℤ → Parsed BattleEvent
unfolding parse_transform parse_forme_change parse_terastallize
parse_form_tera wire_type args ei =
    if wire_type == "-transform"
    then parse_transform args ei
    else if wire_type == "-formechange"
    then parse_forme_change args ei
    else if wire_type == "-terastallize"
    then parse_terastallize args ei
    else err unknown_protocol_event

-- the effect and what comes after it
abbrev pub effect_and_rest : List String → Option String × List String
effect_and_rest [] = (none, [])
effect_and_rest (first ∷ rest) =
    if starts_with first "[" then (none, first ∷ rest) else (some first, rest)

-- `wire_type[1:]`
abbrev without_first : String → String
without_first String.[] = ""
without_first (String.◌∷◌ c s) = s

-- `_parse_evidence`
unfoldable pub parse_evidence : String → List String → ℤ → Parsed BattleEvent
parse_evidence wire_type args ei = do
  target ← parse_target args
  let (effect, annotations) = effect_and_rest target.rest
  ok (
      event_at ei (
        Events.evidence (without_first wire_type) target.side_id target.slot target.nickname effect
          (sorted_annotations annotations)))
