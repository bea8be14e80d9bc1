-- ===== src/Reducer/Reduce.antt =====
-- reducer.py: `ObservationReducer.reduce`, one branch for each event class.
use battle_belief.Base.{
  ◌+◌, leb_ℤ, String, true, Option, none, some, List, [], ◌∷◌, ◌++◌, map, ok, err, ◌>>=◌, ◌==◌,
  string_eq, option_eq, contains, neg_ℤ, filter, not, is_none, if◌then◌else◌,
}
use battle_belief.Errors.{Core, reducer_invariant, index_must_increase}
use battle_belief.State.{ObservedState, PokemonView, side}
use battle_belief.Events
use battle_belief.Events.{
  MetadataEvent, ProgressEvent, PokemonEvent, FieldEvent, EventBody, BattleEvent, delta, set,
  battle_init, player_declared, team_size_declared, game_type_declared, generation_declared,
  tier_declared, battle_rated, rule_declared, preview_pokemon_declared, preview_cleared,
  team_preview_started, turn_started, battle_won, battle_tied, pokemon_switched, pokemon_dragged,
  pokemon_fainted, move_used, move_prevented, health_changed, status_changed, team_status_cured,
  boost_changed, boosts_swapped, boosts_copied, boosts_cleared, boosts_inverted, item_changed,
  ability_changed, identity_changed, form_changed, pokemon_transformed, terastallized,
  volatile_changed, recharge_changed, weather_changed, field_condition_changed,
  side_condition_changed, side_conditions_swapped, metadata, progress, pokemon, battlefield,
  evidence, ignored_display,
}
use battle_belief.Reducer.Lookup.{token_to_observation, update_side}
use battle_belief.Reducer.Conditions.{update_side_condition}
use battle_belief.Reducer.Handlers.{
  update_active, add_evidence, switch_in, faint, use_move, change_health, change_boost,
  clear_side_boosts, swap_active_boosts, copy_active_boosts, change_item, change_ability, identify,
  change_form, change_volatiles,
}

abbrev pub our_side_after : ObservedState → String → String → Option String
our_side_after state side_id user_id =
    if user_id == state.our_user_id
    then (if is_none state.our_side then some side_id else state.our_side)
    else state.our_side

unfoldable pub reduce_metadata : ObservedState → MetadataEvent → Core ObservedState
reduce_metadata state (battle_init room_id) = ok (record state { room_initialized = true })
reduce_metadata state (player_declared side_id user_id display_name) = do
  s ← side state side_id
  update_side (record state { our_side = our_side_after state side_id user_id })
      (record s { user_id = some user_id; display_name = some display_name })
reduce_metadata state (team_size_declared side_id size) = do
  s ← side state side_id
  update_side state (record s { team_size = some size })
reduce_metadata state (generation_declared generation) =
    ok (record state { generation = some generation })
reduce_metadata state (game_type_declared game_type) =
    ok (record state { game_type = some game_type })
reduce_metadata state (tier_declared tier) = ok (record state { tier = some tier })
reduce_metadata state (battle_rated rated) = ok (record state { rated = some rated })
reduce_metadata state (rule_declared rule) = ok (record state { rules = state.rules ++ rule ∷ [] })
reduce_metadata state (preview_pokemon_declared side_id details has_item) = do
  s ← side state side_id
  update_side state (record s {
    preview_roster = s.preview_roster ++ (record { details = details; has_item = has_item }) ∷ [];
  })
reduce_metadata state preview_cleared = ok (record state {
  p1 = record state.p1 { preview_roster = [] };
  p2 = record state.p2 { preview_roster = [] };
})
reduce_metadata state team_preview_started = ok (record state { team_preview_started = true })

unfoldable pub reduce_progress : ObservedState → ProgressEvent → Core ObservedState
reduce_progress state Events.battle_started = ok (record state { battle_started = true })
reduce_progress state (turn_started turn) = ok (record state { turn = turn })
reduce_progress state (battle_won winner) = ok (record state { winner = some winner })
reduce_progress state battle_tied = ok (record state { tied = true })

-- `() if move_id is None else (move_id,)`
abbrev pub one_or_none : Option String → List String
one_or_none none = []
one_or_none (some move_id) = move_id ∷ []

abbrev pub cure_status : PokemonView → PokemonView
cure_status pv = record pv { status = none }

unfoldable pub reduce_pokemon : ObservedState → PokemonEvent → Core ObservedState
reduce_pokemon state (pokemon_switched side_id slot nickname details hp) =
    switch_in state side_id nickname details hp
reduce_pokemon state (pokemon_dragged side_id slot nickname details hp) =
    switch_in state side_id nickname details hp
reduce_pokemon state (pokemon_fainted side_id slot nickname) =
    update_active state side_id nickname "faint" faint
reduce_pokemon state (move_used side_id slot nickname move_id _ _ _ annotations) =
    use_move state side_id slot nickname move_id annotations
reduce_pokemon state (move_prevented side_id slot nickname reason move_id) =
    ok (add_evidence state "move_prevented" side_id slot nickname reason (one_or_none move_id))
reduce_pokemon state (health_changed side_id slot nickname hp annotations) =
    change_health state side_id slot nickname hp
reduce_pokemon state (status_changed side_id slot nickname status annotations) =
    update_active state side_id nickname "status" (λ pv. ok (record pv { status = status }))
reduce_pokemon state (team_status_cured side_id) = do
  s ← side state side_id
  update_side state (record s { pokemon = map cure_status s.pokemon })
reduce_pokemon state (boost_changed side_id slot nickname stat mode amount) =
    update_active state side_id nickname "boost" (change_boost mode stat amount)
reduce_pokemon state (boosts_swapped side_id slot nickname target_side _ target stats) =
    swap_active_boosts state side_id nickname target_side target stats
reduce_pokemon state (boosts_copied side_id slot nickname source_side _ source stats) =
    copy_active_boosts state side_id nickname source_side source stats
reduce_pokemon state (boosts_cleared side_id slot nickname scope) =
    clear_side_boosts state side_id nickname scope
reduce_pokemon state (boosts_inverted side_id slot nickname) =
    update_active state side_id nickname "invert_boost"
      (λ pv. ok (record pv { boosts = map neg_ℤ pv.boosts }))
reduce_pokemon state (item_changed side_id slot nickname item action annotations) =
    update_active state side_id nickname "item"
      (λ pv. ok (change_item state.event_index action item pv))
reduce_pokemon state (ability_changed side_id slot nickname ability action annotations) =
    update_active state side_id nickname "ability"
      (λ pv. ok (change_ability state.event_index action ability pv))
reduce_pokemon state (identity_changed side_id slot nickname details hp) =
    identify state side_id nickname details hp
reduce_pokemon state (form_changed side_id slot nickname kind value hp) = do
  state' ← update_active state side_id nickname "form" (λ pv. do
    hp_obs ← token_to_observation hp side_id state.our_side
    ok (change_form kind value hp_obs hp pv))
  ok (add_evidence state' "form" side_id slot nickname value [])
reduce_pokemon state (pokemon_transformed side_id slot nickname _ _ target) = do
  state' ←
      update_active state side_id nickname "transform"
        (λ pv. ok (record pv { transform_target = some target }))
  ok (add_evidence state' "transform" side_id slot nickname target [])
reduce_pokemon state (terastallized side_id slot nickname tera_type) = do
  state' ←
      update_active state side_id nickname "tera"
        (λ pv. ok (record pv { tera_type = some tera_type }))
  ok (add_evidence state' "tera" side_id slot nickname tera_type [])
reduce_pokemon state (volatile_changed side_id slot nickname volatile action annotations) =
    change_volatiles state side_id nickname volatile action
reduce_pokemon state (recharge_changed side_id slot nickname recharging) =
    update_active state side_id nickname "recharge"
      (λ pv. ok (record pv { recharging = recharging }))

unfoldable pub reduce_field : ObservedState → FieldEvent → Core ObservedState
reduce_field state (weather_changed weather action) =
    ok (record state { weather = if action == "end" then none else weather })
reduce_field state (field_condition_changed condition action annotations) =
    if action == "start"
    then (if contains state.field_conditions condition
        then ok state
        else ok (record state { field_conditions = state.field_conditions ++ condition ∷ [] }))
    else if action == "end"
    then ok (record state {
      field_conditions = filter (λ c. not (c == condition)) state.field_conditions;
    })
    else ok state
reduce_field state (side_condition_changed side_id condition action) = do
  s ← side state side_id
  update_side state
      (record s { side_conditions = update_side_condition s.side_conditions condition action })
reduce_field state side_conditions_swapped = ok (record state {
  p1 = record state.p1 { side_conditions = state.p2.side_conditions };
  p2 = record state.p2 { side_conditions = state.p1.side_conditions };
})

unfoldable pub reduce_body : ObservedState → EventBody → Core ObservedState
reduce_body state (metadata e) = reduce_metadata state e
reduce_body state (progress e) = reduce_progress state e
reduce_body state (pokemon e) = reduce_pokemon state e
reduce_body state (battlefield e) = reduce_field state e
reduce_body state (evidence kind side_id slot nickname effect annotations) = ok (record state {
  visible_evidence =
      state.visible_evidence
      ++ (record {
        event_index = state.event_index;
        kind = kind;
        side_id = side_id;
        slot = slot;
        nickname = nickname;
        effect = effect;
        annotations = annotations;
      })
        ∷ [];
})
reduce_body state (ignored_display kind) =
    ok (record state { ignored_display_count = state.ignored_display_count + 1 })

unfoldable pub reduce : ObservedState → BattleEvent → Core ObservedState
reduce state event =
    if leb_ℤ event.event_index state.event_index
    then err (reducer_invariant index_must_increase)
    else reduce_body (record state { event_index = event.event_index }) event.body

-- A battle: the events of its lines in order; an event that raises ends it.
unfoldable pub reduce_all : ObservedState → List BattleEvent → Core ObservedState
reduce_all state [] = ok state
reduce_all state (event ∷ events) = do state' ← reduce state event; reduce_all state' events
