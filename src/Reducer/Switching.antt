-- ===== src/Reducer/Switching.antt =====
-- reducer.py: `_activate_pokemon`.
use battle_belief.Base.{
  ℤ, String, true, false, Option, none, some, List, [], ◌∷◌, ◌++◌, map, if◌then◌else◌, set,
}
use battle_belief.State.{HpObservation, PokemonView, SideView, zero_boosts, new_pokemon_view}
use battle_belief.Reducer.Lookup.{Entry, find_for_switch_in}
use battle_belief.Reducer.Conditions.{end_ability_suppression_on_switch_out}

-- what a pokemon keeps when it leaves the field
unfoldable pub deactivate : ℤ → PokemonView → PokemonView
deactivate event_index pv =
    if pv.active
    then record pv {
      active = false;
      boosts = zero_boosts;
      volatiles = [];
      recharging = false;
      transform_target = none;
      ability_intervals = end_ability_suppression_on_switch_out pv.ability_intervals event_index;
    }
    else pv

unfoldable pub activate_new :
    SideView → String → String → HpObservation → Option String → PokemonView
activate_new side nickname details hp status =
    let fresh = new_pokemon_view side.side_id nickname (some details) in
    record fresh { active = true; hp = some hp; status = status; current_details = some details }

unfoldable pub activate_existing :
    PokemonView → String → HpObservation → Option String → PokemonView
activate_existing existing details hp status = record existing {
  active = true;
  hp = some hp;
  status = status;
  fainted = false;
  current_details = some details;
  boosts = zero_boosts;
  volatiles = [];
  recharging = false;
  transform_target = none;
}

-- the two ends of `_activate_pokemon`, on the deactivated team
abbrev pub put_on_field :
    SideView
    → String
    → String
    → HpObservation
    → Option String
    → List PokemonView
    → Option Entry
    → SideView
put_on_field side nickname details hp status deactivated none = record side {
  pokemon = deactivated ++ activate_new side nickname details hp status ∷ [];
  active_slot = some 1;
}
put_on_field side nickname details hp status deactivated (some (i, existing)) = record side {
  pokemon = set deactivated i (activate_existing existing details hp status);
  active_slot = some 1;
}

unfoldable pub activate_pokemon :
    SideView → String → String → HpObservation → Option String → ℤ → SideView
activate_pokemon side nickname details hp status event_index =
    let deactivated = map (deactivate event_index) side.pokemon in
    put_on_field side nickname details hp status deactivated
      (find_for_switch_in deactivated nickname details)
