-- ===== src/Reducer/Grows.antt =====
-- reducer.py: the branches of `reduce` and what was known before an event.
use battle_belief.Base.{
  String, Option, none, some, [], ◌∷◌, ◌==◌, string_eq, option_eq, contains, is_none, if◌then◌else◌,
}
use battle_belief.State.{ObservedState, side}
use battle_belief.Events
use battle_belief.Events.{
  MetadataEvent, ProgressEvent, PokemonEvent, FieldEvent, EventBody, BattleEvent, delta, set,
  battle_init, player_declared, team_size_declared, game_type_declared, generation_declared,
  tier_declared, battle_rated, rule_declared, preview_pokemon_declared, preview_cleared,
  team_preview_started, turn_started, battle_won, battle_tied, pokemon_switched, pokemon_dragged,
  pokemon_fainted, move_used, move_prevented, health_changed, status_changed, team_status_cured,
  boost_changed, boosts_swapped, boosts_copied, boosts_cleared, boosts_inverted, item_changed,
  ability_changed, identity_changed, form_changed, pokemon_transformed, terastallized,
  volatile_changed, recharge_changed, weather_changed, field_condition_changed,
  side_condition_changed, side_conditions_swapped, metadata, progress, pokemon, battlefield,
  evidence, ignored_display,
}
use battle_belief.Reducer.Lookup.{update_side}
use battle_belief.Reducer.Handlers.{update_active}
use mathlib.Core.List.{append-nil}
use battle_belief.Base.{◌≡◌, refl, sym, Ensures, Ensures-bind, Ensures-weaken, if_intro}
use battle_belief.Reducer.Reduce.{
  our_side_after, one_or_none, reduce_metadata, reduce_progress, reduce_pokemon, reduce_field,
  reduce_body,
}
use battle_belief.Reducer.History.{
  StaysKnown, Extends, same-Extends, Extends-trans, update_side-Extends, add_evidence-Extends,
  Ensures-evidence, StaysKnown-refl,
}
use battle_belief.Reducer.Handled.{
  update_active-Extends, switch_in-Extends, use_move-Extends, change_health-Extends,
  swap_active_boosts-Extends, copy_active_boosts-Extends, clear_side_boosts-Extends,
  identify-Extends, change_volatiles-Extends,
}

-- Our side is set once.
our_side_after-StaysKnown :
    (state : ObservedState) (side_id user_id : String)
    → StaysKnown state.our_side (our_side_after state side_id user_id)
our_side_after-StaysKnown state side_id user_id =
    if_intro (StaysKnown state.our_side) (user_id == state.our_user_id)
      (first_side state.our_side side_id) (StaysKnown-refl state.our_side)
  where
    first_side :
        (known : Option String) (new : String)
        → StaysKnown known (if is_none known then some new else known)
    first_side none new = tt
    first_side (some side_id) new = refl

module _ (state : ObservedState) where
  unrelated :
      (after : ObservedState)
      → after.event_index ≡ state.event_index
      → after.our_user_id ≡ state.our_user_id
      → after.our_side ≡ state.our_side
      → after.visible_evidence ≡ state.visible_evidence
      → Extends state after
  unrelated after = same-Extends state after

  reduce_metadata-Extends : (e : MetadataEvent) → Ensures (Extends state) (reduce_metadata state e)
  unfolding reduce_metadata
  reduce_metadata-Extends (battle_init room_id) = unrelated _ refl refl refl refl
  reduce_metadata-Extends (player_declared side_id user_id display_name) =
      Ensures-bind (Extends state) (side state side_id) _ λ s _.
        let state' : ObservedState = record state {
          our_side = our_side_after state side_id user_id;
        } in
        let declared : Extends state state' = record {
          index = refl;
          user = refl;
          our_side = our_side_after-StaysKnown state side_id user_id;
          evidence = ([], sym (append-nil state.visible_evidence), tt);
        } in
        Ensures-weaken (Extends state') (Extends state)
          (λ after h. Extends-trans state state' after declared h) (update_side state' _)
          (update_side-Extends state' _)
  reduce_metadata-Extends (team_size_declared side_id size) =
      Ensures-bind (Extends state) (side state side_id) _ λ s _. update_side-Extends state _
  reduce_metadata-Extends (generation_declared generation) = unrelated _ refl refl refl refl
  reduce_metadata-Extends (game_type_declared game_type) = unrelated _ refl refl refl refl
  reduce_metadata-Extends (tier_declared tier) = unrelated _ refl refl refl refl
  reduce_metadata-Extends (battle_rated rated) = unrelated _ refl refl refl refl
  reduce_metadata-Extends (rule_declared rule) = unrelated _ refl refl refl refl
  reduce_metadata-Extends (preview_pokemon_declared side_id details has_item) =
      Ensures-bind (Extends state) (side state side_id) _ λ s _. update_side-Extends state _
  reduce_metadata-Extends preview_cleared = unrelated _ refl refl refl refl
  reduce_metadata-Extends team_preview_started = unrelated _ refl refl refl refl

  reduce_progress-Extends : (e : ProgressEvent) → Ensures (Extends state) (reduce_progress state e)
  unfolding reduce_progress
  reduce_progress-Extends Events.battle_started = unrelated _ refl refl refl refl
  reduce_progress-Extends (turn_started turn) = unrelated _ refl refl refl refl
  reduce_progress-Extends (battle_won winner) = unrelated _ refl refl refl refl
  reduce_progress-Extends battle_tied = unrelated _ refl refl refl refl

  reduce_pokemon-Extends : (e : PokemonEvent) → Ensures (Extends state) (reduce_pokemon state e)
  unfolding reduce_pokemon
  reduce_pokemon-Extends (pokemon_switched side_id slot nickname details hp) =
      switch_in-Extends state side_id nickname details hp
  reduce_pokemon-Extends (pokemon_dragged side_id slot nickname details hp) =
      switch_in-Extends state side_id nickname details hp
  reduce_pokemon-Extends (pokemon_fainted side_id slot nickname) =
      update_active-Extends state side_id nickname "faint" _
  reduce_pokemon-Extends (move_used side_id slot nickname move_id _ _ _ annotations) =
      use_move-Extends state side_id slot nickname move_id annotations
  reduce_pokemon-Extends (move_prevented side_id slot nickname reason move_id) =
      add_evidence-Extends state "move_prevented" side_id slot nickname reason (one_or_none move_id)
  reduce_pokemon-Extends (health_changed side_id slot nickname hp annotations) =
      change_health-Extends state side_id slot nickname hp
  reduce_pokemon-Extends (status_changed side_id slot nickname status annotations) =
      update_active-Extends state side_id nickname "status" _
  reduce_pokemon-Extends (team_status_cured side_id) =
      Ensures-bind (Extends state) (side state side_id) _ λ s _. update_side-Extends state _
  reduce_pokemon-Extends (boost_changed side_id slot nickname stat mode amount) =
      update_active-Extends state side_id nickname "boost" _
  reduce_pokemon-Extends (boosts_swapped side_id slot nickname target_side _ target stats) =
      swap_active_boosts-Extends state side_id nickname target_side target stats
  reduce_pokemon-Extends (boosts_copied side_id slot nickname source_side _ source stats) =
      copy_active_boosts-Extends state side_id nickname source_side source stats
  reduce_pokemon-Extends (boosts_cleared side_id slot nickname scope) =
      clear_side_boosts-Extends state side_id nickname scope
  reduce_pokemon-Extends (boosts_inverted side_id slot nickname) =
      update_active-Extends state side_id nickname "invert_boost" _
  reduce_pokemon-Extends (item_changed side_id slot nickname item action annotations) =
      update_active-Extends state side_id nickname "item" _
  reduce_pokemon-Extends (ability_changed side_id slot nickname ability action annotations) =
      update_active-Extends state side_id nickname "ability" _
  reduce_pokemon-Extends (identity_changed side_id slot nickname details hp) =
      identify-Extends state side_id nickname details hp
  reduce_pokemon-Extends (form_changed side_id slot nickname kind value hp) =
      Ensures-evidence state (update_active state side_id nickname "form" _) "form" side_id slot
        nickname value [] (update_active-Extends state side_id nickname "form" _)
  reduce_pokemon-Extends (pokemon_transformed side_id slot nickname _ _ target) =
      Ensures-evidence state (update_active state side_id nickname "transform" _) "transform"
        side_id slot nickname target [] (update_active-Extends state side_id nickname "transform" _)
  reduce_pokemon-Extends (terastallized side_id slot nickname tera_type) =
      Ensures-evidence state (update_active state side_id nickname "tera" _) "tera" side_id slot
        nickname tera_type [] (update_active-Extends state side_id nickname "tera" _)
  reduce_pokemon-Extends (volatile_changed side_id slot nickname volatile action annotations) =
      change_volatiles-Extends state side_id nickname volatile action
  reduce_pokemon-Extends (recharge_changed side_id slot nickname recharging) =
      update_active-Extends state side_id nickname "recharge" _

  reduce_field-Extends : (e : FieldEvent) → Ensures (Extends state) (reduce_field state e)
  unfolding reduce_field
  reduce_field-Extends (weather_changed weather action) = unrelated _ refl refl refl refl
  reduce_field-Extends (field_condition_changed condition action annotations) =
      if_intro (Ensures (Extends state)) (action == "start")
        (if_intro (Ensures (Extends state)) (contains state.field_conditions condition)
          (unrelated state refl refl refl refl) (unrelated _ refl refl refl refl))
        (if_intro (Ensures (Extends state)) (action == "end") (unrelated _ refl refl refl refl)
          (unrelated state refl refl refl refl))
  reduce_field-Extends (side_condition_changed side_id condition action) =
      Ensures-bind (Extends state) (side state side_id) _ λ s _. update_side-Extends state _
  reduce_field-Extends side_conditions_swapped = unrelated _ refl refl refl refl

  pub reduce_body-Extends : (e : EventBody) → Ensures (Extends state) (reduce_body state e)
  unfolding reduce_body
  reduce_body-Extends (metadata e) = reduce_metadata-Extends e
  reduce_body-Extends (progress e) = reduce_progress-Extends e
  reduce_body-Extends (pokemon e) = reduce_pokemon-Extends e
  reduce_body-Extends (battlefield e) = reduce_field-Extends e
  reduce_body-Extends (evidence _ _ _ _ _ _) = record {
    index = refl;
    user = refl;
    our_side = StaysKnown-refl state.our_side;
    evidence = (_ ∷ [], refl, (refl, tt));
  }
  reduce_body-Extends (ignored_display kind) = unrelated _ refl refl refl refl
