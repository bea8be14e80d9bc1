-- ===== src/Reducer/Kinds.antt =====
-- reducer.py: the branches of `reduce` and the validity of a state.
use battle_belief.Base.{
  ℕ, String, [], map, ◌≡◌, refl, ok, ◌>>=◌, ◌==◌, string_eq, All-map, Ensures, Ensures-bind,
  Ensures-ok, if_intro, contains,
}
use battle_belief.Events.{
  MetadataEvent, ProgressEvent, PokemonEvent, FieldEvent, EventBody, player_declared,
  team_size_declared, preview_pokemon_declared, turn_started, pokemon_switched, pokemon_dragged,
  pokemon_fainted, move_used, move_prevented, health_changed, status_changed, team_status_cured,
  boost_changed, boosts_swapped, boosts_copied, boosts_cleared, boosts_inverted, item_changed,
  ability_changed, identity_changed, form_changed, pokemon_transformed, terastallized,
  volatile_changed, recharge_changed, weather_changed, field_condition_changed,
  side_condition_changed, side_conditions_swapped, metadata, progress, pokemon, battlefield,
  evidence, ignored_display, FormChangeKind,
}
use battle_belief.Errors.{Core}
use battle_belief.State.{HpToken, PokemonView, SideView, ObservedState, side}
use battle_belief.Reducer.Lookup.{token_to_observation, update_side}
use battle_belief.Reducer.Handlers.{change_form, add_evidence}
use battle_belief.Reducer.Reduce.{
  our_side_after, cure_status, one_or_none, reduce_metadata, reduce_progress, reduce_pokemon,
  reduce_field, reduce_body,
}
use battle_belief.Reducer.Valid.{IsValidView, IsValidSide, IsValidState}
use battle_belief.Reducer.Values.{token-IsValidHp}
use battle_belief.Reducer.Views.{
  Keeps, Kept, same_facts-Keeps, faint-Kept, change_boost-Kept, inverted-Keeps, change_item-Keeps,
  change_ability-Keeps, change_form-Keeps,
}
use battle_belief.Reducer.Sides.{update_side-IsValidState}
use battle_belief.Reducer.Layers.{update_side_condition-AreLayered}
use battle_belief.Reducer.Invariant.{
  add_evidence-IsValidState, on_side-IsValidState, update_active-IsValidState,
  use_move-IsValidState, change_volatiles-IsValidState, change_health-IsValidState,
  identify-IsValidState,
}
use battle_belief.Reducer.Pairs.{
  switch_in-IsValidState, clear_side_boosts-IsValidState, copy_active_boosts-IsValidState,
  swap_active_boosts-IsValidState,
}
use battle_belief.Reducer.Facts.{
  team, same_team-IsValidSide, facts, same_facts-IsValidState, active_count-cured,
}

module _ (state : ObservedState) (v : IsValidState state) where
  -- a side rewritten outside its pokemon and its conditions
  with_side-IsValidState :
      (side_id : String) (change : SideView → SideView)
      → ((s : SideView) → team (change s) ≡ team s)
      → Ensures IsValidState (side state side_id >>= λ s. update_side state (change s))
  with_side-IsValidState side_id change same = on_side-IsValidState state v side_id _ λ s vs.
      update_side-IsValidState state (change s) v (same_team-IsValidSide s (change s) vs (same s))

  unrelated : (state' : ObservedState) → facts state' ≡ facts state → IsValidState state'
  unrelated state' = same_facts-IsValidState state state' v

  reduce_metadata-IsValidState :
      (e : MetadataEvent) → Ensures IsValidState (reduce_metadata state e)
  unfolding reduce_metadata
  reduce_metadata-IsValidState (player_declared side_id user_id display_name) =
      on_side-IsValidState state v side_id _ λ s vs.
        update_side-IsValidState (record state { our_side = our_side_after state side_id user_id })
          _ (unrelated _ refl) (same_team-IsValidSide s _ vs refl)
  reduce_metadata-IsValidState (team_size_declared side_id size) =
      with_side-IsValidState side_id _ (λ s. refl)
  reduce_metadata-IsValidState (preview_pokemon_declared side_id details has_item) =
      with_side-IsValidState side_id _ (λ s. refl)
  reduce_metadata-IsValidState _ = unrelated _ refl

  reduce_progress-IsValidState :
      (e : ProgressEvent) → Ensures IsValidState (reduce_progress state e)
  unfolding reduce_progress
  reduce_progress-IsValidState (turn_started turn) = unrelated _ refl
  reduce_progress-IsValidState _ = unrelated _ refl

  reduce_field-IsValidState : (e : FieldEvent) → Ensures IsValidState (reduce_field state e)
  unfolding reduce_field
  reduce_field-IsValidState (weather_changed weather action) = unrelated _ refl
  reduce_field-IsValidState (field_condition_changed condition action annotations) =
      if_intro (Ensures IsValidState) (action == "start")
        (if_intro (Ensures IsValidState) (contains state.field_conditions condition) v
          (unrelated _ refl))
        (if_intro (Ensures IsValidState) (action == "end") (unrelated _ refl) v)
  reduce_field-IsValidState (side_condition_changed side_id condition action) =
      on_side-IsValidState state v side_id _ λ s vs. update_side-IsValidState state _ v (record {
        views = vs.views;
        one_active = vs.one_active;
        layers = update_side_condition-AreLayered s.side_conditions condition action vs.layers;
      })
  reduce_field-IsValidState side_conditions_swapped = record {
    started = v.started;
    p1_id = v.p1_id;
    p2_id = v.p2_id;
    p1_side = record {
      views = v.p1_side.views;
      one_active = v.p1_side.one_active;
      layers = v.p2_side.layers;
    };
    p2_side = record {
      views = v.p2_side.views;
      one_active = v.p2_side.one_active;
      layers = v.p1_side.layers;
    };
  }

  cured-IsValidSide :
      (s : SideView)
      → IsValidSide state.event_index s
      → IsValidSide state.event_index (record s { pokemon = map cure_status s.pokemon })
  cured-IsValidSide s vs = record {
    views =
        All-map (IsValidView state.event_index) (IsValidView state.event_index) cure_status
          (λ pv vp. (same_facts-Keeps pv (cure_status pv) vp refl).valid) s.pokemon vs.views;
    one_active = rw (active_count-cured s.pokemon) vs.one_active;
    layers = vs.layers;
  }

  form_changed-Kept :
      (side_id : String) (kind : FormChangeKind) (value : String) (hp : HpToken) (pv : PokemonView)
      → IsValidView state.event_index pv
      → Kept state.event_index pv (
          token_to_observation hp side_id state.our_side >>= λ hp_obs.
          ok (change_form kind value hp_obs hp pv))
  form_changed-Kept side_id kind value hp pv vp =
      Ensures-bind (Keeps state.event_index pv) (token_to_observation hp side_id state.our_side) _
        λ obs seen.
          change_form-Keeps state.event_index pv vp kind value obs hp
            (token-IsValidHp hp side_id state.our_side obs seen)

  -- a change of the active pokemon, and evidence of it
  with_evidence-IsValidState :
      (m : Core ObservedState) (kind side_id : String) (slot : ℕ) (nickname effect : String)
      → Ensures IsValidState m
      → Ensures IsValidState
          (m >>= λ state'. ok (add_evidence state' kind side_id slot nickname effect []))
  with_evidence-IsValidState m kind side_id slot nickname effect h =
      Ensures-bind IsValidState m _ λ state' e.
        add_evidence-IsValidState state' kind side_id slot nickname effect []
          (Ensures-ok IsValidState m state' e h)

  reduce_pokemon-IsValidState : (e : PokemonEvent) → Ensures IsValidState (reduce_pokemon state e)
  unfolding reduce_pokemon
  reduce_pokemon-IsValidState (pokemon_switched side_id slot nickname details hp) =
      switch_in-IsValidState state v side_id nickname details hp
  reduce_pokemon-IsValidState (pokemon_dragged side_id slot nickname details hp) =
      switch_in-IsValidState state v side_id nickname details hp
  reduce_pokemon-IsValidState (pokemon_fainted side_id slot nickname) =
      update_active-IsValidState state v side_id nickname "faint" _
        (λ pv vp. faint-Kept state.event_index pv vp)
  reduce_pokemon-IsValidState (move_used side_id slot nickname move_id _ _ _ annotations) =
      use_move-IsValidState state v side_id slot nickname move_id annotations
  reduce_pokemon-IsValidState (move_prevented side_id slot nickname reason move_id) =
      add_evidence-IsValidState state "move_prevented" side_id slot nickname reason
        (one_or_none move_id) v
  reduce_pokemon-IsValidState (health_changed side_id slot nickname hp annotations) =
      change_health-IsValidState state v side_id slot nickname hp
  reduce_pokemon-IsValidState (status_changed side_id slot nickname status annotations) =
      update_active-IsValidState state v side_id nickname "status" _
        (λ pv vp. same_facts-Keeps pv _ vp refl)
  reduce_pokemon-IsValidState (team_status_cured side_id) =
      on_side-IsValidState state v side_id _
        λ s vs. update_side-IsValidState state _ v (cured-IsValidSide s vs)
  reduce_pokemon-IsValidState (boost_changed side_id slot nickname stat mode amount) =
      update_active-IsValidState state v side_id nickname "boost" _
        (λ pv vp. change_boost-Kept state.event_index pv vp mode stat amount)
  reduce_pokemon-IsValidState (boosts_swapped side_id slot nickname target_side _ target stats) =
      swap_active_boosts-IsValidState state v side_id nickname target_side target stats
  reduce_pokemon-IsValidState (boosts_copied side_id slot nickname source_side _ source stats) =
      copy_active_boosts-IsValidState state v side_id nickname source_side source stats
  reduce_pokemon-IsValidState (boosts_cleared side_id slot nickname scope) =
      clear_side_boosts-IsValidState state v side_id nickname scope
  reduce_pokemon-IsValidState (boosts_inverted side_id slot nickname) =
      update_active-IsValidState state v side_id nickname "invert_boost" _
        (λ pv vp. inverted-Keeps state.event_index pv vp)
  reduce_pokemon-IsValidState (item_changed side_id slot nickname item action annotations) =
      update_active-IsValidState state v side_id nickname "item" _
        (λ pv vp. change_item-Keeps state.event_index pv vp action item)
  reduce_pokemon-IsValidState (ability_changed side_id slot nickname ability action annotations) =
      update_active-IsValidState state v side_id nickname "ability" _
        (λ pv vp. change_ability-Keeps state.event_index pv vp action ability)
  reduce_pokemon-IsValidState (identity_changed side_id slot nickname details hp) =
      identify-IsValidState state v side_id nickname details hp
  reduce_pokemon-IsValidState (form_changed side_id slot nickname kind value hp) =
      with_evidence-IsValidState _ "form" side_id slot nickname value (
        update_active-IsValidState state v side_id nickname "form" _
          (form_changed-Kept side_id kind value hp))
  reduce_pokemon-IsValidState (pokemon_transformed side_id slot nickname _ _ target) =
      with_evidence-IsValidState _ "transform" side_id slot nickname target (
        update_active-IsValidState state v side_id nickname "transform" _
          (λ pv vp. same_facts-Keeps pv _ vp refl))
  reduce_pokemon-IsValidState (terastallized side_id slot nickname tera_type) =
      with_evidence-IsValidState _ "tera" side_id slot nickname tera_type (
        update_active-IsValidState state v side_id nickname "tera" _
          (λ pv vp. same_facts-Keeps pv _ vp refl))
  reduce_pokemon-IsValidState (volatile_changed side_id slot nickname volatile action annotations) =
      change_volatiles-IsValidState state v side_id nickname volatile action
  reduce_pokemon-IsValidState (recharge_changed side_id slot nickname recharging) =
      update_active-IsValidState state v side_id nickname "recharge" _
        (λ pv vp. same_facts-Keeps pv _ vp refl)

  pub reduce_body-IsValidState : (e : EventBody) → Ensures IsValidState (reduce_body state e)
  unfolding reduce_body
  reduce_body-IsValidState (metadata e) = reduce_metadata-IsValidState e
  reduce_body-IsValidState (progress e) = reduce_progress-IsValidState e
  reduce_body-IsValidState (pokemon e) = reduce_pokemon-IsValidState e
  reduce_body-IsValidState (battlefield e) = reduce_field-IsValidState e
  reduce_body-IsValidState (evidence _ _ _ _ _ _) = unrelated _ refl
  reduce_body-IsValidState (ignored_display kind) = unrelated _ refl
