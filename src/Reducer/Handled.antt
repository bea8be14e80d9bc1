-- ===== src/Reducer/Handled.antt =====
-- reducer.py: the handlers and what was known before an event.
use battle_belief.Base.{String, Option, none, some, List, ◌==◌, string_eq, option_eq, contains}
use battle_belief.Errors.{Core}
use battle_belief.State.{ObservedState, PokemonView, side}
use battle_belief.Reducer.Lookup.{token_to_observation, update_side}
use battle_belief.Reducer.Handlers.{
  update_active, switch_in, use_move, change_health, clear_side_boosts, swap_active_boosts,
  copy_active_boosts, identify, change_volatiles,
}
use battle_belief.Base.{ℕ, refl, Ensures, Ensures-bind, Ensures-ok, Ensures-weaken, if_intro}
use battle_belief.State.{SideView, HpToken}
use battle_belief.Reducer.Lookup.{
  Entry, find_active, require_active, require_health_target, replace_pokemon,
}
use battle_belief.Reducer.Boosts.{swap_boosts, copy_boosts}
use battle_belief.Reducer.Handlers.{
  record_move, identify_found, clear_all_boosts, clear_found, clear_pokemon_boosts,
}
use battle_belief.Reducer.History.{
  Extends, same-Extends, Extends-trans, update_side-Extends, Ensures-evidence,
}

module _ (state : ObservedState) where
  pub update_active-Extends :
      (side_id nickname context : String) (change : PokemonView → Core PokemonView)
      → Ensures (Extends state) (update_active state side_id nickname context change)
  unfolding update_active
  update_active-Extends side_id nickname context change =
      Ensures-bind (Extends state) (side state side_id) _ λ s _.
        Ensures-bind (Extends state) (require_active s nickname context) _ λ (i, pv) _.
          Ensures-bind (Extends state) (change pv) _
            λ updated _. update_side-Extends state (replace_pokemon s (i, pv) updated)

  pub switch_in-Extends :
      (side_id nickname details : String) (hp : HpToken)
      → Ensures (Extends state) (switch_in state side_id nickname details hp)
  unfolding switch_in
  switch_in-Extends side_id nickname details hp =
      Ensures-bind (Extends state) (token_to_observation hp side_id state.our_side) _ λ hp_obs _.
        Ensures-bind (Extends state) (side state side_id) _ λ s _. update_side-Extends state _

  pub use_move-Extends :
      (side_id : String) (slot : ℕ) (nickname move_id : String) (annotations : List String)
      → Ensures (Extends state) (use_move state side_id slot nickname move_id annotations)
  unfolding use_move record_move
  use_move-Extends side_id slot nickname move_id annotations =
      Ensures-bind (Extends state) (side state side_id) _ λ s _.
        Ensures-bind (Extends state) (require_active s nickname "move") _ λ (i, pv) _.
          Ensures-evidence state (record_move state s (i, pv) move_id) "move" side_id slot nickname
            move_id annotations
            (if_intro (Ensures (Extends state)) (contains pv.revealed_moves move_id)
              (same-Extends state state refl refl refl refl) (update_side-Extends state _))

  pub change_health-Extends :
      (side_id : String) (slot : Option ℕ) (nickname : String) (hp : HpToken)
      → Ensures (Extends state) (change_health state side_id slot nickname hp)
  unfolding change_health
  change_health-Extends side_id slot nickname hp =
      Ensures-bind (Extends state) (side state side_id) _ λ s _.
        Ensures-bind (Extends state) (require_health_target s nickname slot) _ λ (i, pv) _.
          Ensures-bind (Extends state) (token_to_observation hp side_id state.our_side) _
            λ hp_obs _. update_side-Extends state _

  pub swap_active_boosts-Extends :
      (side_id nickname target_side_id target_nickname : String) (stats : List String)
      → Ensures
          (Extends state)
          (swap_active_boosts state side_id nickname target_side_id target_nickname stats)
  unfolding swap_active_boosts
  swap_active_boosts-Extends side_id nickname target_side_id target_nickname stats =
      Ensures-bind (Extends state) (side state side_id) _ λ src_side _.
        Ensures-bind (Extends state) (side state target_side_id) _ λ tgt_side _.
          Ensures-bind (Extends state) (require_active src_side nickname "swap_boost_src") _
            λ (i, src) _.
              Ensures-bind (Extends state)
                (require_active tgt_side target_nickname "swap_boost_tgt") _
                λ (j, tgt) _.
                  Ensures-bind (Extends state) (swap_boosts stats src.boosts tgt.boosts) _
                    λ (a, b) _.
                      if_intro (Ensures (Extends state)) (side_id == target_side_id)
                        (update_side-Extends state _)
                        (Ensures-bind (Extends state) (update_side state _) _ λ state' e.
                          Ensures-bind (Extends state) (side state' target_side_id) _ λ s _.
                            Ensures-weaken (Extends state') (Extends state)
                              (λ state'' h.
                                Extends-trans state state' state''
                                  (Ensures-ok (Extends state) (update_side state _) state' e
                                    (update_side-Extends state _))
                                  h)
                              (update_side state' _) (update_side-Extends state' _))

  pub copy_active_boosts-Extends :
      (side_id nickname source_side_id source_nickname : String) (stats : List String)
      → Ensures
          (Extends state)
          (copy_active_boosts state side_id nickname source_side_id source_nickname stats)
  unfolding copy_active_boosts
  copy_active_boosts-Extends side_id nickname source_side_id source_nickname stats =
      Ensures-bind (Extends state) (side state source_side_id) _ λ src_side _.
        Ensures-bind (Extends state) (side state side_id) _ λ tgt_side _.
          Ensures-bind (Extends state) (require_active src_side source_nickname "copy_boost_src") _
            λ (i, src) _.
              Ensures-bind (Extends state) (require_active tgt_side nickname "copy_boost_tgt") _
                λ (j, tgt) _.
                  Ensures-bind (Extends state) (copy_boosts stats src.boosts tgt.boosts) _
                    λ boosts _. update_side-Extends state _

  pub clear_side_boosts-Extends :
      (side_id nickname : Option String) (scope : String)
      → Ensures (Extends state) (clear_side_boosts state side_id nickname scope)
  unfolding clear_side_boosts clear_all_boosts
  clear_side_boosts-Extends none nickname scope =
      Ensures-bind (Extends state) (clear_found state.p1 scope (find_active state.p1)) _ λ p1 _.
        Ensures-bind (Extends state) (clear_found state.p2 scope (find_active state.p2)) _
          λ p2 _. same-Extends state _ refl refl refl refl
  clear_side_boosts-Extends (some side_id) none scope =
      Ensures-bind (Extends state) (side state side_id) _ λ s _. tt
  clear_side_boosts-Extends (some side_id) (some nickname) scope =
      update_active-Extends side_id nickname "clear_boost" (clear_pokemon_boosts scope)

  identify_found-Extends :
      (s : SideView) (side_id nickname details : String) (hp : HpToken) (found : Option Entry)
      → Ensures (Extends state) (identify_found state s side_id nickname details hp found)
  identify_found-Extends s side_id nickname details hp none = tt
  identify_found-Extends s side_id nickname details hp (some (i, pv)) =
      Ensures-bind (Extends state) (token_to_observation hp side_id state.our_side) _
        λ hp_obs _. update_side-Extends state _

  pub identify-Extends :
      (side_id nickname details : String) (hp : HpToken)
      → Ensures (Extends state) (identify state side_id nickname details hp)
  unfolding identify
  identify-Extends side_id nickname details hp =
      Ensures-bind (Extends state) (side state side_id) _
        λ s _. identify_found-Extends s side_id nickname details hp (find_active s)

  pub change_volatiles-Extends :
      (side_id nickname volatile action : String)
      → Ensures (Extends state) (change_volatiles state side_id nickname volatile action)
  unfolding change_volatiles
  change_volatiles-Extends side_id nickname volatile action =
      Ensures-bind (Extends state) (side state side_id) _ λ s _.
        Ensures-bind (Extends state) (require_active s nickname "volatile") _ λ (i, pv) _.
          if_intro (Ensures (Extends state)) (action == "start")
            (if_intro (Ensures (Extends state)) (contains pv.volatiles volatile)
              (same-Extends state state refl refl refl refl) (update_side-Extends state _))
            (if_intro (Ensures (Extends state)) (action == "end") (update_side-Extends state _)
              (same-Extends state state refl refl refl refl))
