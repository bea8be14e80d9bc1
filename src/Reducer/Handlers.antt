-- ===== src/Reducer/Handlers.antt =====
-- reducer.py: the branches of `reduce` for the events of one pokemon.
use battle_belief.Base.{
  ℕ, ℤ, pos, String, true, false, Option, none, some, List, [], ◌∷◌, ◌++◌, ok, err, ◌>>=◌, ◌==◌,
  string_eq, option_eq, contains, filter, not, sorted, if◌then◌else◌,
}
use battle_belief.Base.Text.{str_leb}
use battle_belief.Errors.{Core, reducer_invariant, no_active, assertion_error}
use battle_belief.State.{
  HpToken, HpObservation, HpPrecision, percent, PokemonView, SideView, ObservedState, side,
  zero_boosts, normalize_identity_details, hp_observation,
}
use battle_belief.Events.{
  BoostChangeMode, delta, set, FormChangeKind, persistent_details, temporary_species,
}
use battle_belief.Reducer.Lookup.{
  Entry, token_to_observation, find_active, require_active, require_health_target, replace_pokemon,
  update_side,
}
use battle_belief.Reducer.Boosts.{
  apply_boost_delta, set_boost, clear_boosts, swap_boosts, copy_boosts,
}
use battle_belief.Reducer.Conditions.{open_interval}
use battle_belief.Reducer.Switching.{activate_pokemon}

-- The frame of most branches: the active pokemon of a side, by its nickname, is replaced.
unfoldable pub update_active :
    ObservedState → String → String → String → (PokemonView → Core PokemonView) → Core ObservedState
update_active state side_id nickname context change = do
  s ← side state side_id
  (i, pv) ← require_active s nickname context
  updated ← change pv
  update_side state (replace_pokemon s (i, pv) updated)

unfoldable pub add_evidence :
    ObservedState → String → String → ℕ → String → String → List String → ObservedState
add_evidence state kind side_id slot nickname effect annotations = record state {
  visible_evidence =
      state.visible_evidence
      ++ (record {
        event_index = state.event_index;
        kind = kind;
        side_id = some side_id;
        slot = some slot;
        nickname = some nickname;
        effect = some effect;
        annotations = annotations;
      })
        ∷ [];
}

unfoldable pub switch_in : ObservedState → String → String → String → HpToken → Core ObservedState
switch_in state side_id nickname details hp = do
  hp_obs ← token_to_observation hp side_id state.our_side
  s ← side state side_id
  update_side state (activate_pokemon s nickname details hp_obs hp.status state.event_index)

abbrev pub maximum_or : Option HpObservation → ℤ
maximum_or none = pos 100
maximum_or (some hp) = hp.maximum

abbrev pub precision_or : Option HpObservation → HpPrecision
precision_or none = percent
precision_or (some hp) = hp.precision

unfoldable pub faint : PokemonView → Core PokemonView
faint pv = do
  fainted_hp ← hp_observation (pos 0) (maximum_or pv.hp) (precision_or pv.hp) true
  ok (record pv {
    fainted = true;
    hp = some fainted_hp;
    boosts = zero_boosts;
    volatiles = [];
    recharging = false;
    transform_target = none;
  })

abbrev pub reveal_move : String → PokemonView → PokemonView
reveal_move move_id pv = record pv { revealed_moves = pv.revealed_moves ++ move_id ∷ [] }

-- `if event.move_id not in pv.revealed_moves`
unfoldable pub record_move : ObservedState → SideView → Entry → String → Core ObservedState
record_move state s (i, pv) move_id =
    if contains pv.revealed_moves move_id
    then ok state
    else update_side state (replace_pokemon s (i, pv) (reveal_move move_id pv))

unfoldable pub use_move :
    ObservedState → String → ℕ → String → String → List String → Core ObservedState
use_move state side_id slot nickname move_id annotations = do
  s ← side state side_id
  e ← require_active s nickname "move"
  state' ← record_move state s e move_id
  ok (add_evidence state' "move" side_id slot nickname move_id annotations)

-- hp, status and fainted of an event that carries a token
unfoldable pub with_hp : HpObservation → HpToken → PokemonView → PokemonView
with_hp hp_obs token pv = record pv {
  hp = some hp_obs;
  status = token.status;
  fainted = token.fainted;
}

unfoldable pub change_health :
    ObservedState → String → Option ℕ → String → HpToken → Core ObservedState
change_health state side_id slot nickname hp = do
  s ← side state side_id
  (i, pv) ← require_health_target s nickname slot
  hp_obs ← token_to_observation hp side_id state.our_side
  update_side state (replace_pokemon s (i, pv) (with_hp hp_obs hp pv))

unfoldable pub change_boost : BoostChangeMode → String → ℤ → PokemonView → Core PokemonView
change_boost delta stat amount pv = do
  boosts ← apply_boost_delta pv.boosts stat amount
  ok (record pv { boosts = boosts })
change_boost set stat amount pv = do
  boosts ← set_boost pv.boosts stat amount
  ok (record pv { boosts = boosts })

unfoldable pub clear_pokemon_boosts : String → PokemonView → Core PokemonView
clear_pokemon_boosts scope pv = do
  boosts ← clear_boosts pv.boosts scope
  ok (record pv { boosts = boosts })

-- On one side the second replacement finds nothing: its target is the object, the side's active
-- pokemon, that the first one took out.
unfoldable pub swap_active_boosts :
    ObservedState → String → String → String → String → List String → Core ObservedState
swap_active_boosts state side_id nickname target_side_id target_nickname stats = do
  src_side ← side state side_id
  tgt_side ← side state target_side_id
  (i, src) ← require_active src_side nickname "swap_boost_src"
  (j, tgt) ← require_active tgt_side target_nickname "swap_boost_tgt"
  (src_boosts, tgt_boosts) ← swap_boosts stats src.boosts tgt.boosts
  let new_src_side = replace_pokemon src_side (i, src) (record src { boosts = src_boosts })
  if side_id == target_side_id then update_side state new_src_side else (do
    state' ← update_side state new_src_side
    tgt_side' ← side state' target_side_id
    update_side state' (replace_pokemon tgt_side' (j, tgt) (record tgt { boosts = tgt_boosts })))

unfoldable pub copy_active_boosts :
    ObservedState → String → String → String → String → List String → Core ObservedState
copy_active_boosts state side_id nickname source_side_id source_nickname stats = do
  src_side ← side state source_side_id
  tgt_side ← side state side_id
  (i, src) ← require_active src_side source_nickname "copy_boost_src"
  (j, tgt) ← require_active tgt_side nickname "copy_boost_tgt"
  boosts ← copy_boosts stats src.boosts tgt.boosts
  update_side state (replace_pokemon tgt_side (j, tgt) (record tgt { boosts = boosts }))

-- one side of `-clearallboost`
abbrev pub clear_found : SideView → String → Option Entry → Core SideView
clear_found s scope none = ok s
clear_found s scope (some (i, pv)) = do
  updated ← clear_pokemon_boosts scope pv
  ok (replace_pokemon s (i, pv) updated)

unfoldable pub clear_all_boosts : ObservedState → String → Core ObservedState
clear_all_boosts state scope = do
  p1 ← clear_found state.p1 scope (find_active state.p1)
  p2 ← clear_found state.p2 scope (find_active state.p2)
  ok (record state { p1 = p1; p2 = p2 })

unfoldable pub clear_side_boosts :
    ObservedState → Option String → Option String → String → Core ObservedState
clear_side_boosts state none nickname scope = clear_all_boosts state scope
clear_side_boosts state (some side_id) none scope = do s ← side state side_id; err assertion_error
clear_side_boosts state (some side_id) (some nickname) scope =
    update_active state side_id nickname "clear_boost" (clear_pokemon_boosts scope)

abbrev pub revealed : String → Option String → Option String
revealed action value = if action == "set" then value else none

unfoldable pub change_item : ℤ → String → Option String → PokemonView → PokemonView
change_item ei action item pv = record pv {
  item_intervals = open_interval pv.item_intervals (revealed action item) ei;
}

unfoldable pub change_ability : ℤ → String → Option String → PokemonView → PokemonView
change_ability ei action ability pv = record pv {
  ability_intervals = open_interval pv.ability_intervals (revealed action ability) ei;
}

unfoldable pub change_identity :
    ℤ → String → String → HpObservation → HpToken → PokemonView → PokemonView
change_identity ei nickname details hp_obs token pv = record pv {
  nickname = nickname;
  switch_identity = normalize_identity_details details;
  current_details = some details;
  identity_intervals = open_interval pv.identity_intervals (some details) ei;
  hp = some hp_obs;
  status = token.status;
  fainted = token.fainted;
}

abbrev pub identify_found :
    ObservedState
    → SideView
    → String
    → String
    → String
    → HpToken
    → Option Entry
    → Core ObservedState
identify_found state s side_id nickname details hp none =
    err (reducer_invariant (no_active "identity" side_id))
identify_found state s side_id nickname details hp (some (i, pv)) = do
  hp_obs ← token_to_observation hp side_id state.our_side
  update_side state
      (replace_pokemon s (i, pv) (change_identity state.event_index nickname details hp_obs hp pv))

unfoldable pub identify : ObservedState → String → String → String → HpToken → Core ObservedState
identify state side_id nickname details hp = do
  s ← side state side_id
  identify_found state s side_id nickname details hp (find_active s)

unfoldable pub change_form :
    FormChangeKind → String → HpObservation → HpToken → PokemonView → PokemonView
change_form persistent_details value hp_obs token pv = record pv {
  switch_identity = normalize_identity_details value;
  current_details = some value;
  hp = some hp_obs;
  status = token.status;
  fainted = token.fainted;
}
change_form temporary_species value hp_obs token pv = record pv {
  current_details = some value;
  hp = some hp_obs;
  status = token.status;
  fainted = token.fainted;
}

unfoldable pub change_volatiles :
    ObservedState → String → String → String → String → Core ObservedState
change_volatiles state side_id nickname volatile action = do
  s ← side state side_id
  (i, pv) ← require_active s nickname "volatile"
  if action == "start"
      then (if contains pv.volatiles volatile
          then ok state
          else update_side state (
              replace_pokemon s (i, pv)
                (record pv { volatiles = sorted str_leb (pv.volatiles ++ volatile ∷ []) })))
      else if action == "end"
      then update_side state (
          replace_pokemon s (i, pv)
            (record pv { volatiles = filter (λ v. not (v == volatile)) pv.volatiles }))
      else ok state
