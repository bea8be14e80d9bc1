-- ===== src/Events/Pokemon.antt =====
-- domain/events/pokemon.py: what happens to one pokemon. A constructor has the fields of its class,
-- in their order and without `event_index`.
use battle_belief.Base.{
  ℕ, ℤ, String, Bool, Option, List, ok, ◌==◌, string_eq, ◌&&◌, ◌||◌, ◌>>◌, guard, is_none, is_some,
}
use battle_belief.Errors.{Core, value_error}
use battle_belief.State.{HpToken}

pub data BoostChangeMode : Type 0 where
  delta set : BoostChangeMode

pub data FormChangeKind : Type 0 where
  persistent_details temporary_species : FormChangeKind

pub data PokemonEvent : Type 0 where
  pokemon_switched : String → ℕ → String → String → HpToken → PokemonEvent
  pokemon_dragged : String → ℕ → String → String → HpToken → PokemonEvent
  pokemon_fainted : String → ℕ → String → PokemonEvent
  move_used :
      String
      → ℕ
      → String
      → String
      → Option String
      → Option ℕ
      → Option String
      → List String
      → PokemonEvent
  move_prevented : String → ℕ → String → String → Option String → PokemonEvent
  health_changed : String → Option ℕ → String → HpToken → List String → PokemonEvent
  status_changed : String → ℕ → String → Option String → List String → PokemonEvent
  team_status_cured : String → PokemonEvent
  boost_changed : String → ℕ → String → String → BoostChangeMode → ℤ → PokemonEvent
  boosts_swapped : String → ℕ → String → String → ℕ → String → List String → PokemonEvent
  boosts_copied : String → ℕ → String → String → ℕ → String → List String → PokemonEvent
  boosts_cleared : Option String → Option ℕ → Option String → String → PokemonEvent
  boosts_inverted : String → ℕ → String → PokemonEvent
  item_changed : String → ℕ → String → Option String → String → List String → PokemonEvent
  ability_changed : String → ℕ → String → Option String → String → List String → PokemonEvent
  identity_changed : String → ℕ → String → String → HpToken → PokemonEvent
  form_changed : String → ℕ → String → FormChangeKind → String → HpToken → PokemonEvent
  pokemon_transformed : String → ℕ → String → String → ℕ → String → PokemonEvent
  terastallized : String → ℕ → String → String → PokemonEvent
  volatile_changed : String → ℕ → String → String → String → List String → PokemonEvent
  recharge_changed : String → ℕ → String → Bool → PokemonEvent

-- `BoostsCleared(...)` with its `__post_init__`
unfoldable pub make_boosts_cleared :
    Option String → Option ℕ → Option String → String → Core PokemonEvent
make_boosts_cleared side_id slot nickname scope = do
  guard
      (is_none side_id && is_none slot && is_none nickname
        || is_some side_id && is_some slot && is_some nickname)
      value_error
  guard (is_some side_id || scope == "all") value_error
  ok (boosts_cleared side_id slot nickname scope)
