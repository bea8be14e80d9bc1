-- ===== src/Parser/Sound.antt =====
-- adapters/showdown_protocol/parser.py: what an event says of the pokemon.
pub mod Metadata
pub mod Pokemon
pub mod Boosts
pub mod Effects
use battle_belief.Base.{
  ℕ, ℤ, String, Option, none, some, List, [], ◌∷◌, drop, get_elem?, ok, err, ◌>>=◌, ◌>>◌, ◌==◌,
  string_eq, contains, true, false, ◌⊎◌, ◌≡◌, refl, arith, if◌then◌else◌, if_cases, if_intro,
}
use battle_belief.Events.{
  BattleEvent, EventBody, PokemonEvent, FieldEvent, battlefield, pokemon, pokemon_switched,
  pokemon_dragged, pokemon_fainted, move_used, move_prevented, health_changed, status_changed,
  team_status_cured, boost_changed, boosts_swapped, boosts_copied, boosts_cleared, boosts_inverted,
  item_changed, ability_changed, identity_changed, form_changed, pokemon_transformed,
  volatile_changed, recharge_changed, side_condition_changed, make_boosts_cleared,
}
use battle_belief.Events
use battle_belief.Parser.Idents.{starts_with_player}
use battle_belief.Parser.Yields.{IsNamed, IsHp}

-- A pokemon in the active slot.
abbrev pub IsAt : String → ℕ → String → Type 0
IsAt side_id slot nickname = IsNamed side_id (some slot) nickname

-- A pokemon that need not be named, but is named as a whole.
abbrev pub IsTarget : Option String → Option ℕ → Option String → Type 0
IsTarget none none none = Unit
IsTarget (some side_id) slot (some nickname) = IsNamed side_id slot nickname
IsTarget _ _ _ = ⊥

abbrev pub IsWellNamed : PokemonEvent → Type 0
IsWellNamed (pokemon_switched side slot nick details hp) = IsAt side slot nick × IsHp hp
IsWellNamed (pokemon_dragged side slot nick details hp) = IsAt side slot nick × IsHp hp
IsWellNamed (pokemon_fainted side slot nick) = IsAt side slot nick
IsWellNamed (move_used side slot nick move_id target_side target_slot target_nick annotations) =
    IsAt side slot nick × IsTarget target_side target_slot target_nick
IsWellNamed (move_prevented side slot nick reason move_id) = IsAt side slot nick
IsWellNamed (health_changed side slot nick hp annotations) = IsNamed side slot nick × IsHp hp
IsWellNamed (status_changed side slot nick status annotations) = IsAt side slot nick
IsWellNamed (team_status_cured side) = starts_with_player side ≡ true
IsWellNamed (boost_changed side slot nick stat mode amount) = IsAt side slot nick
IsWellNamed (boosts_swapped side slot nick side' slot' nick' stats) =
    IsAt side slot nick × IsAt side' slot' nick'
IsWellNamed (boosts_copied side slot nick side' slot' nick' stats) =
    IsAt side slot nick × IsAt side' slot' nick'
IsWellNamed (boosts_cleared side slot nick scope) =
    IsTarget side slot nick
    × (make_boosts_cleared side slot nick scope ≡ ok (boosts_cleared side slot nick scope))
IsWellNamed (boosts_inverted side slot nick) = IsAt side slot nick
IsWellNamed (item_changed side slot nick item action annotations) = IsAt side slot nick
IsWellNamed (ability_changed side slot nick ability action annotations) = IsAt side slot nick
IsWellNamed (identity_changed side slot nick details hp) = IsAt side slot nick × IsHp hp
IsWellNamed (form_changed side slot nick kind value hp) = IsAt side slot nick × IsHp hp
IsWellNamed (pokemon_transformed side slot nick side' slot' nick') =
    IsAt side slot nick × IsAt side' slot' nick'
IsWellNamed (Events.terastallized side slot nick tera_type) = IsAt side slot nick
IsWellNamed (volatile_changed side slot nick volatile action annotations) = IsAt side slot nick
IsWellNamed (recharge_changed side slot nick recharging) = IsAt side slot nick

abbrev pub IsWellFormed : EventBody → Type 0
IsWellFormed (pokemon event) = IsWellNamed event
IsWellFormed (battlefield (side_condition_changed side condition action)) =
    (side ≡ "p1") ⊎ (side ≡ "p2")
IsWellFormed (Events.evidence kind side slot nick effect annotations) = IsTarget side slot nick
IsWellFormed _ = Unit

-- The event has this index, and what it says of the pokemon is in order.
abbrev pub IsParsedAt : ℤ → BattleEvent → Type 0
IsParsedAt ei event = (event.event_index ≡ ei) × IsWellFormed event.body
