-- ===== src/State/Pokemon.antt =====
-- domain/state/pokemon_view.py: one pokemon as it was seen.
use battle_belief.Base.{
  ℤ, pos, String, Bool, false, Option, none, some, List, [], ◌∷◌, ◌==◌, string_eq, if◌then◌else◌,
}
use battle_belief.State.Values.{HpObservation, EvidenceInterval}
use battle_belief.State.Details.{normalize_identity_details}

-- The order of the seven boosts.
abbrev pub boost_stats : List String
boost_stats = "atk" ∷ "def" ∷ "spa" ∷ "spd" ∷ "spe" ∷ "acc" ∷ "eva" ∷ []

abbrev pub zero_boosts : List ℤ
zero_boosts = pos 0 ∷ pos 0 ∷ pos 0 ∷ pos 0 ∷ pos 0 ∷ pos 0 ∷ pos 0 ∷ []

pub record PokemonView : Type 0 where
  pub side_id : String
  pub nickname : String
  pub identity_intervals : List EvidenceInterval
  pub preview_details : Option String
  pub switch_identity : String
  pub current_details : Option String
  pub active : Bool
  pub hp : Option HpObservation
  pub status : Option String
  pub fainted : Bool
  pub revealed_moves : List String
  pub item_intervals : List EvidenceInterval
  pub ability_intervals : List EvidenceInterval
  pub tera_type : Option String
  pub boosts : List ℤ
  pub volatiles : List String
  pub recharging : Bool
  pub transform_target : Option String

-- `normalize_identity_details(details) if details else ""`
abbrev pub new_identity : Option String → String
new_identity none = ""
new_identity (some details) = if details == "" then "" else normalize_identity_details details

-- `PokemonView.new`
unfoldable pub new_pokemon_view : String → String → Option String → PokemonView
new_pokemon_view side_id nickname details = record {
  side_id = side_id;
  nickname = nickname;
  identity_intervals = [];
  preview_details = none;
  switch_identity = new_identity details;
  current_details = details;
  active = false;
  hp = none;
  status = none;
  fainted = false;
  revealed_moves = [];
  item_intervals = [];
  ability_intervals = [];
  tera_type = none;
  boosts = zero_boosts;
  volatiles = [];
  recharging = false;
  transform_target = none;
}
