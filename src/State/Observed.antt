-- ===== src/State/Observed.antt =====
-- domain/state/side_view.py, domain/state/observed_state.py and domain/events/evidence.py: the two
-- sides and the whole observed state.
use battle_belief.Base.{
  ℕ, ℤ, pos, negsuc, String, Bool, false, Option, none, List, [], ok, err, ◌==◌, string_eq,
  if◌then◌else◌,
}
use battle_belief.Errors.{Core, reducer_invariant, invalid_side_id}
use battle_belief.State.Values.{PreviewPokemon}
use battle_belief.State.Pokemon.{PokemonView}

-- `side_conditions` are pairs of a condition and its layers, sorted.
pub record SideView : Type 0 where
  pub side_id : String
  pub user_id : Option String
  pub display_name : Option String
  pub team_size : Option ℤ
  pub preview_roster : List PreviewPokemon
  pub active_slot : Option ℕ
  pub pokemon : List PokemonView
  pub side_conditions : List (String × ℕ)

unfoldable pub empty_side : String → SideView
empty_side side_id = record {
  side_id = side_id;
  user_id = none;
  display_name = none;
  team_size = none;
  preview_roster = [];
  active_slot = none;
  pokemon = [];
  side_conditions = [];
}

-- The event class is also what the state keeps.
pub record VisibleEvidence : Type 0 where
  pub event_index : ℤ
  pub kind : String
  pub side_id : Option String
  pub slot : Option ℕ
  pub nickname : Option String
  pub effect : Option String
  pub annotations : List String

pub record ObservedState : Type 0 where
  pub our_user_id : String
  pub event_index : ℤ
  pub room_initialized : Bool
  pub generation : Option ℤ
  pub game_type : Option String
  pub tier : Option String
  pub rated : Option Bool
  pub rules : List String
  pub turn : ℤ
  pub battle_started : Bool
  pub team_preview_started : Bool
  pub winner : Option String
  pub tied : Bool
  pub our_side : Option String
  pub p1 : SideView
  pub p2 : SideView
  pub weather : Option String
  pub field_conditions : List String
  pub visible_evidence : List VisibleEvidence
  pub ignored_display_count : ℕ

-- `ObservedState.initial`
unfoldable pub initial : String → ObservedState
unfolding empty_side
initial our_user_id = record {
  our_user_id = our_user_id;
  event_index = negsuc 0;
  room_initialized = false;
  generation = none;
  game_type = none;
  tier = none;
  rated = none;
  rules = [];
  turn = pos 0;
  battle_started = false;
  team_preview_started = false;
  winner = none;
  tied = false;
  our_side = none;
  p1 = empty_side "p1";
  p2 = empty_side "p2";
  weather = none;
  field_conditions = [];
  visible_evidence = [];
  ignored_display_count = 0;
}

-- `ObservedState.side`
unfoldable pub side : ObservedState → String → Core SideView
side state side_id =
    if side_id == "p1"
    then ok state.p1
    else if side_id == "p2"
    then ok state.p2
    else err (reducer_invariant (invalid_side_id side_id))
