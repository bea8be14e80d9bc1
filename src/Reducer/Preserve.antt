-- ===== src/Reducer/Preserve.antt =====
-- reducer.py: the validity of a state from event to event.
use battle_belief.Base.{
  ℤ, ◌≤ℤ◌, leb_ℤ, String, List, [], ◌∷◌, refl, string_eq, All-weaken, Ensures, Ensures-bind,
  Ensures-ok, if_cases, arith,
}
use battle_belief.Events.{BattleEvent}
use battle_belief.State.{SideView, ObservedState, initial, empty_side}
use battle_belief.Reducer.Reduce.{reduce, reduce_all}
use battle_belief.Reducer.Valid.{IsValidView, IsValidSide, IsValidState}
use battle_belief.Reducer.Views.{IsValidView-later}
use battle_belief.Reducer.Kinds.{reduce_body-IsValidState}

-- A valid state stays so when its event index grows.
later-IsValidSide :
    {before now : ℤ} (s : SideView) → before ≤ℤ now → IsValidSide before s → IsValidSide now s
later-IsValidSide {before} {now} s le v = record {
  views =
      All-weaken (IsValidView before) (IsValidView now) (λ pv. IsValidView-later le) s.pokemon
        v.views;
  one_active = v.one_active;
  layers = v.layers;
}

later-IsValidState :
    (state : ObservedState) (now : ℤ)
    → state.event_index ≤ℤ now
    → IsValidState state
    → IsValidState (record state { event_index = now })
later-IsValidState state now le v = record {
  started = omega (arith, v.started);
  p1_id = v.p1_id;
  p2_id = v.p2_id;
  p1_side = later-IsValidSide state.p1 le v.p1_side;
  p2_side = later-IsValidSide state.p2 le v.p2_side;
}

-- From a valid state, whatever the event, `reduce` raises or returns a valid state: the sides keep
-- their ids, at most one pokemon of a side is active, boosts are seven values from -6 to 6, hit
-- points lie within their maximum and are zero for a fainted pokemon, the evidence intervals
-- follow one another with only the last one open, and conditions have one layer up to their cap.
pub reduce-IsValidState :
    (state : ObservedState) (event : BattleEvent)
    → IsValidState state
    → Ensures IsValidState (reduce state event)
unfolding reduce
reduce-IsValidState state event v =
    if_cases (Ensures IsValidState) (leb_ℤ event.event_index state.event_index) (λ _. tt)
      (λ late.
        reduce_body-IsValidState (record state { event_index = event.event_index })
          (later-IsValidState state event.event_index (ground arith) v) event.body)

pub initial-IsValidState : (our_user_id : String) → IsValidState (initial our_user_id)
unfolding initial empty_side
initial-IsValidState our_user_id = record {
  started = omega arith;
  p1_id = refl;
  p2_id = refl;
  p1_side = record { views = tt; one_active = omega arith; layers = tt };
  p2_side = record { views = tt; one_active = omega arith; layers = tt };
}

-- A battle keeps the state valid.
pub reduce_all-IsValidState :
    (state : ObservedState) (events : List BattleEvent)
    → IsValidState state
    → Ensures IsValidState (reduce_all state events)
unfolding reduce_all
reduce_all-IsValidState state [] v = v
reduce_all-IsValidState state (event ∷ events) v =
    Ensures-bind IsValidState (reduce state event) _ λ state' e.
      reduce_all-IsValidState state' events
        (Ensures-ok IsValidState (reduce state event) state' e (reduce-IsValidState state event v))

-- Every state that a battle reaches from the initial one, by any events, is valid.
pub battle-IsValidState :
    (our_user_id : String) (events : List BattleEvent)
    → Ensures IsValidState (reduce_all (initial our_user_id) events)
battle-IsValidState our_user_id events =
    reduce_all-IsValidState (initial our_user_id) events (initial-IsValidState our_user_id)
