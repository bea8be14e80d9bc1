-- ===== src/Reducer/Facts.antt =====
-- reducer.py: what the invariant reads of a state.
use battle_belief.Base.{
  ℕ, ◌≤◌, ℤ, negsuc, ◌≤ℤ◌, String, List, [], ◌∷◌, map, ◌≡◌, refl, sym, subst, string_eq, All, arith,
}
use battle_belief.State.{PokemonView, SideView, ObservedState}
use battle_belief.Reducer.Reduce.{cure_status}
use battle_belief.Reducer.Valid.{IsValidView, IsValidSide, IsValidState, active_count, IsLayered}

-- What the invariant speaks of in a side and in a state.
abbrev Team : Type 0
Team = List PokemonView × List (String × ℕ)

abbrev pub team : SideView → Team
team s = (s.pokemon, s.side_conditions)

IsValidTeam : ℤ → Team → Type 0
IsValidTeam now (views, conditions) =
    All (IsValidView now) views × (active_count views ≤ 1) × All IsLayered conditions

to_team : {now : ℤ} {s : SideView} → IsValidSide now s → IsValidTeam now (team s)
unfolding IsValidTeam
to_team v = (v.views, v.one_active, v.layers)

of_team : {now : ℤ} (s : SideView) → IsValidTeam now (team s) → IsValidSide now s
unfolding IsValidTeam
of_team s (views, one_active, layers) = record {
  views = views;
  one_active = one_active;
  layers = layers;
}

pub same_team-IsValidSide :
    {now : ℤ} (s s' : SideView) → IsValidSide now s → team s' ≡ team s → IsValidSide now s'
same_team-IsValidSide {now} s s' v e = of_team s' (subst (IsValidTeam now) (sym e) (to_team v))

abbrev Facts : Type 0
Facts = ℤ × String × Team × String × Team

abbrev pub facts : ObservedState → Facts
facts state = (state.event_index, state.p1.side_id, team state.p1, state.p2.side_id, team state.p2)

AreValidFacts : Facts → Type 0
AreValidFacts (now, id1, team1, id2, team2) =
    (negsuc 0 ≤ℤ now) × (id1 ≡ "p1") × IsValidTeam now team1 × (id2 ≡ "p2") × IsValidTeam now team2

-- An event that changes other fields keeps the state valid.
pub same_facts-IsValidState :
    (state state' : ObservedState)
    → IsValidState state
    → facts state' ≡ facts state
    → IsValidState state'
unfolding AreValidFacts
same_facts-IsValidState state state' v e =
    let k : AreValidFacts (facts state') =
      subst AreValidFacts (sym e)
        (v.started, v.p1_id, to_team v.p1_side, v.p2_id, to_team v.p2_side) in
    record {
      started = k.0;
      p1_id = k.1;
      p2_id = k.3;
      p1_side = of_team state'.p1 k.2;
      p2_side = of_team state'.p2 k.4;
    }

pub active_count-cured : (l : List PokemonView) → active_count (map cure_status l) ≡ active_count l
active_count-cured [] = refl
active_count-cured (pv ∷ l) = omega (arith, active_count-cured l)
