-- ===== src/Reducer/Pairs.antt =====
-- reducer.py: the validity of a state in the branches that switch, or that read or write both
-- sides.
use battle_belief.Base.{
  false, ℤ, String, Option, none, some, List, ◌≡◌, refl, ok, ◌>>=◌, ◌==◌, string_eq, get_elem?,
  All-get, Ensures, Ensures-bind, Ensures-ok, if_cases, ==→eq, sym, ◌∙◌, ◌≢◌, arith,
}
use battle_belief.State.{HpToken, PokemonView, SideView, ObservedState, side}
use battle_belief.Reducer.Lookup.{
  Entry, token_to_observation, find_active, replace_pokemon, update_side,
}
use battle_belief.Reducer.Boosts.{swap_boosts, copy_boosts}
use battle_belief.Reducer.Switching.{activate_pokemon}
use battle_belief.Reducer.Handlers.{
  switch_in, clear_pokemon_boosts, clear_found, clear_all_boosts, clear_side_boosts,
  swap_active_boosts, copy_active_boosts,
}
use battle_belief.Reducer.Valid.{IsValidView, IsValidSide, IsValidState, AreBoosts}
use battle_belief.Reducer.Values.{token-IsValidHp, swap_boosts-AreBoosts, copy_boosts-AreBoosts}
use battle_belief.Reducer.Views.{Keeps, with_boosts-Keeps, clear_pokemon_boosts-Kept}
use battle_belief.Reducer.Sides.{
  find_active-IsEntry, replace_pokemon-IsValidSide, side-IsValidSide, update_side-IsValidState,
}
use battle_belief.Reducer.SwitchIn.{activate_pokemon-IsValidSide}
use battle_belief.Reducer.Invariant.{
  put_back-IsValidState, on_side-IsValidState, on_active-IsValidState, update_active-IsValidState,
}

abbrev with_boosts : List ℤ → PokemonView → PokemonView
with_boosts boosts pv = record pv { boosts = boosts }

record SameSide (now : ℤ) (s s' : SideView) : Type 0 where
  valid : IsValidSide now s'
  same_id : s'.side_id ≡ s.side_id

-- A side that the state returns has the id that was asked for.
side-side_id :
    (state : ObservedState) (side_id : String)
    → IsValidState state
    → Ensures (λ s. s.side_id ≡ side_id) (side state side_id)
unfolding side
side-side_id state side_id v =
    if_cases (Ensures (λ s. s.side_id ≡ side_id)) (side_id == "p1")
      (λ e. v.p1_id ∙ sym (==→eq side_id "p1" e))
      (λ _.
        if_cases (Ensures (λ s. s.side_id ≡ side_id)) (side_id == "p2")
          (λ e. v.p2_id ∙ sym (==→eq side_id "p2" e)) (λ _. tt))

-- Writing one side leaves the other one.
update_side-side_ne :
    (state : ObservedState) (s : SideView) (side_id : String)
    → s.side_id ≢ side_id
    → Ensures (λ state'. side state' side_id ≡ side state side_id) (update_side state s)
unfolding update_side side
update_side-side_ne state s side_id ne =
    if_cases (Ensures (λ state'. side state' side_id ≡ side state side_id)) (s.side_id == "p1")
      (λ e. ground arith)
      (λ _.
        if_cases (Ensures (λ state'. side state' side_id ≡ side state side_id)) (s.side_id == "p2")
          (λ e. ground arith) (λ _. tt))

module _ (state : ObservedState) (v : IsValidState state) where
  pub switch_in-IsValidState :
      (side_id nickname details : String) (hp : HpToken)
      → Ensures IsValidState (switch_in state side_id nickname details hp)
  unfolding switch_in
  switch_in-IsValidState side_id nickname details hp =
      Ensures-bind IsValidState (token_to_observation hp side_id state.our_side) _ λ obs seen.
        on_side-IsValidState state v side_id _ λ s vs.
          update_side-IsValidState state
            (activate_pokemon s nickname details obs hp.status state.event_index) v
            (activate_pokemon-IsValidSide state.event_index s vs nickname details obs hp.status
              v.started (token-IsValidHp hp side_id state.our_side obs seen).0).0

  clear_found-IsValidSide :
      (s : SideView) (scope : String) (o : Option Entry)
      → IsValidSide state.event_index s
      → find_active s ≡ o
      → Ensures (SameSide state.event_index s) (clear_found s scope o)
  unfolding replace_pokemon
  clear_found-IsValidSide s scope none vs found = record { valid = vs; same_id = refl }
  clear_found-IsValidSide s scope (some e) vs found =
      let at = (find_active-IsEntry s e found).there in
      Ensures-bind (SameSide state.event_index s) (clear_pokemon_boosts scope e.1) _ λ pv' r.
        record {
          valid = replace_pokemon-IsValidSide state.event_index s e pv' vs at (
              Ensures-ok (Keeps state.event_index e.1) (clear_pokemon_boosts scope e.1) pv' r (
                clear_pokemon_boosts-Kept state.event_index e.1
                  (All-get (IsValidView state.event_index) s.pokemon e.0 e.1 at vs.views) scope));
          same_id = refl;
        }

  cleared_side :
      (s s' : SideView) (scope : String)
      → IsValidSide state.event_index s
      → clear_found s scope (find_active s) ≡ ok s'
      → SameSide state.event_index s s'
  cleared_side s s' scope vs e =
      Ensures-ok (SameSide state.event_index s) (clear_found s scope (find_active s)) s' e
        (clear_found-IsValidSide s scope (find_active s) vs refl)

  clear_all_boosts-IsValidState :
      (scope : String) → Ensures IsValidState (clear_all_boosts state scope)
  unfolding clear_all_boosts
  clear_all_boosts-IsValidState scope =
      Ensures-bind IsValidState (clear_found state.p1 scope (find_active state.p1)) _ λ p1 e1.
        Ensures-bind IsValidState (clear_found state.p2 scope (find_active state.p2)) _ λ p2 e2.
          let k1 = cleared_side state.p1 p1 scope v.p1_side e1 in
          let k2 = cleared_side state.p2 p2 scope v.p2_side e2 in
          record {
            started = v.started;
            p1_id = k1.same_id ∙ v.p1_id;
            p2_id = k2.same_id ∙ v.p2_id;
            p1_side = k1.valid;
            p2_side = k2.valid;
          }

  pub clear_side_boosts-IsValidState :
      (side_id nickname : Option String) (scope : String)
      → Ensures IsValidState (clear_side_boosts state side_id nickname scope)
  unfolding clear_side_boosts
  clear_side_boosts-IsValidState none nickname scope = clear_all_boosts-IsValidState scope
  clear_side_boosts-IsValidState (some side_id) none scope =
      on_side-IsValidState state v side_id _ λ s vs. tt
  clear_side_boosts-IsValidState (some side_id) (some nickname) scope =
      update_active-IsValidState state v side_id nickname "clear_boost" (clear_pokemon_boosts scope)
        (λ pv vp. clear_pokemon_boosts-Kept state.event_index pv vp scope)

  pub copy_active_boosts-IsValidState :
      (side_id nickname source_side_id source : String) (stats : List String)
      → Ensures IsValidState (copy_active_boosts state side_id nickname source_side_id source stats)
  unfolding copy_active_boosts
  copy_active_boosts-IsValidState side_id nickname source_side_id source stats =
      on_side-IsValidState state v source_side_id _ λ src vsrc.
        on_side-IsValidState state v side_id _ λ tgt vtgt.
          on_active-IsValidState state v src source "copy_boost_src" _ λ e there.
            on_active-IsValidState state v tgt nickname "copy_boost_tgt" _ λ f there'.
              Ensures-bind IsValidState (copy_boosts stats e.1.boosts f.1.boosts) _ λ boosts r.
                put_back-IsValidState state v tgt f (with_boosts boosts f.1) vtgt there' (λ vf.
                  with_boosts-Keeps state.event_index f.1 vf boosts (
                    copy_boosts-AreBoosts stats e.1.boosts f.1.boosts boosts
                      (All-get (IsValidView state.event_index) src.pokemon e.0 e.1 there
                        vsrc.views).boosts
                      vf.boosts r))

  side_found :
      (side_id : String) (s : SideView)
      → side state side_id ≡ ok s
      → IsValidSide state.event_index s
  side_found side_id s e =
      Ensures-ok (IsValidSide state.event_index) (side state side_id) s e
        (side-IsValidSide state side_id v)

  other_id :
      (side_id target_side_id : String) (s : SideView)
      → side state side_id ≡ ok s
      → (side_id == target_side_id) ≡ false
      → s.side_id ≢ target_side_id
  other_id side_id target_side_id s e ne =
      let same =
        Ensures-ok (λ s'. s'.side_id ≡ side_id) (side state side_id) s e
          (side-side_id state side_id v) in
      ground arith

  -- The target's side is read again from the state in which the source's side was written.
  swap_target-IsValidState :
      (target_side_id : String) (j : Entry) (tgt_side : SideView) (boosts : List ℤ)
      (state' : ObservedState)
      → IsValidState state'
      → side state target_side_id ≡ ok tgt_side
      → side state' target_side_id ≡ side state target_side_id
      → get_elem? tgt_side.pokemon j.0 ≡ some j.1
      → AreBoosts boosts
      → Ensures IsValidState (
          side state' target_side_id >>= λ s.
          update_side state' (replace_pokemon s j (with_boosts boosts j.1)))
  swap_target-IsValidState target_side_id j tgt_side boosts state' v' read same there h =
      let read' = same ∙ read in
      rw read' (
        put_back-IsValidState state' v' tgt_side j (with_boosts boosts j.1)
          (Ensures-ok (IsValidSide state'.event_index) (side state' target_side_id) tgt_side read'
            (side-IsValidSide state' target_side_id v'))
          there (λ vj. with_boosts-Keeps state'.event_index j.1 vj boosts h))

  pub swap_active_boosts-IsValidState :
      (side_id nickname target_side_id target : String) (stats : List String)
      → Ensures IsValidState (swap_active_boosts state side_id nickname target_side_id target stats)
  unfolding swap_active_boosts replace_pokemon
  swap_active_boosts-IsValidState side_id nickname target_side_id target stats =
      let now = state.event_index in
      Ensures-bind IsValidState (side state side_id) _ λ src es.
        Ensures-bind IsValidState (side state target_side_id) _ λ tgt et.
          on_active-IsValidState state v src nickname "swap_boost_src" _ λ e there.
            on_active-IsValidState state v tgt target "swap_boost_tgt" _ λ f there'.
              Ensures-bind IsValidState (swap_boosts stats e.1.boosts f.1.boosts) _
                λ (src', tgt') r.
                  let vsrc = side_found side_id src es in
                  let vtgt = side_found target_side_id tgt et in
                  let (hs, ht) =
                    swap_boosts-AreBoosts stats e.1.boosts f.1.boosts src' tgt'
                      (All-get (IsValidView now) src.pokemon e.0 e.1 there vsrc.views).boosts
                      (All-get (IsValidView now) tgt.pokemon f.0 f.1 there' vtgt.views).boosts r in
                  let put =
                    put_back-IsValidState state v src e (with_boosts src' e.1) vsrc there
                      (λ ve. with_boosts-Keeps now e.1 ve src' hs) in
                  if_cases (Ensures IsValidState) (side_id == target_side_id) (λ _. put)
                    λ ne.
                      let new = replace_pokemon src e (with_boosts src' e.1) in
                      Ensures-bind IsValidState (update_side state new) _ λ state' u.
                        swap_target-IsValidState target_side_id f tgt tgt' state'
                          (Ensures-ok IsValidState (update_side state new) state' u put) et
                          (Ensures-ok (λ s'. side s' target_side_id ≡ side state target_side_id)
                            (update_side state new) state' u
                            (update_side-side_ne state new target_side_id
                              (other_id side_id target_side_id src es ne)))
                          there' ht
