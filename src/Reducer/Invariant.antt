-- ===== src/Reducer/Invariant.antt =====
-- reducer.py: the handlers and the validity of a state.
use battle_belief.Base.{
  ℕ, String, Option, none, some, List, ◌≡◌, refl, ◌>>=◌, ◌==◌, string_eq, get_elem?, All-get,
  contains, Ensures, Ensures-bind, Ensures-ok, if_intro,
}
use battle_belief.Errors.{Core}
use battle_belief.State.{HpToken, PokemonView, SideView, ObservedState, side}
use battle_belief.Reducer.Lookup.{
  Entry, token_to_observation, find_active, require_active, require_health_target, replace_pokemon,
  update_side,
}
use battle_belief.Reducer.Handlers.{
  update_active, add_evidence, reveal_move, record_move, use_move, change_health, identify,
  identify_found, change_volatiles,
}
use battle_belief.Reducer.Valid.{IsValidView, IsValidSide, IsValidState}
use battle_belief.Reducer.Values.{token-IsValidHp}
use battle_belief.Reducer.Views.{
  Keeps, Kept, with_hp-Keeps, change_identity-Keeps, same_facts-Keeps,
}
use battle_belief.Reducer.Sides.{
  find_active-IsEntry, require_active-IsEntry, require_health_target-Ensures,
  replace_pokemon-IsValidSide, side-IsValidSide, update_side-IsValidState,
}

pub add_evidence-IsValidState :
    (state : ObservedState) (kind side_id : String) (slot : ℕ) (nickname effect : String)
    (annotations : List String)
    → IsValidState state
    → IsValidState (add_evidence state kind side_id slot nickname effect annotations)
unfolding add_evidence
add_evidence-IsValidState state kind side_id slot nickname effect annotations v = record {
  started = v.started;
  p1_id = v.p1_id;
  p2_id = v.p2_id;
  p1_side = v.p1_side;
  p2_side = v.p2_side;
}

module _ (state : ObservedState) (v : IsValidState state) where
  pub put_back-IsValidState :
      (s : SideView) (e : Entry) (pv' : PokemonView)
      → IsValidSide state.event_index s
      → get_elem? s.pokemon e.0 ≡ some e.1
      → (IsValidView state.event_index e.1 → Keeps state.event_index e.1 pv')
      → Ensures IsValidState (update_side state (replace_pokemon s e pv'))
  put_back-IsValidState s e pv' vs there keeps =
      update_side-IsValidState state (replace_pokemon s e pv') v (
        replace_pokemon-IsValidSide state.event_index s e pv' vs there
          (keeps (All-get (IsValidView state.event_index) s.pokemon e.0 e.1 there vs.views)))

  pub on_side-IsValidState :
      (side_id : String) (f : SideView → Core ObservedState)
      → ((s : SideView) → IsValidSide state.event_index s → Ensures IsValidState (f s))
      → Ensures IsValidState (side state side_id >>= f)
  on_side-IsValidState side_id f h = Ensures-bind IsValidState (side state side_id) f (λ s e. h s (
      Ensures-ok (IsValidSide state.event_index) (side state side_id) s e
        (side-IsValidSide state side_id v)))

  pub on_active-IsValidState :
      (s : SideView) (nickname context : String) (f : Entry → Core ObservedState)
      → ((e : Entry) → get_elem? s.pokemon e.0 ≡ some e.1 → Ensures IsValidState (f e))
      → Ensures IsValidState (require_active s nickname context >>= f)
  on_active-IsValidState s nickname context f h =
      Ensures-bind IsValidState (require_active s nickname context) f (λ e r.
        h e
          (Ensures-ok _ (require_active s nickname context) e r
            (require_active-IsEntry s nickname context)).0.there)

  pub update_active-IsValidState :
      (side_id nickname context : String) (change : PokemonView → Core PokemonView)
      → ((pv : PokemonView)
          → IsValidView state.event_index pv
          → Kept state.event_index pv (change pv))
      → Ensures IsValidState (update_active state side_id nickname context change)
  unfolding update_active
  update_active-IsValidState side_id nickname context change keeps =
      on_side-IsValidState side_id _ λ s vs. on_active-IsValidState s nickname context _ λ e there.
        Ensures-bind IsValidState (change e.1) _ λ pv' r.
          put_back-IsValidState s e pv' vs there
            (λ ve. Ensures-ok (Keeps state.event_index e.1) (change e.1) pv' r (keeps e.1 ve))

  record_move-IsValidState :
      (s : SideView) (e : Entry) (move_id : String)
      → IsValidSide state.event_index s
      → get_elem? s.pokemon e.0 ≡ some e.1
      → Ensures IsValidState (record_move state s e move_id)
  unfolding record_move
  record_move-IsValidState s e move_id vs there =
      if_intro (Ensures IsValidState) (contains e.1.revealed_moves move_id) v (
        put_back-IsValidState s e (reveal_move move_id e.1) vs there
          (λ ve. same_facts-Keeps e.1 (reveal_move move_id e.1) ve refl))

  pub use_move-IsValidState :
      (side_id : String) (slot : ℕ) (nickname move_id : String) (annotations : List String)
      → Ensures IsValidState (use_move state side_id slot nickname move_id annotations)
  unfolding use_move
  use_move-IsValidState side_id slot nickname move_id annotations =
      on_side-IsValidState side_id _ λ s vs. on_active-IsValidState s nickname "move" _ λ e there.
        Ensures-bind IsValidState (record_move state s e move_id) _ λ state' r.
          add_evidence-IsValidState state' "move" side_id slot nickname move_id annotations (
            Ensures-ok IsValidState (record_move state s e move_id) state' r
              (record_move-IsValidState s e move_id vs there))

  pub change_volatiles-IsValidState :
      (side_id nickname volatile action : String)
      → Ensures IsValidState (change_volatiles state side_id nickname volatile action)
  unfolding change_volatiles
  change_volatiles-IsValidState side_id nickname volatile action =
      on_side-IsValidState side_id _ λ s vs.
        on_active-IsValidState s nickname "volatile" _ λ e there.
          if_intro (Ensures IsValidState) (action == "start")
            (if_intro (Ensures IsValidState) (contains e.1.volatiles volatile) v
              (put_back-IsValidState s e _ vs there (λ ve. same_facts-Keeps e.1 _ ve refl)))
            (if_intro (Ensures IsValidState) (action == "end")
              (put_back-IsValidState s e _ vs there (λ ve. same_facts-Keeps e.1 _ ve refl)) v)

  pub change_health-IsValidState :
      (side_id : String) (slot : Option ℕ) (nickname : String) (hp : HpToken)
      → Ensures IsValidState (change_health state side_id slot nickname hp)
  unfolding change_health
  change_health-IsValidState side_id slot nickname hp = on_side-IsValidState side_id _ λ s vs.
      Ensures-bind IsValidState (require_health_target s nickname slot) _ λ e found.
        Ensures-bind IsValidState (token_to_observation hp side_id state.our_side) _ λ obs seen.
          put_back-IsValidState s e _ vs
            (Ensures-ok _ (require_health_target s nickname slot) e found
              (require_health_target-Ensures s nickname slot))
            (λ ve.
              with_hp-Keeps state.event_index e.1 ve obs hp
                (token-IsValidHp hp side_id state.our_side obs seen))

  identify_found-IsValidState :
      (s : SideView) (side_id nickname details : String) (hp : HpToken) (o : Option Entry)
      → IsValidSide state.event_index s
      → find_active s ≡ o
      → Ensures IsValidState (identify_found state s side_id nickname details hp o)
  identify_found-IsValidState s side_id nickname details hp none vs found = tt
  identify_found-IsValidState s side_id nickname details hp (some e) vs found =
      Ensures-bind IsValidState (token_to_observation hp side_id state.our_side) _ λ obs seen.
        put_back-IsValidState s e _ vs (find_active-IsEntry s e found).there (λ ve.
          change_identity-Keeps state.event_index e.1 ve nickname details obs hp
            (token-IsValidHp hp side_id state.our_side obs seen))

  pub identify-IsValidState :
      (side_id nickname details : String) (hp : HpToken)
      → Ensures IsValidState (identify state side_id nickname details hp)
  unfolding identify
  identify-IsValidState side_id nickname details hp =
      on_side-IsValidState side_id _
        λ s vs. identify_found-IsValidState s side_id nickname details hp (find_active s) vs refl
