-- ===== src/Reducer/SwitchIn.antt =====
-- reducer.py: `_activate_pokemon` and the validity of a side.
use battle_belief.Base.{
  ℕ, zero, suc, ◌+◌, ℤ, negsuc, ◌≤ℤ◌, String, true, Option, none, some, List, [], ◌∷◌, ◌++◌, map,
  ◌≡◌, refl, set, get_elem?, All, All-append, All-set, All-map, All-get, arith,
}
use battle_belief.State.{HpObservation, PokemonView, SideView}
use battle_belief.Reducer.Lookup.{Entry, find_for_switch_in}
use battle_belief.Reducer.Switching.{
  deactivate, activate_new, activate_existing, put_on_field, activate_pokemon,
}
use battle_belief.Reducer.Valid.{IsValidHp, IsValidView, IsValidSide, active_count}
use battle_belief.Reducer.Views.{
  deactivate-IsValidView, activate_existing-IsValidView, activate_new-IsValidView,
}
use battle_belief.Reducer.Sides.{find_first-IsEntry}

active_count-append :
    (l r : List PokemonView) → active_count (l ++ r) ≡ active_count l + active_count r
active_count-append [] r = omega arith
active_count-append (pv ∷ l) r = omega (arith, active_count-append l r)

-- Nobody is left on the field.
pub active_count-deactivated :
    (now : ℤ) (l : List PokemonView) → active_count (map (deactivate now) l) ≡ 0
unfolding deactivate
active_count-deactivated now [] = refl
active_count-deactivated now (pv ∷ l) = ground (arith, active_count-deactivated now l)

active_count-set_active :
    (l : List PokemonView) (i : ℕ) (pv pv' : PokemonView)
    → get_elem? l i ≡ some pv
    → active_count l ≡ 0
    → pv'.active ≡ true
    → active_count (set l i pv') ≡ 1
active_count-set_active [] i pv pv' h z a = cc
active_count-set_active (q ∷ l) zero pv pv' h z a = ground arith
active_count-set_active (q ∷ l) (suc i) pv pv' h z a =
    omega (arith, active_count-set_active l i pv pv' h (omega arith) a)

module _ (now : ℤ) (s : SideView) (v : IsValidSide now s) (nickname details : String)
    (hp : HpObservation) (status : Option String) where
  put_on_field-IsValidSide :
      (l : List PokemonView) (o : Option Entry)
      → All (IsValidView now) l
      → active_count l ≡ 0
      → negsuc 0 ≤ℤ now
      → IsValidHp hp
      → ((e : Entry) → o ≡ some e → get_elem? l e.0 ≡ some e.1)
      → IsValidSide now (put_on_field s nickname details hp status l o)
        × (active_count (put_on_field s nickname details hp status l o).pokemon ≡ 1)
  unfolding activate_new activate_existing
  put_on_field-IsValidSide l none h z le ok there =
      let counted : active_count (l ++ activate_new s nickname details hp status ∷ []) ≡ 1 =
        omega (arith, active_count-append l (activate_new s nickname details hp status ∷ [])) in
      (
        record {
          views =
              All-append (IsValidView now) l _ h
                (activate_new-IsValidView now s nickname details hp status le ok, tt);
          one_active = omega (arith, counted);
          layers = v.layers;
        },
        counted,
      )
  put_on_field-IsValidSide l (some (i, pv)) h z le ok there =
      let at = there (i, pv) refl in
      let pv' = activate_existing pv details hp status in
      let counted : active_count (set l i pv') ≡ 1 = active_count-set_active l i pv pv' at z refl in
      (
        record {
          views = All-set (IsValidView now) l i pv' h (
              activate_existing-IsValidView now pv (All-get (IsValidView now) l i pv at h) details
                hp status ok);
          one_active = omega (arith, counted);
          layers = v.layers;
        },
        counted,
      )

  -- After a switch-in the side is valid and exactly one of its pokemon is on the field.
  pub activate_pokemon-IsValidSide :
      negsuc 0 ≤ℤ now
      → IsValidHp hp
      → IsValidSide now (activate_pokemon s nickname details hp status now)
        × (active_count (activate_pokemon s nickname details hp status now).pokemon ≡ 1)
  unfolding activate_pokemon find_for_switch_in
  activate_pokemon-IsValidSide le ok =
      let l = map (deactivate now) s.pokemon in
      put_on_field-IsValidSide l (find_for_switch_in l nickname details)
        (All-map (IsValidView now) (IsValidView now) (deactivate now)
          (λ pv vp. deactivate-IsValidView now pv vp now (omega arith)) s.pokemon v.views)
        (active_count-deactivated now s.pokemon) le ok
        (λ e found. (find_first-IsEntry _ l e found).there)
