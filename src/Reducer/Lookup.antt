-- ===== src/Reducer/Lookup.antt =====
-- reducer.py: finding a pokemon and putting a new version of it back.
use battle_belief.Base.{
  ℕ, suc, pos, max_ℤ, String, Bool, true, false, not, ◌&&◌, Option, none, some, List, [], ◌∷◌, ok,
  err, ◌==◌, string_eq, option_eq, set, if◌then◌else◌,
}
use battle_belief.Base.Int.{int_eq}
use battle_belief.Errors.{
  Core, reducer_invariant, no_active, nickname_mismatch, ambiguous_target, invalid_side_id,
}
use battle_belief.State.{
  HpToken, HpObservation, HpPrecision, exact, percent, pixel, hp_observation, PokemonView, SideView,
  ObservedState, normalize_identity_details,
}

-- A Python object of `side.pokemon`, which the code compares by identity (`is`): its place there and
-- the value it has. No object stands in two places, since every place is filled by a new object.
abbrev pub Entry : Type 0
Entry = ℕ × PokemonView

abbrev pub precision_of : HpToken → String → Option String → HpPrecision
precision_of token side_id our_side =
    if our_side == some side_id then exact else if token.maximum == pos 100 then percent else pixel

unfoldable pub token_to_observation : HpToken → String → Option String → Core HpObservation
token_to_observation token side_id our_side =
    let precision = precision_of token side_id our_side in
    if token.fainted
    then hp_observation (pos 0) (max_ℤ token.maximum (pos 1)) precision true
    else hp_observation token.current token.maximum precision false

abbrev pub shift : Option Entry → Option Entry
shift none = none
shift (some (i, pv)) = some (suc i, pv)

-- `next((pv for pv in pokemon if test(pv)), None)`
unfoldable pub find_first : (PokemonView → Bool) → List PokemonView → Option Entry
find_first test [] = none
find_first test (pv ∷ pvs) = if test pv then some (0, pv) else shift (find_first test pvs)

abbrev pub shift_all : List Entry → List Entry
shift_all [] = []
shift_all ((i, pv) ∷ rest) = (suc i, pv) ∷ shift_all rest

-- `[pv for pv in pokemon if test(pv)]`, as objects
unfoldable pub find_all : (PokemonView → Bool) → List PokemonView → List Entry
find_all test [] = []
find_all test (pv ∷ pvs) =
    let rest = shift_all (find_all test pvs) in if test pv then (0, pv) ∷ rest else rest

unfoldable pub find_active : SideView → Option Entry
find_active side = find_first (λ pv. pv.active) side.pokemon

abbrev pub check_active : SideView → String → String → Option Entry → Core Entry
check_active side nickname context none = err (reducer_invariant (no_active context side.side_id))
check_active side nickname context (some (i, pv)) =
    if pv.nickname == nickname
    then ok (i, pv)
    else err (reducer_invariant (nickname_mismatch context side.side_id))

unfoldable pub require_active : SideView → String → String → Core Entry
require_active side nickname context = check_active side nickname context (find_active side)

-- the test of the candidates of an event that names no position
abbrev pub is_fainted_bench : String → PokemonView → Bool
is_fainted_bench nickname pv = not pv.active && (pv.fainted && pv.nickname == nickname)

abbrev pub the_only : String → List Entry → Core Entry
the_only nickname [] = err (reducer_invariant (ambiguous_target nickname))
the_only nickname (e ∷ []) = ok e
the_only nickname (e ∷ f ∷ rest) = err (reducer_invariant (ambiguous_target nickname))

unfoldable pub require_health_target : SideView → String → Option ℕ → Core Entry
require_health_target side nickname (some slot) = require_active side nickname "health"
require_health_target side nickname none =
    the_only nickname (find_all (is_fainted_bench nickname) side.pokemon)

abbrev pub is_switch_target : String → String → PokemonView → Bool
is_switch_target nickname identity pv = pv.nickname == nickname && pv.switch_identity == identity

unfoldable pub find_for_switch_in : List PokemonView → String → String → Option Entry
find_for_switch_in pokemon nickname details =
    find_first (is_switch_target nickname (normalize_identity_details details)) pokemon

unfoldable pub replace_pokemon : SideView → Entry → PokemonView → SideView
replace_pokemon side (i, original) updated = record side { pokemon = set side.pokemon i updated }

unfoldable pub update_side : ObservedState → SideView → Core ObservedState
update_side state new_side =
    if new_side.side_id == "p1"
    then ok (record state { p1 = new_side })
    else if new_side.side_id == "p2"
    then ok (record state { p2 = new_side })
    else err (reducer_invariant (invalid_side_id new_side.side_id))
