-- ===== src/Reducer/Fielded.antt =====
-- reducer.py: `_activate_pokemon` and the lookup of the active pokemon.
use battle_belief.Base.{
  ℕ, zero, suc, ℤ, String, Bool, true, false, Option, none, some, List, [], ◌∷◌, ◌++◌, map, ◌≡◌,
  refl, ok, set, get_elem?, length, ◌==◌, string_eq, arith,
}
use battle_belief.State.{
  HpObservation, PokemonView, SideView, zero_boosts, new_pokemon_view, normalize_identity_details,
}
use battle_belief.Reducer.Lookup.{
  Entry, find_first, find_active, require_active, is_switch_target, find_for_switch_in,
}
use battle_belief.Reducer.Switching.{
  deactivate, activate_new, activate_existing, put_on_field, activate_pokemon,
}
use battle_belief.Reducer.Valid.{active_count}
use battle_belief.Reducer.Sides.{find_first-IsEntry}
use battle_belief.Reducer.SwitchIn.{active_count-deactivated}

abbrev is_active : PokemonView → Bool
is_active pv = pv.active

-- A pokemon put behind a team that is off the field is the one found.
find_first-append :
    (l : List PokemonView) (pv : PokemonView)
    → active_count l ≡ 0
    → pv.active ≡ true
    → find_first is_active (l ++ pv ∷ []) ≡ some (length l, pv)
unfolding find_first
find_first-append [] pv z a = rw a refl
find_first-append (q ∷ l) pv z a =
    let off : q.active ≡ false = ground arith in
    let rest : active_count l ≡ 0 = omega arith in rw (off, find_first-append l pv rest a) refl

-- So is one that takes the place of a member of the team.
find_first-set :
    (l : List PokemonView) (i : ℕ) (q pv : PokemonView)
    → get_elem? l i ≡ some q
    → active_count l ≡ 0
    → pv.active ≡ true
    → find_first is_active (set l i pv) ≡ some (i, pv)
unfolding find_first
find_first-set [] i q pv h z a = cc
find_first-set (r ∷ l) zero q pv h z a = rw a refl
find_first-set (r ∷ l) (suc i) q pv h z a =
    let off : r.active ≡ false = ground arith in
    let rest : active_count l ≡ 0 = omega arith in rw (off, find_first-set l i q pv h rest a) refl

-- The events that name this pokemon find it fresh on the field: with these hit points, this status
-- and these details, without boosts or volatiles, and not fainted.
pub record IsFielded (s : SideView) (nickname details : String) (hp : HpObservation)
    (status : Option String) (e : Entry) : Type 0 where
  pub found : (context : String) → require_active s nickname context ≡ ok e
  pub has_nickname : e.1.nickname ≡ nickname
  pub has_details : e.1.current_details ≡ some details
  pub has_hp : e.1.hp ≡ some hp
  pub has_status : e.1.status ≡ status
  pub no_boosts : e.1.boosts ≡ zero_boosts
  pub no_volatiles : e.1.volatiles ≡ []
  pub not_fainted : e.1.fainted ≡ false

found_on_field :
    (s : SideView) (nickname context : String) (i : ℕ) (pv : PokemonView)
    → find_active s ≡ some (i, pv)
    → pv.nickname ≡ nickname
    → require_active s nickname context ≡ ok (i, pv)
unfolding require_active
found_on_field s nickname context i pv h same =
    let named : (pv.nickname == nickname) ≡ true = ground arith in rw (h, named) refl

target_nickname :
    (nickname identity : String) (pv : PokemonView)
    → is_switch_target nickname identity pv ≡ true
    → pv.nickname ≡ nickname
target_nickname nickname identity pv h = ground arith

put_on_field-IsFielded :
    (s : SideView) (nickname details : String) (hp : HpObservation) (status : Option String)
    (l : List PokemonView) (o : Option Entry)
    → active_count l ≡ 0
    → find_for_switch_in l nickname details ≡ o
    → (e : Entry) × IsFielded
        (put_on_field s nickname details hp status l o)
        nickname
        details
        hp
        status
        e
unfolding activate_new activate_existing find_for_switch_in find_active new_pokemon_view
put_on_field-IsFielded s nickname details hp status l none z same =
    let pv = activate_new s nickname details hp status in
    (
      (length l, pv),
      record {
        found = λ context.
            found_on_field (put_on_field s nickname details hp status l none) nickname context
              (length l) pv (find_first-append l pv z refl) refl;
        has_nickname = refl;
        has_details = refl;
        has_hp = refl;
        has_status = refl;
        no_boosts = refl;
        no_volatiles = refl;
        not_fainted = refl;
      },
    )
put_on_field-IsFielded s nickname details hp status l (some (i, q)) z same =
    let pv = activate_existing q details hp status in
    let entry =
      find_first-IsEntry (is_switch_target nickname (normalize_identity_details details)) l (i, q)
        same in
    let named = target_nickname nickname (normalize_identity_details details) q entry.passes in
    (
      (i, pv),
      record {
        found = λ context.
            found_on_field (put_on_field s nickname details hp status l (some (i, q))) nickname
              context i pv (find_first-set l i q pv entry.there z refl) named;
        has_nickname = named;
        has_details = refl;
        has_hp = refl;
        has_status = refl;
        no_boosts = refl;
        no_volatiles = refl;
        not_fainted = refl;
      },
    )

-- After a switch-in, of a pokemon seen before or of a new one, the events that name it find it fresh
-- on the field: with these hit points, this status and these details, without boosts or volatiles,
-- and not fainted.
pub activate_pokemon-IsFielded :
    (s : SideView) (nickname details : String) (hp : HpObservation) (status : Option String)
    (now : ℤ)
    → (e : Entry) × IsFielded
        (activate_pokemon s nickname details hp status now)
        nickname
        details
        hp
        status
        e
unfolding activate_pokemon
activate_pokemon-IsFielded s nickname details hp status now =
    put_on_field-IsFielded s nickname details hp status (map (deactivate now) s.pokemon) _
      (active_count-deactivated now s.pokemon) refl
