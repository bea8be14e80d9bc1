-- ===== src/Reducer/Sides.antt =====
-- reducer.py: the lookups, the replacement of a pokemon, and the validity of a side.
use battle_belief.Base.{
  ℕ, zero, suc, ◌+◌, ℤ, String, Bool, true, Option, none, some, List, [], ◌∷◌, ◌≡◌, refl, ap, ◌==◌,
  ==→eq, string_eq, get_elem?, set, All, All-set, All-weaken, Ensures-weaken, arith, subst, Ensures,
  if_cases, if◌then◌else◌, Bool-cases, inl, inr,
}
use battle_belief.State.{PokemonView, SideView, ObservedState, side}
use battle_belief.Reducer.Lookup.{
  Entry, find_first, find_all, find_active, check_active, require_active, is_fainted_bench,
  the_only, require_health_target, replace_pokemon, update_side, shift, shift_all,
}
use battle_belief.Reducer.Valid.{IsValidView, IsValidSide, IsValidState, active_count}
use battle_belief.Reducer.Views.{Keeps}

-- An entry names a pokemon of the list, one that passes the test.
pub record IsEntry (test : PokemonView → Bool) (l : List PokemonView) (e : Entry) : Type 0 where
  pub there : get_elem? l e.0 ≡ some e.1
  pub passes : test e.1 ≡ true

abbrev FoundIn : (PokemonView → Bool) → List PokemonView → Option Entry → Type 0
FoundIn test l none = Unit
FoundIn test l (some e) = IsEntry test l e

shift-FoundIn :
    (test : PokemonView → Bool) (pv : PokemonView) (l : List PokemonView) (o : Option Entry)
    → FoundIn test l o
    → FoundIn test (pv ∷ l) (shift o)
shift-FoundIn test pv l none h = tt
shift-FoundIn test pv l (some (i, q)) h = record { there = h.there; passes = h.passes }

find_first-FoundIn :
    (test : PokemonView → Bool) (l : List PokemonView) → FoundIn test l (find_first test l)
unfolding find_first
find_first-FoundIn test [] = tt
find_first-FoundIn test (pv ∷ l) = elim (Bool-cases (test pv)) [
  | inl t ↦ rw t (record { there = refl; passes = t })
  | inr f ↦ rw f (shift-FoundIn test pv l (find_first test l) (find_first-FoundIn test l))
]

pub find_first-IsEntry :
    (test : PokemonView → Bool) (l : List PokemonView) (e : Entry)
    → find_first test l ≡ some e
    → IsEntry test l e
find_first-IsEntry test l e h = subst (FoundIn test l) h (find_first-FoundIn test l)

shift_all-AreEntries :
    (test : PokemonView → Bool) (pv : PokemonView) (l : List PokemonView) (es : List Entry)
    → All (IsEntry test l) es
    → All (IsEntry test (pv ∷ l)) (shift_all es)
shift_all-AreEntries test pv l [] h = tt
shift_all-AreEntries test pv l ((i, q) ∷ es) h =
    (record { there = h.0.there; passes = h.0.passes }, shift_all-AreEntries test pv l es h.1)

find_all-AreEntries :
    (test : PokemonView → Bool) (l : List PokemonView) → All (IsEntry test l) (find_all test l)
unfolding find_all
find_all-AreEntries test [] = tt
find_all-AreEntries test (pv ∷ l) =
    let rest = shift_all-AreEntries test pv l (find_all test l) (find_all-AreEntries test l) in
    if_cases (All (IsEntry test (pv ∷ l))) (test pv)
      (λ t. (record { there = refl; passes = t }, rest)) (λ _. rest)

-- The active pokemon is one of the side's, and is active.
pub find_active-IsEntry :
    (s : SideView) (e : Entry) → find_active s ≡ some e → IsEntry (λ pv. pv.active) s.pokemon e
unfolding find_active
find_active-IsEntry s e h = find_first-IsEntry (λ pv. pv.active) s.pokemon e h

check_active-IsEntry :
    (s : SideView) (nickname context : String) (o : Option Entry)
    → FoundIn (λ pv. pv.active) s.pokemon o
    → Ensures
        (λ e. IsEntry (λ pv. pv.active) s.pokemon e × (e.1.nickname ≡ nickname))
        (check_active s nickname context o)
check_active-IsEntry s nickname context none h = tt
check_active-IsEntry s nickname context (some (i, pv)) h =
    if_cases (Ensures (λ e. IsEntry (λ pv. pv.active) s.pokemon e × (e.1.nickname ≡ nickname)))
      (pv.nickname == nickname) (λ e. (h, ==→eq pv.nickname nickname e)) (λ _. tt)

-- The required pokemon is one of the side's, is active, and has the nickname.
pub require_active-IsEntry :
    (s : SideView) (nickname context : String)
    → Ensures
        (λ e. IsEntry (λ pv. pv.active) s.pokemon e × (e.1.nickname ≡ nickname))
        (require_active s nickname context)
unfolding require_active find_active
require_active-IsEntry s nickname context =
    check_active-IsEntry s nickname context (find_first (λ pv. pv.active) s.pokemon)
      (find_first-FoundIn (λ pv. pv.active) s.pokemon)

the_only-Ensures :
    (P : Entry → Type 0) (nickname : String) (es : List Entry)
    → All P es
    → Ensures P (the_only nickname es)
the_only-Ensures P nickname [] h = tt
the_only-Ensures P nickname (e ∷ []) h = h.0
the_only-Ensures P nickname (e ∷ f ∷ es) h = tt

pub require_health_target-Ensures :
    (s : SideView) (nickname : String) (slot : Option ℕ)
    → Ensures (λ e. get_elem? s.pokemon e.0 ≡ some e.1) (require_health_target s nickname slot)
unfolding require_health_target
require_health_target-Ensures s nickname none =
    the_only-Ensures (λ e. get_elem? s.pokemon e.0 ≡ some e.1) nickname
      (find_all (is_fainted_bench nickname) s.pokemon)
      (All-weaken (IsEntry (is_fainted_bench nickname) s.pokemon)
        (λ e. get_elem? s.pokemon e.0 ≡ some e.1) (λ e h. h.there)
        (find_all (is_fainted_bench nickname) s.pokemon)
        (find_all-AreEntries (is_fainted_bench nickname) s.pokemon))
require_health_target-Ensures s nickname (some slot) =
    Ensures-weaken (λ e. IsEntry (λ pv. pv.active) s.pokemon e × (e.1.nickname ≡ nickname))
      (λ e. get_elem? s.pokemon e.0 ≡ some e.1) (λ e h. h.0.there)
      (require_active s nickname "health") (require_active-IsEntry s nickname "health")

active_count-set :
    (l : List PokemonView) (i : ℕ) (pv pv' : PokemonView)
    → get_elem? l i ≡ some pv
    → pv'.active ≡ pv.active
    → active_count (set l i pv') ≡ active_count l
active_count-set [] i pv pv' h e = cc
active_count-set (q ∷ l) zero pv pv' h e = ground arith
active_count-set (q ∷ l) (suc i) pv pv' h e =
    ap (λ n. (if q.active then 1 else 0) + n) (active_count-set l i pv pv' h e)

pub replace_pokemon-IsValidSide :
    (now : ℤ) (s : SideView) (e : Entry) (pv' : PokemonView)
    → IsValidSide now s
    → get_elem? s.pokemon e.0 ≡ some e.1
    → Keeps now e.1 pv'
    → IsValidSide now (replace_pokemon s e pv')
unfolding replace_pokemon
replace_pokemon-IsValidSide now s (i, pv) pv' v h k = record {
  views = All-set (IsValidView now) s.pokemon i pv' v.views k.valid;
  one_active = rw (active_count-set s.pokemon i pv pv' h k.same_active) v.one_active;
  layers = v.layers;
}

pub side-IsValidSide :
    (state : ObservedState) (side_id : String)
    → IsValidState state
    → Ensures (IsValidSide state.event_index) (side state side_id)
unfolding side
side-IsValidSide state side_id v =
    if_cases (Ensures (IsValidSide state.event_index)) (side_id == "p1") (λ _. v.p1_side)
      (λ _.
        if_cases (Ensures (IsValidSide state.event_index)) (side_id == "p2") (λ _. v.p2_side)
          (λ _. tt))

pub update_side-IsValidState :
    (state : ObservedState) (s : SideView)
    → IsValidState state
    → IsValidSide state.event_index s
    → Ensures IsValidState (update_side state s)
unfolding update_side
update_side-IsValidState state s v h =
    if_cases (Ensures IsValidState) (s.side_id == "p1")
      (λ e. record {
        started = v.started;
        p1_id = ==→eq s.side_id "p1" e;
        p2_id = v.p2_id;
        p1_side = h;
        p2_side = v.p2_side;
      })
      (λ _.
        if_cases (Ensures IsValidState) (s.side_id == "p2")
          (λ e. record {
            started = v.started;
            p1_id = v.p1_id;
            p2_id = ==→eq s.side_id "p2" e;
            p1_side = v.p1_side;
            p2_side = h;
          })
          (λ _. tt))
