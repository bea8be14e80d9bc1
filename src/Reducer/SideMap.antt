-- ===== src/Reducer/SideMap.antt =====
-- reducer.py: `_update_side_condition` as an operation on a map.
use Prim.Native.Nat.{min}
use battle_belief.Base.{
  ℕ, ◌+◌, String, ◌||◌, Option, none, some, [], ◌∷◌, ◌≡◌, refl, ◌∙◌, ◌==◌, string_eq, insert_sorted,
  sorted, if◌then◌else◌, if_cases, arith,
}
use battle_belief.Reducer.Conditions.{
  Conditions, lookup, insert, erase, dict_from, pair_leb, or_zero, layer_cap, update_side_condition,
}

-- No condition is listed twice.
abbrev pub AreKeys : Conditions → Type 0
AreKeys [] = Unit
AreKeys ((j, v) ∷ d) = (lookup j d ≡ none) × AreKeys d

lookup-insert :
    (k j : String) (v : ℕ) (d : Conditions)
    → lookup k (insert j v d) ≡ (if j == k then some v else lookup k d)
unfolding lookup insert
lookup-insert k j v [] = refl
lookup-insert k j v ((i, w) ∷ d) = ground (arith, lookup-insert k j v d)

lookup-erase :
    (k j : String) (d : Conditions) → lookup k (erase j d) ≡ (if j == k then none else lookup k d)
unfolding lookup erase
lookup-erase k j [] = ground arith
lookup-erase k j ((i, w) ∷ d) = ground (arith, lookup-erase k j d)

insert-AreKeys : (j : String) (v : ℕ) (d : Conditions) → AreKeys d → AreKeys (insert j v d)
unfolding insert lookup
insert-AreKeys j v [] h = (refl, tt)
insert-AreKeys j v ((i, w) ∷ d) h =
    if_cases AreKeys (i == j) (λ same. h)
      (λ other. (ground (arith, lookup-insert i j v d), insert-AreKeys j v d h.1))

erase-AreKeys : (j : String) (d : Conditions) → AreKeys d → AreKeys (erase j d)
unfolding erase lookup
erase-AreKeys j [] h = tt
erase-AreKeys j ((i, w) ∷ d) h =
    if_cases AreKeys (i == j) (λ same. erase-AreKeys j d h.1)
      (λ other. (ground (arith, lookup-erase i j d), erase-AreKeys j d h.1))

abbrev or_else : Option ℕ → Option ℕ → Option ℕ
or_else none layers = layers
or_else (some n) layers = some n

lookup-dict_from :
    (k : String) (d pairs : Conditions)
    → AreKeys pairs
    → lookup k (dict_from d pairs) ≡ or_else (lookup k pairs) (lookup k d)
unfolding lookup dict_from
lookup-dict_from k d [] h = refl
lookup-dict_from k d ((j, v) ∷ pairs) h =
    lookup-dict_from k (insert j v d) pairs h.1 ∙ ground (arith, lookup-insert k j v d)

dict_from-AreKeys : (d pairs : Conditions) → AreKeys d → AreKeys (dict_from d pairs)
unfolding dict_from
dict_from-AreKeys d [] h = h
dict_from-AreKeys d ((j, v) ∷ pairs) h =
    dict_from-AreKeys (insert j v d) pairs (insert-AreKeys j v d h)

-- Sorting leaves the map as it is.
lookup-insert_sorted :
    (k j : String) (v : ℕ) (d : Conditions)
    → lookup j d ≡ none
    → lookup k (insert_sorted pair_leb (j, v) d) ≡ lookup k ((j, v) ∷ d)
unfolding lookup insert_sorted
lookup-insert_sorted k j v [] h = refl
lookup-insert_sorted k j v ((i, w) ∷ d) h = ground (arith, lookup-insert_sorted k j v d)

insert_sorted-AreKeys :
    (j : String) (v : ℕ) (d : Conditions)
    → lookup j d ≡ none
    → AreKeys d
    → AreKeys (insert_sorted pair_leb (j, v) d)
unfolding lookup insert_sorted
insert_sorted-AreKeys j v [] h keys = (refl, tt)
insert_sorted-AreKeys j v ((i, w) ∷ d) h keys =
    if_cases AreKeys (pair_leb (j, v) (i, w)) (λ first. (h, keys))
      (λ later. (
        ground (arith, lookup-insert_sorted i j v d),
        insert_sorted-AreKeys j v d (ground arith) keys.1,
      ))

lookup-sorted :
    (k : String) (d : Conditions) → AreKeys d → lookup k (sorted pair_leb d) ≡ lookup k d
unfolding lookup sorted
lookup-sorted k [] h = refl
lookup-sorted k ((j, v) ∷ d) h =
    let absent : lookup j (sorted pair_leb d) ≡ none = lookup-sorted j d h.1 ∙ h.0 in
    lookup-insert_sorted k j v (sorted pair_leb d) absent ∙ ground (arith, lookup-sorted k d h.1)

sorted-AreKeys : (d : Conditions) → AreKeys d → AreKeys (sorted pair_leb d)
unfolding sorted
sorted-AreKeys [] h = tt
sorted-AreKeys ((j, v) ∷ d) h =
    insert_sorted-AreKeys j v (sorted pair_leb d) (lookup-sorted j d h.1 ∙ h.0)
      (sorted-AreKeys d h.1)

-- What an action makes of the map: a started or kept condition gains a layer up to its cap, an ended
-- one is gone, and every other one stays.
pub layers_after : (String → Option ℕ) → String → String → String → Option ℕ
layers_after layers condition action k =
    if condition == k
    then (if action == "start" || action == "upkeep"
        then some (min (or_zero (layers k) + 1) (layer_cap k))
        else if action == "end"
        then none
        else layers k)
    else layers k

or_else-none : (layers : Option ℕ) → or_else layers none ≡ layers
or_else-none none = refl
or_else-none (some n) = refl

lookup-dict :
    (k : String) (conditions : Conditions)
    → AreKeys conditions
    → lookup k (dict_from [] conditions) ≡ lookup k conditions
unfolding lookup
lookup-dict k conditions h = lookup-dict_from k [] conditions h ∙ or_else-none (lookup k conditions)

-- the dict of `update_side_condition` before it is sorted
abbrev changed : Conditions → String → String → Conditions
changed d condition action =
    if action == "start" || action == "upkeep"
    then insert condition (min (or_zero (lookup condition d) + 1) (layer_cap condition)) d
    else if action == "end"
    then erase condition d
    else d

changed-AreKeys :
    (d : Conditions) (condition action : String) → AreKeys d → AreKeys (changed d condition action)
changed-AreKeys d condition action h =
    if_cases AreKeys (action == "start" || action == "upkeep") (λ _. insert-AreKeys condition _ d h)
      (λ _. if_cases AreKeys (action == "end") (λ _. erase-AreKeys condition d h) (λ _. h))

lookup-changed :
    (k : String) (d : Conditions) (condition action : String)
    → lookup k (changed d condition action) ≡ layers_after (λ j. lookup j d) condition action k
unfolding layers_after
lookup-changed k d condition action = ground (
  arith,
  lookup-erase k condition d,
  lookup-insert k condition (min (or_zero (lookup condition d) + 1) (layer_cap condition)) d,
)

-- As a map from conditions to layers, with each condition listed once, the updated pairs are the
-- former map with the action made on one condition, and again each condition is listed once.
pub update_side_condition-layers_after :
    (conditions : Conditions) (condition action : String)
    → AreKeys conditions
    → AreKeys (update_side_condition conditions condition action)
      × ((k : String)
          → lookup k (update_side_condition conditions condition action)
            ≡ layers_after (λ j. lookup j conditions) condition action k)
unfolding update_side_condition layers_after
update_side_condition-layers_after conditions condition action h =
    let d = dict_from [] conditions in
    let keys = changed-AreKeys d condition action (dict_from-AreKeys [] conditions tt) in
    (
      sorted-AreKeys (changed d condition action) keys,
      λ k.
          lookup-sorted k (changed d condition action) keys
          ∙ lookup-changed k d condition action
          ∙ same_map k,
    )
  where
    same_map :
        (k : String)
        → layers_after (λ j. lookup j (dict_from [] conditions)) condition action k
          ≡ layers_after (λ j. lookup j conditions) condition action k
    same_map k = rw (lookup-dict k conditions h) refl
