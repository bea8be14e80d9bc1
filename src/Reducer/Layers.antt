-- ===== src/Reducer/Layers.antt =====
-- reducer.py: the layers of the side conditions and their caps.
use Prim.Native.Nat.{min}
use battle_belief.Base.{
  ℕ, ◌+◌, ◌≤◌, String, Bool, List, [], ◌∷◌, ◌==◌, string_eq, ==→eq, All, arith, if_intro, if_cases,
  insert_sorted, sorted, ◌||◌, sym, subst,
}
use battle_belief.Reducer.Conditions.{
  Conditions, lookup, insert, erase, dict_from, pair_leb, or_zero, layer_cap, update_side_condition,
}
use battle_belief.Reducer.Valid.{IsLayered}

insert_sorted-All {ℓ κ} :
    {A : Type ℓ} (P : A → Type κ) (le : A → A → Bool) (x : A) (l : List A)
    → P x
    → All P l
    → All P (insert_sorted le x l)
unfolding insert_sorted
insert_sorted-All P le x [] p h = (p, tt)
insert_sorted-All P le x (y ∷ l) p h =
    if_intro (All P) (le x y) (p, h) (h.0, insert_sorted-All P le x l p h.1)

-- Sorting moves the items only.
pub sorted-All {ℓ κ} :
    {A : Type ℓ} (P : A → Type κ) (le : A → A → Bool) (l : List A) → All P l → All P (sorted le l)
unfolding sorted
sorted-All P le [] h = tt
sorted-All P le (x ∷ l) h = insert_sorted-All P le x (sorted le l) h.0 (sorted-All P le l h.1)

abbrev AreLayered : Conditions → Type 0
AreLayered = All IsLayered

insert-AreLayered :
    (k : String) (v : ℕ) (d : Conditions)
    → IsLayered (k, v)
    → AreLayered d
    → AreLayered (insert k v d)
unfolding insert
insert-AreLayered k v [] p h = (p, tt)
insert-AreLayered k v ((j, w) ∷ d) p h =
    if_cases AreLayered (j == k)
      (λ e. (subst (λ (c : String). IsLayered (c, v)) (sym (==→eq j k e)) p, h.1))
      (λ _. (h.0, insert-AreLayered k v d p h.1))

erase-AreLayered : (k : String) (d : Conditions) → AreLayered d → AreLayered (erase k d)
unfolding erase
erase-AreLayered k [] h = tt
erase-AreLayered k ((j, w) ∷ d) h =
    if_intro AreLayered (j == k) (erase-AreLayered k d h.1) (h.0, erase-AreLayered k d h.1)

dict_from-AreLayered : (d l : Conditions) → AreLayered d → AreLayered l → AreLayered (dict_from d l)
unfolding dict_from
dict_from-AreLayered d [] hd hl = hd
dict_from-AreLayered d ((k, v) ∷ l) hd hl =
    dict_from-AreLayered (insert k v d) l (insert-AreLayered k v d hl.0 hd) hl.1

pub layer_cap_pos : (condition : String) → 1 ≤ layer_cap condition
unfolding layer_cap
layer_cap_pos condition = ground arith

-- One more layer, up to the cap, whatever was there.
next_layer-IsLayered :
    (condition : String) (n : ℕ) → IsLayered (condition, min (n + 1) (layer_cap condition))
next_layer-IsLayered condition n = omega (arith, layer_cap_pos condition)

-- If every side condition has one layer up to its cap, so it is after any action on a condition.
pub update_side_condition-AreLayered :
    (conditions : Conditions) (condition action : String)
    → All IsLayered conditions
    → All IsLayered (update_side_condition conditions condition action)
unfolding update_side_condition
update_side_condition-AreLayered conditions condition action h =
    let d = dict_from [] conditions in
    let hd = dict_from-AreLayered [] conditions tt h in
    sorted-All IsLayered pair_leb _ (
      if_intro AreLayered (action == "start" || action == "upkeep")
        (insert-AreLayered condition _ d
          (next_layer-IsLayered condition (or_zero (lookup condition d))) hd)
        (if_intro AreLayered (action == "end") (erase-AreLayered condition d hd) hd))
