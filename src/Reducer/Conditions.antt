-- ===== src/Reducer/Conditions.antt =====
-- reducer.py: layers of a side's conditions, and the intervals in which evidence holds.
use Prim.Native.Nat.{min}
use battle_belief.Base.{
  ℕ, ◌+◌, ℤ, String, Bool, false, ◌||◌, ◌&&◌, Option, none, some, List, [], ◌∷◌, ◌++◌, map, ◌==◌,
  string_eq, option_eq, leb, sorted, get_last?, is_none, if◌then◌else◌,
}
use battle_belief.Base.Int.{int_eq}
use battle_belief.Base.Text.{str_leb}
use battle_belief.State.{EvidenceInterval}

abbrev pub Conditions : Type 0
Conditions = List (String × ℕ)

-- A dict in insertion order: `d.get(k)`, `d[k] = v` and `d.pop(k, None)`.
unfoldable pub lookup : String → Conditions → Option ℕ
lookup k [] = none
lookup k ((j, v) ∷ d) = if j == k then some v else lookup k d

unfoldable pub insert : String → ℕ → Conditions → Conditions
insert k v [] = (k, v) ∷ []
insert k v ((j, w) ∷ d) = if j == k then (j, v) ∷ d else (j, w) ∷ insert k v d

unfoldable pub erase : String → Conditions → Conditions
erase k [] = []
erase k ((j, w) ∷ d) = let rest = erase k d in if j == k then rest else (j, w) ∷ rest

-- `dict(pairs)`: a later pair of a key takes the place of an earlier one.
unfoldable pub dict_from : Conditions → Conditions → Conditions
dict_from d [] = d
dict_from d ((k, v) ∷ pairs) = dict_from (insert k v d) pairs

-- `<=` of pairs
unfoldable pub pair_leb : String × ℕ → String × ℕ → Bool
pair_leb (j, v) (k, w) = if j == k then leb v w else str_leb j k

abbrev pub or_zero : Option ℕ → ℕ
or_zero none = 0
or_zero (some n) = n

-- `_LAYER_CAPS.get(condition, _DEFAULT_LAYER_CAP)`
unfoldable pub layer_cap : String → ℕ
layer_cap condition =
    if condition == "spikes" then 3 else if condition == "toxicspikes" then 2 else 1

unfoldable pub update_side_condition : Conditions → String → String → Conditions
update_side_condition conditions condition action =
    let cond_dict = dict_from [] conditions in
    sorted pair_leb (
      if action == "start" || action == "upkeep"
      then insert condition (min (or_zero (lookup condition cond_dict) + 1) (layer_cap condition))
          cond_dict
      else if action == "end"
      then erase condition cond_dict
      else cond_dict)

abbrev pub close_interval : ℤ → EvidenceInterval → EvidenceInterval
close_interval event_index iv =
    if is_none iv.valid_until then record iv { valid_until = some event_index } else iv

unfoldable pub close_open_interval : List EvidenceInterval → ℤ → List EvidenceInterval
close_open_interval intervals event_index = map (close_interval event_index) intervals

unfoldable pub open_interval : List EvidenceInterval → Option String → ℤ → List EvidenceInterval
open_interval intervals value event_index =
    close_open_interval intervals event_index
    ++ (record {
      value = value;
      source_event_index = event_index;
      valid_from = event_index;
      valid_until = none;
    })
      ∷ []

abbrev pub is_suppression : Option EvidenceInterval → Bool
is_suppression none = false
is_suppression (some iv) = is_none iv.valid_until && is_none iv.value

unfoldable pub end_ability_suppression_on_switch_out :
    List EvidenceInterval → ℤ → List EvidenceInterval
end_ability_suppression_on_switch_out intervals event_index =
    if is_suppression (get_last? intervals)
    then close_open_interval intervals event_index
    else intervals
