-- ===== src/RequestReader/JsonValues.antt =====
-- request_reader.py: the values of `json.loads`, and the helpers that look at them.
use battle_belief.Base.{
  ℕ, ℤ, pos, String, Bool, false, not, Option, none, some, List, [], ◌∷◌, ok, err, ◌>>=◌, ◌>>◌,
  guard, ◌==◌, string_eq, if◌then◌else◌,
}
use battle_belief.Failures.{malformed_protocol_message, request_state_reconciliation_mismatch}
use battle_belief.Parser.{Parsed, malformed}

-- What `json.loads` returns. A number that is no integer is a `float`, by its text.
mutual
  pub data Json : Type 0 where
    null : Json
    bool : Bool → Json
    int : ℤ → Json
    float : String → Json
    text : String → Json
    array : Items → Json
    object : Fields → Json

  pub data Items : Type 0 where
    no_items : Items
    item : Json → Items → Items

  pub data Fields : Type 0 where
    no_fields : Fields
    field : String → Json → Fields → Fields

unfoldable pub items : Items → List Json
items no_items = []
items (item value rest) = value ∷ items rest

-- `payload[key]`, if `key in payload`
unfoldable pub find_key : Fields → String → Option Json
find_key no_fields key = none
find_key (field name value rest) key =
    let later = find_key rest key in if name == key then some value else later

abbrev pub or_null : Option Json → Json
or_null none = null
or_null (some value) = value

-- `payload.get(key)`
unfoldable pub get_key : Fields → String → Json
get_key fields key = or_null (find_key fields key)

-- `_require_rqid`
unfoldable pub rqid_of_value : Option Json → Parsed ℕ
rqid_of_value (some (int (pos rqid))) = ok rqid
rqid_of_value _ = err request_state_reconciliation_mismatch

unfoldable pub require_rqid : Fields → Parsed ℕ
unfolding rqid_of_value
require_rqid payload = rqid_of_value (find_key payload "rqid")

-- `_require_object`
unfoldable pub require_object : Json → Parsed Fields
require_object (object fields) = ok fields
require_object _ = malformed

-- `_require_string`
unfoldable pub require_string : Json → Parsed String
require_string (text value) = do guard (not (value == "")) malformed_protocol_message; ok value
require_string _ = malformed

-- `_require_string_value`
unfoldable pub require_string_value : Json → Parsed String
require_string_value (text value) = ok value
require_string_value _ = malformed

-- `_require_bool`
unfoldable pub require_bool : Json → Parsed Bool
require_bool (bool value) = ok value
require_bool _ = malformed

abbrev pub bool_or : Bool → Option Json → Parsed Bool
bool_or otherwise none = ok otherwise
bool_or otherwise (some value) = require_bool value

-- `_optional_bool`
unfoldable pub optional_bool : Fields → String → Parsed Bool
unfolding require_bool
optional_bool payload key = bool_or false (find_key payload key)

-- `isinstance(value, list)`
unfoldable pub require_list : Json → Parsed (List Json)
unfolding items
require_list (array values) = ok (items values)
require_list _ = malformed

-- `[f(x) for x in xs]`, where f may raise
unfoldable pub map_parsed : {A B : Type 0} → (A → Parsed B) → List A → Parsed (List B)
map_parsed f [] = ok []
map_parsed f (x ∷ xs) = do y ← f x; ys ← map_parsed f xs; ok (y ∷ ys)

-- `_require_string_list`
unfoldable pub require_string_list : Json → Parsed (List String)
require_string_list value = do values ← require_list value; map_parsed require_string_value values

-- a check of the value of a key that may be missing
unfoldable pub check_key : {A : Type 0} → (Json → Parsed A) → Fields → String → Parsed Unit
check_key check payload key = elim (find_key payload key) [
  | none ↦ ok tt
  | some value ↦ check value >>= (λ _. ok tt)
]
