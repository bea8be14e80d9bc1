-- ===== src/RequestReader/Side.antt =====
-- request_reader.py: the side of a request.
use battle_belief.Base.{
  ℕ, suc, String, Bool, false, not, ◌&&◌, ◌||◌, Option, none, some, List, [], ◌∷◌, length, ok,
  ◌>>=◌, ◌>>◌, guard, leb, ◌==◌, nat_eq, string_eq, list_eq, if◌then◌else◌,
}
use battle_belief.Base.Text.{codes}
use battle_belief.Failures.{malformed_protocol_message}
use battle_belief.Parser.{Parsed, malformed, split_once, strip_start, strip_end, ends_with}
use battle_belief.RequestReader.JsonValues.{
  Json, find_key, get_key, require_object, require_string, require_string_value, require_bool,
  bool_or, require_string_list, require_list, map_parsed, check_key,
}

-- `_RequestPokemon`
pub record RequestPokemon : Type 0 where
  pub ident : String
  pub details : String
  pub condition : String
  pub active : Bool
  pub reviving : Bool

-- `_pokemon_fainted`
unfoldable pub pokemon_fainted : String → Bool
pokemon_fainted condition =
    ends_with (strip_end (codes condition)) (codes " fnt")
    || strip_end (strip_start (codes condition)) == codes "0 fnt"

-- the nickname behind the separator, if there is one
abbrev pub nickname_or_fail : Option (String × String) → Parsed String
nickname_or_fail none = malformed
nickname_or_fail (some (before, nickname)) = do
  guard (not (nickname == "")) malformed_protocol_message
  ok nickname

-- `_nickname_from_ident`
unfoldable pub nickname_from_ident : String → Parsed String
nickname_from_ident ident = nickname_or_fail (split_once ": " ident)

-- whether an identifier, split by `partition(": ")`, is one of a side
unfoldable pub is_ident_of : String → Option (String × String) → Bool
is_ident_of side_id none = false
is_ident_of side_id (some (ident_side, nickname)) = ident_side == side_id && not (nickname == "")

-- `_parse_request_pokemon`
unfoldable pub parse_request_pokemon : String → Json → Parsed RequestPokemon
parse_request_pokemon side_id value = do
  entry ← require_object value
  ident ← require_string (get_key entry "ident")
  guard (is_ident_of side_id (split_once ": " ident)) malformed_protocol_message
  details ← require_string (get_key entry "details")
  condition ← require_string (get_key entry "condition")
  active ← require_bool (get_key entry "active")
  reviving ← bool_or false (find_key entry "reviving")
  check_key require_string_value entry "item"
  check_key require_string_value entry "ability"
  check_key require_string_list entry "moves"
  ok (record {
    ident = ident;
    details = details;
    condition = condition;
    active = active;
    reviving = reviving;
  })

-- `sum(member.active for member in pokemon)`
unfoldable pub count_active : List RequestPokemon → ℕ
count_active [] = 0
count_active (p ∷ ps) = if p.active then suc (count_active ps) else count_active ps

-- `_parse_side`
unfoldable pub parse_side : Json → Parsed (String × List RequestPokemon)
parse_side value = do
  fields ← require_object value
  side_id ← require_string (get_key fields "id")
  guard (side_id == "p1" || side_id == "p2") malformed_protocol_message
  check_key require_string fields "name"
  values ← require_list (get_key fields "pokemon")
  guard (leb 1 (length values) && leb (length values) 6) malformed_protocol_message
  members ← map_parsed (parse_request_pokemon side_id) values
  guard (leb (count_active members) 1) malformed_protocol_message
  ok (side_id, members)

-- `next((pokemon for pokemon in pokemon_list if pokemon.active), None)`
unfoldable pub first_active : List RequestPokemon → Option RequestPokemon
first_active [] = none
first_active (p ∷ ps) = if p.active then some p else first_active ps
