-- ===== src/RequestReader/Active.antt =====
-- request_reader.py: the moves and the restrictions of the active pokemon, and `forceSwitch`.
use battle_belief.Base.{
  ℕ, pos, String, Bool, false, not, ◌&&◌, Option, none, some, List, length, ok, ◌>>=◌, ◌>>◌, guard,
  leb, ◌==◌, string_eq,
}
use battle_belief.Failures.{malformed_protocol_message}
use battle_belief.Parser.{Parsed, malformed}
use battle_belief.RequestReader.JsonValues.{
  Json, bool, int, text, array, no_items, item, Fields, find_key, get_key, require_object,
  require_string, require_string_value, require_bool, optional_bool, require_list, map_parsed,
  check_key,
}

-- `_RequestMove`
pub record RequestMove : Type 0 where
  pub move_id : String
  pub disabled : Bool

-- `_ActiveRequest`
pub record ActiveRequest : Type 0 where
  pub moves : List RequestMove
  pub can_terastallize : String
  pub trapped : Bool
  pub maybe_trapped : Bool
  pub maybe_disabled : Bool
  pub maybe_locked : Bool

-- `_validate_active_shape`
unfoldable pub validate_active_shape : Json → Parsed Fields
unfolding require_object
validate_active_shape (array (item value no_items)) = require_object value
validate_active_shape _ = malformed

abbrev pub only_bool : Json → Parsed (Option Bool)
only_bool (array (item value no_items)) = do b ← require_bool value; ok (some b)
only_bool _ = malformed

abbrev pub force_switch_of : Option Json → Parsed (Option Bool)
force_switch_of none = ok none
force_switch_of (some value) = only_bool value

-- `_parse_force_switch`; the tuple of one is its entry
unfoldable pub parse_force_switch : Fields → Parsed (Option Bool)
unfolding require_bool
parse_force_switch payload = force_switch_of (find_key payload "forceSwitch")

-- `disabled`: a Boolean, or a text that is not empty
unfoldable pub disabled_of : Option Json → Parsed Bool
disabled_of none = ok false
disabled_of (some (bool value)) = ok value
disabled_of (some (text value)) = ok (not (value == ""))
disabled_of (some _) = malformed

-- a non-negative integer
unfoldable pub require_count : Json → Parsed ℕ
require_count (int (pos n)) = ok n
require_count _ = malformed

unfoldable pub parse_request_move : Json → Parsed RequestMove
parse_request_move value = do
  move ← require_object value
  move_id ← require_string (get_key move "id")
  disabled ← disabled_of (find_key move "disabled")
  check_key require_string move "move"
  check_key require_string move "target"
  check_key require_count move "pp"
  check_key require_count move "maxpp"
  ok (record { move_id = move_id; disabled = disabled })

abbrev pub text_or_empty_text : Option Json → Parsed String
text_or_empty_text none = ok ""
text_or_empty_text (some value) = require_string_value value

-- `_parse_active_request`
unfoldable pub parse_active_request : Fields → Parsed ActiveRequest
parse_active_request payload = do
  active_info ← validate_active_shape (get_key payload "active")
  values ← require_list (get_key active_info "moves")
  guard (leb 1 (length values) && leb (length values) 4) malformed_protocol_message
  moves ← map_parsed parse_request_move values
  can_terastallize ← text_or_empty_text (find_key active_info "canTerastallize")
  trapped ← optional_bool active_info "trapped"
  maybe_trapped ← optional_bool active_info "maybeTrapped"
  maybe_disabled ← optional_bool active_info "maybeDisabled"
  maybe_locked ← optional_bool active_info "maybeLocked"
  ok (record {
    moves = moves;
    can_terastallize = can_terastallize;
    trapped = trapped;
    maybe_trapped = maybe_trapped;
    maybe_disabled = maybe_disabled;
    maybe_locked = maybe_locked;
  })
