-- ===== src/Session/Classifier.antt =====
-- packages/battlebelief-runtime/src/battlebelief_runtime/adapters/showdown_protocol: the wire types
-- and the classifier of the lines of a room.
use Prim.Native.Char.{code}
use battle_belief.Base.{
  ℕ, String, Bool, false, List, [], ◌∷◌, ◌||◌, ◌==◌, nat_eq, string_eq, list_eq, not, if◌then◌else◌,
}
use battle_belief.Base.Text.{codes, starts_with}
pub use battle_belief.Parser.{battle_event_types}
use battle_belief.Session.Model.{
  RoomPayloadKind, battle_event, decision_request, battle_error, timer_message,
  room_control_or_chat, unknown,
}

-- `ROOM_CONTROL_TYPES`
abbrev pub room_control_types : List String
room_control_types =
    "title" ∷ "users" ∷ "join" ∷ "j" ∷ "J" ∷ "leave" ∷ "l" ∷ "L" ∷ "name" ∷ "n" ∷ "N" ∷ "chat" ∷ "c"
    ∷ "c:" ∷ ":" ∷ "html" ∷ "uhtml" ∷ "uhtmlchange" ∷ "notify" ∷ "battle" ∷ "b" ∷ "B" ∷ []

-- the code points before the first `|`
unfoldable pub until_pipe : String → List ℕ
until_pipe String.[] = []
until_pipe (String.◌∷◌ c s) =
    let rest = until_pipe s in if code c == b'|' then [] else code c ∷ rest

-- `payload.split("|")[1]` of a text that starts with `|`
unfoldable pub wire_type_of : String → List ℕ
unfolding until_pipe
wire_type_of String.[] = []
wire_type_of (String.◌∷◌ c s) = until_pipe s

abbrev pub is_one_of : List String → List ℕ → Bool
is_one_of [] w = false
is_one_of (t ∷ types) w = w == codes t || is_one_of types w

unfoldable pub classify_wire_type : List ℕ → RoomPayloadKind
classify_wire_type w =
    if w == codes "request"
    then decision_request
    else if w == codes "error"
    then battle_error
    else if w == codes "inactive" || w == codes "inactiveoff"
    then timer_message
    else if is_one_of battle_event_types w
    then battle_event
    else if is_one_of room_control_types w
    then room_control_or_chat
    else unknown

-- `classify_room_payload`; the payload itself is passed on unchanged
unfoldable pub classify_room_payload : String → RoomPayloadKind
unfolding wire_type_of classify_wire_type
classify_room_payload payload =
    if payload == "|"
    then battle_event
    else if not (starts_with payload "|") || starts_with payload "||"
    then room_control_or_chat
    else classify_wire_type (wire_type_of payload)
