-- ===== src/Session/Frames.antt =====
-- packages/battlebelief-runtime/src/battlebelief_runtime/adapters/showdown_protocol/frame_decoder.py:
-- the lines of a frame, with their rooms.
use Prim.Native.Char.{code}
use battle_belief.Base.{
  String, Option, none, some, List, [], ◌∷◌, Result, ok, err, ◌>>=◌, ◌==◌, nat_eq, string_eq,
  if◌then◌else◌,
}
use battle_belief.State.{onto_first}
use battle_belief.Session.Model.{Failure, malformed_protocol_message, RoomLine}

-- `frame.split("\n")`
unfoldable pub split_lines : String → List String
split_lines String.[] = String.[] ∷ []
split_lines (String.◌∷◌ c s) =
    let rest = split_lines s in if code c == b'\n' then String.[] ∷ rest else onto_first c rest

-- `raw_line[:-1] if raw_line.endswith("\r") else raw_line`
unfoldable pub chop_return : String → String
chop_return String.[] = String.[]
chop_return (String.◌∷◌ c String.[]) = if code c == b'\r' then String.[] else String.◌∷◌ c String.[]
chop_return (String.◌∷◌ c (String.◌∷◌ d s)) = String.◌∷◌ c (chop_return (String.◌∷◌ d s))

-- What a line is, without the return at its end: nothing, the mark of a room, or a line of the room.
pub data FrameLine : Type 0 where
  blank : FrameLine
  marker : String → FrameLine
  content : String → FrameLine

unfoldable pub read_line : String → FrameLine
read_line String.[] = blank
read_line (String.◌∷◌ c s) = if code c == b'>' then marker s else content (String.◌∷◌ c s)

-- The body of the loop, on one line and in the current room; `next` goes on with the other lines.
unfoldable pub decode_line :
    Option String
    → FrameLine
    → (Option String → Result Failure (List RoomLine))
    → Result Failure (List RoomLine)
decode_line current blank next = next current
decode_line current (marker String.[]) next = err malformed_protocol_message
decode_line current (marker (String.◌∷◌ c s)) next = next (some (String.◌∷◌ c s))
decode_line current (content payload) next = do
  rest ← next current
  ok ((record { room_id = current; payload = payload }) ∷ rest)

unfoldable pub decode_lines : Option String → List String → Result Failure (List RoomLine)
decode_lines current [] = ok []
decode_lines current (raw ∷ raws) =
    decode_line current (read_line (chop_return raw)) (λ room. decode_lines room raws)

-- `decode_frame`, of a text frame
unfoldable pub decode_frame : String → Result Failure (List RoomLine)
decode_frame String.[] = ok []
decode_frame (String.◌∷◌ c s) = decode_lines none (split_lines (String.◌∷◌ c s))
