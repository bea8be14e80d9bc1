-- ===== src/Session/Decoding.antt =====
-- frame_decoder.py: frames written from blocks of lines, and how they are read.
use Prim.Native.Char.{Char, code}
use battle_belief.Base.{
  String, Bool, true, false, not, ◌&&◌, Option, none, some, List, [], ◌∷◌, ◌++◌, map, All-append,
  ok, ◌==◌, nat_eq, string_eq, ◌≡◌, ◌≢◌, refl, ap, ◌∙◌, All, arith,
}
use battle_belief.State.{onto_first}
use battle_belief.Session.Model.{RoomLine}
use battle_belief.Session.Frames.{
  split_lines, chop_return, content, read_line, decode_line, decode_lines, decode_frame,
}

-- The lines of one room.
pub record Block : Type 0 where
  pub room_id : String
  pub payloads : List String

-- a line before another one
append_line : String → String → String
append_line String.[] rest = String.◌∷◌ "\n" rest
append_line (String.◌∷◌ c s) rest = String.◌∷◌ c (append_line s rest)

join_lines : List String → String
unfolding append_line
join_lines [] = String.[]
join_lines (line ∷ []) = line
join_lines (line ∷ next ∷ lines) = append_line line (join_lines (next ∷ lines))

abbrev has_no_newline : String → Bool
has_no_newline String.[] = true
has_no_newline (String.◌∷◌ c s) = not (code c == b'\n') && has_no_newline s

split_lines-append_line :
    (line rest : String)
    → has_no_newline line ≡ true
    → split_lines (append_line line rest) ≡ line ∷ split_lines rest
unfolding split_lines append_line nat_eq onto_first
split_lines-append_line String.[] rest h = refl
split_lines-append_line (String.◌∷◌ c s) rest h =
    let ordinary : (code c == b'\n') ≡ false = ground arith in
    let others : has_no_newline s ≡ true = ground arith in
    rw (ordinary, split_lines-append_line s rest others) refl

split_lines-line : (line : String) → has_no_newline line ≡ true → split_lines line ≡ line ∷ []
unfolding split_lines onto_first
split_lines-line String.[] h = refl
split_lines-line (String.◌∷◌ c s) h =
    let ordinary : (code c == b'\n') ≡ false = ground arith in
    let others : has_no_newline s ≡ true = ground arith in
    rw (ordinary, split_lines-line s others) refl

-- A line that keeps its shape in a frame: on one line, without a return at its end.
pub record IsLine (line : String) : Type 0 where
  pub no_newline : has_no_newline line ≡ true
  pub no_return : chop_return line ≡ line

split_lines-join_lines :
    (line : String) (lines : List String)
    → All IsLine (line ∷ lines)
    → split_lines (join_lines (line ∷ lines)) ≡ line ∷ lines
unfolding join_lines
split_lines-join_lines line [] h = split_lines-line line h.0.no_newline
split_lines-join_lines line (next ∷ lines) h =
    split_lines-append_line line (join_lines (next ∷ lines)) h.0.no_newline
    ∙ ap (λ rest. line ∷ rest) (split_lines-join_lines next lines h.1)

-- A payload of a block is not empty and does not look like the mark of a room.
abbrev IsPayload : String → Type 0
IsPayload payload = IsLine payload × (read_line payload ≡ content payload)

abbrev marker_of : String → String
marker_of room_id = String.◌∷◌ ">" room_id

pub record IsBlock (b : Block) : Type 0 where
  pub named : b.room_id ≢ ""
  pub room : IsLine (marker_of b.room_id)
  pub contents : All IsPayload b.payloads

abbrev raw_lines : List Block → List String
raw_lines [] = []
raw_lines (b ∷ blocks) = marker_of b.room_id ∷ b.payloads ++ raw_lines blocks

abbrev pub room_lines : List Block → List RoomLine
room_lines [] = []
room_lines (b ∷ blocks) =
    map (λ payload. record { room_id = some b.room_id; payload = payload }) b.payloads
    ++ room_lines blocks

-- The frame that the blocks are written to.
pub frame_of : List Block → String
unfolding join_lines
frame_of blocks = join_lines (raw_lines blocks)

abbrev in_room : Option String → List String → List RoomLine
in_room current payloads = map (λ payload. record { room_id = current; payload = payload }) payloads

decode_lines-payloads :
    (current : Option String) (payloads raws : List String) (rest : List RoomLine)
    → All IsPayload payloads
    → decode_lines current raws ≡ ok rest
    → decode_lines current (payloads ++ raws) ≡ ok (in_room current payloads ++ rest)
unfolding decode_lines decode_line
decode_lines-payloads current [] raws rest h e = e
decode_lines-payloads current (payload ∷ payloads) raws rest h e =
    let later = decode_lines-payloads current payloads raws rest h.1 e in
    let line : read_line (chop_return payload) ≡ content payload =
      ap read_line h.0.0.no_return ∙ h.0.1 in
    ap (λ l. decode_line current l (λ room. decode_lines room (payloads ++ raws))) line
    ∙ rw later refl

decode_lines-marker :
    (current : Option String) (room_id : String) (raws : List String)
    → room_id ≢ ""
    → chop_return (marker_of room_id) ≡ marker_of room_id
    → decode_lines current (marker_of room_id ∷ raws) ≡ decode_lines (some room_id) raws
unfolding decode_lines decode_line read_line nat_eq
decode_lines-marker current String.[] raws named h = absurd (named refl)
decode_lines-marker current (String.◌∷◌ c s) raws named h =
    ap (λ l. decode_line current (read_line l) (λ room. decode_lines room raws)) h

decode_lines-raw_lines :
    (current : Option String) (blocks : List Block)
    → All IsBlock blocks
    → decode_lines current (raw_lines blocks) ≡ ok (room_lines blocks)
unfolding decode_lines
decode_lines-raw_lines current [] h = refl
decode_lines-raw_lines current (b ∷ blocks) h =
    decode_lines-marker current b.room_id (b.payloads ++ raw_lines blocks) h.0.named
      h.0.room.no_return
    ∙ decode_lines-payloads (some b.room_id) b.payloads (raw_lines blocks) (room_lines blocks)
        h.0.contents (decode_lines-raw_lines (some b.room_id) blocks h.1)

payloads-AreLines : (payloads : List String) → All IsPayload payloads → All IsLine payloads
payloads-AreLines [] h = tt
payloads-AreLines (payload ∷ payloads) h = (h.0.0, payloads-AreLines payloads h.1)

raw_lines-AreLines : (blocks : List Block) → All IsBlock blocks → All IsLine (raw_lines blocks)
raw_lines-AreLines [] h = tt
raw_lines-AreLines (b ∷ blocks) h = (
  h.0.room,
  All-append IsLine b.payloads (raw_lines blocks) (payloads-AreLines b.payloads h.0.contents)
      (raw_lines-AreLines blocks h.1),
)

decode_frame-nonempty :
    (frame : String) (lines : List String)
    → split_lines frame ≡ lines
    → frame ≢ ""
    → decode_frame frame ≡ decode_lines none lines
unfolding decode_frame
decode_frame-nonempty String.[] lines e full = absurd (full refl)
decode_frame-nonempty (String.◌∷◌ c s) lines e full = ap (decode_lines none) e

join_lines-nonempty :
    (c : Char) (s : String) (lines : List String) → join_lines (String.◌∷◌ c s ∷ lines) ≢ ""
unfolding join_lines append_line
join_lines-nonempty c s [] e = cc
join_lines-nonempty c s (next ∷ lines) e = cc

-- A frame written from blocks of lines, a marker and the payloads of each room, decodes to exactly
-- these lines, in their order and each with its room.
pub decode_frame-frame_of :
    (b : Block) (blocks : List Block)
    → All IsBlock (b ∷ blocks)
    → decode_frame (frame_of (b ∷ blocks)) ≡ ok (room_lines (b ∷ blocks))
unfolding frame_of
decode_frame-frame_of b blocks h =
    decode_frame-nonempty _ (raw_lines (b ∷ blocks))
      (split_lines-join_lines _ _ (raw_lines-AreLines (b ∷ blocks) h))
      (join_lines-nonempty ">" b.room_id _)
    ∙ decode_lines-raw_lines none (b ∷ blocks) h
