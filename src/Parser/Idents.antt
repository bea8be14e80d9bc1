-- ===== src/Parser/Idents.antt =====
-- adapters/showdown_protocol/parser.py: the small pure helpers.
use Prim.Native.Char.{Char, code}
use battle_belief.Base.{
  ℕ, ℤ, pos, ltb_ℤ, String, Bool, true, false, not, ◌&&◌, ◌||◌, Option, none, some, List, [], ◌∷◌,
  get_elem?, drop, length, sorted, filter, Result, ok, err, ◌>>=◌, ◌>>◌, guard, leb, ◌==◌, nat_eq,
  string_eq, list_eq, option_eq, if◌then◌else◌,
}
use battle_belief.Base.Text.{codes, starts_with, str_leb}
use battle_belief.Errors.{Core, index_error}
use battle_belief.State.{HpToken}
use battle_belief.Events.{BattleEvent, EventBody}
use battle_belief.Failures.{Failure, core, malformed_protocol_message}
use battle_belief.Parser.Words.{
  split_on, split_once, occurs_in, is_digit_code, is_alpha_code, is_space_code, read_int,
}

-- What a handler returns.
abbrev pub Parsed : Type 0 → Type 0
Parsed = Result Failure

-- `raise MalformedProtocolMessage`
abbrev pub malformed : {A : Type 0} → Parsed A
malformed = err malformed_protocol_message

-- a construction that may raise, in code of the adapters
abbrev pub from_core : {A : Type 0} → Core A → Parsed A
from_core (ok value) = ok value
from_core (err e) = err (core e)

abbrev pub event_at : ℤ → EventBody → BattleEvent
event_at index body = record { event_index = index; body = body }

-- `_split`
abbrev pub wire_and_args : List String → String × List String
wire_and_args [] = ("", [])
wire_and_args (before ∷ []) = ("", [])
wire_and_args (before ∷ wire_type ∷ args) = (wire_type, args)

unfoldable pub split_payload : String → String × List String
split_payload payload = wire_and_args (split_on b'|' payload)

abbrev pub all_digits : List ℕ → Bool
all_digits [] = true
all_digits (c ∷ cs) = is_digit_code c && all_digits cs

-- `text.isdigit()`
abbrev pub is_digit : List ℕ → Bool
is_digit [] = false
is_digit (c ∷ cs) = all_digits (c ∷ cs)

-- `len(text) > 1 and text[0] == "p" and text[1].isdigit()`
abbrev pub starts_with_player : String → Bool
starts_with_player (String.◌∷◌ c (String.◌∷◌ d s)) = code c == b'p' && is_digit_code (code d)
starts_with_player _ = false

-- `_looks_like_pokemon_ident`
unfoldable pub looks_like_pokemon_ident : String → Bool
looks_like_pokemon_ident text =
    starts_with_player text
    && (occurs_in ": " text || not (is_digit (drop 2 (codes text))) && occurs_in ":" text)

-- one more character in front of all but the last
abbrev pub behind : Char → Option (String × ℕ) → Option (String × ℕ)
behind c none = none
behind c (some (first, last)) = some (String.◌∷◌ c first, last)

-- `position_part[:-1]` with `position_part[-1]`, of a text that is not empty
unfoldable pub split_last : String → Option (String × ℕ)
split_last String.[] = none
split_last (String.◌∷◌ c String.[]) = some (String.[], code c)
split_last (String.◌∷◌ c (String.◌∷◌ d s)) = behind c (split_last (String.◌∷◌ d s))

-- The side and the slot of a position that starts with a player.
unfoldable pub parse_position : String → Option (String × ℕ) → Parsed (String × Option ℕ)
parse_position position none = malformed
parse_position position (some (first, last)) =
    if is_alpha_code last
    then (if last == b'a' then ok (first, some 1) else malformed)
    else ok (position, none)

unfoldable pub parse_parts : Option (String × String) → Parsed (String × Option ℕ × String)
unfolding parse_position split_last
parse_parts none = malformed
parse_parts (some (position, nickname)) = do
  guard (starts_with_player position) malformed_protocol_message
  (side_id, slot) ← parse_position position (split_last position)
  guard (not (nickname == "")) malformed_protocol_message
  ok (side_id, slot, nickname)

-- `_parse_pokemon_ident`
unfoldable pub parse_pokemon_ident : String → Parsed (String × Option ℕ × String)
parse_pokemon_ident ident = parse_parts (split_once ": " ident)

-- the identifier of a pokemon in the active slot, which most events need
unfoldable pub with_slot : String → Option ℕ → String → Parsed (String × ℕ × String)
with_slot side_id none nickname = malformed
with_slot side_id (some slot) nickname = ok (side_id, slot, nickname)

unfoldable pub parse_active_ident : String → Parsed (String × ℕ × String)
unfolding with_slot
parse_active_ident ident = do
  (side_id, slot, nickname) ← parse_pokemon_ident ident
  with_slot side_id slot nickname

abbrev pub before_colon : String → List ℕ
before_colon String.[] = []
before_colon (String.◌∷◌ c s) =
    let rest = before_colon s in if code c == b':' then [] else code c ∷ rest

-- what `.strip()` takes for a space, of ASCII
abbrev is_blank_code : ℕ → Bool
is_blank_code c = is_space_code c || leb 28 c && leb c 31

abbrev all_blank : List ℕ → Bool
all_blank [] = true
all_blank (c ∷ cs) = is_blank_code c && all_blank cs

-- `.strip()`: the spaces at the start, and those at the end
abbrev pub strip_end : List ℕ → List ℕ
strip_end [] = []
strip_end (c ∷ cs) = let rest = strip_end cs in if all_blank (c ∷ cs) then [] else c ∷ rest

abbrev pub strip_start : List ℕ → List ℕ
strip_start [] = []
strip_start (c ∷ cs) = let rest = strip_start cs in if is_blank_code c then rest else c ∷ cs

-- `_parse_side_ident`
unfoldable pub parse_side_ident : String → Parsed String
parse_side_ident ident =
    let side_id = strip_end (strip_start (before_colon ident)) in
    if side_id == codes "p1" then ok "p1" else if side_id == codes "p2" then ok "p2" else malformed

-- `int(s)`, with its `except ValueError`
unfoldable pub parse_int : String → Parsed ℤ
parse_int s = elim (read_int s) [ none ↦ malformed | some n ↦ ok n ]

-- `hp_str.split(" ", 1)`
unfoldable pub hp_segments : String → Option (String × String) → String × Option String
hp_segments hp_str none = (hp_str, none)
hp_segments hp_str (some (hp_part, trailer)) = (hp_part, some trailer)

-- `current` and `maximum`
unfoldable pub hp_numbers : String → Option (String × String) → Parsed (ℤ × ℤ)
unfolding parse_int
hp_numbers hp_part none = do current ← parse_int hp_part; ok (current, pos 0)
hp_numbers hp_part (some (current_str, maximum_str)) = do
  current ← parse_int current_str
  maximum ← parse_int maximum_str
  ok (current, maximum)

-- `trailer if trailer is not None and not fainted else None`
abbrev pub trailer_status : Option String → Option String
trailer_status none = none
trailer_status (some trailer) = if trailer == "fnt" then none else some trailer

unfoldable pub hp_token : String × Option String → Parsed HpToken
unfolding hp_numbers
hp_token (hp_part, trailer) = do
  (current, maximum) ← hp_numbers hp_part (split_once "/" hp_part)
  guard (not (ltb_ℤ current (pos 0) || ltb_ℤ maximum (pos 0))) malformed_protocol_message
  ok (record {
    current = current;
    maximum = maximum;
    status = trailer_status trailer;
    fainted = trailer == some "fnt";
  })

-- `_parse_hp_token`
unfoldable pub parse_hp_token : String → Parsed HpToken
unfolding hp_token hp_segments
parse_hp_token hp_str = hp_token (hp_segments hp_str (split_once " " hp_str))

-- `_normalize_boost_stat`
unfoldable pub normalize_boost_stat : String → String
normalize_boost_stat stat =
    if stat == "accuracy" then "acc" else if stat == "evasion" then "eva" else stat

-- `_sorted_annotations`
unfoldable pub sorted_annotations : List String → List String
sorted_annotations parts = sorted str_leb (filter (λ p. starts_with p "[") parts)

-- `_require`
unfoldable pub require : List String → ℕ → Parsed Unit
require args count = guard (leb count (length args)) malformed_protocol_message

-- `args[i]`
unfoldable pub arg : List String → ℕ → Parsed String
arg args i = elim (get_elem? args i) [ none ↦ err (core index_error) | some text ↦ ok text ]
