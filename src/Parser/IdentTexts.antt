-- ===== src/Parser/IdentTexts.antt =====
-- parser.py: identifiers, written and read back.
use Prim.Native.Char.{Char, code}
use battle_belief.Base.{
  ℕ, ◌≤◌, String, Bool, true, false, Option, none, some, length, ok, ◌==◌, nat_eq, string_eq,
  option_eq, ◌≡◌, ◌≢◌, refl, ap, ◌∙◌, arith,
}
use battle_belief.Base.Text.{codes, ◌<>◌, decimal}
use battle_belief.Parser.Words.{is_digit_code}
use battle_belief.Parser.Idents.{
  all_digits, starts_with_player, behind, split_last, parse_position, parse_parts,
  parse_pokemon_ident,
}
use battle_belief.Parser.Numbers.{decimal-IsDigits, decimal-nonempty}
use battle_belief.Parser.SplitTexts.{lacks, split_once-lacks, digits-lack, lacks-append}

-- The position of a player's active pokemon, or of any other pokemon of a player.
abbrev position_text : Bool → String → String
position_text true side = side <> "a"
position_text false side = side

abbrev pub side_text : ℕ → String
side_text player = String.◌∷◌ "p" (decimal player)

-- How the protocol writes a pokemon.
abbrev pub ident_text : ℕ → Bool → String → String
ident_text player active nickname = position_text active (side_text player) <> (": " <> nickname)

abbrev pub slot_of : Bool → Option ℕ
slot_of true = some 1
slot_of false = none

split_last-append :
    (s : String) (c : Char) → split_last (s <> String.◌∷◌ c String.[]) ≡ some (s, code c)
unfolding split_last
split_last-append String.[] c = refl
split_last-append (String.◌∷◌ d String.[]) c = refl
split_last-append (String.◌∷◌ d (String.◌∷◌ e s)) c =
    ap (behind d) (split_last-append (String.◌∷◌ e s) c)

-- the position of a digit
abbrev EndsWithDigit : Option (String × ℕ) → Type 0
EndsWithDigit none = ⊥
EndsWithDigit (some (first, last)) = is_digit_code last ≡ true

behind-EndsWithDigit :
    (c : Char) (split : Option (String × ℕ)) → EndsWithDigit split → EndsWithDigit (behind c split)
behind-EndsWithDigit c none h = h
behind-EndsWithDigit c (some (first, last)) h = h

split_last-EndsWithDigit :
    (c : Char) (s : String)
    → all_digits (codes (String.◌∷◌ c s)) ≡ true
    → EndsWithDigit (split_last (String.◌∷◌ c s))
unfolding split_last codes
split_last-EndsWithDigit c String.[] h = ground arith
split_last-EndsWithDigit c (String.◌∷◌ d s) h =
    behind-EndsWithDigit c (split_last (String.◌∷◌ d s))
      (split_last-EndsWithDigit d s (ground arith))

parse_position-digit :
    (position : String) (split : Option (String × ℕ))
    → EndsWithDigit split
    → parse_position position split ≡ ok (position, none)
unfolding parse_position
parse_position-digit position none h = absurd h
parse_position-digit position (some (first, last)) h = ground arith

parse_position-position_text :
    (active : Bool) (c : Char) (s : String)
    → all_digits (codes (String.◌∷◌ c s)) ≡ true
    → let side = String.◌∷◌ "p" (String.◌∷◌ c s) in
      let position = position_text active side in
      parse_position position (split_last position) ≡ ok (side, slot_of active)
unfolding parse_position split_last nat_eq
parse_position-position_text true c s h =
    ap (λ split. parse_position (String.◌∷◌ "p" (String.◌∷◌ c (s <> "a"))) (behind "p" split))
      (split_last-append (String.◌∷◌ c s) "a")
parse_position-position_text false c s h =
    parse_position-digit _ _
      (behind-EndsWithDigit "p" (split_last (String.◌∷◌ c s)) (split_last-EndsWithDigit c s h))

position-lacks :
    (active : Bool) (s : String)
    → all_digits (codes s) ≡ true
    → lacks ":" (position_text active (String.◌∷◌ "p" s)) ≡ true
unfolding nat_eq
position-lacks true s h = lacks-append ":" s "a" (digits-lack ":" s refl h) refl
position-lacks false s h = digits-lack ":" s refl h

starts_with_player-position :
    (active : Bool) (c : Char) (s : String)
    → all_digits (codes (String.◌∷◌ c s)) ≡ true
    → starts_with_player (position_text active (String.◌∷◌ "p" (String.◌∷◌ c s))) ≡ true
unfolding nat_eq codes
starts_with_player-position true c s h = ground arith
starts_with_player-position false c s h = ground arith

parse_parts-position_text :
    (active : Bool) (digits nickname : String)
    → all_digits (codes digits) ≡ true
    → 1 ≤ length (codes digits)
    → nickname ≢ ""
    → let side = String.◌∷◌ "p" digits in
      parse_parts (some (position_text active side, nickname)) ≡ ok (side, slot_of active, nickname)
unfolding parse_parts codes
parse_parts-position_text active String.[] nickname h short named = absurd (omega arith)
parse_parts-position_text active (String.◌∷◌ c s) nickname h long named =
    let full : (nickname == "") ≡ false = ground arith in
    rw (starts_with_player-position active c s h, parse_position-position_text active c s h, full)
      refl

-- A pokemon that the protocol names, by its player, as active or not, and by its nickname, is read
-- as this player, this slot and this nickname. The nickname is any that is not empty, also one that
-- has `: ` in it.
pub parse_pokemon_ident-ident_text :
    (player : ℕ) (active : Bool) (nickname : String)
    → nickname ≢ ""
    → parse_pokemon_ident (ident_text player active nickname)
      ≡ ok (side_text player, slot_of active, nickname)
unfolding parse_pokemon_ident
parse_pokemon_ident-ident_text player active nickname named =
    let digits = decimal-IsDigits player in
    ap parse_parts (
      split_once-lacks ":" " " (position_text active (side_text player)) nickname
        (position-lacks active (decimal player) digits))
    ∙ parse_parts-position_text active (decimal player) nickname digits (decimal-nonempty player)
        named
