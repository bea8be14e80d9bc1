-- ===== src/Parser/Yields.antt =====
-- adapters/showdown_protocol/parser.py: what the small helpers return, and which errors they raise.
use Prim.Native.Char.{Char}
use battle_belief.Base.{
  ℕ, pos, ◌≤ℤ◌, ◌≤◌, ◌<◌, String, Bool, true, false, not, Option, none, some, List, [], ◌∷◌, length,
  ok, err, ◌>>=◌, ◌>>◌, guard, leb, ◌==◌, nat_eq, string_eq, ◌⊎◌, ◌≡◌, refl, arith, Bool-cases, inl,
  inr, string_eq,
}
use battle_belief.State.{HpToken}
use battle_belief.Failures.{Failure, malformed_protocol_message, timer_or_forfeit}
use battle_belief.Parser.Words.{split_once}
use battle_belief.Parser.Idents.{
  Parsed, starts_with_player, behind, with_slot, split_last, parse_position, parse_parts,
  parse_pokemon_ident, parse_active_ident, parse_side_ident, parse_int, hp_segments, hp_numbers,
  hp_token, parse_hp_token, require, arg,
}

-- The errors of a line whose wire type is known.
abbrev pub is_line_error : Failure → Bool
is_line_error malformed_protocol_message = true
is_line_error timer_or_forfeit = true
is_line_error _ = false

-- A value of which P holds, or an error of a line.
abbrev pub Yields : {A : Type 0} → (A → Type 0) → Parsed A → Type 0
Yields P (ok a) = P a
Yields P (err e) = is_line_error e ≡ true

module _ {B : Type 0} (P : B → Type 0) where
  pub Yields-bind :
      {A : Type 0} (Q : A → Type 0) (m : Parsed A) (f : A → Parsed B)
      → Yields Q m
      → ((a : A) → Q a → Yields P (f a))
      → Yields P (m >>= f)
  Yields-bind Q (ok a) f h k = k a h
  Yields-bind Q (err e) f h k = h

  pub Yields-require :
      (args : List String) (count : ℕ) (m : Parsed B)
      → (count ≤ length args → Yields P m)
      → Yields P (require args count >> m)
  unfolding require
  Yields-require args count m k = elim (Bool-cases (leb count (length args))) [
    | inl enough ↦ rw enough (k (ground arith))
    | inr short ↦ rw short refl
  ]

  pub Yields-arg :
      (args : List String) (i : ℕ) (f : String → Parsed B)
      → i < length args
      → ((text : String) → Yields P (f text))
      → Yields P (arg args i >>= f)
  unfolding arg
  Yields-arg [] i f lt k = absurd (omega arith)
  Yields-arg (text ∷ args) ℕ.zero f lt k = k text
  Yields-arg (text ∷ args) (ℕ.suc i) f lt k = Yields-arg args i f (omega arith) k

  pub Yields-guard :
      (b : Bool) (m : Parsed B)
      → (b ≡ true → Yields P m)
      → Yields P (guard b malformed_protocol_message >> m)
  Yields-guard true m k = k refl
  Yields-guard false m k = refl

-- The slot of a pokemon, if it is named, is the only one of singles.
abbrev pub IsOnlySlot : Option ℕ → Type 0
IsOnlySlot none = Unit
IsOnlySlot (some slot) = slot ≡ 1

-- A pokemon as the identifiers name it.
abbrev pub IsNamed : String → Option ℕ → String → Type 0
IsNamed side_id slot nickname =
    (starts_with_player side_id ≡ true) × IsOnlySlot slot × ((nickname == "") ≡ false)

abbrev IsPlace : String × Option ℕ → Type 0
IsPlace (side_id, slot) = (starts_with_player side_id ≡ true) × IsOnlySlot slot

module _ (c d : Char) (s : String) where
  longer-IsPlace :
      (split : Option (String × ℕ))
      → starts_with_player (String.◌∷◌ c (String.◌∷◌ d s)) ≡ true
      → Yields IsPlace (parse_position (String.◌∷◌ c (String.◌∷◌ d s)) (behind c (behind d split)))
  unfolding parse_position
  longer-IsPlace none h = refl
  longer-IsPlace (some (first, last)) h = ground arith

parse_position-IsPlace :
    (position : String)
    → starts_with_player position ≡ true
    → Yields IsPlace (parse_position position (split_last position))
unfolding split_last parse_position
parse_position-IsPlace (String.◌∷◌ c (String.◌∷◌ d String.[])) h = ground arith
parse_position-IsPlace (String.◌∷◌ c (String.◌∷◌ d (String.◌∷◌ x s))) h =
    longer-IsPlace c d (String.◌∷◌ x s) (split_last (String.◌∷◌ x s)) h
parse_position-IsPlace _ h = cc

abbrev pub IsIdent : String × Option ℕ × String → Type 0
IsIdent (side_id, slot, nickname) = IsNamed side_id slot nickname

parse_parts-IsIdent : (parts : Option (String × String)) → Yields IsIdent (parse_parts parts)
unfolding parse_parts
parse_parts-IsIdent none = refl
parse_parts-IsIdent (some (position, nickname)) = Yields-guard IsIdent _ _ λ player.
    Yields-bind IsIdent IsPlace _ _ (parse_position-IsPlace position player)
      λ (side_id, slot) known.
        Yields-guard IsIdent (not (nickname == "")) (ok (side_id, slot, nickname))
          λ named. (known.0, known.1, ground arith)

pub parse_pokemon_ident-IsIdent : (ident : String) → Yields IsIdent (parse_pokemon_ident ident)
unfolding parse_pokemon_ident
parse_pokemon_ident-IsIdent ident = parse_parts-IsIdent (split_once ": " ident)

abbrev pub IsActive : String × ℕ × String → Type 0
IsActive (side_id, slot, nickname) = IsNamed side_id (some slot) nickname

of_slot-IsActive :
    (side_id : String) (slot : Option ℕ) (nickname : String)
    → IsNamed side_id slot nickname
    → Yields IsActive (with_slot side_id slot nickname)
unfolding with_slot
of_slot-IsActive side_id none nickname h = refl
of_slot-IsActive side_id (some slot) nickname h = h

pub parse_active_ident-IsActive : (ident : String) → Yields IsActive (parse_active_ident ident)
unfolding parse_active_ident
parse_active_ident-IsActive ident =
    Yields-bind IsActive IsIdent _ _ (parse_pokemon_ident-IsIdent ident)
      λ (side_id, slot, nickname) known. of_slot-IsActive side_id slot nickname known

abbrev pub Anything : {A : Type 0} → A → Type 0
Anything a = Unit

pub parse_int-Yields : (s : String) → Yields Anything (parse_int s)
unfolding parse_int
parse_int-Yields s = ground arith

abbrev pub IsSide : String → Type 0
IsSide side_id = (side_id ≡ "p1") ⊎ (side_id ≡ "p2")

pub parse_side_ident-Yields : (s : String) → Yields IsSide (parse_side_ident s)
unfolding parse_side_ident
parse_side_ident-Yields s = ground arith

-- Hit points are never negative.
abbrev pub IsHp : HpToken → Type 0
IsHp hp = (pos 0 ≤ℤ hp.current) × (pos 0 ≤ℤ hp.maximum)

hp_numbers-Yields :
    (hp_part : String) (split : Option (String × String))
    → Yields Anything (hp_numbers hp_part split)
unfolding hp_numbers
hp_numbers-Yields hp_part none =
    Yields-bind Anything Anything _ _ (parse_int-Yields hp_part) λ n _. tt
hp_numbers-Yields hp_part (some (current_str, maximum_str)) =
    Yields-bind Anything Anything _ _ (parse_int-Yields current_str)
      λ n _. Yields-bind Anything Anything _ _ (parse_int-Yields maximum_str) λ n _. tt

hp_token-IsHp : (segments : String × Option String) → Yields IsHp (hp_token segments)
unfolding hp_token
hp_token-IsHp (hp_part, trailer) =
    Yields-bind IsHp Anything _ _ (hp_numbers-Yields hp_part (split_once "/" hp_part))
      λ (current, maximum) _. ground arith

pub parse_hp_token-IsHp : (hp_str : String) → Yields IsHp (parse_hp_token hp_str)
unfolding parse_hp_token
parse_hp_token-IsHp hp_str = hp_token-IsHp (hp_segments hp_str (split_once " " hp_str))
