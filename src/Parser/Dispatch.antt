-- ===== src/Parser/Dispatch.antt =====
-- parser.py: what `parse_battle_line` makes of a line.
use battle_belief.Base.{
  ℤ, String, Bool, true, false, Option, List, ok, err, nat_eq, string_eq, list_eq, inl, inr, ◌≡◌,
  refl, Bool-cases,
}
use battle_belief.Events.{BattleEvent}
use battle_belief.Failures.{
  Failure, unknown_protocol_event, malformed_protocol_message, timer_or_forfeit,
}
use battle_belief.Parser.Idents.{Parsed, split_payload}
use battle_belief.Parser.Lines.{parse_wire, as_malformed, parse_battle_line}
use battle_belief.Parser.Yields.{Yields, is_line_error}
use battle_belief.Parser.Sound.{IsParsedAt}
use battle_belief.Parser.Known.{is_known, parse_wire-Yields, parse_wire-unknown}

as_malformed-Yields :
    (P : BattleEvent → Type 0) (r : Parsed BattleEvent) → Yields P r → as_malformed r ≡ r
unfolding as_malformed
as_malformed-Yields P (ok event) h = refl
as_malformed-Yields P (err e) h = line_error e h
  where
    line_error : (e : Failure) → is_line_error e ≡ true → as_malformed (err e) ≡ err e
    line_error malformed_protocol_message h = refl
    line_error timer_or_forfeit h = refl
    line_error _ h = cc

-- What `parse_battle_line` makes of a line whose wire type it knows, and of another one.
abbrev pub IsExpected : ℤ → Bool → Parsed BattleEvent → Type 0
IsExpected ei true r = Yields (IsParsedAt ei) r
IsExpected ei false r = r ≡ err unknown_protocol_event

abbrev Handles : Parsed BattleEvent → Parsed BattleEvent → ℤ → Bool → Type 0
Handles r handled ei known = (handled ≡ r) × IsExpected ei known handled

handles :
    (ei : ℤ) (known : Bool) (r : Parsed BattleEvent)
    → IsExpected ei known r
    → Handles r (as_malformed r) ei known
unfolding as_malformed
handles ei true r h = let same = as_malformed-Yields (IsParsedAt ei) r h in (same, rw same h)
handles ei false r h = (rw h refl, rw h refl)

module _ (payload : String) (ei : ℤ) (room_id : Option String) where
  abbrev wire : String
  wire = (split_payload payload).0

  abbrev wire_args : List String
  wire_args = (split_payload payload).1

  parse_wire-IsExpected :
      IsExpected ei (is_known payload wire) (parse_wire payload room_id wire wire_args ei)
  parse_wire-IsExpected = elim (Bool-cases (is_known payload wire)) [
    | inl known ↦ rw known (parse_wire-Yields payload room_id wire wire_args ei known)
    | inr other ↦ rw other (parse_wire-unknown payload room_id wire wire_args ei other)
  ]

  -- A line of one of the battle event types, or the spacer `|`, is read as an event, or it is
  -- malformed, or it ends the battle by the timer or a forfeit; every other line is an unknown event.
  -- An event has the index that was asked for. Its identifiers of pokemon have a player and a
  -- nickname, name the only slot of singles and, where the event needs it, do name one; its hit
  -- points are not negative; a side condition is on p1 or p2; what clears boosts passes the check of
  -- its class.
  pub parse_battle_line-IsExpected :
      IsExpected ei (is_known payload wire) (parse_battle_line payload ei room_id)
  unfolding parse_battle_line
  parse_battle_line-IsExpected = (handles ei (is_known payload wire) _ parse_wire-IsExpected).1

  -- No handler raises an error that the `except` clause of `parse_battle_line` would turn into a
  -- malformed message: the result is that of the handlers, for every line.
  pub parse_battle_line-parse_wire :
      parse_battle_line payload ei room_id ≡ parse_wire payload room_id wire wire_args ei
  unfolding parse_battle_line
  parse_battle_line-parse_wire = (handles ei (is_known payload wire) _ parse_wire-IsExpected).0
