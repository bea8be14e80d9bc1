-- ===== src/Session/Dispatched.antt =====
-- room_payload_classifier.py and parser.py: the lines that the classifier gives to the parser.
use Prim.Native.Char.{code}
use text.Mathlib.TextEquality.{Char-path}
use battle_belief.Base.{
  ℤ, String, true, ◌||◌, Option, List, [], ◌∷◌, contains, ◌==◌, nat_eq, string_eq, list_eq, ==→eq,
  eq→==, Bool-cases, inl, inr, ◌≡◌, refl, ap, subst, not, ◌∙◌, sym, arith, if_cases, if_intro,
}
use battle_belief.Base.Text.{codes, starts_with}
use battle_belief.State.{onto_first}
use battle_belief.Parser.{
  split_on, split_payload, parse_battle_line, parse_inactive_line, battle_event_types,
}
use battle_belief.Parser.Yields.{Yields}
use battle_belief.Parser.Sound.{IsParsedAt}
use battle_belief.Parser.Dispatch.{IsExpected, parse_battle_line-IsExpected}
use battle_belief.Parser.Known.{is_known}
use battle_belief.Session.Model.{RoomPayloadKind, battle_event, timer_message}
use battle_belief.Session.Classifier.{
  until_pipe, wire_type_of, is_one_of, room_control_types, classify_wire_type,
  classify_room_payload,
}

codes-injective : (s t : String) → codes s ≡ codes t → s ≡ t
unfolding codes
codes-injective String.[] String.[] h = refl
codes-injective String.[] (String.◌∷◌ d t) h = cc
codes-injective (String.◌∷◌ c s) String.[] h = cc
codes-injective (String.◌∷◌ c s) (String.◌∷◌ d t) h =
    let heads : code c ≡ code d = cc h in
    let tails : codes s ≡ codes t = cc h in cc (Char-path c d heads, codes-injective s t tails)

same_word : (w t : String) → (codes w == codes t) ≡ (w == t)
same_word w t = elim (Bool-cases (w == t)) [
  | inl equal ↦ eq→== (codes w) (codes t) (ap codes (==→eq w t equal)) ∙ sym equal
  | inr differ ↦ elim (Bool-cases (codes w == codes t)) [
    | inl same ↦ same ∙ sym (eq→== w t (codes-injective w t (==→eq (codes w) (codes t) same)))
    | inr other ↦ other ∙ sym differ
  ]
]

is_one_of-contains :
    (types : List String) (w : String) → is_one_of types (codes w) ≡ contains types w
is_one_of-contains [] w = refl
is_one_of-contains (t ∷ types) w = rw (same_word w t, is_one_of-contains types w) refl

-- The first piece of a split is what comes before the first separator.
first_piece :
    (s : String)
    → (first : String) × (rest : List String) × (split_on b'|' s ≡ first ∷ rest)
      × (until_pipe s ≡ codes first)
unfolding split_on until_pipe codes onto_first
first_piece String.[] = (String.[], [], refl, refl)
first_piece (String.◌∷◌ c s) =
    let (first, rest, split, until) = first_piece s in
    elim (Bool-cases (code c == b'|')) [
      | inl pipe ↦ (String.[], split_on b'|' s, rw pipe refl, rw pipe refl)
      | inr other ↦ (String.◌∷◌ c first, rest, rw (other, split) refl, rw (other, until) refl)
    ]

-- A payload that starts with one separator has the wire type that the classifier reads.
wire_type_of-split_payload :
    (payload : String)
    → starts_with payload "|" ≡ true
    → wire_type_of payload ≡ codes (split_payload payload).0
unfolding wire_type_of split_payload split_on starts_with
wire_type_of-split_payload String.[] h = cc
wire_type_of-split_payload (String.◌∷◌ c s) h =
    let pipe : (code c == b'|') ≡ true = ground arith in
    let (first, rest, split, until) = first_piece s in rw (pipe, split) until

-- What the parsers make of a line of this kind.
abbrev pub IsReadable : RoomPayloadKind → ℤ → Option String → String → Type 0
IsReadable battle_event ei room_id payload =
    Yields (IsParsedAt ei) (parse_battle_line payload ei room_id)
IsReadable timer_message ei room_id payload =
    Yields (IsParsedAt ei) (parse_inactive_line payload ei)
IsReadable _ ei room_id payload = Unit

module _ (payload : String) (ei : ℤ) (room_id : Option String) where
  abbrev wire : String
  wire = (split_payload payload).0

  known-IsReadable :
      is_known payload wire ≡ true → Yields (IsParsedAt ei) (parse_battle_line payload ei room_id)
  known-IsReadable known =
      subst (λ b. IsExpected ei b (parse_battle_line payload ei room_id)) known
        (parse_battle_line-IsExpected payload ei room_id)

  inactive-IsReadable :
      (wire == "inactive" || wire == "inactiveoff") ≡ true
      → Yields (IsParsedAt ei) (parse_inactive_line payload ei)
  unfolding parse_inactive_line
  inactive-IsReadable timer = ground arith

  wire-IsReadable : IsReadable (classify_wire_type (codes wire)) ei room_id payload
  unfolding classify_wire_type
  wire-IsReadable =
      let P = λ (kind : RoomPayloadKind). IsReadable kind ei room_id payload in
      if_intro P (codes wire == codes "request") tt (
        if_intro P (codes wire == codes "error") tt (
          if_cases P (codes wire == codes "inactive" || codes wire == codes "inactiveoff")
            (λ timer.
              inactive-IsReadable
                (rw (same_word wire "inactive", same_word wire "inactiveoff") at timer))
            (λ _.
              if_cases P (is_one_of battle_event_types (codes wire))
                (λ one.
                  known-IsReadable
                    (rw (sym (is_one_of-contains battle_event_types wire) ∙ one) refl))
                (λ _. if_intro P (is_one_of room_control_types (codes wire)) tt tt))))

  -- Every line that is classified as a battle event or as a timer message is known to its parser:
  -- it is read as an event of the index that was asked for, in order as a parsed event is, or it is
  -- malformed or ends the battle by the timer or a forfeit, but it is not an unknown event.
  pub classify_room_payload-IsReadable :
      IsReadable (classify_room_payload payload) ei room_id payload
  unfolding classify_room_payload
  classify_room_payload-IsReadable =
      let P = λ (kind : RoomPayloadKind). IsReadable kind ei room_id payload in
      if_cases P (payload == "|") (λ spacer. known-IsReadable (rw spacer (ground arith)))
        (λ _.
          if_cases P (not (starts_with payload "|") || starts_with payload "||") (λ _. tt)
            (λ line.
              let pipe : starts_with payload "|" ≡ true = ground arith in
              subst (λ w. P (classify_wire_type w)) (sym (wire_type_of-split_payload payload pipe))
                wire-IsReadable))
