-- ===== src/Session/Choices.antt =====
-- command_encoder.py: what a choice text says of its submission.
use Prim.Native.Nat.{◌/◌}
use battle_belief.Base.{
  ℕ, zero, suc, ◌<◌, ◌≤◌, String, Bool, true, false, Option, none, some, List, [], ◌∷◌, ◌≡◌, refl,
  ap, ◌∙◌, ◌-◌, All, ◌==◌, nat_eq, string_eq, String-discrete, ltb, if◌then◌else◌, Bool-cases, inl,
  inr, arith,
}
use Prim.Native.Char.{code}
use battle_belief.Actions.{ActionKind, move, switch, revive, team, default, BattleSubmission}
use battle_belief.Actions.Checks.{IsWellFormed, IsSlot}
use battle_belief.Session.Encoder.{
  ◌<>◌, digit, digits_of, decimal, slot_text, order_text, encode_kind, encode_submission,
}

-- With more fuel than the number, the digits are the same.
digits_of-enough : (fuel more n : ℕ) → n < fuel → n < more → digits_of fuel n ≡ digits_of more n
unfolding digits_of
digits_of-enough zero more n lt lt' = absurd (omega arith)
digits_of-enough (suc fuel) zero n lt lt' = absurd (omega arith)
digits_of-enough (suc fuel) (suc more) n lt lt' = elim (Bool-cases (ltb n 10)) [
  | inl small ↦ rw small refl
  | inr large ↦
      let at_least : 10 ≤ n = ground arith in
      let fewer : n / 10 < n = omega arith in
      rw (large, digits_of-enough fuel more (n / 10) (omega arith) (omega arith)) refl
]

-- A choice read back: its verb, its slots, and whether it terastallizes.
pub data Choice : Type 0 where
  by_default : Choice
  a_move : ℕ → Bool → Choice
  a_switch : ℕ → Choice
  a_team : List ℕ → Choice
  unreadable : Choice

-- what comes after a prefix
abbrev after : String → String → Option String
after String.[] s = some s
after (String.◌∷◌ c p) String.[] = none
after (String.◌∷◌ c p) (String.◌∷◌ d s) = if code c == code d then after p s else none

read_order : String → List ℕ
read_order String.[] = []
read_order (String.◌∷◌ c s) = (code c - b'0') ∷ read_order s

read_move : String → Choice
read_move String.[] = unreadable
read_move (String.◌∷◌ c s) =
    if s == ""
    then a_move (code c - b'0') false
    else if s == " terastallize"
    then a_move (code c - b'0') true
    else unreadable

read_switch : String → Choice
read_switch String.[] = unreadable
read_switch (String.◌∷◌ c s) = if s == "" then a_switch (code c - b'0') else unreadable

abbrev or_read : Option String → (String → Choice) → Choice → Choice
or_read none read otherwise = otherwise
or_read (some rest) read otherwise = read rest

-- An independent reader of the choice texts of the server's protocol.
pub read_choice : String → Choice
unfolding read_move read_switch read_order
read_choice s =
    or_read (after "default" s) (λ rest. by_default)
      (or_read (after "move " s) read_move (
        or_read (after "switch " s) read_switch
          (or_read (after "team " s) (λ rest. a_team (read_order rest)) unreadable)))

abbrev or_zero : Option ℕ → ℕ
or_zero none = 0
or_zero (some slot) = slot

-- What a submission chooses; a revival is chosen as a switch.
abbrev pub choice_of : ActionKind → BattleSubmission → Choice
choice_of default s = by_default
choice_of move s = a_move (or_zero s.slot) s.terastallize
choice_of switch s = a_switch (or_zero s.slot)
choice_of revive s = a_switch (or_zero s.slot)
choice_of team s = a_team s.team_order

read_team : (rest : String) → read_choice ("team " <> rest) ≡ a_team (read_order rest)
unfolding read_choice nat_eq string_eq String-discrete
read_team rest = refl

read_slot :
    (slot : ℕ) (rest : String)
    → IsSlot 6 slot
    → read_order (decimal slot <> rest) ≡ slot ∷ read_order rest
unfolding read_order decimal digits_of digit
read_slot zero rest h = absurd (omega (arith, h.0))
read_slot (suc zero) rest h = refl
read_slot (suc (suc zero)) rest h = refl
read_slot (suc (suc (suc zero))) rest h = refl
read_slot (suc (suc (suc (suc zero)))) rest h = refl
read_slot (suc (suc (suc (suc (suc zero))))) rest h = refl
read_slot (suc (suc (suc (suc (suc (suc zero)))))) rest h = refl
read_slot (suc (suc (suc (suc (suc (suc (suc n))))))) rest h = absurd (omega (arith, h.1))

read_order-order_text :
    (slots : List ℕ) → All (IsSlot 6) slots → read_order (order_text slots) ≡ slots
unfolding order_text read_order
read_order-order_text [] h = refl
read_order-order_text (slot ∷ slots) h =
    read_slot slot (order_text slots) h.0
    ∙ ap (λ rest. slot ∷ rest) (read_order-order_text slots h.1)

read_a_move :
    (slot : ℕ) (terastallize : Bool)
    → IsSlot 4 slot
    → read_choice (
        if terastallize
        then ("move " <> decimal slot) <> " terastallize"
        else "move " <> decimal slot)
      ≡ a_move slot terastallize
unfolding read_choice read_move decimal digits_of digit nat_eq string_eq String-discrete
read_a_move zero t h = absurd (omega (arith, h.0))
read_a_move (suc zero) true h = refl
read_a_move (suc zero) false h = refl
read_a_move (suc (suc zero)) true h = refl
read_a_move (suc (suc zero)) false h = refl
read_a_move (suc (suc (suc zero))) true h = refl
read_a_move (suc (suc (suc zero))) false h = refl
read_a_move (suc (suc (suc (suc zero)))) true h = refl
read_a_move (suc (suc (suc (suc zero)))) false h = refl
read_a_move (suc (suc (suc (suc (suc n))))) t h = absurd (omega (arith, h.1))

read_a_switch : (slot : ℕ) → IsSlot 6 slot → read_choice ("switch " <> decimal slot) ≡ a_switch slot
unfolding read_choice read_switch decimal digits_of digit nat_eq string_eq String-discrete
read_a_switch zero h = absurd (omega (arith, h.0))
read_a_switch (suc zero) h = refl
read_a_switch (suc (suc zero)) h = refl
read_a_switch (suc (suc (suc zero))) h = refl
read_a_switch (suc (suc (suc (suc zero)))) h = refl
read_a_switch (suc (suc (suc (suc (suc zero))))) h = refl
read_a_switch (suc (suc (suc (suc (suc (suc zero)))))) h = refl
read_a_switch (suc (suc (suc (suc (suc (suc (suc n))))))) h = absurd (omega (arith, h.1))

read_default : read_choice "default" ≡ by_default
unfolding read_choice nat_eq
read_default = refl

-- The choice text of a well-formed submission reads back as what the submission chooses: its slot
-- and whether it terastallizes, the slot to switch to, the order of the team, or the default.
pub read_choice-encode_submission :
    (s : BattleSubmission) → IsWellFormed s → read_choice (encode_submission s) ≡ choice_of s.kind s
unfolding encode_submission encode_kind slot_text
read_choice-encode_submission s (IsWellFormed.a_move slot move_id terastallize h _ e) =
    rw e (read_a_move slot terastallize h)
read_choice-encode_submission s (IsWellFormed.a_switch slot h e) = rw e (read_a_switch slot h)
read_choice-encode_submission s (IsWellFormed.a_revival slot h e) = rw e (read_a_switch slot h)
read_choice-encode_submission s (IsWellFormed.a_team slot slots h _ e) =
    rw e
      (read_team (order_text (slot ∷ slots)) ∙ ap a_team (read_order-order_text (slot ∷ slots) h))
read_choice-encode_submission s (IsWellFormed.the_default e) = rw e read_default
