-- ===== src/Parser/HitPoints.antt =====
-- parser.py: hit points, written and read back.
use battle_belief.Base.{
  ℕ, ◌≤◌, pos, String, true, not, Option, none, some, length, ok, ◌==◌, guard, ◌>>◌, ltb_ℤ, ◌||◌,
  nat_eq, string_eq, option_eq, ◌≡◌, refl, ap, ◌∙◌, arith,
}
use battle_belief.Base.Text.{codes, ◌<>◌, decimal}
use battle_belief.State.{HpToken}
use battle_belief.Failures.{malformed_protocol_message}
use battle_belief.Parser.Words.{split_once}
use battle_belief.Parser.Idents.{
  parse_int, hp_segments, hp_numbers, trailer_status, hp_token, parse_hp_token,
}
use battle_belief.Parser.Numbers.{decimal-IsDigits, read_int-decimal}
use battle_belief.Parser.SplitTexts.{
  lacks, split_once-lacks, split_once-none, digits-lack, lacks-append,
}

-- How the protocol writes hit points: with a status or `fnt` behind a space, if there is one.
abbrev pub trailer_text : Option String → String
trailer_text none = ""
trailer_text (some trailer) = " " <> trailer

abbrev pub hp_text : ℕ → ℕ → Option String → String
hp_text current maximum trailer =
    (decimal current <> ("/" <> decimal maximum)) <> trailer_text trailer

-- the hit points of the text
abbrev pub token : ℕ → ℕ → Option String → HpToken
token current maximum trailer = record {
  current = pos current;
  maximum = pos maximum;
  status = trailer_status trailer;
  fainted = trailer == some "fnt";
}

append-nil : (s : String) → s <> "" ≡ s
append-nil String.[] = refl
append-nil (String.◌∷◌ c s) = ap (λ t. String.◌∷◌ c t) (append-nil s)

hp_segments-hp_text :
    (hp_part : String) (trailer : Option String)
    → lacks " " hp_part ≡ true
    → hp_segments
        (hp_part <> trailer_text trailer)
        (split_once " " (hp_part <> trailer_text trailer))
      ≡ (hp_part, trailer)
unfolding hp_segments
hp_segments-hp_text hp_part none h = rw (append-nil hp_part, split_once-none " " "" hp_part h) refl
hp_segments-hp_text hp_part (some trailer) h = rw (split_once-lacks " " "" hp_part trailer h) refl

parse_int-decimal : (n : ℕ) → length (codes (decimal n)) ≤ 4300 → parse_int (decimal n) ≡ ok (pos n)
unfolding parse_int
parse_int-decimal n short = rw (read_int-decimal n short, parse_int) refl

hp_numbers-decimal :
    (hp_part : String) (current maximum : ℕ)
    → length (codes (decimal current)) ≤ 4300
    → length (codes (decimal maximum)) ≤ 4300
    → hp_numbers hp_part (some (decimal current, decimal maximum)) ≡ ok (pos current, pos maximum)
unfolding hp_numbers
hp_numbers-decimal hp_part current maximum short short' =
    rw (parse_int-decimal current short, parse_int-decimal maximum short') refl

nonneg_token :
    (current maximum : ℕ) (trailer : Option String)
    → (do
      guard
          (not (ltb_ℤ (pos current) (pos 0) || ltb_ℤ (pos maximum) (pos 0)))
          malformed_protocol_message
      ok (token current maximum trailer))
      ≡ ok (token current maximum trailer)
nonneg_token current maximum trailer = ground arith

-- Hit points written as two numbers of at most 4300 digits and what may follow them are read as
-- these numbers; what follows is the status, or, if it is `fnt`, says that the pokemon has fainted.
pub parse_hp_token-hp_text :
    (current maximum : ℕ) (trailer : Option String)
    → length (codes (decimal current)) ≤ 4300
    → length (codes (decimal maximum)) ≤ 4300
    → parse_hp_token (hp_text current maximum trailer) ≡ ok (token current maximum trailer)
unfolding parse_hp_token hp_token nat_eq
parse_hp_token-hp_text current maximum trailer short short' =
    let hp_part = decimal current <> ("/" <> decimal maximum) in
    let slash = digits-lack "/" (decimal current) refl (decimal-IsDigits current) in
    let space =
      lacks-append " " (decimal current) ("/" <> decimal maximum)
        (digits-lack " " (decimal current) refl (decimal-IsDigits current))
        (digits-lack " " (decimal maximum) refl (decimal-IsDigits maximum)) in
    let split = split_once-lacks "/" "" (decimal current) (decimal maximum) slash in
    let numbers : hp_numbers hp_part (split_once "/" hp_part) ≡ ok (pos current, pos maximum) =
      ap (hp_numbers hp_part) split ∙ hp_numbers-decimal hp_part current maximum short short' in
    ap hp_token (hp_segments-hp_text hp_part trailer space)
    ∙ rw numbers (nonneg_token current maximum trailer)
