-- ===== src/Parser/SplitTexts.antt =====
-- parser.py: a text split at a separator that does not occur earlier.
use Prim.Native.Char.{Char, code}
use battle_belief.Base.{
  String, Bool, true, false, not, ◌&&◌, none, some, ◌==◌, nat_eq, string_eq, option_eq, ◌≡◌,
  ==_refl, refl, ap, ap₂, arith,
}
use battle_belief.Base.Text.{codes, ◌<>◌}
use battle_belief.Parser.Words.{is_digit_code, after_prefix, split_here, split_once}
use battle_belief.Parser.Idents.{all_digits}

-- A text in which a character does not occur.
abbrev pub lacks : Char → String → Bool
lacks x String.[] = true
lacks x (String.◌∷◌ c s) = not (code c == code x) && lacks x s

after_prefix-append : (p s : String) → after_prefix p (p <> s) ≡ some s
unfolding after_prefix
after_prefix-append String.[] s = refl
after_prefix-append (String.◌∷◌ c p) s = rw (==_refl (code c)) (after_prefix-append p s)

after_prefix-other :
    (x c : Char) (sep s : String)
    → (code c == code x) ≡ false
    → after_prefix (String.◌∷◌ x sep) (String.◌∷◌ c s) ≡ none
unfolding after_prefix
after_prefix-other x c sep s differs = rw differs refl

-- A text is split at the first place where the separator's first character occurs.
pub split_once-lacks :
    (x : Char) (sep before rest : String)
    → lacks x before ≡ true
    → split_once (String.◌∷◌ x sep) (before <> (String.◌∷◌ x sep <> rest)) ≡ some (before, rest)
unfolding split_once
split_once-lacks x sep String.[] rest h =
    ap (λ after. split_here x after (split_once (String.◌∷◌ x sep) (sep <> rest)))
      (after_prefix-append (String.◌∷◌ x sep) rest)
split_once-lacks x sep (String.◌∷◌ c before) rest h =
    let differs : (code c == code x) ≡ false = ground arith in
    let others : lacks x before ≡ true = ground arith in
    ap₂ (split_here c) (after_prefix-other x c sep _ differs)
      (split_once-lacks x sep before rest others)

pub split_once-none :
    (x : Char) (sep s : String) → lacks x s ≡ true → split_once (String.◌∷◌ x sep) s ≡ none
unfolding split_once
split_once-none x sep String.[] h = refl
split_once-none x sep (String.◌∷◌ c s) h =
    let differs : (code c == code x) ≡ false = ground arith in
    let others : lacks x s ≡ true = ground arith in
    ap₂ (split_here c) (after_prefix-other x c sep s differs) (split_once-none x sep s others)

pub digits-lack :
    (x : Char) (s : String)
    → is_digit_code (code x) ≡ false
    → all_digits (codes s) ≡ true
    → lacks x s ≡ true
unfolding codes
digits-lack x String.[] other h = refl
digits-lack x (String.◌∷◌ c s) other h = ground (arith, digits-lack x s other)

pub lacks-append :
    (x : Char) (s t : String) → lacks x s ≡ true → lacks x t ≡ true → lacks x (s <> t) ≡ true
lacks-append x String.[] t hs ht = ht
lacks-append x (String.◌∷◌ c s) t hs ht = ground (arith, lacks-append x s t)
