-- ===== src/Parser/Words.antt =====
-- adapters/showdown_protocol/parser.py: the string methods that it uses. A digit, a letter and a
-- space are those of ASCII; characters outside of it are none of them.
use Prim.Native.Nat.{◌*◌}
use Prim.Native.Char.{Char, code}
use battle_belief.Base.{
  ℕ, suc, ◌+◌, ◌-◌, ℤ, pos, neg_ℤ, String, Bool, true, false, not, ◌&&◌, ◌||◌, Option, none, some,
  is_some, List, [], ◌∷◌, get_elem?, ◌==◌, nat_eq, leb, if◌then◌else◌,
}
use battle_belief.Base.Text.{codes}
use battle_belief.State.{onto_first}
use battle_belief.Base.Text.{◌<>◌, text_or_empty}

-- `s.split(x)` for one character
unfoldable pub split_on : ℕ → String → List String
split_on x String.[] = String.[] ∷ []
split_on x (String.◌∷◌ c s) =
    let rest = split_on x s in if code c == x then String.[] ∷ rest else onto_first c rest

-- what comes after a prefix
unfoldable pub after_prefix : String → String → Option String
after_prefix String.[] s = some s
after_prefix (String.◌∷◌ d p) String.[] = none
after_prefix (String.◌∷◌ d p) (String.◌∷◌ c s) = if code c == code d then after_prefix p s else none

-- one more character in front of what comes before a separator
abbrev pub onto_before : Char → Option (String × String) → Option (String × String)
onto_before c none = none
onto_before c (some (before, rest)) = some (String.◌∷◌ c before, rest)

-- the split at a character, of what comes after the separator there, and of the split further on
abbrev pub split_here : Char → Option String → Option (String × String) → Option (String × String)
split_here c none later = onto_before c later
split_here c (some rest) later = some (String.[], rest)

-- `s.split(sep, 1)`, if the separator, which is not empty, occurs
unfoldable pub split_once : String → String → Option (String × String)
unfolding after_prefix
split_once sep String.[] = none
split_once sep (String.◌∷◌ c s) =
    split_here c (after_prefix sep (String.◌∷◌ c s)) (split_once sep s)

-- `sub in s`
unfoldable pub occurs_in : String → String → Bool
occurs_in sub s = is_some (split_once sub s)

-- `sep.join(parts)` for one character
unfoldable pub join_with : String → List String → String
join_with sep [] = ""
join_with sep (p ∷ []) = p
join_with sep (p ∷ q ∷ ps) = p <> (sep <> join_with sep (q ∷ ps))

abbrev pub is_digit_code : ℕ → Bool
is_digit_code c = leb b'0' c && leb c b'9'

abbrev pub is_alpha_code : ℕ → Bool
is_alpha_code c = leb b'a' c && leb c b'z' || leb b'A' c && leb c b'Z'

abbrev pub is_space_code : ℕ → Bool
is_space_code c = c == b' ' || leb 9 c && leb c 13

abbrev letters : List String
letters =
    "a" ∷ "b" ∷ "c" ∷ "d" ∷ "e" ∷ "f" ∷ "g" ∷ "h" ∷ "i" ∷ "j" ∷ "k" ∷ "l" ∷ "m" ∷ "n" ∷ "o" ∷ "p"
    ∷ "q" ∷ "r" ∷ "s" ∷ "t" ∷ "u" ∷ "v" ∷ "w" ∷ "x" ∷ "y" ∷ "z" ∷ []

-- What a character gives to an id. Of the characters outside ASCII, two have ASCII letters in their
-- lower case: the Kelvin sign, and the capital i with a dot.
unfoldable pub id_text : Char → String
id_text c =
    if leb b'a' (code c) && leb (code c) b'z' || is_digit_code (code c)
    then String.◌∷◌ c String.[]
    else if leb b'A' (code c) && leb (code c) b'Z'
    then text_or_empty (get_elem? letters (code c - b'A'))
    else if code c == 8490
    then "k"
    else if code c == 304
    then "i"
    else ""

-- `_to_id`
unfoldable pub to_id : String → String
to_id String.[] = ""
to_id (String.◌∷◌ c s) = id_text c <> to_id s

abbrev pub all_space : List ℕ → Bool
all_space [] = true
all_space (c ∷ cs) = is_space_code c && all_space cs

-- The digits of `int(s)`, with single `_` between them and spaces after them: their number and the
-- value. The flag is whether the last character was a digit.
unfoldable pub read_digits : Bool → ℕ → ℕ → List ℕ → Option (ℕ × ℕ)
read_digits after_digit count n [] = if after_digit then some (count, n) else none
read_digits after_digit count n (c ∷ cs) =
    let next_digit = read_digits true (suc count) (n * 10 + (c - b'0')) cs in
    let next_digits = read_digits false count n cs in
    if is_digit_code c
    then next_digit
    else if not after_digit
    then none
    else if c == b'_'
    then next_digits
    else if is_space_code c && all_space cs
    then some (count, n)
    else none

-- Python refuses an `int` of more than 4300 digits.
abbrev pub within_limit : Option (ℕ × ℕ) → Option ℕ
within_limit none = none
within_limit (some (count, n)) = if leb count 4300 then some n else none

abbrev pub to_int : (ℕ → ℤ) → Option ℕ → Option ℤ
to_int sign none = none
to_int sign (some n) = some (sign n)

abbrev pub skip_space : List ℕ → List ℕ
skip_space [] = []
skip_space (c ∷ cs) = let rest = skip_space cs in if is_space_code c then rest else c ∷ cs

abbrev pub read_number : List ℕ → Option ℕ
read_number cs = within_limit (read_digits false 0 0 cs)

unfoldable pub read_signed : List ℕ → Option ℤ
unfolding read_digits
read_signed [] = none
read_signed (c ∷ cs) =
    if c == b'-'
    then to_int (λ n. neg_ℤ (pos n)) (read_number cs)
    else if c == b'+'
    then to_int pos (read_number cs)
    else to_int pos (read_number (c ∷ cs))

-- `int(s)`, if it is a number
unfoldable pub read_int : String → Option ℤ
unfolding read_signed
read_int s = read_signed (skip_space (codes s))
