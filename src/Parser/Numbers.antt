-- ===== src/Parser/Numbers.antt =====
-- parser.py: `int` of the decimal digits of a number.
use Prim.Native.Nat.{◌/◌, ◌%◌, ◌*◌}
use Prim.Native.Char.{code}
use battle_belief.Base.{
  ℕ, zero, suc, ◌+◌, ◌-◌, ◌≤◌, ◌<◌, pos, String, Bool, true, false, some, List, [], ◌∷◌, ◌++◌,
  length, length-append, nat_eq, ltb, Bool-cases, inl, inr, ◌≡◌, refl, ap, ap₂, ◌∙◌, sym, arith,
}
use battle_belief.Base.Text.{codes, ◌<>◌, digit, digits_of, decimal}
use battle_belief.Parser.Words.{
  is_digit_code, read_digits, within_limit, read_number, skip_space, read_signed, read_int, to_int,
}
use battle_belief.Parser.Idents.{all_digits}

pub codes-append : (s t : String) → codes (s <> t) ≡ codes s ++ codes t
unfolding codes
codes-append String.[] t = refl
codes-append (String.◌∷◌ c s) t = ap (λ cs. code c ∷ cs) (codes-append s t)

-- the code of a digit
codes-digit : (n : ℕ) → n < 10 → codes (digit n) ≡ (b'0' + n) ∷ []
unfolding codes digit
codes-digit zero lt = refl
codes-digit (suc zero) lt = refl
codes-digit (suc (suc zero)) lt = refl
codes-digit (suc (suc (suc zero))) lt = refl
codes-digit (suc (suc (suc (suc zero)))) lt = refl
codes-digit (suc (suc (suc (suc (suc zero))))) lt = refl
codes-digit (suc (suc (suc (suc (suc (suc zero)))))) lt = refl
codes-digit (suc (suc (suc (suc (suc (suc (suc zero))))))) lt = refl
codes-digit (suc (suc (suc (suc (suc (suc (suc (suc zero)))))))) lt = refl
codes-digit (suc (suc (suc (suc (suc (suc (suc (suc (suc zero))))))))) lt = refl
codes-digit (suc (suc (suc (suc (suc (suc (suc (suc (suc (suc n)))))))))) lt = absurd (omega arith)

-- one more digit
read_digits-digit :
    (after_digit : Bool) (count m d : ℕ) (rest : List ℕ)
    → d < 10
    → read_digits after_digit count m ((b'0' + d) ∷ rest)
      ≡ read_digits true (suc count) (m * 10 + d) rest
unfolding read_digits
read_digits-digit after_digit count m d rest lt =
    let is_digit : is_digit_code (b'0' + d) ≡ true = ground arith in
    let value : m * 10 + (b'0' + d - b'0') ≡ m * 10 + d = omega arith in
    rw is_digit (ap (λ v. read_digits true (suc count) v rest) value)

append-digit : (xs rest : List ℕ) (d : ℕ) → (xs ++ d ∷ []) ++ rest ≡ xs ++ d ∷ rest
append-digit [] rest d = refl
append-digit (x ∷ xs) rest d = ap (λ ys. x ∷ ys) (append-digit xs rest d)

-- the digits of a number of more than one digit
codes-digits_of :
    (fuel n : ℕ)
    → ltb n 10 ≡ false
    → codes (digits_of (suc fuel) n) ≡ codes (digits_of fuel (n / 10)) ++ (b'0' + n % 10) ∷ []
unfolding digits_of
codes-digits_of fuel n large = rw large (
    codes-append (digits_of fuel (n / 10)) (digit (n % 10))
    ∙ ap (λ cs. codes (digits_of fuel (n / 10)) ++ cs) (codes-digit (n % 10) (omega arith)))

codes-digits_of_one :
    (fuel n : ℕ) → ltb n 10 ≡ true → codes (digits_of (suc fuel) n) ≡ (b'0' + n) ∷ []
unfolding digits_of
codes-digits_of_one fuel n small = rw small (codes-digit n (ground arith))

-- The digits of a number are read as the number, and counted.
read_digits-digits_of :
    (fuel n : ℕ)
    → n < fuel
    → (after_digit : Bool) (count : ℕ) (rest : List ℕ)
    → read_digits after_digit count 0 (codes (digits_of fuel n) ++ rest)
      ≡ read_digits true (length (codes (digits_of fuel n)) + count) n rest
read_digits-digits_of zero n lt after_digit count rest = absurd (omega arith)
read_digits-digits_of (suc fuel) n lt after_digit count rest = elim (Bool-cases (ltb n 10)) [
  | inl small ↦ rw (codes-digits_of_one fuel n small) (
      read_digits-digit after_digit count 0 n rest (ground arith)
      ∙ ap₂ (λ k v. read_digits true k v rest) (omega arith) (omega arith))
  | inr large ↦
      let at_least : 10 ≤ n = ground arith in
      let xs = codes (digits_of fuel (n / 10)) in
      let d = b'0' + n % 10 in
      let value : n / 10 * 10 + n % 10 ≡ n = omega arith in
      rw (codes-digits_of fuel n large) (
        ap (read_digits after_digit count 0) (append-digit xs rest d)
        ∙ read_digits-digits_of fuel (n / 10) (omega arith) after_digit count (d ∷ rest)
        ∙ read_digits-digit true (length xs + count) (n / 10) (n % 10) rest (omega arith)
        ∙ ap₂ (λ k v. read_digits true k v rest) (omega (arith, length-append xs (d ∷ []))) value)
]

all_digits-append :
    (xs ys : List ℕ) → all_digits xs ≡ true → all_digits ys ≡ true → all_digits (xs ++ ys) ≡ true
all_digits-append [] ys hx hy = hy
all_digits-append (x ∷ xs) ys hx hy = ground (arith, all_digits-append xs ys)

digits_of-IsDigits : (fuel n : ℕ) → all_digits (codes (digits_of fuel n)) ≡ true
unfolding digits_of codes
digits_of-IsDigits zero n = refl
digits_of-IsDigits (suc fuel) n = elim (Bool-cases (ltb n 10)) [
  | inl small ↦ rw (codes-digits_of_one fuel n small) (ground arith)
  | inr large ↦ rw (codes-digits_of fuel n large) (
      all_digits-append (codes (digits_of fuel (n / 10))) ((b'0' + n % 10) ∷ [])
        (digits_of-IsDigits fuel (n / 10)) (one (n % 10) (omega arith)))
]
  where
    one : (d : ℕ) → d < 10 → all_digits ((b'0' + d) ∷ []) ≡ true
    one d lt = ground arith

-- The decimal digits of a number are digits.
pub decimal-IsDigits : (n : ℕ) → all_digits (codes (decimal n)) ≡ true
unfolding decimal
decimal-IsDigits n = digits_of-IsDigits (suc n) n

-- A number has a digit.
pub decimal-nonempty : (n : ℕ) → 1 ≤ length (codes (decimal n))
unfolding decimal
decimal-nonempty n = elim (Bool-cases (ltb n 10)) [
  | inl small ↦ rw (codes-digits_of_one n n small) (omega arith)
  | inr large ↦
      rw (codes-digits_of n n large)
        (omega (arith, length-append (codes (digits_of n (n / 10))) ((b'0' + n % 10) ∷ [])))
]

read_signed-digits :
    (cs : List ℕ) → all_digits cs ≡ true → read_signed (skip_space cs) ≡ to_int pos (read_number cs)
unfolding read_signed read_digits
read_signed-digits [] h = refl
read_signed-digits (c ∷ cs) h = ground arith

append-nil : (xs : List ℕ) → xs ++ [] ≡ xs
append-nil [] = refl
append-nil (x ∷ xs) = ap (λ ys. x ∷ ys) (append-nil xs)

read_digits-done : (k m : ℕ) → read_digits true (k + 0) m [] ≡ some (k, m)
unfolding read_digits
read_digits-done k m = ap (λ c. some (c, m)) (omega arith)

read_number-decimal :
    (n : ℕ) → length (codes (decimal n)) ≤ 4300 → read_number (codes (decimal n)) ≡ some n
unfolding decimal
read_number-decimal n short =
    let cs = codes (digits_of (suc n) n) in
    ap (λ xs. within_limit (read_digits false 0 0 xs)) (sym (append-nil cs))
    ∙ ap within_limit (read_digits-digits_of (suc n) n (omega arith) false 0 [])
    ∙ ap within_limit (read_digits-done (length cs) n)
    ∙ within (length cs) short
  where
    within : (k : ℕ) → k ≤ 4300 → within_limit (some (k, n)) ≡ some n
    within k h = ground arith

-- Up to Python's limit of digits, `int` reads the decimal digits of a number as the number.
pub read_int-decimal :
    (n : ℕ) → length (codes (decimal n)) ≤ 4300 → read_int (decimal n) ≡ some (pos n)
unfolding read_int
read_int-decimal n short =
    read_signed-digits (codes (decimal n)) (decimal-IsDigits n)
    ∙ ap (to_int pos) (read_number-decimal n short)
