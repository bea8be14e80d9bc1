-- ===== src/Pools/Orders.antt =====
-- pool_partitioning.py: the order in which assignments are sorted.
use Prim.Native.Char.{code}
use text.Mathlib.TextEquality.{Char-path}
use battle_belief.Base.{
  String, true, false, ◌==◌, ==→eq, ==_refl, string_eq, Bool-cases, inl, inr, ◌≡◌, refl, sym, ap,
  ◌∙◌, arith, nat_eq, if◌then◌else◌,
}
use battle_belief.Base.Text.{str_leb, str_leb_total}
use battle_belief.Pools.{
  PoolName, development, selection, power_pilot, release_holdout, value, Assignment, assignment_leb,
}

str_leb_antisym : (s t : String) → str_leb s t ≡ true → str_leb t s ≡ true → s ≡ t
unfolding str_leb
str_leb_antisym String.[] String.[] h k = refl
str_leb_antisym String.[] (String.◌∷◌ d t) h k = cc
str_leb_antisym (String.◌∷◌ c s) String.[] h k = cc
str_leb_antisym (String.◌∷◌ c s) (String.◌∷◌ d t) h k =
    let heads : code c ≡ code d = ground arith in
    let tails = str_leb_antisym s t (ground arith) (ground arith) in cc (Char-path c d heads, tails)

str_leb_trans : (s t u : String) → str_leb s t ≡ true → str_leb t u ≡ true → str_leb s u ≡ true
unfolding str_leb
str_leb_trans String.[] t u h k = refl
str_leb_trans (String.◌∷◌ c s) String.[] u h k = cc
str_leb_trans (String.◌∷◌ c s) (String.◌∷◌ d t) String.[] h k = cc
str_leb_trans (String.◌∷◌ c s) (String.◌∷◌ d t) (String.◌∷◌ b u) h k =
    ground (arith, str_leb_trans s t u)

-- the pool of a value, by its first letter
abbrev pool_of : String → PoolName
pool_of String.[] = development
pool_of (String.◌∷◌ c s) =
    if code c == b's'
    then selection
    else if code c == b'p'
    then power_pilot
    else if code c == b'r'
    then release_holdout
    else development

pool_of-value : (p : PoolName) → pool_of (value p) ≡ p
unfolding value nat_eq
pool_of-value development = refl
pool_of-value selection = refl
pool_of-value power_pilot = refl
pool_of-value release_holdout = refl

value-injective : (p q : PoolName) → value p ≡ value q → p ≡ q
value-injective p q h = sym (pool_of-value p) ∙ ap pool_of h ∙ pool_of-value q

pub assignment_leb_total :
    (x y : Assignment) → assignment_leb x y ≡ false → assignment_leb y x ≡ true
unfolding assignment_leb
assignment_leb_total (i, p) (j, q) h =
    ground (arith, str_leb_total i j, str_leb_total (value p) (value q))

pub assignment_leb_antisym :
    (x y : Assignment) → assignment_leb x y ≡ true → assignment_leb y x ≡ true → x ≡ y
unfolding assignment_leb
assignment_leb_antisym (i, p) (j, q) h k = elim (Bool-cases (i == j)) [
  | inl same ↦
      let ids : i ≡ j = ==→eq i j same in
      let pools =
        value-injective p q
          (str_leb_antisym (value p) (value q) (ground arith) (ground (arith, ids))) in
      cc (ids, pools)
  | inr other ↦
      let ids : i ≡ j = str_leb_antisym i j (ground arith) (ground arith) in
      absurd (ground (arith, ids, ==_refl i))
]

pub assignment_leb_trans :
    (x y z : Assignment)
    → assignment_leb x y ≡ true
    → assignment_leb y z ≡ true
    → assignment_leb x z ≡ true
unfolding assignment_leb
assignment_leb_trans (i, p) (j, q) (k, r) h g =
    ground
      (arith, str_leb_trans i j k, str_leb_antisym i j, str_leb_trans (value p) (value q) (value r))
