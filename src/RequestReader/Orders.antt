-- ===== src/RequestReader/Orders.antt =====
-- request_reader.py: the orders of a team, `itertools.permutations`.
use battle_belief.Base.{
  ℕ, zero, suc, ◌+◌, ◌≤◌, leb, ltb, true, ◌&&◌, List, [], ◌∷◌, length, contains, All, All-append,
  All-map, All-weaken, ==_refl, nat_eq, list_eq, ◌≡◌, refl, ap, ◌∙◌, sym, arith,
}
use battle_belief.Actions.Checks.{AreDistinct, IsSlot}
use battle_belief.Reconciler.{range_from, same_set, all_in}
use battle_belief.RequestReader.Submissions.{picks, flat_map, permutations}

abbrev SameMembers : List ℕ → List ℕ → Type 0
SameMembers xs ys = (z : ℕ) → contains xs z ≡ contains ys z

-- The same numbers in another order.
pub record IsArrangement (xs : List ℕ) (order : List ℕ) : Type 0 where
  pub members : (z : ℕ) → contains order z ≡ contains xs z
  pub distinct : AreDistinct xs → AreDistinct order
  pub count : length order ≡ length xs

abbrev pub IsPick : List ℕ → ℕ × List ℕ → Type 0
IsPick xs (y, ys) = IsArrangement xs (y ∷ ys)

-- taking another number than the first one
pub later-IsPick :
    (x : ℕ) (xs : List ℕ) (pick : ℕ × List ℕ)
    → IsPick xs pick
    → IsPick (x ∷ xs) (pick.0, x ∷ pick.1)
later-IsPick x xs (y, ys) p = record {
  members = λ z. ground (arith, p.members z);
  distinct = λ (new, rest).
      let (other, others) = p.distinct rest in
      ground (arith, other, others, p.members x, p.members y, ==_refl y, new);
  count = omega (arith, p.count);
}

picks-All : (xs : List ℕ) → All (IsPick xs) (picks xs)
unfolding picks
picks-All [] = tt
picks-All (x ∷ xs) = (
  record { members = λ z. refl; distinct = λ d. d; count = refl },
  All-map (IsPick xs) (IsPick (x ∷ xs)) (λ (y, ys). (y, x ∷ ys)) (later-IsPick x xs) (picks xs)
      (picks-All xs),
)

module _ {A B : Type 0} (P : A → Type 0) (Q : B → Type 0) (f : A → List B) where
  flat_map-All : ((x : A) → P x → All Q (f x)) → (xs : List A) → All P xs → All Q (flat_map f xs)
  unfolding flat_map
  flat_map-All step [] h = tt
  flat_map-All step (x ∷ xs) h =
      All-append Q (f x) (flat_map f xs) (step x h.0) (flat_map-All step xs h.1)

-- a first number before an arrangement of the others
cons-IsArrangement :
    (xs : List ℕ) (y : ℕ) (ys order : List ℕ)
    → IsArrangement xs (y ∷ ys)
    → IsArrangement ys order
    → IsArrangement xs (y ∷ order)
cons-IsArrangement xs y ys order p q = record {
  members = λ z. ground (arith, p.members z, q.members z);
  distinct = λ d. let (new, rest) = p.distinct d in (q.members y ∙ new, q.distinct rest);
  count = omega (arith, p.count, q.count);
}

-- Every permutation of a list of this length is an arrangement of it.
pub permutations-All :
    (count : ℕ) (xs : List ℕ) → length xs ≡ count → All (IsArrangement xs) (permutations count xs)
unfolding permutations
permutations-All zero [] h = (record { members = λ z. refl; distinct = λ d. d; count = refl }, tt)
permutations-All zero (x ∷ xs) h = absurd (omega arith)
permutations-All (suc count) xs h =
    flat_map-All (IsPick xs) (IsArrangement xs) _
      (λ (y, ys) p.
        All-map (IsArrangement ys) (IsArrangement xs) (λ order. y ∷ order)
          (λ order q. cons-IsArrangement xs y ys order p q) (permutations count ys)
          (permutations-All count ys (omega (arith, p.count))))
      (picks xs) (picks-All xs)

contains-range_from :
    (first count z : ℕ)
    → contains (range_from first count) z ≡ (leb first z && ltb z (first + count))
unfolding range_from
contains-range_from first zero z = ground arith
contains-range_from first (suc count) z = ground (arith, contains-range_from (suc first) count z)

pub range_from-AreDistinct : (first count : ℕ) → AreDistinct (range_from first count)
unfolding range_from
range_from-AreDistinct first zero = tt
range_from-AreDistinct first (suc count) = (
  ground (arith, contains-range_from (suc first) count first),
  range_from-AreDistinct (suc first) count,
)

pub length-range_from : (first count : ℕ) → length (range_from first count) ≡ count
unfolding range_from
length-range_from first zero = refl
length-range_from first (suc count) = ap suc (length-range_from (suc first) count)

all_in-members :
    (ys xs : List ℕ) → ((z : ℕ) → contains xs z ≡ true → contains ys z ≡ true) → all_in ys xs ≡ true
all_in-members ys [] h = refl
all_in-members ys (x ∷ xs) h =
    ground (arith, h x, ==_refl x, all_in-members ys xs (λ z inside. h z (ground arith)))

IsArrangement-same_set : (xs order : List ℕ) → IsArrangement xs order → same_set order xs ≡ true
unfolding same_set
IsArrangement-same_set xs order p = ground (
  arith,
  all_in-members xs order (λ z h. sym (p.members z) ∙ h),
  all_in-members order xs (λ z h. p.members z ∙ h),
)

members-All : (P : ℕ → Type 0) (xs : List ℕ) → ((z : ℕ) → contains xs z ≡ true → P z) → All P xs
members-All P [] h = tt
members-All P (x ∷ xs) h =
    (h x (ground (arith, ==_refl x)), members-All P xs (λ z inside. h z (ground arith)))

-- What the order of a team of this size is: each of its slots once.
pub record IsTeamOrder (count : ℕ) (order : List ℕ) : Type 0 where
  pub slots : All (IsSlot 6) order
  pub distinct : AreDistinct order
  pub same : same_set order (range_from 1 count) ≡ true
  pub size : length order ≡ count

arrangement-IsTeamOrder :
    (count : ℕ) (order : List ℕ)
    → count ≤ 6
    → IsArrangement (range_from 1 count) order
    → IsTeamOrder count order
arrangement-IsTeamOrder count order small p = record {
  slots =
      members-All (IsSlot 6) order
        (λ z inside. ground (arith, p.members z, contains-range_from 1 count z));
  distinct = p.distinct (range_from-AreDistinct 1 count);
  same = IsArrangement-same_set (range_from 1 count) order p;
  size = p.count ∙ length-range_from 1 count;
}

-- For a team of up to six, every permutation of its slots has each slot once and no other.
pub permutations-AreTeamOrders :
    (count : ℕ) → count ≤ 6 → All (IsTeamOrder count) (permutations count (range_from 1 count))
permutations-AreTeamOrders count small =
    All-weaken (IsArrangement (range_from 1 count)) (IsTeamOrder count)
      (λ order p. arrangement-IsTeamOrder count order small p)
      (permutations count (range_from 1 count))
      (permutations-All count (range_from 1 count) (length-range_from 1 count))
