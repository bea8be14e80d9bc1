-- ===== src/RequestReader/AllOrders.antt =====
-- request_reader.py: the orders of a team, all of them.
use battle_belief.Base.{
  ℕ, zero, suc, ◌≤◌, true, List, [], ◌∷◌, ◌++◌, map, length, contains, contains-append_left,
  contains-append_right, contains-map, All-contains, ==_refl, ==→eq, ◌==◌, nat_eq, list_eq,
  Bool-cases, inl, inr, ◌↔◌, ◌≡◌, refl, sym, subst, ◌∙◌, ap, arith,
}
use battle_belief.Actions.Checks.{AreDistinct}
use battle_belief.Reconciler.{range_from, same_set, all_in}
use battle_belief.RequestReader.Submissions.{picks, flat_map, permutations}
use battle_belief.RequestReader.Orders.{
  IsArrangement, later-IsPick, IsTeamOrder, permutations-AreTeamOrders, length-range_from,
  range_from-AreDistinct,
}

flat_map-map :
    {A B C : Type 0} (f : B → List C) (g : A → B) (xs : List A)
    → flat_map f (map g xs) ≡ flat_map (λ x. f (g x)) xs
unfolding flat_map
flat_map-map f g [] = refl
flat_map-map f g (x ∷ xs) = ap (λ ys. f (g x) ++ ys) (flat_map-map f g xs)

-- Each number of a list is picked once, and the others are what is left.
picked :
    (f : ℕ × List ℕ → List (List ℕ)) (xs : List ℕ) (y : ℕ) (order : List ℕ)
    → contains xs y ≡ true
    → ((ys : List ℕ) → IsArrangement xs (y ∷ ys) → contains (f (y, ys)) order ≡ true)
    → contains (flat_map f (picks xs)) order ≡ true
unfolding picks flat_map
picked f [] y order inside h = cc
picked f (x ∷ xs) y order inside h = elim (Bool-cases (y == x)) [
  | inl same ↦
      let e : y ≡ x = ==→eq y x same in
      contains-append_left (f (x, xs)) _ order (
        subst (λ z. contains (f (z, xs)) order ≡ true) e
          (h xs (
            subst (λ z. IsArrangement (x ∷ xs) (z ∷ xs)) (sym e)
              (record { members = λ z. refl; distinct = λ d. d; count = refl }))))
  | inr other ↦ contains-append_right (f (x, xs)) _ order (
      rw (flat_map-map f (λ (z, ys). (z, x ∷ ys)) (picks xs)) (
        picked (λ (z, ys). f (z, x ∷ ys)) xs y order (ground arith)
          (λ ys p. h (x ∷ ys) (later-IsPick x xs (y, ys) p))))
]

-- What is left of an order of distinct numbers after its first one.
rest-IsArrangement :
    (xs : List ℕ) (y : ℕ) (ys rest : List ℕ)
    → AreDistinct xs
    → IsArrangement xs (y ∷ ys)
    → IsArrangement xs (y ∷ rest)
    → IsArrangement ys rest
rest-IsArrangement xs y ys rest d p q = record {
  members = λ z. elim (Bool-cases (z == y)) [
    | inl same ↦
        let e = ==→eq z y same in
        subst (λ w. contains rest w ≡ contains ys w) (sym e)
          ((q.distinct d).0 ∙ sym ((p.distinct d).0))
    | inr other ↦ ground (arith, p.members z, q.members z)
  ];
  distinct = λ _. (q.distinct d).1;
  count = omega (arith, p.count, q.count);
}

permutations_complete :
    (count : ℕ) (xs order : List ℕ)
    → length xs ≡ count
    → AreDistinct xs
    → IsArrangement xs order
    → contains (permutations count xs) order ≡ true
unfolding permutations
permutations_complete zero xs [] h d q = ground (arith, ==_refl {A = List ℕ} [])
permutations_complete zero xs (y ∷ rest) h d q = absurd (omega (arith, q.count))
permutations_complete (suc count) xs [] h d q = absurd (omega (arith, q.count))
permutations_complete (suc count) xs (y ∷ rest) h d q =
    picked _ xs y (y ∷ rest) (sym (q.members y) ∙ ground (arith, ==_refl y)) λ ys p.
      contains-map (λ order. y ∷ order) (permutations count ys) rest
        (permutations_complete count ys rest (omega (arith, p.count)) (p.distinct d).1
          (rest-IsArrangement xs y ys rest d p q))

all_in-contains :
    (ys xs : List ℕ) (z : ℕ) → all_in ys xs ≡ true → contains xs z ≡ true → contains ys z ≡ true
all_in-contains ys [] z h inside = cc
all_in-contains ys (x ∷ xs) z h inside = elim (Bool-cases (z == x)) [
  | inl same ↦ subst (λ w. contains ys w ≡ true) (sym (==→eq z x same)) (ground arith)
  | inr other ↦ all_in-contains ys xs z (ground arith) (ground arith)
]

same_set-contains : (xs ys : List ℕ) (z : ℕ) → same_set xs ys ≡ true → contains xs z ≡ contains ys z
unfolding same_set
same_set-contains xs ys z h =
    ground (arith, all_in-contains ys xs z (ground arith), all_in-contains xs ys z (ground arith))

team_order-IsArrangement :
    (count : ℕ) (order : List ℕ)
    → IsTeamOrder count order
    → IsArrangement (range_from 1 count) order
team_order-IsArrangement count order h = record {
  members = λ z. same_set-contains order (range_from 1 count) z h.same;
  distinct = λ _. h.distinct;
  count = h.size ∙ sym (length-range_from 1 count);
}

-- For a team of up to six, the permutations of its slots are exactly the orders that have each slot
-- once and no other.
pub permutations-IsTeamOrder :
    (count : ℕ) (order : List ℕ)
    → count ≤ 6
    → contains (permutations count (range_from 1 count)) order ≡ true ↔ IsTeamOrder count order
permutations-IsTeamOrder count order small = (
  λ inside.
      All-contains (IsTeamOrder count) (permutations count (range_from 1 count)) order inside
        (permutations-AreTeamOrders count small),
  λ h.
      permutations_complete count (range_from 1 count) order (length-range_from 1 count)
        (range_from-AreDistinct 1 count) (team_order-IsArrangement count order h),
)
