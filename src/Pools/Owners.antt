-- ===== src/Pools/Owners.antt =====
-- pool_partitioning.py: the clusters of the assignments, each with its owner.
use battle_belief.Base.{
  ◌≤◌, String, Bool, true, false, not, ◌&&◌, ◌||◌, List, [], ◌∷◌, length, contains, insert_sorted,
  sorted, ◌==◌, ==→eq, eq→==, nat_eq, string_eq, option_eq, list_eq, Eq, Bool-cases, inl, inr, ◌≡◌,
  ◌≢◌, refl, sym, ap, ◌∙◌, if_cases, arith,
}
use battle_belief.Pools.{
  PoolName, Assignment, assignment_leb, cluster_ids, have_one_owner, have_cluster_ids,
}

PoolName-discrete : Discrete PoolName
PoolName-discrete = hlevel

instance pool_eq : Eq PoolName
pool_eq = record { dec = PoolName-discrete }

instance pub assignment_eq : Eq Assignment
assignment_eq = record { dec = hlevel (PoolName-discrete, string_eq.dec) }

-- Each cluster has an id, and none is assigned twice.
abbrev owns : List Assignment → String → Bool
owns [] k = false
owns ((i, p) ∷ xs) k = k == i || owns xs k

abbrev pub HaveOneOwner : List Assignment → Type 0
HaveOneOwner [] = Unit
HaveOneOwner ((i, p) ∷ xs) = (i ≢ "") × (owns xs i ≡ false) × HaveOneOwner xs

contains-cluster_ids : (xs : List Assignment) (k : String) → contains (cluster_ids xs) k ≡ owns xs k
unfolding cluster_ids
contains-cluster_ids [] k = refl
contains-cluster_ids ((i, p) ∷ xs) k =
    ground (arith, contains-cluster_ids xs k, contains-cluster_ids xs i)

length-cluster_ids : (xs : List Assignment) → length (cluster_ids xs) ≤ length xs
unfolding cluster_ids
length-cluster_ids [] = omega arith
length-cluster_ids ((i, p) ∷ xs) = ground (arith, length-cluster_ids xs)

-- The two checks say just that.
abbrev pub accepts : List Assignment → Bool
accepts xs = have_one_owner xs && have_cluster_ids xs

accepts-cons :
    (i : String) (p : PoolName) (xs : List Assignment)
    → accepts ((i, p) ∷ xs) ≡ (not (i == "") && (not (owns xs i) && accepts xs))
unfolding have_one_owner have_cluster_ids cluster_ids
accepts-cons i p xs = ground (arith, contains-cluster_ids xs i, length-cluster_ids xs)

pub accepts-HaveOneOwner : (xs : List Assignment) → accepts xs ≡ true → HaveOneOwner xs
accepts-HaveOneOwner [] h = tt
accepts-HaveOneOwner ((i, p) ∷ xs) h =
    let split = sym (accepts-cons i p xs) ∙ h in
    (λ e. ground (arith, eq→== i "" e), ground arith, accepts-HaveOneOwner xs (ground arith))

pub HaveOneOwner-accepts : (xs : List Assignment) → HaveOneOwner xs → accepts xs ≡ true
unfolding have_one_owner have_cluster_ids cluster_ids
HaveOneOwner-accepts [] h = ground arith
HaveOneOwner-accepts ((i, p) ∷ xs) (named, new, rest) =
    accepts-cons i p xs ∙ elim (Bool-cases (i == "")) [
      | inl empty ↦ absurd (named (==→eq i "" empty))
      | inr some_id ↦ ground (arith, HaveOneOwner-accepts xs rest)
    ]

-- Sorting leaves the clusters as they are.
owns-insert_sorted :
    (i k : String) (p : PoolName) (xs : List Assignment)
    → owns (insert_sorted assignment_leb (i, p) xs) k ≡ (k == i || owns xs k)
unfolding insert_sorted
owns-insert_sorted i k p [] = refl
owns-insert_sorted i k p ((j, q) ∷ xs) = ground (arith, owns-insert_sorted i k p xs)

owns-sorted : (xs : List Assignment) (k : String) → owns (sorted assignment_leb xs) k ≡ owns xs k
unfolding sorted
owns-sorted [] k = refl
owns-sorted ((i, p) ∷ xs) k =
    owns-insert_sorted i k p (sorted assignment_leb xs) ∙ ap (λ b. k == i || b) (owns-sorted xs k)

accepts-insert_sorted :
    (i : String) (p : PoolName) (xs : List Assignment)
    → accepts (insert_sorted assignment_leb (i, p) xs) ≡ accepts ((i, p) ∷ xs)
unfolding insert_sorted
accepts-insert_sorted i p [] = refl
accepts-insert_sorted i p ((j, q) ∷ xs) =
    if_cases (λ ys. accepts ys ≡ accepts ((i, p) ∷ (j, q) ∷ xs)) (assignment_leb (i, p) (j, q))
      (λ _. refl)
      (λ _.
        accepts-cons j q (insert_sorted assignment_leb (i, p) xs)
        ∙ ground (
          arith,
          accepts-insert_sorted i p xs,
          accepts-cons i p xs,
          accepts-cons i p ((j, q) ∷ xs),
          accepts-cons j q xs,
          owns-insert_sorted i j p xs,
        ))

pub accepts-sorted : (xs : List Assignment) → accepts (sorted assignment_leb xs) ≡ accepts xs
unfolding sorted
accepts-sorted [] = refl
accepts-sorted ((i, p) ∷ xs) =
    accepts-insert_sorted i p (sorted assignment_leb xs)
    ∙ ground (
      arith,
      accepts-cons i p (sorted assignment_leb xs),
      accepts-cons i p xs,
      accepts-sorted xs,
      owns-sorted xs i,
    )

have_cluster_ids-insert_sorted :
    (i : String) (p : PoolName) (xs : List Assignment)
    → have_cluster_ids (insert_sorted assignment_leb (i, p) xs) ≡ have_cluster_ids ((i, p) ∷ xs)
unfolding insert_sorted have_cluster_ids
have_cluster_ids-insert_sorted i p [] = refl
have_cluster_ids-insert_sorted i p ((j, q) ∷ xs) =
    ground (arith, have_cluster_ids-insert_sorted i p xs)

pub have_cluster_ids-sorted :
    (xs : List Assignment) → have_cluster_ids (sorted assignment_leb xs) ≡ have_cluster_ids xs
unfolding sorted have_cluster_ids
have_cluster_ids-sorted [] = refl
have_cluster_ids-sorted ((i, p) ∷ xs) =
    have_cluster_ids-insert_sorted i p (sorted assignment_leb xs)
    ∙ ap (λ b. not (i == "") && b) (have_cluster_ids-sorted xs)
