-- ===== src/Pools/Partitions.antt =====
-- pool_partitioning.py: what `create_pool_partition` makes, and which pools can be opened.
use mathlib.Core.List.{Perm}
use battle_belief.Base.{
  not_both, String, true, false, List, [], ◌∷◌, insert_sorted, sorted, Result, ok, err, ◌==◌,
  ==_refl, nat_eq, string_eq, option_eq, list_eq, Bool-cases, ◌⊎◌, inl, inr, ◌≡◌, refl, sym, ap,
  Option, some, String-discrete, ◌∙◌, if◌then◌else◌, if_cases, arith,
}
use battle_belief.Pools.{
  PoolName, development, selection, power_pilot, release_holdout, PoolError, value_error,
  protected_pool, Assignment, PoolPartition, fail_closed, is_fail_closed, assignment_leb,
  have_one_owner, have_cluster_ids, make_partition, open_pool, create_pool_partition,
}
use battle_belief.Pools.Sorting.{sorted-Perm, Perm-sorted}
use battle_belief.Pools.Orders.{assignment_leb_total, assignment_leb_antisym, assignment_leb_trans}
use battle_belief.Pools.Owners.{
  HaveOneOwner, accepts, accepts-HaveOneOwner, HaveOneOwner-accepts, accepts-sorted,
  have_cluster_ids-sorted, assignment_eq,
}

is_fail_closed-fail_closed : is_fail_closed fail_closed ≡ true
unfolding is_fail_closed
is_fail_closed-fail_closed =
    ground (arith, ==_refl (fail_closed development), ==_refl (fail_closed selection))

sorted_again :
    (xs : List Assignment)
    → sorted assignment_leb (sorted assignment_leb xs) ≡ sorted assignment_leb xs
sorted_again xs =
    Perm-sorted assignment_leb assignment_leb_total assignment_leb_antisym assignment_leb_trans
      (sorted-Perm assignment_leb xs)

-- the partition of the assignments
abbrev pub partition_of : List Assignment → PoolPartition
partition_of xs = record { assignments = sorted assignment_leb xs; access = fail_closed }

create_pool_partition-if :
    (xs : List Assignment)
    → create_pool_partition xs ≡ (if accepts xs then ok (partition_of xs) else err value_error)
unfolding create_pool_partition make_partition
create_pool_partition-if xs = elim (Bool-cases (have_one_owner xs)) [
  | inr twice ↦ rw twice refl
  | inl once ↦ elim (Bool-cases (have_cluster_ids xs)) [
    | inr nameless ↦ rw (once, nameless, have_cluster_ids-sorted xs ∙ nameless) refl
    | inl named ↦
        let owned : have_one_owner (sorted assignment_leb xs) ≡ true =
          ground (arith, accepts-sorted xs) in
        rw
          (
            once,
            named,
            have_cluster_ids-sorted xs ∙ named,
            sorted_again xs,
            owned,
            is_fail_closed-fail_closed,
          )
          refl
  ]
]

-- Ascending neighbours.
abbrev pub IsAscending : List Assignment → Type 0
IsAscending [] = Unit
IsAscending (x ∷ []) = Unit
IsAscending (x ∷ y ∷ l) = (assignment_leb x y ≡ true) × IsAscending (y ∷ l)

insert_sorted-IsAscending :
    (x : Assignment) (l : List Assignment)
    → IsAscending l
    → IsAscending (insert_sorted assignment_leb x l)
unfolding insert_sorted
insert_sorted-IsAscending x [] h = tt
insert_sorted-IsAscending x (y ∷ []) h =
    if_cases IsAscending (assignment_leb x y) (λ first. (first, tt))
      (λ later. (assignment_leb_total x y later, tt))
insert_sorted-IsAscending x (y ∷ z ∷ l) h =
    if_cases IsAscending (assignment_leb x y) (λ first. (first, h))
      (λ later.
        behind (assignment_leb_total x y later) h.0 (insert_sorted-IsAscending x (z ∷ l) h.1))
  where
    behind :
        assignment_leb y x ≡ true
        → assignment_leb y z ≡ true
        → IsAscending
            (if assignment_leb x z then x ∷ z ∷ l else z ∷ insert_sorted assignment_leb x l)
        → IsAscending
            (y ∷ (if assignment_leb x z then x ∷ z ∷ l else z ∷ insert_sorted assignment_leb x l))
    behind before between rest = elim (Bool-cases (assignment_leb x z)) [
      | inl first ↦ rw first (before, (rw first at rest))
      | inr later ↦ rw later (between, (rw later at rest))
    ]

sorted-IsAscending : (xs : List Assignment) → IsAscending (sorted assignment_leb xs)
unfolding sorted
sorted-IsAscending [] = tt
sorted-IsAscending (x ∷ xs) =
    insert_sorted-IsAscending x (sorted assignment_leb xs) (sorted-IsAscending xs)

-- What opening a pool gives: only the development pool is available.
abbrev pub opened : PoolName → Result PoolError Unit
opened development = ok tt
opened pool = err (protected_pool pool)

pub record IsPartitionOf (xs : List Assignment) (partition : PoolPartition) : Type 0 where
  pub same : Perm partition.assignments xs
  pub ascending : IsAscending partition.assignments
  pub openings : (pool : PoolName) → open_pool partition pool ≡ opened pool

unopened : ◌==◌ {A = Option String} (some "unopened") (some "available") ≡ false
unfolding option_eq string_eq String-discrete
unopened = refl

partition_of-IsPartitionOf : (xs : List Assignment) → IsPartitionOf xs (partition_of xs)
unfolding open_pool
partition_of-IsPartitionOf xs = record {
  same = sorted-Perm assignment_leb xs;
  ascending = sorted-IsAscending xs;
  openings = openings;
}
  where
    openings : (pool : PoolName) → open_pool (partition_of xs) pool ≡ opened pool
    openings development = rw (==_refl (fail_closed development)) refl
    openings selection = rw unopened refl
    openings power_pilot = rw unopened refl
    openings release_holdout = rw unopened refl

-- The clusters are assigned to pools exactly if each has an id and one owner: then the partition has
-- the same assignments in ascending order, and of its pools only development can be opened;
-- otherwise the call raises.
pub create_pool_partition-IsPartitionOf :
    (xs : List Assignment)
    → (HaveOneOwner xs
        × (partition : PoolPartition) × (create_pool_partition xs ≡ ok partition)
        × IsPartitionOf xs partition)
      ⊎ ((¬ HaveOneOwner xs) × (create_pool_partition xs ≡ err value_error))
create_pool_partition-IsPartitionOf xs = elim (Bool-cases (accepts xs)) [
  | inl owned ↦ inl (
    accepts-HaveOneOwner xs owned,
    partition_of xs,
    create_pool_partition-if xs ∙ rw owned refl,
    partition_of-IsPartitionOf xs,
  )
  | inr other ↦
      inr (
        λ h. not_both (HaveOneOwner-accepts xs h) other,
        create_pool_partition-if xs ∙ rw other refl,
      )
]

-- The order in which the assignments are listed does not matter.
pub create_pool_partition-perm :
    (xs ys : List Assignment) → Perm xs ys → create_pool_partition xs ≡ create_pool_partition ys
create_pool_partition-perm xs ys p =
    let lists : sorted assignment_leb xs ≡ sorted assignment_leb ys =
      Perm-sorted assignment_leb assignment_leb_total assignment_leb_antisym assignment_leb_trans
        p in
    let checks : accepts xs ≡ accepts ys =
      sym (accepts-sorted xs) ∙ ap accepts lists ∙ accepts-sorted ys in
    create_pool_partition-if xs ∙ rw (checks, lists) refl ∙ sym (create_pool_partition-if ys)
