-- ===== src/Pools.antt =====
-- packages/battlebelief-lab/src/battlebelief_lab/evaluation/pool_partitioning.py: the pools of an
-- evaluation and who owns a cluster of teams.
use battle_belief.Base.{
  String, Bool, true, not, ◌&&◌, Option, some, List, [], ◌∷◌, map, length, contains, sorted, Result,
  ok, err, ◌>>=◌, ◌>>◌, guard, ◌==◌, nat_eq, string_eq, option_eq, if◌then◌else◌,
}
use battle_belief.Base.Text.{str_leb}
pub mod Sorting
pub mod Orders
pub mod Owners
pub mod Partitions

pub data PoolName : Type 0 where
  development selection power_pilot release_holdout : PoolName

unfoldable pub value : PoolName → String
value development = "development"
value selection = "selection"
value power_pilot = "power_pilot"
value release_holdout = "release_holdout"

-- What the module raises: `ValueError`, and `ProtectedPoolError`.
pub data PoolError : Type 0 where
  value_error : PoolError
  protected_pool : PoolName → PoolError

abbrev pub Assignment : Type 0
Assignment = String × PoolName

pub record PoolPartition : Type 0 where
  pub assignments : List Assignment
  pub access : PoolName → Option String

-- the access state that is fail-closed
abbrev pub fail_closed : PoolName → Option String
fail_closed development = some "available"
fail_closed _ = some "unopened"

-- `dict(self.access) == expected`
unfoldable pub is_fail_closed : (PoolName → Option String) → Bool
is_fail_closed access =
    access development == some "available"
    && (access selection == some "unopened"
        && (access power_pilot == some "unopened" && access release_holdout == some "unopened"))

-- `a <= b` on the keys `(item[0], item[1].value)`
unfoldable pub assignment_leb : Assignment → Assignment → Bool
unfolding value
assignment_leb (i, p) (j, q) = if i == j then str_leb (value p) (value q) else str_leb i j

-- `{cluster_id for cluster_id, _ in assignments}`, as a list
unfoldable pub cluster_ids : List Assignment → List String
cluster_ids [] = []
cluster_ids ((i, p) ∷ xs) = let rest = cluster_ids xs in if contains rest i then rest else i ∷ rest

unfoldable pub have_one_owner : List Assignment → Bool
unfolding cluster_ids
have_one_owner xs = length (cluster_ids xs) == length xs

unfoldable pub have_cluster_ids : List Assignment → Bool
have_cluster_ids [] = true
have_cluster_ids ((i, p) ∷ xs) = not (i == "") && have_cluster_ids xs

-- the constructor `PoolPartition(...)` with its `__post_init__`
unfoldable pub make_partition :
    List Assignment → (PoolName → Option String) → Result PoolError PoolPartition
unfolding have_one_owner have_cluster_ids is_fail_closed
make_partition assignments access = do
  guard (have_cluster_ids assignments) value_error
  let ordered = sorted assignment_leb assignments
  guard (have_one_owner ordered) value_error
  guard (is_fail_closed access) value_error
  ok (record { assignments = ordered; access = fail_closed })

-- `PoolPartition.open`
unfoldable pub open_pool : PoolPartition → PoolName → Result PoolError Unit
open_pool partition pool = guard (partition.access pool == some "available") (protected_pool pool)

-- `create_pool_partition`
unfoldable pub create_pool_partition : List Assignment → Result PoolError PoolPartition
unfolding make_partition
create_pool_partition assignments = do
  guard (have_one_owner assignments) value_error
  let ordered = sorted assignment_leb assignments
  guard (have_cluster_ids ordered) value_error
  make_partition ordered fail_closed
