-- ===== src/Scenarios/Pools.antt =====
-- Clusters that are assigned to pools.
use mathlib.Core.List.Perm
use battle_belief.Base.{List, [], ◌∷◌, ok, err, ◌⊎◌, ◌≡◌}
use battle_belief.Pools.{
  development, release_holdout, value_error, Assignment, PoolPartition, create_pool_partition,
}
use battle_belief.Pools.Owners.{HaveOneOwner}
use battle_belief.Pools.Partitions.{
  IsPartitionOf, create_pool_partition-IsPartitionOf, create_pool_partition-perm,
}

abbrev two_clusters : List Assignment
two_clusters = ("rain", release_holdout) ∷ ("balance", development) ∷ []

abbrev turned : List Assignment
turned = ("balance", development) ∷ ("rain", release_holdout) ∷ []

create_pool_partition-IsPartitionOf_example :
    (HaveOneOwner two_clusters
      × (partition : PoolPartition) × (create_pool_partition two_clusters ≡ ok partition)
      × IsPartitionOf two_clusters partition)
    ⊎ ((¬ HaveOneOwner two_clusters) × (create_pool_partition two_clusters ≡ err value_error))
create_pool_partition-IsPartitionOf_example = create_pool_partition-IsPartitionOf two_clusters

create_pool_partition-perm_example :
    create_pool_partition two_clusters ≡ create_pool_partition turned
create_pool_partition-perm_example =
    create_pool_partition-perm two_clusters turned
      (Perm.swap ("balance", development) ("rain", release_holdout) [])
