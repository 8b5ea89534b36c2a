-- ===== src/Broker/Commit/Succeeds.antt =====
-- `commit_migration` on the store: a task whose two sides are there is committed.
use undermoon.Prelude.{ℕ, ◌≤◌, ◌≡◌, refl, some, true, false, List, length, All, ok, text_eq_refl}
use undermoon.Dict
use undermoon.Dict.Laws.{lookup-insert}
use undermoon.Cluster.{MigrationTaskMeta}
use undermoon.Broker.Store.{ChunkStore, ClusterStore}
use undermoon.Broker.Slots.{owners, HasCompactSlots}
use undermoon.Broker.MetaStore.{MetaStore, bump_global_epoch}
use undermoon.Broker.Commit.{task_epoch, find_task, commit_cluster, commit_migration}
use undermoon.Broker.Commit.Entries.{IsPaired}
use undermoon.Broker.Commit.Owners.{commit_found}

commit_migration_run :
    (store : MetaStore) (task : MigrationTaskMeta) (cluster changed : ClusterStore)
    → Dict.lookup task.cluster_name store.clusters ≡ some cluster
    → commit_cluster task.slot_range (bump_global_epoch store).global_epoch cluster ≡ ok changed
    → commit_migration store task ≡ (
      bump_global_epoch
          (record store { clusters = Dict.insert task.cluster_name changed store.clusters }),
      ok tt,
    )
unfolding commit_migration
commit_migration_run store task cluster changed found done =
    rw (found, commit_migration) (rw done refl)

-- Let the store have the task's cluster, and let the cluster have compacted range lists, both sides
-- of each migration once, and at most one owner for each slot. Let both sides of the task be among
-- its migrations. Then `commit_migration` succeeds: the global epoch goes up by one (in u64), the
-- cluster takes it as its epoch, keeps its number of chunks, has compacted range lists, and each slot
-- has as many owners as before.
pub commit_migration_ok :
    (store : MetaStore) (task : MigrationTaskMeta) (cluster : ClusterStore) (epoch : ℕ)
    (src dst : ℕ × ℕ)
    → Dict.lookup task.cluster_name store.clusters ≡ some cluster
    → All HasCompactSlots cluster.chunks
    → IsPaired cluster.chunks
    → ((s : ℕ) → owners cluster.chunks s ≤ 1)
    → task_epoch task.slot_range.tag ≡ ok epoch
    → find_task task.slot_range.range_list epoch true 0 cluster.chunks ≡ some src
    → find_task task.slot_range.range_list epoch false 0 cluster.chunks ≡ some dst
    → let (store', result) = commit_migration store task in
      (result ≡ ok tt)
      × (store'.global_epoch ≡ (bump_global_epoch store).global_epoch)
      × ((chunks : List ChunkStore) × (Dict.lookup task.cluster_name store'.clusters
            ≡ some (record cluster { chunks = chunks; epoch = store'.global_epoch }))
          × All HasCompactSlots chunks
          × (length chunks ≡ length cluster.chunks)
          × ((s : ℕ) → owners chunks s ≡ owners cluster.chunks s))
commit_migration_ok store task cluster epoch (i, j) (i', j') found h paired once e src dst =
    let new_epoch = (bump_global_epoch store).global_epoch in
    let (chunks, done, a, len, same) =
      commit_found task.slot_range new_epoch cluster epoch i j i' j' e src dst h paired once in
    rw (commit_migration_run store task cluster _ found done)
      (refl, refl, (chunks, rw (lookup-insert, text_eq_refl), a, len, same))
