-- ===== src/Broker/MetaStore/ScaleOut.antt =====
-- `migrate_slots`: the scale out of a cluster as a whole.
use undermoon.Prelude.{
  ℕ, ◌*◌, ◌≤◌, ◌<◌, ◌≡◌, refl, Bool, true, false, some, List, [], ◌∷◌, any, length, arith, All, ok,
  slot_num, text_eq_refl,
}
use undermoon.Dict
use undermoon.Dict.Laws.{lookup-insert}
use undermoon.Cluster.{Text}
use undermoon.Broker.Store.{ChunkStore, ClusterStore}
use undermoon.Broker.Slots.{owners, HasCompactSlots, Steady}
use undermoon.Broker.Migrate.Remove.{remove_slots_from_src_lem}
use undermoon.Broker.Assign.Owners.{assign_dst_slots_lem}
use undermoon.Broker.MetaStore.{
  MetaStore, migrate_cluster, migrate_slots, has_free_master, is_chunk_migrating, cluster_name_from,
  put_cluster, with_cluster, bump_global_epoch,
}

-- What a cluster must be for a scale out to start: compacted range lists, no migration, some chunk,
-- and no more masters than there are slots.
pub record IsReady (cluster : ClusterStore) : Type 0 where
  pub steady : Steady cluster.chunks
  pub some_chunk : 0 < length cluster.chunks
  pub at_most : length cluster.chunks * 2 ≤ slot_num

pub idle-any : (chunks : List ChunkStore) → Steady chunks → any is_chunk_migrating chunks ≡ false
idle-any [] h = refl
idle-any (chunk ∷ chunks) ((o, idle), h) = rw (idle.first, idle.second, idle-any chunks h)

compact_part : (chunks : List ChunkStore) → Steady chunks → All HasCompactSlots chunks
compact_part [] h = tt
compact_part (chunk ∷ chunks) ((o, idle), h) = (o, compact_part chunks h)

-- Starting a scale out of a ready cluster with a free master succeeds. Each slot keeps its owners.
pub migrate_cluster_lem :
    (cluster : ClusterStore) (epoch : ℕ)
    → IsReady cluster
    → any has_free_master cluster.chunks ≡ true
    → (chunks : List ChunkStore) × (migrate_cluster cluster epoch
        ≡ ok (record cluster { epoch = epoch; chunks = chunks }))
      × All HasCompactSlots chunks
      × (length chunks ≡ length cluster.chunks)
      × ((s : ℕ) → owners chunks s ≡ owners cluster.chunks s)
unfolding migrate_cluster
migrate_cluster_lem cluster epoch ready free =
    let (removed, ms, e, st, len, plan, same) =
      remove_slots_from_src_lem cluster epoch ready.some_chunk ready.at_most ready.steady in
    let (chunks, e', o, len', same') =
      assign_dst_slots_lem (length cluster.chunks) epoch (record cluster { chunks = removed }) ms
        len (compact_part removed st) plan in
    (
      chunks,
      rw (free, idle-any cluster.chunks ready.steady, e, e'),
      o,
      len',
      λ s. omega (arith, same s, same' s),
    )

migrate_slots_run :
    (fits : Text → Bool) (store : MetaStore) (name : Text) (cluster changed : ClusterStore)
    → cluster_name_from fits name ≡ some name
    → Dict.lookup name store.clusters ≡ some cluster
    → migrate_cluster cluster (bump_global_epoch store).global_epoch ≡ ok changed
    → migrate_slots fits store name ≡ put_cluster (bump_global_epoch store) name (ok changed)
unfolding migrate_slots
migrate_slots_run fits store name cluster changed valid found done =
    rw (valid, migrate_slots) (rw (found, with_cluster) (rw done))

-- Let the name be valid, and let the store have a cluster of that name. Let the cluster have
-- compacted range lists, no migration under way, some chunk, no more masters than there are slots,
-- and a master without slots. Then `migrate_slots` succeeds: the global epoch goes up by one (in
-- u64), the cluster takes it as its epoch, keeps its number of chunks, has compacted range lists, and
-- for each slot as many masters as before hold it or give it away.
pub migrate_slots_ok :
    (fits : Text → Bool) (store : MetaStore) (name : Text) (cluster : ClusterStore)
    → cluster_name_from fits name ≡ some name
    → Dict.lookup name store.clusters ≡ some cluster
    → IsReady cluster
    → any has_free_master cluster.chunks ≡ true
    → let (store', result) = migrate_slots fits store name in
      (result ≡ ok tt)
      × (store'.global_epoch ≡ (bump_global_epoch store).global_epoch)
      × ((chunks : List ChunkStore) × (Dict.lookup name store'.clusters
            ≡ some (record cluster { epoch = store'.global_epoch; chunks = chunks }))
          × All HasCompactSlots chunks
          × (length chunks ≡ length cluster.chunks)
          × ((s : ℕ) → owners chunks s ≡ owners cluster.chunks s))
migrate_slots_ok fits store name cluster valid found ready free =
    let epoch = (bump_global_epoch store).global_epoch in
    let (chunks, e, o, len, same) = migrate_cluster_lem cluster epoch ready free in
    rw (migrate_slots_run fits store name cluster _ valid found e)
      (refl, refl, (chunks, rw (lookup-insert, text_eq_refl), o, len, same))
