-- ===== src/Broker/Commit.antt =====
-- src/broker/migrate.rs: `commit_migration`, which ends one migration. `check_slots_balance` only logs
-- and is left out.
pub mod Entries
pub mod Landing
pub mod Outcomes
pub mod Owners
pub mod Succeeds
use undermoon.Prelude.{
  ℕ, suc, ◌+◌, ◌≡◌, Bool, true, false, not, ◌&&◌, Option, none, some, List, [], ◌∷◌, any, ◌==◌,
  if◌then◌else◌, ok, err, panic, ◌>>=◌, expect, ok_or, add_word,
}
use undermoon.Dict
use undermoon.Ranges.{RangeList, merge_another}
use undermoon.Cluster
use undermoon.Cluster.{SlotRange, SlotRangeTag, MigrationMeta, MigrationTaskMeta, range_list_eq}
use undermoon.Broker.Store.{
  Two, ChunkStore, ClusterStore, MigrationMetaStore, MigrationSlotRangeStore,
  invalid_migration_task, migration_task_not_found, cluster_not_found,
}
use undermoon.Broker.Migrate.{Run}
use undermoon.Broker.Assign.{compact_slots}
use undermoon.Broker.MetaStore.{MetaStore, Outcome, bump_global_epoch}

-- `meta.epoch` of the task's tag.
abbrev pub task_epoch : SlotRangeTag → Run ℕ
task_epoch SlotRangeTag.none = err invalid_migration_task
task_epoch (SlotRangeTag.migrating meta) = ok meta.epoch
task_epoch (SlotRangeTag.importing meta) = ok meta.epoch

abbrev pub is_side : Bool → MigrationSlotRangeStore → Bool
is_side true m = m.is_migrating
is_side false m = not m.is_migrating

abbrev pub is_task : RangeList → ℕ → Bool → MigrationSlotRangeStore → Bool
is_task rs epoch side m = range_list_eq m.range_list rs && m.meta.epoch == epoch && is_side side m

-- The first chunk and part that hold the task, from chunk `i` on.
unfoldable pub find_task : RangeList → ℕ → Bool → ℕ → List ChunkStore → Option (ℕ × ℕ)
find_task rs epoch side i [] = none
find_task rs epoch side i (chunk ∷ chunks) =
    let rest = find_task rs epoch side (i + 1) chunks in
    if any (is_task rs epoch side) chunk.migrating_slots.first
    then some (i, 0)
    else if any (is_task rs epoch side) chunk.migrating_slots.second
    then some (i, 1)
    else rest

abbrev pub meta_store_eq : MigrationMetaStore → MigrationMetaStore → Bool
meta_store_eq a b =
    a.epoch == b.epoch
    && a.src_chunk_index == b.src_chunk_index
    && a.src_chunk_part == b.src_chunk_part
    && a.dst_chunk_index == b.dst_chunk_index
    && a.dst_chunk_part == b.dst_chunk_part

-- The entry is one side of the migration.
abbrev pub is_entry : RangeList → MigrationMetaStore → Bool → MigrationSlotRangeStore → Bool
is_entry rs meta side m =
    is_side side m && range_list_eq m.range_list rs && meta_store_eq m.meta meta

-- `retain` of all entries but the migrating side.
unfoldable pub drop_migrating :
    RangeList → MigrationMetaStore → List MigrationSlotRangeStore → List MigrationSlotRangeStore
drop_migrating rs meta [] = []
drop_migrating rs meta (m ∷ ms) =
    if is_entry rs meta true m then drop_migrating rs meta ms else m ∷ drop_migrating rs meta ms

abbrev pub drop_chunk : RangeList → MigrationMetaStore → ChunkStore → ChunkStore
drop_chunk rs meta chunk = record chunk {
  migrating_slots = record {
    first = drop_migrating rs meta chunk.migrating_slots.first;
    second = drop_migrating rs meta chunk.migrating_slots.second;
  };
}

unfoldable pub drop_chunks : RangeList → MigrationMetaStore → List ChunkStore → List ChunkStore
drop_chunks rs meta [] = []
drop_chunks rs meta (chunk ∷ chunks) = drop_chunk rs meta chunk ∷ drop_chunks rs meta chunks

-- `position` and `remove` of the importing side: its range list, and the other entries.
unfoldable pub take_importing :
    RangeList
    → MigrationMetaStore
    → List MigrationSlotRangeStore
    → Option (RangeList × List MigrationSlotRangeStore)
take_importing rs meta [] = none
take_importing rs meta (m ∷ ms) =
    if is_entry rs meta false m then some (m.range_list, ms) else elim (take_importing rs meta ms) [
      | none ↦ none
      | some (taken, rest) ↦ some (taken, m ∷ rest)
    ]

unfoldable pub merge_stable : Option SlotRange → RangeList → Run (Option SlotRange)
merge_stable (some sr) rs = do
  merged ← expect (merge_another sr.range_list rs)
  ok (some (record sr { range_list = merged }))
merge_stable none rs = ok (some (record { range_list = rs; tag = SlotRangeTag.none }))

-- The chunk that imports, if this one does: part 0 is looked at first.
unfoldable pub land_chunk : RangeList → MigrationMetaStore → ChunkStore → Run (Option ChunkStore)
land_chunk rs meta chunk = elim (take_importing rs meta chunk.migrating_slots.first) [
  | some (taken, rest) ↦ do
    merged ← merge_stable chunk.stable_slots.first taken
    ok (
        some (record chunk {
          stable_slots = record { first = merged; second = chunk.stable_slots.second };
          migrating_slots = record { first = rest; second = chunk.migrating_slots.second };
        }))
  | none ↦ elim (take_importing rs meta chunk.migrating_slots.second) [
    | some (taken, rest) ↦ do
      merged ← merge_stable chunk.stable_slots.second taken
      ok (
          some (record chunk {
            stable_slots = record { first = chunk.stable_slots.first; second = merged };
            migrating_slots = record { first = chunk.migrating_slots.first; second = rest };
          }))
    | none ↦ ok none
  ]
]

-- The loop breaks at the first chunk that imports.
unfoldable pub land : RangeList → MigrationMetaStore → List ChunkStore → Run (List ChunkStore)
land rs meta [] = ok []
land rs meta (chunk ∷ chunks) = do
  landed ← land_chunk rs meta chunk
  elim landed [
    | some chunk' ↦ ok (chunk' ∷ chunks)
    | none ↦ do chunks' ← land rs meta chunks; ok (chunk ∷ chunks')
  ]

pub commit_cluster : SlotRange → ℕ → ClusterStore → Run ClusterStore
commit_cluster task new_epoch cluster = do
  epoch ← task_epoch task.tag
  (src_index, src_part) ←
      ok_or (find_task task.range_list epoch true 0 cluster.chunks) migration_task_not_found
  (dst_index, dst_part) ←
      ok_or (find_task task.range_list epoch false 0 cluster.chunks) migration_task_not_found
  let meta : MigrationMetaStore = record {
    epoch = epoch;
    src_chunk_index = src_index;
    src_chunk_part = src_part;
    dst_chunk_index = dst_index;
    dst_chunk_part = dst_part;
  }
  landed ← land task.range_list meta (drop_chunks task.range_list meta cluster.chunks)
  chunks ← compact_slots landed
  ok (record cluster { chunks = chunks; epoch = new_epoch })

-- The global epoch is bumped on success only, to the epoch that the cluster was given.
unfoldable pub commit_migration : MetaStore → MigrationTaskMeta → Outcome
commit_migration store task = elim (Dict.lookup task.cluster_name store.clusters) [
  | none ↦ (store, err cluster_not_found)
  | some cluster ↦ elim (commit_cluster task.slot_range (add_word store.global_epoch 1) cluster) [
    | ok changed ↦ (
      bump_global_epoch
          (record store { clusters = Dict.insert task.cluster_name changed store.clusters }),
      ok tt,
    )
    | err e ↦ (store, err e)
    | panic ↦ (store, panic)
  ]
]
