-- ===== src/Broker/Limit.antt =====
-- src/broker/store.rs: `limit_migration`, the view of a cluster in which only some migrations run. The
-- slots of the others are shown as stable slots of their source.
pub mod Merge
pub mod Owners
use undermoon.Prelude.{
  ℕ, zero, suc, ◌+◌, Bool, true, false, Option, none, some, List, [], ◌∷◌, ◌++◌, get_elem?, set,
  leb, ◌==◌, ◌&&◌, ◌||◌, if◌then◌else◌, ok, err, panic, ◌>>=◌, expect,
}
use undermoon.Ranges.{RangeList, range_list, merge_another}
use undermoon.Cluster.{SlotRange, SlotRangeTag}
use undermoon.Broker.Store.{
  Two, ChunkStore, ClusterStore, MigrationSlotRangeStore, get_two, update_two,
}
use undermoon.Broker.Migrate.{Run}
use undermoon.Broker.Assign.{push_moving}

-- `migrating_out`: how many migrations out of a master run.
abbrev pub OutCounts : Type 0
OutCounts = List (ℕ × ℕ × ℕ)

unfoldable pub out_count : ℕ → ℕ → OutCounts → ℕ
out_count i j [] = 0
out_count i j ((i', j', n) ∷ out) = if i' == i && j' == j then n else out_count i j out

-- `*migrating_out_count += 1`.
unfoldable pub count_out : ℕ → ℕ → OutCounts → OutCounts
count_out i j [] = (i, j, 1) ∷ []
count_out i j ((i', j', n) ∷ out) =
    if i' == i && j' == j then (i', j', n + 1) ∷ out else (i', j', n) ∷ count_out i j out

pub record Limited : Type 0 where
  pub chunks : List ChunkStore
  pub migration_num : ℕ
  pub migrating_out : OutCounts

abbrev pub cleared : ChunkStore → ChunkStore
cleared chunk = record chunk { migrating_slots = record { first = []; second = [] } }

unfoldable pub clear_all : List ChunkStore → List ChunkStore
clear_all [] = []
clear_all (chunk ∷ chunks) = cleared chunk ∷ clear_all chunks

-- `get_or_insert_with` and `merge_another`.
unfoldable pub merge_or_insert : Option SlotRange → RangeList → Run SlotRange
merge_or_insert (some sr) rs = do
  merged ← expect (merge_another sr.range_list rs)
  ok (record sr { range_list = merged })
merge_or_insert none rs = do
  empty ← expect (range_list [])
  merged ← expect (merge_another empty rs)
  ok (record { range_list = merged; tag = SlotRangeTag.none })

-- The migration does not run in the view.
unfoldable pub hold_back : List ChunkStore → MigrationSlotRangeStore → Run (List ChunkStore)
hold_back chunks m = do
  chunk ← expect (get_elem? chunks m.meta.src_chunk_index)
  stable ← expect (get_two chunk.stable_slots m.meta.src_chunk_part)
  merged ← merge_or_insert stable m.range_list
  slots ← expect (update_two chunk.stable_slots m.meta.src_chunk_part (λ o. some merged))
  ok (set chunks m.meta.src_chunk_index (record chunk { stable_slots = slots }))

-- It runs, with both of its sides.
unfoldable pub let_run : List ChunkStore → MigrationSlotRangeStore → Run (List ChunkStore)
let_run chunks m = do
  with_src ← push_moving chunks m.meta.src_chunk_index m.meta.src_chunk_part m
  push_moving with_src m.meta.dst_chunk_index m.meta.dst_chunk_part
      (record m { is_migrating = false })

unfoldable pub limit_entry : ℕ → MigrationSlotRangeStore → Limited → Run Limited
limit_entry limit m st =
    if leb limit st.migration_num
      || leb 1 (out_count m.meta.src_chunk_index m.meta.src_chunk_part st.migrating_out)
    then (do chunks ← hold_back st.chunks m; ok (record st { chunks = chunks }))
    else (do
      chunks ← let_run st.chunks m
      ok (record {
        chunks = chunks;
        migration_num = st.migration_num + 1;
        migrating_out = count_out m.meta.src_chunk_index m.meta.src_chunk_part st.migrating_out;
      }))

-- The importing side is set with the migrating side.
unfoldable pub limit_entries : ℕ → List MigrationSlotRangeStore → Limited → Run Limited
limit_entries limit [] st = ok st
limit_entries limit (m ∷ ms) st = elim m.is_migrating [
  | false ↦ limit_entries limit ms st
  | true ↦ do st' ← limit_entry limit m st; limit_entries limit ms st'
]

-- The migrations in the order in which the loops visit them.
unfoldable pub all_migrations : List ChunkStore → List MigrationSlotRangeStore
all_migrations [] = []
all_migrations (chunk ∷ chunks) =
    chunk.migrating_slots.first ++ chunk.migrating_slots.second ++ all_migrations chunks

unfoldable pub limit_migration : ClusterStore → ℕ → Run ClusterStore
limit_migration cluster limit = elim (limit == 0) [
  | true ↦ ok cluster
  | false ↦ do
    st ←
        limit_entries limit (all_migrations cluster.chunks)
          (record { chunks = clear_all cluster.chunks; migration_num = 0; migrating_out = [] })
    ok (record cluster { chunks = st.chunks })
]
