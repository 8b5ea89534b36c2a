-- ===== src/Broker/Assign.antt =====
-- src/broker/migrate.rs: `assign_dst_slots` and `compact_slots`, which record a plan in the chunks.
pub mod Owners
pub mod Planned
use undermoon.Prelude.{
  ℕ, Bool, true, false, Option, none, some, List, [], ◌∷◌, ◌++◌, get_elem?, set, ok, panic, ◌>>=◌,
  expect,
}
use undermoon.Ranges.{compact}
use undermoon.Cluster.{SlotRange}
use undermoon.Broker.Store.{
  Two, ChunkStore, ClusterStore, MigrationSlotRangeStore, MigrationSlots, update_two,
}
use undermoon.Broker.Migrate.{Run}

-- `push` to the migrating slots of part `j` of chunk `i`.
pub push_moving : List ChunkStore → ℕ → ℕ → MigrationSlotRangeStore → Run (List ChunkStore)
push_moving chunks i j m = do
  chunk ← expect (get_elem? chunks i)
  slots ← expect (update_two chunk.migrating_slots j (λ ms. ms ++ m ∷ []))
  ok (set chunks i (record chunk { migrating_slots = slots }))

abbrev pub moving_entry : Bool → MigrationSlots → MigrationSlotRangeStore
moving_entry is_migrating m = record {
  range_list = m.ranges;
  is_migrating = is_migrating;
  meta = m.meta;
}

pub assign_all : List ChunkStore → List MigrationSlots → Run (List ChunkStore)
assign_all chunks [] = ok chunks
assign_all chunks (m ∷ ms) = do
  with_src ← push_moving chunks m.meta.src_chunk_index m.meta.src_chunk_part (moving_entry true m)
  with_dst ←
      push_moving with_src m.meta.dst_chunk_index m.meta.dst_chunk_part (moving_entry false m)
  assign_all with_dst ms

pub compact_stable : Option SlotRange → Run (Option SlotRange)
compact_stable none = ok none
compact_stable (some sr) = do
  rs ← expect (compact sr.range_list)
  ok (some (record sr { range_list = rs }))

pub compact_moving : List MigrationSlotRangeStore → Run (List MigrationSlotRangeStore)
compact_moving [] = ok []
compact_moving (m ∷ ms) = do
  rs ← expect (compact m.range_list)
  ms' ← compact_moving ms
  ok (record m { range_list = rs } ∷ ms')

pub compact_slots : List ChunkStore → Run (List ChunkStore)
compact_slots [] = ok []
compact_slots (chunk ∷ chunks) = do
  s₁ ← compact_stable chunk.stable_slots.first
  s₂ ← compact_stable chunk.stable_slots.second
  m₁ ← compact_moving chunk.migrating_slots.first
  m₂ ← compact_moving chunk.migrating_slots.second
  chunks' ← compact_slots chunks
  ok (
      record chunk {
        stable_slots = record { first = s₁; second = s₂ };
        migrating_slots = record { first = m₁; second = m₂ };
      }
      ∷ chunks')

pub assign_dst_slots : ClusterStore → List MigrationSlots → Run ClusterStore
assign_dst_slots cluster ms = do
  assigned ← assign_all cluster.chunks ms
  chunks ← compact_slots assigned
  ok (record cluster { chunks = chunks })
