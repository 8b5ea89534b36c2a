-- ===== src/Broker/Tests.antt =====
-- Tests of the broker's theorems at a cluster of two chunks.
mod Views
mod Nodes
use undermoon.Prelude.{
  get_elem?, ℕ, ◌+◌, ◌≤◌, ◌≡◌, refl, Bool, true, false, Option, none, some, List, [], ◌∷◌, length,
  arith, All, ok, text_eq,
}
use undermoon.Dict
use undermoon.Dict.{Dict}
use undermoon.Ranges.{RangeList}
use undermoon.Cluster.{
  Text, ClusterConfig, CompressionStrategy, SlotRange, SlotRangeTag, MigrationTaskMeta,
  range_list_eq,
}
use undermoon.Broker.Store.{
  Two, ChunkRolePosition, ChunkStore, ClusterStore, MigrationMetaStore, MigrationSlotRangeStore,
  MigrationSlots,
}
use undermoon.Broker.Slots.{owners, HasCompactSlots, Steady}
use undermoon.Broker.Migrate.{remove_slots_from_src}
use undermoon.Broker.Migrate.Settle.{planned_times}
use undermoon.Broker.Migrate.ScaleOut.{IsPlan}
use undermoon.Broker.Migrate.Remove.{remove_slots_from_src_lem}
use undermoon.Broker.Assign.{assign_dst_slots}
use undermoon.Broker.Assign.Planned.{planned_for, with_entries, assign_dst_slots-planned_for}
use undermoon.Broker.MetaStore.{MetaStore, migrate_slots, cluster_name_from, bump_global_epoch}
use undermoon.Broker.MetaStore.ScaleOut.{IsReady, migrate_slots_ok}
use undermoon.Broker.Commit.{find_task, commit_migration}
use undermoon.Broker.Commit.Entries.{IsPaired}
use undermoon.Broker.Commit.Outcomes.{Commits, commit_cluster_lem}
use undermoon.Broker.Commit.Succeeds.{commit_migration_ok}

abbrev pub name : Text
name = b'd' ∷ b'b' ∷ []

abbrev pub config : ClusterConfig
config = record {
  compression_strategy = CompressionStrategy.disabled;
  migration_config = record {
    max_migration_time = 10800;
    max_blocking_time = 10000;
    scan_interval = 500;
    scan_count = 16;
  };
}

abbrev stable : ℕ → ℕ → Option SlotRange
stable a b =
    some (record { range_list = record { start = a; end = b } ∷ []; tag = SlotRangeTag.none })

abbrev chunk :
    Two (Option SlotRange)
    → List MigrationSlotRangeStore
    → List MigrationSlotRangeStore
    → ChunkStore
chunk slots first second = record {
  role_position = ChunkRolePosition.normal;
  stable_slots = slots;
  migrating_slots = record { first = first; second = second };
  proxy_addresses = record { first = b'1' ∷ []; second = b'2' ∷ [] };
  hosts = record { first = b'1' ∷ []; second = b'2' ∷ [] };
  node_addresses = record {
    first = b'1' ∷ [];
    second = b'3' ∷ [];
    third = b'2' ∷ [];
    fourth = b'4' ∷ [];
  };
}

abbrev pub cluster_of : List ChunkStore → ClusterStore
cluster_of chunks = record { epoch = 2; name = name; chunks = chunks; config = config }

-- The second chunk has no slots.
abbrev pub two_chunks : List ChunkStore
two_chunks =
    chunk (record { first = stable 0 8191; second = stable 8192 16383 }) [] []
    ∷ chunk (record { first = none; second = none }) [] []
    ∷ []

abbrev meta : MigrationMetaStore
meta = record {
  epoch = 3;
  src_chunk_index = 0;
  src_chunk_part = 1;
  dst_chunk_index = 1;
  dst_chunk_part = 0;
}

abbrev quarter : RangeList
quarter = record { start = 12288; end = 16383 } ∷ []

abbrev pub entry : Bool → MigrationSlotRangeStore
entry side = record { range_list = quarter; is_migrating = side; meta = meta }

-- A quarter of the slots is under way.
abbrev pub moving_source : ChunkStore
moving_source =
    chunk (record { first = stable 0 8191; second = stable 8192 12287 }) [] (entry true ∷ [])

abbrev pub moving_target : ChunkStore
moving_target = chunk (record { first = none; second = none }) (entry false ∷ []) []

abbrev pub moving_chunks : List ChunkStore
moving_chunks = moving_source ∷ moving_target ∷ []

abbrev pub store_of : List ChunkStore → MetaStore
store_of chunks = record {
  version = b'2' ∷ [];
  global_epoch = 5;
  clusters = (name, cluster_of chunks) ∷ [];
  all_proxies = [];
  failed_proxies = [];
  failures = [];
  enable_ordered_proxy = false;
}

abbrev short : Text → Bool
short t = true

compact_stable_part :
    HasCompactSlots (chunk (record { first = stable 0 8191; second = stable 8192 16383 }) [] [])
compact_stable_part = record {
  stable_first = (omega arith, omega arith, omega arith, tt);
  stable_second = (omega arith, omega arith, omega arith, tt);
  moving_first = tt;
  moving_second = tt;
}

compact_empty : HasCompactSlots (chunk (record { first = none; second = none }) [] [])
compact_empty = record {
  stable_first = tt;
  stable_second = tt;
  moving_first = tt;
  moving_second = tt;
}

two_chunks-Steady : Steady two_chunks
two_chunks-Steady = (
  (compact_stable_part, record { first = refl; second = refl }),
  ((compact_empty, record { first = refl; second = refl }), tt),
)

two_chunks-compact : All HasCompactSlots two_chunks
two_chunks-compact = (compact_stable_part, (compact_empty, tt))

two_chunks-IsReady : IsReady (cluster_of two_chunks)
two_chunks-IsReady = record {
  steady = two_chunks-Steady;
  some_chunk = omega arith;
  at_most = omega arith;
}

name_valid : cluster_name_from short name ≡ some name
unfolding cluster_name_from
name_valid = refl

two_chunks-found : Dict.lookup name (store_of two_chunks).clusters ≡ some (cluster_of two_chunks)
unfolding Dict.lookup text_eq
two_chunks-found = refl

migrate_slots_ok_example :
    let (store', result) = migrate_slots short (store_of two_chunks) name in
    (result ≡ ok tt)
    × (store'.global_epoch ≡ (bump_global_epoch (store_of two_chunks)).global_epoch)
    × ((chunks : List ChunkStore) × (Dict.lookup name store'.clusters
          ≡ some (record (cluster_of two_chunks) { epoch = store'.global_epoch; chunks = chunks }))
        × All HasCompactSlots chunks
        × (length chunks ≡ 2)
        × ((s : ℕ) → owners chunks s ≡ owners two_chunks s))
migrate_slots_ok_example =
    migrate_slots_ok short (store_of two_chunks) name (cluster_of two_chunks) name_valid
      two_chunks-found two_chunks-IsReady refl

remove_slots_from_src_lem_example :
    (chunks : List ChunkStore) × (ms : List MigrationSlots) × (remove_slots_from_src
        (cluster_of two_chunks)
        6
      ≡ ok (record (cluster_of two_chunks) { chunks = chunks }, ms))
    × Steady chunks
    × (length chunks ≡ 2)
    × All (IsPlan 6 2) ms
    × ((s : ℕ) → owners chunks s + planned_times ms s ≡ owners two_chunks s)
remove_slots_from_src_lem_example =
    remove_slots_from_src_lem (cluster_of two_chunks) 6 (omega arith) (omega arith)
      two_chunks-Steady

quarter-IsPlan : IsPlan 3 2 (record { ranges = quarter; meta = meta })
quarter-IsPlan = record {
  ranges_compact = (omega arith, omega arith, omega arith, tt);
  src_chunk = omega arith;
  src_part = omega arith;
  dst_chunk = omega arith;
  dst_part = omega arith;
  planned_at = refl;
}

abbrev plan : List MigrationSlots
plan = record { ranges = quarter; meta = meta } ∷ []

assign_dst_slots-planned_for_example :
    (chunks : List ChunkStore) × (assign_dst_slots (cluster_of two_chunks) plan
      ≡ ok (record (cluster_of two_chunks) { chunks = chunks }))
    × All HasCompactSlots chunks
    × (length chunks ≡ 2)
    × ((s : ℕ) → owners chunks s ≡ owners two_chunks s + planned_times plan s)
    × ((i : ℕ) (chunk : ChunkStore)
        → get_elem? two_chunks i ≡ some chunk
        → get_elem? chunks i
          ≡ some (with_entries chunk (planned_for i 0 plan) (planned_for i 1 plan)))
assign_dst_slots-planned_for_example =
    assign_dst_slots-planned_for 2 3 (cluster_of two_chunks) plan refl two_chunks-compact
      (quarter-IsPlan, tt)

abbrev task : MigrationTaskMeta
task = record {
  cluster_name = name;
  slot_range = record {
    range_list = quarter;
    tag = SlotRangeTag.migrating (record {
      epoch = 3;
      src_proxy_address = b'2' ∷ [];
      src_node_address = b'2' ∷ [];
      dst_proxy_address = b'1' ∷ [];
      dst_node_address = b'1' ∷ [];
    });
  };
}

pub moving_chunks-compact : All HasCompactSlots moving_chunks
moving_chunks-compact = (
  record {
    stable_first = (omega arith, omega arith, omega arith, tt);
    stable_second = (omega arith, omega arith, omega arith, tt);
    moving_first = tt;
    moving_second = ((omega arith, omega arith, omega arith, tt), tt);
  },
  (
    record {
      stable_first = tt;
      stable_second = tt;
      moving_first = ((omega arith, omega arith, omega arith, tt), tt);
      moving_second = tt;
    },
    tt,
  ),
)

moving_chunks-IsPaired : IsPaired moving_chunks
moving_chunks-IsPaired rs m = (omega arith, ground arith)

pub moving_chunks-once : (s : ℕ) → owners moving_chunks s ≤ 1
moving_chunks-once s = ground arith

commit_cluster_lem_example : Commits task.slot_range 6 (cluster_of moving_chunks)
commit_cluster_lem_example =
    commit_cluster_lem task.slot_range 6 (cluster_of moving_chunks) moving_chunks-compact
      moving_chunks-IsPaired moving_chunks-once

moving_chunks-found :
    Dict.lookup name (store_of moving_chunks).clusters ≡ some (cluster_of moving_chunks)
unfolding Dict.lookup text_eq
moving_chunks-found = refl

task_source : find_task quarter 3 true 0 moving_chunks ≡ some (0, 1)
unfolding find_task range_list_eq
task_source = refl

task_target : find_task quarter 3 false 0 moving_chunks ≡ some (1, 0)
unfolding find_task range_list_eq
task_target = refl

commit_migration_ok_example :
    let (store', result) = commit_migration (store_of moving_chunks) task in
    (result ≡ ok tt)
    × (store'.global_epoch ≡ (bump_global_epoch (store_of moving_chunks)).global_epoch)
    × ((chunks : List ChunkStore) × (Dict.lookup name store'.clusters
          ≡ some
              (record (cluster_of moving_chunks) { chunks = chunks; epoch = store'.global_epoch }))
        × All HasCompactSlots chunks
        × (length chunks ≡ 2)
        × ((s : ℕ) → owners chunks s ≡ owners moving_chunks s))
commit_migration_ok_example =
    commit_migration_ok (store_of moving_chunks) task (cluster_of moving_chunks) 3 (0, 1) (1, 0)
      moving_chunks-found moving_chunks-compact moving_chunks-IsPaired moving_chunks-once refl
      task_source task_target
