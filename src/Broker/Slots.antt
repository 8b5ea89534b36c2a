-- ===== src/Broker/Slots.antt =====
-- Which masters hold a slot, and the invariant of a cluster's slots.
use undermoon.Prelude.{ℕ, ◌+◌, ◌≡◌, Option, none, some, List, [], ◌∷◌, All, if◌then◌else◌}
use undermoon.Ranges.Covers.{IsCompact}
use undermoon.Ranges.Count.{times}
use undermoon.Cluster.{SlotRange}
use undermoon.Broker.Store.{ChunkStore, MigrationSlotRangeStore}

-- How often the stable slots of one master hold a slot.
abbrev pub stable_times : Option SlotRange → ℕ → ℕ
stable_times none s = 0
stable_times (some sr) s = times sr.range_list s

-- How often the migrations out of one master hold a slot. The importing side of a migration repeats
-- the slots of its migrating side, and is not counted.
abbrev pub moving_times : List MigrationSlotRangeStore → ℕ → ℕ
moving_times [] s = 0
moving_times (m ∷ ms) s = (if m.is_migrating then times m.range_list s else 0) + moving_times ms s

-- The masters that own a slot: those that hold it, and those that are giving it away.
abbrev pub chunk_owners : ChunkStore → ℕ → ℕ
chunk_owners chunk s =
    stable_times chunk.stable_slots.first s
    + stable_times chunk.stable_slots.second s
    + moving_times chunk.migrating_slots.first s
    + moving_times chunk.migrating_slots.second s

abbrev pub owners : List ChunkStore → ℕ → ℕ
owners [] s = 0
owners (chunk ∷ chunks) s = chunk_owners chunk s + owners chunks s

abbrev pub IsCompactStable : Option SlotRange → Type 0
IsCompactStable none = Unit {0}
IsCompactStable (some sr) = IsCompact sr.range_list

abbrev pub AllCompact : List MigrationSlotRangeStore → Type 0
AllCompact = All (λ m. IsCompact m.range_list)

-- Every range list of the chunk is compacted.
pub record HasCompactSlots (chunk : ChunkStore) : Type 0 where
  pub stable_first : IsCompactStable chunk.stable_slots.first
  pub stable_second : IsCompactStable chunk.stable_slots.second
  pub moving_first : AllCompact chunk.migrating_slots.first
  pub moving_second : AllCompact chunk.migrating_slots.second

-- No migration is under way.
pub record IsIdle (chunk : ChunkStore) : Type 0 where
  pub first : chunk.migrating_slots.first ≡ []
  pub second : chunk.migrating_slots.second ≡ []

abbrev pub Steady : List ChunkStore → Type 0
Steady = All (λ chunk. HasCompactSlots chunk × IsIdle chunk)
