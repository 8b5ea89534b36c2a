-- ===== src/Broker/Commit/Entries.antt =====
-- The two sides of a migration in the chunks, and what dropping the migrating side changes.
use undermoon.Prelude.{
  ℕ, suc, ◌+◌, ◌*◌, ◌≤◌, ◌<◌, ◌≡◌, refl, ap, ◌∙◌, inl, inr, ◌⊎◌, Bool, true, false, Option, none,
  some, List, [], ◌∷◌, arith, All, to_num, length, Bool-cases,
}
use undermoon.Ranges.{RangeList}
use undermoon.Ranges.Covers.{IsCompact}
use undermoon.Ranges.Count.{times}
use undermoon.Cluster.Equality.{range_list_eq→eq}
use undermoon.Broker.Store.{ChunkStore, MigrationMetaStore, MigrationSlotRangeStore}
use undermoon.Broker.Slots.{moving_times, owners, AllCompact, HasCompactSlots}
use undermoon.Broker.Commit.{is_entry, drop_migrating, drop_chunks}

-- How many entries are this side of the migration.
abbrev pub entries : Bool → RangeList → MigrationMetaStore → List MigrationSlotRangeStore → ℕ
entries side rs meta [] = 0
entries side rs meta (m ∷ ms) = to_num (is_entry rs meta side m) + entries side rs meta ms

abbrev pub all_entries : Bool → RangeList → MigrationMetaStore → List ChunkStore → ℕ
all_entries side rs meta [] = 0
all_entries side rs meta (chunk ∷ chunks) =
    entries side rs meta chunk.migrating_slots.first
    + entries side rs meta chunk.migrating_slots.second
    + all_entries side rs meta chunks

-- Each migration has both of its sides once.
abbrev pub IsPaired : List ChunkStore → Type 0
IsPaired chunks =
    (rs : RangeList) (meta : MigrationMetaStore)
    → (all_entries true rs meta chunks ≡ all_entries false rs meta chunks)
      × (all_entries true rs meta chunks ≤ 1)

module _ (rs : RangeList) (meta : MigrationMetaStore) where
  pub entry_list :
      (side : Bool) (m : MigrationSlotRangeStore)
      → is_entry rs meta side m ≡ true
      → m.range_list ≡ rs
  entry_list true m h = range_list_eq→eq m.range_list rs (ground arith)
  entry_list false m h = range_list_eq→eq m.range_list rs (ground arith)

  moving_times-drop :
      (ms : List MigrationSlotRangeStore) (s : ℕ)
      → moving_times (drop_migrating rs meta ms) s + entries true rs meta ms * times rs s
        ≡ moving_times ms s
  unfolding drop_migrating
  moving_times-drop [] s = omega arith
  moving_times-drop (m ∷ ms) s = elim (Bool-cases (is_entry rs meta true m)) [
    | inl hit ↦
        let side : m.is_migrating ≡ true = ground arith in
        rw (hit, side)
          (omega (arith, moving_times-drop ms s, ap (λ l. times l s) (entry_list true m hit)))
    | inr miss ↦ rw miss (omega (arith, moving_times-drop ms s))
  ]

  drop-AllCompact :
      (ms : List MigrationSlotRangeStore) → AllCompact ms → AllCompact (drop_migrating rs meta ms)
  unfolding drop_migrating
  drop-AllCompact [] h = tt
  drop-AllCompact (m ∷ ms) (h, hs) = elim (Bool-cases (is_entry rs meta true m)) [
    | inl hit ↦ rw hit (drop-AllCompact ms hs)
    | inr miss ↦ rw miss (h, drop-AllCompact ms hs)
  ]

  -- The importing side stays.
  entries-drop :
      (ms : List MigrationSlotRangeStore)
      → entries false rs meta (drop_migrating rs meta ms) ≡ entries false rs meta ms
  unfolding drop_migrating
  entries-drop [] = refl
  entries-drop (m ∷ ms) = elim (Bool-cases (is_entry rs meta true m)) [
    | inl hit ↦
        let side : m.is_migrating ≡ true = ground arith in
        rw (hit, side) (entries-drop ms ∙ omega arith)
    | inr miss ↦ rw miss (ap (λ t. to_num (is_entry rs meta false m) + t) (entries-drop ms))
  ]

  pub drop_chunks_lem :
      (chunks : List ChunkStore)
      → All HasCompactSlots chunks
      → let dropped = drop_chunks rs meta chunks in
        All HasCompactSlots dropped
        × (length dropped ≡ length chunks)
        × (all_entries false rs meta dropped ≡ all_entries false rs meta chunks)
        × ((s : ℕ)
            → owners dropped s + all_entries true rs meta chunks * times rs s ≡ owners chunks s)
  unfolding drop_chunks
  drop_chunks_lem [] h = (tt, refl, refl, λ s. omega arith)
  drop_chunks_lem (chunk ∷ chunks) (h, hs) =
      let (a, len, ins, o) = drop_chunks_lem chunks hs in
      (
        (
          record {
            stable_first = h.stable_first;
            stable_second = h.stable_second;
            moving_first = drop-AllCompact chunk.migrating_slots.first h.moving_first;
            moving_second = drop-AllCompact chunk.migrating_slots.second h.moving_second;
          },
          a,
        ),
        ap (λ (t : ℕ). suc t) len,
        omega (
          arith,
          entries-drop chunk.migrating_slots.first,
          entries-drop chunk.migrating_slots.second,
          ins,
        ),
        λ s. omega (
          arith,
          moving_times-drop chunk.migrating_slots.first s,
          moving_times-drop chunk.migrating_slots.second s,
          o s,
        ),
      )

  -- Taking out the importing side.
  abbrev pub TakesImporting :
      List MigrationSlotRangeStore → Option (RangeList × List MigrationSlotRangeStore) → Type 0
  TakesImporting ms r =
      ((r ≡ none) × (entries false rs meta ms ≡ 0))
      ⊎ ((rest : List MigrationSlotRangeStore) × (r ≡ some (rs, rest))
          × (0 < entries false rs meta ms)
          × IsCompact rs
          × AllCompact rest
          × ((s : ℕ) → moving_times rest s ≡ moving_times ms s))
