-- ===== src/Broker/Commit/Landing.antt =====
-- The importing side of a committed migration lands in its master.
use undermoon.Prelude.{
  ℕ, suc, ◌+◌, ◌≤◌, ◌<◌, ◌≡◌, refl, ap, ◌∙◌, inl, inr, ◌⊎◌, false, Option, none, some, List, [],
  ◌∷◌, ◌++◌, arith, All, length, Bool-cases, subst, ok,
}
use undermoon.Ranges.{RangeList, merge_another, range_list}
use undermoon.Ranges.Covers.{IsCompact}
use undermoon.Ranges.Count.{times, times-append}
use undermoon.Ranges.Times.{IsProper-append, Follows-IsProper, range_list-times}
use undermoon.Cluster.{SlotRange}
use undermoon.Broker.Store.{ChunkStore, MigrationMetaStore, MigrationSlotRangeStore}
use undermoon.Broker.Slots.{
  stable_times, chunk_owners, owners, IsCompactStable, AllCompact, HasCompactSlots,
}
use undermoon.Broker.Commit.{is_entry, take_importing, merge_stable, land_chunk, land}
use undermoon.Broker.Commit.Entries.{entries, all_entries, TakesImporting, entry_list}

abbrev first_landed : ChunkStore → Option SlotRange → List MigrationSlotRangeStore → ChunkStore
first_landed chunk stable rest = record chunk {
  stable_slots = record { first = stable; second = chunk.stable_slots.second };
  migrating_slots = record { first = rest; second = chunk.migrating_slots.second };
}

abbrev second_landed : ChunkStore → Option SlotRange → List MigrationSlotRangeStore → ChunkStore
second_landed chunk stable rest = record chunk {
  stable_slots = record { first = chunk.stable_slots.first; second = stable };
  migrating_slots = record { first = chunk.migrating_slots.first; second = rest };
}

module _ (rs : RangeList) (meta : MigrationMetaStore) where
  take_importing_lem :
      (ms : List MigrationSlotRangeStore)
      → AllCompact ms
      → TakesImporting rs meta ms (take_importing rs meta ms)
  unfolding take_importing
  take_importing_lem [] h = inl (refl, refl)
  take_importing_lem (m ∷ ms) (h, hs) = elim (Bool-cases (is_entry rs meta false m)) [
    | inl hit ↦
        let same = entry_list rs meta false m hit in
        let side : m.is_migrating ≡ false = ground arith in
        inr (
          ms,
          rw (hit, same),
          rw hit (omega arith),
          subst IsCompact same h,
          hs,
          λ s. rw side (omega arith),
        )
    | inr miss ↦ elim (take_importing_lem ms hs) [
      | inl (e, n) ↦ inl (rw (miss, e), rw miss (omega arith))
      | inr (rest, e, pos, c, a, o) ↦
          inr (m ∷ rest, rw (miss, e), rw miss (omega arith), c, (h, a), λ s. omega (arith, o s))
    ]
  ]

  -- Merging slots that the master does not hold yet.
  merge_stable_lem :
      (o : Option SlotRange)
      → IsCompactStable o
      → IsCompact rs
      → ((s : ℕ) → stable_times o s + times rs s ≤ 1)
      → (o' : Option SlotRange) × (merge_stable o rs ≡ ok o')
        × IsCompactStable o'
        × ((s : ℕ) → stable_times o' s ≡ stable_times o s + times rs s)
  unfolding merge_stable merge_another range_list
  merge_stable_lem none h c once = (_, refl, c, λ s. omega arith)
  merge_stable_lem (some sr) h c once =
      let (out, e, o, same) =
        range_list-times (sr.range_list ++ rs)
          (IsProper-append sr.range_list rs (Follows-IsProper 0 sr.range_list h)
            (Follows-IsProper 0 rs c))
          (λ s. omega (arith, once s, times-append sr.range_list rs s)) in
      (
        some (record sr { range_list = out }),
        rw e,
        o,
        λ s. same s ∙ times-append sr.range_list rs s,
      )

  -- A chunk takes the slots if it has the importing side, and else does not change.
  abbrev Lands : ChunkStore → Type 0
  Lands chunk =
      ((land_chunk rs meta chunk ≡ ok none)
        × (entries false rs meta chunk.migrating_slots.first
              + entries false rs meta chunk.migrating_slots.second
            ≡ 0))
      ⊎ ((chunk' : ChunkStore) × (land_chunk rs meta chunk ≡ ok (some chunk'))
          × HasCompactSlots chunk'
          × (0
              < entries false rs meta chunk.migrating_slots.first
                + entries false rs meta chunk.migrating_slots.second)
          × ((s : ℕ) → chunk_owners chunk' s ≡ chunk_owners chunk s + times rs s))

  land_chunk_lem :
      (chunk : ChunkStore)
      → HasCompactSlots chunk
      → ((s : ℕ) → chunk_owners chunk s + times rs s ≤ 1)
      → Lands chunk
  unfolding land_chunk
  land_chunk_lem chunk h once =
      elim (take_importing_lem chunk.migrating_slots.first h.moving_first) [
        | inr (rest, e, pos, c, a, o) ↦
            let (stable, m, st, w) =
              merge_stable_lem chunk.stable_slots.first h.stable_first c
                (λ s. omega (arith, once s)) in
            inr (
              first_landed chunk stable rest,
              rw (e, land_chunk) (rw m),
              record {
                stable_first = st;
                stable_second = h.stable_second;
                moving_first = a;
                moving_second = h.moving_second;
              },
              omega arith,
              λ s. omega (arith, w s, o s),
            )
        | inl (e, n) ↦ elim (take_importing_lem chunk.migrating_slots.second h.moving_second) [
          | inr (rest, e', pos, c, a, o) ↦
              let (stable, m, st, w) =
                merge_stable_lem chunk.stable_slots.second h.stable_second c
                  (λ s. omega (arith, once s)) in
              inr (
                second_landed chunk stable rest,
                rw (e, land_chunk) (rw e' (rw m)),
                record {
                  stable_first = h.stable_first;
                  stable_second = st;
                  moving_first = h.moving_first;
                  moving_second = a;
                },
                omega arith,
                λ s. omega (arith, w s, o s),
              )
          | inl (e', n') ↦ inl (rw (e, land_chunk) (rw e'), omega arith)
        ]
      ]

  abbrev Landed : List ChunkStore → Type 0
  Landed chunks =
      (chunks' : List ChunkStore) × (land rs meta chunks ≡ ok chunks')
      × All HasCompactSlots chunks'
      × (length chunks' ≡ length chunks)
      × (((all_entries false rs meta chunks ≡ 0) × (chunks' ≡ chunks))
          ⊎ ((0 < all_entries false rs meta chunks)
              × ((s : ℕ) → owners chunks' s ≡ owners chunks s + times rs s)))

  pub land_lem :
      (chunks : List ChunkStore)
      → All HasCompactSlots chunks
      → ((s : ℕ) → owners chunks s + times rs s ≤ 1)
      → Landed chunks
  unfolding land
  land_lem [] h once = ([], refl, tt, refl, inl (refl, refl))
  land_lem (chunk ∷ chunks) (h, hs) once =
      elim (land_chunk_lem chunk h (λ s. omega (arith, once s))) [
        | inr (chunk', e, h', pos, o) ↦
            (chunk' ∷ chunks, rw e, (h', hs), refl, inr (omega arith, λ s. omega (arith, o s)))
        | inl (e, n) ↦
            let (chunks', e', hs', len, how) = land_lem chunks hs (λ s. omega (arith, once s)) in
            (
              chunk ∷ chunks',
              rw (e, e'),
              (h, hs'),
              ap suc len,
              elim how [
                | inl (none_in, same) ↦ inl (omega arith, ap (◌∷◌ chunk) same)
                | inr (pos, o) ↦ inr (omega arith, λ s. omega (arith, o s))
              ],
            )
      ]

  no_importing :
      (ms : List MigrationSlotRangeStore)
      → AllCompact ms
      → entries false rs meta ms ≡ 0
      → take_importing rs meta ms ≡ none
  no_importing ms h n = elim (take_importing_lem ms h) [
    | inl (e, _) ↦ e
    | inr (rest, e, pos, c, a, o) ↦ absurd (omega arith)
  ]

  -- With no importing side the loop changes nothing.
  pub land_none :
      (chunks : List ChunkStore)
      → All HasCompactSlots chunks
      → all_entries false rs meta chunks ≡ 0
      → land rs meta chunks ≡ ok chunks
  unfolding land land_chunk
  land_none [] h n = refl
  land_none (chunk ∷ chunks) (h, hs) n =
      rw (no_importing chunk.migrating_slots.first h.moving_first (omega arith), land_chunk)
        (rw (no_importing chunk.migrating_slots.second h.moving_second (omega arith))
          (rw (land_none chunks hs (omega arith))))
