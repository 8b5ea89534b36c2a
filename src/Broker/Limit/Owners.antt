-- ===== src/Broker/Limit/Owners.antt =====
-- The view that `limit_migration` gives keeps the owners of each slot.
use undermoon.Prelude.{
  ℕ, suc, ◌+◌, ◌≤◌, ◌<◌, ◌≡◌, refl, sym, ap, subst, append_assoc, ◌∙◌, inl, inr, Bool, true, false,
  List, [], ◌∷◌, ◌++◌, set, length, arith, All, ok, if◌then◌else◌, length-set, get_elem?-some,
  All-get_elem?, All-set, leb, ◌==◌, ◌||◌, Bool-cases,
}
use undermoon.Ranges.{RangeList}
use undermoon.Ranges.Covers.{IsCompact}
use undermoon.Ranges.Count.{times}
use undermoon.Broker.Store.{ChunkStore, ClusterStore, MigrationSlotRangeStore}
use undermoon.Broker.Slots.{moving_times, owners, HasCompactSlots}
use undermoon.Broker.Assign.Owners.{owners-set, push_moving_lem, moving_times-append}
use undermoon.Broker.Limit.{
  Limited, hold_back, let_run, limit_entry, limit_entries, all_migrations, clear_all,
  limit_migration, out_count, count_out,
}
use undermoon.Broker.Limit.Merge.{owners-get, Merged-part}

-- Both masters of the migration are among those of `n` chunks, and its range list is compacted.
pub record IsPlaced (n : ℕ) (m : MigrationSlotRangeStore) : Type 0 where
  pub ranges_compact : IsCompact m.range_list
  pub src_chunk : m.meta.src_chunk_index < n
  pub src_part : m.meta.src_chunk_part < 2
  pub dst_chunk : m.meta.dst_chunk_index < n
  pub dst_part : m.meta.dst_chunk_part < 2

-- One migrating side adds its slots to the owners, whether it runs or not.
abbrev Adds : List ChunkStore → List ChunkStore → RangeList → Type 0
Adds chunks chunks' rs =
    All HasCompactSlots chunks'
    × (length chunks' ≡ length chunks)
    × ((s : ℕ) → owners chunks' s ≡ owners chunks s + times rs s)

hold_back_lem :
    (chunks : List ChunkStore) (m : MigrationSlotRangeStore)
    → All HasCompactSlots chunks
    → IsPlaced (length chunks) m
    → ((s : ℕ) → owners chunks s + times m.range_list s ≤ 1)
    → (chunks' : List ChunkStore) × (hold_back chunks m ≡ ok chunks')
      × Adds chunks chunks' m.range_list
unfolding hold_back
hold_back_lem chunks m a p once =
    let i = m.meta.src_chunk_index in
    let (chunk, e) = get_elem?-some chunks i p.src_chunk in
    let (stable, sr, slots, g, d, u, o, w) =
      Merged-part chunk m.meta.src_chunk_part m.range_list p.src_part
        (All-get_elem? HasCompactSlots chunks i chunk a e) p.ranges_compact
        (λ s. omega (arith, once s, owners-get chunks i chunk s e)) in
    let changed : ChunkStore = record chunk { stable_slots = slots } in
    (
      set chunks i changed,
      rw e (rw g (rw d (rw u refl))),
      (
        All-set HasCompactSlots chunks i _ a o,
        length-set chunks i _,
        λ s. omega (arith, w s, owners-set chunks i chunk changed s e),
      ),
    )

let_run_lem :
    (chunks : List ChunkStore) (m : MigrationSlotRangeStore)
    → All HasCompactSlots chunks
    → IsPlaced (length chunks) m
    → m.is_migrating ≡ true
    → (chunks' : List ChunkStore) × (let_run chunks m ≡ ok chunks')
      × Adds chunks chunks' m.range_list
unfolding let_run
let_run_lem chunks m a p side =
    let (c₁, e₁, a₁, l₁, o₁) =
      push_moving_lem chunks m.meta.src_chunk_index m.meta.src_chunk_part m p.src_chunk p.src_part a
        p.ranges_compact in
    let (c₂, e₂, a₂, l₂, o₂) =
      push_moving_lem c₁ m.meta.dst_chunk_index m.meta.dst_chunk_part
        (record m { is_migrating = false }) (omega (arith, l₁, p.dst_chunk)) p.dst_part a₁
        p.ranges_compact in
    (
      c₂,
      rw e₁ e₂,
      (
        a₂,
        l₂ ∙ l₁,
        λ s.
            o₂ s
            ∙ omega (arith, o₁ s, ap (λ (b : Bool). if b then times m.range_list s else 0) side),
      ),
    )

limit_entry_lem :
    (limit : ℕ) (m : MigrationSlotRangeStore) (st : Limited)
    → All HasCompactSlots st.chunks
    → IsPlaced (length st.chunks) m
    → m.is_migrating ≡ true
    → ((s : ℕ) → owners st.chunks s + times m.range_list s ≤ 1)
    → (st' : Limited) × (limit_entry limit m st ≡ ok st') × Adds st.chunks st'.chunks m.range_list
unfolding limit_entry
limit_entry_lem limit m st a p side once =
    elim (Bool-cases (
      leb limit st.migration_num
      || leb 1 (out_count m.meta.src_chunk_index m.meta.src_chunk_part st.migrating_out))) [
        | inl full ↦
            let (chunks, e, more) = hold_back_lem st.chunks m a p once in
            (record st { chunks = chunks }, rw (full, limit_entry) (rw e refl), more)
        | inr room ↦
            let (chunks, e, more) = let_run_lem st.chunks m a p side in
            (
              record {
                chunks = chunks;
                migration_num = st.migration_num + 1;
                migrating_out =
                    count_out m.meta.src_chunk_index m.meta.src_chunk_part st.migrating_out;
              },
              rw (room, limit_entry) (rw e refl),
              more,
            )
      ]

limit_entries_lem :
    (limit n : ℕ) (ms : List MigrationSlotRangeStore) (st : Limited)
    → length st.chunks ≡ n
    → All HasCompactSlots st.chunks
    → All (IsPlaced n) ms
    → ((s : ℕ) → owners st.chunks s + moving_times ms s ≤ 1)
    → (st' : Limited) × (limit_entries limit ms st ≡ ok st')
      × All HasCompactSlots st'.chunks
      × (length st'.chunks ≡ n)
      × ((s : ℕ) → owners st'.chunks s ≡ owners st.chunks s + moving_times ms s)
unfolding limit_entries
limit_entries_lem limit n [] st len a p once = (st, refl, a, len, λ s. omega arith)
limit_entries_lem limit n (m ∷ ms) st len a (p, ps) once = elim (Bool-cases m.is_migrating) [
  | inr importing ↦
      let none_of : (s : ℕ) → moving_times (m ∷ ms) s ≡ moving_times ms s =
        λ s. rw importing (omega arith) in
      let (st', e, a', len', o) =
        limit_entries_lem limit n ms st len a ps (λ s. omega (arith, once s, none_of s)) in
      (st', rw (importing, limit_entries) e, a', len', λ s. omega (arith, o s, none_of s))
  | inl migrating ↦
      let first : (s : ℕ) → moving_times (m ∷ ms) s ≡ times m.range_list s + moving_times ms s =
        λ s. rw migrating refl in
      let (st₁, e₁, (a₁, len₁, o₁)) =
        limit_entry_lem limit m st a (subst (λ t. IsPlaced t m) (sym len) p) migrating
          (λ s. omega (arith, once s, first s)) in
      let (st', e, a', len', o) =
        limit_entries_lem limit n ms st₁ (len₁ ∙ len) a₁ ps
          (λ s. omega (arith, once s, o₁ s, first s)) in
      (
        st',
        rw (migrating, limit_entries) (rw e₁ e),
        a',
        len',
        λ s. omega (arith, o s, o₁ s, first s),
      )
]

clear_all-owners :
    (chunks : List ChunkStore) (s : ℕ)
    → owners (clear_all chunks) s + moving_times (all_migrations chunks) s ≡ owners chunks s
unfolding clear_all all_migrations
clear_all-owners [] s = refl
clear_all-owners (chunk ∷ chunks) s =
    let first = chunk.migrating_slots.first in
    let second = chunk.migrating_slots.second in
    omega (
      arith,
      clear_all-owners chunks s,
      moving_times-append first (second ++ all_migrations chunks) s,
      moving_times-append second (all_migrations chunks) s,
      ap (λ t. moving_times t s) (append_assoc first second (all_migrations chunks)),
    )

clear_all-compact :
    (chunks : List ChunkStore)
    → All HasCompactSlots chunks
    → All HasCompactSlots (clear_all chunks) × (length (clear_all chunks) ≡ length chunks)
unfolding clear_all
clear_all-compact [] a = (tt, refl)
clear_all-compact (chunk ∷ chunks) (o, a) =
    let (a', len) = clear_all-compact chunks a in
    (
      (
        record {
          stable_first = o.stable_first;
          stable_second = o.stable_second;
          moving_first = tt;
          moving_second = tt;
        },
        a',
      ),
      ap suc len,
    )

-- Let the cluster have compacted range lists, migrations between its masters only, and at most one
-- owner for each slot. Then for every limit `limit_migration` succeeds: its view changes the chunks
-- only, keeps their number, has compacted range lists, and each slot has as many owners as in the
-- cluster.
pub limit_migration_lem :
    (cluster : ClusterStore) (limit : ℕ)
    → All HasCompactSlots cluster.chunks
    → All (IsPlaced (length cluster.chunks)) (all_migrations cluster.chunks)
    → ((s : ℕ) → owners cluster.chunks s ≤ 1)
    → (chunks : List ChunkStore) × (limit_migration cluster limit
        ≡ ok (record cluster { chunks = chunks }))
      × All HasCompactSlots chunks
      × (length chunks ≡ length cluster.chunks)
      × ((s : ℕ) → owners chunks s ≡ owners cluster.chunks s)
unfolding limit_migration
limit_migration_lem cluster limit a p once = elim (Bool-cases (limit == 0)) [
  | inl unlimited ↦ (cluster.chunks, rw (unlimited, limit_migration), a, refl, λ s. refl)
  | inr limited ↦
      let (a₀, len₀) = clear_all-compact cluster.chunks a in
      let kept = clear_all-owners cluster.chunks in
      let (st, e, a', len', o) =
        limit_entries_lem limit (length cluster.chunks) (all_migrations cluster.chunks)
          (record { chunks = clear_all cluster.chunks; migration_num = 0; migrating_out = [] }) len₀
          a₀ p (λ s. omega (arith, once s, kept s)) in
      (st.chunks, rw (limited, limit_migration) (rw e refl), a', len', λ s. o s ∙ kept s)
]
