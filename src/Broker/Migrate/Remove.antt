-- ===== src/Broker/Migrate/Remove.antt =====
-- `remove_slots_from_src` as a whole: its quota, its walk, and its plan.
use native.Mathlib.Nat.{le-div_iff_mul-le, div-le_self}
use undermoon.Prelude.{
  ℕ, ◌+◌, ◌*◌, ◌≤◌, ◌<◌, ◌≡◌, refl, subst, List, [], ◌∷◌, length, arith, All, ok, slot_num, ◌==◌,
  inl, inr, Bool-cases,
}
use undermoon.Broker.Store.{ChunkStore, ClusterStore, MigrationSlots}
use undermoon.Broker.Slots.{owners, Steady}
use undermoon.Broker.Migrate.{count_free, scale_out_quota, remove_slots_from_src, start_carry}
use undermoon.Broker.Migrate.Settle.{planned_times}
use undermoon.Broker.Migrate.ScaleOut.{IsFair, IsPlan}
use undermoon.Broker.Migrate.Visit.{visit_chunks_lem}

count_free_le : (chunks : List ChunkStore) → count_free chunks ≤ length chunks
unfolding count_free
count_free_le [] = omega arith
count_free_le (chunk ∷ chunks) = ground (arith, count_free_le chunks)

-- The quota of a cluster with no more masters than slots.
scale_out_quota-IsFair :
    (epoch : ℕ) (chunks : List ChunkStore)
    → 0 < length chunks
    → length chunks * 2 ≤ slot_num
    → IsFair (length chunks) (scale_out_quota epoch chunks)
unfolding scale_out_quota
scale_out_quota-IsFair epoch chunks h k = record {
  positive =
      (le-div_iff_mul-le {k = length chunks * 2} {x = 1} {y = slot_num} (omega arith)).1
        (omega arith);
  small = omega (arith, div-le_self slot_num (length chunks * 2));
  fits = omega (arith, count_free_le chunks);
}

scale_out_quota-epoch :
    (epoch : ℕ) (chunks : List ChunkStore) → (scale_out_quota epoch chunks).epoch ≡ epoch
unfolding scale_out_quota
scale_out_quota-epoch epoch chunks = refl

-- For a cluster with some chunk, no more masters than slots, compacted range lists and no migration
-- under way, `remove_slots_from_src` ends without a panic. It changes the chunks only, keeps their
-- number, and they still have compacted range lists and no migration. Each planned migration has a
-- compacted range list, the epoch that was passed, and a source and a destination among the masters.
-- What the masters now hold of a slot and what is planned of it add up to what the masters held.
pub remove_slots_from_src_lem :
    (cluster : ClusterStore) (epoch : ℕ)
    → 0 < length cluster.chunks
    → length cluster.chunks * 2 ≤ slot_num
    → Steady cluster.chunks
    → (chunks : List ChunkStore) × (ms : List MigrationSlots) × (remove_slots_from_src cluster epoch
        ≡ ok (record cluster { chunks = chunks }, ms))
      × Steady chunks
      × (length chunks ≡ length cluster.chunks)
      × All (IsPlan epoch (length cluster.chunks)) ms
      × ((s : ℕ) → owners chunks s + planned_times ms s ≡ owners cluster.chunks s)
unfolding remove_slots_from_src
remove_slots_from_src_lem cluster epoch h k st =
    let n = length cluster.chunks in
    let q = scale_out_quota epoch cluster.chunks in
    let fair = scale_out_quota-IsFair epoch cluster.chunks h k in
    let (chunks, c, e, st', len, rested, same) =
      visit_chunks_lem n q fair 0 cluster.chunks start_carry (omega arith) st (record {
        clear = refl;
        index = omega arith;
        has_room = omega (arith, fair.positive);
        planned = tt;
      }) in
    elim (Bool-cases (length cluster.chunks == 0)) [
      | inl empty ↦ absurd (ground arith)
      | inr some_chunk ↦ (
        chunks,
        c.migration_slots,
        rw (some_chunk, remove_slots_from_src) (rw e),
        st',
        len,
        subst (λ t. All (IsPlan t n) c.migration_slots) (scale_out_quota-epoch epoch cluster.chunks)
            rested.planned,
        λ s. omega (arith, same s),
      )
    ]
