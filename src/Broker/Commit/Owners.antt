-- ===== src/Broker/Commit/Owners.antt =====
-- A commit keeps the owners of each slot.
use undermoon.Prelude.{
  ℕ, zero, suc, ◌+◌, ◌*◌, ◌≤◌, ◌≡◌, refl, sym, ap, ◌∙◌, inl, inr, ◌⊎◌, true, false, some, List,
  arith, All, length, ok,
}
use undermoon.Ranges.{RangeList}
use undermoon.Ranges.Count.{times}
use undermoon.Cluster.{SlotRange}
use undermoon.Broker.Store.{ChunkStore, ClusterStore, MigrationMetaStore}
use undermoon.Broker.Slots.{owners, HasCompactSlots}
use undermoon.Broker.Assign.Owners.{compact_slots_again}
use undermoon.Broker.Commit.{drop_chunks, land, find_task, task_epoch, commit_cluster}
use undermoon.Broker.Commit.Entries.{all_entries, IsPaired, drop_chunks_lem}
use undermoon.Broker.Commit.Landing.{land_lem, land_none}

-- A commit that gave the cluster the new epoch and left each slot its owners.
abbrev pub Committed : SlotRange → ℕ → ClusterStore → Type 0
Committed task new_epoch cluster =
    (chunks : List ChunkStore) × (commit_cluster task new_epoch cluster
      ≡ ok (record cluster { chunks = chunks; epoch = new_epoch }))
    × All HasCompactSlots chunks
    × (length chunks ≡ length cluster.chunks)
    × ((s : ℕ) → owners chunks s ≡ owners cluster.chunks s)

-- Dropping one side and landing the other.
moved :
    (rs : RangeList) (meta : MigrationMetaStore) (chunks : List ChunkStore)
    → All HasCompactSlots chunks
    → IsPaired chunks
    → ((s : ℕ) → owners chunks s ≤ 1)
    → (chunks' : List ChunkStore) × (land rs meta (drop_chunks rs meta chunks) ≡ ok chunks')
      × All HasCompactSlots chunks'
      × (length chunks' ≡ length chunks)
      × ((s : ℕ) → owners chunks' s ≡ owners chunks s)
moved rs meta chunks h paired once =
    let (h', len, ins, o) = drop_chunks_lem rs meta chunks h in
    elim (one_or_none (all_entries true rs meta chunks) (paired rs meta).1) [
      | inl zero_out ↦ (
        drop_chunks rs meta chunks,
        land_none rs meta _ h' (ins ∙ sym (paired rs meta).0 ∙ zero_out),
        h',
        len,
        λ s. omega (arith, o s, ap (λ (t : ℕ). t * times rs s) zero_out),
      )
      | inr one_out ↦
          let held : (s : ℕ)
              → owners (drop_chunks rs meta chunks) s + times rs s ≡ owners chunks s =
            λ s. omega (arith, o s, ap (λ (t : ℕ). t * times rs s) one_out) in
          let (chunks', e, a, len', how) =
            land_lem rs meta _ h' (λ s. omega (arith, held s, once s)) in
          (
            chunks',
            e,
            a,
            len' ∙ len,
            elim how [
              | inl (none_in, _) ↦ absurd (omega (arith, (paired rs meta).0))
              | inr (_, o') ↦ λ s. omega (arith, o' s, held s)
            ],
          )
    ]
  where
    one_or_none : (n : ℕ) → n ≤ 1 → (n ≡ 0) ⊎ (n ≡ 1)
    one_or_none zero h = inl refl
    one_or_none (suc zero) h = inr refl
    one_or_none (suc (suc n)) h = absurd (omega arith)

pub commit_found :
    (task : SlotRange) (new_epoch : ℕ) (cluster : ClusterStore) (epoch i j i' j' : ℕ)
    → task_epoch task.tag ≡ ok epoch
    → find_task task.range_list epoch true 0 cluster.chunks ≡ some (i, j)
    → find_task task.range_list epoch false 0 cluster.chunks ≡ some (i', j')
    → All HasCompactSlots cluster.chunks
    → IsPaired cluster.chunks
    → ((s : ℕ) → owners cluster.chunks s ≤ 1)
    → Committed task new_epoch cluster
unfolding commit_cluster
commit_found task new_epoch cluster epoch i j i' j' t src dst h paired once =
    let (chunks, e, a, len, o) =
      moved task.range_list
        (record {
          epoch = epoch;
          src_chunk_index = i;
          src_chunk_part = j;
          dst_chunk_index = i';
          dst_chunk_part = j';
        })
        cluster.chunks h paired once in
    (chunks, rw t (rw (src, dst, e, compact_slots_again chunks a)), a, len, o)
