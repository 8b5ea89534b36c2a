-- ===== src/Broker/Assign/Planned.antt =====
-- `assign_dst_slots`: each planned migration is recorded at its source and at its destination, and nowhere else.
use undermoon.Prelude.{
  ℕ, zero, suc, ◌<◌, ◌+◌, ◌≡◌, ◌≢◌, refl, sym, subst, ap, ap₂, ◌∙◌, inl, inr, true, false, ◌&&◌,
  ◌==◌, some, List, [], ◌∷◌, ◌++◌, append_assoc, append-nil, get_elem?, set, length, arith, All, ok,
  if◌then◌else◌, length-set, get_elem?-some, get_elem?-set_self, get_elem?-set_ne, Bool-cases,
}
use undermoon.Broker.Store.{ChunkStore, ClusterStore, MigrationSlotRangeStore, MigrationSlots}
use undermoon.Broker.Slots.{owners, HasCompactSlots}
use undermoon.Broker.Migrate.Settle.{planned_times}
use undermoon.Broker.Migrate.ScaleOut.{IsPlan}
use undermoon.Broker.Assign.{push_moving, moving_entry, assign_all, assign_dst_slots}
use undermoon.Broker.Assign.Owners.{assign_all_lem, compact_slots_again}

-- The entry, if it is to be written to part `l` of chunk `k`, which part `j` of chunk `i` is or is not.
abbrev pub written : ℕ → ℕ → ℕ → ℕ → MigrationSlotRangeStore → List MigrationSlotRangeStore
written k l i j m = if k == i && l == j then m ∷ [] else []

-- What a plan is to add to part `j` of chunk `i`: a migrating entry for each migration out of that part,
-- and an importing one for each migration into it.
unfoldable pub planned_for : ℕ → ℕ → List MigrationSlots → List MigrationSlotRangeStore
planned_for i j [] = []
planned_for i j (m ∷ ms) =
    written m.meta.src_chunk_index m.meta.src_chunk_part i j
      (record { range_list = m.ranges; is_migrating = true; meta = m.meta })
    ++ (written m.meta.dst_chunk_index m.meta.dst_chunk_part i j
          (record { range_list = m.ranges; is_migrating = false; meta = m.meta })
        ++ planned_for i j ms)

-- The chunk with more entries in its two parts, and all else as it was.
abbrev pub with_entries :
    ChunkStore → List MigrationSlotRangeStore → List MigrationSlotRangeStore → ChunkStore
with_entries chunk a b = record chunk {
  migrating_slots = record {
    first = chunk.migrating_slots.first ++ a;
    second = chunk.migrating_slots.second ++ b;
  };
}

with_entries-nil : (chunk : ChunkStore) → with_entries chunk [] [] ≡ chunk
with_entries-nil chunk =
    ap₂ (λ a b. record chunk { migrating_slots = record { first = a; second = b } }) (append-nil _)
      (append-nil _)

with_entries-twice :
    (chunk : ChunkStore) (a b a' b' : List MigrationSlotRangeStore)
    → with_entries (with_entries chunk a b) a' b' ≡ with_entries chunk (a ++ a') (b ++ b')
with_entries-twice chunk a b a' b' =
    ap₂ (λ x y. record chunk { migrating_slots = record { first = x; second = y } })
      (append_assoc chunk.migrating_slots.first a a')
      (append_assoc chunk.migrating_slots.second b b')

abbrev Gains : List ChunkStore → List ChunkStore → (ℕ → ℕ → List MigrationSlotRangeStore) → Type 0
Gains chunks chunks' more =
    (i : ℕ) (chunk : ChunkStore)
    → get_elem? chunks i ≡ some chunk
    → get_elem? chunks' i ≡ some (with_entries chunk (more i 0) (more i 1))

pushed :
    (chunks : List ChunkStore) (k l : ℕ) (m : MigrationSlotRangeStore) (chunk : ChunkStore)
    → get_elem? chunks k ≡ some chunk
    → l < 2
    → push_moving chunks k l m
      ≡ ok (
          set chunks k
            (with_entries chunk (if l == 0 then m ∷ [] else []) (if l == 1 then m ∷ [] else [])))
unfolding push_moving
pushed chunks k zero m chunk e h = rw (e, push_moving, append-nil) refl
pushed chunks k (suc zero) m chunk e h = rw (e, push_moving, append-nil) refl
pushed chunks k (suc (suc l)) m chunk e h = absurd (omega arith)

push_moving-Gains :
    (chunks : List ChunkStore) (k l : ℕ) (m : MigrationSlotRangeStore)
    → k < length chunks
    → l < 2
    → (chunks' : List ChunkStore) × (push_moving chunks k l m ≡ ok chunks')
      × (length chunks' ≡ length chunks)
      × Gains chunks chunks' (λ i j. written k l i j m)
push_moving-Gains chunks k l m hk hl =
    let (old, e) = get_elem?-some chunks k hk in
    let new = with_entries old (if l == 0 then m ∷ [] else []) (if l == 1 then m ∷ [] else []) in
    (
      set chunks k new,
      pushed chunks k l m old e hl,
      length-set chunks k new,
      λ i chunk at. elim (Bool-cases (k == i)) [
        | inl here ↦
            let same : i ≡ k = ground arith in
            let one : old ≡ chunk = cc in
            rw (here, same, sym one) (get_elem?-set_self chunks k new hk)
        | inr there ↦
            let differ : k ≢ i = ground arith in
            rw there
              (get_elem?-set_ne chunks new differ ∙ at ∙ ap some (sym (with_entries-nil chunk)))
      ],
    )

assign_all-Gains :
    (n epoch : ℕ) (ms : List MigrationSlots) (chunks : List ChunkStore)
    → length chunks ≡ n
    → All (IsPlan epoch n) ms
    → (chunks' : List ChunkStore) × (assign_all chunks ms ≡ ok chunks')
      × Gains chunks chunks' (λ i j. planned_for i j ms)
unfolding assign_all planned_for
assign_all-Gains n epoch [] chunks len p =
    (chunks, refl, λ i chunk at. at ∙ ap some (sym (with_entries-nil chunk)))
assign_all-Gains n epoch (m ∷ ms) chunks len (p, ps) =
    let (c₁, e₁, l₁, g₁) =
      push_moving-Gains chunks m.meta.src_chunk_index m.meta.src_chunk_part (moving_entry true m)
        (omega (arith, p.src_chunk)) p.src_part in
    let (c₂, e₂, l₂, g₂) =
      push_moving-Gains c₁ m.meta.dst_chunk_index m.meta.dst_chunk_part (moving_entry false m)
        (omega (arith, p.dst_chunk)) p.dst_part in
    let (c₃, e₃, g₃) = assign_all-Gains n epoch ms c₂ (l₂ ∙ l₁ ∙ len) ps in
    let out : ℕ → ℕ → List MigrationSlotRangeStore =
      λ i j. written m.meta.src_chunk_index m.meta.src_chunk_part i j (moving_entry true m) in
    let into : ℕ → ℕ → List MigrationSlotRangeStore =
      λ i j. written m.meta.dst_chunk_index m.meta.dst_chunk_part i j (moving_entry false m) in
    (
      c₃,
      rw (e₁, e₂) e₃,
      λ i chunk at.
          g₃ i _ (g₂ i _ (g₁ i chunk at))
          ∙ ap some (
              with_entries-twice (with_entries chunk (out i 0) (out i 1)) (into i 0) (into i 1)
                (planned_for i 0 ms) (planned_for i 1 ms)
              ∙ with_entries-twice chunk (out i 0) (out i 1) (into i 0 ++ planned_for i 0 ms)
                  (into i 1 ++ planned_for i 1 ms)),
    )

-- Let the cluster have `n` chunks and compacted range lists, and let each planned migration have a
-- compacted range list, the epoch `epoch`, and a source and a destination among the masters of `n`
-- chunks. Then `assign_dst_slots` succeeds: it changes the chunks only, keeps their number and their
-- compacted range lists, and each slot gains as many owners as the plan holds it. Each part of
-- each chunk keeps its entries, followed in the order of the plan by a migrating entry for each
-- migration out of it and an importing entry for each migration into it, with the planned ranges and
-- metadata; all else of the chunk is as it was.
pub assign_dst_slots-planned_for :
    (n epoch : ℕ) (cluster : ClusterStore) (ms : List MigrationSlots)
    → length cluster.chunks ≡ n
    → All HasCompactSlots cluster.chunks
    → All (IsPlan epoch n) ms
    → (chunks : List ChunkStore) × (assign_dst_slots cluster ms
        ≡ ok (record cluster { chunks = chunks }))
      × All HasCompactSlots chunks
      × (length chunks ≡ n)
      × ((s : ℕ) → owners chunks s ≡ owners cluster.chunks s + planned_times ms s)
      × ((i : ℕ) (chunk : ChunkStore)
          → get_elem? cluster.chunks i ≡ some chunk
          → get_elem? chunks i
            ≡ some (with_entries chunk (planned_for i 0 ms) (planned_for i 1 ms)))
unfolding assign_dst_slots
assign_dst_slots-planned_for n epoch cluster ms len a p =
    let (chunks, e, a', len', o) = assign_all_lem n epoch ms cluster.chunks len a p in
    let (chunks', e', gains) = assign_all-Gains n epoch ms cluster.chunks len p in
    let same : chunks' ≡ chunks = cc in
    (
      chunks,
      rw (e, compact_slots_again chunks a'),
      a',
      len',
      o,
      subst (λ c. Gains cluster.chunks c (λ i j. planned_for i j ms)) same gains,
    )
