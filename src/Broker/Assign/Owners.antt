-- ===== src/Broker/Assign/Owners.antt =====
-- Recording a plan: the source of each planned migration owns its slots, the destination does not yet.
use undermoon.Prelude.{
  ℕ, zero, suc, ◌+◌, ◌<◌, ◌≡◌, refl, ◌∙◌, true, false, Option, none, some, List, [], ◌∷◌, ◌++◌,
  get_elem?, set, length, arith, All, ok, if◌then◌else◌, length-set, get_elem?-some, All-get_elem?,
  All-set, All-append,
}
use undermoon.Ranges.Covers.{IsCompact}
use undermoon.Ranges.Canonical.{compact_again}
use undermoon.Ranges.Count.{times}
use undermoon.Cluster.{SlotRange}
use undermoon.Broker.Store.{
  Two, ChunkStore, ClusterStore, MigrationSlotRangeStore, MigrationSlots, update_two,
}
use undermoon.Broker.Slots.{
  moving_times, chunk_owners, owners, IsCompactStable, AllCompact, HasCompactSlots,
}
use undermoon.Broker.Migrate.Settle.{planned_times}
use undermoon.Broker.Migrate.ScaleOut.{IsPlan}
use undermoon.Broker.Assign.{
  push_moving, moving_entry, assign_all, compact_stable, compact_moving, compact_slots,
  assign_dst_slots,
}

-- Replacing a chunk changes the owners by what the chunk owns.
pub owners-set :
    (chunks : List ChunkStore) (i : ℕ) (c c' : ChunkStore) (s : ℕ)
    → get_elem? chunks i ≡ some c
    → owners (set chunks i c') s + chunk_owners c s ≡ owners chunks s + chunk_owners c' s
owners-set [] i c c' s e = cc
owners-set (d ∷ chunks) zero c c' s e = let same : d ≡ c = cc in rw same (omega arith)
owners-set (d ∷ chunks) (suc i) c c' s e = omega (arith, owners-set chunks i c c' s e)

abbrev pub weight : MigrationSlotRangeStore → ℕ → ℕ
weight m s = if m.is_migrating then times m.range_list s else 0

pub moving_times-append :
    (xs ys : List MigrationSlotRangeStore) (s : ℕ)
    → moving_times (xs ++ ys) s ≡ moving_times xs s + moving_times ys s
moving_times-append [] ys s = omega arith
moving_times-append (x ∷ xs) ys s = omega (arith, moving_times-append xs ys s)

-- The chunk with one more migration in part `j`.
added :
    (chunk : ChunkStore) (j : ℕ) (m : MigrationSlotRangeStore)
    → j < 2
    → HasCompactSlots chunk
    → IsCompact m.range_list
    → (slots : Two (List MigrationSlotRangeStore)) × (update_two chunk.migrating_slots j
          (λ ms. ms ++ m ∷ [])
        ≡ some slots)
      × HasCompactSlots (record chunk { migrating_slots = slots })
      × ((s : ℕ)
          → chunk_owners (record chunk { migrating_slots = slots }) s
            ≡ chunk_owners chunk s + weight m s)
added chunk zero m h o c = (
  _,
  refl,
  record {
    stable_first = o.stable_first;
    stable_second = o.stable_second;
    moving_first = All-append (λ m. IsCompact m.range_list) _ _ o.moving_first (c, tt);
    moving_second = o.moving_second;
  },
  λ s. omega (arith, moving_times-append chunk.migrating_slots.first (m ∷ []) s),
)
added chunk (suc zero) m h o c = (
  _,
  refl,
  record {
    stable_first = o.stable_first;
    stable_second = o.stable_second;
    moving_first = o.moving_first;
    moving_second = All-append (λ m. IsCompact m.range_list) _ _ o.moving_second (c, tt);
  },
  λ s. omega (arith, moving_times-append chunk.migrating_slots.second (m ∷ []) s),
)
added chunk (suc (suc j)) m h o c = absurd (omega arith)

pub push_moving_lem :
    (chunks : List ChunkStore) (i j : ℕ) (m : MigrationSlotRangeStore)
    → i < length chunks
    → j < 2
    → All HasCompactSlots chunks
    → IsCompact m.range_list
    → (chunks' : List ChunkStore) × (push_moving chunks i j m ≡ ok chunks')
      × All HasCompactSlots chunks'
      × (length chunks' ≡ length chunks)
      × ((s : ℕ) → owners chunks' s ≡ owners chunks s + weight m s)
unfolding push_moving
push_moving_lem chunks i j m hi hj a c =
    let (chunk, e) = get_elem?-some chunks i hi in
    let o = All-get_elem? HasCompactSlots chunks i chunk a e in
    let (slots, u, o', w) = added chunk j m hj o c in
    (
      set chunks i (record chunk { migrating_slots = slots }),
      rw (e, u, push_moving),
      All-set HasCompactSlots chunks i _ a o',
      length-set chunks i _,
      λ s.
          omega
            (arith, w s, owners-set chunks i chunk (record chunk { migrating_slots = slots }) s e),
    )

pub assign_all_lem :
    (n epoch : ℕ) (ms : List MigrationSlots) (chunks : List ChunkStore)
    → length chunks ≡ n
    → All HasCompactSlots chunks
    → All (IsPlan epoch n) ms
    → (chunks' : List ChunkStore) × (assign_all chunks ms ≡ ok chunks')
      × All HasCompactSlots chunks'
      × (length chunks' ≡ n)
      × ((s : ℕ) → owners chunks' s ≡ owners chunks s + planned_times ms s)
unfolding assign_all
assign_all_lem n epoch [] chunks len a p = (chunks, refl, a, len, λ s. omega arith)
assign_all_lem n epoch (m ∷ ms) chunks len a (p, ps) =
    let (c₁, e₁, a₁, l₁, o₁) =
      push_moving_lem chunks m.meta.src_chunk_index m.meta.src_chunk_part (moving_entry true m)
        (omega (arith, p.src_chunk)) p.src_part a p.ranges_compact in
    let (c₂, e₂, a₂, l₂, o₂) =
      push_moving_lem c₁ m.meta.dst_chunk_index m.meta.dst_chunk_part (moving_entry false m)
        (omega (arith, p.dst_chunk)) p.dst_part a₁ p.ranges_compact in
    let (c₃, e₃, a₃, l₃, o₃) = assign_all_lem n epoch ms c₂ (l₂ ∙ l₁ ∙ len) a₂ ps in
    (c₃, rw (e₁, e₂) e₃, a₃, l₃, λ s. omega (arith, o₁ s, o₂ s, o₃ s))

-- `compact_slots` changes nothing where all range lists are compacted.
compact_stable_again : (o : Option SlotRange) → IsCompactStable o → compact_stable o ≡ ok o
unfolding compact_stable
compact_stable_again none h = refl
compact_stable_again (some sr) h = rw (compact_again sr.range_list h)

compact_moving_again :
    (ms : List MigrationSlotRangeStore) → AllCompact ms → compact_moving ms ≡ ok ms
unfolding compact_moving
compact_moving_again [] h = refl
compact_moving_again (m ∷ ms) (h, hs) =
    rw (compact_again m.range_list h, compact_moving_again ms hs)

pub compact_slots_again :
    (chunks : List ChunkStore) → All HasCompactSlots chunks → compact_slots chunks ≡ ok chunks
unfolding compact_slots
compact_slots_again [] h = refl
compact_slots_again (chunk ∷ chunks) (h, hs) = rw (
  compact_stable_again chunk.stable_slots.first h.stable_first,
  compact_stable_again chunk.stable_slots.second h.stable_second,
  compact_moving_again chunk.migrating_slots.first h.moving_first,
  compact_moving_again chunk.migrating_slots.second h.moving_second,
  compact_slots_again chunks hs,
)

-- Let the cluster have `n` chunks and compacted range lists, and let each planned migration have a
-- compacted range list, the epoch `epoch`, and a source and a destination among the masters of `n`
-- chunks. Then `assign_dst_slots` succeeds: it changes the chunks only, keeps their number and their
-- compacted range lists, and each slot gains as many owners as the plan holds it.
pub assign_dst_slots_lem :
    (n epoch : ℕ) (cluster : ClusterStore) (ms : List MigrationSlots)
    → length cluster.chunks ≡ n
    → All HasCompactSlots cluster.chunks
    → All (IsPlan epoch n) ms
    → (chunks : List ChunkStore) × (assign_dst_slots cluster ms
        ≡ ok (record cluster { chunks = chunks }))
      × All HasCompactSlots chunks
      × (length chunks ≡ n)
      × ((s : ℕ) → owners chunks s ≡ owners cluster.chunks s + planned_times ms s)
unfolding assign_dst_slots
assign_dst_slots_lem n epoch cluster ms len a p =
    let (chunks, e, a', len', o) = assign_all_lem n epoch ms cluster.chunks len a p in
    (chunks, rw (e, compact_slots_again chunks a'), a', len', o)
