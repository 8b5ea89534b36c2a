-- ===== src/Broker/Migrate/Visit.antt =====
-- The walk of `remove_slots_from_src` over all chunks.
use undermoon.Prelude.{
  ℕ, suc, ◌+◌, ◌≤◌, ◌<◌, ◌≡◌, refl, sym, ap, subst, Option, none, some, List, [], ◌∷◌, arith, All,
  ok, length,
}
use undermoon.Ranges.{RangeList, get_slots_num}
use undermoon.Ranges.Covers.{IsCompact}
use undermoon.Ranges.Count.{times, times-compact_le, get_slots_num-total}
use undermoon.Ranges.Times.{IsProper}
use undermoon.Cluster.{SlotRange}
use undermoon.Broker.Store.{ChunkStore}
use undermoon.Broker.Slots.{stable_times, owners, IsCompactStable, Steady}
use undermoon.Broker.Migrate.{Carry, Quota, visit_part, visit_chunks, final_num}
use undermoon.Broker.Migrate.Settle.{planned_times}
use undermoon.Broker.Migrate.ScaleOut.{IsPlan, IsFair, Cursor, take_from_lem}

-- Between two sources the cursor holds nothing that is not planned.
pub record IsRested (n : ℕ) (q : Quota) (fair : IsFair n q) (c : Carry) : Type 0 where
  pub clear : c.curr_dst_slots ≡ []
  pub index : c.curr_dst_master_index ≤ q.dst_master_num
  pub has_room : c.curr_slots_num < final_num q (q.src_master_num + c.curr_dst_master_index)
  pub planned : All (IsPlan q.epoch n) c.migration_slots

module _ (n : ℕ) (q : Quota) (fair : IsFair n q) where
  IsRested-Cursor :
      (rs : RangeList) (c : Carry) → IsCompact rs → IsRested n q fair c → Cursor n q fair rs c
  IsRested-Cursor rs c o r = record {
    ascending = o;
    proper = subst IsProper (sym r.clear) tt;
    apart = λ s. omega (arith, times-compact_le rs s o, ap (λ l. times l s) r.clear);
    index = r.index;
    has_room = r.has_room;
    planned = r.planned;
  }

  -- What a visit leaves of one master.
  abbrev Visited : ℕ → ℕ → Option SlotRange → Carry → Type 0
  Visited i j slots c =
      (slots' : Option SlotRange) × (c' : Carry) × (visit_part q i j slots c ≡ ok (slots', c'))
      × IsCompactStable slots'
      × IsRested n q fair c'
      × ((s : ℕ)
          → stable_times slots' s + planned_times c'.migration_slots s
            ≡ stable_times slots s + planned_times c.migration_slots s)

  visit_part_lem :
      (i j : ℕ) (slots : Option SlotRange) (c : Carry)
      → i < n
      → j < 2
      → IsCompactStable slots
      → IsRested n q fair c
      → Visited i j slots c
  unfolding visit_part
  visit_part_lem i j none c hi hj o r = (none, c, refl, tt, r, λ s. refl)
  visit_part_lem i j (some sr) c hi hj o r =
      let (rs, c', e, inv, clear, same) =
        take_from_lem n q fair i j hi hj (suc (get_slots_num sr.range_list)) sr.range_list c
          (IsRested-Cursor sr.range_list c o r) (λ h. r.clear)
          (omega (arith, get_slots_num-total 0 sr.range_list o)) in
      (
        some (record sr { range_list = rs }),
        c',
        rw e,
        inv.ascending,
        record { clear = clear; index = inv.index; has_room = inv.has_room; planned = inv.planned },
        λ s. omega (arith, same s, ap (λ l. times l s) clear, ap (λ l. times l s) r.clear),
      )

  -- Over all chunks: no failure, one plan for what leaves, and nothing lost.
  pub visit_chunks_lem :
      (i : ℕ) (chunks : List ChunkStore) (c : Carry)
      → i + length chunks ≤ n
      → Steady chunks
      → IsRested n q fair c
      → (chunks' : List ChunkStore) × (c' : Carry) × (visit_chunks q i chunks c ≡ ok (chunks', c'))
        × Steady chunks'
        × (length chunks' ≡ length chunks)
        × IsRested n q fair c'
        × ((s : ℕ)
            → owners chunks' s + planned_times c'.migration_slots s
              ≡ owners chunks s + planned_times c.migration_slots s)
  unfolding visit_chunks
  visit_chunks_lem i [] c h st r = ([], c, refl, tt, refl, r, λ s. refl)
  visit_chunks_lem i (chunk ∷ chunks) c h ((o, idle), st) r =
      let (first, c₁, e₁, o₁, r₁, same₁) =
        visit_part_lem i 0 chunk.stable_slots.first c (omega arith) (omega arith) o.stable_first
          r in
      let (second, c₂, e₂, o₂, r₂, same₂) =
        visit_part_lem i 1 chunk.stable_slots.second c₁ (omega arith) (omega arith) o.stable_second
          r₁ in
      let (chunks', c₃, e₃, st', len, r₃, same₃) =
        visit_chunks_lem (i + 1) chunks c₂ (omega arith) st r₂ in
      (
        record chunk { stable_slots = record { first = first; second = second } } ∷ chunks',
        c₃,
        rw (e₁, e₂, e₃),
        (
          (
            record {
              stable_first = o₁;
              stable_second = o₂;
              moving_first = o.moving_first;
              moving_second = o.moving_second;
            },
            record { first = idle.first; second = idle.second },
          ),
          st',
        ),
        ap suc len,
        r₃,
        λ s. omega (arith, same₁ s, same₂ s, same₃ s),
      )
