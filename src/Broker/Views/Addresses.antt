-- ===== src/Broker/Views/Addresses.antt =====
-- The addresses of a migration are there where its source and its destination are masters.
use undermoon.Prelude.{
  ℕ, zero, suc, ◌<◌, ◌≡◌, refl, ap₂, some, List, length, get_elem?-some, arith, if◌then◌else◌,
}
use undermoon.Cluster.{SlotRange, SlotRangeTag, MigrationMeta, Text}
use undermoon.Broker.Store.{
  ChunkRolePosition, ChunkStore, MigrationSlotRangeStore, get_two, get_four,
}
use undermoon.Broker.Views.{
  chunk_part_to_proxy_index, chunk_part_to_node_index, part_addresses, to_slot_range, both, tagged,
}

-- The source and the destination of the migration are among the masters of `n` chunks.
pub record IsBetween (n : ℕ) (m : MigrationSlotRangeStore) : Type 0 where
  pub src_chunk : m.meta.src_chunk_index < n
  pub src_part : m.meta.src_chunk_part < 2
  pub dst_chunk : m.meta.dst_chunk_index < n
  pub dst_part : m.meta.dst_chunk_part < 2

part_found :
    (chunk : ChunkStore) (position : ChunkRolePosition) (j : ℕ)
    → j < 2
    → (a : Text × Text) × (both
          (get_two chunk.proxy_addresses (chunk_part_to_proxy_index j position))
          (get_four chunk.node_addresses (chunk_part_to_node_index j position))
        ≡ some a)
part_found chunk ChunkRolePosition.normal zero h = (_, refl)
part_found chunk ChunkRolePosition.first_chunk_master zero h = (_, refl)
part_found chunk ChunkRolePosition.second_chunk_master zero h = (_, refl)
part_found chunk ChunkRolePosition.normal (suc zero) h = (_, refl)
part_found chunk ChunkRolePosition.first_chunk_master (suc zero) h = (_, refl)
part_found chunk ChunkRolePosition.second_chunk_master (suc zero) h = (_, refl)
part_found chunk position (suc (suc j)) h = absurd (omega arith)

part_addresses-found :
    (chunks : List ChunkStore) (i j : ℕ)
    → i < length chunks
    → j < 2
    → (a : Text × Text) × (part_addresses chunks i j ≡ some a)
unfolding part_addresses
part_addresses-found chunks i j h k =
    let (chunk, e) = get_elem?-some chunks i h in
    let (a, found) = part_found chunk chunk.role_position j k in (a, rw (e, part_addresses) found)

-- The slot range of an entry whose addresses are found.
abbrev pub shown_entry : MigrationSlotRangeStore → Text × Text → Text × Text → SlotRange
shown_entry m src dst =
    let meta : MigrationMeta = record {
      epoch = m.meta.epoch;
      src_proxy_address = src.0;
      src_node_address = src.1;
      dst_proxy_address = dst.0;
      dst_node_address = dst.1;
    } in
    record {
      range_list = m.range_list;
      tag = if m.is_migrating then SlotRangeTag.migrating meta else SlotRangeTag.importing meta;
    }

pub to_slot_range-found :
    (chunks : List ChunkStore) (m : MigrationSlotRangeStore) (src dst : Text × Text)
    → part_addresses chunks m.meta.src_chunk_index m.meta.src_chunk_part ≡ some src
    → part_addresses chunks m.meta.dst_chunk_index m.meta.dst_chunk_part ≡ some dst
    → to_slot_range m chunks ≡ some (shown_entry m src dst)
unfolding to_slot_range
to_slot_range-found chunks m src dst es ed = ap₂ (λ a b. tagged m (both a b)) es ed

pub to_slot_range-shown :
    (chunks : List ChunkStore) (m : MigrationSlotRangeStore)
    → IsBetween (length chunks) m
    → (src : Text × Text) × (dst : Text × Text) × (to_slot_range m chunks
        ≡ some (shown_entry m src dst))
to_slot_range-shown chunks m b =
    let (src, es) =
      part_addresses-found chunks m.meta.src_chunk_index m.meta.src_chunk_part b.src_chunk
        b.src_part in
    let (dst, ed) =
      part_addresses-found chunks m.meta.dst_chunk_index m.meta.dst_chunk_part b.dst_chunk
        b.dst_part in
    (src, dst, to_slot_range-found chunks m src dst es ed)
