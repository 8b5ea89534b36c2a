-- ===== src/Broker/Views.antt =====
-- src/broker/store.rs: what is derived from stored chunks: the addresses of a migration, and counts.
-- `none` is a failed `expect`.
pub mod Addresses
use undermoon.Prelude.{
  ℕ, zero, suc, ◌+◌, ◌*◌, Bool, true, false, not, Option, none, some, List, [], ◌∷◌, length,
  get_elem?, any, to_num, if◌then◌else◌,
}
use undermoon.Cluster.{SlotRange, SlotRangeTag, MigrationMeta, ClusterName, Text}
use undermoon.Broker.Store.{
  Two, ChunkRolePosition, ChunkStore, ClusterStore, MigrationSlotRangeStore, get_two, get_four,
}
use undermoon.Broker.Migrate.{is_none}
use undermoon.Broker.MetaStore.{is_chunk_migrating}

abbrev pub chunk_part_to_proxy_index : ℕ → ChunkRolePosition → ℕ
chunk_part_to_proxy_index zero ChunkRolePosition.second_chunk_master = 1
chunk_part_to_proxy_index (suc zero) ChunkRolePosition.first_chunk_master = 0
chunk_part_to_proxy_index i _ = i

abbrev pub chunk_part_to_node_index : ℕ → ChunkRolePosition → ℕ
chunk_part_to_node_index zero ChunkRolePosition.second_chunk_master = 3
chunk_part_to_node_index (suc zero) ChunkRolePosition.first_chunk_master = 1
chunk_part_to_node_index i _ = 2 * i

-- The proxy and the node of one master.
abbrev pub both : {A B : Type 0} → Option A → Option B → Option (A × B)
both none _ = none
both (some a) none = none
both (some a) (some b) = some (a, b)

unfoldable pub part_addresses : List ChunkStore → ℕ → ℕ → Option (Text × Text)
part_addresses chunks i j = elim (get_elem? chunks i) [
  | none ↦ none
  | some chunk ↦
      both (get_two chunk.proxy_addresses (chunk_part_to_proxy_index j chunk.role_position))
        (get_four chunk.node_addresses (chunk_part_to_node_index j chunk.role_position))
]

abbrev pub tagged :
    MigrationSlotRangeStore → Option ((Text × Text) × (Text × Text)) → Option SlotRange
tagged m none = none
tagged m (some (src, dst)) =
    let meta : MigrationMeta = record {
      epoch = m.meta.epoch;
      src_proxy_address = src.0;
      src_node_address = src.1;
      dst_proxy_address = dst.0;
      dst_node_address = dst.1;
    } in
    some (record {
      range_list = m.range_list;
      tag = if m.is_migrating then SlotRangeTag.migrating meta else SlotRangeTag.importing meta;
    })

unfoldable pub to_slot_range : MigrationSlotRangeStore → List ChunkStore → Option SlotRange
to_slot_range m chunks = tagged m (
    both (part_addresses chunks m.meta.src_chunk_index m.meta.src_chunk_part)
      (part_addresses chunks m.meta.dst_chunk_index m.meta.dst_chunk_part))

pub record ClusterInfo : Type 0 where
  pub name : ClusterName
  pub node_number : ℕ
  pub node_number_with_slots : ℕ
  pub is_migrating : Bool

unfoldable pub is_cluster_migrating : ClusterStore → Bool
is_cluster_migrating cluster = any is_chunk_migrating cluster.chunks

unfoldable pub get_proxy_addresses : List ChunkStore → List Text
get_proxy_addresses [] = []
get_proxy_addresses (chunk ∷ chunks) =
    chunk.proxy_addresses.first ∷ chunk.proxy_addresses.second ∷ get_proxy_addresses chunks

unfoldable pub get_node_number : ClusterStore → ℕ
get_node_number cluster = length cluster.chunks * 4

unfoldable pub masters_with_slots : List ChunkStore → ℕ
masters_with_slots [] = 0
masters_with_slots (chunk ∷ chunks) =
    to_num (not (is_none chunk.stable_slots.first))
    + to_num (not (is_none chunk.stable_slots.second))
    + masters_with_slots chunks

unfoldable pub get_node_number_with_slots : ClusterStore → ℕ
get_node_number_with_slots cluster = masters_with_slots cluster.chunks * 2

unfoldable pub get_info : ClusterStore → ClusterInfo
get_info cluster = record {
  name = cluster.name;
  node_number = get_node_number cluster;
  node_number_with_slots = get_node_number_with_slots cluster;
  is_migrating = is_cluster_migrating cluster;
}
