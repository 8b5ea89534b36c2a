-- ===== src/Broker/Query/Moving.antt =====
-- The addresses of a migration against the nodes that `cluster_store_to_cluster` shows: two tables of the
-- positions of masters, in src/broker/store.rs and in src/broker/query.rs, that have to agree.
use undermoon.Prelude.{
  ℕ, zero, suc, ◌<◌, ◌≡◌, refl, subst, true, some, List, [], ◌∷◌, ◌++◌, append-nil, length,
  get_elem?, arith, All, All-split, ok, if◌then◌else◌,
}
use undermoon.Cluster.{Text, SlotRange, SlotRangeTag, MigrationMeta}
use undermoon.Cluster.Nodes.{Node, is_master}
use undermoon.Broker.Store.{
  ChunkRolePosition, ChunkStore, MigrationSlotRangeStore, get_two, get_four,
}
use undermoon.Broker.Views.{
  chunk_part_to_proxy_index, chunk_part_to_node_index, part_addresses, to_slot_range, both,
}
use undermoon.Broker.Views.Addresses.{IsBetween, to_slot_range-found}
use undermoon.Broker.Limit.{all_migrations}
use undermoon.Broker.Query.{stable_list, moving_list, chunk_nodes}
use undermoon.Broker.Query.Masters.{four_nodes, held_by, shown_chunk, moving_list-times}

-- The slots of part `j`: the stable ones, and those of its entries.
abbrev pub PartHas : List ChunkStore → ChunkStore → ℕ → List SlotRange → Type 0
PartHas chunks chunk zero slots =
    (moved : List SlotRange) × (moving_list chunks chunk.migrating_slots.first ≡ ok moved)
    × (slots ≡ stable_list chunk.stable_slots.first ++ moved)
PartHas chunks chunk (suc j) slots =
    (moved : List SlotRange) × (moving_list chunks chunk.migrating_slots.second ≡ ok moved)
    × (slots ≡ stable_list chunk.stable_slots.second ++ moved)

-- Among the nodes that the chunk is shown as, a master with these addresses has the slots of part `j`.
pub record HoldsPart (chunks : List ChunkStore) (chunk : ChunkStore) (j : ℕ)
    (proxy_address address : Text) : Type 0 where
  pub nodes : List Node
  pub index : ℕ
  pub node : Node
  pub shown : chunk_nodes chunks chunk ≡ ok nodes
  pub there : get_elem? nodes index ≡ some node
  pub same_proxy : node.proxy_address ≡ proxy_address
  pub same_address : node.address ≡ address
  pub master : is_master node ≡ true
  pub slots : PartHas chunks chunk j node.slots

module _ (chunks : List ChunkStore) (chunk : ChunkStore) (m₁ m₂ : List SlotRange)
    (e₁ : moving_list chunks chunk.migrating_slots.first ≡ ok m₁)
    (e₂ : moving_list chunks chunk.migrating_slots.second ≡ ok m₂) where
  abbrev held_nodes : ChunkRolePosition → List Node
  held_nodes position = four_nodes chunk (
      held_by position (stable_list chunk.stable_slots.first ++ m₁)
        (stable_list chunk.stable_slots.second ++ m₂))

  -- The node of that index is the master of the part.
  held_at :
      (position : ChunkRolePosition) (j index : ℕ) (node : Node)
      → get_elem? (held_nodes position) index ≡ some node
      → is_master node ≡ true
      → PartHas chunks chunk j node.slots
      → HoldsPart chunks
          (record chunk { role_position = position })
          j
          node.proxy_address
          node.address
  held_at position j index node at m has = record {
    nodes = held_nodes position;
    index = index;
    node = node;
    shown = shown_chunk chunks chunk position m₁ m₂ e₁ e₂;
    there = at;
    same_proxy = refl;
    same_address = refl;
    master = m;
    slots = has;
  }

  part_holds :
      (j : ℕ) (position : ChunkRolePosition)
      → j < 2
      → (a : Text × Text) × (both
            (get_two chunk.proxy_addresses (chunk_part_to_proxy_index j position))
            (get_four chunk.node_addresses (chunk_part_to_node_index j position))
          ≡ some a)
        × HoldsPart chunks (record chunk { role_position = position }) j (a.0) (a.1)
  part_holds zero ChunkRolePosition.normal h =
      (_, refl, held_at ChunkRolePosition.normal 0 0 _ refl refl (m₁, e₁, append-nil _))
  part_holds zero ChunkRolePosition.first_chunk_master h =
      (_, refl, held_at ChunkRolePosition.first_chunk_master 0 0 _ refl refl (m₁, e₁, append-nil _))
  part_holds zero ChunkRolePosition.second_chunk_master h = (
    _,
    refl,
    held_at ChunkRolePosition.second_chunk_master 0 3 _ refl refl (m₁, e₁, append-nil _),
  )
  part_holds (suc zero) ChunkRolePosition.normal h =
      (_, refl, held_at ChunkRolePosition.normal 1 2 _ refl refl (m₂, e₂, refl))
  part_holds (suc zero) ChunkRolePosition.first_chunk_master h =
      (_, refl, held_at ChunkRolePosition.first_chunk_master 1 1 _ refl refl (m₂, e₂, refl))
  part_holds (suc zero) ChunkRolePosition.second_chunk_master h =
      (_, refl, held_at ChunkRolePosition.second_chunk_master 1 2 _ refl refl (m₂, e₂, refl))
  part_holds (suc (suc j)) position h = absurd (omega arith)

-- The entries of one chunk are among those of all.
chunk_entries :
    (P : MigrationSlotRangeStore → Type 0) (chunks : List ChunkStore) (i : ℕ) (chunk : ChunkStore)
    → get_elem? chunks i ≡ some chunk
    → All P (all_migrations chunks)
    → All P chunk.migrating_slots.first × All P chunk.migrating_slots.second
unfolding all_migrations
chunk_entries P [] i chunk e h = cc
chunk_entries P (c ∷ chunks) zero chunk e h =
    let same : c ≡ chunk = cc in
    let both_parts = (All-split P (c.migrating_slots.first ++ c.migrating_slots.second) _ h).0 in
    subst (λ k. All P k.migrating_slots.first × All P k.migrating_slots.second) same
      (All-split P c.migrating_slots.first c.migrating_slots.second both_parts)
chunk_entries P (c ∷ chunks) (suc i) chunk e h =
    chunk_entries P chunks i chunk e
      (All-split P (c.migrating_slots.first ++ c.migrating_slots.second) _ h).1

-- The addresses of a part are those of a master that has its slots.
found_holds :
    (chunks : List ChunkStore) (i j : ℕ) (chunk : ChunkStore)
    → get_elem? chunks i ≡ some chunk
    → j < 2
    → All (IsBetween (length chunks)) (all_migrations chunks)
    → (a : Text × Text) × (part_addresses chunks i j ≡ some a)
      × HoldsPart chunks chunk j (a.0) (a.1)
unfolding part_addresses
found_holds chunks i j chunk e h all =
    let (h₁, h₂) = chunk_entries (IsBetween (length chunks)) chunks i chunk e all in
    let (m₁, e₁, t₁) = moving_list-times chunks chunk.migrating_slots.first h₁ in
    let (m₂, e₂, t₂) = moving_list-times chunks chunk.migrating_slots.second h₂ in
    let (a, found, holds) = part_holds chunks chunk m₁ m₂ e₁ e₂ j chunk.role_position h in
    (a, rw (e, part_addresses) found, holds)

-- Let all migrations of the chunks be between masters of them, and let the source and the destination of
-- an entry be parts of two chunks that are there. Then the entry converts to a slot range without a
-- panic: it has the entry's ranges, and is tagged by the entry's side, with the entry's epoch and with
-- addresses as follows. The source's proxy and node addresses are those of a master among the nodes
-- that the source's chunk is shown as, and that master has just the stable slots and the
-- entries of the source's part; the same holds of the destination.
pub to_slot_range-HoldsPart :
    (chunks : List ChunkStore) (m : MigrationSlotRangeStore) (src dst : ChunkStore)
    → All (IsBetween (length chunks)) (all_migrations chunks)
    → get_elem? chunks m.meta.src_chunk_index ≡ some src
    → m.meta.src_chunk_part < 2
    → get_elem? chunks m.meta.dst_chunk_index ≡ some dst
    → m.meta.dst_chunk_part < 2
    → (meta : MigrationMeta) × (to_slot_range m chunks
        ≡ some (record {
          range_list = m.range_list;
          tag = if m.is_migrating then SlotRangeTag.migrating meta else SlotRangeTag.importing meta;
        }))
      × (meta.epoch ≡ m.meta.epoch)
      × HoldsPart chunks src m.meta.src_chunk_part meta.src_proxy_address meta.src_node_address
      × HoldsPart chunks dst m.meta.dst_chunk_part meta.dst_proxy_address meta.dst_node_address
to_slot_range-HoldsPart chunks m src dst all es hs ed hd =
    let (a, found, holds) =
      found_holds chunks m.meta.src_chunk_index m.meta.src_chunk_part src es hs all in
    let (b, found', holds') =
      found_holds chunks m.meta.dst_chunk_index m.meta.dst_chunk_part dst ed hd all in
    (_, to_slot_range-found chunks m a b found found', refl, holds, holds')
