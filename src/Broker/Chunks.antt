-- ===== src/Broker/Chunks.antt =====
-- src/broker/update.rs: `proxy_resource_to_chunk_store`, which makes the chunks of new proxies, with all
-- slots shared out among them or with none.
pub mod Partition
use undermoon.Prelude.{
  ℕ, suc, ◌+◌, ◌-◌, ◌*◌, ◌/◌, Bool, true, false, Option, none, some, List, [], ◌∷◌, length, ltb,
  ◌==◌, to_num, add_word, sub_word, slot_num, ok, panic, if◌then◌else◌,
}
use undermoon.Ranges.{Range, from_single_range}
use undermoon.Cluster.{SlotRange, SlotRangeTag}
use undermoon.Broker.Store.{Two, Four, ChunkRolePosition, ChunkStore}
use undermoon.Broker.Migrate.{Run}
use undermoon.Broker.MetaStore.{ProxyResource}

abbrev pub Pairs : Type 0
Pairs = List (Two ProxyResource)

-- How the slots are shared out: the average, and how many masters get one more.
pub record Shares : Type 0 where
  pub average : ℕ
  pub remainder : ℕ

-- `create_slots`: the slots from `curr_slot` on, and the next `curr_slot`.
abbrev pub next_slot : Shares → ℕ → ℕ → ℕ
next_slot q index curr_slot =
    add_word (add_word curr_slot q.average) (to_num (ltb index q.remainder))

abbrev pub create_slots : Shares → ℕ → ℕ → SlotRange
create_slots q index curr_slot = record {
  range_list =
      from_single_range
        (record { start = curr_slot; end = sub_word (next_slot q index curr_slot) 1 });
  tag = SlotRangeTag.none;
}

abbrev pub chunk_of : Two (Option SlotRange) → Two ProxyResource → ChunkStore
chunk_of stable_slots pair = record {
  role_position = ChunkRolePosition.normal;
  stable_slots = stable_slots;
  migrating_slots = record { first = []; second = [] };
  proxy_addresses = record { first = pair.first.proxy_address; second = pair.second.proxy_address };
  hosts = record { first = pair.first.host; second = pair.second.host };
  node_addresses = record {
    first = pair.first.node_addresses.first;
    second = pair.first.node_addresses.second;
    third = pair.second.node_addresses.first;
    fourth = pair.second.node_addresses.second;
  };
}

-- The loop, at pair `i`.
unfoldable pub chunks_with_slots : Shares → ℕ → ℕ → Pairs → List ChunkStore
chunks_with_slots q i curr_slot [] = []
chunks_with_slots q i curr_slot (pair ∷ pairs) =
    let a = 2 * i in
    let middle = next_slot q a curr_slot in
    chunk_of
      (record {
        first = some (create_slots q a curr_slot);
        second = some (create_slots q (a + 1) middle);
      })
      pair
    ∷ chunks_with_slots q (i + 1) (next_slot q (a + 1) middle) pairs

unfoldable pub chunks_without_slots : Pairs → List ChunkStore
chunks_without_slots [] = []
chunks_without_slots (pair ∷ pairs) =
    chunk_of (record { first = none; second = none }) pair ∷ chunks_without_slots pairs

-- With no pairs the average is a division by zero.
unfoldable pub proxy_resource_to_chunk_store : Pairs → Bool → Run (List ChunkStore)
proxy_resource_to_chunk_store pairs with_slots = elim (length pairs == 0) [
  | true ↦ panic
  | false ↦ ok (
      let master_num = length pairs * 2 in
      let q : Shares = record {
        average = slot_num / master_num;
        remainder = slot_num - slot_num / master_num * master_num;
      } in
      if with_slots then chunks_with_slots q 0 0 pairs else chunks_without_slots pairs)
]
