-- ===== src/Broker/ScaleDown.antt =====
-- src/broker/migrate.rs: `migrate_slots_to_scale_down`. All slots of the chunks that go move, from the
-- first range on, to the masters of the chunks that stay.
use undermoon.Prelude.{
  ℕ, zero, suc, ◌+◌, ◌-◌, ◌*◌, ◌/◌, ◌%◌, min, Bool, true, false, not, Option, none, some, List, [],
  ◌∷◌, length, any, get_elem?, take, leb, ◌==◌, ◌||◌, add_word, sub_word, slot_num, ok, err, panic,
  ◌>>=◌, ◌>>◌, expect, refuse_if,
}
use undermoon.Ranges.{Range, RangeList, get_slots_num}
use undermoon.Cluster.{Text, SlotRange}
use undermoon.Broker.Store.{
  ChunkStore, ClusterStore, MigrationMetaStore, MigrationSlots, free_node_found, invalid_node_num,
  invalid_cluster_name,
}
use undermoon.Broker.Migrate.{
  Carry, Quota, Run, final_num, start_carry, cut_first, push_cut, settle,
}
use undermoon.Broker.Assign.{assign_dst_slots}
use undermoon.Broker.MetaStore.{
  MetaStore, Outcome, bump_global_epoch, cluster_name_from, has_free_master, check_running_tasks,
  with_cluster,
}

abbrev pub stable_num : Option SlotRange → ℕ
stable_num none = 0
stable_num (some sr) = get_slots_num sr.range_list

-- `dst_existing_slots_num`.
unfoldable pub existing_nums : List ChunkStore → List ℕ
existing_nums [] = []
existing_nums (chunk ∷ chunks) =
    stable_num chunk.stable_slots.first
    ∷ stable_num chunk.stable_slots.second
    ∷ existing_nums chunks

unfoldable pub scale_down_quota : ℕ → ℕ → Quota
scale_down_quota epoch new_chunk_num = record {
  epoch = epoch;
  average = slot_num / (new_chunk_num * 2);
  remainder = slot_num - slot_num / (new_chunk_num * 2) * (new_chunk_num * 2);
  src_chunk_num = 0;
  src_master_num = 0;
  dst_master_num = new_chunk_num * 2;
}

abbrev pub in_meta : Quota → ℕ → ℕ → Carry → MigrationMetaStore
in_meta q i j c = record {
  epoch = q.epoch;
  src_chunk_index = i;
  src_chunk_part = j;
  dst_chunk_index = c.curr_dst_master_index / 2;
  dst_chunk_part = c.curr_dst_master_index % 2;
}

-- `get_ranges().get(0)`.
abbrev pub cut_front : ℕ → RangeList → Run (RangeList × Range × ℕ)
cut_front n [] = panic
cut_front n (r ∷ rs) = ok (cut_first n r rs)

-- The body of the `while`, behind its `break` on an empty source.
unfoldable pub give_once : Quota → ℕ → ℕ → ℕ → RangeList → Carry → Run (RangeList × Carry × Bool)
give_once q i j existing rs c = do
  let final = final_num q c.curr_dst_master_index
  let need_num = sub_word (sub_word final c.curr_slots_num) existing
  (rs', r, n) ← cut_front (min need_num (get_slots_num rs)) rs
  let c' = push_cut c r n
  settle (in_meta q i j c) (leb final (add_word c'.curr_slots_num existing))
      (get_slots_num rs' == 0) rs' c'

unfoldable pub give_all : ℕ → Quota → List ℕ → ℕ → ℕ → RangeList → Carry → Run Carry
give_all zero q existing i j rs c = panic
give_all (suc fuel) q existing i j rs c = elim (c.curr_dst_master_index == q.dst_master_num) [
  | true ↦ ok c
  | false ↦ do
    held ← expect (get_elem? existing c.curr_dst_master_index)
    elim (get_slots_num rs == 0) [
      | true ↦ ok c
      | false ↦ do
        (rs', c', go_on) ← give_once q i j held rs c
        elim go_on [ true ↦ give_all fuel q existing i j rs' c' | false ↦ ok c' ]
    ]
]

-- Each round moves a slot, or goes on to the next destination.
abbrev pub give_part : Quota → List ℕ → ℕ → ℕ → Option SlotRange → Carry → Run Carry
give_part q existing i j none c = ok c
give_part q existing i j (some sr) c =
    give_all (suc (get_slots_num sr.range_list + q.dst_master_num)) q existing i j sr.range_list c

abbrev pub emptied : ChunkStore → ChunkStore
emptied chunk = record chunk { stable_slots = record { first = none; second = none } }

-- `skip` passes over the chunks that stay.
unfoldable pub give_chunks :
    Quota → List ℕ → ℕ → ℕ → List ChunkStore → Carry → Run (List ChunkStore × Carry)
give_chunks q existing i skip [] c = ok ([], c)
give_chunks q existing i (suc skip) (chunk ∷ chunks) c = do
  (chunks', c') ← give_chunks q existing (i + 1) skip chunks c
  ok (chunk ∷ chunks', c')
give_chunks q existing i zero (chunk ∷ chunks) c = do
  c₁ ← give_part q existing i 0 chunk.stable_slots.first c
  c₂ ← give_part q existing i 1 chunk.stable_slots.second c₁
  (chunks', c₃) ← give_chunks q existing (i + 1) zero chunks c₂
  ok (emptied chunk ∷ chunks', c₃)

-- With no chunk that stays the average is a division by zero.
unfoldable pub remove_slots_from_src_to_scale_down :
    ClusterStore → ℕ → ℕ → Run (ClusterStore × List MigrationSlots)
remove_slots_from_src_to_scale_down cluster epoch new_chunk_num = elim (new_chunk_num == 0) [
  | true ↦ panic
  | false ↦ do
    (chunks, c) ←
        give_chunks (scale_down_quota epoch new_chunk_num)
          (existing_nums (take new_chunk_num cluster.chunks)) 0 new_chunk_num cluster.chunks
          start_carry
    ok (record cluster { chunks = chunks }, c.migration_slots)
]

-- The part of `migrate_slots_to_scale_down` that works on the cluster, without `print_migration_slot`, as
-- in a scale out.
unfoldable pub scale_down_cluster : ℕ → ClusterStore → ℕ → Run ClusterStore
scale_down_cluster new_node_num cluster new_epoch = do
  refuse_if (any has_free_master cluster.chunks) free_node_found
  check_running_tasks cluster.chunks
  refuse_if
      (new_node_num == 0
        || not (new_node_num % 4 == 0)
        || leb (length cluster.chunks * 4) new_node_num)
      invalid_node_num
  (removed, migration_slots) ←
      remove_slots_from_src_to_scale_down cluster new_epoch (new_node_num / 4)
  assigned ← assign_dst_slots removed migration_slots
  ok (record assigned { epoch = new_epoch })

module _ (fits : Text → Bool) where
  unfoldable pub migrate_slots_to_scale_down : MetaStore → Text → ℕ → Outcome
  migrate_slots_to_scale_down store name new_node_num = elim (cluster_name_from fits name) [
    | none ↦ (store, err invalid_cluster_name)
    | some name ↦
        let bumped = bump_global_epoch store in
        with_cluster bumped name
          (λ cluster. scale_down_cluster new_node_num cluster bumped.global_epoch)
  ]
