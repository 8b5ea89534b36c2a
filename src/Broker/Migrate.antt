-- ===== src/Broker/Migrate.antt =====
-- src/broker/migrate.rs: slots leave their masters for the new ones (scale out), or for the ones that
-- stay (scale down). Both walk the stable slots with the cursor `Carry`; a failed `expect`, and the
-- end of a loop's fuel, is `panic`. Counts of a vector's elements cannot overflow and are plain; the
-- sums and differences of slot numbers wrap as usize does.
pub mod Cut
pub mod ScaleOut
pub mod Visit
pub mod Remove
pub mod Settle
use undermoon.Prelude.{
  ℕ, zero, suc, ◌+◌, ◌-◌, ◌*◌, ◌/◌, ◌%◌, min, Bool, true, false, not, ◌||◌, ◌&&◌, Option, none,
  some, List, [], ◌∷◌, ◌++◌, map, length, any, get_elem?, take, leb, ltb, ◌==◌, if◌then◌else◌,
  to_num, add_word, sub_word, slot_num, Result, ok, err, panic, ◌>>=◌, ◌>>◌, expect, refuse_if,
}
use undermoon.Ranges.{Range, RangeList, range_len, get_slots_num, range_list, compact}
use undermoon.Cluster.{SlotRange}
use undermoon.Broker.Store.{
  Two, ChunkStore, ClusterStore, MigrationMetaStore, MigrationSlotRangeStore, MigrationSlots,
  MetaStoreError, migration_running, two_list, update_two,
}

-- The local variables of both loops that change.
pub record Carry : Type 0 where
  pub curr_dst_master_index : ℕ
  pub migration_slots : List MigrationSlots
  pub curr_dst_slots : RangeList
  pub curr_slots_num : ℕ

-- Those that do not.
pub record Quota : Type 0 where
  pub epoch : ℕ
  pub average : ℕ
  pub remainder : ℕ
  pub src_chunk_num : ℕ
  pub src_master_num : ℕ
  pub dst_master_num : ℕ

abbrev pub Run {ℓ} : Type ℓ → Type ℓ
Run A = Result MetaStoreError A

-- The slots that a master ends with.
abbrev pub final_num : Quota → ℕ → ℕ
final_num q master = q.average + to_num (ltb master q.remainder)

abbrev pub start_carry : Carry
start_carry = record {
  curr_dst_master_index = 0;
  migration_slots = [];
  curr_dst_slots = [];
  curr_slots_num = 0;
}

-- `pop`, or `last_mut` with the rest of the vector.
unfoldable pub split_last {ℓ} : {A : Type ℓ} → List A → Option (List A × A)
split_last [] = none
split_last (x ∷ xs) = elim (split_last xs) [
  | none ↦ some ([], x)
  | some (init, last) ↦ some (x ∷ init, last)
]

-- Up to `remove_num` slots leave at the end of the last range.
pub cut_last : ℕ → RangeList × Range → RangeList × Range × ℕ
cut_last remove_num (init, r) = if leb (range_len r) remove_num then (init, r, range_len r) else (
  init ++ record { start = r.start; end = sub_word r.end remove_num } ∷ [],
  record { start = add_word (sub_word r.end remove_num) 1; end = r.end },
  remove_num,
)

-- Up to `remove_num` slots leave at the start of the first range.
pub cut_first : ℕ → Range → RangeList → RangeList × Range × ℕ
cut_first remove_num r rest = if leb (range_len r) remove_num then (rest, r, range_len r) else (
  record { start = add_word r.start remove_num; end = r.end } ∷ rest,
  record { start = r.start; end = sub_word (add_word remove_num r.start) 1 },
  remove_num,
)

abbrev pub push_cut : Carry → Range → ℕ → Carry
push_cut c r n = record c {
  curr_dst_slots = c.curr_dst_slots ++ r ∷ [];
  curr_slots_num = add_word c.curr_slots_num n;
}

abbrev pub pushed_slots : Carry → MigrationMetaStore → RangeList → Carry
pushed_slots c meta ranges = record c {
  migration_slots = c.migration_slots ++ record { ranges = ranges; meta = meta } ∷ [];
  curr_dst_slots = [];
}

abbrev pub next_master : Carry → Carry
next_master c = record c { curr_dst_master_index = c.curr_dst_master_index + 1; curr_slots_num = 0 }

-- "reset current state": the slots for one destination are planned once it is full or the source is
-- drained. The flag is false where the loop breaks.
pub settle : MigrationMetaStore → Bool → Bool → RangeList → Carry → Run (RangeList × Carry × Bool)
settle meta full drained rs c =
    if full || drained
    then (do
      ranges ← expect (range_list c.curr_dst_slots)
      let planned = pushed_slots c meta ranges
      ok (rs, (if full then next_master planned else planned), not drained))
    else ok (rs, c, true)

abbrev pub src_final : Quota → ℕ → ℕ → ℕ
src_final q i j = final_num q (i * 2 + j)

abbrev pub dst_final : Quota → Carry → ℕ
dst_final q c = final_num q (q.src_master_num + c.curr_dst_master_index)

abbrev pub out_meta : Quota → ℕ → ℕ → Carry → MigrationMetaStore
out_meta q i j c = record {
  epoch = q.epoch;
  src_chunk_index = i;
  src_chunk_part = j;
  dst_chunk_index = q.src_chunk_num + c.curr_dst_master_index / 2;
  dst_chunk_part = c.curr_dst_master_index % 2;
}

-- The body of the `while` of `remove_slots_from_src`, behind its first `break`.
pub take_once : Quota → ℕ → ℕ → RangeList → Carry → Run (RangeList × Carry × Bool)
take_once q i j rs c = do
  let need_num = sub_word (dst_final q c) c.curr_slots_num
  let available_num = sub_word (get_slots_num rs) (src_final q i j)
  cut ← expect (split_last rs)
  let (rs', r, n) = cut_last (min need_num available_num) cut
  let c' = push_cut c r n
  settle (out_meta q i j c) (leb (dst_final q c) c'.curr_slots_num)
      (leb (get_slots_num rs') (src_final q i j)) rs' c'

pub take_from : ℕ → Quota → ℕ → ℕ → RangeList → Carry → Run (RangeList × Carry)
take_from zero q i j rs c = panic
take_from (suc fuel) q i j rs c =
    elim (c.curr_dst_master_index == q.dst_master_num || leb (get_slots_num rs) (src_final q i j)) [
      | true ↦ ok (rs, c)
      | false ↦ do
        (rs', c', go_on) ← take_once q i j rs c
        elim go_on [ true ↦ take_from fuel q i j rs' c' | false ↦ ok (rs', c') ]
    ]

pub visit_part : Quota → ℕ → ℕ → Option SlotRange → Carry → Run (Option SlotRange × Carry)
visit_part q i j none c = ok (none, c)
visit_part q i j (some sr) c = do
  (rs, c') ← take_from (suc (get_slots_num sr.range_list)) q i j sr.range_list c
  ok (some (record sr { range_list = rs }), c')

pub visit_chunks : Quota → ℕ → List ChunkStore → Carry → Run (List ChunkStore × Carry)
visit_chunks q i [] c = ok ([], c)
visit_chunks q i (chunk ∷ chunks) c = do
  (first, c₁) ← visit_part q i 0 chunk.stable_slots.first c
  (second, c₂) ← visit_part q i 1 chunk.stable_slots.second c₁
  (chunks', c₃) ← visit_chunks q (i + 1) chunks c₂
  ok (record chunk { stable_slots = record { first = first; second = second } } ∷ chunks', c₃)

abbrev pub is_none {ℓ} : {A : Type ℓ} → Option A → Bool
is_none none = true
is_none (some a) = false

-- The chunks with no stable slots.
pub count_free : List ChunkStore → ℕ
count_free [] = 0
count_free (chunk ∷ chunks) =
    to_num (is_none chunk.stable_slots.first && is_none chunk.stable_slots.second)
    + count_free chunks

unfoldable pub scale_out_quota : ℕ → List ChunkStore → Quota
scale_out_quota epoch chunks = record {
  epoch = epoch;
  average = slot_num / (length chunks * 2);
  remainder = slot_num - slot_num / (length chunks * 2) * (length chunks * 2);
  src_chunk_num = length chunks - count_free chunks;
  src_master_num = (length chunks - count_free chunks) * 2;
  dst_master_num = count_free chunks * 2;
}

-- A cluster with no chunks is a division by zero.
pub remove_slots_from_src : ClusterStore → ℕ → Run (ClusterStore × List MigrationSlots)
remove_slots_from_src cluster epoch = elim (length cluster.chunks == 0) [
  | true ↦ panic
  | false ↦ do
    (chunks, c) ← visit_chunks (scale_out_quota epoch cluster.chunks) 0 cluster.chunks start_carry
    ok (record cluster { chunks = chunks }, c.migration_slots)
]
