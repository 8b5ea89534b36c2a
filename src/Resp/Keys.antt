-- ===== src/Resp/Keys.antt =====
-- src/common/utils.rs: the parts of a command, and the slot of a key. The checksum of the crate `crc16` is
-- a parameter; `none` of `get_hash_tag` is a failed `expect`.
pub mod HashTag
use mathlib.Core.Option
use undermoon.Prelude.{
  ℕ, zero, suc, ◌+◌, ◌%◌, min, Bool, true, false, Option, none, some, List, [], ◌∷◌, ◌==◌,
  if◌then◌else◌, slot_num,
}
use undermoon.Resp.{
  Bytes, Resp, Array, Resps, BulkStr, DataIndex, IndexedResp, error, simple, bulk, integer, array,
  no_items, item, count_items, get_range, get_from,
}

unfoldable pub position : ℕ → Bytes → Option ℕ
position b [] = none
position b (x ∷ xs) = if x == b then some 0 else Option.map suc (position b xs)

abbrev pub closed_tag : Bytes → ℕ → Option ℕ → Option Bytes
closed_tag key begin none = some key
closed_tag key begin (some zero) = some key
closed_tag key begin (some (suc n)) =
    get_range key (record { start = begin + 1; end = begin + 1 + suc n })

abbrev pub opened_tag : Bytes → ℕ → Option Bytes → Option Bytes
opened_tag key begin none = some key
opened_tag key begin (some rest) = closed_tag key begin (position b'}' rest)

unfoldable pub get_hash_tag : Bytes → Option Bytes
get_hash_tag key = elim (position b'{' key) [
  | none ↦ some key
  | some begin ↦ opened_tag key begin (get_from key (begin + 1))
]

unfoldable pub generate_slot : (Bytes → ℕ) → Bytes → Option ℕ
generate_slot crc key = Option.map (λ tag. crc tag % slot_num) (get_hash_tag key)

unfoldable pub get_item : {T : Type 0} → Resps T → ℕ → Option (Resp T)
get_item no_items i = none
get_item (item r rs) zero = some r
get_item (item r rs) (suc i) = get_item rs i

abbrev pub bulk_content : {T : Type 0} → Option (Resp T) → Option T
bulk_content (some (bulk (BulkStr.str s))) = some s
bulk_content _ = none

unfoldable pub get_command_element : {T : Type 0} → Resp T → ℕ → Option T
get_command_element (array (Array.arr rs)) index = bulk_content (get_item rs index)
get_command_element _ index = none

unfoldable pub get_command_len : {T : Type 0} → Resp T → Option ℕ
get_command_len (array (Array.arr rs)) = some (count_items rs)
get_command_len _ = none

unfoldable pub drop_items : {T : Type 0} → ℕ → Resps T → Resps T
drop_items zero rs = rs
drop_items (suc n) no_items = no_items
drop_items (suc n) (item r rs) = drop_items n rs

-- The value that is left, and the result.
unfoldable pub left_trim_array : {T : Type 0} → Resp T → ℕ → Resp T × Option ℕ
left_trim_array (array (Array.arr rs)) removed_num =
    let rest = drop_items (min removed_num (count_items rs)) rs in
    (array (Array.arr rest), some (count_items rest))
left_trim_array r removed_num = (r, none)

abbrev pub put_front : List Bytes → Resps Bytes → Resps Bytes
put_front [] rs = rs
put_front (s ∷ ss) rs = item (bulk (BulkStr.str s)) (put_front ss rs)

unfoldable pub array_append_front : Resp Bytes → List Bytes → Resp Bytes × Bool
array_append_front (array (Array.arr rs)) preceding =
    (array (Array.arr (put_front preceding rs)), true)
array_append_front r preceding = (r, false)
