-- ===== src/Resp.antt =====
-- src/protocol/resp.rs: values of the Redis protocol, over byte strings or over positions in a buffer.
pub mod Decimal
pub mod Encode
pub mod Parse
pub mod Layout
pub mod Slice
pub mod Steps
pub mod Keys
pub mod SizeHint
pub mod RoundTrip
pub mod Tests
use undermoon.Prelude.{
  ℕ, zero, suc, ◌+◌, ◌-◌, Bool, true, false, ◌&&◌, Option, none, some, List, [], ◌∷◌, length, take,
  drop, leb, if◌then◌else◌,
}

abbrev pub Bytes : Type 0
Bytes = List ℕ

pub data BulkStr (T : Type 0) : Type 0 where
  str : T → BulkStr T
  nil : BulkStr T

-- `Resps` is the vector inside an array.
mutual
  pub data Resp (T : Type 0) : Type 0 where
    error : T → Resp T
    simple : T → Resp T
    bulk : BulkStr T → Resp T
    integer : T → Resp T
    array : Array T → Resp T

  pub data Array (T : Type 0) : Type 0 where
    arr : Resps T → Array T
    nil : Array T

  pub data Resps (T : Type 0) : Type 0 where
    no_items : Resps T
    item : Resp T → Resps T → Resps T

-- `DataIndex(start, end)`.
pub record DataIndex : Type 0 where
  pub start : ℕ
  pub end : ℕ

unfoldable pub count_items : {T : Type 0} → Resps T → ℕ
count_items no_items = 0
count_items (item r rs) = suc (count_items rs)

abbrev pub map_bulk : {A B : Type 0} → (A → B) → BulkStr A → BulkStr B
map_bulk f (BulkStr.str t) = BulkStr.str (f t)
map_bulk f BulkStr.nil = BulkStr.nil

-- `VFunctor::map`, and `map_in_place`.
unfoldable mutual
  pub map_resp : {A B : Type 0} → (A → B) → Resp A → Resp B
  map_resp f (error t) = error (f t)
  map_resp f (simple t) = simple (f t)
  map_resp f (bulk b) = bulk (map_bulk f b)
  map_resp f (integer t) = integer (f t)
  map_resp f (array a) = array (map_array f a)

  pub map_array : {A B : Type 0} → (A → B) → Array A → Array B
  map_array f (Array.arr rs) = Array.arr (map_resps f rs)
  map_array f Array.nil = Array.nil

  pub map_resps : {A B : Type 0} → (A → B) → Resps A → Resps B
  map_resps f no_items = no_items
  map_resps f (item r rs) = item (map_resp f r) (map_resps f rs)

-- `AdvanceIndex::advance`.
abbrev pub advance_index : ℕ → DataIndex → DataIndex
advance_index count i = record { start = i.start + count; end = i.end + count }

abbrev pub advance : ℕ → Resp DataIndex → Resp DataIndex
advance count = map_resp (advance_index count)

abbrev pub advance_bulk : ℕ → BulkStr DataIndex → BulkStr DataIndex
advance_bulk count = map_bulk (advance_index count)

abbrev pub advance_array : ℕ → Array DataIndex → Array DataIndex
advance_array count = map_array (advance_index count)

-- `data.get(start..end)` and `data.get(start..)`.
abbrev pub get_range : Bytes → DataIndex → Option Bytes
get_range buf i =
    if leb i.start i.end && leb i.end (length buf)
    then some (take (i.end - i.start) (drop i.start buf))
    else none

abbrev pub get_from : Bytes → ℕ → Option Bytes
get_from buf start = if leb start (length buf) then some (drop start buf) else none

pub record IndexedResp : Type 0 where
  pub resp : Resp DataIndex
  pub content : Bytes

abbrev pub slice_item : Option (Resp Bytes) → Option (Resps Bytes) → Option (Resps Bytes)
slice_item (some r) (some rs) = some (item r rs)
slice_item (some r) none = none
slice_item none _ = none

abbrev pub slice_as : {A B : Type 0} → (A → B) → Option A → Option B
slice_as f none = none
slice_as f (some s) = some (f s)

abbrev pub slice_bulk : Bytes → BulkStr DataIndex → Option (BulkStr Bytes)
slice_bulk buf BulkStr.nil = some BulkStr.nil
slice_bulk buf (BulkStr.str i) = slice_as BulkStr.str (get_range buf i)

-- `RespIndex::map_to_slice`, where `none` is a failed `expect`.
unfoldable mutual
  pub map_to_slice : Bytes → Resp DataIndex → Option (Resp Bytes)
  map_to_slice buf (error i) = slice_as error (get_range buf i)
  map_to_slice buf (simple i) = slice_as simple (get_range buf i)
  map_to_slice buf (integer i) = slice_as integer (get_range buf i)
  map_to_slice buf (bulk b) = slice_as bulk (slice_bulk buf b)
  map_to_slice buf (array a) = slice_as array (slice_array buf a)

  pub slice_array : Bytes → Array DataIndex → Option (Array Bytes)
  slice_array buf Array.nil = some Array.nil
  slice_array buf (Array.arr rs) = slice_as Array.arr (slice_items buf rs)

  pub slice_items : Bytes → Resps DataIndex → Option (Resps Bytes)
  slice_items buf no_items = some no_items
  slice_items buf (item r rs) = slice_item (map_to_slice buf r) (slice_items buf rs)

-- `IndexedResp::to_resp_vec`.
unfoldable pub to_resp_vec : IndexedResp → Option (Resp Bytes)
to_resp_vec r = map_to_slice r.content r.resp
