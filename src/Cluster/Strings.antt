-- ===== src/Cluster/Strings.antt =====
-- src/common/cluster.rs: the texts in which range lists, migrations, slot ranges and tasks are sent. An
-- iterator over strings is the list of those that are left; `to_uppercase` is an argument.
pub mod RoundTrip
use undermoon.Prelude.{
  ℕ, zero, suc, ◌^◌, Bool, true, false, ◌&&◌, Option, none, some, List, [], ◌∷◌, ◌++◌, map, length,
  leb, ◌==◌, text_eq, if◌then◌else◌,
}
use undermoon.Ranges.{Range, RangeList, range_list}
use undermoon.Cluster.{Text, MigrationMeta, SlotRangeTag, SlotRange, MigrationTaskMeta}
use undermoon.Broker.MetaStore.{cluster_name_from}
use undermoon.Resp.Decimal.{to_decimal, read_digits}

unfoldable pub all_digits : Text → Bool
all_digits [] = true
all_digits (b ∷ bs) = leb b'0' b && leb b b'9' && all_digits bs

-- `parse::<u64>()` of digits: there is some, and their number fits.
unfoldable pub parse_digits : Text → Option ℕ
parse_digits [] = none
parse_digits (b ∷ bs) =
    if all_digits (b ∷ bs)
    then (if leb (2 ^ 64) (read_digits 0 (b ∷ bs)) then none else some (read_digits 0 (b ∷ bs)))
    else none

-- A plus sign may stand in front.
unfoldable pub parse_number : Text → Option ℕ
parse_number [] = none
parse_number (b ∷ bs) = if b == b'+' then parse_digits bs else parse_digits (b ∷ bs)

-- The text up to the first `-`, and what is behind it.
unfoldable pub split_dash : Text → Text × Option Text
split_dash [] = ([], none)
split_dash (b ∷ bs) =
    let (front, back) = split_dash bs in if b == b'-' then ([], some bs) else (b ∷ front, back)

abbrev pub ends : Option ℕ → Option ℕ → Option Range
ends none end = none
ends (some start) none = none
ends (some start) (some end) = some (record { start = start; end = end })

-- What is behind a second `-` is not read.
abbrev pub parse_ends : Text × Option Text → Option Range
parse_ends (start, none) = none
parse_ends (start, some rest) = ends (parse_number start) (parse_number ((split_dash rest).0))

unfoldable pub parse_slot_range : Text → Option Range
parse_slot_range s = parse_ends (split_dash s)

abbrev pub push_range :
    Option Range → Option (RangeList × List Text) → Option (RangeList × List Text)
push_range none rest = none
push_range (some r) none = none
push_range (some r) (some (rs, it)) = some (r ∷ rs, it)

unfoldable pub parse_ranges : ℕ → List Text → Option (RangeList × List Text)
parse_ranges zero it = some ([], it)
parse_ranges (suc n) [] = none
parse_ranges (suc n) (s ∷ it) = push_range (parse_slot_range s) (parse_ranges n it)

abbrev pub compact_with : List Text → Option RangeList → Option (RangeList × List Text)
compact_with it none = none
compact_with it (some rs) = some (rs, it)

-- `RangeList::new`, whose compacting never fails.
abbrev pub compacted : Option (RangeList × List Text) → Option (RangeList × List Text)
compacted none = none
compacted (some (rs, it)) = compact_with it (range_list rs)

abbrev pub parse_counted : Option ℕ → List Text → Option (RangeList × List Text)
parse_counted none it = none
parse_counted (some n) it = compacted (parse_ranges n it)

-- `RangeList::parse`.
unfoldable pub parse_range_list : List Text → Option (RangeList × List Text)
parse_range_list [] = none
parse_range_list (s ∷ it) = parse_counted (parse_number s) it

abbrev pub range_string : Range → Text
range_string r = to_decimal r.start ++ b'-' ∷ to_decimal r.end

unfoldable pub range_strings : RangeList → List Text
range_strings [] = []
range_strings (r ∷ rs) = range_string r ∷ range_strings rs

-- `RangeList::to_strings`.
abbrev pub range_list_to_strings : RangeList → List Text
range_list_to_strings rs = to_decimal (length rs) ∷ range_strings rs

-- `MigrationMeta::into_strings` and `from_strings`.
abbrev pub meta_into_strings : MigrationMeta → List Text
meta_into_strings meta =
    to_decimal meta.epoch
    ∷ meta.src_proxy_address
    ∷ meta.src_node_address
    ∷ meta.dst_proxy_address
    ∷ meta.dst_node_address
    ∷ []

abbrev pub meta_of :
    Option ℕ → Text → Text → Text → Text → List Text → Option (MigrationMeta × List Text)
meta_of none a b c d it = none
meta_of (some epoch) a b c d it = some (
  record {
    epoch = epoch;
    src_proxy_address = a;
    src_node_address = b;
    dst_proxy_address = c;
    dst_node_address = d;
  },
  it,
)

unfoldable pub meta_from_strings : List Text → Option (MigrationMeta × List Text)
meta_from_strings (e ∷ a ∷ b ∷ c ∷ d ∷ it) = meta_of (parse_number e) a b c d it
meta_from_strings _ = none

abbrev pub migrating_tag : Text
migrating_tag = b'M' ∷ b'I' ∷ b'G' ∷ b'R' ∷ b'A' ∷ b'T' ∷ b'I' ∷ b'N' ∷ b'G' ∷ []

abbrev pub importing_tag : Text
importing_tag = b'I' ∷ b'M' ∷ b'P' ∷ b'O' ∷ b'R' ∷ b'T' ∷ b'I' ∷ b'N' ∷ b'G' ∷ []

-- `SlotRange::into_strings`.
unfoldable pub slot_range_into_strings : SlotRange → List Text
slot_range_into_strings sr = elim sr.tag [
  | SlotRangeTag.migrating meta ↦
      migrating_tag ∷ range_list_to_strings sr.range_list ++ meta_into_strings meta
  | SlotRangeTag.importing meta ↦
      importing_tag ∷ range_list_to_strings sr.range_list ++ meta_into_strings meta
  | SlotRangeTag.none ↦ range_list_to_strings sr.range_list
]

abbrev pub tag_with :
    (MigrationMeta → SlotRangeTag)
    → RangeList
    → Option (MigrationMeta × List Text)
    → Option (SlotRange × List Text)
tag_with tag rs none = none
tag_with tag rs (some (meta, it)) = some (record { range_list = rs; tag = tag meta }, it)

abbrev pub with_meta :
    (MigrationMeta → SlotRangeTag) → Option (RangeList × List Text) → Option (SlotRange × List Text)
with_meta tag none = none
with_meta tag (some (rs, it)) = tag_with tag rs (meta_from_strings it)

abbrev pub without_meta : Option (RangeList × List Text) → Option (SlotRange × List Text)
without_meta none = none
without_meta (some (rs, it)) = some (record { range_list = rs; tag = SlotRangeTag.none }, it)

module _ (to_uppercase : Text → Text) where
  -- `SlotRange::from_strings`, which peeks at the first string.
  unfoldable pub slot_range_from_strings : List Text → Option (SlotRange × List Text)
  slot_range_from_strings [] = none
  slot_range_from_strings (s ∷ it) =
      if text_eq (to_uppercase s) migrating_tag
      then with_meta SlotRangeTag.migrating (parse_range_list it)
      else if text_eq (to_uppercase s) importing_tag
      then with_meta SlotRangeTag.importing (parse_range_list it)
      else without_meta (parse_range_list (s ∷ it))

  abbrev pub task_of :
      Text → Option (SlotRange × List Text) → Option (MigrationTaskMeta × List Text)
  task_of name none = none
  task_of name (some (sr, it)) = some (record { cluster_name = name; slot_range = sr }, it)

  abbrev pub task_named : Option Text → List Text → Option (MigrationTaskMeta × List Text)
  task_named none it = none
  task_named (some name) it = task_of name (slot_range_from_strings it)

  -- `MigrationTaskMeta::from_strings`.
  unfoldable pub task_from_strings :
      (Text → Bool) → List Text → Option (MigrationTaskMeta × List Text)
  task_from_strings fits [] = none
  task_from_strings fits (s ∷ it) = task_named (cluster_name_from fits s) it

-- `MigrationTaskMeta::into_strings`.
unfoldable pub task_into_strings : MigrationTaskMeta → List Text
task_into_strings task = task.cluster_name ∷ slot_range_into_strings task.slot_range
