-- ===== src/Ranges.antt =====
-- src/common/cluster.rs: `Range` and `RangeList`, the sets of slots that all metadata is made of.
-- A range list is a vector of ranges with both ends included; `none` is a failed `expect`.
pub mod Loop
pub mod Covers
pub mod Canonical
pub mod Count
pub mod Times
pub mod Total
pub mod Map
pub mod Tests
use undermoon.Prelude.{
  ℕ, zero, suc, ◌+◌, ◌≡◌, true, false, Option, none, some, List, [], ◌∷◌, ◌++◌, map, max, length,
  get_elem?, set, take, ltb, leb, if◌then◌else◌, add_word, sub_word,
}

pub record Range : Type 0 where
  pub start : ℕ
  pub end : ℕ

abbrev pub RangeList : Type 0
RangeList = List Range

-- `swap(&mut range.0, &mut range.1)` if the ends are the wrong way round.
unfoldable pub ordered : Range → Range
ordered r = if ltb r.end r.start then record { start = r.end; end = r.start } else r

-- `sort_by_key(|range| range.start())`, which is stable.
pub insert_by_start : Range → RangeList → RangeList
insert_by_start x [] = x ∷ []
insert_by_start x (y ∷ ys) = if leb x.start y.start then x ∷ y ∷ ys else y ∷ insert_by_start x ys

pub sort_by_start : RangeList → RangeList
sort_by_start [] = []
sort_by_start (x ∷ xs) = insert_by_start x (sort_by_start xs)

-- The `while let` of `compact` over the vector and the indices `a` and `b`. `none` is a failed
-- `expect`, or the end of the fuel.
pub compact_loop : ℕ → RangeList → ℕ → ℕ → Option (RangeList × ℕ)
compact_loop zero rs a b = none
compact_loop (suc fuel) rs a b = elim (get_elem? rs b) [
  | none ↦ some (rs, a)
  | some e ↦ elim (get_elem? rs a) [
    | none ↦ none
    | some s ↦ elim (leb e.start (add_word s.end 1)) [
      | true ↦
          compact_loop fuel (set rs a (record { start = s.start; end = max s.end e.end })) a (b + 1)
      | false ↦ elim (get_elem? rs (a + 1)) [
        | none ↦ none
        | some _ ↦ compact_loop fuel (set rs (a + 1) e) (a + 1) (b + 1)
      ]
    ]
  ]
]

-- `self.0.truncate(a + 1)`.
abbrev pub truncated : Option (RangeList × ℕ) → Option RangeList
truncated none = none
truncated (some (rs, a)) = some (take (a + 1) rs)

pub compact : RangeList → Option RangeList
compact rs =
    let sorted = sort_by_start (map ordered rs) in
    truncated (compact_loop (suc (length sorted)) sorted 0 1)

-- `RangeList::new`.
unfoldable pub range_list : RangeList → Option RangeList
range_list ranges = compact ranges

unfoldable pub from_single_range : Range → RangeList
from_single_range r = ordered r ∷ []

-- `RangeList::merge`: every vector appended, then compacted.
pub concat : List RangeList → RangeList
concat [] = []
concat (rs ∷ rss) = rs ++ concat rss

pub merge : List RangeList → Option RangeList
merge rss = range_list (concat rss)

-- The other list is emptied, and its owner drops it.
unfoldable pub merge_another : RangeList → RangeList → Option RangeList
merge_another rs other = compact (rs ++ other)

unfoldable pub range_len : Range → ℕ
range_len r = add_word (sub_word r.end r.start) 1

-- `.sum()` of the lengths, from `acc`.
unfoldable pub sum_len : ℕ → RangeList → ℕ
sum_len acc [] = acc
sum_len acc (r ∷ rs) = sum_len (add_word acc (range_len r)) rs

unfoldable pub get_slots_num : RangeList → ℕ
get_slots_num rs = sum_len 0 rs
