-- ===== src/Ranges/Map.antt =====
-- src/common/cluster.rs: `RangeMap`, a bit map of the slots of a compacted range list.
pub mod Contains
use undermoon.Prelude.{
  ℕ, zero, suc, ◌+◌, ◌-◌, ◌≤◌, ◌<◌, ◌≡◌, refl, ◌∙◌, inl, inr, Bool, true, false, ◌&&◌, ◌||◌, Option,
  none, some, List, [], ◌∷◌, length, get_elem?, set, replicate, leb, ltb, ◌==◌, if◌then◌else◌,
  arith, Bool-cases, add_word, sub_word, add_word-exact, sub_word-exact, word_mod, slot_num,
}
use undermoon.Ranges.{Range, RangeList}
use undermoon.Ranges.Covers.{within, covers, Follows, IsCompact}
use undermoon.Ranges.Canonical.{covers_before}

pub record RangeMap : Type 0 where
  pub min_slot : ℕ
  pub exists_map : List Bool

-- `first().and_then(..)` and `last().and_then(..)` of `RangeMap::from`.
first_start : RangeList → Option ℕ
first_start [] = none
first_start (r ∷ rs) = if leb slot_num r.start then none else some r.start

last_end : RangeList → Option ℕ
last_end [] = none
last_end (r ∷ []) = if leb slot_num r.end then none else some r.end
last_end (r ∷ q ∷ rs) = last_end (q ∷ rs)

abbrev bounds : Option ℕ → Option ℕ → ℕ × ℕ
bounds (some lo) (some hi) = (lo, add_word (sub_word hi lo) 1)
bounds none _ = (0, 0)
bounds (some lo) none = (0, 0)

checked_sub : ℕ → ℕ → Option ℕ
checked_sub a b = if leb b a then some (a - b) else none

-- `if let Some(slot) = .. { *slot = true }`; a `get_mut` out of range does nothing.
mark : ℕ → ℕ → List Bool → List Bool
mark lo s bits = elim (checked_sub s lo) [ none ↦ bits | some i ↦ set bits i true ]

-- `count` slots from `s` on.
mark_from : ℕ → ℕ → ℕ → List Bool → List Bool
mark_from lo zero s bits = bits
mark_from lo (suc count) s bits = mark_from lo count (s + 1) (mark lo s bits)

-- `range.start()..=range.end()` is empty if the ends are the wrong way round.
mark_range : ℕ → Range → List Bool → List Bool
mark_range lo r bits = mark_from lo (r.end + 1 - r.start) r.start bits

mark_all : ℕ → RangeList → List Bool → List Bool
mark_all lo [] bits = bits
mark_all lo (r ∷ rs) bits = mark_all lo rs (mark_range lo r bits)

-- For a list that is not sorted, the length of the bit map may wrap, and the source may then fail to
-- allocate it; here it is a list of any length.
pub range_map : RangeList → RangeMap
range_map rs =
    let (lo, len) = bounds (first_start rs) (last_end rs) in
    record { min_slot = lo; exists_map = mark_all lo rs (replicate len false) }

abbrev is_set : Option Bool → Bool
is_set none = false
is_set (some b) = b

pub contains_slot : RangeMap → ℕ → Bool
contains_slot m s = elim (checked_sub s m.min_slot) [
  | none ↦ false
  | some i ↦ is_set (get_elem? m.exists_map i)
]
