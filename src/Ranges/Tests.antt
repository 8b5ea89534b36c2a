-- ===== src/Ranges/Tests.antt =====
-- Tests of the theorems on range lists.
use undermoon.Prelude.{length, word_mod, ◌-◌, ℕ, ◌≤◌, ◌≡◌, some, [], ◌∷◌, arith, slot_num}
use undermoon.Ranges.{RangeList, compact, get_slots_num}
use undermoon.Ranges.Total.{compact-spans_any}
use undermoon.Ranges.Covers.{covers, spans_any, IsCompact, compact_lem}
use undermoon.Ranges.Canonical.{compact_again}
use undermoon.Ranges.Count.{count_below, get_slots_num-count_below}
use undermoon.Ranges.Map.{range_map, contains_slot}
use undermoon.Ranges.Map.Contains.{contains_slot-range_map}

-- Out of order, one the wrong way round, and two that touch.
abbrev untidy : RangeList
untidy =
    record { start = 300; end = 400 }
    ∷ record { start = 99; end = 10 }
    ∷ record { start = 100; end = 200 }
    ∷ []

-- One up to the last value of usize, behind which `end + 1` wraps, and one inside it.
abbrev endless : RangeList
endless = record { start = 0; end = word_mod - 1 } ∷ record { start = 10; end = 5 } ∷ []

abbrev tidy : RangeList
tidy = record { start = 10; end = 200 } ∷ record { start = 300; end = 400 } ∷ []

tidy-IsCompact : IsCompact tidy
tidy-IsCompact =
    (omega arith, omega arith, omega arith, (omega arith, omega arith, omega arith, tt))

compact-spans_any_example :
    (out : RangeList) × (compact endless ≡ some out)
    × (length out ≤ 2)
    × ((s : ℕ) → covers out s ≡ spans_any endless s)
compact-spans_any_example =
    compact-spans_any endless ((omega arith, omega arith), ((omega arith, omega arith), tt))

compact_lem_example :
    (out : RangeList) × (compact untidy ≡ some out)
    × IsCompact out
    × ((s : ℕ) → covers out s ≡ spans_any untidy s)
compact_lem_example =
    compact_lem untidy
      ((omega arith, omega arith), ((omega arith, omega arith), ((omega arith, omega arith), tt)))

compact_again_example : compact tidy ≡ some tidy
compact_again_example = compact_again tidy tidy-IsCompact

get_slots_num-count_below_example : get_slots_num tidy ≡ count_below slot_num (covers tidy)
get_slots_num-count_below_example =
    get_slots_num-count_below slot_num tidy tidy-IsCompact (omega arith, (omega arith, tt))

contains_slot-range_map_example : contains_slot (range_map tidy) 250 ≡ covers tidy 250
contains_slot-range_map_example =
    contains_slot-range_map tidy 250 tidy-IsCompact (omega arith, (omega arith, tt))
