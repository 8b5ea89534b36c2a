-- ===== src/Proxy/SlotMap.antt =====
-- src/proxy/slot.rs: the table from slots to addresses. A HashMap from addresses to ranges is a list,
-- in the map's iteration order; the map that `from_ranges` builds in between keeps that order here.
pub mod Lookup
use undermoon.Prelude.{
  ℕ, zero, suc, ◌+◌, ◌-◌, Bool, true, false, Option, none, some, List, [], ◌∷◌, ◌++◌, length,
  get_elem?, set, replicate, leb, ltb, if◌then◌else◌, slot_num,
}
use undermoon.Ranges.{Range, RangeList}
use undermoon.Cluster.{Text, SlotRange}

pub record SlotMapData : Type 0 where
  pub slot_arr : List (Option ℕ)
  pub addrs : List Text

abbrev pub Served : Type 0
Served = List (Text × RangeList)

-- `count` slots from `s` on get the index; the loop breaks at the first invalid slot.
unfoldable pub fill_from : ℕ → ℕ → ℕ → List (Option ℕ) → List (Option ℕ)
fill_from zero s index arr = arr
fill_from (suc count) s index arr =
    if leb slot_num s then arr else fill_from count (s + 1) index (set arr s (some index))

-- A range with its ends the wrong way round is passed over.
unfoldable pub fill_range : Range → ℕ → List (Option ℕ) → List (Option ℕ)
fill_range r index arr =
    if ltb r.end r.start then arr else fill_from (r.end + 1 - r.start) r.start index arr

unfoldable pub fill_ranges : RangeList → ℕ → List (Option ℕ) → List (Option ℕ)
fill_ranges [] index arr = arr
fill_ranges (r ∷ rs) index arr = fill_ranges rs index (fill_range r index arr)

-- `addrs.len() - 1` behind the `push` is the length before it.
unfoldable pub fill_all : Served → SlotMapData → SlotMapData
fill_all [] d = d
fill_all ((addr, rs) ∷ rest) d =
    fill_all rest (record {
      slot_arr = fill_ranges rs (length d.addrs) d.slot_arr;
      addrs = d.addrs ++ addr ∷ [];
    })

unfoldable pub slot_map_data : Served → SlotMapData
slot_map_data served = fill_all served (record { slot_arr = replicate slot_num none; addrs = [] })

abbrev pub address_at : List Text → Option (Option ℕ) → Option Text
address_at addrs none = none
address_at addrs (some none) = none
address_at addrs (some (some index)) = get_elem? addrs index

unfoldable pub get_address : SlotMapData → ℕ → Option Text
get_address d slot = address_at d.addrs (get_elem? d.slot_arr slot)

-- `SlotMap::from_ranges`: the ranges of all slot ranges of an address, in order.
unfoldable pub ranges_of : List SlotRange → RangeList
ranges_of [] = []
ranges_of (sr ∷ srs) = sr.range_list ++ ranges_of srs

unfoldable pub served_of : List (Text × List SlotRange) → Served
served_of [] = []
served_of ((addr, srs) ∷ rest) = (addr, ranges_of srs) ∷ served_of rest

unfoldable pub slot_map_from_ranges : List (Text × List SlotRange) → SlotMapData
slot_map_from_ranges slot_map = slot_map_data (served_of slot_map)
