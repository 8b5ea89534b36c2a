-- ===== src/Ranges/Map/Contains.antt =====
-- `RangeMap::contains_slot` against the range list that the map was made from.
use undermoon.Prelude.{
  ℕ, zero, suc, ◌+◌, ◌-◌, ◌≤◌, ◌<◌, ◌≡◌, refl, ◌∙◌, inl, inr, Bool, true, false, ◌&&◌, ◌||◌, some,
  List, [], ◌∷◌, length, get_elem?, set, replicate, leb, ltb, ◌==◌, arith, Bool-cases,
  add_word-exact, sub_word-exact, slot_num, length-set, length-replicate,
}
use undermoon.Ranges.{Range, RangeList}
use undermoon.Ranges.Covers.{within, covers, Follows, IsCompact}
use undermoon.Ranges.Count.{EndsBelow}
use undermoon.Ranges.Map.{
  range_map, contains_slot, mark, mark_from, mark_range, mark_all, checked_sub, first_start,
  last_end, is_set,
}

-- The bit that belongs to slot `i + lo`.
abbrev bit : List Bool → ℕ → Bool
bit bits i = is_set (get_elem? bits i)

bit-set :
    (bits : List Bool) (i j : ℕ)
    → bit (set bits i true) j ≡ ((i == j && ltb j (length bits)) || bit bits j)
bit-set [] i j = ground arith
bit-set (b ∷ bits) zero zero = ground arith
bit-set (b ∷ bits) zero (suc j) = ground arith
bit-set (b ∷ bits) (suc i) zero = ground arith
bit-set (b ∷ bits) (suc i) (suc j) = bit-set bits i j ∙ ground arith

length-mark : (lo s : ℕ) (bits : List Bool) → length (mark lo s bits) ≡ length bits
unfolding mark checked_sub
length-mark lo s bits = ground (arith, length-set bits (s - lo) true)

bit-mark :
    (lo s : ℕ) (bits : List Bool) (i : ℕ)
    → bit (mark lo s bits) i ≡ ((s == i + lo && ltb i (length bits)) || bit bits i)
unfolding mark checked_sub
bit-mark lo s bits i = ground (arith, bit-set bits (s - lo) i)

length-mark_from : (lo n s : ℕ) (bits : List Bool) → length (mark_from lo n s bits) ≡ length bits
unfolding mark_from
length-mark_from lo zero s bits = refl
length-mark_from lo (suc n) s bits =
    length-mark_from lo n (s + 1) (mark lo s bits) ∙ length-mark lo s bits

bit-mark_from :
    (lo n s : ℕ) (bits : List Bool) (i : ℕ)
    → bit (mark_from lo n s bits) i
      ≡ ((leb s (i + lo) && ltb (i + lo) (s + n) && ltb i (length bits)) || bit bits i)
unfolding mark_from
bit-mark_from lo zero s bits i = ground arith
bit-mark_from lo (suc n) s bits i = ground (
  arith,
  bit-mark_from lo n (s + 1) (mark lo s bits) i,
  bit-mark lo s bits i,
  length-mark lo s bits,
)

bit-mark_range :
    (lo : ℕ) (r : Range) (bits : List Bool) (i : ℕ)
    → bit (mark_range lo r bits) i ≡ ((within r (i + lo) && ltb i (length bits)) || bit bits i)
unfolding mark_range
bit-mark_range lo r bits i = ground (arith, bit-mark_from lo (r.end + 1 - r.start) r.start bits i)

length-mark_range :
    (lo : ℕ) (r : Range) (bits : List Bool) → length (mark_range lo r bits) ≡ length bits
unfolding mark_range
length-mark_range lo r bits = length-mark_from lo (r.end + 1 - r.start) r.start bits

bit-mark_all :
    (lo : ℕ) (rs : RangeList) (bits : List Bool) (i : ℕ)
    → bit (mark_all lo rs bits) i ≡ ((covers rs (i + lo) && ltb i (length bits)) || bit bits i)
unfolding mark_all
bit-mark_all lo [] bits i = refl
bit-mark_all lo (r ∷ rs) bits i = ground (
  arith,
  bit-mark_all lo rs (mark_range lo r bits) i,
  bit-mark_range lo r bits i,
  length-mark_range lo r bits,
)

bit-replicate : (n i : ℕ) → bit (replicate n false) i ≡ false
bit-replicate zero i = refl
bit-replicate (suc n) zero = refl
bit-replicate (suc n) (suc i) = bit-replicate n i

last_end_facts :
    (m : ℕ) (r : Range) (rs : RangeList)
    → Follows m (r ∷ rs)
    → EndsBelow slot_num (r ∷ rs)
    → (hi : ℕ) × (last_end (r ∷ rs) ≡ some hi)
      × (r.start ≤ hi)
      × (hi < slot_num)
      × ((s : ℕ) → covers (r ∷ rs) s ≡ true → (r.start ≤ s) × (s ≤ hi))
unfolding last_end
last_end_facts m r [] f b = (r.end, ground arith, f.1, b.0, λ s h. ground arith)
last_end_facts m r (q ∷ rs) f b =
    let (hi, e, le, lt, up) = last_end_facts (r.end + 2) q rs f.3 b.1 in
    (
      hi,
      e,
      omega arith,
      lt,
      λ s h. elim (Bool-cases (covers (q ∷ rs) s)) [
        | inl in_tail ↦ (ground (arith, up s in_tail), (up s in_tail).1)
        | inr not_tail ↦ ground arith
      ],
    )

range_map_lem :
    (r : Range) (rs : RangeList) (hi : ℕ)
    → last_end (r ∷ rs) ≡ some hi
    → r.start ≤ hi
    → hi < slot_num
    → range_map (r ∷ rs) ≡ record {
      min_slot = r.start;
      exists_map = mark_all r.start (r ∷ rs) (replicate (hi - r.start + 1) false);
    }
unfolding range_map first_start
range_map_lem r rs hi e le lt = elim (Bool-cases (leb slot_num r.start)) [
  | inl big ↦ absurd (ground arith)
  | inr small ↦ rw (
    e,
    small,
    sub_word-exact hi r.start le (omega arith),
    add_word-exact (hi - r.start) 1 (omega arith),
  )
]

contains_marked :
    (lo hi : ℕ) (rs : RangeList) (s : ℕ)
    → lo ≤ hi
    → (covers rs s ≡ true → (lo ≤ s) × (s ≤ hi))
    → contains_slot
        (record { min_slot = lo; exists_map = mark_all lo rs (replicate (hi - lo + 1) false) })
        s
      ≡ covers rs s
unfolding contains_slot checked_sub
contains_marked lo hi rs s le up = elim (Bool-cases (leb lo s)) [
  | inl above ↦
      let back : s - lo + lo ≡ s = ground arith in
      rw (above, contains_slot)
        (bit-mark_all lo rs (replicate (hi - lo + 1) false) (s - lo)
          ∙ rw (back, bit-replicate (hi - lo + 1) (s - lo), length-replicate (hi - lo + 1) false)
              (elim (Bool-cases (covers rs s)) [
                | inl held ↦ ground (arith, up held)
                | inr free ↦ rw free
              ]))
  | inr below ↦
      rw (below, contains_slot)
        (elim (Bool-cases (covers rs s)) [
          | inl held ↦ absurd (ground (arith, up held))
          | inr free ↦ rw free
        ])
]

-- For a compacted range list of valid slots, the map contains a slot exactly if the list holds it.
pub contains_slot-range_map :
    (rs : RangeList) (s : ℕ)
    → IsCompact rs
    → EndsBelow slot_num rs
    → contains_slot (range_map rs) s ≡ covers rs s
contains_slot-range_map [] s c b =
    unfold contains_slot range_map mark_all first_start last_end checked_sub in ground arith
contains_slot-range_map (r ∷ rs) s c b =
    let (hi, e, le, lt, up) = last_end_facts 0 r rs c b in
    rw (range_map_lem r rs hi e le lt) (contains_marked r.start hi (r ∷ rs) s le (up s))
