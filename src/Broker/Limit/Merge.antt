-- ===== src/Broker/Limit/Merge.antt =====
-- `limit_migration` merges the slots of a migration that does not run into a part of its source.
use undermoon.Prelude.{
  ℕ, zero, suc, ◌+◌, ◌≤◌, ◌<◌, ◌≡◌, refl, sym, ◌∙◌, Option, none, some, List, [], ◌∷◌, ◌++◌,
  get_elem?, arith, ok,
}
use undermoon.Ranges.{RangeList, range_list, merge_another}
use undermoon.Ranges.Covers.{IsCompact}
use undermoon.Ranges.Canonical.{compact_again}
use undermoon.Ranges.Count.{times, times-append}
use undermoon.Ranges.Times.{IsProper-append, Follows-IsProper, range_list-times}
use undermoon.Cluster.{SlotRange, SlotRangeTag}
use undermoon.Broker.Store.{Two, ChunkStore, get_two, update_two}
use undermoon.Broker.Slots.{stable_times, chunk_owners, owners, IsCompactStable, HasCompactSlots}
use undermoon.Broker.Limit.{merge_or_insert}

merge_lists :
    (xs ys : RangeList)
    → IsCompact xs
    → IsCompact ys
    → ((s : ℕ) → times xs s + times ys s ≤ 1)
    → (out : RangeList) × (merge_another xs ys ≡ some out)
      × IsCompact out
      × ((s : ℕ) → times out s ≡ times xs s + times ys s)
unfolding merge_another range_list
merge_lists xs ys x y once =
    let (out, e, o, same) =
      range_list-times (xs ++ ys)
        (IsProper-append xs ys (Follows-IsProper 0 xs x) (Follows-IsProper 0 ys y))
        (λ s. omega (arith, once s, times-append xs ys s)) in
    (out, e, o, λ s. same s ∙ times-append xs ys s)

range_list-empty : range_list [] ≡ some []
unfolding range_list
range_list-empty = compact_again [] tt

merge_or_insert_lem :
    (o : Option SlotRange) (rs : RangeList)
    → IsCompactStable o
    → IsCompact rs
    → ((s : ℕ) → stable_times o s + times rs s ≤ 1)
    → (sr : SlotRange) × (merge_or_insert o rs ≡ ok sr)
      × IsCompact sr.range_list
      × ((s : ℕ) → times sr.range_list s ≡ stable_times o s + times rs s)
unfolding merge_or_insert
merge_or_insert_lem none rs h c once =
    let (out, e, o, same) = merge_lists [] rs tt c once in
    (
      record { range_list = out; tag = SlotRangeTag.none },
      rw (range_list-empty) (rw e refl),
      o,
      same,
    )
merge_or_insert_lem (some sr) rs h c once =
    let (out, e, o, same) = merge_lists sr.range_list rs h c once in
    (record sr { range_list = out }, rw e refl, o, same)

pub owners-get :
    (chunks : List ChunkStore) (i : ℕ) (c : ChunkStore) (s : ℕ)
    → get_elem? chunks i ≡ some c
    → chunk_owners c s ≤ owners chunks s
owners-get [] i c s e = cc
owners-get (d ∷ chunks) zero c s e = let same : d ≡ c = cc in rw (sym same) (omega arith)
owners-get (d ∷ chunks) (suc i) c s e = omega (arith, owners-get chunks i c s e)

-- What becomes of one part of a chunk.
abbrev pub Merged : ChunkStore → ℕ → RangeList → Type 0
Merged chunk j rs =
    (stable : Option SlotRange) × (sr : SlotRange) × (slots : Two (Option SlotRange)) × (get_two
        chunk.stable_slots j
      ≡ some stable)
    × (merge_or_insert stable rs ≡ ok sr)
    × (update_two chunk.stable_slots j (λ o. some sr) ≡ some slots)
    × HasCompactSlots (record chunk { stable_slots = slots })
    × ((s : ℕ)
        → chunk_owners (record chunk { stable_slots = slots }) s
          ≡ chunk_owners chunk s + times rs s)

pub Merged-part :
    (chunk : ChunkStore) (j : ℕ) (rs : RangeList)
    → j < 2
    → HasCompactSlots chunk
    → IsCompact rs
    → ((s : ℕ) → chunk_owners chunk s + times rs s ≤ 1)
    → Merged chunk j rs
Merged-part chunk zero rs h o c once =
    let (sr, e, k, same) =
      merge_or_insert_lem chunk.stable_slots.first rs o.stable_first c
        (λ s. omega (arith, once s)) in
    (
      _,
      sr,
      _,
      refl,
      e,
      refl,
      record {
        stable_first = k;
        stable_second = o.stable_second;
        moving_first = o.moving_first;
        moving_second = o.moving_second;
      },
      λ s. omega (arith, same s),
    )
Merged-part chunk (suc zero) rs h o c once =
    let (sr, e, k, same) =
      merge_or_insert_lem chunk.stable_slots.second rs o.stable_second c
        (λ s. omega (arith, once s)) in
    (
      _,
      sr,
      _,
      refl,
      e,
      refl,
      record {
        stable_first = o.stable_first;
        stable_second = k;
        moving_first = o.moving_first;
        moving_second = o.moving_second;
      },
      λ s. omega (arith, same s),
    )
Merged-part chunk (suc (suc j)) rs h o c once = absurd (omega arith)
