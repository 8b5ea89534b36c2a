-- ===== src/Ranges/Covers.antt =====
-- Which slots a range list holds, and that `RangeList::compact` keeps them.
use undermoon.Prelude.{
  ℕ, ◌+◌, ◌≤◌, ◌<◌, ◌≡◌, refl, ap, ◌∙◌, inl, inr, Bool, false, ◌&&◌, ◌||◌, some, [], ◌∷◌, map, max,
  leb, leb→le, arith, Bool-cases, All, add_word, add_word-exact, word_mod,
}
use undermoon.Ranges.{Range, RangeList, compact, sort_by_start, insert_by_start, ordered}
use undermoon.Ranges.Loop.{coalesce, coalesce_all, grown, compact-coalesce}

-- The slot lies between the ends, in their order.
abbrev pub within : Range → ℕ → Bool
within r s = leb r.start s && leb s r.end

abbrev pub covers : RangeList → ℕ → Bool
covers [] s = false
covers (r ∷ rs) s = within r s || covers rs s

-- The slot lies between the ends, whichever comes first.
abbrev pub spans : Range → ℕ → Bool
spans r s = within r s || (leb r.end s && leb s r.start)

abbrev pub spans_any : RangeList → ℕ → Bool
spans_any [] s = false
spans_any (r ∷ rs) s = spans r s || spans_any rs s

-- No end is the last value of usize, so `end + 1` does not wrap.
abbrev pub IsBounded : RangeList → Type 0
IsBounded = All (λ r. (r.start + 1 < word_mod) × (r.end + 1 < word_mod))

-- Each range is the right way round, and there is a gap before the next one.
abbrev pub Follows : ℕ → RangeList → Type 0
Follows n [] = Unit {0}
Follows n (r ∷ rs) =
    (n ≤ r.start) × (r.start ≤ r.end) × (r.end + 1 < word_mod) × Follows (r.end + 2) rs

abbrev pub IsCompact : RangeList → Type 0
IsCompact rs = Follows 0 rs

-- The input of the loop: each range is the right way round, the starts ascend from `n`, and each end
-- leaves `room` values of usize above it.
abbrev pub Ascends : ℕ → ℕ → RangeList → Type 0
Ascends room n [] = Unit {0}
Ascends room n (r ∷ rs) =
    (n ≤ r.start) × (r.start ≤ r.end) × (r.end + room < word_mod) × Ascends room r.start rs

pub Ascends-mono :
    (room : ℕ) {m n : ℕ} (rs : RangeList) → m ≤ n → Ascends room n rs → Ascends room m rs
Ascends-mono room [] h a = tt
Ascends-mono room (r ∷ rs) h a = (omega arith, a.1, a.2, a.3)

insert-Ascends :
    (room n : ℕ) (r : Range) (rs : RangeList)
    → n ≤ r.start
    → r.start ≤ r.end
    → r.end + room < word_mod
    → Ascends room n rs
    → Ascends room n (insert_by_start r rs)
unfolding insert_by_start
insert-Ascends room n r [] h k b a = (h, k, b, tt)
insert-Ascends room n r (x ∷ rs) h k b a = elim (Bool-cases (leb r.start x.start)) [
  | inl le ↦ rw le (h, k, b, (leb→le _ _ le, a.1, a.2, a.3))
  | inr gt ↦ rw gt (a.0, a.1, a.2, insert-Ascends room x.start r rs (ground arith) k b a.3)
]

pub sort-Ascends :
    (room : ℕ) (rs : RangeList)
    → All (λ r. (r.start + room < word_mod) × (r.end + room < word_mod)) rs
    → Ascends room 0 (sort_by_start (map ordered rs))
unfolding sort_by_start ordered
sort-Ascends room [] b = tt
sort-Ascends room (r ∷ rs) b =
    insert-Ascends room 0 (ordered r) _ (omega arith) (ground arith) (ground arith)
      (sort-Ascends room rs b.1)

covers-insert :
    (r : Range) (rs : RangeList) (s : ℕ)
    → covers (insert_by_start r rs) s ≡ (within r s || covers rs s)
unfolding insert_by_start
covers-insert r [] s = refl
covers-insert r (x ∷ rs) s = ground (arith, covers-insert r rs s)

pub covers-sort :
    (rs : RangeList) (s : ℕ) → covers (sort_by_start (map ordered rs)) s ≡ spans_any rs s
unfolding sort_by_start ordered
covers-sort [] s = refl
covers-sort (r ∷ rs) s = covers-insert (ordered r) _ s ∙ ground (arith, covers-sort rs s)

-- What the test of the loop decides, for ranges whose starts ascend.
touches :
    (r e : Range) → r.end + 1 < word_mod → leb e.start (add_word r.end 1) ≡ leb e.start (r.end + 1)
touches r e b = rw (add_word-exact r.end 1 b)

pub within-grown :
    (r e : Range) (s : ℕ)
    → r.start ≤ e.start
    → e.start ≤ r.end + 1
    → r.start ≤ r.end
    → e.start ≤ e.end
    → within (grown r e) s ≡ (within r s || within e s)
within-grown r e s h k p q = ground arith

grown_facts :
    (r e : Range)
    → r.start ≤ r.end
    → r.end + 1 < word_mod
    → e.end + 1 < word_mod
    → (r.start ≤ max r.end e.end) × (max r.end e.end + 1 < word_mod)
grown_facts r e h k b = omega arith

covers-coalesce :
    (r : Range) (rs : RangeList) (s : ℕ)
    → r.start ≤ r.end
    → r.end + 1 < word_mod
    → Ascends 1 r.start rs
    → covers (coalesce r rs) s ≡ (within r s || covers rs s)
unfolding coalesce
covers-coalesce r [] s h b a = refl
covers-coalesce r (e ∷ rs) s h b a = elim (Bool-cases (leb e.start (r.end + 1))) [
  | inl touch ↦
      let g = grown_facts r e h b a.2 in
      rw (touches r e b, touch, coalesce)
        (covers-coalesce (grown r e) rs s g.0 g.1 (Ascends-mono 1 rs a.0 a.3)
          ∙ ground (arith, within-grown r e s a.0 (leb→le _ _ touch) h a.1))
  | inr apart ↦
      rw (touches r e b, apart, coalesce)
        (ap (λ t. within r s || t) (covers-coalesce e rs s a.1 a.2 a.3))
]

coalesce-Follows :
    (n : ℕ) (r : Range) (rs : RangeList)
    → n ≤ r.start
    → r.start ≤ r.end
    → r.end + 1 < word_mod
    → Ascends 1 r.start rs
    → Follows n (coalesce r rs)
unfolding coalesce
coalesce-Follows n r [] g h b a = (g, h, b, tt)
coalesce-Follows n r (e ∷ rs) g h b a = elim (Bool-cases (leb e.start (r.end + 1))) [
  | inl touch ↦
      let f = grown_facts r e h b a.2 in
      rw (touches r e b, touch, coalesce)
        (coalesce-Follows n (grown r e) rs g f.0 f.1 (Ascends-mono 1 rs a.0 a.3))
  | inr apart ↦
      rw (touches r e b, apart, coalesce)
        (g, h, b, coalesce-Follows (r.end + 2) e rs (ground arith) a.1 a.2 a.3)
]

compacted : RangeList → RangeList
compacted rs = coalesce_all (sort_by_start (map ordered rs))

compacted_facts :
    (rs : RangeList)
    → Ascends 1 0 rs
    → IsCompact (coalesce_all rs) × ((s : ℕ) → covers (coalesce_all rs) s ≡ covers rs s)
unfolding coalesce_all
compacted_facts [] a = (tt, λ s. refl)
compacted_facts (r ∷ rs) a =
    (coalesce-Follows 0 r rs a.0 a.1 a.2 a.3, λ s. covers-coalesce r rs s a.1 a.2 a.3)

-- For ranges whose ends leave room for `end + 1` in usize, `compact` succeeds. Its result is
-- ascending, each range the right way round with a gap before the next, and holds exactly the slots
-- that lie between the ends of some input range.
pub compact_lem :
    (rs : RangeList)
    → IsBounded rs
    → (out : RangeList) × (compact rs ≡ some out)
      × IsCompact out
      × ((s : ℕ) → covers out s ≡ spans_any rs s)
compact_lem rs b =
    let f = compacted_facts (sort_by_start (map ordered rs)) (sort-Ascends 1 rs b) in
    (_, compact-coalesce rs, f.0, λ s. f.1 s ∙ covers-sort rs s)
