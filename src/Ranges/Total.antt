-- ===== src/Ranges/Total.antt =====
-- `RangeList::compact` on every list of usize ranges, where `end + 1` may wrap too.
use undermoon.Prelude.{
  ℕ, suc, ◌+◌, ◌≤◌, ◌<◌, ◌≡◌, refl, ap, ◌∙◌, inl, inr, true, ◌||◌, some, [], ◌∷◌, map, length, leb,
  leb→le, arith, Bool-cases, All, add_word, add_word-exact, add_word-last, word_mod,
}
use undermoon.Ranges.{Range, RangeList, compact, sort_by_start, insert_by_start, ordered}
use undermoon.Ranges.Loop.{coalesce, coalesce_all, grown, compact-coalesce}
use undermoon.Ranges.Covers.{
  within, covers, spans_any, Ascends, Ascends-mono, sort-Ascends, covers-sort, within-grown,
}

-- Where the test of the loop holds, the ranges touch: if `end + 1` wraps, both start at 0.
within-touching :
    (r e : Range) (s : ℕ)
    → r.start ≤ r.end
    → r.end < word_mod
    → r.start ≤ e.start
    → e.start ≤ e.end
    → e.end < word_mod
    → leb e.start (add_word r.end 1) ≡ true
    → within (grown r e) s ≡ (within r s || within e s)
within-touching r e s h b k p q touch = elim (Bool-cases (leb word_mod (r.end + 1))) [
  | inl last ↦
      let wraps : add_word r.end 1 ≡ 0 = add_word-last r.end b (leb→le _ _ last) in
      let first : e.start ≡ 0 = omega (arith, leb→le _ _ touch, wraps) in
      ground (arith, first, leb→le _ _ last)
  | inr more ↦
      let fits : add_word r.end 1 ≡ r.end + 1 = add_word-exact r.end 1 (ground arith) in
      within-grown r e s k (omega (arith, leb→le _ _ touch, fits)) h p
]

covers-coalesce_total :
    (r : Range) (rs : RangeList) (s : ℕ)
    → r.start ≤ r.end
    → r.end < word_mod
    → Ascends 0 r.start rs
    → covers (coalesce r rs) s ≡ (within r s || covers rs s)
unfolding coalesce
covers-coalesce_total r [] s h b a = refl
covers-coalesce_total r (e ∷ rs) s h b a =
    let q : e.end < word_mod = omega (arith, a.2) in
    elim (Bool-cases (leb e.start (add_word r.end 1))) [
      | inl touch ↦
          rw (touch, coalesce)
            (covers-coalesce_total (grown r e) rs s (omega arith) (omega arith)
                (Ascends-mono 0 rs a.0 a.3)
              ∙ ground (arith, within-touching r e s h b a.0 a.1 q touch))
      | inr apart ↦
          rw (apart, coalesce) (ap (λ t. within r s || t) (covers-coalesce_total e rs s a.1 q a.3))
    ]

length-coalesce : (r : Range) (rs : RangeList) → length (coalesce r rs) ≤ suc (length rs)
unfolding coalesce
length-coalesce r [] = omega arith
length-coalesce r (e ∷ rs) = elim (Bool-cases (leb e.start (add_word r.end 1))) [
  | inl touch ↦ rw (touch, coalesce) (omega (arith, length-coalesce (grown r e) rs))
  | inr apart ↦ rw (apart, coalesce) (omega (arith, length-coalesce e rs))
]

length-insert : (r : Range) (rs : RangeList) → length (insert_by_start r rs) ≡ suc (length rs)
unfolding insert_by_start
length-insert r [] = refl
length-insert r (x ∷ rs) = elim (Bool-cases (leb r.start x.start)) [
  | inl le ↦ rw le refl
  | inr gt ↦ rw gt (ap suc (length-insert r rs))
]

length-sort : (rs : RangeList) → length (sort_by_start (map ordered rs)) ≡ length rs
unfolding sort_by_start
length-sort [] = refl
length-sort (r ∷ rs) = length-insert (ordered r) _ ∙ ap suc (length-sort rs)

coalesced :
    (rs : RangeList)
    → Ascends 0 0 rs
    → (length (coalesce_all rs) ≤ length rs) × ((s : ℕ) → covers (coalesce_all rs) s ≡ covers rs s)
unfolding coalesce_all
coalesced [] a = (omega arith, λ s. refl)
coalesced (r ∷ rs) a =
    (length-coalesce r rs, λ s. covers-coalesce_total r rs s a.1 (omega (arith, a.2)) a.3)

-- For every list of ranges with ends in usize, the last value of usize among them, the loop of
-- `compact` ends without a failed `expect`. Its result has no more ranges than the list, and holds
-- exactly the slots that lie between the ends of some range of the list.
pub compact-spans_any :
    (rs : RangeList)
    → All (λ r. (r.start < word_mod) × (r.end < word_mod)) rs
    → (out : RangeList) × (compact rs ≡ some out)
      × (length out ≤ length rs)
      × ((s : ℕ) → covers out s ≡ spans_any rs s)
compact-spans_any rs b =
    let (short, same) =
      coalesced (sort_by_start (map ordered rs)) (sort-Ascends 0 rs (with_room rs b)) in
    (_, compact-coalesce rs, omega (arith, short, length-sort rs), λ s. same s ∙ covers-sort rs s)
  where
    with_room :
        (rs : RangeList)
        → All (λ r. (r.start < word_mod) × (r.end < word_mod)) rs
        → All (λ r. (r.start + 0 < word_mod) × (r.end + 0 < word_mod)) rs
    with_room [] h = tt
    with_room (r ∷ rs) h = ((omega (arith, h.0.0), omega (arith, h.0.1)), with_room rs h.1)
