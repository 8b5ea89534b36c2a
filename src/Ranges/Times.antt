-- ===== src/Ranges/Times.antt =====
-- Compacting ranges that do not overlap keeps how often each slot is held.
use undermoon.Prelude.{
  ℕ, ◌+◌, ◌≤◌, ◌<◌, ◌≡◌, refl, sym, ap, ◌∙◌, some, [], ◌∷◌, ◌++◌, arith, to_num, All, word_mod,
}
use undermoon.Ranges.{RangeList, range_list}
use undermoon.Ranges.Covers.{covers, spans_any, IsBounded, IsCompact, Follows, compact_lem}
use undermoon.Ranges.Count.{times, times-Follows}

-- Each range is the right way round, and leaves room for `end + 1`.
abbrev pub IsProper : RangeList → Type 0
IsProper = All (λ r. (r.start ≤ r.end) × (r.end + 1 < word_mod))

pub IsProper-append : (xs ys : RangeList) → IsProper xs → IsProper ys → IsProper (xs ++ ys)
IsProper-append [] ys h k = k
IsProper-append (x ∷ xs) ys h k = (h.0, IsProper-append xs ys h.1 k)

IsProper-IsBounded : (rs : RangeList) → IsProper rs → IsBounded rs
IsProper-IsBounded [] h = tt
IsProper-IsBounded (r ∷ rs) h = ((omega (arith, h.0), h.0.1), IsProper-IsBounded rs h.1)

pub Follows-IsProper : (m : ℕ) (rs : RangeList) → Follows m rs → IsProper rs
Follows-IsProper m [] f = tt
Follows-IsProper m (r ∷ rs) f = ((f.1, f.2), Follows-IsProper (r.end + 2) rs f.3)

spans_any-covers_proper : (rs : RangeList) (s : ℕ) → IsProper rs → spans_any rs s ≡ covers rs s
spans_any-covers_proper [] s h = refl
spans_any-covers_proper (r ∷ rs) s h = ground (arith, spans_any-covers_proper rs s h.1, h.0)

times-covers : (rs : RangeList) (s : ℕ) → times rs s ≤ 1 → times rs s ≡ to_num (covers rs s)
times-covers [] s h = refl
times-covers (r ∷ rs) s h = ground (arith, times-covers rs s)

-- Let each range be the right way round, with an end that leaves room for `end + 1` in usize, and let
-- no two of them hold the same slot. Then `RangeList::new` succeeds with a compacted list that holds
-- each slot as often as the ranges do.
pub range_list-times :
    (rs : RangeList)
    → IsProper rs
    → ((s : ℕ) → times rs s ≤ 1)
    → (out : RangeList) × (range_list rs ≡ some out)
      × IsCompact out
      × ((s : ℕ) → times out s ≡ times rs s)
unfolding range_list
range_list-times rs p once =
    let (out, done, c, same) = compact_lem rs (IsProper-IsBounded rs p) in
    (
      out,
      done,
      c,
      λ s.
          times-Follows 0 out s c
          ∙ ap to_num (same s ∙ spans_any-covers_proper rs s p)
          ∙ sym (times-covers rs s (once s)),
    )
