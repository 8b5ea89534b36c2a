-- ===== src/Ranges/Count.antt =====
-- How often the ranges of a list hold a slot, and `get_slots_num`.
use undermoon.Prelude.{
  ℕ, zero, suc, ◌+◌, ◌-◌, ◌≤◌, ◌<◌, ◌≡◌, refl, sym, ap₂, ◌∙◌, Bool, true, false, ◌||◌, [], ◌∷◌,
  ◌++◌, min, arith, to_num, add_word-exact, sub_word-exact, word_mod,
}
use undermoon.Ranges.{Range, RangeList, range_len, sum_len, get_slots_num}
use undermoon.Ranges.Covers.{within, covers, Follows, IsCompact}
use undermoon.Ranges.Canonical.{covers_before}

-- The number of ranges that hold the slot.
abbrev pub times : RangeList → ℕ → ℕ
times [] s = 0
times (r ∷ rs) s = to_num (within r s) + times rs s

pub times-append : (xs ys : RangeList) (s : ℕ) → times (xs ++ ys) s ≡ times xs s + times ys s
times-append [] ys s = omega arith
times-append (x ∷ xs) ys s = omega (arith, times-append xs ys s)

pub times-Follows :
    (n : ℕ) (rs : RangeList) (s : ℕ) → Follows n rs → times rs s ≡ to_num (covers rs s)
times-Follows n [] s f = refl
times-Follows n (r ∷ rs) s f =
    ground (arith, times-Follows (r.end + 2) rs s f.3, covers_before (r.end + 2) rs s f.3)

pub times-compact_le : (rs : RangeList) (s : ℕ) → IsCompact rs → times rs s ≤ 1
times-compact_le rs s c = ground (arith, times-Follows 0 rs s c)

-- The number of slots below `n` that the test holds of.
pub count_below : ℕ → (ℕ → Bool) → ℕ
count_below zero p = 0
count_below (suc n) p = to_num (p n) + count_below n p

pub count_below-cong :
    (n : ℕ) (p q : ℕ → Bool) → ((s : ℕ) → p s ≡ q s) → count_below n p ≡ count_below n q
unfolding count_below
count_below-cong zero p q h = refl
count_below-cong (suc n) p q h = ap₂ (λ a b. to_num a + b) (h n) (count_below-cong n p q h)

-- Disjoint tests add up.
count_below-or :
    (n : ℕ) (p q : ℕ → Bool)
    → ((s : ℕ) → p s ≡ true → q s ≡ false)
    → count_below n (λ s. p s || q s) ≡ count_below n p + count_below n q
unfolding count_below
count_below-or zero p q h = omega arith
count_below-or (suc n) p q h = ground (arith, h n, count_below-or n p q h)

count_below-within :
    (n : ℕ) (r : Range) → count_below n (within r) ≡ min n (r.end + 1) - min n r.start
unfolding count_below
count_below-within zero r = omega arith
count_below-within (suc n) r = ground (arith, count_below-within n r)

count_below-none : (n : ℕ) → count_below n (λ s. false) ≡ 0
unfolding count_below
count_below-none zero = refl
count_below-none (suc n) = omega (arith, count_below-none n)

-- The sum of the lengths, with no bound.
abbrev pub total : RangeList → ℕ
total [] = 0
total (r ∷ rs) = (r.end + 1 - r.start) + total rs

abbrev pub EndsBelow : ℕ → RangeList → Type 0
EndsBelow n [] = Unit {0}
EndsBelow n (r ∷ rs) = (r.end < n) × EndsBelow n rs

count_below-covers :
    (n m : ℕ) (rs : RangeList)
    → Follows m rs
    → EndsBelow n rs
    → count_below n (covers rs) ≡ total rs
count_below-covers n m [] f b = count_below-none n
count_below-covers n m (r ∷ rs) f b =
    count_below-or n (within r) (covers rs)
      (λ s h. covers_before (r.end + 2) rs s f.3 (ground arith))
    ∙ omega (arith, count_below-within n r, count_below-covers n (r.end + 2) rs f.3 b.1, f.1, b.0)

total_le : (m : ℕ) (rs : RangeList) → Follows m rs → m ≤ word_mod → total rs + m ≤ word_mod
total_le m [] f h = omega arith
total_le m (r ∷ rs) f h = omega (arith, total_le (r.end + 2) rs f.3 (omega arith), f.0, f.1)

pub total_lt : (m : ℕ) (rs : RangeList) → Follows m rs → total rs < word_mod
total_lt m [] f = omega arith
total_lt m (r ∷ rs) f = omega (arith, total_le (r.end + 2) rs f.3 (omega arith), f.1, f.2)

pub range_len-Follows :
    (r : Range) → r.start ≤ r.end → r.end + 1 < word_mod → range_len r ≡ r.end + 1 - r.start
unfolding range_len
range_len-Follows r h b =
    rw
      (
        sub_word-exact r.end r.start h (omega arith),
        add_word-exact (r.end - r.start) 1 (omega arith),
      )
      (omega arith)

sum_len-total :
    (acc m : ℕ) (rs : RangeList)
    → Follows m rs
    → acc + total rs < word_mod
    → sum_len acc rs ≡ acc + total rs
unfolding sum_len
sum_len-total acc m [] f h = omega arith
sum_len-total acc m (r ∷ rs) f h =
    let one = range_len-Follows r f.1 f.2 in
    rw (one, add_word-exact acc (r.end + 1 - r.start) (omega arith))
      (sum_len-total (acc + (r.end + 1 - r.start)) (r.end + 2) rs f.3 (omega arith) ∙ omega arith)

-- On a compacted list `get_slots_num` is the sum of the lengths: no subtraction or sum wraps.
pub get_slots_num-total : (m : ℕ) (rs : RangeList) → Follows m rs → get_slots_num rs ≡ total rs
unfolding get_slots_num sum_len
get_slots_num-total m [] f = refl
get_slots_num-total m (r ∷ rs) f =
    sum_len-total 0 m (r ∷ rs) f
      (omega (arith, total_le (r.end + 2) rs f.3 (omega arith), f.1, f.2))
    ∙ omega arith

-- On a compacted list `get_slots_num` is the number of slots below `n` that the list holds, for any
-- `n` above the ends.
pub get_slots_num-count_below :
    (n : ℕ) (rs : RangeList)
    → IsCompact rs
    → EndsBelow n rs
    → get_slots_num rs ≡ count_below n (covers rs)
get_slots_num-count_below n rs c b =
    get_slots_num-total 0 rs c ∙ sym (count_below-covers n 0 rs c b)
