-- ===== src/Broker/Migrate/Cut.antt =====
-- One cut of a source's ranges: the slots that leave are those that the source no longer holds.
use undermoon.Prelude.{
  ℕ, ◌+◌, ◌-◌, ◌≤◌, ◌<◌, ◌≡◌, refl, ap, inl, inr, ◌⊎◌, ◌&&◌, some, List, [], ◌∷◌, ◌++◌, leb, arith,
  to_num, Bool-cases, leb→le, add_word-exact, sub_word-exact, word_mod,
}
use undermoon.Ranges.{Range, RangeList}
use undermoon.Ranges.Covers.{within, Follows}
use undermoon.Ranges.Canonical.{Follows-mono}
use undermoon.Ranges.Count.{times, times-append, total, range_len-Follows}
use undermoon.Broker.Migrate.{split_last, cut_last, cut_first}

-- `rs'` and the range `r` of `n` slots are what `rs` is cut into, with at most `limit` slots cut off.
pub record IsCut (limit : ℕ) (rs rs' : RangeList) (r : Range) (n : ℕ) : Type 0 where
  pub keeps : Follows 0 rs'
  pub ascends : r.start ≤ r.end
  pub in_word : r.end + 1 < word_mod
  pub same : (s : ℕ) → times rs s ≡ times rs' s + to_num (within r s)
  pub len : total rs ≡ total rs' + n
  pub positive : 0 < n
  pub limited : n ≤ limit

-- A list is empty or has a last element.
pub split_last-append {ℓ} :
    {A : Type ℓ} (init : List A) (x : A) → split_last (init ++ x ∷ []) ≡ some (init, x)
unfolding split_last
split_last-append [] x = refl
split_last-append (y ∷ init) x = rw (split_last-append init x)

pub snoc_cases {ℓ} :
    {A : Type ℓ} (xs : List A) → (xs ≡ []) ⊎ ((init : List A) × (x : A) × (xs ≡ init ++ x ∷ []))
snoc_cases [] = inl refl
snoc_cases (y ∷ ys) = elim (snoc_cases ys) [
  | inl e ↦ inr ([], y, ap (◌∷◌ y) e)
  | inr (init, x, e) ↦ inr (y ∷ init, x, ap (◌∷◌ y) e)
]

total-append : (xs ys : RangeList) → total (xs ++ ys) ≡ total xs + total ys
total-append [] ys = omega arith
total-append (x ∷ xs) ys = omega (arith, total-append xs ys)

Follows-init : (m : ℕ) (xs : RangeList) (r : Range) → Follows m (xs ++ r ∷ []) → Follows m xs
Follows-init m [] r f = tt
Follows-init m (x ∷ xs) r f = (f.0, f.1, f.2, Follows-init (x.end + 2) xs r f.3)

-- The last range of a compacted list, and the list with that range shortened.
Follows-last :
    (m : ℕ) (xs : RangeList) (r : Range)
    → Follows m (xs ++ r ∷ [])
    → (r.start ≤ r.end) × (r.end + 1 < word_mod)
Follows-last m [] r f = (f.1, f.2)
Follows-last m (x ∷ xs) r f = Follows-last (x.end + 2) xs r f.3

Follows-shorten :
    (m : ℕ) (xs : RangeList) (r : Range) (e : ℕ)
    → Follows m (xs ++ r ∷ [])
    → r.start ≤ e
    → e ≤ r.end
    → Follows m (xs ++ record { start = r.start; end = e } ∷ [])
Follows-shorten m [] r e f h k = (f.0, h, omega arith, tt)
Follows-shorten m (x ∷ xs) r e f h k = (f.0, f.1, f.2, Follows-shorten (x.end + 2) xs r e f.3 h k)

within-split :
    (lo mid hi s : ℕ)
    → lo ≤ mid
    → mid < hi
    → to_num (leb lo s && leb s hi)
      ≡ to_num (leb lo s && leb s mid) + to_num (leb (mid + 1) s && leb s hi)
within-split lo mid hi s h k = ground arith

pub cut_last-IsCut :
    (limit : ℕ) (init : RangeList) (r : Range)
    → 0 < limit
    → Follows 0 (init ++ r ∷ [])
    → let (rs', cut, n) = cut_last limit (init, r) in IsCut limit (init ++ r ∷ []) rs' cut n
unfolding cut_last
cut_last-IsCut limit init r pos f =
    let last = Follows-last 0 init r f in
    let len = range_len-Follows r last.0 last.1 in
    elim (Bool-cases (leb (r.end + 1 - r.start) limit)) [
      | inl whole ↦
          rw (len, whole, cut_last)
            (record {
              keeps = Follows-init 0 init r f;
              ascends = last.0;
              in_word = last.1;
              same = λ s. omega (arith, times-append init (r ∷ []) s);
              len = omega (arith, total-append init (r ∷ []));
              positive = omega (arith, last.0);
              limited = leb→le _ _ whole;
            })
      | inr part ↦
          let small : r.start + limit ≤ r.end = ground (arith, last.0) in
          let e : ℕ = r.end - limit in
          rw
            (
              len,
              part,
              cut_last,
              sub_word-exact r.end limit (omega arith) (omega (arith, last.1)),
              add_word-exact (r.end - limit) 1 (omega (arith, last.1)),
            )
            (record {
              keeps = Follows-shorten 0 init r (r.end - limit) f (omega arith) (omega arith);
              ascends = omega arith;
              in_word = last.1;
              same = λ s. omega (
                arith,
                times-append init (r ∷ []) s,
                times-append init (record { start = r.start; end = r.end - limit } ∷ []) s,
                within-split r.start (r.end - limit) r.end s (omega arith) (omega arith),
              );
              len = omega (
                arith,
                total-append init (r ∷ []),
                total-append init (record { start = r.start; end = r.end - limit } ∷ []),
              );
              positive = pos;
              limited = omega arith;
            })
    ]

pub cut_first-IsCut :
    (limit : ℕ) (r : Range) (rest : RangeList)
    → 0 < limit
    → Follows 0 (r ∷ rest)
    → let (rs', cut, n) = cut_first limit r rest in IsCut limit (r ∷ rest) rs' cut n
unfolding cut_first
cut_first-IsCut limit r rest pos f =
    let len = range_len-Follows r f.1 f.2 in
    elim (Bool-cases (leb (r.end + 1 - r.start) limit)) [
      | inl whole ↦
          rw (len, whole, cut_first)
            (record {
              keeps = Follows-mono rest (omega arith) f.3;
              ascends = f.1;
              in_word = f.2;
              same = λ s. omega arith;
              len = omega arith;
              positive = omega (arith, f.1);
              limited = leb→le _ _ whole;
            })
      | inr part ↦
          let small : r.start + limit ≤ r.end = ground (arith, f.1) in
          let stop : limit + r.start - 1 ≡ r.start + (limit - 1) = omega arith in
          rw
            (
              len,
              part,
              cut_first,
              add_word-exact r.start limit (omega (arith, f.2)),
              add_word-exact limit r.start (omega (arith, f.2)),
              sub_word-exact (limit + r.start) 1 (omega arith) (omega (arith, f.2)),
            )
            (record {
              keeps = (omega arith, small, f.2, f.3);
              ascends = omega arith;
              in_word = omega (arith, f.2);
              same = λ s. ground (
                arith,
                within-split r.start (limit + r.start - 1) r.end s (omega arith) (omega arith),
              );
              len = omega arith;
              positive = pos;
              limited = omega arith;
            })
    ]
