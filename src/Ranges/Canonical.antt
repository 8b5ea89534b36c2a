-- ===== src/Ranges/Canonical.antt =====
-- Compacted range lists are a normal form: `==` on them compares sets of slots.
use undermoon.Prelude.{
  ℕ, ◌+◌, ◌≤◌, ◌<◌, ◌≡◌, refl, sym, ap, ap₂, ◌∙◌, inl, inr, true, false, some, [], ◌∷◌, leb, arith,
  Bool-cases,
}
use undermoon.Ranges.{Range, RangeList, compact}
use undermoon.Ranges.Covers.{covers, spans_any, IsBounded, Follows, IsCompact, compact_lem}

-- Two lists that hold the same slots.
abbrev pub SameSlots : RangeList → RangeList → Type 0
SameSlots xs ys = (s : ℕ) → covers xs s ≡ covers ys s

pub Follows-mono : {m n : ℕ} (rs : RangeList) → m ≤ n → Follows n rs → Follows m rs
Follows-mono [] h f = tt
Follows-mono (r ∷ rs) h f = (omega arith, f.1, f.2, f.3)

pub covers_before : (n : ℕ) (rs : RangeList) (s : ℕ) → Follows n rs → s < n → covers rs s ≡ false
covers_before n [] s f h = refl
covers_before n (r ∷ rs) s f h = ground (arith, covers_before (r.end + 2) rs s f.3)

covers_start : (r : Range) (rs : RangeList) → r.start ≤ r.end → covers (r ∷ rs) r.start ≡ true
covers_start r rs h = ground arith

covers_after :
    (n : ℕ) (r : Range) (rs : RangeList) → Follows n (r ∷ rs) → covers (r ∷ rs) (r.end + 1) ≡ false
covers_after n r rs f = ground (arith, covers_before (r.end + 2) rs (r.end + 1) f.3)

starts_le :
    (m n : ℕ) (r q : Range) (rs qs : RangeList)
    → Follows m (r ∷ rs)
    → Follows n (q ∷ qs)
    → SameSlots (r ∷ rs) (q ∷ qs)
    → q.start ≤ r.start
starts_le m n r q rs qs f g e = elim (Bool-cases (leb q.start r.start)) [
  | inl le ↦ ground arith
  | inr gt ↦ absurd (
      ground (
        arith,
        covers_start r rs f.1,
        covers_before q.start (q ∷ qs) r.start (omega arith, g.1, g.2, g.3),
        e r.start,
      ))
]

ends_le :
    (m n : ℕ) (r q : Range) (rs qs : RangeList)
    → Follows m (r ∷ rs)
    → Follows n (q ∷ qs)
    → SameSlots (r ∷ rs) (q ∷ qs)
    → q.start ≤ r.start
    → q.end ≤ r.end
ends_le m n r q rs qs f g e le = elim (Bool-cases (leb q.end r.end)) [
  | inl le ↦ ground arith
  | inr gt ↦ absurd (ground (arith, covers_after m r rs f, e (r.end + 1)))
]

tails_same :
    (m n : ℕ) (r q : Range) (rs qs : RangeList)
    → Follows m (r ∷ rs)
    → Follows n (q ∷ qs)
    → r ≡ q
    → SameSlots (r ∷ rs) (q ∷ qs)
    → SameSlots rs qs
tails_same m n r q rs qs f g eq e s = elim (Bool-cases (leb s (r.end + 1))) [
  | inl le ↦ ground (
    arith,
    covers_before (r.end + 2) rs s f.3,
    covers_before (q.end + 2) qs s g.3,
    ap (λ (t : Range). t.end) eq,
  )
  | inr gt ↦ ground (arith, e s, ap (λ (t : Range). t.end) eq)
]

-- Two compacted range lists with the same slots are equal.
pub compact_eq :
    (m n : ℕ) (xs ys : RangeList) → Follows m xs → Follows n ys → SameSlots xs ys → xs ≡ ys
compact_eq m n [] [] f g e = refl
compact_eq m n [] (q ∷ qs) f g e = absurd (ground (arith, e q.start))
compact_eq m n (r ∷ rs) [] f g e = absurd (ground (arith, e r.start))
compact_eq m n (r ∷ rs) (q ∷ qs) f g e =
    let same = λ (s : ℕ). sym (e s) in
    let start_le = starts_le m n r q rs qs f g e in
    let start_ge = starts_le n m q r qs rs g f same in
    let end_le = ends_le m n r q rs qs f g e start_le in
    let end_ge = ends_le n m q r qs rs g f same start_ge in
    let eq : r ≡ q = ground arith in
    ap₂ (λ a b. a ∷ b) eq
      (compact_eq (r.end + 2) (q.end + 2) rs qs f.3 g.3 (tails_same m n r q rs qs f g eq e))

Follows-IsBounded : (n : ℕ) (rs : RangeList) → Follows n rs → IsBounded rs
Follows-IsBounded n [] f = tt
Follows-IsBounded n (r ∷ rs) f = ((omega arith, f.2), Follows-IsBounded (r.end + 2) rs f.3)

pub IsCompact-IsBounded : (rs : RangeList) → IsCompact rs → IsBounded rs
IsCompact-IsBounded rs c = Follows-IsBounded 0 rs c

pub spans_any-covers :
    (n : ℕ) (rs : RangeList) (s : ℕ) → Follows n rs → spans_any rs s ≡ covers rs s
spans_any-covers n [] s f = refl
spans_any-covers n (r ∷ rs) s f = ground (arith, spans_any-covers (r.end + 2) rs s f.3)

-- `compact` succeeds on a compacted list, and leaves it as it is.
pub compact_again : (rs : RangeList) → IsCompact rs → compact rs ≡ some rs
compact_again rs c =
    let (out, done, o, same) = compact_lem rs (IsCompact-IsBounded rs c) in
    done ∙ ap some (compact_eq 0 0 out rs o c (λ s. same s ∙ spans_any-covers 0 rs s c))
