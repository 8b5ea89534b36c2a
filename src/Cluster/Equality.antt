-- ===== src/Cluster/Equality.antt =====
-- src/common/cluster.rs: the derived `==` of range lists compares sets of slots.
use undermoon.Prelude.{ℕ, ◌≡◌, ◌↔◌, ap, ap₂, subst, refl, true, [], ◌∷◌, arith}
use undermoon.Ranges.{RangeList}
use undermoon.Ranges.Covers.{covers, IsCompact}
use undermoon.Ranges.Canonical.{compact_eq}
use undermoon.Cluster.{range_list_eq}

pub range_list_eq→eq : (rs qs : RangeList) → range_list_eq rs qs ≡ true → rs ≡ qs
unfolding range_list_eq
range_list_eq→eq [] [] h = refl
range_list_eq→eq [] (q ∷ qs) h = cc
range_list_eq→eq (r ∷ rs) [] h = cc
range_list_eq→eq (r ∷ rs) (q ∷ qs) h =
    let same : r ≡ q = ground arith in
    ap₂ (λ a b. a ∷ b) same (range_list_eq→eq rs qs (ground arith))

pub range_list_eq_refl : (rs : RangeList) → range_list_eq rs rs ≡ true
unfolding range_list_eq
range_list_eq_refl [] = refl
range_list_eq_refl (r ∷ rs) = ground (arith, range_list_eq_refl rs)

-- For two compacted range lists, `==` answers true exactly if they hold the same slots.
pub range_list_eq-covers :
    (xs ys : RangeList)
    → IsCompact xs
    → IsCompact ys
    → (range_list_eq xs ys ≡ true) ↔ ((s : ℕ) → covers xs s ≡ covers ys s)
range_list_eq-covers xs ys x y = (
  λ e s. ap (λ t. covers t s) (range_list_eq→eq xs ys e),
  λ same.
      subst (λ t. range_list_eq xs t ≡ true) (compact_eq 0 0 xs ys x y same)
        (range_list_eq_refl xs),
)
