-- ===== src/Ranges/Loop.antt =====
-- The in-place loop of `RangeList::compact` against a fold over the sorted ranges.
use undermoon.Prelude.{
  ℕ, zero, suc, ◌+◌, ◌<◌, ◌≡◌, refl, sym, ap, ◌∙◌, inl, inr, true, false, some, [], ◌∷◌, ◌++◌,
  append_assoc, map, max, length, get_elem?, set, leb, arith, Bool-cases, length-append,
  get_elem?_at, get_elem?_at_end, set_at, take_at, append-snoc, length-snoc, append-nil, add_word,
}
use undermoon.Ranges.{Range, RangeList, compact, compact_loop, truncated, sort_by_start, ordered}

abbrev pub grown : Range → Range → Range
grown s e = record { start = s.start; end = max s.end e.end }

-- What the loop computes: `s` grows while the next range touches it.
unfoldable pub coalesce : Range → RangeList → RangeList
coalesce s [] = s ∷ []
coalesce s (e ∷ es) = elim (leb e.start (add_word s.end 1)) [
  | true ↦ coalesce (grown s e) es
  | false ↦ s ∷ coalesce e es
]

unfoldable pub coalesce_all : RangeList → RangeList
coalesce_all [] = []
coalesce_all (s ∷ es) = coalesce s es

ea_suc : (pre : RangeList) (s : Range) {a : ℕ} → a ≡ length pre → a + 1 ≡ length (pre ++ s ∷ [])
ea_suc pre s ea = ap (λ (t : ℕ). t + 1) ea ∙ length-snoc pre s

-- Where the gap is found, the next range is written behind the growing one.
write_next :
    (mid rest pre : RangeList) (s e : Range) {rs : RangeList} {a : ℕ}
    → rs ≡ pre ++ s ∷ (mid ++ e ∷ rest)
    → a ≡ length pre
    → (old : Range) × (mid' : RangeList) × (get_elem? rs (a + 1) ≡ some old)
      × (set rs (a + 1) e ≡ (pre ++ s ∷ []) ++ e ∷ (mid' ++ rest))
      × (length mid' ≡ length mid)
write_next [] rest pre s e er ea = (
  e,
  [],
  get_elem?_at (pre ++ s ∷ []) e rest (er ∙ append-snoc pre s _) (ea_suc pre s ea),
  set_at (pre ++ s ∷ []) e e rest (er ∙ append-snoc pre s _) (ea_suc pre s ea),
  refl,
)
write_next (m ∷ mid) rest pre s e er ea = (
  m,
  mid ++ e ∷ [],
  get_elem?_at (pre ++ s ∷ []) m (mid ++ e ∷ rest) (er ∙ append-snoc pre s _) (ea_suc pre s ea),
  set_at (pre ++ s ∷ []) m e (mid ++ e ∷ rest) (er ∙ append-snoc pre s _) (ea_suc pre s ea)
      ∙ ap (λ t. (pre ++ s ∷ []) ++ e ∷ t) (append-snoc mid e rest),
  sym (length-snoc mid e) ∙ omega arith,
)

-- The vector is the finished ranges, the growing one, stale ones, and those not yet read.
compact_loop-coalesce :
    (rest : RangeList) (fuel : ℕ) (pre : RangeList) (s : Range) (mid : RangeList) (rs : RangeList)
    (a b : ℕ)
    → rs ≡ pre ++ s ∷ (mid ++ rest)
    → a ≡ length pre
    → b ≡ length (pre ++ s ∷ mid)
    → length rest < fuel
    → truncated (compact_loop fuel rs a b) ≡ some (pre ++ coalesce s rest)
unfolding compact_loop coalesce
compact_loop-coalesce rest zero pre s mid rs a b er ea eb h = elim h [ ]
compact_loop-coalesce [] (suc fuel) pre s mid rs a b er ea eb h =
    rw (get_elem?_at_end (pre ++ s ∷ mid) (er ∙ rw append-nil) eb, truncated, compact_loop)
      (ap some (take_at (pre ++ s ∷ []) mid (er ∙ rw (append-nil, append_assoc)) (ea_suc pre s ea)))
compact_loop-coalesce (e ∷ rest) (suc fuel) pre s mid rs a b er ea eb h =
    rw
      (
        get_elem?_at (pre ++ s ∷ mid) e rest (er ∙ rw append_assoc) eb,
        get_elem?_at pre s (mid ++ e ∷ rest) er ea,
        truncated,
        compact_loop,
      )
      (elim (Bool-cases (leb e.start (add_word s.end 1))) [
        | inl touch ↦
            rw (touch, truncated, compact_loop, coalesce)
              (compact_loop-coalesce rest fuel pre (grown s e) (mid ++ e ∷ []) _ a (b + 1)
                (set_at pre s _ (mid ++ e ∷ rest) er ea
                  ∙ ap (λ t. pre ++ grown s e ∷ t) (append-snoc mid e rest))
                ea (omega (arith, length-append {0} {A = Range}, eb)) (omega arith))
        | inr apart ↦
            let (old, mid', read, written, same) = write_next mid rest pre s e er ea in
            rw (apart, read, truncated, compact_loop, coalesce)
              (compact_loop-coalesce rest fuel (pre ++ s ∷ []) e mid' _ (a + 1) (b + 1) written
                  (ea_suc pre s ea) (omega (arith, length-append {0} {A = Range}, eb)) (omega arith)
                ∙ rw append_assoc)
      ])

-- For every list, the loop of `compact` over two indices ends without a failed `expect`, and gives what
-- a plain recursion does: each range put the right way round, sorted by start, and then each range
-- joined with the ones behind it that touch it.
pub compact-coalesce :
    (rs : RangeList) → compact rs ≡ some (coalesce_all (sort_by_start (map ordered rs)))
unfolding compact compact_loop coalesce coalesce_all
compact-coalesce rs = from_sorted (sort_by_start (map ordered rs))
  where
    from_sorted :
        (sorted : RangeList)
        → truncated (compact_loop (suc (length sorted)) sorted 0 1) ≡ some (coalesce_all sorted)
    from_sorted [] = refl
    from_sorted (s ∷ es) =
        compact_loop-coalesce es (suc (suc (length es))) [] s [] _ 0 1 refl refl refl (omega arith)
