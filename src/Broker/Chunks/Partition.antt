-- ===== src/Broker/Chunks/Partition.antt =====
-- A new cluster owns each slot exactly once.
use native.Mathlib.Nat.{le-div_iff_mul-le, div-mul-le_self, lt-div-mul-add}
use undermoon.Prelude.{
  ℕ, zero, suc, ◌+◌, ◌-◌, ◌*◌, ◌/◌, ◌≤◌, ◌<◌, ◌≡◌, refl, sym, ap, ap₂, subst, ◌∙◌, inl, inr, true,
  false, ◌&&◌, List, [], ◌∷◌, length, ltb, leb, ◌==◌, to_num, sub_word, add_word-exact,
  sub_word-exact, slot_num, ok, min, ltb→lt, arith, Bool-cases,
}
use undermoon.Ranges.{RangeList, from_single_range, ordered}
use undermoon.Ranges.Covers.{IsCompact}
use undermoon.Ranges.Count.{times}
use undermoon.Broker.Store.{ChunkStore}
use undermoon.Broker.Slots.{owners, Steady}
use undermoon.Broker.Chunks.{
  Pairs, Shares, next_slot, create_slots, chunks_with_slots, chunks_without_slots,
  proxy_resource_to_chunk_store,
}

-- Where the slots of master `k` start.
unfoldable bound : Shares → ℕ → ℕ
bound q zero = 0
bound q (suc k) = bound q k + q.average + to_num (ltb k q.remainder)

bound_mono : (q : Shares) (k m : ℕ) → k ≤ m → bound q k ≤ bound q m
unfolding bound
bound_mono q k zero h = ap_le (omega arith)
  where
    ap_le : k ≡ 0 → bound q k ≤ bound q 0
    ap_le e = rw e (omega arith)
bound_mono q k (suc m) h = elim (Bool-cases (leb k m)) [
  | inl le ↦ omega (arith, bound_mono q k m (ground arith))
  | inr gt ↦ let e : k ≡ suc m = ground arith in rw e (omega arith)
]

bound_lem : (q : Shares) (k : ℕ) → bound q k ≡ q.average * k + min k q.remainder
unfolding bound
bound_lem q zero = omega arith
bound_lem q (suc k) = elim (Bool-cases (ltb k q.remainder)) [
  | inl more ↦ rw more (grind (arith, bound_lem q k, ltb→lt k q.remainder more))
  | inr full ↦ rw full (grind (arith, bound_lem q k))
]

-- Each master's slots are one range.
abbrev share_of : Shares → ℕ → RangeList
share_of q k = record { start = bound q k; end = bound q (suc k) - 1 } ∷ []

from_single_range_ordered :
    (a b : ℕ)
    → a ≤ b
    → from_single_range (record { start = a; end = b }) ≡ record { start = a; end = b } ∷ []
unfolding from_single_range ordered
from_single_range_ordered a b h = ground arith

create_slots_lem :
    (q : Shares) (k curr : ℕ)
    → 0 < q.average
    → curr ≡ bound q k
    → bound q (suc k) ≤ slot_num
    → (next_slot q k curr ≡ bound q (suc k)) × ((create_slots q k curr).range_list ≡ share_of q k)
unfolding bound
create_slots_lem q k curr h e fits =
    let next : next_slot q k curr ≡ bound q (suc k) =
      rw
        (
          add_word-exact curr q.average (omega (arith, fits, e)),
          add_word-exact (curr + q.average) (to_num (ltb k q.remainder)) (omega (arith, fits, e)),
        )
        (omega (arith, e)) in
    let last : sub_word (next_slot q k curr) 1 ≡ bound q (suc k) - 1 =
      ap (λ t. sub_word t 1) next
      ∙ sub_word-exact (bound q (suc k)) 1 (omega arith) (omega (arith, fits)) in
    (
      next,
      ap
            (λ (t : ℕ).
              from_single_range (record { start = t; end = sub_word (next_slot q k curr) 1 }))
            e
          ∙ ap (λ (t : ℕ). from_single_range (record { start = bound q k; end = t })) last
          ∙ from_single_range_ordered (bound q k) (bound q (suc k) - 1) (omega arith),
    )

abbrev share : Shares → ℕ → ℕ → ℕ → ℕ
share q k m s = to_num (leb (bound q k) s && ltb s (bound q m))

share_of-IsCompact :
    (q : Shares) (k : ℕ) → 0 < q.average → bound q (suc k) ≤ slot_num → IsCompact (share_of q k)
unfolding bound
share_of-IsCompact q k h fits = (omega arith, omega arith, omega (arith, fits), tt)

share_of-times :
    (q : Shares) (k s : ℕ) → 0 < q.average → times (share_of q k) s ≡ share q k (suc k) s
unfolding bound
share_of-times q k s h = ground arith

share-split :
    (q : Shares) (k m n s : ℕ) → k ≤ m → m ≤ n → share q k m s + share q m n s ≡ share q k n s
share-split q k m n s h g = ground (arith, bound_mono q k m h, bound_mono q m n g)

-- What the loop makes of the pairs from `i` on.
abbrev Shared : Shares → ℕ → Pairs → List ChunkStore → Type 0
Shared q i pairs chunks =
    Steady chunks
    × (length chunks ≡ length pairs)
    × ((s : ℕ) → owners chunks s ≡ share q (2 * i) (2 * (i + length pairs)) s)

chunks_with_slots-Shared :
    (q : Shares) (i curr : ℕ) (pairs : Pairs)
    → 0 < q.average
    → curr ≡ bound q (2 * i)
    → bound q (2 * (i + length pairs)) ≤ slot_num
    → Shared q i pairs (chunks_with_slots q i curr pairs)
unfolding chunks_with_slots
chunks_with_slots-Shared q i curr [] h e fits =
    (tt, refl, λ s. ground (arith, ap (bound q) (omega_same i)))
  where
    omega_same : (i : ℕ) → 2 * (i + 0) ≡ 2 * i
    omega_same i = omega arith
chunks_with_slots-Shared q i curr (pair ∷ pairs) h e fits =
    let a = 2 * i in
    let m = 2 * (i + suc (length pairs)) in
    let middle = next_slot q a curr in
    let one : bound q (a + 1) ≡ bound q (suc a) = ap (bound q) (omega arith) in
    let two : bound q (2 * (i + 1)) ≡ bound q (suc (a + 1)) = ap (bound q) (omega arith) in
    let end : bound q (2 * (i + 1 + length pairs)) ≡ bound q m = ap (bound q) (omega arith) in
    let first_fits : bound q (suc a) ≤ slot_num =
      omega (arith, fits, bound_mono q (suc a) m (omega arith)) in
    let second_fits : bound q (suc (a + 1)) ≤ slot_num =
      omega (arith, fits, bound_mono q (suc (a + 1)) m (omega arith)) in
    let (next, range) = create_slots_lem q a curr h e first_fits in
    let (next', range') = create_slots_lem q (a + 1) middle h (next ∙ sym one) second_fits in
    let (st, len, o) =
      chunks_with_slots-Shared q (i + 1) (next_slot q (a + 1) middle) pairs h (next' ∙ sym two)
        (omega (arith, end, fits)) in
    (
      (
        (
          record {
            stable_first = subst IsCompact (sym range) (share_of-IsCompact q a h first_fits);
            stable_second =
                subst IsCompact (sym range') (share_of-IsCompact q (a + 1) h second_fits);
            moving_first = tt;
            moving_second = tt;
          },
          record { first = refl; second = refl },
        ),
        st,
      ),
      ap suc len,
      λ s.
          let t : times (create_slots q a curr).range_list s ≡ share q a (suc a) s =
            ap (λ l. times l s) range ∙ share_of-times q a s h in
          let t' : times (create_slots q (a + 1) middle).range_list s
              ≡ share q (suc a) (suc (a + 1)) s =
            ap (λ l. times l s) range'
            ∙ share_of-times q (a + 1) s h
            ∙ ap (λ (b : ℕ). to_num (leb b s && ltb s (bound q (suc (a + 1))))) one in
          let rest : owners (chunks_with_slots q (i + 1) (next_slot q (a + 1) middle) pairs) s
              ≡ share q (suc (a + 1)) m s =
            o s ∙ ap₂ (λ (b c : ℕ). to_num (leb b s && ltb s c)) two end in
          omega (
            arith,
            t,
            t',
            rest,
            share-split q a (suc a) (suc (a + 1)) s (omega arith) (omega arith),
            share-split q a (suc (a + 1)) m s (omega arith) (omega arith),
          ),
    )

abbrev shares_of : ℕ → Shares
shares_of m = record { average = slot_num / m; remainder = slot_num - slot_num / m * m }

last_bound : (m : ℕ) → 0 < m → bound (shares_of m) m ≡ slot_num
last_bound m h =
    bound_lem (shares_of m) m
    ∙ omega (arith, lt-div-mul-add {a = slot_num} {b = m} h, div-mul-le_self slot_num m)

bound_start : (q : Shares) → 0 ≡ bound q (2 * 0)
unfolding bound
bound_start q = refl

-- Let there be some pair of proxies, and no more masters than slots. Then the new chunks with slots are
-- as many as the pairs, have compacted range lists and no migration, and together their masters own
-- each of the 16384 slots exactly once, and no other slot.
pub proxy_resource_to_chunk_store-owners :
    (pairs : Pairs)
    → 0 < length pairs
    → length pairs * 2 ≤ slot_num
    → (chunks : List ChunkStore) × (proxy_resource_to_chunk_store pairs true ≡ ok chunks)
      × Steady chunks
      × (length chunks ≡ length pairs)
      × ((s : ℕ) → owners chunks s ≡ to_num (ltb s slot_num))
unfolding proxy_resource_to_chunk_store
proxy_resource_to_chunk_store-owners pairs h k =
    let m = length pairs * 2 in
    let q = shares_of m in
    let end : bound q (2 * (0 + length pairs)) ≡ slot_num =
      ap (bound q) (omega arith) ∙ last_bound m (omega arith) in
    let (st, len, o) =
      chunks_with_slots-Shared q 0 0 pairs
        ((le-div_iff_mul-le {k = m} {x = 1} {y = slot_num} (omega arith)).1 (omega arith))
        (bound_start q) (omega (arith, end)) in
    elim (Bool-cases (length pairs == 0)) [
      | inl empty ↦ absurd (ground arith)
      | inr some_pair ↦ (
        chunks_with_slots q 0 0 pairs,
        rw (some_pair, proxy_resource_to_chunk_store),
        st,
        len,
        λ s.
            o s
            ∙ ap₂ (λ (a b : ℕ). to_num (leb a s && ltb s b)) (sym (bound_start q)) end
            ∙ ground arith,
      )
    ]

chunks_without_slots_lem :
    (pairs : Pairs)
    → Steady (chunks_without_slots pairs)
      × (length (chunks_without_slots pairs) ≡ length pairs)
      × ((s : ℕ) → owners (chunks_without_slots pairs) s ≡ 0)
unfolding chunks_without_slots
chunks_without_slots_lem [] = (tt, refl, λ s. refl)
chunks_without_slots_lem (pair ∷ pairs) =
    let (st, len, o) = chunks_without_slots_lem pairs in
    (
      (
        (
          record { stable_first = tt; stable_second = tt; moving_first = tt; moving_second = tt },
          record { first = refl; second = refl },
        ),
        st,
      ),
      ap suc len,
      λ s. omega (arith, o s),
    )

-- New chunks without slots are as many as the pairs, have no migration, and own no slot.
pub proxy_resource_to_chunk_store_free :
    (pairs : Pairs)
    → 0 < length pairs
    → (chunks : List ChunkStore) × (proxy_resource_to_chunk_store pairs false ≡ ok chunks)
      × Steady chunks
      × (length chunks ≡ length pairs)
      × ((s : ℕ) → owners chunks s ≡ 0)
unfolding proxy_resource_to_chunk_store
proxy_resource_to_chunk_store_free pairs h =
    let (st, len, o) = chunks_without_slots_lem pairs in
    elim (Bool-cases (length pairs == 0)) [
      | inl empty ↦ absurd (ground arith)
      | inr some_pair ↦
          (chunks_without_slots pairs, rw (some_pair, proxy_resource_to_chunk_store), st, len, o)
    ]
