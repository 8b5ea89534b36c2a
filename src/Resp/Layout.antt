-- ===== src/Resp/Layout.antt =====
-- Where the parts of a printed value stand in the buffer.
use undermoon.Prelude.{ℕ, ◌+◌, ◌≡◌, refl, ap, ap₂, ◌∙◌, [], ◌∷◌, ◌++◌, length, arith}
use undermoon.Resp.{
  Bytes, Resp, Array, Resps, BulkStr, DataIndex, error, simple, bulk, integer, array, no_items,
  item, count_items, map_resp, advance, advance_bulk, advance_array, advance_index, map_resps,
}
use undermoon.Resp.Decimal.{to_decimal}
use undermoon.Resp.Encode.{crlf}

-- The printed form.
abbrev pub line : ℕ → Bytes → Bytes
line prefix s = prefix ∷ s ++ crlf

abbrev pub print_bulk : BulkStr Bytes → Bytes
print_bulk BulkStr.nil = line b'$' (b'-' ∷ b'1' ∷ [])
print_bulk (BulkStr.str s) = line b'$' (to_decimal (length s)) ++ (s ++ crlf)

unfoldable mutual
  pub print : Resp Bytes → Bytes
  print (error s) = line b'-' s
  print (simple s) = line b'+' s
  print (integer s) = line b':' s
  print (bulk b) = print_bulk b
  print (array a) = print_array a

  pub print_array : Array Bytes → Bytes
  print_array Array.nil = line b'*' (b'-' ∷ b'1' ∷ [])
  print_array (Array.arr rs) = line b'*' (to_decimal (count_items rs)) ++ print_items rs

  pub print_items : Resps Bytes → Bytes
  print_items no_items = []
  print_items (item r rs) = print r ++ print_items rs

abbrev pub header : ℕ → ℕ
header n = length (to_decimal n) + 3

abbrev pub span : ℕ → Bytes → DataIndex
span o s = record { start = o; end = o + length s }

abbrev pub index_bulk : ℕ → BulkStr Bytes → BulkStr DataIndex
index_bulk o BulkStr.nil = BulkStr.nil
index_bulk o (BulkStr.str s) = BulkStr.str (span (o + header (length s)) s)

-- The positions in a buffer where the value is printed from `o` on.
unfoldable mutual
  pub index_at : ℕ → Resp Bytes → Resp DataIndex
  index_at o (error s) = error (span (o + 1) s)
  index_at o (simple s) = simple (span (o + 1) s)
  index_at o (integer s) = integer (span (o + 1) s)
  index_at o (bulk b) = bulk (index_bulk o b)
  index_at o (array a) = array (index_array o a)

  pub index_array : ℕ → Array Bytes → Array DataIndex
  index_array o Array.nil = Array.nil
  index_array o (Array.arr rs) = Array.arr (index_items (o + header (count_items rs)) rs)

  pub index_items : ℕ → Resps Bytes → Resps DataIndex
  index_items o no_items = no_items
  index_items o (item r rs) = item (index_at o r) (index_items (o + length (print r)) rs)

-- Advancing the positions is printing further on.
pub index_eq :
    {a b c d : ℕ}
    → a ≡ b
    → c ≡ d
    → ◌≡◌ {A = DataIndex} (record { start = a; end = c }) (record { start = b; end = d })
index_eq p q = λ i. record { start = p i; end = q i }

pub advance-index_bulk :
    (k o : ℕ) (b : BulkStr Bytes) → advance_bulk k (index_bulk o b) ≡ index_bulk (k + o) b
advance-index_bulk k o BulkStr.nil = refl
advance-index_bulk k o (BulkStr.str s) = ap BulkStr.str (index_eq (omega arith) (omega arith))

mutual
  unfolding index_at map_resp

  advance-at : (k : ℕ) (r : Resp Bytes) (o : ℕ) → advance k (index_at o r) ≡ index_at (k + o) r
  advance-at k (error s) o = ap error (index_eq (omega arith) (omega arith))
  advance-at k (simple s) o = ap simple (index_eq (omega arith) (omega arith))
  advance-at k (integer s) o = ap integer (index_eq (omega arith) (omega arith))
  advance-at k (bulk b) o = ap bulk (advance-index_bulk k o b)
  advance-at k (array a) o = ap array (advance-in_array k a o)

  advance-in_array :
      (k : ℕ) (a : Array Bytes) (o : ℕ) → advance_array k (index_array o a) ≡ index_array (k + o) a
  advance-in_array k Array.nil o = refl
  advance-in_array k (Array.arr rs) o = ap Array.arr (
      advance-in_items k rs (o + header (count_items rs))
      ∙ ap (λ t. index_items t rs) (omega arith))

  advance-in_items :
      (k : ℕ) (rs : Resps Bytes) (o : ℕ)
      → map_resps (advance_index k) (index_items o rs) ≡ index_items (k + o) rs
  advance-in_items k no_items o = refl
  advance-in_items k (item r rs) o =
      ap₂ item (advance-at k r o)
        (advance-in_items k rs (o + length (print r)) ∙ ap (λ t. index_items t rs) (omega arith))

pub advance-index_at :
    (k : ℕ) (r : Resp Bytes) (o : ℕ) → advance k (index_at o r) ≡ index_at (k + o) r
advance-index_at k r o = advance-at k r o

pub advance-index_items :
    (k : ℕ) (rs : Resps Bytes) (o : ℕ)
    → map_resps (advance_index k) (index_items o rs) ≡ index_items (k + o) rs
advance-index_items k rs o = advance-in_items k rs o
