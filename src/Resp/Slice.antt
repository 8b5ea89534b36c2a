-- ===== src/Resp/Slice.antt =====
-- The positions of a printed value pick the value out of the buffer.
use undermoon.Prelude.{
  ℕ, ◌+◌, ◌-◌, ◌≤◌, ◌≡◌, refl, ap, ap₂, ◌∙◌, some, [], ◌∷◌, ◌++◌, append_assoc, length,
  length-append, arith, le→leb, take_at, drop_at,
}
use undermoon.Resp.{
  Bytes, Resp, Array, Resps, BulkStr, error, simple, bulk, integer, array, no_items, item,
  count_items, get_range, slice_as, slice_item, map_to_slice, slice_items, slice_array,
}
use undermoon.Resp.Decimal.{to_decimal}
use undermoon.Resp.Encode.{crlf}
use undermoon.Resp.Layout.{
  line, print, print_array, print_items, header, span, index_at, index_array, index_items,
}

-- The bytes behind a prefix.
pub get_range_at :
    (pre s post : Bytes) (buf : Bytes) (o : ℕ)
    → buf ≡ pre ++ (s ++ post)
    → o ≡ length pre
    → get_range buf (span o s) ≡ some s
get_range_at pre s post buf o e k =
    let long : o + length s ≤ length buf =
      omega (arith, ap length e, length-append pre (s ++ post), length-append s post) in
    let size : o + length s - o ≡ length s = omega arith in
    rw
      (
        le→leb o (o + length s) (omega arith),
        le→leb (o + length s) (length buf) long,
        size,
        drop_at pre (s ++ post) e k,
      )
      (ap some (take_at s post refl refl))

pub length-line : (p : ℕ) (s : Bytes) → length (line p s) ≡ length s + 3
length-line p s = omega (arith, length-append s crlf)

mutual
  unfolding map_to_slice index_at print

  slice_lem :
      (r : Resp Bytes) (pre post buf : Bytes) (o : ℕ)
      → buf ≡ pre ++ (print r ++ post)
      → o ≡ length pre
      → map_to_slice buf (index_at o r) ≡ some r
  slice_lem (error s) pre post buf o e k = ap (slice_as error) (
      get_range_at (pre ++ b'-' ∷ []) s (crlf ++ post) buf (o + 1) (e ∙ simp append_assoc)
        (omega (arith, length-append pre (b'-' ∷ []))))
  slice_lem (simple s) pre post buf o e k = ap (slice_as simple) (
      get_range_at (pre ++ b'+' ∷ []) s (crlf ++ post) buf (o + 1) (e ∙ simp append_assoc)
        (omega (arith, length-append pre (b'+' ∷ []))))
  slice_lem (integer s) pre post buf o e k = ap (slice_as integer) (
      get_range_at (pre ++ b':' ∷ []) s (crlf ++ post) buf (o + 1) (e ∙ simp append_assoc)
        (omega (arith, length-append pre (b':' ∷ []))))
  slice_lem (bulk BulkStr.nil) pre post buf o e k = refl
  slice_lem (bulk (BulkStr.str s)) pre post buf o e k =
      ap (λ t. slice_as bulk (slice_as BulkStr.str t))
        (get_range_at (pre ++ line b'$' (to_decimal (length s))) s (crlf ++ post) buf
          (o + header (length s)) (e ∙ simp append_assoc)
          (omega (
            arith,
            length-append pre (line b'$' (to_decimal (length s))),
            length-line b'$' (to_decimal (length s)),
          )))
  slice_lem (array a) pre post buf o e k =
      ap (slice_as array) (slice_array_lem a pre post buf o e k)

  slice_array_lem :
      (a : Array Bytes) (pre post buf : Bytes) (o : ℕ)
      → buf ≡ pre ++ (print_array a ++ post)
      → o ≡ length pre
      → slice_array buf (index_array o a) ≡ some a
  slice_array_lem Array.nil pre post buf o e k = refl
  slice_array_lem (Array.arr rs) pre post buf o e k = ap (slice_as Array.arr) (
      slice_items_lem rs (pre ++ line b'*' (to_decimal (count_items rs))) post buf
        (o + header (count_items rs)) (e ∙ simp append_assoc)
        (omega (
          arith,
          length-append pre (line b'*' (to_decimal (count_items rs))),
          length-line b'*' (to_decimal (count_items rs)),
        )))

  slice_items_lem :
      (rs : Resps Bytes) (pre post buf : Bytes) (o : ℕ)
      → buf ≡ pre ++ (print_items rs ++ post)
      → o ≡ length pre
      → slice_items buf (index_items o rs) ≡ some rs
  slice_items_lem no_items pre post buf o e k = refl
  slice_items_lem (item r rs) pre post buf o e k =
      ap₂ slice_item (slice_lem r pre (print_items rs ++ post) buf o (e ∙ simp append_assoc) k) (
        slice_items_lem rs (pre ++ print r) post buf (o + length (print r)) (e ∙ simp append_assoc)
          (omega (arith, length-append pre (print r))))

pub map_to_slice-index_at :
    (r : Resp Bytes) (pre post : Bytes)
    → map_to_slice (pre ++ (print r ++ post)) (index_at (length pre) r) ≡ some r
map_to_slice-index_at r pre post = slice_lem r pre post _ (length pre) refl refl
