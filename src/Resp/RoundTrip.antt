-- ===== src/Resp/RoundTrip.antt =====
-- Printing and then parsing gives the value back, and leaves what follows it.
use undermoon.Prelude.{
  ℕ, zero, suc, ◌+◌, ◌^◌, ◌≤◌, ◌<◌, ◌≡◌, refl, sym, ap, ap₂, ◌∙◌, Option, some, [], ◌∷◌, ◌++◌,
  append_assoc, append-nil, length, length-append, arith, le→leb, ok, take_at, drop_at,
}
use undermoon.Resp.{
  Bytes, Resp, Array, Resps, BulkStr, DataIndex, IndexedResp, error, simple, bulk, integer, array,
  no_items, item, count_items, get_from, to_resp_vec, map_to_slice, map_array, map_resp,
}
use undermoon.Resp.Decimal.{to_decimal}
use undermoon.Resp.Encode.{crlf, resp_to_buf}
use undermoon.Resp.Parse.{ℤ, Parse, parse_items, parse_kind, parse_resp, parse_indexed_resp}
use undermoon.Resp.Layout.{
  line, print, print_items, index_at, index_items, advance-index_at, advance-index_items, index_eq,
}
use undermoon.Resp.SizeHint.{resp_to_buf-print}
use undermoon.Resp.Slice.{length-line, map_to_slice-index_at}
use undermoon.Resp.Steps.{
  IsScanner, NoLf, IsWire, AreWire, depth, depth_items, parse_line_lem, bulk_str_lem, bulk_nil_lem,
  array_nil_lem, array_lem, item_lem,
}

module _ (memchr : ℕ → Bytes → Option ℕ) (btoi : Bytes → Option ℤ) (capacity : ℕ)
    (scans : IsScanner memchr btoi) where
  abbrev parser : ℕ → Bytes → Parse (Resp DataIndex × ℕ)
  parser = parse_resp memchr btoi capacity

  abbrev Reads : ℕ → Resp Bytes → Bytes → Type 0
  Reads fuel r rest = parser fuel (print r ++ rest) ≡ ok (index_at 0 r, length (print r))

  simple_lem : (fuel : ℕ) (s rest : Bytes) → NoLf s → Reads (suc fuel) (simple s) rest
  unfolding parse_resp parse_kind print index_at
  simple_lem fuel s rest h =
      rw (append_assoc s crlf rest, parse_line_lem memchr btoi capacity scans s rest h)
        (ap₂ (λ i n. ok (simple i, n)) (index_eq (omega arith) (omega arith))
          (omega (arith, length-append s crlf)))

  error_lem : (fuel : ℕ) (s rest : Bytes) → NoLf s → Reads (suc fuel) (error s) rest
  unfolding parse_resp parse_kind print index_at
  error_lem fuel s rest h =
      rw (append_assoc s crlf rest, parse_line_lem memchr btoi capacity scans s rest h)
        (ap₂ (λ i n. ok (error i, n)) (index_eq (omega arith) (omega arith))
          (omega (arith, length-append s crlf)))

  integer_lem : (fuel : ℕ) (s rest : Bytes) → NoLf s → Reads (suc fuel) (integer s) rest
  unfolding parse_resp parse_kind print index_at
  integer_lem fuel s rest h =
      rw (append_assoc s crlf rest, parse_line_lem memchr btoi capacity scans s rest h)
        (ap₂ (λ i n. ok (integer i, n)) (index_eq (omega arith) (omega arith))
          (omega (arith, length-append s crlf)))

  bulk_lem :
      (fuel : ℕ) (b : BulkStr Bytes) (rest : Bytes)
      → IsWire capacity (bulk b)
      → Reads (suc fuel) (bulk b) rest
  unfolding parse_resp parse_kind print index_at IsWire
  bulk_lem fuel BulkStr.nil rest h = rw (bulk_nil_lem memchr btoi capacity scans rest) refl
  bulk_lem fuel (BulkStr.str s) rest h =
      let d = to_decimal (length s) in
      let shape : (line b'$' d ++ (s ++ crlf)) ++ rest
          ≡ b'$' ∷ d ++ (crlf ++ (s ++ (crlf ++ rest))) =
        simp append_assoc in
      ap (parser (suc fuel)) shape
      ∙ rw (bulk_str_lem memchr btoi capacity scans s rest h) (
          ap₂ (λ i n. ok (bulk (BulkStr.str i), n)) (index_eq (omega arith) (omega arith))
            (omega (
              arith,
              length-append (line b'$' d) (s ++ crlf),
              length-line b'$' d,
              length-append s crlf,
            )))

  abbrev ReadsItems : ℕ → Resps Bytes → Bytes → ℕ → Type 0
  ReadsItems fuel rs buf o =
      parse_items memchr btoi capacity (parser fuel) (count_items rs) buf o
      ≡ ok (index_items o rs, o + length (print_items rs))

  array_nil : (fuel : ℕ) (rest : Bytes) → Reads (suc fuel) (array Array.nil) rest
  unfolding parse_resp parse_kind print index_at map_array
  array_nil fuel rest = rw (array_nil_lem memchr btoi capacity scans (parser fuel) rest) refl

  array_arr :
      (fuel : ℕ) (rs : Resps Bytes) (rest : Bytes)
      → count_items rs < 2 ^ 63
      → count_items rs ≤ capacity
      → let d = to_decimal (count_items rs) in
        ReadsItems fuel rs (d ++ (crlf ++ (print_items rs ++ rest))) (length d + 2)
        → Reads (suc fuel) (array (Array.arr rs)) rest
  unfolding parse_resp parse_kind print index_at map_resp
  array_arr fuel rs rest small fits e =
      let n = count_items rs in
      let d = to_decimal n in
      let behind = print_items rs ++ rest in
      let shape : (line b'*' d ++ print_items rs) ++ rest ≡ b'*' ∷ d ++ (crlf ++ behind) =
        simp append_assoc in
      ap (parser (suc fuel)) shape
      ∙ rw (array_lem memchr btoi capacity scans (parser fuel) n behind _ _ small fits e) (
          ap₂ (λ i n. ok (array (Array.arr i), n))
            (advance-index_items 1 rs (length d + 2) ∙ ap (λ o. index_items o rs) (omega arith))
            (omega (arith, length-append (line b'*' d) (print_items rs), length-line b'*' d)))

  no_items_lem : (fuel : ℕ) (buf : Bytes) (o : ℕ) → ReadsItems fuel no_items buf o
  unfolding parse_items print index_at count_items
  no_items_lem fuel buf o = ap (λ t. ok (no_items, t)) (omega arith)

  items_step :
      (fuel : ℕ) (r : Resp Bytes) (rs : Resps Bytes) (pre behind buf : Bytes) (o : ℕ)
      → buf ≡ pre ++ (print r ++ behind)
      → o ≡ length pre
      → Reads fuel r behind
      → ReadsItems fuel rs buf (o + length (print r))
      → ReadsItems fuel (item r rs) buf o
  unfolding print index_at count_items
  items_step fuel r rs pre behind buf o e k first others =
      let inside : o ≤ length buf =
        omega (arith, ap length e, length-append pre (print r ++ behind)) in
      let found : get_from buf o ≡ some (print r ++ behind) =
        rw (le→leb o (length buf) inside, drop_at pre (print r ++ behind) e k) refl in
      item_lem memchr btoi capacity scans (parser fuel) (count_items rs) buf (print r ++ behind) o
        (length (print r)) _ (index_at 0 r) (index_items (o + length (print r)) rs) found first
        others
      ∙ ap₂ (λ v n. ok (item v (index_items (o + length (print r)) rs), n))
          (advance-index_at o r 0 ∙ ap (λ t. index_at t r) (omega arith))
          (omega (arith, length-append (print r) (print_items rs)))

  mutual
    unfolding depth IsWire print index_at

    resp_lem :
        (r : Resp Bytes) (fuel : ℕ) (rest : Bytes)
        → depth r ≤ fuel
        → IsWire capacity r
        → Reads fuel r rest
    resp_lem (error s) zero rest h w = elim h [ ]
    resp_lem (error s) (suc fuel) rest h w = error_lem fuel s rest w
    resp_lem (simple s) zero rest h w = elim h [ ]
    resp_lem (simple s) (suc fuel) rest h w = simple_lem fuel s rest w
    resp_lem (integer s) zero rest h w = elim h [ ]
    resp_lem (integer s) (suc fuel) rest h w = integer_lem fuel s rest w
    resp_lem (bulk b) zero rest h w = elim h [ ]
    resp_lem (bulk b) (suc fuel) rest h w = bulk_lem fuel b rest w
    resp_lem (array a) zero rest h w = elim h [ ]
    resp_lem (array Array.nil) (suc fuel) rest h w = array_nil fuel rest
    resp_lem (array (Array.arr rs)) (suc fuel) rest h (small, fits, ws) =
        let d = to_decimal (count_items rs) in
        array_arr fuel rs rest small fits (
          items_lem rs fuel (d ++ crlf) rest (d ++ (crlf ++ (print_items rs ++ rest)))
            (length d + 2) (omega arith) ws (simp append_assoc)
            (omega (arith, length-append d crlf)))

    items_lem :
        (rs : Resps Bytes) (fuel : ℕ) (pre rest buf : Bytes) (o : ℕ)
        → depth_items rs ≤ fuel
        → AreWire capacity rs
        → buf ≡ pre ++ (print_items rs ++ rest)
        → o ≡ length pre
        → ReadsItems fuel rs buf o
    items_lem no_items fuel pre rest buf o h w e k = no_items_lem fuel buf o
    items_lem (item r rs) fuel pre rest buf o h (w, ws) e k =
        let behind = print_items rs ++ rest in
        items_step fuel r rs pre behind buf o (e ∙ simp append_assoc) k
          (resp_lem r fuel behind (omega (arith, h)) w)
          (items_lem rs fuel (pre ++ print r) rest buf (o + length (print r)) (omega (arith, h)) ws
            (e ∙ simp append_assoc) (omega (arith, length-append pre (print r))))

  -- Let `memchr` find the first occurrence of a byte, and `btoi` read decimal numerals below 2^63 and
  -- the numeral -1. Let `r` be a value whose lines hold no line feed, whose strings and arrays are
  -- shorter than 2^63, and whose arrays are no longer than `capacity`; let the fuel be at least the
  -- depth at which arrays nest in `r`. If a buffer starts with what the encoder writes for `r`, then
  -- parsing it succeeds, leaves exactly the bytes behind the value, and keeps a value that converts
  -- back to `r`.
  pub parse_indexed_resp-resp_to_buf :
      (r : Resp Bytes) (fuel : ℕ) (rest : Bytes)
      → depth r ≤ fuel
      → IsWire capacity r
      → let written = (resp_to_buf [] r).0 in
        (x : IndexedResp) × (parse_indexed_resp memchr btoi capacity fuel (written ++ rest)
          ≡ ok (x, rest))
        × (x.content ≡ written)
        × (to_resp_vec x ≡ some r)
  unfolding parse_indexed_resp to_resp_vec
  parse_indexed_resp-resp_to_buf r fuel rest h w =
      rw (resp_to_buf-print [] r, resp_lem r fuel rest h w)
        (
          record { resp = index_at 0 r; content = print r },
          ap₂ (λ c b. ok (record { resp = index_at 0 r; content = c }, b))
              (take_at (print r) rest refl refl) (drop_at (print r) rest refl refl),
          refl,
          ap (λ b. map_to_slice b (index_at 0 r)) (sym (append-nil (print r)))
              ∙ map_to_slice-index_at r [] [],
        )
