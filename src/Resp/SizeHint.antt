-- ===== src/Resp/SizeHint.antt =====
-- What the encoder of src/protocol/encoder.rs writes, and how many bytes it reports.
use undermoon.Prelude.{
  ℕ, ◌+◌, ◌≡◌, refl, sym, ap, ap₂, ◌∙◌, [], ◌∷◌, ◌++◌, append_assoc, append-nil, length,
  length-append, arith,
}
use undermoon.Resp.{
  Bytes, Resp, Array, Resps, BulkStr, error, simple, bulk, integer, array, no_items, item,
  count_items,
}
use undermoon.Resp.Decimal.{to_decimal}
use undermoon.Resp.Encode.{
  crlf, encode_simple_element, encode_bulk_str, encode_resp, encode_array, encode_items,
  resp_to_buf, get_resp_size_hint,
}
use undermoon.Resp.Layout.{line, print, print_array, print_items, print_bulk}

-- A writer that takes all bytes of each call, and for which two calls are one.
module _ {W : Type 0} (step : W → Bytes → W)
    (joins : (w : W) (a b : Bytes) → step (step w a) b ≡ step w (a ++ b))
    (skips : (w : W) → step w [] ≡ w) where
  abbrev write : W → Bytes → W × ℕ
  write w b = (step w b, length b)

  abbrev Writes : W × ℕ → W → Bytes → Type 0
  Writes r w s = r ≡ (step w s, length s)

  simple_lem :
      (w : W) (p : ℕ) (s : Bytes) → Writes (encode_simple_element write w (p ∷ []) s) w (line p s)
  unfolding encode_simple_element
  simple_lem w p s =
      ap₂ (λ x y. (x, y)) (ap (λ x. step x crlf) (joins w (p ∷ []) s) ∙ joins w (p ∷ s) crlf)
        (omega (arith, length-append s crlf))

  bulk_lem : (w : W) (b : BulkStr Bytes) → Writes (encode_bulk_str write w b) w (print_bulk b)
  unfolding encode_bulk_str
  bulk_lem w BulkStr.nil = refl
  bulk_lem w (BulkStr.str s) =
      let d = to_decimal (length s) in
      rw (simple_lem w b'$' d) (
        ap₂ (λ x y. (x, y))
          (ap (λ x. step x crlf) (joins w (line b'$' d) s)
            ∙ joins w (line b'$' d ++ s) crlf
            ∙ ap (step w) (simp append_assoc))
          (omega (arith, length-append s crlf, length-append (line b'$' d) (s ++ crlf))))

  mutual
    unfolding encode_resp print

    resp_lem : (r : Resp Bytes) (w : W) → Writes (encode_resp write w r) w (print r)
    resp_lem (error s) w = simple_lem w b'-' s
    resp_lem (simple s) w = simple_lem w b'+' s
    resp_lem (integer s) w = simple_lem w b':' s
    resp_lem (bulk b) w = bulk_lem w b
    resp_lem (array a) w = array_lem a w

    array_lem : (a : Array Bytes) (w : W) → Writes (encode_array write w a) w (print_array a)
    array_lem Array.nil w = refl
    array_lem (Array.arr rs) w =
        let h = line b'*' (to_decimal (count_items rs)) in
        ap (λ t. encode_items write (t.0) (t.1) rs)
          (simple_lem w b'*' (to_decimal (count_items rs)))
        ∙ items_lem rs (step w h) (length h)
        ∙ ap₂ (λ x y. (x, y)) (joins w h (print_items rs)) (sym (length-append h (print_items rs)))

    items_lem :
        (rs : Resps Bytes) (w : W) (l : ℕ)
        → encode_items write w l rs ≡ (step w (print_items rs), l + length (print_items rs))
    items_lem no_items w l = ap₂ (λ x y. (x, y)) (sym (skips w)) (omega arith)
    items_lem (item r rs) w l =
        ap (λ t. encode_items write (t.0) (l + t.1) rs) (resp_lem r w)
        ∙ items_lem rs (step w (print r)) (l + length (print r))
        ∙ ap₂ (λ x y. (x, y)) (joins w (print r) (print_items rs))
            (omega (arith, length-append (print r) (print_items rs)))

-- The encoder appends the printed form of the value to the buffer, and returns its length.
pub resp_to_buf-print :
    (buf : Bytes) (r : Resp Bytes) → resp_to_buf buf r ≡ (buf ++ print r, length (print r))
unfolding resp_to_buf
resp_to_buf-print buf r = resp_lem ◌++◌ append_assoc append-nil r buf

-- The size hint of a value is the number of bytes by which the encoder lengthens a buffer, and the
-- number that the encoder returns.
pub get_resp_size_hint_lem :
    (buf : Bytes) (r : Resp Bytes)
    → (length (resp_to_buf buf r).0 ≡ length buf + get_resp_size_hint r)
      × ((resp_to_buf buf r).1 ≡ get_resp_size_hint r)
unfolding get_resp_size_hint
get_resp_size_hint_lem buf r =
    let hint : get_resp_size_hint r ≡ length (print r) =
      ap (λ t. t.1) (resp_lem (λ w b. tt) (λ w a b. refl) (λ w. refl) r tt) in
    let printed = resp_to_buf-print buf r in
    (
      ap (λ t. length (t.0)) printed
          ∙ length-append buf (print r)
          ∙ ap (λ t. length buf + t) (sym hint),
      ap (λ t. t.1) printed ∙ sym hint,
    )
