-- ===== src/Resp/Encode.antt =====
-- src/protocol/encoder.rs: printing a value through an `io::Write`. A writer's `write` returns the
-- writer and the number of bytes that it took; its errors are not modelled.
use undermoon.Prelude.{ℕ, ◌+◌, List, [], ◌∷◌, ◌++◌, length}
use undermoon.Resp.{
  Bytes, Resp, Array, Resps, BulkStr, error, simple, bulk, integer, array, no_items, item,
  count_items,
}
use undermoon.Resp.Decimal.{to_decimal}

abbrev pub crlf : Bytes
crlf = 13 ∷ 10 ∷ []

module _ {W : Type 0} (write : W → Bytes → W × ℕ) where
  unfoldable pub encode_simple_element : W → Bytes → Bytes → W × ℕ
  encode_simple_element w prefix b =
      let (w₁, n₁) = write w prefix in
      let (w₂, n₂) = write w₁ b in let (w₃, n₃) = write w₂ crlf in (w₃, n₁ + n₂ + n₃)

  unfoldable pub encode_bulk_str : W → BulkStr Bytes → W × ℕ
  encode_bulk_str w BulkStr.nil = write w (b'$' ∷ b'-' ∷ b'1' ∷ crlf)
  encode_bulk_str w (BulkStr.str s) =
      let (w₁, n₁) = encode_simple_element w (b'$' ∷ []) (to_decimal (length s)) in
      let (w₂, n₂) = write w₁ s in let (w₃, n₃) = write w₂ crlf in (w₃, n₁ + n₂ + n₃)

  -- `encode_items` is the loop of `encode_array`, with `l` bytes written so far.
  unfoldable mutual
    pub encode_resp : W → Resp Bytes → W × ℕ
    encode_resp w (error s) = encode_simple_element w (b'-' ∷ []) s
    encode_resp w (simple s) = encode_simple_element w (b'+' ∷ []) s
    encode_resp w (integer s) = encode_simple_element w (b':' ∷ []) s
    encode_resp w (bulk b) = encode_bulk_str w b
    encode_resp w (array a) = encode_array w a

    pub encode_array : W → Array Bytes → W × ℕ
    encode_array w Array.nil = write w (b'*' ∷ b'-' ∷ b'1' ∷ crlf)
    encode_array w (Array.arr rs) =
        let (w₁, n₁) = encode_simple_element w (b'*' ∷ []) (to_decimal (count_items rs)) in
        encode_items w₁ n₁ rs

    pub encode_items : W → ℕ → Resps Bytes → W × ℕ
    encode_items w l no_items = (w, l)
    encode_items w l (item r rs) = let (w₁, n) = encode_resp w r in encode_items w₁ (l + n) rs

-- `Vec<u8>` takes all bytes at its end.
abbrev pub write_vec : Bytes → Bytes → Bytes × ℕ
write_vec buf b = (buf ++ b, length b)

-- `resp_to_buf`.
unfoldable pub resp_to_buf : Bytes → Resp Bytes → Bytes × ℕ
resp_to_buf buf r = encode_resp write_vec buf r

-- `SizeHintWriter` only counts.
abbrev pub write_size : Unit {0} → Bytes → Unit {0} × ℕ
write_size w b = (tt, length b)

unfoldable pub get_resp_size_hint : Resp Bytes → ℕ
get_resp_size_hint r = (encode_resp write_size tt r).1

-- `command_to_buf`: a command is an array of bulk strings.
unfoldable pub bulk_items : List Bytes → Resps Bytes
bulk_items [] = no_items
bulk_items (s ∷ ss) = item (bulk (BulkStr.str s)) (bulk_items ss)

unfoldable pub command_to_buf : Bytes → List Bytes → Bytes × ℕ
command_to_buf buf command = resp_to_buf buf (array (Array.arr (bulk_items command)))
