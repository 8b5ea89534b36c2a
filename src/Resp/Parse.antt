-- ===== src/Resp/Parse.antt =====
-- src/protocol/stateless.rs: reading a value off the front of a buffer. The crates `memchr` and
-- `btoi` are parameters, and so is `capacity`, the largest length at which `Vec::with_capacity` does
-- not panic. The recursion of `parse_resp` takes fuel; its end is `panic` too.
use undermoon.Prelude.{
  ℕ, zero, suc, ◌+◌, ◌-◌, true, false, Option, [], ◌∷◌, length, take, drop, ltb, ◌==◌, Result, ok,
  err, panic, ◌>>=◌, ◌>>◌, ok_or, refuse_if, if◌then◌else◌,
}
use undermoon.Resp.{
  Bytes, Resp, Array, Resps, BulkStr, DataIndex, IndexedResp, error, simple, bulk, integer, array,
  no_items, item, advance, advance_bulk, advance_array, advance_index, get_range, get_from,
}

pub data ParseError : Type 0 where
  invalid_protocol not_enough_data unexpected_err : ParseError

abbrev pub Parse {ℓ} : Type ℓ → Type ℓ
Parse A = Result ParseError A

-- An i64: `negsuc n` is -(n + 1).
pub data ℤ : Type 0 where
  pos : ℕ → ℤ
  negsuc : ℕ → ℤ

module _ (memchr : ℕ → Bytes → Option ℕ) (btoi : Bytes → Option ℤ) (capacity : ℕ) where
  unfoldable pub parse_line : Bytes → Parse (DataIndex × ℕ)
  parse_line buf = do
    lf_index ← ok_or (memchr b'\n' buf) not_enough_data
    refuse_if (lf_index == 0) invalid_protocol
    ok (record { start = 0; end = lf_index + 1 - 2 }, lf_index + 1)

  unfoldable pub parse_len : Bytes → Parse (ℤ × ℕ)
  parse_len buf = do
    (data_index, consumed) ← parse_line buf
    next_buf ← ok_or (get_range buf data_index) unexpected_err
    len ← ok_or (btoi next_buf) invalid_protocol
    ok (len, consumed)

  unfoldable pub bulk_of_len : Bytes → ℤ × ℕ → Parse (BulkStr DataIndex × ℕ)
  bulk_of_len buf (negsuc n, consumed) = ok (BulkStr.nil, consumed)
  bulk_of_len buf (pos content_size, consumed) = do
    refuse_if (ltb (length buf) (consumed + content_size + 2)) not_enough_data
    ok (
      BulkStr.str (record { start = consumed; end = consumed + content_size }),
      consumed + content_size + 2,
    )

  unfoldable pub parse_bulk_str : Bytes → Parse (BulkStr DataIndex × ℕ)
  parse_bulk_str buf = do len ← parse_len buf; bulk_of_len buf len

  -- `n` more elements, each read by `parse`.
  unfoldable pub parse_items :
      (Bytes → Parse (Resp DataIndex × ℕ)) → ℕ → Bytes → ℕ → Parse (Resps DataIndex × ℕ)
  parse_items parse zero buf consumed = ok (no_items, consumed)
  parse_items parse (suc n) buf consumed = do
    next_buf ← ok_or (get_from buf consumed) invalid_protocol
    (v, element_consumed) ← parse next_buf
    (vs, total) ← parse_items parse n buf (consumed + element_consumed)
    ok (item (advance consumed v) vs, total)

  unfoldable pub array_of_len :
      (Bytes → Parse (Resp DataIndex × ℕ)) → Bytes → ℤ × ℕ → Parse (Array DataIndex × ℕ)
  array_of_len parse buf (negsuc n, consumed) = ok (Array.nil, consumed)
  array_of_len parse buf (pos array_size, consumed) = elim (ltb capacity array_size) [
    | true ↦ panic
    | false ↦ do (vs, total) ← parse_items parse array_size buf consumed; ok (Array.arr vs, total)
  ]

  unfoldable pub parse_array :
      (Bytes → Parse (Resp DataIndex × ℕ)) → Bytes → Parse (Array DataIndex × ℕ)
  parse_array parse buf = do len ← parse_len buf; array_of_len parse buf len

  -- The `match` on the prefix. A line is read by `parse_line`, whatever its kind.
  unfoldable pub parse_kind :
      (Bytes → Parse (Resp DataIndex × ℕ)) → ℕ → Bytes → Parse (Resp DataIndex × ℕ)
  parse_kind parse prefix next_buf =
      if prefix == b'$'
      then (do (v, consumed) ← parse_bulk_str next_buf; ok (bulk (advance_bulk 1 v), 1 + consumed))
      else if prefix == b'+'
      then (do (v, consumed) ← parse_line next_buf; ok (simple (advance_index 1 v), 1 + consumed))
      else if prefix == b':'
      then (do (v, consumed) ← parse_line next_buf; ok (integer (advance_index 1 v), 1 + consumed))
      else if prefix == b'-'
      then (do (v, consumed) ← parse_line next_buf; ok (error (advance_index 1 v), 1 + consumed))
      else if prefix == b'*'
      then (do
        (v, consumed) ← parse_array parse next_buf
        ok (array (advance_array 1 v), 1 + consumed))
      else err invalid_protocol

  unfoldable pub parse_resp : ℕ → Bytes → Parse (Resp DataIndex × ℕ)
  parse_resp zero buf = panic
  parse_resp (suc fuel) [] = err not_enough_data
  parse_resp (suc fuel) (prefix ∷ next_buf) = parse_kind (parse_resp fuel) prefix next_buf

  -- The value, and the buffer behind it.
  unfoldable pub parse_indexed_resp : ℕ → Bytes → Parse (IndexedResp × Bytes)
  parse_indexed_resp fuel buf = do
    (resp, consumed) ← parse_resp fuel buf
    ok (record { resp = resp; content = take consumed buf }, drop consumed buf)
