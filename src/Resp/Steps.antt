-- ===== src/Resp/Steps.antt =====
-- Reading the parts of a printed value, in src/protocol/stateless.rs.
use undermoon.Prelude.{
  ℕ, suc, ◌+◌, ◌^◌, ◌≤◌, ◌<◌, ◌≡◌, ◌≢◌, refl, ap₂, subst, false, Option, some, [], ◌∷◌, ◌++◌,
  append_assoc, length, length-append, arith, max, ltb, ◌==◌, All, All-append, ok,
}
use undermoon.Resp.{
  Bytes, Resp, Array, Resps, BulkStr, DataIndex, error, simple, bulk, integer, array, no_items,
  item, count_items, get_from, advance,
}
use undermoon.Resp.Decimal.{to_decimal, to_decimal-IsDigit, IsDigit}
use undermoon.Resp.Encode.{crlf}
use undermoon.Resp.Parse.{
  ℤ, pos, negsuc, Parse, parse_line, parse_len, bulk_of_len, parse_bulk_str, parse_items,
  array_of_len, parse_array,
}
use undermoon.Resp.Layout.{span}
use undermoon.Resp.Slice.{get_range_at}

-- What the code relies on: `memchr` finds the first occurrence, and `btoi` reads decimal numerals that
-- fit an i64, and the numeral -1.
pub record IsScanner (memchr : ℕ → Bytes → Option ℕ) (btoi : Bytes → Option ℤ) : Type 0 where
  pub finds_first :
      (b : ℕ) (pre rest : Bytes)
      → All (λ x. x ≢ b) pre
      → memchr b (pre ++ b ∷ rest) ≡ some (length pre)
  pub reads_decimal : (n : ℕ) → n < 2 ^ 63 → btoi (to_decimal n) ≡ some (pos n)
  pub reads_minus_one : btoi (b'-' ∷ b'1' ∷ []) ≡ some (negsuc 0)

abbrev pub NoLf : Bytes → Type 0
NoLf = All (λ x. x ≢ b'\n')

-- What can be sent: a line holds no line feed, and lengths fit an i64 and a vector.
unfoldable mutual
  pub IsWire : ℕ → Resp Bytes → Type 0
  IsWire cap (error s) = NoLf s
  IsWire cap (simple s) = NoLf s
  IsWire cap (integer s) = NoLf s
  IsWire cap (bulk BulkStr.nil) = Unit {0}
  IsWire cap (bulk (BulkStr.str s)) = length s < 2 ^ 63
  IsWire cap (array a) = IsWireArray cap a

  pub IsWireArray : ℕ → Array Bytes → Type 0
  IsWireArray cap Array.nil = Unit {0}
  IsWireArray cap (Array.arr rs) =
      (count_items rs < 2 ^ 63) × (count_items rs ≤ cap) × AreWire cap rs

  pub AreWire : ℕ → Resps Bytes → Type 0
  AreWire cap no_items = Unit {0}
  AreWire cap (item r rs) = IsWire cap r × AreWire cap rs

-- How deep the arrays nest.
unfoldable mutual
  pub depth : Resp Bytes → ℕ
  depth (array a) = suc (depth_array a)
  depth _ = 1

  pub depth_array : Array Bytes → ℕ
  depth_array Array.nil = 0
  depth_array (Array.arr rs) = depth_items rs

  pub depth_items : Resps Bytes → ℕ
  depth_items no_items = 0
  depth_items (item r rs) = max (depth r) (depth_items rs)

digit_NoLf : (s : Bytes) → All IsDigit s → NoLf s
digit_NoLf [] h = tt
digit_NoLf (b ∷ s) (h, hs) = (omega arith, digit_NoLf s hs)

minus_one_NoLf : NoLf (b'-' ∷ b'1' ∷ [])
minus_one_NoLf = (omega arith, (omega arith, tt))

suc_nonzero : (n : ℕ) → (n + 1 == 0) ≡ false
suc_nonzero n = ground arith

not_less : (a b : ℕ) → b ≤ a → ltb a b ≡ false
not_less a b h = ground arith

module _ (memchr : ℕ → Bytes → Option ℕ) (btoi : Bytes → Option ℤ) (capacity : ℕ)
    (scans : IsScanner memchr btoi) where
  pub parse_line_lem :
      (s rest : Bytes)
      → NoLf s
      → parse_line memchr btoi capacity (s ++ (crlf ++ rest)) ≡ ok (span 0 s, length s + 2)
  unfolding parse_line
  parse_line_lem s rest h =
      let at : memchr b'\n' (s ++ (crlf ++ rest)) ≡ some (length (s ++ 13 ∷ [])) =
        subst (λ t. memchr b'\n' t ≡ some (length (s ++ 13 ∷ []))) (simp append_assoc)
          (scans.finds_first b'\n' (s ++ 13 ∷ []) rest
            (All-append (λ x. x ≢ b'\n') s (13 ∷ []) h (omega arith, tt))) in
      let size : length (s ++ 13 ∷ []) ≡ length s + 1 = length-append s (13 ∷ []) in
      rw (at, size, suc_nonzero (length s))
        (ap₂ (λ x y. ok (record { start = 0; end = x }, y)) (omega arith) (omega arith))

  parse_len_lem :
      (d rest : Bytes) (z : ℤ)
      → NoLf d
      → btoi d ≡ some z
      → parse_len memchr btoi capacity (d ++ (crlf ++ rest)) ≡ ok (z, length d + 2)
  unfolding parse_len
  parse_len_lem d rest z h e =
      rw (parse_line_lem d rest h, get_range_at [] d (crlf ++ rest) _ 0 refl refl, e)

  pub bulk_str_lem :
      (s rest : Bytes)
      → length s < 2 ^ 63
      → let d = to_decimal (length s) in
        parse_bulk_str memchr btoi capacity (d ++ (crlf ++ (s ++ (crlf ++ rest))))
        ≡ ok (BulkStr.str (span (length d + 2) s), length d + 2 + length s + 2)
  unfolding parse_bulk_str bulk_of_len
  bulk_str_lem s rest h =
      let d = to_decimal (length s) in
      let post = crlf ++ (s ++ (crlf ++ rest)) in
      let enough : length d + 2 + length s + 2 ≤ length (d ++ post) =
        omega (arith, length-append d post, length-append s (crlf ++ rest)) in
      rw
        (
          parse_len_lem d (s ++ (crlf ++ rest)) _ (digit_NoLf d (to_decimal-IsDigit (length s)))
              (scans.reads_decimal (length s) h),
          not_less _ _ enough,
        )
        refl

  pub bulk_nil_lem :
      (rest : Bytes)
      → parse_bulk_str memchr btoi capacity ((b'-' ∷ b'1' ∷ []) ++ (crlf ++ rest))
        ≡ ok (BulkStr.nil, 4)
  unfolding parse_bulk_str bulk_of_len
  bulk_nil_lem rest =
      rw (parse_len_lem (b'-' ∷ b'1' ∷ []) rest _ minus_one_NoLf scans.reads_minus_one) refl

  pub array_nil_lem :
      (parse : Bytes → Parse (Resp DataIndex × ℕ)) (rest : Bytes)
      → parse_array memchr btoi capacity parse ((b'-' ∷ b'1' ∷ []) ++ (crlf ++ rest))
        ≡ ok (Array.nil, 4)
  unfolding parse_array array_of_len
  array_nil_lem parse rest =
      rw (parse_len_lem (b'-' ∷ b'1' ∷ []) rest _ minus_one_NoLf scans.reads_minus_one) refl

  pub array_lem :
      (parse : Bytes → Parse (Resp DataIndex × ℕ)) (n : ℕ) (rest : Bytes) (vs : Resps DataIndex)
      (t : ℕ)
      → n < 2 ^ 63
      → n ≤ capacity
      → parse_items memchr btoi capacity parse n
          (to_decimal n ++ (crlf ++ rest))
          (length (to_decimal n) + 2)
        ≡ ok (vs, t)
      → parse_array memchr btoi capacity parse (to_decimal n ++ (crlf ++ rest))
        ≡ ok (Array.arr vs, t)
  unfolding parse_array array_of_len
  array_lem parse n rest vs t small fits e =
      rw
        (parse_len_lem (to_decimal n) rest _ (digit_NoLf _ (to_decimal-IsDigit n))
          (scans.reads_decimal n small))
        (rw (not_less capacity n fits, array_of_len) (rw e refl))

  pub item_lem :
      (parse : Bytes → Parse (Resp DataIndex × ℕ)) (n : ℕ) (buf next : Bytes) (o c t : ℕ)
      (v : Resp DataIndex) (vs : Resps DataIndex)
      → get_from buf o ≡ some next
      → parse next ≡ ok (v, c)
      → parse_items memchr btoi capacity parse n buf (o + c) ≡ ok (vs, t)
      → parse_items memchr btoi capacity parse (suc n) buf o ≡ ok (item (advance o v) vs, t)
  unfolding parse_items
  item_lem parse n buf next o c t v vs found first others = rw (found, first, others) refl
