-- ===== src/Resp/Tests.antt =====
-- Tests of the protocol's theorems, with a plain search and a plain reading of numerals.
use undermoon.Prelude.{
  get_elem?, ℕ, suc, ◌+◌, ◌-◌, ◌≤◌, ◌<◌, ◌%◌, slot_num, List, ◌≡◌, ◌≢◌, refl, ap, ◌∙◌, Option, none,
  some, [], ◌∷◌, ◌++◌, length, arith, All, ◌==◌, true, false, if◌then◌else◌, ok,
}
use undermoon.Resp.{
  Bytes, Resp, Resps, Array, BulkStr, IndexedResp, simple, bulk, integer, array, no_items, item,
  to_resp_vec, count_items,
}
use undermoon.Resp.Decimal.{
  to_decimal, read_digits, IsDigit, to_decimal-IsDigit, length-to_decimal, read_digits-to_decimal,
}
use undermoon.Resp.Encode.{resp_to_buf, get_resp_size_hint}
use undermoon.Resp.Parse.{ℤ, pos, negsuc, parse_indexed_resp}
use undermoon.Resp.Steps.{IsScanner, IsWire, depth}
use undermoon.Resp.Keys.{
  get_hash_tag, generate_slot, left_trim_array, array_append_front, get_command_element,
  get_command_len,
}
use undermoon.Resp.Keys.HashTag.{generate_slot-get_hash_tag, left_trim_array-array_append_front}
use undermoon.Resp.SizeHint.{get_resp_size_hint_lem}
use undermoon.Resp.RoundTrip.{parse_indexed_resp-resp_to_buf}

abbrev shift : Option ℕ → Option ℕ
shift none = none
shift (some i) = some (suc i)

unfoldable find : ℕ → Bytes → Option ℕ
find b [] = none
find b (x ∷ xs) = if x == b then some 0 else shift (find b xs)

abbrev read : Bytes → Option ℤ
read [] = none
read (b ∷ bs) =
    if b == b'-' then some (negsuc (read_digits 0 bs - 1)) else some (pos (read_digits 0 (b ∷ bs)))

not_same : (x b : ℕ) → x ≢ b → (x == b) ≡ false
not_same x b h = ground arith

same : (b : ℕ) → (b == b) ≡ true
same b = ground arith

find_first :
    (b : ℕ) (pre rest : Bytes) → All (λ x. x ≢ b) pre → find b (pre ++ b ∷ rest) ≡ some (length pre)
unfolding find
find_first b [] rest h = rw (same b) refl
find_first b (x ∷ pre) rest (h, hs) = rw (not_same x b h, find_first b pre rest hs) refl

read_digit : (d : Bytes) → 0 < length d → All IsDigit d → read d ≡ some (pos (read_digits 0 d))
read_digit [] h a = elim h [ ]
read_digit (b ∷ bs) h (a, ds) = rw (not_same b b'-' (omega arith)) refl

find-IsScanner : IsScanner find read
unfolding read_digits
find-IsScanner = record {
  finds_first = find_first;
  reads_decimal = λ n h.
      read_digit (to_decimal n) (length-to_decimal n) (to_decimal-IsDigit n)
      ∙ ap (λ t. some (pos t)) (read_digits-to_decimal n);
  reads_minus_one = refl;
}

-- A command with a nested array and a null string.
abbrev value : Resp Bytes
value = array (
    Array.arr (
      item (bulk (BulkStr.str (b'G' ∷ b'E' ∷ b'T' ∷ []))) (
        item (array (Array.arr (item (simple (b'a' ∷ [])) no_items)))
          (item (bulk BulkStr.nil) (item (integer (b'7' ∷ [])) no_items)))))

value-depth : depth value ≤ 3
unfolding depth
value-depth = omega arith

value-IsWire : IsWire 16 value
unfolding IsWire count_items
value-IsWire = (
  omega arith,
  omega arith,
  (
    omega arith,
    ((omega arith, omega arith, ((omega arith, tt), tt)), (tt, ((omega arith, tt), tt))),
  ),
)

parse_indexed_resp-resp_to_buf_example :
    let written = (resp_to_buf [] value).0 in
    (x : IndexedResp) × (parse_indexed_resp find read 16 3 (written ++ b'*' ∷ [])
      ≡ ok (x, b'*' ∷ []))
    × (x.content ≡ written)
    × (to_resp_vec x ≡ some value)
parse_indexed_resp-resp_to_buf_example =
    parse_indexed_resp-resp_to_buf find read 16 find-IsScanner value 3 (b'*' ∷ []) value-depth
      value-IsWire

get_resp_size_hint_lem_example :
    (length (resp_to_buf (b'x' ∷ []) value).0 ≡ 1 + get_resp_size_hint value)
    × ((resp_to_buf (b'x' ∷ []) value).1 ≡ get_resp_size_hint value)
get_resp_size_hint_lem_example = get_resp_size_hint_lem (b'x' ∷ []) value

-- `a{t}z`.
abbrev tagged_key : Bytes
tagged_key = b'a' ∷ b'{' ∷ b't' ∷ b'}' ∷ b'z' ∷ []

abbrev words : Resps Bytes
words = item (simple (b'x' ∷ [])) no_items

abbrev front : List Bytes
front = (b'a' ∷ []) ∷ (b'b' ∷ []) ∷ []

generate_slot-get_hash_tag_example :
    (get_hash_tag tagged_key ≡ some (b't' ∷ []))
    × (generate_slot length tagged_key ≡ some (1 % slot_num))
generate_slot-get_hash_tag_example =
    generate_slot-get_hash_tag length (b'a' ∷ []) b't' [] (b'z' ∷ []) (omega arith, tt)
      (omega arith, tt)

left_trim_array-array_append_front_example :
    let (after, done) = array_append_front (array (Array.arr words)) front in
    (done ≡ true)
    × (get_command_len after ≡ some (2 + count_items words))
    × ((i : ℕ) → i < 2 → get_command_element after i ≡ get_elem? front i)
    × ((i : ℕ)
        → get_command_element after (2 + i) ≡ get_command_element (array (Array.arr words)) i)
    × (left_trim_array after 2 ≡ (array (Array.arr words), some (count_items words)))
left_trim_array-array_append_front_example = left_trim_array-array_append_front words front
