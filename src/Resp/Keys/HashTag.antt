-- ===== src/Resp/Keys/HashTag.antt =====
-- src/common/utils.rs: the slot of a key with a hash tag, and commands with words put in front.
use mathlib.Core.Option
use undermoon.Prelude.{
  ℕ, ◌+◌, ◌%◌, ◌≤◌, ◌<◌, ◌≡◌, ◌≢◌, refl, sym, ap, ◌∙◌, true, false, some, List, [], ◌∷◌, ◌++◌,
  get_elem?, zero, suc, append_assoc, length, length-append, All, arith, ◌==◌, le→leb, drop_at,
  slot_num, min,
}
use undermoon.Resp.{Bytes, Array, Resps, array, get_from, count_items}
use undermoon.Resp.Slice.{get_range_at}
use undermoon.Resp.Keys.{
  position, get_hash_tag, generate_slot, opened_tag, closed_tag, left_trim_array,
  array_append_front, put_front, drop_items, get_item, bulk_content, get_command_element,
  get_command_len,
}

not_same : (x b : ℕ) → x ≢ b → (x == b) ≡ false
not_same x b h = ground arith

same : (b : ℕ) → (b == b) ≡ true
same b = ground arith

position_first :
    (b : ℕ) (pre rest : Bytes)
    → All (λ x. x ≢ b) pre
    → position b (pre ++ b ∷ rest) ≡ some (length pre)
unfolding position
position_first b [] rest h = rw (same b) refl
position_first b (x ∷ pre) rest (h, hs) = rw (not_same x b h, position_first b pre rest hs) refl

-- A key that is a prefix without `{`, then `{`, a tag that is not empty and holds no `}`, then `}` and
-- anything, has that tag as its hash tag, and its slot is the checksum of the tag modulo the number of
-- slots, whatever the rest of the key is.
pub generate_slot-get_hash_tag :
    (crc : Bytes → ℕ) (pre : Bytes) (t : ℕ) (tag post : Bytes)
    → All (λ x. x ≢ b'{') pre
    → All (λ x. x ≢ b'}') (t ∷ tag)
    → let key = pre ++ b'{' ∷ (t ∷ tag ++ b'}' ∷ post) in
      (get_hash_tag key ≡ some (t ∷ tag))
      × (generate_slot crc key ≡ some (crc (t ∷ tag) % slot_num))
unfolding generate_slot get_hash_tag
generate_slot-get_hash_tag crc pre t tag post h k =
    let whole = t ∷ tag ++ b'}' ∷ post in
    let key = pre ++ b'{' ∷ whole in
    let shape : key ≡ (pre ++ b'{' ∷ []) ++ whole = sym (append_assoc pre (b'{' ∷ []) whole) in
    let size : length pre + 1 ≡ length (pre ++ b'{' ∷ []) = sym (length-append pre (b'{' ∷ [])) in
    let inside : length pre + 1 ≤ length key = omega (arith, length-append pre (b'{' ∷ whole)) in
    let rest : get_from key (length pre + 1) ≡ some whole =
      rw (le→leb (length pre + 1) (length key) inside, drop_at (pre ++ b'{' ∷ []) whole shape size)
        refl in
    let found : get_hash_tag key ≡ some (t ∷ tag) =
      rw (position_first b'{' pre whole h, get_hash_tag)
        (ap (opened_tag key (length pre)) rest
          ∙ ap (closed_tag key (length pre)) (position_first b'}' (t ∷ tag) post k)
          ∙ get_range_at (pre ++ b'{' ∷ []) (t ∷ tag) (b'}' ∷ post) key (length pre + 1) shape
              size) in
    (found, ap (Option.map (λ s. crc s % slot_num)) found)

count_items-put_front :
    (ss : List Bytes) (rs : Resps Bytes)
    → count_items (put_front ss rs) ≡ length ss + count_items rs
unfolding count_items
count_items-put_front [] rs = omega arith
count_items-put_front (s ∷ ss) rs = omega (arith, count_items-put_front ss rs)

drop_items-put_front :
    (ss : List Bytes) (rs : Resps Bytes) → drop_items (length ss) (put_front ss rs) ≡ rs
unfolding drop_items
drop_items-put_front [] rs = refl
drop_items-put_front (s ∷ ss) rs = drop_items-put_front ss rs

-- An element behind the ones in front is found at its place shifted by their number.
get_item-put_front :
    (ss : List Bytes) (rs : Resps Bytes) (i k : ℕ)
    → k ≡ length ss + i
    → get_item (put_front ss rs) k ≡ get_item rs i
unfolding get_item
get_item-put_front [] rs i k h = ap (get_item rs) (h ∙ omega arith)
get_item-put_front (s ∷ ss) rs i zero h = absurd (omega arith)
get_item-put_front (s ∷ ss) rs i (suc k) h = get_item-put_front ss rs i k (omega arith)

bulk_content-put_front :
    (ss : List Bytes) (rs : Resps Bytes) (i : ℕ)
    → i < length ss
    → bulk_content (get_item (put_front ss rs) i) ≡ get_elem? ss i
unfolding get_item
bulk_content-put_front [] rs i h = elim h [ ]
bulk_content-put_front (s ∷ ss) rs zero h = refl
bulk_content-put_front (s ∷ ss) rs (suc i) h = bulk_content-put_front ss rs i (omega arith)

-- For every array and list of words, putting the words in front succeeds. The elements of the
-- longer command are then the words, followed by the elements that were there, and trimming as many from
-- the left as there are words gives the array back with its length.
pub left_trim_array-array_append_front :
    (rs : Resps Bytes) (front : List Bytes)
    → let (after, done) = array_append_front (array (Array.arr rs)) front in
      (done ≡ true)
      × (get_command_len after ≡ some (length front + count_items rs))
      × ((i : ℕ) → i < length front → get_command_element after i ≡ get_elem? front i)
      × ((i : ℕ)
          → get_command_element after (length front + i)
            ≡ get_command_element (array (Array.arr rs)) i)
      × (left_trim_array after (length front) ≡ (array (Array.arr rs), some (count_items rs)))
unfolding left_trim_array array_append_front get_command_element get_command_len
left_trim_array-array_append_front rs front =
    let all : min (length front) (count_items (put_front front rs)) ≡ length front =
      ground (arith, count_items-put_front front rs) in
    (
      refl,
      ap some (count_items-put_front front rs),
      λ i h. bulk_content-put_front front rs i h,
      λ i. ap bulk_content (get_item-put_front front rs i (length front + i) refl),
      ap (λ r. (array (Array.arr r), some (count_items r)))
          (ap (λ n. drop_items n (put_front front rs)) all ∙ drop_items-put_front front rs),
    )
