-- ===== src/Cluster/Strings/RoundTrip.antt =====
-- What is written of a migration task is read back.
use undermoon.Prelude.{
  ℕ, ◌+◌, ◌^◌, ◌≤◌, ◌<◌, ◌≡◌, ◌⊎◌, inl, inr, refl, sym, ap, ap₂, subst, ◌∙◌, Bool, true, false,
  none, some, List, [], ◌∷◌, ◌++◌, length, leb, ◌==◌, arith, text_eq, word_mod, append_assoc, All,
}
use undermoon.Ranges.{Range, RangeList, range_list}
use undermoon.Ranges.Covers.{Follows, IsCompact}
use undermoon.Ranges.Canonical.{compact_again}
use undermoon.Cluster.{Text, MigrationMeta, SlotRangeTag, MigrationTaskMeta}
use undermoon.Broker.MetaStore.{cluster_name_from}
use undermoon.Resp.Decimal.{
  to_decimal, read_digits, IsDigit, to_decimal-IsDigit, read_digits-to_decimal, length-to_decimal,
}
use undermoon.Cluster.Strings.{
  all_digits, parse_digits, parse_number, split_dash, parse_ends, parse_slot_range, parse_ranges,
  compacted, push_range, compact_with, parse_counted, tag_with, task_named, parse_range_list,
  range_string, range_strings, range_list_to_strings, meta_into_strings, meta_from_strings,
  migrating_tag, importing_tag, slot_range_into_strings, with_meta, without_meta,
  slot_range_from_strings, task_of, task_from_strings, task_into_strings,
}

all_digits-IsDigit : (xs : Text) → All IsDigit xs → all_digits xs ≡ true
unfolding all_digits
all_digits-IsDigit [] h = refl
all_digits-IsDigit (x ∷ xs) ((low, high), h) = ground (arith, all_digits-IsDigit xs h, low, high)

parse_number-IsDigit :
    (xs : Text)
    → All IsDigit xs
    → 0 < length xs
    → read_digits 0 xs < word_mod
    → parse_number xs ≡ some (read_digits 0 xs)
unfolding parse_number parse_digits
parse_number-IsDigit [] h some_digit small = absurd (omega arith)
parse_number-IsDigit (x ∷ xs) ((low, high), h) some_digit small =
    let no_sign : (x == b'+') ≡ false = ground (arith, low) in
    let fits : leb (2 ^ 64) (read_digits 0 (x ∷ xs)) ≡ false = ground (arith, small) in
    rw (no_sign, all_digits-IsDigit (x ∷ xs) ((low, high), h), fits) refl

pub parse_number-to_decimal : (n : ℕ) → n < word_mod → parse_number (to_decimal n) ≡ some n
parse_number-to_decimal n h =
    parse_number-IsDigit (to_decimal n) (to_decimal-IsDigit n) (length-to_decimal n)
      (subst (λ m. m < word_mod) (sym (read_digits-to_decimal n)) h)
    ∙ ap some (read_digits-to_decimal n)

split_dash-IsDigit : (xs ys : Text) → All IsDigit xs → split_dash (xs ++ b'-' ∷ ys) ≡ (xs, some ys)
unfolding split_dash
split_dash-IsDigit [] ys h = refl
split_dash-IsDigit (x ∷ xs) ys ((low, high), h) =
    let no_dash : (x == b'-') ≡ false = ground (arith, low) in
    rw (no_dash, split_dash-IsDigit xs ys h) refl

split_dash-end : (xs : Text) → All IsDigit xs → split_dash xs ≡ (xs, none)
unfolding split_dash
split_dash-end [] h = refl
split_dash-end (x ∷ xs) ((low, high), h) =
    let no_dash : (x == b'-') ≡ false = ground (arith, low) in
    rw (no_dash, split_dash-end xs h) refl

parse_slot_range-range_string :
    (r : Range) → r.start < word_mod → r.end < word_mod → parse_slot_range (range_string r) ≡ some r
unfolding parse_slot_range
parse_slot_range-range_string r h k =
    ap parse_ends
      (split_dash-IsDigit (to_decimal r.start) (to_decimal r.end) (to_decimal-IsDigit r.start))
    ∙ rw
        (
          split_dash-end (to_decimal r.end) (to_decimal-IsDigit r.end),
          parse_number-to_decimal r.start h,
          parse_number-to_decimal r.end k,
        )
        refl

parse_ranges-range_strings :
    (n : ℕ) (rs : RangeList) (it : List Text)
    → Follows n rs
    → parse_ranges (length rs) (range_strings rs ++ it) ≡ some (rs, it)
unfolding parse_ranges range_strings
parse_ranges-range_strings n [] it h = refl
parse_ranges-range_strings n (r ∷ rs) it (low, way, room, h) =
    ap₂ push_range (parse_slot_range-range_string r (omega arith) (omega arith))
      (parse_ranges-range_strings (r.end + 2) rs it h)

-- There is a slot for each range, and a gap behind.
length-Follows :
    (n : ℕ) (r : Range) (rs : RangeList) → Follows n (r ∷ rs) → n + length rs + length rs < word_mod
length-Follows n r [] (low, way, room, h) = omega arith
length-Follows n r (q ∷ rs) (low, way, room, h) = omega (arith, length-Follows (r.end + 2) q rs h)

length-IsCompact : (rs : RangeList) → IsCompact rs → length rs < word_mod
length-IsCompact [] h = omega arith
length-IsCompact (r ∷ []) h = omega arith
length-IsCompact (r ∷ q ∷ rs) h = omega (arith, length-Follows 0 r (q ∷ rs) h)

parse_range_list-to_strings :
    (rs : RangeList) (it : List Text)
    → IsCompact rs
    → parse_range_list (range_list_to_strings rs ++ it) ≡ some (rs, it)
unfolding parse_range_list range_list
parse_range_list-to_strings rs it h =
    ap (λ o. parse_counted o (range_strings rs ++ it))
      (parse_number-to_decimal (length rs) (length-IsCompact rs h))
    ∙ ap compacted (parse_ranges-range_strings 0 rs it h)
    ∙ ap (compact_with it) (compact_again rs h)

meta_from_strings-into_strings :
    (meta : MigrationMeta) (it : List Text)
    → meta.epoch < word_mod
    → meta_from_strings (meta_into_strings meta ++ it) ≡ some (meta, it)
unfolding meta_from_strings
meta_from_strings-into_strings meta it h = rw (parse_number-to_decimal meta.epoch h) refl

-- A text of ASCII digits and capital letters is its own upper case.
abbrev pub IsCapital : ℕ → Type 0
IsCapital b = ((48 ≤ b) × (b ≤ 57)) ⊎ ((65 ≤ b) × (b ≤ 90))

pub record IsUpperCase (to_uppercase : Text → Text) : Type 0 where
  pub capitals : (t : Text) → All IsCapital t → to_uppercase t ≡ t

-- The epoch of the migration's metadata, if there is some, is a u64.
abbrev pub HasEpoch : SlotRangeTag → Type 0
HasEpoch (SlotRangeTag.migrating meta) = meta.epoch < word_mod
HasEpoch (SlotRangeTag.importing meta) = meta.epoch < word_mod
HasEpoch SlotRangeTag.none = Unit {0}

digit_capitals : (t : Text) → All IsDigit t → All IsCapital t
digit_capitals [] h = tt
digit_capitals (b ∷ t) (d, h) = (inl d, digit_capitals t h)

migrating-IsCapital : All IsCapital migrating_tag
migrating-IsCapital = (
  inr (omega arith, omega arith),
  (
    inr (omega arith, omega arith),
    (
      inr (omega arith, omega arith),
      (
        inr (omega arith, omega arith),
        (
          inr (omega arith, omega arith),
          (
            inr (omega arith, omega arith),
            (
              inr (omega arith, omega arith),
              (inr (omega arith, omega arith), (inr (omega arith, omega arith), tt)),
            ),
          ),
        ),
      ),
    ),
  ),
)

importing-IsCapital : All IsCapital importing_tag
importing-IsCapital = (
  inr (omega arith, omega arith),
  (
    inr (omega arith, omega arith),
    (
      inr (omega arith, omega arith),
      (
        inr (omega arith, omega arith),
        (
          inr (omega arith, omega arith),
          (
            inr (omega arith, omega arith),
            (
              inr (omega arith, omega arith),
              (inr (omega arith, omega arith), (inr (omega arith, omega arith), tt)),
            ),
          ),
        ),
      ),
    ),
  ),
)

digits-tag : (xs : Text) (b : ℕ) (t : Text) → All IsDigit xs → 57 < b → text_eq xs (b ∷ t) ≡ false
unfolding text_eq
digits-tag [] b t h k = refl
digits-tag (x ∷ xs) b t ((low, high), h) k = ground (arith, high, k)

module _ (to_uppercase : Text → Text) (upper : IsUpperCase to_uppercase) where
  -- The ranges and the metadata behind a tag.
  with_meta-into_strings :
      (tag : MigrationMeta → SlotRangeTag) (rs : RangeList) (meta : MigrationMeta) (it : List Text)
      → IsCompact rs
      → meta.epoch < word_mod
      → with_meta tag
          (parse_range_list ((range_list_to_strings rs ++ meta_into_strings meta) ++ it))
        ≡ some (record { range_list = rs; tag = tag meta }, it)
  with_meta-into_strings tag rs meta it h k =
      ap (λ l. with_meta tag (parse_range_list l))
        (append_assoc (range_list_to_strings rs) (meta_into_strings meta) it)
      ∙ ap (with_meta tag) (parse_range_list-to_strings rs (meta_into_strings meta ++ it) h)
      ∙ ap (tag_with tag rs) (meta_from_strings-into_strings meta it k)

  tagged_strings :
      (rs : RangeList) (tag : SlotRangeTag) (it : List Text)
      → IsCompact rs
      → HasEpoch tag
      → slot_range_from_strings to_uppercase
          (slot_range_into_strings (record { range_list = rs; tag = tag }) ++ it)
        ≡ some (record { range_list = rs; tag = tag }, it)
  unfolding slot_range_from_strings slot_range_into_strings text_eq
  tagged_strings rs (SlotRangeTag.migrating meta) it h k =
      rw (upper.capitals migrating_tag migrating-IsCapital)
        (with_meta-into_strings SlotRangeTag.migrating rs meta it h k)
  tagged_strings rs (SlotRangeTag.importing meta) it h k =
      rw (upper.capitals importing_tag importing-IsCapital)
        (with_meta-into_strings SlotRangeTag.importing rs meta it h k)
  tagged_strings rs SlotRangeTag.none it h k =
      let count = to_decimal (length rs) in
      let d = to_decimal-IsDigit (length rs) in
      rw
        (
          upper.capitals count (digit_capitals count d),
          digits-tag count b'M' _ d (omega arith),
          digits-tag count b'I' _ d (omega arith),
        )
        (ap without_meta (parse_range_list-to_strings rs it h))

  -- Let upper case leave texts of ASCII digits and capital letters as they are. Let the task have a valid
  -- cluster name, a compacted range list and, if it is tagged with a migration, an epoch in u64. Then
  -- reading the strings of the task, with any other strings behind them, gives the task, and leaves those.
  pub task_from_strings-into_strings :
      (fits : Text → Bool) (task : MigrationTaskMeta) (it : List Text)
      → cluster_name_from fits task.cluster_name ≡ some task.cluster_name
      → IsCompact task.slot_range.range_list
      → HasEpoch task.slot_range.tag
      → task_from_strings to_uppercase fits (task_into_strings task ++ it) ≡ some (task, it)
  unfolding task_from_strings task_into_strings
  task_from_strings-into_strings fits task it valid h k =
      ap (λ o. task_named to_uppercase o (slot_range_into_strings task.slot_range ++ it)) valid
      ∙ ap (task_of to_uppercase task.cluster_name)
          (tagged_strings task.slot_range.range_list task.slot_range.tag it h k)
