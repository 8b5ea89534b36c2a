-- ===== src/Cluster/Tests.antt =====
-- Tests of the equality and the text forms of range lists.
use undermoon.Prelude.{
  ℕ, ◌+◌, ◌-◌, ok, ◌≡◌, ◌↔◌, refl, ap₂, inl, inr, Bool, true, some, [], ◌∷◌, ◌++◌, ◌&&◌, map, leb,
  arith, All, if◌then◌else◌,
}
use undermoon.Ranges.{RangeList}
use undermoon.Ranges.Covers.{covers}
use undermoon.Cluster.{Text, SlotRangeTag, MigrationTaskMeta, range_list_eq}
use undermoon.Cluster.{CompressionStrategy, ClusterConfig}
use undermoon.Cluster.Config.{ConfigError, set_fields, to_str_map}
use undermoon.Cluster.Config.RoundTrip.{IsSmall, IsLowerCase, IsValidConfig, set_fields-to_str_map}
use undermoon.Broker.MetaStore.{cluster_name_from}
use undermoon.Cluster.Strings.{task_from_strings, task_into_strings}
use undermoon.Cluster.Strings.RoundTrip.{IsCapital, IsUpperCase, task_from_strings-into_strings}
use undermoon.Cluster.Equality.{range_list_eq-covers}

abbrev low : RangeList
low = record { start = 0; end = 9 } ∷ record { start = 20; end = 29 } ∷ []

abbrev high : RangeList
high = record { start = 20; end = 29 } ∷ []

range_list_eq-covers_example :
    (range_list_eq low high ≡ true) ↔ ((s : ℕ) → covers low s ≡ covers high s)
range_list_eq-covers_example =
    range_list_eq-covers low high
      (omega arith, omega arith, omega arith, (omega arith, omega arith, omega arith, tt))
      (omega arith, omega arith, omega arith, tt)

-- Upper case of ASCII.
abbrev upper_byte : ℕ → ℕ
upper_byte b = if leb 97 b && leb b 122 then b - 32 else b

abbrev ascii_upper : Text → Text
ascii_upper t = map upper_byte t

upper_byte-IsCapital : (b : ℕ) → IsCapital b → upper_byte b ≡ b
upper_byte-IsCapital b (inl digit) = ground (arith, digit.0, digit.1)
upper_byte-IsCapital b (inr letter) = ground (arith, letter.0, letter.1)

capitals_upper : (t : Text) → All IsCapital t → ascii_upper t ≡ t
capitals_upper [] h = refl
capitals_upper (b ∷ t) (c, h) = ap₂ (λ x xs. x ∷ xs) (upper_byte-IsCapital b c) (capitals_upper t h)

ascii_upper-IsUpperCase : IsUpperCase ascii_upper
ascii_upper-IsUpperCase = record { capitals = capitals_upper }

abbrev task : MigrationTaskMeta
task = record {
  cluster_name = b'd' ∷ b'b' ∷ [];
  slot_range = record {
    range_list = record { start = 0; end = 5 } ∷ record { start = 100; end = 100 } ∷ [];
    tag = SlotRangeTag.migrating (record {
      epoch = 7;
      src_proxy_address = b'a' ∷ [];
      src_node_address = b'b' ∷ [];
      dst_proxy_address = b'c' ∷ [];
      dst_node_address = b'd' ∷ [];
    });
  };
}

abbrev fits : Text → Bool
fits t = true

valid_name : cluster_name_from fits (b'd' ∷ b'b' ∷ []) ≡ some (b'd' ∷ b'b' ∷ [])
unfolding cluster_name_from
valid_name = refl

task_from_strings-into_strings_example :
    task_from_strings ascii_upper fits (task_into_strings task ++ (b'x' ∷ []) ∷ [])
    ≡ some (task, (b'x' ∷ []) ∷ [])
task_from_strings-into_strings_example =
    task_from_strings-into_strings ascii_upper ascii_upper-IsUpperCase fits task ((b'x' ∷ []) ∷ [])
      valid_name
      (omega arith, omega arith, omega arith, (omega arith, omega arith, omega arith, tt))
      (omega arith)

-- Lower case of ASCII.
abbrev lower_byte : ℕ → ℕ
lower_byte b = if leb 65 b && leb b 90 then b + 32 else b

abbrev pub ascii_lower : Text → Text
ascii_lower t = map lower_byte t

lower_byte-IsSmall : (b : ℕ) → IsSmall b → lower_byte b ≡ b
lower_byte-IsSmall b (inl letter) = ground (arith, letter.0, letter.1)
lower_byte-IsSmall b (inr underscore) = ground (arith, underscore)

small_lower : (t : Text) → All IsSmall t → ascii_lower t ≡ t
small_lower [] h = refl
small_lower (b ∷ t) (c, h) = ap₂ (λ x xs. x ∷ xs) (lower_byte-IsSmall b c) (small_lower t h)

pub ascii_lower-IsLowerCase : IsLowerCase ascii_lower
ascii_lower-IsLowerCase = record { small = small_lower }

abbrev pub config_of : CompressionStrategy → ClusterConfig
config_of strategy = record {
  compression_strategy = strategy;
  migration_config = record {
    max_migration_time = 10800;
    max_blocking_time = 10000;
    scan_interval = 500;
    scan_count = 16;
  };
}

pub config_of-IsValidConfig : (strategy : CompressionStrategy) → IsValidConfig (config_of strategy)
config_of-IsValidConfig strategy = record {
  migration_time = omega arith;
  blocking_time = omega arith;
  interval = omega arith;
  count = omega arith;
  some_count = omega arith;
}

abbrev error_only : Text → Text → ConfigError → ConfigError
error_only field value error = error

set_fields-to_str_map_example :
    set_fields ascii_lower error_only
      (config_of CompressionStrategy.disabled)
      (to_str_map (config_of CompressionStrategy.allow_all))
    ≡ ok (config_of CompressionStrategy.allow_all)
set_fields-to_str_map_example =
    set_fields-to_str_map ascii_lower ascii_lower-IsLowerCase error_only
      (config_of CompressionStrategy.allow_all) (config_of CompressionStrategy.disabled)
      (config_of-IsValidConfig CompressionStrategy.allow_all)
