-- ===== src/Cluster/Config.antt =====
-- src/common/config.rs: how single fields of a cluster's configuration are set, and the map of all of them.
-- `to_lowercase` is an argument.
pub mod RoundTrip
use undermoon.Prelude.{
  ℕ, zero, Bool, true, false, ◌&&◌, Option, none, some, List, [], ◌∷◌, ◌==◌, text_eq, if◌then◌else◌,
  Result, ok, err, panic, ◌>>=◌, ok_or,
}
use undermoon.Dict.{Dict}
use undermoon.Cluster.{Text, CompressionStrategy, MigrationConfig, ClusterConfig}
use undermoon.Cluster.Strings.{parse_number}
use undermoon.Resp.Decimal.{to_decimal}

pub data ConfigError : Type 0 where
  readonly_field field_not_found invalid_value forbidden : ConfigError

-- `ConfigError::to_string`.
abbrev pub error_text : ConfigError → Text
error_text ConfigError.readonly_field =
    b'R' ∷ b'E' ∷ b'A' ∷ b'D' ∷ b'O' ∷ b'N' ∷ b'L' ∷ b'Y' ∷ b'_' ∷ b'F' ∷ b'I' ∷ b'E' ∷ b'L' ∷ b'D'
    ∷ []
error_text ConfigError.field_not_found =
    b'F' ∷ b'I' ∷ b'E' ∷ b'L' ∷ b'D' ∷ b'_' ∷ b'N' ∷ b'O' ∷ b'T' ∷ b'_' ∷ b'F' ∷ b'O' ∷ b'U' ∷ b'N'
    ∷ b'D' ∷ []
error_text ConfigError.invalid_value =
    b'I' ∷ b'N' ∷ b'V' ∷ b'A' ∷ b'L' ∷ b'I' ∷ b'D' ∷ b'_' ∷ b'V' ∷ b'A' ∷ b'L' ∷ b'U' ∷ b'E' ∷ []
error_text ConfigError.forbidden = b'F' ∷ b'O' ∷ b'R' ∷ b'B' ∷ b'I' ∷ b'D' ∷ b'D' ∷ b'E' ∷ b'N' ∷ []

-- The names of the fields and of the strategies.
abbrev pub compression_strategy_text : Text
compression_strategy_text =
    b'c' ∷ b'o' ∷ b'm' ∷ b'p' ∷ b'r' ∷ b'e' ∷ b's' ∷ b's' ∷ b'i' ∷ b'o' ∷ b'n' ∷ b'_' ∷ b's' ∷ b't'
    ∷ b'r' ∷ b'a' ∷ b't' ∷ b'e' ∷ b'g' ∷ b'y' ∷ []

abbrev pub disabled_text : Text
disabled_text = b'd' ∷ b'i' ∷ b's' ∷ b'a' ∷ b'b' ∷ b'l' ∷ b'e' ∷ b'd' ∷ []

abbrev pub set_get_only_text : Text
set_get_only_text =
    b's' ∷ b'e' ∷ b't' ∷ b'_' ∷ b'g' ∷ b'e' ∷ b't' ∷ b'_' ∷ b'o' ∷ b'n' ∷ b'l' ∷ b'y' ∷ []

abbrev pub allow_all_text : Text
allow_all_text = b'a' ∷ b'l' ∷ b'l' ∷ b'o' ∷ b'w' ∷ b'_' ∷ b'a' ∷ b'l' ∷ b'l' ∷ []

abbrev pub max_migration_time_text : Text
max_migration_time_text =
    b'm' ∷ b'a' ∷ b'x' ∷ b'_' ∷ b'm' ∷ b'i' ∷ b'g' ∷ b'r' ∷ b'a' ∷ b't' ∷ b'i' ∷ b'o' ∷ b'n' ∷ b'_'
    ∷ b't' ∷ b'i' ∷ b'm' ∷ b'e' ∷ []

abbrev pub max_blocking_time_text : Text
max_blocking_time_text =
    b'm' ∷ b'a' ∷ b'x' ∷ b'_' ∷ b'b' ∷ b'l' ∷ b'o' ∷ b'c' ∷ b'k' ∷ b'i' ∷ b'n' ∷ b'g' ∷ b'_' ∷ b't'
    ∷ b'i' ∷ b'm' ∷ b'e' ∷ []

abbrev pub scan_interval_text : Text
scan_interval_text =
    b's' ∷ b'c' ∷ b'a' ∷ b'n' ∷ b'_' ∷ b'i' ∷ b'n' ∷ b't' ∷ b'e' ∷ b'r' ∷ b'v' ∷ b'a' ∷ b'l' ∷ []

abbrev pub scan_count_text : Text
scan_count_text = b's' ∷ b'c' ∷ b'a' ∷ b'n' ∷ b'_' ∷ b'c' ∷ b'o' ∷ b'u' ∷ b'n' ∷ b't' ∷ []

abbrev pub migration_prefix : Text
migration_prefix = b'm' ∷ b'i' ∷ b'g' ∷ b'r' ∷ b'a' ∷ b't' ∷ b'i' ∷ b'o' ∷ b'n' ∷ b'_' ∷ []

abbrev pub migration_max_migration_time_text : Text
migration_max_migration_time_text =
    b'm' ∷ b'i' ∷ b'g' ∷ b'r' ∷ b'a' ∷ b't' ∷ b'i' ∷ b'o' ∷ b'n' ∷ b'_' ∷ b'm' ∷ b'a' ∷ b'x' ∷ b'_'
    ∷ b'm' ∷ b'i' ∷ b'g' ∷ b'r' ∷ b'a' ∷ b't' ∷ b'i' ∷ b'o' ∷ b'n' ∷ b'_' ∷ b't' ∷ b'i' ∷ b'm'
    ∷ b'e' ∷ []

abbrev pub migration_max_blocking_time_text : Text
migration_max_blocking_time_text =
    b'm' ∷ b'i' ∷ b'g' ∷ b'r' ∷ b'a' ∷ b't' ∷ b'i' ∷ b'o' ∷ b'n' ∷ b'_' ∷ b'm' ∷ b'a' ∷ b'x' ∷ b'_'
    ∷ b'b' ∷ b'l' ∷ b'o' ∷ b'c' ∷ b'k' ∷ b'i' ∷ b'n' ∷ b'g' ∷ b'_' ∷ b't' ∷ b'i' ∷ b'm' ∷ b'e' ∷ []

abbrev pub migration_scan_interval_text : Text
migration_scan_interval_text =
    b'm' ∷ b'i' ∷ b'g' ∷ b'r' ∷ b'a' ∷ b't' ∷ b'i' ∷ b'o' ∷ b'n' ∷ b'_' ∷ b's' ∷ b'c' ∷ b'a' ∷ b'n'
    ∷ b'_' ∷ b'i' ∷ b'n' ∷ b't' ∷ b'e' ∷ b'r' ∷ b'v' ∷ b'a' ∷ b'l' ∷ []

abbrev pub migration_scan_count_text : Text
migration_scan_count_text =
    b'm' ∷ b'i' ∷ b'g' ∷ b'r' ∷ b'a' ∷ b't' ∷ b'i' ∷ b'o' ∷ b'n' ∷ b'_' ∷ b's' ∷ b'c' ∷ b'a' ∷ b'n'
    ∷ b'_' ∷ b'c' ∷ b'o' ∷ b'u' ∷ b'n' ∷ b't' ∷ []

abbrev pub strategy_of : Text → Option CompressionStrategy
strategy_of s =
    if text_eq s disabled_text
    then some CompressionStrategy.disabled
    else if text_eq s set_get_only_text
    then some CompressionStrategy.set_get_only
    else if text_eq s allow_all_text
    then some CompressionStrategy.allow_all
    else none

-- `CompressionStrategy::to_str`.
abbrev pub strategy_to_str : CompressionStrategy → Text
strategy_to_str CompressionStrategy.disabled = disabled_text
strategy_to_str CompressionStrategy.set_get_only = set_get_only_text
strategy_to_str CompressionStrategy.allow_all = allow_all_text

unfoldable pub starts_with : Text → Text → Bool
starts_with t [] = true
starts_with [] (p ∷ ps) = false
starts_with (b ∷ bs) (p ∷ ps) = b == p && starts_with bs ps

-- `splitn(2, '_').nth(1)`.
unfoldable pub behind_underscore : Text → Option Text
behind_underscore [] = none
behind_underscore (b ∷ bs) = if b == b'_' then some bs else behind_underscore bs

-- A count of zero is refused.
abbrev pub nonzero : ℕ → Result ConfigError ℕ
nonzero n = if n == 0 then err invalid_value else ok n

abbrev pub with_strategy : ClusterConfig → CompressionStrategy → ClusterConfig
with_strategy config strategy = record config { compression_strategy = strategy }

abbrev pub with_migration : ClusterConfig → MigrationConfig → ClusterConfig
with_migration config migration = record config { migration_config = migration }

-- The match of `MigrationConfig::set_field` on the field in lower case.
unfoldable pub set_migration_field :
    MigrationConfig → Text → Text → Result ConfigError MigrationConfig
set_migration_field config field value =
    if text_eq field max_migration_time_text
    then (do
      v ← ok_or (parse_number value) invalid_value
      ok (record config { max_migration_time = v }))
    else if text_eq field max_blocking_time_text
    then (do
      v ← ok_or (parse_number value) invalid_value
      ok (record config { max_blocking_time = v }))
    else if text_eq field scan_interval_text
    then (do v ← ok_or (parse_number value) invalid_value; ok (record config { scan_interval = v }))
    else if text_eq field scan_count_text
    then (do
      v ← ok_or (parse_number value) invalid_value
      n ← nonzero v
      ok (record config { scan_count = n }))
    else err field_not_found

abbrev pub map_err : {E F A : Type 0} → (E → F) → Result E A → Result F A
map_err f (ok a) = ok a
map_err f (err e) = err (f e)
map_err f panic = panic

module _ (to_lowercase : Text → Text) where
  -- The match of `ClusterConfig::set_field` on the field in lower case.
  unfoldable pub set_lower_field : ClusterConfig → Text → Text → Result ConfigError ClusterConfig
  set_lower_field config field value =
      if text_eq field compression_strategy_text
      then (do
        strategy ← ok_or (strategy_of (to_lowercase value)) invalid_value
        ok (with_strategy config strategy))
      else if starts_with field migration_prefix
      then (do
        f ← ok_or (behind_underscore field) field_not_found
        migration ← set_migration_field config.migration_config (to_lowercase f) value
        ok (with_migration config migration))
      else err field_not_found

  unfoldable pub set_field : ClusterConfig → Text → Text → Result ConfigError ClusterConfig
  set_field config field value = set_lower_field config (to_lowercase field) value

  -- The loop of `change_config`, which stops at the first error.
  unfoldable pub set_fields :
      {E : Type 0}
      → (Text → Text → ConfigError → E)
      → ClusterConfig
      → Dict Text
      → Result E ClusterConfig
  set_fields on_error config [] = ok config
  set_fields on_error config ((field, value) ∷ fields) = do
    config' ← map_err (on_error field value) (set_field config field value)
    set_fields on_error config' fields

-- One of the orders in which the source's HashMap may be listed.
unfoldable pub to_str_map : ClusterConfig → Dict Text
to_str_map config =
    (compression_strategy_text, strategy_to_str config.compression_strategy)
    ∷ (migration_max_migration_time_text, to_decimal config.migration_config.max_migration_time)
    ∷ (migration_max_blocking_time_text, to_decimal config.migration_config.max_blocking_time)
    ∷ (migration_scan_interval_text, to_decimal config.migration_config.scan_interval)
    ∷ (migration_scan_count_text, to_decimal config.migration_config.scan_count)
    ∷ []
