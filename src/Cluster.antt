-- ===== src/Cluster.antt =====
-- src/common/cluster.rs and src/common/config.rs: the metadata that broker, coordinator and proxies
-- exchange. A String is the list of its bytes.
pub mod Equality
pub mod Nodes
pub mod Strings
pub mod Config
pub mod Tests
use mathlib.Core.Option
use mathlib.Core.Option.{Option, some}
use undermoon.Prelude.{ℕ, ◌≡◌, Bool, true, false, List, [], ◌&&◌, text_eq, ◌==◌}
use undermoon.Ranges.{Range, RangeList}

abbrev pub Text : Type 0
Text = List ℕ

-- A cluster's name, which `ClusterName::try_from` has accepted.
abbrev pub ClusterName : Type 0
ClusterName = Text

pub record MigrationMeta : Type 0 where
  pub epoch : ℕ
  pub src_proxy_address : Text
  pub src_node_address : Text
  pub dst_proxy_address : Text
  pub dst_node_address : Text

pub data SlotRangeTag : Type 0 where
  migrating : MigrationMeta → SlotRangeTag
  importing : MigrationMeta → SlotRangeTag
  none : SlotRangeTag

unfoldable pub get_migration_meta : SlotRangeTag → Option MigrationMeta
get_migration_meta (migrating meta) = some meta
get_migration_meta (importing meta) = some meta
get_migration_meta none = Option.none

unfoldable pub is_stable : SlotRangeTag → Bool
is_stable none = true
is_stable _ = false

unfoldable pub is_migrating_tag : SlotRangeTag → Bool
is_migrating_tag (migrating meta) = true
is_migrating_tag _ = false

unfoldable pub is_importing_tag : SlotRangeTag → Bool
is_importing_tag (importing meta) = true
is_importing_tag _ = false

pub record SlotRange : Type 0 where
  pub range_list : RangeList
  pub tag : SlotRangeTag

pub record MigrationTaskMeta : Type 0 where
  pub cluster_name : ClusterName
  pub slot_range : SlotRange

pub data CompressionStrategy : Type 0 where
  disabled set_get_only allow_all : CompressionStrategy

pub record MigrationConfig : Type 0 where
  pub max_migration_time : ℕ
  pub max_blocking_time : ℕ
  pub scan_interval : ℕ
  pub scan_count : ℕ

pub record ClusterConfig : Type 0 where
  pub compression_strategy : CompressionStrategy
  pub migration_config : MigrationConfig

-- The derived `==` of ranges and range lists.
abbrev pub range_eq : Range → Range → Bool
range_eq r q = r.start == q.start && r.end == q.end

unfoldable pub range_list_eq : RangeList → RangeList → Bool
range_list_eq List.[] List.[] = true
range_list_eq (List.◌∷◌ r rs) (List.◌∷◌ q qs) = range_eq r q && range_list_eq rs qs
range_list_eq _ _ = false

abbrev meta_eq : MigrationMeta → MigrationMeta → Bool
meta_eq a b =
    a.epoch == b.epoch
    && text_eq a.src_proxy_address b.src_proxy_address
    && text_eq a.src_node_address b.src_node_address
    && text_eq a.dst_proxy_address b.dst_proxy_address
    && text_eq a.dst_node_address b.dst_node_address

abbrev tag_meta_eq : SlotRangeTag → SlotRangeTag → Bool
tag_meta_eq none none = true
tag_meta_eq (migrating a) (migrating b) = meta_eq a b
tag_meta_eq (importing a) (importing b) = meta_eq a b
tag_meta_eq (migrating a) (importing b) = meta_eq a b
tag_meta_eq (importing a) (migrating b) = meta_eq a b
tag_meta_eq _ _ = false

-- `SlotRange::meta_eq`: both sides of one migration are the same to it.
unfoldable pub slot_range_meta_eq : SlotRange → SlotRange → Bool
slot_range_meta_eq a b = range_list_eq a.range_list b.range_list && tag_meta_eq a.tag b.tag
