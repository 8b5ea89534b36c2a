-- ===== src/Broker/Store.antt =====
-- src/broker/store.rs: the stored metadata. A fixed array of two or four is a record; a HashMap is
-- an association list (`Dict`), whose order stands for the map's iteration order.
use undermoon.Prelude.{ℕ, zero, suc, Bool, Option, none, some, List, [], ◌∷◌}
use undermoon.Ranges.{RangeList}
use undermoon.Cluster.{Text, ClusterName, ClusterConfig, SlotRange}

-- `[A; 2]` and `[A; 4]`.
pub record Two {ℓ} (A : Type ℓ) : Type ℓ where
  pub first : A
  pub second : A

pub record Four {ℓ} (A : Type ℓ) : Type ℓ where
  pub first : A
  pub second : A
  pub third : A
  pub fourth : A

module _ {ℓ} {A : Type ℓ} where
  abbrev pub get_two : Two A → ℕ → Option A
  get_two t zero = some t.first
  get_two t (suc zero) = some t.second
  get_two t (suc (suc n)) = none

  abbrev pub get_four : Four A → ℕ → Option A
  get_four t zero = some t.first
  get_four t (suc zero) = some t.second
  get_four t (suc (suc zero)) = some t.third
  get_four t (suc (suc (suc zero))) = some t.fourth
  get_four t (suc (suc (suc (suc n)))) = none

  -- The array with the element at the index changed, if the index is valid.
  abbrev pub update_two : Two A → ℕ → (A → A) → Option (Two A)
  update_two t zero f = some (record { first = f t.first; second = t.second })
  update_two t (suc zero) f = some (record { first = t.first; second = f t.second })
  update_two t (suc (suc n)) f = none

  abbrev pub two_list : Two A → List A
  two_list t = t.first ∷ t.second ∷ []

pub data ChunkRolePosition : Type 0 where
  normal first_chunk_master second_chunk_master : ChunkRolePosition

pub record MigrationMetaStore : Type 0 where
  pub epoch : ℕ
  pub src_chunk_index : ℕ
  pub src_chunk_part : ℕ
  pub dst_chunk_index : ℕ
  pub dst_chunk_part : ℕ

pub record MigrationSlotRangeStore : Type 0 where
  pub range_list : RangeList
  pub is_migrating : Bool
  pub meta : MigrationMetaStore

pub record ChunkStore : Type 0 where
  pub role_position : ChunkRolePosition
  pub stable_slots : Two (Option SlotRange)
  pub migrating_slots : Two (List MigrationSlotRangeStore)
  pub proxy_addresses : Two Text
  pub hosts : Two Text
  pub node_addresses : Four Text

pub record ClusterStore : Type 0 where
  pub epoch : ℕ
  pub name : ClusterName
  pub chunks : List ChunkStore
  pub config : ClusterConfig

pub record MigrationSlots : Type 0 where
  pub ranges : RangeList
  pub meta : MigrationMetaStore

pub data MetaStoreError : Type 0 where
  in_use not_in_use no_available_resource resource_not_balance already_existed cluster_not_found
        free_node_not_found free_node_found proxy_not_found invalid_node_num node_num_already_enough
        invalid_cluster_name invalid_migration_task invalid_proxy_address migration_task_not_found
        migration_running slots_already_even invalid_meta_version small_epoch missing_index
        proxy_resource_out_of_order ordered_proxy_enabled one_cluster_already_existed proxy_not_sync
        node_number_changing external retry empty_external_version external_timeout :
      MetaStoreError
  invalid_config : Text → Text → Text → MetaStoreError
