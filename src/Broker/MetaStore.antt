-- ===== src/Broker/MetaStore.antt =====
-- src/broker/store.rs: `MetaStore`, and the operations of src/broker/migrate.rs on it that start a
-- scale out. An operation returns the store that it leaves and its result, since some of
-- them bump the epoch before they fail. The capacity of the third-party `ArrayString` is the parameter
-- `fits`.
pub mod ScaleOut
use undermoon.Prelude.{
  ℕ, ◌+◌, ◌≡◌, Bool, true, false, not, ◌||◌, ◌&&◌, Option, none, some, List, [], ◌∷◌, any, leb, ltb,
  ◌==◌, if◌then◌else◌, add_word, Result, ok, err, panic, ◌>>=◌, ◌>>◌, refuse_if, max,
}
use undermoon.Dict
use undermoon.Dict.{Dict}
use undermoon.Cluster.{Text, ClusterName}
use undermoon.Broker.Store.{
  Two, ChunkStore, ClusterStore, MetaStoreError, invalid_cluster_name, cluster_not_found,
  slots_already_even, migration_running, small_epoch, invalid_meta_version,
}
use undermoon.Broker.Migrate.{Run, is_none, remove_slots_from_src}
use undermoon.Broker.Assign.{assign_dst_slots}

pub record ProxyResource : Type 0 where
  pub proxy_address : Text
  pub node_addresses : Two Text
  pub host : Text
  pub index : ℕ
  pub cluster : Option ClusterName

-- The reporters of a failure and their times, in seconds.
pub record MetaStore : Type 0 where
  pub version : Text
  pub global_epoch : ℕ
  pub clusters : Dict ClusterStore
  pub all_proxies : Dict ProxyResource
  pub failed_proxies : List Text
  pub failures : Dict (Dict ℕ)
  pub enable_ordered_proxy : Bool

abbrev pub Outcome : Type 0
Outcome = MetaStore × Run (Unit {0})

abbrev pub bump_global_epoch : MetaStore → MetaStore
bump_global_epoch store = record store { global_epoch = add_word store.global_epoch 1 }

-- ASCII letters and digits, `@`, `-` and `_`.
pub is_name_byte : ℕ → Bool
is_name_byte b =
    (leb b'a' b && leb b b'z')
    || (leb b'A' b && leb b b'Z')
    || (leb b'0' b && leb b b'9')
    || b == b'@'
    || b == b'-'
    || b == b'_'

pub all_name_bytes : Text → Bool
all_name_bytes [] = true
all_name_bytes (b ∷ bs) = is_name_byte b && all_name_bytes bs

-- `ClusterName::try_from`.
unfoldable pub cluster_name_from : (Text → Bool) → Text → Option ClusterName
unfolding is_name_byte all_name_bytes
cluster_name_from fits name =
    if all_name_bytes name then (if fits name then some name else none) else none

abbrev pub has_free_master : ChunkStore → Bool
has_free_master chunk = is_none chunk.stable_slots.first || is_none chunk.stable_slots.second

abbrev pub is_empty {ℓ} : {A : Type ℓ} → List A → Bool
is_empty [] = true
is_empty (x ∷ xs) = false

abbrev pub is_chunk_migrating : ChunkStore → Bool
is_chunk_migrating chunk =
    not (is_empty chunk.migrating_slots.first) || not (is_empty chunk.migrating_slots.second)

-- `check_running_tasks`.
abbrev pub check_running_tasks : List ChunkStore → Run (Unit {0})
check_running_tasks chunks = refuse_if (any is_chunk_migrating chunks) migration_running

-- The part of `migrate_slots` that works on the cluster. `print_migration_slot`, which logs the
-- plan, is left out, and so is a panic of its `to_slot_range`.
pub migrate_cluster : ClusterStore → ℕ → Run ClusterStore
migrate_cluster cluster new_epoch = do
  refuse_if (not (any has_free_master cluster.chunks)) slots_already_even
  check_running_tasks cluster.chunks
  (removed, migration_slots) ← remove_slots_from_src cluster new_epoch
  assigned ← assign_dst_slots removed migration_slots
  ok (record assigned { epoch = new_epoch })

-- The store with the changed cluster. Where the work fails the cluster is as it was.
abbrev pub put_cluster : MetaStore → ClusterName → Run ClusterStore → Outcome
put_cluster store name (ok cluster) =
    (record store { clusters = Dict.insert name cluster store.clusters }, ok tt)
put_cluster store name (err e) = (store, err e)
put_cluster store name panic = (store, panic)

abbrev pub with_cluster : MetaStore → ClusterName → (ClusterStore → Run ClusterStore) → Outcome
with_cluster store name work = elim (Dict.lookup name store.clusters) [
  | none ↦ (store, err cluster_not_found)
  | some cluster ↦ put_cluster store name (work cluster)
]

module _ (fits : Text → Bool) where
  pub migrate_slots : MetaStore → Text → Outcome
  migrate_slots store name = elim (cluster_name_from fits name) [
    | none ↦ (store, err invalid_cluster_name)
    | some name ↦
        let bumped = bump_global_epoch store in
        with_cluster bumped name (λ cluster. migrate_cluster cluster bumped.global_epoch)
  ]
