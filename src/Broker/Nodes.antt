-- ===== src/Broker/Nodes.antt =====
-- src/broker/update.rs: clusters come and go, and grow and shrink by chunks of free proxies. An operation
-- returns the store that it leaves and its result. `fits` is the capacity of the third-party `ArrayString`.
pub mod Keeps
pub mod Founded
pub mod Freed
pub mod Grown
use undermoon.Prelude.{
  ℕ, zero, suc, ◌+◌, ◌-◌, ◌*◌, ◌/◌, ◌%◌, Bool, true, false, not, ◌||◌, ◌&&◌, Option, none, some,
  List, [], ◌∷◌, ◌++◌, length, drop, any, ltb, leb, ◌==◌, if◌then◌else◌, add_word, ok, err, panic,
  ◌>>=◌, ◌>>◌, refuse_if,
}
use undermoon.Dict
use undermoon.Dict.{Dict}
use undermoon.Cluster.{Text, ClusterName, ClusterConfig}
use undermoon.Cluster.Nodes.{Node, Cluster}
use undermoon.Broker.Store.{
  Two, ChunkRolePosition, ChunkStore, ClusterStore, invalid_cluster_name, cluster_not_found,
  already_existed, invalid_node_num, one_cluster_already_existed, node_num_already_enough,
  migration_running, free_node_not_found,
}
use undermoon.Broker.Migrate.{Run, is_none}
use undermoon.Broker.MetaStore.{
  ProxyResource, MetaStore, Outcome, bump_global_epoch, cluster_name_from, is_chunk_migrating,
  is_empty,
}
use undermoon.Broker.Views.{get_proxy_addresses}
use undermoon.Broker.Chunks.{proxy_resource_to_chunk_store}
use undermoon.Broker.Proxies.{tag_proxies, occupy_proxies, text_mem}
use undermoon.Broker.Allocate.{generate_chunks}
use undermoon.Broker.Query.{cluster_store_to_cluster, node_proxies}

-- The chunks of `add_cluster`, or why there are none.
unfoldable pub plan_cluster : MetaStore → ClusterName → ℕ → Run (List ChunkStore)
plan_cluster store name node_num = do
  refuse_if (Dict.contains_key name store.clusters) already_existed
  refuse_if (not (node_num % 4 == 0)) invalid_node_num
  refuse_if (node_num / 2 == 0) invalid_node_num
  pairs ← generate_chunks store (node_num / 2) 0
  proxy_resource_to_chunk_store pairs true

-- Puts the cluster into the store once its proxies are tagged.
abbrev pub put_occupied :
    MetaStore → ClusterName → ClusterStore → Run (Dict ProxyResource) → Outcome
put_occupied store name cluster (ok proxies) = (
  record store { all_proxies = proxies; clusters = Dict.insert name cluster store.clusters },
  ok tt,
)
put_occupied store name cluster (err e) = (store, err e)
put_occupied store name cluster panic = (store, panic)

abbrev pub create_cluster :
    MetaStore → ClusterName → ClusterConfig → Run (List ChunkStore) → Outcome
create_cluster store name config (ok chunks) =
    let bumped = bump_global_epoch store in
    put_occupied bumped name
      (record { epoch = bumped.global_epoch; name = name; chunks = chunks; config = config })
      (occupy_proxies name (get_proxy_addresses chunks) bumped.all_proxies)
create_cluster store name config (err e) = (store, err e)
create_cluster store name config panic = (store, panic)

abbrev pub remove_found_cluster : MetaStore → ClusterName → Option ClusterStore → Outcome
remove_found_cluster store name none = (store, err cluster_not_found)
remove_found_cluster store name (some cluster) = (
  bump_global_epoch (record store {
    clusters = Dict.remove name store.clusters;
    all_proxies = tag_proxies none (get_proxy_addresses cluster.chunks) store.all_proxies;
  }),
  ok tt,
)

-- The new chunks of `auto_add_nodes`.
unfoldable pub plan_nodes : MetaStore → ClusterStore → ℕ → Run (List ChunkStore)
plan_nodes store cluster num = do
  refuse_if (any is_chunk_migrating cluster.chunks) migration_running
  refuse_if (not (num % 4 == 0)) invalid_node_num
  refuse_if (num / 2 == 0) invalid_node_num
  pairs ← generate_chunks store (num / 2) (length cluster.chunks * 2)
  proxy_resource_to_chunk_store pairs false

-- `nodes.get((nodes.len() - num)..).expect(..)`.
abbrev pub last_nodes : ℕ → List Node → Run (List Node)
last_nodes num nodes =
    if ltb (length nodes) num then panic else ok (drop (length nodes - num) nodes)

abbrev pub NodesOutcome : Type 0
NodesOutcome = MetaStore × Run (List Node)

abbrev pub tag_nodes : MetaStore → ℕ → List Node → Run (Dict ProxyResource) → NodesOutcome
tag_nodes store num nodes (ok proxies) =
    (record store { all_proxies = proxies }, last_nodes num nodes)
tag_nodes store num nodes (err e) = (store, err e)
tag_nodes store num nodes panic = (store, panic)

abbrev pub show_nodes : MetaStore → ClusterName → ℕ → Run Cluster → NodesOutcome
show_nodes store name num (ok cluster) =
    tag_nodes store num cluster.nodes
      (occupy_proxies name (node_proxies cluster.nodes) store.all_proxies)
show_nodes store name num (err e) = (store, err e)
show_nodes store name num panic = (store, panic)

abbrev pub grow_cluster :
    MetaStore → ClusterName → ClusterStore → ℕ → Run (List ChunkStore) → NodesOutcome
grow_cluster store name cluster num (ok chunks) =
    let bumped = bump_global_epoch store in
    let grown : ClusterStore = record cluster {
      chunks = cluster.chunks ++ chunks;
      epoch = bumped.global_epoch;
    } in
    show_nodes (record bumped { clusters = Dict.insert name grown store.clusters }) name num
      (cluster_store_to_cluster grown)
grow_cluster store name cluster num (err e) = (store, err e)
grow_cluster store name cluster num panic = (store, panic)

abbrev pub add_nodes_found : MetaStore → ClusterName → ℕ → Option ClusterStore → NodesOutcome
add_nodes_found store name num none = (store, err cluster_not_found)
add_nodes_found store name num (some cluster) =
    grow_cluster store name cluster num (plan_nodes store cluster num)

-- The test of `retain`.
abbrev pub has_slots : ChunkStore → Bool
has_slots chunk =
    not (is_none chunk.stable_slots.first)
    || not (is_none chunk.stable_slots.second)
    || is_chunk_migrating chunk

-- What `retain` keeps, and what it hands to `removed_chunks`.
unfoldable pub kept_chunks : List ChunkStore → List ChunkStore
kept_chunks [] = []
kept_chunks (chunk ∷ chunks) =
    if has_slots chunk then chunk ∷ kept_chunks chunks else kept_chunks chunks

unfoldable pub removed_chunks : List ChunkStore → List ChunkStore
removed_chunks [] = []
removed_chunks (chunk ∷ chunks) =
    if has_slots chunk then removed_chunks chunks else chunk ∷ removed_chunks chunks

-- The chunks are retained in place before it is known whether some chunk goes.
abbrev pub delete_free_chunks : MetaStore → ClusterName → ClusterStore → Outcome
delete_free_chunks store name cluster =
    let retained : ClusterStore = record cluster { chunks = kept_chunks cluster.chunks } in
    let new_epoch = add_word store.global_epoch 1 in
    if is_empty (removed_chunks cluster.chunks)
    then (
      record store { clusters = Dict.insert name retained store.clusters },
      err free_node_not_found,
    )
    else (
      bump_global_epoch (record store {
        clusters = Dict.insert name (record retained { epoch = new_epoch }) store.clusters;
        all_proxies =
            tag_proxies none (get_proxy_addresses (removed_chunks cluster.chunks))
              store.all_proxies;
      }),
      ok tt,
    )

abbrev pub delete_nodes_found : MetaStore → ClusterName → Option ClusterStore → Outcome
delete_nodes_found store name none = (store, err cluster_not_found)
delete_nodes_found store name (some cluster) =
    if any is_chunk_migrating cluster.chunks
    then (store, err migration_running)
    else delete_free_chunks store name cluster

-- The errors that `auto_delete_free_nodes_if_exists` swallows.
abbrev pub forgive : Outcome → Outcome
forgive (store, err migration_running) = (store, ok tt)
forgive (store, err free_node_not_found) = (store, ok tt)
forgive outcome = outcome

abbrev pub any_failed : MetaStore → Two Text → Bool
any_failed store addresses =
    text_mem addresses.first store.failed_proxies
    || Dict.contains_key addresses.first store.failures
    || text_mem addresses.second store.failed_proxies
    || Dict.contains_key addresses.second store.failures

unfoldable pub balance_chunks : MetaStore → List ChunkStore → List ChunkStore
balance_chunks store [] = []
balance_chunks store (chunk ∷ chunks) =
    (if any_failed store chunk.proxy_addresses
      then chunk
      else record chunk { role_position = ChunkRolePosition.normal })
    ∷ balance_chunks store chunks

abbrev pub balance_found : MetaStore → ClusterName → Option ClusterStore → Outcome
balance_found store name none = (store, err cluster_not_found)
balance_found store name (some cluster) = (
  bump_global_epoch (record store {
    clusters =
        Dict.insert name
          (record cluster {
            chunks = balance_chunks store cluster.chunks;
            epoch = add_word store.global_epoch 1;
          })
          store.clusters;
  }),
  ok tt,
)

module _ (fits : Text → Bool) where
  unfoldable pub add_cluster : MetaStore → Text → ℕ → ClusterConfig → Outcome
  add_cluster store name node_num config =
      if store.enable_ordered_proxy && not (is_empty store.clusters)
      then (store, err one_cluster_already_existed)
      else elim (cluster_name_from fits name) [
        | none ↦ (store, err invalid_cluster_name)
        | some name ↦ create_cluster store name config (plan_cluster store name node_num)
      ]

  unfoldable pub remove_cluster : MetaStore → Text → Outcome
  remove_cluster store name = elim (cluster_name_from fits name) [
    | none ↦ (store, err invalid_cluster_name)
    | some name ↦ remove_found_cluster store name (Dict.lookup name store.clusters)
  ]

  unfoldable pub auto_add_nodes : MetaStore → Text → ℕ → NodesOutcome
  auto_add_nodes store name num = elim (cluster_name_from fits name) [
    | none ↦ (store, err invalid_cluster_name)
    | some name ↦ add_nodes_found store name num (Dict.lookup name store.clusters)
  ]

  abbrev pub scale_up_found : MetaStore → Text → ℕ → Option ClusterStore → NodesOutcome
  scale_up_found store name expected_num none = (store, err cluster_not_found)
  scale_up_found store name expected_num (some cluster) =
      if leb expected_num (length cluster.chunks * 4)
      then (store, err node_num_already_enough)
      else auto_add_nodes store name (expected_num - length cluster.chunks * 4)

  unfoldable pub auto_scale_up_nodes : MetaStore → Text → ℕ → NodesOutcome
  auto_scale_up_nodes store name expected_num = elim (cluster_name_from fits name) [
    | none ↦ (store, err invalid_cluster_name)
    | some n ↦ scale_up_found store name expected_num (Dict.lookup n store.clusters)
  ]

  unfoldable pub auto_delete_free_nodes : MetaStore → Text → Outcome
  auto_delete_free_nodes store name = elim (cluster_name_from fits name) [
    | none ↦ (store, err invalid_cluster_name)
    | some name ↦ delete_nodes_found store name (Dict.lookup name store.clusters)
  ]

  unfoldable pub auto_delete_free_nodes_if_exists : MetaStore → Text → Outcome
  auto_delete_free_nodes_if_exists store name = forgive (auto_delete_free_nodes store name)

  unfoldable pub balance_masters : MetaStore → Text → Outcome
  balance_masters store name = elim (cluster_name_from fits name) [
    | none ↦ (store, err invalid_cluster_name)
    | some name ↦ balance_found store name (Dict.lookup name store.clusters)
  ]
