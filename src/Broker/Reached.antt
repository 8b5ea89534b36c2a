-- ===== src/Broker/Reached.antt =====
-- src/broker/update.rs and src/broker/store.rs: the stores that a new one becomes by reports of failures and
-- by operations on proxies and clusters, in any order and with any arguments, whether they succeed or not.
use undermoon.Prelude.{
  ℕ, ◌≡◌, refl, sym, ap, subst, ◌∙◌, inl, inr, Bool, Option, none, some, List, [], ◌∷◌,
  text_eq_refl, Bool-cases, Option-cases, ok, err, panic, leb, length, ◌*◌, ◌-◌,
}
use undermoon.Dict
use undermoon.Dict.{Dict}
use undermoon.Dict.Laws.{lookup-insert}
use undermoon.Cluster.{Text, ClusterName, ClusterConfig}
use undermoon.Cluster.Nodes.{Node}
use undermoon.Cluster.Config.{set_fields}
use undermoon.Broker.Store.{
  Two, ChunkStore, ClusterStore, in_use, not_in_use, no_available_resource, resource_not_balance,
  already_existed, cluster_not_found, free_node_not_found, free_node_found, proxy_not_found,
  invalid_node_num, node_num_already_enough, invalid_cluster_name, invalid_migration_task,
  invalid_proxy_address, migration_task_not_found, migration_running, slots_already_even,
  invalid_meta_version, small_epoch, missing_index, proxy_resource_out_of_order,
  ordered_proxy_enabled, one_cluster_already_existed, proxy_not_sync, node_number_changing,
  external, retry, empty_external_version, external_timeout, invalid_config,
}
use undermoon.Broker.Migrate.{Run}
use undermoon.Broker.MetaStore.{MetaStore, Outcome, cluster_name_from, bump_global_epoch}
use undermoon.Broker.Views.{get_proxy_addresses, is_cluster_migrating}
use undermoon.Broker.Epochs.{new_store, add_failure, reports}
use undermoon.Broker.Proxies.{add_proxy, remove_proxy}
use undermoon.Broker.Proxies.Consistent.{IsConsistent}
use undermoon.Broker.Nodes.{
  add_cluster, remove_cluster, auto_add_nodes, auto_scale_up_nodes, scale_up_found,
  auto_delete_free_nodes, auto_delete_free_nodes_if_exists, forgive, any_failed, balance_chunks,
  balance_found, balance_masters,
}
use undermoon.Broker.Nodes.Founded.{add_cluster-kept}
use undermoon.Broker.Nodes.Grown.{auto_add_nodes-IsConsistent}
use undermoon.Broker.Nodes.Freed.{auto_delete_free_nodes-IsConsistent}
use undermoon.Broker.Nodes.Keeps.{
  remove_cluster-IsConsistent, add_proxy-IsConsistent, remove_proxy-IsConsistent,
}
use undermoon.Broker.Failover.{replace_failed_proxy}
use undermoon.Broker.Failover.Replaced.{replace_failed_proxy-IsConsistent, same_proxies}
use undermoon.Broker.ChangeConfig.{
  config_refused, put_config, change_found, change_named, change_config,
}

-- A cluster is replaced by one with the same proxies.
put_same :
    (store : MetaStore) (name : ClusterName) (cluster after : ClusterStore)
    → IsConsistent store
    → Dict.lookup name store.clusters ≡ some cluster
    → get_proxy_addresses after.chunks ≡ get_proxy_addresses cluster.chunks
    → IsConsistent
        (bump_global_epoch (record store { clusters = Dict.insert name after store.clusters }))
put_same store name cluster after con there same =
    same_proxies store _ name cluster after con refl
      (λ n differ. lookup-insert name n after store.clusters ∙ rw differ refl) there
      (lookup-insert name name after store.clusters ∙ rw (text_eq_refl name) refl) same

balance_chunks-addresses :
    (store : MetaStore) (chunks : List ChunkStore)
    → get_proxy_addresses (balance_chunks store chunks) ≡ get_proxy_addresses chunks
unfolding balance_chunks get_proxy_addresses
balance_chunks-addresses store [] = refl
balance_chunks-addresses store (chunk ∷ chunks) =
    elim (Bool-cases (any_failed store chunk.proxy_addresses)) [
      | inl failed ↦ rw failed (
          ap (λ xs. chunk.proxy_addresses.first ∷ chunk.proxy_addresses.second ∷ xs)
            (balance_chunks-addresses store chunks))
      | inr well ↦ rw well (
          ap (λ xs. chunk.proxy_addresses.first ∷ chunk.proxy_addresses.second ∷ xs)
            (balance_chunks-addresses store chunks))
    ]

forgive-store : (outcome : Outcome) → (forgive outcome).0 ≡ outcome.0
forgive-store (store, ok u) = refl
forgive-store (store, panic) = refl
forgive-store (store, err e) = elim e as (λ x. (forgive (store, err x)).0 ≡ store) [
  | in_use ↦ refl
  | not_in_use ↦ refl
  | no_available_resource ↦ refl
  | resource_not_balance ↦ refl
  | already_existed ↦ refl
  | cluster_not_found ↦ refl
  | free_node_not_found ↦ refl
  | free_node_found ↦ refl
  | proxy_not_found ↦ refl
  | invalid_node_num ↦ refl
  | node_num_already_enough ↦ refl
  | invalid_cluster_name ↦ refl
  | invalid_migration_task ↦ refl
  | invalid_proxy_address ↦ refl
  | migration_task_not_found ↦ refl
  | migration_running ↦ refl
  | slots_already_even ↦ refl
  | invalid_meta_version ↦ refl
  | small_epoch ↦ refl
  | missing_index ↦ refl
  | proxy_resource_out_of_order ↦ refl
  | ordered_proxy_enabled ↦ refl
  | one_cluster_already_existed ↦ refl
  | proxy_not_sync ↦ refl
  | node_number_changing ↦ refl
  | external ↦ refl
  | retry ↦ refl
  | empty_external_version ↦ refl
  | external_timeout ↦ refl
  | invalid_config k v w ↦ refl
]

reported_failure :
    (now : ℕ) (store : MetaStore) (address reporter : Text)
    → IsConsistent store
    → IsConsistent ((add_failure now store address reporter).0)
unfolding add_failure
reported_failure now store address reporter con =
    elim (Bool-cases (Dict.contains_key reporter (reports store address))) [
      | inl again ↦ rw (again, add_failure) con
      | inr new ↦ rw (new, add_failure) (record { kept = con.kept; agree = con.agree })
    ]

balanced :
    (store : MetaStore) (name : ClusterName) (o : Option ClusterStore)
    → IsConsistent store
    → Dict.lookup name store.clusters ≡ o
    → IsConsistent ((balance_found store name o).0)
balanced store name none con e = con
balanced store name (some cluster) con e =
    put_same store name cluster _ con e (balance_chunks-addresses store cluster.chunks)

put_configured :
    (store : MetaStore) (name : ClusterName) (cluster : ClusterStore) (run : Run ClusterConfig)
    → IsConsistent store
    → Dict.lookup name store.clusters ≡ some cluster
    → IsConsistent ((put_config store name cluster run).0)
put_configured store name cluster (ok config) con e = put_same store name cluster _ con e refl
put_configured store name cluster (err x) con e = con
put_configured store name cluster panic con e = con

module _ (fits : Text → Bool) (to_lowercase : Text → Text)
    (group_by : (Node → Text) → List Node → List (Text × List Node)) where
  pub data Step (store : MetaStore) : MetaStore → Type 0 where
    fail_reported :
        (now : ℕ) (address reporter : Text)
        → Step store ((add_failure now store address reporter).0)
    proxy_added :
        (address : Text) (nodes : Two Text) (host : Option Text) (index : Option ℕ)
        → Step store ((add_proxy store address nodes host index).0)
    proxy_removed : (address : Text) → Step store ((remove_proxy store address).0)
    proxy_replaced :
        (address : Text) (limit : ℕ)
        → Step store ((replace_failed_proxy group_by limit store address).0)
    cluster_added :
        (name : Text) (node_num : ℕ) (config : ClusterConfig)
        → Step store ((add_cluster fits store name node_num config).0)
    cluster_removed : (name : Text) → Step store ((remove_cluster fits store name).0)
    nodes_added : (name : Text) (num : ℕ) → Step store ((auto_add_nodes fits store name num).0)
    scaled_up : (name : Text) (num : ℕ) → Step store ((auto_scale_up_nodes fits store name num).0)
    nodes_deleted : (name : Text) → Step store ((auto_delete_free_nodes fits store name).0)
    nodes_deleted_if_exists :
        (name : Text) → Step store ((auto_delete_free_nodes_if_exists fits store name).0)
    masters_balanced : (name : Text) → Step store ((balance_masters fits store name).0)
    config_changed :
        (name : Text) (config : Dict Text)
        → Step store ((change_config fits to_lowercase store name config).0)

  pub data Reached : MetaStore → Type 0 where
    start : (version : Text) (ordered : Bool) → Reached (new_store version ordered)
    later : {store store' : MetaStore} → Reached store → Step store store' → Reached store'

  scaled :
      (store : MetaStore) (name : Text) (num : ℕ) (o : Option ClusterStore)
      → IsConsistent store
      → IsConsistent ((scale_up_found fits store name num o).0)
  scaled store name num none con = con
  scaled store name num (some cluster) con =
      elim (Bool-cases (leb num (length cluster.chunks * 4))) [
        | inl enough ↦ rw enough con
        | inr more ↦
            rw more
              (auto_add_nodes-IsConsistent fits store name (num - length cluster.chunks * 4) con).0
      ]

  scaled_named :
      (store : MetaStore) (name : Text) (num : ℕ)
      → IsConsistent store
      → IsConsistent ((auto_scale_up_nodes fits store name num).0)
  unfolding auto_scale_up_nodes
  scaled_named store name num con = elim (Option-cases (cluster_name_from fits name)) [
    | inl invalid ↦ rw (invalid, auto_scale_up_nodes) con
    | inr (n, valid) ↦
        rw (valid, auto_scale_up_nodes) (scaled store name num (Dict.lookup n store.clusters) con)
  ]

  balanced_named :
      (store : MetaStore) (name : Text)
      → IsConsistent store
      → IsConsistent ((balance_masters fits store name).0)
  unfolding balance_masters
  balanced_named store name con = elim (Option-cases (cluster_name_from fits name)) [
    | inl invalid ↦ rw (invalid, balance_masters) con
    | inr (n, valid) ↦
        rw (valid, balance_masters) (balanced store n (Dict.lookup n store.clusters) con refl)
  ]

  deleted_if_exists :
      (store : MetaStore) (name : Text)
      → IsConsistent store
      → IsConsistent ((auto_delete_free_nodes_if_exists fits store name).0)
  unfolding auto_delete_free_nodes_if_exists
  deleted_if_exists store name con =
      subst IsConsistent (sym (forgive-store (auto_delete_free_nodes fits store name)))
        (auto_delete_free_nodes-IsConsistent fits store name con).0

  changed :
      (store : MetaStore) (name : ClusterName) (config : Dict Text) (o : Option ClusterStore)
      → IsConsistent store
      → Dict.lookup name store.clusters ≡ o
      → IsConsistent ((change_found fits to_lowercase store name config o).0)
  changed store name config none con e = con
  changed store name config (some cluster) con e =
      elim (Bool-cases (is_cluster_migrating cluster)) [
        | inl moving ↦ rw moving con
        | inr idle ↦ rw idle (
            put_configured store name cluster
              (set_fields to_lowercase config_refused cluster.config config) con e)
      ]

  changed_named :
      (store : MetaStore) (name : Text) (config : Dict Text)
      → IsConsistent store
      → IsConsistent ((change_config fits to_lowercase store name config).0)
  unfolding change_config
  changed_named store name config con = named (cluster_name_from fits name)
    where
      named :
          (o : Option ClusterName)
          → IsConsistent ((change_named fits to_lowercase store config o).0)
      named none = con
      named (some n) = changed store n config (Dict.lookup n store.clusters) con refl

  Step-IsConsistent :
      (store store' : MetaStore) → Step store store' → IsConsistent store → IsConsistent store'
  Step-IsConsistent store _ (fail_reported now address reporter) con =
      reported_failure now store address reporter con
  Step-IsConsistent store _ (proxy_added address nodes host index) con =
      add_proxy-IsConsistent store address nodes host index con
  Step-IsConsistent store _ (proxy_removed address) con =
      remove_proxy-IsConsistent store address con
  Step-IsConsistent store _ (proxy_replaced address limit) con =
      replace_failed_proxy-IsConsistent group_by limit store address con
  Step-IsConsistent store _ (cluster_added name node_num config) con =
      add_cluster-kept fits store name node_num config con
  Step-IsConsistent store _ (cluster_removed name) con =
      (remove_cluster-IsConsistent fits store name con).0
  Step-IsConsistent store _ (nodes_added name num) con =
      (auto_add_nodes-IsConsistent fits store name num con).0
  Step-IsConsistent store _ (scaled_up name num) con = scaled_named store name num con
  Step-IsConsistent store _ (nodes_deleted name) con =
      (auto_delete_free_nodes-IsConsistent fits store name con).0
  Step-IsConsistent store _ (nodes_deleted_if_exists name) con = deleted_if_exists store name con
  Step-IsConsistent store _ (masters_balanced name) con = balanced_named store name con
  Step-IsConsistent store _ (config_changed name config) con = changed_named store name config con

  -- From a new store, every sequence of reports of failures and of operations on proxies and clusters
  -- (added, removed, replaced, grown, shrunk of free nodes, balanced, configured), with any arguments and
  -- whether they succeed or fail, ends in a consistent store: each proxy is kept once and under its own
  -- address, and it is of a cluster just when the chunks of that cluster name it, and then they name it
  -- once.
  pub Reached-IsConsistent : (store : MetaStore) → Reached store → IsConsistent store
  unfolding new_store Dict.lookup
  Reached-IsConsistent _ (start version ordered) = record {
    kept = record { unique = tt; keyed = tt };
    agree = λ a n. refl;
  }
  Reached-IsConsistent _ (later {store} {store'} reached step) =
      Step-IsConsistent store store' step (Reached-IsConsistent store reached)
