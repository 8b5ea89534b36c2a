-- ===== src/Broker/ChangeConfig.antt =====
-- src/broker/update.rs: `change_config`. The fields to change come as a map of strings.
use undermoon.Prelude.{
  ◌≡◌, refl, ap, ◌∙◌, Bool, false, Option, none, some, text_eq_refl, if◌then◌else◌, add_word, ok,
  err, panic,
}
use undermoon.Dict
use undermoon.Dict.{Dict}
use undermoon.Dict.Laws.{lookup-insert}
use undermoon.Cluster.{Text, ClusterName, ClusterConfig}
use undermoon.Cluster.Config.{ConfigError, error_text, set_fields, to_str_map}
use undermoon.Cluster.Config.RoundTrip.{IsLowerCase, IsValidConfig, set_fields-to_str_map}
use undermoon.Broker.Store.{
  ClusterStore, MetaStoreError, invalid_config, invalid_cluster_name, cluster_not_found,
  migration_running,
}
use undermoon.Broker.Migrate.{Run}
use undermoon.Broker.MetaStore.{MetaStore, Outcome, bump_global_epoch, cluster_name_from}
use undermoon.Broker.Views.{is_cluster_migrating}

abbrev pub config_refused : Text → Text → ConfigError → MetaStoreError
config_refused key value error = invalid_config key value (error_text error)

-- The changed configuration is stored once all fields are set.
abbrev pub put_config : MetaStore → ClusterName → ClusterStore → Run ClusterConfig → Outcome
put_config store name cluster (ok config) =
    let new_epoch = add_word store.global_epoch 1 in
    (
      bump_global_epoch (record store {
        clusters =
            Dict.insert name (record cluster { config = config; epoch = new_epoch }) store.clusters;
      }),
      ok tt,
    )
put_config store name cluster (err e) = (store, err e)
put_config store name cluster panic = (store, panic)

module _ (fits : Text → Bool) (to_lowercase : Text → Text) where
  abbrev pub change_found : MetaStore → ClusterName → Dict Text → Option ClusterStore → Outcome
  change_found store name config none = (store, err cluster_not_found)
  change_found store name config (some cluster) =
      if is_cluster_migrating cluster
      then (store, err migration_running)
      else put_config store name cluster
          (set_fields to_lowercase config_refused cluster.config config)

  abbrev pub change_named : MetaStore → Dict Text → Option ClusterName → Outcome
  change_named store config none = (store, err invalid_cluster_name)
  change_named store config (some name) =
      change_found store name config (Dict.lookup name store.clusters)

  unfoldable pub change_config : MetaStore → Text → Dict Text → Outcome
  change_config store name config = change_named store config (cluster_name_from fits name)

  -- Let lower case leave texts of ASCII small letters and underscores as they are. Let the cluster be
  -- there without a migration, and let the numbers of a configuration be u64 and its scan count not be
  -- zero. Then `change_config` with the configuration's map succeeds: the cluster has the configuration,
  -- and the global epoch goes up by one (in u64), which is the cluster's epoch.
  pub change_config-to_str_map :
      (store : MetaStore) (name : Text) (cluster : ClusterStore) (config : ClusterConfig)
      → IsLowerCase to_lowercase
      → cluster_name_from fits name ≡ some name
      → Dict.lookup name store.clusters ≡ some cluster
      → is_cluster_migrating cluster ≡ false
      → IsValidConfig config
      → let (store', result) = change_config store name (to_str_map config) in
        (result ≡ ok tt)
        × (store'.global_epoch ≡ add_word store.global_epoch 1)
        × (Dict.lookup name store'.clusters
            ≡ some (record cluster { config = config; epoch = store'.global_epoch }))
  unfolding change_config
  change_config-to_str_map store name cluster config lower valid found idle right =
      let new_epoch = add_word store.global_epoch 1 in
      let after : ClusterStore = record cluster { config = config; epoch = new_epoch } in
      let done : change_config store name (to_str_map config)
          ≡ put_config store name cluster (ok config) =
        ap (change_named store (to_str_map config)) valid
        ∙ ap (change_found store name (to_str_map config)) found
        ∙ rw idle (
            ap (put_config store name cluster) (
              set_fields-to_str_map to_lowercase lower config_refused config cluster.config
                right)) in
      rw done
        (refl, refl, lookup-insert name name after store.clusters ∙ rw (text_eq_refl name) refl)
