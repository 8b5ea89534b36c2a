-- ===== src/Broker/Failover.antt =====
-- src/broker/update.rs: `replace_failed_proxy`. The peer of a failed proxy takes over its masters, and
-- then a free proxy takes its place. `group_by` is the one of the third-party crate itertools.
pub mod Renewed
pub mod Replaced
use undermoon.Prelude.{
  ℕ, Bool, true, false, not, ◌||◌, ◌&&◌, Option, none, some, List, [], ◌∷◌, ◌++◌, any, ◌==◌,
  text_eq, if◌then◌else◌, ok, err, panic, ◌>>=◌, expect, ok_or,
}
use undermoon.Dict
use undermoon.Dict.{Dict}
use undermoon.Cluster.{Text, ClusterName}
use undermoon.Cluster.Nodes.{Node, Proxy}
use undermoon.Broker.Store.{
  Two, Four, ChunkRolePosition, MigrationMetaStore, MigrationSlotRangeStore, ChunkStore,
  ClusterStore, cluster_not_found, proxy_not_found, no_available_resource,
}
use undermoon.Broker.Migrate.{Run}
use undermoon.Broker.MetaStore.{ProxyResource, MetaStore, Outcome, bump_global_epoch}
use undermoon.Broker.Proxies.{text_insert, tag_proxy}
use undermoon.Broker.Allocate.{generate_free_host_proxies}
use undermoon.Broker.Allocate.Links.{HostProxies, build_link_table, least_of}
use undermoon.Broker.Query.{HostProxy, get_free_proxies, get_proxy_by_address}

abbrev pub is_first_chunk_master : ChunkRolePosition → Bool
is_first_chunk_master ChunkRolePosition.first_chunk_master = true
is_first_chunk_master _ = false

abbrev pub is_second_chunk_master : ChunkRolePosition → Bool
is_second_chunk_master ChunkRolePosition.second_chunk_master = true
is_second_chunk_master _ = false

-- `(chunk_index, chunk_part)`.
pub record Position : Type 0 where
  pub chunk_index : ℕ
  pub chunk_part : ℕ

abbrev pub src_position : MigrationMetaStore → Position
src_position meta = record { chunk_index = meta.src_chunk_index; chunk_part = meta.src_chunk_part }

abbrev pub dst_position : MigrationMetaStore → Position
dst_position meta = record { chunk_index = meta.dst_chunk_index; chunk_part = meta.dst_chunk_part }

abbrev pub position_eq : Position → Position → Bool
position_eq a b = a.chunk_index == b.chunk_index && a.chunk_part == b.chunk_part

-- `peer_position` of the migrations of one part.
unfoldable pub peer_positions : List MigrationSlotRangeStore → List Position
peer_positions [] = []
peer_positions (m ∷ ms) = src_position m.meta ∷ dst_position m.meta ∷ peer_positions ms

abbrev pub set_meta_epoch : ℕ → MigrationSlotRangeStore → MigrationSlotRangeStore
set_meta_epoch epoch m = record m { meta = record m.meta { epoch = epoch } }

unfoldable pub set_epochs : ℕ → List MigrationSlotRangeStore → List MigrationSlotRangeStore
set_epochs epoch [] = []
set_epochs epoch (m ∷ ms) = set_meta_epoch epoch m ∷ set_epochs epoch ms

abbrev pub keep_front :
    ChunkStore → Option (List ChunkStore × List Position) → Option (List ChunkStore × List Position)
keep_front chunk none = none
keep_front chunk (some (chunks, peers)) = some (chunk ∷ chunks, peers)

-- The first loop of `takeover_master`; `none` where it returns early.
unfoldable pub take_over : Text → ℕ → List ChunkStore → Option (List ChunkStore × List Position)
take_over failed epoch [] = some ([], [])
take_over failed epoch (chunk ∷ chunks) =
    let rest = take_over failed epoch chunks in
    if text_eq chunk.proxy_addresses.first failed
    then (if is_second_chunk_master chunk.role_position
        then none
        else some (
          record chunk {
            role_position = ChunkRolePosition.second_chunk_master;
            migrating_slots = record chunk.migrating_slots {
              first = set_epochs epoch chunk.migrating_slots.first;
            };
          }
              ∷ chunks,
          peer_positions chunk.migrating_slots.first,
        ))
    else if text_eq chunk.proxy_addresses.second failed
    then (if is_first_chunk_master chunk.role_position
        then none
        else some (
          record chunk {
            role_position = ChunkRolePosition.first_chunk_master;
            migrating_slots = record chunk.migrating_slots {
              second = set_epochs epoch chunk.migrating_slots.second;
            };
          }
              ∷ chunks,
          peer_positions chunk.migrating_slots.second,
        ))
    else keep_front chunk rest

-- The second loop, on one migration, on a part and on the chunks.
abbrev pub renew : ℕ → List Position → MigrationSlotRangeStore → MigrationSlotRangeStore
renew epoch peers m =
    if any (position_eq (src_position m.meta)) peers
      || any (position_eq (dst_position m.meta)) peers
    then set_meta_epoch epoch m
    else m

unfoldable pub renew_all :
    ℕ → List Position → List MigrationSlotRangeStore → List MigrationSlotRangeStore
renew_all epoch peers [] = []
renew_all epoch peers (m ∷ ms) = renew epoch peers m ∷ renew_all epoch peers ms

unfoldable pub renew_chunks : ℕ → List Position → List ChunkStore → List ChunkStore
renew_chunks epoch peers [] = []
renew_chunks epoch peers (chunk ∷ chunks) =
    record chunk {
      migrating_slots = record {
        first = renew_all epoch peers chunk.migrating_slots.first;
        second = renew_all epoch peers chunk.migrating_slots.second;
      };
    }
    ∷ renew_chunks epoch peers chunks

abbrev pub taken_over :
    MetaStore → ClusterName → ClusterStore → Option (List ChunkStore × List Position) → Outcome
taken_over store name cluster none = (store, ok tt)
taken_over store name cluster (some (chunks, peers)) = (
  record store {
    clusters =
        Dict.insert name
          (record cluster {
            chunks = renew_chunks store.global_epoch peers chunks;
            epoch = store.global_epoch;
          })
          store.clusters;
  },
  ok tt,
)

abbrev pub takeover_found : MetaStore → ClusterName → Text → Option ClusterStore → Outcome
takeover_found store name failed none = (store, err cluster_not_found)
takeover_found store name failed (some cluster) =
    taken_over store name cluster (take_over failed store.global_epoch cluster.chunks)

unfoldable pub takeover_master : MetaStore → ClusterName → Text → Outcome
takeover_master store name failed =
    let bumped = bump_global_epoch store in
    takeover_found bumped name failed (Dict.lookup name bumped.clusters)

-- The hosts with free proxies among the linked ones.
unfoldable pub free_peers : HostProxies → Dict ℕ → List (Text × ℕ)
free_peers hosts [] = []
free_peers hosts ((host, n) ∷ peers) =
    if Dict.contains_key host hosts
    then (host, n) ∷ free_peers hosts peers
    else free_peers hosts peers

unfoldable pub find_host : Text → List HostProxy → Option HostProxy
find_host host [] = none
find_host host (p ∷ ps) = if text_eq host p.host then some p else find_host host ps

unfoldable pub generate_new_free_proxy : MetaStore → Text → Run ProxyResource
generate_new_free_proxy store failed = do
  let hosts = generate_free_host_proxies store
  proxy ← ok_or (Dict.lookup failed store.all_proxies) proxy_not_found
  links ← expect (Dict.lookup proxy.host (build_link_table store))
  peer_host ← ok_or (least_of hosts (free_peers hosts links)) no_available_resource
  peer ← expect (find_host peer_host (get_free_proxies store))
  expect (Dict.lookup peer.proxy_address store.all_proxies)

-- The new proxy in place of the first or the second one.
abbrev pub replace_first : ProxyResource → ChunkStore → ChunkStore
replace_first proxy chunk = record chunk {
  hosts = record chunk.hosts { first = proxy.host };
  proxy_addresses = record chunk.proxy_addresses { first = proxy.proxy_address };
  node_addresses = record chunk.node_addresses {
    first = proxy.node_addresses.first;
    second = proxy.node_addresses.second;
  };
}

abbrev pub replace_second : ProxyResource → ChunkStore → ChunkStore
replace_second proxy chunk = record chunk {
  hosts = record chunk.hosts { second = proxy.host };
  proxy_addresses = record chunk.proxy_addresses { second = proxy.proxy_address };
  node_addresses = record chunk.node_addresses {
    third = proxy.node_addresses.first;
    fourth = proxy.node_addresses.second;
  };
}

unfoldable pub replace_chunks : Text → ProxyResource → List ChunkStore → List ChunkStore
replace_chunks failed proxy [] = []
replace_chunks failed proxy (chunk ∷ chunks) =
    if text_eq chunk.proxy_addresses.first failed
    then replace_first proxy chunk ∷ chunks
    else if text_eq chunk.proxy_addresses.second failed
    then replace_second proxy chunk ∷ chunks
    else chunk ∷ replace_chunks failed proxy chunks

-- The store with the new proxy in the cluster.
abbrev pub replaced_store :
    MetaStore → ClusterName → ClusterStore → Text → ProxyResource → MetaStore
replaced_store store name cluster failed proxy = record store {
  clusters =
      Dict.insert name
        (record cluster {
          chunks = replace_chunks failed proxy cluster.chunks;
          epoch = store.global_epoch;
        })
        store.clusters;
  all_proxies = tag_proxy (some name) proxy.proxy_address (tag_proxy none failed store.all_proxies);
}

abbrev pub ProxyOutcome : Type 0
ProxyOutcome = MetaStore × Run (Option Proxy)

-- `expect("replace_failed_proxy")`.
abbrev pub show_proxy : MetaStore → Run (Option Proxy) → ProxyOutcome
show_proxy store (ok (some proxy)) = (store, ok (some proxy))
show_proxy store (ok none) = (store, panic)
show_proxy store (err e) = (store, err e)
show_proxy store panic = (store, panic)

module _ (group_by : (Node → Text) → List Node → List (Text × List Node))
    (migration_limit : ℕ) where
  abbrev pub put_proxy_in :
      MetaStore → ClusterName → Text → ProxyResource → Option ClusterStore → ProxyOutcome
  put_proxy_in store name failed proxy none = (store, panic)
  put_proxy_in store name failed proxy (some cluster) =
      let replaced = replaced_store store name cluster failed proxy in
      show_proxy replaced
        (get_proxy_by_address group_by replaced proxy.proxy_address migration_limit)

  abbrev pub replace_with : MetaStore → ClusterName → Text → Run ProxyResource → ProxyOutcome
  replace_with store name failed (ok proxy) =
      let bumped = bump_global_epoch store in
      put_proxy_in bumped name failed proxy (Dict.lookup name bumped.clusters)
  replace_with store name failed (err e) = (store, err e)
  replace_with store name failed panic = (store, panic)

  -- With an order among the proxies none is replaced.
  abbrev pub replace_after : ClusterName → Text → Outcome → ProxyOutcome
  replace_after name failed (store, ok u) =
      if store.enable_ordered_proxy
      then (bump_global_epoch store, ok none)
      else (let marked : MetaStore = record store {
        failed_proxies = text_insert failed store.failed_proxies;
      } in
          replace_with marked name failed (generate_new_free_proxy marked failed))
  replace_after name failed (store, err e) = (store, err e)
  replace_after name failed (store, panic) = (store, panic)

  abbrev pub replace_in : MetaStore → Text → Option ClusterName → ProxyOutcome
  replace_in store failed none = (
    record store {
      failures = Dict.remove failed store.failures;
      failed_proxies = text_insert failed store.failed_proxies;
    },
    ok none,
  )
  replace_in store failed (some name) =
      replace_after name failed (takeover_master store name failed)

  abbrev pub replace_found : MetaStore → Text → Option ProxyResource → ProxyOutcome
  replace_found store failed none = (store, err proxy_not_found)
  replace_found store failed (some proxy) = replace_in store failed proxy.cluster

  unfoldable pub replace_failed_proxy : MetaStore → Text → ProxyOutcome
  replace_failed_proxy store failed =
      replace_found store failed (Dict.lookup failed store.all_proxies)
