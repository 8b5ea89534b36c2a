-- ===== src/Broker/Query.antt =====
-- src/broker/query.rs: what the broker answers about clusters and proxies. `group_by` of the third-party
-- crate itertools is a parameter; `panic` is a failed `expect`.
pub mod Masters
pub mod Moving
use undermoon.Prelude.{
  ℕ, zero, suc, ◌-◌, ◌/◌, ◌%◌, Bool, true, false, not, ◌&&◌, ◌||◌, Option, none, some, List, [],
  ◌∷◌, ◌++◌, take, drop, leb, ◌==◌, text_eq, if◌then◌else◌, ok, err, panic, ◌>>=◌, expect,
}
use undermoon.Dict
use undermoon.Dict.{Dict}
use undermoon.Cluster.{Text, ClusterName, SlotRange}
use undermoon.Cluster.Nodes.{Role, ReplMeta, Node, Cluster, PeerProxy, Proxy, new_free, is_master}
use undermoon.Broker.Store.{
  Two, ChunkRolePosition, ChunkStore, ClusterStore, MigrationSlotRangeStore, get_two, get_four,
}
use undermoon.Broker.Migrate.{Run}
use undermoon.Broker.MetaStore.{ProxyResource, MetaStore, cluster_name_from}
use undermoon.Broker.Views.{ClusterInfo, to_slot_range, get_info}
use undermoon.Broker.Limit.{limit_migration}
use undermoon.Broker.Proxies.{get_free_proxy_resource}

-- `(first_slot_index, second_slot_index)`: the nodes that hold the slots of the two parts.
abbrev pub slot_indices : ChunkRolePosition → ℕ × ℕ
slot_indices ChunkRolePosition.normal = (0, 2)
slot_indices ChunkRolePosition.first_chunk_master = (0, 1)
slot_indices ChunkRolePosition.second_chunk_master = (3, 2)

abbrev pub node_role : ChunkRolePosition → ℕ → Role
node_role ChunkRolePosition.normal i = if i % 2 == 1 then Role.replica else Role.master
node_role ChunkRolePosition.first_chunk_master i = if leb 2 i then Role.replica else Role.master
node_role ChunkRolePosition.second_chunk_master i = if leb 2 i then Role.master else Role.replica

abbrev pub peer_index : ℕ → ℕ
peer_index zero = 3
peer_index (suc zero) = 2
peer_index (suc (suc zero)) = 1
peer_index (suc (suc (suc i))) = 0

abbrev pub stable_list : Option SlotRange → List SlotRange
stable_list none = []
stable_list (some sr) = sr ∷ []

unfoldable pub moving_list : List ChunkStore → List MigrationSlotRangeStore → Run (List SlotRange)
moving_list chunks [] = ok []
moving_list chunks (m ∷ ms) = do
  sr ← expect (to_slot_range m chunks)
  srs ← moving_list chunks ms
  ok (sr ∷ srs)

-- The slots of one part, if this is the node that holds them.
unfoldable pub part_list :
    List ChunkStore → Bool → Option SlotRange → List MigrationSlotRangeStore → Run (List SlotRange)
part_list chunks false stable moving = ok []
part_list chunks true stable moving = do
  moved ← moving_list chunks moving
  ok (stable_list stable ++ moved)

-- The loop's body for the node of index `i`.
unfoldable pub chunk_node : List ChunkStore → ChunkStore → ℕ → Run Node
chunk_node chunks chunk i = do
  address ← expect (get_four chunk.node_addresses i)
  proxy_address ← expect (get_two chunk.proxy_addresses (i / 2))
  let (first_slot_index, second_slot_index) = slot_indices chunk.role_position
  first_slots ←
      part_list chunks (i == first_slot_index) chunk.stable_slots.first chunk.migrating_slots.first
  second_slots ←
      part_list chunks (i == second_slot_index) chunk.stable_slots.second
        chunk.migrating_slots.second
  peer_node ← expect (get_four chunk.node_addresses (peer_index i))
  peer_proxy ← expect (get_two chunk.proxy_addresses (peer_index i / 2))
  ok (record {
    address = address;
    proxy_address = proxy_address;
    slots = first_slots ++ second_slots;
    repl = record {
      role = node_role chunk.role_position i;
      peers = record { node_address = peer_node; proxy_address = peer_proxy } ∷ [];
    };
  })

unfoldable pub chunk_nodes : List ChunkStore → ChunkStore → Run (List Node)
chunk_nodes chunks chunk = do
  a ← chunk_node chunks chunk 0
  b ← chunk_node chunks chunk 1
  c ← chunk_node chunks chunk 2
  d ← chunk_node chunks chunk 3
  ok (a ∷ b ∷ c ∷ d ∷ [])

unfoldable pub all_nodes : List ChunkStore → List ChunkStore → Run (List Node)
all_nodes chunks [] = ok []
all_nodes chunks (chunk ∷ rest) = do
  nodes ← chunk_nodes chunks chunk
  others ← all_nodes chunks rest
  ok (nodes ++ others)

unfoldable pub cluster_store_to_cluster : ClusterStore → Run Cluster
cluster_store_to_cluster cluster_store = do
  nodes ← all_nodes cluster_store.chunks cluster_store.chunks
  ok (record {
    name = cluster_store.name;
    epoch = cluster_store.epoch;
    nodes = nodes;
    config = cluster_store.config;
  })

-- `get_proxy_address` of each.
unfoldable pub node_proxies : List Node → List Text
node_proxies [] = []
node_proxies (node ∷ nodes) = node.proxy_address ∷ node_proxies nodes

abbrev pub limit_found : ℕ → Option ClusterStore → Run (Option ClusterStore)
limit_found limit none = ok none
limit_found limit (some cluster) = do limited ← limit_migration cluster limit; ok (some limited)

abbrev pub get_cluster_store : Dict ClusterStore → ClusterName → ℕ → Run (Option ClusterStore)
get_cluster_store clusters name limit = limit_found limit (Dict.lookup name clusters)

unfoldable pub keys {ℓ} : {V : Type ℓ} → Dict V → List Text
keys [] = []
keys ((key, v) ∷ m) = key ∷ keys m

-- `skip(offset)` and `take(limit)`.
abbrev pub page : Option ℕ → Option ℕ → List Text → List Text
page none none xs = xs
page none (some limit) xs = take limit xs
page (some offset) none xs = drop offset xs
page (some offset) (some limit) xs = take limit (drop offset xs)

abbrev pub get_proxies : MetaStore → List Text
get_proxies store = keys store.all_proxies

abbrev pub get_proxies_with_pagination : MetaStore → Option ℕ → Option ℕ → List Text
get_proxies_with_pagination store offset limit = page offset limit (keys store.all_proxies)

abbrev pub get_cluster_names : MetaStore → List ClusterName
get_cluster_names store = keys store.clusters

abbrev pub get_cluster_names_with_pagination : MetaStore → Option ℕ → Option ℕ → List ClusterName
get_cluster_names_with_pagination store offset limit = page offset limit (keys store.clusters)

unfoldable pub nodes_at : Text → List Node → List Node
nodes_at address [] = []
nodes_at address (node ∷ nodes) =
    if text_eq node.proxy_address address
    then node ∷ nodes_at address nodes
    else nodes_at address nodes

unfoldable pub masters_elsewhere : Text → List Node → List Node
masters_elsewhere address [] = []
masters_elsewhere address (node ∷ nodes) =
    if is_master node && not (text_eq node.proxy_address address)
    then node ∷ masters_elsewhere address nodes
    else masters_elsewhere address nodes

unfoldable pub slots_of : List Node → List SlotRange
slots_of [] = []
slots_of (node ∷ nodes) = node.slots ++ slots_of nodes

unfoldable pub peers_of : List (Text × List Node) → List PeerProxy
peers_of [] = []
peers_of ((address, nodes) ∷ groups) =
    record { proxy_address = address; slots = slots_of nodes } ∷ peers_of groups

abbrev pub free_node : ProxyResource → Text → Node
free_node proxy address = record {
  address = address;
  proxy_address = proxy.proxy_address;
  slots = [];
  repl = new_free;
}

-- A proxy in no cluster, with the global epoch.
abbrev pub free_proxy : MetaStore → Text → ProxyResource → Proxy
free_proxy store address proxy = record {
  cluster_name = none;
  address = address;
  epoch = store.global_epoch;
  nodes =
      free_node proxy proxy.node_addresses.first ∷ free_node proxy proxy.node_addresses.second ∷ [];
  peers = [];
  cluster_config = none;
}

pub record HostProxy : Type 0 where
  pub host : Text
  pub proxy_address : Text

unfoldable pub host_proxies : List ProxyResource → List HostProxy
host_proxies [] = []
host_proxies (proxy ∷ proxies) =
    record { host = proxy.host; proxy_address = proxy.proxy_address } ∷ host_proxies proxies

abbrev pub get_free_proxies : MetaStore → List HostProxy
get_free_proxies store = host_proxies (get_free_proxy_resource store)

module _ (group_by : (Node → Text) → List Node → List (Text × List Node)) where
  abbrev pub proxy_in : Text → Cluster → Proxy
  proxy_in address cluster = record {
    cluster_name = some cluster.name;
    address = address;
    epoch = cluster.epoch;
    nodes = nodes_at address cluster.nodes;
    peers =
        peers_of (group_by (λ node. node.proxy_address) (masters_elsewhere address cluster.nodes));
    cluster_config = some cluster.config;
  }

  abbrev pub proxy_of : MetaStore → Text → ProxyResource → Option ClusterStore → Run Proxy
  proxy_of store address proxy none = ok (free_proxy store address proxy)
  proxy_of store address proxy (some cluster_store) = do
    cluster ← cluster_store_to_cluster cluster_store
    ok (proxy_in address cluster)

  abbrev pub cluster_of_proxy : MetaStore → ℕ → Option ClusterName → Run (Option ClusterStore)
  cluster_of_proxy store limit none = ok none
  cluster_of_proxy store limit (some name) = get_cluster_store store.clusters name limit

  unfoldable pub get_proxy_by_address : MetaStore → Text → ℕ → Run (Option Proxy)
  get_proxy_by_address store address limit = elim (Dict.lookup address store.all_proxies) [
    | none ↦ ok none
    | some proxy ↦ do
      cluster ← cluster_of_proxy store limit proxy.cluster
      found ← proxy_of store address proxy cluster
      ok (some found)
  ]

module _ (fits : Text → Bool) where
  abbrev pub store_by_name : MetaStore → ℕ → Option ClusterName → Run (Option ClusterStore)
  store_by_name store limit none = ok none
  store_by_name store limit (some name) = get_cluster_store store.clusters name limit

  abbrev pub convert : Option ClusterStore → Run (Option Cluster)
  convert none = ok none
  convert (some cluster_store) = do
    cluster ← cluster_store_to_cluster cluster_store
    ok (some cluster)

  unfoldable pub get_cluster_by_name : MetaStore → Text → ℕ → Run (Option Cluster)
  get_cluster_by_name store name limit = do
    found ← store_by_name store limit (cluster_name_from fits name)
    convert found

  unfoldable pub get_cluster_info_by_name : MetaStore → Text → ℕ → Run (Option ClusterInfo)
  get_cluster_info_by_name store name limit = do
    found ← store_by_name store limit (cluster_name_from fits name)
    ok (elim found [ none ↦ none | some cluster ↦ some (get_info cluster) ])
