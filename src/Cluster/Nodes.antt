-- ===== src/Cluster/Nodes.antt =====
-- src/common/cluster.rs: nodes, clusters and proxies as the broker shows them to the coordinator.
use undermoon.Prelude.{
  ℕ, Bool, true, false, ◌&&◌, Option, none, some, List, [], ◌∷◌, ◌++◌, text_eq, if◌then◌else◌,
}
use undermoon.Cluster.{Text, ClusterName, ClusterConfig, SlotRange}

pub data Role : Type 0 where
  master replica : Role

pub record ReplPeer : Type 0 where
  pub node_address : Text
  pub proxy_address : Text

pub record ReplMeta : Type 0 where
  pub role : Role
  pub peers : List ReplPeer

pub record Node : Type 0 where
  pub address : Text
  pub proxy_address : Text
  pub slots : List SlotRange
  pub repl : ReplMeta

pub record Cluster : Type 0 where
  pub name : ClusterName
  pub epoch : ℕ
  pub nodes : List Node
  pub config : ClusterConfig

pub record PeerProxy : Type 0 where
  pub proxy_address : Text
  pub slots : List SlotRange

pub record Proxy : Type 0 where
  pub cluster_name : Option ClusterName
  pub address : Text
  pub epoch : ℕ
  pub nodes : List Node
  pub peers : List PeerProxy
  pub cluster_config : Option ClusterConfig

-- `ReplMeta::new_free`.
abbrev pub new_free : ReplMeta
new_free = record { role = Role.master; peers = [] }

abbrev pub is_master : Node → Bool
is_master node = elim node.repl.role [ Role.master ↦ true | Role.replica ↦ false ]

abbrev pub peer_eq : ReplPeer → ReplPeer → Bool
peer_eq p q = text_eq p.node_address q.node_address && text_eq p.proxy_address q.proxy_address

unfoldable pub retain_peers : ReplPeer → List ReplPeer → List ReplPeer
retain_peers peer [] = []
retain_peers peer (p ∷ ps) =
    if peer_eq p peer then retain_peers peer ps else p ∷ retain_peers peer ps

unfoldable pub find_peer : ReplPeer → List ReplPeer → Option ReplPeer
find_peer peer [] = none
find_peer peer (p ∷ ps) = if peer_eq p peer then some p else find_peer peer ps

abbrev pub add_peer : ReplMeta → ReplPeer → ReplMeta
add_peer repl peer = record repl { peers = repl.peers ++ peer ∷ [] }

abbrev pub remove_peer : ReplMeta → ReplPeer → ReplMeta × Option ReplPeer
remove_peer repl peer =
    (record repl { peers = retain_peers peer repl.peers }, find_peer peer repl.peers)

-- The first node at the address.
unfoldable pub find_node : Text → List Node → Option Node
find_node address [] = none
find_node address (node ∷ nodes) =
    if text_eq node.address address then some node else find_node address nodes

unfoldable pub retain_nodes : Text → List Node → List Node
retain_nodes address [] = []
retain_nodes address (node ∷ nodes) =
    if text_eq node.address address
    then retain_nodes address nodes
    else node ∷ retain_nodes address nodes

abbrev pub get_node : Cluster → Text → Option Node
get_node cluster address = find_node address cluster.nodes

abbrev pub remove_node_found : Cluster → Text → Option Node → Cluster × Option Node
remove_node_found cluster address none = (cluster, none)
remove_node_found cluster address (some node) =
    (record cluster { nodes = retain_nodes address cluster.nodes }, some node)

abbrev pub remove_node : Cluster → Text → Cluster × Option Node
remove_node cluster address = remove_node_found cluster address (get_node cluster address)

-- A proxy without a cluster shows its nodes as free ones only.
abbrev pub get_nodes : Proxy → List Node
get_nodes proxy = elim proxy.cluster_name [ none ↦ [] | some name ↦ proxy.nodes ]

unfoldable pub node_addresses_of : List Node → List Text
node_addresses_of [] = []
node_addresses_of (node ∷ nodes) = node.address ∷ node_addresses_of nodes

abbrev pub get_free_nodes : Proxy → List Text
get_free_nodes proxy = elim proxy.cluster_name [
  | none ↦ node_addresses_of proxy.nodes
  | some name ↦ []
]
