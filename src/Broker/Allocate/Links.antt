-- ===== src/Broker/Allocate/Links.antt =====
-- src/broker/update.rs: how often two hosts share a chunk, and the host that is linked least.
use undermoon.Prelude.{
  ℕ, ◌+◌, Bool, not, ◌||◌, ◌&&◌, Option, none, some, List, [], ◌∷◌, length, ltb, ◌==◌, text_eq,
  if◌then◌else◌,
}
use undermoon.Dict
use undermoon.Dict.{Dict}
use undermoon.Cluster.{Text}
use undermoon.Broker.Store.{ChunkStore, ClusterStore}
use undermoon.Broker.Migrate.{is_none}
use undermoon.Broker.MetaStore.{ProxyResource, MetaStore}
use undermoon.Broker.Proxies.{text_mem}

-- The free proxies of each host.
abbrev pub HostProxies : Type 0
HostProxies = Dict (List Text)

abbrev pub LinkTable : Type 0
LinkTable = Dict (Dict ℕ)

abbrev pub links_of : Text → LinkTable → Dict ℕ
links_of host links = elim (Dict.lookup host links) [ none ↦ [] | some peers ↦ peers ]

-- `entry(first).or_insert_with(HashMap::new).entry(second).or_insert(0)`.
abbrev pub touch_link : Text → Text → LinkTable → LinkTable
touch_link first second links = elim (Dict.lookup second (links_of first links)) [
  | none ↦ Dict.insert first (Dict.insert second 0 (links_of first links)) links
  | some n ↦ links
]

-- `*linked_num += 1` on such an entry.
abbrev pub add_link : Text → Text → LinkTable → LinkTable
add_link first second links = elim (Dict.lookup second (links_of first links)) [
  | none ↦ Dict.insert first (Dict.insert second 1 (links_of first links)) links
  | some n ↦ Dict.insert first (Dict.insert second (n + 1) (links_of first links)) links
]

-- `+= 1` on an entry that has to be there.
abbrev pub count_link : Text → Text → LinkTable → Option LinkTable
count_link first second links = elim (Dict.lookup first links) [
  | none ↦ none
  | some peers ↦ elim (Dict.lookup second peers) [
    | none ↦ none
    | some n ↦ some (Dict.insert first (Dict.insert second (n + 1) peers) links)
  ]
]

-- The hosts with a proxy in no cluster.
unfoldable pub free_hosts : Dict ProxyResource → List Text
free_hosts [] = []
free_hosts ((address, proxy) ∷ proxies) =
    if is_none proxy.cluster then proxy.host ∷ free_hosts proxies else free_hosts proxies

-- Both loops over all proxies.
unfoldable pub touch_host : List Text → Text → Dict ProxyResource → LinkTable → LinkTable
touch_host free host [] links = links
touch_host free host ((address, proxy) ∷ proxies) links = touch_host free host proxies (
    if text_eq host proxy.host || (not (text_mem host free) && not (text_mem proxy.host free))
    then links
    else touch_link proxy.host host (touch_link host proxy.host links))

unfoldable pub touch_hosts :
    List Text → Dict ProxyResource → Dict ProxyResource → LinkTable → LinkTable
touch_hosts free all [] links = links
touch_hosts free all ((address, proxy) ∷ proxies) links =
    touch_hosts free all proxies (touch_host free proxy.host all links)

unfoldable pub link_chunks : List ChunkStore → LinkTable → LinkTable
link_chunks [] links = links
link_chunks (chunk ∷ chunks) links = link_chunks chunks (
    add_link chunk.hosts.second chunk.hosts.first
      (add_link chunk.hosts.first chunk.hosts.second links))

unfoldable pub link_clusters : Dict ClusterStore → LinkTable → LinkTable
link_clusters [] links = links
link_clusters ((name, cluster) ∷ clusters) links =
    link_clusters clusters (link_chunks cluster.chunks links)

unfoldable pub build_link_table : MetaStore → LinkTable
build_link_table store =
    link_clusters store.clusters
      (touch_hosts (free_hosts store.all_proxies) store.all_proxies store.all_proxies [])

abbrev pub free_len : HostProxies → Text → ℕ
free_len hosts host = elim (Dict.lookup host hosts) [ none ↦ 0 | some proxies ↦ length proxies ]

-- `second_host_cmp` answers `Greater`: more links, or as many and fewer free proxies. Its callers have
-- dropped the hosts that are not among the free ones.
abbrev pub is_worse : HostProxies → Text × ℕ → Text × ℕ → Bool
is_worse hosts (host1, count1) (host2, count2) =
    ltb count2 count1 || (count1 == count2 && ltb (free_len hosts host1) (free_len hosts host2))

-- `min_by` from `best` on: the first of the least.
unfoldable pub least : HostProxies → Text × ℕ → List (Text × ℕ) → Text × ℕ
least hosts best [] = best
least hosts best (x ∷ xs) = least hosts (if is_worse hosts best x then x else best) xs

abbrev pub least_of : HostProxies → List (Text × ℕ) → Option Text
least_of hosts [] = none
least_of hosts (x ∷ xs) = some ((least hosts x xs).0)

-- The peers on other hosts that have free proxies left.
unfoldable pub open_peers : Text → HostProxies → Dict ℕ → List (Text × ℕ)
open_peers first_host hosts [] = []
open_peers first_host hosts ((host, n) ∷ peers) =
    if not (text_eq host first_host) && ltb 0 (free_len hosts host)
    then (host, n) ∷ open_peers first_host hosts peers
    else open_peers first_host hosts peers

unfoldable pub pick_peer : Text → HostProxies → Dict ℕ → Option Text
pick_peer first_host hosts peers = least_of hosts (open_peers first_host hosts peers)

abbrev pub linked : Text → Text → LinkTable → Option ℕ
linked first second links = Dict.lookup second (links_of first links)
