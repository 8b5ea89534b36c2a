-- ===== src/Broker/Allocate.antt =====
-- src/broker/update.rs: which free proxies become the chunks of a cluster. Without an order among the
-- proxies, the two proxies of a chunk come from two hosts that few chunks link so far; with an order,
-- they follow one another. A vector is a list whose end is popped.
pub mod Links
pub mod Free
pub mod Pool
pub mod Picked
use undermoon.Prelude.{
  ℕ, zero, suc, ◌+◌, ◌-◌, ◌*◌, ◌/◌, Bool, true, false, not, ◌||◌, ◌&&◌, Option, none, some, List,
  [], ◌∷◌, ◌++◌, length, take, max, ltb, leb, ◌==◌, text_eq, if◌then◌else◌, ok, err, panic, ◌>>=◌,
  ◌>>◌, expect, refuse_if,
}
use undermoon.Dict
use undermoon.Dict.{Dict}
use undermoon.Cluster.{Text}
use undermoon.Broker.Store.{
  Two, no_available_resource, resource_not_balance, proxy_resource_out_of_order, invalid_node_num,
}
use undermoon.Broker.Migrate.{Run, split_last}
use undermoon.Broker.MetaStore.{ProxyResource, MetaStore}
use undermoon.Broker.Chunks.{Pairs}
use undermoon.Broker.Proxies.{get_free_proxy_resource}
use undermoon.Broker.Allocate.Links.{
  HostProxies, LinkTable, build_link_table, count_link, linked, pick_peer, free_len,
}

-- `sort_by_key(|proxy_resource| proxy_resource.index)`.
unfoldable pub insert_by_index : ProxyResource → List ProxyResource → List ProxyResource
insert_by_index x [] = x ∷ []
insert_by_index x (y ∷ ys) = if leb x.index y.index then x ∷ y ∷ ys else y ∷ insert_by_index x ys

unfoldable pub sort_by_index : List ProxyResource → List ProxyResource
sort_by_index [] = []
sort_by_index (x ∷ xs) = insert_by_index x (sort_by_index xs)

-- The indices go on from `last_index` by one.
unfoldable pub check_indices : ℕ → List ProxyResource → Run (Unit {0})
check_indices last_index [] = ok tt
check_indices last_index (x ∷ xs) = do
  refuse_if (not (last_index + 1 == x.index)) proxy_resource_out_of_order
  check_indices x.index xs

abbrev pub check_first : ℕ → List ProxyResource → Run (Unit {0})
check_first first_index [] = ok tt
check_first first_index (x ∷ xs) = do
  refuse_if (not (x.index == first_index)) proxy_resource_out_of_order
  check_indices x.index xs

-- `chunks(CHUNK_HALF_NODE_NUM)`: two elements at a time.
unfoldable pub pair_up : List ProxyResource → Run Pairs
pair_up [] = ok []
pair_up (x ∷ []) = err invalid_node_num
pair_up (x ∷ y ∷ xs) = do pairs ← pair_up xs; ok (record { first = x; second = y } ∷ pairs)

unfoldable pub generate_free_chunks_for_ordered_proxy_index : MetaStore → ℕ → ℕ → Run Pairs
generate_free_chunks_for_ordered_proxy_index store proxy_num first_index = do
  let free = get_free_proxy_resource store
  refuse_if (ltb (length free) proxy_num) no_available_resource
  let chosen = take proxy_num (sort_by_index free)
  check_first first_index chosen
  pair_up chosen

-- `entry(host).or_insert_with(Vec::new).push(address)`.
abbrev pub push_found : ProxyResource → HostProxies → Option (List Text) → HostProxies
push_found proxy hosts none = Dict.insert proxy.host (proxy.proxy_address ∷ []) hosts
push_found proxy hosts (some proxies) =
    Dict.insert proxy.host (proxies ++ proxy.proxy_address ∷ []) hosts

abbrev pub push_proxy : ProxyResource → HostProxies → HostProxies
push_proxy proxy hosts = push_found proxy hosts (Dict.lookup proxy.host hosts)

-- The source keeps the hosts in a HashMap, whose order is arbitrary; here they stand in the order in which
-- they come.
unfoldable pub group_by_host : List ProxyResource → HostProxies → HostProxies
group_by_host [] hosts = hosts
group_by_host (proxy ∷ proxies) hosts = group_by_host proxies (push_proxy proxy hosts)

unfoldable pub generate_free_host_proxies : MetaStore → HostProxies
generate_free_host_proxies store = group_by_host (get_free_proxy_resource store) []

unfoldable pub sum_proxies : HostProxies → ℕ
sum_proxies [] = 0
sum_proxies ((host, proxies) ∷ hosts) = length proxies + sum_proxies hosts

unfoldable pub max_proxies : HostProxies → ℕ
max_proxies [] = 0
max_proxies ((host, proxies) ∷ hosts) = max (length proxies) (max_proxies hosts)

abbrev pub drop_last : Option (List Text × Text) → List Text
drop_last none = []
drop_last (some (init, last)) = init

-- `while max_proxy_num * 2 > free_proxy_num`, by recursion on `max_proxy_num`, which each round lowers.
unfoldable pub trim_host : ℕ → ℕ → List Text → List Text × ℕ
trim_host zero free_proxy_num proxies = (proxies, free_proxy_num)
trim_host (suc most) free_proxy_num proxies =
    let rest = trim_host most (free_proxy_num - 1) (drop_last (split_last proxies)) in
    if ltb free_proxy_num (suc most * 2) then rest else (proxies, free_proxy_num)

-- Only the first host with the most proxies gives some up.
unfoldable pub trim_hosts : ℕ → ℕ → HostProxies → HostProxies × ℕ
trim_hosts most free_proxy_num [] = ([], free_proxy_num)
trim_hosts most free_proxy_num ((host, proxies) ∷ hosts) =
    if length proxies == most
    then (let (kept, free) = trim_host most free_proxy_num proxies in ((host, kept) ∷ hosts, free))
    else (let (hosts', free) = trim_hosts most free_proxy_num hosts in
        ((host, proxies) ∷ hosts', free))

unfoldable pub remove_redundant_chunks : HostProxies → ℕ → Run HostProxies
remove_redundant_chunks hosts expected_num =
    let (kept, free) = trim_hosts (max_proxies hosts) (sum_proxies hosts) hosts in
    refuse_if (ltb free expected_num) no_available_resource >> ok kept

-- `max_by_key`: the last of the hosts with the most proxies.
unfoldable pub max_host : HostProxies → Option Text
max_host [] = none
max_host ((host, proxies) ∷ hosts) = elim (max_host hosts) [
  | none ↦ some host
  | some best ↦ if ltb (free_len hosts best) (length proxies) then some host else some best
]

-- `pop` of a host's proxies.
unfoldable pub pop_proxy : Text → HostProxies → Run (HostProxies × Text)
pop_proxy host hosts = do
  proxies ← expect (Dict.lookup host hosts)
  (init, last) ← expect (split_last proxies)
  ok (Dict.insert host init hosts, last)

-- One round of the loop of `allocate_chunk`.
unfoldable pub pick_pair : HostProxies → LinkTable → Run (HostProxies × LinkTable × Two Text)
pick_pair hosts links = do
  first_host ← expect (max_host hosts)
  (hosts₁, first_address) ← pop_proxy first_host hosts
  peers ← expect (Dict.lookup first_host links)
  second_host ← expect (pick_peer first_host hosts₁ peers)
  (hosts₂, second_address) ← pop_proxy second_host hosts₁
  links₁ ← expect (count_link first_host second_host links)
  links₂ ← expect (count_link second_host first_host links₁)
  ok (hosts₂, links₂, record { first = first_address; second = second_address })

-- The loop for `rounds` more chunks.
unfoldable pub allocate_pairs : ℕ → HostProxies → LinkTable → Run (List (Two Text))
allocate_pairs zero hosts links = ok []
allocate_pairs (suc rounds) hosts links = do
  (hosts', links', pair) ← pick_pair hosts links
  pairs ← allocate_pairs rounds hosts' links'
  ok (pair ∷ pairs)

-- An odd `expected_num` is rounded up, as by `while len * 2 < expected_num`.
unfoldable pub allocate_chunk : HostProxies → LinkTable → ℕ → Run (List (Two Text))
allocate_chunk hosts links expected_num = do
  refuse_if (ltb (sum_proxies hosts) expected_num) no_available_resource
  refuse_if (ltb (sum_proxies hosts) (max_proxies hosts * 2)) resource_not_balance
  allocate_pairs ((expected_num + 1) / 2) hosts links

unfoldable pub resources_of : Dict ProxyResource → List (Two Text) → Run Pairs
resources_of proxies [] = ok []
resources_of proxies (pair ∷ pairs) = do
  a ← expect (Dict.lookup pair.first proxies)
  b ← expect (Dict.lookup pair.second proxies)
  rest ← resources_of proxies pairs
  ok (record { first = a; second = b } ∷ rest)

unfoldable pub generate_free_chunks : MetaStore → ℕ → Run Pairs
generate_free_chunks store proxy_num = do
  hosts ← remove_redundant_chunks (generate_free_host_proxies store) proxy_num
  addresses ← allocate_chunk hosts (build_link_table store) proxy_num
  resources_of store.all_proxies addresses

-- What `add_cluster` and `auto_add_nodes` call.
abbrev pub generate_chunks : MetaStore → ℕ → ℕ → Run Pairs
generate_chunks store proxy_num first_index =
    if store.enable_ordered_proxy
    then generate_free_chunks_for_ordered_proxy_index store proxy_num first_index
    else generate_free_chunks store proxy_num
