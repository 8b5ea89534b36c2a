-- ===== src/Broker/Tests/Nodes.antt =====
-- Tests of the theorems on proxies, clusters and nodes, at a store of four proxies on two hosts.
use undermoon.Prelude.{
  ℕ, ◌≡◌, refl, Bool, true, false, none, some, List, [], ◌∷◌, length, arith, All, ok, to_num, ltb,
  slot_num, text_eq, get_elem?,
}
use undermoon.Dict
use undermoon.Cluster.{Text, SlotRangeTag, MigrationMeta}
use undermoon.Cluster.Nodes.{Node}
use undermoon.Broker.Store.{Two, ChunkStore, ClusterStore, MigrationSlotRangeStore}
use undermoon.Broker.Slots.{owners, Steady}
use undermoon.Broker.Migrate.{split_last}
use undermoon.Broker.MetaStore.{MetaStore}
use undermoon.Broker.Limit.{all_migrations}
use undermoon.Broker.Epochs.{new_store}
use undermoon.Broker.Chunks.{Pairs, proxy_resource_to_chunk_store}
use undermoon.Broker.Chunks.Partition.{proxy_resource_to_chunk_store-owners}
use undermoon.Broker.Proxies.{
  text_mem, text_remove, free_among, get_free_proxy_resource, count_colons, before_colon, put_proxy,
  add_proxy, remove_proxy,
}
use undermoon.Broker.Proxies.Consistent.{IsConsistent}
use undermoon.Broker.Allocate.{
  group_by_host, generate_free_host_proxies, sum_proxies, max_proxies, trim_host, trim_hosts,
  remove_redundant_chunks, max_host, pop_proxy, pick_pair, allocate_pairs, allocate_chunk,
  resources_of, generate_free_chunks, generate_chunks,
}
use undermoon.Broker.Allocate.Links.{
  free_hosts, touch_host, touch_hosts, link_chunks, link_clusters, build_link_table, least,
  open_peers, pick_peer,
}
use undermoon.Broker.Allocate.Picked.{AreFree, generate_chunks-AreFree}
use undermoon.Broker.Query.{cluster_store_to_cluster}
use undermoon.Broker.Views.{to_slot_range}
use undermoon.Broker.Views.Addresses.{IsBetween}
use undermoon.Broker.Query.Moving.{HoldsPart, to_slot_range-HoldsPart}
use undermoon.Broker.Query.Masters.{
  ShowsChunks, HasStableTags, node_times, cluster_store_to_cluster-ShowsChunks,
}
use undermoon.Broker.Nodes.{add_cluster, remove_cluster, auto_add_nodes, auto_delete_free_nodes}
use undermoon.Broker.Nodes.Founded.{FoundedOr, add_cluster-IsConsistent}
use undermoon.Broker.Nodes.Grown.{GrownOr, auto_add_nodes-IsConsistent}
use undermoon.Broker.Nodes.Freed.{FreedOr, auto_delete_free_nodes-IsConsistent}
use undermoon.Broker.Nodes.Keeps.{
  RemovedOr, remove_cluster-IsConsistent, add_proxy-IsConsistent, remove_proxy-IsConsistent,
}
use undermoon.Broker.Views.{get_proxy_addresses}
use undermoon.Broker.Reached.{
  Reached, start, later, proxy_added, cluster_added, proxy_replaced, Reached-IsConsistent,
}
use undermoon.Broker.Failover.{takeover_master, replace_failed_proxy}
use undermoon.Broker.Failover.Renewed.{takeover_master-sides}
use undermoon.Broker.Failover.Replaced.{replace_failed_proxy-IsConsistent}
use undermoon.Cluster.{CompressionStrategy}
use undermoon.Cluster.Config.{to_str_map}
use undermoon.Cluster.Tests.{
  ascii_lower, ascii_lower-IsLowerCase, config_of, config_of-IsValidConfig,
}
use undermoon.Broker.ChangeConfig.{change_config, change_config-to_str_map}
use undermoon.Broker.MetaStore.{cluster_name_from}
use undermoon.Broker.Views.{is_cluster_migrating}
use undermoon.Prelude.{add_word}
use undermoon.Broker.Tests.{
  moving_source, moving_target, two_chunks, name, config, cluster_of, moving_chunks, entry,
  store_of,
}

abbrev fits : Text → Bool
fits t = true

abbrev address : ℕ → ℕ → Text
address host port = host ∷ b':' ∷ port ∷ []

abbrev nodes_of_port : ℕ → Two Text
nodes_of_port port = record { first = port ∷ b'a' ∷ []; second = port ∷ b'b' ∷ [] }

abbrev empty : MetaStore
empty = new_store (b'2' ∷ []) false

abbrev one : MetaStore
one = (add_proxy empty (address b'x' b'1') (nodes_of_port b'1') none none).0

abbrev two : MetaStore
two = (add_proxy one (address b'y' b'2') (nodes_of_port b'2') none none).0

abbrev three : MetaStore
three = (add_proxy two (address b'x' b'3') (nodes_of_port b'3') none none).0

abbrev four : MetaStore
four = (add_proxy three (address b'y' b'4') (nodes_of_port b'4') none none).0

empty-IsConsistent : IsConsistent empty
unfolding new_store Dict.lookup
empty-IsConsistent = record { kept = record { unique = tt; keyed = tt }; agree = λ a n. refl }

one-IsConsistent : IsConsistent one
one-IsConsistent =
    add_proxy-IsConsistent empty (address b'x' b'1') (nodes_of_port b'1') none none
      empty-IsConsistent

two-IsConsistent : IsConsistent two
two-IsConsistent =
    add_proxy-IsConsistent one (address b'y' b'2') (nodes_of_port b'2') none none one-IsConsistent

three-IsConsistent : IsConsistent three
three-IsConsistent =
    add_proxy-IsConsistent two (address b'x' b'3') (nodes_of_port b'3') none none two-IsConsistent

add_proxy-IsConsistent_example : IsConsistent four
add_proxy-IsConsistent_example =
    add_proxy-IsConsistent three (address b'y' b'4') (nodes_of_port b'4') none none
      three-IsConsistent

four-IsConsistent : IsConsistent four
four-IsConsistent =
    add_proxy-IsConsistent three (address b'y' b'4') (nodes_of_port b'4') none none
      three-IsConsistent

remove_proxy-IsConsistent_example : IsConsistent ((remove_proxy four (address b'x' b'3')).0)
remove_proxy-IsConsistent_example =
    remove_proxy-IsConsistent four (address b'x' b'3') four-IsConsistent

-- Allocating two proxies for one chunk out of the four succeeds.
abbrev picked : Pairs
picked =
    record {
      first = record {
        proxy_address = address b'y' b'4';
        node_addresses = nodes_of_port b'4';
        host = b'y' ∷ [];
        index = 0;
        cluster = none;
      };
      second = record {
        proxy_address = address b'x' b'3';
        node_addresses = nodes_of_port b'3';
        host = b'x' ∷ [];
        index = 0;
        cluster = none;
      };
    }
    ∷ []

chunks_picked : generate_chunks four 2 0 ≡ ok picked
unfolding new_store text_eq Dict.lookup Dict.insert Dict.remove Dict.contains_key split_last
    text_mem text_remove free_among get_free_proxy_resource count_colons before_colon put_proxy
    add_proxy group_by_host generate_free_host_proxies sum_proxies max_proxies trim_host trim_hosts
    remove_redundant_chunks max_host pop_proxy pick_pair allocate_pairs allocate_chunk resources_of
    generate_free_chunks free_hosts touch_host touch_hosts link_chunks link_clusters
    build_link_table least open_peers pick_peer
chunks_picked = refl

generate_chunks-AreFree_example : (length picked ≡ 1) × AreFree four picked
generate_chunks-AreFree_example =
    generate_chunks-AreFree four 1 0 picked four-IsConsistent.kept chunks_picked

add_cluster-IsConsistent_example : FoundedOr four name 4 (add_cluster fits four name 4 config)
add_cluster-IsConsistent_example =
    add_cluster-IsConsistent fits four name 4 config four-IsConsistent (omega arith)

abbrev founded : MetaStore
founded = (add_cluster fits four name 4 config).0

founded-IsConsistent : IsConsistent founded
founded-IsConsistent =
    (add_cluster-IsConsistent fits four name 4 config four-IsConsistent (omega arith)).0

auto_add_nodes-IsConsistent_example : GrownOr founded name 4 (auto_add_nodes fits founded name 4)
auto_add_nodes-IsConsistent_example =
    auto_add_nodes-IsConsistent fits founded name 4 founded-IsConsistent

abbrev grown : MetaStore
grown = (auto_add_nodes fits founded name 4).0

grown-IsConsistent : IsConsistent grown
grown-IsConsistent = (auto_add_nodes-IsConsistent fits founded name 4 founded-IsConsistent).0

auto_delete_free_nodes-IsConsistent_example :
    FreedOr grown name (auto_delete_free_nodes fits grown name)
auto_delete_free_nodes-IsConsistent_example =
    auto_delete_free_nodes-IsConsistent fits grown name grown-IsConsistent

remove_cluster-IsConsistent_example : RemovedOr grown name (remove_cluster fits grown name)
remove_cluster-IsConsistent_example = remove_cluster-IsConsistent fits grown name grown-IsConsistent

proxy_resource_to_chunk_store-owners_example :
    (chunks : List ChunkStore) × (proxy_resource_to_chunk_store picked true ≡ ok chunks)
    × Steady chunks
    × (length chunks ≡ 1)
    × ((s : ℕ) → owners chunks s ≡ to_num (ltb s slot_num))
proxy_resource_to_chunk_store-owners_example =
    proxy_resource_to_chunk_store-owners picked (omega arith) (omega arith)

moving_tags : All HasStableTags moving_chunks
moving_tags = (record { first = refl; second = refl }, (record { first = tt; second = tt }, tt))

entry-IsBetween : (side : Bool) → IsBetween 2 (entry side)
entry-IsBetween side = record {
  src_chunk = omega arith;
  src_part = omega arith;
  dst_chunk = omega arith;
  dst_part = omega arith;
}

moving_chunks-IsBetween : All (IsBetween 2) (all_migrations moving_chunks)
unfolding all_migrations
moving_chunks-IsBetween = (entry-IsBetween true, (entry-IsBetween false, tt))

cluster_store_to_cluster-ShowsChunks_example :
    (nodes : List Node) × (cluster_store_to_cluster (cluster_of moving_chunks)
      ≡ ok (record { name = name; epoch = 2; nodes = nodes; config = config }))
    × ShowsChunks moving_chunks nodes
    × ((s : ℕ) → node_times nodes s ≡ owners moving_chunks s)
cluster_store_to_cluster-ShowsChunks_example =
    cluster_store_to_cluster-ShowsChunks (cluster_of moving_chunks) moving_chunks-IsBetween
      moving_tags

to_slot_range-HoldsPart_example :
    (meta : MigrationMeta) × (to_slot_range (entry true) moving_chunks
      ≡ some (record { range_list = (entry true).range_list; tag = SlotRangeTag.migrating meta }))
    × (meta.epoch ≡ (entry true).meta.epoch)
    × HoldsPart moving_chunks moving_source 1 meta.src_proxy_address meta.src_node_address
    × HoldsPart moving_chunks moving_target 0 meta.dst_proxy_address meta.dst_node_address
to_slot_range-HoldsPart_example =
    to_slot_range-HoldsPart moving_chunks (entry true) moving_source moving_target
      moving_chunks-IsBetween refl (omega arith) refl (omega arith)

abbrev moving_store : MetaStore
moving_store = store_of moving_chunks

moving_found : Dict.lookup name moving_store.clusters ≡ some (cluster_of moving_chunks)
unfolding Dict.lookup text_eq
moving_found = refl

moving_first : get_elem? (all_migrations moving_chunks) 0 ≡ some (entry true)
unfolding all_migrations
moving_first = refl

moving_second : get_elem? (all_migrations moving_chunks) 1 ≡ some (entry false)
unfolding all_migrations
moving_second = refl

takeover_master-sides_example :
    let (store', result) = takeover_master moving_store name (b'2' ∷ []) in
    (result ≡ ok tt)
    × ((cluster' : ClusterStore) × (n : MigrationSlotRangeStore) × (n' : MigrationSlotRangeStore)
        × (Dict.lookup name store'.clusters ≡ some cluster')
        × (get_elem? (all_migrations cluster'.chunks) 0 ≡ some n)
        × (get_elem? (all_migrations cluster'.chunks) 1 ≡ some n')
        × (n.meta ≡ n'.meta)
        × ((n.range_list ≡ (entry true).range_list) × (n.is_migrating ≡ true))
        × ((n'.range_list ≡ (entry false).range_list) × (n'.is_migrating ≡ false))
        × (get_proxy_addresses cluster'.chunks ≡ get_proxy_addresses moving_chunks)
        × ((s : ℕ) → owners cluster'.chunks s ≡ owners moving_chunks s))
takeover_master-sides_example =
    takeover_master-sides moving_store name (b'2' ∷ []) (cluster_of moving_chunks) 0 1 (entry true)
      (entry false) moving_found moving_first moving_second refl

-- A `group_by` that puts each node into a group of its own.
group_alone : (Node → Text) → List Node → List (Text × List Node)
group_alone key [] = []
group_alone key (node ∷ nodes) = (key node, node ∷ []) ∷ group_alone key nodes

replace_failed_proxy-IsConsistent_example :
    IsConsistent ((replace_failed_proxy group_alone 0 founded (address b'x' b'3')).0)
replace_failed_proxy-IsConsistent_example =
    replace_failed_proxy-IsConsistent group_alone 0 founded (address b'x' b'3') founded-IsConsistent

-- The store with the replaced proxy is reached from the empty one in six steps.
replaced-Reached :
    Reached fits ascii_lower group_alone
      ((replace_failed_proxy group_alone 0 founded (address b'x' b'3')).0)
replaced-Reached =
    later
      (later
        (later
          (later
            (later
              (later (start (b'2' ∷ []) false)
                (proxy_added (address b'x' b'1') (nodes_of_port b'1') none none))
              (proxy_added (address b'y' b'2') (nodes_of_port b'2') none none))
            (proxy_added (address b'x' b'3') (nodes_of_port b'3') none none))
          (proxy_added (address b'y' b'4') (nodes_of_port b'4') none none))
        (cluster_added name 4 config))
      (proxy_replaced (address b'x' b'3') 0)

Reached-IsConsistent_example :
    IsConsistent ((replace_failed_proxy group_alone 0 founded (address b'x' b'3')).0)
Reached-IsConsistent_example =
    Reached-IsConsistent fits ascii_lower group_alone
      ((replace_failed_proxy group_alone 0 founded (address b'x' b'3')).0) replaced-Reached

still_found : Dict.lookup name (store_of two_chunks).clusters ≡ some (cluster_of two_chunks)
unfolding Dict.lookup text_eq
still_found = refl

still_named : cluster_name_from fits name ≡ some name
unfolding cluster_name_from
still_named = refl

still_idle : is_cluster_migrating (cluster_of two_chunks) ≡ false
unfolding is_cluster_migrating
still_idle = refl

change_config-to_str_map_example :
    let (store', result) =
      change_config fits ascii_lower
        (store_of two_chunks)
        name
        (to_str_map (config_of CompressionStrategy.allow_all)) in
    (result ≡ ok tt)
    × (store'.global_epoch ≡ add_word 5 1)
    × (Dict.lookup name store'.clusters
        ≡ some (record (cluster_of two_chunks) {
          config = config_of CompressionStrategy.allow_all;
          epoch = store'.global_epoch;
        }))
change_config-to_str_map_example =
    change_config-to_str_map fits ascii_lower (store_of two_chunks) name (cluster_of two_chunks)
      (config_of CompressionStrategy.allow_all) ascii_lower-IsLowerCase still_named still_found
      still_idle (config_of-IsValidConfig CompressionStrategy.allow_all)
