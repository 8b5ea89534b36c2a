-- ===== src/Broker/Nodes/Grown.antt =====
-- `auto_add_nodes` of src/broker/update.rs: the cluster gets chunks of free proxies and keeps its slots.
use undermoon.Prelude.{
  ℕ, zero, suc, ◌+◌, ◌-◌, ◌*◌, ◌/◌, ◌%◌, ◌≤◌, ◌≡◌, ◌≢◌, ◌⊎◌, refl, sym, ap, subst, ◌∙◌, inl, inr,
  Bool, true, false, not, Option, none, some, List, [], ◌∷◌, ◌++◌, length, drop, any, ltb, ◌==◌,
  to_num, arith, text_eq_refl, if◌then◌else◌, Bool-cases, Option-cases, ok, err, panic, refuse_if,
  bind-ok, refuse_if-ok, ok_inj, All, any-append, length-append,
}
use undermoon.Dict
use undermoon.Dict.{Dict}
use undermoon.Dict.Laws.{lookup-insert}
use undermoon.Cluster.{Text, ClusterName}
use undermoon.Cluster.Nodes.{Node}
use undermoon.Broker.Store.{
  ChunkStore, ClusterStore, MigrationSlotRangeStore, migration_running, invalid_node_num,
}
use undermoon.Broker.Slots.{owners, Steady}
use undermoon.Broker.Migrate.{Run, is_none}
use undermoon.Broker.MetaStore.{
  ProxyResource, MetaStore, bump_global_epoch, cluster_name_from, is_chunk_migrating, is_empty,
}
use undermoon.Broker.MetaStore.ScaleOut.{idle-any}
use undermoon.Broker.Views.{get_proxy_addresses}
use undermoon.Broker.Limit.{all_migrations}
use undermoon.Broker.Views.Addresses.{IsBetween}
use undermoon.Broker.Chunks.{Pairs, proxy_resource_to_chunk_store}
use undermoon.Broker.Chunks.Partition.{proxy_resource_to_chunk_store_free}
use undermoon.Broker.Proxies.{text_mem}
use undermoon.Broker.Proxies.Mult.{mult, text_mem-mult, All-text_mem}
use undermoon.Broker.Proxies.Tagging.{IsKept, IsThere, occupy_proxies_lem}
use undermoon.Broker.Proxies.Consistent.{
  IsConsistent, IsOpenTo, Agree-joined, held, serves, names_cluster, serves-one,
}
use undermoon.Broker.Allocate.{generate_chunks}
use undermoon.Broker.Allocate.Free.{free_found}
use undermoon.Broker.Allocate.Picked.{AreFree, generate_chunks-AreFree}
use undermoon.Broker.Query.{cluster_store_to_cluster, node_proxies}
use undermoon.Broker.Query.Masters.{ShowsChunks, all_nodes-ShowsChunks}
use undermoon.Broker.Nodes.{
  NodesOutcome, plan_nodes, last_nodes, tag_nodes, show_nodes, grow_cluster, add_nodes_found,
  auto_add_nodes,
}
use undermoon.Broker.Nodes.Founded.{
  proxy_resource_to_chunk_store-addresses, free_open, cluster_name_from-same,
}

plan_nodes-ok :
    (store : MetaStore) (cluster : ClusterStore) (num : ℕ) (chunks : List ChunkStore)
    → IsKept store.all_proxies
    → plan_nodes store cluster num ≡ ok chunks
    → (pairs : Pairs) × (any is_chunk_migrating cluster.chunks ≡ false)
      × (length pairs * 4 ≡ num)
      × AreFree store pairs
      × (proxy_resource_to_chunk_store pairs false ≡ ok chunks)
unfolding plan_nodes
plan_nodes-ok store cluster num chunks kept h =
    let first_index = length cluster.chunks * 2 in
    let (u, e, h₁) =
      bind-ok (refuse_if (any is_chunk_migrating cluster.chunks) migration_running) _ chunks h in
    let (v, e₁, h₂) = bind-ok (refuse_if (not (num % 4 == 0)) invalid_node_num) _ chunks h₁ in
    let (w, e₂, h₃) = bind-ok (refuse_if (num / 2 == 0) invalid_node_num) _ chunks h₂ in
    let (pairs, e₃, done) = bind-ok (generate_chunks store (num / 2) first_index) _ chunks h₃ in
    let fourth : not (num % 4 == 0) ≡ false = refuse_if-ok _ invalid_node_num v e₁ in
    let whole : num % 4 ≡ 0 = ground (arith, fourth) in
    let half : num / 2 ≡ num / 4 * 2 = omega (arith, whole) in
    let (len, free) =
      generate_chunks-AreFree store (num / 4) first_index pairs kept
        (subst (λ n. generate_chunks store n first_index ≡ ok pairs) half e₃) in
    (pairs, refuse_if-ok _ migration_running u e, omega (arith, len, whole), free, done)

idle_migrations :
    (chunks : List ChunkStore) → any is_chunk_migrating chunks ≡ false → all_migrations chunks ≡ []
unfolding all_migrations
idle_migrations [] h = refl
idle_migrations (chunk ∷ chunks) h =
    rw
      (
        none_left chunk.migrating_slots.first (ground (arith, h)),
        none_left chunk.migrating_slots.second (ground (arith, h)),
        idle_migrations chunks (ground (arith, h)),
      )
      refl
  where
    none_left : (ms : List MigrationSlotRangeStore) → is_empty ms ≡ true → ms ≡ []
    none_left [] e = refl
    none_left (m ∷ ms) e = cc

pub free_unserved :
    (store : MetaStore) (name : ClusterName) (o : Option ProxyResource)
    → free_found store o ≡ true
    → serves o name ≡ false
free_unserved store name none h = refl
free_unserved store name (some proxy) h = unnamed proxy.cluster (ground (arith, h))
  where
    unnamed : (c : Option ClusterName) → is_none c ≡ true → names_cluster c name ≡ false
    unnamed none e = refl
    unnamed (some m) e = cc

served_open :
    (name : ClusterName) (o : Option ProxyResource) → serves o name ≡ true → IsOpenTo name o
served_open name none h = cc
served_open name (some proxy) h = (proxy, refl, λ n differ. serves-one (some proxy) name n h differ)

-- The proxies of a grown cluster: its own, and free ones.
joined_once :
    (store : MetaStore) (name : ClusterName) (old new tags : ℕ) (o : Option ProxyResource)
    → old ≡ to_num (serves o name)
    → new ≤ to_num (free_found store o)
    → tags ≡ (old + new) * 2
    → (ltb 0 tags ≡ true → IsOpenTo name o) × (old + new ≡ (if ltb 0 tags then 1 else old))
joined_once store name old new tags o e f t = elim (Bool-cases (free_found store o)) [
  | inl free ↦
      let away = free_unserved store name o free in
      (λ h. free_open store name o free, ground (arith, e, f, t, free, away))
  | inr taken ↦ elim (Bool-cases (serves o name)) [
    | inl mine ↦ (λ h. served_open name o mine, ground (arith, e, f, t, taken, mine))
    | inr away ↦ (
      λ h. absurd (ground (arith, e, f, t, taken, away, h)),
      ground (arith, e, f, t, taken, away),
    )
  ]
]

length-drop :
    {A : Type 0} (n : ℕ) (xs : List A) → n ≤ length xs → n + length (drop n xs) ≡ length xs
length-drop zero xs h = omega arith
length-drop (suc n) [] h = absurd (omega arith)
length-drop (suc n) (x ∷ xs) h = omega (arith, length-drop n xs (omega arith))

last_nodes-ok :
    (num rest : ℕ) (nodes : List Node)
    → length nodes ≡ rest + num
    → (new : List Node) × (last_nodes num nodes ≡ ok new) × (length new ≡ num)
last_nodes-ok num rest nodes len = elim (Bool-cases (ltb (length nodes) num)) [
  | inl short ↦ absurd (ground (arith, len, short))
  | inr long ↦ (
    _,
    found (ltb (length nodes) num) long,
    omega (arith, len, length-drop (length nodes - num) nodes (omega arith)),
  )
]
  where
    found :
        (b : Bool)
        → b ≡ false
        → ◌≡◌ {A = Run (List Node)}
            (if b then panic else ok (drop (length nodes - num) nodes))
            (ok (drop (length nodes - num) nodes))
    found b e = rw e refl

-- The nodes have been added, or nothing has changed.
abbrev pub GrownOr : MetaStore → Text → ℕ → NodesOutcome → Type 0
GrownOr store name num (store', result) =
    IsConsistent store'
    × (((new : List Node) × (result ≡ ok new)
          × (length new ≡ num)
          × ((cluster : ClusterStore) × (cluster' : ClusterStore) × (Dict.lookup name store.clusters
                ≡ some cluster)
              × (Dict.lookup name store'.clusters ≡ some cluster')
              × (length cluster'.chunks * 4 ≡ length cluster.chunks * 4 + num)
              × ((s : ℕ) → owners cluster'.chunks s ≡ owners cluster.chunks s)))
        ⊎ (((new : List Node) → result ≢ ok new) × (store' ≡ store)))

owners-append : (xs ys : List ChunkStore) (s : ℕ) → owners (xs ++ ys) s ≡ owners xs s + owners ys s
owners-append [] ys s = omega arith
owners-append (x ∷ xs) ys s = omega (arith, owners-append xs ys s)

addresses-append :
    (a : Text) (xs ys : List ChunkStore)
    → mult a (get_proxy_addresses (xs ++ ys))
      ≡ mult a (get_proxy_addresses xs) + mult a (get_proxy_addresses ys)
unfolding get_proxy_addresses
addresses-append a [] ys = omega arith
addresses-append a (x ∷ xs) ys = omega (arith, addresses-append a xs ys)

module _ (store : MetaStore) (name : ClusterName) (cluster : ClusterStore) (num : ℕ)
    (chunks : List ChunkStore) (con : IsConsistent store)
    (there : Dict.lookup name store.clusters ≡ some cluster)
    (planned : plan_nodes store cluster num ≡ ok chunks) where
  abbrev grown : ClusterStore
  grown = record cluster {
    chunks = cluster.chunks ++ chunks;
    epoch = (bump_global_epoch store).global_epoch;
  }

  abbrev grown_store : Dict ProxyResource → MetaStore
  grown_store proxies = record (bump_global_epoch store) {
    clusters = Dict.insert name grown store.clusters;
    all_proxies = proxies;
  }

  abbrev IsNew : List ChunkStore → Type 0
  IsNew cs = Steady cs × (length cs * 4 ≡ num) × ((s : ℕ) → owners cs s ≡ 0)

  IsNew-chunks :
      (any is_chunk_migrating cluster.chunks ≡ false)
      × IsNew chunks
      × ((a : Text)
          → mult a (get_proxy_addresses chunks)
            ≤ to_num (free_found store (Dict.lookup a store.all_proxies)))
  IsNew-chunks =
      let (pairs, idle, len, free, made) =
        plan_nodes-ok store cluster num chunks con.kept planned in
      let (some_pair, addresses) =
        proxy_resource_to_chunk_store-addresses pairs false chunks made in
      let (chunks', made', steady, len', none_owned) =
        proxy_resource_to_chunk_store_free pairs some_pair in
      let same : chunks' ≡ chunks = ok_inj (sym made' ∙ made) in
      (
        idle,
        subst IsNew same (steady, omega (arith, len, len'), none_owned),
        λ a.
            subst (λ xs. mult a xs ≤ to_num (free_found store (Dict.lookup a store.all_proxies)))
              (sym addresses) (free a),
      )

  shown_nodes :
      (nodes : List Node) × (cluster_store_to_cluster grown
        ≡ ok (record {
          name = cluster.name;
          epoch = grown.epoch;
          nodes = nodes;
          config = cluster.config;
        }))
      × ShowsChunks grown.chunks nodes
  unfolding cluster_store_to_cluster
  shown_nodes =
      let (idle, (steady, len, owned), free) = IsNew-chunks in
      let still : any is_chunk_migrating grown.chunks ≡ false =
        any-append is_chunk_migrating cluster.chunks chunks
        ∙ rw (idle, idle-any chunks steady) refl in
      let (nodes, e, shows, given) = all_nodes-ShowsChunks grown.chunks grown.chunks (
        subst (All (IsBetween (length grown.chunks))) (sym (idle_migrations grown.chunks still))
          tt) in
      (nodes, rw (e, cluster_store_to_cluster) refl, shows)

  grown_lem : GrownOr store name num (grow_cluster store name cluster num (ok chunks))
  grown_lem =
      let (idle, (steady, len, none_owned), free) = IsNew-chunks in
      let (nodes, shown, shows) = shown_nodes in
      let tags = node_proxies nodes in
      let once = λ (a : Text).
        joined_once store name (mult a (get_proxy_addresses cluster.chunks))
          (mult a (get_proxy_addresses chunks)) (mult a tags) (Dict.lookup a store.all_proxies)
          (subst (λ o. held o a ≡ to_num (serves (Dict.lookup a store.all_proxies) name)) there
            (con.agree a name))
          (free a) (omega (arith, shows.two_a_proxy a, addresses-append a cluster.chunks chunks)) in
      let open_to : (a : Text)
          → text_mem a tags ≡ true
          → IsOpenTo name (Dict.lookup a store.all_proxies) =
        λ a h. (once a).0 (sym (text_mem-mult a tags) ∙ h) in
      let (proxies, occupied, kept, found) =
        occupy_proxies_lem name tags store.all_proxies con.kept (
          All-text_mem (IsThere store.all_proxies) tags
            (λ a h. let (p, e, o) = open_to a h in (p, e))) in
      let (new, last, new_len) =
        last_nodes-ok num (length cluster.chunks * 4) nodes
          (omega (arith, shows.four_each, length-append cluster.chunks chunks, len)) in
      let done : grow_cluster store name cluster num (ok chunks) ≡ (grown_store proxies, ok new) =
        ap (show_nodes (grown_store store.all_proxies) name num) shown
        ∙ ap (tag_nodes (grown_store store.all_proxies) num nodes) occupied
        ∙ ap (λ r. (grown_store proxies, r)) last in
      let put = λ (n : Text). lookup-insert name n grown store.clusters in
      subst (GrownOr store name num) (sym done) (
        record {
          kept = kept;
          agree =
              Agree-joined name tags (λ n. Dict.lookup n store.clusters) _
                (λ a. Dict.lookup a store.all_proxies) _ (some grown) put con.agree found open_to
                (λ a.
                  rw (text_mem-mult a tags, there)
                    (addresses-append a cluster.chunks chunks ∙ (once a).1));
        },
        inl (
          new,
          refl,
          new_len,
          (
            cluster,
            grown,
            there,
            put name ∙ rw (text_eq_refl name) refl,
            omega (arith, length-append cluster.chunks chunks, len),
            λ s. omega (arith, owners-append cluster.chunks chunks s, none_owned s),
          ),
        ),
      )

grow_cluster-GrownOr :
    (store : MetaStore) (name : ClusterName) (cluster : ClusterStore) (num : ℕ)
    (planned : Run (List ChunkStore))
    → IsConsistent store
    → Dict.lookup name store.clusters ≡ some cluster
    → plan_nodes store cluster num ≡ planned
    → GrownOr store name num (grow_cluster store name cluster num planned)
grow_cluster-GrownOr store name cluster num (ok chunks) con there e =
    grown_lem store name cluster num chunks con there e
grow_cluster-GrownOr store name cluster num (err x) con there e = (con, inr (λ new h. cc, refl))
grow_cluster-GrownOr store name cluster num panic con there e = (con, inr (λ new h. cc, refl))

-- Let the store be consistent. Then it is consistent behind `auto_add_nodes`. Either this succeeds
-- and returns as many nodes as asked for, by which the named cluster has grown, while each slot keeps its
-- owners; or it does not, and leaves the store as it was.
pub auto_add_nodes-IsConsistent :
    (fits : Text → Bool) (store : MetaStore) (name : Text) (num : ℕ)
    → IsConsistent store
    → GrownOr store name num (auto_add_nodes fits store name num)
unfolding auto_add_nodes
auto_add_nodes-IsConsistent fits store name num con =
    elim (Option-cases (cluster_name_from fits name)) [
      | inl invalid ↦ rw (invalid, auto_add_nodes) (con, inr (λ new h. cc, refl))
      | inr (n, valid) ↦
          rw (valid, auto_add_nodes, cluster_name_from-same fits name n valid)
            (found (Dict.lookup name store.clusters) refl)
    ]
  where
    found :
        (o : Option ClusterStore)
        → Dict.lookup name store.clusters ≡ o
        → GrownOr store name num (add_nodes_found store name num o)
    found none e = (con, inr (λ new h. cc, refl))
    found (some cluster) e =
        grow_cluster-GrownOr store name cluster num (plan_nodes store cluster num) con e refl
