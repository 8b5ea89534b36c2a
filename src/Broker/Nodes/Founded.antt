-- ===== src/Broker/Nodes/Founded.antt =====
-- `add_cluster` of src/broker/update.rs: what a new cluster is, and that it keeps the store consistent.
use undermoon.Prelude.{
  ℕ, ◌+◌, ◌*◌, ◌/◌, ◌%◌, ◌≤◌, ◌<◌, ◌≡◌, ◌≢◌, ◌⊎◌, refl, sym, ap, ◌∙◌, inl, inr, Bool, true, false,
  not, ◌&&◌, Option, none, some, List, [], ◌∷◌, length, ltb, ◌==◌, to_num, arith, text_eq_refl,
  if◌then◌else◌, Bool-cases, Option-cases, ok, err, panic, refuse_if, bind-ok, refuse_if-ok, ok_inj,
  some_inj, subst, slot_num,
}
use undermoon.Dict
use undermoon.Dict.{Dict}
use undermoon.Dict.Laws.{lookup-insert}
use undermoon.Cluster.{Text, ClusterName, ClusterConfig}
use undermoon.Broker.Store.{ChunkStore, ClusterStore, already_existed, invalid_node_num}
use undermoon.Broker.Slots.{owners, Steady}
use undermoon.Broker.Migrate.{Run, is_none}
use undermoon.Broker.MetaStore.{
  ProxyResource, MetaStore, Outcome, bump_global_epoch, is_empty, cluster_name_from,
}
use undermoon.Broker.Views.{get_proxy_addresses}
use undermoon.Broker.Chunks.{
  Pairs, Shares, chunks_with_slots, chunks_without_slots, proxy_resource_to_chunk_store,
}
use undermoon.Broker.Chunks.Partition.{proxy_resource_to_chunk_store-owners}
use undermoon.Broker.Proxies.{text_mem}
use undermoon.Broker.Proxies.Mult.{mult, text_mem-mult, All-text_mem}
use undermoon.Broker.Proxies.Tagging.{IsKept, IsThere, occupy_proxies_lem}
use undermoon.Broker.Proxies.Consistent.{IsConsistent, IsOpenTo, Agree-joined, names_cluster}
use undermoon.Broker.Allocate.{generate_chunks}
use undermoon.Broker.Allocate.Free.{pair_addresses, free_found}
use undermoon.Broker.Allocate.Picked.{AreFree, generate_chunks-AreFree}
use undermoon.Broker.Nodes.{plan_cluster, put_occupied, create_cluster, add_cluster}

chunks_with_slots-addresses :
    (q : Shares) (i curr : ℕ) (pairs : Pairs)
    → get_proxy_addresses (chunks_with_slots q i curr pairs) ≡ pair_addresses pairs
unfolding chunks_with_slots get_proxy_addresses
chunks_with_slots-addresses q i curr [] = refl
chunks_with_slots-addresses q i curr (pair ∷ pairs) =
    ap (λ xs. pair.first.proxy_address ∷ pair.second.proxy_address ∷ xs)
      (chunks_with_slots-addresses q (i + 1) _ pairs)

chunks_without_slots-addresses :
    (pairs : Pairs) → get_proxy_addresses (chunks_without_slots pairs) ≡ pair_addresses pairs
unfolding chunks_without_slots get_proxy_addresses
chunks_without_slots-addresses [] = refl
chunks_without_slots-addresses (pair ∷ pairs) =
    ap (λ xs. pair.first.proxy_address ∷ pair.second.proxy_address ∷ xs)
      (chunks_without_slots-addresses pairs)

pub proxy_resource_to_chunk_store-addresses :
    (pairs : Pairs) (with_slots : Bool) (chunks : List ChunkStore)
    → proxy_resource_to_chunk_store pairs with_slots ≡ ok chunks
    → (0 < length pairs) × (get_proxy_addresses chunks ≡ pair_addresses pairs)
unfolding proxy_resource_to_chunk_store
proxy_resource_to_chunk_store-addresses [] with_slots chunks h = cc
proxy_resource_to_chunk_store-addresses (pair ∷ pairs) with_slots chunks h =
    (omega arith, ap get_proxy_addresses (sym (made _ (ground arith) h)) ∙ shown _ with_slots)
  where
    made :
        {x : List ChunkStore} (b : Bool)
        → b ≡ false
        → ◌≡◌ {A = Run (List ChunkStore)} (elim b [ true ↦ panic | false ↦ ok x ]) (ok chunks)
        → x ≡ chunks
    made true e k = cc
    made false e k = ok_inj k

    shown :
        (q : Shares) (with_slots : Bool)
        → get_proxy_addresses (
            if with_slots
            then chunks_with_slots q 0 0 (pair ∷ pairs)
            else chunks_without_slots (pair ∷ pairs))
          ≡ pair_addresses (pair ∷ pairs)
    shown q true = chunks_with_slots-addresses q 0 0 (pair ∷ pairs)
    shown q false = chunks_without_slots-addresses (pair ∷ pairs)

pub free_open :
    (store : MetaStore) (name : ClusterName) (o : Option ProxyResource)
    → free_found store o ≡ true
    → IsOpenTo name o
free_open store name none h = cc
free_open store name (some proxy) h =
    (proxy, refl, λ n differ. unnamed proxy.cluster n (ground (arith, h)))
  where
    unnamed :
        (c : Option ClusterName) (n : ClusterName) → is_none c ≡ true → names_cluster c n ≡ false
    unnamed none n e = refl
    unnamed (some m) n e = cc

pub tagged_free :
    (store : MetaStore) (pairs : Pairs) (chunks : List ChunkStore) (a : Text)
    → AreFree store pairs
    → get_proxy_addresses chunks ≡ pair_addresses pairs
    → text_mem a (get_proxy_addresses chunks) ≡ true
    → (mult a (get_proxy_addresses chunks) ≡ 1)
      × (free_found store (Dict.lookup a store.all_proxies) ≡ true)
tagged_free store pairs chunks a free e h =
    let most : mult a (get_proxy_addresses chunks)
        ≤ to_num (free_found store (Dict.lookup a store.all_proxies)) =
      subst (λ xs. mult a xs ≤ to_num (free_found store (Dict.lookup a store.all_proxies))) (sym e)
        (free a) in
    let least : ltb 0 (mult a (get_proxy_addresses chunks)) ≡ true =
      sym (text_mem-mult a (get_proxy_addresses chunks)) ∙ h in
    elim (Bool-cases (free_found store (Dict.lookup a store.all_proxies))) [
      | inl is ↦ (ground (arith, most, least, is), is)
      | inr not_free ↦ absurd (ground (arith, most, least, not_free))
    ]

-- Tagging the proxies of planned chunks succeeds, and the new cluster agrees with its proxies.
create_cluster_lem :
    (store : MetaStore) (name : ClusterName) (config : ClusterConfig) (pairs : Pairs)
    (chunks : List ChunkStore)
    → IsConsistent store
    → Dict.lookup name store.clusters ≡ none
    → AreFree store pairs
    → get_proxy_addresses chunks ≡ pair_addresses pairs
    → let (store', result) = create_cluster store name config (ok chunks) in
      (result ≡ ok tt)
      × IsConsistent store'
      × (Dict.lookup name store'.clusters
          ≡ some (record {
            epoch = (bump_global_epoch store).global_epoch;
            name = name;
            chunks = chunks;
            config = config;
          }))
create_cluster_lem store name config pairs chunks con absent free e =
    let tags = get_proxy_addresses chunks in
    let open_to : (a : Text)
        → text_mem a tags ≡ true
        → IsOpenTo name (Dict.lookup a store.all_proxies) =
      λ a h. free_open store name _ ((tagged_free store pairs chunks a free e h).1) in
    let (proxies, occupied, kept, found) = occupy_proxies_lem name tags store.all_proxies con.kept (
      All-text_mem (IsThere store.all_proxies) tags
        (λ a h. let (p, there, o) = open_to a h in (p, there))) in
    let cluster : ClusterStore = record {
      epoch = (bump_global_epoch store).global_epoch;
      name = name;
      chunks = chunks;
      config = config;
    } in
    let put = λ (n : Text). lookup-insert name n cluster store.clusters in
    let done : create_cluster store name config (ok chunks)
        ≡ put_occupied (bump_global_epoch store) name cluster (ok proxies) =
      ap (put_occupied (bump_global_epoch store) name cluster) occupied in
    subst
      (λ (outcome : Outcome).
        (outcome.1 ≡ ok tt)
        × IsConsistent outcome.0
        × (Dict.lookup name outcome.0.clusters ≡ some cluster))
      (sym done)
      (
        refl,
        record {
          kept = kept;
          agree =
              Agree-joined name tags (λ n. Dict.lookup n store.clusters) _
                (λ a. Dict.lookup a store.all_proxies) _ (some cluster) put con.agree found open_to
                (λ a. elim (Bool-cases (text_mem a tags)) [
                  | inl in_tags ↦ rw in_tags ((tagged_free store pairs chunks a free e in_tags).0)
                  | inr not_tagged ↦
                      let no_time : ltb 0 (mult a tags) ≡ false =
                        sym (text_mem-mult a tags) ∙ not_tagged in
                      rw (not_tagged, absent) (ground (arith, no_time))
                ]);
        },
        put name ∙ rw (text_eq_refl name) refl,
      )

-- What it takes for a cluster to be planned.
plan_cluster-ok :
    (store : MetaStore) (name : ClusterName) (node_num : ℕ) (chunks : List ChunkStore)
    → IsKept store.all_proxies
    → plan_cluster store name node_num ≡ ok chunks
    → (pairs : Pairs) × (Dict.contains_key name store.clusters ≡ false)
      × (length pairs * 4 ≡ node_num)
      × AreFree store pairs
      × (proxy_resource_to_chunk_store pairs true ≡ ok chunks)
unfolding plan_cluster
plan_cluster-ok store name node_num chunks kept h =
    let (u, e, h₁) =
      bind-ok (refuse_if (Dict.contains_key name store.clusters) already_existed) _ chunks h in
    let (v, e₁, h₂) = bind-ok (refuse_if (not (node_num % 4 == 0)) invalid_node_num) _ chunks h₁ in
    let (w, e₂, h₃) = bind-ok (refuse_if (node_num / 2 == 0) invalid_node_num) _ chunks h₂ in
    let (pairs, e₃, done) = bind-ok (generate_chunks store (node_num / 2) 0) _ chunks h₃ in
    let fourth : not (node_num % 4 == 0) ≡ false = refuse_if-ok _ invalid_node_num v e₁ in
    let whole : node_num % 4 ≡ 0 = ground (arith, fourth) in
    let half : node_num / 2 ≡ node_num / 4 * 2 = omega (arith, whole) in
    let (len, free) =
      generate_chunks-AreFree store (node_num / 4) 0 pairs kept
        (subst (λ n. generate_chunks store n 0 ≡ ok pairs) half e₃) in
    (pairs, refuse_if-ok _ already_existed u e, omega (arith, len, whole), free, done)

pub absent_key :
    {V : Type 0} (name : Text) (m : Dict V)
    → Dict.contains_key name m ≡ false
    → Dict.lookup name m ≡ none
unfolding Dict.contains_key
absent_key name m h = elim (Option-cases (Dict.lookup name m)) [
  | inl absent ↦ absent
  | inr (v, there) ↦
      absurd_key v (subst (λ o. elim o [ none ↦ false | some v ↦ true ] ≡ false) there h)
]
  where
    absurd_key : {V : Type 0} {o : Option V} (v : V) → true ≡ false → o ≡ none
    absurd_key v e = cc

-- The new cluster: made of `node_num` nodes, with each slot owned once and no migration.
abbrev pub IsFounded : MetaStore → Text → ℕ → Type 0
IsFounded store name node_num =
    (cluster : ClusterStore) × (Dict.lookup name store.clusters ≡ some cluster)
    × (length cluster.chunks * 4 ≡ node_num)
    × Steady cluster.chunks
    × ((s : ℕ) → owners cluster.chunks s ≡ to_num (ltb s slot_num))

-- The cluster is founded, or nothing has changed.
abbrev pub FoundedOr : MetaStore → Text → ℕ → Outcome → Type 0
FoundedOr store name node_num (store', result) =
    IsConsistent store'
    × (((result ≡ ok tt) × IsFounded store' name node_num) ⊎ ((result ≢ ok tt) × (store' ≡ store)))

create_cluster-FoundedOr :
    (store : MetaStore) (name : ClusterName) (config : ClusterConfig) (node_num : ℕ)
    (planned : Run (List ChunkStore))
    → IsConsistent store
    → node_num ≤ 2 * slot_num
    → plan_cluster store name node_num ≡ planned
    → FoundedOr store name node_num (create_cluster store name config planned)
create_cluster-FoundedOr store name config node_num (err x) con few e = (con, inr (λ h. cc, refl))
create_cluster-FoundedOr store name config node_num panic con few e = (con, inr (λ h. cc, refl))
create_cluster-FoundedOr store name config node_num (ok chunks) con few e =
    let (pairs, absent, len, free, made) = plan_cluster-ok store name node_num chunks con.kept e in
    let (some_pair, addresses) = proxy_resource_to_chunk_store-addresses pairs true chunks made in
    let (done, con', there) =
      create_cluster_lem store name config pairs chunks con (absent_key name store.clusters absent)
        free addresses in
    let (chunks', made', steady, len', owned) =
      proxy_resource_to_chunk_store-owners pairs some_pair (omega (arith, len, few)) in
    let same : chunks' ≡ chunks = ok_inj (sym made' ∙ made) in
    (
      con',
      inl (
        done,
        (
          _,
          there,
          subst (λ cs. length cs * 4 ≡ node_num) same (omega (arith, len, len')),
          subst Steady same steady,
          λ s. ap (λ cs. owners cs s) (sym same) ∙ owned s,
        ),
      ),
    )

pub cluster_name_from-same :
    (fits : Text → Bool) (name n : Text) → cluster_name_from fits name ≡ some n → n ≡ name
unfolding cluster_name_from
cluster_name_from-same fits name n e = same _ (fits name) e
  where
    same :
        (b c : Bool)
        → ◌≡◌ {A = Option ClusterName}
            (if b then (if c then some name else none) else none)
            (some n)
        → n ≡ name
    same true true h = sym (some_inj h)
    same true false h = cc
    same false c h = cc

create_cluster-kept :
    (store : MetaStore) (name : ClusterName) (config : ClusterConfig) (node_num : ℕ)
    (planned : Run (List ChunkStore))
    → IsConsistent store
    → plan_cluster store name node_num ≡ planned
    → IsConsistent ((create_cluster store name config planned).0)
create_cluster-kept store name config node_num (err x) con e = con
create_cluster-kept store name config node_num panic con e = con
create_cluster-kept store name config node_num (ok chunks) con e =
    let (pairs, absent, len, free, made) = plan_cluster-ok store name node_num chunks con.kept e in
    let (some_pair, addresses) = proxy_resource_to_chunk_store-addresses pairs true chunks made in
    (create_cluster_lem store name config pairs chunks con (absent_key name store.clusters absent)
      free addresses).1

-- Whatever the number of nodes, the store stays consistent.
pub add_cluster-kept :
    (fits : Text → Bool) (store : MetaStore) (name : Text) (node_num : ℕ) (config : ClusterConfig)
    → IsConsistent store
    → IsConsistent ((add_cluster fits store name node_num config).0)
unfolding add_cluster
add_cluster-kept fits store name node_num config con =
    elim (Bool-cases (store.enable_ordered_proxy && not (is_empty store.clusters))) [
      | inl second ↦ rw second con
      | inr first ↦ rw first (elim (Option-cases (cluster_name_from fits name)) [
        | inl invalid ↦ rw invalid con
        | inr (n, valid) ↦
            rw valid
              (create_cluster-kept store n config node_num (plan_cluster store n node_num) con refl)
      ])
    ]

-- Let the store be consistent and the number of nodes at most twice the number of slots. Then the
-- store is consistent behind `add_cluster`, which either succeeds, and then the named cluster is
-- there, with as many nodes as asked for, compacted range lists, no migration, each of the 16384 slots
-- owned by exactly one master and no other slot owned; or it does not, and leaves the store as it was.
pub add_cluster-IsConsistent :
    (fits : Text → Bool) (store : MetaStore) (name : Text) (node_num : ℕ) (config : ClusterConfig)
    → IsConsistent store
    → node_num ≤ 2 * slot_num
    → FoundedOr store name node_num (add_cluster fits store name node_num config)
unfolding add_cluster
add_cluster-IsConsistent fits store name node_num config con few =
    elim (Bool-cases (store.enable_ordered_proxy && not (is_empty store.clusters))) [
      | inl second ↦ rw second (con, inr (λ h. cc, refl))
      | inr first ↦ rw first (elim (Option-cases (cluster_name_from fits name)) [
        | inl invalid ↦ rw invalid (con, inr (λ h. cc, refl))
        | inr (n, valid) ↦
            rw (valid, cluster_name_from-same fits name n valid)
              (create_cluster-FoundedOr store name config node_num
                (plan_cluster store name node_num) con few refl)
      ])
    ]
