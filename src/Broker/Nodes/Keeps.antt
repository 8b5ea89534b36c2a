-- ===== src/Broker/Nodes/Keeps.antt =====
-- Proxies come and go, and a cluster goes (src/broker/update.rs): the store stays consistent.
use undermoon.Prelude.{
  ℕ, ◌≡◌, ◌≢◌, ◌⊎◌, refl, sym, ap, ◌∙◌, inl, inr, Bool, true, false, not, ◌||◌, Option, none, some,
  to_num, arith, text_eq, text_eq_iff, text_eq_refl, if◌then◌else◌, Bool-cases, Option-cases, ok,
  err, panic, ◌==◌,
}
use undermoon.Dict
use undermoon.Dict.Laws.{lookup-insert, lookup-remove}
use undermoon.Cluster.{Text, ClusterName}
use undermoon.Broker.Store.{Two, ClusterStore}
use undermoon.Broker.Migrate.{Run, is_none}
use undermoon.Broker.MetaStore.{ProxyResource, MetaStore, Outcome, cluster_name_from}
use undermoon.Broker.Views.{get_proxy_addresses}
use undermoon.Broker.Proxies.{
  text_mem, or_insert, clear_failures, bump_if, count_colons, host_or, index_for, put_proxy,
  add_indexed, add_proxy, remove_found, remove_proxy,
}
use undermoon.Broker.Proxies.Tagging.{
  insert-IsKept, remove-IsKept, tag_proxies-IsKept, lookup-tag_proxies,
}
use undermoon.Broker.Proxies.Consistent.{IsConsistent, Agree, Agree-left, serves, names_cluster}
use undermoon.Broker.Nodes.{remove_found_cluster, remove_cluster}
use undermoon.Broker.Nodes.Founded.{absent_key, cluster_name_from-same}

-- The cluster is gone, or nothing has changed.
abbrev pub RemovedOr : MetaStore → Text → Outcome → Type 0
RemovedOr store name (store', result) =
    IsConsistent store'
    × (((result ≡ ok tt) × (Dict.lookup name store'.clusters ≡ none))
        ⊎ ((result ≢ ok tt) × (store' ≡ store)))

removed_cluster :
    (store : MetaStore) (name : ClusterName) (found : Option ClusterStore)
    → IsConsistent store
    → Dict.lookup name store.clusters ≡ found
    → RemovedOr store name (remove_found_cluster store name found)
removed_cluster store name none con e = (con, inr (λ h. cc, refl))
removed_cluster store name (some cluster) con e =
    let tags = get_proxy_addresses cluster.chunks in
    let put = λ (n : Text). lookup-remove name n store.clusters in
    (
      record {
        kept = tag_proxies-IsKept none tags store.all_proxies con.kept;
        agree =
            Agree-left name tags (λ n. Dict.lookup n store.clusters) _
              (λ a. Dict.lookup a store.all_proxies) _ none put con.agree
              (λ a. lookup-tag_proxies none tags a store.all_proxies) (λ a. rw e (omega arith));
      },
      inl (refl, put name ∙ rw (text_eq_refl name) refl),
    )

-- Let the store be consistent. Then it is consistent behind `remove_cluster`, which either succeeds, and
-- then no cluster has the name, or does not, and leaves the store as it was.
pub remove_cluster-IsConsistent :
    (fits : Text → Bool) (store : MetaStore) (name : Text)
    → IsConsistent store
    → RemovedOr store name (remove_cluster fits store name)
unfolding remove_cluster
remove_cluster-IsConsistent fits store name con =
    elim (Option-cases (cluster_name_from fits name)) [
      | inl invalid ↦ rw (invalid, remove_cluster) (con, inr (λ h. cc, refl))
      | inr (n, valid) ↦
          rw (valid, remove_cluster, cluster_name_from-same fits name n valid)
            (removed_cluster store name (Dict.lookup name store.clusters) con refl)
    ]

unserved :
    (p : ProxyResource) (n : ClusterName) → is_none p.cluster ≡ true → serves (some p) n ≡ false
unserved p n free = unnamed p.cluster free
  where
    unnamed : (c : Option ClusterName) → is_none c ≡ true → names_cluster c n ≡ false
    unnamed none e = refl
    unnamed (some m) e = cc

-- A proxy of no cluster is removed or put in without a change for the clusters.
Agree-unserved :
    (clusters : ClusterName → Option ClusterStore) (proxies proxies' : Text → Option ProxyResource)
    (address : Text) (o : Option ProxyResource)
    → Agree clusters proxies
    → ((a : Text) → proxies' a ≡ (if text_eq address a then o else proxies a))
    → ((n : ClusterName) → serves (proxies address) n ≡ serves o n)
    → Agree clusters proxies'
Agree-unserved clusters proxies proxies' address o agree changed same a n =
    elim (Bool-cases (text_eq address a)) [
      | inl this ↦
          let e : address ≡ a = (text_eq_iff address a).0 this in
          rw (changed a, this)
            (agree a n ∙ ap (λ t. to_num (serves (proxies t) n)) (sym e) ∙ ap to_num (same n))
      | inr other ↦ rw (changed a, other) (agree a n)
    ]

removed_proxy :
    (store : MetaStore) (address : Text) (found : Option ProxyResource)
    → IsConsistent store
    → Dict.lookup address store.all_proxies ≡ found
    → IsConsistent ((remove_found store address found).0)
removed_proxy store address none con e = con
removed_proxy store address (some proxy) con e = elim (Bool-cases (is_none proxy.cluster)) [
  | inl free ↦ rw free (record {
    kept = remove-IsKept address store.all_proxies con.kept;
    agree =
        Agree-unserved _ (λ a. Dict.lookup a store.all_proxies) _ address none con.agree
          (λ a. lookup-remove address a store.all_proxies) (λ n. rw e (unserved proxy n free));
  })
  | inr used ↦ rw used con
]

-- Removing a proxy keeps a consistent store consistent, also where it fails.
pub remove_proxy-IsConsistent :
    (store : MetaStore) (address : Text)
    → IsConsistent store
    → IsConsistent ((remove_proxy store address).0)
unfolding remove_proxy
remove_proxy-IsConsistent store address con =
    removed_proxy store address (Dict.lookup address store.all_proxies) con refl

inserted_proxy :
    (store : MetaStore) (address : Text) (proxy : ProxyResource)
    → proxy.proxy_address ≡ address
    → proxy.cluster ≡ none
    → IsConsistent store
    → IsConsistent (record store { all_proxies = or_insert address proxy store.all_proxies })
inserted_proxy store address proxy stands free con =
    elim (Bool-cases (Dict.contains_key address store.all_proxies)) [
      | inl there ↦ rw there con
      | inr absent ↦ rw absent (record {
        kept = insert-IsKept address proxy store.all_proxies stands con.kept;
        agree =
            Agree-unserved _ (λ a. Dict.lookup a store.all_proxies) _ address (some proxy) con.agree
              (λ a. lookup-insert address a proxy store.all_proxies)
              (λ n. rw (absent_key address store.all_proxies absent, free) refl);
      })
    ]

put_proxy-IsConsistent :
    (store : MetaStore) (proxy : ProxyResource)
    → proxy.cluster ≡ none
    → IsConsistent store
    → IsConsistent ((put_proxy store proxy).0)
unfolding put_proxy
put_proxy-IsConsistent store proxy free con =
    let con' = inserted_proxy store proxy.proxy_address proxy refl free con in
    let address = proxy.proxy_address in
    let exists = Dict.contains_key address store.all_proxies in
    let cleared =
      text_mem address store.failed_proxies || Dict.contains_key address store.failures in
    bumped
      (clear_failures address
        (record store { all_proxies = or_insert address proxy store.all_proxies }))
      (not exists || cleared) (record { kept = con'.kept; agree = con'.agree })
  where
    bumped : (s : MetaStore) (b : Bool) → IsConsistent s → IsConsistent (bump_if b s)
    bumped s true c = record { kept = c.kept; agree = c.agree }
    bumped s false c = c

-- Adding a proxy keeps a consistent store consistent, also where it fails or only clears failures.
pub add_proxy-IsConsistent :
    (store : MetaStore) (address : Text) (nodes : Two Text) (host : Option Text) (index : Option ℕ)
    → IsConsistent store
    → IsConsistent ((add_proxy store address nodes host index).0)
unfolding add_proxy
add_proxy-IsConsistent store address nodes host index con =
    elim (Bool-cases (count_colons address == 1)) [
      | inl well ↦ rw well (indexed (index_for store.enable_ordered_proxy index))
      | inr ill ↦ rw ill con
    ]
  where
    indexed :
        (run : Run ℕ)
        → IsConsistent ((add_indexed store address nodes (host_or host address) run).0)
    indexed (ok i) = put_proxy-IsConsistent store _ refl con
    indexed (err e) = con
    indexed panic = con
