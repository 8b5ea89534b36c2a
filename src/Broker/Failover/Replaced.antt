-- ===== src/Broker/Failover/Replaced.antt =====
-- `replace_failed_proxy` of src/broker/update.rs keeps the store consistent, wherever it stops.
use undermoon.Prelude.{
  ℕ, ◌+◌, ◌≤◌, ◌≡◌, refl, sym, ap, subst, ◌∙◌, inl, inr, Bool, true, false, Option, none, some,
  List, [], ◌∷◌, arith, to_num, text_eq, text_eq_iff, text_eq_refl, if◌then◌else◌, Bool-cases, ok,
  err, panic, expect, ok_or, bind-ok, expect-ok, some_inj,
}
use undermoon.Dict
use undermoon.Dict.{Dict}
use undermoon.Dict.Laws.{lookup-insert}
use undermoon.Dict.Unique.{lookup-AllEntries}
use undermoon.Cluster.{Text, ClusterName}
use undermoon.Cluster.Nodes.{Node, Proxy}
use undermoon.Broker.Store.{ChunkStore, ClusterStore, proxy_not_found, no_available_resource}
use undermoon.Broker.Migrate.{Run}
use undermoon.Broker.MetaStore.{ProxyResource, MetaStore, Outcome, bump_global_epoch}
use undermoon.Broker.Views.{get_proxy_addresses}
use undermoon.Broker.Proxies.{text_insert, tag_proxy, get_free_proxy_resource}
use undermoon.Broker.Proxies.Mult.{mult}
use undermoon.Broker.Proxies.Tagging.{
  IsKept, StandsAt, retagged, tag_found-IsKept, lookup-tag_found,
}
use undermoon.Broker.Proxies.Consistent.{IsConsistent, held, serves, names_cluster, serves-one}
use undermoon.Broker.Allocate.{generate_free_host_proxies}
use undermoon.Broker.Allocate.Links.{build_link_table, least_of}
use undermoon.Broker.Allocate.Free.{addresses_of, free_found}
use undermoon.Broker.Allocate.Picked.{free_once}
use undermoon.Broker.Query.{HostProxy, host_proxies, get_free_proxies}
use undermoon.Broker.Nodes.Grown.{free_unserved}
use undermoon.Broker.Failover.{
  ProxyOutcome, free_peers, find_host, generate_new_free_proxy, replace_chunks, replaced_store,
  show_proxy, put_proxy_in, replace_with, replace_after, replace_in, replace_found,
  replace_failed_proxy, takeover_master,
}
use undermoon.Broker.Failover.Renewed.{takeover_master-HasTakenOver}

find_host-listed :
    (host : Text) (ps : List ProxyResource) (x : HostProxy)
    → find_host host (host_proxies ps) ≡ some x
    → 1 ≤ mult x.proxy_address (addresses_of ps)
unfolding find_host host_proxies
find_host-listed host [] x h = cc
find_host-listed host (p ∷ ps) x h = elim (Bool-cases (text_eq host p.host)) [
  | inl this ↦
      let there : record { host = p.host; proxy_address = p.proxy_address } ≡ x = some_inj (
        subst
          (λ b.
            (if b
              then some (record { host = p.host; proxy_address = p.proxy_address })
              else find_host host (host_proxies ps))
            ≡ some x)
          this h) in
      let same : p.proxy_address ≡ x.proxy_address =
        ap (λ (y : HostProxy). y.proxy_address) there in
      rw (same, text_eq_refl x.proxy_address) (omega arith)
  | inr other ↦ omega (
    arith,
    find_host-listed host ps x (
        subst
          (λ b.
            (if b
              then some (record { host = p.host; proxy_address = p.proxy_address })
              else find_host host (host_proxies ps))
            ≡ some x)
          other h),
  )
]

-- The new proxy is a free one of the store.
generate_new_free_proxy-ok :
    (store : MetaStore) (failed : Text) (proxy : ProxyResource)
    → IsKept store.all_proxies
    → generate_new_free_proxy store failed ≡ ok proxy
    → (Dict.lookup proxy.proxy_address store.all_proxies ≡ some proxy)
      × (free_found store (some proxy) ≡ true)
unfolding generate_new_free_proxy
generate_new_free_proxy-ok store failed proxy kept h =
    let hosts = generate_free_host_proxies store in
    let (old, e, h₁) =
      bind-ok (ok_or (Dict.lookup failed store.all_proxies) proxy_not_found) _ proxy h in
    let (links, e₁, h₂) =
      bind-ok (expect (Dict.lookup old.host (build_link_table store))) _ proxy h₁ in
    let (peer_host, e₂, h₃) =
      bind-ok (ok_or (least_of hosts (free_peers hosts links)) no_available_resource) _ proxy h₂ in
    let (peer, e₃, h₄) =
      bind-ok (expect (find_host peer_host (get_free_proxies store))) _ proxy h₃ in
    let found = expect-ok (Dict.lookup peer.proxy_address store.all_proxies) proxy h₄ in
    let stands : proxy.proxy_address ≡ peer.proxy_address =
      lookup-AllEntries StandsAt peer.proxy_address proxy store.all_proxies kept.keyed found in
    let listed =
      find_host-listed peer_host (get_free_proxy_resource store) peer
        (expect-ok (find_host peer_host (get_free_proxies store)) peer e₃) in
    let once : mult peer.proxy_address (addresses_of (get_free_proxy_resource store))
        ≤ to_num (free_found store (some proxy)) =
      subst
        (λ o.
          mult peer.proxy_address (addresses_of (get_free_proxy_resource store))
          ≤ to_num (free_found store o))
        found (free_once store peer.proxy_address kept) in
    (
      ap (λ t. Dict.lookup t store.all_proxies) stands ∙ found,
      is_true (free_found store (some proxy)) (omega (arith, listed, once)),
    )
  where
    is_true : (b : Bool) → 1 ≤ to_num b → b ≡ true
    is_true b k = ground arith

-- One address is exchanged for another, if the chunks hold it.
replace_chunks-mult :
    (failed a : Text) (proxy : ProxyResource) (chunks : List ChunkStore)
    → 1 ≤ mult failed (get_proxy_addresses chunks)
    → mult a (get_proxy_addresses (replace_chunks failed proxy chunks)) + to_num (text_eq failed a)
      ≡ mult a (get_proxy_addresses chunks) + to_num (text_eq proxy.proxy_address a)
unfolding replace_chunks get_proxy_addresses
replace_chunks-mult failed a proxy [] h = absurd (omega arith)
replace_chunks-mult failed a proxy (chunk ∷ chunks) h =
    elim (Bool-cases (text_eq chunk.proxy_addresses.first failed)) [
      | inl first ↦
          let same = (text_eq_iff chunk.proxy_addresses.first failed).0 first in
          rw first (omega (arith, ap (λ t. to_num (text_eq t a)) same))
      | inr not_first ↦ elim (Bool-cases (text_eq chunk.proxy_addresses.second failed)) [
        | inl second ↦
            let same = (text_eq_iff chunk.proxy_addresses.second failed).0 second in
            rw (not_first, second) (omega (arith, ap (λ t. to_num (text_eq t a)) same))
        | inr not_second ↦
            rw (not_first, not_second)
              (omega (
                arith,
                replace_chunks-mult failed a proxy chunks
                    (ground (arith, h, not_first, not_second)),
              ))
      ]
    ]

unnamed_serves :
    (o : Option ProxyResource) (n : ClusterName) → serves (retagged true none o) n ≡ false
unnamed_serves none n = refl
unnamed_serves (some proxy) n = refl

module _ (store : MetaStore) (name : ClusterName) (failed : Text) (proxy : ProxyResource)
    (cluster : ClusterStore) (con : IsConsistent store)
    (there : Dict.lookup name store.clusters ≡ some cluster)
    (served : serves (Dict.lookup failed store.all_proxies) name ≡ true)
    (found : Dict.lookup proxy.proxy_address store.all_proxies ≡ some proxy)
    (free : (n : ClusterName) → serves (some proxy) n ≡ false) where
  abbrev at : Text → Option ProxyResource
  at a = Dict.lookup a store.all_proxies

  exchanged :
      (a : Text)
      → mult a (get_proxy_addresses (replace_chunks failed proxy cluster.chunks))
          + to_num (text_eq failed a)
        ≡ to_num (serves (at a) name) + to_num (text_eq proxy.proxy_address a)
  exchanged a =
      let was = λ (t : Text).
        subst (λ o. held o t ≡ to_num (serves (at t) name)) there (con.agree t name) in
      replace_chunks-mult failed a proxy cluster.chunks
        (omega (arith, was failed, ap to_num served))
      ∙ ap (λ n. n + to_num (text_eq proxy.proxy_address a)) (was a)

  -- The new proxy is another one than the failed one.
  proxy_cases :
      (a : Text)
      → let new = text_eq proxy.proxy_address a in
        let old = text_eq failed a in
        to_num (serves (retagged new (some name) (retagged old none (at a))) name) + to_num old
        ≡ to_num (serves (at a) name) + to_num new
  proxy_cases a = elim (Bool-cases (text_eq proxy.proxy_address a)) [
    | inl new ↦
        let here : at a ≡ some proxy =
          ap at (sym ((text_eq_iff proxy.proxy_address a).0 new)) ∙ found in
        elim (Bool-cases (text_eq failed a)) [
          | inl old ↦
              let mine : serves (some proxy) name ≡ true =
                ap (λ o. serves o name) (sym (ap at ((text_eq_iff failed a).0 old) ∙ here))
                ∙ served in
              absurd (ground (arith, mine, free name))
          | inr not_old ↦ rw (new, not_old, here, text_eq_refl name, free name) (omega arith)
        ]
    | inr not_new ↦ elim (Bool-cases (text_eq failed a)) [
      | inl old ↦
          let mine : serves (at a) name ≡ true =
            ap (λ t. serves (at t) name) (sym ((text_eq_iff failed a).0 old)) ∙ served in
          rw (not_new, old, unnamed_serves (at a) name, mine) (omega arith)
      | inr not_old ↦ rw (not_new, not_old) (omega arith)
    ]
  ]

  others_cases :
      (a n : Text)
      → text_eq name n ≡ false
      → serves
          (retagged
            (text_eq proxy.proxy_address a)
            (some name)
            (retagged (text_eq failed a) none (at a)))
          n
        ≡ serves (at a) n
  others_cases a n differ = elim (Bool-cases (text_eq proxy.proxy_address a)) [
    | inl new ↦
        let here : at a ≡ some proxy =
          ap at (sym ((text_eq_iff proxy.proxy_address a).0 new)) ∙ found in
        named (text_eq failed a) here new
    | inr not_new ↦ elim (Bool-cases (text_eq failed a)) [
      | inl old ↦
          let mine : serves (at a) name ≡ true =
            ap (λ t. serves (at t) name) (sym ((text_eq_iff failed a).0 old)) ∙ served in
          rw (not_new, old, unnamed_serves (at a) n, serves-one (at a) name n mine differ) refl
      | inr not_old ↦ rw (not_new, not_old) refl
    ]
  ]
    where
      named :
          (b : Bool)
          → at a ≡ some proxy
          → text_eq proxy.proxy_address a ≡ true
          → serves (retagged (text_eq proxy.proxy_address a) (some name) (retagged b none (at a))) n
            ≡ serves (at a) n
      named true here new = rw (new, here, differ, free n) refl
      named false here new = rw (new, here, differ, free n) refl

  replaced-IsConsistent : IsConsistent (replaced_store store name cluster failed proxy)
  replaced-IsConsistent =
      let proxies = store.all_proxies in
      let freed = tag_proxy none failed proxies in
      let after : ClusterStore = record cluster {
        chunks = replace_chunks failed proxy cluster.chunks;
        epoch = store.global_epoch;
      } in
      let now : (a : Text)
          → Dict.lookup a (tag_proxy (some name) proxy.proxy_address freed)
            ≡ retagged (text_eq proxy.proxy_address a) (some name)
                (retagged (text_eq failed a) none (at a)) =
        λ a.
          lookup-tag_found proxy.proxy_address a (some name) freed _ refl
          ∙ ap (retagged (text_eq proxy.proxy_address a) (some name))
              (lookup-tag_found failed a none proxies _ refl) in
      record {
        kept =
            tag_found-IsKept proxy.proxy_address (some name) freed _ refl
              (tag_found-IsKept failed none proxies _ refl con.kept);
        agree = λ a n. elim (Bool-cases (text_eq name n)) [
          | inl same ↦
              let e : name ≡ n = (text_eq_iff name n).0 same in
              rw (lookup-insert name n after store.clusters, same, now a)
                (subst
                  (λ t.
                    mult a (get_proxy_addresses after.chunks)
                    ≡ to_num (
                        serves
                          (retagged (text_eq proxy.proxy_address a) (some name)
                            (retagged (text_eq failed a) none (at a)))
                          t))
                  e (omega (arith, exchanged a, proxy_cases a)))
          | inr differ ↦
              rw (lookup-insert name n after store.clusters, differ, now a)
                (con.agree a n ∙ ap to_num (sym (others_cases a n differ)))
        ];
      }

-- Clusters with other migrations and the same proxies.
pub same_proxies :
    (store store' : MetaStore) (name : ClusterName) (cluster cluster' : ClusterStore)
    → IsConsistent store
    → store'.all_proxies ≡ store.all_proxies
    → ((n : Text)
        → text_eq name n ≡ false
        → Dict.lookup n store'.clusters ≡ Dict.lookup n store.clusters)
    → Dict.lookup name store.clusters ≡ some cluster
    → Dict.lookup name store'.clusters ≡ some cluster'
    → get_proxy_addresses cluster'.chunks ≡ get_proxy_addresses cluster.chunks
    → IsConsistent store'
same_proxies store store' name cluster cluster' con proxies others e e' same = record {
  kept = subst IsKept (sym proxies) con.kept;
  agree = λ a n.
      held_same a n ∙ con.agree a n ∙ ap (λ ps. to_num (serves (Dict.lookup a ps) n)) (sym proxies);
}
  where
    held_same :
        (a n : Text)
        → held (Dict.lookup n store'.clusters) a ≡ held (Dict.lookup n store.clusters) a
    held_same a n = elim (Bool-cases (text_eq name n)) [
      | inl here ↦
          subst
            (λ t. held (Dict.lookup t store'.clusters) a ≡ held (Dict.lookup t store.clusters) a)
            ((text_eq_iff name n).0 here)
            (ap (λ o. held o a) e' ∙ ap (mult a) same ∙ sym (ap (λ o. held o a) e))
      | inr differ ↦ ap (λ o. held o a) (others n differ)
    ]

module _ (group_by : (Node → Text) → List Node → List (Text × List Node)) (limit : ℕ) where
  either :
      (b : Bool) (x y : ProxyOutcome)
      → IsConsistent x.0
      → IsConsistent y.0
      → IsConsistent ((if b then x else y).0)
  either true x y h k = h
  either false x y h k = k

  show_proxy-IsConsistent :
      (store : MetaStore) (r : Run (Option Proxy))
      → IsConsistent store
      → IsConsistent ((show_proxy store r).0)
  show_proxy-IsConsistent store (ok (some p)) con = con
  show_proxy-IsConsistent store (ok none) con = con
  show_proxy-IsConsistent store (err e) con = con
  show_proxy-IsConsistent store panic con = con

  put_proxy_in-IsConsistent :
      (store : MetaStore) (name : ClusterName) (failed : Text) (proxy : ProxyResource)
      (o : Option ClusterStore)
      → IsConsistent store
      → Dict.lookup name store.clusters ≡ o
      → serves (Dict.lookup failed store.all_proxies) name ≡ true
      → Dict.lookup proxy.proxy_address store.all_proxies ≡ some proxy
      → ((n : ClusterName) → serves (some proxy) n ≡ false)
      → IsConsistent ((put_proxy_in group_by limit store name failed proxy o).0)
  put_proxy_in-IsConsistent store name failed proxy none con e served found free = con
  put_proxy_in-IsConsistent store name failed proxy (some cluster) con e served found free =
      show_proxy-IsConsistent _ _
        (replaced-IsConsistent store name failed proxy cluster con e served found free)

  replace_with-IsConsistent :
      (store : MetaStore) (name : ClusterName) (failed : Text) (r : Run ProxyResource)
      → IsConsistent store
      → serves (Dict.lookup failed store.all_proxies) name ≡ true
      → generate_new_free_proxy store failed ≡ r
      → IsConsistent ((replace_with group_by limit store name failed r).0)
  replace_with-IsConsistent store name failed (ok proxy) con served e =
      let (found, free) = generate_new_free_proxy-ok store failed proxy con.kept e in
      put_proxy_in-IsConsistent (bump_global_epoch store) name failed proxy _
        (record { kept = con.kept; agree = con.agree }) refl served found
        (λ n. free_unserved store n (some proxy) free)
  replace_with-IsConsistent store name failed (err x) con served e = con
  replace_with-IsConsistent store name failed panic con served e = con

  replace_after-IsConsistent :
      (name : ClusterName) (failed : Text) (outcome : Outcome)
      → IsConsistent outcome.0
      → serves (Dict.lookup failed outcome.0.all_proxies) name ≡ true
      → IsConsistent ((replace_after group_by limit name failed outcome).0)
  replace_after-IsConsistent name failed (store, ok u) con served =
      either store.enable_ordered_proxy _ _ (record { kept = con.kept; agree = con.agree })
        (replace_with-IsConsistent
          (record store { failed_proxies = text_insert failed store.failed_proxies }) name failed _
          (record { kept = con.kept; agree = con.agree }) served refl)
  replace_after-IsConsistent name failed (store, err e) con served = con
  replace_after-IsConsistent name failed (store, panic) con served = con

  taken-IsConsistent :
      (store : MetaStore) (name : ClusterName) (failed : Text) (o : Option ClusterStore)
      → IsConsistent store
      → Dict.lookup name store.clusters ≡ o
      → IsConsistent ((takeover_master store name failed).0)
        × ((takeover_master store name failed).0.all_proxies ≡ store.all_proxies)
  unfolding takeover_master
  taken-IsConsistent store name failed none con e =
      rw (e, takeover_master) (record { kept = con.kept; agree = con.agree }, refl)
  taken-IsConsistent store name failed (some cluster) con e =
      let (done, proxies, others, (cluster', peers, there, r)) =
        takeover_master-HasTakenOver store name failed cluster e in
      (same_proxies store _ name cluster cluster' con proxies others e there r.proxies, proxies)

  -- Let the store be consistent. Then it is consistent behind `replace_failed_proxy`, whether this replaces
  -- the proxy, only marks it as failed or promotes its peer, or fails on the way.
  pub replace_failed_proxy-IsConsistent :
      (store : MetaStore) (failed : Text)
      → IsConsistent store
      → IsConsistent ((replace_failed_proxy group_by limit store failed).0)
  unfolding replace_failed_proxy
  replace_failed_proxy-IsConsistent store failed con =
      found (Dict.lookup failed store.all_proxies) refl
    where
      clustered :
          (proxy : ProxyResource) (c : Option ClusterName)
          → Dict.lookup failed store.all_proxies ≡ some proxy
          → proxy.cluster ≡ c
          → IsConsistent ((replace_in group_by limit store failed c).0)
      clustered proxy none e k = record { kept = con.kept; agree = con.agree }
      clustered proxy (some name) e k =
          let (con', proxies) = taken-IsConsistent store name failed _ con refl in
          replace_after-IsConsistent name failed (takeover_master store name failed) con' (
            ap (λ ps. serves (Dict.lookup failed ps) name) proxies
            ∙ ap (λ o. serves o name) e
            ∙ ap (λ c. names_cluster c name) k
            ∙ text_eq_refl name)

      found :
          (o : Option ProxyResource)
          → Dict.lookup failed store.all_proxies ≡ o
          → IsConsistent ((replace_found group_by limit store failed o).0)
      found none e = con
      found (some proxy) e = clustered proxy proxy.cluster e refl
