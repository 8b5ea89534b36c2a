-- ===== src/Broker/Proxies/Consistent.antt =====
-- Proxies and clusters name one another, which is part of what `check_metadata` of src/broker/query.rs
-- looks for: that function also compares the hosts and the node addresses of chunks and proxies.
use undermoon.Prelude.{
  ℕ, ◌+◌, ◌≡◌, refl, sym, ap, subst, ◌∙◌, inl, inr, Bool, true, false, Option, none, some, List,
  arith, to_num, ltb, text_eq, text_eq_iff, if◌then◌else◌, Bool-cases,
}
use undermoon.Dict
use undermoon.Cluster.{Text, ClusterName}
use undermoon.Broker.Store.{ClusterStore}
use undermoon.Broker.Views.{get_proxy_addresses}
use undermoon.Broker.MetaStore.{ProxyResource, MetaStore}
use undermoon.Broker.Proxies.{text_mem}
use undermoon.Broker.Proxies.Mult.{mult, text_mem-mult}
use undermoon.Broker.Proxies.Tagging.{IsKept, retagged}

abbrev pub names_cluster : Option ClusterName → ClusterName → Bool
names_cluster none name = false
names_cluster (some n) name = text_eq n name

abbrev pub serves : Option ProxyResource → ClusterName → Bool
serves none name = false
serves (some proxy) name = names_cluster proxy.cluster name

-- How often the chunks of a cluster hold a proxy.
abbrev pub held : Option ClusterStore → Text → ℕ
held none address = 0
held (some cluster) address = mult address (get_proxy_addresses cluster.chunks)

-- A cluster holds a proxy once if the proxy names the cluster, and else not at all.
abbrev pub Agree : (ClusterName → Option ClusterStore) → (Text → Option ProxyResource) → Type 0
Agree clusters proxies =
    (address name : Text) → held (clusters name) address ≡ to_num (serves (proxies address) name)

pub record IsConsistent (store : MetaStore) : Type 0 where
  pub kept : IsKept store.all_proxies
  pub agree :
      Agree
        (λ name. Dict.lookup name store.clusters)
        (λ address. Dict.lookup address store.all_proxies)

pub serves-one :
    (o : Option ProxyResource) (name n : ClusterName)
    → serves o name ≡ true
    → text_eq name n ≡ false
    → serves o n ≡ false
serves-one none name n h differ = cc
serves-one (some proxy) name n h differ = one proxy.cluster h
  where
    one : (c : Option ClusterName) → names_cluster c name ≡ true → names_cluster c n ≡ false
    one none k = refl
    one (some m) k = rw ((text_eq_iff m name).0 k) differ

-- No other cluster than the named one has the proxy.
abbrev pub IsOpenTo : ClusterName → Option ProxyResource → Type 0
IsOpenTo name o =
    (proxy : ProxyResource) × (o ≡ some proxy)
    × ((n : ClusterName) → text_eq name n ≡ false → names_cluster proxy.cluster n ≡ false)

module _ (name : ClusterName) (tags : List Text)
    (clusters clusters' : ClusterName → Option ClusterStore)
    (proxies proxies' : Text → Option ProxyResource) (cluster' : Option ClusterStore)
    (put : (n : ClusterName) → clusters' n ≡ (if text_eq name n then cluster' else clusters n))
    (agree : Agree clusters proxies) where
  -- The tagged proxies join the cluster.
  pub Agree-joined :
      ((a : Text) → proxies' a ≡ retagged (text_mem a tags) (some name) (proxies a))
      → ((a : Text) → text_mem a tags ≡ true → IsOpenTo name (proxies a))
      → ((a : Text) → held cluster' a ≡ (if text_mem a tags then 1 else held (clusters name) a))
      → Agree clusters' proxies'
  Agree-joined tagged open_to holds a n = elim (Bool-cases (text_eq name n)) [
    | inl same ↦
        let e : name ≡ n = (text_eq_iff name n).0 same in
        elim (Bool-cases (text_mem a tags)) [
          | inl in_tags ↦
              let (proxy, there, o) = open_to a in_tags in
              rw (put n, same, tagged a, in_tags, there) (holds a ∙ rw (in_tags, same) refl)
          | inr not_tagged ↦
              rw (put n, same, tagged a, not_tagged)
                (holds a ∙ rw not_tagged (agree a name ∙ ap (λ t. to_num (serves (proxies a) t)) e))
        ]
    | inr differ ↦
        rw (put n, differ, tagged a)
          (elim (Bool-cases (text_mem a tags)) [
            | inl in_tags ↦
                let (proxy, there, o) = open_to a in_tags in
                agree a n ∙ rw (in_tags, there, o n differ, differ) refl
            | inr not_tagged ↦ agree a n ∙ rw not_tagged refl
          ])
  ]

  -- The tagged proxies leave the cluster.
  pub Agree-left :
      ((a : Text) → proxies' a ≡ retagged (text_mem a tags) none (proxies a))
      → ((a : Text) → held cluster' a + mult a tags ≡ held (clusters name) a)
      → Agree clusters' proxies'
  Agree-left tagged holds a n =
      let was = agree a name in
      elim (Bool-cases (text_mem a tags)) [
        | inl in_tags ↦
            let some_time : ltb 0 (mult a tags) ≡ true = sym (text_mem-mult a tags) ∙ in_tags in
            rw (put n, tagged a, in_tags, free (proxies a) n)
              (elim (Bool-cases (text_eq name n)) [
                | inl same ↦ rw same (ground (arith, holds a))
                | inr differ ↦
                    let served : serves (proxies a) name ≡ true = ground (arith, holds a) in
                    rw differ (agree a n ∙ rw (serves-one (proxies a) name n served differ) refl)
              ])
        | inr not_tagged ↦
            let no_time : ltb 0 (mult a tags) ≡ false = sym (text_mem-mult a tags) ∙ not_tagged in
            rw (put n, tagged a, not_tagged)
              (elim (Bool-cases (text_eq name n)) [
                | inl same ↦
                    let e : name ≡ n = (text_eq_iff name n).0 same in
                    rw same (
                      subst (λ t. held cluster' a ≡ to_num (serves (proxies a) t)) e
                        (ground (arith, holds a)))
                | inr differ ↦ rw differ (agree a n)
              ])
      ]
    where
      free : (o : Option ProxyResource) (n : ClusterName) → serves (retagged true none o) n ≡ false
      free none n = refl
      free (some proxy) n = refl
