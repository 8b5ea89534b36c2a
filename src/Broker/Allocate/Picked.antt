-- ===== src/Broker/Allocate/Picked.antt =====
-- The chunks of src/broker/update.rs for a new or a growing cluster are made of different free proxies, and
-- as many as asked for.
use undermoon.Prelude.{
  ℕ, suc, ◌+◌, ◌*◌, ◌/◌, ◌≤◌, ◌≡◌, refl, ap, ◌∙◌, inl, inr, List, [], ◌∷◌, length, take, ltb,
  to_num, arith, if◌then◌else◌, Bool-cases, ok, expect, refuse_if, bind-ok, expect-ok, refuse_if-ok,
  ok_inj, subst,
}
use undermoon.Dict
use undermoon.Dict.{Dict}
use undermoon.Dict.Unique.{AllEntries, lookup-AllEntries}
use undermoon.Cluster.{Text}
use undermoon.Broker.Store.{Two, no_available_resource, resource_not_balance}
use undermoon.Broker.MetaStore.{ProxyResource, MetaStore}
use undermoon.Broker.Chunks.{Pairs}
use undermoon.Broker.Proxies.{get_free_proxy_resource}
use undermoon.Broker.Proxies.Mult.{mult}
use undermoon.Broker.Proxies.Tagging.{StandsAt, IsKept}
use undermoon.Broker.Allocate.{
  sort_by_index, check_first, generate_free_chunks_for_ordered_proxy_index,
  generate_free_host_proxies, remove_redundant_chunks, sum_proxies, max_proxies, allocate_chunk,
  resources_of, generate_free_chunks, generate_chunks,
}
use undermoon.Broker.Allocate.Links.{HostProxies, LinkTable, build_link_table}
use undermoon.Broker.Allocate.Free.{
  addresses_of, pair_addresses, free_found, free_among-mult, sort_by_index-mult,
  sort_by_index-length, take-mult, take-length, pair_up-mult,
}
use undermoon.Broker.Allocate.Pool.{
  pool, both_of, group_by_host-pool, remove_redundant_chunks-pool, allocate_pairs-pool,
}

resources_of-addresses :
    (proxies : Dict ProxyResource) (addresses : List (Two Text)) (pairs : Pairs)
    → AllEntries StandsAt proxies
    → resources_of proxies addresses ≡ ok pairs
    → (length pairs ≡ length addresses) × (pair_addresses pairs ≡ both_of addresses)
unfolding resources_of
resources_of-addresses proxies [] [] k h = (refl, refl)
resources_of-addresses proxies [] (pair ∷ pairs) k h = cc
resources_of-addresses proxies (two ∷ addresses) pairs k h =
    let (a, e, h₁) = bind-ok (expect (Dict.lookup two.first proxies)) _ pairs h in
    let (b, e₁, h₂) = bind-ok (expect (Dict.lookup two.second proxies)) _ pairs h₁ in
    let (rest, e₂, done) = bind-ok (resources_of proxies addresses) _ pairs h₂ in
    let (len, same) = resources_of-addresses proxies addresses rest k e₂ in
    let stands : a.proxy_address ≡ two.first =
      lookup-AllEntries StandsAt two.first a proxies k
        (expect-ok (Dict.lookup two.first proxies) a e) in
    let stands₁ : b.proxy_address ≡ two.second =
      lookup-AllEntries StandsAt two.second b proxies k
        (expect-ok (Dict.lookup two.second proxies) b e₁) in
    subst
      (λ ps.
        (length ps ≡ suc (length addresses))
        × (pair_addresses ps ≡ two.first ∷ two.second ∷ both_of addresses))
      (ok_inj done) (ap suc len, rw (stands, stands₁, same) refl)

allocate_chunk-pool :
    (hosts : HostProxies) (links : LinkTable) (n : ℕ) (pairs : List (Two Text))
    → allocate_chunk hosts links n ≡ ok pairs
    → (length pairs ≡ (n + 1) / 2) × ((a : Text) → mult a (both_of pairs) ≤ mult a (pool hosts))
unfolding allocate_chunk
allocate_chunk-pool hosts links n pairs h =
    let (u, e, h₁) =
      bind-ok (refuse_if (ltb (sum_proxies hosts) n) no_available_resource) _ pairs h in
    let (v, e₁, h₂) =
      bind-ok (refuse_if (ltb (sum_proxies hosts) (max_proxies hosts * 2)) resource_not_balance) _
        pairs h₁ in
    allocate_pairs-pool ((n + 1) / 2) hosts links pairs h₂

-- Each address of the pairs is that of a free proxy, and stands there once.
abbrev pub AreFree : MetaStore → Pairs → Type 0
AreFree store pairs =
    (a : Text)
    → mult a (pair_addresses pairs) ≤ to_num (free_found store (Dict.lookup a store.all_proxies))

pub free_once :
    (store : MetaStore) (a : Text)
    → IsKept store.all_proxies
    → mult a (addresses_of (get_free_proxy_resource store))
      ≤ to_num (free_found store (Dict.lookup a store.all_proxies))
unfolding get_free_proxy_resource
free_once store a kept = free_among-mult store a store.all_proxies kept.unique kept.keyed

generate_free_chunks-AreFree :
    (store : MetaStore) (n : ℕ) (pairs : Pairs)
    → IsKept store.all_proxies
    → generate_free_chunks store n ≡ ok pairs
    → (length pairs ≡ (n + 1) / 2) × AreFree store pairs
unfolding generate_free_chunks generate_free_host_proxies
generate_free_chunks-AreFree store n pairs kept h =
    let hosts = generate_free_host_proxies store in
    let (left, e, h₁) = bind-ok (remove_redundant_chunks hosts n) _ pairs h in
    let (addresses, e₁, done) =
      bind-ok (allocate_chunk left (build_link_table store) n) _ pairs h₁ in
    let (len, m) = allocate_chunk-pool left (build_link_table store) n addresses e₁ in
    let (len₁, same) = resources_of-addresses store.all_proxies addresses pairs kept.keyed done in
    (
      len₁ ∙ len,
      λ a. omega (
        arith,
        ap (mult a) same,
        m a,
        remove_redundant_chunks-pool a hosts left n e,
        group_by_host-pool a (get_free_proxy_resource store) [],
        free_once store a kept,
      ),
    )

ordered-AreFree :
    (store : MetaStore) (n first_index : ℕ) (pairs : Pairs)
    → IsKept store.all_proxies
    → generate_free_chunks_for_ordered_proxy_index store n first_index ≡ ok pairs
    → (length pairs * 2 ≡ n) × AreFree store pairs
unfolding generate_free_chunks_for_ordered_proxy_index
ordered-AreFree store n first_index pairs kept h =
    let free = get_free_proxy_resource store in
    let chosen = take n (sort_by_index free) in
    let (u, e, h₁) = bind-ok (refuse_if (ltb (length free) n) no_available_resource) _ pairs h in
    let (v, e₁, done) = bind-ok (check_first first_index chosen) _ pairs h₁ in
    let (len, m) = pair_up-mult chosen pairs done in
    let enough = refuse_if-ok (ltb (length free) n) no_available_resource u e in
    let all : length chosen ≡ n =
      take-length n (sort_by_index free) (ground (arith, sort_by_index-length free, enough)) in
    (
      len ∙ all,
      λ a. omega (
        arith,
        m a,
        take-mult a n (sort_by_index free),
        sort_by_index-mult a free,
        free_once store a kept,
      ),
    )

-- The chunks that a new or growing cluster gets, in either mode, are made of free proxies, each
-- in one place only. An even number of proxies is asked for.
pub generate_chunks-AreFree :
    (store : MetaStore) (half first_index : ℕ) (pairs : Pairs)
    → IsKept store.all_proxies
    → generate_chunks store (half * 2) first_index ≡ ok pairs
    → (length pairs ≡ half) × AreFree store pairs
generate_chunks-AreFree store half first_index pairs kept h =
    elim (Bool-cases store.enable_ordered_proxy) [
      | inl ordered ↦
          let (len, free) = ordered-AreFree store (half * 2) first_index pairs kept (
            subst
              (λ b.
                (if b
                  then generate_free_chunks_for_ordered_proxy_index store (half * 2) first_index
                  else generate_free_chunks store (half * 2))
                ≡ ok pairs)
              ordered h) in
          (omega (arith, len), free)
      | inr plain ↦
          let (len, free) = generate_free_chunks-AreFree store (half * 2) pairs kept (
            subst
              (λ b.
                (if b
                  then generate_free_chunks_for_ordered_proxy_index store (half * 2) first_index
                  else generate_free_chunks store (half * 2))
                ≡ ok pairs)
              plain h) in
          (omega (arith, len), free)
    ]
