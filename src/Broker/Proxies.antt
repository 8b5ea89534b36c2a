-- ===== src/Broker/Proxies.antt =====
-- src/broker/update.rs and src/broker/query.rs: the proxies that the store knows, which cluster each of
-- them serves, and which are free. A HashSet is a list without repetitions.
pub mod Mult
pub mod Tagging
pub mod Consistent
use undermoon.Prelude.{
  ℕ, zero, suc, ◌+◌, Bool, true, false, not, ◌||◌, ◌&&◌, Option, none, some, List, [], ◌∷◌, ◌==◌,
  text_eq, if◌then◌else◌, ok, err, panic, ◌>>=◌, ◌>>◌, expect, refuse_if,
}
use undermoon.Dict
use undermoon.Dict.{Dict}
use undermoon.Cluster.{Text, ClusterName}
use undermoon.Broker.Store.{
  Two, MetaStoreError, invalid_proxy_address, missing_index, already_existed, proxy_not_found,
  in_use,
}
use undermoon.Broker.Migrate.{Run, is_none}
use undermoon.Broker.MetaStore.{ProxyResource, MetaStore, Outcome, bump_global_epoch}

unfoldable pub text_mem : Text → List Text → Bool
text_mem t [] = false
text_mem t (x ∷ xs) = text_eq x t || text_mem t xs

unfoldable pub text_remove : Text → List Text → List Text
text_remove t [] = []
text_remove t (x ∷ xs) = if text_eq x t then text_remove t xs else x ∷ text_remove t xs

abbrev pub text_insert : Text → List Text → List Text
text_insert t xs = if text_mem t xs then xs else t ∷ xs

-- `proxy.cluster = cluster`.
abbrev pub set_cluster : Option ClusterName → ProxyResource → ProxyResource
set_cluster cluster proxy = record proxy { cluster = cluster }

-- `if let Some(proxy) = all_proxies.get_mut(address)`.
abbrev pub tag_found :
    Text → Option ClusterName → Dict ProxyResource → Option ProxyResource → Dict ProxyResource
tag_found address cluster proxies none = proxies
tag_found address cluster proxies (some proxy) =
    Dict.insert address (set_cluster cluster proxy) proxies

abbrev pub tag_proxy : Option ClusterName → Text → Dict ProxyResource → Dict ProxyResource
tag_proxy cluster address proxies = tag_found address cluster proxies (Dict.lookup address proxies)

unfoldable pub tag_proxies :
    Option ClusterName → List Text → Dict ProxyResource → Dict ProxyResource
tag_proxies cluster [] proxies = proxies
tag_proxies cluster (address ∷ addresses) proxies =
    tag_proxies cluster addresses (tag_proxy cluster address proxies)

-- The same with `expect` on each address.
unfoldable pub occupy_proxies :
    ClusterName → List Text → Dict ProxyResource → Run (Dict ProxyResource)
occupy_proxies name [] proxies = ok proxies
occupy_proxies name (address ∷ addresses) proxies = do
  proxy ← expect (Dict.lookup address proxies)
  occupy_proxies name addresses (Dict.insert address (set_cluster (some name) proxy) proxies)

-- `get_free_proxy_resource`: in no cluster, and neither failed nor reported.
abbrev pub is_free : MetaStore → ProxyResource → Bool
is_free store proxy =
    is_none proxy.cluster
    && not (text_mem proxy.proxy_address store.failed_proxies)
    && not (Dict.contains_key proxy.proxy_address store.failures)

unfoldable pub free_among : MetaStore → Dict ProxyResource → List ProxyResource
free_among store [] = []
free_among store ((address, proxy) ∷ proxies) =
    if is_free store proxy then proxy ∷ free_among store proxies else free_among store proxies

unfoldable pub get_free_proxy_resource : MetaStore → List ProxyResource
get_free_proxy_resource store = free_among store store.all_proxies

unfoldable pub count_colons : Text → ℕ
count_colons [] = 0
count_colons (b ∷ bs) = if b == b':' then suc (count_colons bs) else count_colons bs

-- `split(':').next()`.
unfoldable pub before_colon : Text → Text
before_colon [] = []
before_colon (b ∷ bs) = if b == b':' then [] else b ∷ before_colon bs

abbrev pub host_or : Option Text → Text → Text
host_or (some host) address = host
host_or none address = before_colon address

abbrev pub index_for : Bool → Option ℕ → Run ℕ
index_for false proxy_index = ok 0
index_for true (some index) = ok index
index_for true none = err missing_index

-- `entry(address).or_insert_with(..)`.
abbrev pub or_insert : Text → ProxyResource → Dict ProxyResource → Dict ProxyResource
or_insert address proxy proxies =
    if Dict.contains_key address proxies then proxies else Dict.insert address proxy proxies

-- Forgets the failures of the proxy, and bumps the epoch if asked to.
abbrev pub clear_failures : Text → MetaStore → MetaStore
clear_failures address store = record store {
  failed_proxies = text_remove address store.failed_proxies;
  failures = Dict.remove address store.failures;
}

abbrev pub bump_if : Bool → MetaStore → MetaStore
bump_if b store = if b then bump_global_epoch store else store

unfoldable pub put_proxy : MetaStore → ProxyResource → Outcome
put_proxy store proxy =
    let address = proxy.proxy_address in
    let exists = Dict.contains_key address store.all_proxies in
    let cleared =
      text_mem address store.failed_proxies || Dict.contains_key address store.failures in
    let added =
      clear_failures address
        (record store { all_proxies = or_insert address proxy store.all_proxies }) in
    (bump_if (not exists || cleared) added, if exists then err already_existed else ok tt)

abbrev pub add_indexed : MetaStore → Text → Two Text → Text → Run ℕ → Outcome
add_indexed store address nodes host (ok index) = put_proxy store (record {
  proxy_address = address;
  node_addresses = nodes;
  host = host;
  index = index;
  cluster = none;
})
add_indexed store address nodes host (err e) = (store, err e)
add_indexed store address nodes host panic = (store, panic)

unfoldable pub add_proxy : MetaStore → Text → Two Text → Option Text → Option ℕ → Outcome
add_proxy store address nodes host proxy_index =
    if count_colons address == 1
    then add_indexed store address nodes (host_or host address)
        (index_for store.enable_ordered_proxy proxy_index)
    else (store, err invalid_proxy_address)

abbrev pub remove_found : MetaStore → Text → Option ProxyResource → Outcome
remove_found store address none = (store, err proxy_not_found)
remove_found store address (some proxy) =
    if is_none proxy.cluster
    then (
      bump_global_epoch (
          clear_failures address
            (record store { all_proxies = Dict.remove address store.all_proxies })),
      ok tt,
    )
    else (store, err in_use)

unfoldable pub remove_proxy : MetaStore → Text → Outcome
remove_proxy store address = remove_found store address (Dict.lookup address store.all_proxies)
