-- ===== src/Broker/Proxies/Tagging.antt =====
-- What becomes of the proxies when the cluster of some of them is set.
use undermoon.Prelude.{
  ◌≡◌, refl, sym, ap, ◌∙◌, inl, inr, Bool, true, false, ◌||◌, Option, none, some, List, [], ◌∷◌,
  text_eq, text_eq_iff, All, ok, Bool-cases,
}
use undermoon.Dict
use undermoon.Dict.{Dict}
use undermoon.Dict.Laws.{lookup-insert}
use undermoon.Dict.Unique.{
  IsUnique, AllEntries, insert-IsUnique, remove-IsUnique, insert-AllEntries, remove-AllEntries,
  lookup-AllEntries,
}
use undermoon.Cluster.{Text, ClusterName}
use undermoon.Broker.MetaStore.{ProxyResource}
use undermoon.Broker.Proxies.{text_mem, set_cluster, tag_found, tag_proxies, occupy_proxies}

abbrev pub StandsAt : Text → ProxyResource → Type 0
StandsAt address proxy = proxy.proxy_address ≡ address

-- The addresses are all different, and each proxy stands at its own.
pub record IsKept (proxies : Dict ProxyResource) : Type 0 where
  pub unique : IsUnique proxies
  pub keyed : AllEntries StandsAt proxies

pub insert-IsKept :
    (address : Text) (proxy : ProxyResource) (proxies : Dict ProxyResource)
    → proxy.proxy_address ≡ address
    → IsKept proxies
    → IsKept (Dict.insert address proxy proxies)
insert-IsKept address proxy proxies e kept = record {
  unique = insert-IsUnique address proxy proxies kept.unique;
  keyed = insert-AllEntries StandsAt address proxy proxies e kept.keyed;
}

pub remove-IsKept :
    (address : Text) (proxies : Dict ProxyResource)
    → IsKept proxies
    → IsKept (Dict.remove address proxies)
remove-IsKept address proxies kept = record {
  unique = remove-IsUnique address proxies kept.unique;
  keyed = remove-AllEntries StandsAt address proxies kept.keyed;
}

set_cluster-IsKept :
    (cluster : Option ClusterName) (address : Text) (proxy : ProxyResource)
    (proxies : Dict ProxyResource)
    → Dict.lookup address proxies ≡ some proxy
    → IsKept proxies
    → IsKept (Dict.insert address (set_cluster cluster proxy) proxies)
set_cluster-IsKept cluster address proxy proxies e kept =
    insert-IsKept address (set_cluster cluster proxy) proxies
      (lookup-AllEntries StandsAt address proxy proxies kept.keyed e) kept

pub tag_found-IsKept :
    (address : Text) (cluster : Option ClusterName) (proxies : Dict ProxyResource)
    (found : Option ProxyResource)
    → Dict.lookup address proxies ≡ found
    → IsKept proxies
    → IsKept (tag_found address cluster proxies found)
tag_found-IsKept address cluster proxies none e kept = kept
tag_found-IsKept address cluster proxies (some proxy) e kept =
    set_cluster-IsKept cluster address proxy proxies e kept

pub tag_proxies-IsKept :
    (cluster : Option ClusterName) (addresses : List Text) (proxies : Dict ProxyResource)
    → IsKept proxies
    → IsKept (tag_proxies cluster addresses proxies)
unfolding tag_proxies
tag_proxies-IsKept cluster [] proxies kept = kept
tag_proxies-IsKept cluster (a ∷ addresses) proxies kept =
    tag_proxies-IsKept cluster addresses _
      (tag_found-IsKept a cluster proxies (Dict.lookup a proxies) refl kept)

-- What becomes of a proxy whose cluster is set.
abbrev pub retagged : Bool → Option ClusterName → Option ProxyResource → Option ProxyResource
retagged true cluster (some proxy) = some (set_cluster cluster proxy)
retagged true cluster none = none
retagged false cluster found = found

pub lookup-tag_found :
    (address other : Text) (cluster : Option ClusterName) (proxies : Dict ProxyResource)
    (found : Option ProxyResource)
    → Dict.lookup address proxies ≡ found
    → Dict.lookup other (tag_found address cluster proxies found)
      ≡ retagged (text_eq address other) cluster (Dict.lookup other proxies)
lookup-tag_found address other cluster proxies none e = elim (Bool-cases (text_eq address other)) [
  | inl same ↦
      let absent : Dict.lookup other proxies ≡ none =
        ap (λ t. Dict.lookup t proxies) (sym ((text_eq_iff address other).0 same)) ∙ e in
      rw (same, absent) refl
  | inr differ ↦ rw differ refl
]
lookup-tag_found address other cluster proxies (some proxy) e =
    lookup-insert address other (set_cluster cluster proxy) proxies
    ∙ elim (Bool-cases (text_eq address other)) [
      | inl same ↦
          let there : Dict.lookup other proxies ≡ some proxy =
            ap (λ t. Dict.lookup t proxies) (sym ((text_eq_iff address other).0 same)) ∙ e in
          rw (same, there) refl
      | inr differ ↦ rw differ refl
    ]

retagged-or :
    (b c : Bool) (cluster : Option ClusterName) (o : Option ProxyResource)
    → retagged c cluster (retagged b cluster o) ≡ retagged (b || c) cluster o
retagged-or true true cluster none = refl
retagged-or true true cluster (some p) = refl
retagged-or true false cluster o = refl
retagged-or false c cluster o = refl

-- Setting the cluster of some proxies leaves the others.
pub lookup-tag_proxies :
    (cluster : Option ClusterName) (addresses : List Text) (other : Text)
    (proxies : Dict ProxyResource)
    → Dict.lookup other (tag_proxies cluster addresses proxies)
      ≡ retagged (text_mem other addresses) cluster (Dict.lookup other proxies)
unfolding tag_proxies text_mem
lookup-tag_proxies cluster [] other proxies = refl
lookup-tag_proxies cluster (a ∷ addresses) other proxies =
    lookup-tag_proxies cluster addresses other (tag_found a cluster proxies (Dict.lookup a proxies))
    ∙ ap (retagged (text_mem other addresses) cluster)
        (lookup-tag_found a other cluster proxies (Dict.lookup a proxies) refl)
    ∙ retagged-or (text_eq a other) (text_mem other addresses) cluster (Dict.lookup other proxies)

abbrev pub IsThere : Dict ProxyResource → Text → Type 0
IsThere proxies address = (proxy : ProxyResource) × (Dict.lookup address proxies ≡ some proxy)

still-IsThere :
    (a b : Text) (proxy : ProxyResource) (proxies : Dict ProxyResource)
    → IsThere proxies b
    → IsThere (Dict.insert a proxy proxies) b
still-IsThere a b proxy proxies (old, e) = elim (Bool-cases (text_eq a b)) [
  | inl same ↦ (proxy, lookup-insert a b proxy proxies ∙ rw same refl)
  | inr differ ↦ (old, lookup-insert a b proxy proxies ∙ rw differ e)
]

All-still-IsThere :
    (bs : List Text) (a : Text) (proxy : ProxyResource) (proxies : Dict ProxyResource)
    → All (IsThere proxies) bs
    → All (IsThere (Dict.insert a proxy proxies)) bs
All-still-IsThere [] a proxy proxies h = tt
All-still-IsThere (b ∷ bs) a proxy proxies (h, hs) =
    (still-IsThere a b proxy proxies h, All-still-IsThere bs a proxy proxies hs)

-- Where all proxies are there, occupying them succeeds, and sets their cluster.
pub occupy_proxies_lem :
    (name : ClusterName) (addresses : List Text) (proxies : Dict ProxyResource)
    → IsKept proxies
    → All (IsThere proxies) addresses
    → (proxies' : Dict ProxyResource) × (occupy_proxies name addresses proxies ≡ ok proxies')
      × IsKept proxies'
      × ((other : Text)
          → Dict.lookup other proxies'
            ≡ retagged (text_mem other addresses) (some name) (Dict.lookup other proxies))
unfolding occupy_proxies text_mem
occupy_proxies_lem name [] proxies kept h = (proxies, refl, kept, λ other. refl)
occupy_proxies_lem name (a ∷ addresses) proxies kept ((proxy, e), hs) =
    let next = Dict.insert a (set_cluster (some name) proxy) proxies in
    let (proxies', done, kept', found) =
      occupy_proxies_lem name addresses next (set_cluster-IsKept (some name) a proxy proxies e kept)
        (All-still-IsThere addresses a (set_cluster (some name) proxy) proxies hs) in
    (
      proxies',
      rw (e, occupy_proxies) done,
      kept',
      λ other.
          found other
          ∙ ap (retagged (text_mem other addresses) (some name))
              (lookup-tag_found a other (some name) proxies (some proxy) e)
          ∙ retagged-or (text_eq a other) (text_mem other addresses) (some name)
              (Dict.lookup other proxies),
    )
