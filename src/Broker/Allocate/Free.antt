-- ===== src/Broker/Allocate/Free.antt =====
-- The proxies that src/broker/update.rs takes from a list of free ones are free, and all different.
use undermoon.Prelude.{
  ℕ, zero, suc, ◌+◌, ◌*◌, ◌≤◌, ◌≡◌, refl, sym, ap, ◌∙◌, inl, inr, Bool, false, Option, none, some,
  List, [], ◌∷◌, length, take, to_num, arith, text_eq, text_eq_iff, Bool-cases, ok, bind-ok, subst,
}
use undermoon.Dict
use undermoon.Dict.{Dict}
use undermoon.Dict.Unique.{IsUnique, AllEntries}
use undermoon.Cluster.{Text}
use undermoon.Broker.MetaStore.{ProxyResource, MetaStore}
use undermoon.Broker.Chunks.{Pairs}
use undermoon.Broker.Proxies.{is_free, free_among}
use undermoon.Broker.Proxies.Mult.{mult}
use undermoon.Broker.Proxies.Tagging.{StandsAt}
use undermoon.Broker.Allocate.{insert_by_index, sort_by_index, pair_up}

abbrev pub addresses_of : List ProxyResource → List Text
addresses_of [] = []
addresses_of (p ∷ ps) = p.proxy_address ∷ addresses_of ps

abbrev pub pair_addresses : Pairs → List Text
pair_addresses [] = []
pair_addresses (pair ∷ pairs) =
    pair.first.proxy_address ∷ pair.second.proxy_address ∷ pair_addresses pairs

abbrev pub free_found : MetaStore → Option ProxyResource → Bool
free_found store none = false
free_found store (some proxy) = is_free store proxy

-- Each free proxy is listed once.
pub free_among-mult :
    (store : MetaStore) (a : Text) (proxies : Dict ProxyResource)
    → IsUnique proxies
    → AllEntries StandsAt proxies
    → mult a (addresses_of (free_among store proxies))
      ≤ to_num (free_found store (Dict.lookup a proxies))
unfolding free_among Dict.lookup
free_among-mult store a [] u k = omega arith
free_among-mult store a ((key, p) ∷ proxies) (absent, u) (stands, k) =
    let rest = free_among-mult store a proxies u k in
    elim (Bool-cases (text_eq key a)) [
      | inl same ↦
          let gone : Dict.lookup a proxies ≡ none =
            ap (λ t. Dict.lookup t proxies) (sym ((text_eq_iff key a).0 same)) ∙ absent in
          let none_left : mult a (addresses_of (free_among store proxies)) ≤ 0 =
            subst
              (λ o. mult a (addresses_of (free_among store proxies)) ≤ to_num (free_found store o))
              gone rest in
          elim (Bool-cases (is_free store p)) [
            | inl free ↦ rw (same, free, stands) (ground (arith, none_left))
            | inr taken ↦ rw (same, taken) (omega (arith, none_left))
          ]
      | inr differ ↦ elim (Bool-cases (is_free store p)) [
        | inl free ↦ rw (differ, free, stands) (ground (arith, rest))
        | inr taken ↦ rw (differ, taken) rest
      ]
    ]

insert_by_index-mult :
    (a : Text) (x : ProxyResource) (ys : List ProxyResource)
    → mult a (addresses_of (insert_by_index x ys)) ≡ mult a (addresses_of (x ∷ ys))
unfolding insert_by_index
insert_by_index-mult a x [] = refl
insert_by_index-mult a x (y ∷ ys) = ground (arith, insert_by_index-mult a x ys)

pub sort_by_index-mult :
    (a : Text) (xs : List ProxyResource)
    → mult a (addresses_of (sort_by_index xs)) ≡ mult a (addresses_of xs)
unfolding sort_by_index
sort_by_index-mult a [] = refl
sort_by_index-mult a (x ∷ xs) =
    insert_by_index-mult a x (sort_by_index xs)
    ∙ ap (λ n. to_num (text_eq x.proxy_address a) + n) (sort_by_index-mult a xs)

insert_by_index-length :
    (x : ProxyResource) (ys : List ProxyResource) → length (insert_by_index x ys) ≡ suc (length ys)
unfolding insert_by_index
insert_by_index-length x [] = refl
insert_by_index-length x (y ∷ ys) = ground (arith, insert_by_index-length x ys)

pub sort_by_index-length : (xs : List ProxyResource) → length (sort_by_index xs) ≡ length xs
unfolding sort_by_index
sort_by_index-length [] = refl
sort_by_index-length (x ∷ xs) =
    insert_by_index-length x (sort_by_index xs) ∙ ap suc (sort_by_index-length xs)

pub take-mult :
    (a : Text) (n : ℕ) (xs : List ProxyResource)
    → mult a (addresses_of (take n xs)) ≤ mult a (addresses_of xs)
take-mult a zero xs = omega arith
take-mult a (suc n) [] = omega arith
take-mult a (suc n) (x ∷ xs) = omega (arith, take-mult a n xs)

pub take-length : {A : Type 0} (n : ℕ) (xs : List A) → n ≤ length xs → length (take n xs) ≡ n
take-length zero xs h = refl
take-length (suc n) [] h = absurd (omega arith)
take-length (suc n) (x ∷ xs) h = ap suc (take-length n xs (omega arith))

pub pair_up-mult :
    (xs : List ProxyResource) (pairs : Pairs)
    → pair_up xs ≡ ok pairs
    → (length pairs * 2 ≡ length xs)
      × ((a : Text) → mult a (pair_addresses pairs) ≡ mult a (addresses_of xs))
unfolding pair_up
pair_up-mult [] [] h = (refl, λ a. refl)
pair_up-mult [] (pair ∷ pairs) h = cc
pair_up-mult (x ∷ []) pairs h = cc
pair_up-mult (x ∷ y ∷ xs) pairs h =
    let (rest, e, done) =
      bind-ok (pair_up xs) (λ pairs. ok (record { first = x; second = y } ∷ pairs)) pairs h in
    let (len, m) = pair_up-mult xs rest e in
    let made : record { first = x; second = y } ∷ rest ≡ pairs = cc in
    subst
      (λ ps.
        (length ps * 2 ≡ length (x ∷ y ∷ xs))
        × ((a : Text) → mult a (pair_addresses ps) ≡ mult a (addresses_of (x ∷ y ∷ xs))))
      made (omega (arith, len), λ a. omega (arith, m a))
