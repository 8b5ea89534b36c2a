-- ===== src/Broker/Allocate/Pool.antt =====
-- The pairs that `allocate_chunk` of src/broker/update.rs picks are taken from the hosts' free proxies,
-- none of them twice.
use undermoon.Prelude.{
  ℕ, zero, suc, ◌+◌, ◌-◌, ◌*◌, ◌≤◌, ◌≡◌, refl, sym, ap, ◌∙◌, inl, inr, Option, none, some, List, [],
  ◌∷◌, ◌++◌, length, ltb, to_num, arith, text_eq, if◌then◌else◌, Bool-cases, Option-cases, ok,
  expect, refuse_if, bind-ok, expect-ok, ok_inj, some_inj, subst, ◌==◌,
}
use undermoon.Dict
use undermoon.Cluster.{Text}
use undermoon.Broker.Store.{Two, no_available_resource}
use undermoon.Broker.Migrate.{split_last}
use undermoon.Broker.Migrate.Cut.{snoc_cases, split_last-append}
use undermoon.Broker.MetaStore.{ProxyResource}
use undermoon.Broker.Proxies.Mult.{mult, mult-append}
use undermoon.Broker.Allocate.{
  push_found, push_proxy, group_by_host, drop_last, trim_host, trim_hosts, remove_redundant_chunks,
  max_proxies, sum_proxies, max_host, pop_proxy, pick_pair, allocate_pairs,
}
use undermoon.Broker.Allocate.Links.{HostProxies, LinkTable, count_link, pick_peer}
use undermoon.Broker.Allocate.Free.{addresses_of}

-- All addresses of all hosts.
abbrev pub pool : HostProxies → List Text
pool [] = []
pool ((host, addresses) ∷ hosts) = addresses ++ pool hosts

abbrev pub both_of : List (Two Text) → List Text
both_of [] = []
both_of (pair ∷ pairs) = pair.first ∷ pair.second ∷ both_of pairs

pool-insert :
    (a host : Text) (old new : List Text) (hosts : HostProxies)
    → Dict.lookup host hosts ≡ some old
    → mult a (pool (Dict.insert host new hosts)) + mult a old ≡ mult a (pool hosts) + mult a new
unfolding Dict.lookup Dict.insert
pool-insert a host old new [] e = cc
pool-insert a host old new ((h, l) ∷ hosts) e = elim (Bool-cases (text_eq h host)) [
  | inl same ↦
      let there : some l ≡ some old =
        subst (λ b. (if b then some l else Dict.lookup host hosts) ≡ some old) same e in
      let it : l ≡ old = cc in
      rw (same, mult-append a new (pool hosts), mult-append a l (pool hosts), it) (omega arith)
  | inr differ ↦
      let further : Dict.lookup host hosts ≡ some old =
        subst (λ b. (if b then some l else Dict.lookup host hosts) ≡ some old) differ e in
      rw (differ, mult-append a l (pool (Dict.insert host new hosts)), mult-append a l (pool hosts))
        (omega (arith, pool-insert a host old new hosts further))
]

pool-insert_new :
    (a host : Text) (new : List Text) (hosts : HostProxies)
    → Dict.lookup host hosts ≡ none
    → mult a (pool (Dict.insert host new hosts)) ≡ mult a (pool hosts) + mult a new
unfolding Dict.lookup Dict.insert
pool-insert_new a host new [] e = mult-append a new [] ∙ omega arith
pool-insert_new a host new ((h, l) ∷ hosts) e = elim (Bool-cases (text_eq h host)) [
  | inl same ↦
      let there : some l ≡ none =
        subst (λ b. (if b then some l else Dict.lookup host hosts) ≡ none) same e in
      cc
  | inr differ ↦
      let further : Dict.lookup host hosts ≡ none =
        subst (λ b. (if b then some l else Dict.lookup host hosts) ≡ none) differ e in
      rw (differ, mult-append a l (pool (Dict.insert host new hosts)), mult-append a l (pool hosts))
        (omega (arith, pool-insert_new a host new hosts further))
]

push_proxy-pool :
    (a : Text) (p : ProxyResource) (hosts : HostProxies)
    → mult a (pool (push_proxy p hosts)) ≡ mult a (pool hosts) + mult a (p.proxy_address ∷ [])
push_proxy-pool a p hosts = elim (Option-cases (Dict.lookup p.host hosts)) [
  | inl absent ↦
      ap (λ o. mult a (pool (push_found p hosts o))) absent
      ∙ pool-insert_new a p.host (p.proxy_address ∷ []) hosts absent
  | inr (old, there) ↦
      ap (λ o. mult a (pool (push_found p hosts o))) there
      ∙ omega (
        arith,
        pool-insert a p.host old (old ++ p.proxy_address ∷ []) hosts there,
        mult-append a old (p.proxy_address ∷ []),
      )
]

pub group_by_host-pool :
    (a : Text) (ps : List ProxyResource) (hosts : HostProxies)
    → mult a (pool (group_by_host ps hosts)) ≡ mult a (pool hosts) + mult a (addresses_of ps)
unfolding group_by_host
group_by_host-pool a [] hosts = omega arith
group_by_host-pool a (p ∷ ps) hosts =
    omega (arith, group_by_host-pool a ps (push_proxy p hosts), push_proxy-pool a p hosts)

split_last-some :
    (xs init : List Text) (last : Text) → split_last xs ≡ some (init, last) → xs ≡ init ++ last ∷ []
unfolding split_last
split_last-some xs init last e = elim (snoc_cases xs) [
  | inl empty ↦ none_first (subst (λ ys. split_last ys ≡ some (init, last)) empty e)
  | inr (i, x, eq) ↦
      let same : (i, x) ≡ (init, last) =
        some_inj
          (sym (split_last-append i x) ∙ subst (λ ys. split_last ys ≡ some (init, last)) eq e) in
      let front : i ≡ init = ap (λ t. t.0) same in
      let back : x ≡ last = ap (λ t. t.1) same in
      eq ∙ ap (λ ys. ys ++ x ∷ []) front ∙ ap (λ y. init ++ y ∷ []) back
]
  where
    none_first :
        ◌≡◌ {A = Option (List Text × Text)} none (some (init, last)) → xs ≡ init ++ last ∷ []
    none_first h = cc

split_last-mult :
    (a : Text) (xs init : List Text) (last : Text)
    → split_last xs ≡ some (init, last)
    → mult a init + to_num (text_eq last a) ≡ mult a xs
split_last-mult a xs init last e =
    rw (split_last-some xs init last e) (omega (arith, mult-append a init (last ∷ [])))

drop_last-mult : (a : Text) (xs : List Text) → mult a (drop_last (split_last xs)) ≤ mult a xs
drop_last-mult a xs = elim (Option-cases (split_last xs)) [
  | inl empty ↦ rw empty (omega arith)
  | inr ((init, last), e) ↦ rw e (omega (arith, split_last-mult a xs init last e))
]

trim_host-mult :
    (a : Text) (most free : ℕ) (xs : List Text) → mult a ((trim_host most free xs).0) ≤ mult a xs
unfolding trim_host
trim_host-mult a zero free xs = omega arith
trim_host-mult a (suc most) free xs = elim (Bool-cases (ltb free (suc most * 2))) [
  | inl more ↦ rw more (
      omega
        (arith, trim_host-mult a most (free - 1) (drop_last (split_last xs)), drop_last-mult a xs))
  | inr enough ↦ rw enough (omega arith)
]

trim_hosts-mult :
    (a : Text) (most free : ℕ) (hosts : HostProxies)
    → mult a (pool ((trim_hosts most free hosts).0)) ≤ mult a (pool hosts)
unfolding trim_hosts
trim_hosts-mult a most free [] = omega arith
trim_hosts-mult a most free ((h, l) ∷ hosts) = elim (Bool-cases (length l == most)) [
  | inl this ↦ rw this (
      omega (
        arith,
        trim_host-mult a most free l,
        mult-append a l (pool hosts),
        mult-append a ((trim_host most free l).0) (pool hosts),
      ))
  | inr other ↦ rw other (
      omega (
        arith,
        trim_hosts-mult a most free hosts,
        mult-append a l (pool hosts),
        mult-append a l (pool ((trim_hosts most free hosts).0)),
      ))
]

pub remove_redundant_chunks-pool :
    (a : Text) (hosts kept : HostProxies) (n : ℕ)
    → remove_redundant_chunks hosts n ≡ ok kept
    → mult a (pool kept) ≤ mult a (pool hosts)
unfolding remove_redundant_chunks
remove_redundant_chunks-pool a hosts kept n h =
    let (kept₁, free) = trim_hosts (max_proxies hosts) (sum_proxies hosts) hosts in
    let (u, e, done) =
      bind-ok (refuse_if (ltb free n) no_available_resource) (λ _. ok kept₁) kept h in
    let it : kept₁ ≡ kept = cc in
    subst (λ k. mult a (pool k) ≤ mult a (pool hosts)) it
      (trim_hosts-mult a (max_proxies hosts) (sum_proxies hosts) hosts)

pop_proxy-pool :
    (host : Text) (hosts hosts' : HostProxies) (last : Text)
    → pop_proxy host hosts ≡ ok (hosts', last)
    → (a : Text) → mult a (pool hosts') + to_num (text_eq last a) ≡ mult a (pool hosts)
unfolding pop_proxy
pop_proxy-pool host hosts hosts' last h a =
    let (old, e, h₁) = bind-ok (expect (Dict.lookup host hosts)) _ (hosts', last) h in
    let ((init, l), e₁, done) = bind-ok (expect (split_last old)) _ (hosts', last) h₁ in
    let left : Dict.insert host init hosts ≡ hosts' = ap (λ t. t.0) (ok_inj done) in
    let popped : l ≡ last = ap (λ t. t.1) (ok_inj done) in
    subst (λ hs. mult a (pool hs) + to_num (text_eq last a) ≡ mult a (pool hosts)) left
      (subst
        (λ t.
          mult a (pool (Dict.insert host init hosts)) + to_num (text_eq t a) ≡ mult a (pool hosts))
        popped
        (omega (
          arith,
          pool-insert a host old init hosts (expect-ok (Dict.lookup host hosts) old e),
          split_last-mult a old init l (expect-ok (split_last old) (init, l) e₁),
        )))

-- What a round leaves and what it takes.
abbrev in_round : Text → HostProxies × LinkTable × Two Text → ℕ
in_round a (hosts, links, pair) = mult a (pool hosts) + mult a (pair.first ∷ pair.second ∷ [])

pick_pair-pool :
    (hosts hosts' : HostProxies) (links links' : LinkTable) (pair : Two Text)
    → pick_pair hosts links ≡ ok (hosts', links', pair)
    → (a : Text)
    → mult a (pool hosts') + mult a (pair.first ∷ pair.second ∷ []) ≡ mult a (pool hosts)
unfolding pick_pair
pick_pair-pool hosts hosts' links links' pair h a =
    let (first_host, e₁, h₁) = bind-ok (expect (max_host hosts)) _ _ h in
    let ((hosts₁, first), e₂, h₂) = bind-ok (pop_proxy first_host hosts) _ _ h₁ in
    let (peers, e₃, h₃) = bind-ok (expect (Dict.lookup first_host links)) _ _ h₂ in
    let (second_host, e₄, h₄) = bind-ok (expect (pick_peer first_host hosts₁ peers)) _ _ h₃ in
    let ((hosts₂, second), e₅, h₅) = bind-ok (pop_proxy second_host hosts₁) _ _ h₄ in
    let (links₁, e₆, h₆) = bind-ok (expect (count_link first_host second_host links)) _ _ h₅ in
    let (links₂, e₇, done) = bind-ok (expect (count_link second_host first_host links₁)) _ _ h₆ in
    taken hosts₁ hosts₂ links₂ first second (ok_inj done)
      (pop_proxy-pool first_host hosts hosts₁ first e₂ a)
      (pop_proxy-pool second_host hosts₁ hosts₂ second e₅ a)
  where
    taken :
        (hosts₁ hosts₂ : HostProxies) (links₂ : LinkTable) (first second : Text)
        → ◌≡◌ {A = HostProxies × LinkTable × Two Text}
            (hosts₂, links₂, record { first = first; second = second })
            (hosts', links', pair)
        → mult a (pool hosts₁) + to_num (text_eq first a) ≡ mult a (pool hosts)
        → mult a (pool hosts₂) + to_num (text_eq second a) ≡ mult a (pool hosts₁)
        → mult a (pool hosts') + mult a (pair.first ∷ pair.second ∷ []) ≡ mult a (pool hosts)
    taken hosts₁ hosts₂ links₂ first second e k l =
        subst (λ t. in_round a t ≡ mult a (pool hosts)) e (omega (arith, k, l))

-- As many pairs as asked for, and each address as often as the hosts have it at most.
pub allocate_pairs-pool :
    (rounds : ℕ) (hosts : HostProxies) (links : LinkTable) (pairs : List (Two Text))
    → allocate_pairs rounds hosts links ≡ ok pairs
    → (length pairs ≡ rounds) × ((a : Text) → mult a (both_of pairs) ≤ mult a (pool hosts))
unfolding allocate_pairs
allocate_pairs-pool zero hosts links [] h = (refl, λ a. omega arith)
allocate_pairs-pool zero hosts links (pair ∷ pairs) h = cc
allocate_pairs-pool (suc rounds) hosts links pairs h =
    let ((hosts', links', pair), e, h') = bind-ok (pick_pair hosts links) _ pairs h in
    let (rest, e', done) = bind-ok (allocate_pairs rounds hosts' links') _ pairs h' in
    let (len, m) = allocate_pairs-pool rounds hosts' links' rest e' in
    subst
      (λ ps. (length ps ≡ suc rounds) × ((a : Text) → mult a (both_of ps) ≤ mult a (pool hosts)))
      (ok_inj done)
      (ap suc len, λ a. omega (arith, m a, pick_pair-pool hosts hosts' links links' pair e a))
