-- ===== src/Broker/Epochs.antt =====
-- src/broker/store.rs and src/broker/update.rs: the global epoch under restoring and under reports of
-- failures. The time of a report is an argument.
use undermoon.Prelude.{
  ℕ, ◌+◌, ◌≤◌, ◌<◌, ◌≡◌, refl, sym, ap, ◌∙◌, inl, inr, Bool, true, false, not, none, some, [], ltb,
  arith, ok, err, text_eq, text_eq_refl, if◌then◌else◌, Bool-cases, add_word-exact, word_mod, ◌⊎◌,
}
use undermoon.Dict
use undermoon.Dict.{Dict}
use undermoon.Dict.Laws.{lookup-insert}
use undermoon.Cluster.{Text}
use undermoon.Broker.Store.{invalid_meta_version, small_epoch}
use undermoon.Broker.MetaStore.{MetaStore, Outcome, bump_global_epoch}

unfoldable pub new_store : Text → Bool → MetaStore
new_store version enable_ordered_proxy = record {
  version = version;
  global_epoch = 0;
  clusters = [];
  all_proxies = [];
  failed_proxies = [];
  failures = [];
  enable_ordered_proxy = enable_ordered_proxy;
}

unfoldable pub restore : MetaStore → MetaStore → Outcome
restore store other =
    if not (text_eq store.version other.version)
    then (store, err invalid_meta_version)
    else if ltb other.global_epoch store.global_epoch
    then (store, err small_epoch)
    else (other, ok tt)

-- `entry(address).or_insert_with(HashMap::new)`.
abbrev pub reports : MetaStore → Text → Dict ℕ
reports store address = elim (Dict.lookup address store.failures) [ none ↦ [] | some m ↦ m ]

unfoldable pub add_failure : ℕ → MetaStore → Text → Text → MetaStore × Bool
add_failure now store address reporter_id =
    if Dict.contains_key reporter_id (reports store address) then (store, false) else (
      record (bump_global_epoch store) {
        failures =
            Dict.insert address (Dict.insert reporter_id now (reports store address))
              store.failures;
      },
      true,
    )

-- Restoring never lowers the global epoch: it ends with the other store, whose epoch is no smaller and
-- whose version is the same, or with an error and the store as it was.
pub restore_lem :
    (store other : MetaStore)
    → let (store', result) = restore store other in
      ((result ≡ ok tt)
        × (store' ≡ other)
        × (text_eq store.version other.version ≡ true)
        × (store.global_epoch ≤ store'.global_epoch))
      ⊎ (((result ≡ err invalid_meta_version) ⊎ (result ≡ err small_epoch)) × (store' ≡ store))
unfolding restore
restore_lem store other = elim (Bool-cases (text_eq store.version other.version)) [
  | inr differ ↦ rw differ (inr (inl refl, refl))
  | inl same ↦ elim (Bool-cases (ltb other.global_epoch store.global_epoch)) [
    | inl older ↦ rw same (rw older (inr (inr refl, refl)))
    | inr newer ↦ rw same (rw newer (inl (refl, refl, refl, ground arith)))
  ]
]

lookup_new :
    {V : Type 0} (k : Text) (v : V) (m : Dict V) → Dict.lookup k (Dict.insert k v m) ≡ some v
lookup_new k v m = rw (lookup-insert k k v m, text_eq_refl k) refl

reported :
    (store : MetaStore) (address reporter_id : Text) (now : ℕ) (m : Dict ℕ)
    → Dict.lookup address store.failures ≡ some (Dict.insert reporter_id now m)
    → Dict.contains_key reporter_id (reports store address) ≡ true
unfolding Dict.contains_key Dict.lookup
reported store address reporter_id now m e =
    rw (e, Dict.contains_key) (rw (lookup_new reporter_id now m, Dict.contains_key) refl)

add_failure_refused :
    (now : ℕ) (store : MetaStore) (address reporter_id : Text)
    → Dict.contains_key reporter_id (reports store address) ≡ true
    → add_failure now store address reporter_id ≡ (store, false)
unfolding add_failure
add_failure_refused now store address reporter_id e = rw (e, add_failure) refl

-- While the global epoch is not the last u64, reporting a failure for the first time raises it by one,
-- and reporting it again by the same reporter changes nothing.
pub add_failure-again :
    (now later : ℕ) (store : MetaStore) (address reporter_id : Text)
    → store.global_epoch + 1 < word_mod
    → Dict.contains_key reporter_id (reports store address) ≡ false
    → let (store', first) = add_failure now store address reporter_id in
      (first ≡ true)
      × (store'.global_epoch ≡ store.global_epoch + 1)
      × (add_failure later store' address reporter_id ≡ (store', false))
unfolding add_failure
add_failure-again now later store address reporter_id room new =
    let m = Dict.insert reporter_id now (reports store address) in
    let store₁ : MetaStore = record (bump_global_epoch store) {
      failures = Dict.insert address m store.failures;
    } in
    let first : add_failure now store address reporter_id ≡ (store₁, true) =
      rw (new, add_failure) refl in
    let again : add_failure later store₁ address reporter_id ≡ (store₁, false) =
      add_failure_refused later store₁ address reporter_id (
        reported store₁ address reporter_id now (reports store address)
          (lookup_new address m store.failures)) in
    (
      ap (λ t. t.1) first,
      ap (λ t. t.0.global_epoch) first ∙ add_word-exact store.global_epoch 1 room,
      ap (λ t. add_failure later (t.0) address reporter_id) first
          ∙ again
          ∙ sym (ap (λ t. (t.0, false)) first),
    )
