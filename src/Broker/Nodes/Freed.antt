-- ===== src/Broker/Nodes/Freed.antt =====
-- `auto_delete_free_nodes` of src/broker/update.rs: only chunks without slots go, and their proxies are free.
use undermoon.Prelude.{
  ℕ, ◌+◌, ◌≡◌, ◌≢◌, ◌⊎◌, refl, sym, ap, subst, ◌∙◌, inl, inr, Bool, true, false, Option, none, some,
  List, [], ◌∷◌, any, arith, text_eq_refl, if◌then◌else◌, Bool-cases, Option-cases, ok,
}
use undermoon.Dict
use undermoon.Dict.Laws.{lookup-insert}
use undermoon.Dict.Unique.{insert-lookup}
use undermoon.Cluster.{Text, ClusterName, SlotRange}
use undermoon.Broker.Store.{ChunkStore, ClusterStore, MigrationSlotRangeStore}
use undermoon.Broker.Slots.{stable_times, moving_times, owners}
use undermoon.Broker.Migrate.{is_none}
use undermoon.Broker.MetaStore.{
  MetaStore, Outcome, bump_global_epoch, cluster_name_from, is_chunk_migrating, is_empty,
}
use undermoon.Broker.Views.{get_proxy_addresses}
use undermoon.Broker.Proxies.Mult.{mult}
use undermoon.Broker.Proxies.Tagging.{tag_proxies-IsKept, lookup-tag_proxies}
use undermoon.Broker.Proxies.Consistent.{IsConsistent, Agree-left}
use undermoon.Broker.Nodes.{
  has_slots, kept_chunks, removed_chunks, delete_free_chunks, delete_nodes_found,
  auto_delete_free_nodes,
}
use undermoon.Broker.Nodes.Founded.{cluster_name_from-same}

stable_empty : (o : Option SlotRange) (s : ℕ) → is_none o ≡ true → stable_times o s ≡ 0
stable_empty none s e = refl
stable_empty (some sr) s e = cc

moving_empty :
    (ms : List MigrationSlotRangeStore) (s : ℕ) → is_empty ms ≡ true → moving_times ms s ≡ 0
moving_empty [] s e = refl
moving_empty (m ∷ ms) s e = cc

-- A chunk that goes owns no slot.
slotless_owners : (chunk : ChunkStore) (s : ℕ) → has_slots chunk ≡ false → owners (chunk ∷ []) s ≡ 0
slotless_owners chunk s h = omega (
  arith,
  stable_empty chunk.stable_slots.first s (ground (arith, h)),
  stable_empty chunk.stable_slots.second s (ground (arith, h)),
  moving_empty chunk.migrating_slots.first s (ground (arith, h)),
  moving_empty chunk.migrating_slots.second s (ground (arith, h)),
)

kept_chunks-owners :
    (chunks : List ChunkStore) (s : ℕ) → owners (kept_chunks chunks) s ≡ owners chunks s
unfolding kept_chunks
kept_chunks-owners [] s = refl
kept_chunks-owners (chunk ∷ chunks) s = elim (Bool-cases (has_slots chunk)) [
  | inl keep ↦ rw keep (omega (arith, kept_chunks-owners chunks s))
  | inr go ↦ rw go (omega (arith, kept_chunks-owners chunks s, slotless_owners chunk s go))
]

parted_addresses :
    (a : Text) (chunks : List ChunkStore)
    → mult a (get_proxy_addresses (kept_chunks chunks))
        + mult a (get_proxy_addresses (removed_chunks chunks))
      ≡ mult a (get_proxy_addresses chunks)
unfolding kept_chunks removed_chunks get_proxy_addresses
parted_addresses a [] = omega arith
parted_addresses a (chunk ∷ chunks) = elim (Bool-cases (has_slots chunk)) [
  | inl keep ↦ rw keep (omega (arith, parted_addresses a chunks))
  | inr go ↦ rw go (omega (arith, parted_addresses a chunks))
]

all_kept :
    (chunks : List ChunkStore)
    → is_empty (removed_chunks chunks) ≡ true
    → kept_chunks chunks ≡ chunks
unfolding kept_chunks removed_chunks
all_kept [] h = refl
all_kept (chunk ∷ chunks) h = elim (Bool-cases (has_slots chunk)) [
  | inl keep ↦ rw keep (
      ap (◌∷◌ chunk) (
        all_kept chunks (
          subst
            (λ b.
              is_empty (if b then removed_chunks chunks else chunk ∷ removed_chunks chunks) ≡ true)
            keep h)))
  | inr go ↦ gone (
      subst
        (λ b. is_empty (if b then removed_chunks chunks else chunk ∷ removed_chunks chunks) ≡ true)
        go h)
]
  where
    gone : false ≡ true → kept_chunks (chunk ∷ chunks) ≡ chunk ∷ chunks
    gone e = cc

-- The cluster keeps the owners of each slot, or nothing has changed.
abbrev pub FreedOr : MetaStore → Text → Outcome → Type 0
FreedOr store name (store', result) =
    IsConsistent store'
    × (((result ≡ ok tt)
          × ((cluster : ClusterStore) × (cluster' : ClusterStore) × (Dict.lookup name store.clusters
                ≡ some cluster)
              × (Dict.lookup name store'.clusters ≡ some cluster')
              × (any is_chunk_migrating cluster.chunks ≡ false)
              × ((s : ℕ) → owners cluster'.chunks s ≡ owners cluster.chunks s)))
        ⊎ ((result ≢ ok tt) × (store' ≡ store)))

freed_chunks :
    (store : MetaStore) (name : ClusterName) (cluster : ClusterStore)
    → IsConsistent store
    → Dict.lookup name store.clusters ≡ some cluster
    → any is_chunk_migrating cluster.chunks ≡ false
    → FreedOr store name (delete_free_chunks store name cluster)
freed_chunks store name cluster con e idle =
    elim (Bool-cases (is_empty (removed_chunks cluster.chunks))) [
      | inl nothing ↦
          let back : record store {
            clusters =
                Dict.insert name (record cluster { chunks = kept_chunks cluster.chunks })
                  store.clusters;
          }
              ≡ store =
            ap
              (λ cs. record store {
                clusters = Dict.insert name (record cluster { chunks = cs }) store.clusters;
              })
              (all_kept cluster.chunks nothing)
            ∙ ap (λ cs. record store { clusters = cs })
                (insert-lookup name cluster store.clusters e) in
          rw nothing (subst IsConsistent (sym back) con, inr (λ h. cc, back))
      | inr some_go ↦
          let tags = get_proxy_addresses (removed_chunks cluster.chunks) in
          let left : ClusterStore = record cluster {
            chunks = kept_chunks cluster.chunks;
            epoch = (bump_global_epoch store).global_epoch;
          } in
          let put = λ (n : Text). lookup-insert name n left store.clusters in
          rw some_go (
            record {
              kept = tag_proxies-IsKept none tags store.all_proxies con.kept;
              agree =
                  Agree-left name tags (λ n. Dict.lookup n store.clusters) _
                    (λ a. Dict.lookup a store.all_proxies) _ (some left) put con.agree
                    (λ a. lookup-tag_proxies none tags a store.all_proxies)
                    (λ a. rw e (parted_addresses a cluster.chunks));
            },
            inl (
              refl,
              (
                cluster,
                left,
                e,
                put name ∙ rw (text_eq_refl name) refl,
                idle,
                kept_chunks-owners cluster.chunks,
              ),
            ),
          )
    ]

-- Let the store be consistent. Then it is consistent behind `auto_delete_free_nodes`. Either this
-- succeeds, and then the named cluster was there without a migration, is still there, and keeps the owners of
-- each slot; or it does not, and leaves the store as it was.
pub auto_delete_free_nodes-IsConsistent :
    (fits : Text → Bool) (store : MetaStore) (name : Text)
    → IsConsistent store
    → FreedOr store name (auto_delete_free_nodes fits store name)
unfolding auto_delete_free_nodes
auto_delete_free_nodes-IsConsistent fits store name con =
    elim (Option-cases (cluster_name_from fits name)) [
      | inl invalid ↦ rw (invalid, auto_delete_free_nodes) (con, inr (λ h. cc, refl))
      | inr (n, valid) ↦
          rw (valid, auto_delete_free_nodes, cluster_name_from-same fits name n valid)
            (found (Dict.lookup name store.clusters) refl)
    ]
  where
    found :
        (o : Option ClusterStore)
        → Dict.lookup name store.clusters ≡ o
        → FreedOr store name (delete_nodes_found store name o)
    found none e = (con, inr (λ h. cc, refl))
    found (some cluster) e = elim (Bool-cases (any is_chunk_migrating cluster.chunks)) [
      | inl moving ↦ rw moving (con, inr (λ h. cc, refl))
      | inr idle ↦ rw idle (freed_chunks store name cluster con e idle)
    ]
