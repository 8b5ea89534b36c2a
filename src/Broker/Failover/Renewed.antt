-- ===== src/Broker/Failover/Renewed.antt =====
-- `takeover_master` of src/broker/update.rs: the chunks keep their proxies and slots, and a migration the
-- metadata of its two sides in step.
use undermoon.Prelude.{
  ℕ, zero, suc, ◌≡◌, refl, sym, ap, ap₂, subst, ◌∙◌, inl, inr, Bool, true, false, ◌||◌, Option,
  none, some, List, [], ◌∷◌, ◌++◌, any, get_elem?, arith, text_eq, text_eq_refl, if◌then◌else◌, All,
  Bool-cases, ok, some_inj,
}
use undermoon.Dict
use undermoon.Dict.Laws.{lookup-insert}
use undermoon.Cluster.{Text, ClusterName}
use undermoon.Broker.Store.{
  ChunkRolePosition, MigrationSlotRangeStore, MigrationMetaStore, ChunkStore, ClusterStore,
}
use undermoon.Broker.Slots.{moving_times, owners}
use undermoon.Broker.MetaStore.{MetaStore, Outcome, bump_global_epoch}
use undermoon.Broker.Views.{get_proxy_addresses}
use undermoon.Broker.Limit.{all_migrations}
use undermoon.Broker.Failover.{
  Position, src_position, dst_position, position_eq, peer_positions, set_meta_epoch, set_epochs,
  keep_front, take_over, renew, renew_all, renew_chunks, taken_over, takeover_found,
  takeover_master, is_first_chunk_master, is_second_chunk_master,
}

-- The source of the migration is among the positions.
abbrev IsMarked : List Position → MigrationSlotRangeStore → Type 0
IsMarked peers m = any (position_eq (src_position m.meta)) peers ≡ true

position_eq_refl : (p : Position) → position_eq p p ≡ true
position_eq_refl p = ground arith

IsMarked-later :
    (p q : Position) (peers : List Position) (ms : List MigrationSlotRangeStore)
    → All (IsMarked peers) ms
    → All (IsMarked (p ∷ q ∷ peers)) ms
IsMarked-later p q peers [] h = tt
IsMarked-later p q peers (m ∷ ms) (h, hs) = (ground (arith, h), IsMarked-later p q peers ms hs)

peer_positions-IsMarked :
    (ms : List MigrationSlotRangeStore) → All (IsMarked (peer_positions ms)) ms
unfolding peer_positions
peer_positions-IsMarked [] = tt
peer_positions-IsMarked (m ∷ ms) = (
  ground (arith, position_eq_refl (src_position m.meta)),
  IsMarked-later (src_position m.meta) (dst_position m.meta) (peer_positions ms) ms
      (peer_positions-IsMarked ms),
)

-- Setting the epochs first makes no difference to what the second loop leaves.
renew_all-set_epochs :
    (epoch : ℕ) (peers : List Position) (ms : List MigrationSlotRangeStore)
    → All (IsMarked peers) ms
    → renew_all epoch peers (set_epochs epoch ms) ≡ renew_all epoch peers ms
unfolding renew_all set_epochs
renew_all-set_epochs epoch peers [] h = refl
renew_all-set_epochs epoch peers (m ∷ ms) (h, hs) =
    ap₂ (λ n ns. n ∷ ns) (rw h refl) (renew_all-set_epochs epoch peers ms hs)

renew_all-append :
    (epoch : ℕ) (peers : List Position) (xs ys : List MigrationSlotRangeStore)
    → renew_all epoch peers (xs ++ ys) ≡ renew_all epoch peers xs ++ renew_all epoch peers ys
unfolding renew_all
renew_all-append epoch peers [] ys = refl
renew_all-append epoch peers (x ∷ xs) ys =
    ap (◌∷◌ (renew epoch peers x)) (renew_all-append epoch peers xs ys)

renew_all-nil : (epoch : ℕ) (ms : List MigrationSlotRangeStore) → renew_all epoch [] ms ≡ ms
unfolding renew_all
renew_all-nil epoch [] = refl
renew_all-nil epoch (m ∷ ms) = ap (◌∷◌ m) (renew_all-nil epoch ms)

renew-times :
    (epoch : ℕ) (peers : List Position) (m : MigrationSlotRangeStore) (s : ℕ)
    → moving_times (renew epoch peers m ∷ []) s ≡ moving_times (m ∷ []) s
renew-times epoch peers m s =
    same (
      any (position_eq (src_position m.meta)) peers
      || any (position_eq (dst_position m.meta)) peers)
  where
    same :
        (b : Bool)
        → moving_times ((if b then set_meta_epoch epoch m else m) ∷ []) s ≡ moving_times (m ∷ []) s
    same true = refl
    same false = refl

renew_all-times :
    (epoch : ℕ) (peers : List Position) (ms : List MigrationSlotRangeStore) (s : ℕ)
    → moving_times (renew_all epoch peers ms) s ≡ moving_times ms s
unfolding renew_all
renew_all-times epoch peers [] s = refl
renew_all-times epoch peers (m ∷ ms) s =
    omega (arith, renew-times epoch peers m s, renew_all-times epoch peers ms s)

-- The chunks before and behind: the same proxies and owners, and renewed migrations.
pub record IsRenewed (epoch : ℕ) (peers : List Position) (before after : List ChunkStore)
    : Type 0 where
  pub proxies : get_proxy_addresses after ≡ get_proxy_addresses before
  pub slots : (s : ℕ) → owners after s ≡ owners before s
  pub migrations : all_migrations after ≡ renew_all epoch peers (all_migrations before)

renew_front :
    (epoch : ℕ) (peers : List Position) (chunk : ChunkStore) (position : ChunkRolePosition)
    (first second : List MigrationSlotRangeStore) (before after : List ChunkStore)
    → first ≡ renew_all epoch peers chunk.migrating_slots.first
    → second ≡ renew_all epoch peers chunk.migrating_slots.second
    → IsRenewed epoch peers before after
    → IsRenewed epoch peers (chunk ∷ before) (
        record chunk {
          role_position = position;
          migrating_slots = record { first = first; second = second };
        }
        ∷ after)
unfolding get_proxy_addresses all_migrations
renew_front epoch peers chunk position first second before after e₁ e₂ r = record {
  proxies = ap (λ xs. chunk.proxy_addresses.first ∷ chunk.proxy_addresses.second ∷ xs) r.proxies;
  slots = λ s. omega (
    arith,
    r.slots s,
    ap (λ ms. moving_times ms s) e₁,
    ap (λ ms. moving_times ms s) e₂,
    renew_all-times epoch peers chunk.migrating_slots.first s,
    renew_all-times epoch peers chunk.migrating_slots.second s,
  );
  migrations =
      rw (e₁, e₂, r.migrations)
        (sym (
          renew_all-append epoch peers (chunk.migrating_slots.first ++ chunk.migrating_slots.second)
            (all_migrations before)
          ∙ ap (λ ms. ms ++ renew_all epoch peers (all_migrations before))
              (renew_all-append epoch peers chunk.migrating_slots.first
                chunk.migrating_slots.second)));
}

renew_chunks-IsRenewed :
    (epoch : ℕ) (peers : List Position) (chunks : List ChunkStore)
    → IsRenewed epoch peers chunks (renew_chunks epoch peers chunks)
unfolding renew_chunks all_migrations renew_all
renew_chunks-IsRenewed epoch peers [] = record {
  proxies = refl;
  slots = λ s. refl;
  migrations = refl;
}
renew_chunks-IsRenewed epoch peers (chunk ∷ chunks) =
    renew_front epoch peers chunk _ _ _ chunks _ refl refl
      (renew_chunks-IsRenewed epoch peers chunks)

-- What the two loops leave of the chunks.
abbrev TookOver : ℕ → List ChunkStore → Option (List ChunkStore × List Position) → Type 0
TookOver epoch chunks none = Unit {0}
TookOver epoch chunks (some (changed, peers)) =
    IsRenewed epoch peers chunks (renew_chunks epoch peers changed)

keep_front-TookOver :
    (epoch : ℕ) (chunk : ChunkStore) (chunks : List ChunkStore)
    (o : Option (List ChunkStore × List Position))
    → TookOver epoch chunks o
    → TookOver epoch (chunk ∷ chunks) (keep_front chunk o)
unfolding renew_chunks
keep_front-TookOver epoch chunk chunks none h = tt
keep_front-TookOver epoch chunk chunks (some (changed, peers)) h =
    renew_front epoch peers chunk _ _ _ chunks _ refl refl h

take_over-TookOver :
    (failed : Text) (epoch : ℕ) (chunks : List ChunkStore)
    → TookOver epoch chunks (take_over failed epoch chunks)
unfolding take_over renew_chunks
take_over-TookOver failed epoch [] = renew_chunks-IsRenewed epoch [] []
take_over-TookOver failed epoch (chunk ∷ chunks) =
    elim (Bool-cases (text_eq chunk.proxy_addresses.first failed)) [
      | inl first ↦ elim (Bool-cases (is_second_chunk_master chunk.role_position)) [
        | inl again ↦ rw (first, again) tt
        | inr now ↦
            let peers = peer_positions chunk.migrating_slots.first in
            rw (first, now)
              (renew_front epoch peers chunk _ _ _ chunks _
                (renew_all-set_epochs epoch peers chunk.migrating_slots.first
                  (peer_positions-IsMarked chunk.migrating_slots.first))
                refl (renew_chunks-IsRenewed epoch peers chunks))
      ]
      | inr not_first ↦ elim (Bool-cases (text_eq chunk.proxy_addresses.second failed)) [
        | inl second ↦ elim (Bool-cases (is_first_chunk_master chunk.role_position)) [
          | inl again ↦ rw (not_first, second, again) tt
          | inr now ↦
              let peers = peer_positions chunk.migrating_slots.second in
              rw (not_first, second, now)
                (renew_front epoch peers chunk _ _ _ chunks _ refl
                  (renew_all-set_epochs epoch peers chunk.migrating_slots.second
                    (peer_positions-IsMarked chunk.migrating_slots.second))
                  (renew_chunks-IsRenewed epoch peers chunks))
        ]
        | inr not_second ↦
            rw (not_first, not_second)
              (keep_front-TookOver epoch chunk chunks (take_over failed epoch chunks)
                (take_over-TookOver failed epoch chunks))
      ]
    ]

-- The named cluster behind `takeover_master`, and which migrations are renewed.
abbrev pub HasTakenOver : MetaStore → ClusterName → ClusterStore → Outcome → Type 0
HasTakenOver store name cluster (store', result) =
    (result ≡ ok tt)
    × (store'.all_proxies ≡ store.all_proxies)
    × ((n : Text)
        → text_eq name n ≡ false
        → Dict.lookup n store'.clusters ≡ Dict.lookup n store.clusters)
    × ((cluster' : ClusterStore) × (peers : List Position) × (Dict.lookup name store'.clusters
          ≡ some cluster')
        × IsRenewed (bump_global_epoch store).global_epoch peers cluster.chunks cluster'.chunks)

taken_over-HasTakenOver :
    (store : MetaStore) (name : ClusterName) (cluster : ClusterStore)
    (o : Option (List ChunkStore × List Position))
    → Dict.lookup name store.clusters ≡ some cluster
    → TookOver (bump_global_epoch store).global_epoch cluster.chunks o
    → HasTakenOver store name cluster (taken_over (bump_global_epoch store) name cluster o)
taken_over-HasTakenOver store name cluster none e t = (
  refl,
  refl,
  λ n differ. refl,
  (
    cluster,
    [],
    e,
    record {
      proxies = refl;
      slots = λ s. refl;
      migrations = sym (renew_all-nil _ (all_migrations cluster.chunks));
    },
  ),
)
taken_over-HasTakenOver store name cluster (some (changed, peers)) e t =
    let epoch = (bump_global_epoch store).global_epoch in
    let after : ClusterStore = record cluster {
      chunks = renew_chunks epoch peers changed;
      epoch = epoch;
    } in
    (
      refl,
      refl,
      λ n differ. lookup-insert name n after store.clusters ∙ rw differ refl,
      (after, peers, lookup-insert name name after store.clusters ∙ rw (text_eq_refl name) refl, t),
    )

pub takeover_master-HasTakenOver :
    (store : MetaStore) (name : ClusterName) (failed : Text) (cluster : ClusterStore)
    → Dict.lookup name store.clusters ≡ some cluster
    → HasTakenOver store name cluster (takeover_master store name failed)
unfolding takeover_master
takeover_master-HasTakenOver store name failed cluster e =
    subst
      (λ o.
        HasTakenOver store name cluster (takeover_found (bump_global_epoch store) name failed o))
      (sym e)
      (taken_over-HasTakenOver store name cluster _ e
        (take_over-TookOver failed (bump_global_epoch store).global_epoch cluster.chunks))

renewed_at :
    (epoch : ℕ) (peers : List Position) (ms : List MigrationSlotRangeStore) (i : ℕ)
    (m : MigrationSlotRangeStore)
    → get_elem? ms i ≡ some m
    → get_elem? (renew_all epoch peers ms) i ≡ some (renew epoch peers m)
unfolding renew_all
renewed_at epoch peers [] i m h = cc
renewed_at epoch peers (x ∷ ms) zero m h = ap (λ y. some (renew epoch peers y)) (some_inj h)
renewed_at epoch peers (x ∷ ms) (suc i) m h = renewed_at epoch peers ms i m h

-- Of a migration at most the epoch changes, and to one that depends on the metadata only.
renewed_meta :
    (epoch : ℕ) (peers : List Position) (m m' : MigrationSlotRangeStore)
    → m.meta ≡ m'.meta
    → ((renew epoch peers m).meta ≡ (renew epoch peers m').meta)
      × ((renew epoch peers m).range_list ≡ m.range_list)
      × ((renew epoch peers m).is_migrating ≡ m.is_migrating)
renewed_meta epoch peers m m' e =
    let (fresh, ranges, side) = chosen (is_peer m.meta) m in
    let (fresh', ranges', side') = chosen (is_peer m'.meta) m' in
    (fresh ∙ ap renewed e ∙ sym fresh', ranges, side)
  where
    is_peer : MigrationMetaStore → Bool
    is_peer meta =
        any (position_eq (src_position meta)) peers || any (position_eq (dst_position meta)) peers

    renewed : MigrationMetaStore → MigrationMetaStore
    renewed meta = if is_peer meta then record meta { epoch = epoch } else meta

    chosen :
        (b : Bool) (m : MigrationSlotRangeStore)
        → let n = if b then set_meta_epoch epoch m else m in
          (n.meta ≡ (if b then record m.meta { epoch = epoch } else m.meta))
          × (n.range_list ≡ m.range_list)
          × (n.is_migrating ≡ m.is_migrating)
    chosen true m = (refl, refl, refl)
    chosen false m = (refl, refl, refl)

-- Let the cluster be there, and let two of its migrations, at any places of the chunks' lists, have the
-- same metadata, like the two sides of one migration. Then behind `takeover_master`, which succeeds,
-- these two places hold migrations with the same metadata again, and with the ranges and sides as before.
-- The chunks keep their proxies, and each slot its owners.
pub takeover_master-sides :
    (store : MetaStore) (name : ClusterName) (failed : Text) (cluster : ClusterStore) (i j : ℕ)
    (m m' : MigrationSlotRangeStore)
    → Dict.lookup name store.clusters ≡ some cluster
    → get_elem? (all_migrations cluster.chunks) i ≡ some m
    → get_elem? (all_migrations cluster.chunks) j ≡ some m'
    → m.meta ≡ m'.meta
    → let (store', result) = takeover_master store name failed in
      (result ≡ ok tt)
      × ((cluster' : ClusterStore) × (n : MigrationSlotRangeStore) × (n' : MigrationSlotRangeStore)
          × (Dict.lookup name store'.clusters ≡ some cluster')
          × (get_elem? (all_migrations cluster'.chunks) i ≡ some n)
          × (get_elem? (all_migrations cluster'.chunks) j ≡ some n')
          × (n.meta ≡ n'.meta)
          × ((n.range_list ≡ m.range_list) × (n.is_migrating ≡ m.is_migrating))
          × ((n'.range_list ≡ m'.range_list) × (n'.is_migrating ≡ m'.is_migrating))
          × (get_proxy_addresses cluster'.chunks ≡ get_proxy_addresses cluster.chunks)
          × ((s : ℕ) → owners cluster'.chunks s ≡ owners cluster.chunks s))
takeover_master-sides store name failed cluster i j m m' e at_i at_j same =
    let (done, proxies, others, (cluster', peers, there, r)) =
      takeover_master-HasTakenOver store name failed cluster e in
    let epoch = (bump_global_epoch store).global_epoch in
    let (metas, ranges, side) = renewed_meta epoch peers m m' same in
    let (metas', ranges', side') = renewed_meta epoch peers m' m (sym same) in
    (
      done,
      (
        cluster',
        renew epoch peers m,
        renew epoch peers m',
        there,
        ap (λ ms. get_elem? ms i) r.migrations
            ∙ renewed_at epoch peers (all_migrations cluster.chunks) i m at_i,
        ap (λ ms. get_elem? ms j) r.migrations
            ∙ renewed_at epoch peers (all_migrations cluster.chunks) j m' at_j,
        metas,
        (ranges, side),
        (ranges', side'),
        r.proxies,
        r.slots,
      ),
    )
