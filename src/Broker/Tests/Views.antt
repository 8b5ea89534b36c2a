-- ===== src/Broker/Tests/Views.antt =====
-- Tests of the theorems on views, limits and epochs.
use undermoon.Prelude.{
  ℕ, ◌≤◌, ◌≡◌, ◌⊎◌, refl, Bool, true, false, List, length, arith, All, ok, err, text_eq,
}
use undermoon.Dict
use undermoon.Dict.{Dict}
use undermoon.Broker.Store.{ChunkStore, small_epoch, invalid_meta_version}
use undermoon.Broker.Slots.{owners, HasCompactSlots}
use undermoon.Broker.Limit.{limit_migration, all_migrations}
use undermoon.Broker.Limit.Owners.{IsPlaced, limit_migration_lem}
use undermoon.Broker.Epochs.{restore, restore_lem, add_failure, add_failure-again, reports}
use undermoon.Broker.Tests.{
  name, cluster_of, moving_chunks, two_chunks, store_of, entry, moving_chunks-compact,
  moving_chunks-once,
}

entry-IsPlaced : (side : Bool) → IsPlaced 2 (entry side)
entry-IsPlaced side = record {
  ranges_compact = (omega arith, omega arith, omega arith, tt);
  src_chunk = omega arith;
  src_part = omega arith;
  dst_chunk = omega arith;
  dst_part = omega arith;
}

pub moving_chunks-IsPlaced : All (IsPlaced 2) (all_migrations moving_chunks)
unfolding all_migrations
moving_chunks-IsPlaced = (entry-IsPlaced true, (entry-IsPlaced false, tt))

limit_migration_lem_example :
    (chunks : List ChunkStore) × (limit_migration (cluster_of moving_chunks) 1
      ≡ ok (record (cluster_of moving_chunks) { chunks = chunks }))
    × All HasCompactSlots chunks
    × (length chunks ≡ 2)
    × ((s : ℕ) → owners chunks s ≡ owners moving_chunks s)
limit_migration_lem_example =
    limit_migration_lem (cluster_of moving_chunks) 1 moving_chunks-compact moving_chunks-IsPlaced
      moving_chunks-once

restore_lem_example :
    let (store', result) = restore (store_of two_chunks) (store_of moving_chunks) in
    ((result ≡ ok tt)
      × (store' ≡ store_of moving_chunks)
      × (text_eq (store_of two_chunks).version (store_of moving_chunks).version ≡ true)
      × (5 ≤ store'.global_epoch))
    ⊎ (((result ≡ err invalid_meta_version) ⊎ (result ≡ err small_epoch))
        × (store' ≡ store_of two_chunks))
restore_lem_example = restore_lem (store_of two_chunks) (store_of moving_chunks)

nothing_reported : Dict.contains_key name (reports (store_of two_chunks) name) ≡ false
unfolding Dict.contains_key Dict.lookup
nothing_reported = refl

add_failure-again_example :
    let (store', first) = add_failure 100 (store_of two_chunks) name name in
    (first ≡ true)
    × (store'.global_epoch ≡ 6)
    × (add_failure 200 store' name name ≡ (store', false))
add_failure-again_example =
    add_failure-again 100 200 (store_of two_chunks) name name (omega arith) nothing_reported
