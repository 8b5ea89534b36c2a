-- ===== src/Broker/Commit/Outcomes.antt =====
-- When `commit_migration` refuses a task, and when it ends the migration.
use undermoon.Prelude.{
  ℕ, ◌+◌, ◌≤◌, ◌≡◌, refl, sym, ap, ap₂, ◌∙◌, inl, inr, ◌⊎◌, Bool, true, false, not, ◌&&◌, ◌||◌,
  ◌==◌, Option, none, some, List, [], ◌∷◌, ◌++◌, any, any-append, arith, All, Bool-cases,
  if◌then◌else◌, ok, err,
}
use undermoon.Ranges.{RangeList}
use undermoon.Cluster.{SlotRange, SlotRangeTag, range_list_eq}
use undermoon.Broker.Store.{
  ChunkStore, ClusterStore, MigrationSlotRangeStore, invalid_migration_task,
  migration_task_not_found,
}
use undermoon.Broker.Slots.{owners, HasCompactSlots}
use undermoon.Broker.Limit.{all_migrations}
use undermoon.Broker.Commit.{find_task, is_task, task_epoch, commit_cluster}
use undermoon.Broker.Commit.Entries.{IsPaired}
use undermoon.Broker.Commit.Owners.{Committed, commit_found}

-- One side of a migration of these ranges at this epoch.
abbrev pub is_side_of : RangeList → ℕ → Bool → MigrationSlotRangeStore → Bool
is_side_of rs epoch migrating m =
    m.meta.epoch == epoch
    && range_list_eq m.range_list rs
    && (if migrating then m.is_migrating else not m.is_migrating)

-- Some chunk and part has that side.
abbrev pub has_side : RangeList → ℕ → Bool → List ChunkStore → Bool
has_side rs epoch migrating chunks = any (is_side_of rs epoch migrating) (all_migrations chunks)

-- What a commit does: it refuses a task with no migration tag; it does not find a task of which one
-- side is missing; it ends a migration of which both sides are there.
abbrev pub Commits : SlotRange → ℕ → ClusterStore → Type 0
Commits task new_epoch cluster =
    ((task.tag ≡ SlotRangeTag.none)
      × (commit_cluster task new_epoch cluster ≡ err invalid_migration_task))
    ⊎ ((epoch : ℕ) × (task_epoch task.tag ≡ ok epoch)
        × (((has_side task.range_list epoch true cluster.chunks
                  && has_side task.range_list epoch false cluster.chunks
                ≡ false)
              × (commit_cluster task new_epoch cluster ≡ err migration_task_not_found))
            ⊎ ((has_side task.range_list epoch true cluster.chunks
                    && has_side task.range_list epoch false cluster.chunks
                  ≡ true)
                × Committed task new_epoch cluster)))

is_task-is_side_of :
    (rs : RangeList) (epoch : ℕ) (side : Bool) (m : MigrationSlotRangeStore)
    → is_task rs epoch side m ≡ is_side_of rs epoch side m
is_task-is_side_of rs epoch true m = ground arith
is_task-is_side_of rs epoch false m = ground arith

any-is_task :
    (rs : RangeList) (epoch : ℕ) (side : Bool) (ms : List MigrationSlotRangeStore)
    → any (is_task rs epoch side) ms ≡ any (is_side_of rs epoch side) ms
any-is_task rs epoch side [] = refl
any-is_task rs epoch side (m ∷ ms) =
    ap₂ (λ a b. a || b) (is_task-is_side_of rs epoch side m) (any-is_task rs epoch side ms)

has_side-cons :
    (rs : RangeList) (epoch : ℕ) (side : Bool) (chunk : ChunkStore) (chunks : List ChunkStore)
    → has_side rs epoch side (chunk ∷ chunks) ≡ (
        any (is_task rs epoch side) chunk.migrating_slots.first
        || any (is_task rs epoch side) chunk.migrating_slots.second
        || has_side rs epoch side chunks)
unfolding all_migrations
has_side-cons rs epoch side chunk chunks =
    let moving = chunk.migrating_slots in
    any-append (is_side_of rs epoch side) (moving.first ++ moving.second) (all_migrations chunks)
    ∙ ap (λ a. a || has_side rs epoch side chunks)
        (any-append (is_side_of rs epoch side) moving.first moving.second
          ∙ ap₂ (λ a b. a || b) (sym (any-is_task rs epoch side moving.first))
              (sym (any-is_task rs epoch side moving.second)))

-- The search finds a side just when it is there.
abbrev Search : Bool → Option (ℕ × ℕ) → Type 0
Search there found =
    ((there ≡ false) × (found ≡ none)) ⊎ ((there ≡ true) × ((at : ℕ × ℕ) × (found ≡ some at)))

find_task-has_side :
    (rs : RangeList) (epoch : ℕ) (side : Bool) (i : ℕ) (chunks : List ChunkStore)
    → Search (has_side rs epoch side chunks) (find_task rs epoch side i chunks)
unfolding find_task all_migrations
find_task-has_side rs epoch side i [] = inl (refl, refl)
find_task-has_side rs epoch side i (chunk ∷ chunks) =
    rw (has_side-cons rs epoch side chunk chunks)
      (elim (Bool-cases (any (is_task rs epoch side) chunk.migrating_slots.first)) [
        | inl here ↦ rw here (inr (refl, (_, refl)))
        | inr gone ↦ elim (Bool-cases (any (is_task rs epoch side) chunk.migrating_slots.second)) [
          | inl here ↦ rw (gone, here) (inr (refl, (_, refl)))
          | inr gone' ↦ rw (gone, gone') (find_task-has_side rs epoch side (i + 1) chunks)
        ]
      ])

task_epoch_cases :
    (tag : SlotRangeTag) → (tag ≡ SlotRangeTag.none) ⊎ ((epoch : ℕ) × (task_epoch tag ≡ ok epoch))
task_epoch_cases SlotRangeTag.none = inl refl
task_epoch_cases (SlotRangeTag.migrating meta) = inr (meta.epoch, refl)
task_epoch_cases (SlotRangeTag.importing meta) = inr (meta.epoch, refl)

-- For a cluster with compacted range lists, both sides of each migration once, and at most one owner
-- for each slot, committing a task never panics. A task with no migration tag is refused as
-- invalid. If the migrating or the importing side of the task, an entry with its ranges and its epoch, is
-- missing among the entries of all chunks, the task is not found. If both are there, the commit
-- ends with the new epoch, compacted range lists, as many chunks, and the same owners of each slot.
pub commit_cluster_lem :
    (task : SlotRange) (new_epoch : ℕ) (cluster : ClusterStore)
    → All HasCompactSlots cluster.chunks
    → IsPaired cluster.chunks
    → ((s : ℕ) → owners cluster.chunks s ≤ 1)
    → Commits task new_epoch cluster
unfolding commit_cluster
commit_cluster_lem task new_epoch cluster h paired once = elim (task_epoch_cases task.tag) [
  | inl bare ↦ inl (bare, rw bare refl)
  | inr (epoch, e) ↦
      let rs = task.range_list in
      inr (
        epoch,
        e,
        elim (find_task-has_side rs epoch true 0 cluster.chunks) [
          | inl (missing, gone) ↦ inl (rw missing refl, rw e (rw gone refl))
          | inr (there, ((i, j), src)) ↦ elim (find_task-has_side rs epoch false 0 cluster.chunks) [
            | inl (missing, gone) ↦ inl (rw (there, missing) refl, rw e (rw (src, gone) refl))
            | inr (there', ((i', j'), dst)) ↦ inr (
              rw (there, there') refl,
              commit_found task new_epoch cluster epoch i j i' j' e src dst h paired once,
            )
          ]
        ],
      )
]
