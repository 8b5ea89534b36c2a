-- ===== src/Broker/Migrate/Settle.antt =====
-- One round of the loops that take slots from a source: what the cursor holds and plans is what the
-- source loses.
use undermoon.Prelude.{
  ℕ, ◌+◌, ◌≤◌, ◌<◌, ◌≡◌, refl, ◌⊎◌, Bool, true, false, List, [], ◌∷◌, ◌++◌, leb, arith, All,
  All-append, ok, not,
}
use undermoon.Ranges.{RangeList}
use undermoon.Ranges.Covers.{IsCompact}
use undermoon.Ranges.Count.{times, total}
use undermoon.Ranges.Times.{IsProper, range_list-times}
use undermoon.Broker.Store.{MigrationSlots, MigrationMetaStore}
use undermoon.Broker.Migrate.{Carry, settle, pushed_slots, next_master}

-- How often the planned migrations hold a slot.
abbrev pub planned_times : List MigrationSlots → ℕ → ℕ
planned_times [] s = 0
planned_times (m ∷ ms) s = times m.ranges s + planned_times ms s

pub planned_times-append :
    (xs ys : List MigrationSlots) (s : ℕ)
    → planned_times (xs ++ ys) s ≡ planned_times xs s + planned_times ys s
planned_times-append [] ys s = omega arith
planned_times-append (x ∷ xs) ys s = omega (arith, planned_times-append xs ys s)

-- What the cursor holds of a slot: in the ranges not yet planned, and in the plan.
abbrev pub held_times : Carry → ℕ → ℕ
held_times c s = times c.curr_dst_slots s + planned_times c.migration_slots s

-- `room k` is what destination `k` can take, `masters` the number of destinations, `keep` what
-- the source keeps, and `P` what holds of each planned migration.
module _ (room : ℕ → ℕ) (masters : ℕ) (P : MigrationSlots → Type 0) where
  pub record Inv (rs : RangeList) (c : Carry) : Type 0 where
    pub ascending : IsCompact rs
    pub proper : IsProper c.curr_dst_slots
    pub apart : (s : ℕ) → times rs s + times c.curr_dst_slots s ≤ 1
    pub index : c.curr_dst_master_index ≤ masters
    pub has_room : c.curr_slots_num < room c.curr_dst_master_index
    pub planned : All P c.migration_slots

  -- The loop would stop here with nothing left unplanned.
  abbrev pub IsClean : ℕ → RangeList → Carry → Type 0
  IsClean keep rs c =
      (total rs ≤ keep) ⊎ (c.curr_dst_master_index ≡ masters) → c.curr_dst_slots ≡ []

  pub record Settled (keep : ℕ) (rs : RangeList) (c : Carry) (c' : Carry) (go_on : Bool)
      : Type 0 where
    pub inv : Inv rs c'
    pub clean : IsClean keep rs c'
    pub same : (s : ℕ) → held_times c' s ≡ held_times c s
    pub stops : go_on ≡ false → c'.curr_dst_slots ≡ []

  module _ (room_pos : (k : ℕ) → 0 < room k) where
    module _ (rs : RangeList) (c : Carry) (compact : IsCompact rs)
        (proper : IsProper c.curr_dst_slots)
        (apart : (s : ℕ) → times rs s + times c.curr_dst_slots s ≤ 1)
        (index : c.curr_dst_master_index < masters) (planned : All P c.migration_slots)
        (meta : MigrationMetaStore)
        (allowed : (ranges : RangeList)
          → IsCompact ranges
          → P (record { ranges = ranges; meta = meta })) where
      -- A planned migration holds the slots that the cursor held.
      Inv-next_master :
          (out : RangeList) → IsCompact out → Inv rs (next_master (pushed_slots c meta out))
      Inv-next_master out o = record {
        ascending = compact;
        proper = tt;
        apart = λ s. omega (arith, apart s);
        index = omega arith;
        has_room = room_pos (c.curr_dst_master_index + 1);
        planned = All-append P c.migration_slots _ planned (allowed out o, tt);
      }

      Inv-pushed_slots :
          (out : RangeList)
          → IsCompact out
          → c.curr_slots_num < room c.curr_dst_master_index
          → Inv rs (pushed_slots c meta out)
      Inv-pushed_slots out o h = record {
        ascending = compact;
        proper = tt;
        apart = λ s. omega (arith, apart s);
        index = omega arith;
        has_room = h;
        planned = All-append P c.migration_slots _ planned (allowed out o, tt);
      }

      held_pushed :
          (out : RangeList)
          → ((s : ℕ) → times out s ≡ times c.curr_dst_slots s)
          → (s : ℕ) → held_times (pushed_slots c meta out) s ≡ held_times c s
      held_pushed out same s = omega (
        arith,
        same s,
        planned_times-append c.migration_slots (record { ranges = out; meta = meta } ∷ []) s,
      )

      pub settle-Settled :
          (keep : ℕ) (full drained : Bool)
          → c.curr_slots_num ≤ room c.curr_dst_master_index
          → full ≡ leb (room c.curr_dst_master_index) c.curr_slots_num
          → drained ≡ leb (total rs) keep
          → (c' : Carry) × (go_on : Bool) × (settle meta full drained rs c ≡ ok (rs, c', go_on))
            × Settled keep rs c c' go_on
      unfolding settle
      settle-Settled keep true drained le f d =
          let (out, e, o, same) =
            range_list-times c.curr_dst_slots proper (λ s. omega (arith, apart s)) in
          (
            next_master (pushed_slots c meta out),
            not drained,
            rw e,
            record {
              inv = Inv-next_master out o;
              clean = λ _. refl;
              same = held_pushed out same;
              stops = λ _. refl;
            },
          )
      settle-Settled keep false true le f d =
          let (out, e, o, same) =
            range_list-times c.curr_dst_slots proper (λ s. omega (arith, apart s)) in
          (
            pushed_slots c meta out,
            false,
            rw e,
            record {
              inv = Inv-pushed_slots out o (ground arith);
              clean = λ _. refl;
              same = held_pushed out same;
              stops = λ _. refl;
            },
          )
      settle-Settled keep false false le f d = (
        c,
        true,
        refl,
        record {
          inv = record {
            ascending = compact;
            proper = proper;
            apart = apart;
            index = omega arith;
            has_room = ground arith;
            planned = planned;
          };
          clean = λ h. absurd (ground arith);
          same = λ s. refl;
          stops = λ h. cc;
        },
      )
