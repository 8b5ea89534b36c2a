-- ===== src/Proxy/SlotMutex.antt =====
-- src/common/slot_lock.rs: one flag for each slot. A guard is the slot that its lock returned; dropping
-- it clears the flag. Each step stands for one atomic operation.
pub mod Exclusion
use undermoon.Prelude.{
  ℕ, Bool, true, false, Option, none, some, List, get_elem?, set, replicate, slot_num,
}

pub record SlotMutex : Type 0 where
  pub slots : List Bool

unfoldable pub new_mutex : SlotMutex
new_mutex = record { slots = replicate slot_num false }

-- `compare_exchange(false, true)`.
unfoldable pub lock : SlotMutex → ℕ → SlotMutex × Option ℕ
lock m slot = elim (get_elem? m.slots slot) [
  | none ↦ (m, none)
  | some true ↦ (m, none)
  | some false ↦ (record { slots = set m.slots slot true }, some slot)
]

unfoldable pub drop_guard : SlotMutex → ℕ → SlotMutex
drop_guard m slot = record { slots = set m.slots slot false }
