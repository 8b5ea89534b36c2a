-- ===== src/Proxy/Tests.antt =====
-- Tests of the slot table and the slot lock.
use undermoon.Prelude.{ℕ, ◌≡◌, ◌≢◌, refl, true, false, some, none, [], ◌∷◌, get_elem?, arith}
use undermoon.Proxy.SlotMap.{Served, slot_map_data, get_address}
use undermoon.Proxy.SlotMap.Lookup.{last_server, get_address-slot_map_data}
use undermoon.Proxy.SlotMutex.{SlotMutex, lock, drop_guard}
use undermoon.Proxy.SlotMutex.Exclusion.{lock-drop_guard}

-- The second address takes the slots from 10 on.
abbrev served : Served
served =
    (b'a' ∷ [], record { start = 0; end = 99 } ∷ record { start = 7; end = 3 } ∷ [])
    ∷ (b'b' ∷ [], record { start = 10; end = 20000 } ∷ [])
    ∷ []

get_address-slot_map_data_example : get_address (slot_map_data served) 50 ≡ last_server served 50
get_address-slot_map_data_example = get_address-slot_map_data served 50 (omega arith)

-- The first slot is locked, the second is not.
abbrev mutex : SlotMutex
mutex = record { slots = true ∷ false ∷ [] }

lock-drop_guard_example :
    (held : SlotMutex) × (lock mutex 1 ≡ (held, some 1))
    × (lock held 1 ≡ (held, none))
    × (lock (drop_guard held 1) 1 ≡ (held, some 1))
    × ((other : ℕ)
        → 1 ≢ other
        → (get_elem? held.slots other ≡ get_elem? mutex.slots other)
          × (get_elem? (drop_guard held 1).slots other ≡ get_elem? mutex.slots other))
lock-drop_guard_example = lock-drop_guard mutex 1 refl
