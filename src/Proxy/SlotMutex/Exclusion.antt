-- ===== src/Proxy/SlotMutex/Exclusion.antt =====
-- A slot is locked by one guard at a time.
use undermoon.Prelude.{
  ℕ, ◌<◌, ◌≡◌, ◌≢◌, refl, ap, Bool, true, false, none, some, List, [], ◌∷◌, get_elem?, set, length,
  arith, get_elem?-set_self, get_elem?-set_ne, zero, suc,
}
use undermoon.Proxy.SlotMutex.{SlotMutex, lock, drop_guard}

set-set : (xs : List Bool) (i : ℕ) (a b : Bool) → set (set xs i a) i b ≡ set xs i b
set-set [] i a b = refl
set-set (x ∷ xs) zero a b = refl
set-set (x ∷ xs) (suc i) a b = ap (◌∷◌ x) (set-set xs i a b)

in_range : (xs : List Bool) (i : ℕ) (b : Bool) → get_elem? xs i ≡ some b → i < length xs
in_range [] i b e = cc
in_range (x ∷ xs) zero b e = omega arith
in_range (x ∷ xs) (suc i) b e = omega (arith, in_range xs i b e)

-- Let the flag of a slot be clear. Then locking it gives a guard; until the guard is dropped each further
-- lock of the slot is refused and changes nothing; dropping the guard lets the slot be locked as
-- before; and no other slot's flag changes with the lock or the drop.
pub lock-drop_guard :
    (m : SlotMutex) (slot : ℕ)
    → get_elem? m.slots slot ≡ some false
    → (held : SlotMutex) × (lock m slot ≡ (held, some slot))
      × (lock held slot ≡ (held, none))
      × (lock (drop_guard held slot) slot ≡ (held, some slot))
      × ((other : ℕ)
          → slot ≢ other
          → (get_elem? held.slots other ≡ get_elem? m.slots other)
            × (get_elem? (drop_guard held slot).slots other ≡ get_elem? m.slots other))
unfolding lock drop_guard
lock-drop_guard m slot e =
    let valid = in_range m.slots slot false e in
    let taken = set m.slots slot true in
    (
      record { slots = taken },
      rw (e, lock) refl,
      rw (get_elem?-set_self m.slots slot true valid, lock) refl,
      rw (set-set m.slots slot true false) (
          rw (get_elem?-set_self m.slots slot false valid, lock)
            (ap (λ t. (record { slots = t }, some slot)) (set-set m.slots slot false true))),
      λ other h. (
        get_elem?-set_ne m.slots true h,
        rw (set-set m.slots slot true false) (get_elem?-set_ne m.slots false h),
      ),
    )
