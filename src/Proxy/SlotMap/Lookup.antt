-- ===== src/Proxy/SlotMap/Lookup.antt =====
-- The table finds the last address that serves a slot.
use undermoon.Prelude.{
  ℕ, zero, suc, ◌+◌, ◌-◌, ◌<◌, ◌≡◌, refl, sym, ap, ◌∙◌, inl, inr, ◌⊎◌, Bool, true, false, ◌&&◌,
  Option, none, some, List, [], ◌∷◌, ◌++◌, length, get_elem?, set, replicate, leb, ltb, ◌==◌,
  if◌then◌else◌, slot_num, arith, Bool-cases, length-set, length-replicate, get_elem?-set_self,
  get_elem?-set_ne, get_elem?_at,
}
use undermoon.Ranges.{Range, RangeList}
use undermoon.Ranges.Covers.{within, covers}
use undermoon.Cluster.{Text}
use undermoon.Proxy.SlotMap.{
  SlotMapData, Served, fill_from, fill_range, fill_ranges, fill_all, slot_map_data, address_at,
  get_address,
}

abbrev or_else : Option Text → Option Text → Option Text
or_else (some found) other = some found
or_else none other = other

-- The last address one of whose ranges holds the slot.
unfoldable pub last_server : Served → ℕ → Option Text
last_server [] s = none
last_server ((addr, rs) ∷ rest) s =
    or_else (last_server rest s) (if covers rs s then some addr else none)

-- What a table of all slots holds at a valid slot.
abbrev Reads : List (Option ℕ) → ℕ → Option ℕ → Type 0
Reads arr s o = (length arr ≡ slot_num) × (get_elem? arr s ≡ some o)

fill_from-Reads :
    (count a index : ℕ) (arr : List (Option ℕ)) (s : ℕ) (o : Option ℕ)
    → s < slot_num
    → Reads arr s o
    → Reads (fill_from count a index arr) s (if leb a s && ltb s (a + count) then some index else o)
unfolding fill_from
fill_from-Reads zero a index arr s o h (len, e) = (len, e ∙ ap some (ground arith))
fill_from-Reads (suc count) a index arr s o h (len, e) = elim (Bool-cases (leb slot_num a)) [
  | inl over ↦ rw over (len, e ∙ ap some (ground arith))
  | inr fits ↦ rw fits (elim (Bool-cases (a == s)) [
    | inl here ↦
        let same : a ≡ s = ground arith in
        let (len', e') =
          fill_from-Reads count (a + 1) index (set arr a (some index)) s (some index) h (
            length-set arr a _ ∙ len,
            ap (λ t. get_elem? (set arr t (some index)) s) same
                ∙ get_elem?-set_self arr s (some index) (omega (arith, len)),
          ) in
        (len', e' ∙ ap some (ground arith))
    | inr apart ↦
        let (len', e') =
          fill_from-Reads count (a + 1) index (set arr a (some index)) s o h
            (length-set arr a _ ∙ len, get_elem?-set_ne arr (some index) (ground arith) ∙ e) in
        (len', e' ∙ ap some (ground arith))
  ])
]

fill_range-Reads :
    (r : Range) (index : ℕ) (arr : List (Option ℕ)) (s : ℕ) (o : Option ℕ)
    → s < slot_num
    → Reads arr s o
    → Reads (fill_range r index arr) s (if within r s then some index else o)
unfolding fill_range
fill_range-Reads r index arr s o h (len, e) = elim (Bool-cases (ltb r.end r.start)) [
  | inl swapped ↦ rw (swapped, fill_range) (len, e ∙ ap some (ground arith))
  | inr proper ↦
      let (len', e') = fill_from-Reads (r.end + 1 - r.start) r.start index arr s o h (len, e) in
      rw (proper, fill_range) (len', e' ∙ ap some (ground arith))
]

fill_ranges-Reads :
    (rs : RangeList) (index : ℕ) (arr : List (Option ℕ)) (s : ℕ) (o : Option ℕ)
    → s < slot_num
    → Reads arr s o
    → Reads (fill_ranges rs index arr) s (if covers rs s then some index else o)
unfolding fill_ranges
fill_ranges-Reads [] index arr s o h e = e
fill_ranges-Reads (r ∷ rs) index arr s o h e =
    let (len', e') =
      fill_ranges-Reads rs index (fill_range r index arr) s _ h
        (fill_range-Reads r index arr s o h e) in
    (len', e' ∙ ap some (ground arith))

-- The index stands for the address, or both are absent.
abbrev Means : List Text → Option ℕ → Option Text → Type 0
Means addrs o a =
    ((o ≡ none) × (a ≡ none))
    ⊎ ((i : ℕ) × (t : Text) × (o ≡ some i) × (a ≡ some t) × (get_elem? addrs i ≡ some t))

get_elem?-snoc :
    (addrs : List Text) (x t : Text) (i : ℕ)
    → get_elem? addrs i ≡ some t
    → get_elem? (addrs ++ x ∷ []) i ≡ some t
get_elem?-snoc [] x t i e = cc
get_elem?-snoc (a ∷ addrs) x t zero e = e
get_elem?-snoc (a ∷ addrs) x t (suc i) e = get_elem?-snoc addrs x t i e

address_at-Means :
    (addrs : List Text) (o : Option ℕ) (a : Option Text)
    → Means addrs o a
    → address_at addrs (some o) ≡ a
address_at-Means addrs o a (inl (eo, ea)) = rw eo (sym ea)
address_at-Means addrs o a (inr (i, t, eo, ea, e)) = rw eo (e ∙ sym ea)

-- An address more, whose ranges may hold the slot.
next-Means :
    (addrs : List Text) (addr : Text) (held : Bool) (o : Option ℕ) (a : Option Text)
    → Means addrs o a
    → Means
        (addrs ++ addr ∷ [])
        (if held then some (length addrs) else o)
        (if held then some addr else a)
next-Means addrs addr true o a m =
    inr (length addrs, addr, refl, refl, get_elem?_at addrs addr [] refl refl)
next-Means addrs addr false o a (inl m) = inl m
next-Means addrs addr false o a (inr (i, t, eo, ea, e)) =
    inr (i, t, eo, ea, get_elem?-snoc addrs addr t i e)

or_else_assoc :
    (found : Option Text) (held : Bool) (addr : Text) (a : Option Text)
    → or_else found (if held then some addr else a)
      ≡ or_else (or_else found (if held then some addr else none)) a
or_else_assoc none true addr a = refl
or_else_assoc none false addr a = refl
or_else_assoc (some found) held addr a = refl

fill_all_lem :
    (served : Served) (d : SlotMapData) (s : ℕ) (o : Option ℕ) (a : Option Text)
    → s < slot_num
    → Reads d.slot_arr s o
    → Means d.addrs o a
    → get_address (fill_all served d) s ≡ or_else (last_server served s) a
unfolding fill_all get_address last_server
fill_all_lem [] d s o a h (len, e) m = rw e (address_at-Means d.addrs o a m)
fill_all_lem ((addr, rs) ∷ rest) d s o a h r m =
    fill_all_lem rest
      (record {
        slot_arr = fill_ranges rs (length d.addrs) d.slot_arr;
        addrs = d.addrs ++ addr ∷ [];
      })
      s _ _ h (fill_ranges-Reads rs (length d.addrs) d.slot_arr s o h r)
      (next-Means d.addrs addr (covers rs s) o a m)
    ∙ or_else_assoc (last_server rest s) (covers rs s) addr a

replicate-Reads : (n s : ℕ) → s < n → get_elem? (replicate {A = Option ℕ} n none) s ≡ some none
replicate-Reads zero s h = elim h [ ]
replicate-Reads (suc n) zero h = refl
replicate-Reads (suc n) (suc s) h = replicate-Reads n s (omega arith)

-- For a valid slot, the table gives the last address one of whose ranges holds the slot, and none if
-- there is no such address.
pub get_address-slot_map_data :
    (served : Served) (s : ℕ)
    → s < slot_num
    → get_address (slot_map_data served) s ≡ last_server served s
unfolding slot_map_data
get_address-slot_map_data served s h =
    fill_all_lem served _ s none none h
      (length-replicate {A = Option ℕ} slot_num none, replicate-Reads slot_num s h)
      (inl (refl, refl))
    ∙ or_else-none (last_server served s)
  where
    or_else-none : (o : Option Text) → or_else o none ≡ o
    or_else-none none = refl
    or_else-none (some t) = refl
