-- ===== src/Broker/Migrate/ScaleOut.antt =====
-- `remove_slots_from_src` ends, never fails, and plans exactly the slots that leave the sources.
use undermoon.Prelude.{
  ℕ, zero, suc, ◌+◌, ◌-◌, ◌*◌, ◌≤◌, ◌<◌, ◌≡◌, refl, sym, ap, subst, inl, inr, ◌⊎◌, Bool, true,
  false, [], ◌∷◌, ◌++◌, leb, arith, Bool-cases, ok, ◌||◌, min, add_word-exact, sub_word-exact,
  slot_num, ◌==◌,
}
use undermoon.Ranges.{Range, RangeList, get_slots_num}
use undermoon.Ranges.Covers.{IsCompact}
use undermoon.Ranges.Count.{times, times-append, total, get_slots_num-total, total_lt}
use undermoon.Ranges.Times.{IsProper-append}
use undermoon.Broker.Store.{MigrationSlots}
use undermoon.Broker.Migrate.{
  Carry, Quota, final_num, src_final, dst_final, out_meta, push_cut, settle, take_once, take_from,
}
use undermoon.Broker.Migrate.Cut.{IsCut, cut_last-IsCut, split_last-append, snoc_cases}
use undermoon.Broker.Migrate.Settle.{held_times, Inv, IsClean, settle-Settled}

-- A planned migration between the masters of `n` chunks.
pub record IsPlan (epoch n : ℕ) (m : MigrationSlots) : Type 0 where
  pub ranges_compact : IsCompact m.ranges
  pub src_chunk : m.meta.src_chunk_index < n
  pub src_part : m.meta.src_chunk_part < 2
  pub dst_chunk : m.meta.dst_chunk_index < n
  pub dst_part : m.meta.dst_chunk_part < 2
  pub planned_at : m.meta.epoch ≡ epoch

-- What the loops need of the numbers: at least one slot for each master, and the free chunks are the
-- ones behind the sources.
pub record IsFair (n : ℕ) (q : Quota) : Type 0 where
  pub positive : 0 < q.average
  pub small : q.average < slot_num + 1
  pub fits : q.src_chunk_num * 2 + q.dst_master_num ≡ n * 2

module _ (n : ℕ) (q : Quota) (fair : IsFair n q) where
  abbrev pub room : ℕ → ℕ
  room k = final_num q (q.src_master_num + k)

  abbrev pub Planned : MigrationSlots → Type 0
  Planned = IsPlan q.epoch n

  abbrev pub Cursor : RangeList → Carry → Type 0
  Cursor = Inv room q.dst_master_num Planned

  room_pos : (k : ℕ) → 0 < room k
  room_pos k = omega (arith, fair.positive)

  room_small : (k : ℕ) → final_num q k ≤ slot_num + 1
  room_small k = ground (arith, fair.small)

  -- One round of the loop.
  record Took (keep : ℕ) (rs : RangeList) (c : Carry) (rs' : RangeList) (c' : Carry) (go_on : Bool)
      : Type 0 where
    inv : Cursor rs' c'
    clean : IsClean room q.dst_master_num Planned keep rs' c'
    stops : go_on ≡ false → c'.curr_dst_slots ≡ []
    same : (s : ℕ) → times rs' s + held_times c' s ≡ times rs s + held_times c s
    shrinks : total rs' < total rs

  module _ (i j : ℕ) (valid_index : i < n) (valid_part : j < 2) where
    abbrev keep : ℕ
    keep = src_final q i j

    out_meta-IsPlan :
        (c : Carry)
        → c.curr_dst_master_index < q.dst_master_num
        → (ranges : RangeList) → IsCompact ranges
        → Planned (record { ranges = ranges; meta = out_meta q i j c })
    out_meta-IsPlan c h ranges o = record {
      ranges_compact = o;
      src_chunk = valid_index;
      src_part = valid_part;
      dst_chunk = omega (arith, fair.fits);
      dst_part = omega arith;
      planned_at = refl;
    }

    -- The step behind a cut.
    settle_cut :
        (limit : ℕ) (rs rs' : RangeList) (r : Range) (m : ℕ) (c : Carry)
        → IsCut limit rs rs' r m
        → limit ≤ room c.curr_dst_master_index - c.curr_slots_num
        → Cursor rs c
        → c.curr_dst_master_index < q.dst_master_num
        → (c' : Carry) × (go_on : Bool) × (settle
              (out_meta q i j c)
              (leb (dst_final q c) (push_cut c r m).curr_slots_num)
              (leb (get_slots_num rs') (src_final q i j))
              rs'
              (push_cut c r m)
            ≡ ok (rs', c', go_on))
          × Took keep rs c rs' c' go_on
    settle_cut limit rs rs' r m c cut lim inv h =
        let exact = add_word-exact c.curr_slots_num m (
          omega (
            arith,
            cut.limited,
            lim,
            room_small (q.src_master_num + c.curr_dst_master_index),
            inv.has_room,
          )) in
        let (c', go_on, e, s) =
          settle-Settled room q.dst_master_num Planned room_pos rs' (push_cut c r m) cut.keeps
            (IsProper-append c.curr_dst_slots (r ∷ []) inv.proper ((cut.ascends, cut.in_word), tt))
            (λ s. omega (arith, inv.apart s, cut.same s, times-append c.curr_dst_slots (r ∷ []) s))
            h inv.planned (out_meta q i j c) (out_meta-IsPlan c h) keep
            (leb (dst_final q c) (push_cut c r m).curr_slots_num)
            (leb (get_slots_num rs') (src_final q i j)) (omega (arith, exact, cut.limited, lim))
            refl (ap (λ t. leb t (src_final q i j)) (get_slots_num-total 0 rs' cut.keeps)) in
        (
          c',
          go_on,
          e,
          record {
            inv = s.inv;
            clean = s.clean;
            stops = s.stops;
            same =
                λ x. omega (arith, s.same x, cut.same x, times-append c.curr_dst_slots (r ∷ []) x);
            shrinks = omega (arith, cut.len, cut.positive);
          },
        )

    take_once_snoc :
        (init : RangeList) (r : Range) (c : Carry)
        → Cursor (init ++ r ∷ []) c
        → c.curr_dst_master_index < q.dst_master_num
        → keep < total (init ++ r ∷ [])
        → (rs' : RangeList) × (c' : Carry) × (go_on : Bool) × (take_once q i j (init ++ r ∷ []) c
            ≡ ok (rs', c', go_on))
          × Took keep (init ++ r ∷ []) c rs' c' go_on
    unfolding take_once
    take_once_snoc init r c inv h more =
        let limit : ℕ = min (dst_final q c - c.curr_slots_num) (total (init ++ r ∷ []) - keep) in
        let cut = cut_last-IsCut limit init r (omega (arith, inv.has_room)) inv.ascending in
        let (c', go_on, e, took) =
          settle_cut limit (init ++ r ∷ []) _ _ _ c cut (omega arith) inv h in
        (
          _,
          c',
          go_on,
          rw
              (
                split_last-append init r,
                get_slots_num-total 0 (init ++ r ∷ []) inv.ascending,
                sub_word-exact (dst_final q c) c.curr_slots_num (omega (arith, inv.has_room))
                    (omega (arith, room_small (q.src_master_num + c.curr_dst_master_index))),
                sub_word-exact (total (init ++ r ∷ [])) keep (omega arith)
                    (total_lt 0 _ inv.ascending),
              )
              e,
          took,
        )

    take_once_lem :
        (rs : RangeList) (c : Carry)
        → Cursor rs c
        → c.curr_dst_master_index < q.dst_master_num
        → keep < total rs
        → (rs' : RangeList) × (c' : Carry) × (go_on : Bool) × (take_once q i j rs c
            ≡ ok (rs', c', go_on))
          × Took keep rs c rs' c' go_on
    take_once_lem rs c inv h more = elim (snoc_cases rs) [
      | inl e ↦ absurd (omega (arith, ap total e))
      | inr (init, r, e) ↦
          subst
            (λ t.
              Cursor t c
              → keep < total t
              → (rs' : RangeList) × (c' : Carry) × (go_on : Bool) × (take_once q i j t c
                  ≡ ok (rs', c', go_on))
                × Took keep t c rs' c' go_on)
            (sym e) (λ inv more. take_once_snoc init r c inv h more) inv more
    ]

    abbrev ends : RangeList → Carry → Bool
    ends rs c =
        c.curr_dst_master_index == q.dst_master_num || leb (get_slots_num rs) (src_final q i j)

    stop_reason :
        (rs : RangeList) (c : Carry)
        → Cursor rs c
        → ends rs c ≡ true
        → (total rs ≤ keep) ⊎ (c.curr_dst_master_index ≡ q.dst_master_num)
    stop_reason rs c inv h = elim (Bool-cases (c.curr_dst_master_index == q.dst_master_num)) [
      | inl last ↦ inr (ground arith)
      | inr more ↦ inl (ground (arith, get_slots_num-total 0 rs inv.ascending))
    ]

    go_reason :
        (rs : RangeList) (c : Carry)
        → Cursor rs c
        → ends rs c ≡ false
        → (keep < total rs) × (c.curr_dst_master_index < q.dst_master_num)
    go_reason rs c inv h = ground (arith, get_slots_num-total 0 rs inv.ascending, inv.index)

    -- What the loop leaves, for the round that it makes.
    abbrev Ends : ℕ → RangeList → Carry → Type 0
    Ends fuel rs c =
        (rs' : RangeList) × (c' : Carry) × (take_from fuel q i j rs c ≡ ok (rs', c'))
        × Cursor rs' c'
        × (c'.curr_dst_slots ≡ [])
        × ((s : ℕ) → times rs' s + held_times c' s ≡ times rs s + held_times c s)

    continue :
        (rs : RangeList) (c : Carry)
        → ends rs c ≡ false
        → (fuel : ℕ) (rs₁ : RangeList) (c₁ : Carry) (go_on : Bool)
        → take_once q i j rs c ≡ ok (rs₁, c₁, go_on)
        → Took keep rs c rs₁ c₁ go_on
        → Ends fuel rs₁ c₁
        → Ends (suc fuel) rs c
    unfolding take_from
    continue rs c go fuel rs₁ c₁ true e took (rs', c', done, inv, clear, same) =
        (rs', c', rw (go, e, take_from) done, inv, clear, λ s. omega (arith, same s, took.same s))
    continue rs c go fuel rs₁ c₁ false e took rest =
        (rs₁, c₁, rw (go, e, take_from), took.inv, took.stops refl, took.same)

    -- With more fuel than slots the loop ends, with everything planned that it took.
    pub take_from_lem :
        (fuel : ℕ) (rs : RangeList) (c : Carry)
        → Cursor rs c
        → IsClean room q.dst_master_num Planned keep rs c
        → total rs < fuel
        → Ends fuel rs c
    unfolding take_from
    take_from_lem zero rs c inv clean h = elim h [ ]
    take_from_lem (suc fuel) rs c inv clean h = elim (Bool-cases (ends rs c)) [
      | inl stop ↦ (rs, c, rw (stop, take_from), inv, clean (stop_reason rs c inv stop), λ s. refl)
      | inr go ↦
          let (more, room) = go_reason rs c inv go in
          let (rs₁, c₁, go_on, e, took) = take_once_lem rs c inv room more in
          continue rs c go fuel rs₁ c₁ go_on e took
            (take_from_lem fuel rs₁ c₁ took.inv took.clean (omega (arith, took.shrinks)))
    ]
