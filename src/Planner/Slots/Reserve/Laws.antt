-- ===== src/Planner/Slots/Reserve/Laws.antt =====
-- app/services/planner/slots.py, `reserve_slots`: what a day gives and what it reports.
use scholarscrib_backend.Planner.Days.{DayKey}
use scholarscrib_backend.Planner.Slots.{SlotAllocation, Slot, UnreservedSession}
use scholarscrib_backend.Planner.Slots.Reserve.{
  row_le, ordered, assign, DayState, reserve_session, reserve_times, Settled, wanted, reserve_rows,
  reserve_day,
}
use scholarscrib_backend.Planner.Slots.Reserve.Order.{
  is_reserved, full_count, reserved_count, test_at, is_open, Distinct, ordered-Distinct,
  length-ordered, ordered-open, reserved_count-assign, open-assign_ne, shape, ShortFree,
  shape-assign, assign-ShortFree,
}
use scholarscrib_backend.Prelude.{
  ℕ, zero, suc, ◌+◌, ◌-◌, min, ◌≡◌, refl, ◌∙◌, ◌≢◌, true, false, ◌&&◌, List, [], ◌∷◌, map, arith,
  length, sum_of, All, length-append, All-map, sort_by, sum_of-sort_by,
}

-- The slots still to be given out are open, and no slot is there twice.
record IsReady (state : DayState) : Type 0 where
  open_slots : All (λ i. test_at is_open state.slots i ≡ true) state.free
  distinct : Distinct state.free

record Served (n : ℕ) (before after : DayState) : Type 0 where
  ready : IsReady after
  taken :
      reserved_count after.slots + length after.unreserved
      ≡ reserved_count before.slots + length before.unreserved + n
  left : length after.free ≡ length before.free - n
  missed : length after.unreserved ≡ length before.unreserved + (n - length before.free)
  same_shape : map shape after.slots ≡ map shape before.slots
  short_free : ShortFree before.slots → ShortFree after.slots

reserve_at-Served :
    (date : DayKey) (row : SlotAllocation) (slots : List Slot) (free : List ℕ)
    (un : List UnreservedSession)
    → IsReady (record { slots = slots; free = free; unreserved = un })
    → Served 1
        (record { slots = slots; free = free; unreserved = un })
        (reserve_session date row (record { slots = slots; free = free; unreserved = un }))
unfolding reserve_session
reserve_at-Served date row slots [] un h = record {
  ready = record { open_slots = tt; distinct = tt };
  taken = omega (arith, length-append {0} un (missed_session ∷ []));
  left = omega arith;
  missed = omega (arith, length-append {0} un (missed_session ∷ []));
  same_shape = refl;
  short_free = λ k. k;
}
  where
    missed_session : UnreservedSession
    missed_session = record { date = date; subject_id = row.subject_id; strength = row.strength }
reserve_at-Served date row slots (i ∷ rest) un h = record {
  ready = record { open_slots = still rest h.distinct.0 h.open_slots.1; distinct = h.distinct.1 };
  taken = omega (arith, reserved_count-assign slots i row h.open_slots.0);
  left = omega arith;
  missed = omega arith;
  same_shape = shape-assign slots i row;
  short_free = assign-ShortFree slots i row h.open_slots.0;
}
  where
    still :
        (l : List ℕ)
        → All (λ j. i ≢ j) l
        → All (λ j. test_at is_open slots j ≡ true) l
        → All (λ j. test_at is_open (assign slots i row) j ≡ true) l
    still [] a b = tt
    still (j ∷ l) a b = (rw (open-assign_ne slots i j row a.0) b.0, still l a.1 b.1)

reserve_session-Served :
    (date : DayKey) (row : SlotAllocation) (state : DayState)
    → IsReady state
    → Served 1 state (reserve_session date row state)
reserve_session-Served date row state h =
    reserve_at-Served date row state.slots state.free state.unreserved h

Served-trans : (m n : ℕ) (a b c : DayState) → Served m a b → Served n b c → Served (m + n) a c
Served-trans m n a b c h k = record {
  ready = k.ready;
  taken = omega (arith, h.taken, k.taken);
  left = omega (arith, h.left, k.left);
  missed = omega (arith, h.left, h.missed, k.missed);
  same_shape = k.same_shape ∙ h.same_shape;
  short_free = λ f. k.short_free (h.short_free f);
}

Served-none : (state : DayState) → IsReady state → Served 0 state state
Served-none state h = record {
  ready = h;
  taken = omega arith;
  left = omega arith;
  missed = omega arith;
  same_shape = refl;
  short_free = λ k. k;
}

reserve_times-Served :
    (date : DayKey) (row : SlotAllocation) (n : ℕ) (state : DayState)
    → IsReady state
    → Served n state (reserve_times date row n state)
unfolding reserve_times
reserve_times-Served date row zero state h = Served-none state h
reserve_times-Served date row (suc n) state h =
    let one = reserve_session-Served date row state h in
    let e : 1 + n ≡ suc n = omega arith in
    rw e at (
      Served-trans 1 n state (reserve_session date row state)
        (reserve_times date row n (reserve_session date row state)) one
        (reserve_times-Served date row n (reserve_session date row state) one.ready))

reserve_rows-Served :
    (settled : Settled) (date : DayKey) (rows : List SlotAllocation) (state : DayState)
    → IsReady state
    → Served (sum_of (wanted settled date) rows) state (reserve_rows settled date rows state)
unfolding reserve_rows
reserve_rows-Served settled date [] state h = Served-none state h
reserve_rows-Served settled date (row ∷ rows) state h =
    let next = reserve_times date row (wanted settled date row) state in
    let one = reserve_times-Served date row (wanted settled date row) state h in
    Served-trans (wanted settled date row) (sum_of (wanted settled date) rows) state next
      (reserve_rows settled date rows next) one
      (reserve_rows-Served settled date rows next one.ready)

reserve_day-Served :
    (settled : Settled) (date : DayKey) (rows : List SlotAllocation) (slots : List Slot)
    → All (λ slot. is_reserved slot ≡ false) slots
    → Served
        (sum_of (wanted settled date) (sort_by row_le rows))
        (record { slots = slots; free = ordered slots; unreserved = [] })
        (reserve_day settled date rows slots)
unfolding reserve_day
reserve_day-Served settled date rows slots h =
    reserve_rows-Served settled date (sort_by row_le rows)
      (record { slots = slots; free = ordered slots; unreserved = [] })
      (record { open_slots = ordered-open slots h; distinct = ordered-Distinct slots })

-- On a day with nothing reserved yet, as many full slots are reserved as the allocations want, or
-- all of them if they want more; and exactly the sessions beyond the full slots are reported.
pub reserve_day_lem :
    (settled : Settled) (date : DayKey) (rows : List SlotAllocation) (slots : List Slot)
    → All (λ slot. is_reserved slot ≡ false) slots
    → (reserved_count (reserve_day settled date rows slots).slots
        ≡ min (sum_of (wanted settled date) rows) (full_count slots))
      × (length (reserve_day settled date rows slots).unreserved
          ≡ sum_of (wanted settled date) rows - full_count slots)
reserve_day_lem settled date rows slots h =
    let s = reserve_day-Served settled date rows slots h in
    omega (
      arith,
      s.taken,
      s.missed,
      length-ordered slots,
      none_reserved slots h,
      sum_of-sort_by row_le (wanted settled date) rows,
    )
  where
    none_reserved :
        (l : List Slot) → All (λ slot. is_reserved slot ≡ false) l → reserved_count l ≡ 0
    none_reserved [] k = refl
    none_reserved (slot ∷ l) k = ground (arith, none_reserved l k.1, k.0)

-- Reserving changes no slot's day, minutes or kind, and never gives a short slot to a subject.
pub reserve_day-frame :
    (settled : Settled) (date : DayKey) (rows : List SlotAllocation) (slots : List Slot)
    → All (λ slot. is_reserved slot ≡ false) slots
    → (map shape (reserve_day settled date rows slots).slots ≡ map shape slots)
      × ShortFree (reserve_day settled date rows slots).slots
reserve_day-frame settled date rows slots h =
    let s = reserve_day-Served settled date rows slots h in
    (
      s.same_shape,
      s.short_free (
          All-map (λ slot. is_reserved slot ≡ false)
            (λ slot. (slot.short && is_reserved slot) ≡ false) slots (λ slot k. ground arith) h),
    )
