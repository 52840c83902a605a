-- ===== src/Planner/Layout/Window/Planned.antt =====
-- app/services/planner/layout.py: the free slots of a window, and the minutes of the whole layout.
use mathlib.Core.Path.{subst}
use scholarscrib_backend.Planner.Days.{DayKey, iso_weekday}
use scholarscrib_backend.Planner.Slots.{SlotAllocation, Slot}
use scholarscrib_backend.Planner.Slots.Reserve.{
  Settled, reserve_day, Day, reserve_days, reserve_slots,
}
use scholarscrib_backend.Planner.Slots.Reserve.Order.{is_reserved, shape}
use scholarscrib_backend.Planner.Slots.Reserve.Laws.{reserve_day-frame}
use scholarscrib_backend.Planner.Layout.{
  FixedItem, bare, group_by_date, bool_eq, slot_eq, remove_slot, last_of, or_last, remove_found,
  use_slot, use_times, use_all, free_days,
}
use scholarscrib_backend.Floats.{Floats}
use scholarscrib_backend.Planner.Layout.Window.{
  settled_by, Input, reserved_days, frame_of, start_state, layout_window,
}
use scholarscrib_backend.Planner.Layout.Window.Filled.{day_minutes, on_day}
use scholarscrib_backend.Planner.Layout.Window.Minutes.{slots_on, days_on, Dated, layout_days-Adds}
use scholarscrib_backend.Prelude.{
  ℕ, zero, suc, ◌+◌, ◌/◌, ◌≤◌, max, ◌≡◌, refl, sym, ap, inl, inr, Bool, true, false, Option, none,
  some, List, [], ◌∷◌, map, arith, ltb, ◌==◌, if◌then◌else◌, ==_iff, ==_refl, Bool-cases, keep,
  sum_of, All, sum_of-append, All-append, All-map,
}
use scholarscrib_backend.Prelude.Dict
use scholarscrib_backend.Prelude.Dict.Laws.{get_or-All}

-- What removing slots keeps: a predicate of the slots, and a bound on a sum.
record Fewer (P : Slot → Type 0) (f : Slot → ℕ) (before after : List Slot) : Type 0 where
  keeps : All P before → All P after
  less : sum_of f after ≤ sum_of f before

module _ (P : Slot → Type 0) (f : Slot → ℕ) where
  Fewer-refl : (slots : List Slot) → Fewer P f slots slots
  Fewer-refl slots = record { keeps = λ h. h; less = omega arith }

  Fewer-trans : (a b c : List Slot) → Fewer P f a b → Fewer P f b c → Fewer P f a c
  Fewer-trans a b c h k = record {
    keeps = λ x. k.keeps (h.keeps x);
    less = omega (arith, h.less, k.less);
  }

  remove_slot-Fewer : (slot : Slot) (slots : List Slot) → Fewer P f slots (remove_slot slot slots)
  unfolding remove_slot
  remove_slot-Fewer slot [] = Fewer-refl []
  remove_slot-Fewer slot (x ∷ xs) = go (slot_eq x slot) (remove_slot-Fewer slot xs)
    where
      go :
          (b : Bool)
          → Fewer P f xs (remove_slot slot xs)
          → Fewer P f (x ∷ xs) (if b then xs else x ∷ remove_slot slot xs)
      go true h = record { keeps = λ k. k.1; less = omega arith }
      go false h = record { keeps = λ k. (k.0, h.keeps k.1); less = omega (arith, h.less) }

  use_slot-Fewer : (item : FixedItem) (slots : List Slot) → Fewer P f slots (use_slot item slots)
  unfolding use_slot
  use_slot-Fewer item slots =
      go
        (or_last (last_of (keep (λ s. bool_eq s.short (ltb item.duration_minutes 30)) slots)) slots)
    where
      go : (found : Option Slot) → Fewer P f slots (remove_found found slots)
      go none = unfold remove_found in Fewer-refl slots
      go (some slot) = unfold remove_found in remove_slot-Fewer slot slots

  use_times-Fewer :
      (n : ℕ) (item : FixedItem) (slots : List Slot) → Fewer P f slots (use_times n item slots)
  unfolding use_times
  use_times-Fewer zero item slots = Fewer-refl slots
  use_times-Fewer (suc n) item slots =
      Fewer-trans slots (use_slot item slots) (use_times n item (use_slot item slots))
        (use_slot-Fewer item slots) (use_times-Fewer n item (use_slot item slots))

  use_all-Fewer :
      (items : List FixedItem) (slots : List Slot) → Fewer P f slots (use_all items slots)
  unfolding use_all
  use_all-Fewer [] slots = Fewer-refl slots
  use_all-Fewer (item ∷ items) slots =
      Fewer-trans slots _ _ (use_times-Fewer (max 1 (item.duration_minutes / 30)) item slots)
        (use_all-Fewer items _)

-- A slot of a day that no subject has reserved.
abbrev IsBare : DayKey → Slot → Type 0
IsBare day slot = (slot.date ≡ day) × (is_reserved slot ≡ false)

abbrev Bare : DayKey → List Slot → Type 0
Bare day slots = All (IsBare day) slots

abbrev AllBare : List Day → Type 0
AllBare days = All (λ d. Bare d.0 d.1) days

put-Bare :
    (days : List Day) (day : DayKey) (slots : List Slot)
    → AllBare days
    → Bare day slots
    → AllBare (Dict.put ◌==◌ days day slots)
put-Bare [] day slots h k = (k, tt)
put-Bare ((d, xs) ∷ days) day slots h k = elim (Bool-cases (d == day)) [
  | inl e ↦ rw e (subst (λ x. Bare x slots) (sym ((==_iff d day).0 e)) k, h.1)
  | inr e ↦ rw e (h.0, put-Bare days day slots h.1 k)
]

group_by_date-Bare :
    (found : List Day) (slots : List Slot) → AllBare found → AllBare (group_by_date found slots)
unfolding group_by_date
group_by_date-Bare found [] h = h
group_by_date-Bare found (slot ∷ slots) h =
    let old = get_or-All ◌==◌ (λ a b. (==_iff a b).0) ==_refl Bare found slot.date [] h tt in
    group_by_date-Bare (Dict.append_to ◌==◌ found slot.date (bare slot)) slots (
      put-Bare found slot.date _ h
        (All-append (IsBare slot.date) _ (bare slot ∷ []) old ((refl, refl), tt)))

append_to-days_on :
    (date : DayKey) (days : List Day) (day : DayKey) (slot : Slot)
    → days_on date (Dict.append_to ◌==◌ days day slot) ≡ days_on date days + on_day date slot
append_to-days_on date [] day slot = omega arith
append_to-days_on date ((d, xs) ∷ days) day slot = elim (Bool-cases (d == day)) [
  | inl e ↦ rw e (omega (arith, sum_of-append (on_day date) xs (slot ∷ [])))
  | inr e ↦ rw e (omega (arith, append_to-days_on date days day slot))
]

group_by_date-days_on :
    (date : DayKey) (found : List Day) (slots : List Slot)
    → days_on date (group_by_date found slots) ≡ days_on date found + slots_on date slots
unfolding group_by_date
group_by_date-days_on date found [] = omega arith
group_by_date-days_on date found (slot ∷ slots) = omega (
  arith,
  group_by_date-days_on date (Dict.append_to ◌==◌ found slot.date (bare slot)) slots,
  append_to-days_on date found slot.date (bare slot),
)

abbrev freed : List FixedItem → Day → Day
freed fixed day = (day.0, use_all (keep (λ item. item.date == day.0) fixed) day.1)

free-Bare :
    (date : DayKey) (fixed : List FixedItem) (days : List Day)
    → AllBare days
    → AllBare (map (freed fixed) days) × (days_on date (map (freed fixed) days) ≤ days_on date days)
free-Bare date fixed [] h = (tt, omega arith)
free-Bare date fixed ((day, slots) ∷ days) h =
    let fewer =
      use_all-Fewer (IsBare day) (on_day date) (keep (λ item. item.date == day) fixed) slots in
    let rest = free-Bare date fixed days h.1 in
    ((fewer.keeps h.0, rest.0), omega (arith, fewer.less, rest.1))

free_days-Bare :
    (date : DayKey) (slots : List Slot) (fixed : List FixedItem)
    → AllBare (free_days slots fixed) × (days_on date (free_days slots fixed) ≤ slots_on date slots)
unfolding free_days
free_days-Bare date slots fixed =
    let h = free-Bare date fixed (group_by_date [] slots) (group_by_date-Bare [] slots tt) in
    (h.0, omega (arith, h.1, group_by_date-days_on date [] slots))

-- Slots of the same shapes have the same dates and minutes.
shape-Dated :
    (day : DayKey) (xs ys : List Slot) → map shape xs ≡ map shape ys → Dated day ys → Dated day xs
shape-Dated day xs ys e h = back xs (subst (λ l. All (λ s. s.0 ≡ day) l) (sym e) (forth ys h))
  where
    forth : (l : List Slot) → Dated day l → All (λ (s : DayKey × ℕ × Bool). s.0 ≡ day) (map shape l)
    forth [] k = tt
    forth (x ∷ l) k = (k.0, forth l k.1)

    back : (l : List Slot) → All (λ (s : DayKey × ℕ × Bool). s.0 ≡ day) (map shape l) → Dated day l
    back [] k = tt
    back (x ∷ l) k = (k.0, back l k.1)

shape-slots_on :
    (date : DayKey) (slots : List Slot)
    → slots_on date slots
      ≡ sum_of (λ (s : DayKey × ℕ × Bool). if s.0 == date then s.1 else 0) (map shape slots)
shape-slots_on date [] = refl
shape-slots_on date (x ∷ slots) = omega (arith, shape-slots_on date slots)

reserve_days-Dated :
    (date : DayKey) (rows : List (ℕ × List SlotAllocation)) (settled : Settled) (days : List Day)
    → AllBare days
    → All (λ (d : Day). Dated d.0 d.1) (reserve_days rows settled days).0
      × (days_on date (reserve_days rows settled days).0 ≡ days_on date days)
unfolding reserve_days
reserve_days-Dated date rows settled [] h = (tt, refl)
reserve_days-Dated date rows settled ((day, slots) ∷ days) h =
    let found = Dict.get_or ◌==◌ rows (iso_weekday day) [] in
    let free = All-map (IsBare day) (λ s. is_reserved s ≡ false) slots (λ s k. k.1) h.0 in
    let dated = All-map (IsBare day) (λ s. s.date ≡ day) slots (λ s k. k.0) h.0 in
    let same = (reserve_day-frame settled day found slots free).0 in
    let rest = reserve_days-Dated date rows settled days h.1 in
    (
      (shape-Dated day _ slots same dated, rest.0),
      omega (
        arith,
        rest.1,
        shape-slots_on date (reserve_day settled day found slots).slots,
        shape-slots_on date slots,
        ap (λ l. sum_of (λ (s : DayKey × ℕ × Bool). if s.0 == date then s.1 else 0) l) same,
      ),
    )

-- Whatever the topics, the revisions and the timetable are: no day of the window is planned beyond
-- the minutes of its slots.
pub layout_window-day_minutes :
    (F : Floats) (input : Input F) (date : DayKey)
    → day_minutes date (layout_window F input).0 ≤ slots_on date input.slots
unfolding layout_window reserved_days reserve_slots start_state
layout_window-day_minutes F input date =
    let free = free_days-Bare date input.slots input.fixed in
    let reserved = reserve_days-Dated date _ (settled_by [] input.fixed) _ free.0 in
    let days = (reserved_days F input).0 in
    let added =
      layout_days-Adds F (frame_of F input days) date days
        (start_state F input days (reserved_days F input).1) reserved.0 in
    omega (arith, free.1, reserved.1, added)
