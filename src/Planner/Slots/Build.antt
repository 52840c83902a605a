-- ===== src/Planner/Slots/Build.antt =====
-- app/services/planner/slots.py, `build_slots`: the minutes of the slots.
use scholarscrib_backend.Planner.Days.{DayKey, add_days}
use scholarscrib_backend.Planner.Slots.{
  session_minutes, short_session_min, Availability, Slot, day_budget, new_slot, day_slots,
  slots_from, last_days, mark_catch_up, mark_all, build_slots,
}
use scholarscrib_backend.Prelude.{
  ℕ, zero, suc, ◌+◌, ◌-◌, ◌*◌, ◌/◌, ◌≤◌, ◌<◌, ◌≡◌, refl, ◌∙◌, inl, inr, true, false, ◌&&◌, not,
  none, List, [], ◌∷◌, arith, leb, ◌==◌, if◌then◌else◌, leb→le, Bool-cases, replicate, sum_of, All,
  sum_of-append, All-append, pos,
}

-- A whole session of thirty minutes, or a short one of fifteen to twenty-nine; not reserved.
pub record IsFresh (slot : Slot) : Type 0 where
  pub full : slot.short ≡ false → slot.minutes ≡ session_minutes
  pub part :
      slot.short ≡ true → (short_session_min ≤ slot.minutes) × (slot.minutes < session_minutes)
  pub no_subject : slot.subject_id ≡ none

sum_of-replicate :
    (n : ℕ) (slot : Slot) → sum_of (λ s. s.minutes) (replicate n slot) ≡ n * slot.minutes
sum_of-replicate zero slot = omega arith
sum_of-replicate (suc n) slot = grind (arith, sum_of-replicate n slot)

replicate-IsFresh :
    (n : ℕ) (date : DayKey) → All IsFresh (replicate n (new_slot date session_minutes false))
replicate-IsFresh zero date = tt
replicate-IsFresh (suc n) date =
    (record { full = λ e. refl; part = λ e. cc; no_subject = refl }, replicate-IsFresh n date)

-- The last, short slot of a day.
rest_slots : DayKey → ℕ → List Slot
rest_slots date rest = if leb short_session_min rest then new_slot date rest true ∷ [] else []

rest_slots-IsFresh : (date : DayKey) (rest : ℕ) → rest < 30 → All IsFresh (rest_slots date rest)
unfolding rest_slots
rest_slots-IsFresh date rest h = elim (Bool-cases (leb short_session_min rest)) [
  | inl e ↦
      rw e (record { full = λ f. cc; part = λ f. (leb→le 15 rest e, h); no_subject = refl }, tt)
  | inr e ↦ rw e tt
]

rest_slots-minutes :
    (date : DayKey) (rest : ℕ)
    → (sum_of (λ s. s.minutes) (rest_slots date rest) ≤ rest)
      × (rest < sum_of (λ s. s.minutes) (rest_slots date rest) + 15)
unfolding rest_slots
rest_slots-minutes date rest = ground arith

day_slots-IsFresh : (date : DayKey) (budget : ℕ) → All IsFresh (day_slots date budget)
unfolding day_slots rest_slots
day_slots-IsFresh date budget =
    All-append IsFresh (replicate (budget / 30) (new_slot date session_minutes false))
      (rest_slots date (budget - budget / 30 * 30)) (replicate-IsFresh (budget / 30) date)
      (rest_slots-IsFresh date (budget - budget / 30 * 30) (omega arith))

-- A day never holds more than its budget, and leaves less than fifteen minutes of it unused.
day_slots-minutes :
    (date : DayKey) (budget : ℕ)
    → (sum_of (λ s. s.minutes) (day_slots date budget) ≤ budget)
      × (budget < sum_of (λ s. s.minutes) (day_slots date budget) + 15)
unfolding day_slots rest_slots
day_slots-minutes date budget =
    let rest = budget - budget / 30 * 30 in
    omega (
      arith,
      sum_of-append {0} (λ s. s.minutes)
          (replicate (budget / 30) (new_slot date session_minutes false)) (rest_slots date rest),
      sum_of-replicate (budget / 30) (new_slot date session_minutes false),
      rest_slots-minutes date rest,
    )

-- The budgets of the days from an offset on.
abbrev pub budgets_from : DayKey → ℕ → ℕ → Availability → ℕ
budgets_from start offset zero availability = 0
budgets_from start offset (suc days) availability =
    day_budget (add_days start (pos offset)) availability
    + budgets_from start (suc offset) days availability

slots_from-IsFresh :
    (start : DayKey) (offset days : ℕ) (availability : Availability)
    → All IsFresh (slots_from start offset days availability)
unfolding slots_from
slots_from-IsFresh start offset zero availability = tt
slots_from-IsFresh start offset (suc days) availability =
    let date = add_days start (pos offset) in
    All-append IsFresh (day_slots date (day_budget date availability))
      (slots_from start (suc offset) days availability)
      (day_slots-IsFresh date (day_budget date availability))
      (slots_from-IsFresh start (suc offset) days availability)

slots_from-minutes :
    (start : DayKey) (offset days : ℕ) (availability : Availability)
    → (sum_of (λ s. s.minutes) (slots_from start offset days availability)
        ≤ budgets_from start offset days availability)
      × (budgets_from start offset days availability
          ≤ sum_of (λ s. s.minutes) (slots_from start offset days availability) + 15 * days)
unfolding slots_from
slots_from-minutes start offset zero availability = omega arith
slots_from-minutes start offset (suc days) availability =
    let date = add_days start (pos offset) in
    let here = day_slots date (day_budget date availability) in
    omega (
      arith,
      sum_of-append {0} (λ s. s.minutes) here (slots_from start (suc offset) days availability),
      day_slots-minutes date (day_budget date availability),
      slots_from-minutes start (suc offset) days availability,
    )

mark_catch_up-IsFresh :
    (date : DayKey) (slots : List Slot) → All IsFresh slots → All IsFresh (mark_catch_up date slots)
unfolding mark_catch_up
mark_catch_up-IsFresh date [] h = tt
mark_catch_up-IsFresh date (slot ∷ slots) h =
    elim (Bool-cases (slot.date == date && not slot.short)) [
      | inl e ↦ rw e (record { full = h.0.full; part = h.0.part; no_subject = h.0.no_subject }, h.1)
      | inr e ↦ rw e (h.0, mark_catch_up-IsFresh date slots h.1)
    ]

mark_catch_up-minutes :
    (date : DayKey) (slots : List Slot)
    → sum_of (λ s. s.minutes) (mark_catch_up date slots) ≡ sum_of (λ s. s.minutes) slots
unfolding mark_catch_up
mark_catch_up-minutes date [] = refl
mark_catch_up-minutes date (slot ∷ slots) = ground (arith, mark_catch_up-minutes date slots)

mark_all-frame :
    (days : List (DayKey × DayKey)) (slots : List Slot)
    → All IsFresh slots
    → All IsFresh (mark_all days slots)
      × (sum_of (λ s. s.minutes) (mark_all days slots) ≡ sum_of (λ s. s.minutes) slots)
unfolding mark_all
mark_all-frame [] slots h = (h, refl)
mark_all-frame ((week, date) ∷ rest) slots h =
    let next =
      mark_all-frame rest (mark_catch_up date slots) (mark_catch_up-IsFresh date slots h) in
    (next.0, next.1 ∙ mark_catch_up-minutes date slots)

-- Every slot is a fresh whole or short session; together they hold at most the minutes that the
-- student has on the days of the window, and less by fifteen minutes a day at most.
pub build_slots-minutes :
    (start : DayKey) (days : ℕ) (availability : Availability)
    → All IsFresh (build_slots start days availability)
      × (sum_of (λ s. s.minutes) (build_slots start days availability)
          ≤ budgets_from start 0 days availability)
      × (budgets_from start 0 days availability
          ≤ sum_of (λ s. s.minutes) (build_slots start days availability) + 15 * days)
unfolding build_slots
build_slots-minutes start days availability =
    let slots = slots_from start 0 days availability in
    let frame =
      mark_all-frame (last_days [] slots) slots (slots_from-IsFresh start 0 days availability) in
    let total = slots_from-minutes start 0 days availability in
    (frame.0, omega (arith, frame.1, total.0), omega (arith, frame.1, total.1))
