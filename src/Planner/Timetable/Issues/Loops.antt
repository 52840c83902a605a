-- ===== src/Planner/Timetable/Issues/Loops.antt =====
-- app/services/planner/timetable.py: the loops of `timetable_issues` find nothing exactly when
-- every row is in order.
use scholarscrib_backend.Planner.Timetable.{
  Weekday, day_eq, AllocationIn, DayMinutesIn, Overrides, overrides_from, day_capacity, Issue,
}
use scholarscrib_backend.Planner.Timetable.Issues.{
  PlanFrame, has_day, DayState, day_step, day_loop, row_problem, AllocationState, reserve_minutes,
  allocation_step, allocation_loop, capacity_issues,
}
use scholarscrib_backend.Prelude.{
  ℕ, ◌≤◌, String, ◌≡◌, refl, sym, ap, ◌∙◌, ◌≢◌, ◌↔◌, inl, inr, true, false, Option, none, some,
  List, [], ◌∷◌, ◌++◌, arith, ltb, ltb→lt, Bool-cases, All,
}
use scholarscrib_backend.Prelude.Dict
use mathlib.Core.Path.{subst}

pub append-eq-nil {ℓ} : {A : Type ℓ} (xs ys : List A) → xs ++ ys ≡ [] → (xs ≡ []) × (ys ≡ [])
append-eq-nil [] ys h = (refl, h)
append-eq-nil (x ∷ xs) ys h = cc

snoc-ne-nil {ℓ} : {A : Type ℓ} (xs : List A) (y : A) → xs ++ y ∷ [] ≢ []
snoc-ne-nil [] y h = cc
snoc-ne-nil (x ∷ xs) y h = cc

-- Each day is a study day and not the day of a row before it.
abbrev pub DaysFit : List Weekday → List Weekday → List DayMinutesIn → Type 0
DaysFit study seen [] = Unit
DaysFit study seen (row ∷ rows) =
    (has_day seen row.day ≡ false)
    × (has_day study row.day ≡ true)
    × DaysFit study (row.day ∷ seen) rows

abbrev clean_day : DayMinutesIn → DayState → DayState
clean_day row state = record {
  issues = state.issues;
  overrides = Dict.put day_eq state.overrides row.day row.minutes;
  seen_days = row.day ∷ state.seen_days;
}

day_step-clean :
    (study : List Weekday) (row : DayMinutesIn) (state : DayState)
    → (day_step study row state).issues ≡ []
    → (has_day state.seen_days row.day ≡ false)
      × (has_day study row.day ≡ true)
      × (state.issues ≡ [])
unfolding day_step
day_step-clean study row state h = elim (Bool-cases (has_day state.seen_days row.day)) [
  | inl e ↦ absurd (snoc-ne-nil state.issues _ (rw (e, day_step) at h))
  | inr e ↦ elim (Bool-cases (has_day study row.day)) [
    | inl f ↦ (e, f, rw (e, f, day_step) at h)
    | inr f ↦ absurd (snoc-ne-nil state.issues _ (rw (e, f, day_step) at h))
  ]
]

day_step_fits :
    (study : List Weekday) (row : DayMinutesIn) (state : DayState)
    → has_day state.seen_days row.day ≡ false
    → has_day study row.day ≡ true
    → day_step study row state ≡ clean_day row state
unfolding day_step
day_step_fits study row state new fits = rw (new, fits) refl

day_loop-grows :
    (study : List Weekday) (rows : List DayMinutesIn) (state : DayState)
    → (day_loop study rows state).issues ≡ []
    → state.issues ≡ []
unfolding day_loop
day_loop-grows study [] state h = h
day_loop-grows study (row ∷ rows) state h =
    (day_step-clean study row state (day_loop-grows study rows (day_step study row state) h)).2

pub day_loop-DaysFit :
    (study : List Weekday) (rows : List DayMinutesIn) (state : DayState)
    → (day_loop study rows state).issues ≡ []
    → DaysFit study state.seen_days rows
      × ((day_loop study rows state).overrides ≡ overrides_from state.overrides rows)
unfolding day_loop overrides_from
day_loop-DaysFit study [] state h = (tt, refl)
day_loop-DaysFit study (row ∷ rows) state h =
    let clean =
      day_step-clean study row state (day_loop-grows study rows (day_step study row state) h) in
    let same = day_step_fits study row state clean.0 clean.1 in
    let later =
      day_loop-DaysFit study rows (clean_day row state)
        (subst (λ s. (day_loop study rows s).issues ≡ []) same h) in
    ((clean.0, clean.1, later.0), rw (same, day_loop) later.1)

pub DaysFit-day_loop :
    (study : List Weekday) (rows : List DayMinutesIn) (state : DayState)
    → DaysFit study state.seen_days rows
    → ((day_loop study rows state).issues ≡ state.issues)
      × ((day_loop study rows state).overrides ≡ overrides_from state.overrides rows)
unfolding day_loop overrides_from
DaysFit-day_loop study [] state h = (refl, refl)
DaysFit-day_loop study (row ∷ rows) state h =
    subst
      (λ s.
        ((day_loop study rows s).issues ≡ state.issues)
        × ((day_loop study rows s).overrides
            ≡ overrides_from (Dict.put day_eq state.overrides row.day row.minutes) rows))
      (sym (day_step_fits study row state h.0 h.1))
      (DaysFit-day_loop study rows (clean_day row state) h.2)

-- Nothing is wrong with any allocation, the ones before it being taken.
abbrev pub RowsFit : PlanFrame → List (Weekday × String) → List AllocationIn → Type 0
RowsFit frame seen [] = Unit
RowsFit frame seen (row ∷ rows) =
    (row_problem frame seen row ≡ none) × RowsFit frame ((row.day, row.subject_id) ∷ seen) rows

-- The minutes that the allocations reserve of each day.
unfoldable pub totals_from : List (Weekday × ℕ) → List AllocationIn → List (Weekday × ℕ)
totals_from reserved [] = reserved
totals_from reserved (row ∷ rows) = totals_from (reserve_minutes reserved row) rows

abbrev clean_row : AllocationIn → AllocationState → AllocationState
clean_row row state = record {
  issues = state.issues;
  seen = (row.day, row.subject_id) ∷ state.seen;
  reserved = reserve_minutes state.reserved row;
}

allocation_step_clean :
    (row : AllocationIn) (problem : Option Issue) (state : AllocationState)
    → (allocation_step row problem state).issues ≡ []
    → (problem ≡ none) × (state.issues ≡ [])
unfolding allocation_step
allocation_step_clean row none state h = (refl, h)
allocation_step_clean row (some issue) state h = absurd (snoc-ne-nil state.issues issue h)

allocation_step-none :
    (row : AllocationIn) (state : AllocationState)
    → allocation_step row none state ≡ clean_row row state
unfolding allocation_step
allocation_step-none row state = refl

pub allocation_loop-grows :
    (frame : PlanFrame) (rows : List AllocationIn) (state : AllocationState)
    → (allocation_loop frame rows state).issues ≡ []
    → state.issues ≡ []
unfolding allocation_loop
allocation_loop-grows frame [] state h = h
allocation_loop-grows frame (row ∷ rows) state h =
    (allocation_step_clean row (row_problem frame state.seen row) state (
      allocation_loop-grows frame rows
        (allocation_step row (row_problem frame state.seen row) state) h)).1

pub allocation_loop-RowsFit :
    (frame : PlanFrame) (rows : List AllocationIn) (state : AllocationState)
    → (allocation_loop frame rows state).issues ≡ []
    → RowsFit frame state.seen rows
      × ((allocation_loop frame rows state).reserved ≡ totals_from state.reserved rows)
unfolding allocation_loop totals_from
allocation_loop-RowsFit frame [] state h = (tt, refl)
allocation_loop-RowsFit frame (row ∷ rows) state h =
    let problem = row_problem frame state.seen row in
    let clean =
      allocation_step_clean row problem state
        (allocation_loop-grows frame rows (allocation_step row problem state) h) in
    let same : allocation_step row problem state ≡ clean_row row state =
      rw clean.0 (allocation_step-none row state) in
    let later =
      allocation_loop-RowsFit frame rows (clean_row row state)
        (subst (λ s. (allocation_loop frame rows s).issues ≡ []) same h) in
    ((clean.0, later.0), rw (same, allocation_loop) later.1)

pub RowsFit-allocation_loop :
    (frame : PlanFrame) (rows : List AllocationIn) (state : AllocationState)
    → RowsFit frame state.seen rows
    → ((allocation_loop frame rows state).issues ≡ state.issues)
      × ((allocation_loop frame rows state).reserved ≡ totals_from state.reserved rows)
unfolding allocation_loop totals_from
RowsFit-allocation_loop frame [] state h = (refl, refl)
RowsFit-allocation_loop frame (row ∷ rows) state h =
    subst
      (λ s.
        ((allocation_loop frame rows s).issues ≡ state.issues)
        × ((allocation_loop frame rows s).reserved
            ≡ totals_from (reserve_minutes state.reserved row) rows))
      (sym (ap (λ p. allocation_step row p state) h.0 ∙ allocation_step-none row state))
      (RowsFit-allocation_loop frame rows (clean_row row state) h.1)

abbrev pub Holds : PlanFrame → Overrides → Weekday × ℕ → Type 0
Holds frame overrides e =
    e.1 ≤ day_capacity e.0 frame.weekday_minutes frame.weekend_minutes overrides

pub capacity_issues-Holds :
    (frame : PlanFrame) (overrides : Overrides) (totals : List (Weekday × ℕ))
    → (capacity_issues frame overrides totals ≡ []) ↔ All (Holds frame overrides) totals
unfolding capacity_issues
capacity_issues-Holds frame overrides [] = (λ h. tt, λ h. refl)
capacity_issues-Holds frame overrides ((day, total) ∷ rest) =
    let ih = capacity_issues-Holds frame overrides rest in
    let capacity = day_capacity day frame.weekday_minutes frame.weekend_minutes overrides in
    elim (Bool-cases (ltb capacity total)) [
      | inl e ↦ rw e (λ h. cc, λ h. absurd (omega (arith, ltb→lt capacity total e, h.0)))
      | inr e ↦ rw e (λ h. (ground arith, ih.0 h), λ h. ih.1 h.1)
    ]
