-- ===== src/Planner/Timetable/Issues.antt =====
-- app/services/planner/timetable.py, `timetable_issues` and `timetable_problem`.
mod Loops
mod Totals
pub mod Spec
mod Sound
pub mod Valid
use scholarscrib_backend.Planner.Slots.{session_minutes}
use scholarscrib_backend.Planner.Timetable.{
  Weekday, iso, day_name, day_eq, Mode, AllocationIn, DayMinutesIn, TimetableIn, Overrides,
  day_capacity, allocation_minutes, Code, Issue, smart, custom, day_time_duplicate, rest_day,
  needs_custom, no_allocations, subject_not_in_plan, duplicate_allocation, bad_step, over_capacity,
}
use scholarscrib_backend.Prelude.{
  ℕ, ◌+◌, ◌%◌, String, Bool, true, false, ◌&&◌, not, Option, none, some, List, [], ◌∷◌, ◌++◌,
  str_eq, ltb, leb, ◌==◌, if◌then◌else◌, any, ◌<>◌, to_text, sort_by,
}
use scholarscrib_backend.Prelude.Dict

-- The keyword arguments beside the timetable.
pub record PlanFrame : Type 0 where
  pub study_days : List Weekday
  pub weekday_minutes : ℕ
  pub weekend_minutes : ℕ
  pub subject_ids : List String

unfoldable pub has_day : List Weekday → Weekday → Bool
has_day days day = any (λ d. day_eq d day) days

unfoldable pub has_subject : List String → String → Bool
has_subject ids id = any (λ s. str_eq s id) ids

unfoldable pub allocation_eq : Weekday × String → Weekday × String → Bool
allocation_eq (d, s) (e, t) = day_eq d e && str_eq s t

day_issue : Code → String → Weekday → Issue
day_issue code message day = record {
  code = code;
  message = message;
  day = some day;
  subject_id = none;
}

row_issue : Code → String → AllocationIn → Issue
row_issue code message row = record {
  code = code;
  message = message;
  day = some row.day;
  subject_id = some row.subject_id;
}

plan_issue : Code → String → Issue
plan_issue code message = record { code = code; message = message; day = none; subject_id = none }

pub record DayState : Type 0 where
  pub issues : List Issue
  pub overrides : Overrides
  pub seen_days : List Weekday

-- The body of the first loop. The day is added to `seen_days` on every branch.
unfoldable pub day_step : List Weekday → DayMinutesIn → DayState → DayState
unfolding has_day day_issue
day_step study_days row state =
    let seen = row.day ∷ state.seen_days in
    if has_day state.seen_days row.day
    then record state {
      issues =
          state.issues
          ++ day_issue day_time_duplicate (day_name row.day <> " has more than one time set.")
              row.day
            ∷ [];
      seen_days = seen;
    }
    else if not (has_day study_days row.day)
    then record state {
      issues =
          state.issues
          ++ day_issue rest_day
              (day_name row.day <> " is a rest day, so it cannot have study time.") row.day
            ∷ [];
      seen_days = seen;
    }
    else record state {
      overrides = Dict.put day_eq state.overrides row.day row.minutes;
      seen_days = seen;
    }

unfoldable pub day_loop : List Weekday → List DayMinutesIn → DayState → DayState
unfolding day_step
day_loop study_days [] state = state
day_loop study_days (row ∷ rows) state = day_loop study_days rows (day_step study_days row state)

is_empty {ℓ} : {A : Type ℓ} → List A → Bool
is_empty [] = true
is_empty (x ∷ xs) = false

-- The two checks of the mode.
unfoldable pub mode_issues : Mode → List AllocationIn → List Issue
unfolding is_empty plan_issue
mode_issues smart allocations =
    if is_empty allocations
    then []
    else plan_issue needs_custom "Subjects on days need the custom subjects option." ∷ []
mode_issues custom allocations =
    if is_empty allocations
    then plan_issue no_allocations "Put at least one subject on a day, or keep the smart timetable."
      ∷ []
    else []

unfoldable pub bad_step_minutes : Option ℕ → Bool
bad_step_minutes none = false
bad_step_minutes (some minutes) = not (minutes % session_minutes == 0)

-- The `if`/`elif` ladder of the second loop: what is wrong with a row, if anything.
unfoldable pub row_problem : PlanFrame → List (Weekday × String) → AllocationIn → Option Issue
unfolding has_day has_subject allocation_eq bad_step_minutes row_issue
row_problem frame seen row =
    if not (has_day frame.study_days row.day)
    then some (
        row_issue rest_day (day_name row.day <> " is a rest day, so it cannot have a subject.") row)
    else if not (has_subject frame.subject_ids row.subject_id)
    then some
        (row_issue subject_not_in_plan "A subject on your timetable is not part of this plan." row)
    else if any (λ key. allocation_eq key (row.day, row.subject_id)) seen
    then some (
        row_issue duplicate_allocation
          ("A subject is on " <> day_name row.day <> " more than once.") row)
    else if bad_step_minutes row.minutes
    then some (
        row_issue bad_step
          ("Subject time must be in steps of " <> to_text session_minutes <> " minutes.") row)
    else none

pub record AllocationState : Type 0 where
  pub issues : List Issue
  pub seen : List (Weekday × String)
  pub reserved : List (Weekday × ℕ)

-- reserved[row.day] = reserved.get(row.day, 0) + allocation_minutes(row.minutes)
unfoldable pub reserve_minutes : List (Weekday × ℕ) → AllocationIn → List (Weekday × ℕ)
reserve_minutes reserved row =
    Dict.put day_eq reserved row.day
      (Dict.get_or day_eq reserved row.day 0 + allocation_minutes row.minutes)

-- The body of the second loop.
unfoldable pub allocation_step : AllocationIn → Option Issue → AllocationState → AllocationState
unfolding reserve_minutes
allocation_step row (some issue) state = record state { issues = state.issues ++ issue ∷ [] }
allocation_step row none state = record state {
  seen = (row.day, row.subject_id) ∷ state.seen;
  reserved = reserve_minutes state.reserved row;
}

unfoldable pub allocation_loop : PlanFrame → List AllocationIn → AllocationState → AllocationState
unfolding allocation_step
allocation_loop frame [] state = state
allocation_loop frame (row ∷ rows) state =
    allocation_loop frame rows (allocation_step row (row_problem frame state.seen row) state)

unfoldable pub day_total_le : Weekday × ℕ → Weekday × ℕ → Bool
day_total_le (d, m) (e, n) = if day_eq d e then leb m n else leb (iso d) (iso e)

-- The last loop: over `sorted(reserved.items())`.
unfoldable pub capacity_issues : PlanFrame → Overrides → List (Weekday × ℕ) → List Issue
unfolding day_issue
capacity_issues frame overrides [] = []
capacity_issues frame overrides ((day, total) ∷ rest) =
    let capacity = day_capacity day frame.weekday_minutes frame.weekend_minutes overrides in
    (if ltb capacity total
      then day_issue over_capacity
          (day_name day
            <> " has "
            <> to_text total
            <> " minutes of subjects but only "
            <> to_text capacity
            <> " minutes of study time.")
          day
        ∷ []
      else [])
    ++ capacity_issues frame overrides rest

unfoldable pub issues_of : PlanFrame → TimetableIn → List Issue
unfolding day_loop mode_issues allocation_loop capacity_issues day_total_le
issues_of frame timetable =
    let days =
      day_loop frame.study_days timetable.day_minutes
        (record { issues = []; overrides = []; seen_days = [] }) in
    let state = allocation_loop frame timetable.allocations (record {
      issues = days.issues ++ mode_issues timetable.mode timetable.allocations;
      seen = [];
      reserved = [];
    }) in
    state.issues ++ capacity_issues frame days.overrides (sort_by day_total_le state.reserved)

-- Every reason a timetable cannot be saved, in a stable order.
unfoldable pub timetable_issues : Option TimetableIn → PlanFrame → List Issue
unfolding issues_of
timetable_issues none frame = []
timetable_issues (some timetable) frame = issues_of frame timetable

first_message : List Issue → Option String
first_message [] = none
first_message (issue ∷ issues) = some issue.message

-- The first reason a timetable cannot be saved, or None.
unfoldable pub timetable_problem : Option TimetableIn → PlanFrame → Option String
unfolding first_message
timetable_problem timetable frame = first_message (timetable_issues timetable frame)
