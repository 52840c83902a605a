-- ===== src/Planner/Timetable/Issues/Valid.antt =====
-- app/services/planner/timetable.py: `timetable_issues` is empty exactly for valid timetables.
use mathlib.Core.Path.{subst₂, ap₂}
use scholarscrib_backend.Planner.Timetable.{
  Weekday, Mode, AllocationIn, DayMinutesIn, TimetableIn, Overrides, overrides_from,
  day_minutes_overrides, smart, custom,
}
use scholarscrib_backend.Planner.Timetable.Issues.{
  PlanFrame, has_day, DayState, day_loop, mode_issues, AllocationState, allocation_loop,
  day_total_le, capacity_issues, issues_of, timetable_issues,
}
use scholarscrib_backend.Planner.Timetable.Issues.Loops.{
  append-eq-nil, day_loop-DaysFit, DaysFit-day_loop, allocation_loop-grows, allocation_loop-RowsFit,
  RowsFit-allocation_loop, Holds, capacity_issues-Holds,
}
use scholarscrib_backend.Planner.Timetable.Issues.Totals.{totals_from-Holds}
use scholarscrib_backend.Planner.Timetable.Issues.Spec.{
  ModeFits, IsValid, DaysFit-DaysSpec, DaysSpec-DaysFit,
}
use scholarscrib_backend.Planner.Timetable.Issues.Sound.{
  is_seen, RowsFit-RowsSpec, RowsSpec-RowsFit,
}
use scholarscrib_backend.Prelude.{
  ℕ, ◌≡◌, refl, sym, ◌∙◌, ◌↔◌, false, some, List, [], ◌∷◌, ◌++◌, All, sort_by, sort_by-All,
  sort_by-All_inv,
}

mode_issues_lem :
    (mode : Mode) (allocations : List AllocationIn)
    → (mode_issues mode allocations ≡ []) ↔ ModeFits mode allocations
unfolding mode_issues
mode_issues_lem smart [] = (λ h. refl, λ h. refl)
mode_issues_lem smart (row ∷ rows) = (λ h. cc, λ h. cc)
mode_issues_lem custom [] = (λ h. cc, λ h. absurd (h refl))
mode_issues_lem custom (row ∷ rows) = (λ h e. cc, λ h. refl)

no_seen : (rows : List AllocationIn) → All (λ row. is_seen [] row ≡ false) rows
unfolding is_seen
no_seen [] = tt
no_seen (row ∷ rows) = (refl, no_seen rows)

no_days : (rows : List DayMinutesIn) → All (λ row. has_day [] row.day ≡ false) rows
unfolding has_day
no_days [] = tt
no_days (row ∷ rows) = (refl, no_days rows)

module _ (frame : PlanFrame) (timetable : TimetableIn) where
  -- The state after the first loop, and the state after the second.
  days : DayState
  days =
      day_loop frame.study_days timetable.day_minutes
        (record { issues = []; overrides = []; seen_days = [] })

  start : AllocationState
  start = record {
    issues = days.issues ++ mode_issues timetable.mode timetable.allocations;
    seen = [];
    reserved = [];
  }

  state : AllocationState
  state = allocation_loop frame timetable.allocations start

  sorted_Holds :
      (overrides : Overrides) (totals : List (Weekday × ℕ))
      → (capacity_issues frame overrides (sort_by day_total_le totals) ≡ [])
        ↔ All (Holds frame overrides) totals
  sorted_Holds overrides totals = (
    λ h.
        sort_by-All_inv day_total_le (Holds frame overrides) totals
          ((capacity_issues-Holds frame overrides (sort_by day_total_le totals)).0 h),
    λ h.
        (capacity_issues-Holds frame overrides (sort_by day_total_le totals)).1
          (sort_by-All day_total_le (Holds frame overrides) totals h),
  )

  sound : issues_of frame timetable ≡ [] → IsValid frame timetable
  unfolding issues_of days start state day_minutes_overrides
  sound h =
      let last = append-eq-nil state.issues _ h in
      let rows = allocation_loop-RowsFit frame timetable.allocations start last.0 in
      let before =
        append-eq-nil days.issues _
          (allocation_loop-grows frame timetable.allocations start last.0) in
      let first =
        day_loop-DaysFit frame.study_days timetable.day_minutes
          (record { issues = []; overrides = []; seen_days = [] }) before.0 in
      let day_spec = DaysFit-DaysSpec frame.study_days [] timetable.day_minutes first.0 in
      let row_spec = RowsFit-RowsSpec frame [] timetable.allocations rows.0 in
      let totals = (sorted_Holds days.overrides state.reserved).0 last.1 in
      record {
        times_on_study_days = day_spec.studied;
        one_time_a_day = day_spec.single;
        mode_fits = (mode_issues_lem timetable.mode timetable.allocations).0 before.1;
        in_plan = row_spec.in_plan;
        no_duplicates = row_spec.single;
        within_capacity =
            (totals_from-Holds frame (overrides_from [] timetable.day_minutes)
                timetable.allocations).0
              (subst₂ (λ o t. All (Holds frame o) t) first.1 rows.1 totals);
      }

  complete : IsValid frame timetable → issues_of frame timetable ≡ []
  unfolding issues_of days start state day_minutes_overrides
  complete v =
      let first =
        DaysFit-day_loop frame.study_days timetable.day_minutes
          (record { issues = []; overrides = []; seen_days = [] })
          (DaysSpec-DaysFit frame.study_days [] timetable.day_minutes (record {
            studied = v.times_on_study_days;
            single = v.one_time_a_day;
            unseen = no_days timetable.day_minutes;
          })) in
      let rows = RowsFit-allocation_loop frame timetable.allocations start (
        RowsSpec-RowsFit frame [] timetable.allocations (record {
          in_plan = v.in_plan;
          single = v.no_duplicates;
          unseen = no_seen timetable.allocations;
        })) in
      let totals =
        (totals_from-Holds frame (overrides_from [] timetable.day_minutes) timetable.allocations).1
          v.within_capacity in
      let none_late : capacity_issues frame days.overrides (sort_by day_total_le state.reserved)
          ≡ [] =
        (sorted_Holds days.overrides state.reserved).1
          (subst₂ (λ o t. All (Holds frame o) t) (sym first.1) (sym rows.1) totals) in
      let mode = (mode_issues_lem timetable.mode timetable.allocations).1 v.mode_fits in
      let none_early : state.issues ≡ [] = rows.0 ∙ ap₂ (λ a b. a ++ b) first.0 mode in
      ap₂ (λ a b. a ++ b) none_early none_late

-- A timetable has no issue exactly when it is valid: set times are for study days, once a day; a
-- smart timetable has no allocation and a custom one has some; every allocation puts a subject of
-- the plan on a study day, in whole sessions and once; and on each day the allocations fit in the
-- whole sessions of the minutes that the day has, its set time included.
pub timetable_issues-IsValid :
    (timetable : TimetableIn) (frame : PlanFrame)
    → (timetable_issues (some timetable) frame ≡ []) ↔ IsValid frame timetable
unfolding timetable_issues
timetable_issues-IsValid timetable frame = (sound frame timetable, complete frame timetable)
