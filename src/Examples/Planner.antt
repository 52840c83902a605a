-- ===== src/Examples/Planner.antt =====
-- Runs of app/services/planner at concrete inputs.
use scholarscrib_backend.Planner.Timetable.{TimetableIn, monday, tuesday, custom}
use scholarscrib_backend.Planner.Timetable.Warnings.{timetable_warnings}
use scholarscrib_backend.Planner.Timetable.Warnings.Named.{
  subjects_of, timetable_warnings-subjects_of,
}
use scholarscrib_backend.Planner.Timetable.Issues.{PlanFrame, timetable_issues}
use scholarscrib_backend.Planner.Timetable.Issues.Spec.{IsValid}
use scholarscrib_backend.Planner.Timetable.Issues.Valid.{timetable_issues-IsValid}
use scholarscrib_backend.Planner.Days.{monday_of}
use scholarscrib_backend.Planner.PlanMode.{compute_runway_start, compute_runway_start_lem}
use scholarscrib_backend.Planner.Slots.{
  SlotAllocation, Availability, Slot, new_slot, slots_from, build_slots, preferred, pinned,
}
use scholarscrib_backend.Planner.Slots.Build.{IsFresh, budgets_from, build_slots-minutes}
use scholarscrib_backend.Planner.Slots.CatchUp.{catch_ups, has_full, build_slots-catch_ups}
use scholarscrib_backend.Planner.Slots.Reserve.{reserve_day, Day, reserve_slots}
use scholarscrib_backend.Planner.Slots.Reserve.Laws.{reserve_day-frame}
use scholarscrib_backend.Planner.Slots.Reserve.Order.{reserved_count, shape, ShortFree}
use scholarscrib_backend.Planner.Slots.Reserve.Week.{wanted_in, given_in, reserve_slots_lem}
use scholarscrib_backend.Prelude.{
  is_in, ◌≢◌, ◌↔◌, All, ℕ, ◌+◌, ◌*◌, ◌/◌, ◌≤◌, ◌<◌, String, ◌≡◌, refl, ◌↔◌, ◌⊎◌, true, false, none,
  some, List, [], ◌∷◌, map, arith, if◌then◌else◌, length, sum_of, All,
}

abbrev week_frame : PlanFrame
week_frame = record {
  study_days = monday ∷ tuesday ∷ [];
  weekday_minutes = 60;
  weekend_minutes = 120;
  subject_ids = "maths" ∷ "physics" ∷ [];
}

abbrev two_subjects : TimetableIn
two_subjects = record {
  mode = custom;
  day_minutes = record { day = tuesday; minutes = 45 } ∷ [];
  allocations =
      record { day = monday; subject_id = "maths"; minutes = none; strength = preferred }
      ∷ record { day = tuesday; subject_id = "physics"; minutes = some 30; strength = pinned }
      ∷ [];
}

timetable_issues-IsValid_example :
    (timetable_issues (some two_subjects) week_frame ≡ []) ↔ IsValid week_frame two_subjects
timetable_issues-IsValid_example = timetable_issues-IsValid two_subjects week_frame

-- Ordinal 739000 is a Saturday.
abbrev one_day : List Slot
one_day = new_slot 739000 30 false ∷ new_slot 739000 20 true ∷ []

abbrev two_rows : List SlotAllocation
two_rows =
    record { day = 6; subject_id = "maths"; minutes = some 60; strength = preferred }
    ∷ record { day = 6; subject_id = "physics"; minutes = none; strength = pinned }
    ∷ []

reserve_day-frame_example :
    (map shape (reserve_day [] 739000 two_rows one_day).slots ≡ map shape one_day)
    × ShortFree (reserve_day [] 739000 two_rows one_day).slots
reserve_day-frame_example = reserve_day-frame [] 739000 two_rows one_day (refl, (refl, tt))

abbrev days : List Day
days = (739000, one_day) ∷ []

reserve_slots_lem_example :
    (sum_of (λ day. reserved_count day.1) (reserve_slots days two_rows []).0
      ≡ given_in [] two_rows days)
    × (length (reserve_slots days two_rows []).1 + given_in [] two_rows days
        ≡ wanted_in [] two_rows days)
reserve_slots_lem_example = reserve_slots_lem days two_rows [] ((refl, (refl, tt)), tt)

abbrev weekends : Availability
weekends = record {
  study_days = 6 ∷ 7 ∷ [];
  weekday_minutes = 60;
  weekend_minutes = 80;
  day_minutes = (7, 45) ∷ [];
  allocations = [];
}

build_slots-catch_ups_example :
    catch_ups (monday_of 739000) (build_slots 739000 9 weekends)
    ≡ (if has_full (monday_of 739000) (slots_from 739000 0 9 weekends) then 1 else 0)
build_slots-catch_ups_example = build_slots-catch_ups 739000 9 weekends (monday_of 739000)

build_slots-minutes_example :
    All IsFresh (build_slots 739000 9 weekends)
    × (sum_of (λ s. s.minutes) (build_slots 739000 9 weekends) ≤ budgets_from 739000 0 9 weekends)
    × (budgets_from 739000 0 9 weekends
        ≤ sum_of (λ s. s.minutes) (build_slots 739000 9 weekends) + 15 * 9)
build_slots-minutes_example = build_slots-minutes 739000 9 weekends

abbrev quarter : ℕ → ℕ
quarter days = days / 4

compute_runway_start_lem_example :
    (739000 ≤ compute_runway_start quarter 739000 739060)
    × (compute_runway_start quarter 739000 739060 ≤ 739060)
    × (739060 < compute_runway_start quarter 739000 739060 + 21)
    × ((compute_runway_start quarter 739000 739060 ≡ 739000)
        ⊎ (compute_runway_start quarter 739000 739060 + 13 ≤ 739060))
compute_runway_start_lem_example = compute_runway_start_lem quarter 739000 739060 (omega arith)

abbrev three_names : List (String × String)
three_names = ("maths", "Mathematics") ∷ ("physics", "Physics") ∷ ("latin", "Latin") ∷ []

timetable_warnings-subjects_of_example :
    (is_in "latin"
        (subjects_of (timetable_warnings (some two_subjects) 60 120 three_names (some 14)))
      ≡ true)
    ↔ ((two_subjects.mode ≡ custom)
        × ((is_in "latin" (map (λ n. n.0) three_names) ≡ true)
            × All (λ row. row.subject_id ≢ "latin") two_subjects.allocations))
timetable_warnings-subjects_of_example =
    timetable_warnings-subjects_of two_subjects 60 120 three_names (some 14) "latin"
