-- ===== src/Planner/Timetable.antt =====
-- app/services/planner/timetable.py: the student's timetable, its problems, and its shape in
-- storage, with the fields of `TimetableIn` in app/api/schemas.py. The schema's own range checks
-- have run before: a weekday is one of seven.
pub mod Issues
pub mod Stored
pub mod Warnings
use scholarscrib_backend.Planner.Slots.{session_minutes, Strength}
use scholarscrib_backend.Prelude.{
  ℕ, ◌*◌, ◌/◌, String, ◌≡◌, Bool, true, Option, none, some, List, [], ◌∷◌, arith, leb, ◌==◌,
  if◌then◌else◌,
}
use scholarscrib_backend.Prelude.Dict

pub data Weekday : Type 0 where
  monday tuesday wednesday thursday friday saturday sunday : Weekday

unfoldable pub iso : Weekday → ℕ
iso monday = 1
iso tuesday = 2
iso wednesday = 3
iso thursday = 4
iso friday = 5
iso saturday = 6
iso sunday = 7

unfoldable pub day_name : Weekday → String
day_name monday = "Monday"
day_name tuesday = "Tuesday"
day_name wednesday = "Wednesday"
day_name thursday = "Thursday"
day_name friday = "Friday"
day_name saturday = "Saturday"
day_name sunday = "Sunday"

abbrev pub day_eq : Weekday → Weekday → Bool
day_eq a b = iso a == iso b

pub iso-injective : (a b : Weekday) → day_eq a b ≡ true → a ≡ b
unfolding iso
iso-injective a b h = ground arith

pub data Mode : Type 0 where
  smart custom : Mode

pub record AllocationIn : Type 0 where
  pub day : Weekday
  pub subject_id : String
  pub minutes : Option ℕ
  pub strength : Strength

pub record DayMinutesIn : Type 0 where
  pub day : Weekday
  pub minutes : ℕ

pub record TimetableIn : Type 0 where
  pub mode : Mode
  pub day_minutes : List DayMinutesIn
  pub allocations : List AllocationIn

abbrev pub Overrides : Type 0
Overrides = List (Weekday × ℕ)

-- `{row.day: row.minutes for row in rows}`, a later row over an earlier one.
unfoldable pub overrides_from : Overrides → List DayMinutesIn → Overrides
overrides_from found [] = found
overrides_from found (row ∷ rows) = overrides_from (Dict.put day_eq found row.day row.minutes) rows

unfoldable pub day_minutes_overrides : Option TimetableIn → Overrides
unfolding overrides_from
day_minutes_overrides none = []
day_minutes_overrides (some timetable) = overrides_from [] timetable.day_minutes

unfoldable pub minutes_for_day : Weekday → ℕ → ℕ → Overrides → ℕ
minutes_for_day day weekday_minutes weekend_minutes overrides =
    Dict.get_or day_eq overrides day (if leb 6 (iso day) then weekend_minutes else weekday_minutes)

unfoldable pub day_capacity : Weekday → ℕ → ℕ → Overrides → ℕ
unfolding minutes_for_day
day_capacity day weekday_minutes weekend_minutes overrides =
    minutes_for_day day weekday_minutes weekend_minutes overrides
    / session_minutes
    * session_minutes

unfoldable pub allocation_minutes : Option ℕ → ℕ
allocation_minutes none = session_minutes
allocation_minutes (some minutes) = minutes

pub data Code : Type 0 where
  day_time_duplicate rest_day needs_custom no_allocations subject_not_in_plan : Code
  duplicate_allocation bad_step over_capacity : Code
  subject_not_on_timetable day_fully_booked runway_replaces_timetable : Code

pub record Issue : Type 0 where
  pub code : Code
  pub message : String
  pub day : Option Weekday
  pub subject_id : Option String
