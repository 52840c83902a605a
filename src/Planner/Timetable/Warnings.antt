-- ===== src/Planner/Timetable/Warnings.antt =====
-- app/services/planner/timetable.py, `timetable_warnings`: what a valid timetable does not make
-- obvious. `subject_names` is the list of the entries of the mapping, in its order.
pub mod Named
use scholarscrib_backend.Planner.Timetable.{
  Weekday, day_name, Mode, AllocationIn, TimetableIn, Overrides, day_minutes_overrides,
  day_capacity, Issue, smart, custom, subject_not_on_timetable, day_fully_booked,
  runway_replaces_timetable,
}
use scholarscrib_backend.Planner.Timetable.Issues.{reserve_minutes, day_total_le}
use scholarscrib_backend.Prelude.{
  ℕ, zero, suc, String, ◌≡◌, ◌≢◌, ◌↔◌, refl, sym, ap, &&-true, ◌∙◌, inl, inr, arith, All, is_in,
  eq_iff, Bool-cases, true, false, Bool, ◌&&◌, not, Option, none, some, List, [], ◌∷◌, ◌++◌, map,
  str_eq, ltb, leb, keep, any, ◌<>◌, to_text, sort_by,
}

unfoldable pub is_placed : List AllocationIn → String → Bool
is_placed rows subject_id = any (λ row. str_eq row.subject_id subject_id) rows

subject_warning : String × String → Issue
subject_warning (subject_id, name) = record {
  code = subject_not_on_timetable;
  message = name <> " is not on your timetable yet, so it only gets time that is left over.";
  day = none;
  subject_id = some subject_id;
}

unfoldable pub subject_warnings : List AllocationIn → List (String × String) → List Issue
unfolding is_placed subject_warning
subject_warnings rows names = map subject_warning (keep (λ n. not (is_placed rows n.0)) names)

-- The minutes of each day, all rows counted.
unfoldable pub reserved_from : List (Weekday × ℕ) → List AllocationIn → List (Weekday × ℕ)
unfolding reserve_minutes
reserved_from reserved [] = reserved
reserved_from reserved (row ∷ rows) = reserved_from (reserve_minutes reserved row) rows

booked_warning : Weekday × ℕ → Issue
booked_warning (day, total) = record {
  code = day_fully_booked;
  message =
      day_name day <> " is fully booked, so there is no room for revision or catching up that day.";
  day = some day;
  subject_id = none;
}

-- `capacity and total >= capacity`
unfoldable pub is_booked : ℕ → ℕ → Overrides → Weekday × ℕ → Bool
is_booked weekday_minutes weekend_minutes overrides (day, total) =
    let capacity = day_capacity day weekday_minutes weekend_minutes overrides in
    ltb 0 capacity && leb capacity total

unfoldable pub booked_warnings : ℕ → ℕ → Overrides → List AllocationIn → List Issue
unfolding reserved_from day_total_le is_booked booked_warning
booked_warnings weekday_minutes weekend_minutes overrides rows = map booked_warning (
    keep (is_booked weekday_minutes weekend_minutes overrides)
      (sort_by day_total_le (reserved_from [] rows)))

unfoldable pub runway_warnings : Option ℕ → List Issue
runway_warnings none = []
runway_warnings (some zero) = []
runway_warnings (some (suc n)) =
    record {
      code = runway_replaces_timetable;
      message =
          "In the last "
          <> to_text (suc n)
          <> " days before your exam, mock exams and past questions replace your usual timetable.";
      day = none;
      subject_id = none;
    }
    ∷ []

mode_warnings : Mode → ℕ → ℕ → Overrides → List AllocationIn → List (String × String) → List Issue
unfolding subject_warnings booked_warnings
mode_warnings smart weekday_minutes weekend_minutes overrides rows names = []
mode_warnings custom weekday_minutes weekend_minutes overrides rows names =
    subject_warnings rows names ++ booked_warnings weekday_minutes weekend_minutes overrides rows

unfoldable pub timetable_warnings :
    Option TimetableIn → ℕ → ℕ → List (String × String) → Option ℕ → List Issue
unfolding mode_warnings runway_warnings day_minutes_overrides
timetable_warnings none weekday_minutes weekend_minutes names runway_days =
    runway_warnings runway_days
timetable_warnings (some timetable) weekday_minutes weekend_minutes names runway_days =
    mode_warnings timetable.mode weekday_minutes weekend_minutes
      (day_minutes_overrides (some timetable)) timetable.allocations names
    ++ runway_warnings runway_days
