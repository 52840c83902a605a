-- ===== src/Planner/Timetable/Stored.antt =====
-- app/services/planner/timetable.py, `stored_timetable`: the canonical form for the column.
use scholarscrib_backend.Planner.Timetable.{
  iso, day_eq, Mode, AllocationIn, DayMinutesIn, TimetableIn, smart, custom,
}
use scholarscrib_backend.Prelude.{
  Bool, true, false, ◌&&◌, Option, none, some, List, [], ◌∷◌, leb, if◌then◌else◌, text_leb, sort_by,
}

abbrev is_nil {ℓ} : {A : Type ℓ} → List A → Bool
is_nil [] = true
is_nil (x ∷ xs) = false

abbrev pub is_smart : Mode → Bool
is_smart smart = true
is_smart custom = false

unfoldable pub day_row_le : DayMinutesIn → DayMinutesIn → Bool
day_row_le a b = leb (iso a.day) (iso b.day)

-- The order of the keys `(row.day, row.subjectId)`.
unfoldable pub allocation_le : AllocationIn → AllocationIn → Bool
allocation_le a b =
    if day_eq a.day b.day then text_leb a.subject_id b.subject_id else leb (iso a.day) (iso b.day)

unfoldable pub canonical : TimetableIn → TimetableIn
unfolding day_row_le allocation_le
canonical timetable = record timetable {
  day_minutes = sort_by day_row_le timetable.day_minutes;
  allocations = sort_by allocation_le timetable.allocations;
}

-- `None` stands for a smart plan with nothing set; anything else is stored sorted.
unfoldable pub stored_timetable : Option TimetableIn → Option TimetableIn
unfolding canonical
stored_timetable none = none
stored_timetable (some timetable) =
    if is_smart timetable.mode && (is_nil timetable.allocations && is_nil timetable.day_minutes)
    then none
    else some (canonical timetable)
