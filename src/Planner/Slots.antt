-- ===== src/Planner/Slots.antt =====
-- app/services/planner/slots.py: how the minutes of a study day become session slots, and how the
-- student's timetable reserves them. The loops that change slots in place are folds; the list
-- `ordered` of references into a day's slots is a list of their positions.
pub mod Build
pub mod CatchUp
pub mod Reserve
use scholarscrib_backend.Planner.Days.{DayKey, add_days, iso_weekday, is_weekend, monday_of}
use scholarscrib_backend.Prelude.{
  ℕ, zero, suc, ◌+◌, ◌-◌, ◌*◌, ◌/◌, max, Bool, true, false, not, ◌&&◌, ◌||◌, String, str_eq, Option,
  none, some, List, [], ◌∷◌, ◌++◌, pos, ◌==◌, leb, if◌then◌else◌, replicate, keep, any, text_leb,
  sort_by,
}
use scholarscrib_backend.Prelude.Dict

abbrev pub session_minutes : ℕ
session_minutes = 30

abbrev pub short_session_min : ℕ
short_session_min = 15

pub data Strength : Type 0 where
  preferred pinned : Strength

pub record SlotAllocation : Type 0 where
  pub day : ℕ
  pub subject_id : String
  pub minutes : Option ℕ
  pub strength : Strength

pub sessions_of : Option ℕ → ℕ
sessions_of none = 1
sessions_of (some m) = max 1 (m / session_minutes)

pub sessions : SlotAllocation → ℕ
unfolding sessions_of
sessions row = sessions_of row.minutes

pub record Availability : Type 0 where
  pub study_days : List ℕ
  pub weekday_minutes : ℕ
  pub weekend_minutes : ℕ
  pub day_minutes : List (ℕ × ℕ)
  pub allocations : List SlotAllocation

pub record Slot : Type 0 where
  pub date : DayKey
  pub minutes : ℕ
  pub short : Bool
  pub catch_up : Bool
  pub subject_id : Option String
  pub strength : Option Strength

pub record UnreservedSession : Type 0 where
  pub date : DayKey
  pub subject_id : String
  pub strength : Strength

unfoldable pub day_budget : DayKey → Availability → ℕ
unfolding is_weekend
day_budget date availability =
    let weekday = iso_weekday date in
    if not (any (λ day. day == weekday) availability.study_days)
    then 0
    else Dict.get_or ◌==◌ availability.day_minutes weekday
        (if is_weekend date then availability.weekend_minutes else availability.weekday_minutes)

abbrev pub new_slot : DayKey → ℕ → Bool → Slot
new_slot date minutes short = record {
  date = date;
  minutes = minutes;
  short = short;
  catch_up = false;
  subject_id = none;
  strength = none;
}

-- The body of the loop over the days: whole sessions, and one short slot if enough is left.
unfoldable pub day_slots : DayKey → ℕ → List Slot
day_slots date budget =
    let full = budget / session_minutes in
    let rest = budget - full * session_minutes in
    replicate full (new_slot date session_minutes false)
    ++ (if leb short_session_min rest then new_slot date rest true ∷ [] else [])

unfoldable pub slots_from : DayKey → ℕ → ℕ → Availability → List Slot
unfolding day_slots day_budget add_days
slots_from start offset zero availability = []
slots_from start offset (suc days) availability =
    let date = add_days start (pos offset) in
    day_slots date (day_budget date availability) ++ slots_from start (suc offset) days availability

-- The dictionary `last_day`: the last day with a full slot, for each week.
unfoldable pub last_days : List (DayKey × DayKey) → List Slot → List (DayKey × DayKey)
last_days found [] = found
last_days found (slot ∷ slots) =
    last_days (if slot.short then found else Dict.put ◌==◌ found (monday_of slot.date) slot.date)
      slots

-- The first full slot of a day becomes the week's catch-up slot.
unfoldable pub mark_catch_up : DayKey → List Slot → List Slot
mark_catch_up date [] = []
mark_catch_up date (slot ∷ slots) =
    if slot.date == date && not slot.short
    then record slot { catch_up = true } ∷ slots
    else slot ∷ mark_catch_up date slots

unfoldable pub mark_all : List (DayKey × DayKey) → List Slot → List Slot
unfolding mark_catch_up
mark_all [] slots = slots
mark_all ((week, date) ∷ rest) slots = mark_all rest (mark_catch_up date slots)

unfoldable pub build_slots : DayKey → ℕ → Availability → List Slot
unfolding slots_from last_days mark_all
build_slots start days availability =
    let slots = slots_from start 0 days availability in mark_all (last_days [] slots) slots
