-- ===== src/Planner/Days.antt =====
-- app/services/planner/days.py. A day key is the text of an ISO date. It is modelled by the ordinal
-- of that date in Python's proleptic calendar: 0001-01-01, a Monday, is day 1. The order of the
-- texts of four-digit years is the order of the ordinals, and the detour over milliseconds at
-- midnight UTC is exact.
use scholarscrib_backend.Prelude.{
  ℕ, suc, ◌+◌, ◌-◌, ◌%◌, ◌≤◌, ◌<◌, ◌≡◌, Bool, ℤ, pos, negsuc, sub_ℕ, arith, leb,
}

abbrev pub DayKey : Type 0
DayKey = ℕ

unfoldable pub add_days : DayKey → ℤ → DayKey
add_days key (pos n) = key + n
add_days key (negsuc n) = key - suc n

unfoldable pub days_between : DayKey → DayKey → ℤ
days_between start end = sub_ℕ end start

unfoldable pub iso_weekday : DayKey → ℕ
iso_weekday key = (key + 6) % 7 + 1

unfoldable pub is_weekend : DayKey → Bool
unfolding iso_weekday
is_weekend key = leb 6 (iso_weekday key)

unfoldable pub monday_of : DayKey → DayKey
unfolding iso_weekday add_days
monday_of key = add_days key (sub_ℕ 1 (iso_weekday key))

pub iso_weekday_bounds : (key : DayKey) → (1 ≤ iso_weekday key) × (iso_weekday key ≤ 7)
unfolding iso_weekday
iso_weekday_bounds key = omega arith

pub monday_of_lem : (key : DayKey) → monday_of key ≡ key - (key + 6) % 7
unfolding monday_of
monday_of_lem key = ground arith

-- The Monday of a day's week is a Monday, at most six days back, and the Monday of every day of
-- its week.
pub monday_of-week :
    (key n : ℕ)
    → 1 ≤ key
    → n < 7
    → (iso_weekday (monday_of key) ≡ 1)
      × (monday_of key ≤ key)
      × (key ≤ monday_of key + 6)
      × (monday_of (add_days (monday_of key) (pos n)) ≡ monday_of key)
unfolding iso_weekday add_days
monday_of-week key n h k = omega (arith, monday_of_lem key, monday_of_lem (monday_of key + n))
