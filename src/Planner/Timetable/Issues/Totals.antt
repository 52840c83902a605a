-- ===== src/Planner/Timetable/Issues/Totals.antt =====
-- app/services/planner/timetable.py: the minutes that `timetable_issues` adds up for each day.
use scholarscrib_backend.Planner.Timetable.{
  Weekday, iso, day_eq, iso-injective, AllocationIn, Overrides, allocation_minutes,
}
use scholarscrib_backend.Planner.Timetable.Issues.{PlanFrame, reserve_minutes}
use scholarscrib_backend.Planner.Timetable.Issues.Loops.{totals_from, Holds}
use mathlib.Core.Path.{subst}
use scholarscrib_backend.Prelude.{
  ℕ, ◌+◌, ◌≡◌, refl, ap, ◌∙◌, ◌↔◌, inl, inr, List, [], ◌∷◌, arith, ==_refl, Bool-cases, keep,
  sum_of, All, All-map,
}
use scholarscrib_backend.Prelude.Dict
use scholarscrib_backend.Prelude.Dict.Laws.{
  get_or-put, Unique, put-Unique, Unique-entries, get_or-All,
}

-- The minutes of the allocations on a day.
abbrev pub minutes_on : Weekday → List AllocationIn → ℕ
minutes_on day rows =
    sum_of (λ row. allocation_minutes row.minutes) (keep (λ row. day_eq row.day day) rows)

abbrev pub UniqueDays : List (Weekday × ℕ) → Type 0
UniqueDays d = Unique day_eq iso-injective (λ a. ==_refl (iso a)) d

totals_from-UniqueDays :
    (reserved : List (Weekday × ℕ)) (rows : List AllocationIn)
    → UniqueDays reserved
    → UniqueDays (totals_from reserved rows)
unfolding totals_from reserve_minutes
totals_from-UniqueDays reserved [] h = h
totals_from-UniqueDays reserved (row ∷ rows) h =
    totals_from-UniqueDays (reserve_minutes reserved row) rows
      (put-Unique day_eq iso-injective (λ a. ==_refl (iso a)) reserved row.day _ h)

pub get_or-totals_from :
    (reserved : List (Weekday × ℕ)) (rows : List AllocationIn) (day : Weekday)
    → Dict.get_or day_eq (totals_from reserved rows) day 0
      ≡ Dict.get_or day_eq reserved day 0 + minutes_on day rows
unfolding totals_from reserve_minutes
get_or-totals_from reserved [] day = omega arith
get_or-totals_from reserved (row ∷ rows) day =
    get_or-totals_from (reserve_minutes reserved row) rows day
    ∙ rw
        (get_or-put day_eq iso-injective (λ a. ==_refl (iso a)) reserved row.day day
          (Dict.get_or day_eq reserved row.day 0 + allocation_minutes row.minutes) 0)
        (elim (Bool-cases (day_eq row.day day)) [
          | inl e ↦
              let same = ap (λ d. Dict.get_or day_eq reserved d 0) (iso-injective row.day day e) in
              rw e (omega (arith, same))
          | inr e ↦ rw e refl
        ])

get_or-totals :
    (rows : List AllocationIn) (day : Weekday)
    → Dict.get_or day_eq (totals_from [] rows) day 0 ≡ minutes_on day rows
get_or-totals rows day = omega (arith, get_or-totals_from [] rows day)

-- All totals are within the capacities exactly when each day's minutes are.
pub totals_from-Holds :
    (frame : PlanFrame) (overrides : Overrides) (rows : List AllocationIn)
    → All (Holds frame overrides) (totals_from [] rows)
      ↔ ((day : Weekday) → Holds frame overrides (day, minutes_on day rows))
totals_from-Holds frame overrides rows = (
  λ h day.
      subst (λ n. Holds frame overrides (day, n)) (get_or-totals rows day)
        (get_or-All day_eq iso-injective (λ a. ==_refl (iso a))
          (λ d n. Holds frame overrides (d, n)) (totals_from [] rows) day 0 h (omega arith)),
  λ h.
      All-map (λ e. Dict.get_or day_eq (totals_from [] rows) e.0 0 ≡ e.1) (Holds frame overrides)
        (totals_from [] rows) (λ e found. rw (← found) (rw (get_or-totals rows e.0) (h e.0)))
        (Unique-entries day_eq iso-injective (λ a. ==_refl (iso a)) (totals_from [] rows) 0
          (totals_from-UniqueDays [] rows tt)),
)
