-- ===== src/Planner/PlanMode.antt =====
-- app/services/planner/mode.py: the mode of a plan and its exam runway. `total_days * 0.2` is a
-- float; its rounding is the parameter `rounded`.
use scholarscrib_backend.Planner.Days.{DayKey, add_days, days_between}
use scholarscrib_backend.Prelude.{
  ℕ, ◌+◌, ◌-◌, ◌*◌, ◌≤◌, ◌<◌, min, max, ◌≡◌, ◌⊎◌, Bool, true, false, Option, none, some, List,
  arith, leb, ◌==◌, if◌then◌else◌, any, ℤ, sub_ℕ, pos, negsuc,
}
use scholarscrib_backend.Prelude.Dict

pub data ClassLevel : Type 0 where
  ss1 ss2 ss3 : ClassLevel

pub data Term : Type 0 where
  first_term second_term third_term : Term

pub data PlanMode : Type 0 where
  term_mode exam_mode blended_mode : PlanMode

unfoldable pub class_index : ClassLevel → ℕ
class_index ss1 = 0
class_index ss2 = 1
class_index ss3 = 2

unfoldable pub term_index : Term → ℕ
term_index first_term = 0
term_index second_term = 1
term_index third_term = 2

-- Position in the nine-slot syllabus.
unfoldable pub scope_ordinal : ClassLevel → Term → ℕ
unfolding class_index term_index
scope_ordinal class_level term = class_index class_level * 3 + term_index term

unfoldable pub at_or_below_class : ClassLevel → ClassLevel → Bool
unfolding class_index
at_or_below_class topic_level class_level = leb (class_index topic_level) (class_index class_level)

unfoldable pub resolve_plan_mode : Option ClassLevel → Option DayKey → Bool → PlanMode
resolve_plan_mode (some ss3) (some target_date) true = exam_mode
resolve_plan_mode (some ss3) (some target_date) false = blended_mode
resolve_plan_mode _ _ _ = term_mode

abbrev pub runway_min_days : ℕ
runway_min_days = 14

abbrev pub runway_max_days : ℕ
runway_max_days = 21

-- max(1, n + 1)
total_days : ℤ → ℕ
total_days (pos n) = n + 1
total_days (negsuc n) = 1

-- The number of days of the runway; `min` and `max` of three.
unfoldable pub runway_days : (rounded : ℕ → ℕ) → DayKey → DayKey → ℕ
unfolding total_days days_between
runway_days rounded plan_start target_date =
    let total = total_days (days_between plan_start target_date) in
    min (min runway_max_days (max runway_min_days (rounded total))) total

unfoldable pub compute_runway_start : (rounded : ℕ → ℕ) → DayKey → DayKey → DayKey
unfolding runway_days add_days
compute_runway_start rounded plan_start target_date =
    add_days target_date (sub_ℕ 1 (runway_days rounded plan_start target_date))

runway_days_lem :
    (rounded : ℕ → ℕ) (plan_start target_date : DayKey)
    → plan_start ≤ target_date
    → (1 ≤ runway_days rounded plan_start target_date)
      × (runway_days rounded plan_start target_date ≤ 21)
      × (runway_days rounded plan_start target_date ≤ target_date - plan_start + 1)
      × ((14 ≤ runway_days rounded plan_start target_date)
          ⊎ (runway_days rounded plan_start target_date ≡ target_date - plan_start + 1))
unfolding runway_days
runway_days_lem rounded plan_start target_date k =
    let e : total_days (days_between plan_start target_date) ≡ target_date - plan_start + 1 =
      unfold total_days days_between in ground arith in
    parts (total_days (days_between plan_start target_date))
      (rounded (total_days (days_between plan_start target_date))) e
  where
    parts :
        (t r : ℕ)
        → t ≡ target_date - plan_start + 1
        → (1 ≤ min (min 21 (max 14 r)) t)
          × (min (min 21 (max 14 r)) t ≤ 21)
          × (min (min 21 (max 14 r)) t ≤ target_date - plan_start + 1)
          × ((14 ≤ min (min 21 (max 14 r)) t)
              ⊎ (min (min 21 (max 14 r)) t ≡ target_date - plan_start + 1))
    parts t r e = ground arith

runway_start-eq :
    (rounded : ℕ → ℕ) (plan_start target_date : DayKey)
    → 1 ≤ runway_days rounded plan_start target_date
    → compute_runway_start rounded plan_start target_date
      ≡ target_date - (runway_days rounded plan_start target_date - 1)
unfolding compute_runway_start
runway_start-eq rounded plan_start target_date h =
    start (runway_days rounded plan_start target_date) h
  where
    start : (n : ℕ) → 1 ≤ n → add_days target_date (sub_ℕ 1 n) ≡ target_date - (n - 1)
    start n h = unfold add_days in ground arith

-- The runway ends on the target day and has at most 21 days; it never starts before the plan does,
-- and it has at least 14 days or is the whole plan.
pub compute_runway_start_lem :
    (rounded : ℕ → ℕ) (plan_start target_date : DayKey)
    → plan_start ≤ target_date
    → (plan_start ≤ compute_runway_start rounded plan_start target_date)
      × (compute_runway_start rounded plan_start target_date ≤ target_date)
      × (target_date < compute_runway_start rounded plan_start target_date + 21)
      × ((compute_runway_start rounded plan_start target_date ≡ plan_start)
          ⊎ (compute_runway_start rounded plan_start target_date + 13 ≤ target_date))
compute_runway_start_lem rounded plan_start target_date k =
    let n = runway_days_lem rounded plan_start target_date k in
    let e = runway_start-eq rounded plan_start target_date n.0 in
    (omega (arith, n, e), omega (arith, n, e), omega (arith, n, e), omega (arith, n, e))

pub record PlanSettingsCheck : Type 0 where
  pub class_level : Option ClassLevel
  pub target_date : Option DayKey
  pub force_exam_mode : Bool
  pub study_days : List ℕ
  pub weekday_minutes : ℕ
  pub weekend_minutes : ℕ
  pub today : DayKey
  pub day_minutes : List (ℕ × ℕ)

pub data SettingsProblem : Type 0 where
  exam_date_for_ss3 exam_mode_without_date exam_date_past no_study_time : SettingsProblem

unfoldable pub has_time : PlanSettingsCheck → Bool
has_time check =
    any
      (λ day. leb 30 (
        Dict.get_or ◌==◌ check.day_minutes day
          (if leb 6 day then check.weekend_minutes else check.weekday_minutes)))
      check.study_days

time_problem : PlanSettingsCheck → Option SettingsProblem
unfolding has_time
time_problem check = if has_time check then none else some no_study_time

date_problem : Option ClassLevel → Option DayKey → PlanSettingsCheck → Option SettingsProblem
unfolding time_problem
date_problem level none check =
    if check.force_exam_mode then some exam_mode_without_date else time_problem check
date_problem (some ss3) (some date) check =
    if leb date check.today then some exam_date_past else time_problem check
date_problem level (some date) check = some exam_date_for_ss3

-- The first problem of the settings, by the message that is returned.
unfoldable pub plan_settings_problem : PlanSettingsCheck → Option SettingsProblem
unfolding date_problem
plan_settings_problem check = date_problem check.class_level check.target_date check
