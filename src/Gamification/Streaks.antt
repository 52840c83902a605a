-- ===== src/Gamification/Streaks.antt =====
-- app/services/gamification/streaks.py and `current_streak` of app/services/auth/rules.py. A set of
-- days is a list in which the order and repetition of days do not matter.
pub mod Laws
use scholarscrib_backend.Planner.Days.{DayKey, add_days}
use scholarscrib_backend.Prelude.{
  ℕ, zero, suc, ◌+◌, ◌-◌, ◌*◌, max, Bool, false, ◌&&◌, Option, none, some, List, [], ◌∷◌, ◌++◌, map,
  leb, ◌==◌, if◌then◌else◌, keep, any, sort_by, pos, negsuc,
}

abbrev pub card_reviews_for_study_day : ℕ
card_reviews_for_study_day = 5

abbrev pub Days : Type 0
Days = List DayKey

abbrev pub has : Days → DayKey → Bool
has days day = any (λ d. d == day) days

unfoldable pub study_days : Days → List (DayKey × ℕ) → Days
study_days attempt_days card_counts =
    attempt_days ++ map (λ c. c.0) (keep (λ c. leb card_reviews_for_study_day c.1) card_counts)

-- The loop of `current_streak`; the fuel is a bound on the days left before the calendar starts.
unfoldable pub streak_from : ℕ → Days → DayKey → ℕ
unfolding add_days
streak_from zero days cursor = 0
streak_from (suc fuel) days cursor =
    let rest = streak_from fuel days (add_days cursor (negsuc 0)) in
    if has days cursor then suc rest else 0

unfoldable pub current_streak : Days → DayKey → ℕ
unfolding streak_from
current_streak days end_day = streak_from end_day days end_day

unfoldable pub display_streak : Days → DayKey → ℕ
unfolding current_streak
display_streak days today =
    if has days today
    then current_streak days today
    else current_streak days (add_days today (negsuc 0))

-- Whether `add_days(previous, 1) == day`, for the previous day of the loop.
follows : Option DayKey → DayKey → Bool
unfolding add_days
follows none day = false
follows (some previous) day = add_days previous (pos 1) == day

-- The loop of `longest_streak` over the sorted days.
unfoldable pub longest_from : Days → ℕ → ℕ → Option DayKey → ℕ
unfolding follows
longest_from [] best run previous = best
longest_from (day ∷ days) best run previous =
    let next = if follows previous day then run + 1 else 1 in
    longest_from days (max best next) next (some day)

-- The days of the calendar, up to today; the source sorts them.
unfoldable pub calendar_days : Days → DayKey → ℕ → Days
calendar_days days today weeks =
    sort_by leb (keep (λ day. leb (today - (weeks * 7 - 1)) day && leb day today) days)

-- max(past)
unfoldable pub latest : DayKey → Days → DayKey
latest best [] = best
latest best (day ∷ days) = latest (max best day) days

-- The loop of `return_state`: the days from `cursor` to today, on fuel.
unfoldable pub gap_from : ℕ → DayKey → DayKey → ℕ
unfolding add_days
gap_from zero cursor today = 0
gap_from (suc fuel) cursor today =
    let rest = gap_from fuel (add_days cursor (pos 1)) today in
    if cursor == today then 0 else suc rest

pub record ReturnState : Type 0 where
  pub studied_today : Bool
  pub days_since_last_study : Option ℕ

unfoldable pub gap_of : Days → DayKey → Option ℕ
unfolding latest gap_from
gap_of [] today = none
gap_of (day ∷ past) today =
    let last = latest day past in some (gap_from (suc (today - last)) last today)

studied : Days → DayKey → Days → Bool
studied days today [] = false
studied days today (day ∷ past) = has days today

unfoldable pub return_state : Days → DayKey → ReturnState
unfolding gap_of studied
return_state days today = record {
  studied_today = studied days today (keep (λ day. leb day today) days);
  days_since_last_study = gap_of (keep (λ day. leb day today) days) today;
}
