-- ===== src/Planner/TermContext.antt =====
-- app/services/planner/term_context.py: where a day stands in the school year. A session such as
-- "2026/2027" is a text of ASCII codes.
pub mod Found
pub mod Within
pub mod Ranges
use scholarscrib_backend.Planner.Days.{DayKey, add_days, monday_of}
use scholarscrib_backend.Planner.PlanMode.{Term, first_term, second_term, third_term}
use scholarscrib_backend.Prelude.{
  ℕ, zero, suc, ◌+◌, ◌-◌, ◌/◌, ◌%◌, Bool, true, false, ◌&&◌, Option, none, some, List, [], ◌∷◌,
  ◌++◌, ltb, leb, if◌then◌else◌, first, any, sort_by, pos,
}

abbrev pub coverage_days : ℕ
coverage_days = 60

pub record TermRange : Type 0 where
  pub session : List ℕ
  pub term : Term
  pub starts_on : DayKey
  pub ends_on : DayKey

-- What the code uses of Python's calendar: the year that a day key starts with, and the day key
-- of a year, a month and a day.
pub record Calendar : Type 0 where
  pub year_of : DayKey → ℕ
  pub date_of : ℕ → ℕ → ℕ → DayKey

-- The digits of a number before other codes, on fuel above the number.
unfoldable pub year_codes : ℕ → ℕ → List ℕ → List ℕ
year_codes zero n codes = codes
year_codes (suc fuel) n codes =
    let rest = year_codes fuel (n / 10) ((b'0' + n % 10) ∷ codes) in
    if ltb n 10 then (b'0' + n) ∷ codes else rest

-- str(year), as codes
unfoldable pub year_text : ℕ → List ℕ
unfolding year_codes
year_text year = year_codes (year + 1) year []

abbrev pub session_of : ℕ → List ℕ
session_of year = year_text year ++ b'/' ∷ year_text (year + 1)

unfoldable pub year_terms : Calendar → ℕ → List TermRange
unfolding year_text
year_terms calendar year =
    record {
      session = session_of year;
      term = first_term;
      starts_on = calendar.date_of year 9 8;
      ends_on = calendar.date_of year 12 15;
    }
    ∷ record {
      session = session_of year;
      term = second_term;
      starts_on = calendar.date_of (year + 1) 1 6;
      ends_on = calendar.date_of (year + 1) 4 10;
    }
    ∷ record {
      session = session_of year;
      term = third_term;
      starts_on = calendar.date_of (year + 1) 4 27;
      ends_on = calendar.date_of (year + 1) 7 24;
    }
    ∷ []

unfoldable pub fallback_terms : Calendar → DayKey → List TermRange
unfolding year_terms
fallback_terms calendar today =
    let year = calendar.year_of today in year_terms calendar (year - 1) ++ year_terms calendar year

-- `days_between(start, end) <= days`, for a number of days that is not negative
abbrev pub at_most_after : DayKey → DayKey → ℕ → Bool
at_most_after start end days = leb end (start + days)

unfoldable pub near : TermRange → DayKey → ℕ → Bool
near term today days =
    at_most_after today term.starts_on days && at_most_after term.ends_on today days

pub data Source : Type 0 where
  configured fallback : Source

pub record InTerm : Type 0 where
  pub source : Source
  pub current : TermRange
  pub week_of_term : ℕ
  pub total_weeks : ℕ
  pub weeks_left : ℕ

pub record Holiday : Type 0 where
  pub source : Source
  pub previous : Option TermRange
  pub next : Option TermRange

pub data TermContext : Type 0 where
  in_term : InTerm → TermContext
  holiday : Holiday → TermContext

unfoldable pub starts_le : TermRange → TermRange → Bool
starts_le a b = leb a.starts_on b.starts_on

abbrev pub holds : DayKey → TermRange → Bool
holds today term = leb term.starts_on today && leb today term.ends_on

abbrev pub or_if {ℓ} : {A : Type ℓ} → Option A → Bool → A → Option A
or_if (some y) b x = some y
or_if none true x = some x
or_if none false x = none

-- The last element that passes a test.
abbrev pub last {ℓ} : {A : Type ℓ} → (A → Bool) → List A → Option A
last p [] = none
last p (x ∷ xs) = or_if (last p xs) (p x) x

-- The weeks are counted from the Monday of the first week, which is before the term's first day.
unfoldable pub in_term_of : Source → DayKey → TermRange → InTerm
unfolding monday_of
in_term_of source today current =
    let first_monday = monday_of current.starts_on in
    let total_weeks = (current.ends_on - first_monday) / 7 + 1 in
    let week_of_term = (today - first_monday) / 7 + 1 in
    record {
      source = source;
      current = current;
      week_of_term = week_of_term;
      total_weeks = total_weeks;
      weeks_left = total_weeks - week_of_term;
    }

unfoldable pub context_of : Source → DayKey → List TermRange → Option TermRange → TermContext
unfolding in_term_of
context_of source today terms (some current) = in_term (in_term_of source today current)
context_of source today terms none = holiday (record {
  source = source;
  previous = last (λ term. ltb term.ends_on today) terms;
  next = first (λ term. ltb today term.starts_on) terms;
})

unfoldable pub resolve_from : Source → DayKey → List TermRange → TermContext
unfolding context_of starts_le
resolve_from source today ranges =
    let terms = sort_by starts_le ranges in
    context_of source today terms (first (holds today) terms)

unfoldable pub resolve_term_context : Calendar → DayKey → List TermRange → TermContext
unfolding resolve_from near fallback_terms
resolve_term_context calendar today ranges =
    if any (λ term. near term today coverage_days) ranges
    then resolve_from configured today ranges
    else resolve_from fallback today (fallback_terms calendar today)

unfoldable pub next_term : Option TermRange → Option TermRange → Term
next_term none none = first_term
next_term none (some previous) = previous.term
next_term (some upcoming) previous = upcoming.term

unfoldable pub default_term : TermContext → Term
unfolding next_term
default_term (in_term ctx) = ctx.current.term
default_term (holiday ctx) = next_term ctx.next ctx.previous

unfoldable pub has_term_coverage : List TermRange → DayKey → ℕ → Bool
unfolding add_days
has_term_coverage ranges today ahead_days =
    let until = add_days today (pos ahead_days) in
    any (λ term. leb term.starts_on until && leb today term.ends_on) ranges
