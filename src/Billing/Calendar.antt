-- ===== src/Billing/Calendar.antt =====
-- app/services/billing/rules.py: the end of a term. A moment is its civil fields in UTC.
use scholarscrib_backend.Billing.Tiers.{Period, monthly, yearly}
use scholarscrib_backend.Prelude.{
  ℕ, ◌+◌, ◌-◌, ◌*◌, ◌/◌, ◌%◌, ◌≤◌, min, ◌≡◌, refl, ◌⊎◌, inl, inr, Bool, true, false, ◌&&◌, ◌||◌,
  not, arith, leb, ◌==◌, if◌then◌else◌, ==_iff, Bool-cases,
}

pub record Moment : Type 0 where
  pub year : ℕ
  pub month : ℕ
  pub day : ℕ
  -- The time of day, which the functions keep.
  pub clock : ℕ

unfoldable pub is_leap : ℕ → Bool
is_leap year = (year % 4 == 0) && (not (year % 100 == 0) || (year % 400 == 0))

-- calendar.monthrange(year, month)[1]
unfoldable pub month_days : ℕ → ℕ → ℕ
unfolding is_leap
month_days year month =
    if month == 2
    then (if is_leap year then 29 else 28)
    else if (month == 4) || ((month == 6) || ((month == 9) || (month == 11)))
    then 30
    else 31

unfoldable pub add_months_utc : Moment → ℕ → Moment
unfolding month_days
add_months_utc current months =
    let index = current.month - 1 + months in
    let year = current.year + index / 12 in
    let month = index % 12 + 1 in
    record {
      year = year;
      month = month;
      day = min current.day (month_days year month);
      clock = current.clock;
    }

unfoldable pub term_end : Moment → Period → Moment
unfolding add_months_utc
term_end start yearly = add_months_utc start 12
term_end start monthly = add_months_utc start 1

pub record IsDate (m : Moment) : Type 0 where
  pub month_low : 1 ≤ m.month
  pub month_high : m.month ≤ 12
  pub day_low : 1 ≤ m.day
  pub day_high : m.day ≤ month_days m.year m.month

month_days_bounds : (year month : ℕ) → (28 ≤ month_days year month) × (month_days year month ≤ 31)
unfolding month_days
month_days_bounds year month = ground arith

-- Adding months to a date gives a date, exactly that many months later; its day is the same or, in
-- a shorter month, the last one; and the time of day is kept.
pub add_months_utc-IsDate :
    (m : Moment) (months : ℕ)
    → IsDate m
    → IsDate (add_months_utc m months)
      × ((add_months_utc m months).year * 12 + (add_months_utc m months).month
          ≡ m.year * 12 + m.month + months)
      × ((add_months_utc m months).day
          ≡ min m.day (month_days (add_months_utc m months).year (add_months_utc m months).month))
      × ((add_months_utc m months).clock ≡ m.clock)
unfolding add_months_utc
add_months_utc-IsDate m months v =
    let index = m.month - 1 + months in
    let bounds = month_days_bounds (m.year + index / 12) (index % 12 + 1) in
    (
      record {
        month_low = omega arith;
        month_high = omega arith;
        day_low = omega (arith, v.day_low, bounds.0);
        day_high = omega arith;
      },
      omega (arith, v.month_low),
      refl,
      refl,
    )

leap_next : (year : ℕ) → is_leap year ≡ true → is_leap (year + 1) ≡ false
unfolding is_leap
leap_next year h = ground arith

february :
    (day : ℕ) (leap next : Bool)
    → (leap ≡ true → next ≡ false)
    → day ≤ (if leap then 29 else 28)
    → (min day (if next then 29 else 28) ≡ day)
      ⊎ ((day ≡ 29) × (min day (if next then 29 else 28) ≡ 28))
february day leap next f h = elim (Bool-cases (leb day 28)) [
  | inl e ↦ inl (ground arith)
  | inr e ↦ inr (ground (arith, f), ground arith)
]

same_day :
    (year month day : ℕ)
    → day ≤ month_days year month
    → (min day (month_days (year + 1) month) ≡ day)
      ⊎ ((month ≡ 2) × (day ≡ 29) × (min day (month_days (year + 1) month) ≡ 28))
unfolding month_days
same_day year month day h = elim (Bool-cases (month == 2)) [
  | inr e ↦ inl (ground arith)
  | inl e ↦ elim (february day (is_leap year) (is_leap (year + 1)) (leap_next year) (rw e at h)) [
    | inl s ↦ inl (rw e s)
    | inr (d, s) ↦ inr ((==_iff month 2).0 e, d, rw e s)
  ]
]

-- A yearly term ends on the same day of the next year, but for a leap day, whose term ends on
-- 28 February.
pub term_end_yearly :
    (m : Moment)
    → IsDate m
    → ((term_end m yearly).year ≡ m.year + 1)
      × ((term_end m yearly).month ≡ m.month)
      × (((term_end m yearly).day ≡ m.day)
          ⊎ ((m.month ≡ 2) × (m.day ≡ 29) × ((term_end m yearly).day ≡ 28)))
unfolding term_end
term_end_yearly m v =
    let i : (m.month - 1 + 12) / 12 ≡ 1 = omega (arith, v.month_low, v.month_high) in
    let k : (m.month - 1 + 12) % 12 + 1 ≡ m.month = omega (arith, v.month_low, v.month_high) in
    (omega (arith, i), k, rw (i, k) (same_day m.year m.month m.day v.day_high))
