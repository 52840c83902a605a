-- ===== src/Gamification/Streaks/Laws.antt =====
-- app/services/gamification/streaks.py: what a streak counts.
use mathlib.Core.Path.{subst}
use mathlib.Core.Option.{some-injective}
use scholarscrib_backend.Planner.Days.{DayKey}
use scholarscrib_backend.Gamification.Streaks.{
  Days, has, streak_from, current_streak, latest, gap_from, gap_of, return_state,
}
use scholarscrib_backend.Prelude.{
  ℕ, zero, suc, ◌+◌, ◌-◌, ◌≤◌, ◌<◌, max, ◌≡◌, sym, inl, inr, Bool, true, false, ◌||◌, some, [], ◌∷◌,
  arith, leb, ◌==◌, leb→le, ==_refl, Bool-cases, keep, any, All, All-if,
}

streak_from_lem :
    (fuel : ℕ) (days : Days) (cursor : DayKey)
    → cursor ≤ fuel
    → has days 0 ≡ false
    → ((k : ℕ) → k < streak_from fuel days cursor → has days (cursor - k) ≡ true)
      × (has days (cursor - streak_from fuel days cursor) ≡ false)
unfolding streak_from
streak_from_lem zero days cursor h z =
    let e : cursor - 0 ≡ 0 = omega arith in (λ k l. elim l [ ], rw e z)
streak_from_lem (suc fuel) days cursor h z = elim (Bool-cases (has days cursor)) [
  | inr e ↦
      let zero_back : cursor - 0 ≡ cursor = omega arith in rw e (λ k l. elim l [ ], rw zero_back e)
  | inl e ↦
      let ih = streak_from_lem fuel days (cursor - 1) (omega arith) z in
      rw e (
        λ k l. back (has days cursor) k e (ih.0 (k - 1)) l,
        let same : cursor - suc (streak_from fuel days (cursor - 1))
                ≡ cursor - 1 - streak_from fuel days (cursor - 1) =
              omega arith in
            rw same ih.1,
      )
]
  where
    back :
        (b : Bool) (k : ℕ)
        → has days cursor ≡ true
        → (k - 1 < streak_from fuel days (cursor - 1) → has days (cursor - 1 - (k - 1)) ≡ true)
        → k < suc (streak_from fuel days (cursor - 1))
        → has days (cursor - k) ≡ true
    back b zero e f l = let zero_back : cursor - 0 ≡ cursor = omega arith in rw zero_back e
    back b (suc k) e f l =
        let same : cursor - suc k ≡ cursor - 1 - (suc k - 1) = omega arith in
        rw same (f (omega arith))

-- The streak counts the study days in a row that end on a day: each of them is a study day and the
-- day before them is not. (Day 0 is no day, so it is never a study day.)
pub current_streak_lem :
    (days : Days) (end_day : DayKey)
    → has days 0 ≡ false
    → ((k : ℕ) → k < current_streak days end_day → has days (end_day - k) ≡ true)
      × (has days (end_day - current_streak days end_day) ≡ false)
unfolding current_streak
current_streak_lem days end_day z = streak_from_lem end_day days end_day (omega arith) z

gap_from_lem :
    (fuel : ℕ) (cursor today : DayKey)
    → cursor ≤ today
    → today - cursor < fuel
    → gap_from fuel cursor today ≡ today - cursor
unfolding gap_from
gap_from_lem zero cursor today h l = absurd (omega arith)
gap_from_lem (suc fuel) cursor today h l = ground (arith, gap_from_lem fuel (cursor + 1) today)

latest-bound :
    (best bound : DayKey) (days : Days)
    → best ≤ bound
    → All (λ day. day ≤ bound) days
    → (latest best days ≤ bound)
      × (best ≤ latest best days)
      × All (λ day. day ≤ latest best days) days
unfolding latest
latest-bound best bound [] h k = (h, omega arith, tt)
latest-bound best bound (day ∷ days) h k =
    let ih = latest-bound (max best day) bound days (omega (arith, k.0)) k.1 in
    (ih.0, omega (arith, ih.1), (omega (arith, ih.1), ih.2))

past_bound :
    (days : Days) (today : DayKey) → All (λ day. day ≤ today) (keep (λ day. leb day today) days)
past_bound [] today = tt
past_bound (day ∷ days) today =
    All-if (λ d. d ≤ today) (leb day today) day (keep (λ d. leb d today) days) (leb→le day today)
      (past_bound days today)

latest_attained : (best : DayKey) (days : Days) → has (best ∷ days) (latest best days) ≡ true
unfolding latest
latest_attained best [] = ground (arith, ==_refl best)
latest_attained best (day ∷ days) =
    let ih = latest_attained (max best day) days in
    one_of (latest (max best day) days) (any (λ d. d == latest (max best day) days) days) ih
  where
    one_of :
        (l : DayKey) (b : Bool)
        → ((max best day == l) || b) ≡ true
        → ((best == l) || ((day == l) || b)) ≡ true
    one_of l b h = ground arith

gap_of-past :
    (past : Days) (today g : DayKey)
    → All (λ day. day ≤ today) past
    → gap_of past today ≡ some g
    → All (λ day. day ≤ today - g) past × (has past (today - g) ≡ true)
unfolding gap_of
gap_of-past [] today g h e = cc
gap_of-past (day ∷ past) today g h e =
    let last = latest day past in
    let bound = latest-bound day today past h.0 h.1 in
    let gap = gap_from_lem (suc (today - last)) last today bound.0 (omega arith) in
    let same : today - g ≡ last =
      omega (arith, bound.0, gap, some-injective (gap_from (suc (today - last)) last today) g e) in
    subst (λ x. All (λ d. d ≤ x) (day ∷ past) × (has (day ∷ past) x ≡ true)) (sym same)
      ((bound.1, bound.2), latest_attained day past)

-- Counting the days since the last study ends, with the distance from today back to the latest
-- study day: that day is a study day up to today, and no study day up to today is after it.
pub return_state_lem :
    (days : Days) (today g : DayKey)
    → (return_state days today).days_since_last_study ≡ some g
    → All (λ day. day ≤ today - g) (keep (λ day. leb day today) days)
      × (has (keep (λ day. leb day today) days) (today - g) ≡ true)
unfolding return_state
return_state_lem days today g h =
    gap_of-past (keep (λ day. leb day today) days) today g (past_bound days today) h
