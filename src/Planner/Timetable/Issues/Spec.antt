-- ===== src/Planner/Timetable/Issues/Spec.antt =====
-- app/services/planner/timetable.py: `timetable_issues` against a description of what a valid
-- timetable is, written without its loops; the first loop against that description.
use scholarscrib_backend.Planner.Slots.{session_minutes}
use scholarscrib_backend.Planner.Timetable.{
  Weekday, iso, day_eq, iso-injective, Mode, AllocationIn, DayMinutesIn, TimetableIn,
  day_minutes_overrides, day_capacity, smart, custom,
}
use scholarscrib_backend.Planner.Timetable.Issues.{PlanFrame, has_day, has_subject}
use scholarscrib_backend.Planner.Timetable.Issues.Totals.{minutes_on}
use scholarscrib_backend.Planner.Timetable.Issues.Loops.{DaysFit}
use scholarscrib_backend.Prelude.{
  ℕ, ◌%◌, ◌≤◌, String, ◌≡◌, refl, ◌≢◌, ◌↔◌, ◌⊎◌, inl, inr, Bool, true, false, ◌||◌, some, List, [],
  ◌∷◌, arith, str_eq, eq_iff, ==_refl, Bool-cases, any, All, All-map,
}

abbrev pub In : {A : Type 0} → A → List A → Type 0
In a [] = ⊥
In a (x ∷ xs) = (x ≡ a) ⊎ In a xs

-- No two elements, at different places, are related.
abbrev pub Apart : {A : Type 0} → (A → A → Type 0) → List A → Type 0
Apart R [] = Unit
Apart R (x ∷ xs) = All (λ y. ¬ R x y) xs × Apart R xs

-- What the mode asks of the allocations.
abbrev pub ModeFits : Mode → List AllocationIn → Type 0
ModeFits smart allocations = allocations ≡ []
ModeFits custom allocations = allocations ≢ []

-- A time set for a study day.
abbrev pub SameDay : DayMinutesIn → DayMinutesIn → Type 0
SameDay a b = a.day ≡ b.day

abbrev pub SameCell : AllocationIn → AllocationIn → Type 0
SameCell a b = (a.day ≡ b.day) × (a.subject_id ≡ b.subject_id)

-- A subject of the plan on a study day, for the default session or for whole sessions.
pub record IsInPlan (frame : PlanFrame) (row : AllocationIn) : Type 0 where
  pub study_day : In row.day frame.study_days
  pub subject : In row.subject_id frame.subject_ids
  pub whole_sessions : (m : ℕ) → row.minutes ≡ some m → m % session_minutes ≡ 0

pub record IsValid (frame : PlanFrame) (timetable : TimetableIn) : Type 0 where
  pub times_on_study_days : All (λ row. In row.day frame.study_days) timetable.day_minutes
  pub one_time_a_day : Apart SameDay timetable.day_minutes
  pub mode_fits : ModeFits timetable.mode timetable.allocations
  pub in_plan : All (IsInPlan frame) timetable.allocations
  pub no_duplicates : Apart SameCell timetable.allocations
  pub within_capacity :
      (day : Weekday)
      → minutes_on day timetable.allocations
        ≤ day_capacity day frame.weekday_minutes frame.weekend_minutes
            (day_minutes_overrides (some timetable))

-- A test by `any` decides membership, where the equality test decides equality.
In-cons-test :
    {A : Type 0} (eq : A → A → Bool) (a x : A) (xs : List A) (b : Bool)
    → ((eq x a ≡ true) ↔ (x ≡ a))
    → ((b ≡ true) ↔ In a xs)
    → ((eq x a || b) ≡ true) ↔ In a (x ∷ xs)
In-cons-test eq a x xs b f rest = (to (eq x a) refl, from)
  where
    to : (c : Bool) → eq x a ≡ c → (c || b) ≡ true → In a (x ∷ xs)
    to true e h = inl (f.0 e)
    to false e h = inr (rest.0 h)

    from : In a (x ∷ xs) → (eq x a || b) ≡ true
    from (inl e) = rw (f.1 e) refl
    from (inr m) = let e = rest.1 m in ground arith

any-In :
    {A : Type 0} (eq : A → A → Bool) (a : A) (xs : List A)
    → ((x : A) → (eq x a ≡ true) ↔ (x ≡ a))
    → (any (λ x. eq x a) xs ≡ true) ↔ In a xs
any-In eq a [] f = (λ h. cc, λ h. absurd h)
any-In eq a (x ∷ xs) f = In-cons-test eq a x xs (any (λ y. eq y a) xs) (f x) (any-In eq a xs f)

pub day_eq_iff : (a b : Weekday) → (day_eq a b ≡ true) ↔ (a ≡ b)
day_eq_iff a b = (iso-injective a b, λ e. rw e (==_refl (iso b)))

pub has_day-In : (days : List Weekday) (day : Weekday) → (has_day days day ≡ true) ↔ In day days
unfolding has_day
has_day-In days day = any-In day_eq day days (λ x. day_eq_iff x day)

pub has_subject-In : (ids : List String) (id : String) → (has_subject ids id ≡ true) ↔ In id ids
unfolding has_subject
has_subject-In ids id = any-In str_eq id ids (λ x. eq_iff x id)

-- The rows of the first loop: in order, and not on a day seen before.
pub record DaysSpec (study seen : List Weekday) (rows : List DayMinutesIn) : Type 0 where
  pub studied : All (λ row. In row.day study) rows
  pub single : Apart SameDay rows
  pub unseen : All (λ row. has_day seen row.day ≡ false) rows

has_day-cons :
    (day : Weekday) (seen : List Weekday) (other : Weekday)
    → (has_day (day ∷ seen) other ≡ false)
      ↔ ((day_eq day other ≡ false) × (has_day seen other ≡ false))
unfolding has_day
has_day-cons day seen other = (λ h. ground arith, λ h. rw (h.0, h.1) refl)

pub false_not : (b : Bool) → b ≡ true → b ≡ false → ⊥
false_not b h k = cc

not_same : (a b : Weekday) → day_eq a b ≡ false → a ≢ b
not_same a b h e = false_not (day_eq a b) ((day_eq_iff a b).1 e) h

apart_test : (a b : Weekday) → a ≢ b → day_eq a b ≡ false
apart_test a b h = elim (Bool-cases (day_eq a b)) [
  | inl e ↦ absurd (h (iso-injective a b e))
  | inr e ↦ e
]

pub DaysFit-DaysSpec :
    (study seen : List Weekday) (rows : List DayMinutesIn)
    → DaysFit study seen rows
    → DaysSpec study seen rows
DaysFit-DaysSpec study seen [] h = record { studied = tt; single = tt; unseen = tt }
DaysFit-DaysSpec study seen (row ∷ rows) h =
    let ih = DaysFit-DaysSpec study (row.day ∷ seen) rows h.2 in
    record {
      studied = ((has_day-In study row.day).0 h.1, ih.studied);
      single = (
        All-map (λ r. has_day (row.day ∷ seen) r.day ≡ false) (λ r. ¬ SameDay row r) rows
            (λ r u. not_same row.day r.day ((has_day-cons row.day seen r.day).0 u).0) ih.unseen,
        ih.single,
      );
      unseen = (
        h.0,
        All-map (λ r. has_day (row.day ∷ seen) r.day ≡ false) (λ r. has_day seen r.day ≡ false) rows
            (λ r u. ((has_day-cons row.day seen r.day).0 u).1) ih.unseen,
      );
    }

pub both_All :
    {A : Type 0} (P Q R : A → Type 0) (xs : List A)
    → ((a : A) → P a → Q a → R a)
    → All P xs
    → All Q xs
    → All R xs
both_All P Q R [] f h k = tt
both_All P Q R (x ∷ xs) f h k = (f x h.0 k.0, both_All P Q R xs f h.1 k.1)

pub DaysSpec-DaysFit :
    (study seen : List Weekday) (rows : List DayMinutesIn)
    → DaysSpec study seen rows
    → DaysFit study seen rows
DaysSpec-DaysFit study seen [] h = tt
DaysSpec-DaysFit study seen (row ∷ rows) h = (
  h.unseen.0,
  (has_day-In study row.day).1 h.studied.0,
  DaysSpec-DaysFit study (row.day ∷ seen) rows (record {
    studied = h.studied.1;
    single = h.single.1;
    unseen =
        both_All (λ r. ¬ SameDay row r) (λ r. has_day seen r.day ≡ false)
          (λ r. has_day (row.day ∷ seen) r.day ≡ false) rows
          (λ r apart u. (has_day-cons row.day seen r.day).1 (apart_test row.day r.day apart, u))
          h.single.0 h.unseen.1;
  }),
)
