-- ===== src/Planner/Timetable/Warnings/Named.antt =====
-- app/services/planner/timetable.py, `timetable_warnings`: which subjects the warnings name.
use scholarscrib_backend.Planner.Timetable.{
  Weekday, Mode, AllocationIn, TimetableIn, day_minutes_overrides, Issue, smart, custom,
}
use scholarscrib_backend.Planner.Timetable.Issues.{day_total_le}
use scholarscrib_backend.Prelude.{
  ℕ, zero, suc, String, ◌≡◌, ◌≢◌, ◌↔◌, refl, sym, ap, &&-true, ◌∙◌, inl, inr, arith, All, is_in,
  eq_iff, Bool-cases, true, false, ◌&&◌, not, Option, none, some, List, [], ◌∷◌, ◌++◌, map, str_eq,
  keep, sort_by,
}
use scholarscrib_backend.Planner.Timetable.Warnings.{
  is_placed, subject_warning, subject_warnings, reserved_from, booked_warning, is_booked,
  booked_warnings, runway_warnings, mode_warnings, timetable_warnings,
}

-- The subjects that some issues name, in order.
abbrev pub subjects_of : List Issue → List String
subjects_of [] = []
subjects_of (issue ∷ issues) = elim issue.subject_id [
  | none ↦ subjects_of issues
  | some subject_id ↦ subject_id ∷ subjects_of issues
]

subjects_of-append :
    (xs ys : List Issue) → subjects_of (xs ++ ys) ≡ subjects_of xs ++ subjects_of ys
subjects_of-append [] ys = refl
subjects_of-append (x ∷ xs) ys =
    go x.subject_id (subjects_of (xs ++ ys)) (subjects_of xs) (subjects_of ys)
      (subjects_of-append xs ys)
  where
    go :
        (o : Option String) (a b c : List String)
        → a ≡ b ++ c
        → elim o [ none ↦ a | some s ↦ s ∷ a ] ≡ elim o [ none ↦ b | some s ↦ s ∷ b ] ++ c
    go none a b c h = h
    go (some s) a b c h = ap (λ l. s ∷ l) h

subject_warnings-subjects_of :
    (entries : List (String × String))
    → subjects_of (map subject_warning entries) ≡ map (λ n. n.0) entries
unfolding subject_warning
subject_warnings-subjects_of [] = refl
subject_warnings-subjects_of ((id, name) ∷ entries) =
    ap (λ l. id ∷ l) (subject_warnings-subjects_of entries)

booked-subjects_of : (days : List (Weekday × ℕ)) → subjects_of (map booked_warning days) ≡ []
unfolding booked_warning
booked-subjects_of [] = refl
booked-subjects_of ((day, total) ∷ days) = booked-subjects_of days

runway-subjects_of : (runway_days : Option ℕ) → subjects_of (runway_warnings runway_days) ≡ []
unfolding runway_warnings
runway-subjects_of none = refl
runway-subjects_of (some zero) = refl
runway-subjects_of (some (suc n)) = refl

append-nil : (l : List String) → l ++ [] ≡ l
append-nil [] = refl
append-nil (x ∷ l) = ap (λ t. x ∷ t) (append-nil l)

custom_subjects :
    (timetable : TimetableIn) (weekday_minutes weekend_minutes : ℕ) (names : List (String × String))
    (runway_days : Option ℕ)
    → timetable.mode ≡ custom
    → subjects_of
        (timetable_warnings (some timetable) weekday_minutes weekend_minutes names runway_days)
      ≡ map (λ n. n.0) (keep (λ n. not (is_placed timetable.allocations n.0)) names)
unfolding timetable_warnings mode_warnings subject_warnings booked_warnings
custom_subjects timetable weekday_minutes weekend_minutes names runway_days h =
    let overrides = day_minutes_overrides (some timetable) in
    let subjects = subject_warnings timetable.allocations names in
    let booked = booked_warnings weekday_minutes weekend_minutes overrides timetable.allocations in
    rw h (
      subjects_of-append (subjects ++ booked) (runway_warnings runway_days)
      ∙ rw (runway-subjects_of runway_days) (
          append-nil (subjects_of (subjects ++ booked))
          ∙ (subjects_of-append subjects booked
              ∙ rw
                  (booked-subjects_of (
                    keep (is_booked weekday_minutes weekend_minutes overrides)
                      (sort_by day_total_le (reserved_from [] timetable.allocations))))
                  (append-nil (subjects_of subjects)
                    ∙ subject_warnings-subjects_of
                        (keep (λ n. not (is_placed timetable.allocations n.0)) names)))))

smart_subjects :
    (timetable : TimetableIn) (weekday_minutes weekend_minutes : ℕ) (names : List (String × String))
    (runway_days : Option ℕ)
    → timetable.mode ≡ smart
    → subjects_of
        (timetable_warnings (some timetable) weekday_minutes weekend_minutes names runway_days)
      ≡ []
unfolding timetable_warnings mode_warnings
smart_subjects timetable weekday_minutes weekend_minutes names runway_days h =
    rw h (runway-subjects_of runway_days)

-- No allocation is for a subject.
abbrev pub IsLeft : List AllocationIn → String → Type 0
IsLeft rows subject_id = All (λ row. row.subject_id ≢ subject_id) rows

IsLeft-is_placed :
    (rows : List AllocationIn) (subject_id : String)
    → (is_placed rows subject_id ≡ false) ↔ IsLeft rows subject_id
unfolding is_placed
IsLeft-is_placed [] subject_id = (λ h. tt, λ h. refl)
IsLeft-is_placed (row ∷ rows) subject_id =
    let rest = IsLeft-is_placed rows subject_id in
    let same = eq_iff row.subject_id subject_id in
    elim (Bool-cases (str_eq row.subject_id subject_id)) [
      | inl e ↦ (λ h. ground (arith, h, e), λ h. absurd (h.0 (same.0 e)))
      | inr e ↦ (
        (λ h. ((λ s. ground (arith, e, same.1 s)), rest.0 (ground (arith, h, e)))),
        λ h. rw e (rest.1 h.1),
      )
    ]

is_in-keep :
    (rows : List AllocationIn) (subject_id : String) (names : List (String × String))
    → is_in subject_id (map (λ n. n.0) (keep (λ n. not (is_placed rows n.0)) names))
      ≡ (is_in subject_id (map (λ n. n.0) names) && not (is_placed rows subject_id))
is_in-keep rows subject_id [] = refl
is_in-keep rows subject_id ((id, name) ∷ names) =
    let rest = is_in-keep rows subject_id names in
    elim (Bool-cases (str_eq id subject_id)) [
      | inl e ↦
          let same = ap (is_placed rows) ((eq_iff id subject_id).0 e) in
          elim (Bool-cases (is_placed rows subject_id)) [
            | inl placed ↦ rw (same ∙ placed) (ground (arith, rest, e, placed))
            | inr left ↦ rw (same ∙ left) (ground (arith, rest, e, left))
          ]
      | inr e ↦ elim (Bool-cases (is_placed rows id)) [
        | inl placed ↦ rw placed (ground (arith, rest, e))
        | inr left ↦ rw left (ground (arith, rest, e))
      ]
    ]

is_in-IsLeft :
    (rows : List AllocationIn) (subject_id : String) (names : List (String × String))
    → (is_in subject_id (map (λ n. n.0) (keep (λ n. not (is_placed rows n.0)) names)) ≡ true)
      ↔ ((is_in subject_id (map (λ n. n.0) names) ≡ true) × IsLeft rows subject_id)
is_in-IsLeft rows subject_id names =
    let kept = is_in-keep rows subject_id names in
    let left = IsLeft-is_placed rows subject_id in
    (
      λ h. let both = &&-true (sym kept ∙ h) in (both.0, left.0 (ground (arith, both.1))),
      λ h. let free = left.1 h.1 in kept ∙ rw (h.0, free) refl,
    )

-- The warnings of a timetable name a subject exactly when the timetable is a custom one, the plan
-- has the subject, and no allocation of the timetable is for it.
pub timetable_warnings-subjects_of :
    (timetable : TimetableIn) (weekday_minutes weekend_minutes : ℕ) (names : List (String × String))
    (runway_days : Option ℕ) (subject_id : String)
    → (is_in subject_id (
          subjects_of
            (timetable_warnings (some timetable) weekday_minutes weekend_minutes names runway_days))
        ≡ true)
      ↔ ((timetable.mode ≡ custom)
          × ((is_in subject_id (map (λ n. n.0) names) ≡ true)
              × All (λ row. row.subject_id ≢ subject_id) timetable.allocations))
timetable_warnings-subjects_of timetable weekday_minutes weekend_minutes names runway_days
      subject_id =
    go timetable.mode refl
  where
    go :
        (mode : Mode)
        → timetable.mode ≡ mode
        → (is_in subject_id (
              subjects_of (
                timetable_warnings
                  (some timetable)
                  weekday_minutes
                  weekend_minutes
                  names
                  runway_days))
            ≡ true)
          ↔ ((timetable.mode ≡ custom)
              × ((is_in subject_id (map (λ n. n.0) names) ≡ true)
                  × All (λ row. row.subject_id ≢ subject_id) timetable.allocations))
    go smart e =
        rw (smart_subjects timetable weekday_minutes weekend_minutes names runway_days e)
          ((λ h. cc), λ h. cc)
    go custom e =
        let left = is_in-IsLeft timetable.allocations subject_id names in
        rw (custom_subjects timetable weekday_minutes weekend_minutes names runway_days e)
          ((λ h. (e, left.0 h)), λ h. left.1 h.1)
