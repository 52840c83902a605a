-- ===== src/Planner/Timetable/Issues/Sound.antt =====
-- app/services/planner/timetable.py: the second loop of `timetable_issues` against the
-- description of a valid timetable.
use scholarscrib_backend.Planner.Slots.{session_minutes}
use scholarscrib_backend.Planner.Timetable.{Weekday, iso-injective, AllocationIn}
use scholarscrib_backend.Planner.Timetable.Issues.{
  PlanFrame, has_day, has_subject, allocation_eq, bad_step_minutes, row_problem,
}
use scholarscrib_backend.Planner.Timetable.Issues.Loops.{RowsFit}
use scholarscrib_backend.Planner.Timetable.Issues.Spec.{
  Apart, SameCell, IsInPlan, day_eq_iff, has_day-In, has_subject-In, false_not, both_All,
}
use scholarscrib_backend.Prelude.{
  ℕ, ◌%◌, String, ◌≡◌, refl, ◌↔◌, Bool, true, false, ◌||◌, not, Option, none, some, List, [], ◌∷◌,
  arith, eq_iff, if◌then◌else◌, &&-true, any, All, All-map,
}

abbrev WholeSessions : Option ℕ → Type 0
WholeSessions minutes = (m : ℕ) → minutes ≡ some m → m % session_minutes ≡ 0

unfoldable pub is_seen : List (Weekday × String) → AllocationIn → Bool
is_seen seen row = any (λ key. allocation_eq key (row.day, row.subject_id)) seen

record RowFits (frame : PlanFrame) (seen : List (Weekday × String)) (row : AllocationIn)
    : Type 0 where
  in_plan : IsInPlan frame row
  unseen : is_seen seen row ≡ false

-- A ladder of four tests, each with its own refusal.
ladder :
    {A : Type 0} (a b c d : Bool) (w x y z : A)
    → ((if not a
          then some w
          else if not b
          then some x
          else if c
          then some y
          else if d
          then some z
          else none)
        ≡ none)
      ↔ ((a ≡ true) × (b ≡ true) × (c ≡ false) × (d ≡ false))
ladder a b c d w x y z = (λ h. ground arith, λ h. rw (h.0, h.1, h.2, h.3) refl)

bad_step_minutes_lem :
    (minutes : Option ℕ) → (bad_step_minutes minutes ≡ false) ↔ WholeSessions minutes
unfolding bad_step_minutes
bad_step_minutes_lem none = (λ h m e. cc, λ h. refl)
bad_step_minutes_lem (some n) = (λ h m e. ground arith, λ h. let z = h n refl in ground arith)

row_problem_ladder :
    (frame : PlanFrame) (seen : List (Weekday × String)) (row : AllocationIn)
    → (row_problem frame seen row ≡ none) ↔ (
        (has_day frame.study_days row.day ≡ true)
        × (has_subject frame.subject_ids row.subject_id ≡ true)
        × (is_seen seen row ≡ false)
        × (bad_step_minutes row.minutes ≡ false))
unfolding row_problem is_seen
row_problem_ladder frame seen row =
    ladder (has_day frame.study_days row.day) (has_subject frame.subject_ids row.subject_id)
      (any (λ key. allocation_eq key (row.day, row.subject_id)) seen) (bad_step_minutes row.minutes)
      _ _ _ _

row_problem-RowFits :
    (frame : PlanFrame) (seen : List (Weekday × String)) (row : AllocationIn)
    → (row_problem frame seen row ≡ none) ↔ RowFits frame seen row
row_problem-RowFits frame seen row = (
  λ h.
      let p = (row_problem_ladder frame seen row).0 h in
      record {
        in_plan = record {
          study_day = (has_day-In frame.study_days row.day).0 p.0;
          subject = (has_subject-In frame.subject_ids row.subject_id).0 p.1;
          whole_sessions = (bad_step_minutes_lem row.minutes).0 p.3;
        };
        unseen = p.2;
      },
  λ f. (row_problem_ladder frame seen row).1 (
    (has_day-In frame.study_days row.day).1 f.in_plan.study_day,
    (has_subject-In frame.subject_ids row.subject_id).1 f.in_plan.subject,
    f.unseen,
    (bad_step_minutes_lem row.minutes).1 f.in_plan.whole_sessions,
  ),
)

cell_test : AllocationIn → AllocationIn → Bool
cell_test a b = allocation_eq (a.day, a.subject_id) (b.day, b.subject_id)

cell_test_iff : (a b : AllocationIn) → (cell_test a b ≡ true) ↔ SameCell a b
unfolding cell_test allocation_eq
cell_test_iff a b = (
  λ h.
      let p = &&-true h in
      (iso-injective a.day b.day p.0, (eq_iff a.subject_id b.subject_id).0 p.1),
  λ s. rw ((day_eq_iff a.day b.day).1 s.0, (eq_iff a.subject_id b.subject_id).1 s.1) refl,
)

is_seen-cons :
    (a b : AllocationIn) (seen : List (Weekday × String))
    → (is_seen ((a.day, a.subject_id) ∷ seen) b ≡ false)
      ↔ ((¬ SameCell a b) × (is_seen seen b ≡ false))
unfolding is_seen cell_test
is_seen-cons a b seen = (
  λ h.
      let p = or_false (cell_test a b) (is_seen seen b) h in
      (λ s. false_not (cell_test a b) ((cell_test_iff a b).1 s) p.0, p.1),
  λ h. rw (not_true (cell_test a b) (λ e. h.0 ((cell_test_iff a b).0 e)), h.1) refl,
)
  where
    or_false : (c d : Bool) → (c || d) ≡ false → (c ≡ false) × (d ≡ false)
    or_false c d h = ground arith

    not_true : (c : Bool) → (c ≡ true → ⊥) → c ≡ false
    not_true true f = absurd (f refl)
    not_true false f = refl

pub record RowsSpec (frame : PlanFrame) (seen : List (Weekday × String)) (rows : List AllocationIn)
    : Type 0 where
  pub in_plan : All (IsInPlan frame) rows
  pub single : Apart SameCell rows
  pub unseen : All (λ row. is_seen seen row ≡ false) rows

pub RowsFit-RowsSpec :
    (frame : PlanFrame) (seen : List (Weekday × String)) (rows : List AllocationIn)
    → RowsFit frame seen rows
    → RowsSpec frame seen rows
RowsFit-RowsSpec frame seen [] h = record { in_plan = tt; single = tt; unseen = tt }
RowsFit-RowsSpec frame seen (row ∷ rows) h =
    let here = (row_problem-RowFits frame seen row).0 h.0 in
    let ih = RowsFit-RowsSpec frame ((row.day, row.subject_id) ∷ seen) rows h.1 in
    record {
      in_plan = (here.in_plan, ih.in_plan);
      single = (
        All-map (λ r. is_seen ((row.day, row.subject_id) ∷ seen) r ≡ false) (λ r. ¬ SameCell row r)
            rows (λ r u. ((is_seen-cons row r seen).0 u).0) ih.unseen,
        ih.single,
      );
      unseen = (
        here.unseen,
        All-map (λ r. is_seen ((row.day, row.subject_id) ∷ seen) r ≡ false)
            (λ r. is_seen seen r ≡ false) rows (λ r u. ((is_seen-cons row r seen).0 u).1) ih.unseen,
      );
    }

pub RowsSpec-RowsFit :
    (frame : PlanFrame) (seen : List (Weekday × String)) (rows : List AllocationIn)
    → RowsSpec frame seen rows
    → RowsFit frame seen rows
RowsSpec-RowsFit frame seen [] h = tt
RowsSpec-RowsFit frame seen (row ∷ rows) h = (
  (row_problem-RowFits frame seen row).1 (record { in_plan = h.in_plan.0; unseen = h.unseen.0 }),
  RowsSpec-RowsFit frame ((row.day, row.subject_id) ∷ seen) rows (record {
    in_plan = h.in_plan.1;
    single = h.single.1;
    unseen =
        both_All (λ r. ¬ SameCell row r) (λ r. is_seen seen r ≡ false)
          (λ r. is_seen ((row.day, row.subject_id) ∷ seen) r ≡ false) rows
          (λ r apart u. (is_seen-cons row r seen).1 (apart, u)) h.single.0 h.unseen.1;
  }),
)
