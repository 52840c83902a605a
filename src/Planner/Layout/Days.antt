-- ===== src/Planner/Layout/Days.antt =====
-- app/services/planner/layout.py: the loop of `layout_window` over the days.
use scholarscrib_backend.Floats.{Floats}
use scholarscrib_backend.Planner.Days.{DayKey, days_between, monday_of}
use scholarscrib_backend.Planner.PlanMode.{PlanMode, term_mode, exam_mode, blended_mode}
use scholarscrib_backend.Planner.Slots.{Slot}
use scholarscrib_backend.Planner.Slots.Reserve.{Day}
use scholarscrib_backend.Planner.Topics.{carry_over}
use scholarscrib_backend.Planner.Layout.{Frame, LayoutState, mock_exam}
use scholarscrib_backend.Planner.Layout.Place.{add_one, add_subject}
use scholarscrib_backend.Prelude.{
  ℕ, ◌-◌, min, String, Bool, true, false, ◌&&◌, not, Option, none, some, List, [], ◌∷◌, ◌++◌, leb,
  if◌then◌else◌, sum_of, ℤ, to_nat,
}
use scholarscrib_backend.Planner.Layout.Work.{
  revise, place_past_questions, or_else_place, place_topic, place_any, place_reserved,
}

abbrev pub drop_first {ℓ} : {A : Type ℓ} → List A → List A
drop_first [] = []
drop_first (x ∷ xs) = xs

abbrev pub mock_minutes_cap : ℕ
mock_minutes_cap = 180

abbrev pub reaches : Option DayKey → DayKey → Bool
reaches none date = false
reaches (some start) date = leb start date

abbrev pub is_term_mode : PlanMode → Bool
is_term_mode term_mode = true
is_term_mode exam_mode = false
is_term_mode blended_mode = false

module _ (F : Floats) where
  open F use {Float, decimal, add, sub, mul, div, le, floor, ceil, of_nat}

  -- Of app/services/planner/mode.py; the days can be negative, and then the exam is near.
  unfoldable pub exam_share : ℤ → Float
  exam_share days_to_exam =
      let days = to_nat days_to_exam in
      if leb 120 days
      then decimal 1 1
      else if leb days 42
      then decimal 5 1
      else add (decimal 1 1)
          (mul (sub (decimal 5 1) (decimal 1 1)) (div (of_nat (120 - days)) (of_nat (120 - 42))))

  module _ (frame : Frame F) where
    unfoldable pub in_runway : DayKey → Bool
    in_runway date = not (is_term_mode frame.mode) && reaches frame.runway_start date

    share_in : PlanMode → Option DayKey → DayKey → Float
    unfolding exam_share days_between
    share_in term_mode target_date date = of_nat 0
    share_in exam_mode target_date date = of_nat 1
    share_in blended_mode none date = of_nat 1
    share_in blended_mode (some target) date = exam_share (days_between date target)

    unfoldable pub share_for : DayKey → Float
    unfolding share_in
    share_for date = share_in frame.mode frame.target_date date

    -- The credit of exam work after one more slot, and whether the slot is for exam work.
    unfoldable pub next_credit : Float → DayKey → Float × Bool
    unfolding share_for
    next_credit credit date =
        let sum = add credit (share_for date) in
        if le (of_nat 1) sum then (sub sum (of_nat 1), true) else (sum, false)

    unfoldable pub mock_for : List String → DayKey → List Slot → LayoutState F → LayoutState F
    unfolding add_subject
    mock_for [] date slots state = state
    mock_for (subject_id ∷ rest) date slots state = record state {
      day_subjects = add_subject state.day_subjects date subject_id;
      items =
          state.items
          ++ record {
            date = date;
            subject_id = subject_id;
            topic_id = none;
            activity_type = mock_exam;
            duration_minutes = min mock_minutes_cap (sum_of (λ s. s.minutes) slots);
            notes = some "Full mock exam — timed conditions";
            carried_from = none;
          }
            ∷ [];
    }

    unfoldable pub mock_day : DayKey → List Slot → LayoutState F → LayoutState F
    unfolding mock_for
    mock_day date slots state = mock_for frame.subject_ids date slots state

    -- A slot of a day of the runway without a mock.
    unfoldable pub runway_slot : Slot → LayoutState F → LayoutState F
    unfolding revise place_past_questions or_else_place
    runway_slot slot state =
        (or_else_place F frame (revise F frame slot none state)
          (λ s. if slot.short then (s, false) else place_past_questions F frame slot none s)).0

    unfoldable pub runway_slots : List Slot → LayoutState F → LayoutState F
    unfolding runway_slot
    runway_slots [] state = state
    runway_slots (slot ∷ slots) state = runway_slots slots (runway_slot slot state)

    unfoldable pub mock_is_due : List DayKey → DayKey → Bool
    mock_is_due [] date = false
    mock_is_due (mock ∷ mocks) date = leb mock date

    unfoldable pub runway_day : DayKey → List Slot → LayoutState F → LayoutState F
    unfolding mock_is_due mock_day runway_slots
    runway_day date slots state =
        if mock_is_due state.pending_mocks date
        then mock_day date slots (record state { pending_mocks = drop_first state.pending_mocks })
        else runway_slots slots state

    unfoldable pub spend_credit :
        Slot → (Slot → Bool → LayoutState F → LayoutState F) → LayoutState F → LayoutState F
    unfolding next_credit
    spend_credit slot fill state =
        let (credit, want_exam) = next_credit state.exam_credit slot.date in
        fill slot want_exam (record state { exam_credit = credit })

    -- A catch-up slot goes to a carried topic, then to a revision.
    unfoldable pub catch_up_work : Slot → LayoutState F → LayoutState F × Bool
    unfolding place_topic revise or_else_place
    catch_up_work slot state =
        if slot.catch_up
        then or_else_place F frame (place_topic F frame slot false (some carry_over) none state)
            (λ s. revise F frame slot none s)
        else (state, false)

    unfoldable pub free_slot : Slot → LayoutState F → LayoutState F
    unfolding catch_up_work spend_credit place_any or_else_place
    free_slot slot state =
        (or_else_place F frame (catch_up_work slot state)
          (λ s. (spend_credit slot (λ k want t. (place_any F frame k want t).0) s, true))).0

    unfoldable pub full_slot : Option String → Slot → LayoutState F → LayoutState F
    unfolding free_slot spend_credit place_reserved
    full_slot none slot state = free_slot slot state
    full_slot (some subject) slot state = spend_credit slot (place_reserved F frame) state

    unfoldable pub study_slot : Slot → LayoutState F → LayoutState F
    unfolding full_slot revise monday_of
    study_slot slot state =
        if slot.short
        then (revise F frame slot none state).0
        else full_slot slot.subject_id slot
            (record state { week_slots = add_one state.week_slots (monday_of slot.date) })

    unfoldable pub study_slots : List Slot → LayoutState F → LayoutState F
    unfolding study_slot
    study_slots [] state = state
    study_slots (slot ∷ slots) state = study_slots slots (study_slot slot state)

    -- The loop over the days; a day without slots is passed over.
    unfoldable pub layout_days : List Day → LayoutState F → LayoutState F
    unfolding in_runway runway_day study_slots
    layout_days [] state = state
    layout_days ((date, []) ∷ days) state = layout_days days state
    layout_days ((date, slot ∷ slots) ∷ days) state = layout_days days (
        if in_runway date
        then runway_day date (slot ∷ slots) state
        else study_slots (slot ∷ slots) state)
