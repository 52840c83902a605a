-- ===== src/Planner/Layout/Window/Minutes.antt =====
-- app/services/planner/layout.py: no day is planned beyond the minutes of its slots.
use scholarscrib_backend.Floats.{Floats}
use scholarscrib_backend.Planner.Days.{DayKey, monday_of}
use scholarscrib_backend.Planner.Slots.{Slot}
use scholarscrib_backend.Planner.Slots.Reserve.{Day}
use scholarscrib_backend.Planner.Topics.{carry_over}
use scholarscrib_backend.Planner.Layout.{Frame, LayoutState}
use scholarscrib_backend.Planner.Layout.Place.{add_one}
use scholarscrib_backend.Planner.Layout.Window.Filled.{
  day_minutes, day_minutes-append, on_day, Filled, or_else_place-Filled, revise-Filled,
  place_past_questions-Filled, place_topic-Filled, place_any-Filled, place_reserved-Filled,
}
use scholarscrib_backend.Planner.Layout.Work.{
  revise, place_past_questions, or_else_place, place_topic, place_any, place_reserved,
}
use scholarscrib_backend.Planner.Layout.Days.{
  drop_first, in_runway, mock_for, mock_day, runway_slot, runway_slots, mock_is_due, runway_day,
  spend_credit, catch_up_work, free_slot, full_slot, study_slot, study_slots, layout_days,
}
use scholarscrib_backend.Prelude.{
  ℕ, ◌+◌, ◌≤◌, String, ◌≡◌, Bool, true, false, Option, none, some, List, [], ◌∷◌, arith, ◌==◌,
  if◌then◌else◌, sum_of, All,
}

abbrev pub slots_on : DayKey → List Slot → ℕ
slots_on date slots = sum_of (on_day date) slots

abbrev pub days_on : DayKey → List Day → ℕ
days_on date days = sum_of (λ day. slots_on date day.1) days

-- The slots of a day are of its date.
abbrev pub Dated : DayKey → List Slot → Type 0
Dated day slots = All (λ slot. slot.date ≡ day) slots

-- All minutes of dated slots are on their day.
slots_on-Dated :
    (day date : DayKey) (slots : List Slot)
    → Dated day slots
    → slots_on date slots ≡ (if day == date then sum_of (λ s. s.minutes) slots else 0)
slots_on-Dated day date [] h = ground arith
slots_on-Dated day date (slot ∷ slots) h =
    rw h.0 (ground (arith, slots_on-Dated day date slots h.1))

module _ (F : Floats) (frame : Frame F) where
  -- What a step adds to a day.
  abbrev Adds : ℕ → DayKey → LayoutState F → LayoutState F → Type 0
  Adds minutes date s t = day_minutes date t.items ≤ day_minutes date s.items + minutes

  Filled-Adds :
      (slot : Slot) (state : LayoutState F) (result : LayoutState F × Bool) (date : DayKey)
      → Filled F slot state result
      → Adds (on_day date slot) date state result.0
  Filled-Adds slot state (s, true) date h = h.adds date
  Filled-Adds slot state (s, false) date h = omega (arith, h.adds date)

  runway_slot-Adds :
      (date : DayKey) (slot : Slot) (state : LayoutState F)
      → Adds (on_day date slot) date state (runway_slot F frame slot state)
  unfolding runway_slot
  runway_slot-Adds date slot state = Filled-Adds slot state _ date (
      or_else_place-Filled F frame slot state _ _ (revise-Filled F frame slot none state)
        (λ s. go slot.short s))
    where
      go :
          (b : Bool) (s : LayoutState F)
          → Filled F slot s (if b then (s, false) else place_past_questions F frame slot none s)
      go true s = record { adds = λ d. omega arith }
      go false s = place_past_questions-Filled F frame slot none s

  runway_slots-Adds :
      (date : DayKey) (slots : List Slot) (state : LayoutState F)
      → Adds (slots_on date slots) date state (runway_slots F frame slots state)
  unfolding runway_slots
  runway_slots-Adds date [] state = omega arith
  runway_slots-Adds date (slot ∷ slots) state = omega (
    arith,
    runway_slot-Adds date slot state,
    runway_slots-Adds date slots (runway_slot F frame slot state),
  )

  mock_day-Adds :
      (date day : DayKey) (slots : List Slot) (state : LayoutState F)
      → Dated day slots
      → Adds (slots_on date slots) date state (mock_day F frame day slots state)
  unfolding mock_day
  mock_day-Adds date day slots state h = go frame.subject_ids
    where
      go :
          (ids : List String)
          → Adds (slots_on date slots) date state (mock_for F frame ids day slots state)
      go [] = unfold mock_for in omega arith
      go (id ∷ ids) =
          unfold mock_for in
          rw (day_minutes-append date state.items _)
            (ground (arith, slots_on-Dated day date slots h))

  spend_credit-Filled :
      (slot : Slot) (fill : Slot → Bool → LayoutState F → LayoutState F) (state : LayoutState F)
      → ((b : Bool) (s : LayoutState F) → Filled F slot s (fill slot b s, true))
      → Filled F slot state (spend_credit F frame slot fill state, true)
  unfolding spend_credit
  spend_credit-Filled slot fill state h = record { adds = (h _ _).adds }

  catch_up_work-Filled :
      (slot : Slot) (state : LayoutState F) → Filled F slot state (catch_up_work F frame slot state)
  unfolding catch_up_work
  catch_up_work-Filled slot state = go slot.catch_up
    where
      go :
          (b : Bool)
          → Filled F slot state (
              if b
              then or_else_place F frame
                  (place_topic F frame slot false (some carry_over) none state)
                  (λ s. revise F frame slot none s)
              else (state, false))
      go true =
          or_else_place-Filled F frame slot state _ _
            (place_topic-Filled F frame slot false (some carry_over) none state)
            (λ s. revise-Filled F frame slot none s)
      go false = record { adds = λ d. omega arith }

  any_way-Filled :
      (slot : Slot) (state : LayoutState F) (result : LayoutState F × Bool)
      → Filled F slot state result
      → Filled F slot state (result.0, true)
  any_way-Filled slot state (s, true) h = h
  any_way-Filled slot state (s, false) h = record { adds = λ d. omega (arith, h.adds d) }

  free_slot-Adds :
      (date : DayKey) (slot : Slot) (state : LayoutState F)
      → Adds (on_day date slot) date state (free_slot F frame slot state)
  unfolding free_slot
  free_slot-Adds date slot state = Filled-Adds slot state _ date (
      or_else_place-Filled F frame slot state _ _ (catch_up_work-Filled slot state) (λ s.
        spend_credit-Filled slot (λ k want t. (place_any F frame k want t).0) s
          (λ b t. any_way-Filled slot t _ (place_any-Filled F frame slot b t))))

  full_slot-Adds :
      (date : DayKey) (subject : Option String) (slot : Slot) (state : LayoutState F)
      → Adds (on_day date slot) date state (full_slot F frame subject slot state)
  unfolding full_slot
  full_slot-Adds date none slot state = free_slot-Adds date slot state
  full_slot-Adds date (some subject) slot state =
      (spend_credit-Filled slot (place_reserved F frame) state
          (λ b s. place_reserved-Filled F frame slot b s)).adds
        date

  study_slot-Adds :
      (date : DayKey) (slot : Slot) (state : LayoutState F)
      → Adds (on_day date slot) date state (study_slot F frame slot state)
  unfolding study_slot
  study_slot-Adds date slot state = go slot.short
    where
      counted : LayoutState F
      counted = record state { week_slots = add_one state.week_slots (monday_of slot.date) }

      go :
          (b : Bool)
          → Adds (on_day date slot) date state (
              if b
              then (revise F frame slot none state).0
              else full_slot F frame slot.subject_id slot counted)
      go true = Filled-Adds slot state _ date (revise-Filled F frame slot none state)
      go false = full_slot-Adds date slot.subject_id slot counted

  study_slots-Adds :
      (date : DayKey) (slots : List Slot) (state : LayoutState F)
      → Adds (slots_on date slots) date state (study_slots F frame slots state)
  unfolding study_slots
  study_slots-Adds date [] state = omega arith
  study_slots-Adds date (slot ∷ slots) state = omega (
    arith,
    study_slot-Adds date slot state,
    study_slots-Adds date slots (study_slot F frame slot state),
  )

  runway_day-Adds :
      (date day : DayKey) (slots : List Slot) (state : LayoutState F)
      → Dated day slots
      → Adds (slots_on date slots) date state (runway_day F frame day slots state)
  unfolding runway_day
  runway_day-Adds date day slots state h = go (mock_is_due F frame state.pending_mocks day)
    where
      go :
          (b : Bool)
          → Adds (slots_on date slots) date state (
              if b
              then mock_day F frame day slots
                  (record state { pending_mocks = drop_first state.pending_mocks })
              else runway_slots F frame slots state)
      go true = mock_day-Adds date day slots _ h
      go false = runway_slots-Adds date slots state

  -- On every day the loop plans at most the minutes of the day's slots.
  pub layout_days-Adds :
      (date : DayKey) (days : List Day) (state : LayoutState F)
      → All (λ day. Dated day.0 day.1) days
      → Adds (days_on date days) date state (layout_days F frame days state)
  unfolding layout_days
  layout_days-Adds date [] state h = omega arith
  layout_days-Adds date ((day, []) ∷ days) state h =
      omega (arith, layout_days-Adds date days state h.1)
  layout_days-Adds date ((day, slot ∷ slots) ∷ days) state h =
      omega (arith, go (in_runway F frame day), layout_days-Adds date days _ h.1)
    where
      go :
          (b : Bool)
          → Adds (slots_on date (slot ∷ slots)) date state (
              if b
              then runway_day F frame day (slot ∷ slots) state
              else study_slots F frame (slot ∷ slots) state)
      go true = runway_day-Adds date day (slot ∷ slots) state h.0
      go false = study_slots-Adds date (slot ∷ slots) state
