-- ===== src/Planner/Layout/Window/Filled.antt =====
-- app/services/planner/layout.py: what each attempt to fill a slot adds to the minutes of a day.
use scholarscrib_backend.Floats.{Floats}
use scholarscrib_backend.Planner.Days.{DayKey, monday_of}
use scholarscrib_backend.Planner.Slots.{Slot}
use scholarscrib_backend.Planner.Topics.{Reason}
use scholarscrib_backend.Planner.Layout.{
  WorkUnit, WindowItemDraft, PoolEntry, some_eq, Queue, Frame, LayoutState,
}
use scholarscrib_backend.Planner.Layout.Queues.{pick_topic}
use scholarscrib_backend.Planner.Layout.Place.{
  Draft, add_one, place, use_unit, place_units, place_unit,
}
use scholarscrib_backend.Planner.Layout.Work.{
  next_revision, take_entry, place_found, revise, place_turn, next_turn, place_past_questions,
  place_picked, or_else_place, place_topic, place_exam_work, is_term, revision_due_now,
  place_school_work, place_work, serve, serve_first, place_any, is_pinned, or_empty, report_unmet,
  place_unserved, order_for, place_reserved,
}
use scholarscrib_backend.Prelude.{
  ℕ, ◌+◌, ◌%◌, ◌≤◌, String, ◌≡◌, refl, inl, inr, Bool, true, false, not, Option, none, some, List,
  [], ◌∷◌, ◌++◌, arith, str_eq, ◌==◌, if◌then◌else◌, Bool-cases, keep, sum_of,
}

-- The minutes that are planned on a day.
abbrev pub day_minutes : DayKey → List WindowItemDraft → ℕ
day_minutes date items = sum_of (λ i. i.duration_minutes) (keep (λ i. i.date == date) items)

pub day_minutes-append :
    (date : DayKey) (items : List WindowItemDraft) (item : WindowItemDraft)
    → day_minutes date (items ++ item ∷ [])
      ≡ day_minutes date items + (if item.date == date then item.duration_minutes else 0)
day_minutes-append date [] item = ground arith
day_minutes-append date (i ∷ items) item = ground (arith, day_minutes-append date items item)

-- The minutes of a slot, on its day.
abbrev pub on_day : DayKey → Slot → ℕ
on_day date slot = if slot.date == date then slot.minutes else 0

abbrev pub given : Bool → DayKey → Slot → ℕ
given true date slot = on_day date slot
given false date slot = 0

module _ (F : Floats) where
  -- An attempt that reports success adds the slot at most once, and any other adds nothing.
  pub record Filled (slot : Slot) (state : LayoutState F) (result : LayoutState F × Bool)
      : Type 0 where
    pub adds :
        (date : DayKey)
        → day_minutes date result.0.items ≤ day_minutes date state.items + given result.1 date slot

  place-Filled :
      (slot : Slot) (draft : Draft) (state base : LayoutState F)
      → state.items ≡ base.items
      → Filled slot base (place F slot draft state, true)
  unfolding place
  place-Filled slot draft state base h = record {
    adds = λ date. rw h (omega (arith, day_minutes-append date base.items _));
  }

  place_unit-Filled :
      (slot : Slot) (queue : Queue F) (state : LayoutState F)
      → Filled slot state (place_unit F slot queue state, true)
  unfolding place_unit
  place_unit-Filled slot queue state = go queue.units
    where
      go : (units : List WorkUnit) → Filled slot state (place_units F slot queue units state, true)
      go [] = record { adds = λ date. omega arith }
      go (unit ∷ units) =
          place-Filled slot _ (use_unit F slot queue unit units state) state
            (unfold use_unit in refl)

  module _ (frame : Frame F) where
    pub or_else_place-Filled :
        (slot : Slot) (state : LayoutState F) (result : LayoutState F × Bool)
        (next : LayoutState F → LayoutState F × Bool)
        → Filled slot state result
        → ((s : LayoutState F) → Filled slot s (next s))
        → Filled slot state (or_else_place F frame result next)
    or_else_place-Filled slot state (s, true) next h k = unfold or_else_place in h
    or_else_place-Filled slot state (s, false) next h k =
        unfold or_else_place in
        record { adds = λ date. omega (arith, h.adds date, (k s).adds date) }

    pub revise-Filled :
        (slot : Slot) (subject : Option String) (state : LayoutState F)
        → Filled slot state (revise F frame slot subject state)
    unfolding revise
    revise-Filled slot subject state = go (next_revision F frame state slot.date subject)
      where
        go : (found : Option PoolEntry) → Filled slot state (place_found F frame slot found state)
        go none = record { adds = λ date. omega arith }
        go (some entry) =
            place-Filled slot _
              (record (take_entry F frame slot.date entry state) {
                week_revisions =
                    add_one (take_entry F frame slot.date entry state).week_revisions
                      (monday_of slot.date);
              })
              state (unfold take_entry in refl)

    pub place_past_questions-Filled :
        (slot : Slot) (only : Option String) (state : LayoutState F)
        → Filled slot state (place_past_questions F frame slot only state)
    unfolding place_past_questions
    place_past_questions-Filled slot only state = go (next_turn F frame state slot.date only)
      where
        go : (found : Option (String × ℕ)) → Filled slot state (place_turn F frame slot found state)
        go none = record { adds = λ date. omega arith }
        go (some (subject_id, turn)) =
            place-Filled slot _ (record state { subject_turn = turn }) state refl

    pub place_topic-Filled :
        (slot : Slot) (exam : Bool) (only : Option Reason) (subject : Option String)
        (state : LayoutState F)
        → Filled slot state (place_topic F frame slot exam only subject state)
    unfolding place_topic
    place_topic-Filled slot exam only subject state =
        go (pick_topic F frame state slot exam only subject)
      where
        go : (found : Option (Queue F)) → Filled slot state (place_picked F frame slot found state)
        go none = record { adds = λ date. omega arith }
        go (some queue) = place_unit-Filled slot queue state

    place_exam_work-Filled :
        (slot : Slot) (subject : Option String) (state : LayoutState F)
        → Filled slot state (place_exam_work F frame slot subject state)
    unfolding place_exam_work
    place_exam_work-Filled slot subject state =
        let next = record state { exam_slots = state.exam_slots + 1 } in
        or_else_place-Filled slot state _ _ (go (next.exam_slots % 3 == 0)) (λ s.
          or_else_place-Filled slot s _ _ (place_topic-Filled slot true none subject s)
            (λ t. place_past_questions-Filled slot subject t))
      where
        go :
            (b : Bool)
            → Filled slot state (
                if b
                then place_past_questions F frame slot subject
                    (record state { exam_slots = state.exam_slots + 1 })
                else (record state { exam_slots = state.exam_slots + 1 }, false))
        go true = record {
          adds =
              (place_past_questions-Filled slot subject
                (record state { exam_slots = state.exam_slots + 1 })).adds;
        }
        go false = record { adds = λ date. omega arith }

    place_school_work-Filled :
        (slot : Slot) (subject : Option String) (state : LayoutState F)
        → Filled slot state (place_school_work F frame slot subject state)
    unfolding place_school_work
    place_school_work-Filled slot subject state =
        or_else_place-Filled slot state _ _ (go (revision_due_now F frame state slot.date))
          (λ s. place_topic-Filled slot false none subject s)
      where
        go :
            (b : Bool)
            → Filled slot state (if b then revise F frame slot subject state else (state, false))
        go true = revise-Filled slot subject state
        go false = record { adds = λ date. omega arith }

    place_work-Filled :
        (slot : Slot) (exam : Bool) (subject : Option String) (state : LayoutState F)
        → Filled slot state (place_work F frame slot exam subject state)
    unfolding place_work
    place_work-Filled slot false subject state = place_school_work-Filled slot subject state
    place_work-Filled slot true subject state = go (is_term F frame frame.mode)
      where
        go :
            (b : Bool)
            → Filled slot state
                (if b then (state, false) else place_exam_work F frame slot subject state)
        go true = record { adds = λ date. omega arith }
        go false = place_exam_work-Filled slot subject state

    serve-Filled :
        (slot : Slot) (subject : String) (want_exam : Bool) (state : LayoutState F)
        → Filled slot state (serve F frame slot subject want_exam state)
    unfolding serve
    serve-Filled slot subject want_exam state =
        or_else_place-Filled slot state _ _ (place_work-Filled slot want_exam (some subject) state)
          (λ s.
            or_else_place-Filled slot s _ _
              (place_work-Filled slot (not want_exam) (some subject) s)
              (λ t. revise-Filled slot (some subject) t))

    pub place_any-Filled :
        (slot : Slot) (want_exam : Bool) (state : LayoutState F)
        → Filled slot state (place_any F frame slot want_exam state)
    unfolding place_any
    place_any-Filled slot want_exam state =
        or_else_place-Filled slot state _ _ (place_work-Filled slot want_exam none state) (λ s.
          or_else_place-Filled slot s _ _ (place_work-Filled slot (not want_exam) none s)
            (λ t. revise-Filled slot none t))

    abbrev is_served : Option String → Bool
    is_served none = false
    is_served (some subject) = true

    serve_first-Filled :
        (slot : Slot) (want_exam : Bool) (subjects : List String) (state : LayoutState F)
        → Filled slot state (
          (serve_first F frame slot want_exam subjects state).0,
          is_served (serve_first F frame slot want_exam subjects state).1,
        )
    unfolding serve_first
    serve_first-Filled slot want_exam [] state = record { adds = λ date. omega arith }
    serve_first-Filled slot want_exam (subject ∷ subjects) state =
        go (serve F frame slot subject want_exam state) (serve-Filled slot subject want_exam state)
          (λ s. serve_first-Filled slot want_exam subjects s)
      where
        go :
            (r : LayoutState F × Bool)
            → Filled slot state r
            → ((s : LayoutState F)
                → Filled slot s (
                  (serve_first F frame slot want_exam subjects s).0,
                  is_served (serve_first F frame slot want_exam subjects s).1,
                ))
            → Filled slot state (
              (if r.1
                  then (r.0, some subject)
                  else serve_first F frame slot want_exam subjects r.0).0,
              is_served
                  (if r.1
                    then (r.0, some subject)
                    else serve_first F frame slot want_exam subjects r.0).1,
            )
        go (s, true) h k = record { adds = h.adds }
        go (s, false) h k = record { adds = λ date. omega (arith, h.adds date, (k s).adds date) }

    report_unmet-items :
        (slot : Slot) (reserved : String) (served : Option String) (state : LayoutState F)
        → (report_unmet F frame slot reserved served state).items ≡ state.items
    unfolding report_unmet
    report_unmet-items slot reserved served state =
        elim (Bool-cases (some_eq str_eq served (some reserved))) [
          | inl e ↦ rw e refl
          | inr e ↦ rw e refl
        ]

    place_unserved-Filled :
        (slot : Slot) (want_exam : Bool) (served : Option String) (state base : LayoutState F)
        → Filled slot base (state, is_served served)
        → Filled slot base (place_unserved F frame slot want_exam served state, true)
    unfolding place_unserved
    place_unserved-Filled slot want_exam (some subject) state base h = record { adds = h.adds }
    place_unserved-Filled slot want_exam none state base h = go (is_pinned F frame slot.strength)
      where
        more : (r : LayoutState F × Bool) → Filled slot state r → Filled slot base (r.0, true)
        more (s, true) k = record { adds = λ date. omega (arith, h.adds date, k.adds date) }
        more (s, false) k = record { adds = λ date. omega (arith, h.adds date, k.adds date) }

        go :
            (b : Bool)
            → Filled slot base
                (if b then state else (place_any F frame slot want_exam state).0, true)
        go true = record { adds = λ date. omega (arith, h.adds date) }
        go false = more _ (place_any-Filled slot want_exam state)

    pub place_reserved-Filled :
        (slot : Slot) (want_exam : Bool) (state : LayoutState F)
        → Filled slot state (place_reserved F frame slot want_exam state, true)
    unfolding place_reserved
    place_reserved-Filled slot want_exam state =
        go (serve_first F frame slot want_exam (order_for F frame slot) state)
          (serve_first-Filled slot want_exam (order_for F frame slot) state)
      where
        go :
            (r : LayoutState F × Option String)
            → Filled slot state (r.0, is_served r.1)
            → Filled slot state (
              place_unserved F frame slot want_exam r.1
                  (report_unmet F frame slot (or_empty F frame slot.subject_id) r.1 r.0),
              true,
            )
        go (s, served) h = place_unserved-Filled slot want_exam served _ state (record {
          adds = λ date.
              rw (report_unmet-items slot (or_empty F frame slot.subject_id) served s)
                (h.adds date);
        })
