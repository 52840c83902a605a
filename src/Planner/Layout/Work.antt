-- ===== src/Planner/Layout/Work.antt =====
-- app/services/planner/layout.py: which work `layout_window` gives to a slot. The functions that
-- answer whether they placed something return the state with a Boolean.
use scholarscrib_backend.Floats.{Floats}
use scholarscrib_backend.Planner.Days.{DayKey, monday_of}
use scholarscrib_backend.Planner.PlanMode.{PlanMode, term_mode, exam_mode, blended_mode}
use scholarscrib_backend.Planner.Slots.{Strength, Slot, preferred, pinned}
use scholarscrib_backend.Planner.Topics.{Reason}
use scholarscrib_backend.Planner.Layout.{
  PoolEntry, some_eq, Queue, Frame, LayoutState, past_questions, no_eligible_work,
}
use scholarscrib_backend.Planner.Layout.Queues.{uses_key, allow_subject, subject_fits, pick_topic}
use scholarscrib_backend.Prelude.{
  ℕ, zero, suc, ◌+◌, ◌%◌, String, Bool, true, false, ◌&&◌, not, Option, none, some, List, [], ◌∷◌,
  ◌++◌, str_eq, leb, ◌==◌, if◌then◌else◌, length, get_elem?, keep, first, any, ◌<>◌, sort_by,
}
use scholarscrib_backend.Prelude.Dict
use scholarscrib_backend.Planner.Layout.Place.{
  remove_entry, entry_le, place, place_revision, place_unit,
}

module _ (F : Floats) where
  module _ (frame : Frame F) where
    -- Whether an entry of the pool may be revised.
    unfoldable pub may_revise : LayoutState F → DayKey → Option String → PoolEntry → Bool
    unfolding allow_subject uses_key
    may_revise state date subject entry =
        allow_subject F frame state date entry.subject_id
        && (subject_fits F frame subject entry.subject_id
            && (leb entry.due_on date
                && not (any (λ r. uses_key r (date, entry.topic_id)) state.revised_on)))

    unfoldable pub next_revision : LayoutState F → DayKey → Option String → Option PoolEntry
    unfolding may_revise entry_le
    next_revision state date subject =
        first (λ entry. true) (sort_by entry_le (keep (may_revise state date subject) state.pool))

    -- The entry leaves the pool.
    unfoldable pub take_entry : DayKey → PoolEntry → LayoutState F → LayoutState F
    unfolding remove_entry
    take_entry date entry state = record state {
      pool = remove_entry entry.order state.pool;
      revised_on = (date, entry.topic_id) ∷ state.revised_on;
    }

    unfoldable pub place_found : Slot → Option PoolEntry → LayoutState F → LayoutState F × Bool
    unfolding place_revision take_entry
    place_found slot none state = (state, false)
    place_found slot (some entry) state =
        (place_revision F slot entry (take_entry slot.date entry state), true)

    -- `take_revision`, and `place_revision` of what it found.
    unfoldable pub revise : Slot → Option String → LayoutState F → LayoutState F × Bool
    unfolding next_revision place_found
    revise slot subject state = place_found slot (next_revision state slot.date subject) state

    past_note : Option String → String
    past_note none = "Past questions practice"
    past_note (some name) =
        if str_eq name "" then "Past questions practice" else "Past questions — " <> name

    unfoldable pub place_past : Slot → String → ℕ → LayoutState F → LayoutState F
    unfolding place past_note
    place_past slot subject_id turn state =
        place F slot
          (record {
            subject_id = subject_id;
            topic_id = none;
            activity_type = past_questions;
            notes = some (past_note (Dict.get str_eq frame.subject_names subject_id));
            carried_from = none;
          })
          (record state { subject_turn = turn })

    -- The subjects in their turn, with the turn after each: those at `turn`, `turn + 1`, and so on.
    unfoldable pub turns_from : List String → ℕ → ℕ → ℕ → List (String × ℕ)
    turns_from subjects total turn zero = []
    turns_from subjects total turn (suc n) =
        let rest = turns_from subjects total (turn + 1) n in
        elim (get_elem? subjects (turn % total)) [
          | none ↦ rest
          | some subject_id ↦ (subject_id, (turn + 1) % total) ∷ rest
        ]

    unfoldable pub place_turn : Slot → Option (String × ℕ) → LayoutState F → LayoutState F × Bool
    unfolding place_past
    place_turn slot none state = (state, false)
    place_turn slot (some (subject_id, turn)) state = (place_past slot subject_id turn state, true)

    -- The first subject in turn that the day allows.
    unfoldable pub next_turn : LayoutState F → DayKey → Option String → Option (String × ℕ)
    unfolding turns_from allow_subject
    next_turn state date only =
        let total = length frame.subject_ids in
        first (λ turn. allow_subject F frame state date turn.0 && subject_fits F frame only turn.0)
          (turns_from frame.subject_ids total state.subject_turn total)

    unfoldable pub place_past_questions :
        Slot → Option String → LayoutState F → LayoutState F × Bool
    unfolding next_turn place_turn
    place_past_questions slot only state = place_turn slot (next_turn state slot.date only) state

    -- The topic that was picked, if there is one.
    unfoldable pub place_picked : Slot → Option (Queue F) → LayoutState F → LayoutState F × Bool
    unfolding place_unit
    place_picked slot none state = (state, false)
    place_picked slot (some queue) state = (place_unit F slot queue state, true)

    -- The next attempt, where the one before placed nothing.
    unfoldable pub or_else_place :
        LayoutState F × Bool → (LayoutState F → LayoutState F × Bool) → LayoutState F × Bool
    or_else_place (state, placed) next = elim placed [ true ↦ (state, true) | false ↦ next state ]

    unfoldable pub place_topic :
        Slot → Bool → Option Reason → Option String → LayoutState F → LayoutState F × Bool
    unfolding pick_topic place_picked
    place_topic slot exam only subject state =
        place_picked slot (pick_topic F frame state slot exam only subject) state

    -- Every third piece of exam work is past questions.
    unfoldable pub place_exam_work : Slot → Option String → LayoutState F → LayoutState F × Bool
    unfolding place_past_questions place_topic or_else_place
    place_exam_work slot subject state =
        let next = record state { exam_slots = state.exam_slots + 1 } in
        or_else_place
          (if next.exam_slots % 3 == 0
            then place_past_questions slot subject next
            else (next, false))
          (λ s.
            or_else_place (place_topic slot true none subject s)
              (λ t. place_past_questions slot subject t))

    abbrev pub is_term : PlanMode → Bool
    is_term term_mode = true
    is_term exam_mode = false
    is_term blended_mode = false

    -- Whether one more revision is within a fifth of the week's slots.
    unfoldable pub revision_due_now : LayoutState F → DayKey → Bool
    unfolding monday_of
    revision_due_now state date =
        let week = monday_of date in
        F.le (F.of_nat (Dict.get_or ◌==◌ state.week_revisions week 0 + 1))
          (F.mul (F.of_nat (Dict.get_or ◌==◌ state.week_slots week 0)) (F.decimal 2 1))

    unfoldable pub place_school_work : Slot → Option String → LayoutState F → LayoutState F × Bool
    unfolding revision_due_now revise place_topic or_else_place
    place_school_work slot subject state =
        or_else_place
          (if revision_due_now state slot.date then revise slot subject state else (state, false))
          (λ s. place_topic slot false none subject s)

    unfoldable pub place_work : Slot → Bool → Option String → LayoutState F → LayoutState F × Bool
    unfolding place_exam_work place_school_work
    place_work slot true subject state =
        if is_term frame.mode then (state, false) else place_exam_work slot subject state
    place_work slot false subject state = place_school_work slot subject state

    unfoldable pub serve : Slot → String → Bool → LayoutState F → LayoutState F × Bool
    unfolding place_work revise or_else_place
    serve slot subject want_exam state =
        or_else_place (place_work slot want_exam (some subject) state) (λ s.
          or_else_place (place_work slot (not want_exam) (some subject) s)
            (λ t. revise slot (some subject) t))

    -- The first subject that is served.
    unfoldable pub serve_first :
        Slot → Bool → List String → LayoutState F → LayoutState F × Option String
    unfolding serve
    serve_first slot want_exam [] state = (state, none)
    serve_first slot want_exam (subject ∷ subjects) state =
        let (tried, served) = serve slot subject want_exam state in
        let rest = serve_first slot want_exam subjects tried in
        if served then (tried, some subject) else rest

    -- Work of either kind for any subject, or else revision.
    unfoldable pub place_any : Slot → Bool → LayoutState F → LayoutState F × Bool
    unfolding place_work revise or_else_place
    place_any slot want_exam state =
        or_else_place (place_work slot want_exam none state)
          (λ s. or_else_place (place_work slot (not want_exam) none s) (λ t. revise slot none t))

    unfoldable pub is_pinned : Option Strength → Bool
    is_pinned none = false
    is_pinned (some pinned) = true
    is_pinned (some preferred) = false

    unfoldable pub strength_of : Option Strength → Strength
    strength_of none = preferred
    strength_of (some strength) = strength

    unfoldable pub or_empty : Option String → String
    or_empty none = ""
    or_empty (some s) = s

    -- `unmet` with the allocation, unless it was served.
    unfoldable pub report_unmet : Slot → String → Option String → LayoutState F → LayoutState F
    unfolding strength_of
    report_unmet slot reserved served state =
        if some_eq str_eq served (some reserved) then state else record state {
          unmet =
              state.unmet
              ++ record {
                date = slot.date;
                subject_id = reserved;
                strength = strength_of slot.strength;
                minutes = slot.minutes;
                reason = no_eligible_work;
              }
                ∷ [];
        }

    unfoldable pub place_unserved : Slot → Bool → Option String → LayoutState F → LayoutState F
    unfolding place_any is_pinned
    place_unserved slot want_exam (some subject) state = state
    place_unserved slot want_exam none state =
        if is_pinned slot.strength then state else (place_any slot want_exam state).0

    -- The subject of the slot and, unless it is pinned, the others that are reserved on the day.
    unfoldable pub order_for : Slot → List String
    unfolding or_empty is_pinned
    order_for slot =
        let reserved = or_empty slot.subject_id in
        let others =
          keep (λ s. not (str_eq s reserved)) (Dict.get_or ◌==◌ frame.day_reserved slot.date []) in
        reserved ∷ (if is_pinned slot.strength then [] else others)

    unfoldable pub place_reserved : Slot → Bool → LayoutState F → LayoutState F
    unfolding serve_first report_unmet place_unserved or_empty order_for
    place_reserved slot want_exam state =
        let (after, served) = serve_first slot want_exam (order_for slot) state in
        place_unserved slot want_exam served
          (report_unmet slot (or_empty slot.subject_id) served after)
