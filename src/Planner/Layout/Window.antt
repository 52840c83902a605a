-- ===== src/Planner/Layout/Window.antt =====
-- app/services/planner/layout.py: the days of `layout_window`, from its parameters to its answer.
pub mod Filled
pub mod Minutes
pub mod Planned
use scholarscrib_backend.Floats.{Floats}
use scholarscrib_backend.Learning.Graph.{KnowledgeGraph}
use scholarscrib_backend.Planner.Days.{DayKey, add_days, days_between}
use scholarscrib_backend.Planner.PlanMode.{PlanMode}
use scholarscrib_backend.Planner.Slots.{session_minutes, SlotAllocation, Slot, UnreservedSession}
use scholarscrib_backend.Planner.Slots.Reserve.{settled_eq, Settled, Day, reserve_slots}
use scholarscrib_backend.Planner.Topics.{TopicCandidate, SubjectSelection, TopicStateMap, preview}
use scholarscrib_backend.Planner.Layout.{
  WorkUnit, WindowItemDraft, FixedItem, RevisionDue, UnmetAllocation, Overload, PoolEntry,
  free_days, Queue, Frame, LayoutState, no_capacity,
}
use scholarscrib_backend.Planner.Layout.Queues.{is_reason, add_queues}
use scholarscrib_backend.Planner.Layout.Place.{add_subject}
use scholarscrib_backend.Prelude.{
  ℕ, ◌+◌, ◌*◌, ◌/◌, max, String, Bool, true, false, ◌&&◌, ◌||◌, not, Option, none, some, List, [],
  ◌∷◌, ◌++◌, map, str_eq, if◌then◌else◌, length, keep, sum_of, text_leb, is_in, sort_by, to_nat,
  pos,
}
use scholarscrib_backend.Prelude.Dict
use scholarscrib_backend.Planner.Layout.Days.{is_term_mode, in_runway, layout_days}

-- The minutes of fixed items in whole sessions, for each day and subject.
unfoldable pub settled_by : Settled → List FixedItem → Settled
unfolding settled_eq
settled_by settled [] = settled
settled_by settled (item ∷ items) =
    let key : DayKey × String = (item.date, item.subject_id) in
    settled_by
      (Dict.put settled_eq settled key
        (Dict.get_or settled_eq settled key 0 + item.duration_minutes / session_minutes))
      items

abbrev unmet_of : UnreservedSession → UnmetAllocation
unmet_of u = record {
  date = u.date;
  subject_id = u.subject_id;
  strength = u.strength;
  minutes = session_minutes;
  reason = no_capacity;
}

-- The subjects that reserve a slot of a day, as a set.
unfoldable pub reserved_in : List String → List Slot → List String
reserved_in found [] = found
reserved_in found (slot ∷ slots) = elim slot.subject_id [
  | none ↦ reserved_in found slots
  | some s ↦ reserved_in (if str_eq s "" || is_in s found then found else s ∷ found) slots
]

unfoldable pub fixed_subjects :
    List (DayKey × List String) → List FixedItem → List (DayKey × List String)
unfolding add_subject
fixed_subjects found [] = found
fixed_subjects found (item ∷ items) =
    fixed_subjects (add_subject found item.date item.subject_id) items

-- The pool of the revisions that are due at the start.
unfoldable pub due_pool : DayKey → ℕ → List RevisionDue → List PoolEntry
due_pool first_date order [] = []
due_pool first_date order (due ∷ rest) =
    record {
      due_on = first_date;
      order = order;
      topic_id = due.topic_id;
      subject_id = due.subject_id;
      note = due.reason;
    }
    ∷ due_pool first_date (order + 1) rest

abbrev pub date_of_first : List Slot → DayKey
date_of_first [] = 0
date_of_first (slot ∷ slots) = slot.date

unfoldable pub date_of_last : List Slot → DayKey
date_of_last [] = 0
date_of_last (slot ∷ []) = slot.date
date_of_last (slot ∷ next ∷ slots) = date_of_last (next ∷ slots)

-- The first of the two mock days is the runway's start and the second its middle.
mocks_of : Option DayKey → Option DayKey → List DayKey
unfolding add_days days_between
mocks_of (some start) (some target) =
    let runway_length = to_nat (days_between start target) + 1 in
    start ∷ add_days start (pos (runway_length / 2)) ∷ []
mocks_of _ _ = []

unfoldable pub pending_from : PlanMode → Option DayKey → Option DayKey → List DayKey
unfolding mocks_of
pending_from mode runway_start target_date =
    if is_term_mode mode then [] else mocks_of runway_start target_date

module _ (F : Floats) where
  open F use {Float, decimal, mul, div, floor, ceil, of_nat}

  has_units : List WorkUnit → Bool
  has_units [] = false
  has_units (unit ∷ units) = true

  unfoldable pub is_unfinished : Queue F → Bool
  unfolding has_units
  is_unfinished queue =
      not queue.exam && (not (is_reason queue.candidate.reason preview) && has_units queue.units)

  -- ceil(unplaced / weeks / 30) * 30, and the count of the topics.
  overload_of : List (Queue F) → List Slot → Option Overload
  unfolding days_between date_of_last
  overload_of [] slots = none
  overload_of (queue ∷ queues) [] = none
  overload_of (queue ∷ queues) (slot ∷ slots) =
      let unplaced = sum_of (λ q. length q.units * session_minutes) (queue ∷ queues) in
      let window_days = to_nat (days_between slot.date (date_of_last (slot ∷ slots))) + 1 in
      let weeks = max 1 ((window_days + 6) / 7) in
      some (record {
        topics_behind = length (queue ∷ queues);
        suggested_extra_minutes_per_week =
            to_nat (ceil (div (div (of_nat unplaced) (of_nat weeks)) (of_nat session_minutes)))
            * session_minutes;
      })

  pub record Input : Type 0 where
    pub mode : PlanMode
    pub slots : List Slot
    pub target_date : Option DayKey
    pub runway_start : Option DayKey
    pub selections : List (SubjectSelection F)
    pub exam_candidates : List (TopicCandidate F)
    pub subject_ids : List String
    pub subject_names : List (String × String)
    pub graph : KnowledgeGraph F
    pub state : TopicStateMap F
    pub pretest_passed : List String
    pub revision_due : List RevisionDue
    pub fixed : List FixedItem
    pub lessons_done : List (String × ℕ)
    pub allocations : List SlotAllocation

  -- The days with their free slots reserved, and the sessions that found no slot.
  unfoldable pub reserved_days : Input → List Day × List UnreservedSession
  unfolding free_days settled_by reserve_slots
  reserved_days input =
      reserve_slots (free_days input.slots input.fixed) input.allocations
        (settled_by [] input.fixed)

  unfoldable pub behind_from : List (String × ℕ) → List (SubjectSelection F) → List (String × ℕ)
  behind_from found [] = found
  behind_from found (selection ∷ selections) =
      behind_from (Dict.put str_eq found selection.subject_id selection.behind_by) selections

  unfoldable pub frame_of : Input → List Day → Frame F
  unfolding reserved_in behind_from
  frame_of input days = record {
    mode = input.mode;
    target_date = input.target_date;
    runway_start = input.runway_start;
    subject_ids = input.subject_ids;
    subject_names = input.subject_names;
    graph = input.graph;
    state = input.state;
    pretest_passed = input.pretest_passed;
    behind_by = behind_from [] input.selections;
    day_reserved = map (λ day. (day.0, sort_by text_leb (reserved_in [] day.1))) days;
    catch_up_dates = dates_of days;
  }
    where
      dates_of : List Day → List DayKey
      dates_of [] = []
      dates_of ((date, slots) ∷ rest) =
          map (λ s. s.date) (keep (λ s. s.catch_up) slots) ++ dates_of rest

  unfoldable pub selection_queues :
      Input → List (SubjectSelection F) → List (String × Queue F) → List (String × Queue F)
  unfolding add_queues
  selection_queues input [] queues = queues
  selection_queues input (selection ∷ selections) queues = selection_queues input selections (
      add_queues F input.state input.pretest_passed input.lessons_done selection.candidates false
        queues)

  unfoldable pub queues_of : Input → List (String × Queue F)
  unfolding selection_queues add_queues
  queues_of input =
      add_queues F input.state input.pretest_passed input.lessons_done input.exam_candidates true
        (selection_queues input input.selections [])

  unfoldable pub full_minutes : List Day → ℕ
  full_minutes days = sum_of (λ day. sum_of (λ s. s.minutes) (keep (λ s. not s.short) day.1)) days

  unfoldable pub start_state : Input → List Day → List UnreservedSession → LayoutState F
  unfolding fixed_subjects queues_of full_minutes due_pool pending_from
  start_state input days unreserved = record {
    items = [];
    day_subjects = fixed_subjects [] input.fixed;
    queues = queues_of input;
    gap_minutes_left = to_nat (floor (mul (of_nat (full_minutes days)) (decimal 2 1)));
    pool = due_pool (date_of_first input.slots) 0 input.revision_due;
    pool_order = length input.revision_due;
    revised_on = [];
    week_uses = [];
    week_revisions = [];
    week_slots = [];
    subject_turn = 0;
    exam_slots = 0;
    exam_credit = decimal 0 1;
    pending_mocks = pending_from input.mode input.runway_start input.target_date;
    unmet = map unmet_of unreserved;
  }

  unfoldable pub layout_window :
      Input → List WindowItemDraft × Option Overload × List UnmetAllocation
  unfolding reserved_days frame_of start_state layout_days overload_of is_unfinished in_runway
  layout_window input =
      let (days, unreserved) = reserved_days input in
      let frame = frame_of input days in
      let state = layout_days F frame days (start_state input days unreserved) in
      (
        state.items,
        overload_of (keep is_unfinished (map (λ e. e.1) state.queues)) input.slots,
        keep (λ u. not (in_runway F frame u.date)) state.unmet,
      )
