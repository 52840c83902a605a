-- ===== src/Planner/Layout/Queues.antt =====
-- app/services/planner/layout.py: the queues of the topics and the choice of the next one.
use scholarscrib_backend.Floats.{Floats}
use scholarscrib_backend.Learning.Graph.{GraphEdge, incoming_edges}
use scholarscrib_backend.Planner.Days.{DayKey, monday_of}
use scholarscrib_backend.Planner.Slots.{session_minutes, Slot}
use scholarscrib_backend.Planner.Topics.{
  Reason, TopicCandidate, TopicStateMap, mastery_of, carry_over, gap_fill, current, catch_up_reason,
  preview, exam_reason,
}
use scholarscrib_backend.Planner.Layout.{
  WorkUnit, subject_cap, bool_eq, Queue, Frame, LayoutState, lesson_unit, practice_unit,
}
use scholarscrib_backend.Prelude.{
  ℕ, ◌+◌, ◌-◌, ◌/◌, max, String, Bool, true, false, ◌&&◌, ◌||◌, not, Option, none, some, List, [],
  ◌∷◌, ◌++◌, map, str_eq, ltb, leb, ◌==◌, if◌then◌else◌, then_by, length, replicate, keep, first,
  any, then_by_text, is_in, sort_by,
}
use scholarscrib_backend.Prelude.Dict

-- math.ceil(minutes / SESSION_MINUTES), which is exact for the minutes of a topic.
abbrev pub ceil_sessions : ℕ → ℕ
ceil_sessions minutes = (minutes + 29) / session_minutes

-- The subjects of a day, as a set.
unfoldable pub subjects_on : List (DayKey × List String) → DayKey → List String
subjects_on day_subjects date = Dict.get_or ◌==◌ day_subjects date []

unfoldable pub uses_key : DayKey × String → DayKey × String → Bool
uses_key (d, s) (e, t) = d == e && str_eq s t

abbrev pub is_reason : Reason → Reason → Bool
is_reason carry_over carry_over = true
is_reason gap_fill gap_fill = true
is_reason current current = true
is_reason catch_up_reason catch_up_reason = true
is_reason preview preview = true
is_reason exam_reason exam_reason = true
is_reason _ _ = false

abbrev pub bool_number : Bool → ℕ
bool_number true = 1
bool_number false = 0

-- `date is not None and date >= other`
abbrev pub not_before : Option DayKey → DayKey → Bool
not_before none other = false
not_before (some date) other = leb other date

module _ (F : Floats) where
  open F use {mul, le, of_nat}

  -- The lessons of a topic that are left to teach.
  unfoldable pub lessons_of : Bool → ℕ → ℕ → ℕ
  lessons_of nothing_to_teach estimated_minutes done =
      if nothing_to_teach then 0 else max 1 (ceil_sessions estimated_minutes) - done

  unfoldable pub new_queue :
      TopicStateMap F → List String → List (String × ℕ) → TopicCandidate F → Bool → ℕ → Queue F
  unfolding lessons_of mastery_of
  new_queue state pretest_passed done candidate exam rank =
      let topic_id = candidate.topic.id in
      let lessons =
        lessons_of (exam || is_in topic_id pretest_passed) candidate.topic.estimated_minutes
          (Dict.get_or str_eq done topic_id 0) in
      let practice = if exam then 1 else (if ltb (mastery_of F state topic_id) 50 then 2 else 1) in
      record {
        candidate = candidate;
        exam = exam;
        rank = rank;
        units = replicate lessons lesson_unit ++ replicate practice practice_unit;
        lessons_left = lessons;
        last_lesson_date = none;
        started = false;
      }

  has_queue : Option (Queue F) → Bool
  has_queue none = false
  has_queue (some queue) = true

  -- The dictionary `queues`, whose length is the next rank: a topic has the queue that came first.
  unfoldable pub add_queue :
      TopicStateMap F
      → List String
      → List (String × ℕ)
      → TopicCandidate F
      → Bool
      → List (String × Queue F)
      → List (String × Queue F)
  unfolding new_queue has_queue
  add_queue state pretest_passed done candidate exam queues =
      if has_queue (Dict.get str_eq queues candidate.topic.id)
      then queues
      else queues
        ++ (candidate.topic.id, new_queue state pretest_passed done candidate exam (length queues))
          ∷ []

  unfoldable pub add_queues :
      TopicStateMap F
      → List String
      → List (String × ℕ)
      → List (TopicCandidate F)
      → Bool
      → List (String × Queue F)
      → List (String × Queue F)
  unfolding add_queue
  add_queues state pretest_passed done [] exam queues = queues
  add_queues state pretest_passed done (candidate ∷ candidates) exam queues =
      add_queues state pretest_passed done candidates exam
        (add_queue state pretest_passed done candidate exam queues)

  module _ (frame : Frame F) where
    unfoldable pub cap_of : DayKey → ℕ
    unfolding subject_cap
    cap_of date = max (subject_cap date) (length (Dict.get_or ◌==◌ frame.day_reserved date []))

    unfoldable pub allow_subject : LayoutState F → DayKey → String → Bool
    unfolding subjects_on cap_of
    allow_subject state date subject_id =
        let chosen = subjects_on state.day_subjects date in
        is_in subject_id chosen || ltb (length chosen) (cap_of date)

    -- Whether one prerequisite edge is met. A topic that is planned to be taught must have been
    -- taught on an earlier day; any other must be mastered enough or its pretest passed.
    edge_ready : LayoutState F → DayKey → GraphEdge F → Option (Queue F) → Bool
    unfolding mastery_of
    edge_ready state date edge planned = elim planned [
      | none ↦ met
      | some queue ↦
          if queue.exam
          then met
          else not (ltb 0 queue.lessons_left) && not (not_before queue.last_lesson_date date)
    ]
      where
        met : Bool
        met = not (
            not (le (mul (of_nat 60) edge.strength) (of_nat (mastery_of F frame.state edge.source)))
            && not (is_in edge.source frame.pretest_passed))

    edges_ready : LayoutState F → DayKey → List (GraphEdge F) → Bool
    unfolding edge_ready
    edges_ready state date [] = true
    edges_ready state date (edge ∷ edges) =
        (not (str_eq edge.kind "PREREQUISITE")
          || edge_ready state date edge (Dict.get str_eq state.queues edge.source))
        && edges_ready state date edges

    unfoldable pub prereqs_ready : LayoutState F → Queue F → DayKey → Bool
    unfolding edges_ready incoming_edges
    prereqs_ready state queue date =
        edges_ready state date (incoming_edges F frame.graph queue.candidate.topic.id)

    -- The last test: no practice on the day of the last lesson.
    unit_ready : List WorkUnit → Option DayKey → DayKey → Bool
    unit_ready [] last_lesson_date date = false
    unit_ready (lesson_unit ∷ units) last_lesson_date date = true
    unit_ready (practice_unit ∷ units) last_lesson_date date =
        not (not_before last_lesson_date date)

    unfoldable pub eligible : LayoutState F → Queue F → Slot → Bool
    unfolding allow_subject prereqs_ready unit_ready
    eligible state queue slot =
        unit_ready queue.units queue.last_lesson_date slot.date
        && (allow_subject state slot.date queue.candidate.topic.subject_id
            && (not (
                  is_reason queue.candidate.reason gap_fill
                  && ltb state.gap_minutes_left slot.minutes)
                && (queue.started || prereqs_ready state queue slot.date)))

    unfoldable pub uses_of : LayoutState F → DayKey → String → ℕ
    unfolding uses_key
    uses_of state date subject_id =
        Dict.get_or uses_key state.week_uses (monday_of date, subject_id) 0

    unfoldable pub catch_up_ahead : Slot → Bool
    unfolding monday_of
    catch_up_ahead slot =
        not slot.catch_up
        && any (λ date. leb slot.date date && (monday_of date == monday_of slot.date))
            frame.catch_up_dates

    -- The order of the sort keys of `pick_topic`.
    unfoldable pub queue_le : LayoutState F → Slot → Queue F → Queue F → Bool
    unfolding uses_of
    queue_le state slot a b =
        let s = a.candidate.topic.subject_id in
        let t = b.candidate.topic.subject_id in
        then_by (bool_number (is_reason a.candidate.reason preview))
          (bool_number (is_reason b.candidate.reason preview))
          (then_by (uses_of state slot.date s) (uses_of state slot.date t) (
            then_by (Dict.get_or str_eq frame.behind_by t 0)
              (Dict.get_or str_eq frame.behind_by s 0)
              (then_by_text s t
                (then_by (bool_number b.started) (bool_number a.started) (leb a.rank b.rank)))))

    -- The test of the reason: `only`, or else no carried topic while a catch-up slot is ahead.
    reason_fits : Option Reason → Reason → Slot → Bool
    unfolding catch_up_ahead
    reason_fits (some only) reason slot = is_reason reason only
    reason_fits none reason slot = not (is_reason reason carry_over) || not (catch_up_ahead slot)

    unfoldable pub subject_fits : Option String → String → Bool
    subject_fits none subject_id = true
    subject_fits (some subject) subject_id = str_eq subject_id subject

    unfoldable pub is_option :
        LayoutState F → Slot → Bool → Option Reason → Option String → Queue F → Bool
    unfolding reason_fits subject_fits eligible
    is_option state slot exam only subject queue =
        eligible state queue slot
        && (bool_eq queue.exam exam
            && (subject_fits subject queue.candidate.topic.subject_id
                && reason_fits only queue.candidate.reason slot))

    unfoldable pub pick_topic :
        LayoutState F → Slot → Bool → Option Reason → Option String → Option (Queue F)
    unfolding queue_le is_option
    pick_topic state slot exam only subject =
        first (λ queue. true)
          (sort_by (queue_le state slot)
            (keep (is_option state slot exam only subject) (map (λ e. e.1) state.queues)))
