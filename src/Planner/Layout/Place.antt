-- ===== src/Planner/Layout/Place.antt =====
-- app/services/planner/layout.py: how `layout_window` puts an item into a slot and what that changes.
use scholarscrib_backend.Floats.{Floats}
use scholarscrib_backend.Planner.Days.{DayKey, add_days, monday_of}
use scholarscrib_backend.Planner.Slots.{Slot}
use scholarscrib_backend.Planner.Topics.{gap_fill}
use scholarscrib_backend.Planner.Layout.{
  Activity, WorkUnit, PoolEntry, Queue, note_for, LayoutState, lesson, practice, revision,
  lesson_unit, practice_unit,
}
use scholarscrib_backend.Planner.Layout.Queues.{subjects_on, uses_key, is_reason}
use scholarscrib_backend.Prelude.{
  ℕ, ◌+◌, ◌-◌, String, Bool, true, false, Option, none, some, List, [], ◌∷◌, ◌++◌, str_eq, leb,
  ◌==◌, if◌then◌else◌, then_by, ◌<>◌, to_text, is_in, pos,
}
use scholarscrib_backend.Prelude.Dict

-- The draft of an item, beside the date and the minutes of its slot.
pub record Draft : Type 0 where
  pub subject_id : String
  pub topic_id : Option String
  pub activity_type : Activity
  pub notes : Option String
  pub carried_from : Option DayKey

abbrev pub add_one : List (DayKey × ℕ) → DayKey → List (DayKey × ℕ)
add_one counts date = Dict.put ◌==◌ counts date (Dict.get_or ◌==◌ counts date 0 + 1)

unfoldable pub add_subject :
    List (DayKey × List String) → DayKey → String → List (DayKey × List String)
unfolding subjects_on
add_subject day_subjects date subject_id =
    let found = subjects_on day_subjects date in
    Dict.put ◌==◌ day_subjects date
      (if is_in subject_id found then found else found ++ subject_id ∷ [])

abbrev pub revision_offsets : List ℕ
revision_offsets = 1 ∷ 3 ∷ 7 ∷ 14 ∷ []

-- The passes of revision after the last lesson of a topic.
unfoldable pub add_passes :
    List ℕ → DayKey → String → String → String → List PoolEntry × ℕ → List PoolEntry × ℕ
unfolding add_days
add_passes [] date topic_id subject_id title pool = pool
add_passes (offset ∷ offsets) date topic_id subject_id title (pool, order) =
    add_passes offsets date topic_id subject_id title (
      pool
          ++ record {
            due_on = add_days date (pos offset);
            order = order;
            topic_id = topic_id;
            subject_id = subject_id;
            note = "Revision pass — " <> title <> " (+" <> to_text offset <> "d)";
          }
            ∷ [],
      order + 1,
    )

-- `pool.remove(entry)`: entries differ in their order.
unfoldable pub remove_entry : ℕ → List PoolEntry → List PoolEntry
remove_entry order [] = []
remove_entry order (x ∷ xs) = if x.order == order then xs else x ∷ remove_entry order xs

unfoldable pub entry_le : PoolEntry → PoolEntry → Bool
entry_le a b = then_by a.due_on b.due_on (leb a.order b.order)

module _ (F : Floats) where
  unfoldable pub place : Slot → Draft → LayoutState F → LayoutState F
  unfolding add_subject
  place slot draft state = record state {
    day_subjects = add_subject state.day_subjects slot.date draft.subject_id;
    items =
        state.items
        ++ record {
          date = slot.date;
          subject_id = draft.subject_id;
          topic_id = draft.topic_id;
          activity_type = draft.activity_type;
          duration_minutes = slot.minutes;
          notes = draft.notes;
          carried_from = draft.carried_from;
        }
          ∷ [];
  }

  unfoldable pub place_revision : Slot → PoolEntry → LayoutState F → LayoutState F
  unfolding place monday_of
  place_revision slot entry state =
      place slot
        (record {
          subject_id = entry.subject_id;
          topic_id = some entry.topic_id;
          activity_type = revision;
          notes = some entry.note;
          carried_from = none;
        })
        (record state { week_revisions = add_one state.week_revisions (monday_of slot.date) })

  unfoldable pub activity_of : WorkUnit → Activity
  activity_of lesson_unit = lesson
  activity_of practice_unit = practice

  -- The lesson of a queue that is taught on a date.
  taught : WorkUnit → DayKey → Queue F → Queue F
  taught practice_unit date queue = queue
  taught lesson_unit date queue = record queue {
    lessons_left = queue.lessons_left - 1;
    last_lesson_date = some date;
  }

  is_last_lesson : WorkUnit → ℕ → Bool
  is_last_lesson practice_unit lessons_left = false
  is_last_lesson lesson_unit lessons_left = lessons_left - 1 == 0

  -- The updates of the queue, the counters and the pool in `place_unit`.
  unfoldable pub use_unit :
      Slot → Queue F → WorkUnit → List WorkUnit → LayoutState F → LayoutState F
  unfolding taught is_last_lesson add_passes uses_key monday_of
  use_unit slot queue unit units state =
      let topic = queue.candidate.topic in
      let key : DayKey × String = (monday_of slot.date, topic.subject_id) in
      let passes =
        add_passes revision_offsets slot.date topic.id topic.subject_id topic.title
          (state.pool, state.pool_order) in
      let last = is_last_lesson unit queue.lessons_left in
      record state {
        queues =
            Dict.put str_eq state.queues topic.id
              (taught unit slot.date (record queue { units = units; started = true }));
        gap_minutes_left =
            if is_reason queue.candidate.reason gap_fill
            then state.gap_minutes_left - slot.minutes
            else state.gap_minutes_left;
        week_uses =
            Dict.put uses_key state.week_uses key (Dict.get_or uses_key state.week_uses key 0 + 1);
        pool = if last then passes.0 else state.pool;
        pool_order = if last then passes.1 else state.pool_order;
      }

  -- `queue.units.pop(0)`: only queues with units left are picked.
  unfoldable pub place_units : Slot → Queue F → List WorkUnit → LayoutState F → LayoutState F
  unfolding place use_unit note_for activity_of
  place_units slot queue [] state = state
  place_units slot queue (unit ∷ units) state =
      let topic = queue.candidate.topic in
      place slot
        (record {
          subject_id = topic.subject_id;
          topic_id = some topic.id;
          activity_type = activity_of unit;
          notes = some (note_for F queue.candidate unit);
          carried_from = queue.candidate.carried_from;
        })
        (use_unit slot queue unit units state)

  unfoldable pub place_unit : Slot → Queue F → LayoutState F → LayoutState F
  unfolding place_units
  place_unit slot queue state = place_units slot queue queue.units state
