-- ===== src/Planner/Layout.antt =====
-- app/services/planner/layout.py: how a window of days is filled with study. Here stand the
-- records, the free slots of the days, and the state of `layout_window`: the variables that its
-- inner functions change, and, as a frame, those that they only read.
pub mod Queues
pub mod Place
pub mod Work
pub mod Days
pub mod Window
use scholarscrib_backend.Floats.{Floats}
use scholarscrib_backend.Learning.Graph.{KnowledgeGraph}
use scholarscrib_backend.Planner.Days.{DayKey, is_weekend}
use scholarscrib_backend.Planner.PlanMode.{PlanMode}
use scholarscrib_backend.Planner.Slots.{session_minutes, Strength, Slot, preferred, pinned}
use scholarscrib_backend.Planner.Slots.Reserve.{Day}
use scholarscrib_backend.Planner.Topics.{
  Reason, TopicCandidate, TopicStateMap, carry_over, gap_fill, current, catch_up_reason, preview,
  exam_reason,
}
use scholarscrib_backend.Prelude.{
  ℕ, zero, suc, ◌/◌, max, String, Bool, true, false, ◌&&◌, not, Option, none, some, List, [], ◌∷◌,
  map, str_eq, ltb, ◌==◌, if◌then◌else◌, keep, ◌<>◌,
}
use scholarscrib_backend.Prelude.Dict

pub data Activity : Type 0 where
  lesson practice revision past_questions mock_exam : Activity

pub data WorkUnit : Type 0 where
  lesson_unit practice_unit : WorkUnit

pub record WindowItemDraft : Type 0 where
  pub date : DayKey
  pub subject_id : String
  pub topic_id : Option String
  pub activity_type : Activity
  pub duration_minutes : ℕ
  pub notes : Option String
  pub carried_from : Option DayKey

pub record FixedItem : Type 0 where
  pub date : DayKey
  pub subject_id : String
  pub duration_minutes : ℕ

pub record RevisionDue : Type 0 where
  pub topic_id : String
  pub subject_id : String
  pub title : String
  pub reason : String

pub data UnmetReason : Type 0 where
  no_capacity no_eligible_work : UnmetReason

pub record UnmetAllocation : Type 0 where
  pub date : DayKey
  pub subject_id : String
  pub strength : Strength
  pub minutes : ℕ
  pub reason : UnmetReason

pub record Overload : Type 0 where
  pub topics_behind : ℕ
  pub suggested_extra_minutes_per_week : ℕ

pub record PoolEntry : Type 0 where
  pub due_on : DayKey
  pub order : ℕ
  pub topic_id : String
  pub subject_id : String
  pub note : String

unfoldable pub subject_cap : DayKey → ℕ
unfolding is_weekend
subject_cap date = if is_weekend date then 3 else 2

-- The copy of a slot, without a subject.
abbrev pub bare : Slot → Slot
bare slot = record slot { subject_id = none; strength = none }

unfoldable pub group_by_date : List Day → List Slot → List Day
group_by_date found [] = found
group_by_date found (slot ∷ slots) =
    group_by_date (Dict.append_to ◌==◌ found slot.date (bare slot)) slots

abbrev pub bool_eq : Bool → Bool → Bool
bool_eq true b = b
bool_eq false b = not b

abbrev pub some_eq {ℓ} : {A : Type ℓ} → (A → A → Bool) → Option A → Option A → Bool
some_eq eq none none = true
some_eq eq (some a) (some b) = eq a b
some_eq eq _ _ = false

abbrev strength_eq : Strength → Strength → Bool
strength_eq pinned pinned = true
strength_eq preferred preferred = true
strength_eq _ _ = false

-- The equality of the dataclass.
unfoldable pub slot_eq : Slot → Slot → Bool
slot_eq a b =
    a.date == b.date
    && (a.minutes == b.minutes
        && (bool_eq a.short b.short
            && (bool_eq a.catch_up b.catch_up
                && (some_eq str_eq a.subject_id b.subject_id
                    && some_eq strength_eq a.strength b.strength))))

-- `day_slots.remove(slot)`
unfoldable pub remove_slot : Slot → List Slot → List Slot
unfolding slot_eq
remove_slot slot [] = []
remove_slot slot (x ∷ xs) = if slot_eq x slot then xs else x ∷ remove_slot slot xs

-- `use[-1]`
unfoldable pub last_of : List Slot → Option Slot
last_of [] = none
last_of (x ∷ []) = some x
last_of (x ∷ y ∷ xs) = last_of (y ∷ xs)

abbrev pub or_last : Option Slot → List Slot → Option Slot
or_last (some slot) slots = some slot
or_last none slots = last_of slots

unfoldable pub remove_found : Option Slot → List Slot → List Slot
unfolding remove_slot
remove_found none slots = slots
remove_found (some slot) slots = remove_slot slot slots

-- One slot that a settled item takes: the last of its kind, or else the last of the day.
unfoldable pub use_slot : FixedItem → List Slot → List Slot
unfolding remove_found last_of
use_slot item slots =
    let kind = keep (λ s. bool_eq s.short (ltb item.duration_minutes 30)) slots in
    remove_found (or_last (last_of kind) slots) slots

unfoldable pub use_times : ℕ → FixedItem → List Slot → List Slot
unfolding use_slot
use_times zero item slots = slots
use_times (suc n) item slots = use_times n item (use_slot item slots)

unfoldable pub use_all : List FixedItem → List Slot → List Slot
unfolding use_times
use_all [] slots = slots
use_all (item ∷ items) slots =
    use_all items (use_times (max 1 (item.duration_minutes / session_minutes)) item slots)

unfoldable pub free_days : List Slot → List FixedItem → List Day
unfolding group_by_date use_all
free_days slots fixed =
    map (λ day. (day.0, use_all (keep (λ item. item.date == day.0) fixed) day.1))
      (group_by_date [] slots)

module _ (F : Floats) where
  open F use {Float}

  pub record Queue : Type 0 where
    pub candidate : TopicCandidate F
    pub exam : Bool
    pub rank : ℕ
    pub units : List WorkUnit
    pub lessons_left : ℕ
    pub last_lesson_date : Option DayKey
    pub started : Bool

  abbrev foundation : Option String → String
  foundation none = "Build this foundation first"
  foundation (some title) =
      if str_eq title "" then "Build this foundation first" else "Foundation for " <> title

  unfoldable pub note_of : Reason → WorkUnit → String → Option String → String
  note_of exam_reason unit title unlocks = "Exam prep — practise " <> title
  note_of _ practice_unit title unlocks = "Practise " <> title <> " questions"
  note_of carry_over lesson_unit title unlocks = "Catch-up — from a missed session"
  note_of gap_fill lesson_unit title unlocks = foundation unlocks
  note_of current lesson_unit title unlocks = "Your class is on this topic now"
  note_of catch_up_reason lesson_unit title unlocks = "Catch up with your class"
  note_of preview lesson_unit title unlocks = "Get ahead — coming up next in class"

  unfoldable pub note_for : TopicCandidate F → WorkUnit → String
  unfolding note_of
  note_for candidate unit = note_of candidate.reason unit candidate.topic.title candidate.unlocks

  -- What the inner functions read.
  pub record Frame : Type 0 where
    pub mode : PlanMode
    pub target_date : Option DayKey
    pub runway_start : Option DayKey
    pub subject_ids : List String
    pub subject_names : List (String × String)
    pub graph : KnowledgeGraph F
    pub state : TopicStateMap F
    pub pretest_passed : List String
    pub behind_by : List (String × ℕ)
    pub day_reserved : List (DayKey × List String)
    pub catch_up_dates : List DayKey

  -- What they change.
  pub record LayoutState : Type 0 where
    pub items : List WindowItemDraft
    pub day_subjects : List (DayKey × List String)
    pub queues : List (String × Queue)
    -- Never negative: a gap filler is only placed in a slot that is not longer.
    pub gap_minutes_left : ℕ
    pub pool : List PoolEntry
    pub pool_order : ℕ
    pub revised_on : List (DayKey × String)
    pub week_uses : List ((DayKey × String) × ℕ)
    pub week_revisions : List (DayKey × ℕ)
    pub week_slots : List (DayKey × ℕ)
    pub subject_turn : ℕ
    pub exam_slots : ℕ
    pub exam_credit : Float
    pub pending_mocks : List DayKey
    pub unmet : List UnmetAllocation
