-- ===== src/Gamification/Rules.antt =====
-- app/services/gamification/rules.py: the events that earn XP, the amounts and the daily limits.
use scholarscrib_backend.Prelude.{
  ℕ, ◌-◌, String, Bool, true, false, ◌&&◌, Option, none, some, List, [], ◌∷◌, ltb, leb,
  if◌then◌else◌, ◌<>◌,
}

pub data Event : Type 0 where
  lesson_completed practice_set_completed daily_quests_completed : Event
  topic_mastery_demonstrated answer_corrected : Event

unfoldable pub xp_amount : Event → ℕ
xp_amount lesson_completed = 30
xp_amount practice_set_completed = 20
xp_amount daily_quests_completed = 30
xp_amount topic_mastery_demonstrated = 50
xp_amount answer_corrected = 5

unfoldable pub reason_of : Event → String
reason_of lesson_completed = "Lesson completed"
reason_of practice_set_completed = "Practice set completed"
reason_of daily_quests_completed = "All daily quests completed"
reason_of topic_mastery_demonstrated = "Topic mastery demonstrated"
reason_of answer_corrected = "Corrected a missed question"

abbrev pub min_practice_questions : ℕ
min_practice_questions = 5

abbrev pub practice_awards_per_day : ℕ
practice_awards_per_day = 5

abbrev pub corrections_per_day : ℕ
corrections_per_day = 10

unfoldable pub practice_xp_eligible : ℕ → ℕ → Bool
practice_xp_eligible answered awarded_today =
    leb min_practice_questions answered && ltb awarded_today practice_awards_per_day

unfoldable pub corrections_allowed : ℕ → ℕ
corrections_allowed awarded_today = corrections_per_day - awarded_today

unfoldable pub events_for_attempt : Bool → Option Bool → ℕ → ℕ → List Event
unfolding practice_xp_eligible
events_for_attempt false exit_passed answered practice_awarded_today = []
events_for_attempt true (some true) answered practice_awarded_today = lesson_completed ∷ []
events_for_attempt true (some false) answered practice_awarded_today = []
events_for_attempt true none answered practice_awarded_today =
    if practice_xp_eligible answered practice_awarded_today then practice_set_completed ∷ [] else []

unfoldable pub event_name : Event → String
event_name lesson_completed = "lesson_completed"
event_name practice_set_completed = "practice_set_completed"
event_name daily_quests_completed = "daily_quests_completed"
event_name topic_mastery_demonstrated = "topic_mastery_demonstrated"
event_name answer_corrected = "answer_corrected"

-- f"{event}:{student_id}:{source_id}"
unfoldable pub idempotency_key : Event → String → String → String
idempotency_key event student_id source_id =
    event_name event <> ":" <> student_id <> ":" <> source_id
