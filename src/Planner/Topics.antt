-- ===== src/Planner/Topics.antt =====
-- app/services/planner/topics.py: the topics that a plan may teach next. `Learning.Mastery.Reading`
-- has the state of a topic; the map of states is an association list.
use scholarscrib_backend.Floats.{Floats}
use scholarscrib_backend.Learning.Mastery.Reading.{TopicState, is_mastered}
use scholarscrib_backend.Planner.Days.{DayKey}
use scholarscrib_backend.Planner.PlanMode.{ClassLevel, Term}
use scholarscrib_backend.Prelude.{ℕ, String, Bool, false, Option, none, some, List, str_eq}
use scholarscrib_backend.Prelude.Dict

pub data Reason : Type 0 where
  carry_over gap_fill current catch_up_reason preview exam_reason : Reason

pub record CarryOver : Type 0 where
  pub topic_id : String
  pub subject_id : String
  pub missed_on : DayKey

module _ (F : Floats) where
  open F use {Float}

  pub record PlanTopic : Type 0 where
    pub id : String
    pub subject_id : String
    pub title : String
    pub slug : String
    pub order_index : ℕ
    pub estimated_minutes : ℕ
    pub waec_weight : Float
    pub jamb_weight : Float
    pub prerequisite_topic_id : Option String
    pub class_level : ClassLevel
    pub term : Term

  pub record TopicCandidate : Type 0 where
    pub topic : PlanTopic
    pub reason : Reason
    pub carried_from : Option DayKey
    pub unlocks : Option String

  pub record SubjectSelection : Type 0 where
    pub subject_id : String
    pub term_topics : List PlanTopic
    -- -1 for a scope without topics
    pub class_index : Option ℕ
    pub behind_by : ℕ
    pub candidates : List TopicCandidate

  abbrev pub TopicStateMap : Type 0
  TopicStateMap = List (String × TopicState F)

  abbrev pub mastery_in : Option (TopicState F) → ℕ
  mastery_in none = 0
  mastery_in (some state) = state.mastery

  unfoldable pub mastery_of : TopicStateMap → String → ℕ
  mastery_of state topic_id = mastery_in (Dict.get str_eq state topic_id)

  unfoldable pub is_mastered_in : Option (TopicState F) → Bool
  unfolding is_mastered
  is_mastered_in none = false
  is_mastered_in (some state) = is_mastered F state

  unfoldable pub is_mastered_of : TopicStateMap → String → Bool
  unfolding is_mastered_in
  is_mastered_of state topic_id = is_mastered_in (Dict.get str_eq state topic_id)
