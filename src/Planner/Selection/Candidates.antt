-- ===== src/Planner/Selection/Candidates.antt =====
-- app/services/planner/topics.py: the candidates of a subject in a term and of an exam.
use scholarscrib_backend.Floats.{Floats}
use scholarscrib_backend.Learning.Graph.{KnowledgeGraph}
use scholarscrib_backend.Planner.PlanMode.{ClassLevel, Term, at_or_below_class}
use scholarscrib_backend.Planner.Selection.{
  scope, before_scope, index_of, locate, preview_of, topics_by_id, GapFrame, gaps_for,
}
use scholarscrib_backend.Planner.TermContext.{TermContext}
use scholarscrib_backend.Planner.Topics.{
  Reason, CarryOver, PlanTopic, TopicCandidate, SubjectSelection, TopicStateMap, mastery_of,
  is_mastered_of, carry_over, gap_fill, current, catch_up_reason, preview, exam_reason,
}
use scholarscrib_backend.Prelude.{
  take, ℕ, ◌-◌, String, Bool, ◌&&◌, ◌||◌, not, Option, none, some, List, [], ◌∷◌, ◌++◌, map, str_eq,
  if◌then◌else◌, then_by, get_elem?, keep, any, text_leb, sort_by,
}
use scholarscrib_backend.Prelude.Dict

module _ (F : Floats) where
  open F use {le, add}

  abbrev pub has_id : String → TopicCandidate F → Bool
  has_id id candidate = str_eq candidate.topic.id id

  -- The set `seen` holds the ids of the candidates.
  unfoldable pub add_candidate :
      TopicCandidate F → List (TopicCandidate F) → List (TopicCandidate F)
  add_candidate candidate candidates =
      if any (has_id candidate.topic.id) candidates
      then candidates
      else candidates ++ candidate ∷ []

  unfoldable pub add_all :
      List (TopicCandidate F) → List (TopicCandidate F) → List (TopicCandidate F)
  unfolding add_candidate
  add_all [] candidates = candidates
  add_all (candidate ∷ rest) candidates = add_all rest (add_candidate candidate candidates)

  abbrev pub plain : Reason → PlanTopic F → TopicCandidate F
  plain reason topic = record {
    topic = topic;
    reason = reason;
    carried_from = none;
    unlocks = none;
  }

  pub record TermInput : Type 0 where
    pub subject_id : String
    pub class_level : ClassLevel
    pub term : Term
    pub follow_calendar : Bool
    pub term_context : TermContext
    pub topics : List (PlanTopic F)
    pub graph : KnowledgeGraph F
    pub state : TopicStateMap F
    pub pretest_passed : List String
    pub position_topic_id : Option String
    pub carry_over : List CarryOver
    pub carry_over_only : Bool

  module _ (input : TermInput) where
    abbrev pub unmastered : PlanTopic F → Bool
    unmastered topic = not (is_mastered_of F input.state topic.id)

    unfoldable pub term_topics : List (PlanTopic F)
    unfolding scope
    term_topics = scope F input.topics input.class_level input.term

    unfoldable pub by_id : List (String × PlanTopic F)
    unfolding topics_by_id before_scope term_topics
    by_id = topics_by_id F [] (
        keep (λ topic. before_scope F topic input.class_level input.term) input.topics
        ++ term_topics)

    unfoldable pub position : Option ℕ
    unfolding locate term_topics
    position =
        locate F term_topics input.term input.term_context input.position_topic_id
          input.follow_calendar

    unfoldable pub carried_topic : CarryOver → Option (PlanTopic F) → List (TopicCandidate F)
    carried_topic item none = []
    carried_topic item (some topic) =
        if str_eq item.subject_id input.subject_id && unmastered topic
        then record {
          topic = topic;
          reason = carry_over;
          carried_from = some item.missed_on;
          unlocks = none;
        }
          ∷ []
        else []

    -- The candidates that the first loop adds.
    unfoldable pub carried : List CarryOver → List (TopicCandidate F)
    unfolding carried_topic by_id
    carried [] = []
    carried (item ∷ items) =
        carried_topic item (Dict.get str_eq by_id item.topic_id) ++ carried items

    unfoldable pub gap_frame : GapFrame F
    unfolding by_id term_topics
    gap_frame = record {
      graph = input.graph;
      state = input.state;
      pretest_passed = input.pretest_passed;
      by_id = by_id;
      term_ids = map (λ topic. topic.id) term_topics;
    }

    unfoldable pub gap_candidates : List (PlanTopic F) → List (TopicCandidate F)
    unfolding gaps_for gap_frame
    gap_candidates [] = []
    gap_candidates (topic ∷ topics) =
        map
          (λ gap. record {
            topic = gap;
            reason = gap_fill;
            carried_from = none;
            unlocks = some topic.title;
          })
          (gaps_for F gap_frame topic)
        ++ gap_candidates topics

    -- `term_topics[:n]`
    unfoldable pub needed : Option (PlanTopic F) → List (PlanTopic F)
    needed none = []
    needed (some topic) = if unmastered topic then topic ∷ [] else []

    unfoldable pub current_needed : Option ℕ → List (PlanTopic F)
    unfolding term_topics needed
    current_needed none = []
    current_needed (some index) = needed (get_elem? term_topics index)

    abbrev or_zero : Option ℕ → ℕ
    or_zero none = 0
    or_zero (some index) = index

    unfoldable pub catch_up : Option ℕ → List (PlanTopic F)
    unfolding term_topics
    catch_up index = keep unmastered (take (or_zero index) term_topics)

    -- The candidates of the class's place, in the order in which they are added.
    unfoldable pub class_candidates : Option ℕ → List (TopicCandidate F)
    unfolding gap_candidates current_needed catch_up preview_of term_topics
    class_candidates index =
        gap_candidates (current_needed index ++ catch_up index)
        ++ (map (plain current) (current_needed index)
            ++ (map (plain catch_up_reason) (catch_up index)
                ++ map (plain preview) (keep unmastered (preview_of F term_topics index))))

    unfoldable pub candidates_of : List (TopicCandidate F)
    unfolding carried class_candidates add_all position
    candidates_of =
        let first_ones = add_all (carried input.carry_over) [] in
        if input.carry_over_only then first_ones else add_all (class_candidates position) first_ones

    unfoldable pub behind : Option ℕ → Option ℕ → ℕ
    behind (some index) (some unmastered_index) = index - unmastered_index
    behind _ _ = 0

    unfoldable pub select_term_topics : SubjectSelection F
    unfolding term_topics position candidates_of behind index_of
    select_term_topics = record {
      subject_id = input.subject_id;
      term_topics = term_topics;
      class_index = position;
      behind_by = behind position (index_of F unmastered term_topics);
      candidates = candidates_of;
    }

  -- Heavier topics first, then the less known, in the order of the syllabus.
  unfoldable pub exam_le : TopicStateMap F → PlanTopic F → PlanTopic F → Bool
  unfolding mastery_of
  exam_le state a b =
      let weight_a = add a.waec_weight a.jamb_weight in
      let weight_b = add b.waec_weight b.jamb_weight in
      le weight_b weight_a
      && (not (le weight_a weight_b)
          || then_by (mastery_of F state a.id) (mastery_of F state b.id)
              (then_by a.order_index b.order_index (text_leb a.id b.id)))

  unfoldable pub is_exam_topic : ClassLevel → TopicStateMap F → PlanTopic F → Bool
  unfolding at_or_below_class is_mastered_of
  is_exam_topic class_level state topic =
      at_or_below_class topic.class_level class_level && not (is_mastered_of F state topic.id)

  unfoldable pub select_exam_topics :
      List (PlanTopic F) → ClassLevel → TopicStateMap F → List (TopicCandidate F)
  unfolding exam_le is_exam_topic
  select_exam_topics topics class_level state =
      map (plain exam_reason)
        (sort_by (exam_le state) (keep (is_exam_topic class_level state) topics))

  -- The topic that the calendar puts a class on.
  unfoldable pub calendar_topic_id :
      List (PlanTopic F) → ClassLevel → Term → Bool → TermContext → Option String
  unfolding scope locate
  calendar_topic_id topics class_level term follow_calendar ctx =
      let found = scope F topics class_level term in
      id_at found (locate F found term ctx none follow_calendar)
    where
      id_of : Option (PlanTopic F) → Option String
      id_of none = none
      id_of (some topic) = some topic.id

      id_at : List (PlanTopic F) → Option ℕ → Option String
      id_at found none = none
      id_at found (some index) = id_of (get_elem? found index)
