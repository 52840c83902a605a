-- ===== src/Learning/Session/Candidates.antt =====
-- app/services/learning/session.py: the topics that a pick of the session may choose, and which of
-- them comes first.
use scholarscrib_backend.Floats.{Floats, lt, fmax}
use scholarscrib_backend.Learning.Graph.{GraphNode}
use scholarscrib_backend.Learning.Mastery.Reading.{
  Source, TopicState, estimate, no_evidence, thin, enough, target, below, is_mastered,
  evidence_level, topic_retention,
}
use scholarscrib_backend.Learning.Session.Entries.{TodayItem, exam_weight, retrieval_priority}
use scholarscrib_backend.Prelude.{
  ℕ, max, String, Bool, true, false, ◌&&◌, ◌||◌, not, Option, none, some, List, [], ◌∷◌, str_eq,
  ltb, if◌then◌else◌, any, is_in, then_by, text_leb,
}
use scholarscrib_backend.Prelude.Dict

module _ (F : Floats) where
  open F use {Float, decimal, add, sub, mul, div, le, of_nat, Time}

  pub record SessionInputs : Type 0 where
    pub topics : List (GraphNode F)
    pub states : List (String × TopicState F)
    pub leverage : List (String × Float)
    pub dependents : List (String × ℕ)
    pub due_cards : List (String × ℕ)
    pub card_retention : List (String × (Float × ℕ))
    pub cadence_due : List String
    pub plan_items : List TodayItem
    pub continue_lesson : Option (String × String)
    pub recent : List (String × List Bool)
    pub now : Time
    pub budget : ℕ

  -- A topic that a pick may choose, with what it computes for it.
  pub record Candidate : Type 0 where
    pub topic : GraphNode F
    pub state : TopicState F
    -- priority or value
    pub weight : Float
    pub cards : ℕ
    pub effort : Option Time
    pub value : Option Float
    pub source : Source
    pub faded : Bool
    pub new_subject : ℕ

  -- The loop with `best`: a candidate takes its place when its key is strictly less.
  abbrev pub best_by :
      (Candidate → Candidate → Bool) → Option Candidate → List (Option Candidate) → Option Candidate
  best_by less best [] = best
  best_by less best (none ∷ found) = best_by less best found
  best_by less none (some c ∷ found) = best_by less (some c) found
  best_by less (some best) (some c ∷ found) =
      best_by less (some (if less c best then c else best)) found

  abbrev pub max_of : List (String × ℕ) → ℕ
  max_of [] = 0
  max_of (e ∷ d) = max e.1 (max_of d)

  -- 0.0 if value is None else max(0.0, DECAY_RETENTION - value)
  unfoldable pub decay_of : Option Float → Float
  decay_of none = decimal 0 1
  decay_of (some value) = fmax F (decimal 0 1) (sub (decimal 85 2) value)

  abbrev pub plain : GraphNode F → TopicState F → Float → ℕ → Candidate
  plain topic state weight new_subject = record {
    topic = topic;
    state = state;
    weight = weight;
    cards = 0;
    effort = state.last_effort_at;
    value = none;
    source = estimate;
    faded = false;
    new_subject = new_subject;
  }

  abbrev pub is_studied : Option (TopicState F) → Bool
  is_studied none = false
  is_studied (some state) = ltb 0 state.observations

  -- key < best[0], for (-priority, -cards, order_index)
  unfoldable pub retrieves_before : Candidate → Candidate → Bool
  retrieves_before c best =
      if lt F best.weight c.weight
      then true
      else if lt F c.weight best.weight
      then false
      else if ltb best.cards c.cards
      then true
      else if ltb c.cards best.cards
      then false
      else ltb c.topic.order_index best.topic.order_index

  -- key < best[0], for (-value, order_index)
  unfoldable pub practises_before : Candidate → Candidate → Bool
  practises_before c best =
      if lt F best.weight c.weight
      then true
      else if lt F c.weight best.weight
      then false
      else ltb c.topic.order_index best.topic.order_index

  -- The order of the sort, by subject, order and title.
  unfoldable pub learns_before : Candidate → Candidate → Bool
  learns_before c best = not (
      then_by best.new_subject c.new_subject (
        then_by best.topic.order_index c.topic.order_index
          (text_leb best.topic.title c.topic.title)))

  module _ (inputs : SessionInputs) where
    -- What the loop of `_pick_retrieval` makes of a topic that has a state and a last effort.
    unfoldable pub due_for : GraphNode F → TopicState F → Option Float × Source → Option Candidate
    unfolding decay_of below retrieval_priority exam_weight
    due_for topic state (value, source) =
        let faded = below F value (decimal 85 2) in
        let cards = Dict.get_or str_eq inputs.due_cards topic.id 0 in
        if faded || (ltb 0 cards || is_in topic.id inputs.cadence_due)
        then some (record {
          topic = topic;
          state = state;
          weight =
              retrieval_priority F (decay_of value) (exam_weight F topic)
                (Dict.get_or str_eq inputs.dependents topic.id 0) (max_of inputs.dependents);
          cards = cards;
          effort = state.last_effort_at;
          value = value;
          source = source;
          faded = faded;
          new_subject = 0;
        })
        else none

    unfoldable pub studied : GraphNode F → Option (TopicState F) → Option Candidate
    unfolding due_for topic_retention
    studied topic none = none
    studied topic (some state) =
        let retention = topic_retention F state (Dict.get str_eq inputs.card_retention topic.id) in
        elim (state.last_effort_at) [ none ↦ none | some effort ↦ due_for topic state retention ]

    -- What the loop of `_pick_practice` makes of a topic.
    unfoldable pub practice_value : GraphNode F → TopicState F → Float
    unfolding exam_weight
    practice_value topic state =
        let urgency = div (sub (of_nat target) (of_nat state.mastery)) (of_nat target) in
        let value =
          mul
            (mul urgency
              (add (of_nat 1) (Dict.get_or str_eq inputs.leverage topic.id (decimal 0 1))))
            (fmax F (exam_weight F topic) (decimal 10 1)) in
        if le (decimal 35 2) state.confidence && ltb state.mastery 50
        then mul value (decimal 15 1)
        else value

    unfoldable pub practised : GraphNode F → Option (TopicState F) → Option Candidate
    unfolding practice_value is_mastered evidence_level
    practised topic none = none
    practised topic (some state) =
        if not state.available || is_mastered F state then none else elim (evidence_level F state) [
          | no_evidence ↦ none
          | thin ↦ some (plain topic state (practice_value topic state) 0)
          | enough ↦ some (plain topic state (practice_value topic state) 0)
        ]

    -- `studied_subjects`
    unfoldable pub in_studied : String → Bool
    in_studied subject_id =
        any
          (λ topic.
            str_eq topic.subject_id subject_id
            && is_studied (Dict.get str_eq inputs.states topic.id))
          inputs.topics

    -- What the loop of `_pick_new` makes of a topic.
    unfoldable pub learnable : GraphNode F → Option (TopicState F) → Option Candidate
    unfolding in_studied evidence_level
    learnable topic none = none
    learnable topic (some state) =
        if not state.available then none else elim (evidence_level F state) [
          | no_evidence ↦
              some (plain topic state (of_nat 0) (if in_studied topic.subject_id then 0 else 1))
          | thin ↦ none
          | enough ↦ none
        ]

    -- The loop over the topics, which passes over those that are used.
    unfoldable pub candidates :
        List String
        → (GraphNode F → Option (TopicState F) → Option Candidate)
        → List (GraphNode F)
        → List (Option Candidate)
    candidates used choose [] = []
    candidates used choose (topic ∷ topics) =
        (if is_in topic.id used
          then none
          else choose topic (Dict.get str_eq inputs.states topic.id))
        ∷ candidates used choose topics
