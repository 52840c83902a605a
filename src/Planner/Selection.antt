-- ===== src/Planner/Selection.antt =====
-- app/services/planner/topics.py: which topics of a subject a plan teaches next. Classes and terms
-- are compared by their positions.
pub mod Candidates
pub mod Visits
pub mod Known
pub mod Places
pub mod Exam
use scholarscrib_backend.Floats.{Floats}
use scholarscrib_backend.Learning.Graph.{GraphEdge, KnowledgeGraph, incoming_edges}
use scholarscrib_backend.Planner.PlanMode.{ClassLevel, Term, class_index, term_index, scope_ordinal}
use scholarscrib_backend.Planner.TermContext.{TermRange, InTerm, TermContext, in_term, holiday}
use scholarscrib_backend.Planner.Topics.{PlanTopic, TopicStateMap, mastery_of}
use scholarscrib_backend.Prelude.{
  ℕ, zero, suc, ◌+◌, ◌-◌, min, String, Bool, true, false, ◌&&◌, ◌||◌, not, Option, none, some, List,
  [], ◌∷◌, ◌++◌, str_eq, ltb, leb, ◌==◌, if◌then◌else◌, then_by, length, get_elem?, keep, text_leb,
  is_in, sort_by, to_nat,
}
use scholarscrib_backend.Prelude.Dict

module _ (F : Floats) where
  open F use {Float, le, add, mul, div, floor, of_nat}

  by_order_le : PlanTopic F → PlanTopic F → Bool
  by_order_le a b = then_by a.order_index b.order_index (text_leb a.id b.id)

  in_scope : ClassLevel → Term → PlanTopic F → Bool
  unfolding class_index term_index
  in_scope class_level term topic =
      class_index topic.class_level == class_index class_level
      && (term_index topic.term == term_index term)

  unfoldable pub scope : List (PlanTopic F) → ClassLevel → Term → List (PlanTopic F)
  unfolding by_order_le in_scope
  scope topics class_level term = sort_by by_order_le (keep (in_scope class_level term) topics)

  unfoldable pub before_scope : PlanTopic F → ClassLevel → Term → Bool
  unfolding scope_ordinal
  before_scope topic class_level term =
      ltb (scope_ordinal topic.class_level topic.term) (scope_ordinal class_level term)

  unfoldable pub or_next : Bool → Option ℕ → Option ℕ
  or_next true later = some 0
  or_next false none = none
  or_next false (some i) = some (i + 1)

  -- next((i for i, topic in enumerate(topics) if test(topic)), -1)
  unfoldable pub index_of : (PlanTopic F → Bool) → List (PlanTopic F) → Option ℕ
  unfolding or_next
  index_of test [] = none
  index_of test (topic ∷ topics) = or_next (test topic) (index_of test topics)

  abbrev pub is_at : Option String → PlanTopic F → Bool
  is_at none topic = false
  is_at (some id) topic = str_eq topic.id id

  -- The end of the scope when the holiday follows its term, else its start.
  unfoldable pub holiday_index : Option TermRange → Term → ℕ → ℕ
  unfolding term_index
  holiday_index none term count = 0
  holiday_index (some previous) term count =
      if term_index previous.term == term_index term then count - 1 else 0

  -- int(((week - 1) / weeks) * count), at most the last index, when the scope is of this term.
  unfoldable pub term_time_index : InTerm → Term → ℕ → ℕ
  unfolding term_index
  term_time_index ctx term count =
      if term_index ctx.current.term == term_index term
      then min (count - 1) (
          to_nat (
            floor
              (mul (div (of_nat (ctx.week_of_term - 1)) (of_nat ctx.total_weeks)) (of_nat count))))
      else 0

  unfoldable pub calendar_index : TermContext → Term → ℕ → ℕ
  unfolding holiday_index term_time_index
  calendar_index (in_term ctx) term count = term_time_index ctx term count
  calendar_index (holiday ctx) term count = holiday_index ctx.previous term count

  -- Where the class is: its index, none in a scope without topics.
  unfoldable pub locate : List (PlanTopic F) → Term → TermContext → Option String → Bool → Option ℕ
  unfolding index_of calendar_index
  locate [] term ctx position follow_calendar = none
  locate (topic ∷ topics) term ctx position follow_calendar =
      some (elim (index_of (is_at position) (topic ∷ topics)) [
        | some index ↦ index
        | none ↦ if follow_calendar then calendar_index ctx term (length (topic ∷ topics)) else 0
      ])

  -- The topic after an index: `term_topics[index + 1 : index + 2]`.
  abbrev pub as_list {ℓ} : {A : Type ℓ} → Option A → List A
  as_list none = []
  as_list (some x) = x ∷ []

  unfoldable pub preview_of : List (PlanTopic F) → Option ℕ → List (PlanTopic F)
  preview_of topics none = []
  preview_of topics (some index) = as_list (get_elem? topics (index + 1))

  -- `{topic.id: topic for topic in topics}`
  unfoldable pub topics_by_id :
      List (String × PlanTopic F) → List (PlanTopic F) → List (String × PlanTopic F)
  topics_by_id found [] = found
  topics_by_id found (topic ∷ topics) = topics_by_id (Dict.put str_eq found topic.id topic) topics

  -- What `_gaps_for` reads and what its inner `visit` changes.
  pub record GapFrame : Type 0 where
    pub graph : KnowledgeGraph F
    pub state : TopicStateMap F
    pub pretest_passed : List String
    pub by_id : List (String × PlanTopic F)
    pub term_ids : List String

  pub record Visit : Type 0 where
    pub visited : List String
    pub out : List (PlanTopic F)

  module _ (frame : GapFrame) where
    -- A prerequisite that needs no foundation work: of this term, known well enough or passed.
    unfoldable pub is_settled : PlanTopic F → Bool
    unfolding mastery_of
    is_settled prereq =
        is_in prereq.id frame.term_ids
        || (leb 60 (mastery_of F frame.state prereq.id) || is_in prereq.id frame.pretest_passed)

    unfoldable pub enter : (String → Visit → Visit) → Option (PlanTopic F) → Visit → Visit
    unfolding is_settled
    enter go none s = s
    enter go (some prereq) s = elim (is_settled prereq) [
      | true ↦ s
      | false ↦ let deeper = go prereq.id s in record deeper { out = deeper.out ++ prereq ∷ [] }
    ]

    unfoldable pub visit_edge : (String → Visit → Visit) → GraphEdge F → Visit → Visit
    unfolding enter
    visit_edge go edge s =
        elim (not (str_eq edge.kind "PREREQUISITE") || is_in edge.source s.visited) [
          | true ↦ s
          | false ↦
              enter go (Dict.get str_eq frame.by_id edge.source)
                (record s { visited = edge.source ∷ s.visited })
        ]

    unfoldable pub visit_edges : (String → Visit → Visit) → List (GraphEdge F) → Visit → Visit
    unfolding visit_edge
    visit_edges go [] s = s
    visit_edges go (edge ∷ edges) s = visit_edges go edges (visit_edge go edge s)

    -- The recursion is on fuel.
    unfoldable pub visit : ℕ → String → Visit → Visit
    unfolding visit_edges incoming_edges
    visit zero topic_id s = s
    visit (suc fuel) topic_id s = visit_edges (visit fuel) (incoming_edges F frame.graph topic_id) s

    -- One unit of fuel more than the topics that can be entered.
    unfoldable pub gaps_for : PlanTopic F → List (PlanTopic F)
    unfolding visit
    gaps_for target =
        (visit (length frame.by_id + 1) target.id (record { visited = []; out = [] })).out
