-- ===== src/Learning/Session/Entries.antt =====
-- app/services/learning/session.py: the entries of today's session, with all keys of an item, and
-- the texts of their reasons. `lastStudy` is the instant whose text the code writes.
use scholarscrib_backend.Floats.{Floats, lt, fmax}
use scholarscrib_backend.Learning.Graph.{GraphNode}
use scholarscrib_backend.Learning.Mastery.Reading.{
  Trust, Source, TopicState, no_evidence, from_cards, estimate, evidence_level,
}
use scholarscrib_backend.Learning.Session.{
  PlanItem, Item, ItemKind, is_set, learn, practice, retrieve, mock, past,
}
use scholarscrib_backend.Prelude.{
  ℕ, max, String, Bool, true, false, Option, none, some, List, [], ◌∷◌, ◌++◌, str_eq, ltb, leb,
  ◌==◌, if◌then◌else◌, length, keep, to_nat, to_text, ◌<>◌,
}
use scholarscrib_backend.Prelude.Dict

-- A plan item of today with its duration and its status.
pub record TodayItem : Type 0 where
  pub plan : PlanItem
  pub duration_minutes : ℕ
  pub status : String

unfoldable pub plan_kind : String → ItemKind
plan_kind activity =
    if str_eq activity "LESSON"
    then learn
    else if str_eq activity "PRACTICE"
    then practice
    else if str_eq activity "REVISION"
    then retrieve
    else if str_eq activity "MOCK_EXAM"
    then mock
    else if str_eq activity "PAST_QUESTIONS"
    then past
    else practice

-- activity.replace("_", " ").title(), for the five activities that there are
unfoldable pub titled : String → String
titled activity =
    if str_eq activity "MOCK_EXAM"
    then "Mock Exam"
    else if str_eq activity "PAST_QUESTIONS"
    then "Past Questions"
    else if str_eq activity "LESSON"
    then "Lesson"
    else if str_eq activity "PRACTICE"
    then "Practice"
    else if str_eq activity "REVISION"
    then "Revision"
    else activity

-- The title of a plan item without a topic.
unfoldable pub plan_label : String → String
unfolding titled
plan_label activity =
    if str_eq activity "MOCK_EXAM"
    then "Mock exam"
    else if str_eq activity "PAST_QUESTIONS"
    then "Past questions"
    else titled activity

unfoldable pub plural : ℕ → String → String
plural count word = to_text count <> " " <> word <> (if count == 1 then "" else "s")

abbrev pub join_with : String → List String → String
join_with sep [] = ""
join_with sep (s ∷ []) = s
join_with sep (s ∷ t ∷ rest) = s <> sep <> join_with sep (t ∷ rest)

-- A value of a dictionary, or None for a key that is None.
abbrev pub get_some {ℓ} : {A : Type ℓ} → List (String × A) → Option String → Option A
get_some d none = none
get_some d (some key) = Dict.get str_eq d key

module _ (F : Floats) where
  open F use {Float, decimal, add, mul, div, round, of_nat, Time}

  pub record Entry : Type 0 where
    pub item : Item
    pub title : String
    pub slug : Option String
    pub reason : String
    pub lesson_id : Option String
    pub mastery : Option ℕ
    pub retention : Option Float
    pub retention_source : Option Source
    pub trust : Trust
    pub confidence : Float
    pub acc_observations : ℕ
    pub lesson_observations : ℕ
    pub srs_observations : ℕ
    pub last_study : Option Time

  unfoldable pub exam_weight : GraphNode F → Float
  exam_weight topic = add topic.waec_weight topic.jamb_weight

  unfoldable pub retrieval_priority : Float → Float → ℕ → ℕ → Float
  retrieval_priority decay weight blocked max_blocked =
      mul (mul (fmax F decay (decimal 5 2)) (fmax F weight (decimal 10 1))) (
        add (of_nat 1)
          (if max_blocked == 0 then of_nat 0 else div (of_nat blocked) (of_nat max_blocked)))

  -- "{count} {word}{'' if count == 1 else 's'} ago"
  unfoldable pub ago : Float → String
  unfolding plural
  ago days =
      if lt F days (of_nat 1)
      then "today"
      else if lt F days (of_nat 7)
      then plural (max 1 (to_nat (round days))) "day" <> " ago"
      else if lt F days (of_nat 45)
      then plural (to_nat (round (div days (of_nat 7)))) "week" <> " ago"
      else plural (max 1 (to_nat (round (div days (of_nat 30))))) "month" <> " ago"

  -- The `_evidence` of an item with no state, and the keys that every item starts with.
  unfoldable pub blank_entry : String → ItemKind → Bool → ℕ → String → Entry
  blank_entry item_id kind from_plan minutes reason = record {
    item = record {
      id = item_id;
      from_plan = from_plan;
      kind = kind;
      plan_item_id = "";
      topic_id = none;
      subject_id = none;
      activity_type = none;
      due_cards = 0;
      minutes = minutes;
      done_at = none;
    };
    title = "";
    slug = none;
    reason = reason;
    lesson_id = none;
    mastery = none;
    retention = none;
    retention_source = none;
    trust = no_evidence;
    confidence = decimal 0 1;
    acc_observations = 0;
    lesson_observations = 0;
    srs_observations = 0;
    last_study = none;
  }

  unfoldable pub with_topic : Option (GraphNode F) → Entry → Entry
  with_topic none entry = entry
  with_topic (some topic) entry = record entry {
    item = record entry.item { topic_id = some topic.id; subject_id = some topic.subject_id };
    title = topic.title;
    slug = some topic.slug;
  }

  unfoldable pub with_state : Option (TopicState F) → Entry → Entry
  unfolding evidence_level
  with_state none entry = entry
  with_state (some state) entry = record entry {
    mastery = some state.mastery;
    trust = evidence_level F state;
    confidence = state.confidence;
    acc_observations = state.acc_observations;
    lesson_observations = state.lesson_observations;
    srs_observations = state.srs_observations;
    last_study = state.last_effort_at;
  }

  -- `_item` of the engine
  unfoldable pub engine_entry : String → ItemKind → GraphNode F → TopicState F → ℕ → String → Entry
  unfolding blank_entry with_topic with_state
  engine_entry item_id kind topic state minutes reason =
      with_state (some state)
        (with_topic (some topic) (blank_entry item_id kind false minutes reason))

  -- {topic.id: topic for topic in topics}.get(id): the last of that id
  abbrev pub topic_at : List (GraphNode F) → Option String → Option (GraphNode F)
  topic_at [] id = none
  topic_at (topic ∷ topics) none = none
  topic_at (topic ∷ topics) (some id) = elim (topic_at topics (some id)) [
    | some later ↦ some later
    | none ↦ if str_eq topic.id id then some topic else none
  ]

  abbrev pub id_of : Option (GraphNode F) → Option String
  id_of none = none
  id_of (some topic) = some topic.id

  unfoldable pub plan_title : Option (GraphNode F) → String → String
  unfolding titled plan_label
  plan_title none activity = plan_label activity
  plan_title (some topic) activity = if str_eq topic.title "" then titled activity else topic.title

  unfoldable pub plan_topic : List (GraphNode F) → PlanItem → Option (GraphNode F)
  unfolding is_set
  plan_topic topics plan = if is_set plan.topic_id then topic_at topics plan.topic_id else none

  -- `_plan_entry`
  unfoldable pub plan_entry : List (GraphNode F) → List (String × TopicState F) → TodayItem → Entry
  unfolding plan_kind plan_title plan_topic blank_entry with_topic with_state
  plan_entry topics states today =
      let topic = plan_topic topics today.plan in
      let entry = with_state (get_some states (id_of topic)) (
        with_topic topic (
          blank_entry ("plan:" <> today.plan.id) (plan_kind today.plan.activity_type) true
            today.duration_minutes "From your study plan")) in
      record entry {
        item = record entry.item {
          subject_id = today.plan.subject_id;
          plan_item_id = today.plan.id;
          activity_type = some today.plan.activity_type;
        };
        title = plan_title topic today.plan.activity_type;
      }

  -- "Retention about 62% — last studied 3 days ago", and the other reasons to retrieve
  unfoldable pub retrieval_reason : Bool → Source → Option Float → ℕ → Float → String
  unfolding ago plural
  retrieval_reason true from_cards (some value) cards days =
      "Retention about "
      <> to_text (to_nat (round (mul value (of_nat 100))))
      <> "% — last studied "
      <> ago days
  retrieval_reason true from_cards none cards days = "Probably fading — last studied " <> ago days
  retrieval_reason true estimate value cards days = "Probably fading — last studied " <> ago days
  retrieval_reason false source value cards days =
      if ltb 0 cards then plural cards "flashcard" <> " due" else "Scheduled revision is due"

  unfoldable pub practice_parts : List Bool → ℕ → List String
  unfolding plural
  practice_parts recent acc_observations =
      if leb 3 (length recent)
      then (to_text (length (keep (λ right. right) recent))
          <> " of your last "
          <> to_text (length recent)
          <> " answers here were right")
        ∷ []
      else if ltb 0 acc_observations
      then (plural acc_observations "question" <> " answered so far") ∷ []
      else "Started — needs more practice" ∷ []

  unfoldable pub unlock_parts : ℕ → List String
  unfolding plural
  unlock_parts unlocks = if leb 1 unlocks then ("unlocks " <> plural unlocks "topic") ∷ [] else []

  unfoldable pub weight_parts : ℕ → List String
  weight_parts weight = if ltb 0 weight then ("~" <> to_text weight <> " exam weight") ∷ [] else []

  -- `_practice_reason`
  unfoldable pub practice_reason : List Bool → ℕ → GraphNode F → TopicState F → String
  unfolding practice_parts unlock_parts weight_parts exam_weight
  practice_reason recent unlocks topic state = join_with " · " (
      practice_parts recent state.acc_observations
      ++ unlock_parts unlocks
      ++ weight_parts (to_nat (round (exam_weight topic))))
