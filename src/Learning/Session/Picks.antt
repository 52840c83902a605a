-- ===== src/Learning/Session/Picks.antt =====
-- app/services/learning/session.py: _pick_retrieval, _pick_practice and _pick_new.
use scholarscrib_backend.Floats.{Floats, lt, fmax}
pub mod Unused
use scholarscrib_backend.Learning.Graph.{GraphNode}
use scholarscrib_backend.Learning.Mastery.Reading.{
  Source, Trust, TopicState, estimate, no_evidence, thin, enough, target, below, is_mastered,
  evidence_level, topic_retention,
}
use scholarscrib_backend.Learning.Session.{is_set, retrieve, practice, learn, continue}
use scholarscrib_backend.Learning.Session.Candidates.{
  SessionInputs, Candidate, best_by, candidates, studied, practised, learnable, retrieves_before,
  practises_before, learns_before,
}
use scholarscrib_backend.Learning.Session.Entries.{
  Entry, engine_entry, topic_at, retrieval_reason, practice_reason,
}
use scholarscrib_backend.Prelude.{
  ℕ, ◌+◌, ◌-◌, min, max, String, Bool, true, false, ◌&&◌, ◌||◌, not, Option, none, some, List, [],
  ◌∷◌, ◌++◌, str_eq, ltb, leb, ◌==◌, if◌then◌else◌, length, any, to_nat, to_text, is_in, then_by,
  text_leb, ◌<>◌,
}
use scholarscrib_backend.Prelude.Dict

module _ (F : Floats) where
  open F use {Float, decimal, add, mul, ceil, of_nat, days_since}

  module _ (inputs : SessionInputs F) (used : List String) where
    unfoldable pub retrieve_minutes : ℕ → ℕ
    retrieve_minutes cards =
        if ltb 0 cards
        then min 8 (to_nat (ceil (add (of_nat 1) (mul (of_nat cards) (decimal 5 1)))))
        else 5

    unfoldable pub retrieve_item : ℕ → Option (Candidate F) → Option (Entry F)
    unfolding retrieve_minutes retrieval_reason engine_entry
    retrieve_item remaining none = none
    retrieve_item remaining (some c) = elim (c.effort) [
      | none ↦ none
      | some effort ↦
          let entry =
            engine_entry F ("retrieve:" <> c.topic.id) retrieve c.topic c.state
              (min (retrieve_minutes c.cards) remaining)
              (retrieval_reason F c.faded c.source c.value c.cards
                (days_since inputs.now effort)) in
          some (record entry {
            item = record entry.item { due_cards = c.cards };
            retention = c.value;
            retention_source = some c.source;
          })
    ]

    -- `_pick_retrieval`
    unfoldable pub pick_retrieval : ℕ → Option (Entry F)
    unfolding studied candidates retrieves_before retrieve_item
    pick_retrieval remaining =
        if ltb remaining 3
        then none
        else retrieve_item remaining (
            best_by F (retrieves_before F) none
              (candidates F inputs used (studied F inputs) inputs.topics))

    unfoldable pub practice_item : Option (Candidate F) → Option (Entry F)
    unfolding practice_reason engine_entry
    practice_item none = none
    practice_item (some c) = some (
        engine_entry F ("practice:" <> c.topic.id) practice c.topic c.state 8 (
          practice_reason F (Dict.get_or str_eq inputs.recent c.topic.id [])
            (Dict.get_or str_eq inputs.dependents c.topic.id 0) c.topic c.state))

    -- `_pick_practice`
    unfoldable pub pick_practice : ℕ → Option (Entry F)
    unfolding practised candidates practises_before practice_item
    pick_practice remaining =
        if ltb remaining 8
        then none
        else practice_item (
            best_by F (practises_before F) none
              (candidates F inputs used (practised F inputs) inputs.topics))

    unfoldable pub learn_minutes : ℕ → GraphNode F → ℕ
    learn_minutes remaining topic =
        min remaining (max 5 (if topic.estimated_minutes == 0 then 10 else topic.estimated_minutes))

    abbrev pub solid_reason : GraphNode F → TopicState F → Trust → String
    solid_reason prereq state enough =
        if leb target state.mastery
        then prereq.title <> " is solid (" <> to_text state.mastery <> "%) — this is the next step"
        else "New topic — you're ready for it"
    solid_reason prereq state no_evidence = "New topic — you're ready for it"
    solid_reason prereq state thin = "New topic — you're ready for it"

    unfoldable pub learn_reason : Option (GraphNode F) → String
    unfolding evidence_level
    learn_reason none = "New topic — you're ready for it"
    learn_reason (some prereq) = elim (Dict.get str_eq inputs.states prereq.id) [
      | none ↦ "New topic — you're ready for it"
      | some state ↦ solid_reason prereq state (evidence_level F state)
    ]

    unfoldable pub prereq_of : GraphNode F → Option (GraphNode F)
    unfolding is_set
    prereq_of topic =
        if is_set topic.prerequisite_topic_id
        then topic_at F inputs.topics topic.prerequisite_topic_id
        else none

    unfoldable pub learn_item : ℕ → Option (Candidate F) → Option (Entry F)
    unfolding learn_reason prereq_of learn_minutes engine_entry
    learn_item remaining none = none
    learn_item remaining (some c) = some (
        engine_entry F ("learn:" <> c.topic.id) learn c.topic c.state
          (learn_minutes remaining c.topic) (learn_reason (prereq_of c.topic)))

    -- The lesson to continue, when its topic has a state and is not used.
    unfoldable pub continue_item :
        ℕ → String → Option (GraphNode F) → Option (TopicState F) → Option (Entry F)
    unfolding learn_minutes engine_entry
    continue_item remaining lesson_id none state = none
    continue_item remaining lesson_id (some topic) none = none
    continue_item remaining lesson_id (some topic) (some state) =
        if is_in topic.id used
        then none
        else some
            (record (engine_entry F ("continue:" <> topic.id) continue topic state
              (learn_minutes remaining topic) "Continue where you left off") {
                lesson_id = some lesson_id;
              })

    unfoldable pub continued : ℕ → Option (String × String) → Option (Entry F)
    unfolding continue_item
    continued remaining none = none
    continued remaining (some (topic_id, lesson_id)) =
        continue_item remaining lesson_id (topic_at F inputs.topics (some topic_id))
          (Dict.get str_eq inputs.states topic_id)

    abbrev pub or_else_entry : Option (Entry F) → Option (Entry F) → Option (Entry F)
    or_else_entry none other = other
    or_else_entry (some entry) other = some entry

    -- `_pick_new`
    unfoldable pub pick_new : ℕ → Option (Entry F)
    unfolding continued learn_item learnable candidates learns_before
    pick_new remaining =
        if ltb remaining 5
        then none
        else or_else_entry (continued remaining inputs.continue_lesson) (
            learn_item remaining (
              best_by F (learns_before F) none
                (candidates F inputs used (learnable F inputs) inputs.topics)))
