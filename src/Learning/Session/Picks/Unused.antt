-- ===== src/Learning/Session/Picks/Unused.antt =====
-- app/services/learning/session.py: what every pick offers: an entry of the engine for a topic that
-- is not used, of at most the minutes that are left.
use scholarscrib_backend.Floats.{Floats}
use scholarscrib_backend.Learning.Graph.{GraphNode}
use scholarscrib_backend.Learning.Mastery.Reading.{Source, TopicState, topic_retention}
use scholarscrib_backend.Learning.Session.Candidates.{
  SessionInputs, Candidate, best_by, candidates, due_for, studied, practised, learnable,
  retrieves_before, practises_before, learns_before,
}
use scholarscrib_backend.Learning.Session.Entries.{
  Entry, engine_entry, blank_entry, with_topic, with_state,
}
use scholarscrib_backend.Learning.Session.Picks.{
  retrieve_item, practice_item, learn_minutes, learn_item, continue_item, continued, or_else_entry,
  pick_retrieval, pick_practice, pick_new,
}
use scholarscrib_backend.Prelude.{
  ℕ, ◌≤◌, String, ◌≡◌, refl, inl, inr, Bool, false, Option, none, some, List, [], ◌∷◌, arith,
  str_eq, ltb, Bool-cases, Option-cases, is_in, All,
}
use scholarscrib_backend.Prelude.Dict

module _ (F : Floats) where
  -- An entry that a pick may give.
  abbrev pub Offer : List String → ℕ → Option (Entry F) → Type 0
  Offer used remaining none = Unit {0}
  Offer used remaining (some entry) =
      (entry.item.minutes ≤ remaining)
      × ((entry.item.from_plan ≡ false)
          × ((id : String) × ((entry.item.topic_id ≡ some id) × (is_in id used ≡ false))))

  Unused : List String → Option (Candidate F) → Type 0
  Unused used none = Unit {0}
  Unused used (some c) = is_in c.topic.id used ≡ false

  About : GraphNode F → Option (Candidate F) → Type 0
  About topic none = Unit {0}
  About topic (some c) = c.topic ≡ topic

  best_by-Unused :
      (used : List String) (less : Candidate F → Candidate F → Bool) (best : Option (Candidate F))
      (found : List (Option (Candidate F)))
      → Unused used best
      → All (Unused used) found
      → Unused used (best_by F less best found)
  unfolding Unused
  best_by-Unused used less best [] h k = h
  best_by-Unused used less best (none ∷ found) h k = best_by-Unused used less best found h k.1
  best_by-Unused used less none (some c ∷ found) h k =
      best_by-Unused used less (some c) found k.0 k.1
  best_by-Unused used less (some best) (some c ∷ found) h k = elim (Bool-cases (less c best)) [
    | inl e ↦ rw e (best_by-Unused used less (some c) found k.0 k.1)
    | inr e ↦ rw e (best_by-Unused used less (some best) found h k.1)
  ]

  Unused-About :
      (used : List String) (topic : GraphNode F) (o : Option (Candidate F))
      → is_in topic.id used ≡ false
      → About topic o
      → Unused used o
  unfolding Unused About
  Unused-About used topic none h k = tt
  Unused-About used topic (some c) h k = rw k h

  module _ (inputs : SessionInputs F) where
    candidates-Unused :
        (used : List String) (choose : GraphNode F → Option (TopicState F) → Option (Candidate F))
        (topics : List (GraphNode F))
        → ((topic : GraphNode F) (o : Option (TopicState F)) → About topic (choose topic o))
        → All (Unused used) (candidates F inputs used choose topics)
    unfolding candidates Unused
    candidates-Unused used choose [] h = tt
    candidates-Unused used choose (topic ∷ topics) h =
        let rest = candidates-Unused used choose topics h in
        elim (Bool-cases (is_in topic.id used)) [
          | inl e ↦ rw e (tt, rest)
          | inr e ↦ rw e (
            Unused-About used topic (choose topic (Dict.get str_eq inputs.states topic.id)) e
                (h topic (Dict.get str_eq inputs.states topic.id)),
            rest,
          )
        ]

    due_for-About :
        (topic : GraphNode F) (state : TopicState F) (r : Option F.Float × Source)
        → About topic (due_for F inputs topic state r)
    unfolding due_for About
    due_for-About topic state (value, source) = ground arith

    studied-About :
        (topic : GraphNode F) (o : Option (TopicState F)) → About topic (studied F inputs topic o)
    unfolding studied About
    studied-About topic none = tt
    studied-About topic (some state) = elim (Option-cases state.last_effort_at) [
      | inl e ↦ rw e tt
      | inr (effort, e) ↦ rw e (
          due_for-About topic state
            (topic_retention F state (Dict.get str_eq inputs.card_retention topic.id)))
    ]

    practised-About :
        (topic : GraphNode F) (o : Option (TopicState F)) → About topic (practised F inputs topic o)
    unfolding practised About
    practised-About topic none = tt
    practised-About topic (some state) = ground arith

    learnable-About :
        (topic : GraphNode F) (o : Option (TopicState F)) → About topic (learnable F inputs topic o)
    unfolding learnable About
    learnable-About topic none = tt
    learnable-About topic (some state) = ground arith

    retrieve_item-Offer :
        (used : List String) (remaining : ℕ) (o : Option (Candidate F))
        → Unused used o
        → Offer used remaining (retrieve_item F inputs used remaining o)
    unfolding retrieve_item Unused engine_entry blank_entry with_topic with_state
    retrieve_item-Offer used remaining none h = tt
    retrieve_item-Offer used remaining (some c) h = elim (Option-cases c.effort) [
      | inl e ↦ rw e tt
      | inr (effort, e) ↦ rw e ((omega arith), (refl, (c.topic.id, (refl, h))))
    ]

    practice_item-Offer :
        (used : List String) (remaining : ℕ) (o : Option (Candidate F))
        → 8 ≤ remaining
        → Unused used o
        → Offer used remaining (practice_item F inputs used o)
    unfolding practice_item Unused engine_entry blank_entry with_topic with_state
    practice_item-Offer used remaining none l h = tt
    practice_item-Offer used remaining (some c) l h = (l, (refl, (c.topic.id, (refl, h))))

    learn_item-Offer :
        (used : List String) (remaining : ℕ) (o : Option (Candidate F))
        → Unused used o
        → Offer used remaining (learn_item F inputs used remaining o)
    unfolding learn_item learn_minutes Unused engine_entry blank_entry with_topic with_state
    learn_item-Offer used remaining none h = tt
    learn_item-Offer used remaining (some c) h = ((omega arith), (refl, (c.topic.id, (refl, h))))

    continue_item-Offer :
        (used : List String) (remaining : ℕ) (lesson_id : String) (o : Option (GraphNode F))
        (s : Option (TopicState F))
        → Offer used remaining (continue_item F inputs used remaining lesson_id o s)
    unfolding continue_item learn_minutes engine_entry blank_entry with_topic with_state
    continue_item-Offer used remaining lesson_id none s = tt
    continue_item-Offer used remaining lesson_id (some topic) none = tt
    continue_item-Offer used remaining lesson_id (some topic) (some state) =
        elim (Bool-cases (is_in topic.id used)) [
          | inl e ↦ rw e tt
          | inr e ↦ rw e ((omega arith), (refl, (topic.id, (refl, e))))
        ]

    continued-Offer :
        (used : List String) (remaining : ℕ) (lesson : Option (String × String))
        → Offer used remaining (continued F inputs used remaining lesson)
    unfolding continued
    continued-Offer used remaining none = tt
    continued-Offer used remaining (some (topic_id, lesson_id)) =
        continue_item-Offer used remaining lesson_id _ _

    or_else-Offer :
        (used : List String) (remaining : ℕ) (a b : Option (Entry F))
        → Offer used remaining a
        → Offer used remaining b
        → Offer used remaining (or_else_entry F inputs used a b)
    or_else-Offer used remaining none b h k = k
    or_else-Offer used remaining (some entry) b h k = h

    best-Unused :
        (used : List String) (less : Candidate F → Candidate F → Bool)
        (choose : GraphNode F → Option (TopicState F) → Option (Candidate F))
        → ((topic : GraphNode F) (o : Option (TopicState F)) → About topic (choose topic o))
        → Unused used (best_by F less none (candidates F inputs used choose inputs.topics))
    unfolding Unused
    best-Unused used less choose h =
        best_by-Unused used less none _ tt (candidates-Unused used choose inputs.topics h)

    pub pick_retrieval-Offer :
        (used : List String) (remaining : ℕ)
        → Offer used remaining (pick_retrieval F inputs used remaining)
    unfolding pick_retrieval
    pick_retrieval-Offer used remaining = elim (Bool-cases (ltb remaining 3)) [
      | inl e ↦ rw e tt
      | inr e ↦ rw e (
          retrieve_item-Offer used remaining _
            (best-Unused used (retrieves_before F) (studied F inputs) studied-About))
    ]

    pub pick_practice-Offer :
        (used : List String) (remaining : ℕ)
        → Offer used remaining (pick_practice F inputs used remaining)
    unfolding pick_practice
    pick_practice-Offer used remaining = elim (Bool-cases (ltb remaining 8)) [
      | inl e ↦ rw e tt
      | inr e ↦ rw e (
          practice_item-Offer used remaining _ (ground arith)
            (best-Unused used (practises_before F) (practised F inputs) practised-About))
    ]

    pub pick_new-Offer :
        (used : List String) (remaining : ℕ)
        → Offer used remaining (pick_new F inputs used remaining)
    unfolding pick_new
    pick_new-Offer used remaining = elim (Bool-cases (ltb remaining 5)) [
      | inl e ↦ rw e tt
      | inr e ↦ rw e (
          or_else-Offer used remaining _ _ (continued-Offer used remaining inputs.continue_lesson) (
            learn_item-Offer used remaining _
              (best-Unused used (learns_before F) (learnable F inputs) learnable-About)))
    ]
