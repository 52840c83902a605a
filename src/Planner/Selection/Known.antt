-- ===== src/Planner/Selection/Known.antt =====
-- app/services/planner/topics.py: no topic is a candidate twice, nor one that is mastered.
use mathlib.Core.Logic.{◌≢◌}
use scholarscrib_backend.Floats.{Floats}
use scholarscrib_backend.Learning.Graph.{GraphEdge, incoming_edges}
use scholarscrib_backend.Learning.Mastery.Reading.{target, TopicState, is_mastered}
use scholarscrib_backend.Planner.Selection.{
  preview_of, GapFrame, Visit, is_settled, enter, visit_edge, visit_edges, visit, gaps_for,
}
use scholarscrib_backend.Planner.Selection.Candidates.{
  has_id, add_candidate, add_all, TermInput, unmastered, term_topics, by_id, position,
  carried_topic, carried, gap_frame, gap_candidates, needed, current_needed, catch_up,
  class_candidates, candidates_of, select_term_topics,
}
use scholarscrib_backend.Planner.Topics.{
  CarryOver, PlanTopic, TopicCandidate, TopicStateMap, mastery_in, mastery_of, is_mastered_in,
  is_mastered_of,
}
use scholarscrib_backend.Prelude.{
  ℕ, zero, suc, ◌+◌, String, ◌≡◌, refl, ◌≢◌, inl, inr, Bool, true, false, ◌&&◌, ◌||◌, not, Option,
  none, some, List, [], ◌∷◌, ◌++◌, map, arith, str_eq, eq_iff, leb, if◌then◌else◌, &&-true,
  Bool-cases, length, get_elem?, keep, any, All, All-append, All-map, is_in,
}
use scholarscrib_backend.Prelude.Dict

any-false : {A : Type 0} (p : A → Bool) (xs : List A) → any p xs ≡ false → All (λ x. p x ≡ false) xs
any-false p [] h = tt
any-false p (x ∷ xs) h = go (p x) refl h (any-false p xs)
  where
    go :
        (b : Bool)
        → p x ≡ b
        → (b || any p xs) ≡ false
        → (any p xs ≡ false → All (λ y. p y ≡ false) xs)
        → All (λ y. p y ≡ false) (x ∷ xs)
    go true e k rest = cc
    go false e k rest = (e, rest k)

pub All-keep : {A : Type 0} (p : A → Bool) (xs : List A) → All (λ x. p x ≡ true) (keep p xs)
All-keep p [] = tt
All-keep p (x ∷ xs) = elim (Bool-cases (p x)) [
  | inl e ↦ rw e (e, All-keep p xs)
  | inr e ↦ rw e (All-keep p xs)
]

pub All-of-map :
    {A B : Type 0} (f : A → B) (P : B → Type 0) (xs : List A)
    → All (λ x. P (f x)) xs
    → All P (map f xs)
All-of-map f P [] h = tt
All-of-map f P (x ∷ xs) h = (h.0, All-of-map f P xs h.1)

pub not-true : (b : Bool) → not b ≡ true → b ≡ false
not-true true h = cc
not-true false h = refl

module _ (F : Floats) where
  -- The topics of the candidates are different ones.
  abbrev pub Distinct : List (TopicCandidate F) → Type 0
  Distinct [] = Unit
  Distinct (c ∷ cs) = All (λ d. c.topic.id ≢ d.topic.id) cs × Distinct cs

  Distinct-append :
      (cs : List (TopicCandidate F)) (new : TopicCandidate F)
      → All (λ c. str_eq c.topic.id new.topic.id ≡ false) cs
      → Distinct cs
      → Distinct (cs ++ new ∷ [])
  Distinct-append [] new h k = (tt, tt)
  Distinct-append (c ∷ cs) new h k =
      let apart : c.topic.id ≢ new.topic.id =
        (λ e. let t = (eq_iff c.topic.id new.topic.id).1 e in let f = h.0 in cc) in
      (
        All-append (λ d. c.topic.id ≢ d.topic.id) cs (new ∷ []) k.0 (apart, tt),
        Distinct-append cs new h.1 k.1,
      )

  module _ (state : TopicStateMap F) where
    abbrev pub Needed : TopicCandidate F → Type 0
    Needed c = is_mastered_of F state c.topic.id ≡ false

    abbrev Good : List (TopicCandidate F) → Type 0
    Good cs = Distinct cs × All Needed cs

    add_candidate-Good :
        (new : TopicCandidate F) (cs : List (TopicCandidate F))
        → Needed new
        → Good cs
        → Good (add_candidate F new cs)
    unfolding add_candidate
    add_candidate-Good new cs need h = elim (Bool-cases (any (has_id F new.topic.id) cs)) [
      | inl e ↦ rw e h
      | inr e ↦ rw e (
        Distinct-append cs new (any-false (has_id F new.topic.id) cs e) h.0,
        All-append Needed cs (new ∷ []) h.1 (need, tt),
      )
    ]

    add_all-Good :
        (new cs : List (TopicCandidate F)) → All Needed new → Good cs → Good (add_all F new cs)
    unfolding add_all
    add_all-Good [] cs need h = h
    add_all-Good (c ∷ new) cs need h =
        add_all-Good new (add_candidate F c cs) need.1 (add_candidate-Good c cs need.0 h)

    -- A topic below the gate is not mastered.
    below_gate :
        (id : String) → leb 60 (mastery_of F state id) ≡ false → is_mastered_of F state id ≡ false
    unfolding mastery_of is_mastered_of is_mastered_in is_mastered
    below_gate id h = go (Dict.get str_eq state id) h
      where
        go :
            (o : Option (TopicState F))
            → leb 60 (mastery_in F o) ≡ false
            → is_mastered_in F o ≡ false
        go none k = refl
        go (some s) k = let small : leb target s.mastery ≡ false = ground arith in rw small refl

  module _ (frame : GapFrame F) where
    abbrev Open : Visit F → Type 0
    Open s = All (λ t. is_settled F frame t ≡ false) s.out

    abbrev KeepsOpen : (String → Visit F → Visit F) → Type 0
    KeepsOpen go = (id : String) (s : Visit F) → Open s → Open (go id s)

    enter-Open :
        (go : String → Visit F → Visit F)
        → KeepsOpen go
        → (o : Option (PlanTopic F)) (s : Visit F) → Open s
        → Open (enter F frame go o s)
    unfolding enter
    enter-Open go keeps none s h = h
    enter-Open go keeps (some prereq) s h = elim (Bool-cases (is_settled F frame prereq)) [
      | inl e ↦ rw (e, enter) h
      | inr e ↦
          rw (e, enter)
            (All-append (λ t. is_settled F frame t ≡ false) (go prereq.id s).out (prereq ∷ [])
              (keeps prereq.id s h) (e, tt))
    ]

    visit_edges-Open :
        (go : String → Visit F → Visit F)
        → KeepsOpen go
        → (edges : List (GraphEdge F)) (s : Visit F) → Open s
        → Open (visit_edges F frame go edges s)
    unfolding visit_edges visit_edge
    visit_edges-Open go keeps [] s h = h
    visit_edges-Open go keeps (edge ∷ edges) s h =
        visit_edges-Open go keeps edges (visit_edge F frame go edge s)
          (one (not (str_eq edge.kind "PREREQUISITE") || is_in edge.source s.visited) refl)
      where
        one :
            (b : Bool)
            → (not (str_eq edge.kind "PREREQUISITE") || is_in edge.source s.visited) ≡ b
            → Open (visit_edge F frame go edge s)
        one true e = rw (e, visit_edge) h
        one false e =
            rw (e, visit_edge)
              (enter-Open go keeps (Dict.get str_eq frame.by_id edge.source)
                (record s { visited = edge.source ∷ s.visited }) h)

    visit-Open : (fuel : ℕ) → KeepsOpen (visit F frame fuel)
    unfolding visit
    visit-Open zero id s h = h
    visit-Open (suc fuel) id s h =
        visit_edges-Open (visit F frame fuel) (visit-Open fuel) (incoming_edges F frame.graph id) s
          h

    pub gaps_for-Open :
        (target : PlanTopic F) → All (λ t. is_settled F frame t ≡ false) (gaps_for F frame target)
    unfolding gaps_for
    gaps_for-Open target =
        visit-Open (length frame.by_id + 1) target.id (record { visited = []; out = [] }) tt

  module _ (input : TermInput F) where
    carried-Needed : (items : List CarryOver) → All (Needed input.state) (carried F input items)
    unfolding carried carried_topic
    carried-Needed [] = tt
    carried-Needed (item ∷ items) =
        All-append (Needed input.state)
          (carried_topic F input item (Dict.get str_eq (by_id F input) item.topic_id))
          (carried F input items) (one (Dict.get str_eq (by_id F input) item.topic_id))
          (carried-Needed items)
      where
        one : (o : Option (PlanTopic F)) → All (Needed input.state) (carried_topic F input item o)
        one none = tt
        one (some topic) =
            elim (Bool-cases
              (str_eq item.subject_id input.subject_id && unmastered F input topic)) [
                | inl e ↦ rw e (not-true _ (&&-true e).1, tt)
                | inr e ↦ rw e tt
              ]

    gap-Needed :
        (topic : PlanTopic F)
        → is_settled F (gap_frame F input) topic ≡ false
        → is_mastered_of F input.state topic.id ≡ false
    unfolding is_settled gap_frame
    gap-Needed topic h = below_gate input.state topic.id (
        second (is_in topic.id (gap_frame F input).term_ids)
          (leb 60 (mastery_of F input.state topic.id)) (is_in topic.id input.pretest_passed) h)
      where
        second : (a b c : Bool) → (a || (b || c)) ≡ false → b ≡ false
        second true b c k = cc
        second false true c k = cc
        second false false c k = refl

    gap_candidates-Needed :
        (topics : List (PlanTopic F)) → All (Needed input.state) (gap_candidates F input topics)
    unfolding gap_candidates
    gap_candidates-Needed [] = tt
    gap_candidates-Needed (topic ∷ topics) =
        All-append (Needed input.state) _ (gap_candidates F input topics)
          (All-of-map _ (Needed input.state) (gaps_for F (gap_frame F input) topic) (
            All-map _ _ (gaps_for F (gap_frame F input) topic) gap-Needed
              (gaps_for-Open (gap_frame F input) topic)))
          (gap_candidates-Needed topics)

    keep-Needed :
        (topics : List (PlanTopic F))
        → All (λ t. is_mastered_of F input.state t.id ≡ false) (keep (unmastered F input) topics)
    keep-Needed topics =
        All-map _ _ (keep (unmastered F input) topics)
          (λ t k. not-true (is_mastered_of F input.state t.id) k)
          (All-keep (unmastered F input) topics)

    current_needed-Needed :
        (index : Option ℕ)
        → All (λ t. is_mastered_of F input.state t.id ≡ false) (current_needed F input index)
    unfolding current_needed needed
    current_needed-Needed none = tt
    current_needed-Needed (some index) = one (get_elem? (term_topics F input) index)
      where
        one :
            (o : Option (PlanTopic F))
            → All (λ t. is_mastered_of F input.state t.id ≡ false) (needed F input o)
        one none = tt
        one (some topic) = elim (Bool-cases (unmastered F input topic)) [
          | inl e ↦ rw e (not-true _ e, tt)
          | inr e ↦ rw e tt
        ]

    class_candidates-Needed :
        (index : Option ℕ) → All (Needed input.state) (class_candidates F input index)
    unfolding class_candidates catch_up
    class_candidates-Needed index =
        All-append Need _ _
          (gap_candidates-Needed (current_needed F input index ++ catch_up F input index))
          (All-append Need _ _ (All-of-map _ Need _ (current_needed-Needed index)) (
            All-append Need _ _ (All-of-map _ Need _ (keep-Needed _))
              (All-of-map _ Need _ (keep-Needed (preview_of F (term_topics F input) index)))))
      where
        Need : TopicCandidate F → Type 0
        Need = Needed input.state

  -- The candidates of a subject are topics that the student has not mastered, each once.
  pub select_term_topics-Needed :
      (input : TermInput F)
      → Distinct (select_term_topics F input).candidates
        × All
            (λ c. is_mastered_of F input.state c.topic.id ≡ false)
            (select_term_topics F input).candidates
  unfolding select_term_topics candidates_of
  select_term_topics-Needed input =
      let before =
        add_all-Good input.state (carried F input input.carry_over) []
          (carried-Needed input input.carry_over) (tt, tt) in
      go input.carry_over_only before
    where
      go :
          (b : Bool)
          → Good input.state (add_all F (carried F input input.carry_over) [])
          → Good input.state (
              if b
              then add_all F (carried F input input.carry_over) []
              else add_all F
                  (class_candidates F input (position F input))
                  (add_all F (carried F input input.carry_over) []))
      go true h = h
      go false h =
          add_all-Good input.state (class_candidates F input (position F input)) _
            (class_candidates-Needed input (position F input)) h
