-- ===== src/Planner/Selection/Exam.antt =====
-- app/services/planner/topics.py, `select_exam_topics`: which topics an exam plan is for, and in which
-- order.
use scholarscrib_backend.Floats.{Floats}
use scholarscrib_backend.Planner.PlanMode.{ClassLevel, at_or_below_class}
use scholarscrib_backend.Planner.Selection.Candidates.{
  plain, exam_le, is_exam_topic, select_exam_topics,
}
use scholarscrib_backend.Planner.Selection.Known.{All-keep, All-of-map, not-true}
use scholarscrib_backend.Planner.Topics.{
  PlanTopic, TopicCandidate, TopicStateMap, is_mastered_of, exam_reason,
}
use scholarscrib_backend.Prelude.{
  String, ◌≡◌, refl, ◌∙◌, inl, inr, true, false, List, [], ◌∷◌, map, arith, if◌then◌else◌, &&-true,
  Bool-cases, keep, sum_of, All, All-map, sort_by, sum_of-sort_by, sort_by-All,
}
use scholarscrib_backend.Floats.{OrderLaws}
use scholarscrib_backend.Planner.PlanMode.{class_index}
use scholarscrib_backend.Planner.Topics.{mastery_of}
use scholarscrib_backend.Prelude.{◌≤◌, ◌&&◌, not, leb, str_eq, Sorted, sort_by-Sorted}

module _ (F : Floats) where
  open F use {Float, le, add}

  -- A topic of the student's class or below that is not mastered, to learn for the exam.
  abbrev pub IsExam : ClassLevel → TopicStateMap F → TopicCandidate F → Type 0
  IsExam class_level state c =
      (at_or_below_class c.topic.class_level class_level ≡ true)
      × (is_mastered_of F state c.topic.id ≡ false)
      × (c.reason ≡ exam_reason)

  abbrev pub weight : PlanTopic F → Float
  weight topic = add topic.waec_weight topic.jamb_weight

  -- A topic with more weight in the exams comes first, and of topics with the same weight the one
  -- that the student knows less.
  abbrev pub Ranks : TopicStateMap F → PlanTopic F → PlanTopic F → Type 0
  Ranks state a b =
      (le (weight b) (weight a) ≡ true)
      × (le (weight a) (weight b) ≡ true → mastery_of F state a.id ≤ mastery_of F state b.id)

  module _ (laws : OrderLaws F) where
    Ranks-trans :
        (state : TopicStateMap F) (a b c : PlanTopic F)
        → Ranks state a b
        → Ranks state b c
        → Ranks state a c
    Ranks-trans state a b c h k = (
      laws.trans (weight c) (weight b) (weight a) k.0 h.0,
      λ same.
          let left = h.1 (laws.trans (weight a) (weight c) (weight b) same k.0) in
          let right = k.1 (laws.trans (weight b) (weight a) (weight c) h.0 same) in
          omega (arith, left, right),
    )

    exam_le-Ranks :
        (state : TopicStateMap F) (a b : PlanTopic F) → exam_le F state a b ≡ true → Ranks state a b
    unfolding exam_le
    exam_le-Ranks state a b h =
        let both = &&-true h in (both.0, λ same. ground (arith, both.1, same))

    exam_le-else :
        (state : TopicStateMap F) (a b : PlanTopic F)
        → exam_le F state a b ≡ false
        → Ranks state b a
    unfolding exam_le
    exam_le-else state a b h = elim (Bool-cases (le (weight b) (weight a))) [
      | inl e ↦ elim (Bool-cases (le (weight a) (weight b))) [
        | inl f ↦ (f, λ same. ground (arith, h, e, f))
        | inr f ↦ ground (arith, h, e, f)
      ]
      | inr e ↦ (laws.total (weight b) (weight a) e, λ same. cc)
    ]

    Sorted-plain :
        (state : TopicStateMap F) (topics : List (PlanTopic F))
        → Sorted (Ranks state) topics
        → Sorted (λ c d. Ranks state c.topic d.topic) (map (plain F exam_reason) topics)
    Sorted-plain state [] h = tt
    Sorted-plain state (t ∷ ts) h = (
      All-of-map _ (λ d. Ranks state t d.topic) ts (All-map (Ranks state t) _ ts (λ d k. k) h.0),
      Sorted-plain state ts h.1,
    )

    count-plain :
        (id : String) (topics : List (PlanTopic F))
        → sum_of (λ c. if str_eq c.topic.id id then 1 else 0) (map (plain F exam_reason) topics)
          ≡ sum_of (λ t. if str_eq t.id id then 1 else 0) topics
    count-plain id [] = refl
    count-plain id (t ∷ ts) = omega (arith, count-plain id ts)

    -- For floats with the laws of the order: the exam candidates are the topics of the class or below
    -- that are not mastered, each as often as it is given, with those first that weigh more in the
    -- exams and, of the same weight, those that the student knows less.
    pub select_exam_topics-IsExam :
        (topics : List (PlanTopic F)) (class_level : ClassLevel) (state : TopicStateMap F)
        (id : String)
        → All (IsExam class_level state) (select_exam_topics F topics class_level state)
          × Sorted
              (λ c d. Ranks state c.topic d.topic)
              (select_exam_topics F topics class_level state)
          × (sum_of
                (λ c. if str_eq c.topic.id id then 1 else 0)
                (select_exam_topics F topics class_level state)
              ≡ sum_of
                  (λ t.
                    if leb (class_index t.class_level) (class_index class_level)
                      && (not (is_mastered_of F state t.id) && str_eq t.id id)
                    then 1
                    else 0)
                  topics)
    unfolding select_exam_topics is_exam_topic at_or_below_class
    select_exam_topics-IsExam topics class_level state id = (
      All-of-map _ (IsExam class_level state) sorted
          (All-map _ _ sorted exam (sort_by-All (exam_le F state) _ kept (All-keep _ topics))),
      Sorted-plain state sorted (
          sort_by-Sorted (exam_le F state) (Ranks state) (Ranks-trans state) (exam_le-Ranks state)
            (exam_le-else state) kept),
      count-plain id sorted
          ∙ (sum_of-sort_by (exam_le F state) (λ t. if str_eq t.id id then 1 else 0) kept
              ∙ count topics),
    )
      where
        kept : List (PlanTopic F)
        kept = keep (is_exam_topic F class_level state) topics

        sorted : List (PlanTopic F)
        sorted = sort_by (exam_le F state) kept

        exam :
            (t : PlanTopic F)
            → is_exam_topic F class_level state t ≡ true
            → IsExam class_level state (plain F exam_reason t)
        exam t h = let both = &&-true h in (both.0, not-true _ both.1, refl)

        count :
            (ts : List (PlanTopic F))
            → sum_of
                (λ t. if str_eq t.id id then 1 else 0)
                (keep (is_exam_topic F class_level state) ts)
              ≡ sum_of
                  (λ t.
                    if leb (class_index t.class_level) (class_index class_level)
                      && (not (is_mastered_of F state t.id) && str_eq t.id id)
                    then 1
                    else 0)
                  ts
        count [] = refl
        count (t ∷ ts) = let rest = count ts in ground (arith, rest)
