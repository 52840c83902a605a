-- ===== src/Learning/Mastery/Replay.antt =====
-- app/services/learning/mastery.py: folding the same events again, as every page read does.
use scholarscrib_backend.Floats.{Floats}
use scholarscrib_backend.Learning.Mastery.{
  Kind, TopicAggregate, LearningEventView, occurred_or, age_of, apply_lesson, apply_kind,
  apply_event, fold_loop, question_answered, lesson_block_completed, lesson_completed,
  quiz_abandoned, pretest_passed, other_kind,
}
use scholarscrib_backend.Prelude.{
  ℕ, ◌≤◌, ◌<◌, ◌≡◌, refl, ◌∙◌, inl, inr, Bool, true, false, Option, none, some, List, [], ◌∷◌,
  arith, ltb, if◌then◌else◌, ltb→lt, Bool-cases, All,
}

module _ (F : Floats) where
  open F use {Float, Time}

  has_score : Option Float → Bool
  has_score none = false
  has_score (some score) = true

  -- The events that add evidence: answers, and lessons with a score.
  unfoldable pub is_evidence : Kind → Option Float → Bool
  unfolding has_score
  is_evidence question_answered score = true
  is_evidence lesson_block_completed score = has_score score
  is_evidence lesson_completed score = has_score score
  is_evidence _ score = false

  -- All that two aggregates say of evidence but its decaying weights, which a later read changes.
  pub record SameCounts (a b : TopicAggregate F) : Type 0 where
    pub acc : b.acc.observations ≡ a.acc.observations
    pub lesson : b.lesson.observations ≡ a.lesson.observations
    pub days : b.evidence_days ≡ a.evidence_days
    pub last_day : b.last_evidence_day ≡ a.last_evidence_day
    pub effort : b.last_effort_at ≡ a.last_effort_at
    pub cursor : b.cursor_seq ≡ a.cursor_seq
    pub version : b.version ≡ a.version

  same : (a : TopicAggregate F) → SameCounts a a
  same a = record {
    acc = refl;
    lesson = refl;
    days = refl;
    last_day = refl;
    effort = refl;
    cursor = refl;
    version = refl;
  }

  pub same_trans : (a b c : TopicAggregate F) → SameCounts a b → SameCounts b c → SameCounts a c
  same_trans a b c h k = record {
    acc = k.acc ∙ h.acc;
    lesson = k.lesson ∙ h.lesson;
    days = k.days ∙ h.days;
    last_day = k.last_day ∙ h.last_day;
    effort = k.effort ∙ h.effort;
    cursor = k.cursor ∙ h.cursor;
    version = k.version ∙ h.version;
  }

  lesson_no_evidence :
      (score : Option Float) (a : TopicAggregate F) (event : LearningEventView F) (occurred : Time)
      (age : Float)
      → has_score score ≡ false
      → SameCounts a (apply_lesson F score a event occurred age)
  unfolding apply_lesson has_score
  lesson_no_evidence none a event occurred age h = same a
  lesson_no_evidence (some s) a event occurred age h = cc

  kind_no_evidence :
      (kind : Kind) (a : TopicAggregate F) (event : LearningEventView F) (occurred : Time)
      (age : Float)
      → is_evidence kind event.score ≡ false
      → SameCounts a (apply_kind F kind a event occurred age)
  unfolding apply_kind is_evidence
  kind_no_evidence question_answered a event occurred age h = cc
  kind_no_evidence lesson_block_completed a event occurred age h =
      lesson_no_evidence event.score a event occurred age h
  kind_no_evidence lesson_completed a event occurred age h =
      lesson_no_evidence event.score a event occurred age h
  kind_no_evidence quiz_abandoned a event occurred age h = record {
    acc = refl;
    lesson = refl;
    days = refl;
    last_day = refl;
    effort = refl;
    cursor = refl;
    version = refl;
  }
  kind_no_evidence pretest_passed a event occurred age h = same a
  kind_no_evidence other_kind a event occurred age h = same a

  -- What every event does to the cursor and the version.
  record Moves (event : LearningEventView F) (a b : TopicAggregate F) : Type 0 where
    grows : a.cursor_seq ≤ b.cursor_seq
    covers : is_evidence event.kind event.score ≡ true → event.seq ≤ b.cursor_seq
    version : b.version ≡ a.version

  lesson_moves :
      (score : Option Float) (a : TopicAggregate F) (event : LearningEventView F) (occurred : Time)
      (age : Float)
      → (a.cursor_seq ≤ (apply_lesson F score a event occurred age).cursor_seq)
        × (has_score score ≡ true
            → event.seq ≤ (apply_lesson F score a event occurred age).cursor_seq)
        × ((apply_lesson F score a event occurred age).version ≡ a.version)
  unfolding apply_lesson has_score
  lesson_moves none a event occurred age = (omega arith, λ h. cc, refl)
  lesson_moves (some s) a event occurred age = (omega arith, λ h. omega arith, refl)

  kind_moves :
      (kind : Kind) (a : TopicAggregate F) (event : LearningEventView F) (occurred : Time)
      (age : Float)
      → (a.cursor_seq ≤ (apply_kind F kind a event occurred age).cursor_seq)
        × (is_evidence kind event.score ≡ true
            → event.seq ≤ (apply_kind F kind a event occurred age).cursor_seq)
        × ((apply_kind F kind a event occurred age).version ≡ a.version)
  unfolding apply_kind is_evidence
  kind_moves question_answered a event occurred age = (omega arith, λ h. omega arith, refl)
  kind_moves lesson_block_completed a event occurred age =
      lesson_moves event.score a event occurred age
  kind_moves lesson_completed a event occurred age = lesson_moves event.score a event occurred age
  kind_moves quiz_abandoned a event occurred age = (omega arith, λ h. cc, refl)
  kind_moves pretest_passed a event occurred age = (omega arith, λ h. cc, refl)
  kind_moves other_kind a event occurred age = (omega arith, λ h. cc, refl)

  -- The body of the loop.
  visit : TopicAggregate F → LearningEventView F → Time → TopicAggregate F
  visit a event now = if ltb a.cursor_seq event.seq then apply_event F a event now else a

  visit-Moves :
      (a : TopicAggregate F) (event : LearningEventView F) (now : Time)
      → Moves event a (visit a event now)
  unfolding visit apply_event
  visit-Moves a event now = elim (Bool-cases (ltb a.cursor_seq event.seq)) [
    | inl e ↦
        let m =
          kind_moves event.kind a event (occurred_or F event.occurred_at now)
            (age_of F now (occurred_or F event.occurred_at now)) in
        rw e (record { grows = m.0; covers = m.1; version = m.2 })
    | inr e ↦ rw e (record { grows = omega arith; covers = λ h. ground arith; version = refl })
  ]

  visit_covered :
      (a : TopicAggregate F) (event : LearningEventView F) (now : Time)
      → (is_evidence event.kind event.score ≡ true → event.seq ≤ a.cursor_seq)
      → SameCounts a (visit a event now)
  unfolding visit apply_event
  visit_covered a event now h = elim (Bool-cases (ltb a.cursor_seq event.seq)) [
    | inl e ↦ rw e (
        kind_no_evidence event.kind a event (occurred_or F event.occurred_at now)
          (age_of F now (occurred_or F event.occurred_at now))
          (not_evidence (is_evidence event.kind event.score) h (ltb→lt a.cursor_seq event.seq e)))
    | inr e ↦ rw e (same a)
  ]
    where
      not_evidence :
          (b : Bool) → (b ≡ true → event.seq ≤ a.cursor_seq) → a.cursor_seq < event.seq → b ≡ false
      not_evidence true f l = absurd (omega (arith, f refl))
      not_evidence false f l = refl

  -- The cursor has passed every event that adds evidence.
  abbrev pub Covered : ℕ → List (LearningEventView F) → Type 0
  Covered cursor events =
      All (λ event. is_evidence event.kind event.score ≡ true → event.seq ≤ cursor) events

  pub fold_loop-grows :
      (a : TopicAggregate F) (events : List (LearningEventView F)) (now : Time)
      → (a.cursor_seq ≤ (fold_loop F a events now).cursor_seq)
        × ((fold_loop F a events now).version ≡ a.version)
  unfolding fold_loop visit
  fold_loop-grows a [] now = (omega arith, refl)
  fold_loop-grows a (event ∷ events) now =
      let m = visit-Moves a event now in
      let ih = fold_loop-grows (visit a event now) events now in
      (omega (arith, m.grows, ih.0), ih.1 ∙ m.version)

  pub fold_loop-Covered :
      (a : TopicAggregate F) (events : List (LearningEventView F)) (now : Time)
      → Covered (fold_loop F a events now).cursor_seq events
  unfolding fold_loop visit
  fold_loop-Covered a [] now = tt
  fold_loop-Covered a (event ∷ events) now =
      let m = visit-Moves a event now in
      let g = fold_loop-grows (visit a event now) events now in
      (λ h. omega (arith, m.covers h, g.0), fold_loop-Covered (visit a event now) events now)

  pub Covered-fold_loop :
      (a : TopicAggregate F) (events : List (LearningEventView F)) (now : Time)
      → Covered a.cursor_seq events
      → SameCounts a (fold_loop F a events now)
  unfolding fold_loop visit
  Covered-fold_loop a [] now h = same a
  Covered-fold_loop a (event ∷ events) now h =
      let s = visit_covered a event now h.0 in
      same_trans a (visit a event now) (fold_loop F (visit a event now) events now) s
        (Covered-fold_loop (visit a event now) events now (rw s.cursor h.1))
