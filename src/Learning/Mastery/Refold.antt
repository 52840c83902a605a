-- ===== src/Learning/Mastery/Refold.antt =====
-- app/services/learning/mastery.py, `fold_events`, called again with the same events, as
-- `GetTopicMasteryService` does on every read.
use mathlib.Core.Path.{subst}
use scholarscrib_backend.Floats.{Floats}
use scholarscrib_backend.Learning.Mastery.{
  scoring_version, TopicAggregate, LearningEventView, decay_from, decay_to, apply_event,
  reset_version, fold_loop, fold_events, quiz_abandoned,
}
use scholarscrib_backend.Learning.Mastery.Replay.{
  SameCounts, same_trans, fold_loop-grows, fold_loop-Covered, Covered-fold_loop,
}
use scholarscrib_backend.Prelude.{
  ℕ, ◌*◌, All, sum_of, ltb, ltb→lt, if◌then◌else◌, ◌+◌, ◌<◌, ◌≡◌, refl, sym, ap, ◌∙◌, inl, inr,
  Option, none, some, List, [], ◌∷◌, arith, ◌==◌, ==_iff, Bool-cases,
}

module _ (F : Floats) where
  open F use {Float, Time}

  decay_from_same :
      (anchor : Option Time) (a : TopicAggregate F) (now : Time)
      → SameCounts F a (decay_from F anchor a now)
        × ((decay_from F anchor a now).abandon_count ≡ a.abandon_count)
  unfolding decay_from
  decay_from_same none a now = (
    record {
      acc = refl;
      lesson = refl;
      days = refl;
      last_day = refl;
      effort = refl;
      cursor = refl;
      version = refl;
    },
    refl,
  )
  decay_from_same (some anchor) a now =
      elim (Bool-cases (F.le (F.days_since now anchor) (F.of_nat 0))) [
        | inl e ↦ rw e (
          record {
            acc = refl;
            lesson = refl;
            days = refl;
            last_day = refl;
            effort = refl;
            cursor = refl;
            version = refl;
          },
          refl,
        )
        | inr e ↦ rw e (
          record {
            acc = refl;
            lesson = refl;
            days = refl;
            last_day = refl;
            effort = refl;
            cursor = refl;
            version = refl;
          },
          refl,
        )
      ]

  decay_to_same :
      (a : TopicAggregate F) (now : Time)
      → SameCounts F a (decay_to F a now) × ((decay_to F a now).abandon_count ≡ a.abandon_count)
  unfolding decay_to
  decay_to_same a now = decay_from_same a.decay_anchor a now

  reset_version_done : (a : TopicAggregate F) → a.version ≡ scoring_version → reset_version F a ≡ a
  unfolding reset_version
  reset_version_done a h = rw h refl

  reset_version-version : (a : TopicAggregate F) → (reset_version F a).version ≡ scoring_version
  unfolding reset_version
  reset_version-version a = elim (Bool-cases (a.version == scoring_version)) [
    | inl e ↦ rw e ((==_iff a.version scoring_version).0 e)
    | inr e ↦ rw e refl
  ]

  fold_events-version :
      (a : TopicAggregate F) (events : List (LearningEventView F)) (now : Time)
      → (fold_events F a events now).version ≡ scoring_version
  unfolding fold_events
  fold_events-version a events now =
      (fold_loop-grows F (decay_to F (reset_version F a) now) events now).1
      ∙ (decay_to_same (reset_version F a) now).0.version
      ∙ reset_version-version a

  -- Folding the events of a topic again, at any later time, counts no evidence twice: the
  -- observations of both channels, the evidence days, the last effort and the cursor stay.
  pub fold_events_again :
      (a : TopicAggregate F) (events : List (LearningEventView F)) (now later : Time)
      → SameCounts F
          (fold_events F a events now)
          (fold_events F (fold_events F a events now) events later)
  unfolding fold_events
  fold_events_again a events now later =
      let b = fold_events F a events now in
      let decayed = decay_to F b later in
      let kept = (decay_to_same b later).0 in
      subst (λ r. SameCounts F b (fold_loop F (decay_to F r later) events later))
        (sym (reset_version_done b (fold_events-version a events now)))
        (same_trans F b decayed (fold_loop F decayed events later) kept (
          Covered-fold_loop F decayed events later
            (rw kept.cursor (fold_loop-Covered F (decay_to F (reset_version F a) now) events now))))

  -- The events of a list that an aggregate's cursor has not passed.
  abbrev pub ahead : ℕ → List (LearningEventView F) → ℕ
  ahead cursor events = sum_of (λ event. if ltb cursor event.seq then 1 else 0) events

  apply_abandoned :
      (a : TopicAggregate F) (event : LearningEventView F) (now : Time)
      → event.kind ≡ quiz_abandoned
      → apply_event F a event now ≡ record a { abandon_count = a.abandon_count + 1 }
  unfolding apply_event
  apply_abandoned a event now k = rw k refl

  abandoned_loop :
      (a : TopicAggregate F) (events : List (LearningEventView F)) (now : Time)
      → All (λ event. a.cursor_seq < event.seq → event.kind ≡ quiz_abandoned) events
      → ((fold_loop F a events now).abandon_count ≡ a.abandon_count + ahead a.cursor_seq events)
        × ((fold_loop F a events now).cursor_seq ≡ a.cursor_seq)
  unfolding fold_loop
  abandoned_loop a [] now h = (omega arith, refl)
  abandoned_loop a (event ∷ events) now h = elim (Bool-cases (ltb a.cursor_seq event.seq)) [
    | inl e ↦
        let kind = h.0 (ltb→lt a.cursor_seq event.seq e) in
        let next : TopicAggregate F = record a { abandon_count = a.abandon_count + 1 } in
        let rest = abandoned_loop next events now h.1 in
        let taken : (if ltb a.cursor_seq event.seq then apply_event F a event now else a) ≡ next =
          rw e (apply_abandoned a event now kind) in
        let step = ap (λ b. fold_loop F b events now) taken in
        let more : ahead a.cursor_seq (event ∷ events) ≡ 1 + ahead a.cursor_seq events =
          rw e refl in
        (
          ap (λ b. b.abandon_count) step ∙ (rest.0 ∙ omega (arith, more)),
          ap (λ b. b.cursor_seq) step ∙ rest.1,
        )
    | inr e ↦
        let rest = abandoned_loop a events now h.1 in
        let passed : (if ltb a.cursor_seq event.seq then apply_event F a event now else a) ≡ a =
          rw e refl in
        let step = ap (λ b. fold_loop F b events now) passed in
        let same : ahead a.cursor_seq (event ∷ events) ≡ ahead a.cursor_seq events =
          rw e (omega arith) in
        (
          ap (λ b. b.abandon_count) step ∙ (rest.0 ∙ omega (arith, same)),
          ap (λ b. b.cursor_seq) step ∙ rest.1,
        )
  ]

  abandoned_all :
      (a : TopicAggregate F) (events : List (LearningEventView F)) (now : Time)
      → a.version ≡ scoring_version
      → All (λ event. a.cursor_seq < event.seq → event.kind ≡ quiz_abandoned) events
      → ((fold_events F a events now).abandon_count ≡ a.abandon_count + ahead a.cursor_seq events)
        × ((fold_events F a events now).cursor_seq ≡ a.cursor_seq)
  unfolding fold_events
  abandoned_all a events now v h =
      let d = decay_to_same a now in
      let run = abandoned_loop (decay_to F a now) events now (rw d.0.cursor h) in
      rw (reset_version_done a v) (run.0 ∙ rw (d.1, d.0.cursor) refl, run.1 ∙ d.0.cursor)

  -- Of a topic with an aggregate of the current version, whose events after the cursor are all of
  -- abandoned quizzes, each of two folds of the same events counts every one of them: none moves the
  -- cursor.
  pub fold_events-abandoned :
      (a : TopicAggregate F) (events : List (LearningEventView F)) (now later : Time)
      → a.version ≡ scoring_version
      → All (λ event. a.cursor_seq < event.seq → event.kind ≡ quiz_abandoned) events
      → ((fold_events F a events now).abandon_count ≡ a.abandon_count + ahead a.cursor_seq events)
        × ((fold_events F (fold_events F a events now) events later).abandon_count
            ≡ a.abandon_count + 2 * ahead a.cursor_seq events)
  fold_events-abandoned a events now later v h =
      let one = abandoned_all a events now v h in
      let b = fold_events F a events now in
      let two = abandoned_all b events later (fold_events-version a events now) (rw one.1 h) in
      let count : b.abandon_count + ahead b.cursor_seq events
          ≡ b.abandon_count + ahead a.cursor_seq events =
        rw one.1 refl in
      (one.0, omega (arith, one.0, two.0, count))
