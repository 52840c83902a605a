-- ===== src/Learning/Mastery.antt =====
-- app/services/learning/mastery.py: the fold of a topic's learning events into its aggregate, and
-- the state that is read from it. An aggregate that the source changes in place is returned anew.
pub mod Replay
pub mod Refold
pub mod Reading
use scholarscrib_backend.Floats.{Floats, fmax}
use scholarscrib_backend.Srs.Scheduler.{Difficulty}
use scholarscrib_backend.Learning.Evidence.{recency_weight, response_weight, question_outcome}
use scholarscrib_backend.Prelude.{
  ℕ, ◌+◌, max, Bool, true, not, Option, none, some, List, [], ◌∷◌, ltb, ◌==◌, if◌then◌else◌,
}

abbrev pub scoring_version : ℕ
scoring_version = 4

pub data Kind : Type 0 where
  question_answered lesson_block_completed lesson_completed quiz_abandoned pretest_passed : Kind
  other_kind : Kind

module _ (F : Floats) where
  open F use {Float, decimal, add, mul, le, of_nat, Time, days_since, earlier, lagos_day}

  pub record ChannelAggregate : Type 0 where
    pub outcome : Float
    pub mass : Float
    pub observations : ℕ

  pub record TopicAggregate : Type 0 where
    pub acc : ChannelAggregate
    pub lesson : ChannelAggregate
    pub srs : ChannelAggregate
    pub abandon_count : ℕ
    pub decay_anchor : Option Time
    pub last_effort_at : Option Time
    pub evidence_days : ℕ
    pub last_evidence_day : Option ℕ
    pub cursor_seq : ℕ
    pub version : ℕ

  pub record LearningEventView : Type 0 where
    pub seq : ℕ
    pub kind : Kind
    pub correct : Bool
    pub score : Option Float
    pub difficulty : Option Difficulty
    pub seconds : Option Float
    pub occurred_at : Option Time

  abbrev pub empty_channel : ChannelAggregate
  empty_channel = record { outcome = decimal 0 1; mass = decimal 0 1; observations = 0 }

  unfoldable pub decay_channel : Float → ChannelAggregate → ChannelAggregate
  decay_channel factor channel = record channel {
    outcome = mul channel.outcome factor;
    mass = mul channel.mass factor;
  }

  unfoldable pub decay_from : Option Time → TopicAggregate → Time → TopicAggregate
  unfolding decay_channel
  decay_from none aggregate now = record aggregate { decay_anchor = some now }
  decay_from (some anchor) aggregate now =
      let age_days = days_since now anchor in
      let factor = recency_weight F age_days in
      if le age_days (of_nat 0)
      then record aggregate { decay_anchor = some now }
      else record aggregate {
        acc = decay_channel factor aggregate.acc;
        lesson = decay_channel factor aggregate.lesson;
        srs = decay_channel factor aggregate.srs;
        decay_anchor = some now;
      }

  unfoldable pub decay_to : TopicAggregate → Time → TopicAggregate
  unfolding decay_from
  decay_to aggregate now = decay_from aggregate.decay_anchor aggregate now

  -- `event.occurred_at or now`, and its age, not below zero.
  unfoldable pub occurred_or : Option Time → Time → Time
  occurred_or none now = now
  occurred_or (some t) now = t

  unfoldable pub age_of : Time → Time → Float
  age_of now occurred = fmax F (decimal 0 1) (days_since now occurred)

  -- `channel.outcome += weight * outcome; channel.mass += weight; channel.observations += 1`
  unfoldable pub observe : Float → Float → ChannelAggregate → ChannelAggregate
  observe weight outcome channel = record {
    outcome = add channel.outcome (mul weight outcome);
    mass = add channel.mass weight;
    observations = channel.observations + 1;
  }

  new_day : Option ℕ → ℕ → Bool
  new_day none day = true
  new_day (some last) day = not (last == day)

  later_effort : Option Time → Time → Bool
  later_effort none occurred = true
  later_effort (some last) occurred = earlier last occurred

  -- The end of `apply_event`, after evidence was added: the evidence days, the last effort and the
  -- cursor. Every kind that comes this far is an effort kind.
  unfoldable pub record_evidence : LearningEventView → Time → TopicAggregate → TopicAggregate
  unfolding new_day later_effort
  record_evidence event occurred aggregate =
      let day = lagos_day occurred in
      let fresh_day = new_day aggregate.last_evidence_day day in
      record aggregate {
        evidence_days = if fresh_day then aggregate.evidence_days + 1 else aggregate.evidence_days;
        last_evidence_day = if fresh_day then some day else aggregate.last_evidence_day;
        last_effort_at =
            if later_effort aggregate.last_effort_at occurred
            then some occurred
            else aggregate.last_effort_at;
        cursor_seq = max aggregate.cursor_seq event.seq;
      }

  unfoldable pub apply_lesson :
      Option Float → TopicAggregate → LearningEventView → Time → Float → TopicAggregate
  unfolding record_evidence observe
  apply_lesson none aggregate event occurred age_days = aggregate
  apply_lesson (some score) aggregate event occurred age_days =
      record_evidence event occurred
        (record aggregate { lesson = observe (recency_weight F age_days) score aggregate.lesson })

  unfoldable pub apply_kind :
      Kind → TopicAggregate → LearningEventView → Time → Float → TopicAggregate
  unfolding apply_lesson record_evidence observe
  apply_kind quiz_abandoned aggregate event occurred age_days = record aggregate {
    abandon_count = aggregate.abandon_count + 1;
  }
  apply_kind pretest_passed aggregate event occurred age_days = aggregate
  apply_kind question_answered aggregate event occurred age_days =
      record_evidence event occurred (record aggregate {
        acc =
            observe (response_weight F age_days event.seconds)
              (question_outcome F event.difficulty event.correct) aggregate.acc;
      })
  apply_kind lesson_block_completed aggregate event occurred age_days =
      apply_lesson event.score aggregate event occurred age_days
  apply_kind lesson_completed aggregate event occurred age_days =
      apply_lesson event.score aggregate event occurred age_days
  apply_kind other_kind aggregate event occurred age_days = aggregate

  unfoldable pub apply_event : TopicAggregate → LearningEventView → Time → TopicAggregate
  unfolding apply_kind occurred_or age_of
  apply_event aggregate event now =
      let occurred = occurred_or event.occurred_at now in
      apply_kind event.kind aggregate event occurred (age_of now occurred)

  -- An aggregate of another scoring version starts again.
  unfoldable pub reset_version : TopicAggregate → TopicAggregate
  reset_version aggregate = if aggregate.version == scoring_version then aggregate else record {
    acc = empty_channel;
    lesson = empty_channel;
    srs = empty_channel;
    abandon_count = 0;
    decay_anchor = none;
    last_effort_at = none;
    evidence_days = 0;
    last_evidence_day = none;
    cursor_seq = 0;
    version = scoring_version;
  }

  -- The loop over the events: those up to the cursor are skipped.
  unfoldable pub fold_loop : TopicAggregate → List LearningEventView → Time → TopicAggregate
  unfolding apply_event
  fold_loop aggregate [] now = aggregate
  fold_loop aggregate (event ∷ events) now =
      fold_loop
        (if ltb aggregate.cursor_seq event.seq then apply_event aggregate event now else aggregate)
        events now

  unfoldable pub fold_events : TopicAggregate → List LearningEventView → Time → TopicAggregate
  unfolding reset_version decay_to fold_loop
  fold_events aggregate events now = fold_loop (decay_to (reset_version aggregate) now) events now
