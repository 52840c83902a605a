-- ===== src/Learning/Mastery/Reading.antt =====
-- app/services/learning/mastery.py: the state read from an aggregate, and what it is called.
use scholarscrib_backend.Floats.{Floats, lt, fmax, fmin}
use scholarscrib_backend.Learning.Evidence.{Level, mastery_level, channel_score}
use scholarscrib_backend.Learning.Mastery.{TopicAggregate}
use scholarscrib_backend.Prelude.{
  ℕ, ◌+◌, ◌≤◌, ◌≡◌, ◌↔◌, Bool, true, false, ◌&&◌, not, Option, none, some, arith, ltb, leb, ◌==◌,
  if◌then◌else◌, to_nat,
}

abbrev pub target : ℕ
target = 70

abbrev pub mastery_min_questions : ℕ
mastery_min_questions = 7

abbrev pub mastery_min_days : ℕ
mastery_min_days = 2

pub data Trust : Type 0 where
  no_evidence thin enough : Trust

pub data Source : Type 0 where
  from_cards estimate : Source

pub data Colour : Type 0 where
  locked decayed mastered started ready : Colour

pub data Gap : Type 0 where
  weak_gap decayed_gap bottleneck abandoned_gap untouched : Gap

module _ (F : Floats) where
  open F use {Float, decimal, add, mul, div, le, round, of_nat, Time, days_since}

  pub record TopicState : Type 0 where
    pub mastery : ℕ
    pub confidence : Float
    pub retention : Option Float
    pub observations : ℕ
    pub abandon_count : ℕ
    pub last_effort_at : Option Time
    pub level : Level
    pub stability_days : ℕ
    pub available : Bool
    pub acc_observations : ℕ
    pub lesson_observations : ℕ
    pub srs_observations : ℕ
    pub score : Float
    pub evidence_days : ℕ

  -- The curve of `evidence.retention`, at a stability of whole days that is not zero.
  effort_retention : (Float → Float → Float) → Option Time → Time → ℕ → Option Float
  effort_retention retention none now stability = none
  effort_retention retention (some effort) now stability =
      some (retention (fmax F (decimal 0 1) (days_since now effort)) (of_nat stability))

  -- sum(score * weight) / weight_sum over the two channels, with weights 0.45 and 0.35.
  composite_of : Float × Float → Float × Float → Float
  composite_of (acc_score, acc_confidence) (lesson_score, lesson_confidence) =
      let acc_weight = mul (decimal 45 2) acc_confidence in
      let lesson_weight = mul (decimal 35 2) lesson_confidence in
      let weight_sum = add (add (of_nat 0) acc_weight) lesson_weight in
      if le weight_sum (of_nat 0)
      then (channel_score F (of_nat 0) (of_nat 0)).0
      else div (add (add (of_nat 0) (mul acc_score acc_weight)) (mul lesson_score lesson_weight))
          weight_sum

  unfoldable pub state_from_aggregate :
      (Float → Float → Float) → TopicAggregate F → Time → TopicState
  unfolding composite_of effort_retention
  state_from_aggregate retention aggregate now =
      let composite =
        composite_of (channel_score F aggregate.acc.outcome aggregate.acc.mass)
          (channel_score F aggregate.lesson.outcome aggregate.lesson.mass) in
      let total_mass = add (add (decimal 0 1) aggregate.acc.mass) aggregate.lesson.mass in
      let mastery =
        to_nat (round (fmin F (of_nat 100) (fmax F (of_nat 0) (mul composite (of_nat 100))))) in
      record {
        mastery = mastery;
        confidence = div total_mass (add total_mass (of_nat 4));
        retention =
            effort_retention retention aggregate.last_effort_at now (mastery_level mastery).1;
        observations = aggregate.acc.observations + aggregate.lesson.observations;
        abandon_count = aggregate.abandon_count;
        last_effort_at = aggregate.last_effort_at;
        level = (mastery_level mastery).0;
        stability_days = (mastery_level mastery).1;
        available = true;
        acc_observations = aggregate.acc.observations;
        lesson_observations = aggregate.lesson.observations;
        srs_observations = aggregate.srs.observations;
        score = fmin F (decimal 10 1) (fmax F (decimal 0 1) composite);
        evidence_days = aggregate.evidence_days;
      }

  unfoldable pub is_mastered : TopicState → Bool
  is_mastered state =
      leb target state.mastery
      && (leb mastery_min_questions state.observations && leb mastery_min_days state.evidence_days)

  unfoldable pub evidence_level : TopicState → Trust
  evidence_level state =
      if state.observations == 0
      then no_evidence
      else if lt F state.confidence (decimal 35 2)
      then thin
      else enough

  unfoldable pub topic_retention : TopicState → Option (Float × ℕ) → Option Float × Source
  topic_retention state none = (state.retention, estimate)
  topic_retention state (some (mean, count)) =
      if leb 3 count then (some mean, from_cards) else (state.retention, estimate)

  unfoldable pub below : Option Float → Float → Bool
  below none bound = false
  below (some value) bound = lt F value bound

  unfoldable pub graph_colour : TopicState → Colour
  unfolding below is_mastered
  graph_colour state =
      if not state.available
      then locked
      else if below state.retention (decimal 85 2) && ltb 0 state.observations
      then decayed
      else if is_mastered state
      then mastered
      else if ltb 0 state.observations
      then started
      else ready

  unfoldable pub classify_gap : TopicState → ℕ → Option Gap
  unfolding below
  classify_gap state dependents_unmastered =
      if le (decimal 35 2) state.confidence && ltb state.mastery 50
      then some weak_gap
      else if leb 3 state.observations && below state.retention (decimal 8 1)
      then some decayed_gap
      else if not state.available && leb 2 dependents_unmastered
      then some bottleneck
      else if leb 2 state.abandon_count
      then some abandoned_gap
      else if state.available
      then some untouched
      else none

  -- A topic is painted as mastered exactly when it is available and has not faded, and has a score
  -- of at least 70 from at least seven observations on at least two days.
  pub graph_colour-mastered :
      (state : TopicState)
      → (graph_colour state ≡ mastered) ↔ (
          (state.available ≡ true)
          × (below state.retention (decimal 85 2) ≡ false)
          × (70 ≤ state.mastery)
          × (7 ≤ state.observations)
          × (2 ≤ state.evidence_days))
  unfolding graph_colour
  graph_colour-mastered state = (λ h. ground arith, λ h. ground arith)
