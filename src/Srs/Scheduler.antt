-- ===== src/Srs/Scheduler.antt =====
-- app/services/srs/scheduler.py: the schedule of a flashcard. `retention` of
-- app/services/learning/evidence.py stands here with the curve that the scheduler uses.
pub mod States
pub mod History
pub mod Bounds
use scholarscrib_backend.Floats.{Floats, lt, fmax, fmin}
use scholarscrib_backend.Prelude.{
  ℕ, ◌+◌, ◌-◌, min, max, Bool, ◌&&◌, ◌||◌, Option, none, some, leb, if◌then◌else◌, to_nat,
}

pub data State : Type 0 where
  fresh learning relearning review : State

pub data Rating : Type 0 where
  again hard good easy : Rating

abbrev pub max_interval_days : ℕ
max_interval_days = 36500

abbrev pub graduate_reps : ℕ
graduate_reps = 2

abbrev pub leech_lapses : ℕ
leech_lapses = 4

unfoldable pub learning_step_minutes : Rating → ℕ
learning_step_minutes again = 1
learning_step_minutes hard = 5
learning_step_minutes good = 10
learning_step_minutes easy = 1440

unfoldable pub quality : Rating → ℕ
quality again = 1
quality hard = 3
quality good = 4
quality easy = 5

unfoldable pub rating_index : Rating → ℕ
rating_index again = 0
rating_index hard = 1
rating_index good = 2
rating_index easy = 3

pub data Difficulty : Type 0 where
  basic intermediate advanced : Difficulty

module _ (F : Floats) where
  open F use {Float, decimal, add, sub, mul, div, pow, neg, le, round, of_nat, Time, plus_days}

  pub record CardSchedule : Type 0 where
    pub state : State
    pub ease_factor : Float
    pub stability : Float
    pub difficulty : Float
    pub interval_days : Float
    pub repetitions : ℕ
    pub lapses : ℕ
    pub retention : Float
    pub due_at : Option Time

  -- The literals, 0.1 as `decimal 1 1`.
  unfoldable pub initial_stability : Rating → Float
  initial_stability again = decimal 1 1
  initial_stability hard = decimal 5 1
  initial_stability good = decimal 10 1
  initial_stability easy = decimal 20 1

  -- `LEARNING_GROWTH[rating]`, which the code reads only for a rating that is not AGAIN.
  unfoldable pub learning_growth : Rating → Float
  learning_growth hard = decimal 10 1
  learning_growth good = decimal 16 1
  learning_growth easy = decimal 25 1
  learning_growth again = decimal 10 1

  unfoldable pub review_growth : Rating → Float
  review_growth hard = decimal 8 1
  review_growth good = decimal 10 1
  review_growth easy = decimal 13 1
  review_growth again = decimal 10 1

  unfoldable pub ease_floor : Float
  ease_floor = decimal 13 1

  unfoldable pub ease_ceiling : Float
  ease_ceiling = decimal 50 1

  unfoldable pub difficulty_min : Float
  difficulty_min = decimal 10 1

  unfoldable pub difficulty_max : Float
  difficulty_max = decimal 100 1

  unfoldable pub min_interval_days : Float
  min_interval_days = div (of_nat 1) (of_nat 1440)

  unfoldable pub new_card : CardSchedule
  new_card = record {
    state = fresh;
    ease_factor = decimal 25 1;
    stability = decimal 0 0;
    difficulty = decimal 50 1;
    interval_days = decimal 0 0;
    repetitions = 0;
    lapses = 0;
    retention = decimal 0 0;
    due_at = none;
  }

  unfoldable pub seed_value : Option Difficulty → Float
  seed_value (some basic) = of_nat 3
  seed_value (some intermediate) = of_nat 5
  seed_value (some advanced) = of_nat 7
  seed_value none = of_nat 5

  unfoldable pub seed_difficulty : Option Difficulty → Float
  unfolding seed_value
  seed_difficulty difficulty = fmin F difficulty_max (fmax F difficulty_min (seed_value difficulty))

  unfoldable pub clamp : Float → Float → Float → Float
  clamp value low high = fmin F high (fmax F low value)

  -- The quality is at most 5, so `5 - quality` is a natural number.
  unfoldable pub update_ease : Float → Rating → Float
  unfolding clamp
  update_ease ease rating =
      let lost = of_nat (5 - quality rating) in
      let delta = sub (decimal 1 1) (mul lost (add (decimal 8 2) (mul lost (decimal 2 2)))) in
      clamp (add ease delta) ease_floor ease_ceiling

  -- `rating_index - 2` can be negative.
  unfoldable pub update_difficulty : Float → Rating → Float
  unfolding clamp
  update_difficulty difficulty rating =
      let delta =
        add (mul (neg (decimal 7 1)) (sub (of_nat (rating_index rating)) (of_nat 2)))
          (mul (decimal 2 2) (sub (of_nat 5) difficulty)) in
      clamp (add difficulty delta) difficulty_min difficulty_max

  unfoldable pub retention_after : Float → Float → Float
  retention_after days_since_effort stability_days =
      if le stability_days (decimal 0 0)
      then decimal 0 1
      else pow
          (add (of_nat 1)
            (mul (div (of_nat 19) (of_nat 81)) (div days_since_effort stability_days)))
          (neg (decimal 5 1))

  unfoldable pub remember : Float → Float → Float
  unfolding retention_after
  remember stability interval_days =
      if le stability (of_nat 0) then decimal 0 1 else retention_after interval_days stability

  unfoldable pub step_days : Rating → Float
  step_days rating = div (of_nat (learning_step_minutes rating)) (of_nat 1440)

  -- The constructor calls of `review_card`: the retention and the due time follow from the
  -- stability and the interval on every branch.
  unfoldable pub scheduled :
      State → CardSchedule → Rating → Float → Float → ℕ → ℕ → Time → CardSchedule
  unfolding update_ease update_difficulty remember
  scheduled state card rating stability interval repetitions lapses now = record {
    state = state;
    ease_factor = update_ease card.ease_factor rating;
    stability = stability;
    difficulty = update_difficulty card.difficulty rating;
    interval_days = interval;
    repetitions = repetitions;
    lapses = lapses;
    retention = remember stability interval;
    due_at = some (plus_days now interval);
  }

  unfoldable pub review_new : CardSchedule → Rating → Time → CardSchedule
  unfolding scheduled
  review_new card easy now =
      scheduled review card easy (initial_stability easy)
        (of_nat (max 1 (to_nat (round (initial_stability easy))))) 1 card.lapses now
  review_new card again now =
      scheduled learning card again (initial_stability again) (step_days again) 0 card.lapses now
  review_new card hard now =
      scheduled learning card hard (initial_stability hard) (step_days hard) 1 card.lapses now
  review_new card good now =
      scheduled learning card good (initial_stability good) (step_days good) 1 card.lapses now

  -- A rating other than AGAIN while learning: the card graduates at its second success.
  unfoldable pub learn_success : CardSchedule → Rating → Time → CardSchedule
  unfolding scheduled
  learn_success card rating now =
      let stability =
        mul (fmax F card.stability (initial_stability rating)) (learning_growth rating) in
      let repetitions = card.repetitions + 1 in
      if leb graduate_reps repetitions
      then scheduled review card rating stability
          (of_nat (min max_interval_days (max 1 (to_nat (round stability))))) repetitions
          card.lapses now
      else scheduled card.state card rating stability (fmax F min_interval_days (step_days rating))
          repetitions card.lapses now

  unfoldable pub review_learning : CardSchedule → Rating → Time → CardSchedule
  unfolding scheduled learn_success
  review_learning card again now =
      scheduled card.state card again (initial_stability again) (step_days again) 0 card.lapses now
  review_learning card hard now = learn_success card hard now
  review_learning card good now = learn_success card good now
  review_learning card easy now = learn_success card easy now

  unfoldable pub review_success : CardSchedule → Rating → Time → CardSchedule
  unfolding scheduled
  review_success card rating now =
      let stability =
        mul (mul card.stability (update_ease card.ease_factor rating)) (review_growth rating) in
      scheduled review card rating stability
        (of_nat (min max_interval_days (max 1 (to_nat (round stability))))) (card.repetitions + 1)
        card.lapses now

  unfoldable pub review_mature : CardSchedule → Rating → Time → CardSchedule
  unfolding scheduled review_success
  review_mature card again now =
      scheduled relearning card again (decimal 10 1) (step_days again) 0 (card.lapses + 1) now
  review_mature card hard now = review_success card hard now
  review_mature card good now = review_success card good now
  review_mature card easy now = review_success card easy now

  unfoldable pub review_in : State → CardSchedule → Rating → Time → CardSchedule
  unfolding review_new review_learning review_mature
  review_in fresh = review_new
  review_in learning = review_learning
  review_in relearning = review_learning
  review_in review = review_mature

  unfoldable pub review_card : CardSchedule → Rating → Time → CardSchedule
  unfolding review_in
  review_card card rating now = review_in card.state card rating now

  unfoldable pub is_leech : ℕ → ℕ → ℕ → Bool
  is_leech lapses reviews successes =
      leb leech_lapses lapses
      || (leb 8 reviews && lt F (div (of_nat successes) (of_nat reviews)) (decimal 35 2))
