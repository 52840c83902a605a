-- ===== src/Learning/Evidence.antt =====
-- app/services/learning/evidence.py: the weights and scores of learning evidence.
use scholarscrib_backend.Floats.{Floats, lt}
use scholarscrib_backend.Srs.Scheduler.{Difficulty, basic, advanced}
use scholarscrib_backend.Prelude.{
  ℕ, ◌≤◌, Bool, true, false, Option, none, some, arith, leb, if◌then◌else◌,
}

pub data Level : Type 0 where
  weak developing competent strong : Level

-- The level of a mastery score and the days that it stays stable.
unfoldable pub mastery_level : ℕ → Level × ℕ
mastery_level score =
    if leb 85 score
    then (strong, 60)
    else if leb 70 score
    then (competent, 30)
    else if leb 50 score
    then (developing, 14)
    else (weak, 5)

-- A higher score never has a shorter stability.
pub mastery_level_mono :
    (low high : ℕ) → low ≤ high → (mastery_level low).1 ≤ (mastery_level high).1
unfolding mastery_level
mastery_level_mono low high h = ground arith

module _ (F : Floats) where
  open F use {Float, decimal, add, mul, div, pow, neg, le, of_nat}

  -- 2 ** (-age_days / RECENCY_HALF_LIFE_DAYS)
  unfoldable pub recency_weight : Float → Float
  recency_weight age_days = pow (of_nat 2) (div (neg age_days) (of_nat 45))

  is_rapid : Option Float → Bool
  is_rapid none = false
  is_rapid (some seconds) = lt F seconds (of_nat 3)

  unfoldable pub response_weight : Float → Option Float → Float
  unfolding recency_weight is_rapid
  response_weight age_days seconds =
      if is_rapid seconds
      then mul (recency_weight age_days) (decimal 3 1)
      else recency_weight age_days

  unfoldable pub question_outcome : Option Difficulty → Bool → Float
  question_outcome (some basic) true = decimal 85 2
  question_outcome (some basic) false = decimal 0 1
  question_outcome (some advanced) true = decimal 10 1
  question_outcome (some advanced) false = decimal 35 2
  question_outcome _ true = decimal 10 1
  question_outcome _ false = decimal 15 2

  -- The score and the confidence of a channel, with the prior's strength 4 and outcome 0.45.
  unfoldable pub channel_score : Float → Float → Float × Float
  channel_score outcome mass = (
    div (add outcome (mul (of_nat 4) (decimal 45 2))) (add mass (of_nat 4)),
    div mass (add mass (of_nat 4)),
  )
