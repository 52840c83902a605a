-- ===== src/Srs/Scheduler/Bounds.antt =====
-- app/services/srs/scheduler.py: the ranges of a reviewed card's numbers.
use scholarscrib_backend.Floats.{Floats, OrderLaws, clamp_bounds}
use scholarscrib_backend.Srs.Scheduler.{
  State, Rating, graduate_reps, CardSchedule, ease_floor, ease_ceiling, difficulty_min,
  difficulty_max, update_ease, update_difficulty, remember, learn_success, review_in, review_card,
  fresh, learning, relearning, review, again, hard, good, easy,
}
use scholarscrib_backend.Prelude.{
  ℕ, ◌+◌, ◌≤◌, ◌≡◌, refl, ◌≢◌, inl, inr, true, some, arith, leb, Bool-cases,
}

-- What a float type makes of the literals of the ranges.
pub record LiteralLaws (F : Floats) : Type 0 where
  pub ease_range : F.le (ease_floor F) (ease_ceiling F) ≡ true
  pub difficulty_range : F.le (difficulty_min F) (difficulty_max F) ≡ true

abbrev pub Within : (F : Floats) → F.Float → F.Float → F.Float → Type 0
Within F low high x = (F.le low x ≡ true) × (F.le x high ≡ true)

-- A whole number of days that the scheduler may set for a card in review.
abbrev pub WholeDays : (F : Floats) → F.Float → Type 0
WholeDays F interval = (n : ℕ) × (interval ≡ F.of_nat n) × (1 ≤ n) × (n ≤ 36500)

module _ (F : Floats) where
  open F use {Time, Float}

  abbrev Scored : CardSchedule F → Rating → Time → CardSchedule F → Type 0
  Scored card rating now after =
      (after.ease_factor ≡ update_ease F card.ease_factor rating)
      × (after.difficulty ≡ update_difficulty F card.difficulty rating)
      × (after.retention ≡ remember F after.stability after.interval_days)
      × (after.due_at ≡ some (F.plus_days now after.interval_days))

  learn_scores :
      (card : CardSchedule F) (rating : Rating) (now : Time)
      → Scored card rating now (learn_success F card rating now)
  unfolding learn_success
  learn_scores card rating now = elim (Bool-cases (leb graduate_reps (card.repetitions + 1))) [
    | inl e ↦ rw e (refl, refl, refl, refl)
    | inr e ↦ rw e (refl, refl, refl, refl)
  ]

  -- The ease and the difficulty are clamped on every branch.
  scores :
      (state : State) (card : CardSchedule F) (rating : Rating) (now : Time)
      → Scored card rating now (review_in F state card rating now)
  unfolding review_in
  scores fresh card again now = (refl, refl, refl, refl)
  scores fresh card hard now = (refl, refl, refl, refl)
  scores fresh card good now = (refl, refl, refl, refl)
  scores fresh card easy now = (refl, refl, refl, refl)
  scores review card again now = (refl, refl, refl, refl)
  scores review card hard now = (refl, refl, refl, refl)
  scores review card good now = (refl, refl, refl, refl)
  scores review card easy now = (refl, refl, refl, refl)
  scores learning card again now = (refl, refl, refl, refl)
  scores learning card hard now = learn_scores card hard now
  scores learning card good now = learn_scores card good now
  scores learning card easy now = learn_scores card easy now
  scores relearning card again now = (refl, refl, refl, refl)
  scores relearning card hard now = learn_scores card hard now
  scores relearning card good now = learn_scores card good now
  scores relearning card easy now = learn_scores card easy now

  -- After a review the ease lies between its floor and its ceiling and the difficulty between its
  -- bounds, whatever the card held before; the retention is the one after the new interval at the
  -- new stability, and the card is due when that interval is over.
  pub review_card_bounds :
      (laws : OrderLaws F) (literals : LiteralLaws F) (card : CardSchedule F) (rating : Rating)
      (now : Time)
      → Within F (ease_floor F) (ease_ceiling F) (review_card F card rating now).ease_factor
        × Within F (difficulty_min F) (difficulty_max F) (review_card F card rating now).difficulty
        × ((review_card F card rating now).retention
            ≡ remember F
                (review_card F card rating now).stability
                (review_card F card rating now).interval_days)
        × ((review_card F card rating now).due_at
            ≡ some (F.plus_days now (review_card F card rating now).interval_days))
  unfolding review_card update_ease update_difficulty
  review_card_bounds laws literals card rating now =
      let s = scores card.state card rating now in
      (
        rw s.0 (clamp_bounds F laws (ease_floor F) (ease_ceiling F) _ literals.ease_range),
        rw s.1
            (clamp_bounds F laws (difficulty_min F) (difficulty_max F) _ literals.difficulty_range),
        s.2,
        s.3,
      )

  learn_interval :
      (card : CardSchedule F) (rating : Rating) (now : Time)
      → 1 ≤ card.repetitions
      → WholeDays F (learn_success F card rating now).interval_days
  unfolding learn_success
  learn_interval card rating now h = elim (Bool-cases (leb graduate_reps (card.repetitions + 1))) [
    | inl e ↦ rw e (_, refl, omega arith, omega arith)
    | inr e ↦ absurd (ground arith)
  ]

  -- After a rating other than AGAIN, a card that is not new and has a success before is next due in
  -- a whole number of days, from one up to the cap of 36500.
  pub review_card-WholeDays :
      (card : CardSchedule F) (rating : Rating) (now : Time)
      → rating ≢ again
      → card.state ≢ fresh
      → 1 ≤ card.repetitions
      → WholeDays F (review_card F card rating now).interval_days
  unfolding review_card
  review_card-WholeDays card rating now r s h = in_state card.state rating r s
    where
      in_state :
          (state : State) (rating : Rating)
          → rating ≢ again
          → state ≢ fresh
          → WholeDays F (review_in F state card rating now).interval_days
      in_state fresh rating r s = absurd (s refl)
      in_state state again r s = absurd (r refl)
      in_state learning hard r s = learn_interval card hard now h
      in_state learning good r s = learn_interval card good now h
      in_state learning easy r s = learn_interval card easy now h
      in_state relearning hard r s = learn_interval card hard now h
      in_state relearning good r s = learn_interval card good now h
      in_state relearning easy r s = learn_interval card easy now h
      in_state review hard r s = (_, refl, omega arith, omega arith)
      in_state review good r s = (_, refl, omega arith, omega arith)
      in_state review easy r s = (_, refl, omega arith, omega arith)
