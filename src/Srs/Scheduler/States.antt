-- ===== src/Srs/Scheduler/States.antt =====
-- app/services/srs/scheduler.py: the states of a card, and how a review moves it.
use scholarscrib_backend.Floats.{Floats}
use scholarscrib_backend.Srs.Scheduler.{
  State, Rating, CardSchedule, learn_success, review_in, review_card, fresh, learning, relearning,
  review, again, hard, good, easy,
}
use scholarscrib_backend.Prelude.{ℕ, zero, suc, ◌≤◌, ◌≡◌, refl, arith}

-- What a card's counters are in each state.
abbrev pub Counts : State → ℕ → ℕ → Type 0
Counts fresh repetitions lapses = (repetitions ≡ 0) × (lapses ≡ 0)
Counts learning repetitions lapses = (repetitions ≤ 1) × (lapses ≡ 0)
Counts relearning repetitions lapses = (repetitions ≤ 1) × (1 ≤ lapses)
Counts review repetitions lapses = 1 ≤ repetitions

-- The state after a review, as a machine of its own: the successes so far decide when a card that
-- is being learned graduates.
abbrev pub next_state : State → Rating → ℕ → State
next_state fresh easy repetitions = review
next_state fresh rating repetitions = learning
next_state review again repetitions = relearning
next_state review rating repetitions = review
next_state state again repetitions = state
next_state state rating zero = state
next_state state rating (suc repetitions) = review

-- A success while learning.
abbrev after_success : State → ℕ → State
after_success state zero = state
after_success state (suc repetitions) = review

-- A lapse is a card in review that is forgotten.
abbrev pub next_lapses : State → Rating → ℕ → ℕ
next_lapses review again lapses = suc lapses
next_lapses state rating lapses = lapses

abbrev pub next_repetitions : Rating → ℕ → ℕ
next_repetitions again repetitions = 0
next_repetitions rating repetitions = suc repetitions

module _ (F : Floats) where
  open F use {Time}

  unfoldable pub IsCounted : CardSchedule F → Type 0
  IsCounted card = Counts card.state card.repetitions card.lapses

  learn_state :
      (card : CardSchedule F) (rating : Rating) (now : Time) (state : State)
      → card.state ≡ state
      → card.repetitions ≤ 1
      → ((learn_success F card rating now).state ≡ after_success state card.repetitions)
        × ((learn_success F card rating now).lapses ≡ card.lapses)
        × ((learn_success F card rating now).repetitions ≡ suc card.repetitions)
  unfolding learn_success
  learn_state card rating now state e c = ground arith

  in_state :
      (state : State) (card : CardSchedule F) (rating : Rating) (now : Time)
      → card.state ≡ state
      → Counts state card.repetitions card.lapses
      → ((review_in F state card rating now).state ≡ next_state state rating card.repetitions)
        × ((review_in F state card rating now).lapses ≡ next_lapses state rating card.lapses)
        × ((review_in F state card rating now).repetitions
            ≡ next_repetitions rating card.repetitions)
  unfolding review_in
  in_state fresh card again now e c = (refl, refl, refl)
  in_state fresh card hard now e c = (refl, refl, ground arith)
  in_state fresh card good now e c = (refl, refl, ground arith)
  in_state fresh card easy now e c = (refl, refl, ground arith)
  in_state review card again now e c = (refl, ground arith, refl)
  in_state review card hard now e c = (refl, refl, ground arith)
  in_state review card good now e c = (refl, refl, ground arith)
  in_state review card easy now e c = (refl, refl, ground arith)
  in_state learning card again now e c = (e, refl, refl)
  in_state learning card hard now e c = learn_state card hard now learning e (ground arith)
  in_state learning card good now e c = learn_state card good now learning e (ground arith)
  in_state learning card easy now e c = learn_state card easy now learning e (ground arith)
  in_state relearning card again now e c = (e, refl, refl)
  in_state relearning card hard now e c = learn_state card hard now relearning e (ground arith)
  in_state relearning card good now e c = learn_state card good now relearning e (ground arith)
  in_state relearning card easy now e c = learn_state card easy now relearning e (ground arith)

  next_Counts :
      (state : State) (rating : Rating) (repetitions lapses : ℕ)
      → Counts state repetitions lapses
      → Counts
          (next_state state rating repetitions)
          (next_repetitions rating repetitions)
          (next_lapses state rating lapses)
  next_Counts fresh again r l c = omega arith
  next_Counts fresh hard r l c = omega arith
  next_Counts fresh good r l c = omega arith
  next_Counts fresh easy r l c = omega arith
  next_Counts review again r l c = omega arith
  next_Counts review hard r l c = omega arith
  next_Counts review good r l c = omega arith
  next_Counts review easy r l c = omega arith
  next_Counts learning again r l c = omega arith
  next_Counts learning hard zero l c = omega arith
  next_Counts learning hard (suc r) l c = omega arith
  next_Counts learning good zero l c = omega arith
  next_Counts learning good (suc r) l c = omega arith
  next_Counts learning easy zero l c = omega arith
  next_Counts learning easy (suc r) l c = omega arith
  next_Counts relearning again r l c = omega arith
  next_Counts relearning hard zero l c = omega arith
  next_Counts relearning hard (suc r) l c = omega arith
  next_Counts relearning good zero l c = omega arith
  next_Counts relearning good (suc r) l c = omega arith
  next_Counts relearning easy zero l c = omega arith
  next_Counts relearning easy (suc r) l c = omega arith

  -- A review moves a card as the state machine says: the state, the lapses and the repetitions.
  pub review_card-next_state :
      (card : CardSchedule F) (rating : Rating) (now : Time)
      → IsCounted card
      → ((review_card F card rating now).state ≡ next_state card.state rating card.repetitions)
        × ((review_card F card rating now).lapses ≡ next_lapses card.state rating card.lapses)
        × ((review_card F card rating now).repetitions ≡ next_repetitions rating card.repetitions)
  unfolding review_card IsCounted
  review_card-next_state card rating now c = in_state card.state card rating now refl c

  -- A review keeps the counts in step with the state.
  pub review_card-IsCounted :
      (card : CardSchedule F) (rating : Rating) (now : Time)
      → IsCounted card
      → IsCounted (review_card F card rating now)
  unfolding IsCounted
  review_card-IsCounted card rating now c =
      let step = review_card-next_state card rating now c in
      rw (step.0, step.1, step.2) (next_Counts card.state rating card.repetitions card.lapses c)
