-- ===== src/Srs/Scheduler/History.antt =====
-- app/services/srs/scheduler.py: the state of a card after a history of reviews.
use scholarscrib_backend.Floats.{Floats}
use scholarscrib_backend.Srs.Scheduler.{
  State, Rating, CardSchedule, new_card, review_card, fresh, learning, relearning, review, again,
  hard, good, easy,
}
use scholarscrib_backend.Prelude.{Bool, true, false, ℕ, zero, suc, ◌≡◌, refl, ◌∙◌, List, [], ◌∷◌}
use scholarscrib_backend.Srs.Scheduler.States.{
  next_state, next_repetitions, IsCounted, review_card-next_state, review_card-IsCounted,
}

module _ (F : Floats) where
  open F use {Time}

  -- A card's history, the first review first.
  pub review_all : CardSchedule F → List (Rating × Time) → CardSchedule F
  review_all card [] = card
  review_all card ((rating, now) ∷ rest) = review_all (review_card F card rating now) rest

  -- Over a history of reviews the counts stay in step with the state.
  review_all-IsCounted :
      (card : CardSchedule F) (reviews : List (Rating × Time))
      → IsCounted F card
      → IsCounted F (review_all card reviews)
  unfolding review_all
  review_all-IsCounted card [] c = c
  review_all-IsCounted card ((rating, now) ∷ rest) c =
      review_all-IsCounted (review_card F card rating now) rest
        (review_card-IsCounted F card rating now c)

  new_card-IsCounted : IsCounted F (new_card F)
  unfolding IsCounted new_card
  new_card-IsCounted = (refl, refl)

  -- A rating other than AGAIN is a success.
  abbrev pub is_success : Rating → Bool
  is_success again = false
  is_success rating = true

  repetitions_after :
      (rating : Rating) (n : ℕ) → is_success rating ≡ true → next_repetitions rating n ≡ suc n
  repetitions_after again n h = cc
  repetitions_after hard n h = refl
  repetitions_after good n h = refl
  repetitions_after easy n h = refl

  -- A success after a success.
  second_success :
      (state : State) (rating : Rating) (n : ℕ)
      → is_success rating ≡ true
      → (state ≡ fresh → ⊥)
      → next_state state rating (suc n) ≡ review
  second_success fresh rating n h new = absurd (new refl)
  second_success review again n h new = cc
  second_success review hard n h new = refl
  second_success review good n h new = refl
  second_success review easy n h new = refl
  second_success learning again n h new = cc
  second_success learning hard n h new = refl
  second_success learning good n h new = refl
  second_success learning easy n h new = refl
  second_success relearning again n h new = cc
  second_success relearning hard n h new = refl
  second_success relearning good n h new = refl
  second_success relearning easy n h new = refl

  not_new : (state : State) (rating : Rating) (n : ℕ) → next_state state rating n ≡ fresh → ⊥
  not_new fresh again n h = cc
  not_new fresh hard n h = cc
  not_new fresh good n h = cc
  not_new fresh easy n h = cc
  not_new review again n h = cc
  not_new review hard n h = cc
  not_new review good n h = cc
  not_new review easy n h = cc
  not_new learning again n h = cc
  not_new learning hard zero h = cc
  not_new learning hard (suc n) h = cc
  not_new learning good zero h = cc
  not_new learning good (suc n) h = cc
  not_new learning easy zero h = cc
  not_new learning easy (suc n) h = cc
  not_new relearning again n h = cc
  not_new relearning hard zero h = cc
  not_new relearning hard (suc n) h = cc
  not_new relearning good zero h = cc
  not_new relearning good (suc n) h = cc
  not_new relearning easy zero h = cc
  not_new relearning easy (suc n) h = cc

  -- Whatever the reviews of a new card were, two successes in a row, each HARD, GOOD or EASY, bring
  -- it to review, and a failure then makes it relearn.
  pub review_all-review :
      (reviews : List (Rating × Time)) (one two : Rating) (now later last : Time)
      → is_success one ≡ true
      → is_success two ≡ true
      → ((review_card F (review_card F (review_all (new_card F) reviews) one now) two later).state
          ≡ review)
        × ((review_card F
              (review_card F (review_card F (review_all (new_card F) reviews) one now) two later)
              again
              last).state
            ≡ relearning)
  review_all-review reviews one two now later last h k =
      let card = review_all (new_card F) reviews in
      let next = review_card F card one now in
      let after = review_card F next two later in
      let c0 = review_all-IsCounted (new_card F) reviews new_card-IsCounted in
      let s1 = review_card-next_state F card one now c0 in
      let c1 = review_card-IsCounted F card one now c0 in
      let s2 = review_card-next_state F next two later c1 in
      let c2 = review_card-IsCounted F next two later c1 in
      let s3 = review_card-next_state F after again last c2 in
      let mature : after.state ≡ review =
        s2.0
        ∙ rw (s1.0, s1.2, repetitions_after one card.repetitions h)
            (second_success (next_state card.state one card.repetitions) two card.repetitions k
              (not_new card.state one card.repetitions)) in
      (mature, s3.0 ∙ rw mature refl)
