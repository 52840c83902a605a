-- ===== src/Examples/Srs.antt =====
-- Runs of app/services/srs/scheduler.py at concrete inputs.
use scholarscrib_backend.Floats.Scaled.{scaled}
use scholarscrib_backend.Srs.Scheduler.{
  CardSchedule, ease_floor, ease_ceiling, difficulty_min, difficulty_max, new_card, review_card,
  fresh, relearning, review, again, hard, good,
}
use scholarscrib_backend.Srs.Scheduler.States.{IsCounted, review_card-next_state}
use scholarscrib_backend.Srs.Scheduler.History.{review_all, review_all-review}
use scholarscrib_backend.Srs.Scheduler.Bounds.{LiteralLaws, WholeDays, review_card-WholeDays}
use scholarscrib_backend.Srs.Sync.{ExistingCard, IncomingCard}
use scholarscrib_backend.Prelude.{◌≡◌, refl, ◌≢◌, none, some, List, [], ◌∷◌, arith}

abbrev mature : CardSchedule scaled
mature = record {
  state = review;
  ease_factor = 25000;
  stability = 120000;
  difficulty = 50000;
  interval_days = 120000;
  repetitions = 3;
  lapses = 1;
  retention = 9000;
  due_at = some 864000;
}

mature-IsCounted : IsCounted scaled mature
unfolding IsCounted
mature-IsCounted = omega arith

scaled-LiteralLaws : LiteralLaws scaled
unfolding ease_floor ease_ceiling difficulty_min difficulty_max
scaled-LiteralLaws = record { ease_range = refl; difficulty_range = refl }

review_card-next_state_example :
    ((review_card scaled mature again 900000).state ≡ relearning)
    × ((review_card scaled mature again 900000).lapses ≡ 2)
    × ((review_card scaled mature again 900000).repetitions ≡ 0)
review_card-next_state_example = review_card-next_state scaled mature again 900000 mature-IsCounted

review_all-review_example :
    ((review_card scaled
        (review_card scaled (review_all scaled (new_card scaled) ((hard, 100) ∷ [])) hard 700)
        good
        90000).state
      ≡ review)
    × ((review_card scaled
          (review_card scaled
            (review_card scaled (review_all scaled (new_card scaled) ((hard, 100) ∷ [])) hard 700)
            good
            90000)
          again
          99000).state
        ≡ relearning)
review_all-review_example =
    review_all-review scaled ((hard, 100) ∷ []) hard good 700 90000 99000 refl refl

good-again : good ≢ again
good-again h = ground arith

review-fresh : review ≢ fresh
review-fresh h = ground arith

review_card-WholeDays_example :
    WholeDays scaled (review_card scaled mature good 900000).interval_days
review_card-WholeDays_example =
    review_card-WholeDays scaled mature good 900000 good-again review-fresh (omega arith)

abbrev old_deck : List ExistingCard
old_deck =
    record { id = "c1"; source_key = some "k1"; front = "Force" }
    ∷ record { id = "c2"; source_key = none; front = "Mass" }
    ∷ record { id = "c3"; source_key = some "k3"; front = "Work" }
    ∷ []

abbrev new_cards : List IncomingCard
new_cards =
    record { source_key = "k1"; front = "A force"; content = "1" }
    ∷ record { source_key = "k2"; front = "Mass"; content = "2" }
    ∷ record { source_key = "k4"; front = "Power"; content = "4" }
    ∷ []
