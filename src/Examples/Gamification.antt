-- ===== src/Examples/Gamification.antt =====
-- Runs of app/services/gamification at concrete inputs.
use scholarscrib_backend.Gamification.Rules.{lesson_completed}
use scholarscrib_backend.Gamification.Ledger.{Ledger, row_for, AttemptFacts, award_attempt_xp}
use scholarscrib_backend.Gamification.Ledger.Laws.{IsPaid}
use scholarscrib_backend.Gamification.Ledger.Replay.{
  award_attempt_xp-IsPaid, award_attempt_xp_again,
}
use scholarscrib_backend.Gamification.Streaks.{Days, has, current_streak, return_state}
use scholarscrib_backend.Gamification.Streaks.Laws.{current_streak_lem, return_state_lem}
use scholarscrib_backend.Prelude.{
  ℕ, ◌-◌, ◌≤◌, ◌<◌, ◌≡◌, refl, true, false, none, [], ◌∷◌, arith, leb, keep, All,
}

abbrev practice : AttemptFacts
practice = record { completed = true; answered = 8; lesson_topic = none }

abbrev one_row : Ledger
one_row = row_for lesson_completed "ada" "topic-1" ∷ []

award_attempt_xp-IsPaid_example :
    IsPaid "ada" one_row
      (award_attempt_xp "ada" "attempt-1" none practice 1 one_row).0
      (award_attempt_xp "ada" "attempt-1" none practice 1 one_row).1
award_attempt_xp-IsPaid_example = award_attempt_xp-IsPaid "ada" "attempt-1" none practice 1 one_row

award_attempt_xp_again_example :
    award_attempt_xp "ada" "attempt-1" none practice 2
      (award_attempt_xp "ada" "attempt-1" none practice 1 one_row).0
    ≡ ((award_attempt_xp "ada" "attempt-1" none practice 1 one_row).0, [])
award_attempt_xp_again_example =
    award_attempt_xp_again "ada" "attempt-1" none practice 1 2 one_row (omega arith)

abbrev studied : Days
studied = 98 ∷ 99 ∷ 100 ∷ 95 ∷ []

current_streak_lem_example :
    ((k : ℕ) → k < current_streak studied 100 → has studied (100 - k) ≡ true)
    × (has studied (100 - current_streak studied 100) ≡ false)
current_streak_lem_example = current_streak_lem studied 100 refl

return_state_lem_example :
    All (λ day. day ≤ 103 - 3) (keep (λ day. leb day 103) studied)
    × (has (keep (λ day. leb day 103) studied) (103 - 3) ≡ true)
return_state_lem_example = return_state_lem studied 103 3 (unfold return_state in refl)
