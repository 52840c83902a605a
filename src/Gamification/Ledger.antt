-- ===== src/Gamification/Ledger.antt =====
-- The XP ledger: `award` of `xp_repository` in app/database/repositories/learning.py and the
-- services of app/services/gamification/service.py that pay. The ledger is the list of its rows; a
-- row whose key is there already is not inserted. What the services read from other tables is an
-- argument.
pub mod Laws
pub mod Replay
use scholarscrib_backend.Gamification.Rules.{
  Event, xp_amount, reason_of, corrections_allowed, events_for_attempt, idempotency_key,
  lesson_completed, topic_mastery_demonstrated, answer_corrected,
}
use scholarscrib_backend.Prelude.{
  ℕ, zero, suc, String, Bool, true, false, Option, none, some, List, [], ◌∷◌, ◌++◌, map, str_eq,
  if◌then◌else◌, keep, any, sum_of,
}

pub record Row : Type 0 where
  pub student_id : String
  pub amount : ℕ
  pub event : Event
  pub reason : String
  pub source_id : String
  pub key : String

abbrev pub Ledger : Type 0
Ledger = List Row

unfoldable pub has_key : Ledger → String → Bool
has_key ledger key = any (λ row. str_eq row.key key) ledger

abbrev pub row_for : Event → String → String → Row
row_for event student_id source_id = record {
  student_id = student_id;
  amount = xp_amount event;
  event = event;
  reason = reason_of event;
  source_id = source_id;
  key = idempotency_key event student_id source_id;
}

-- `on_conflict_do_nothing`: the answer says whether the row was written.
unfoldable pub award : Event → String → String → Ledger → Ledger × Bool
unfolding has_key
award event student_id source_id ledger =
    if has_key ledger (idempotency_key event student_id source_id)
    then (ledger, false)
    else (ledger ++ row_for event student_id source_id ∷ [], true)

unfoldable pub total : String → Ledger → ℕ
total student_id ledger =
    sum_of (λ row. row.amount) (keep (λ row. str_eq row.student_id student_id) ledger)

pub record Award : Type 0 where
  pub event : Event
  pub amount : ℕ
  pub reason : String

abbrev pub award_of : Event → Award
award_of event = record { event = event; amount = xp_amount event; reason = reason_of event }

-- The loops of the services: pay one event for each source, and list what was paid.
unfoldable pub pay_each : Event → String → List String → Ledger → Ledger × List Award
unfolding award
pay_each event student_id [] ledger = (ledger, [])
pay_each event student_id (source ∷ sources) ledger =
    let (written, paid) = award event student_id source ledger in
    let (later, awards) = pay_each event student_id sources written in
    (later, (if paid then award_of event ∷ [] else []) ++ awards)

-- `AwardAttemptXpService.process`. A lesson pays once for its topic, any other attempt for itself.
pub record AttemptFacts : Type 0 where
  pub completed : Bool
  pub answered : ℕ
  pub lesson_topic : Option String

unfoldable pub sources_for : Event → String → Option String → List String
sources_for lesson_completed attempt_id none = []
sources_for lesson_completed attempt_id (some topic) = topic ∷ []
sources_for _ attempt_id topic = attempt_id ∷ []

unfoldable pub pay_events :
    List Event → String → String → Option String → Ledger → Ledger × List Award
unfolding pay_each sources_for
pay_events [] student_id attempt_id topic ledger = (ledger, [])
pay_events (event ∷ events) student_id attempt_id topic ledger =
    let (written, first_awards) =
      pay_each event student_id (sources_for event attempt_id topic) ledger in
    let (later, awards) = pay_events events student_id attempt_id topic written in
    (later, first_awards ++ awards)

unfoldable pub award_attempt_xp :
    String → String → Option Bool → AttemptFacts → ℕ → Ledger → Ledger × List Award
unfolding pay_events
award_attempt_xp student_id attempt_id exit_passed facts awarded_today ledger =
    pay_events (events_for_attempt facts.completed exit_passed facts.answered awarded_today)
      student_id attempt_id facts.lesson_topic ledger

-- `AwardTopicMasteryXpService.process`, over the touched topics with `is_mastered` of their states.
unfoldable pub award_topic_mastery_xp : String → List (String × Bool) → Ledger → Ledger × List Award
unfolding pay_each
award_topic_mastery_xp student_id topics ledger =
    pay_each topic_mastery_demonstrated student_id (map (λ t. t.0) (keep (λ t. t.1) topics)) ledger

-- The loop of `AwardCorrectionXpService.process`: it stops when the day has no room left.
unfoldable pub pay_corrections : String → List String → ℕ → Ledger → Ledger × List Award
unfolding award
pay_corrections student_id [] room ledger = (ledger, [])
pay_corrections student_id (question ∷ questions) zero ledger = (ledger, [])
pay_corrections student_id (question ∷ questions) (suc room) ledger =
    let (written, paid) = award answer_corrected student_id question ledger in
    let (later, awards) =
      pay_corrections student_id questions (if paid then room else suc room) written in
    (later, (if paid then award_of answer_corrected ∷ [] else []) ++ awards)

unfoldable pub award_correction_xp : String → List String → ℕ → Ledger → Ledger × List Award
unfolding pay_corrections
award_correction_xp student_id corrected awarded_today ledger =
    pay_corrections student_id corrected (corrections_allowed awarded_today) ledger
