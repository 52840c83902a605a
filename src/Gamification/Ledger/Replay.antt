-- ===== src/Gamification/Ledger/Replay.antt =====
-- app/services/gamification/service.py: the services that pay XP, run once and run again.
use scholarscrib_backend.Gamification.Rules.{
  Event, practice_xp_eligible, corrections_allowed, events_for_attempt, idempotency_key,
  lesson_completed, practice_set_completed, topic_mastery_demonstrated, answer_corrected,
}
use scholarscrib_backend.Gamification.Ledger.{
  Ledger, has_key, award, Award, award_of, pay_each, AttemptFacts, sources_for, pay_events,
  award_attempt_xp, award_topic_mastery_xp, pay_corrections, award_correction_xp,
}
use scholarscrib_backend.Gamification.Ledger.Laws.{
  IsPaid, IsPaid-none, IsPaid-trans, award_list, award-IsPaid, award-has_key, award_again,
  pay_each-IsPaid,
}
use scholarscrib_backend.Prelude.{
  ℕ, zero, suc, ◌+◌, ◌-◌, ◌≤◌, max, String, ◌≡◌, refl, ◌⊎◌, inl, inr, Bool, true, false, Option,
  none, some, List, [], ◌∷◌, ◌++◌, map, arith, if◌then◌else◌, Bool-cases, length, keep, All,
}

-- Every source of an event has been paid.
abbrev AllPaid : Event → String → Ledger → List String → Type 0
AllPaid event student_id ledger sources =
    All (λ source. has_key ledger (idempotency_key event student_id source) ≡ true) sources

pay_each-AllPaid :
    (event : Event) (student_id : String) (sources : List String) (ledger : Ledger)
    → AllPaid event student_id (pay_each event student_id sources ledger).0 sources
unfolding pay_each
pay_each-AllPaid event student_id [] ledger = tt
pay_each-AllPaid event student_id (source ∷ sources) ledger =
    let written = (award event student_id source ledger).0 in
    (
      (pay_each-IsPaid event student_id sources written).keeps
          (idempotency_key event student_id source) (award-has_key event student_id source ledger),
      pay_each-AllPaid event student_id sources written,
    )

pay_each_again :
    (event : Event) (student_id : String) (sources : List String) (ledger : Ledger)
    → AllPaid event student_id ledger sources
    → pay_each event student_id sources ledger ≡ (ledger, [])
unfolding pay_each
pay_each_again event student_id [] ledger h = refl
pay_each_again event student_id (source ∷ sources) ledger h =
    rw
      (
        award_again event student_id source ledger h.0,
        pay_each_again event student_id sources ledger h.1,
      )
      refl

-- Awarding mastery a second time, for any of the topics that were mastered the first time, writes
-- nothing and pays nothing.
pub award_topic_mastery_xp_again :
    (student_id : String) (topics : List (String × Bool)) (ledger : Ledger)
    → award_topic_mastery_xp student_id topics (award_topic_mastery_xp student_id topics ledger).0
      ≡ ((award_topic_mastery_xp student_id topics ledger).0, [])
unfolding award_topic_mastery_xp
award_topic_mastery_xp_again student_id topics ledger =
    let sources = map (λ t. t.0) (keep (λ t. t.1) topics) in
    pay_each_again topic_mastery_demonstrated student_id sources
      (pay_each topic_mastery_demonstrated student_id sources ledger).0
      (pay_each-AllPaid topic_mastery_demonstrated student_id sources ledger)

pay_events-IsPaid :
    (events : List Event) (student_id attempt_id : String) (topic : Option String) (ledger : Ledger)
    → IsPaid student_id ledger
        (pay_events events student_id attempt_id topic ledger).0
        (pay_events events student_id attempt_id topic ledger).1
unfolding pay_events
pay_events-IsPaid [] student_id attempt_id topic ledger = IsPaid-none student_id ledger
pay_events-IsPaid (event ∷ events) student_id attempt_id topic ledger =
    let sources = sources_for event attempt_id topic in
    let written = (pay_each event student_id sources ledger).0 in
    IsPaid-trans student_id ledger written (pay_events events student_id attempt_id topic written).0
      (pay_each event student_id sources ledger).1
      (pay_events events student_id attempt_id topic written).1
      (pay_each-IsPaid event student_id sources ledger)
      (pay_events-IsPaid events student_id attempt_id topic written)

-- The award for an attempt keeps the keys of the ledger unique, loses no row's key, raises the
-- student's total by exactly the awards that it reports, and leaves other students' totals alone.
pub award_attempt_xp-IsPaid :
    (student_id attempt_id : String) (exit_passed : Option Bool) (facts : AttemptFacts)
    (awarded_today : ℕ) (ledger : Ledger)
    → IsPaid student_id ledger
        (award_attempt_xp student_id attempt_id exit_passed facts awarded_today ledger).0
        (award_attempt_xp student_id attempt_id exit_passed facts awarded_today ledger).1
unfolding award_attempt_xp
award_attempt_xp-IsPaid student_id attempt_id exit_passed facts awarded_today ledger =
    pay_events-IsPaid (events_for_attempt facts.completed exit_passed facts.answered awarded_today)
      student_id attempt_id facts.lesson_topic ledger

-- A later count of today's awards can only take events away.
events_later :
    (completed : Bool) (exit_passed : Option Bool) (answered now later : ℕ)
    → now ≤ later
    → (events_for_attempt completed exit_passed answered later ≡ [])
      ⊎ (events_for_attempt completed exit_passed answered later
          ≡ events_for_attempt completed exit_passed answered now)
unfolding events_for_attempt
events_later false exit_passed answered now later h = inl refl
events_later true (some true) answered now later h = inr refl
events_later true (some false) answered now later h = inl refl
events_later true none answered now later h =
    elim (Bool-cases (practice_xp_eligible answered later)) [
      | inl e ↦ inr (rw (e, still answered now later h e) refl)
      | inr e ↦ inl (rw e refl)
    ]
  where
    still :
        (answered now later : ℕ)
        → now ≤ later
        → practice_xp_eligible answered later ≡ true
        → practice_xp_eligible answered now ≡ true
    still answered now later h e = unfold practice_xp_eligible in ground arith

one_event :
    (completed : Bool) (exit_passed : Option Bool) (answered awarded : ℕ)
    → (events_for_attempt completed exit_passed answered awarded ≡ [])
      ⊎ ((event : Event) × (events_for_attempt completed exit_passed answered awarded ≡ event ∷ []))
unfolding events_for_attempt
one_event false exit_passed answered awarded = inl refl
one_event true (some true) answered awarded = inr (lesson_completed, refl)
one_event true (some false) answered awarded = inl refl
one_event true none answered awarded = elim (Bool-cases (practice_xp_eligible answered awarded)) [
  | inl e ↦ inr (practice_set_completed, rw e refl)
  | inr e ↦ inl (rw e refl)
]

pay_events_again :
    (event : Event) (student_id attempt_id : String) (topic : Option String) (ledger : Ledger)
    → pay_events
        (event ∷ [])
        student_id
        attempt_id
        topic
        (pay_events (event ∷ []) student_id attempt_id topic ledger).0
      ≡ ((pay_events (event ∷ []) student_id attempt_id topic ledger).0, [])
unfolding pay_events
pay_events_again event student_id attempt_id topic ledger =
    let sources = sources_for event attempt_id topic in
    rw
      (pay_each_again event student_id sources (pay_each event student_id sources ledger).0
        (pay_each-AllPaid event student_id sources ledger))
      refl

some_again :
    (later now : List Event) (student_id attempt_id : String) (topic : Option String)
    (ledger : Ledger)
    → (later ≡ []) ⊎ (later ≡ now)
    → (now ≡ []) ⊎ ((event : Event) × (now ≡ event ∷ []))
    → pay_events later student_id attempt_id topic
        (pay_events now student_id attempt_id topic ledger).0
      ≡ ((pay_events now student_id attempt_id topic ledger).0, [])
unfolding pay_events
some_again later now student_id attempt_id topic ledger (inl none_left) one = rw none_left refl
some_again later now student_id attempt_id topic ledger (inr same) (inl nothing) =
    rw (same, nothing) refl
some_again later now student_id attempt_id topic ledger (inr same) (inr (event, e)) =
    rw (same, e) (pay_events_again event student_id attempt_id topic ledger)

-- Submitting an attempt again, when at least as many awards have been made today, writes nothing
-- and pays nothing.
pub award_attempt_xp_again :
    (student_id attempt_id : String) (exit_passed : Option Bool) (facts : AttemptFacts)
    (awarded_today awarded_later : ℕ) (ledger : Ledger)
    → awarded_today ≤ awarded_later
    → award_attempt_xp student_id attempt_id exit_passed facts awarded_later
        (award_attempt_xp student_id attempt_id exit_passed facts awarded_today ledger).0
      ≡ ((award_attempt_xp student_id attempt_id exit_passed facts awarded_today ledger).0, [])
unfolding award_attempt_xp
award_attempt_xp_again student_id attempt_id exit_passed facts today later ledger h =
    some_again (events_for_attempt facts.completed exit_passed facts.answered later)
      (events_for_attempt facts.completed exit_passed facts.answered today) student_id attempt_id
      facts.lesson_topic ledger
      (events_later facts.completed exit_passed facts.answered today later h)
      (one_event facts.completed exit_passed facts.answered today)

pay_corrections-IsPaid :
    (student_id : String) (questions : List String) (room : ℕ) (ledger : Ledger)
    → IsPaid student_id ledger
        (pay_corrections student_id questions room ledger).0
        (pay_corrections student_id questions room ledger).1
      × (length (pay_corrections student_id questions room ledger).1 ≤ room)
unfolding pay_corrections award_list
pay_corrections-IsPaid student_id [] room ledger = (IsPaid-none student_id ledger, omega arith)
pay_corrections-IsPaid student_id (question ∷ questions) zero ledger =
    (IsPaid-none student_id ledger, omega arith)
pay_corrections-IsPaid student_id (question ∷ questions) (suc room) ledger =
    let written = (award answer_corrected student_id question ledger).0 in
    let paid = (award answer_corrected student_id question ledger).1 in
    let next = if paid then room else suc room in
    let ih = pay_corrections-IsPaid student_id questions next written in
    (
      IsPaid-trans student_id ledger written (pay_corrections student_id questions next written).0
          (award_list paid answer_corrected) (pay_corrections student_id questions next written).1
          (award-IsPaid answer_corrected student_id question ledger) ih.0,
      bounded paid (pay_corrections student_id questions next written).1 ih.1,
    )
  where
    bounded :
        (b : Bool) (awards : List Award)
        → length awards ≤ (if b then room else suc room)
        → length ((if b then award_of answer_corrected ∷ [] else []) ++ awards) ≤ suc room
    bounded true awards h = omega arith
    bounded false awards h = h

-- Corrections are paid like other awards, and never more of them than the day's ten less those
-- that were paid before.
award_correction_xp-IsPaid :
    (student_id : String) (corrected : List String) (awarded_today : ℕ) (ledger : Ledger)
    → IsPaid student_id ledger
        (award_correction_xp student_id corrected awarded_today ledger).0
        (award_correction_xp student_id corrected awarded_today ledger).1
      × (length (award_correction_xp student_id corrected awarded_today ledger).1 + awarded_today
          ≤ max 10 awarded_today)
unfolding award_correction_xp corrections_allowed
award_correction_xp-IsPaid student_id corrected awarded_today ledger =
    let paid = pay_corrections-IsPaid student_id corrected (10 - awarded_today) ledger in
    (paid.0, omega (arith, paid.1))
