-- ===== src/Gamification/Quests.antt =====
-- app/services/gamification/quests.py: the daily quests and their progress.
use scholarscrib_backend.Prelude.{
  ℕ, zero, suc, ◌≤◌, min, String, ◌≡◌, refl, ◌↔◌, Bool, true, false, ◌&&◌, Option, none, some, List,
  [], ◌∷◌, map, arith, str_eq, ltb, leb, ◌==◌, if◌then◌else◌, &&-true, ◌<>◌, to_text,
}
use scholarscrib_backend.Prelude.Dict

abbrev pub warm_up_questions : ℕ
warm_up_questions = 5

abbrev pub focus_questions : ℕ
focus_questions = 10

abbrev pub revision_cards : ℕ
revision_cards = 5

pub record DayCounts : Type 0 where
  pub questions : ℕ
  pub questions_by_subject : List (String × ℕ)
  pub cards : ℕ
  pub practice_sets : ℕ

-- The id of a quest is the name of its type.
pub data QuestType : Type 0 where
  warm_up focus revision practice_set : QuestType

pub record Quest : Type 0 where
  pub type : QuestType
  pub title : String
  pub description : String
  pub target : ℕ
  pub subject_id : Option String
  pub href : String

unfoldable pub focus_quest : Option (String × String) → Quest
focus_quest none = record {
  type = focus;
  title = "Focus session";
  description = "Answer " <> to_text focus_questions <> " questions in any subject.";
  target = focus_questions;
  subject_id = none;
  href = "/practice";
}
focus_quest (some (subject_id, name)) = record {
  type = focus;
  title = "Focus on " <> name;
  description = "Answer " <> to_text focus_questions <> " " <> name <> " questions.";
  target = focus_questions;
  subject_id = some subject_id;
  href = "/practice";
}

unfoldable pub third_quest : ℕ → Quest
third_quest due_cards =
    let target = min revision_cards due_cards in
    if ltb 0 due_cards
    then record {
      type = revision;
      title = "Revision";
      description =
          "Review " <> to_text target <> " due card" <> (if target == 1 then "" else "s") <> ".";
      target = target;
      subject_id = none;
      href = "/flashcards";
    }
    else record {
      type = practice_set;
      title = "Finish a practice set";
      description = "Complete one practice set.";
      target = 1;
      subject_id = none;
      href = "/practice";
    }

unfoldable pub build_quests : Option (String × String) → ℕ → List Quest
unfolding focus_quest third_quest
build_quests focus_subject due_cards =
    record {
      type = warm_up;
      title = "Warm-up";
      description = "Answer " <> to_text warm_up_questions <> " questions.";
      target = warm_up_questions;
      subject_id = none;
      href = "/practice";
    }
    ∷ focus_quest focus_subject
    ∷ third_quest due_cards
    ∷ []

unfoldable pub raw_progress : QuestType → Option String → DayCounts → ℕ
raw_progress warm_up subject counts = counts.questions
raw_progress focus none counts = counts.questions
raw_progress focus (some subject) counts = Dict.get_or str_eq counts.questions_by_subject subject 0
raw_progress revision subject counts = counts.cards
raw_progress practice_set subject counts = counts.practice_sets

pub record QuestRow : Type 0 where
  pub quest : Quest
  pub progress : ℕ
  pub complete : Bool

unfoldable pub evaluate_one : DayCounts → Quest → QuestRow
unfolding raw_progress
evaluate_one counts quest =
    let progress = min (raw_progress quest.type quest.subject_id counts) quest.target in
    record { quest = quest; progress = progress; complete = leb quest.target progress }

unfoldable pub evaluate : List Quest → DayCounts → List QuestRow
unfolding evaluate_one
evaluate quests counts = map (evaluate_one counts) quests

-- `all(q["complete"] for q in rows)`, over some row.
unfoldable pub all_complete : List QuestRow → Bool
all_complete [] = false
all_complete (row ∷ []) = row.complete
all_complete (row ∷ next ∷ rows) = row.complete && all_complete (next ∷ rows)

-- The answers that count for the focus quest.
abbrev pub focus_count : Option (String × String) → DayCounts → ℕ
focus_count none counts = counts.questions
focus_count (some (subject_id, name)) counts =
    Dict.get_or str_eq counts.questions_by_subject subject_id 0

-- The third quest asks for reviews of due cards, or for a practice set when none is due.
abbrev pub ThirdDone : ℕ → DayCounts → Type 0
ThirdDone zero counts = 1 ≤ counts.practice_sets
ThirdDone (suc n) counts = min 5 (suc n) ≤ counts.cards

third_complete :
    (due_cards : ℕ) (counts : DayCounts)
    → ((evaluate_one counts (third_quest due_cards)).complete ≡ true) ↔ ThirdDone due_cards counts
unfolding evaluate_one third_quest
third_complete zero counts = (λ h. ground arith, λ h. ground arith)
third_complete (suc n) counts = (λ h. ground arith, λ h. ground arith)

focus_complete :
    (subject : Option (String × String)) (counts : DayCounts)
    → ((evaluate_one counts (focus_quest subject)).complete ≡ true)
      ↔ (10 ≤ focus_count subject counts)
unfolding evaluate_one focus_quest
focus_complete none counts = (λ h. ground arith, λ h. ground arith)
focus_complete (some (s, n)) counts = (λ h. ground arith, λ h. ground arith)

-- All three quests of a day are complete exactly when the student has answered five questions, ten
-- of the focus (any questions where there is none), and has reviewed the due cards up to five or,
-- when none is due, has finished a practice set.
pub evaluate-build_quests :
    (subject : Option (String × String)) (due_cards : ℕ) (counts : DayCounts)
    → (all_complete (evaluate (build_quests subject due_cards) counts) ≡ true)
      ↔ ((5 ≤ counts.questions) × (10 ≤ focus_count subject counts) × ThirdDone due_cards counts)
unfolding all_complete evaluate build_quests evaluate_one
evaluate-build_quests subject due_cards counts =
    let focused = focus_complete subject counts in
    let third = third_complete due_cards counts in
    (
      λ h.
          let p = &&-true h in
          let q = &&-true p.1 in (warm_complete.0 p.0, focused.0 q.0, third.0 q.1),
      λ h. and_true (warm_complete.1 h.0) (and_true (focused.1 h.1) (third.1 h.2)),
    )
  where
    warm_complete :
        (leb warm_up_questions (min counts.questions warm_up_questions) ≡ true)
        ↔ (5 ≤ counts.questions)
    warm_complete = (λ h. ground arith, λ h. ground arith)

    and_true : {a b : Bool} → a ≡ true → b ≡ true → (a && b) ≡ true
    and_true h k = rw (h, k) refl

-- Progress never passes the target, and a quest is complete exactly when it reaches it.
pub evaluate_one_bounds :
    (quest : Quest) (counts : DayCounts)
    → ((evaluate_one counts quest).progress ≤ quest.target)
      × (((evaluate_one counts quest).complete ≡ true)
          ↔ (quest.target ≤ raw_progress quest.type quest.subject_id counts))
unfolding evaluate_one
evaluate_one_bounds quest counts = (ground arith, (λ h. ground arith, λ h. ground arith))
