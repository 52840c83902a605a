-- ===== src/Examples/Learning.antt =====
-- Runs of app/services/learning at concrete inputs.
use scholarscrib_backend.Floats.Scaled.{scaled}
use scholarscrib_backend.Learning.Mastery.{
  TopicAggregate, LearningEventView, empty_channel, fold_events, quiz_abandoned,
}
use scholarscrib_backend.Learning.Mastery.Replay.{SameCounts}
use scholarscrib_backend.Learning.Mastery.Refold.{fold_events_again, fold_events-abandoned}
use scholarscrib_backend.Learning.Session.{Item, PlanItem, stays, reconcile_plan, learn}
use scholarscrib_backend.Learning.Session.Laws.{reconcile_plan_again}
use scholarscrib_backend.Prelude.{◌≡◌, refl, true, false, none, some, List, [], ◌∷◌, All}

abbrev started_topic : TopicAggregate scaled
started_topic = record {
  acc = empty_channel scaled;
  lesson = empty_channel scaled;
  srs = empty_channel scaled;
  abandon_count = 0;
  decay_anchor = none;
  last_effort_at = none;
  evidence_days = 0;
  last_evidence_day = none;
  cursor_seq = 4;
  version = 4;
}

abbrev abandoned : LearningEventView scaled
abandoned = record {
  seq = 5;
  kind = quiz_abandoned;
  correct = false;
  score = none;
  difficulty = none;
  seconds = none;
  occurred_at = some 1000;
}

fold_events_again_example :
    SameCounts scaled (fold_events scaled started_topic (abandoned ∷ []) 2000) (
      fold_events scaled
        (fold_events scaled started_topic (abandoned ∷ []) 2000)
        (abandoned ∷ [])
        3000)
fold_events_again_example = fold_events_again scaled started_topic (abandoned ∷ []) 2000 3000

abbrev twice_left : List (LearningEventView scaled)
twice_left = abandoned ∷ record abandoned { seq = 9 } ∷ []

fold_events-abandoned_example :
    ((fold_events scaled started_topic twice_left 2000).abandon_count ≡ 2)
    × ((fold_events scaled
          (fold_events scaled started_topic twice_left 2000)
          twice_left
          3000).abandon_count
        ≡ 4)
fold_events-abandoned_example =
    fold_events-abandoned scaled started_topic twice_left 2000 3000 refl
      ((λ h. refl), ((λ h. refl), tt))

abbrev stored_items : List Item
stored_items =
    record {
      id = "plan:old";
      from_plan = true;
      kind = learn;
      plan_item_id = "old";
      topic_id = some "topic-1";
      subject_id = some "maths";
      activity_type = some "LESSON";
      due_cards = 0;
      minutes = 10;
      done_at = none;
    }
    ∷ []

abbrev live_items : List PlanItem
live_items =
    record {
      id = "new";
      activity_type = "LESSON";
      topic_id = some "topic-1";
      subject_id = some "maths";
    }
    ∷ []

reconcile_plan_again_example :
    All (λ item. stays live_items item ≡ true) (reconcile_plan stored_items live_items).0
    × (reconcile_plan (reconcile_plan stored_items live_items).0 live_items
        ≡ ((reconcile_plan stored_items live_items).0, false))
reconcile_plan_again_example = reconcile_plan_again stored_items live_items
