-- ===== src/Examples/Session.antt =====
-- Runs of compose_session at concrete inputs.
use scholarscrib_backend.Floats.Scaled.{scaled}
use scholarscrib_backend.Learning.Evidence.{weak}
use scholarscrib_backend.Learning.Graph.{GraphNode}
use scholarscrib_backend.Learning.Mastery.Reading.{TopicState}
use scholarscrib_backend.Learning.Session.Candidates.{SessionInputs}
use scholarscrib_backend.Learning.Session.Compose.{session_max_items, compose_session}
use scholarscrib_backend.Learning.Session.Compose.Budget.{
  open_minutes, planned, Fits, compose_session-Fits,
}
use scholarscrib_backend.Learning.Session.Entries.{Entry}
use scholarscrib_backend.Prelude.{
  take, ℕ, String, ◌≡◌, refl, true, none, some, List, [], ◌∷◌, ◌++◌, map, to_text, ◌<>◌,
}

abbrev cells : GraphNode scaled
cells = record {
  id = "t1";
  subject_id = "bio";
  title = "Cells";
  slug = "cells";
  order_index = 1;
  estimated_minutes = 45;
  waec_weight = 30000;
  jamb_weight = 20000;
  prerequisite_topic_id = none;
}

abbrev osmosis : GraphNode scaled
osmosis = record cells {
  id = "t2";
  title = "Osmosis";
  slug = "osmosis";
  order_index = 2;
  prerequisite_topic_id = some "t1";
}

abbrev fading : TopicState scaled
fading = record {
  mastery = 40;
  confidence = 5000;
  retention = some 6000;
  observations = 6;
  abandon_count = 0;
  last_effort_at = some 0;
  level = weak;
  stability_days = 5;
  available = true;
  acc_observations = 6;
  lesson_observations = 0;
  srs_observations = 0;
  score = 4000;
  evidence_days = 2;
}

abbrev unseen : TopicState scaled
unseen = record fading {
  mastery = 0;
  confidence = 0;
  retention = none;
  observations = 0;
  last_effort_at = none;
  acc_observations = 0;
}

-- A mock exam that is done and two topics, one of which fades.
abbrev monday : SessionInputs scaled
monday = record {
  topics = cells ∷ osmosis ∷ [];
  states = ("t1", fading) ∷ ("t2", unseen) ∷ [];
  leverage = [];
  dependents = ("t1", 1) ∷ [];
  due_cards = ("t1", 3) ∷ [];
  card_retention = [];
  cadence_due = [];
  plan_items =
      record {
        plan = record {
          id = "p1";
          activity_type = "MOCK_EXAM";
          topic_id = none;
          subject_id = some "bio";
        };
        duration_minutes = 60;
        status = "COMPLETED";
      }
      ∷ [];
  continue_lesson = none;
  recent = [];
  now = 345600;
  budget = 20;
}

compose_session-Fits_example :
    (engine : List (Entry scaled)) × ((compose_session scaled monday
        ≡ planned scaled monday ++ engine)
      × Fits scaled 20
          (open_minutes (take session_max_items monday.plan_items))
          (planned scaled monday)
          engine)
compose_session-Fits_example = compose_session-Fits scaled monday

monday_items :
    map {B = String × ℕ}
      (λ (e : Entry scaled). (e.item.id, e.item.minutes))
      (compose_session scaled monday)
    ≡ ("plan:p1", 60) ∷ ("retrieve:t1", 3) ∷ ("learn:t2", 17) ∷ []
unfolding compose_session
monday_items = refl

monday_reasons :
    map (λ (e : Entry scaled). e.reason) (compose_session scaled monday)
    ≡ "From your study plan"
      ∷ ("Probably fading — last studied " <> ((to_text 4 <> " days") <> " ago"))
      ∷ "New topic — you're ready for it"
      ∷ []
unfolding compose_session
monday_reasons = refl
