-- ===== src/Examples/Layout.antt =====
-- Runs of app/services/planner/topics.py, term_context.py and layout.py at concrete inputs.
use scholarscrib_backend.Floats.Scaled.{scaled, scaled-OrderLaws}
use scholarscrib_backend.Learning.Graph.{KnowledgeGraph}
use scholarscrib_backend.Planner.Layout.Window.{Input, layout_window}
use scholarscrib_backend.Planner.Layout.Window.Filled.{day_minutes}
use scholarscrib_backend.Planner.Layout.Window.Minutes.{slots_on}
use scholarscrib_backend.Planner.Layout.Window.Planned.{layout_window-day_minutes}
use scholarscrib_backend.Planner.PlanMode.{class_index, first_term, second_term, ss2, term_mode}
use scholarscrib_backend.Planner.Selection.{GapFrame, visit, gaps_for}
use scholarscrib_backend.Planner.Selection.Candidates.{
  TermInput, select_term_topics, select_exam_topics,
}
use scholarscrib_backend.Planner.Selection.Known.{Distinct, select_term_topics-Needed}
use scholarscrib_backend.Planner.Selection.Exam.{IsExam, Ranks, select_exam_topics-IsExam}
use scholarscrib_backend.Planner.Selection.Visits.{gaps_for-fuel}
use scholarscrib_backend.Planner.Slots.{Slot, new_slot}
use scholarscrib_backend.Planner.TermContext.{
  TermRange, TermContext, Calendar, year_text, session_of, resolve_term_context, holiday,
  configured,
}
use scholarscrib_backend.Planner.TermContext.Ranges.{
  split_at, number_from, number, session_ok, validate_term_ranges,
}
use scholarscrib_backend.Planner.TermContext.Ranges.Apart.{holding, validate_term_ranges-apart}
use scholarscrib_backend.Planner.TermContext.Ranges.Sessions.{session_of-read}
use scholarscrib_backend.Planner.TermContext.Within.{TellsOf, resolve_term_context-Tells}
use scholarscrib_backend.Planner.Topics.{PlanTopic, is_mastered_of}
use scholarscrib_backend.Prelude.{
  Sorted, str_eq, leb, not, ◌&&◌, ◌+◌, ◌*◌, ◌/◌, ◌≤◌, ◌<◌, ◌≡◌, refl, true, false, none, some, List,
  [], ◌∷◌, map, arith, if◌then◌else◌, sum_of, All,
}

abbrev waves : PlanTopic scaled
waves = record {
  id = "t1";
  subject_id = "physics";
  title = "Waves";
  slug = "waves";
  order_index = 1;
  estimated_minutes = 45;
  waec_weight = 5;
  jamb_weight = 4;
  prerequisite_topic_id = none;
  class_level = ss2;
  term = first_term;
}

abbrev light : PlanTopic scaled
light = record waves { id = "t2"; title = "Light"; slug = "light"; order_index = 2 }

abbrev needs_waves : KnowledgeGraph scaled
needs_waves = record {
  nodes = [];
  incoming =
      (
        "t2",
        record {
          id = "e1";
          source = "t1";
          target = "t2";
          kind = "PREREQUISITE";
          strength = 1;
          rationale = none;
        }
            ∷ [],
      )
      ∷ [];
  outgoing = [];
}

abbrev on_holiday : TermContext
on_holiday = holiday (record { source = configured; previous = none; next = none })

abbrev physics : TermInput scaled
physics = record {
  subject_id = "physics";
  class_level = ss2;
  term = first_term;
  follow_calendar = true;
  term_context = on_holiday;
  topics = waves ∷ light ∷ [];
  graph = needs_waves;
  state = [];
  pretest_passed = [];
  position_topic_id = some "t2";
  carry_over = record { topic_id = "t1"; subject_id = "physics"; missed_on = 739000 } ∷ [];
  carry_over_only = false;
}

select_term_topics-Needed_example :
    Distinct scaled (select_term_topics scaled physics).candidates
    × All
        (λ c. is_mastered_of scaled [] c.topic.id ≡ false)
        (select_term_topics scaled physics).candidates
select_term_topics-Needed_example = select_term_topics-Needed scaled physics

select_exam_topics-IsExam_example :
    All (IsExam scaled ss2 []) (select_exam_topics scaled (waves ∷ light ∷ []) ss2 [])
    × Sorted
        (λ c d. Ranks scaled [] c.topic d.topic)
        (select_exam_topics scaled (waves ∷ light ∷ []) ss2 [])
    × (sum_of
          (λ c. if str_eq c.topic.id "t1" then 1 else 0)
          (select_exam_topics scaled (waves ∷ light ∷ []) ss2 [])
        ≡ sum_of
            (λ t.
              if leb (class_index t.class_level) (class_index ss2)
                && (not (is_mastered_of scaled [] t.id) && str_eq t.id "t1")
              then 1
              else 0)
            (waves ∷ light ∷ []))
select_exam_topics-IsExam_example =
    select_exam_topics-IsExam scaled scaled-OrderLaws (waves ∷ light ∷ []) ss2 [] "t1"

abbrev frame : GapFrame scaled
frame = record {
  graph = needs_waves;
  state = [];
  pretest_passed = [];
  by_id = ("t1", waves) ∷ [];
  term_ids = "t2" ∷ [];
}

gaps_for-fuel_example :
    gaps_for scaled frame light
    ≡ (visit scaled frame (7 + (1 + 1)) "t2" (record { visited = []; out = [] })).out
gaps_for-fuel_example = gaps_for-fuel scaled frame light 7

abbrev two_terms : List TermRange
two_terms =
    record { session = session_of 2026; term = first_term; starts_on = 739000; ends_on = 739098 }
    ∷ record { session = session_of 2026; term = second_term; starts_on = 739120; ends_on = 739214 }
    ∷ []

two_terms_valid : validate_term_ranges two_terms ≡ []
unfolding validate_term_ranges year_text number_from
two_terms_valid = refl

validate_term_ranges-apart_example :
    All (λ term. term.starts_on < term.ends_on) two_terms × (holding 739100 two_terms ≤ 1)
validate_term_ranges-apart_example = validate_term_ranges-apart 739100 two_terms two_terms_valid

session_of-read_example :
    (session_ok (session_of 2026) ≡ true)
    × (map number (split_at 47 (session_of 2026)) ≡ 2026 ∷ (2026 + 1) ∷ [])
session_of-read_example = session_of-read 2026 (omega arith) (omega arith)

abbrev even_years : Calendar
even_years = record {
  year_of = λ day. day / 365;
  date_of = λ year month day. year * 365 + month * 30 + day;
}

resolve_term_context-Tells_example :
    TellsOf even_years 739050 two_terms (resolve_term_context even_years 739050 two_terms)
resolve_term_context-Tells_example = resolve_term_context-Tells even_years 739050 two_terms

abbrev one_day : List Slot
one_day = new_slot 739000 30 false ∷ new_slot 739000 20 true ∷ []

abbrev window : Input scaled
window = record {
  mode = term_mode;
  slots = one_day;
  target_date = none;
  runway_start = none;
  selections =
      record {
        subject_id = "physics";
        term_topics = waves ∷ [];
        class_index = some 0;
        behind_by = 0;
        candidates = (select_term_topics scaled physics).candidates;
      }
      ∷ [];
  exam_candidates = [];
  subject_ids = "physics" ∷ [];
  subject_names = ("physics", "Physics") ∷ [];
  graph = needs_waves;
  state = [];
  pretest_passed = [];
  revision_due = [];
  fixed = [];
  lessons_done = [];
  allocations = [];
}

layout_window-day_minutes_example :
    day_minutes 739000 (layout_window scaled window).0 ≤ slots_on 739000 one_day
layout_window-day_minutes_example = layout_window-day_minutes scaled window 739000
