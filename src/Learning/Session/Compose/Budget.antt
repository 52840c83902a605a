-- ===== src/Learning/Session/Compose/Budget.antt =====
-- app/services/learning/session.py: what compose_session adds to the plan of today, and that it keeps
-- to the minutes, the number of items and one item for each topic.
use mathlib.Core.List.{append-nil, append_assoc}
use scholarscrib_backend.Floats.{Floats}
use scholarscrib_backend.Learning.Graph.{GraphNode}
use scholarscrib_backend.Learning.Mastery.Reading.{TopicState}
use scholarscrib_backend.Learning.Session.{is_set}
use scholarscrib_backend.Learning.Session.Candidates.{SessionInputs}
use scholarscrib_backend.Learning.Session.Compose.{
  session_max_items, Draft, use_topic, add_plan, take_plan, reserved, compose_session,
}
use scholarscrib_backend.Learning.Session.Entries.{
  TodayItem, Entry, blank_entry, with_topic, with_state, plan_entry,
}
use scholarscrib_backend.Learning.Session.Picks.{pick_retrieval, pick_practice, pick_new}
use scholarscrib_backend.Learning.Session.Picks.Unused.{
  pick_retrieval-Offer, pick_practice-Offer, pick_new-Offer,
}
use scholarscrib_backend.Prelude.{
  take, ℕ, zero, suc, ◌+◌, ◌-◌, ◌≤◌, String, ◌≡◌, refl, sym, ap, ◌∙◌, inl, inr, true, false, Option,
  none, some, List, [], ◌∷◌, ◌++◌, map, arith, str_eq, leb, if◌then◌else◌, Bool-cases, length,
  length-append, sum_of,
}
use scholarscrib_backend.Learning.Session.Compose.Growth.{
  minutes_of, is_fresh, pushed, Grown, pick_round-Grown, held-Offer,
}

-- The minutes of the plan items that are not completed.
abbrev pub open_minutes : List TodayItem → ℕ
open_minutes today =
    sum_of (λ t. if str_eq t.status "COMPLETED" then 0 else t.duration_minutes) today

module _ (F : Floats) where
  abbrev pub topics_of : List String → List (Entry F) → List String
  topics_of used [] = used
  topics_of used (entry ∷ entries) =
      topics_of (if is_set entry.item.topic_id then use_topic F entry.item.topic_id used else used)
        entries

  -- What the engine may add after entries of the plan that take some minutes.
  pub record Fits (budget spent : ℕ) (planned engine : List (Entry F)) : Type 0 where
    pub size : length (planned ++ engine) ≤ session_max_items
    pub time : minutes_of F engine ≤ budget - spent
    pub fresh : is_fresh F (topics_of [] planned) engine ≡ true

  module _ (inputs : SessionInputs F) where
    abbrev entries_of : List TodayItem → List (Entry F)
    entries_of today = map (plan_entry F inputs.topics inputs.states) today

    -- The entries of the first plan items of today, as many as a session has.
    abbrev pub planned : List (Entry F)
    planned = entries_of (take session_max_items inputs.plan_items)

    record Planned (ts : List TodayItem) (d after : Draft F) : Type 0 where
      items : after.items ≡ d.items ++ entries_of ts
      used : after.used ≡ topics_of d.used (entries_of ts)
      spent : after.spent ≡ d.spent + open_minutes ts

    unplanned : (d : Draft F) → Planned [] d d
    unplanned d = record { items = sym (append-nil d.items); used = refl; spent = omega arith }

    length-add_plan :
        (t : TodayItem) (d : Draft F) → length (add_plan F inputs t d).items ≡ length d.items + 1
    unfolding add_plan
    length-add_plan t d = length-append d.items _

    minutes-with_topic :
        (o : Option (GraphNode F)) (entry : Entry F)
        → (with_topic F o entry).item.minutes ≡ entry.item.minutes
    unfolding with_topic
    minutes-with_topic none entry = refl
    minutes-with_topic (some topic) entry = refl

    minutes-with_state :
        (o : Option (TopicState F)) (entry : Entry F)
        → (with_state F o entry).item.minutes ≡ entry.item.minutes
    unfolding with_state
    minutes-with_state none entry = refl
    minutes-with_state (some state) entry = refl

    minutes-plan_entry :
        (t : TodayItem)
        → (plan_entry F inputs.topics inputs.states t).item.minutes ≡ t.duration_minutes
    unfolding plan_entry blank_entry
    minutes-plan_entry t = minutes-with_state _ _ ∙ minutes-with_topic _ _

    spent-add_plan :
        (t : TodayItem) (d : Draft F)
        → (add_plan F inputs t d).spent
          ≡ d.spent + (if str_eq t.status "COMPLETED" then 0 else t.duration_minutes)
    unfolding add_plan
    spent-add_plan t d = elim (Bool-cases (str_eq t.status "COMPLETED")) [
      | inl e ↦ rw e (omega arith)
      | inr e ↦ rw e (omega (arith, minutes-plan_entry t))
    ]

    then_Planned :
        (t : TodayItem) (ts : List TodayItem) (d after : Draft F)
        → Planned ts (add_plan F inputs t d) after
        → Planned (t ∷ ts) d after
    unfolding add_plan
    then_Planned t ts d after h = record {
      items = h.items ∙ append_assoc d.items _ (entries_of ts);
      used = h.used;
      spent = omega (arith, h.spent, spent-add_plan t d);
    }

    take_plan-Planned :
        (n : ℕ) (ts : List TodayItem) (d : Draft F)
        → length d.items + n ≡ session_max_items
        → Planned (take n ts) d (take_plan F inputs ts d)
    unfolding take_plan
    take_plan-Planned zero [] d h = unplanned d
    take_plan-Planned (suc n) [] d h = unplanned d
    take_plan-Planned zero (t ∷ ts) d h =
        let full : leb session_max_items (length d.items) ≡ true = ground arith in
        rw full (unplanned d)
    take_plan-Planned (suc n) (t ∷ ts) d h =
        let room : leb session_max_items (length d.items) ≡ false = ground arith in
        rw room (
          then_Planned t (take n ts) d _
            (take_plan-Planned n ts (add_plan F inputs t d) (omega (arith, length-add_plan t d))))

    length-entries_of : (n : ℕ) (ts : List TodayItem) → length (entries_of (take n ts)) ≤ n
    length-entries_of zero ts = omega arith
    length-entries_of (suc n) [] = omega arith
    length-entries_of (suc n) (t ∷ ts) = omega (arith, length-entries_of n ts)

    started : (d : Draft F) → length d.items ≤ session_max_items → Grown F inputs.budget d d
    unfolding pushed
    started d h = record {
      engine = [];
      items = sym (append-nil d.items);
      used = refl;
      spent = omega arith;
      time = omega arith;
      size = h;
      fresh = refl;
    }

    -- Today's session consists of the entries of the first four plan items and of entries that the
    -- engine adds: four in all at most, those of the engine in the minutes that the open plan items
    -- leave of the budget, each for a topic that no entry of the plan and no other entry is for.
    pub compose_session-Fits :
        (engine : List (Entry F)) × ((compose_session F inputs ≡ planned ++ engine)
          × Fits inputs.budget
              (open_minutes (take session_max_items inputs.plan_items))
              planned
              engine)
    unfolding compose_session
    compose_session-Fits =
        let held = reserved F inputs.continue_lesson in
        let empty : Draft F = record { items = []; used = []; spent = 0 } in
        let plan = take_plan F inputs inputs.plan_items empty in
        let done = take_plan-Planned session_max_items inputs.plan_items empty refl in
        let grown =
          pick_round-Grown F inputs.budget plan _ (pick_new F inputs)
            (pick_round-Grown F inputs.budget plan _ (λ used. pick_practice F inputs (used ++ held))
              (pick_round-Grown F inputs.budget plan plan
                (λ used. pick_retrieval F inputs (used ++ held))
                (started plan
                  (rw done.items (length-entries_of session_max_items inputs.plan_items)))
                (λ used remaining.
                  held-Offer F used held remaining _
                    (pick_retrieval-Offer F inputs (used ++ held) remaining)))
              (λ used remaining.
                held-Offer F used held remaining _
                  (pick_practice-Offer F inputs (used ++ held) remaining)))
            (pick_new-Offer F inputs) in
        let all = grown.items ∙ ap (λ i. i ++ grown.engine) done.items in
        (
          grown.engine,
          (
            all,
            record {
              size = rw⁻¹ all grown.size;
              time = omega (arith, grown.time, done.spent);
              fresh = rw⁻¹ done.used grown.fresh;
            },
          ),
        )
