-- ===== src/Learning/Session/Compose.antt =====
-- app/services/learning/session.py: compose_session, which fills today's session from the plan and
-- then with one topic to retrieve, one to practise and one to learn.
pub mod Growth
pub mod Budget
use scholarscrib_backend.Floats.{Floats}
use scholarscrib_backend.Learning.Session.{is_set}
use scholarscrib_backend.Learning.Session.Candidates.{SessionInputs}
use scholarscrib_backend.Learning.Session.Entries.{TodayItem, Entry, plan_entry}
use scholarscrib_backend.Learning.Session.Picks.{pick_retrieval, pick_practice, pick_new}
use scholarscrib_backend.Prelude.{
  ℕ, ◌+◌, ◌-◌, min, max, String, Bool, true, false, ◌&&◌, ◌||◌, not, Option, none, some, List, [],
  ◌∷◌, ◌++◌, str_eq, ltb, leb, ◌==◌, if◌then◌else◌, length, any, to_nat, to_text, is_in, then_by,
  text_leb, ◌<>◌,
}
use scholarscrib_backend.Prelude.Dict

abbrev pub session_max_items : ℕ
session_max_items = 4

module _ (F : Floats) where
  -- The variables of `compose_session`.
  pub record Draft : Type 0 where
    pub items : List (Entry F)
    pub used : List String
    pub spent : ℕ

  abbrev pub use_topic : Option String → List String → List String
  use_topic none used = used
  use_topic (some id) used = id ∷ used

  unfoldable pub add_plan : SessionInputs F → TodayItem → Draft → Draft
  unfolding plan_entry is_set
  add_plan inputs today draft =
      let entry = plan_entry F inputs.topics inputs.states today in
      record {
        items = draft.items ++ entry ∷ [];
        used =
            if is_set entry.item.topic_id
            then use_topic entry.item.topic_id draft.used
            else draft.used;
        spent =
            if str_eq today.status "COMPLETED"
            then draft.spent
            else draft.spent + entry.item.minutes;
      }

  -- The loop over the plan items.
  unfoldable pub take_plan : SessionInputs F → List TodayItem → Draft → Draft
  unfolding add_plan
  take_plan inputs [] draft = draft
  take_plan inputs (today ∷ rest) draft =
      let full = take_plan inputs rest (add_plan inputs today draft) in
      if leb session_max_items (length draft.items) then draft else full

  abbrev pub with_found : Option (Entry F) → Draft → Draft
  with_found none draft = draft
  with_found (some entry) draft = record {
    items = draft.items ++ entry ∷ [];
    used = use_topic entry.item.topic_id draft.used;
    spent = draft.spent + entry.item.minutes;
  }

  -- One round of the loop over the picks. A round that leaves the loop leaves the draft as it is,
  -- and so do those after it, as the same test holds for them.
  unfoldable pub pick_round : ℕ → (List String → ℕ → Option (Entry F)) → Draft → Draft
  pick_round budget pick draft =
      if leb session_max_items (length draft.items) || leb budget draft.spent
      then draft
      else with_found (pick draft.used (budget - draft.spent)) draft

  -- The topic of the lesson to continue is held back from the first two picks.
  abbrev pub reserved : Option (String × String) → List String
  reserved none = []
  reserved (some (topic_id, lesson_id)) = topic_id ∷ []

  unfoldable pub compose_session : SessionInputs F → List (Entry F)
  unfolding take_plan pick_round pick_retrieval pick_practice pick_new
  compose_session inputs =
      let held = reserved inputs.continue_lesson in
      let plan = take_plan inputs inputs.plan_items (record { items = []; used = []; spent = 0 }) in
      let retrieved =
        pick_round inputs.budget (λ used. pick_retrieval F inputs (used ++ held)) plan in
      let practising =
        pick_round inputs.budget (λ used. pick_practice F inputs (used ++ held)) retrieved in
      (pick_round inputs.budget (pick_new F inputs) practising).items
