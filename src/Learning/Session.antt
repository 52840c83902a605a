-- ===== src/Learning/Session.antt =====
-- app/services/learning/session.py: the items of today's session once it is composed. An item is a
-- record of the keys that these functions read; `doneAt` is the text of a moment, which is never
-- empty.
pub mod Laws
pub mod Entries
pub mod Candidates
pub mod Picks
pub mod Compose
use scholarscrib_backend.Prelude.{
  ℕ, ◌+◌, min, String, Bool, true, false, ◌&&◌, ◌||◌, not, Option, none, some, List, [], ◌∷◌, map,
  str_eq, ltb, leb, if◌then◌else◌, length, keep, first, any, sum_of, ◌<>◌,
}
use scholarscrib_backend.Prelude.Dict

pub data EventKind : Type 0 where
  question_answered card_reviewed lesson_block_completed lesson_completed other_event : EventKind

pub record DayEvent : Type 0 where
  pub topic_id : Option String
  pub kind : EventKind

pub data ItemKind : Type 0 where
  retrieve practice learn continue mock past : ItemKind

pub record Item : Type 0 where
  pub id : String
  pub from_plan : Bool
  pub kind : ItemKind
  pub plan_item_id : String
  pub topic_id : Option String
  pub subject_id : Option String
  pub activity_type : Option String
  pub due_cards : ℕ
  pub minutes : ℕ
  pub done_at : Option String

pub record PlanItem : Type 0 where
  pub id : String
  pub activity_type : String
  pub topic_id : Option String
  pub subject_id : Option String

abbrev pub done_questions : ℕ
done_questions = 5

unfoldable pub text_eq : Option String → Option String → Bool
text_eq none none = true
text_eq (some s) (some t) = str_eq s t
text_eq _ _ = false

-- Python's truth of a text or None.
unfoldable pub is_set : Option String → Bool
is_set none = false
is_set (some s) = not (str_eq s "")

abbrev pub is_done : Option String → Bool
is_done none = false
is_done (some stamp) = true

unfoldable pub is_answer : EventKind → Bool
is_answer question_answered = true
is_answer _ = false

unfoldable pub is_review : EventKind → Bool
is_review card_reviewed = true
is_review _ = false

unfoldable pub is_lesson : EventKind → Bool
is_lesson lesson_block_completed = true
is_lesson lesson_completed = true
is_lesson _ = false

-- The number of an item's events of some kinds.
abbrev pub count_of : (EventKind → Bool) → Option String → List DayEvent → ℕ
count_of p topic events =
    length (keep (λ event. p event.kind) (keep (λ event. text_eq event.topic_id topic) events))

unfoldable pub kind_is_done : ItemKind → ℕ → ℕ → ℕ → ℕ → Bool
kind_is_done retrieve due answered reviewed lessons =
    leb (if ltb 0 due then min done_questions due else done_questions) (answered + reviewed)
kind_is_done practice due answered reviewed lessons = leb done_questions answered
kind_is_done learn due answered reviewed lessons = leb 1 lessons
kind_is_done continue due answered reviewed lessons = leb 1 lessons
kind_is_done mock due answered reviewed lessons = false
kind_is_done past due answered reviewed lessons = false

unfoldable pub item_is_done : Item → List DayEvent → List (String × String) → Bool
unfolding text_eq is_answer is_review is_lesson kind_is_done
item_is_done item events plan_status =
    if item.from_plan
    then text_eq (Dict.get str_eq plan_status item.plan_item_id) (some "COMPLETED")
    else kind_is_done item.kind item.due_cards (count_of is_answer item.topic_id events)
        (count_of is_review item.topic_id events) (count_of is_lesson item.topic_id events)

-- The items after the loop, and whether one was stamped.
unfoldable pub mark_done :
    List Item → List DayEvent → List (String × String) → String → List Item × Bool
unfolding item_is_done
mark_done [] events plan_status now = ([], false)
mark_done (item ∷ items) events plan_status now =
    let (later, changed) = mark_done items events plan_status now in
    if is_done item.done_at
    then (item ∷ later, changed)
    else if item_is_done item events plan_status
    then (record item { done_at = some now } ∷ later, true)
    else (item ∷ later, changed)

unfoldable pub is_live : List PlanItem → String → Bool
is_live plan_items id = any (λ plan_item. str_eq plan_item.id id) plan_items

unfoldable pub is_claimed : List String → String → Bool
is_claimed claimed id = any (λ c. str_eq c id) claimed

-- Whether an item stays as it is.
unfoldable pub stays : List PlanItem → Item → Bool
unfolding is_live
stays plan_items item =
    not item.from_plan || (is_live plan_items item.plan_item_id || is_done item.done_at)

unfoldable pub matches : List String → Item → PlanItem → Bool
unfolding is_claimed text_eq is_set
matches claimed item plan_item =
    not (is_claimed claimed plan_item.id)
    && (text_eq (some plan_item.activity_type) item.activity_type
        && (text_eq plan_item.topic_id item.topic_id
            && (is_set item.topic_id || text_eq plan_item.subject_id item.subject_id)))

-- The item pointed at another plan item.
abbrev pub repoint : Item → PlanItem → Item
repoint item plan_item = record item { id = "plan:" <> plan_item.id; plan_item_id = plan_item.id }

abbrev pub claim : Option PlanItem → List String → List String
claim none claimed = claimed
claim (some plan_item) claimed = plan_item.id ∷ claimed

abbrev pub repointed : Item → Option PlanItem → List Item → List Item
repointed item none items = items
repointed item (some plan_item) items = repoint item plan_item ∷ items

-- The loop of `reconcile_plan`: the items that are kept, and whether anything changed.
unfoldable pub reconcile_from : List PlanItem → List String → List Item → List Item × Bool
unfolding stays matches
reconcile_from plan_items claimed [] = ([], false)
reconcile_from plan_items claimed (item ∷ items) =
    let found = first (matches claimed item) plan_items in
    let (kept, changed) = reconcile_from plan_items claimed items in
    let (others, _) = reconcile_from plan_items (claim found claimed) items in
    if stays plan_items item then (item ∷ kept, changed) else (repointed item found others, true)

unfoldable pub reconcile_plan : List Item → List PlanItem → List Item × Bool
unfolding reconcile_from is_live
reconcile_plan items plan_items =
    reconcile_from plan_items
      (map (λ item. item.plan_item_id)
        (keep (λ item. item.from_plan && is_live plan_items item.plan_item_id) items))
      items

unfoldable pub drop_inactive : List Item → List String → List Item
unfolding is_set
drop_inactive items active =
    keep
      (λ item. not (is_set item.subject_id) || any (λ s. text_eq (some s) item.subject_id) active)
      items

pub record Summary : Type 0 where
  pub minutes : ℕ
  pub done : ℕ
  pub total : ℕ
  pub items : List Item

unfoldable pub summarise : List Item → Summary
summarise items = record {
  minutes = sum_of (λ item. item.minutes) items;
  done = length (keep (λ item. is_done item.done_at) items);
  total = length items;
  items = items;
}
