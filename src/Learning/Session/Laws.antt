-- ===== src/Learning/Session/Laws.antt =====
-- app/services/learning/session.py: marking and reconciling a session settle in one step.
use mathlib.Core.Option.{some-injective}
use scholarscrib_backend.Learning.Session.{
  DayEvent, Item, PlanItem, is_done, item_is_done, mark_done, is_live, stays, matches, claim,
  repointed, reconcile_from, reconcile_plan,
}
use scholarscrib_backend.Prelude.{
  String, ◌≡◌, refl, ap, inl, inr, Bool, true, false, ◌||◌, Option, none, some, List, [], ◌∷◌,
  arith, str_eq, eq_iff, if◌then◌else◌, Bool-cases, length, first, All,
}

-- Marking a session keeps its number of items, and marking again, at any later moment but with the
-- same events, changes nothing.
mark_done_again :
    (items : List Item) (events : List DayEvent) (plan_status : List (String × String))
    (now later : String)
    → (mark_done (mark_done items events plan_status now).0 events plan_status later
        ≡ ((mark_done items events plan_status now).0, false))
      × (length (mark_done items events plan_status now).0 ≡ length items)
unfolding mark_done
mark_done_again [] events plan_status now later = (refl, refl)
mark_done_again (item ∷ items) events plan_status now later =
    let h = mark_done_again items events plan_status now later in
    elim (Bool-cases (is_done item.done_at)) [
      | inl e ↦ rw (e, e, h.0, h.1) (refl, refl)
      | inr e ↦ elim (Bool-cases (item_is_done item events plan_status)) [
        | inl f ↦ rw (e, f, h.0, h.1) (refl, refl)
        | inr f ↦ rw (e, f, e, f, h.0, h.1) (refl, refl)
      ]
    ]

first-live :
    (p : PlanItem → Bool) (plan_items : List PlanItem) (found : PlanItem)
    → first p plan_items ≡ some found
    → is_live plan_items found.id ≡ true
unfolding is_live
first-live p [] found h = cc
first-live p (x ∷ xs) found h = go (p x) (λ k. first-live p xs found k) h
  where
    go :
        (b : Bool)
        → (first p xs ≡ some found → is_live xs found.id ≡ true)
        → (if b then some x else first p xs) ≡ some found
        → (str_eq x.id found.id || is_live xs found.id) ≡ true
    go true f k =
        let same : x ≡ found = some-injective x found k in
        rw (ap (λ y. y.id) same, (eq_iff found.id found.id).1 refl) refl
    go false f k = ground (arith, f k)

-- What was kept stays: a second look changes nothing.
kept-stays :
    (plan_items : List PlanItem) (claimed : List String) (items : List Item)
    → All (λ item. stays plan_items item ≡ true) (reconcile_from plan_items claimed items).0
unfolding reconcile_from
kept-stays plan_items claimed [] = tt
kept-stays plan_items claimed (item ∷ items) = elim (Bool-cases (stays plan_items item)) [
  | inl e ↦ rw e (e, kept-stays plan_items claimed items)
  | inr e ↦ rw e (
      after (first (matches claimed item) plan_items) refl _
        (kept-stays plan_items (claim (first (matches claimed item) plan_items) claimed) items))
]
  where
    after :
        (found : Option PlanItem)
        → first (matches claimed item) plan_items ≡ found
        → (rest : List Item) → All (λ i. stays plan_items i ≡ true) rest
        → All (λ i. stays plan_items i ≡ true) (repointed item found rest)
    after none e rest h = h
    after (some plan_item) e rest h = (
      unfold stays in ground (arith, first-live (matches claimed item) plan_items plan_item e),
      h,
    )

settled :
    (plan_items : List PlanItem) (claimed : List String) (items : List Item)
    → All (λ item. stays plan_items item ≡ true) items
    → reconcile_from plan_items claimed items ≡ (items, false)
unfolding reconcile_from
settled plan_items claimed [] h = refl
settled plan_items claimed (item ∷ items) h = rw (h.0, settled plan_items claimed items h.1) refl

-- The plan items of a session that are kept are done or point at live plan items, and reconciling
-- the session with the same plan items again changes nothing.
pub reconcile_plan_again :
    (items : List Item) (plan_items : List PlanItem)
    → All (λ item. stays plan_items item ≡ true) (reconcile_plan items plan_items).0
      × (reconcile_plan (reconcile_plan items plan_items).0 plan_items
          ≡ ((reconcile_plan items plan_items).0, false))
unfolding reconcile_plan
reconcile_plan_again items plan_items =
    (kept-stays plan_items _ items, settled plan_items _ _ (kept-stays plan_items _ items))
