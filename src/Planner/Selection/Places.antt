-- ===== src/Planner/Selection/Places.antt =====
-- app/services/planner/topics.py: the place of a class in the topics of a term.
use scholarscrib_backend.Floats.{Floats}
use scholarscrib_backend.Planner.PlanMode.{Term}
use scholarscrib_backend.Planner.Selection.{
  or_next, index_of, is_at, holiday_index, term_time_index, calendar_index, locate,
}
use mathlib.Core.Option.{some-injective}
use scholarscrib_backend.Planner.TermContext.{TermRange, TermContext, in_term, holiday}
use scholarscrib_backend.Planner.Topics.{PlanTopic}
use scholarscrib_backend.Prelude.{
  ℕ, suc, ◌+◌, ◌<◌, String, ◌≡◌, refl, Bool, true, false, Option, none, some, List, [], ◌∷◌, arith,
  if◌then◌else◌, length,
}

-- An index of a list of `n`, or none for an empty one.
abbrev pub Within : ℕ → Option ℕ → Type 0
Within n none = n ≡ 0
Within n (some index) = index < n

module _ (F : Floats) where
  index_of-bound :
      (test : PlanTopic F → Bool) (topics : List (PlanTopic F)) (i : ℕ)
      → index_of F test topics ≡ some i
      → i < length topics
  unfolding index_of or_next
  index_of-bound test [] i h = cc
  index_of-bound test (topic ∷ topics) i h =
      go (test topic) (index_of F test topics) (index_of-bound test topics) h
    where
      go :
          (b : Bool) (later : Option ℕ)
          → ((j : ℕ) → later ≡ some j → j < length topics)
          → or_next F b later ≡ some i
          → i < suc (length topics)
      go true later f k = let z : 0 ≡ i = some-injective 0 i k in omega arith
      go false none f k = cc
      go false (some j) f k =
          let z : j + 1 ≡ i = some-injective (j + 1) i k in let m = f j refl in omega arith

  calendar_index-bound :
      (ctx : TermContext) (term : Term) (n : ℕ) → calendar_index F ctx term (suc n) < suc n
  unfolding calendar_index term_time_index holiday_index
  calendar_index-bound (in_term ctx) term n = ground arith
  calendar_index-bound (holiday ctx) term n = past ctx.previous
    where
      past : (o : Option TermRange) → holiday_index F o term (suc n) < suc n
      past none = omega arith
      past (some previous) = ground arith

  -- The place of a class is an index of the topics of its term, and it has none only where there
  -- are no topics: the list is never read out of its range.
  locate-Within :
      (topics : List (PlanTopic F)) (term : Term) (ctx : TermContext) (topic_id : Option String)
      (follow_calendar : Bool)
      → Within (length topics) (locate F topics term ctx topic_id follow_calendar)
  unfolding locate
  locate-Within [] term ctx topic_id follow_calendar = refl
  locate-Within (topic ∷ topics) term ctx topic_id follow_calendar =
      go (index_of F (is_at F topic_id) (topic ∷ topics))
        (index_of-bound (is_at F topic_id) (topic ∷ topics)) follow_calendar
    where
      go :
          (o : Option ℕ)
          → ((j : ℕ) → o ≡ some j → j < suc (length topics))
          → (b : Bool)
          → elim o [
            | some index ↦ index
            | none ↦ if b then calendar_index F ctx term (suc (length topics)) else 0
          ]
            < suc (length topics)
      go (some index) f b = f index refl
      go none f true = calendar_index-bound ctx term (length topics)
      go none f false = omega arith
