-- ===== src/Planner/TermContext/Within.antt =====
-- app/services/planner/term_context.py: what the context of a day says of the day and of the terms.
use scholarscrib_backend.Planner.Days.{DayKey, monday_of, monday_of_lem}
use scholarscrib_backend.Planner.TermContext.{
  TermRange, Calendar, fallback_terms, near, Source, InTerm, TermContext, starts_le, holds, last,
  in_term_of, context_of, resolve_from, resolve_term_context, configured, fallback, in_term,
  holiday,
}
use scholarscrib_backend.Prelude.{
  ℕ, ◌+◌, ◌*◌, ◌/◌, ◌-◌, ◌≤◌, ◌<◌, ◌≡◌, refl, ◌⊎◌, inl, inr, true, false, ◌&&◌, Option, none, some,
  List, arith, ltb, leb, ltb→lt, leb→le, &&-true, Bool-cases, first, any, All, All-map, sort_by,
  sort_by-All, sort_by-All_inv, Sorted, sort_by-Sorted,
}
use scholarscrib_backend.Planner.TermContext.Found.{
  Member, Member-self, first-none, first-some, last-none, last-some,
}

-- A week by its number from the Monday of a first day on.
abbrev pub InWeek : DayKey → DayKey → ℕ → Type 0
InWeek start day week = (monday_of start + 7 * week ≤ day + 7) × (day < monday_of start + 7 * week)

-- The term of a day: the first to start of those that the day lies in, with its weeks.
abbrev pub Teaches : DayKey → List TermRange → InTerm → Type 0
Teaches today terms ctx =
    Member ctx.current terms
    × (ctx.current.starts_on ≤ today)
    × (today ≤ ctx.current.ends_on)
    × All
        (λ term.
          term.starts_on ≤ today → today ≤ term.ends_on → ctx.current.starts_on ≤ term.starts_on)
        terms
    × InWeek ctx.current.starts_on today ctx.week_of_term
    × InWeek ctx.current.starts_on ctx.current.ends_on ctx.total_weeks
    × (ctx.week_of_term + ctx.weeks_left ≡ ctx.total_weeks)

-- The last to start of the terms that are over.
abbrev pub IsPrevious : DayKey → List TermRange → Option TermRange → Type 0
IsPrevious today terms none = All (λ term. today ≤ term.ends_on) terms
IsPrevious today terms (some previous) =
    Member previous terms
    × (previous.ends_on < today)
    × All (λ term. term.ends_on < today → term.starts_on ≤ previous.starts_on) terms

-- The first to start of the terms that are to come.
abbrev pub IsNext : DayKey → List TermRange → Option TermRange → Type 0
IsNext today terms none = All (λ term. term.starts_on ≤ today) terms
IsNext today terms (some next) =
    Member next terms
    × (today < next.starts_on)
    × All (λ term. today < term.starts_on → next.starts_on ≤ term.starts_on) terms

-- What a context says of a day and of some terms.
abbrev pub Tells : DayKey → List TermRange → TermContext → Type 0
Tells today terms (in_term ctx) = Teaches today terms ctx
Tells today terms (holiday ctx) =
    All (λ term. term.starts_on ≤ today → term.ends_on < today) terms
    × IsPrevious today terms ctx.previous
    × IsNext today terms ctx.next

abbrev pub source_of : TermContext → Source
source_of (in_term ctx) = ctx.source
source_of (holiday ctx) = ctx.source

-- The terms that a context is about: those that are set, if one of them is at most sixty days off,
-- and otherwise the usual ones.
abbrev pub TellsOf : Calendar → DayKey → List TermRange → TermContext → Type 0
TellsOf calendar today ranges ctx =
    let close =
      any (λ term. leb term.starts_on (today + 60) && leb today (term.ends_on + 60)) ranges in
    ((source_of ctx ≡ configured) × ((close ≡ true) × Tells today ranges ctx))
    ⊎ ((source_of ctx ≡ fallback)
        × ((close ≡ false) × Tells today (fallback_terms calendar today) ctx))

in_week : (start day : DayKey) → start ≤ day → InWeek start day ((day - monday_of start) / 7 + 1)
in_week start day h = omega (arith, h, monday_of_lem start)

module _ (source : Source) (today : DayKey) (ranges : List TermRange) where
  sorted_terms : List TermRange
  sorted_terms = sort_by starts_le ranges

  by_start : Sorted (λ a b. a.starts_on ≤ b.starts_on) sorted_terms
  unfolding starts_le sorted_terms
  by_start =
      sort_by-Sorted starts_le (λ a b. a.starts_on ≤ b.starts_on) (λ a b c h k. omega arith)
        (λ a b h. ground arith) (λ a b h. ground arith) ranges

  members : All (λ term. Member term ranges) sorted_terms
  unfolding sorted_terms
  members = sort_by-All starts_le (λ term. Member term ranges) ranges (Member-self ranges)

  unsorted : (P : TermRange → Type 0) → All P sorted_terms → All P ranges
  unfolding sorted_terms
  unsorted P h = sort_by-All_inv starts_le P ranges h

  of_all :
      (P Q : TermRange → Type 0)
      → ((term : TermRange) → P term → Q term)
      → All P sorted_terms
      → All Q ranges
  of_all P Q f h = unsorted Q (All-map P Q sorted_terms f h)

  teaches :
      (current : TermRange)
      → first (holds today) sorted_terms ≡ some current
      → Teaches today ranges (in_term_of source today current)
  unfolding in_term_of
  teaches current e =
      let found =
        first-some (λ term. Member term ranges) (holds today) sorted_terms current e members
          by_start in
      let inside = &&-true found.1.0 in
      let low = leb→le current.starts_on today inside.0 in
      let high = leb→le today current.ends_on inside.1 in
      (
        found.0,
        low,
        high,
        of_all _ _ (λ term least a b. least (ground arith)) found.1.1,
        in_week current.starts_on today low,
        in_week current.starts_on current.ends_on (omega (arith, low, high)),
        omega (arith, low, high, monday_of_lem current.starts_on),
      )

  previous_lem : IsPrevious today ranges (last (λ term. ltb term.ends_on today) sorted_terms)
  previous_lem = go (last (λ term. ltb term.ends_on today) sorted_terms) refl
    where
      go :
          (o : Option TermRange)
          → last (λ term. ltb term.ends_on today) sorted_terms ≡ o
          → IsPrevious today ranges o
      go none e = of_all _ _ (λ term no. ground arith) (last-none _ sorted_terms e)
      go (some previous) e =
          let found =
            last-some (λ term. Member term ranges) _ sorted_terms previous e members by_start in
          (
            found.0,
            ltb→lt previous.ends_on today found.1.0,
            of_all _ _ (λ term most a. most (ground arith)) found.1.1,
          )

  next_lem : IsNext today ranges (first (λ term. ltb today term.starts_on) sorted_terms)
  next_lem = go (first (λ term. ltb today term.starts_on) sorted_terms) refl
    where
      go :
          (o : Option TermRange)
          → first (λ term. ltb today term.starts_on) sorted_terms ≡ o
          → IsNext today ranges o
      go none e = of_all _ _ (λ term no. ground arith) (first-none _ sorted_terms e)
      go (some next) e =
          let found =
            first-some (λ term. Member term ranges) _ sorted_terms next e members by_start in
          (
            found.0,
            ltb→lt today next.starts_on found.1.0,
            of_all _ _ (λ term least a. least (ground arith)) found.1.1,
          )

  resolve_from-Tells :
      Tells today ranges (resolve_from source today ranges)
      × (source_of (resolve_from source today ranges) ≡ source)
  unfolding resolve_from sorted_terms
  resolve_from-Tells = go (first (holds today) sorted_terms) refl
    where
      go :
          (o : Option TermRange)
          → first (holds today) sorted_terms ≡ o
          → Tells today ranges (context_of source today sorted_terms o)
            × (source_of (context_of source today sorted_terms o) ≡ source)
      go none e =
          unfold context_of in
          (
            (
              of_all _ _ (λ term no a. ground arith) (first-none _ sorted_terms e),
              previous_lem,
              next_lem,
            ),
            refl,
          )
      go (some current) e = unfold context_of in (teaches current e, unfold in_term_of in refl)

-- The context is about the terms that are set when one of them is at most sixty days off, and
-- otherwise about the usual ones of the calendar. In term, the current term is the first to start of
-- those that the day lies in, and its weeks run from Monday to Monday, the first with the Monday on
-- or before the term's first day; the day lies in the week that is told, and the last day in the
-- last week. On holiday the day lies in no term, and of those that are over the previous one started
-- last, of those to come the next one starts first.
pub resolve_term_context-Tells :
    (calendar : Calendar) (today : DayKey) (ranges : List TermRange)
    → TellsOf calendar today ranges (resolve_term_context calendar today ranges)
unfolding resolve_term_context near
resolve_term_context-Tells calendar today ranges =
    elim (Bool-cases
      (any (λ term. leb term.starts_on (today + 60) && leb today (term.ends_on + 60)) ranges)) [
        | inl e ↦
            let told = resolve_from-Tells configured today ranges in
            rw e (inl (told.1, (refl, told.0)))
        | inr e ↦
            let told = resolve_from-Tells fallback today (fallback_terms calendar today) in
            rw e (inr (told.1, (refl, told.0)))
      ]
