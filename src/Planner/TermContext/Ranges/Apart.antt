-- ===== src/Planner/TermContext/Ranges/Apart.antt =====
-- app/services/planner/term_context.py: terms that the check accepts do not overlap.
use scholarscrib_backend.Planner.Days.{DayKey}
use scholarscrib_backend.Planner.TermContext.{TermRange, starts_le, holds}
use scholarscrib_backend.Planner.TermContext.Ranges.{
  same_key, note_if, term_errors, range_errors, overlap_errors, validate_term_ranges, ends_early,
  already_set,
}
use scholarscrib_backend.Prelude.{
  ℕ, ◌≤◌, ◌<◌, ◌≡◌, refl, inl, inr, Bool, true, false, List, [], ◌∷◌, ◌++◌, arith, leb,
  if◌then◌else◌, leb→le, &&-true, Bool-cases, any, sum_of, All, All-map, sort_by, sum_of-sort_by,
  sort_by-All,
}

-- How many of the terms hold a day.
abbrev pub holding : DayKey → List TermRange → ℕ
holding day terms = sum_of (λ term. if holds day term then 1 else 0) terms

abbrev Runs : TermRange → Type 0
Runs term = term.starts_on < term.ends_on

append-nil_inv : {A : Type 0} (xs ys : List A) → xs ++ ys ≡ [] → (xs ≡ []) × (ys ≡ [])
append-nil_inv [] ys h = (refl, h)
append-nil_inv (x ∷ xs) ys h = cc

note_if-nil : {A : Type 0} (b : Bool) (error : A) → note_if b error ≡ [] → b ≡ false
note_if-nil true error h = cc
note_if-nil false error h = refl

range_errors-Runs : (seen terms : List TermRange) → range_errors seen terms ≡ [] → All Runs terms
unfolding range_errors term_errors
range_errors-Runs seen [] h = tt
range_errors-Runs seen (term ∷ terms) h =
    let parts = append-nil_inv (term_errors seen term) (range_errors (term ∷ seen) terms) h in
    let late : (note_if (leb term.ends_on term.starts_on) (ends_early term) ≡ [])
        × (note_if (any (same_key term) seen) (already_set term) ≡ []) =
      append-nil_inv _ _ (append-nil_inv _ _ parts.0).1 in
    let e : leb term.ends_on term.starts_on ≡ false = note_if-nil _ _ late.0 in
    (ground arith, range_errors-Runs (term ∷ seen) terms parts.1)

-- The terms after one that is over start after it.
overlap_errors-After :
    (term : TermRange) (terms : List TermRange)
    → overlap_errors (term ∷ terms) ≡ []
    → All Runs terms
    → All (λ later. term.ends_on < later.starts_on) terms
unfolding overlap_errors
overlap_errors-After term [] h runs = tt
overlap_errors-After term (next ∷ terms) h runs =
    let parts = append-nil_inv (note_if (leb next.starts_on term.ends_on) _) _ h in
    let e = note_if-nil (leb next.starts_on term.ends_on) _ parts.0 in
    let gap : term.ends_on < next.starts_on = ground arith in
    let run : next.starts_on < next.ends_on = runs.0 in
    (
      gap,
      All-map (λ later. next.ends_on < later.starts_on) (λ later. term.ends_on < later.starts_on)
          terms (λ later k. omega arith) (overlap_errors-After next terms parts.1 runs.1),
    )

holding-none :
    (day end : DayKey) (terms : List TermRange)
    → day ≤ end
    → All (λ later. end < later.starts_on) terms
    → holding day terms ≡ 0
holding-none day end [] h after = refl
holding-none day end (term ∷ terms) h after =
    let ahead = after.0 in let rest = holding-none day end terms h after.1 in ground arith

overlap_errors-tail :
    (term : TermRange) (terms : List TermRange)
    → overlap_errors (term ∷ terms) ≡ []
    → overlap_errors terms ≡ []
unfolding overlap_errors
overlap_errors-tail term [] h = refl
overlap_errors-tail term (next ∷ terms) h =
    (append-nil_inv (note_if (leb next.starts_on term.ends_on) _) _ h).1

holding-sorted :
    (day : DayKey) (terms : List TermRange)
    → overlap_errors terms ≡ []
    → All Runs terms
    → holding day terms ≤ 1
holding-sorted day [] h runs = omega arith
holding-sorted day (term ∷ terms) h runs =
    let rest = holding-sorted day terms (overlap_errors-tail term terms h) runs.1 in
    let after = overlap_errors-After term terms h runs.1 in
    elim (Bool-cases (holds day term)) [
      | inl e ↦
          let inside : day ≤ term.ends_on = leb→le day term.ends_on (&&-true e).1 in
          let others : holding day terms ≡ 0 = holding-none day term.ends_on terms inside after in
          rw e (omega (arith, others))
      | inr e ↦ rw e (omega (arith, rest))
    ]

-- When the check finds no error, each term starts before it ends and a day lies in one term at
-- most.
pub validate_term_ranges-apart :
    (day : DayKey) (ranges : List TermRange)
    → validate_term_ranges ranges ≡ []
    → All (λ term. term.starts_on < term.ends_on) ranges × (holding day ranges ≤ 1)
unfolding validate_term_ranges
validate_term_ranges-apart day ranges h =
    let parts = append-nil_inv (range_errors [] ranges) _ h in
    let runs = range_errors-Runs [] ranges parts.0 in
    let sorted = sort_by-All starts_le Runs ranges runs in
    let count = holding-sorted day (sort_by starts_le ranges) parts.1 sorted in
    let same = sum_of-sort_by starts_le (λ term. if holds day term then 1 else 0) ranges in
    (runs, omega (arith, count, same))
