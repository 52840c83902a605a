-- ===== src/Planner/TermContext/Ranges.antt =====
-- app/services/planner/term_context.py: the check of the terms that an administrator configures.
-- A message is a value that carries the terms it names.
pub mod Apart
pub mod Sessions
use scholarscrib_backend.Planner.PlanMode.{Term, first_term, second_term, third_term}
use scholarscrib_backend.Planner.TermContext.{TermRange, starts_le}
use scholarscrib_backend.Prelude.{
  ℕ, ◌+◌, ◌-◌, ◌*◌, Bool, true, false, ◌&&◌, not, List, [], ◌∷◌, ◌++◌, leb, ◌==◌, if◌then◌else◌,
  length, any, sort_by,
}

pub data RangeError : Type 0 where
  bad_session ends_early already_set : TermRange → RangeError
  overlaps_earlier : TermRange → TermRange → RangeError

abbrev push_code : ℕ → List (List ℕ) → List (List ℕ)
push_code c [] = (c ∷ []) ∷ []
push_code c (part ∷ parts) = (c ∷ part) ∷ parts

-- text.split(separator)
unfoldable pub split_at : ℕ → List ℕ → List (List ℕ)
split_at separator [] = [] ∷ []
split_at separator (c ∷ cs) =
    let rest = split_at separator cs in if c == separator then [] ∷ rest else push_code c rest

unfoldable pub all_digits : List ℕ → Bool
all_digits [] = true
all_digits (c ∷ cs) = leb b'0' c && (leb c b'9' && all_digits cs)

-- A part of four digits.
unfoldable pub is_year : List ℕ → Bool
unfolding all_digits
is_year part = all_digits part && (length part == 4)

-- int(part), of digits
unfoldable pub number_from : ℕ → List ℕ → ℕ
number_from n [] = n
number_from n (c ∷ cs) = number_from (n * 10 + (c - b'0')) cs

abbrev pub number : List ℕ → ℕ
number codes = number_from 0 codes

unfoldable pub parts_ok : List (List ℕ) → Bool
unfolding is_year
parts_ok (a ∷ b ∷ []) = is_year a && (is_year b && (number b == number a + 1))
parts_ok _ = false

unfoldable pub session_ok : List ℕ → Bool
unfolding split_at parts_ok
session_ok session = parts_ok (split_at b'/' session)

abbrev pub term_eq : Term → Term → Bool
term_eq first_term first_term = true
term_eq second_term second_term = true
term_eq third_term third_term = true
term_eq _ _ = false

abbrev codes_eq : List ℕ → List ℕ → Bool
codes_eq [] [] = true
codes_eq (a ∷ x) (b ∷ y) = a == b && codes_eq x y
codes_eq _ _ = false

-- f"{term.session}:{term.term}"
abbrev pub same_key : TermRange → TermRange → Bool
same_key a b = codes_eq a.session b.session && term_eq a.term b.term

abbrev pub note_if {ℓ} : {A : Type ℓ} → Bool → A → List A
note_if true error = error ∷ []
note_if false error = []

unfoldable pub term_errors : List TermRange → TermRange → List RangeError
unfolding session_ok
term_errors seen term =
    note_if (not (session_ok term.session)) (bad_session term)
    ++ (note_if (leb term.ends_on term.starts_on) (ends_early term)
        ++ note_if (any (same_key term) seen) (already_set term))

unfoldable pub range_errors : List TermRange → List TermRange → List RangeError
unfolding term_errors
range_errors seen [] = []
range_errors seen (term ∷ terms) = term_errors seen term ++ range_errors (term ∷ seen) terms

unfoldable pub overlap_errors : List TermRange → List RangeError
overlap_errors [] = []
overlap_errors (term ∷ []) = []
overlap_errors (term ∷ next ∷ terms) =
    note_if (leb next.starts_on term.ends_on) (overlaps_earlier next term)
    ++ overlap_errors (next ∷ terms)

unfoldable pub validate_term_ranges : List TermRange → List RangeError
unfolding range_errors overlap_errors starts_le
validate_term_ranges ranges = range_errors [] ranges ++ overlap_errors (sort_by starts_le ranges)
