-- ===== src/Gamification/Improvement.antt =====
-- app/services/gamification/improvement.py: whether a student's latest attempt is better than the
-- comparable ones before it.
use scholarscrib_backend.Floats.{Floats}
use scholarscrib_backend.Prelude.{
  ℕ, zero, suc, ◌+◌, ◌-◌, ◌<◌, ◌≤◌, String, ◌≡◌, refl, ap, ◌∙◌, ◌==◌, ==_iff, length-append, inl,
  inr, Bool, true, false, ◌||◌, Option, none, some, List, [], ◌∷◌, ◌++◌, arith, ltb, leb,
  if◌then◌else◌, Bool-cases, length, take, drop, keep, any, ℤ, to_nat, to_text, ◌<>◌,
}

pub data Status : Type 0 where
  improved lower steady : Status

-- The returned dictionary: "insufficient", or a status with its "from" and "to".
pub data Comparison : Type 0 where
  insufficient : Comparison
  compared : Status → ℤ → ℤ → Comparison

abbrev pub is_improved : Comparison → Bool
is_improved insufficient = false
is_improved (compared improved from to) = true
is_improved (compared lower from to) = false
is_improved (compared steady from to) = false

-- range(n)
abbrev pub range_from : ℕ → ℕ → List ℕ
range_from start zero = []
range_from start (suc n) = start ∷ range_from (start + 1) n

-- The percentages lie in 0 to 100, so that the numbers are not negative.
unfoldable pub message_for : Comparison → Option String
message_for insufficient = none
message_for (compared improved from to) = some (
    "You improved from "
    <> to_text (to_nat from)
    <> "% to "
    <> to_text (to_nat to)
    <> "% across comparable practice.")
message_for (compared lower from to) = none
message_for (compared steady from to) = none

any_range :
    (p q : ℕ → Bool) (start n k : ℕ)
    → ((i : ℕ) → i < start + n → p i ≡ true → q i ≡ true)
    → n ≤ k
    → any p (range_from start n) ≡ true
    → any q (range_from start k) ≡ true
any_range p q start zero k h l found = ground arith
any_range p q start (suc n) zero h l found = ground arith
any_range p q start (suc n) (suc k) h l found = elim (Bool-cases (p start)) [
  | inl e ↦ rw (h start (omega arith) e) refl
  | inr e ↦
      let rest =
        any_range p q (start + 1) n k (λ i j. h i (omega arith)) (omega arith) (rw e at found) in
      rw rest (ground arith)
]

any_at :
    (p : ℕ → Bool) (start n i : ℕ)
    → start ≤ i
    → i < start + n
    → p i ≡ true
    → any p (range_from start n) ≡ true
any_at p start zero i l u e = ground arith
any_at p start (suc n) i l u e = elim (Bool-cases (start == i)) [
  | inl same ↦ let here : p start ≡ true = ap p ((==_iff start i).0 same) ∙ e in rw here refl
  | inr other ↦
      let rest = any_at p (start + 1) n i (ground (arith, ==_iff start i)) (omega arith) e in
      rw rest (ground arith)
]

take-append {ℓ} :
    {A : Type ℓ} (i : ℕ) (xs ys : List A)
    → i < length xs
    → take (suc i) (xs ++ ys) ≡ take (suc i) xs
take-append i [] ys h = ground arith
take-append zero (x ∷ xs) ys h = refl
take-append (suc i) (x ∷ xs) ys h = ap (λ zs. x ∷ zs) (take-append i xs ys (omega arith))

take-length {ℓ} : {A : Type ℓ} (xs ys : List A) → take (length xs) (xs ++ ys) ≡ xs
take-length [] ys = refl
take-length (x ∷ xs) ys = ap (λ zs. x ∷ zs) (take-length xs ys)

module _ (F : Floats) where
  open F use {Float, add, sub, div, neg, le, round, of_nat}

  pub record Attempt : Type 0 where
    pub percentage : Float
    pub questions : ℕ

  abbrev pub sum_from : Float → List Attempt → Float
  sum_from total [] = total
  sum_from total (a ∷ attempts) = sum_from (add total a.percentage) attempts

  unfoldable pub status_of : Float → Status
  status_of gain =
      if le (of_nat 8) gain then improved else if le gain (neg (of_nat 8)) then lower else steady

  unfoldable pub compare_with : List Attempt → Attempt → Comparison
  unfolding status_of
  compare_with baseline latest =
      let average = div (sum_from (of_nat 0) baseline) (of_nat (length baseline)) in
      compared (status_of (sub latest.percentage average)) (round average) (round latest.percentage)

  -- `usable[-1]` and what comes before it, of a list with its last elements
  abbrev pub split_last : List Attempt → List Attempt → Comparison
  unfolding compare_with
  split_last before [] = insufficient
  split_last before (a ∷ []) = compare_with before a
  split_last before (a ∷ b ∷ rest) = split_last (before ++ a ∷ []) (b ∷ rest)

  -- The baseline is the three usable attempts before the latest, or as many as there are.
  unfoldable pub compare : List Attempt → Comparison
  unfolding split_last
  compare attempts =
      let usable = keep (λ a. leb 10 a.questions) attempts in
      if ltb (length usable) 3
      then insufficient
      else split_last [] (drop (length usable - 4) usable)

  unfoldable pub ever_improved : List Attempt → Bool
  unfolding compare
  ever_improved attempts =
      any (λ i. is_improved (compare (take (suc i) attempts))) (range_from 0 (length attempts))

  later_than :
      (xs ys : List Attempt) → is_improved (compare xs) ≡ true → ever_improved (xs ++ ys) ≡ true
  unfolding ever_improved compare
  later_than [] ys h = ground arith
  later_than (x ∷ xs) ys h =
      any_at (λ i. is_improved (compare (take (suc i) (x ∷ xs ++ ys)))) 0 (length (x ∷ xs ++ ys))
        (length xs) (omega arith) (omega (arith, length-append xs ys)) (rw (take-length xs ys) h)

  -- An improvement that the attempts show, in the latest or at any point before, is not undone by
  -- attempts that follow.
  ever_improved-append :
      (xs ys : List Attempt)
      → (is_improved (compare xs) || ever_improved xs) ≡ true
      → ever_improved (xs ++ ys) ≡ true
  unfolding ever_improved
  ever_improved-append xs ys h = elim (Bool-cases (is_improved (compare xs))) [
    | inl e ↦ later_than xs ys e
    | inr e ↦
        any_range (λ i. is_improved (compare (take (suc i) xs)))
          (λ i. is_improved (compare (take (suc i) (xs ++ ys)))) 0 (length xs) _
          (λ i j f. rw (take-append i xs ys (omega arith)) f) (omega (arith, length-append xs ys))
          (ground arith)
  ]
