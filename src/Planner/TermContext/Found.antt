-- ===== src/Planner/TermContext/Found.antt =====
-- Terms that are found in a list: the first and the last that pass a test, in a list sorted by start.
use mathlib.Core.Option.{some-injective}
use mathlib.Core.Path.{subst}
use scholarscrib_backend.Planner.TermContext.{TermRange, or_if, last}
use scholarscrib_backend.Prelude.{
  ◌≤◌, ◌≡◌, refl, sym, ap, ◌∙◌, ◌⊎◌, inl, inr, Bool, true, false, Option, none, some, List, [], ◌∷◌,
  arith, if◌then◌else◌, first, All, All-map, Sorted,
}

abbrev pub Member : TermRange → List TermRange → Type 0
Member term [] = ⊥
Member term (x ∷ xs) = (term ≡ x) ⊎ Member term xs

-- The terms of a list are members of it.
pub Member-self : (terms : List TermRange) → All (λ term. Member term terms) terms
Member-self [] = tt
Member-self (x ∷ xs) = (
  inl refl,
  All-map (λ term. Member term xs) (λ term. Member term (x ∷ xs)) xs (λ term h. inr h)
      (Member-self xs),
)

-- What it says of the terms that none, or a first or a last one, passes a test.
pub first-none :
    (p : TermRange → Bool) (terms : List TermRange)
    → first p terms ≡ none
    → All (λ term. p term ≡ false) terms
first-none p [] h = tt
first-none p (x ∷ xs) h = go (first-none p xs) (p x) refl h
  where
    go :
        (first p xs ≡ none → All (λ term. p term ≡ false) xs)
        → (b : Bool) → p x ≡ b
        → (if b then some x else first p xs) ≡ none
        → (p x ≡ false) × All (λ term. p term ≡ false) xs
    go rest true e k = cc
    go rest false e k = (e, rest k)

-- What the first element that passes a test has: what all have, the test, and the order.
pub first-some :
    (P : TermRange → Type 0) (p : TermRange → Bool) (terms : List TermRange) (found : TermRange)
    → first p terms ≡ some found
    → All P terms
    → Sorted (λ a b. a.starts_on ≤ b.starts_on) terms
    → P found
      × ((p found ≡ true) × All (λ term. p term ≡ true → found.starts_on ≤ term.starts_on) terms)
first-some P p [] found h all sorted = cc
first-some P p (x ∷ xs) found h all sorted =
    go (λ k. first-some P p xs found k all.1 sorted.1) (p x) refl h
  where
    go :
        (first p xs ≡ some found
          → P found
            × ((p found ≡ true)
                × All (λ term. p term ≡ true → found.starts_on ≤ term.starts_on) xs))
        → (b : Bool) → p x ≡ b
        → (if b then some x else first p xs) ≡ some found
        → P found
          × ((p found ≡ true)
              × All (λ term. p term ≡ true → found.starts_on ≤ term.starts_on) (x ∷ xs))
    go later true e k =
        let same = some-injective x found k in
        let start : x.starts_on ≡ found.starts_on = ap (λ term. term.starts_on) same in
        (
          subst P same all.0,
          (
            ap p (sym same) ∙ e,
            (
              λ h. omega (arith, start),
              All-map (λ term. x.starts_on ≤ term.starts_on) _ xs
                  (λ term after h. omega (arith, start, after)) sorted.0,
            ),
          ),
        )
    go later false e k = let rest = later k in (rest.0, (rest.1.0, (λ h. cc, rest.1.1)))

pub last-none :
    (p : TermRange → Bool) (terms : List TermRange)
    → last p terms ≡ none
    → All (λ term. p term ≡ false) terms
last-none p [] h = tt
last-none p (x ∷ xs) h = go (last-none p xs) (last p xs) (p x) refl refl h
  where
    go :
        (last p xs ≡ none → All (λ term. p term ≡ false) xs)
        → (o : Option TermRange) (b : Bool) → last p xs ≡ o
        → p x ≡ b
        → or_if o b x ≡ none
        → (p x ≡ false) × All (λ term. p term ≡ false) xs
    go rest (some y) b f e k = cc
    go rest none true f e k = cc
    go rest none false f e k = (e, rest f)

pub last-some :
    (P : TermRange → Type 0) (p : TermRange → Bool) (terms : List TermRange) (found : TermRange)
    → last p terms ≡ some found
    → All P terms
    → Sorted (λ a b. a.starts_on ≤ b.starts_on) terms
    → P found
      × ((p found ≡ true) × All (λ term. p term ≡ true → term.starts_on ≤ found.starts_on) terms)
last-some P p [] found h all sorted = cc
last-some P p (x ∷ xs) found h all sorted =
    go (λ k. last-some P p xs found k all.1 sorted.1)
      (λ k. (last-some (λ term. x.starts_on ≤ term.starts_on) p xs found k sorted.0 sorted.1).0)
      (last p xs) (p x) refl refl h
  where
    go :
        (last p xs ≡ some found
          → P found
            × ((p found ≡ true)
                × All (λ term. p term ≡ true → term.starts_on ≤ found.starts_on) xs))
        → (last p xs ≡ some found → x.starts_on ≤ found.starts_on)
        → (o : Option TermRange) (b : Bool) → last p xs ≡ o
        → p x ≡ b
        → or_if o b x ≡ some found
        → P found
          × ((p found ≡ true)
              × All (λ term. p term ≡ true → term.starts_on ≤ found.starts_on) (x ∷ xs))
    go later ahead (some y) b f e k =
        let rest = later (f ∙ k) in (rest.0, (rest.1.0, (λ h. ahead (f ∙ k), rest.1.1)))
    go later ahead none true f e k = rw (sym (some-injective x found k)) (
      all.0,
      (
        e,
        (
          λ h. omega arith,
          All-map (λ term. p term ≡ false) _ xs (λ term no h. cc) (last-none p xs f),
        ),
      ),
    )
    go later ahead none false f e k = cc
