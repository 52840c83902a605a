-- ===== src/Prelude/Sort.antt =====
-- `sorted(xs, key=...)`: a stable insertion sort by a Boolean order on the keys.
use mathlib.Core.Bool.{Bool, true, false}
use mathlib.Core.List.{List, [], ◌∷◌}
use Prim.Native.Nat.{ℕ, ◌+◌}
use mathlib.Core.Path.{◌≡◌, refl}
use mathlib.Core.Logic.{inl, inr}
use native.Mathlib.Omega.{arith}
use scholarscrib_backend.Prelude.Tests.{if◌then◌else◌, Bool-cases}
use scholarscrib_backend.Prelude.Lists.{All, All-map, sum_of}

module _ {ℓ} {A : Type ℓ} (le : A → A → Bool) where
  abbrev pub insert_by : A → List A → List A
  insert_by x [] = x ∷ []
  insert_by x (y ∷ ys) = if le x y then x ∷ y ∷ ys else y ∷ insert_by x ys

  abbrev pub sort_by : List A → List A
  sort_by [] = []
  sort_by (x ∷ xs) = insert_by x (sort_by xs)

module _ {ℓ} {A : Type ℓ} (le : A → A → Bool) (f : A → ℕ) where
  sum_of-insert_by : (x : A) (ys : List A) → sum_of f (insert_by le x ys) ≡ f x + sum_of f ys
  sum_of-insert_by x [] = omega arith
  sum_of-insert_by x (y ∷ ys) = elim (Bool-cases (le x y)) [
    | inl e ↦ rw e refl
    | inr e ↦ rw e (omega (arith, sum_of-insert_by x ys))
  ]

  pub sum_of-sort_by : (xs : List A) → sum_of f (sort_by le xs) ≡ sum_of f xs
  sum_of-sort_by [] = refl
  sum_of-sort_by (x ∷ xs) = omega (arith, sum_of-insert_by x (sort_by le xs), sum_of-sort_by xs)

module _ {ℓ} {A : Type ℓ} (le : A → A → Bool) where
  insert_by-All {κ} :
      (P : A → Type κ) (x : A) (ys : List A) → P x → All P ys → All P (insert_by le x ys)
  insert_by-All P x [] h k = (h, tt)
  insert_by-All P x (y ∷ ys) h k = elim (Bool-cases (le x y)) [
    | inl e ↦ rw e (h, k)
    | inr e ↦ rw e (k.0, insert_by-All P x ys h k.1)
  ]

  insert_by-All_inv {κ} :
      (P : A → Type κ) (x : A) (ys : List A) → All P (insert_by le x ys) → P x × All P ys
  insert_by-All_inv P x [] h = h
  insert_by-All_inv P x (y ∷ ys) h = elim (Bool-cases (le x y)) [
    | inl e ↦ rw e at h
    | inr e ↦
        let h' : P y × All P (insert_by le x ys) = rw e at h in
        let ih = insert_by-All_inv P x ys h'.1 in (ih.0, (h'.0, ih.1))
  ]

  pub sort_by-All {κ} : (P : A → Type κ) (xs : List A) → All P xs → All P (sort_by le xs)
  sort_by-All P [] h = h
  sort_by-All P (x ∷ xs) h = insert_by-All P x (sort_by le xs) h.0 (sort_by-All P xs h.1)

  pub sort_by-All_inv {κ} : (P : A → Type κ) (xs : List A) → All P (sort_by le xs) → All P xs
  sort_by-All_inv P [] h = h
  sort_by-All_inv P (x ∷ xs) h =
      let first = insert_by-All_inv P x (sort_by le xs) h in (first.0, sort_by-All_inv P xs first.1)

-- Each element stands in a relation to all that follow.
abbrev pub Sorted {ℓ} : {A : Type ℓ} → (A → A → Type 0) → List A → Type ℓ
Sorted R [] = Unit
Sorted R (x ∷ xs) = All (R x) xs × Sorted R xs

-- Sorting by a test that decides a transitive relation, one way or the other.
module _ {A : Type 0} (le : A → A → Bool) (R : A → A → Type 0)
    (trans : (a b c : A) → R a b → R b c → R a c) (yes : (a b : A) → le a b ≡ true → R a b)
    (no : (a b : A) → le a b ≡ false → R b a) where
  insert_by-Sorted : (x : A) (ys : List A) → Sorted R ys → Sorted R (insert_by le x ys)
  insert_by-Sorted x [] h = (tt, tt)
  insert_by-Sorted x (y ∷ ys) h = elim (Bool-cases (le x y)) [
    | inl e ↦ rw e ((yes x y e, All-map (R y) (R x) ys (λ z k. trans x y z (yes x y e) k) h.0), h)
    | inr e ↦ rw e (insert_by-All le (R y) x ys (no x y e) h.0, insert_by-Sorted x ys h.1)
  ]

  pub sort_by-Sorted : (xs : List A) → Sorted R (sort_by le xs)
  sort_by-Sorted [] = tt
  sort_by-Sorted (x ∷ xs) = insert_by-Sorted x (sort_by le xs) (sort_by-Sorted xs)
