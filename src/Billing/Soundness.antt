-- ===== src/Billing/Soundness.antt =====
-- app/services/billing/service.py: what the requests keep of the rows: no user has two pending rows,
-- no two active terms of a user overlap, and an active row has a term.
pub mod Reach
use scholarscrib_backend.Billing.Calendar.{Moment, term_end, add_months_utc-IsDate}
use scholarscrib_backend.Billing.Service.{Civil, CivilLaws, term_end_at}
use scholarscrib_backend.Billing.Store.{
  Row, is_pending, of_user, is_running, runs_on, later_of, latest_live_end, update_where,
  with_status, runs,
}
use scholarscrib_backend.Billing.Tiers.{Period, Status, end_of, term_start, monthly, yearly}
use scholarscrib_backend.Prelude.{
  ℕ, ◌+◌, ◌*◌, ◌≤◌, ◌<◌, max, String, ◌≡◌, refl, ◌⊎◌, inl, inr, Bool, true, false, ◌&&◌, Option,
  none, some, List, [], ◌∷◌, map, arith, str_eq, ltb, if◌then◌else◌, Bool-cases, All, All-map,
}

module _ {A : Type 0} where
  -- A relation between each element and all after it.
  abbrev pub Pairwise : (A → A → Type 0) → List A → Type 0
  Pairwise R [] = Unit
  Pairwise R (x ∷ xs) = All (R x) xs × Pairwise R xs

  pub All-mapped :
      (f : A → A) (P Q : A → Type 0)
      → ((x : A) → P x → Q (f x))
      → (xs : List A) → All P xs
      → All Q (map f xs)
  All-mapped f P Q g [] h = tt
  All-mapped f P Q g (x ∷ xs) h = (g x h.0, All-mapped f P Q g xs h.1)

  pub All-both : (P Q : A → Type 0) (xs : List A) → All P xs → All Q xs → All (λ x. P x × Q x) xs
  All-both P Q [] h k = tt
  All-both P Q (x ∷ xs) h k = ((h.0, k.0), All-both P Q xs h.1 k.1)

  pub Pairwise-mapped :
      (f : A → A) (P : A → Type 0) (R S : A → A → Type 0)
      → ((x y : A) → P x → P y → R x y → S (f x) (f y))
      → (xs : List A) → All P xs
      → Pairwise R xs
      → Pairwise S (map f xs)
  Pairwise-mapped f P R S g [] h k = tt
  Pairwise-mapped f P R S g (x ∷ xs) h k = (
    All-mapped f (λ y. P y × R x y) (S (f x)) (λ y p. g x y h.0 p.0 p.1) xs
        (All-both P (R x) xs h.1 k.0),
    Pairwise-mapped f P R S g xs h.1 k.1,
  )

-- What holds between two rows of the table.
pub record Fits (r s : Row) : Type 0 where
  pub ids : str_eq r.id s.id ≡ false
  pub references : str_eq r.reference s.reference ≡ false
  pub apart :
      is_running r.status ≡ true
      → is_running s.status ≡ true
      → str_eq r.user_id s.user_id ≡ true
      → (end_of r.ends_at ≤ end_of s.starts_at) ⊎ (end_of s.ends_at ≤ end_of r.starts_at)
  pub one_pending :
      is_pending r.status ≡ true → is_pending s.status ≡ true → str_eq r.user_id s.user_id ≡ false

-- An active row has a term, which starts before it ends.
abbrev pub HasTerm : Row → Type 0
HasTerm row =
    is_running row.status ≡ true
    → (start : ℕ) × (end : ℕ) × (row.starts_at ≡ some start)
      × (row.ends_at ≡ some end)
      × (start < end)

pub record IsSound (rows : List Row) : Type 0 where
  pub fits : Pairwise Fits rows
  pub terms : All HasTerm rows

module _ (status : Status) (not_running : is_running status ≡ false)
    (not_pending : is_pending status ≡ false) where
  abbrev closed : (Row → Bool) → Row → Row
  closed test row = if test row then with_status status row else row

  closed-Fits : (test : Row → Bool) (r s : Row) → Fits r s → Fits (closed test r) (closed test s)
  closed-Fits test r s h = go (test r) (test s)
    where
      go :
          (b c : Bool)
          → Fits (if b then with_status status r else r) (if c then with_status status s else s)
      go true true = record {
        ids = h.ids;
        references = h.references;
        apart = λ p q e. cc;
        one_pending = λ p q. cc;
      }
      go true false = record {
        ids = h.ids;
        references = h.references;
        apart = λ p q e. cc;
        one_pending = λ p q. cc;
      }
      go false true = record {
        ids = h.ids;
        references = h.references;
        apart = λ p q e. cc;
        one_pending = λ p q. cc;
      }
      go false false = h

  -- Closing rows keeps the table sound.
  pub update_where-IsSound :
      (test : Row → Bool) (rows : List Row)
      → IsSound rows
      → IsSound (update_where test (with_status status) rows)
  update_where-IsSound test rows h = record {
    fits =
        Pairwise-mapped (closed test) (λ r. Unit {0}) Fits Fits
          (λ r s p q k. closed-Fits test r s k) rows (units rows) h.fits;
    terms = All-mapped (closed test) HasTerm HasTerm (λ r k. term (test r) r k) rows h.terms;
  }
    where
      units : (xs : List Row) → All (λ r. Unit {0}) xs
      units [] = tt
      units (x ∷ xs) = (tt, units xs)

      term : (b : Bool) (r : Row) → HasTerm r → HasTerm (if b then with_status status r else r)
      term true r k = λ p. cc
      term false r k = k

-- A term starts before it ends.
pub term_end_at-lt :
    (civil : Civil) (laws : CivilLaws civil) (start : ℕ) (period : Period)
    → start < term_end_at civil start period
unfolding term_end_at
term_end_at-lt civil laws start monthly =
    unfold term_end in
    let m = civil.to_civil start in
    let end = add_months_utc-IsDate m 1 (laws.valid start) in
    let later = laws.later_month m _ (laws.valid start) end.0 (omega (arith, end.1)) in
    omega (arith, later, laws.back start)
term_end_at-lt civil laws start yearly =
    unfold term_end in
    let m = civil.to_civil start in
    let end = add_months_utc-IsDate m 12 (laws.valid start) in
    let later = laws.later_month m _ (laws.valid start) end.0 (omega (arith, end.1)) in
    omega (arith, later, laws.back start)

term_start_bounds :
    (now : ℕ) (o : Option ℕ) → (now ≤ term_start now o) × (end_of o ≤ term_start now o)
unfolding term_start
term_start_bounds now none = (omega arith, omega arith)
term_start_bounds now (some e) = (ground arith, ground arith)

later_of_bounds :
    (a b : Option ℕ) → (end_of a ≤ end_of (later_of a b)) × (end_of b ≤ end_of (later_of a b))
later_of_bounds none b = (omega arith, omega arith)
later_of_bounds (some a) none = (omega arith, omega arith)
later_of_bounds (some a) (some b) = (omega arith, omega arith)

latest_live_end-grows :
    (row : Row) (rows : List Row) (user_id : String) (now : ℕ)
    → end_of (latest_live_end rows user_id now) ≤ end_of (latest_live_end (row ∷ rows) user_id now)
unfolding latest_live_end
latest_live_end-grows row rows user_id now = elim (Bool-cases (runs_on user_id now row)) [
  | inl e ↦ rw e (later_of_bounds row.ends_at (latest_live_end rows user_id now)).1
  | inr e ↦ rw e (omega arith)
]

latest_live_end-bound :
    (rows : List Row) (user_id : String) (now : ℕ)
    → All
        (λ r.
          runs_on user_id now r ≡ true
          → end_of r.ends_at ≤ end_of (latest_live_end rows user_id now))
        rows
latest_live_end-bound [] user_id now = tt
latest_live_end-bound (row ∷ rows) user_id now = (
  λ e.
      unfold latest_live_end in
      rw e (later_of_bounds row.ends_at (latest_live_end rows user_id now)).0,
  All-map _ _ rows (λ r h e. omega (arith, h e, latest_live_end-grows row rows user_id now))
      (latest_live_end-bound rows user_id now),
)

runs_on-ended :
    (r : Row) (user_id : String) (now : ℕ)
    → runs user_id r ≡ true
    → runs_on user_id now r ≡ false
    → end_of r.ends_at ≤ now
unfolding runs_on
runs_on-ended r user_id now e over = ground arith

-- Every active row of the user ends before a new term of the user starts.
pub term_start-after :
    (rows : List Row) (user_id : String) (now : ℕ)
    → All
        (λ r.
          runs user_id r ≡ true
          → end_of r.ends_at ≤ term_start now (latest_live_end rows user_id now))
        rows
term_start-after rows user_id now =
    All-map _ _ rows (λ r h e. after r h e) (latest_live_end-bound rows user_id now)
  where
    start : ℕ
    start = term_start now (latest_live_end rows user_id now)

    bounds : (now ≤ start) × (end_of (latest_live_end rows user_id now) ≤ start)
    bounds = term_start_bounds now (latest_live_end rows user_id now)

    after :
        (r : Row)
        → (runs_on user_id now r ≡ true
            → end_of r.ends_at ≤ end_of (latest_live_end rows user_id now))
        → runs user_id r ≡ true
        → end_of r.ends_at ≤ start
    after r h e = elim (Bool-cases (runs_on user_id now r)) [
      | inl live ↦ omega (arith, bounds.1, h live)
      | inr over ↦ omega (arith, bounds.0, runs_on-ended r user_id now e over)
    ]
