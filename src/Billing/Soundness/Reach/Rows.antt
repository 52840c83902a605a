-- ===== src/Billing/Soundness/Reach/Rows.antt =====
-- app/services/billing/service.py: the changes of the rows keep the table sound.
use mathlib.Core.Option.{some-injective}
use mathlib.Core.Path.{subst}
use scholarscrib_backend.Billing.Service.{
  Civil, CivilLaws, term_end_at, Charge, CheckoutInput, pending_row, activated, start_for, Grant,
  granted,
}
use scholarscrib_backend.Billing.Soundness.{
  Pairwise, All-both, All-mapped, Pairwise-mapped, Fits, HasTerm, IsSound, term_end_at-lt,
  term_start-after,
}
use scholarscrib_backend.Billing.Store.{
  Row, is_pending, is_running, by_reference, latest_live_end, with_status, waits, abandon_pending,
  may_open, activate_row, runs, is_taken,
}
use scholarscrib_backend.Billing.Tiers.{end_of, term_start, abandoned}
use scholarscrib_backend.Prelude.{
  ℕ, ◌≤◌, String, ◌≡◌, refl, ap, inl, inr, Bool, true, false, some, List, [], ◌∷◌, arith, str_eq,
  eq_iff, if◌then◌else◌, &&-true, Bool-cases, first, All, All-map,
}

str_eq-flip : (a b : String) → str_eq a b ≡ false → str_eq b a ≡ false
str_eq-flip a b h = ground (arith, eq_iff a b, eq_iff b a)

str_eq_trans : (a b c : String) → str_eq a c ≡ true → str_eq b c ≡ true → str_eq a b ≡ true
str_eq_trans a b c h k = ground (arith, eq_iff a b, eq_iff a c, eq_iff b c)

found-All :
    (P : Row → Type 0) (p : Row → Bool) (rows : List Row) (row : Row)
    → first p rows ≡ some row
    → All P rows
    → P row
found-All P p [] row h k = cc
found-All P p (x ∷ xs) row h k = elim (Bool-cases (p x)) [
  | inl e ↦ let here : some x ≡ some row = rw e at h in subst P (some-injective x row here) k.0
  | inr e ↦ let there : first p xs ≡ some row = rw e at h in found-All P p xs row there k.1
]

-- The key of a row that was found is the key of that row alone.
found-user :
    (p : Row → Bool) (rows : List Row) (row : Row)
    → first p rows ≡ some row
    → Pairwise Fits rows
    → All (λ r. str_eq r.id row.id ≡ true → r.user_id ≡ row.user_id) rows
found-user p [] row h k = tt
found-user p (x ∷ xs) row h k = elim (Bool-cases (p x)) [
  | inl e ↦
      let here : some x ≡ some row = rw e at h in
      let same : x ≡ row = some-injective x row here in
      (
        λ q. ap (λ (r : Row). r.user_id) same,
        All-map (Fits x) _ xs
            (λ r f q.
              let apart : str_eq row.id r.id ≡ false =
                subst (λ y. str_eq y.id r.id ≡ false) same f.ids in
              let flipped = str_eq-flip row.id r.id apart in cc)
            k.0,
      )
  | inr e ↦
      let there : first p xs ≡ some row = rw e at h in
      let fits = found-All (Fits x) p xs row there k.0 in
      (λ q. (let apart = fits.ids in cc), found-user p xs row there k.1)
]

runs-same :
    (user_id : String) (r s : Row)
    → r.user_id ≡ user_id
    → str_eq r.user_id s.user_id ≡ true
    → is_running s.status ≡ true
    → runs user_id s ≡ true
runs-same user_id r s h e k = ground (arith, eq_iff r.user_id s.user_id, eq_iff s.user_id user_id)

module _ (civil : Civil) (laws : CivilLaws civil) (now : ℕ) (row : Row) (charge : Charge)
    (rows : List Row) where
  -- What holds of each row before the activation.
  abbrev Ready : Row → Type 0
  Ready r =
      (str_eq r.id row.id ≡ true → r.user_id ≡ row.user_id)
      × (runs row.user_id r ≡ true → end_of r.ends_at ≤ start_for row now rows)

  abbrev change : Row → Row
  change r = if may_open row.id r then activated civil now (start_for row now rows) charge r else r

  change-Fits : (r s : Row) → Ready r → Ready s → Fits r s → Fits (change r) (change s)
  unfolding activated is_pending
  change-Fits r s p q h = go (may_open row.id r) (may_open row.id s) refl refl
    where
      new : Row → Row
      new = activated civil now (start_for row now rows) charge

      go :
          (b c : Bool)
          → may_open row.id r ≡ b
          → may_open row.id s ≡ c
          → Fits (if b then new r else r) (if c then new s else s)
      go true true e f =
          let same = str_eq_trans r.id s.id row.id (&&-true e).0 (&&-true f).0 in
          let apart = h.ids in absurd (cc)
      go true false e f = record {
        ids = h.ids;
        references = h.references;
        apart = λ a b k. inr (q.1 (runs-same row.user_id r s (p.0 (&&-true e).0) k b));
        one_pending = λ a b. cc;
      }
      go false true e f = record {
        ids = h.ids;
        references = h.references;
        apart = λ a b k.
            let back : str_eq s.user_id r.user_id ≡ true =
              ground (arith, eq_iff r.user_id s.user_id, eq_iff s.user_id r.user_id) in
            inl (p.1 (runs-same row.user_id s r (q.0 (&&-true f).0) back a));
        one_pending = λ a b. cc;
      }
      go false false e f = h

  change-HasTerm : (r : Row) → HasTerm r → HasTerm (change r)
  unfolding activated
  change-HasTerm r h = go (may_open row.id r)
    where
      go :
          (b : Bool)
          → HasTerm (if b then activated civil now (start_for row now rows) charge r else r)
      go true k = (
        start_for row now rows,
        term_end_at civil (start_for row now rows) r.period,
        refl,
        refl,
        term_end_at-lt civil laws (start_for row now rows) r.period,
      )
      go false k = h k

  -- Activating the row of a reference keeps the table sound.
  pub activate_row-IsSound :
      (reference : String)
      → by_reference rows reference ≡ some row
      → IsSound rows
      → IsSound (activate_row row.id (activated civil now (start_for row now rows) charge) rows)
  unfolding activate_row by_reference
  activate_row-IsSound reference found h =
      let users = found-user (λ r. str_eq r.reference reference) rows row found h.fits in
      let ready : All Ready rows =
        All-both _ _ rows users (unfold start_for in term_start-after rows row.user_id now) in
      record {
        fits = Pairwise-mapped change Ready Fits Fits change-Fits rows ready h.fits;
        terms = All-mapped change HasTerm HasTerm change-HasTerm rows h.terms;
      }

-- A row that differs from all others and fits them may be added.
fresh-Fits :
    (new : Row) (rows : List Row)
    → is_taken new rows ≡ false
    → All (λ r. (str_eq new.id r.id ≡ false) × (str_eq new.reference r.reference ≡ false)) rows
unfolding is_taken
fresh-Fits new [] h = tt
fresh-Fits new (r ∷ rows) h =
    let both : (str_eq r.id new.id ≡ false)
        × (str_eq r.reference new.reference ≡ false)
        × (is_taken new rows ≡ false) =
      ground arith in
    (
      (str_eq-flip r.id new.id both.0, str_eq-flip r.reference new.reference both.1),
      fresh-Fits new rows both.2,
    )

-- No row of the user waits.
abbrev pub NoPending : String → List Row → Type 0
NoPending user_id rows = All (λ r. waits user_id r ≡ false) rows

pub abandon_pending-NoPending :
    (user_id : String) (rows : List Row) → NoPending user_id (abandon_pending user_id rows)
unfolding abandon_pending is_pending
abandon_pending-NoPending user_id [] = tt
abandon_pending-NoPending user_id (r ∷ rows) =
    (go (waits user_id r) refl, abandon_pending-NoPending user_id rows)
  where
    go :
        (b : Bool)
        → waits user_id r ≡ b
        → waits user_id (if b then with_status abandoned r else r) ≡ false
    go true e = ground arith
    go false e = e

pub add_pending-IsSound :
    (input : CheckoutInput) (rows : List Row)
    → is_taken (pending_row input) rows ≡ false
    → NoPending input.user.id rows
    → IsSound rows
    → IsSound (pending_row input ∷ rows)
unfolding pending_row is_pending is_running
add_pending-IsSound input rows fresh none_waits h = record {
  fits = (
    All-map _ _ rows
        (λ r k. record {
          ids = k.0.0;
          references = k.0.1;
          apart = λ a b e. cc;
          one_pending = λ a b.
              (let idle = k.1 in
                ground (arith, eq_iff input.user.id r.user_id, eq_iff r.user_id input.user.id));
        })
        (All-both _ _ rows (fresh-Fits (pending_row input) rows fresh) none_waits),
    h.fits,
  );
  terms = (λ a. cc, h.terms);
}

pub add_granted-IsSound :
    (civil : Civil) (laws : CivilLaws civil) (now : ℕ) (grant : Grant) (rows : List Row)
    → is_taken
        (granted civil now (term_start now (latest_live_end rows grant.user_id now)) grant)
        rows
      ≡ false
    → IsSound rows
    → IsSound
        (granted civil now (term_start now (latest_live_end rows grant.user_id now)) grant ∷ rows)
unfolding granted is_pending
add_granted-IsSound civil laws now grant rows fresh h =
    let begins = term_start now (latest_live_end rows grant.user_id now) in
    record {
      fits = (
        All-map _ _ rows
            (λ r k. record {
              ids = k.0.0;
              references = k.0.1;
              apart = λ a b e.
                  let back : str_eq r.user_id grant.user_id ≡ true =
                    ground
                      (arith, eq_iff grant.user_id r.user_id, eq_iff r.user_id grant.user_id) in
                  inr (k.1 (let it = b in ground arith));
              one_pending = λ a b. cc;
            })
            (All-both _ _ rows (fresh-Fits (granted civil now begins grant) rows fresh)
              (term_start-after rows grant.user_id now)),
        h.fits,
      );
      terms = (
        λ a. (
          begins,
          term_end_at civil begins grant.period,
          refl,
          refl,
          term_end_at-lt civil laws begins grant.period,
        ),
        h.terms,
      );
    }
