-- ===== src/Billing/Payments.antt =====
-- app/services/billing/service.py: a payment is applied once, and a revocation takes effect at once.
pub mod Deliveries
use mathlib.Core.Option.{some-injective}
use mathlib.Core.Path.{subst}
use scholarscrib_backend.Billing.Service.{
  Civil, Charge, activated, start_for, activate_found, settle_found, settle, apply_charge,
  outcome_of, as_subscription, live_tier, store_tier, refresh_user_tier, revoke,
}
use scholarscrib_backend.Billing.Settlement.{
  Outcome, Transaction, MayActivate, is_open, settle_row, settlement_outcome,
  settlement_outcome-activate, unknown_reference, already_applied, not_successful, amount_mismatch,
  currency_mismatch, not_pending, activate,
}
use scholarscrib_backend.Billing.Store.{
  Row, User, Store, is_running, of_user, for_user, by_reference, row_count, may_open, activate_row,
  runs, revoke_active, with_status,
}
use scholarscrib_backend.Billing.Tiers.{
  Tier, Status, tier_rank, Subscription, is_live, resolve_live_tier, freemium, standard, premium,
  revoked, active,
}
use scholarscrib_backend.Prelude.{
  ℕ, String, ◌≡◌, refl, sym, ap, ◌∙◌, inl, inr, Bool, true, false, ◌&&◌, not, Option, none, some,
  List, [], ◌∷◌, map, arith, str_eq, eq_iff, ◌==◌, if◌then◌else◌, &&-true, Bool-cases, keep, first,
  sum_of, All,
}

-- A search over rows that a change keeps in the search finds the changed row.
first-changed :
    (p : Row → Bool) (f : Row → Row) (rows : List Row) (row : Row)
    → ((r : Row) → p (f r) ≡ p r)
    → first p rows ≡ some row
    → first p (map f rows) ≡ some (f row)
first-changed p f [] row same h = cc
first-changed p f (x ∷ xs) row same h = elim (Bool-cases (p x)) [
  | inl e ↦
      let here : some x ≡ some row = rw e at h in
      rw (same x, e) (ap (λ r. some (f r)) (some-injective x row here))
  | inr e ↦
      let there : first p xs ≡ some row = rw e at h in
      rw (same x, e) (first-changed p f xs row same there)
]

settle_found-activate :
    (civil : Civil) (now later : ℕ) (row : Row) (charge : Charge) (outcome : Outcome) (s t : Store)
    → settle_found civil now later row charge outcome s ≡ (t, activate)
    → (outcome ≡ activate) × (activate_found civil now later row charge s ≡ (t, activate))
unfolding settle_found
settle_found-activate civil now later row charge unknown_reference s t h =
    absurd (let e = ap (λ (p : Store × Outcome). p.1) h in cc)
settle_found-activate civil now later row charge already_applied s t h =
    absurd (let e = ap (λ (p : Store × Outcome). p.1) h in cc)
settle_found-activate civil now later row charge not_successful s t h =
    absurd (let e = ap (λ (p : Store × Outcome). p.1) h in cc)
settle_found-activate civil now later row charge amount_mismatch s t h =
    absurd (let e = ap (λ (p : Store × Outcome). p.1) h in cc)
settle_found-activate civil now later row charge currency_mismatch s t h =
    absurd (let e = ap (λ (p : Store × Outcome). p.1) h in cc)
settle_found-activate civil now later row charge not_pending s t h =
    absurd (let e = ap (λ (p : Store × Outcome). p.1) h in cc)
settle_found-activate civil now later row charge activate s t h = (refl, h)

-- The rows after an activation, whose reference is then that of an active row.
pub activate_found-rows :
    (civil : Civil) (now later : ℕ) (row : Row) (charge : Charge) (s : Store)
    → (activate_found civil now later row charge s).0.rows
      ≡ activate_row row.id (activated civil now (start_for row now s.rows) charge) s.rows
unfolding activate_found
activate_found-rows civil now later row charge s =
    elim (Bool-cases (row_count (may_open row.id) s.rows == 0)) [
      | inl e ↦ rw e refl
      | inr e ↦ rw e (unfold refresh_user_tier in refl)
    ]

pub by_reference-active :
    (civil : Civil) (now start : ℕ) (reference : String) (row : Row) (charge : Charge)
    (rows : List Row)
    → by_reference rows reference ≡ some row
    → is_open row.status ≡ true
    → by_reference (activate_row row.id (activated civil now start charge) rows) reference
      ≡ some (activated civil now start charge row)
unfolding by_reference activate_row
by_reference-active civil now start reference row charge rows found waiting =
    first-changed (λ r. str_eq r.reference reference) change rows row same found ∙ ap some here
  where
    change : Row → Row
    change r = if may_open row.id r then activated civil now start charge r else r

    same : (r : Row) → str_eq (change r).reference reference ≡ str_eq r.reference reference
    same r = elim (Bool-cases (may_open row.id r)) [
      | inl e ↦ rw e (unfold activated in refl)
      | inr e ↦ rw e refl
    ]

    here : change row ≡ activated civil now start charge row
    here = rw ((eq_iff row.id row.id).1 refl, waiting) refl

outcome_of-active :
    (row : Row) (transaction : Transaction)
    → row.status ≡ active
    → outcome_of (some row) transaction ≡ already_applied
unfolding outcome_of settlement_outcome settle_row
outcome_of-active row transaction e = rw e refl

apply_charge-found :
    (civil : Civil) (now later : ℕ) (reference : String) (charge : Charge) (s t : Store)
    → apply_charge civil now later reference charge s ≡ (t, activate)
    → (row : Row) × (by_reference s.rows reference ≡ some row)
      × MayActivate row.status (some row.amount_kobo) (some row.currency) charge.transaction
      × (activate_found civil now later row charge s ≡ (t, activate))
unfolding apply_charge settle
apply_charge-found civil now later reference charge s t h =
    go (by_reference s.rows reference) refl h
  where
    go :
        (o : Option Row)
        → by_reference s.rows reference ≡ o
        → settle civil now later o charge s ≡ (t, activate)
        → (row : Row) × (by_reference s.rows reference ≡ some row)
          × MayActivate row.status (some row.amount_kobo) (some row.currency) charge.transaction
          × (activate_found civil now later row charge s ≡ (t, activate))
    go none e k = absurd (
        let m = ap (λ (p : Store × Outcome). p.1) k in
        unfold outcome_of settlement_outcome in let n = m in cc)
    go (some row) e k =
        let parts = settle_found-activate civil now later row charge _ s t k in
        (
          row,
          e,
          (settlement_outcome-activate row.status (some row.amount_kobo) (some row.currency)
                charge.transaction).0
              (unfold outcome_of in parts.0),
          parts.1,
        )

-- A reference that is paid for once is settled: whatever is reported for it afterwards, and
-- whenever, changes nothing and is answered as already applied.
pub apply_charge_again :
    (civil : Civil) (now later then_now then_later : ℕ) (reference : String)
    (charge report : Charge) (s t : Store)
    → apply_charge civil now later reference charge s ≡ (t, activate)
    → apply_charge civil then_now then_later reference report t ≡ (t, already_applied)
apply_charge_again civil now later then_now then_later reference charge report s t h =
    let (row, found, may, done) = apply_charge-found civil now later reference charge s t h in
    let start = start_for row now s.rows in
    let rows : t.rows ≡ activate_row row.id (activated civil now start charge) s.rows =
      sym (ap (λ (p : Store × Outcome). p.0.rows) done)
      ∙ activate_found-rows civil now later row charge s in
    let paid : by_reference t.rows reference ≡ some (activated civil now start charge row) =
      ap (λ r. by_reference r reference) rows
      ∙ by_reference-active civil now start reference row charge s.rows found may.is_waiting in
    let outcome =
      outcome_of-active (activated civil now start charge row) report.transaction
        (unfold activated in refl) in
    unfold apply_charge settle in rw (paid, settle, outcome) (unfold settle_found in refl)

tier_rank-injective : (a b : Tier) → tier_rank a ≡ tier_rank b → a ≡ b
unfolding tier_rank
tier_rank-injective a b h = ground arith

-- After a refresh the stored tier of the user is the tier of the live rows.
pub store_tier-All :
    (user_id : String) (tier : Tier) (now : ℕ) (users : List User)
    → All (λ u. str_eq u.id user_id ≡ true → u.tier ≡ tier) (store_tier user_id tier now users)
unfolding store_tier
store_tier-All user_id tier now [] = tt
store_tier-All user_id tier now (u ∷ users) = (
  go (str_eq u.id user_id) (tier_rank u.tier == tier_rank tier) refl refl,
  store_tier-All user_id tier now users,
)
  where
    go :
        (b c : Bool)
        → str_eq u.id user_id ≡ b
        → (tier_rank u.tier == tier_rank tier) ≡ c
        → str_eq
            (if b && not c then record u { tier = tier; tier_updated_at = some now } else u).id
            user_id
          ≡ true
        → (if b && not c then record u { tier = tier; tier_updated_at = some now } else u).tier
          ≡ tier
    go true true e f k = tier_rank-injective u.tier tier (ground arith)
    go true false e f k = refl
    go false c e f k = cc

-- No row of the user is active after a revocation.
revoke_active-none :
    (user_id : String) (rows : List Row)
    → All (λ r. runs user_id r ≡ false) (revoke_active user_id rows)
unfolding revoke_active is_running
revoke_active-none user_id [] = tt
revoke_active-none user_id (r ∷ rows) = (go (runs user_id r) refl, revoke_active-none user_id rows)
  where
    go :
        (b : Bool)
        → runs user_id r ≡ b
        → runs user_id (if b then with_status revoked r else r) ≡ false
    go true e = ground arith
    go false e = e

no_live :
    (user_id : String) (now : ℕ) (rows : List Row)
    → All (λ r. runs user_id r ≡ false) rows
    → keep (λ row. is_live row now) (map as_subscription (for_user rows user_id)) ≡ []
unfolding for_user is_live is_running
no_live user_id now [] h = refl
no_live user_id now (r ∷ rows) h = ground (arith, no_live user_id now rows h.1)

revoke_active-others :
    (user_id : String) (rows : List Row)
    → keep (λ r. not (of_user user_id r)) (revoke_active user_id rows)
      ≡ keep (λ r. not (of_user user_id r)) rows
unfolding revoke_active is_running
revoke_active-others user_id [] = refl
revoke_active-others user_id (r ∷ rows) = elim (Bool-cases (runs user_id r)) [
  | inl e ↦
      let mine : of_user user_id r ≡ true = (&&-true e).0 in
      rw (e, mine) (revoke_active-others user_id rows)
  | inr e ↦ rw e (ground (arith, revoke_active-others user_id rows))
]

-- A revocation takes effect at once: no row of the user is active, the user is back on the free
-- tier, and the rows of other users are as they were.
pub revoke_lem :
    (later : ℕ) (user_id : String) (s : Store)
    → All (λ r. runs user_id r ≡ false) (revoke later user_id s).0.rows
      × All (λ u. str_eq u.id user_id ≡ true → u.tier ≡ freemium) (revoke later user_id s).0.users
      × (keep (λ r. not (of_user user_id r)) (revoke later user_id s).0.rows
          ≡ keep (λ r. not (of_user user_id r)) s.rows)
unfolding revoke refresh_user_tier live_tier
revoke_lem later user_id s =
    let none_runs = revoke_active-none user_id s.rows in
    let free : resolve_live_tier
          (map as_subscription (for_user (revoke_active user_id s.rows) user_id)) later
        ≡ (freemium, none) =
      unfold resolve_live_tier in rw (no_live user_id later _ none_runs) refl in
    (
      none_runs,
      subst
          (λ t.
            All (λ u. str_eq u.id user_id ≡ true → u.tier ≡ freemium)
              (store_tier user_id t later s.users))
          (ap (λ (p : Tier × Option ℕ). p.0) (sym free))
          (store_tier-All user_id freemium later s.users),
      revoke_active-others user_id s.rows,
    )
