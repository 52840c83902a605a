-- ===== src/Billing/Service.antt =====
-- app/services/billing/service.py: checkout, payment, grants and revocation over the store. An
-- operation returns the store with its result, an error included; `utcnow`, the new ids and
-- references and the answers of Paystack are arguments.
use scholarscrib_backend.Billing.Calendar.{Moment, term_end, IsDate}
use scholarscrib_backend.Billing.Settlement.{
  ngn, Outcome, Transaction, settlement_outcome, unknown_reference, already_applied, not_successful,
  amount_mismatch, currency_mismatch, not_pending, activate,
}
use scholarscrib_backend.Billing.Store.{
  Row, User, Store, is_pending, for_user, by_reference, latest_live_end, update_where, row_count,
  with_status, abandon_pending, may_open, activate_row, revoke_active, is_taken, paystack, comp,
}
use scholarscrib_backend.Billing.Tiers.{
  Tier, Period, tier_rank, is_purchasable, price_kobo, Subscription, term_start, resolve_live_tier,
  pending, active, failed,
}
pub use scholarscrib_backend.Prelude.Requests.{
  Failure, api_error, integrity_error, Result, ok, err, and_then, ◌>>=◌, ◌>>◌, pure, fail, require,
}
use scholarscrib_backend.Prelude.{
  ℕ, ◌+◌, ◌*◌, ◌<◌, String, ◌≡◌, Bool, true, false, ◌&&◌, not, Option, none, some, List, ◌∷◌, map,
  str_eq, leb, ◌==◌, if◌then◌else◌,
}

-- The state stays what it was when the error is raised.
abbrev pub M : Type 0 → Type 0
M A = Store → Store × Result A

-- What `datetime` does between an instant and its civil fields in UTC.
pub record Civil : Type 0 where
  pub to_civil : ℕ → Moment
  pub of_civil : Moment → ℕ

-- Reading back, valid dates, and a date of a later month is a later instant.
pub record CivilLaws (civil : Civil) : Type 0 where
  pub back : (t : ℕ) → civil.of_civil (civil.to_civil t) ≡ t
  pub valid : (t : ℕ) → IsDate (civil.to_civil t)
  pub later_month :
      (a b : Moment)
      → IsDate a
      → IsDate b
      → a.year * 12 + a.month < b.year * 12 + b.month
      → civil.of_civil a < civil.of_civil b

unfoldable pub term_end_at : Civil → ℕ → Period → ℕ
term_end_at civil start period = civil.of_civil (term_end (civil.to_civil start) period)

pub record Charge : Type 0 where
  pub transaction : Transaction
  pub channel : Option String

-- The answer of Paystack to the start of a checkout.
pub record Response : Type 0 where
  pub status_code : ℕ
  pub url : Option String

-- Whether an optional text is truthy.
abbrev pub is_text : Option String → Bool
is_text none = false
is_text (some s) = not (str_eq s "")

pub record CheckoutInput : Type 0 where
  pub billing_enabled : Bool
  pub user : User
  pub tier : Tier
  pub period : Period
  pub id : String
  pub reference : String
  pub response : Response

-- `subscriptions_repository.add(..., flush=True)`
unfoldable pub add_row : Row → M (Unit {0})
unfolding is_taken
add_row row s = elim (is_taken row s.rows) [
  | true ↦ (s, err integrity_error)
  | false ↦ (record s { rows = row ∷ s.rows }, ok tt)
]

unfoldable pub validate : CheckoutInput → M (Unit {0})
unfolding is_purchasable
validate input = do
  require input.billing_enabled 503 "Billing is not configured"
  require (is_purchasable input.tier) 400 "That plan cannot be purchased"
  require (is_text input.user.email) 400 "Add an email address before paying"

unfoldable pub pending_row : CheckoutInput → Row
unfolding price_kobo
pending_row input = record {
  id = input.id;
  user_id = input.user.id;
  tier = input.tier;
  period = input.period;
  reference = input.reference;
  amount_kobo = price_kobo input.tier input.period;
  currency = ngn;
  channel = none;
  status = pending;
  source = paystack;
  paid_at = none;
  starts_at = none;
  ends_at = none;
  granted_by_id = none;
  note = none;
}

unfoldable pub abandon : String → M (Unit {0})
unfolding abandon_pending
abandon user_id s = (record s { rows = abandon_pending user_id s.rows }, ok tt)

abbrev pub url_of : Option String → M String
url_of none s = (s, err (api_error 502 "Paystack could not start checkout"))
url_of (some url) s =
    if str_eq url ""
    then (s, err (api_error 502 "Paystack could not start checkout"))
    else (s, ok url)

unfoldable pub initialize : Response → M String
initialize response = do
  require (not (leb 400 response.status_code)) 502 "Paystack could not start checkout"
  url_of response.url

-- CheckoutService.process, without the product event.
unfoldable pub checkout : CheckoutInput → M String
unfolding validate abandon add_row pending_row initialize
checkout input = do
  validate input
  abandon input.user.id
  add_row (pending_row input)
  initialize input.response

abbrev pub as_subscription : Row → Subscription
as_subscription row = record {
  tier = row.tier;
  status = row.status;
  starts_at = row.starts_at;
  ends_at = row.ends_at;
}

unfoldable pub live_tier : List Row → String → ℕ → Tier
unfolding for_user resolve_live_tier
live_tier rows user_id now = (resolve_live_tier (map as_subscription (for_user rows user_id)) now).0

-- `user.tier = tier` on the row of the user, unless it is that tier.
unfoldable pub store_tier : String → Tier → ℕ → List User → List User
unfolding tier_rank
store_tier user_id tier now users =
    map
      (λ user.
        if str_eq user.id user_id && not (tier_rank user.tier == tier_rank tier)
        then record user { tier = tier; tier_updated_at = some now }
        else user)
      users

-- RefreshUserTierService.process
unfoldable pub refresh_user_tier : String → ℕ → Store → Store
unfolding live_tier store_tier
refresh_user_tier user_id now s = record s {
  users = store_tier user_id (live_tier s.rows user_id now) now s.users;
}

unfoldable pub activated : Civil → ℕ → ℕ → Charge → Row → Row
unfolding term_end_at
activated civil now start charge row = record row {
  status = active;
  paid_at = some now;
  channel = charge.channel;
  starts_at = some start;
  ends_at = some (term_end_at civil start row.period);
}

-- `row.status = "FAILED"`
unfoldable pub fail_row : String → List Row → List Row
fail_row id rows = update_where (λ r. str_eq r.id id) (with_status failed) rows

unfoldable pub outcome_of : Option Row → Transaction → Outcome
unfolding settlement_outcome
outcome_of none transaction = settlement_outcome none none none transaction
outcome_of (some row) transaction =
    settlement_outcome (some row.status) (some row.amount_kobo) (some row.currency) transaction

unfoldable pub start_for : Row → ℕ → List Row → ℕ
unfolding latest_live_end term_start
start_for row now rows = term_start now (latest_live_end rows row.user_id now)

-- `_activate` and the refresh of the tier, which reads the clock again. The end is computed from
-- the period of the row, which is the one that is updated.
unfoldable pub activate_found : Civil → (now later : ℕ) → Row → Charge → Store → Store × Outcome
unfolding start_for activated activate_row refresh_user_tier
activate_found civil now later row charge s =
    let change = activated civil now (start_for row now s.rows) charge in
    let s' = record s { rows = activate_row row.id change s.rows } in
    if row_count (may_open row.id) s.rows == 0
    then (s', already_applied)
    else (refresh_user_tier row.user_id later s', activate)

-- The branches of `process` after the outcome.
unfoldable pub settle_found :
    Civil → (now later : ℕ) → Row → Charge → Outcome → Store → Store × Outcome
unfolding activate_found fail_row is_pending
settle_found civil now later row charge unknown_reference s = (s, unknown_reference)
settle_found civil now later row charge already_applied s = (s, already_applied)
settle_found civil now later row charge not_successful s = (
  if is_pending row.status then record s { rows = fail_row row.id s.rows } else s,
  not_successful,
)
settle_found civil now later row charge amount_mismatch s = (s, amount_mismatch)
settle_found civil now later row charge currency_mismatch s = (s, currency_mismatch)
settle_found civil now later row charge not_pending s = (s, not_pending)
settle_found civil now later row charge activate s = activate_found civil now later row charge s

unfoldable pub settle : Civil → (now later : ℕ) → Option Row → Charge → Store → Store × Outcome
unfolding settle_found outcome_of
settle civil now later none charge s = (s, outcome_of none charge.transaction)
settle civil now later (some row) charge s =
    settle_found civil now later row charge (outcome_of (some row) charge.transaction) s

-- ApplyChargeSuccessService.process, without the product event.
unfoldable pub apply_charge : Civil → (now later : ℕ) → String → Charge → Store → Store × Outcome
unfolding settle by_reference
apply_charge civil now later reference charge s =
    settle civil now later (by_reference s.rows reference) charge s

pub record Grant : Type 0 where
  pub user_id : String
  pub tier : Tier
  pub period : Period
  pub admin_id : String
  pub note : Option String
  pub id : String
  pub reference : String

unfoldable pub granted : Civil → ℕ → ℕ → Grant → Row
unfolding term_end_at
granted civil now start grant = record {
  id = grant.id;
  user_id = grant.user_id;
  tier = grant.tier;
  period = grant.period;
  reference = grant.reference;
  amount_kobo = 0;
  currency = ngn;
  channel = none;
  status = active;
  source = comp;
  paid_at = some now;
  starts_at = some start;
  ends_at = some (term_end_at civil start grant.period);
  granted_by_id = some grant.admin_id;
  note = grant.note;
}

abbrev pub refresh : String → ℕ → M (Unit {0})
unfolding refresh_user_tier
refresh user_id later s = (refresh_user_tier user_id later s, ok tt)

-- GrantCompSubscriptionService.process
unfoldable pub grant_comp : Civil → (now later : ℕ) → Grant → M (Unit {0})
unfolding granted add_row refresh_user_tier latest_live_end term_start
grant_comp civil now later grant s =
    (do
      add_row (granted civil now (term_start now (latest_live_end s.rows grant.user_id now)) grant)
      refresh grant.user_id later)
      s

-- RevokeSubscriptionService.process
unfoldable pub revoke : ℕ → String → M (Unit {0})
unfolding revoke_active refresh_user_tier
revoke later user_id s =
    (refresh_user_tier user_id later (record s { rows = revoke_active user_id s.rows }), ok tt)
