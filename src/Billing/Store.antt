-- ===== src/Billing/Store.antt =====
-- app/database/models/billing.py and app/database/repositories/billing.py: the subscriptions, the
-- users' tiers and the recorded events, with the queries on them. The order of the rows is open in
-- the database; `created_at`, which it fills in itself, and the payload of an event, which is never
-- read, are left out.
use scholarscrib_backend.Billing.Settlement.{Code, is_open}
use scholarscrib_backend.Billing.Tiers.{
  Tier, Period, Status, pending, active, abandoned, failed, revoked,
}
use scholarscrib_backend.Prelude.{
  ℕ, max, String, Bool, true, false, ◌&&◌, ◌||◌, Option, none, some, List, [], ◌∷◌, map, str_eq,
  ltb, if◌then◌else◌, keep, first, any, sum_of,
}

pub data Source : Type 0 where
  paystack comp : Source

pub record Row : Type 0 where
  pub id : String
  pub user_id : String
  pub tier : Tier
  pub period : Period
  pub reference : String
  pub amount_kobo : ℕ
  pub currency : Code
  pub channel : Option String
  pub status : Status
  pub source : Source
  pub paid_at : Option ℕ
  pub starts_at : Option ℕ
  pub ends_at : Option ℕ
  pub granted_by_id : Option String
  pub note : Option String

pub record User : Type 0 where
  pub id : String
  pub email : Option String
  pub tier : Tier
  pub tier_updated_at : Option ℕ

pub record Store : Type 0 where
  pub rows : List Row
  pub users : List User
  -- The keys of the recorded events.
  pub events : List String

unfoldable pub is_pending : Status → Bool
is_pending pending = true
is_pending active = false
is_pending abandoned = false
is_pending failed = false
is_pending revoked = false

unfoldable pub is_running : Status → Bool
is_running pending = false
is_running active = true
is_running abandoned = false
is_running failed = false
is_running revoked = false

abbrev pub of_user : String → Row → Bool
of_user user_id row = str_eq row.user_id user_id

unfoldable pub for_user : List Row → String → List Row
for_user rows user_id = keep (of_user user_id) rows

unfoldable pub by_reference : List Row → String → Option Row
by_reference rows reference = first (λ row. str_eq row.reference reference) rows

abbrev pub ends_later : Option ℕ → ℕ → Bool
ends_later none now = false
ends_later (some t) now = ltb now t

-- A row that `latest_live_end` reads.
unfoldable pub runs_on : String → ℕ → Row → Bool
unfolding is_running
runs_on user_id now row =
    of_user user_id row && (is_running row.status && ends_later row.ends_at now)

abbrev pub later_of : Option ℕ → Option ℕ → Option ℕ
later_of none b = b
later_of (some a) none = some a
later_of (some a) (some b) = some (max a b)

-- The first of the ends in descending order.
unfoldable pub latest_live_end : List Row → String → ℕ → Option ℕ
unfolding runs_on
latest_live_end [] user_id now = none
latest_live_end (row ∷ rows) user_id now =
    if runs_on user_id now row
    then later_of row.ends_at (latest_live_end rows user_id now)
    else latest_live_end rows user_id now

-- UPDATE ... WHERE: the rows that pass the test are changed.
abbrev pub update_where : (Row → Bool) → (Row → Row) → List Row → List Row
update_where test change rows = map (λ row. if test row then change row else row) rows

-- Its row count.
abbrev pub row_count : (Row → Bool) → List Row → ℕ
row_count test rows = sum_of (λ row. if test row then 1 else 0) rows

abbrev pub with_status : Status → Row → Row
with_status status row = record row { status = status }

abbrev pub waits : String → Row → Bool
waits user_id row = of_user user_id row && is_pending row.status

unfoldable pub abandon_pending : String → List Row → List Row
unfolding is_pending
abandon_pending user_id rows = update_where (waits user_id) (with_status abandoned) rows

abbrev pub may_open : String → Row → Bool
may_open id row = str_eq row.id id && is_open row.status

unfoldable pub activate_row : String → (Row → Row) → List Row → List Row
unfolding is_open
activate_row id change rows = update_where (may_open id) change rows

abbrev pub runs : String → Row → Bool
runs user_id row = of_user user_id row && is_running row.status

unfoldable pub revoke_active : String → List Row → List Row
unfolding is_running
revoke_active user_id rows = update_where (runs user_id) (with_status revoked) rows

-- Whether the primary key or the unique reference of a new row is taken.
unfoldable pub is_taken : Row → List Row → Bool
is_taken row rows = any (λ r. str_eq r.id row.id || str_eq r.reference row.reference) rows
