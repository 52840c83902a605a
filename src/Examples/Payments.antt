-- ===== src/Examples/Payments.antt =====
-- Runs of app/services/billing/service.py and app/api/student/billing.py at concrete inputs.
use scholarscrib_backend.Billing.Calendar.{month_days, term_end}
use scholarscrib_backend.Billing.Payments.{apply_charge_again, revoke_lem}
use scholarscrib_backend.Billing.Payments.Deliveries.{
  Raises, status_of, fail_all, webhook_retry, webhook-Raises,
}
use scholarscrib_backend.Billing.Service.{
  ok, Civil, CivilLaws, Charge, CheckoutInput, checkout, activated, start_for, settle, apply_charge,
  revoke,
}
use scholarscrib_backend.Billing.Settlement.{
  ngn, upper, or_else, is_open, MayActivate, activate, already_applied,
}
use scholarscrib_backend.Billing.Soundness.{IsSound}
use scholarscrib_backend.Billing.Soundness.Reach.{
  handle, Reach-IsSound, ask_checkout, ask_webhook, start, next,
}
use scholarscrib_backend.Billing.Store.{Row, User, Store, of_user, by_reference, runs, paystack}
use scholarscrib_backend.Billing.Tiers.{freemium, standard, monthly, pending, active}
use scholarscrib_backend.Billing.Webhook.{
  db_session, Payload, event_type, Delivery, webhook, settled, duplicate,
}
use scholarscrib_backend.Prelude.{
  ℕ, ◌+◌, ◌-◌, ◌*◌, ◌/◌, ◌%◌, min, ◌≡◌, refl, ◌↔◌, true, false, not, Option, none, some, List, [],
  ◌∷◌, arith, str_eq, keep, All,
}

-- A calendar for the runs: months of 28 days, whose days after the 28th count as the 28th.
abbrev short_months : Civil
short_months = record {
  to_civil = λ t. record { year = t / 336; month = t / 28 % 12 + 1; day = t % 28 + 1; clock = 0 };
  of_civil = λ m. (m.year * 12 + (m.month - 1)) * 28 + min (m.day - 1) 27;
}

short_months-laws : CivilLaws short_months
unfolding month_days
short_months-laws = record {
  back = λ t. omega arith;
  valid = λ t. record {
    month_low = omega arith;
    month_high = omega arith;
    day_low = omega arith;
    day_high = ground arith;
  };
  later_month = λ a b h k less. (let low = h.month_low in let high = k.month_low in omega arith);
}

abbrev ada : User
ada = record { id = "ada"; email = some "ada@example.org"; tier = freemium; tier_updated_at = none }

abbrev nobody_paid : Store
nobody_paid = record { rows = []; users = ada ∷ []; events = [] }

abbrev asks : CheckoutInput
asks = record {
  billing_enabled = true;
  user = ada;
  tier = standard;
  period = monthly;
  id = "s1";
  reference = "pw_1";
  response = record { status_code = 200; url = some "https://checkout.paystack.com/x" };
}

abbrev ngn_charge : Charge
ngn_charge = record {
  transaction = record { success = true; amount = some 250000; currency = some ngn };
  channel = some "card";
}

abbrev success_event : Payload
success_event = record { reference = some "pw_1"; event = some "charge.success"; type = none }

abbrev waiting : Row
waiting = record {
  id = "s1";
  user_id = "ada";
  tier = standard;
  period = monthly;
  reference = "pw_1";
  amount_kobo = 250000;
  currency = ngn;
  channel = none;
  status = pending;
  source = paystack;
  paid_at = none;
  starts_at = none;
  ends_at = none;
  granted_by_id = none;
  note = none;
}

abbrev one_waits : Store
one_waits = record { rows = waiting ∷ []; users = ada ∷ []; events = [] }

abbrev delivers : Option Charge → Delivery
delivers verified = record { signed = true; payload = some success_event; verified = verified }

checkout_run : db_session (checkout asks) nobody_paid ≡ one_waits
unfolding checkout db_session
checkout_run = refl

Reach-IsSound_example :
    IsSound
      (handle short_months
        (ask_webhook 1000 1001 (delivers (some ngn_charge)))
        (handle short_months (ask_checkout asks) nobody_paid)).rows
Reach-IsSound_example = Reach-IsSound short_months short_months-laws _ (
    next (ask_webhook 1000 1001 (delivers (some ngn_charge)))
      (next (ask_checkout asks) (start nobody_paid refl)))

abbrev running : Row
running = record waiting {
  status = active;
  channel = some "card";
  paid_at = some 1000;
  starts_at = some 1000;
  ends_at = some 1028;
}

abbrev one_runs : Store
one_runs = record {
  rows = running ∷ [];
  users = record ada { tier = standard; tier_updated_at = some 1001 } ∷ [];
  events = [];
}

first_payment :
    apply_charge short_months 1000 1001 "pw_1" ngn_charge one_waits ≡ (one_runs, activate)
unfolding apply_charge by_reference settle term_end upper or_else
first_payment = refl

apply_charge_again_example :
    apply_charge short_months 2000 2001 "pw_1" ngn_charge one_runs ≡ (one_runs, already_applied)
apply_charge_again_example =
    apply_charge_again short_months 1000 1001 2000 2001 "pw_1" ngn_charge ngn_charge one_waits
      one_runs first_payment

revoke_lem_example :
    All (λ r. runs "ada" r ≡ false) (revoke 1500 "ada" one_runs).0.rows
    × All (λ u. str_eq u.id "ada" ≡ true → u.tier ≡ freemium) (revoke 1500 "ada" one_runs).0.users
    × (keep (λ r. not (of_user "ada" r)) (revoke 1500 "ada" one_runs).0.rows
        ≡ keep (λ r. not (of_user "ada" r)) one_runs.rows)
revoke_lem_example = revoke_lem 1500 "ada" one_runs

waiting-MayActivate : MayActivate pending (some 250000) (some ngn) ngn_charge.transaction
unfolding is_open upper or_else
waiting-MayActivate = record {
  is_waiting = refl;
  paid = refl;
  same_amount = refl;
  same_currency = refl;
}

waiting_found : by_reference one_waits.rows "pw_1" ≡ some waiting
unfolding by_reference
waiting_found = refl

success_type : event_type success_event ≡ "charge.success"
unfolding event_type
success_type = refl

abbrev two_failures : List (ℕ × ℕ)
two_failures = (900, 901) ∷ (950, 951) ∷ []

webhook_retry_example :
    (fail_all short_months success_event two_failures one_waits ≡ one_waits)
    × ((webhook short_months 1000 1001 (delivers (some ngn_charge)) one_waits).1
        ≡ ok (settled activate))
    × (by_reference
          (webhook short_months 1000 1001 (delivers (some ngn_charge)) one_waits).0.rows
          "pw_1"
        ≡ some (
            activated short_months 1000 (start_for waiting 1000 one_waits.rows) ngn_charge waiting))
    × (webhook short_months 3000 3001
          (delivers none)
          (webhook short_months 1000 1001 (delivers (some ngn_charge)) one_waits).0
        ≡ ((webhook short_months 1000 1001 (delivers (some ngn_charge)) one_waits).0, ok duplicate))
webhook_retry_example =
    webhook_retry short_months success_event ngn_charge "pw_1" waiting one_waits refl refl
      success_type refl waiting_found waiting-MayActivate two_failures 1000 1001 3000 3001 none

webhook-Raises_example :
    ((status_of (webhook short_months 1000 1001 (delivers none) one_waits).1 ≡ some 500)
      ↔ Raises true (some success_event) none [] 500)
    × (Raises true (some success_event) none [] 500
        → db_session (webhook short_months 1000 1001 (delivers none)) one_waits ≡ one_waits)
webhook-Raises_example = webhook-Raises short_months 1000 1001 (delivers none) one_waits 500
