-- ===== src/Examples/Billing.antt =====
-- Runs of app/services/billing/rules.py, app/domain.py and app/services/auth/rules.py at concrete
-- inputs.
use scholarscrib_backend.Billing.Tiers.{
  Tier, tier_rank, Subscription, is_live, end_of, resolve_live_tier, ends_it, resolve_live_tier_lem,
  freemium, standard, premium, pending, active,
}
use scholarscrib_backend.Billing.Calendar.{
  Moment, is_leap, month_days, add_months_utc, IsDate, add_months_utc-IsDate,
}
use scholarscrib_backend.Billing.Settlement.{
  Transaction, settlement_outcome, MayActivate, settlement_outcome-activate, activate,
}
use scholarscrib_backend.Prelude.{
  ℕ, ◌+◌, ◌*◌, ◌≤◌, min, ◌≡◌, ◌↔◌, ◌⊎◌, true, none, some, List, [], ◌∷◌, arith, keep, any, All,
}

abbrev two_terms : List Subscription
two_terms =
    record { tier = standard; status = active; starts_at = none; ends_at = some 500 }
    ∷ record { tier = premium; status = active; starts_at = some 100; ends_at = some 300 }
    ∷ []

resolve_live_tier_lem_example :
    ((keep (λ row. is_live row 200) two_terms ≡ [])
      × (resolve_live_tier two_terms 200 ≡ (freemium, none)))
    ⊎ ((tier : Tier) × (expires : ℕ) × (resolve_live_tier two_terms 200 ≡ (tier, some expires))
        × All (λ row. tier_rank row.tier ≤ tier_rank tier) (keep (λ row. is_live row 200) two_terms)
        × All
            (λ row. row.tier ≡ tier → end_of row.ends_at ≤ expires)
            (keep (λ row. is_live row 200) two_terms)
        × (any (ends_it tier expires) (keep (λ row. is_live row 200) two_terms) ≡ true))
resolve_live_tier_lem_example = resolve_live_tier_lem two_terms 200

abbrev leap_day : Moment
leap_day = record { year = 2028; month = 2; day = 29; clock = 3600 }

leap_day-IsDate : IsDate leap_day
unfolding month_days is_leap
leap_day-IsDate = record {
  month_low = omega arith;
  month_high = omega arith;
  day_low = omega arith;
  day_high = omega arith;
}

add_months_utc-IsDate_example :
    IsDate (add_months_utc leap_day 11)
    × ((add_months_utc leap_day 11).year * 12 + (add_months_utc leap_day 11).month
        ≡ 2028 * 12 + 2 + 11)
    × ((add_months_utc leap_day 11).day
        ≡ min 29 (month_days (add_months_utc leap_day 11).year (add_months_utc leap_day 11).month))
    × ((add_months_utc leap_day 11).clock ≡ 3600)
add_months_utc-IsDate_example = add_months_utc-IsDate leap_day 11 leap_day-IsDate

abbrev paid_once : Transaction
paid_once = record {
  success = true;
  amount = some 250000;
  currency = some (b'n' ∷ b'g' ∷ b'n' ∷ []);
}

settlement_outcome-activate_example :
    (settlement_outcome (some pending) (some 250000) none paid_once ≡ activate)
    ↔ MayActivate pending (some 250000) none paid_once
settlement_outcome-activate_example =
    settlement_outcome-activate pending (some 250000) none paid_once
