-- ===== src/Billing/Tiers.antt =====
-- app/domain.py: tiers, entitlements and prices; app/services/billing/rules.py: the subscription
-- that is live. Instants are counted from a fixed one, in the unit of the clock.
use mathlib.Core.Path.{subst}
use scholarscrib_backend.Prelude.{
  ℕ, ◌≤◌, ◌<◌, max, ◌≡◌, refl, sym, ◌∙◌, ◌↔◌, ◌⊎◌, inl, inr, Bool, true, false, ◌&&◌, ◌||◌, Option,
  none, some, List, [], ◌∷◌, arith, ltb, leb, ◌==◌, if◌then◌else◌, leb→le, ==_refl, Bool-cases,
  keep, any, All, All-map,
}

pub data Tier : Type 0 where
  freemium standard premium : Tier

pub data Feature : Type 0 where
  flashcards study_planner premium_library advanced_analytics ai_tutor : Feature

pub data Period : Type 0 where
  monthly yearly : Period

unfoldable pub tier_rank : Tier → ℕ
tier_rank freemium = 0
tier_rank standard = 1
tier_rank premium = 2

unfoldable pub paid_entitlement : Feature → Tier
paid_entitlement flashcards = standard
paid_entitlement study_planner = standard
paid_entitlement premium_library = premium
paid_entitlement advanced_analytics = premium
paid_entitlement ai_tutor = premium

-- BETA_OPEN_FEATURES
unfoldable pub beta_open : Feature → Bool
beta_open flashcards = true
beta_open study_planner = true
beta_open ai_tutor = true
beta_open premium_library = false
beta_open advanced_analytics = false

unfoldable pub entitlement : Feature → Tier
unfolding beta_open paid_entitlement
entitlement feature = if beta_open feature then freemium else paid_entitlement feature

unfoldable pub can : Tier → Feature → Bool
unfolding tier_rank entitlement
can tier feature = leb (tier_rank (entitlement feature)) (tier_rank tier)

unfoldable pub is_purchasable : Tier → Bool
is_purchasable freemium = false
is_purchasable standard = true
is_purchasable premium = true

unfoldable pub price_kobo : Tier → Period → ℕ
price_kobo freemium monthly = 0
price_kobo freemium yearly = 0
price_kobo standard monthly = 250000
price_kobo standard yearly = 2400000
price_kobo premium monthly = 500000
price_kobo premium yearly = 5000000

-- A higher tier can do all that a lower one can.
pub can_mono :
    (low high : Tier) (feature : Feature)
    → tier_rank low ≤ tier_rank high
    → can low feature ≡ true
    → can high feature ≡ true
unfolding can
can_mono low high feature h c = ground arith

-- A higher tier costs at least as much in either period, and a tier has a price exactly when it
-- can be bought.
pub price_kobo_mono :
    (low high : Tier) (period : Period)
    → tier_rank low ≤ tier_rank high
    → (price_kobo low period ≤ price_kobo high period)
      × ((is_purchasable low ≡ true) ↔ (0 < price_kobo low period))
unfolding is_purchasable price_kobo tier_rank
price_kobo_mono low high period h =
    (price_mono low high period h, (λ p. ground arith, λ p. ground arith))
  where
    price_mono :
        (low high : Tier) (period : Period)
        → tier_rank low ≤ tier_rank high
        → price_kobo low period ≤ price_kobo high period
    price_mono low high period h = ground arith

pub data Status : Type 0 where
  pending active abandoned failed revoked : Status

pub record Subscription : Type 0 where
  pub tier : Tier
  pub status : Status
  pub starts_at : Option ℕ
  pub ends_at : Option ℕ

abbrev is_active : Status → Bool
is_active active = true
is_active _ = false

starts_by : Option ℕ → ℕ → Bool
starts_by none now = true
starts_by (some t) now = leb t now

ends_after : Option ℕ → ℕ → Bool
ends_after none now = false
ends_after (some t) now = ltb now t

unfoldable pub is_live : Subscription → ℕ → Bool
unfolding starts_by ends_after
is_live row now =
    is_active row.status && (starts_by row.starts_at now && ends_after row.ends_at now)

unfoldable pub term_start : ℕ → Option ℕ → ℕ
term_start now none = now
term_start now (some ends_at) = if ltb now ends_at then ends_at else now

-- max(live, key=...): the first row of the highest rank.
unfoldable pub best_of : Subscription → List Subscription → Subscription
unfolding tier_rank
best_of best [] = best
best_of best (row ∷ rows) =
    best_of (if ltb (tier_rank best.tier) (tier_rank row.tier) then row else best) rows

-- The end of a live row, which has one.
abbrev pub end_of : Option ℕ → ℕ
end_of none = 0
end_of (some t) = t

unfoldable pub latest_end : Tier → List Subscription → ℕ
unfolding tier_rank
latest_end tier [] = 0
latest_end tier (row ∷ rows) =
    if tier_rank row.tier == tier_rank tier
    then max (end_of row.ends_at) (latest_end tier rows)
    else latest_end tier rows

unfoldable pub resolve_among : List Subscription → Tier × Option ℕ
unfolding best_of latest_end
resolve_among [] = (freemium, none)
resolve_among (row ∷ rows) =
    let best = best_of row rows in (best.tier, some (latest_end best.tier (row ∷ rows)))

unfoldable pub resolve_live_tier : List Subscription → ℕ → Tier × Option ℕ
unfolding resolve_among is_live
resolve_live_tier rows now = resolve_among (keep (λ row. is_live row now) rows)

best_of-bound :
    (best : Subscription) (rows : List Subscription)
    → (tier_rank best.tier ≤ tier_rank (best_of best rows).tier)
      × All (λ row. tier_rank row.tier ≤ tier_rank (best_of best rows).tier) rows
unfolding best_of
best_of-bound best [] = (omega arith, tt)
best_of-bound best (row ∷ rows) =
    let next = if ltb (tier_rank best.tier) (tier_rank row.tier) then row else best in
    let ih = best_of-bound next rows in
    let over_best : tier_rank best.tier ≤ tier_rank next.tier = ground arith in
    let over_row : tier_rank row.tier ≤ tier_rank next.tier = ground arith in
    (omega (arith, ih.0, over_best), (omega (arith, ih.0, over_row), ih.1))

best_of-there :
    (best : Subscription) (rows : List Subscription)
    → any (λ row. tier_rank row.tier == tier_rank (best_of best rows).tier) (best ∷ rows) ≡ true
unfolding best_of
best_of-there best [] = rw (==_refl (tier_rank best.tier)) refl
best_of-there best (row ∷ rows) =
    let next = if ltb (tier_rank best.tier) (tier_rank row.tier) then row else best in
    one_of (ltb (tier_rank best.tier) (tier_rank row.tier)) (best_of next rows)
      (any (λ r. tier_rank r.tier == tier_rank (best_of next rows).tier) rows)
      (best_of-there next rows)
  where
    one_of :
        (c : Bool) (b : Subscription) (rest : Bool)
        → ((tier_rank (if c then row else best).tier == tier_rank b.tier) || rest) ≡ true
        → ((tier_rank best.tier == tier_rank b.tier)
            || ((tier_rank row.tier == tier_rank b.tier) || rest))
          ≡ true
    one_of true b rest h = ground arith
    one_of false b rest h = ground arith

-- A row of the tier that ends when the subscription ends.
abbrev pub ends_it : Tier → ℕ → Subscription → Bool
ends_it tier e row = (tier_rank row.tier == tier_rank tier) && (end_of row.ends_at == e)

latest_end-zero :
    (tier : Tier) (rows : List Subscription)
    → any (λ row. tier_rank row.tier == tier_rank tier) rows ≡ false
    → latest_end tier rows ≡ 0
unfolding latest_end
latest_end-zero tier [] h = refl
latest_end-zero tier (row ∷ rows) h = ground (arith, latest_end-zero tier rows)

or_right : (a : Bool) {b : Bool} → b ≡ true → (a || b) ≡ true
or_right true h = refl
or_right false h = h

latest_end-there :
    (tier : Tier) (rows : List Subscription)
    → any (λ row. tier_rank row.tier == tier_rank tier) rows ≡ true
    → any (ends_it tier (latest_end tier rows)) rows ≡ true
latest_end-there tier [] h = cc
latest_end-there tier (row ∷ rows) h = elim (Bool-cases (tier_rank row.tier == tier_rank tier)) [
  | inr e ↦
      let same : latest_end tier (row ∷ rows) ≡ latest_end tier rows =
        unfold latest_end in rw e refl in
      let later = latest_end-there tier rows (rw e at h) in
      subst (λ x. any (ends_it tier x) (row ∷ rows) ≡ true) (sym same) (rw (e, later) refl)
  | inl e ↦
      let same : latest_end tier (row ∷ rows) ≡ max (end_of row.ends_at) (latest_end tier rows) =
        unfold latest_end in rw e refl in
      elim (Bool-cases (leb (latest_end tier rows) (end_of row.ends_at))) [
        | inl f ↦
            let top : max (end_of row.ends_at) (latest_end tier rows) ≡ end_of row.ends_at =
              omega (arith, leb→le (latest_end tier rows) (end_of row.ends_at) f) in
            subst (λ x. any (ends_it tier x) (row ∷ rows) ≡ true) (sym (same ∙ top))
              (rw (e, ==_refl (end_of row.ends_at)) refl)
        | inr f ↦
            let top : max (end_of row.ends_at) (latest_end tier rows) ≡ latest_end tier rows =
              ground arith in
            elim (Bool-cases (any (λ r. tier_rank r.tier == tier_rank tier) rows)) [
              | inl g ↦
                  subst (λ x. any (ends_it tier x) (row ∷ rows) ≡ true) (sym (same ∙ top))
                    (or_right (ends_it tier (latest_end tier rows) row)
                      (latest_end-there tier rows g))
              | inr g ↦ absurd (let z = latest_end-zero tier rows g in ground arith)
            ]
      ]
]

latest_end-bound :
    (tier : Tier) (rows : List Subscription)
    → All (λ row. row.tier ≡ tier → end_of row.ends_at ≤ latest_end tier rows) rows
unfolding latest_end
latest_end-bound tier [] = tt
latest_end-bound tier (row ∷ rows) = (
  λ e. rw e (rw (==_refl (tier_rank tier)) (omega arith)),
  All-map (λ r. r.tier ≡ tier → end_of r.ends_at ≤ latest_end tier rows)
      (λ r. r.tier ≡ tier → end_of r.ends_at ≤ latest_end tier (row ∷ rows)) rows
      (λ r f e. omega (arith, f e, grows)) (latest_end-bound tier rows),
)
  where
    grows : latest_end tier rows ≤ latest_end tier (row ∷ rows)
    grows = ground arith

-- The tier that a student has is the highest among the live subscriptions, and the expiry is the
-- latest end of a live subscription of that tier; with none live it is the free tier, with no
-- expiry.
pub resolve_live_tier_lem :
    (rows : List Subscription) (now : ℕ)
    → ((keep (λ row. is_live row now) rows ≡ []) × (resolve_live_tier rows now ≡ (freemium, none)))
      ⊎ ((tier : Tier) × (expires : ℕ) × (resolve_live_tier rows now ≡ (tier, some expires))
          × All (λ row. tier_rank row.tier ≤ tier_rank tier) (keep (λ row. is_live row now) rows)
          × All
              (λ row. row.tier ≡ tier → end_of row.ends_at ≤ expires)
              (keep (λ row. is_live row now) rows)
          × (any (ends_it tier expires) (keep (λ row. is_live row now) rows) ≡ true))
unfolding resolve_live_tier
resolve_live_tier_lem rows now = among (keep (λ row. is_live row now) rows)
  where
    among :
        (live : List Subscription)
        → ((live ≡ []) × (resolve_among live ≡ (freemium, none)))
          ⊎ ((tier : Tier) × (expires : ℕ) × (resolve_among live ≡ (tier, some expires))
              × All (λ row. tier_rank row.tier ≤ tier_rank tier) live
              × All (λ row. row.tier ≡ tier → end_of row.ends_at ≤ expires) live
              × (any (ends_it tier expires) live ≡ true))
    among [] = inl (refl, refl)
    among (row ∷ live) =
        let tier = (best_of row live).tier in
        inr (
          tier,
          latest_end tier (row ∷ live),
          refl,
          best_of-bound row live,
          latest_end-bound tier (row ∷ live),
          latest_end-there tier (row ∷ live) (best_of-there row live),
        )
