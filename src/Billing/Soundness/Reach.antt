-- ===== src/Billing/Soundness/Reach.antt =====
-- app/services/billing/service.py, app/api/student/billing.py: every sequence of requests keeps the
-- rows sound.
pub mod Rows
use scholarscrib_backend.Billing.Service.{
  Result, ok, err, M, and_then, ◌>>◌, integrity_error, require, fail, Civil, CivilLaws, Charge,
  Response, is_text, CheckoutInput, add_row, validate, pending_row, abandon, url_of, initialize,
  checkout, refresh_user_tier, activated, fail_row, start_for, activate_found, settle_found, settle,
  apply_charge, outcome_of, Grant, granted, grant_comp, refresh, revoke,
}
use scholarscrib_backend.Billing.Settlement.{
  Outcome, unknown_reference, already_applied, not_successful, amount_mismatch, currency_mismatch,
  not_pending, activate,
}
use scholarscrib_backend.Billing.Soundness.{IsSound, update_where-IsSound}
use scholarscrib_backend.Billing.Soundness.Reach.Rows.{
  activate_row-IsSound, NoPending, abandon_pending-NoPending, add_pending-IsSound,
  add_granted-IsSound,
}
use scholarscrib_backend.Billing.Store.{
  Row, Store, is_pending, is_running, by_reference, row_count, may_open, activate_row, waits, runs,
  abandon_pending, revoke_active, latest_live_end, is_taken,
}
use scholarscrib_backend.Billing.Tiers.{abandoned, failed, revoked, term_start, is_purchasable}
use scholarscrib_backend.Billing.Webhook.{
  Delivery, Payload, WebhookOut, committed, db_session, event_type, event_key, record_event,
  forget_event, apply_event, on_recorded, on_payload, on_body, webhook, callback_for,
  billing_callback,
}
use scholarscrib_backend.Prelude.{
  ℕ, String, ◌≡◌, refl, inl, inr, Bool, true, false, not, Option, none, some, List, [], ◌∷◌, leb,
  ◌==◌, str_eq, if◌then◌else◌, Bool-cases, is_in,
}

pub data Request : Type 0 where
  ask_checkout : CheckoutInput → Request
  ask_webhook : (now later : ℕ) → Delivery → Request
  ask_callback : (now later : ℕ) → Option String → Option Charge → Request
  ask_grant : (now later : ℕ) → Grant → Request
  ask_revoke : ℕ → String → Request

-- One request in its session.
unfoldable pub handle : Civil → Request → Store → Store
unfolding db_session checkout webhook billing_callback grant_comp revoke
handle civil (ask_checkout input) s = db_session (checkout input) s
handle civil (ask_webhook now later delivery) s = db_session (webhook civil now later delivery) s
handle civil (ask_callback now later reference verified) s =
    (billing_callback civil now later reference verified s).0
handle civil (ask_grant now later grant) s = db_session (grant_comp civil now later grant) s
handle civil (ask_revoke later user_id) s = db_session (revoke later user_id) s

-- The stores that requests lead to from one without subscriptions.
pub data Reach (civil : Civil) : Store → Type 0 where
  start : (s : Store) → s.rows ≡ [] → Reach civil s
  next : {s : Store} (request : Request) → Reach civil s → Reach civil (handle civil request s)

-- A predicate of the rows after an operation, an error included, that had one before it.
abbrev Ensures : {A : Type 0} → (List Row → Type 0) → M A → (List Row → Type 0) → Type 0
Ensures P m Q = (s : Store) → P s.rows → Q (m s).0.rows

>>-Ensures :
    {A B : Type 0} (P Q R : List Row → Type 0) (m : M A) (k : M B)
    → Ensures P m Q
    → Ensures Q k R
    → ((rows : List Row) → Q rows → R rows)
    → Ensures P (m >> k) R
>>-Ensures {A = A} P Q R m k h g weaken s p = go (m s) (h s p)
  where
    go : (r : Store × Result A) → Q r.0.rows → R (and_then (λ a. k) r).0.rows
    go (s', ok a) q = g s' q
    go (s', err e) q = weaken s'.rows q

require-Ensures :
    (P : List Row → Type 0) (b : Bool) (status : ℕ) (message : String)
    → Ensures P (require b status message) P
require-Ensures P true status message s p = p
require-Ensures P false status message s p = p

-- A request keeps what its operation keeps, since an error brings the store back.
db_session-keeps :
    {A : Type 0} (P : List Row → Type 0) (m : M A)
    → Ensures P m P
    → (s : Store) → P s.rows
    → P (db_session m s).rows
unfolding db_session
db_session-keeps {A = A} P m h s p = go (m s) (h s p)
  where
    go : (r : Store × Result A) → P r.0.rows → P (committed s r).rows
    go (s', ok a) q = q
    go (s', err e) q = p

abbrev Sound : {A : Type 0} → M A → Type 0
Sound m = Ensures IsSound m IsSound

no_error : (rows : List Row) → IsSound rows → IsSound rows
no_error rows h = h

url_of-Sound : (url : Option String) → Sound (url_of url)
url_of-Sound none s h = h
url_of-Sound (some url) s h = elim (Bool-cases (str_eq url "")) [ inl e ↦ rw e h | inr e ↦ rw e h ]

add_row-keeps :
    (row : Row) (s : Store)
    → IsSound s.rows
    → (is_taken row s.rows ≡ false → IsSound (row ∷ s.rows))
    → IsSound (add_row row s).0.rows
unfolding add_row
add_row-keeps row s h add = go (is_taken row s.rows) refl
  where
    go :
        (b : Bool)
        → is_taken row s.rows ≡ b
        → IsSound
            (elim b as (λ _. Store × Result (Unit {0})) [
              | true ↦ (s, err integrity_error)
              | false ↦ (record s { rows = row ∷ s.rows }, ok tt)
            ]).0.rows
    go true e = h
    go false e = add e

validate-Sound : (input : CheckoutInput) → Sound (validate input)
unfolding validate
validate-Sound input s h =
    go input.billing_enabled (is_purchasable input.tier) (is_text input.user.email)
  where
    go :
        (a b c : Bool)
        → IsSound
            ((require a 503 "Billing is not configured"
                >> (require b 400 "That plan cannot be purchased"
                    >> require c 400 "Add an email address before paying"))
              s).0.rows
    go false b c = h
    go true false c = h
    go true true false = h
    go true true true = h

initialize-Sound : (response : Response) → Sound (initialize response)
unfolding initialize
initialize-Sound response =
    >>-Ensures {A = Unit {0}} {B = String} IsSound IsSound IsSound
      (require (not (leb 400 response.status_code)) 502 "Paystack could not start checkout")
      (url_of response.url) (require-Ensures IsSound _ _ _) (url_of-Sound response.url) no_error

checkout-Sound : (input : CheckoutInput) → Sound (checkout input)
unfolding checkout
checkout-Sound input =
    >>-Ensures {A = Unit {0}} {B = String} IsSound IsSound IsSound (validate input)
      (abandon input.user.id >> (add_row (pending_row input) >> initialize input.response))
      (validate-Sound input)
      (>>-Ensures {A = Unit {0}} {B = String} IsSound Ready IsSound (abandon input.user.id)
        (add_row (pending_row input) >> initialize input.response) (λ s h. abandoned_all s h)
        (>>-Ensures {A = Unit {0}} {B = String} Ready IsSound IsSound (add_row (pending_row input))
          (initialize input.response)
          (λ s h.
            add_row-keeps (pending_row input) s h.0
              (λ e. add_pending-IsSound input s.rows e h.1 h.0))
          (initialize-Sound input.response) no_error)
        (λ rows h. h.0))
      no_error
  where
    Ready : List Row → Type 0
    Ready rows = IsSound rows × NoPending input.user.id rows

    abandoned_all : (s : Store) → IsSound s.rows → Ready (abandon input.user.id s).0.rows
    abandoned_all s h =
        unfold abandon in
        (
          unfold abandon_pending is_running is_pending in
              update_where-IsSound abandoned refl refl (waits input.user.id) s.rows h,
          abandon_pending-NoPending input.user.id s.rows,
        )

-- The refresh changes the users only.
refresh_user_tier-rows :
    (user_id : String) (now : ℕ) (s : Store) → (refresh_user_tier user_id now s).rows ≡ s.rows
unfolding refresh_user_tier
refresh_user_tier-rows user_id now s = refl

module _ (civil : Civil) (laws : CivilLaws civil) (now later : ℕ) where
  activate_found-IsSound :
      (reference : String) (row : Row) (charge : Charge) (s : Store)
      → by_reference s.rows reference ≡ some row
      → IsSound s.rows
      → IsSound (activate_found civil now later row charge s).0.rows
  unfolding activate_found
  activate_found-IsSound reference row charge s found h =
      elim (Bool-cases (row_count (may_open row.id) s.rows == 0)) [
        | inl e ↦ rw e sound
        | inr e ↦ rw e (unfold refresh_user_tier in sound)
      ]
    where
      sound :
          IsSound
            (activate_row row.id (activated civil now (start_for row now s.rows) charge) s.rows)
      sound = activate_row-IsSound civil laws now row charge s.rows reference found h

  settle_found-IsSound :
      (reference : String) (row : Row) (charge : Charge) (outcome : Outcome) (s : Store)
      → by_reference s.rows reference ≡ some row
      → IsSound s.rows
      → IsSound (settle_found civil now later row charge outcome s).0.rows
  unfolding settle_found fail_row is_running is_pending
  settle_found-IsSound reference row charge unknown_reference s found h = h
  settle_found-IsSound reference row charge already_applied s found h = h
  settle_found-IsSound reference row charge not_successful s found h = go (is_pending row.status)
    where
      go : (b : Bool) → IsSound (if b then record s { rows = fail_row row.id s.rows } else s).rows
      go true = update_where-IsSound failed refl refl _ s.rows h
      go false = h
  settle_found-IsSound reference row charge amount_mismatch s found h = h
  settle_found-IsSound reference row charge currency_mismatch s found h = h
  settle_found-IsSound reference row charge not_pending s found h = h
  settle_found-IsSound reference row charge activate s found h =
      activate_found-IsSound reference row charge s found h

  apply_charge-IsSound :
      (reference : String) (charge : Charge) (s : Store)
      → IsSound s.rows
      → IsSound (apply_charge civil now later reference charge s).0.rows
  unfolding apply_charge settle
  apply_charge-IsSound reference charge s h = go (by_reference s.rows reference) refl
    where
      go :
          (o : Option Row)
          → by_reference s.rows reference ≡ o
          → IsSound (settle civil now later o charge s).0.rows
      go none e = h
      go (some row) e = settle_found-IsSound reference row charge _ s e h

  apply_event-Sound :
      (key reference : String) (verified : Option Charge)
      → Sound (apply_event civil now later key reference verified)
  unfolding apply_event forget_event
  apply_event-Sound key reference none s h = h
  apply_event-Sound key reference (some charge) s h = apply_charge-IsSound reference charge s h

  on_recorded-keeps :
      (key : String) (payload : Payload) (verified : Option Charge) (r : Store × Bool)
      → IsSound r.0.rows
      → IsSound (on_recorded civil now later key payload verified r).0.rows
  unfolding on_recorded
  on_recorded-keeps key payload verified (s, false) h = h
  on_recorded-keeps key payload verified (s, true) h =
      elim (Bool-cases (str_eq (event_type payload) "charge.success")) [
        | inl e ↦ rw e (apply_event-Sound key _ verified s h)
        | inr e ↦ rw e h
      ]

  record_event-rows : (key : String) (s : Store) → (record_event key s).0.rows ≡ s.rows
  unfolding record_event
  record_event-rows key s = elim (Bool-cases (is_in key s.events)) [
    | inl e ↦ rw e refl
    | inr e ↦ rw e refl
  ]

  on_payload-Sound :
      (payload : Payload) (verified : Option Charge)
      → Sound (on_payload civil now later payload verified)
  unfolding on_payload
  on_payload-Sound payload verified s h = elim (Bool-cases (is_text payload.reference)) [
    | inl e ↦
        rw e
          (on_recorded-keeps _ payload verified (record_event _ s) (rw (record_event-rows _ s) h))
    | inr e ↦ rw e h
  ]

  webhook-Sound : (delivery : Delivery) → Sound (webhook civil now later delivery)
  unfolding webhook on_body
  webhook-Sound delivery s h = elim (Bool-cases delivery.signed) [
    | inl e ↦ rw e (body delivery.payload)
    | inr e ↦ rw e h
  ]
    where
      body : (o : Option Payload) → IsSound (on_body civil now later o delivery.verified s).0.rows
      body none = h
      body (some payload) = on_payload-Sound payload delivery.verified s h

  callback-IsSound :
      (reference : Option String) (verified : Option Charge) (s : Store)
      → IsSound s.rows
      → IsSound (billing_callback civil now later reference verified s).0.rows
  unfolding billing_callback
  callback-IsSound reference verified s h = elim (Bool-cases (is_text reference)) [
    | inl e ↦ rw e (go _ verified)
    | inr e ↦ rw e h
  ]
    where
      go :
          (text : String) (o : Option Charge)
          → IsSound (callback_for civil now later text o s).0.rows
      go text none = unfold callback_for in h
      go text (some charge) = unfold callback_for in apply_charge-IsSound text charge s h

  grant_comp-Sound : (grant : Grant) → Sound (grant_comp civil now later grant)
  unfolding grant_comp refresh_user_tier
  grant_comp-Sound grant s h =
      go (add_row row s)
        (add_row-keeps row s h (λ e. add_granted-IsSound civil laws now grant s.rows e h))
    where
      row : Row
      row = granted civil now (term_start now (latest_live_end s.rows grant.user_id now)) grant

      go :
          (r : Store × Result (Unit {0}))
          → IsSound r.0.rows
          → IsSound (and_then (λ a. refresh grant.user_id later) r).0.rows
      go (s', ok a) q = q
      go (s', err e) q = q

  revoke-Sound : (user_id : String) → Sound (revoke later user_id)
  unfolding revoke revoke_active refresh_user_tier is_running is_pending
  revoke-Sound user_id s h = update_where-IsSound revoked refl refl (runs user_id) s.rows h

-- The requests keep the table sound.
handle-IsSound :
    (civil : Civil) (laws : CivilLaws civil) (request : Request) (s : Store)
    → IsSound s.rows
    → IsSound (handle civil request s).rows
unfolding handle
handle-IsSound civil laws (ask_checkout input) s h =
    db_session-keeps IsSound (checkout input) (checkout-Sound input) s h
handle-IsSound civil laws (ask_webhook now later delivery) s h =
    db_session-keeps IsSound (webhook civil now later delivery)
      (webhook-Sound civil laws now later delivery) s h
handle-IsSound civil laws (ask_callback now later reference verified) s h =
    callback-IsSound civil laws now later reference verified s h
handle-IsSound civil laws (ask_grant now later grant) s h =
    db_session-keeps IsSound (grant_comp civil now later grant)
      (grant_comp-Sound civil laws now later grant) s h
handle-IsSound civil laws (ask_revoke later user_id) s h =
    db_session-keeps IsSound (revoke later user_id) (revoke-Sound civil laws later later user_id) s
      h

-- Whatever requests have come, in any order and at any times, no two active terms of a user
-- overlap, no user has two pending rows, ids and references are unique, and every active row has a
-- term that starts before it ends.
pub Reach-IsSound :
    (civil : Civil) (laws : CivilLaws civil) (s : Store) → Reach civil s → IsSound s.rows
Reach-IsSound civil laws s (start _ e) = rw e (record { fits = tt; terms = tt })
Reach-IsSound civil laws _ (next {s = s} request r) =
    handle-IsSound civil laws request s (Reach-IsSound civil laws s r)
