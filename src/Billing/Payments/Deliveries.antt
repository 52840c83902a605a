-- ===== src/Billing/Payments/Deliveries.antt =====
-- app/api/student/billing.py, `billing_webhook`: failed deliveries leave no trace, and the first that
-- succeeds applies the payment.
use mathlib.Core.Option.{some-injective}
use scholarscrib_backend.Billing.Service.{
  Result, ok, err, api_error, integrity_error, Civil, Charge, is_text, apply_charge, settle_found,
  settle, refresh_user_tier, activate_found, outcome_of, activated, start_for,
}
use scholarscrib_backend.Billing.Settlement.{
  Outcome, MayActivate, settlement_outcome-activate, unknown_reference, already_applied,
  not_successful, amount_mismatch, currency_mismatch, not_pending, activate,
}
use scholarscrib_backend.Billing.Store.{is_pending, Row, Store, by_reference, row_count, may_open}
use scholarscrib_backend.Billing.Payments.{activate_found-rows, by_reference-active}
use scholarscrib_backend.Billing.Webhook.{
  committed, db_session, event_key, record_event, Payload, event_type, WebhookOut, Delivery,
  apply_event, on_recorded, on_payload, on_body, webhook, duplicate, settled, or_blank,
  settled_with,
}
use scholarscrib_backend.Prelude.{
  ℕ, ◌<◌, String, ◌≡◌, refl, ap, ◌∙◌, ◌↔◌, inl, inr, Bool, true, false, Option, none, some, List,
  [], ◌∷◌, arith, str_eq, eq_iff, Bool-cases, is_in, first, ◌==◌,
}

-- The deliveries that raise, with the status of the error: unsigned, malformed, or a payment that is
-- new and cannot be verified.
abbrev pub Raises : Bool → Option Payload → Option Charge → List String → ℕ → Type 0
Raises false payload verified events status = status ≡ 401
Raises true none verified events status = status ≡ 400
Raises true (some payload) (some charge) events status = ⊥
Raises true (some payload) none events status =
    (is_text payload.reference ≡ true)
    × (event_type payload ≡ "charge.success")
    × (is_in (event_key (or_blank payload.reference) (event_type payload)) events ≡ false)
    × (status ≡ 500)

abbrev pub status_of : Result WebhookOut → Option ℕ
status_of (ok out) = none
status_of (err (api_error status message)) = some status
status_of (err integrity_error) = none

module _ (civil : Civil) (now later : ℕ) where
  on_payload-Raises :
      (payload : Payload) (s : Store) (status : ℕ)
      → (status_of (on_payload civil now later payload none s).1 ≡ some status)
        ↔ Raises true (some payload) none s.events status
  unfolding on_payload on_recorded apply_event record_event
  on_payload-Raises payload s status = (
    λ h. ground (arith, eq_iff (event_type payload) "charge.success"),
    λ h. ground (arith, eq_iff (event_type payload) "charge.success"),
  )

  paid-Raises :
      (payload : Payload) (charge : Charge) (s : Store) (status : ℕ)
      → status_of (on_payload civil now later payload (some charge) s).1 ≡ some status
      → ⊥
  unfolding on_payload on_recorded apply_event record_event
  paid-Raises payload charge s status h = ground arith

  raises :
      (signed : Bool) (payload : Option Payload) (verified : Option Charge) (s : Store) (status : ℕ)
      → (status_of
            (webhook civil now later
              (record { signed = signed; payload = payload; verified = verified })
              s).1
          ≡ some status)
        ↔ Raises signed payload verified s.events status
  unfolding webhook on_body
  raises false payload verified s status = (λ h. ground arith, λ h. ground arith)
  raises true none verified s status = (λ h. ground arith, λ h. ground arith)
  raises true (some payload) none s status = on_payload-Raises payload s status
  raises true (some payload) (some charge) s status =
      (λ h. paid-Raises payload charge s status h, λ h. absurd h)

row_count-found :
    (p test : Row → Bool) (rows : List Row) (row : Row)
    → first p rows ≡ some row
    → test row ≡ true
    → 0 < row_count test rows
row_count-found p test [] row h k = cc
row_count-found p test (x ∷ xs) row h k = elim (Bool-cases (p x)) [
  | inl e ↦
      let here : some x ≡ some row = rw e at h in
      let passes : test x ≡ true = ap test (some-injective x row here) ∙ k in
      rw passes (omega arith)
  | inr e ↦
      let there : first p xs ≡ some row = rw e at h in
      omega (arith, row_count-found p test xs row there k)
]

-- A payment that fits the waiting row of its reference activates the row.
apply_charge-activates :
    (civil : Civil) (now later : ℕ) (reference : String) (row : Row) (charge : Charge) (s : Store)
    → by_reference s.rows reference ≡ some row
    → MayActivate row.status (some row.amount_kobo) (some row.currency) charge.transaction
    → ((apply_charge civil now later reference charge s).1 ≡ activate)
      × (by_reference (apply_charge civil now later reference charge s).0.rows reference
          ≡ some (activated civil now (start_for row now s.rows) charge row))
unfolding apply_charge settle
apply_charge-activates civil now later reference row charge s found may =
    rw (found, settle, outcome) (unfold settle_found in (pays, rows))
  where
    outcome : outcome_of (some row) charge.transaction ≡ activate
    outcome =
        unfold outcome_of in
        (settlement_outcome-activate row.status (some row.amount_kobo) (some row.currency)
            charge.transaction).1
          may

    opens : may_open row.id row ≡ true
    opens = rw ((eq_iff row.id row.id).1 refl, may.is_waiting) refl

    pays : (activate_found civil now later row charge s).1 ≡ activate
    pays =
        let some_row =
          row_count-found (λ r. str_eq r.reference reference) (may_open row.id) s.rows row
            (unfold by_reference in found) opens in
        let e : (row_count (may_open row.id) s.rows == 0) ≡ false = ground arith in
        unfold activate_found in rw e refl

    rows :
        by_reference (activate_found civil now later row charge s).0.rows reference
        ≡ some (activated civil now (start_for row now s.rows) charge row)
    rows =
        ap (λ r. by_reference r reference) (activate_found-rows civil now later row charge s)
        ∙ by_reference-active civil now (start_for row now s.rows) reference row charge s.rows found
            may.is_waiting

committed-failed :
    (s : Store) (r : Store × Result WebhookOut) (status : ℕ)
    → status_of r.1 ≡ some status
    → committed s r ≡ s
committed-failed s (s', ok out) status h = cc
committed-failed s (s', err e) status h = refl

-- Deliveries of one event that cannot be verified, one after another.
abbrev pub fail_all : Civil → Payload → List (ℕ × ℕ) → Store → Store
fail_all civil payload [] s = s
fail_all civil payload ((now, later) ∷ times) s = fail_all civil payload times (
    db_session
      (webhook civil now later (record { signed = true; payload = some payload; verified = none }))
      s)

-- The events stay what they were.
settle_found-events :
    (civil : Civil) (now later : ℕ) (row : Row) (charge : Charge) (outcome : Outcome) (s : Store)
    → (settle_found civil now later row charge outcome s).0.events ≡ s.events
unfolding settle_found
settle_found-events civil now later row charge unknown_reference s = refl
settle_found-events civil now later row charge already_applied s = refl
settle_found-events civil now later row charge not_successful s =
    elim (Bool-cases (is_pending row.status)) [ inl e ↦ rw e refl | inr e ↦ rw e refl ]
settle_found-events civil now later row charge amount_mismatch s = refl
settle_found-events civil now later row charge currency_mismatch s = refl
settle_found-events civil now later row charge not_pending s = refl
settle_found-events civil now later row charge activate s =
    unfold activate_found refresh_user_tier in
    elim (Bool-cases (row_count (may_open row.id) s.rows == 0)) [
      | inl e ↦ rw e refl
      | inr e ↦ rw e refl
    ]

apply_charge-events :
    (civil : Civil) (now later : ℕ) (reference : String) (charge : Charge) (s : Store)
    → (apply_charge civil now later reference charge s).0.events ≡ s.events
unfolding apply_charge settle
apply_charge-events civil now later reference charge s = go (by_reference s.rows reference)
  where
    go : (o : Option Row) → (settle civil now later o charge s).0.events ≡ s.events
    go none = refl
    go (some row) = settle_found-events civil now later row charge _ s

module _ (civil : Civil) (payload : Payload) (charge : Charge) (reference : String) (row : Row)
    (s : Store) (named : payload.reference ≡ some reference)
    (not_empty : str_eq reference "" ≡ false) (paid : event_type payload ≡ "charge.success")
    (fresh : is_in (event_key reference "charge.success") s.events ≡ false)
    (found : by_reference s.rows reference ≡ some row)
    (may : MayActivate row.status
      (some row.amount_kobo)
      (some row.currency)
      charge.transaction) where
  failed-same :
      (now later : ℕ)
      → db_session
          (webhook civil now later
            (record { signed = true; payload = some payload; verified = none }))
          s
        ≡ s
  unfolding db_session
  failed-same now later = committed-failed s (webhook civil now later _ s) 500 (
      (raises civil now later true (some payload) none s 500).1
        (simp (named, not_empty) refl, paid, simp (named, paid) fresh, refl))

  fail_all-same : (times : List (ℕ × ℕ)) → fail_all civil payload times s ≡ s
  fail_all-same [] = refl
  fail_all-same ((now, later) ∷ times) =
      ap (fail_all civil payload times) (failed-same now later) ∙ fail_all-same times

  abbrev after : ℕ → ℕ → Store × Result WebhookOut
  after now later =
      webhook civil now later
        (record { signed = true; payload = some payload; verified = some charge }) s

  after_lem :
      (now later : ℕ)
      → (let recorded = record s { events = event_key reference "charge.success" ∷ s.events } in
          after now later ≡ settled_with (apply_charge civil now later reference charge recorded))
  unfolding webhook on_body on_payload on_recorded apply_event record_event
  after_lem now later = simp (named, not_empty, paid, fresh) refl

  again_lem :
      (now later : ℕ) (report : Option Charge) (t : Store)
      → is_in (event_key reference "charge.success") t.events ≡ true
      → webhook civil now later
          (record { signed = true; payload = some payload; verified = report })
          t
        ≡ (t, ok duplicate)
  unfolding webhook on_body on_payload on_recorded record_event
  again_lem now later report t known = simp (named, not_empty, paid, known) refl

  -- A payment that fits its waiting row is applied in the end: after any number of deliveries that
  -- could not be verified nothing has changed; the first that can be verified activates the row,
  -- from then to the end of its period; and every later delivery of the event is a duplicate that
  -- changes nothing.
  pub webhook_retry :
      (times : List (ℕ × ℕ)) (now later then_now then_later : ℕ) (report : Option Charge)
      → (fail_all civil payload times s ≡ s)
        × ((after now later).1 ≡ ok (settled activate))
        × (by_reference (after now later).0.rows reference
            ≡ some (activated civil now (start_for row now s.rows) charge row))
        × (webhook civil then_now then_later
              (record { signed = true; payload = some payload; verified = report })
              (after now later).0
            ≡ ((after now later).0, ok duplicate))
  webhook_retry times now later then_now then_later report =
      let recorded : Store = record s {
        events = event_key reference "charge.success" ∷ s.events;
      } in
      let done = apply_charge-activates civil now later reference row charge recorded found may in
      let same : after now later
          ≡ settled_with (apply_charge civil now later reference charge recorded) =
        after_lem now later in
      let events = apply_charge-events civil now later reference charge recorded in
      (
        fail_all-same times,
        ap (λ (p : Store × Result WebhookOut). p.1) same
            ∙ ap (λ (o : Outcome). ok (settled o)) done.0,
        ap (λ (p : Store × Result WebhookOut). by_reference p.0.rows reference) same ∙ done.1,
        again_lem then_now then_later report (after now later).0 (
            ap
              (λ (p : Store × Result WebhookOut).
                is_in (event_key reference "charge.success") p.0.events)
              same
            ∙ (ap (λ e. is_in (event_key reference "charge.success") e) events
                ∙ rw
                    ((eq_iff (event_key reference "charge.success")
                        (event_key reference "charge.success")).1
                      refl)
                    refl)),
      )

-- A delivery is answered with an error exactly when it is unsigned (401), malformed (400), or a
-- payment that is new and cannot be verified (500); and then the store stays as it was, the record
-- of the event included.
pub webhook-Raises :
    (civil : Civil) (now later : ℕ) (delivery : Delivery) (s : Store) (status : ℕ)
    → ((status_of (webhook civil now later delivery s).1 ≡ some status)
        ↔ Raises delivery.signed delivery.payload delivery.verified s.events status)
      × (Raises delivery.signed delivery.payload delivery.verified s.events status
          → db_session (webhook civil now later delivery) s ≡ s)
unfolding db_session
webhook-Raises civil now later delivery s status =
    let exactly =
      raises civil now later delivery.signed delivery.payload delivery.verified s status in
    (exactly, λ h. committed-failed s (webhook civil now later delivery s) status (exactly.1 h))
