-- ===== src/Billing/Webhook.antt =====
-- app/api/student/billing.py: the routes that Paystack calls, over app/services/billing/service.py,
-- and `db_session` of app/database/db.py around them. The signature test and the answer of
-- Paystack to a verification are arguments.
use scholarscrib_backend.Billing.Service.{
  Result, ok, err, M, fail, Civil, Charge, is_text, apply_charge,
}
use scholarscrib_backend.Billing.Settlement.{
  Outcome, unknown_reference, already_applied, not_successful, amount_mismatch, currency_mismatch,
  not_pending, activate,
}
use scholarscrib_backend.Billing.Store.{Store}
use scholarscrib_backend.Prelude.{
  ℕ, String, Bool, true, false, not, Option, none, some, ◌∷◌, str_eq, if◌then◌else◌, ◌<>◌, keep,
  is_in,
}

-- The session of a request commits, unless an error is raised.
abbrev pub committed : {A : Type 0} → Store → Store × Result A → Store
committed before (after, ok a) = after
committed before (after, err e) = before

unfoldable pub db_session : {A : Type 0} → M A → Store → Store
db_session request s = committed s (request s)

unfoldable pub event_key : String → String → String
event_key reference event_type = reference <> ":" <> event_type

-- RecordPaystackEventService.process: whether the event is new.
unfoldable pub record_event : String → Store → Store × Bool
record_event key s =
    if is_in key s.events then (s, false) else (record s { events = key ∷ s.events }, true)

-- ForgetPaystackEventService.process
unfoldable pub forget_event : String → Store → Store
forget_event key s = record s { events = keep (λ k. not (str_eq k key)) s.events }

pub record Payload : Type 0 where
  pub reference : Option String
  pub event : Option String
  pub type : Option String

abbrev pub or_text : Option String → String → String
or_text none default = default
or_text (some s) default = if str_eq s "" then default else s

unfoldable pub event_type : Payload → String
event_type payload = or_text payload.event (or_text payload.type "unknown")

pub data WebhookOut : Type 0 where
  received duplicate : WebhookOut
  settled : Outcome → WebhookOut

-- What comes with one delivery: the signature's test, the body, and what Paystack answers when the
-- transaction is verified.
pub record Delivery : Type 0 where
  pub signed : Bool
  pub payload : Option Payload
  pub verified : Option Charge

abbrev pub settled_with : Store × Outcome → Store × Result WebhookOut
settled_with (s, outcome) = (s, ok (settled outcome))

-- The `try` block: an event that could not be applied is forgotten before the error is raised.
unfoldable pub apply_event :
    Civil → (now later : ℕ) → String → String → Option Charge → M WebhookOut
unfolding forget_event
apply_event civil now later key reference none s =
    fail 500 "Could not apply payment" (forget_event key s)
apply_event civil now later key reference (some charge) s =
    settled_with (apply_charge civil now later reference charge s)

abbrev pub or_blank : Option String → String
or_blank none = ""
or_blank (some s) = s

unfoldable pub on_recorded :
    Civil
    → (now later : ℕ) → String
    → Payload
    → Option Charge
    → Store × Bool
    → Store × Result WebhookOut
unfolding apply_event event_type
on_recorded civil now later key payload verified (s, false) = (s, ok duplicate)
on_recorded civil now later key payload verified (s, true) =
    if str_eq (event_type payload) "charge.success"
    then apply_event civil now later key (or_blank payload.reference) verified s
    else (s, ok received)

unfoldable pub on_payload : Civil → (now later : ℕ) → Payload → Option Charge → M WebhookOut
unfolding record_event event_key on_recorded event_type
on_payload civil now later payload verified s =
    let key = event_key (or_blank payload.reference) (event_type payload) in
    if is_text payload.reference
    then on_recorded civil now later key payload verified (record_event key s)
    else (s, ok received)

unfoldable pub on_body : Civil → (now later : ℕ) → Option Payload → Option Charge → M WebhookOut
unfolding on_payload
on_body civil now later none verified s = fail 400 "Malformed JSON" s
on_body civil now later (some payload) verified s = on_payload civil now later payload verified s

-- billing_webhook
unfoldable pub webhook : Civil → (now later : ℕ) → Delivery → M WebhookOut
unfolding on_body
webhook civil now later delivery s =
    if delivery.signed
    then on_body civil now later delivery.payload delivery.verified s
    else fail 401 "Invalid signature" s

pub data CallbackStatus : Type 0 where
  missing pending_page success_page failed_page : CallbackStatus

unfoldable pub page_of : Outcome → CallbackStatus
page_of activate = success_page
page_of already_applied = success_page
page_of not_successful = failed_page
page_of unknown_reference = pending_page
page_of amount_mismatch = pending_page
page_of currency_mismatch = pending_page
page_of not_pending = pending_page

abbrev page_with : Store × Outcome → Store × CallbackStatus
unfolding page_of
page_with (s, outcome) = (s, page_of outcome)

unfoldable pub callback_for :
    Civil → (now later : ℕ) → String → Option Charge → Store → Store × CallbackStatus
unfolding page_of
callback_for civil now later reference none s = (s, pending_page)
callback_for civil now later reference (some charge) s =
    page_with (apply_charge civil now later reference charge s)

-- billing_callback
unfoldable pub billing_callback :
    Civil → (now later : ℕ) → Option String → Option Charge → Store → Store × CallbackStatus
unfolding callback_for
billing_callback civil now later reference verified s =
    if is_text reference
    then callback_for civil now later (or_blank reference) verified s
    else (s, missing)
