-- ===== src/Auth/Store.antt =====
-- app/database/models/identity.py and app/database/repositories/identity.py: the students with their
-- devices and their tokens, and the queries on them. The state of a request also has the push
-- subscriptions of the devices, the subscription rows and the memory of the rate limiter; moments
-- count microseconds.
pub mod Limits
use scholarscrib_backend.Auth.{Micros}
use scholarscrib_backend.Billing.Store.{Row}
use scholarscrib_backend.Billing.Tiers.{Tier}
use scholarscrib_backend.Prelude.{
  ℕ, String, Bool, true, false, ◌&&◌, not, Option, none, some, List, ◌∷◌, map, str_eq, ltb,
  if◌then◌else◌, keep, first, is_in,
}
use scholarscrib_backend.Prelude.Requests.{Result, ok, err, api_error}
use scholarscrib_backend.Prelude.Strings.{strip, lower}
use scholarscrib_backend.RateLimit.{Memory, Verdict, pass, rate_limited, check_hit}

pub record Student : Type 0 where
  pub id : String
  pub email : Option String
  pub password_hash : Option String
  pub tier : Tier
  pub is_active : Bool
  pub email_verified : Option Micros
  pub sessions_valid_from : Option Micros

pub record UserDevice : Type 0 where
  pub id : String
  pub user_id : String
  pub label : String
  pub last_seen_at : Micros
  pub revoked_at : Option Micros
  pub created_at : Micros

pub record VerificationToken : Type 0 where
  pub identifier : String
  pub token : String
  pub expires : Micros

pub record PushSubscription : Type 0 where
  pub endpoint : String
  pub device_id : Option String

pub record Db : Type 0 where
  pub users : List Student
  pub devices : List UserDevice
  pub tokens : List VerificationToken
  pub pushes : List PushSubscription
  pub rows : List Row
  pub memory : Memory

abbrev pub Request : Type 0 → Type 0
Request A = Db → Db × Result A

-- text.strip().lower()
unfoldable pub normal : String → String
unfolding strip lower
normal text = lower (strip text)

abbrev pub is_text : Option String → String → Bool
is_text none text = false
is_text (some s) text = str_eq s text

-- UserRepository.by_email
unfoldable pub by_email : String → Db → Option Student
by_email email s = first (λ user. is_text user.email email) s.users

-- users_repository.by_id
unfoldable pub user_by_id : String → Db → Option Student
user_by_id id s = first (λ user. str_eq user.id id) s.users

-- A change of the attributes of one user.
unfoldable pub set_user : String → (Student → Student) → Db → Db
set_user id change s = record s {
  users = map (λ user. if str_eq user.id id then change user else user) s.users;
}

-- devices_repository.by_id
unfoldable pub device_by_id : String → Db → Option UserDevice
device_by_id id s = first (λ device. str_eq device.id id) s.devices

abbrev pub is_unset : Option Micros → Bool
is_unset none = true
is_unset (some moment) = false

abbrev pub is_live_of : String → UserDevice → Bool
is_live_of user_id device = str_eq device.user_id user_id && is_unset device.revoked_at

abbrev pub is_other : Option String → UserDevice → Bool
is_other none device = true
is_other (some id) device = not (str_eq device.id id)

-- UserDeviceRepository.active_except
unfoldable pub active_except : String → Option String → Db → List UserDevice
active_except user_id device_id s =
    keep (λ device. is_live_of user_id device && is_other device_id device) s.devices

-- `row.revoked_at = now` for rows of these ids
unfoldable pub revoke_ids : Micros → List String → List UserDevice → List UserDevice
revoke_ids now ids devices =
    map (λ device. if is_in device.id ids then record device { revoked_at = some now } else device)
      devices

abbrev pub is_among : List String → Option String → Bool
is_among ids none = false
is_among ids (some id) = is_in id ids

-- `delete_for_devices` of app/database/repositories/notification.py
unfoldable pub delete_for_devices : List String → Db → Db
delete_for_devices ids s = record s {
  pushes = keep (λ push. not (is_among ids push.device_id)) s.pushes;
}

-- VerificationTokenRepository.delete_by_identifier
unfoldable pub delete_by_identifier : String → Db → Db
delete_by_identifier identifier s = record s {
  tokens = keep (λ token. not (str_eq token.identifier identifier)) s.tokens;
}

module _ (digest : String → String) where
  -- VerificationTokenRepository.create_token
  unfoldable pub create_token : String → String → Micros → Db → Db
  unfolding delete_by_identifier
  create_token identifier token expires s =
      let cleared = delete_by_identifier identifier s in
      record cleared {
        tokens =
            record { identifier = identifier; token = digest token; expires = expires }
            ∷ cleared.tokens;
      }

  -- VerificationTokenRepository.get_valid_token
  unfoldable pub get_valid_token : String → String → Micros → Db → Option VerificationToken
  get_valid_token identifier token now s =
      first
        (λ row.
          str_eq row.identifier identifier
          && (str_eq row.token (digest token) && ltb now row.expires))
        s.tokens

-- What a call of the rate limiter reads: its clock, and the count that Redis returns, if it does.
pub record Gate : Type 0 where
  pub now : ℕ
  pub redis : Option ℕ

abbrev pub judge : Db → Memory × Verdict → Db × Result (Unit {0})
judge s (memory, pass) = (record s { memory = memory }, ok tt)
judge s (memory, rate_limited retry) = (
  record s { memory = memory },
  err (api_error 429 "Too many requests. Please slow down and try again shortly."),
)

-- `hit`, which raises RateLimited
unfoldable pub hit : Gate → String → ℕ → ℕ → Request (Unit {0})
unfolding check_hit
hit gate key limit window_seconds s = judge s (
    check_hit (record { key = key; limit = limit; window_seconds = window_seconds; now = gate.now })
      gate.redis s.memory)

abbrev pub rolled_back : {A : Type 0} → Db → Db × Result A → Db × Result A
rolled_back before (after, ok a) = (after, ok a)
rolled_back before (after, err e) = (record before { memory = after.memory }, err e)

-- The session of a request commits, unless an error is raised; the memory is no part of it.
unfoldable pub in_session : {A : Type 0} → Request A → Request A
in_session request s = rolled_back s (request s)
