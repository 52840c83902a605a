-- ===== src/Auth/Login.antt =====
-- app/services/auth/service.py and app/api/deps.py: how a student signs in with a password, and what
-- a token opens afterwards. The claims of a token are those that its signature vouches for; the
-- check of a password, the new id and the clock are arguments.
pub mod Closed
pub mod SignIn
pub mod Opened
use Prim.Native.String
use scholarscrib_backend.Auth.{Micros, is_session_revoked}
use scholarscrib_backend.Auth.Devices.{NewDevice, register_device}
use scholarscrib_backend.Auth.Store.{
  Student, UserDevice, Db, Request, is_unset, normal, by_email, user_by_id, set_user, device_by_id,
  Gate, hit,
}
use scholarscrib_backend.Auth.Tokens.{second, matches}
use scholarscrib_backend.Billing.Service.{live_tier}
use scholarscrib_backend.Prelude.{
  ℕ, ◌-◌, ◌*◌, ◌/◌, String, Bool, ◌&&◌, Option, none, some, map, str_eq, ltb, leb, ◌==◌,
  if◌then◌else◌, ◌<>◌,
}
use scholarscrib_backend.Prelude.Requests.{ok, ◌>>=◌, ◌>>◌, pure}

-- The claims of `issue_student_token` that are read again, in seconds.
pub record Claims : Type 0 where
  pub sub : String
  pub session_started_at : Option ℕ
  pub iat : Option ℕ
  pub device_id : Option String

unfoldable pub issue_student_token : Micros → String → String → Claims
issue_student_token now user_id device_id = record {
  sub = user_id;
  session_started_at = some (now / second);
  iat = some (now / second);
  device_id = some device_id;
}

-- claims.get("sessionStartedAt") or claims.get("iat")
unfoldable pub issued_at : Claims → Option ℕ
issued_at claims = elim claims.session_started_at [
  | none ↦ claims.iat
  | some started ↦ if started == 0 then claims.iat else some started
]

-- The student of a request, with the device of the token.
pub record Principal : Type 0 where
  pub id : String
  pub device_id : Option String

touch : Micros → UserDevice → UserDevice
touch now device =
    if leb (900 * second) (now - device.last_seen_at)
    then record device { last_seen_at = now }
    else device

touch_device : Micros → String → Db → Db
unfolding touch
touch_device now id s = record s {
  devices = map (λ device. if str_eq device.id id then touch now device else device) s.devices;
}

-- The test of the device that a token names.
unfoldable pub on_device : Micros → String → String → Option UserDevice → Db → Db × Option Principal
unfolding touch_device
on_device now user_id device_id none s = (s, none)
on_device now user_id device_id (some device) s =
    if is_unset device.revoked_at && str_eq device.user_id user_id
    then (touch_device now device.id s, some (record { id = user_id; device_id = some device_id }))
    else (s, none)

unfoldable pub with_device : Micros → String → Option String → Db → Db × Option Principal
unfolding on_device device_by_id
with_device now user_id none s = (s, some (record { id = user_id; device_id = none }))
with_device now user_id (some device_id) s =
    if str_eq device_id ""
    then (s, some (record { id = user_id; device_id = some device_id }))
    else on_device now user_id device_id (device_by_id device_id s) s

unfoldable pub with_user : Micros → Claims → Option Student → Db → Db × Option Principal
unfolding with_device is_session_revoked issued_at
with_user now claims none s = (s, none)
with_user now claims (some user) s =
    if is_session_revoked user.is_active user.sessions_valid_from (issued_at claims)
    then (s, none)
    else with_device now user.id claims.device_id s

-- optional_student, for a token that decodes
unfoldable pub optional_student : Micros → Claims → Db → Db × Option Principal
unfolding with_user user_by_id
optional_student now claims s =
    if str_eq claims.sub "" then (s, none) else with_user now claims (user_by_id claims.sub s) s

pub record LoginIn : Type 0 where
  pub email : String
  pub password : String
  pub ip : String

-- RefreshUserTierService.process, on the user and on the row of the user
pub refreshed : Micros → Db → Student → Student
unfolding live_tier
refreshed now s user = record user { tier = live_tier s.rows user.id now }

unfoldable pub sign_in : Micros → NewDevice → Student → Request Claims
unfolding refreshed register_device set_user
sign_in now new user = do
  (λ s. (set_user user.id (refreshed now s) s, ok tt))
  device ← (λ s. register_device new (refreshed now s user) s)
  pure (issue_student_token new.now user.id device.id)

module _ (verify_password : String → String → Bool) where
  -- `_authenticate`
  authenticated : String → Option Student → Option Student
  authenticated password none = none
  authenticated password (some user) =
      if matches verify_password password user.password_hash && user.is_active
      then some user
      else none

  sign_in_found : Micros → NewDevice → Option Student → Request (Option Claims)
  unfolding sign_in
  sign_in_found now new none s = (s, ok none)
  sign_in_found now new (some user) s = (do claims ← sign_in now new user; pure (some claims)) s

  -- LoginStudentService.process; None is answered with 401.
  unfoldable pub login : Gate → Gate → Micros → NewDevice → LoginIn → Request (Option Claims)
  unfolding hit sign_in_found authenticated by_email
  login gate gate' now new body s =
      if ltb (String.count body.password) 6
      then (s, ok none)
      else (do
        hit gate ("login:" <> normal body.email <> ":" <> body.ip) 5 900
        hit gate' ("login-email:" <> normal body.email) 20 3600
        (λ s.
            sign_in_found now new (authenticated body.password (by_email (normal body.email) s)) s))
          s
