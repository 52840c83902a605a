-- ===== src/Examples/Auth.antt =====
-- Runs of app/services/auth/service.py, app/services/auth/otp.py and app/api/deps.py at concrete
-- inputs.
use scholarscrib_backend.Auth.{Micros, is_session_revoked}
use scholarscrib_backend.Auth.Devices.{
  device_limit, NewDevice, fresh_device, has_id, register_device, logout,
}
use scholarscrib_backend.Auth.Devices.Counts.{live_devices}
use scholarscrib_backend.Auth.Devices.Limit.{register_device-live}
use scholarscrib_backend.Auth.Login.{
  Claims, issue_student_token, issued_at, optional_student, LoginIn, login,
}
use scholarscrib_backend.Auth.Login.Closed.{optional_student-reset_password}
use scholarscrib_backend.Auth.Login.Opened.{login_lem}
use scholarscrib_backend.Auth.Register.{RegisterIn, new_student, create, register}
use scholarscrib_backend.Auth.Register.Unique.{register_once}
use scholarscrib_backend.Auth.Store.{
  Student, UserDevice, Db, is_live_of, normal, by_email, user_by_id, hit, device_by_id,
  create_token, Gate, in_session,
}
use scholarscrib_backend.Auth.Tokens.{
  second, reset_identifier, ResetIn, send_otp, verify_otp, reset_password, forgot_password,
  change_password,
}
use scholarscrib_backend.Auth.Tokens.Once.{verify_otp-once}
use scholarscrib_backend.Billing.Tiers.{standard, tier_rank}
use scholarscrib_backend.Prelude.{
  All, ◌+◌, ◌*◌, ◌≤◌, ◌<◌, String, ◌≡◌, ◌≢◌, ◌↔◌, refl, true, false, ◌&&◌, none, some, [], ◌∷◌, map,
  arith, str_eq, ◌<>◌,
}
use scholarscrib_backend.Prelude.Strings.{strip}
use scholarscrib_backend.Prelude.Requests.{ok, err, api_error}

abbrev ada : Student
ada = record {
  id = "u1";
  email = some "ada@x.com";
  password_hash = some "secret";
  tier = standard;
  is_active = true;
  email_verified = none;
  sessions_valid_from = none;
}

abbrev old_device : String → Micros → UserDevice
old_device id now = record {
  id = id;
  user_id = "u1";
  label = "Browser";
  last_seen_at = now;
  revoked_at = none;
  created_at = now;
}

abbrev two_devices : Db
two_devices = record {
  users = ada ∷ [];
  devices = old_device "d1" 10 ∷ old_device "d2" 20 ∷ [];
  tokens = [];
  pushes = record { endpoint = "e1"; device_id = some "d1" } ∷ [];
  rows = [];
  memory = [];
}

abbrev phone : NewDevice
phone = record { id = "d3"; label = ""; now = 5000000 }

register_device-live_example :
    ((register_device phone ada two_devices).1 ≡ ok (fresh_device "u1" phone))
    × (live_devices "u1" (register_device phone ada two_devices).0.devices ≤ device_limit)
    × (device_by_id "d3" (register_device phone ada two_devices).0 ≡ some (fresh_device "u1" phone))
    × (is_live_of "u1" (fresh_device "u1" phone) ≡ true)
unfolding has_id tier_rank
register_device-live_example = register_device-live phone ada two_devices refl (omega arith)

-- Of two devices and a new one, the first that was registered is signed out, with its subscription.
second_stays :
    (live_devices "u1" (register_device phone ada two_devices).0.devices ≡ 2)
    × ((register_device phone ada two_devices).0.pushes ≡ [])
unfolding register_device
second_stays = (refl, refl)

abbrev mark : String → String
mark text = "#" <> text

abbrev gate : Gate
gate = record { now = 0; redis = none }

abbrev sent_code : Db
sent_code = (send_otp mark gate " Ada@X.com" "123456" 0 two_devices).0

verify_otp-once_example :
    (((verify_otp mark "ada@x.com" "123456 " 5 sent_code).1 ≡ true)
      ↔ ((mark "123456" ≡ mark (strip "123456 ")) × (5 < 0 + 600 * second)))
    × (((verify_otp mark "ada@x.com" "123456 " 5 sent_code).1
          && (verify_otp mark "ada@x.com" "123456" 6
              (verify_otp mark "ada@x.com" "123456 " 5 sent_code).0).1)
        ≡ false)
unfolding send_otp normal
verify_otp-once_example =
    verify_otp-once mark gate " Ada@X.com" "123456" 0 two_devices sent_code refl "ada@x.com"
      "123456 " "123456" 5 6 refl

abbrev mailed : Db
unfolding create_token reset_identifier
mailed = create_token mark (reset_identifier "ada@x.com") "t0" 9000000 two_devices

abbrev reset_in : String → ResetIn
reset_in password = record {
  email = "Ada@x.com";
  token = "t0";
  new_password = password;
  hashed = password;
  ip = "1.2.3.4";
}

abbrev stolen : Claims
stolen = record { sub = "u1"; session_started_at = some 1; iat = some 1; device_id = some "d1" }

abbrev after_reset : Db
after_reset = (reset_password mark str_eq gate gate (reset_in "better one") 2000000 mailed).0

optional_student-reset_password_example :
    (optional_student 3000000 stolen after_reset ≡ (after_reset, none))
    × ((reset_password mark str_eq gate gate (reset_in "hijack") 3000000 after_reset).1 ≢ ok tt)
unfolding mailed reset_password by_email normal issued_at
optional_student-reset_password_example =
    optional_student-reset_password mark str_eq gate gate (reset_in "better one") 2000000 mailed
      after_reset refl ada refl stolen refl refl 3000000 gate gate (reset_in "hijack") refl

abbrev good_login : LoginIn
good_login = record { email = "ADA@x.com "; password = "secret"; ip = "1.2.3.4" }

login_lem_example :
    ((login str_eq gate gate 7000000 phone good_login two_devices).1
      ≡ ok (some (issue_student_token 5000000 "u1" "d3")))
    × ((optional_student 8000000
          (issue_student_token 5000000 "u1" "d3")
          (login str_eq gate gate 7000000 phone good_login two_devices).0).1
        ≡ some (record { id = "u1"; device_id = some "d3" }))
unfolding hit by_email user_by_id normal has_id is_session_revoked
login_lem_example =
    login_lem str_eq gate gate 7000000 phone good_login two_devices ada refl refl refl refl refl
      refl refl refl refl refl 8000000

-- The token of a login opens a session, which a logout closes.
login_run :
    ((login str_eq gate gate 7000000 phone good_login two_devices).1
      ≡ ok (some (issue_student_token 5000000 "u1" "d3")))
    × ((optional_student 8000000
          (issue_student_token 5000000 "u1" "d3")
          (login str_eq gate gate 7000000 phone good_login two_devices).0).1
        ≡ some (record { id = "u1"; device_id = some "d3" }))
    × ((optional_student 8000000 (issue_student_token 5000000 "u1" "d3") (
          logout 7500000
            (some "d3")
            (login str_eq gate gate 7000000 phone good_login two_devices).0)).1
        ≡ none)
unfolding login logout optional_student normal issue_student_token
login_run = (refl, refl, refl)

-- A reset without its token is refused and leaves the data as it was.
no_token :
    ((in_session
        (reset_password mark str_eq gate gate (reset_in "better one") 2000000)
        two_devices).1
      ≡ err (api_error 400 "Invalid or expired reset token"))
    × ((in_session
          (reset_password mark str_eq gate gate (reset_in "better one") 2000000)
          two_devices).0.users
        ≡ two_devices.users)
unfolding in_session reset_password normal
no_token = (refl, refl)

-- The token of a forgotten password is good for an hour.
forgotten :
    (forgot_password mark gate gate "ada@x.com" "1.2.3.4" "t0" 0 two_devices).0.tokens
    ≡ record { identifier = "student:reset:ada@x.com"; token = "#t0"; expires = 3600000000 } ∷ []
unfolding forgot_password normal
forgotten = refl

-- A change of the password keeps the device that it is made on, and no other.
changed :
    ((change_password str_eq gate 50 ada "secret" "new one" (some "d2") two_devices).1 ≡ ok tt)
    × (map
          (λ d. d.revoked_at)
          (change_password str_eq gate 50 ada "secret" "new one" (some "d2") two_devices).0.devices
        ≡ some 50 ∷ none ∷ [])
unfolding change_password
changed = (refl, refl)

abbrev ben : RegisterIn
ben = record { id = "u2"; email = "Ben@x.com"; hashed = "hash"; ip = "1.2.3.4"; code = "654321" }

abbrev with_ben : Db
with_ben = (in_session (register mark gate gate ben 0) two_devices).0

abbrev ben_again : RegisterIn
ben_again = record ben { id = "u3"; email = " BEN@x.com" }

register_once_example :
    (by_email (normal "Ben@x.com") two_devices ≡ none)
    × All (λ u. u.id ≢ "u2") (ada ∷ [])
    × (by_email (normal " BEN@x.com") with_ben ≡ some (new_student ben))
    × ((new_student ben).id ≡ "u2")
    × (with_ben.users ≡ new_student ben ∷ ada ∷ [])
    × ((in_session (register mark gate gate ben_again 5) with_ben).1 ≢ ok (new_student ben_again))
    × ((create (new_student ben_again) with_ben).1
        ≡ err (api_error 409 "An account with this email already exists"))
unfolding in_session register normal
register_once_example =
    register_once mark gate gate ben 0 two_devices with_ben (new_student ben) refl gate gate
      ben_again 5 (new_student ben_again) refl

-- A registration succeeds, the code that is mailed verifies the e-mail, and the address is taken.
registered :
    ((in_session (register mark gate gate ben 0) two_devices).1 ≡ ok (new_student ben))
    × ((verify_otp mark "ben@x.com" "654321" 9
          (in_session (register mark gate gate ben 0) two_devices).0).1
        ≡ true)
    × ((in_session
          (register mark gate gate (record ben { id = "u3" }) 5)
          (in_session (register mark gate gate ben 0) two_devices).0).1
        ≡ err (api_error 409 "An account with this email already exists"))
unfolding in_session register verify_otp normal new_student
registered = (refl, refl, refl)
