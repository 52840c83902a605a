-- ===== src/Auth/Tokens.antt =====
-- app/services/auth/otp.py, and the passwords of app/services/auth/service.py: codes that are mailed
-- and what they open. The digest of a token, the check of a password, the new code, token or hash
-- and the clock are arguments; sending the mail is left out.
pub mod Once
pub mod Reset
use Prim.Native.String
use scholarscrib_backend.Auth.{Micros}
use scholarscrib_backend.Auth.Store.{
  Student, VerificationToken, Db, Request, normal, by_email, set_user, delete_by_identifier,
  create_token, get_valid_token, Gate, hit, in_session,
}
use scholarscrib_backend.Auth.Devices.{revoke_other_devices}
use scholarscrib_backend.Prelude.{
  ℕ, ◌+◌, ◌*◌, String, Bool, true, false, ◌&&◌, not, Option, none, some, str_eq, ltb, if◌then◌else◌,
  ◌<>◌,
}
use scholarscrib_backend.Prelude.Strings.{strip}
use scholarscrib_backend.Prelude.Requests.{ok, err, ◌>>=◌, ◌>>◌, pure, fail, require}

abbrev pub second : Micros
second = 1000000

unfoldable pub otp_identifier : String → String
unfolding normal
otp_identifier email = "student:otp:" <> normal email

unfoldable pub reset_identifier : String → String
reset_identifier normalised = "student:reset:" <> normalised

-- A step that changes the state and raises no error.
abbrev pub change : (Db → Db) → Request (Unit {0})
change f s = (f s, ok tt)

-- Python's truth of a text or None.
abbrev pub is_given : Option String → Bool
is_given none = false
is_given (some text) = not (str_eq text "")

unfoldable pub verified : Micros → Student → Student
verified now user = elim user.email_verified [
  | none ↦ record user { email_verified = some now }
  | some moment ↦ user
]

-- The user's e-mail is marked as verified, if the user has registered.
unfoldable pub mark_verified : Micros → Option Student → Db → Db
unfolding set_user verified
mark_verified now none s = s
mark_verified now (some user) s = set_user user.id (verified now) s

-- Whether a password is that of a stored hash.
abbrev pub matches : (String → String → Bool) → String → Option String → Bool
matches verify_password password none = false
matches verify_password password (some hashed) =
    not (str_eq hashed "") && verify_password password hashed

-- A reset as it comes in, with the hash of the new password.
pub record ResetIn : Type 0 where
  pub email : String
  pub token : String
  pub new_password : String
  pub hashed : String
  pub ip : String

unfoldable pub new_password_for : String → Micros → Student → Student
new_password_for hashed now user = record user {
  password_hash = some hashed;
  sessions_valid_from = some now;
}

-- What a reset changes once it is granted.
unfoldable pub close_sessions : Micros → ResetIn → Student → Db → Db
unfolding set_user new_password_for revoke_other_devices delete_by_identifier reset_identifier
close_sessions now body user s =
    delete_by_identifier (reset_identifier (normal body.email)) (
      revoke_other_devices now user.id none (set_user user.id (new_password_for body.hashed now) s))

-- ChangePasswordService.process
unfoldable pub change_password :
    (String → String → Bool)
    → Gate
    → Micros
    → Student
    → String
    → String
    → Option String
    → Request (Unit {0})
unfolding hit set_user revoke_other_devices
change_password verify_password gate now user current hashed device_id = do
  hit gate ("password:" <> user.id) 5 900
  require (is_given user.password_hash) 400 "This account has no password"
  require (matches verify_password current user.password_hash) 400 "Current password is wrong"
  change (set_user user.id (λ u. record u { password_hash = some hashed }))
  change (revoke_other_devices now user.id device_id)

module _ (digest : String → String) where
  -- StudentOTPService.send_otp
  unfoldable pub send_otp : Gate → String → String → Micros → Request (Unit {0})
  unfolding hit create_token otp_identifier
  send_otp gate email code now = do
    hit gate ("otp-send:" <> normal email) 5 600
    change (create_token digest (otp_identifier (normal email)) code (now + 600 * second))

  use_code : Micros → String → Option VerificationToken → Db → Db × Bool
  unfolding mark_verified delete_by_identifier by_email otp_identifier
  use_code now normalised none s = (s, false)
  use_code now normalised (some row) s =
      let used = delete_by_identifier (otp_identifier normalised) s in
      (mark_verified now (by_email normalised used) used, true)

  -- StudentOTPService.verify_otp
  unfoldable pub verify_otp : String → String → Micros → Db → Db × Bool
  unfolding use_code get_valid_token strip
  verify_otp email code now s =
      use_code now (normal email)
        (get_valid_token digest (otp_identifier (normal email)) (strip code) now s) s

  -- StudentForgotPasswordService.process
  mail_reset : String → String → Micros → Option Student → Db → Db
  unfolding create_token reset_identifier
  mail_reset normalised token now none s = s
  mail_reset normalised token now (some user) s =
      if user.is_active
      then create_token digest (reset_identifier normalised) token (now + 3600 * second) s
      else s

  unfoldable pub forgot_password :
      Gate → Gate → String → String → String → Micros → Request (Unit {0})
  unfolding hit mail_reset by_email
  forgot_password gate gate' email ip token now = do
    hit gate ("forgot-pass-ip:" <> ip) 10 3600
    hit gate' ("forgot-pass-email:" <> normal email) 5 3600
    change (λ s. mail_reset (normal email) token now (by_email (normal email) s) s)

  module _ (verify_password : String → String → Bool) where
    -- The user whom the reset is for, once the token is found.
    unfoldable pub reset_user : Micros → ResetIn → Option Student → Request (Unit {0})
    unfolding close_sessions
    reset_user now body none s = fail 400 "Invalid or expired reset token" s
    reset_user now body (some user) s =
        if not user.is_active
        then fail 400 "Invalid or expired reset token" s
        else if matches verify_password body.new_password user.password_hash
        then fail 400 "New password cannot be the same as your current password" s
        else (close_sessions now body user s, ok tt)

    unfoldable pub reset_found :
        Micros → ResetIn → Option VerificationToken → Option Student → Request (Unit {0})
    unfolding reset_user
    reset_found now body none user s = fail 400 "Invalid or expired reset token" s
    reset_found now body (some row) user s = reset_user now body user s

    unfoldable pub reset_checked : Micros → ResetIn → Request (Unit {0})
    unfolding reset_found get_valid_token by_email reset_identifier
    reset_checked now body s =
        reset_found now body
          (get_valid_token digest (reset_identifier (normal body.email)) (strip body.token) now s)
          (by_email (normal body.email) s) s

    -- StudentResetPasswordService.process
    unfoldable pub reset_password : Gate → Gate → ResetIn → Micros → Request (Unit {0})
    unfolding hit reset_checked
    reset_password gate gate' body now = do
      hit gate ("reset-pass-ip:" <> body.ip) 20 3600
      hit gate' ("reset-pass-email:" <> normal body.email) 20 3600
      require (not (ltb (String.count body.new_password) 6)) 400
          "Password must be at least 6 characters"
      reset_checked now body
