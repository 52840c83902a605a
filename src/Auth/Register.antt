-- ===== src/Auth/Register.antt =====
-- app/services/auth/service.py: how a student registers. The new id, the code that is mailed, the
-- hash of the password and the clock are arguments; names, class, track and state are left out.
pub mod Unique
use scholarscrib_backend.Auth.{Micros}
use scholarscrib_backend.Auth.Store.{Student, Db, Request, is_text, normal, by_email, Gate, hit}
use scholarscrib_backend.Auth.Tokens.{send_otp}
use scholarscrib_backend.Billing.Tiers.{freemium}
use scholarscrib_backend.Prelude.{
  String, Bool, true, false, ◌||◌, Option, none, some, ◌∷◌, str_eq, any, ◌<>◌,
}
use scholarscrib_backend.Prelude.Requests.{ok, ◌>>=◌, ◌>>◌, pure, fail}

-- RegisterIn with the hash of the password, the new id, the address of the caller and the new code.
pub record RegisterIn : Type 0 where
  pub id : String
  pub email : String
  pub hashed : String
  pub ip : String
  pub code : String

unfoldable pub new_student : RegisterIn → Student
unfolding normal
new_student body = record {
  id = body.id;
  email = some (normal body.email);
  password_hash = some body.hashed;
  tier = freemium;
  is_active = true;
  email_verified = none;
  sessions_valid_from = none;
}

abbrev pub shares : Option String → Option String → Bool
shares none other = false
shares (some email) other = is_text other email

-- The unique columns of a student: id and e-mail.
abbrev pub clashes : Student → Student → Bool
clashes user other = str_eq other.id user.id || shares user.email other.email

unfoldable pub available : Option Student → Request (Unit {0})
available none s = (s, ok tt)
available (some user) s = fail 409 "An account with this email already exists" s

-- `_ensure_available`
unfoldable pub ensure_available : String → Request (Unit {0})
unfolding available by_email
ensure_available email s = available (by_email email s) s

-- `_create`
unfoldable pub create : Student → Request (Unit {0})
create user s = elim (any (clashes user) s.users) [
  | true ↦ fail 409 "An account with this email already exists" s
  | false ↦ (record s { users = user ∷ s.users }, ok tt)
]

module _ (digest : String → String) where
  -- RegisterStudentService.process
  unfoldable pub register : Gate → Gate → RegisterIn → Micros → Request Student
  unfolding hit ensure_available create new_student send_otp
  register gate gate' body now = do
    hit gate ("register:" <> body.ip) 5 600
    ensure_available (normal body.email)
    create (new_student body)
    send_otp digest gate' (normal body.email) body.code now
    pure (new_student body)
