-- ===== src/Auth/Login/Opened.antt =====
-- app/services/auth/service.py with app/api/deps.py: what the token of a login opens.
use Prim.Native.String
use scholarscrib_backend.Auth.{Micros, is_session_revoked}
use scholarscrib_backend.Auth.Devices.{NewDevice, has_id}
use scholarscrib_backend.Auth.Login.{
  Claims, issue_student_token, optional_student, LoginIn, refreshed, sign_in, authenticated,
  sign_in_found, login,
}
use scholarscrib_backend.Auth.Store.{Student, Db, Request, normal, by_email, user_by_id, Gate, hit}
use scholarscrib_backend.Auth.Tokens.{second, matches}
use scholarscrib_backend.Auth.Store.Limits.{hits-ok, hits_pass}
use scholarscrib_backend.Prelude.{
  ◌/◌, String, ◌≡◌, sym, ap, ◌∙◌, inl, inr, Bool, true, false, ◌&&◌, Option, none, some, str_eq,
  ltb, ◌<>◌, Bool-cases, any,
}
use scholarscrib_backend.Prelude.Requests.{Result, ok, and_then, and_then-ok, pure}
use scholarscrib_backend.Auth.Login.SignIn.{if_true, if_false, opened, sign_in-ok, sign_in_new}

module _ (verify_password : String → String → Bool) where
  refused :
      {A : Type 0} (now : Micros) (new : NewDevice) (s t : Db) (claims : Claims)
      → sign_in_found verify_password now new none s ≡ (t, ok (some claims))
      → A
  unfolding sign_in_found
  refused now new s t claims h = cc

  signed_in :
      (now : Micros) (new : NewDevice) (user : Student) (s t : Db) (claims : Claims)
      → sign_in_found verify_password now new (some user) s ≡ (t, ok (some claims))
      → sign_in now new user s ≡ (t, ok claims)
  unfolding sign_in_found
  signed_in now new user s t claims h =
      let step = and_then-ok (λ c. pure (some c)) (sign_in now new user s) t (some claims) h in
      let result : (sign_in now new user s).0 ≡ t = ap (λ r. r.0) step.1.1 in
      let token : step.0 ≡ claims = cc in
      step.1.0 ∙ (ap (λ u. (u, ok step.0)) result ∙ ap (λ c. (t, ok c)) token)

  -- A login that succeeds signs the user in whom the mail finds.
  sign_in_found-ok :
      (now : Micros) (new : NewDevice) (password : String) (user : Student) (s t : Db)
      (claims : Claims)
      → sign_in_found verify_password now new (authenticated verify_password password (some user)) s
        ≡ (t, ok (some claims))
      → sign_in now new user s ≡ (t, ok claims)
  unfolding authenticated
  sign_in_found-ok now new password user s t claims h =
      elim (Bool-cases (matches verify_password password user.password_hash && user.is_active)) [
        | inl right ↦
            signed_in now new user s t claims
              (ap (λ o. sign_in_found verify_password now new o s) (sym (if_true _ _ _ right)) ∙ h)
        | inr wrong ↦
            let failed : sign_in_found verify_password now new none s ≡ (t, ok (some claims)) =
              ap (λ o. sign_in_found verify_password now new o s) (sym (if_false _ _ _ wrong))
              ∙ h in
            refused now new s t claims failed
      ]

  -- The token of a login opens a session of the user on the new device at once, if no sessions are
  -- closed up to the second of the login.
  optional_student-login :
      (gate gate' : Gate) (now : Micros) (new : NewDevice) (body : LoginIn) (s t : Db)
      (claims : Claims)
      → login verify_password gate gate' now new body s ≡ (t, ok (some claims))
      → (user : Student) → by_email (normal body.email) s ≡ some user
      → user_by_id user.id s ≡ some user
      → str_eq user.id "" ≡ false
      → str_eq new.id "" ≡ false
      → is_session_revoked user.is_active user.sessions_valid_from (some (new.now / second)) ≡ false
      → (later : Micros)
      → (optional_student later claims t).1
        ≡ some (record { id = user.id; device_id = some new.id })
  unfolding login by_email user_by_id refreshed
  optional_student-login gate gate' now new body s t claims h user found same named given valid
        later =
      elim (Bool-cases (ltb (String.count body.password) 6)) [
        | inl short ↦
            let unsigned : Db × Result (Option Claims) = (s, ok none) in
            let none_given : unsigned ≡ (t, ok (some claims)) = sym (if_true _ _ _ short) ∙ h in cc
        | inr long ↦
            let limited =
              hits-ok gate gate' ("login:" <> normal body.email <> ":" <> body.ip)
                ("login-email:" <> normal body.email) 5 900 20 3600
                (λ s.
                  sign_in_found verify_password now new
                    (authenticated verify_password body.password (by_email (normal body.email) s))
                    s)
                s t (some claims) (sym (if_false _ _ _ long) ∙ h) in
            let after = record s { memory = limited.0 } in
            let signed = sign_in_found-ok now new body.password user after t claims (
              ap
                (λ o.
                  sign_in_found verify_password now new
                    (authenticated verify_password body.password o) after)
                (sym found)
              ∙ limited.1) in
            let done = sign_in-ok now new user after t claims signed same in
            rw done.0 (
              opened later new.now (refreshed now after user) new t named given done.1 done.2 valid)
      ]

  sign_in_found_new :
      (now : Micros) (new : NewDevice) (password : String) (user : Student) (s : Db)
      → (matches verify_password password user.password_hash && user.is_active) ≡ true
      → any (has_id new.id) s.devices ≡ false
      → (sign_in_found verify_password now new
          (authenticated verify_password password (some user))
          s).1
        ≡ ok (some (issue_student_token new.now user.id new.id))
  unfolding authenticated sign_in_found
  sign_in_found_new now new password user s right unused = rw right (
      ap (λ b. (and_then (λ c. pure (some c)) ((sign_in now new user s).0, b)).1)
        (sign_in_new now new user s unused))

  -- A student who is active and knows the password, and whom the limits let through, signs in: the
  -- token that the login returns opens a session on the new device at once, if no sessions are closed
  -- up to the second of the login.
  pub login_lem :
      (gate gate' : Gate) (now : Micros) (new : NewDevice) (body : LoginIn) (s : Db)
      (user : Student)
      → ltb (String.count body.password) 6 ≡ false
      → (hit gate ("login:" <> normal body.email <> ":" <> body.ip) 5 900 s).1 ≡ ok tt
      → (hit gate'
          ("login-email:" <> normal body.email)
          20
          3600
          (hit gate ("login:" <> normal body.email <> ":" <> body.ip) 5 900 s).0).1
        ≡ ok tt
      → by_email (normal body.email) s ≡ some user
      → user_by_id user.id s ≡ some user
      → (matches verify_password body.password user.password_hash && user.is_active) ≡ true
      → any (has_id new.id) s.devices ≡ false
      → str_eq user.id "" ≡ false
      → str_eq new.id "" ≡ false
      → is_session_revoked user.is_active user.sessions_valid_from (some (new.now / second)) ≡ false
      → (later : Micros)
      → ((login verify_password gate gate' now new body s).1
          ≡ ok (some (issue_student_token new.now user.id new.id)))
        × ((optional_student later
              (issue_student_token new.now user.id new.id)
              (login verify_password gate gate' now new body s).0).1
            ≡ some (record { id = user.id; device_id = some new.id }))
  unfolding login by_email
  login_lem gate gate' now new body s user long let_in let_in' found same right unused named given
        valid later =
      let rest : Request (Option Claims) = λ s.
        sign_in_found verify_password now new
          (authenticated verify_password body.password (by_email (normal body.email) s)) s in
      let limited =
        hits_pass gate gate' ("login:" <> normal body.email <> ":" <> body.ip)
          ("login-email:" <> normal body.email) 5 900 20 3600 rest s let_in let_in' in
      let after : Db = record s { memory = limited.0 } in
      let run : (login verify_password gate gate' now new body s).1
          ≡ ok (some (issue_student_token new.now user.id new.id)) =
        ap (λ r. r.1) (if_false _ _ _ long ∙ limited.1)
        ∙ (ap
              (λ o.
                (sign_in_found verify_password now new
                  (authenticated verify_password body.password o) after).1)
              found
            ∙ sign_in_found_new now new body.password user after right unused) in
      (
        run,
        optional_student-login gate gate' now new body s
            (login verify_password gate gate' now new body s).0
            (issue_student_token new.now user.id new.id)
            (ap (λ b. ((login verify_password gate gate' now new body s).0, b)) run) user found same
            named given valid later,
      )
