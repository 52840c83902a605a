-- ===== src/Auth/Login/Closed.antt =====
-- app/services/auth/service.py with app/api/deps.py: what a password reset closes.
use scholarscrib_backend.Auth.{Micros, is_session_revoked}
use scholarscrib_backend.Auth.Login.{
  Claims, issued_at, on_device, with_device, with_user, optional_student,
}
use scholarscrib_backend.Auth.Store.{
  Student, UserDevice, Db, is_live_of, normal, by_email, user_by_id, set_user, device_by_id, Gate,
}
use scholarscrib_backend.Auth.Tokens.{
  second, ResetIn, new_password_for, close_sessions, reset_password,
}
use scholarscrib_backend.Auth.Devices.Revoked.{all_revoked}
use scholarscrib_backend.Auth.Tokens.Reset.{reset_ok, not_again}
use scholarscrib_backend.Prelude.{
  ℕ, ◌/◌, String, ◌≡◌, refl, ◌≢◌, ap, ◌∙◌, inl, inr, Bool, true, false, ◌||◌, not, Option, none,
  some, List, [], ◌∷◌, map, arith, str_eq, eq_iff, leb, if◌then◌else◌, Bool-cases, first, All,
}
use scholarscrib_backend.Prelude.Requests.{ok}

-- What is found among devices none of which is live is no way in.
on_device-closed :
    (later : Micros) (user_id device_id : String) (s : Db) (devices : List UserDevice)
    → All (λ d. is_live_of user_id d ≡ false) devices
    → on_device later user_id device_id (first (λ d. str_eq d.id device_id) devices) s ≡ (s, none)
unfolding on_device
on_device-closed later user_id device_id s [] h = refl
on_device-closed later user_id device_id s (d ∷ devices) (h, hs) =
    let rest = on_device-closed later user_id device_id s devices hs in
    elim (Bool-cases (str_eq d.id device_id)) [
      | inl e ↦ rw e (ground (arith, h))
      | inr e ↦ rw e rest
    ]

-- Whether a token was issued up to a moment, or at no known time.
abbrev pub is_old : Micros → Option ℕ → Bool
is_old now none = true
is_old now (some issued) = leb issued (now / second)

-- Whether a token names a device.
abbrev pub names_device : Option String → Bool
names_device none = false
names_device (some id) = not (str_eq id "")

revoked_old :
    (is_active : Bool) (now : Micros) (issued : Option ℕ)
    → is_old now issued ≡ true
    → is_session_revoked is_active (some now) issued ≡ true
unfolding is_session_revoked
revoked_old false now issued h = refl
revoked_old true now none h = refl
revoked_old true now (some issued) h = h

found_id :
    (id : String) (users : List Student)
    → All
        (λ u. u.id ≡ id)
        (elim (first (λ u. str_eq u.id id) users) [ none ↦ [] | some u ↦ u ∷ [] ])
found_id id [] = tt
found_id id (u ∷ users) = elim (Bool-cases (str_eq u.id id)) [
  | inl e ↦ rw e ((eq_iff u.id id).0 e, tt)
  | inr e ↦ rw e (found_id id users)
]

module _ (now later : Micros) (body : ResetIn) (user : Student) (s : Db) where
  closed : Db
  unfolding close_sessions
  closed = close_sessions now body user s

  with_user-old :
      (claims : Claims) (users : List Student) (t : Db)
      → is_old now (issued_at claims) ≡ true
      → with_user later claims
          (first
            (λ u. str_eq u.id user.id)
            (map
              (λ u. if str_eq u.id user.id then new_password_for body.hashed now u else u)
              users))
          t
        ≡ (t, none)
  unfolding with_user new_password_for
  with_user-old claims [] t h = refl
  with_user-old claims (u ∷ users) t h =
      let rest = with_user-old claims users t h in
      elim (Bool-cases (str_eq u.id user.id)) [
        | inl same ↦ rw same (rw (same, revoked_old u.is_active now (issued_at claims) h) refl)
        | inr other ↦ rw (other, other) rest
      ]

  devices_closed : All (λ d. is_live_of user.id d ≡ false) closed.devices
  unfolding closed
  devices_closed = all_revoked now user.id (set_user user.id (new_password_for body.hashed now) s)

  with_device-closed :
      (device_id : Option String)
      → names_device device_id ≡ true
      → with_device later user.id device_id closed ≡ (closed, none)
  unfolding with_device device_by_id
  with_device-closed none h = cc
  with_device-closed (some device_id) h = elim (Bool-cases (str_eq device_id "")) [
    | inl e ↦ ground (arith, h, e)
    | inr e ↦ rw e (on_device-closed later user.id device_id closed closed.devices devices_closed)
  ]

  with_user-closed :
      (claims : Claims) (o : Option Student)
      → All (λ u. u.id ≡ user.id) (elim o [ none ↦ [] | some u ↦ u ∷ [] ])
      → names_device claims.device_id ≡ true
      → with_user later claims o closed ≡ (closed, none)
  unfolding with_user
  with_user-closed claims none e h = refl
  with_user-closed claims (some u) e h =
      elim (Bool-cases (is_session_revoked u.is_active u.sessions_valid_from (issued_at claims))) [
        | inl r ↦ rw r refl
        | inr r ↦ rw (r, e.0) (with_device-closed claims.device_id h)
      ]

  found_closed :
      user_by_id user.id closed
      ≡ first
          (λ u. str_eq u.id user.id)
          (map (λ u. if str_eq u.id user.id then new_password_for body.hashed now u else u) s.users)
  unfolding user_by_id closed close_sessions set_user
  found_closed = refl

  optional_student-old :
      (claims : Claims)
      → is_old now (issued_at claims) ≡ true
      → with_user later claims (user_by_id user.id closed) closed ≡ (closed, none)
  optional_student-old claims h = rw found_closed (with_user-old claims s.users closed h)

  optional_student-on_device :
      (claims : Claims)
      → names_device claims.device_id ≡ true
      → with_user later claims (user_by_id user.id closed) closed ≡ (closed, none)
  unfolding user_by_id
  optional_student-on_device claims h = with_user-closed claims _ (found_id user.id closed.users) h

  -- A token of the user that is old or names a device is no way in after the sessions are closed.
  optional_student-closed :
      (claims : Claims)
      → claims.sub ≡ user.id
      → (is_old now (issued_at claims) || names_device claims.device_id) ≡ true
      → optional_student later claims closed ≡ (closed, none)
  unfolding optional_student
  optional_student-closed claims e h = elim (Bool-cases (str_eq claims.sub "")) [
    | inl empty ↦ rw empty refl
    | inr given ↦ rw given (
        rw e (elim (Bool-cases (is_old now (issued_at claims))) [
          | inl old ↦ optional_student-old claims old
          | inr young ↦ optional_student-on_device claims (ground (arith, h, young))
        ]))
  ]

optional_student-close_sessions :
    (now later : Micros) (body : ResetIn) (user : Student) (s : Db) (claims : Claims)
    → claims.sub ≡ user.id
    → (is_old now (issued_at claims) || names_device claims.device_id) ≡ true
    → optional_student later claims (close_sessions now body user s)
      ≡ (close_sessions now body user s, none)
unfolding closed
optional_student-close_sessions now later body user s claims e h =
    optional_student-closed now later body user s claims e h

module _ (digest : String → String) (verify_password : String → String → Bool) where
  -- After a password is reset, no token of the user that was issued before (or without a time), or
  -- that names a device, opens a session, and no token of the same mail resets the password again.
  pub optional_student-reset_password :
      (gate gate' : Gate) (body : ResetIn) (now : Micros) (s t : Db)
      → reset_password digest verify_password gate gate' body now s ≡ (t, ok tt)
      → (user : Student) → by_email (normal body.email) s ≡ some user
      → (claims : Claims) → claims.sub ≡ user.id
      → (is_old now (issued_at claims) || names_device claims.device_id) ≡ true
      → (later : Micros) (gate₂ gate₃ : Gate) (again : ResetIn)
      → normal again.email ≡ normal body.email
      → (optional_student later claims t ≡ (t, none))
        × ((reset_password digest verify_password gate₂ gate₃ again later t).1 ≢ ok tt)
  optional_student-reset_password gate gate' body now s t h user found claims e old later gate₂
        gate₃ again same =
      let done = reset_ok digest verify_password gate gate' body now s t h in
      let same_user : done.1.0 ≡ user = cc in
      let after : t ≡ close_sessions now body user (record s { memory = done.1.1.0 }) =
        done.1.1.1.1.1
        ∙ ap (λ u. close_sessions now body u (record s { memory = done.1.1.0 })) same_user in
      (
        rw after (optional_student-close_sessions now later body user _ claims e old),
        λ ok_again.
            let r = reset_password digest verify_password gate₂ gate₃ again later t in
            let twice =
              reset_ok digest verify_password gate₂ gate₃ again later t r.0
                (ap (λ b. (r.0, b)) ok_again) in
            ground (
              arith,
              twice.1.1.1.0,
              not_again digest verify_password now later body again user
                  (record s { memory = done.1.1.0 }) same,
              after,
            ),
      )
