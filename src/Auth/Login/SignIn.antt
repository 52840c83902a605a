-- ===== src/Auth/Login/SignIn.antt =====
-- app/services/auth/service.py with app/api/deps.py: what signing a user in leaves, and the session
-- that its token opens.
use mathlib.Core.Option.{some-injective}
use scholarscrib_backend.Auth.{Micros, is_session_revoked}
use scholarscrib_backend.Auth.Devices.{NewDevice, fresh_device, has_id, register_device}
use scholarscrib_backend.Auth.Devices.Limit.{register_device-ok, register_device_new}
use scholarscrib_backend.Auth.Login.{
  Claims, issue_student_token, issued_at, optional_student, refreshed, sign_in,
}
use scholarscrib_backend.Auth.Store.{Student, Db, user_by_id, set_user, device_by_id}
use scholarscrib_backend.Auth.Tokens.{second}
use scholarscrib_backend.Prelude.{
  ◌/◌, String, ◌≡◌, refl, sym, ap, ◌∙◌, inl, inr, Bool, true, false, some, List, [], ◌∷◌, map,
  str_eq, eq_iff, ◌==◌, if◌then◌else◌, Bool-cases, first, any,
}
use scholarscrib_backend.Prelude.Requests.{ok, and_then, and_then-ok, pure}

pub if_true {ℓ} : {A : Type ℓ} (b : Bool) (x y : A) → b ≡ true → (if b then x else y) ≡ x
if_true true x y h = refl
if_true false x y h = cc

pub if_false {ℓ} : {A : Type ℓ} (b : Bool) (x y : A) → b ≡ false → (if b then x else y) ≡ y
if_false true x y h = cc
if_false false x y h = refl

-- The user that has an id, after the tier of this user is read again.
first-refreshed :
    (now : Micros) (s : Db) (id : String) (user : Student) (users : List Student)
    → first (λ u. str_eq u.id id) users ≡ some user
    → first (λ u. str_eq u.id id) (map (λ u. if str_eq u.id id then refreshed now s u else u) users)
      ≡ some (refreshed now s user)
unfolding refreshed
first-refreshed now s id user [] h = cc
first-refreshed now s id user (u ∷ users) h =
    let rest = first-refreshed now s id user users in
    elim (Bool-cases (str_eq u.id id)) [
      | inl e ↦
          let same : u ≡ user =
            some-injective u user (sym (if_true (str_eq u.id id) (some u) _ e) ∙ h) in
          rw e (rw e (ap (λ u. some (refreshed now s u)) same))
      | inr e ↦ rw (e, e) (rest (sym (if_false (str_eq u.id id) (some u) _ e) ∙ h))
    ]

issued_at-issue_student_token :
    (now : Micros) (user_id device_id : String)
    → issued_at (issue_student_token now user_id device_id) ≡ some (now / second)
unfolding issued_at issue_student_token
issued_at-issue_student_token now user_id device_id = elim (Bool-cases (now / second == 0)) [
  | inl e ↦ rw e refl
  | inr e ↦ rw e refl
]

-- A token of a user opens a session on a device that the user is signed in on.
pub opened :
    (later now : Micros) (user : Student) (new : NewDevice) (t : Db)
    → str_eq user.id "" ≡ false
    → str_eq new.id "" ≡ false
    → user_by_id user.id t ≡ some user
    → device_by_id new.id t ≡ some (fresh_device user.id new)
    → is_session_revoked user.is_active user.sessions_valid_from (some (now / second)) ≡ false
    → (optional_student later (issue_student_token now user.id new.id) t).1
      ≡ some (record { id = user.id; device_id = some new.id })
unfolding optional_student issue_student_token fresh_device
opened later now user new t named given found device valid =
    rw (named, found, issued_at-issue_student_token now user.id new.id)
      (rw (valid, given, device, (eq_iff user.id user.id).1 refl) refl)

pub sign_in-ok :
    (now : Micros) (new : NewDevice) (user : Student) (s t : Db) (claims : Claims)
    → sign_in now new user s ≡ (t, ok claims)
    → user_by_id user.id s ≡ some user
    → (claims ≡ issue_student_token new.now user.id new.id)
      × (user_by_id user.id t ≡ some (refreshed now s user))
      × (device_by_id new.id t ≡ some (fresh_device user.id new))
unfolding sign_in refreshed set_user user_by_id fresh_device
sign_in-ok now new user s t claims h found =
    let before = set_user user.id (refreshed now s) s in
    let refreshed_user = refreshed now before user in
    let step =
      and_then-ok (λ device. pure (issue_student_token new.now user.id device.id))
        (register_device new refreshed_user before) t claims h in
    let result =
      register_device-ok new refreshed_user before (register_device new refreshed_user before).0
        step.0 step.1.0 in
    let same_state : (register_device new refreshed_user before).0 ≡ t = ap (λ r. r.0) step.1.1 in
    let token : issue_student_token new.now user.id step.0.id ≡ claims = cc in
    (
      sym token ∙ ap (λ device. issue_student_token new.now user.id device.id) result.0,
      ap {A = Db} (λ u. first (λ x. str_eq x.id user.id) u.users) (sym same_state)
          ∙ (ap (λ users. first (λ x. str_eq x.id user.id) users) result.2
              ∙ first-refreshed now s user.id user s.users found),
      ap (λ u. device_by_id new.id u) (sym same_state) ∙ result.1,
    )

pub sign_in_new :
    (now : Micros) (new : NewDevice) (user : Student) (s : Db)
    → any (has_id new.id) s.devices ≡ false
    → (sign_in now new user s).1 ≡ ok (issue_student_token new.now user.id new.id)
unfolding sign_in refreshed set_user fresh_device
sign_in_new now new user s unused =
    let before = set_user user.id (refreshed now s) s in
    let registered = register_device new (refreshed now before user) before in
    ap
      (λ b.
        (and_then (λ device. pure (issue_student_token new.now user.id device.id))
          (registered.0, b)).1)
      (register_device_new new (refreshed now before user) before unused)
