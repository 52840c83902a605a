-- ===== src/Auth/Register/Unique.antt =====
-- app/services/auth/service.py: whom a registration adds, and that an e-mail registers once.
use scholarscrib_backend.Auth.{Micros}
use scholarscrib_backend.Auth.Register.{
  RegisterIn, new_student, clashes, available, ensure_available, create, register,
}
use scholarscrib_backend.Auth.Store.{
  Student, Db, Request, is_text, normal, by_email, Gate, hit, create_token, in_session, rolled_back,
}
use scholarscrib_backend.Auth.Store.Limits.{hit-memory}
use scholarscrib_backend.Auth.Tokens.{change, second, otp_identifier, send_otp}
use scholarscrib_backend.Prelude.{
  ℕ, ◌+◌, ◌*◌, String, ◌≡◌, ◌≢◌, refl, sym, ap, ◌∙◌, ◌⊎◌, inl, inr, true, false, Option, none, some,
  List, [], ◌∷◌, any, first, eq_iff, arith, All, Bool-cases, ◌<>◌,
}
use scholarscrib_backend.Prelude.Requests.{
  Failure, Result, ok, err, api_error, and_then, ◌>>◌, pure,
}

users-and_then :
    {A B : Type 0} (f : A → Request B) (r : Db × Result A)
    → ((a : A) (u : Db) → (f a u).0.users ≡ u.users)
    → (and_then f r).0.users ≡ r.0.users
users-and_then f (s, ok a) keeps = keeps a s
users-and_then f (s, err e) keeps = refl

users-hit :
    (gate : Gate) (key : String) (limit seconds : ℕ) (s : Db)
    → (hit gate key limit seconds s).0.users ≡ s.users
users-hit gate key limit seconds s = ap (λ u. u.users) (hit-memory gate key limit seconds s).1

users-available : (o : Option Student) (s : Db) → (available o s).0.users ≡ s.users
unfolding available
users-available none s = refl
users-available (some user) s = refl

ids_apart :
    (user : Student) (users : List Student)
    → any (clashes user) users ≡ false
    → All (λ u. u.id ≢ user.id) users
ids_apart user [] h = tt
ids_apart user (u ∷ us) h =
    let equal = eq_iff u.id user.id in
    (λ taken. let e = equal.1 taken in ground (arith, e, h), ids_apart user us (ground (arith, h)))

by_email_new :
    (body again : RegisterIn) (t : Db) (users : List Student)
    → normal again.email ≡ normal body.email
    → t.users ≡ new_student body ∷ users
    → by_email (normal again.email) t ≡ some (new_student body)
unfolding by_email new_student
by_email_new body again t users reads added =
    let same = (eq_iff (normal body.email) (normal body.email)).1 refl in
    rw (added, reads) (rw same refl)

refused :
    (body again : RegisterIn) (t : Db) (users : List Student)
    → normal again.email ≡ normal body.email
    → t.users ≡ new_student body ∷ users
    → (create (new_student again) t).1
      ≡ err (api_error 409 "An account with this email already exists")
unfolding create new_student
refused body again t users reads added =
    let same = (eq_iff (normal body.email) (normal again.email)).1 (sym reads) in
    let taken : any (clashes (new_student again)) t.users ≡ true =
      rw added (ground (arith, same)) in
    rw (taken, create) refl

module _ (digest : String → String) where
  users-send_otp :
      (gate : Gate) (email code : String) (now : Micros) (s : Db)
      → (send_otp digest gate email code now s).0.users ≡ s.users
  unfolding send_otp create_token
  users-send_otp gate email code now s =
      users-and_then
        (λ a.
          change (create_token digest (otp_identifier (normal email)) code (now + 600 * second)))
        (hit gate ("otp-send:" <> normal email) 5 600 s) (λ a u. refl)
      ∙ users-hit gate ("otp-send:" <> normal email) 5 600 s

  module _ (body : RegisterIn) (start : List Student) where
    -- The students who have the e-mail of the registration, as it is stored.
    holder : Option Student
    holder = first (λ u. is_text u.email (normal body.email)) start

    -- A registration fails, or it adds the student, whose id and e-mail no other has.
    Ends : Db × Result Student → Type 0
    Ends r =
        ((e : Failure) × (r.1 ≡ err e))
        ⊎ ((r.1 ≡ ok (new_student body))
            × (r.0.users ≡ new_student body ∷ start)
            × (any (clashes (new_student body)) start ≡ false)
            × (holder ≡ none))

    Ends-and_then :
        {A : Type 0} (f : A → Request Student) (r : Db × Result A) (users : List Student)
        → r.0.users ≡ users
        → ((a : A) (u : Db) → u.users ≡ users → Ends (f a u))
        → Ends (and_then f r)
    unfolding Ends
    Ends-and_then f (u, ok a) users same next = next a u same
    Ends-and_then f (u, err e) users same next = inl (e, refl)

    sent :
        (gate : Gate) (email : String) (now : Micros) (u : Db)
        → u.users ≡ new_student body ∷ start
        → any (clashes (new_student body)) start ≡ false
        → holder ≡ none
        → Ends ((send_otp digest gate email body.code now >> pure (new_student body)) u)
    unfolding Ends
    sent gate email now u same free unknown =
        Ends-and_then (λ a. pure (new_student body)) (send_otp digest gate email body.code now u)
          (new_student body ∷ start) (users-send_otp gate email body.code now u ∙ same)
          (λ a v same'. inr (refl, same', free, unknown))

    created :
        (send : Request Student) (u : Db)
        → u.users ≡ start
        → ((v : Db)
            → v.users ≡ new_student body ∷ start
            → any (clashes (new_student body)) start ≡ false
            → Ends (send v))
        → Ends ((create (new_student body) >> send) u)
    unfolding create Ends
    created send u same next = elim (Bool-cases (any (clashes (new_student body)) u.users)) [
      | inl taken ↦ rw (taken, create) (inl (_, refl))
      | inr free ↦
          rw (free, create)
            (next (record u { users = new_student body ∷ u.users })
              (ap (λ us. new_student body ∷ us) same)
              (ap (λ us. any (clashes (new_student body)) us) (sym same) ∙ free))
    ]

    -- The check of the e-mail lets an unknown one through alone.
    checked :
        (next : Request Student) (u : Db)
        → u.users ≡ start
        → (holder ≡ none → Ends (next u))
        → Ends ((ensure_available (normal body.email) >> next) u)
    unfolding ensure_available available by_email holder
    checked next u same h =
        go (first (λ v. is_text v.email (normal body.email)) u.users)
          (λ e. h (ap (first (λ v. is_text v.email (normal body.email))) (sym same) ∙ e))
      where
        go :
            (o : Option Student)
            → (o ≡ none → Ends (next u))
            → Ends (and_then (λ a. next) (available o u))
        go none k = k refl
        go (some user) k = unfold Ends in inl (_, refl)

  register-Ends :
      (gate gate' : Gate) (body : RegisterIn) (now : Micros) (s : Db)
      → Ends body s.users (register digest gate gate' body now s)
  unfolding register
  register-Ends gate gate' body now s =
      let email = normal body.email in
      let send : Request Student =
        send_otp digest gate' email body.code now >> pure (new_student body) in
      let store : Request Student = create (new_student body) >> send in
      Ends-and_then body s.users (λ a. ensure_available email >> store)
        (hit gate ("register:" <> body.ip) 5 600 s) s.users
        (users-hit gate ("register:" <> body.ip) 5 600 s)
        (λ a u same. checked body s.users store u same (λ unknown.
          created body s.users send u same
            (λ w added free. sent body s.users gate' email now w added free unknown)))

  -- What a request of a registration that succeeds has found and done.
  register-ok :
      (gate gate' : Gate) (body : RegisterIn) (now : Micros) (s t : Db) (student : Student)
      → in_session (register digest gate gate' body now) s ≡ (t, ok student)
      → (student ≡ new_student body)
        × (t.users ≡ new_student body ∷ s.users)
        × (any (clashes (new_student body)) s.users ≡ false)
        × (by_email (normal body.email) s ≡ none)
  unfolding in_session by_email holder Ends
  register-ok gate gate' body now s t student h =
      go (register digest gate gate' body now s) h (register-Ends gate gate' body now s)
    where
      go :
          (r : Db × Result Student)
          → rolled_back s r ≡ (t, ok student)
          → Ends body s.users r
          → (student ≡ new_student body)
            × (t.users ≡ new_student body ∷ s.users)
            × (any (clashes (new_student body)) s.users ≡ false)
            × (by_email (normal body.email) s ≡ none)
      go (u, err e) k ends = cc
      go (u, ok a) k (inl (e, failed)) = cc
      go (u, ok a) k (inr (done, added, free, unknown)) =
          let same : u ≡ t = ap (λ r. r.0) k in
          let made : new_student body ≡ student = cc in
          (sym made, ap (λ v. v.users) (sym same) ∙ added, free, unknown)

  -- When a registration has succeeded, no student had the id or the e-mail (without spaces around it,
  -- in lower case) before; the student with the id is the one whom this e-mail now finds, added to
  -- the others. No later registration with an e-mail that reads the same succeeds, and one whose
  -- check was made before the first was stored is refused by the store.
  pub register_once :
      (gate gate' : Gate) (body : RegisterIn) (now : Micros) (s t : Db) (student : Student)
      → in_session (register digest gate gate' body now) s ≡ (t, ok student)
      → (gate₂ gate₃ : Gate) (again : RegisterIn) (later : Micros) (second : Student)
      → normal again.email ≡ normal body.email
      → (by_email (normal body.email) s ≡ none)
        × All (λ u. u.id ≢ body.id) s.users
        × (by_email (normal again.email) t ≡ some student)
        × (student.id ≡ body.id)
        × (t.users ≡ student ∷ s.users)
        × ((in_session (register digest gate₂ gate₃ again later) t).1 ≢ ok second)
        × ((create (new_student again) t).1
            ≡ err (api_error 409 "An account with this email already exists"))
  register_once gate gate' body now s t student h gate₂ gate₃ again later second reads =
      let done = register-ok gate gate' body now s t student h in
      let found : by_email (normal again.email) t ≡ some student =
        by_email_new body again t s.users reads done.1 ∙ ap some (sym done.0) in
      (
        done.3,
        unfold new_student in ids_apart (new_student body) s.users done.2,
        found,
        ap (λ u. u.id) done.0 ∙ (unfold new_student in refl),
        done.1 ∙ ap (λ u. u ∷ s.users) (sym done.0),
        λ twice.
            let r = in_session (register digest gate₂ gate₃ again later) t in
            let free =
              register-ok gate₂ gate₃ again later t r.0 second (ap (λ b. (r.0, b)) twice) in
            let unknown = free.3 in cc,
        refused body again t s.users reads done.1,
      )
