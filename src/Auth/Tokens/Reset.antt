-- ===== src/Auth/Tokens/Reset.antt =====
-- app/services/auth/service.py: what a password reset that succeeds has tested.
use Prim.Native.String
use scholarscrib_backend.Auth.{Micros}
use scholarscrib_backend.Auth.Store.{
  Student, VerificationToken, Db, normal, by_email, get_valid_token, Gate,
}
use scholarscrib_backend.Auth.Tokens.{
  reset_identifier, ResetIn, close_sessions, reset_user, reset_found, reset_checked, reset_password,
}
use scholarscrib_backend.Auth.Store.Limits.{hits-ok}
use scholarscrib_backend.Auth.Tokens.Once.{gone}
use scholarscrib_backend.Prelude.{
  ℕ, String, ◌≡◌, refl, sym, ap, ◌∙◌, Bool, true, false, not, Option, none, some, arith, ltb, ◌<>◌,
}
use scholarscrib_backend.RateLimit.{Memory}
use scholarscrib_backend.Prelude.Strings.{strip}
use scholarscrib_backend.Prelude.Requests.{ok, and_then-ok, require, ◌>>◌}

module _ (digest : String → String) (verify_password : String → String → Bool) where
  reset_found-ok :
      (now : Micros) (body : ResetIn) (o : Option VerificationToken) (u : Option Student) (s t : Db)
      → reset_found digest verify_password now body o u s ≡ (t, ok tt)
      → (row : VerificationToken) × ((user : Student) × ((o ≡ some row)
            × ((u ≡ some user) × (t ≡ close_sessions now body user s))))
  unfolding reset_found reset_user
  reset_found-ok now body none u s t h = cc
  reset_found-ok now body (some row) none s t h = cc
  reset_found-ok now body (some row) (some user) s t h =
      (row, (user, (refl, (refl, ground (arith, h)))))

  require_state :
      (b : Bool) (status : ℕ) (message : String) (s : Db)
      → (require {S = Db} b status message s).0 ≡ s
  require_state true status message s = refl
  require_state false status message s = refl

  -- A reset that succeeds passes the tests of its token, whatever the limiter remembers.
  reset_inv :
      (gate gate' : Gate) (body : ResetIn) (now : Micros) (s t : Db)
      → reset_password digest verify_password gate gate' body now s ≡ (t, ok tt)
      → (memory : Memory) × (reset_checked digest verify_password now body
            (record s { memory = memory })
          ≡ (t, ok tt))
  unfolding reset_password
  reset_inv gate gate' body now s t h =
      let long_enough = not (ltb (String.count body.new_password) 6) in
      let message : String = "Password must be at least 6 characters" in
      let checked = reset_checked digest verify_password now body in
      let limited =
        hits-ok gate gate' ("reset-pass-ip:" <> body.ip) ("reset-pass-email:" <> normal body.email)
          20 3600 20 3600 (require long_enough 400 message >> checked) s t tt h in
      let after = record s { memory = limited.0 } in
      let step =
        and_then-ok (λ a. checked) (require long_enough 400 message after) t tt limited.1 in
      (limited.0, ap checked (sym (require_state long_enough 400 message after)) ∙ step.1.1)

  pub reset_ok :
      (gate gate' : Gate) (body : ResetIn) (now : Micros) (s t : Db)
      → reset_password digest verify_password gate gate' body now s ≡ (t, ok tt)
      → (row : VerificationToken) × ((user : Student) × ((memory : Memory) × ((get_valid_token
                  digest
                  (reset_identifier (normal body.email))
                  (strip body.token)
                  now
                  s
                ≡ some row)
              × ((by_email (normal body.email) s ≡ some user)
                  × (t ≡ close_sessions now body user (record s { memory = memory }))))))
  unfolding reset_checked get_valid_token by_email
  reset_ok gate gate' body now s t h =
      let step = reset_inv gate gate' body now s t h in
      let found = reset_found-ok now body _ _ (record s { memory = step.0 }) t step.1 in
      (found.0, (found.1.0, (step.0, (found.1.1.0, (found.1.1.1.0, found.1.1.1.1)))))

  -- The tokens of a mail are gone once its reset is done.
  pub not_again :
      (now later : Micros) (body again : ResetIn) (user : Student) (s : Db)
      → normal again.email ≡ normal body.email
      → get_valid_token digest
          (reset_identifier (normal again.email))
          (strip again.token)
          later
          (close_sessions now body user s)
        ≡ none
  unfolding close_sessions
  not_again now later body again user s same = rw same (gone digest _ (strip again.token) later _)
