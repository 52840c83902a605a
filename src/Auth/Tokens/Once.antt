-- ===== src/Auth/Tokens/Once.antt =====
-- app/services/auth/otp.py: which code verifies an e-mail, and how often.
use scholarscrib_backend.Auth.{Micros}
use scholarscrib_backend.Auth.Store.{
  Student, VerificationToken, Db, normal, set_user, delete_by_identifier, create_token,
  get_valid_token, Gate, hit,
}
use scholarscrib_backend.Auth.Tokens.{
  second, otp_identifier, change, mark_verified, send_otp, use_code, verify_otp,
}
use scholarscrib_backend.Prelude.{
  ◌+◌, ◌*◌, ◌<◌, String, ◌≡◌, refl, ◌↔◌, sym, ap, inl, inr, Bool, true, false, ◌&&◌, not, Option,
  none, some, List, [], ◌∷◌, arith, str_eq, eq_iff, ltb, Bool-cases, keep, first, ◌<>◌,
}
use scholarscrib_backend.Prelude.Strings.{strip}
use scholarscrib_backend.Prelude.Requests.{ok, and_then-ok}

is_found {ℓ} : {A : Type ℓ} → Option A → Bool
is_found none = false
is_found (some a) = true

module _ (digest : String → String) where
  abbrev fits : String → String → Micros → VerificationToken → Bool
  fits identifier token now row =
      str_eq row.identifier identifier && (str_eq row.token (digest token) && ltb now row.expires)

  -- No token of an identifier is left once they are deleted.
  none_left :
      (identifier token : String) (now : Micros) (tokens : List VerificationToken)
      → first
          (fits identifier token now)
          (keep (λ row. not (str_eq row.identifier identifier)) tokens)
        ≡ none
  none_left identifier token now [] = refl
  none_left identifier token now (row ∷ tokens) =
      elim (Bool-cases (str_eq row.identifier identifier)) [
        | inl e ↦ rw e (none_left identifier token now tokens)
        | inr e ↦ rw (e, e) (none_left identifier token now tokens)
      ]

  use_code-found :
      (now : Micros) (email : String) (o : Option VerificationToken) (s : Db)
      → (use_code digest now email o s).1 ≡ is_found o
  unfolding use_code is_found
  use_code-found now email none s = refl
  use_code-found now email (some row) s = refl

  tokens-mark_verified :
      (now : Micros) (o : Option Student) (s : Db) → (mark_verified now o s).tokens ≡ s.tokens
  unfolding mark_verified set_user
  tokens-mark_verified now none s = refl
  tokens-mark_verified now (some user) s = refl

  sent :
      (gate : Gate) (email code : String) (now : Micros) (s t : Db)
      → send_otp digest gate email code now s ≡ (t, ok tt)
      → (before : Db) × (t
          ≡ create_token digest (otp_identifier (normal email)) code (now + 600 * second) before)
  unfolding send_otp
  sent gate email code now s t h =
      let limited = hit gate ("otp-send:" <> normal email) 5 600 s in
      let step =
        and_then-ok
          (λ a.
            change (create_token digest (otp_identifier (normal email)) code (now + 600 * second)))
          limited t tt h in
      (limited.0, ap (λ r. r.0) (sym step.1.1))

  -- The test of a code against the one token that was just created.
  first_sent :
      (identifier code tried : String) (expires later : Micros) (s : Db)
      → is_found (
          get_valid_token digest identifier tried later
            (create_token digest identifier code expires s))
        ≡ (str_eq (digest code) (digest tried) && ltb later expires)
  unfolding get_valid_token create_token delete_by_identifier is_found
  first_sent identifier code tried expires later s =
      rw ((eq_iff identifier identifier).1 refl)
        (elim (Bool-cases (str_eq (digest code) (digest tried) && ltb later expires)) [
          | inl e ↦ rw e refl
          | inr e ↦ rw (e, none_left identifier tried later s.tokens) refl
        ])

  verify_otp-found :
      (email tried : String) (later : Micros) (s : Db)
      → (verify_otp digest email tried later s).1
        ≡ is_found (get_valid_token digest (otp_identifier (normal email)) (strip tried) later s)
  unfolding verify_otp
  verify_otp-found email tried later s = use_code-found later (normal email) _ s

  -- A deleted token is valid no more.
  pub gone :
      (identifier tried : String) (later : Micros) (s : Db)
      → get_valid_token digest identifier tried later (delete_by_identifier identifier s) ≡ none
  unfolding get_valid_token delete_by_identifier
  gone identifier tried later s = none_left identifier tried later s.tokens

  get_valid_token-mark_verified :
      (identifier tried : String) (later now : Micros) (o : Option Student) (s : Db)
      → get_valid_token digest identifier tried later (mark_verified now o s)
        ≡ get_valid_token digest identifier tried later s
  unfolding get_valid_token
  get_valid_token-mark_verified identifier tried later now o s =
      rw (tokens-mark_verified now o s) refl

  after_use :
      (identifier tried : String) (now later : Micros) (email : String)
      (o : Option VerificationToken) (s : Db)
      → otp_identifier email ≡ identifier
      → ((use_code digest now email o s).1
          && is_found
              (get_valid_token digest identifier tried later (use_code digest now email o s).0))
        ≡ false
  unfolding use_code is_found
  after_use identifier tried now later email none s e = refl
  after_use identifier tried now later email (some row) s e =
      rw
        (
          e,
          get_valid_token-mark_verified identifier tried later now _ _,
          gone identifier tried later s,
        )
        refl

  -- After a code is sent, it is this code that verifies the e-mail, for ten minutes (as far as the
  -- digest tells codes apart), and only once: whatever code is tried after a success fails.
  pub verify_otp-once :
      (gate : Gate) (email code : String) (now : Micros) (s t : Db)
      → send_otp digest gate email code now s ≡ (t, ok tt)
      → (again tried other : String) (later last : Micros) → normal again ≡ normal email
      → (((verify_otp digest again tried later t).1 ≡ true)
          ↔ ((digest code ≡ digest (strip tried)) × (later < now + 600 * second)))
        × (((verify_otp digest again tried later t).1
              && (verify_otp digest again other last (verify_otp digest again tried later t).0).1)
            ≡ false)
  unfolding verify_otp
  verify_otp-once gate email code now s t h again tried other later last same =
      let start = sent gate email code now s t h in
      let found : (verify_otp digest again tried later t).1
          ≡ (str_eq (digest code) (digest (strip tried)) && ltb later (now + 600 * second)) =
        rw start.1 (
          rw (verify_otp-found again tried later _, same)
            (first_sent _ code (strip tried) _ later start.0)) in
      let same_code = eq_iff (digest code) (digest (strip tried)) in
      (
        (λ e. ground (arith, found, same_code), λ e. ground (arith, found, same_code)),
        rw (verify_otp-found again other last (verify_otp digest again tried later t).0) (
            after_use (otp_identifier (normal again)) (strip other) later last (normal again)
              (get_valid_token digest (otp_identifier (normal again)) (strip tried) later t) t
              refl),
      )
