-- ===== src/Auth.antt =====
-- app/services/auth/rules.py: who may call the cron endpoints and which sessions are revoked.
pub mod Store
pub mod Devices
pub mod Tokens
pub mod Login
pub mod Register
use scholarscrib_backend.Billing.Settlement.{Code, upper, code_eq, code_eq_same, code_eq→eq}
use scholarscrib_backend.Prelude.{
  ℕ, ◌*◌, ◌/◌, ◌≤◌, ◌<◌, ◌≡◌, refl, ◌≢◌, ◌↔◌, Bool, true, false, not, Option, none, some, [], ◌∷◌,
  arith, ltb, leb, if◌then◌else◌, length,
}

-- `timestamp()` of a moment, in microseconds; its whole seconds are `int(...)`.
abbrev pub Micros : Type 0
Micros = ℕ

unfoldable pub is_session_revoked : Bool → Option Micros → Option ℕ → Bool
is_session_revoked false sessions_valid_from issued_at_seconds = true
is_session_revoked true none issued_at_seconds = false
is_session_revoked true (some valid_from) none = true
is_session_revoked true (some valid_from) (some issued) = leb issued (valid_from / 1000000)

-- An active user's token with a known time of issue stays valid exactly when it was issued in a
-- later second than the one up to which sessions were revoked.
pub is_session_revoked_lem :
    (valid_from issued : ℕ)
    → (is_session_revoked true (some valid_from) (some issued) ≡ false)
      ↔ (valid_from < issued * 1000000)
unfolding is_session_revoked
is_session_revoked_lem valid_from issued = (λ h. ground arith, λ h. ground arith)

-- The answers of `cron_decision`: `proceed` for None, or the status code.
pub data CronDecision : Type 0 where
  proceed : CronDecision
  http_status : ℕ → CronDecision

abbrev pub post : Code
post = b'P' ∷ b'O' ∷ b'S' ∷ b'T' ∷ []

long_secret : Option Code → Bool
long_secret none = false
long_secret (some secret) = not (ltb (length secret) 16)

has_text : Option Code → Bool
has_text none = false
has_text (some []) = false
has_text (some (c ∷ text)) = true

module _ (digest : Code → Code) where
  -- The two digests are compared; `digest` is SHA-256 of the encoded text.
  same_digest : Option Code → Option Code → Bool
  same_digest (some secret) (some bearer) = code_eq (digest secret) (digest bearer)
  same_digest _ _ = false

  unfoldable pub cron_decision : Code → Option Code → Option Code → CronDecision
  unfolding long_secret has_text same_digest
  cron_decision method secret bearer =
      if not (code_eq (upper method) post)
      then http_status 405
      else if not (long_secret secret)
      then http_status 204
      else if not (has_text bearer)
      then http_status 401
      else if not (same_digest secret bearer)
      then http_status 401
      else proceed

  cron_tests :
      (method secret : Code) (c : ℕ) (bearer : Code)
      → (cron_decision method (some secret) (some (c ∷ bearer)) ≡ proceed) ↔ (
          (code_eq (upper method) post ≡ true)
          × (ltb (length secret) 16 ≡ false)
          × (code_eq (digest secret) (digest (c ∷ bearer)) ≡ true))
  unfolding cron_decision
  cron_tests method secret c bearer = (λ h. ground arith, λ h. ground arith)

  cron_decision_empty :
      (method secret : Code) → cron_decision method (some secret) (some []) ≡ proceed → ⊥
  unfolding cron_decision
  cron_decision_empty method secret h = ground arith

  -- A caller may proceed exactly with the method POST, in any casing, a configured secret of at
  -- least sixteen characters, and a bearer text that is not empty and has the secret's digest.
  pub cron_decision-proceed :
      (method secret bearer : Code)
      → (cron_decision method (some secret) (some bearer) ≡ proceed) ↔ (
          (upper method ≡ post)
          × (16 ≤ length secret)
          × (bearer ≢ [])
          × (digest secret ≡ digest bearer))
  cron_decision-proceed method secret [] =
      (λ h. absurd (cron_decision_empty method secret h), λ h. absurd (h.2 refl))
  cron_decision-proceed method secret (c ∷ bearer) = (
    λ h.
        let t = (cron_tests method secret c bearer).0 h in
        (
          code_eq→eq (upper method) post t.0,
          ground (arith, t.1),
          λ e. cc,
          code_eq→eq (digest secret) (digest (c ∷ bearer)) t.2,
        ),
    λ m. (cron_tests method secret c bearer).1 (
      rw m.0 (code_eq_same post),
      ground (arith, m.1),
      rw m.3 (code_eq_same (digest (c ∷ bearer))),
    ),
  )
