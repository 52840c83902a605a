-- ===== src/Prelude/Requests.antt =====
-- What a request over a state returns: the state with its result, an error included.
use Prim.Native.Nat.{ℕ}
use Prim.Native.String.{String}
use mathlib.Core.Bool.{Bool, true, false}
use mathlib.Core.Path.{◌≡◌, refl}

pub data Failure : Type 0 where
  -- ApiError(status, message)
  api_error : ℕ → String → Failure
  integrity_error : Failure

pub data Result {ℓ} (A : Type ℓ) : Type ℓ where
  ok : A → Result A
  err : Failure → Result A

abbrev pub and_then : {S A B : Type 0} → (A → S → S × Result B) → S × Result A → S × Result B
and_then f (s, ok a) = f a s
and_then f (s, err e) = (s, err e)

infixl 5 ◌>>=◌ ◌>>◌
abbrev pub ◌>>=◌ : {S A B : Type 0} → (S → S × Result A) → (A → S → S × Result B) → S → S × Result B
◌>>=◌ m f s = and_then f (m s)

abbrev pub ◌>>◌ : {S A B : Type 0} → (S → S × Result A) → (S → S × Result B) → S → S × Result B
◌>>◌ m k s = ◌>>=◌ m (λ a. k) s

abbrev pub pure : {S A : Type 0} → A → S → S × Result A
pure a s = (s, ok a)

abbrev pub fail : {S A : Type 0} → ℕ → String → S → S × Result A
fail status message s = (s, err (api_error status message))

abbrev pub require : {S : Type 0} → Bool → ℕ → String → S → S × Result (Unit {0})
require true status message s = (s, ok tt)
require false status message s = (s, err (api_error status message))

-- A step that is followed by others and all succeed, succeeds.
pub and_then-ok :
    {S A B : Type 0} (f : A → S → S × Result B) (r : S × Result A) (t : S) (b : B)
    → and_then f r ≡ (t, ok b)
    → (a : A) × ((r ≡ (r.0, ok a)) × (f a r.0 ≡ (t, ok b)))
and_then-ok f (s, ok a) t b h = (a, (refl, h))
and_then-ok f (s, err e) t b h = cc
