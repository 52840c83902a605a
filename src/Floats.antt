-- ===== src/Floats.antt =====
-- Python's `float` and the parts of `datetime` that stand on it, as a parameter of the modules that
-- compute with them. The laws are those of the order of floats that are no NaN.
pub mod Scaled
use scholarscrib_backend.Prelude.{ℕ, ◌≤◌, ◌≡◌, Bool, true, false, not, arith, if◌then◌else◌, ℤ}

pub record Floats : Type 1 where
  pub Float : Type 0
  -- The value of a literal, `decimal n k` for n / 10 ^ k.
  pub decimal : ℕ → ℕ → Float
  pub add : Float → Float → Float
  pub sub : Float → Float → Float
  pub mul : Float → Float → Float
  pub div : Float → Float → Float
  pub pow : Float → Float → Float
  pub neg : Float → Float
  pub le : Float → Float → Bool
  -- round(x), an integer
  pub round : Float → ℤ
  pub floor : Float → ℤ
  pub ceil : Float → ℤ
  pub of_nat : ℕ → Float
  -- Instants, and `now + timedelta(days=x)`.
  pub Time : Type 0
  pub plus_days : Time → Float → Time
  -- `(later - earlier).total_seconds() / 86400`, the order of instants, and the ordinal of the civil
  -- day in Lagos.
  pub days_since : (later earlier : Time) → Float
  pub earlier : Time → Time → Bool
  pub lagos_day : Time → ℕ

-- a < b, for floats that are no NaN
abbrev pub lt : (F : Floats) → F.Float → F.Float → Bool
lt F a b = not (F.le b a)

-- Python's max(a, b) and min(a, b): the first argument, unless the second is strictly beyond it.
abbrev pub fmax : (F : Floats) → F.Float → F.Float → F.Float
fmax F a b = if F.le b a then a else b

abbrev pub fmin : (F : Floats) → F.Float → F.Float → F.Float
fmin F a b = if F.le a b then a else b

pub record OrderLaws (F : Floats) : Type 0 where
  pub total : (a b : F.Float) → F.le a b ≡ false → F.le b a ≡ true
  pub same : (a : F.Float) → F.le a a ≡ true
  pub trans : (a b c : F.Float) → F.le a b ≡ true → F.le b c ≡ true → F.le a c ≡ true
  pub of_nat_mono : (m n : ℕ) → m ≤ n → F.le (F.of_nat m) (F.of_nat n) ≡ true

-- A value clamped to a range lies in it.
pub clamp_bounds :
    (F : Floats) (laws : OrderLaws F) (low high x : F.Float)
    → F.le low high ≡ true
    → (F.le low (fmin F high (fmax F low x)) ≡ true)
      × (F.le (fmin F high (fmax F low x)) high ≡ true)
clamp_bounds F laws low high x h =
    ground (
      arith,
      laws.total x low,
      laws.total high x,
      laws.total high low,
      laws.same high,
      laws.same low,
    )
