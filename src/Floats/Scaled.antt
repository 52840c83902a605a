-- ===== src/Floats/Scaled.antt =====
-- An instance of `Floats`, on which tests run: tenths of a thousandth as natural numbers, the
-- differences stopped at zero. It shows that the order laws can be met.
use scholarscrib_backend.Floats.{Floats, OrderLaws}
use scholarscrib_backend.Prelude.{
  ℕ, ◌+◌, ◌-◌, ◌*◌, ◌/◌, ◌^◌, ◌≤◌, ◌≡◌, true, false, arith, ltb, leb, pos,
}

abbrev pub scaled : Floats
scaled = record {
  Float = ℕ;
  decimal = λ n k. n * 10000 / 10 ^ k;
  add = λ a b. a + b;
  sub = λ a b. a - b;
  mul = λ a b. a * b / 10000;
  div = λ a b. a * 10000 / b;
  pow = λ a b. a;
  neg = λ a. 0;
  le = leb;
  round = λ a. pos ((a + 5000) / 10000);
  floor = λ a. pos (a / 10000);
  ceil = λ a. pos ((a + 9999) / 10000);
  of_nat = λ n. n * 10000;
  Time = ℕ;
  plus_days = λ t a. t + a * 86400 / 10000;
  days_since = λ t u. (t - u) * 10000 / 86400;
  earlier = ltb;
  lagos_day = λ t. (t + 3600) / 86400;
}

leb_total : (a b : ℕ) → leb a b ≡ false → leb b a ≡ true
leb_total a b h = ground arith

leb_same : (a : ℕ) → leb a a ≡ true
leb_same a = ground arith

leb_trans : (a b c : ℕ) → leb a b ≡ true → leb b c ≡ true → leb a c ≡ true
leb_trans a b c h k = ground arith

leb_scaled : (m n : ℕ) → m ≤ n → leb (m * 10000) (n * 10000) ≡ true
leb_scaled m n h = ground arith

pub scaled-OrderLaws : OrderLaws scaled
scaled-OrderLaws = record {
  total = leb_total;
  same = leb_same;
  trans = leb_trans;
  of_nat_mono = leb_scaled;
}
