-- ===== src/Planner/TermContext/Ranges/Sessions.antt =====
-- app/services/planner/term_context.py: the sessions that the fallback writes are read back.
use scholarscrib_backend.Planner.TermContext.{year_codes, year_text, session_of}
use scholarscrib_backend.Planner.TermContext.Ranges.{
  split_at, all_digits, is_year, number_from, number, parts_ok, session_ok,
}
use scholarscrib_backend.Prelude.{
  ℕ, zero, suc, ◌+◌, ◌-◌, ◌*◌, ◌/◌, ◌%◌, ◌≤◌, ◌<◌, ◌≡◌, refl, ap, ◌∙◌, inl, inr, true, false, List,
  [], ◌∷◌, ◌++◌, map, arith, ltb, ◌==◌, ltb→lt, lt→ltb, le→leb, ==_refl, Bool-cases, length, All,
}

abbrev Digit : ℕ → Type 0
Digit c = (b'0' ≤ c) × (c ≤ b'9')

number_from-year_codes :
    (fuel n : ℕ) (codes : List ℕ)
    → n < fuel
    → number_from 0 (year_codes fuel n codes) ≡ number_from n codes
unfolding number_from year_codes
number_from-year_codes zero n codes h = absurd (omega arith)
number_from-year_codes (suc fuel) n codes h = elim (Bool-cases (ltb n 10)) [
  | inl e ↦ rw e (ap (λ k. number_from k codes) (omega arith))
  | inr e ↦
      let big : 10 ≤ n = ground arith in
      let ih = number_from-year_codes fuel (n / 10) ((b'0' + n % 10) ∷ codes) (omega arith) in
      let back : n / 10 * 10 + (b'0' + n % 10 - b'0') ≡ n = omega arith in
      rw e (ih ∙ ap (λ k. number_from k codes) back)
]

year_codes-digits :
    (fuel n : ℕ) (codes : List ℕ) → All Digit codes → All Digit (year_codes fuel n codes)
unfolding year_codes
year_codes-digits zero n codes h = h
year_codes-digits (suc fuel) n codes h = elim (Bool-cases (ltb n 10)) [
  | inl e ↦ let small = ltb→lt n 10 e in rw e ((omega arith, omega arith), h)
  | inr e ↦
      rw e
        (year_codes-digits fuel (n / 10) ((b'0' + n % 10) ∷ codes) ((omega arith, omega arith), h))
]

-- One digit more.
year_codes-step :
    (fuel n : ℕ) (codes : List ℕ)
    → 10 ≤ n
    → year_codes (suc fuel) n codes ≡ year_codes fuel (n / 10) ((b'0' + n % 10) ∷ codes)
unfolding year_codes
year_codes-step fuel n codes h = let e : ltb n 10 ≡ false = ground arith in rw e refl

year_codes-last :
    (fuel n : ℕ) (codes : List ℕ)
    → n < 10
    → length (year_codes (suc fuel) n codes) ≡ suc (length codes)
unfolding year_codes
year_codes-last fuel n codes h = let e = lt→ltb n 10 h in rw e refl

length-year_codes : (n : ℕ) → 1000 ≤ n → n < 10000 → length (year_codes (n + 1) n []) ≡ 4
length-year_codes n low high = go (n - 3) (omega arith)
  where
    go : (fuel : ℕ) → n ≡ fuel + 3 → length (year_codes (n + 1) n []) ≡ 4
    go fuel e =
        let more : n + 1 ≡ suc (suc (suc (suc fuel))) = omega arith in
        rw more (
          ap length (
            year_codes-step (suc (suc (suc fuel))) n [] (omega arith)
            ∙ (year_codes-step (suc (suc fuel)) (n / 10) _ (omega arith)
                ∙ year_codes-step (suc fuel) (n / 10 / 10) _ (omega arith)))
          ∙ year_codes-last fuel (n / 10 / 10 / 10) _ (omega arith))

all_digits-Digit : (codes : List ℕ) → All Digit codes → all_digits codes ≡ true
unfolding all_digits
all_digits-Digit [] h = refl
all_digits-Digit (c ∷ cs) h =
    let rest = all_digits-Digit cs h.1 in rw (le→leb b'0' c h.0.0, le→leb c b'9' h.0.1, rest) refl

split_at-digits : (x : List ℕ) → All Digit x → split_at b'/' x ≡ x ∷ []
unfolding split_at
split_at-digits [] h = refl
split_at-digits (c ∷ cs) h =
    let e : (c == b'/') ≡ false = (let low : 48 ≤ c = h.0.0 in ground arith) in
    rw (e, split_at-digits cs h.1) refl

split_at-append :
    (x y : List ℕ) → All Digit x → All Digit y → split_at b'/' (x ++ b'/' ∷ y) ≡ x ∷ y ∷ []
unfolding split_at
split_at-append [] y h k = rw (split_at-digits y k) refl
split_at-append (c ∷ cs) y h k =
    let e : (c == b'/') ≡ false = (let low : 48 ≤ c = h.0.0 in ground arith) in
    rw (e, split_at-append cs y h.1 k) refl

year_text-number : (n : ℕ) → number (year_text n) ≡ n
unfolding year_text number_from
year_text-number n = number_from-year_codes (n + 1) n [] (omega arith)

year_text-is_year : (n : ℕ) → 1000 ≤ n → n < 10000 → is_year (year_text n) ≡ true
unfolding year_text is_year
year_text-is_year n low high =
    rw
      (
        all_digits-Digit (year_codes (n + 1) n []) (year_codes-digits (n + 1) n [] tt),
        length-year_codes n low high,
      )
      refl

session_of-parts :
    (year : ℕ) → split_at b'/' (session_of year) ≡ year_text year ∷ year_text (year + 1) ∷ []
unfolding year_text
session_of-parts year =
    split_at-append (year_text year) (year_text (year + 1))
      (year_codes-digits (year + 1) year [] tt) (year_codes-digits (year + 1 + 1) (year + 1) [] tt)

-- The session that is written for a year of four digits, the next year too, is one that the check
-- of the configured terms accepts, and its two parts read as the year and the next.
pub session_of-read :
    (year : ℕ)
    → 1000 ≤ year
    → year < 9999
    → (session_ok (session_of year) ≡ true)
      × (map number (split_at b'/' (session_of year)) ≡ year ∷ (year + 1) ∷ [])
unfolding session_ok parts_ok
session_of-read year low high =
    let a = year_text-is_year year low (omega arith) in
    let b = year_text-is_year (year + 1) (omega arith) (omega arith) in
    let parts = session_of-parts year in
    (
      ap parts_ok parts
          ∙ rw (a, b, year_text-number year, year_text-number (year + 1)) (==_refl (year + 1)),
      ap (map number) parts ∙ rw (year_text-number year, year_text-number (year + 1)) refl,
    )
