-- ===== src/Billing/Settlement.antt =====
-- app/services/billing/rules.py, `settlement_outcome`: what a verified payment does to its row.
-- Currency codes are texts of ASCII codes.
use scholarscrib_backend.Billing.Tiers.{Status, pending, active, abandoned, failed, revoked}
use scholarscrib_backend.Prelude.{
  ℕ, ◌-◌, ◌≡◌, refl, ◌↔◌, Bool, true, false, ◌&&◌, not, Option, none, some, List, [], ◌∷◌, map,
  arith, leb, ◌==◌, if◌then◌else◌, ==_iff, ==_refl, &&-true,
}

abbrev pub Code : Type 0
Code = List ℕ

unfoldable pub to_upper : ℕ → ℕ
to_upper c = if leb b'a' c && leb c b'z' then c - 32 else c

unfoldable pub upper : Code → Code
unfolding to_upper
upper code = map to_upper code

unfoldable pub code_eq : Code → Code → Bool
code_eq [] [] = true
code_eq (a ∷ xs) (b ∷ ys) = (a == b) && code_eq xs ys
code_eq _ _ = false

abbrev pub ngn : Code
ngn = b'N' ∷ b'G' ∷ b'N' ∷ []

-- `currency or default`: None and the empty text give the default.
unfoldable pub or_else : Option Code → Code → Code
or_else none default = default
or_else (some []) default = default
or_else (some (c ∷ code)) default = c ∷ code

unfoldable pub amount_eq : Option ℕ → Option ℕ → Bool
amount_eq none none = true
amount_eq (some a) (some b) = a == b
amount_eq _ _ = false

pub data Outcome : Type 0 where
  unknown_reference already_applied not_successful amount_mismatch currency_mismatch : Outcome
  not_pending activate : Outcome

pub record Transaction : Type 0 where
  pub success : Bool
  pub amount : Option ℕ
  pub currency : Option Code

-- `row_status in {"PENDING", "ABANDONED"}`
unfoldable pub is_open : Status → Bool
is_open pending = true
is_open abandoned = true
is_open active = false
is_open failed = false
is_open revoked = false

is_applied : Status → Bool
is_applied active = true
is_applied _ = false

unfoldable pub settle_row : Status → Option ℕ → Option Code → Transaction → Outcome
unfolding is_open is_applied amount_eq code_eq
settle_row status amount currency transaction =
    if is_applied status
    then already_applied
    else if not transaction.success
    then not_successful
    else if not (amount_eq transaction.amount amount)
    then amount_mismatch
    else if not (code_eq (upper (or_else transaction.currency [])) (upper (or_else currency ngn)))
    then currency_mismatch
    else if not (is_open status)
    then not_pending
    else activate

unfoldable pub settlement_outcome : Option Status → Option ℕ → Option Code → Transaction → Outcome
unfolding settle_row
settlement_outcome none amount currency transaction = unknown_reference
settlement_outcome (some status) amount currency transaction =
    settle_row status amount currency transaction

pub code_eq_same : (a : Code) → code_eq a a ≡ true
unfolding code_eq
code_eq_same [] = refl
code_eq_same (a ∷ xs) = rw (==_refl a, code_eq_same xs) refl

pub code_eq→eq : (a b : Code) → code_eq a b ≡ true → a ≡ b
unfolding code_eq
code_eq→eq [] [] h = refl
code_eq→eq [] (b ∷ ys) h = cc
code_eq→eq (a ∷ xs) [] h = cc
code_eq→eq (a ∷ xs) (b ∷ ys) h =
    let p : ((a == b) ≡ true) × (code_eq xs ys ≡ true) = &&-true h in
    cc ((==_iff a b).0 p.0, code_eq→eq xs ys p.1)

amount_eq_iff : (a b : Option ℕ) → (amount_eq a b ≡ true) ↔ (a ≡ b)
unfolding amount_eq
amount_eq_iff none none = (λ h. refl, λ h. refl)
amount_eq_iff none (some b) = (λ h. cc, λ h. cc)
amount_eq_iff (some a) none = (λ h. cc, λ h. cc)
amount_eq_iff (some a) (some b) = (λ h. ground arith, λ h. ground arith)

-- What a payment must be to turn its row on.
pub record MayActivate (status : Status) (amount : Option ℕ) (currency : Option Code)
    (transaction : Transaction) : Type 0 where
  pub is_waiting : is_open status ≡ true
  pub paid : transaction.success ≡ true
  pub same_amount : transaction.amount ≡ amount
  pub same_currency : upper (or_else transaction.currency []) ≡ upper (or_else currency ngn)

module _ (status : Status) (amount : Option ℕ) (currency : Option Code)
    (transaction : Transaction) where
  settle_tests : (settle_row status amount currency transaction ≡ activate) ↔ (
      (is_open status ≡ true)
      × (transaction.success ≡ true)
      × (amount_eq transaction.amount amount ≡ true)
      × (code_eq (upper (or_else transaction.currency [])) (upper (or_else currency ngn)) ≡ true))
  unfolding settle_row
  settle_tests = (λ h. ground arith, λ h. ground arith)

  -- A row is activated exactly when it is pending or abandoned and the transaction succeeded, with
  -- the amount of the row and, in any casing, its currency (naira where the row names none).
  pub settlement_outcome-activate :
      (settlement_outcome (some status) amount currency transaction ≡ activate)
      ↔ MayActivate status amount currency transaction
  unfolding settlement_outcome
  settlement_outcome-activate = (
    λ h.
        let t = settle_tests.0 h in
        record {
          is_waiting = t.0;
          paid = t.1;
          same_amount = (amount_eq_iff transaction.amount amount).0 t.2;
          same_currency = code_eq→eq _ _ t.3;
        },
    λ m. settle_tests.1 (
      m.is_waiting,
      m.paid,
      (amount_eq_iff transaction.amount amount).1 m.same_amount,
      rw m.same_currency (code_eq_same (upper (or_else currency ngn))),
    ),
  )
