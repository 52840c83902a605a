-- ===== src/Gamification/Ledger/Laws.antt =====
-- The XP ledger: no key is paid twice, the total grows by what was paid, and a replay pays nothing.
use scholarscrib_backend.Gamification.Rules.{Event, idempotency_key}
use scholarscrib_backend.Gamification.Ledger.{
  Row, Ledger, has_key, row_for, award, total, Award, award_of, pay_each,
}
use scholarscrib_backend.Prelude.{
  ℕ, ◌+◌, String, ◌≡◌, refl, ◌∙◌, ◌≢◌, inl, inr, Bool, true, false, ◌||◌, List, [], ◌∷◌, ◌++◌,
  arith, str_eq, eq_iff, if◌then◌else◌, Bool-cases, sum_of, sum_of-append,
}

has_key-append :
    (ledger : Ledger) (row : Row) (key : String)
    → has_key (ledger ++ row ∷ []) key ≡ (has_key ledger key || str_eq row.key key)
unfolding has_key
has_key-append [] row key = ground arith
has_key-append (r ∷ ledger) row key = ground (arith, has_key-append ledger row key)

total-append :
    (student_id : String) (ledger : Ledger) (row : Row)
    → total student_id (ledger ++ row ∷ [])
      ≡ total student_id ledger + (if str_eq row.student_id student_id then row.amount else 0)
unfolding total
total-append student_id [] row = ground arith
total-append student_id (r ∷ ledger) row = ground (arith, total-append student_id ledger row)

-- Each key stands once in the ledger.
abbrev pub UniqueKeys : Ledger → Type 0
UniqueKeys [] = Unit
UniqueKeys (row ∷ ledger) = (has_key ledger row.key ≡ false) × UniqueKeys ledger

append-UniqueKeys :
    (ledger : Ledger) (row : Row)
    → has_key ledger row.key ≡ false
    → UniqueKeys ledger
    → UniqueKeys (ledger ++ row ∷ [])
append-UniqueKeys [] row h u = (unfold has_key in refl, tt)
append-UniqueKeys (r ∷ ledger) row h u =
    let apart = tail_apart (unfold has_key in h) in
    (
      rw (has_key-append ledger row r.key, u.0) (other (str_eq row.key r.key) apart.0 refl),
      append-UniqueKeys ledger row apart.1 u.1,
    )
  where
    tail_apart :
        (str_eq r.key row.key || has_key ledger row.key) ≡ false
        → (str_eq r.key row.key ≡ false) × (has_key ledger row.key ≡ false)
    tail_apart e = ground arith

    other : (b : Bool) → str_eq r.key row.key ≡ false → str_eq row.key r.key ≡ b → b ≡ false
    other true f e = ground (arith, eq_iff row.key r.key, eq_iff r.key row.key)
    other false f e = refl

abbrev sum_awards : List Award → ℕ
sum_awards awards = sum_of (λ a. a.amount) awards

-- What a payment does: the keys stay unique, no key is lost, the student's total grows by exactly
-- the awards returned and no other student's total changes.
pub record IsPaid (student_id : String) (before after : Ledger) (awards : List Award) : Type 0 where
  pub unique : UniqueKeys before → UniqueKeys after
  pub keeps : (key : String) → has_key before key ≡ true → has_key after key ≡ true
  pub gained : total student_id after ≡ total student_id before + sum_awards awards
  pub others : (other : String) → other ≢ student_id → total other after ≡ total other before

pub IsPaid-none : (student_id : String) (ledger : Ledger) → IsPaid student_id ledger ledger []
IsPaid-none student_id ledger = record {
  unique = λ u. u;
  keeps = λ key h. h;
  gained = omega arith;
  others = λ other h. refl;
}

pub IsPaid-trans :
    (student_id : String) (a b c : Ledger) (xs ys : List Award)
    → IsPaid student_id a b xs
    → IsPaid student_id b c ys
    → IsPaid student_id a c (xs ++ ys)
IsPaid-trans student_id a b c xs ys h k = record {
  unique = λ u. k.unique (h.unique u);
  keeps = λ key p. k.keeps key (h.keeps key p);
  gained = omega (arith, h.gained, k.gained, sum_of-append {0} (λ (x : Award). x.amount) xs ys);
  others = λ other p. k.others other p ∙ h.others other p;
}

unfoldable pub award_list : Bool → Event → List Award
award_list paid event = if paid then award_of event ∷ [] else []

unlike : (student_id other : String) → other ≢ student_id → str_eq student_id other ≡ false
unlike student_id other h = ground (arith, eq_iff student_id other)

written-IsPaid :
    (event : Event) (student_id source : String) (ledger : Ledger)
    → has_key ledger (idempotency_key event student_id source) ≡ false
    → IsPaid student_id ledger
        (ledger ++ row_for event student_id source ∷ [])
        (award_of event ∷ [])
written-IsPaid event student_id source ledger e =
    let row = row_for event student_id source in
    record {
      unique = append-UniqueKeys ledger row e;
      keeps = λ key h. rw (has_key-append ledger row key, h) refl;
      gained =
          total-append student_id ledger row
          ∙ rw ((eq_iff student_id student_id).1 refl) (omega arith);
      others =
          λ other h. total-append other ledger row ∙ rw (unlike student_id other h) (omega arith);
    }

pub award-IsPaid :
    (event : Event) (student_id source : String) (ledger : Ledger)
    → IsPaid student_id ledger
        (award event student_id source ledger).0
        (award_list (award event student_id source ledger).1 event)
unfolding award award_list
award-IsPaid event student_id source ledger =
    elim (Bool-cases (has_key ledger (idempotency_key event student_id source))) [
      | inl e ↦ rw e (IsPaid-none student_id ledger)
      | inr e ↦ rw e (written-IsPaid event student_id source ledger e)
    ]

pub award-has_key :
    (event : Event) (student_id source : String) (ledger : Ledger)
    → has_key (award event student_id source ledger).0 (idempotency_key event student_id source)
      ≡ true
unfolding award
award-has_key event student_id source ledger =
    let key = idempotency_key event student_id source in
    elim (Bool-cases (has_key ledger key)) [
      | inl e ↦ rw e e
      | inr e ↦
          rw
            (
              e,
              has_key-append ledger (row_for event student_id source) key,
              e,
              (eq_iff key key).1 refl,
            )
            refl
    ]

pub award_again :
    (event : Event) (student_id source : String) (ledger : Ledger)
    → has_key ledger (idempotency_key event student_id source) ≡ true
    → award event student_id source ledger ≡ (ledger, false)
unfolding award
award_again event student_id source ledger h = rw h refl

pub pay_each-IsPaid :
    (event : Event) (student_id : String) (sources : List String) (ledger : Ledger)
    → IsPaid student_id ledger
        (pay_each event student_id sources ledger).0
        (pay_each event student_id sources ledger).1
unfolding pay_each award_list
pay_each-IsPaid event student_id [] ledger = IsPaid-none student_id ledger
pay_each-IsPaid event student_id (source ∷ sources) ledger =
    let written = (award event student_id source ledger).0 in
    IsPaid-trans student_id ledger written (pay_each event student_id sources written).0
      (award_list (award event student_id source ledger).1 event)
      (pay_each event student_id sources written).1 (award-IsPaid event student_id source ledger)
      (pay_each-IsPaid event student_id sources written)
