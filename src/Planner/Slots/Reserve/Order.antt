-- ===== src/Planner/Slots/Reserve/Order.antt =====
-- app/services/planner/slots.py: the positions in `ordered`, and what an assignment at one changes.
use scholarscrib_backend.Planner.Days.{DayKey}
use scholarscrib_backend.Planner.Slots.{SlotAllocation, Slot}
use scholarscrib_backend.Planner.Slots.Reserve.{positions, is_plain, is_catch_up, ordered, assign}
use scholarscrib_backend.Prelude.{
  ℕ, zero, suc, ◌+◌, ◌-◌, ◌≤◌, ◌≡◌, refl, ap, ◌≢◌, Bool, true, false, ◌&&◌, not, Option, none, some,
  List, [], ◌∷◌, ◌++◌, map, arith, if◌then◌else◌, length, keep, All, length-append, All-append,
  All-map, All-if,
}

abbrev pub is_none {ℓ} : {A : Type ℓ} → Option A → Bool
is_none none = true
is_none (some a) = false

abbrev pub is_full : Slot → Bool
is_full slot = not slot.short

abbrev pub is_reserved : Slot → Bool
is_reserved slot = not (is_none slot.subject_id)

abbrev pub full_count : List Slot → ℕ
full_count slots = length (keep is_full slots)

abbrev pub reserved_count : List Slot → ℕ
reserved_count slots = length (keep is_reserved slots)

-- A test of the slot at a position, false beyond the end.
abbrev pub test_at : (Slot → Bool) → List Slot → ℕ → Bool
test_at p [] i = false
test_at p (slot ∷ slots) zero = p slot
test_at p (slot ∷ slots) (suc i) = test_at p slots i

abbrev pub is_open : Slot → Bool
is_open slot = not slot.short && is_none slot.subject_id

abbrev pub Distinct : List ℕ → Type 0
Distinct [] = Unit
Distinct (i ∷ rest) = All (λ j. i ≢ j) rest × Distinct rest

Distinct-append :
    (xs ys : List ℕ)
    → Distinct xs
    → Distinct ys
    → All (λ x. All (λ y. x ≢ y) ys) xs
    → Distinct (xs ++ ys)
Distinct-append [] ys h k apart = k
Distinct-append (x ∷ xs) ys h k apart =
    (All-append (λ y. x ≢ y) xs ys h.0 apart.0, Distinct-append xs ys h.1 k apart.1)

shift_test :
    (p : Slot → Bool) (slot : Slot) (slots : List Slot) (i j : ℕ)
    → suc i ≤ j
    → test_at p slots (j - suc i) ≡ true
    → test_at p (slot ∷ slots) (j - i) ≡ true
shift_test p slot slots i j h t = let e : j - i ≡ suc (j - suc i) = omega arith in rw e t

-- Every position given out is past the start and passes the test.
abbrev Fits : (Slot → Bool) → ℕ → List Slot → ℕ → Type 0
Fits p i slots j = (i ≤ j) × (test_at p slots (j - i) ≡ true)

positions-Fits :
    (p : Slot → Bool) (i : ℕ) (slots : List Slot) → All (Fits p i slots) (positions p i slots)
unfolding positions
positions-Fits p i [] = tt
positions-Fits p i (slot ∷ slots) =
    All-if (Fits p i (slot ∷ slots)) (p slot) i (positions p (suc i) slots)
      (λ e. (omega arith, let z : i - i ≡ 0 = omega arith in rw z e))
      (All-map (Fits p (suc i) slots) (Fits p i (slot ∷ slots)) (positions p (suc i) slots)
        (λ j h. (omega arith, shift_test p slot slots i j h.0 h.1))
        (positions-Fits p (suc i) slots))

Distinct-if :
    (b : Bool) (i : ℕ) (rest : List ℕ)
    → All (λ j. i ≢ j) rest
    → Distinct rest
    → Distinct (if b then i ∷ rest else rest)
Distinct-if true i rest h k = (h, k)
Distinct-if false i rest h k = k

positions-Distinct : (p : Slot → Bool) (i : ℕ) (slots : List Slot) → Distinct (positions p i slots)
unfolding positions
positions-Distinct p i [] = tt
positions-Distinct p i (slot ∷ slots) =
    Distinct-if (p slot) i (positions p (suc i) slots)
      (All-map (Fits p (suc i) slots) (λ j. i ≢ j) (positions p (suc i) slots)
        (λ j h. omega (arith, h.0)) (positions-Fits p (suc i) slots))
      (positions-Distinct p (suc i) slots)

length-positions :
    (p : Slot → Bool) (i : ℕ) (slots : List Slot)
    → length (positions p i slots) ≡ length (keep p slots)
unfolding positions
length-positions p i [] = refl
length-positions p i (slot ∷ slots) = ground (arith, length-positions p (suc i) slots)

plain_not_catch_up :
    (slots : List Slot) (i : ℕ)
    → test_at is_plain slots i ≡ true
    → test_at is_catch_up slots i ≡ true
    → ⊥
unfolding is_plain is_catch_up
plain_not_catch_up [] i h k = cc
plain_not_catch_up (slot ∷ slots) zero h k = ground arith
plain_not_catch_up (slot ∷ slots) (suc i) h k = plain_not_catch_up slots i h k

at_zero :
    (p : Slot → Bool) (slots : List Slot) (j : ℕ) → Fits p 0 slots j → test_at p slots j ≡ true
at_zero p slots j h = let e : j ≡ j - 0 = omega arith in rw e h.1

-- No slot is given out twice.
pub ordered-Distinct : (slots : List Slot) → Distinct (ordered slots)
unfolding ordered
ordered-Distinct slots =
    let plain = positions is_plain 0 slots in
    let late = positions is_catch_up 0 slots in
    Distinct-append plain late (positions-Distinct is_plain 0 slots)
      (positions-Distinct is_catch_up 0 slots)
      (All-map (Fits is_plain 0 slots) (λ x. All (λ y. x ≢ y) late) plain
        (λ x h.
          All-map (Fits is_catch_up 0 slots) (λ y. x ≢ y) late
            (λ y k e.
              plain_not_catch_up slots x (at_zero is_plain slots x h)
                (rw e (at_zero is_catch_up slots y k)))
            (positions-Fits is_catch_up 0 slots))
        (positions-Fits is_plain 0 slots))

-- Each full slot is given out.
pub length-ordered : (slots : List Slot) → length (ordered slots) ≡ full_count slots
unfolding ordered
length-ordered slots = omega (
  arith,
  length-append {0} (positions is_plain 0 slots) (positions is_catch_up 0 slots),
  length-positions is_plain 0 slots,
  length-positions is_catch_up 0 slots,
  split slots,
)
  where
    split : (l : List Slot) → length (keep is_plain l) + length (keep is_catch_up l) ≡ full_count l
    split [] = omega arith
    split (slot ∷ l) = ground (arith, split l)

test_open :
    (p : Slot → Bool) (slots : List Slot) (i : ℕ)
    → ((slot : Slot) → p slot ≡ true → is_full slot ≡ true)
    → All (λ slot. is_reserved slot ≡ false) slots
    → test_at p slots i ≡ true
    → test_at is_open slots i ≡ true
test_open p [] i f h t = cc
test_open p (slot ∷ slots) zero f h t = ground (arith, f slot t, h.0)
test_open p (slot ∷ slots) (suc i) f h t = test_open p slots i f h.1 t

is_plain-is_full : (slot : Slot) → is_plain slot ≡ true → is_full slot ≡ true
unfolding is_plain
is_plain-is_full slot h = ground arith

is_catch_up-is_full : (slot : Slot) → is_catch_up slot ≡ true → is_full slot ≡ true
unfolding is_catch_up
is_catch_up-is_full slot h = ground arith

-- In a day with nothing reserved every position given out is that of a full slot with no subject.
pub ordered-open :
    (slots : List Slot)
    → All (λ slot. is_reserved slot ≡ false) slots
    → All (λ i. test_at is_open slots i ≡ true) (ordered slots)
unfolding ordered
ordered-open slots h =
    All-append (λ i. test_at is_open slots i ≡ true) (positions is_plain 0 slots)
      (positions is_catch_up 0 slots)
      (All-map (Fits is_plain 0 slots) (λ i. test_at is_open slots i ≡ true)
        (positions is_plain 0 slots)
        (λ i f. test_open is_plain slots i is_plain-is_full h (at_zero is_plain slots i f))
        (positions-Fits is_plain 0 slots))
      (All-map (Fits is_catch_up 0 slots) (λ i. test_at is_open slots i ≡ true)
        (positions is_catch_up 0 slots)
        (λ i f. test_open is_catch_up slots i is_catch_up-is_full h (at_zero is_catch_up slots i f))
        (positions-Fits is_catch_up 0 slots))

-- An assignment at an open position reserves one slot more, and leaves the other positions open.
pub reserved_count-assign :
    (slots : List Slot) (i : ℕ) (row : SlotAllocation)
    → test_at is_open slots i ≡ true
    → reserved_count (assign slots i row) ≡ suc (reserved_count slots)
unfolding assign
reserved_count-assign [] i row h = cc
reserved_count-assign (slot ∷ slots) zero row h = ground arith
reserved_count-assign (slot ∷ slots) (suc i) row h =
    ground (arith, reserved_count-assign slots i row h)

pub open-assign_ne :
    (slots : List Slot) (i j : ℕ) (row : SlotAllocation)
    → i ≢ j
    → test_at is_open (assign slots i row) j ≡ test_at is_open slots j
unfolding assign
open-assign_ne [] i j row h = refl
open-assign_ne (slot ∷ slots) zero zero row h = absurd (h refl)
open-assign_ne (slot ∷ slots) zero (suc j) row h = refl
open-assign_ne (slot ∷ slots) (suc i) zero row h = refl
open-assign_ne (slot ∷ slots) (suc i) (suc j) row h =
    open-assign_ne slots i j row (λ e. h (ap suc e))

-- What a reservation leaves alone.
abbrev pub shape : Slot → DayKey × ℕ × Bool
shape slot = (slot.date, slot.minutes, slot.short)

abbrev pub ShortFree : List Slot → Type 0
ShortFree slots = All (λ slot. (slot.short && is_reserved slot) ≡ false) slots

pub shape-assign :
    (slots : List Slot) (i : ℕ) (row : SlotAllocation)
    → map shape (assign slots i row) ≡ map shape slots
unfolding assign
shape-assign [] i row = refl
shape-assign (slot ∷ slots) zero row = refl
shape-assign (slot ∷ slots) (suc i) row = ap (λ l. shape slot ∷ l) (shape-assign slots i row)

pub assign-ShortFree :
    (slots : List Slot) (i : ℕ) (row : SlotAllocation)
    → test_at is_open slots i ≡ true
    → ShortFree slots
    → ShortFree (assign slots i row)
unfolding assign
assign-ShortFree [] i row h k = k
assign-ShortFree (slot ∷ slots) zero row h k = (ground arith, k.1)
assign-ShortFree (slot ∷ slots) (suc i) row h k = (k.0, assign-ShortFree slots i row h k.1)
