-- ===== src/Planner/Slots/CatchUp.antt =====
-- app/services/planner/slots.py, `build_slots`: the weekly catch-up slot.
use scholarscrib_backend.Planner.Days.{DayKey, add_days, monday_of}
use scholarscrib_backend.Planner.Slots.{
  session_minutes, short_session_min, Availability, Slot, day_budget, new_slot, day_slots,
  slots_from, last_days, mark_catch_up, mark_all, build_slots,
}
use scholarscrib_backend.Prelude.{
  ℕ, zero, suc, ◌-◌, ◌*◌, ◌/◌, ◌≡◌, refl, sym, ap, ◌∙◌, ◌≢◌, inl, inr, Bool, true, false, ◌&&◌,
  ◌||◌, not, List, [], ◌∷◌, ◌++◌, arith, leb, ◌==◌, if◌then◌else◌, ==_iff, ==_refl, &&-true,
  Bool-cases, length, replicate, keep, any, All, All-append, All-map, pos,
}
use scholarscrib_backend.Prelude.Dict
use mathlib.Core.List.{append_assoc}

-- The number of catch-up slots in a week.
abbrev pub catch_ups : DayKey → List Slot → ℕ
catch_ups week slots = length (keep (λ slot. slot.catch_up && (monday_of slot.date == week)) slots)

-- Whether a week has a full slot.
abbrev pub has_full : DayKey → List Slot → Bool
has_full week slots = any (λ slot. not slot.short && (monday_of slot.date == week)) slots

abbrev full_on : DayKey → List Slot → Bool
full_on date slots = any (λ slot. (slot.date == date) && not slot.short) slots

mark_catch_up-full_on :
    (date other : DayKey) (slots : List Slot)
    → full_on other (mark_catch_up date slots) ≡ full_on other slots
unfolding mark_catch_up
mark_catch_up-full_on date other [] = refl
mark_catch_up-full_on date other (slot ∷ slots) =
    elim (Bool-cases (slot.date == date && not slot.short)) [
      | inl e ↦ rw e refl
      | inr e ↦ rw (e, mark_catch_up-full_on date other slots) refl
    ]

-- Marking a day gives its week one catch-up slot, if the week had none.
mark_catch_up-here :
    (date : DayKey) (slots : List Slot)
    → full_on date slots ≡ true
    → catch_ups (monday_of date) slots ≡ 0
    → catch_ups (monday_of date) (mark_catch_up date slots) ≡ 1
unfolding mark_catch_up
mark_catch_up-here date [] f h = cc
mark_catch_up-here date (slot ∷ slots) f h =
    elim (Bool-cases (slot.date == date && not slot.short)) [
      | inl e ↦
          let same = ap monday_of ((==_iff slot.date date).0 (&&-true e).0) in
          rw e (ground (arith, same))
      | inr e ↦ rw e (ground (arith, mark_catch_up-here date slots))
    ]

mark_catch_up-other :
    (date week : DayKey) (slots : List Slot)
    → monday_of date ≢ week
    → catch_ups week (mark_catch_up date slots) ≡ catch_ups week slots
unfolding mark_catch_up
mark_catch_up-other date week [] h = refl
mark_catch_up-other date week (slot ∷ slots) h =
    elim (Bool-cases (slot.date == date && not slot.short)) [
      | inl e ↦
          let same = ap monday_of ((==_iff slot.date date).0 (&&-true e).0) in
          rw e (ground (arith, same))
      | inr e ↦ rw e (ground (arith, mark_catch_up-other date week slots h))
    ]

-- The entries of `last_day`: each under the Monday of its day, each week once.
abbrev Keyed : List (DayKey × DayKey) → Type 0
Keyed found = All (λ e. monday_of e.1 ≡ e.0) found

abbrev Absent : DayKey → List (DayKey × DayKey) → Type 0
Absent week found = All (λ e. e.0 ≢ week) found

abbrev Once : List (DayKey × DayKey) → Type 0
Once [] = Unit
Once ((week, date) ∷ rest) = Absent week rest × Once rest

abbrev listed : DayKey → List (DayKey × DayKey) → Bool
listed week found = any (λ e. e.0 == week) found

put-Absent :
    (found : List (DayKey × DayKey)) (k w v : DayKey)
    → k ≢ w
    → Absent w found
    → Absent w (Dict.put ◌==◌ found k v)
put-Absent [] k w v h a = (h, tt)
put-Absent ((j, u) ∷ found) k w v h a = ground (arith, put-Absent found k w v h a.1, a.0)

put-Once :
    (found : List (DayKey × DayKey)) (k v : DayKey) → Once found → Once (Dict.put ◌==◌ found k v)
put-Once [] k v h = (tt, tt)
put-Once ((j, u) ∷ found) k v h = elim (Bool-cases (j == k)) [
  | inl e ↦ rw e h
  | inr e ↦ rw e (put-Absent found k j v (λ p. ground arith) h.0, put-Once found k v h.1)
]

put-All :
    (P : DayKey × DayKey → Type 0) (found : List (DayKey × DayKey)) (k v : DayKey)
    → ((j : DayKey) → (j == k) ≡ true → P (j, v))
    → P (k, v)
    → All P found
    → All P (Dict.put ◌==◌ found k v)
put-All P [] k v same new h = (new, tt)
put-All P ((j, u) ∷ found) k v same new h = elim (Bool-cases (j == k)) [
  | inl e ↦ rw e (same j e, h.1)
  | inr e ↦ rw e (h.0, put-All P found k v same new h.1)
]

put-listed :
    (found : List (DayKey × DayKey)) (k v week : DayKey)
    → listed week (Dict.put ◌==◌ found k v) ≡ ((k == week) || listed week found)
put-listed [] k v week = refl
put-listed ((j, u) ∷ found) k v week = ground (arith, put-listed found k v week)

record IsLastDays (slots : List Slot) (found : List (DayKey × DayKey)) : Type 0 where
  keyed : Keyed found
  once : Once found
  full : All (λ e. full_on e.1 slots ≡ true) found

-- The loop over the slots, the slots read so far being a part of `all`.
last_days-IsLastDays :
    (all : List Slot) (found : List (DayKey × DayKey)) (slots : List Slot)
    → IsLastDays all found
    → All (λ slot. slot.short ≡ false → full_on slot.date all ≡ true) slots
    → IsLastDays all (last_days found slots)
      × ((week : DayKey)
          → listed week (last_days found slots) ≡ (listed week found || has_full week slots))
unfolding last_days
last_days-IsLastDays all found [] h k = (h, λ week. ground arith)
last_days-IsLastDays all found (slot ∷ slots) h k = elim (Bool-cases slot.short) [
  | inl e ↦ rw e (last_days-IsLastDays all found slots h k.1)
  | inr e ↦
      let next =
        last_days-IsLastDays all (Dict.put ◌==◌ found (monday_of slot.date) slot.date) slots
          (record {
            keyed =
                put-All (λ x. monday_of x.1 ≡ x.0) found (monday_of slot.date) slot.date
                  (λ j p. ground arith) refl h.keyed;
            once = put-Once found (monday_of slot.date) slot.date h.once;
            full =
                put-All (λ x. full_on x.1 all ≡ true) found (monday_of slot.date) slot.date
                  (λ j p. k.0 e) (k.0 e) h.full;
          })
          k.1 in
      rw e (
        next.0,
        λ week.
            next.1 week ∙ rw (put-listed found (monday_of slot.date) slot.date week) (ground arith),
      )
]

Absent-listed :
    (week : DayKey) (found : List (DayKey × DayKey)) → Absent week found → listed week found ≡ false
Absent-listed week [] h = refl
Absent-listed week (e ∷ found) h = ground (arith, h.0, Absent-listed week found h.1)

IsLastDays-mark :
    (w date : DayKey) (rest : List (DayKey × DayKey)) (slots : List Slot)
    → IsLastDays slots ((w, date) ∷ rest)
    → IsLastDays (mark_catch_up date slots) rest
IsLastDays-mark w date rest slots h = record {
  keyed = h.keyed.1;
  once = h.once.1;
  full =
      All-map (λ e. full_on e.1 slots ≡ true) (λ e. full_on e.1 (mark_catch_up date slots) ≡ true)
        rest (λ e f. mark_catch_up-full_on date e.1 slots ∙ f) h.full.1;
}

still_none :
    (date w : DayKey) (slots : List Slot) (rest : List (DayKey × DayKey))
    → monday_of date ≡ w
    → Absent w rest
    → All (λ e. catch_ups e.0 slots ≡ 0) rest
    → All (λ e. catch_ups e.0 (mark_catch_up date slots) ≡ 0) rest
still_none date w slots [] m a z = tt
still_none date w slots (e ∷ rest) m a z = (
  mark_catch_up-other date e.0 slots (λ p. a.0 (sym p ∙ m)) ∙ z.0,
  still_none date w slots rest m a.1 z.1,
)

mark_all-catch_ups :
    (found : List (DayKey × DayKey)) (slots : List Slot) (week : DayKey)
    → IsLastDays slots found
    → All (λ e. catch_ups e.0 slots ≡ 0) found
    → catch_ups week (mark_all found slots)
      ≡ (if listed week found then 1 else catch_ups week slots)
unfolding mark_all
mark_all-catch_ups [] slots week h z = refl
mark_all-catch_ups ((w, date) ∷ rest) slots week h z =
    mark_all-catch_ups rest (mark_catch_up date slots) week (IsLastDays-mark w date rest slots h)
      (still_none date w slots rest h.keyed.0 h.once.0 z.1)
    ∙ elim (Bool-cases (w == week)) [
      | inl e ↦
          let same : w ≡ week = (==_iff w week).0 e in
          let one : catch_ups w (mark_catch_up date slots) ≡ 1 =
            rw (← h.keyed.0) (mark_catch_up-here date slots h.full.0 (rw h.keyed.0 z.0)) in
          rw (e, Absent-listed week rest (rw (← same) h.once.0))
            (ap (λ k. catch_ups k (mark_catch_up date slots)) (sym same) ∙ one)
      | inr e ↦ rw (e, mark_catch_up-other date week slots (λ p. ground (arith, h.keyed.0))) refl
    ]

none_marked :
    (week : DayKey) (slots : List Slot)
    → All (λ slot. slot.catch_up ≡ false) slots
    → catch_ups week slots ≡ 0
none_marked week [] h = refl
none_marked week (slot ∷ slots) h = ground (arith, h.0, none_marked week slots h.1)

replicate-unmarked :
    (n : ℕ) (date : DayKey)
    → All (λ slot. slot.catch_up ≡ false) (replicate n (new_slot date session_minutes false))
replicate-unmarked zero date = tt
replicate-unmarked (suc n) date = (refl, replicate-unmarked n date)

day_unmarked :
    (date : DayKey) (budget : ℕ) → All (λ slot. slot.catch_up ≡ false) (day_slots date budget)
unfolding day_slots
day_unmarked date budget =
    let rest = budget - budget / session_minutes * session_minutes in
    All-append (λ slot. slot.catch_up ≡ false)
      (replicate (budget / session_minutes) (new_slot date session_minutes false))
      (if leb short_session_min rest then new_slot date rest true ∷ [] else [])
      (replicate-unmarked (budget / session_minutes) date) (last (leb short_session_min rest))
  where
    last :
        (b : Bool)
        → All
            (λ slot. slot.catch_up ≡ false)
            (if b
              then new_slot date (budget - budget / session_minutes * session_minutes) true ∷ []
              else [])
    last true = (refl, tt)
    last false = tt

slots_from-unmarked :
    (start : DayKey) (offset days : ℕ) (availability : Availability)
    → All (λ slot. slot.catch_up ≡ false) (slots_from start offset days availability)
unfolding slots_from
slots_from-unmarked start offset zero availability = tt
slots_from-unmarked start offset (suc days) availability =
    let date = add_days start (pos offset) in
    All-append (λ slot. slot.catch_up ≡ false) (day_slots date (day_budget date availability))
      (slots_from start (suc offset) days availability)
      (day_unmarked date (day_budget date availability))
      (slots_from-unmarked start (suc offset) days availability)

self_full :
    (all before slots : List Slot)
    → before ++ slots ≡ all
    → All (λ slot. slot.short ≡ false → full_on slot.date all ≡ true) slots
self_full all before [] e = tt
self_full all before (slot ∷ slots) e = (
  λ s. rw (← e) (found before s),
  self_full all (before ++ slot ∷ []) slots (append_assoc before (slot ∷ []) slots ∙ e),
)
  where
    found : (l : List Slot) → slot.short ≡ false → full_on slot.date (l ++ slot ∷ slots) ≡ true
    found [] s = ground (arith, ==_refl slot.date)
    found (x ∷ l) s = ground (arith, found l s)

-- In the slots of a window each week has one catch-up slot if it has a full slot, and none
-- otherwise.
pub build_slots-catch_ups :
    (start : DayKey) (days : ℕ) (availability : Availability) (week : DayKey)
    → catch_ups week (build_slots start days availability)
      ≡ (if has_full week (slots_from start 0 days availability) then 1 else 0)
unfolding build_slots
build_slots-catch_ups start days availability week =
    let slots = slots_from start 0 days availability in
    let unmarked = slots_from-unmarked start 0 days availability in
    let last =
      last_days-IsLastDays slots [] slots (record { keyed = tt; once = tt; full = tt })
        (self_full slots [] slots refl) in
    mark_all-catch_ups (last_days [] slots) slots week last.0
      (all_none slots unmarked (last_days [] slots))
    ∙ rw (last.1 week, none_marked week slots unmarked) refl
  where
    all_none :
        (slots : List Slot)
        → All (λ slot. slot.catch_up ≡ false) slots
        → (l : List (DayKey × DayKey)) → All (λ e. catch_ups e.0 slots ≡ 0) l
    all_none slots u [] = tt
    all_none slots u (e ∷ l) = (none_marked e.0 slots u, all_none slots u l)
