-- ===== src/Planner/Slots/Reserve/Week.antt =====
-- app/services/planner/slots.py, `reserve_slots` over a list of days.
use scholarscrib_backend.Planner.Days.{iso_weekday}
use scholarscrib_backend.Planner.Slots.{SlotAllocation}
use scholarscrib_backend.Planner.Slots.Reserve.{
  by_weekday, Settled, wanted, reserve_day, Day, reserve_days, reserve_slots,
}
use scholarscrib_backend.Planner.Slots.Reserve.Order.{is_reserved, full_count, reserved_count}
use scholarscrib_backend.Planner.Slots.Reserve.Laws.{reserve_day_lem}
use scholarscrib_backend.Prelude.{
  ℕ, ◌+◌, min, ◌≡◌, refl, sym, ap, ◌∙◌, Bool, true, false, List, [], ◌∷◌, ◌++◌, arith, ◌==◌,
  if◌then◌else◌, ==_iff, length, keep, sum_of, All, length-append,
}
use scholarscrib_backend.Prelude.Dict
use mathlib.Core.List.{append-nil, append_assoc}

get_or-put :
    {V : Type 0} (d : List (ℕ × V)) (k j : ℕ) (v w : V)
    → Dict.get_or ◌==◌ (Dict.put ◌==◌ d k v) j w ≡ (if k == j then v else Dict.get_or ◌==◌ d j w)
get_or-put [] k j v w = refl
get_or-put ((i, u) ∷ d) k j v w = ground (arith, get_or-put d k j v w)

abbrev pub of_weekday : ℕ → List SlotAllocation → List SlotAllocation
of_weekday day rows = keep (λ row. row.day == day) rows

by_weekday-get_or :
    (found : List (ℕ × List SlotAllocation)) (rows : List SlotAllocation) (day : ℕ)
    → Dict.get_or ◌==◌ (by_weekday found rows) day []
      ≡ Dict.get_or ◌==◌ found day [] ++ of_weekday day rows
unfolding by_weekday
by_weekday-get_or found [] day = sym (append-nil (Dict.get_or ◌==◌ found day []))
by_weekday-get_or found (row ∷ rows) day =
    by_weekday-get_or (Dict.append_to ◌==◌ found row.day row) rows day
    ∙ rw (get_or-put found row.day day (Dict.get_or ◌==◌ found row.day [] ++ row ∷ []) [])
        (here (row.day == day) refl)
  where
    old : List SlotAllocation
    old = Dict.get_or ◌==◌ found row.day []

    here :
        (b : Bool)
        → (row.day == day) ≡ b
        → (if b then old ++ row ∷ [] else Dict.get_or ◌==◌ found day []) ++ of_weekday day rows
          ≡ Dict.get_or ◌==◌ found day []
            ++ (if b then row ∷ of_weekday day rows else of_weekday day rows)
    here true e =
        let same : row.day ≡ day = (==_iff row.day day).0 e in
        append_assoc old (row ∷ []) (of_weekday day rows)
        ∙ ap (λ k. Dict.get_or ◌==◌ found k [] ++ row ∷ of_weekday day rows) same
    here false e = refl

-- What the timetable wants of a list of days.
abbrev pub wanted_in : Settled → List SlotAllocation → List Day → ℕ
wanted_in settled allocations [] = 0
wanted_in settled allocations ((date, slots) ∷ days) =
    sum_of (wanted settled date) (of_weekday (iso_weekday date) allocations)
    + wanted_in settled allocations days

abbrev pub NothingReserved : List Day → Type 0
NothingReserved days = All (λ day. All (λ slot. is_reserved slot ≡ false) day.1) days

-- What the full slots of each day can give.
abbrev pub given_in : Settled → List SlotAllocation → List Day → ℕ
given_in settled allocations [] = 0
given_in settled allocations ((date, slots) ∷ days) =
    min (sum_of (wanted settled date) (of_weekday (iso_weekday date) allocations))
      (full_count slots)
    + given_in settled allocations days

reserve_days_lem :
    (allocations : List SlotAllocation) (settled : Settled) (days : List Day)
    → NothingReserved days
    → (sum_of
          (λ day. reserved_count day.1)
          (reserve_days (by_weekday [] allocations) settled days).0
        ≡ given_in settled allocations days)
      × (length (reserve_days (by_weekday [] allocations) settled days).1
            + given_in settled allocations days
          ≡ wanted_in settled allocations days)
unfolding reserve_days
reserve_days_lem allocations settled [] h = omega arith
reserve_days_lem allocations settled ((date, slots) ∷ days) h =
    let rows = Dict.get_or ◌==◌ (by_weekday [] allocations) (iso_weekday date) [] in
    let day = reserve_day settled date rows slots in
    let later = reserve_days (by_weekday [] allocations) settled days in
    let ih = reserve_days_lem allocations settled days h.1 in
    let here = reserve_day_lem settled date rows slots h.0 in
    let e =
      ap (λ l. sum_of (wanted settled date) l)
        (by_weekday-get_or [] allocations (iso_weekday date)) in
    omega (arith, ih, here, e, length-append {0} day.unreserved later.1)

-- Sessions are never dropped silently: over all days, the slots reserved are those that each day
-- can give, and these and the reported sessions together are all that the timetable wants.
pub reserve_slots_lem :
    (days : List Day) (allocations : List SlotAllocation) (settled : Settled)
    → NothingReserved days
    → (sum_of (λ day. reserved_count day.1) (reserve_slots days allocations settled).0
        ≡ given_in settled allocations days)
      × (length (reserve_slots days allocations settled).1 + given_in settled allocations days
          ≡ wanted_in settled allocations days)
unfolding reserve_slots
reserve_slots_lem days allocations settled h = reserve_days_lem allocations settled days h
