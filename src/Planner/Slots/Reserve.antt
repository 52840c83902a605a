-- ===== src/Planner/Slots/Reserve.antt =====
-- app/services/planner/slots.py, `reserve_slots`. `ordered[cursor:]`, the references that are still
-- to be given out, is the list `free` of their positions in the day's slots.
pub mod Order
pub mod Laws
pub mod Week
use scholarscrib_backend.Planner.Days.{DayKey, iso_weekday}
use scholarscrib_backend.Planner.Slots.{
  Strength, preferred, pinned, SlotAllocation, sessions, Slot, UnreservedSession,
}
use scholarscrib_backend.Prelude.{
  ℕ, zero, suc, ◌-◌, Bool, true, false, not, ◌&&◌, String, str_eq, Option, none, some, List, [],
  ◌∷◌, ◌++◌, ◌==◌, if◌then◌else◌, text_leb, sort_by,
}
use scholarscrib_backend.Prelude.Dict

unfoldable pub settled_eq : DayKey × String → DayKey × String → Bool
settled_eq (d, s) (e, t) = d == e && str_eq s t

unfoldable pub by_weekday :
    List (ℕ × List SlotAllocation) → List SlotAllocation → List (ℕ × List SlotAllocation)
by_weekday found [] = found
by_weekday found (row ∷ rows) = by_weekday (Dict.append_to ◌==◌ found row.day row) rows

-- The order of the keys `(strength != "PINNED", subject_id)`.
key_le : Strength → Strength → Bool → Bool
key_le pinned preferred subjects_le = true
key_le preferred pinned subjects_le = false
key_le _ _ subjects_le = subjects_le

unfoldable pub row_le : SlotAllocation → SlotAllocation → Bool
unfolding key_le
row_le a b = key_le a.strength b.strength (text_leb a.subject_id b.subject_id)

-- The positions, from `i` on, of the slots that pass a test.
unfoldable pub positions : (Slot → Bool) → ℕ → List Slot → List ℕ
positions p i [] = []
positions p i (slot ∷ slots) =
    if p slot then i ∷ positions p (suc i) slots else positions p (suc i) slots

unfoldable pub is_plain : Slot → Bool
is_plain slot = not slot.short && not slot.catch_up

unfoldable pub is_catch_up : Slot → Bool
is_catch_up slot = not slot.short && slot.catch_up

-- Full slots, the catch-up slots last.
unfoldable pub ordered : List Slot → List ℕ
unfolding positions is_plain is_catch_up
ordered slots = positions is_plain 0 slots ++ positions is_catch_up 0 slots

-- The assignments to `slot.subject_id`, `slot.strength` and `slot.catch_up`, at a position.
unfoldable pub assign : List Slot → ℕ → SlotAllocation → List Slot
assign [] i row = []
assign (slot ∷ slots) zero row =
    record slot { subject_id = some row.subject_id; strength = some row.strength; catch_up = false }
    ∷ slots
assign (slot ∷ slots) (suc i) row = slot ∷ assign slots i row

pub record DayState : Type 0 where
  pub slots : List Slot
  pub free : List ℕ
  pub unreserved : List UnreservedSession

-- One round of the inner loop: the next free slot, or a session that found none.
reserve_at : List ℕ → DayKey → SlotAllocation → DayState → DayState
unfolding assign
reserve_at [] date row state = record state {
  unreserved =
      state.unreserved
      ++ record { date = date; subject_id = row.subject_id; strength = row.strength } ∷ [];
}
reserve_at (i ∷ rest) date row state = record state {
  slots = assign state.slots i row;
  free = rest;
}

unfoldable pub reserve_session : DayKey → SlotAllocation → DayState → DayState
unfolding reserve_at
reserve_session date row state = reserve_at state.free date row state

unfoldable pub reserve_times : DayKey → SlotAllocation → ℕ → DayState → DayState
unfolding reserve_session
reserve_times date row zero state = state
reserve_times date row (suc n) state = reserve_times date row n (reserve_session date row state)

abbrev pub Settled : Type 0
Settled = List ((DayKey × String) × ℕ)

-- max(0, row.sessions - settled.get((date, row.subject_id), 0))
unfoldable pub wanted : Settled → DayKey → SlotAllocation → ℕ
unfolding settled_eq
wanted settled date row = sessions row - Dict.get_or settled_eq settled (date, row.subject_id) 0

unfoldable pub reserve_rows : Settled → DayKey → List SlotAllocation → DayState → DayState
unfolding reserve_times wanted
reserve_rows settled date [] state = state
reserve_rows settled date (row ∷ rows) state =
    reserve_rows settled date rows (reserve_times date row (wanted settled date row) state)

unfoldable pub reserve_day : Settled → DayKey → List SlotAllocation → List Slot → DayState
unfolding reserve_rows ordered row_le
reserve_day settled date rows slots =
    reserve_rows settled date (sort_by row_le rows)
      (record { slots = slots; free = ordered slots; unreserved = [] })

abbrev pub Day : Type 0
Day = DayKey × List Slot

unfoldable pub reserve_days :
    List (ℕ × List SlotAllocation) → Settled → List Day → List Day × List UnreservedSession
unfolding reserve_day
reserve_days rows settled [] = ([], [])
reserve_days rows settled ((date, slots) ∷ days) =
    let state = reserve_day settled date (Dict.get_or ◌==◌ rows (iso_weekday date) []) slots in
    let (later, unreserved) = reserve_days rows settled days in
    ((date, state.slots) ∷ later, state.unreserved ++ unreserved)

-- The days with their slots reserved, and the sessions that found no slot.
unfoldable pub reserve_slots :
    List Day → List SlotAllocation → Settled → List Day × List UnreservedSession
unfolding by_weekday reserve_days
reserve_slots days allocations settled = reserve_days (by_weekday [] allocations) settled days
