-- ===== src/Srs/Sync/Inserted.antt =====
-- app/services/srs/sync.py: what the loop over the incoming cards inserts, told by the dictionary of
-- the keys of the existing ones.
use scholarscrib_backend.Srs.Sync.{
  ExistingCard, IncomingCard, Cards, without, SyncState, sync_legacy, sync_found, sync_step,
  sync_loop,
}
use scholarscrib_backend.Prelude.{
  ℕ, suc, ◌+◌, ◌≤◌, String, ◌≡◌, refl, Bool, true, false, Option, none, some, List, [], ◌∷◌, arith,
  str_eq, if◌then◌else◌, length, sum_of, All, length-append, All-append,
}
use scholarscrib_backend.Prelude.Dict

-- No existing card has the key.
abbrev pub IsNew : Cards → IncomingCard → Type 0
IsNew keyed card = Dict.get str_eq keyed card.source_key ≡ none

abbrev pub counted : Option ExistingCard → ℕ
counted none = 0
counted (some card) = 1

-- The number of incoming cards that an existing card has the key of.
abbrev pub known : Cards → List IncomingCard → ℕ
known keyed cards = sum_of (λ card. counted (Dict.get str_eq keyed card.source_key)) cards

length-without :
    (found : Cards) (front : String) (card : ExistingCard)
    → Dict.get str_eq found front ≡ some card
    → length (without found front) + 1 ≡ length found
unfolding without
length-without [] front card h = cc
length-without ((f, c) ∷ found) front card h =
    go (str_eq f front) (length-without found front card) h
  where
    go :
        (b : Bool)
        → (Dict.get str_eq found front ≡ some card
            → length (without found front) + 1 ≡ length found)
        → (if b then some c else Dict.get str_eq found front) ≡ some card
        → length (if b then found else (f, c) ∷ without found front) + 1 ≡ suc (length found)
    go true k h = omega arith
    go false k h = omega (arith, k h)

-- What a step of the loop does to the inserted cards and to those that can be adopted.
abbrev Step : Cards → SyncState → ℕ → SyncState → Type 0
Step keyed state n next =
    All (IsNew keyed) next.plan.insert
    × (suc (length state.plan.insert) + length next.legacy
        ≤ length next.plan.insert + n + length state.legacy)
    × (length next.plan.insert + n ≤ suc (length state.plan.insert))

sync_legacy-insert :
    (keyed : Cards) (card : IncomingCard) (state : SyncState) (old : Option ExistingCard)
    → Dict.get str_eq state.legacy card.front ≡ old
    → IsNew keyed card
    → All (IsNew keyed) state.plan.insert
    → Step keyed state 0 (sync_legacy old card state)
unfolding sync_legacy
sync_legacy-insert keyed card state none f e h =
    let n = length-append {0} state.plan.insert (card ∷ []) in
    (
      All-append (IsNew keyed) state.plan.insert (card ∷ []) h (e, tt),
      omega (arith, n),
      omega (arith, n),
    )
sync_legacy-insert keyed card state (some old) f e h =
    (h, omega (arith, length-without state.legacy card.front old f), omega arith)

sync_found-insert :
    (keyed : Cards) (card : IncomingCard) (state : SyncState) (current : Option ExistingCard)
    → Dict.get str_eq keyed card.source_key ≡ current
    → All (IsNew keyed) state.plan.insert
    → Step keyed state (counted current) (sync_found current card state)
unfolding sync_found
sync_found-insert keyed card state none e h =
    sync_legacy-insert keyed card state (Dict.get str_eq state.legacy card.front) refl e h
sync_found-insert keyed card state (some current) e h = (h, omega arith, omega arith)

-- The loop inserts no known card, and all others but those that take a card by its front.
pub sync_loop-insert :
    (keyed : Cards) (cards : List IncomingCard) (state : SyncState)
    → All (IsNew keyed) state.plan.insert
    → All (IsNew keyed) (sync_loop keyed cards state).plan.insert
      × (length cards + length state.plan.insert
          ≤ length (sync_loop keyed cards state).plan.insert
            + known keyed cards
            + length state.legacy)
      × (length (sync_loop keyed cards state).plan.insert + known keyed cards
          ≤ length cards + length state.plan.insert)
unfolding sync_loop sync_step
sync_loop-insert keyed [] state h = (h, omega arith, omega arith)
sync_loop-insert keyed (card ∷ cards) state h =
    let current = Dict.get str_eq keyed card.source_key in
    let s = sync_found-insert keyed card state current refl h in
    let r = sync_loop-insert keyed cards (sync_found current card state) s.0 in
    (r.0, omega (arith, s.1, r.1), omega (arith, s.1, r.1))
