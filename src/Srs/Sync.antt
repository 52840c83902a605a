-- ===== src/Srs/Sync.antt =====
-- app/services/srs/sync.py: how regenerated cards are merged into a lesson's shared deck. Of an
-- incoming card the plan reads the key and the front; the rest of its content is `content`.
pub mod Inserted
pub mod Laws
use scholarscrib_backend.Prelude.{
  String, Bool, false, not, Option, none, some, List, [], ◌∷◌, ◌++◌, map, str_eq, if◌then◌else◌,
  keep, any,
}
use scholarscrib_backend.Prelude.Dict

pub record ExistingCard : Type 0 where
  pub id : String
  pub source_key : Option String
  pub front : String

pub record IncomingCard : Type 0 where
  pub source_key : String
  pub front : String
  pub content : String

pub record CardSyncPlan : Type 0 where
  pub update : List (String × IncomingCard)
  pub adopt : List (String × String)
  pub insert : List IncomingCard
  pub delete : List String

-- The key of a card, if it is set and not empty.
unfoldable pub key_of : Option String → Option String
key_of none = none
key_of (some key) = if str_eq key "" then none else some key

abbrev pub Cards : Type 0
Cards = List (String × ExistingCard)

unfoldable pub put_key : Option String → ExistingCard → Cards → Cards
put_key none card found = found
put_key (some key) card found = Dict.put str_eq found key card

unfoldable pub by_key : Cards → List ExistingCard → Cards
unfolding put_key key_of
by_key found [] = found
by_key found (card ∷ cards) = by_key (put_key (key_of card.source_key) card found) cards

-- setdefault: the first card with a front stays.
abbrev put_default : Cards → String → ExistingCard → Cards
put_default found front card = elim (Dict.get str_eq found front) [
  | none ↦ found ++ (front, card) ∷ []
  | some _ ↦ found
]

unfoldable pub put_legacy : Option String → ExistingCard → Cards → Cards
put_legacy (some key) card found = found
put_legacy none card found =
    if str_eq card.front "" then found else put_default found card.front card

unfoldable pub legacy_by_front : Cards → List ExistingCard → Cards
unfolding put_legacy key_of
legacy_by_front found [] = found
legacy_by_front found (card ∷ cards) =
    legacy_by_front (put_legacy (key_of card.source_key) card found) cards

-- The dictionary without a key.
unfoldable pub without : Cards → String → Cards
without [] front = []
without ((f, card) ∷ found) front =
    if str_eq f front then found else (f, card) ∷ without found front

pub record SyncState : Type 0 where
  pub plan : CardSyncPlan
  pub legacy : Cards

-- A card without a counterpart by key takes the card with its front, or is inserted.
unfoldable pub sync_legacy : Option ExistingCard → IncomingCard → SyncState → SyncState
unfolding without
sync_legacy (some old) card state = record {
  plan = record state.plan {
    adopt = Dict.put str_eq state.plan.adopt old.id card.source_key;
    update = Dict.put str_eq state.plan.update old.id card;
  };
  legacy = without state.legacy card.front;
}
sync_legacy none card state = record state {
  plan = record state.plan { insert = state.plan.insert ++ card ∷ [] };
}

unfoldable pub sync_found : Option ExistingCard → IncomingCard → SyncState → SyncState
unfolding sync_legacy
sync_found (some current) card state = record state {
  plan = record state.plan { update = Dict.put str_eq state.plan.update current.id card };
}
sync_found none card state = sync_legacy (Dict.get str_eq state.legacy card.front) card state

unfoldable pub sync_step : Cards → IncomingCard → SyncState → SyncState
unfolding sync_found
sync_step keyed card state = sync_found (Dict.get str_eq keyed card.source_key) card state

unfoldable pub sync_loop : Cards → List IncomingCard → SyncState → SyncState
unfolding sync_step
sync_loop keyed [] state = state
sync_loop keyed (card ∷ cards) state = sync_loop keyed cards (sync_step keyed card state)

-- A card whose key is not among the incoming keys.
unfoldable pub is_gone : List IncomingCard → Option String → Bool
is_gone incoming none = false
is_gone incoming (some key) = not (any (λ card. str_eq card.source_key key) incoming)

unfoldable pub deleted : List ExistingCard → List IncomingCard → List String
unfolding is_gone key_of
deleted existing incoming =
    map (λ card. card.id) (keep (λ card. is_gone incoming (key_of card.source_key)) existing)

unfoldable pub plan_card_sync : List ExistingCard → List IncomingCard → CardSyncPlan
unfolding by_key legacy_by_front sync_loop deleted
plan_card_sync existing incoming =
    let state = sync_loop (by_key [] existing) incoming (record {
      plan = record { update = []; adopt = []; insert = []; delete = [] };
      legacy = legacy_by_front [] existing;
    }) in
    record state.plan { delete = deleted existing incoming }
