-- ===== src/Srs/Sync/Laws.antt =====
-- app/services/srs/sync.py: which cards of a deck are inserted and which are deleted, told by the
-- cards themselves.
use scholarscrib_backend.Srs.Sync.{ExistingCard, IncomingCard}
use scholarscrib_backend.Prelude.{
  ℕ, String, Bool, true, false, ◌&&◌, not, Option, none, some, List, str_eq, if◌then◌else◌, any,
  sum_of,
}
use scholarscrib_backend.Prelude.Dict

-- Whether a card has a key, an empty one being none.
abbrev pub has_key : ExistingCard → String → Bool
has_key card key = elim card.source_key [
  | none ↦ false
  | some own ↦ not (str_eq own "") && str_eq own key
]

-- Whether a card can be adopted by its front: it has a front and no key.
abbrev pub can_adopt : ExistingCard → Bool
can_adopt card =
    elim card.source_key [ none ↦ true | some own ↦ str_eq own "" ] && not (str_eq card.front "")

-- Whether a card has a key that no incoming card has.
abbrev pub is_lost : List IncomingCard → ExistingCard → Bool
is_lost incoming card = elim card.source_key [
  | none ↦ false
  | some own ↦ not (str_eq own "") && not (any (λ c. str_eq c.source_key own) incoming)
]

-- The number of incoming cards whose key an existing card has.
abbrev pub known_cards : List ExistingCard → List IncomingCard → ℕ
known_cards existing cards =
    sum_of (λ card. if any (λ c. has_key c card.source_key) existing then 1 else 0) cards

abbrev pub adoptable : List ExistingCard → ℕ
adoptable existing = sum_of (λ c. if can_adopt c then 1 else 0) existing

held : Option ExistingCard → Bool
held none = false
held (some card) = true
