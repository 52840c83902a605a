-- ===== src/Prelude/Dict.antt =====
-- Python's `dict` as an association list in insertion order, over a Boolean equality of keys.
pub mod Laws
use mathlib.Core.Bool.{Bool}
use mathlib.Core.List.{List, [], ◌∷◌, ◌++◌}
use mathlib.Core.Option.{Option, none, some}
use scholarscrib_backend.Prelude.Tests.{if◌then◌else◌}

module _ {ℓ κ} {K : Type ℓ} {V : Type κ} (eq : K → K → Bool) where
  -- d.get(k)
  abbrev pub get : List (K × V) → K → Option V
  get [] k = none
  get ((j, v) ∷ d) k = if eq j k then some v else get d k

  -- d.get(k, default)
  abbrev pub get_or : List (K × V) → K → V → V
  get_or [] k v = v
  get_or ((j, w) ∷ d) k v = if eq j k then w else get_or d k v

  -- d[k] = v
  abbrev pub put : List (K × V) → K → V → List (K × V)
  put [] k v = (k, v) ∷ []
  put ((j, w) ∷ d) k v = if eq j k then (j, v) ∷ d else (j, w) ∷ put d k v

module _ {ℓ κ} {K : Type ℓ} {V : Type κ} (eq : K → K → Bool) where
  -- d.setdefault(k, []).append(v)
  abbrev pub append_to : List (K × List V) → K → V → List (K × List V)
  append_to d k v = put eq d k (get_or eq d k [] ++ v ∷ [])
