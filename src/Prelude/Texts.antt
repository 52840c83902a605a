-- ===== src/Prelude/Texts.antt =====
-- Python's `str`: concatenation, `str(n)` of a natural number and the order of texts.
use Prim.Native.Nat.{ℕ, zero, suc, ◌/◌, ◌%◌, Ordering}
use Prim.Native.String.{String}
use Prim.Native.String
use mathlib.Core.Bool.{Bool, true, false, ◌&&◌, ◌||◌, not}
use mathlib.Core.Path.{◌≡◌, refl}
use mathlib.Core.List.{List}
use text.Mathlib.Text.{◌==◌ as str_eq}
use scholarscrib_backend.Prelude.Lists.{any}
use scholarscrib_backend.Prelude.Tests.{◌==◌, if◌then◌else◌}

infixr 66 ◌<>◌
abbrev pub ◌<>◌ : String → String → String
s <> t = String.◌++◌ s t

digit : ℕ → String
digit zero = "0"
digit (suc zero) = "1"
digit (suc (suc zero)) = "2"
digit (suc (suc (suc zero))) = "3"
digit (suc (suc (suc (suc zero)))) = "4"
digit (suc (suc (suc (suc (suc zero))))) = "5"
digit (suc (suc (suc (suc (suc (suc zero)))))) = "6"
digit (suc (suc (suc (suc (suc (suc (suc zero))))))) = "7"
digit (suc (suc (suc (suc (suc (suc (suc (suc zero)))))))) = "8"
digit _ = "9"

-- The fuel is the number itself, which is at least the number of its digits.
to_text_from : ℕ → ℕ → String → String
unfolding digit
to_text_from zero n acc = acc
to_text_from (suc fuel) n acc =
    let rest = to_text_from fuel (n / 10) (digit (n % 10) <> acc) in
    if n / 10 == 0 then digit (n % 10) <> acc else rest

-- str(n)
unfoldable pub to_text : ℕ → String
unfolding to_text_from
to_text n = to_text_from (suc n) n ""

-- s <= t
abbrev pub text_leb : String → String → Bool
text_leb s t = elim (String.compare s t) [ Ordering.gt ↦ false | _ ↦ true ]

-- `then_by` for texts.
abbrev pub then_by_text : String → String → Bool → Bool
then_by_text s t rest = text_leb s t && (not (text_leb t s) || rest)

-- `id in ids`
abbrev pub is_in : String → List String → Bool
is_in id ids = any (λ s. str_eq s id) ids

to_text_many : to_text 1050 ≡ "1050"
unfolding to_text
to_text_many = refl
