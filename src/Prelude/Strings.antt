-- ===== src/Prelude/Strings.antt =====
-- The methods of Python's str that the services use, on ASCII characters.
use Prim.Native.Char.{Char, code}
use Prim.Native.Nat.{ℕ, zero, suc, ◌-◌}
use Prim.Native.String.{String, [], ◌∷◌, char_at}
use mathlib.Core.Bool.{Bool, ◌&&◌, ◌||◌}
use scholarscrib_backend.Prelude.Tests.{leb, ◌==◌, if◌then◌else◌}

-- A white space of `str.strip`.
unfoldable pub is_space : Char → Bool
is_space c =
    code c == 32 || (leb 9 (code c) && leb (code c) 13 || leb 28 (code c) && leb (code c) 31)

-- str.lstrip
unfoldable pub lstrip : String → String
unfolding is_space
lstrip [] = []
lstrip (c ∷ text) = let rest = lstrip text in if is_space c then rest else c ∷ text

unfoldable pub turned : String → String → String
turned done [] = done
turned done (c ∷ text) = turned (c ∷ done) text

unfoldable pub strip : String → String
unfolding lstrip turned
strip text = turned "" (lstrip (turned "" (lstrip text)))

unfoldable pub lower_char : Char → Char
lower_char c =
    if leb 65 (code c) && leb (code c) 90
    then char_at "abcdefghijklmnopqrstuvwxyz" (code c - 65)
    else c

unfoldable pub lower : String → String
unfolding lower_char
lower [] = []
lower (c ∷ text) = lower_char c ∷ lower text

-- text[:count]
unfoldable pub prefix : ℕ → String → String
prefix zero text = ""
prefix (suc count) [] = ""
prefix (suc count) (c ∷ text) = c ∷ prefix count text
