-- ===== src/Examples/RateLimit.antt =====
-- Runs of RateLimit at concrete hits.
use scholarscrib_backend.Prelude.{ℕ, ◌*◌, String, none, List, [], ◌∷◌, ◌≡◌, refl, arith}
use scholarscrib_backend.RateLimit.{ticks, Memory, Hit, memory_hit, rate_limited, check_hit}
use scholarscrib_backend.RateLimit.Allowed.{allowed_on, memory_hit-limit}

abbrev at_second : ℕ → String → Hit
at_second second key = record { key = key; limit = 2; window_seconds = 60; now = second * ticks }

-- The window of "login:1" is over when the first hit comes.
abbrev one_old : Memory
one_old = ("login:1", record { count = 9; reset_at = 60 * ticks }) ∷ []

abbrev later_hits : List Hit
later_hits =
    at_second 61 "login:1"
    ∷ at_second 62 "login:2"
    ∷ at_second 70 "login:1"
    ∷ at_second 119 "login:1"
    ∷ []

memory_hit-limit_example : allowed_on "login:1" (at_second 60 "login:1" ∷ later_hits) one_old ≡ 2
memory_hit-limit_example =
    memory_hit-limit (at_second 60 "login:1") later_hits one_old refl (omega arith)
      (omega arith, (omega arith, (omega arith, (omega arith, tt))))
      ((λ e. refl), ((λ e. refl), ((λ e. refl), ((λ e. refl), tt))))

-- The third hit of a window is refused until the window ends.
third_is_limited :
    (check_hit
      (at_second 70 "login:1")
      none
      (memory_hit (at_second 61 "login:1") (memory_hit (at_second 60 "login:1") one_old).0).0).1
    ≡ rate_limited 50
unfolding check_hit memory_hit
third_is_limited = refl
