-- ===== src/RateLimit.antt =====
-- app/core/rate_limit.py: the fixed-window limiter. The clock counts microseconds; the dictionary
-- `_memory` is passed from hit to hit, and the answer of Redis is an argument.
pub mod Allowed
use scholarscrib_backend.Prelude.{
  drop, ℕ, zero, suc, ◌+◌, ◌-◌, ◌*◌, ◌/◌, max, String, Bool, true, false, ◌||◌, Option, none, some,
  List, [], ◌∷◌, str_eq, ltb, leb, if◌then◌else◌, length, keep,
}
use scholarscrib_backend.Prelude.Dict

abbrev pub window_cap : ℕ
window_cap = 10000

abbrev pub ticks : ℕ
ticks = 1000000

pub record Window : Type 0 where
  pub count : ℕ
  pub reset_at : ℕ

abbrev pub Memory : Type 0
Memory = List (String × Window)

-- The entries that have not expired.
unfoldable pub live : ℕ → Memory → Memory
live now memory = keep (λ e. ltb now e.1.reset_at) memory

-- The oldest entries go when too many are left.
unfoldable pub trim : Memory → Memory
trim memory =
    if leb window_cap (length memory) then drop (length memory - window_cap + 1) memory else memory

-- _sweep
unfoldable pub sweep : ℕ → Memory → Memory
unfolding live trim
sweep now memory = if ltb (length memory) window_cap then memory else trim (live now memory)

pub record Answer : Type 0 where
  pub allowed : Bool
  pub retry : ℕ

pub record Hit : Type 0 where
  pub key : String
  pub limit : ℕ
  pub window_seconds : ℕ
  pub now : ℕ

unfoldable pub open_window : Hit → Memory → Memory × Answer
open_window hit memory = (
  Dict.put str_eq memory hit.key
      (record { count = 1; reset_at = hit.now + hit.window_seconds * ticks }),
  record { allowed = true; retry = hit.window_seconds },
)

unfoldable pub count_hit : Hit → Window → Memory → Memory × Answer
count_hit hit current memory = (
  Dict.put str_eq memory hit.key (record current { count = current.count + 1 }),
  record {
    allowed = leb (current.count + 1) 1 || leb (current.count + 1) hit.limit;
    retry = max 1 ((current.reset_at - hit.now) / ticks);
  },
)

unfoldable pub hit_window : Hit → Option Window → Memory → Memory × Answer
unfolding open_window count_hit
hit_window hit none memory = open_window hit memory
hit_window hit (some current) memory =
    if leb current.reset_at hit.now then open_window hit memory else count_hit hit current memory

-- _memory_hit
unfoldable pub memory_hit : Hit → Memory → Memory × Answer
unfolding sweep hit_window
memory_hit hit memory =
    let swept = sweep hit.now memory in hit_window hit (Dict.get str_eq swept hit.key) swept

-- What `_redis_hit` makes of the count that Redis returns, if it returns one.
unfoldable pub redis_answer : Hit → ℕ → Answer
redis_answer hit count = record {
  allowed = leb count 1 || leb count hit.limit;
  retry = hit.window_seconds;
}

pub data Verdict : Type 0 where
  pass : Verdict
  -- RateLimited(retry), whose retry is a second at least
  rate_limited : ℕ → Verdict

unfoldable pub verdict : Answer → Verdict
verdict answer = if answer.allowed then pass else rate_limited (max 1 answer.retry)

abbrev judged : Memory × Answer → Memory × Verdict
judged (memory, answer) = (memory, verdict answer)

-- `hit`
unfoldable pub check_hit : Hit → Option ℕ → Memory → Memory × Verdict
unfolding memory_hit redis_answer verdict
check_hit hit (some count) memory = (memory, verdict (redis_answer hit count))
check_hit hit none memory = judged (memory_hit hit memory)
