-- ===== src/RateLimit/Allowed.antt =====
-- app/core/rate_limit.py: how many hits a window allows, and how many windows are remembered.
use scholarscrib_backend.Prelude.{
  drop, ℕ, zero, suc, ◌+◌, ◌-◌, ◌≤◌, ◌<◌, ◌*◌, max, min, String, ◌≡◌, refl, ◌∙◌, ap, inl, inr, Bool,
  true, false, Option, none, some, List, [], ◌∷◌, arith, str_eq, eq_iff, ltb, leb, if◌then◌else◌,
  Bool-cases, length, sum_of, All,
}
use scholarscrib_backend.Prelude.Dict
use scholarscrib_backend.RateLimit.{
  window_cap, ticks, Window, Memory, live, trim, sweep, Hit, open_window, count_hit, hit_window,
  memory_hit,
}

length-put : (d : Memory) (k : String) (w : Window) → length (Dict.put str_eq d k w) ≤ length d + 1
length-put [] k w = omega arith
length-put (e ∷ d) k w = elim (Bool-cases (str_eq e.0 k)) [
  | inl h ↦ rw h (omega arith)
  | inr h ↦ rw h (omega (arith, length-put d k w))
]

get-put :
    (d : Memory) (k j : String) (w : Window)
    → Dict.get str_eq (Dict.put str_eq d k w) j
      ≡ (if str_eq k j then some w else Dict.get str_eq d j)
get-put [] k j w = refl
get-put ((i, v) ∷ d) k j w = ground (arith, eq_iff k j, eq_iff i k, eq_iff i j, get-put d k j w)

length-drop : (n : ℕ) (xs : Memory) → length (drop n xs) ≡ length xs - n
length-drop zero xs = omega arith
length-drop (suc n) [] = omega arith
length-drop (suc n) (x ∷ xs) = omega (arith, length-drop n xs)

length-trim : (memory : Memory) → length (trim memory) < window_cap
unfolding trim
length-trim memory = elim (Bool-cases (leb window_cap (length memory))) [
  | inl e ↦ rw e (
      let gone = length-drop (length memory - window_cap + 1) memory in
      let full : window_cap ≤ length memory = ground arith in omega arith)
  | inr e ↦ rw e (ground arith)
]

length-sweep : (now : ℕ) (memory : Memory) → length (sweep now memory) < window_cap
unfolding sweep
length-sweep now memory = elim (Bool-cases (ltb (length memory) window_cap)) [
  | inl e ↦ rw e (ground arith)
  | inr e ↦ rw e (length-trim (live now memory))
]

length-hit_window :
    (hit : Hit) (o : Option Window) (memory : Memory)
    → length (hit_window hit o memory).0 ≤ length memory + 1
unfolding hit_window open_window count_hit
length-hit_window hit none memory = length-put memory hit.key _
length-hit_window hit (some current) memory = elim (Bool-cases (leb current.reset_at hit.now)) [
  | inl e ↦ rw e (length-put memory hit.key _)
  | inr e ↦ rw e (length-put memory hit.key _)
]

-- The memory never holds more windows than the cap, however full it was before.
pub length-memory_hit :
    (hit : Hit) (memory : Memory) → length (memory_hit hit memory).0 ≤ window_cap
unfolding memory_hit
length-memory_hit hit memory = omega (
  arith,
  length-sweep hit.now memory,
  length-hit_window hit (Dict.get str_eq (sweep hit.now memory) hit.key) (sweep hit.now memory),
)

-- How many hits there are on a key, and how many of them are allowed.
abbrev pub hits_on : String → List Hit → ℕ
hits_on key hits = sum_of (λ hit. if str_eq hit.key key then 1 else 0) hits

abbrev pub one_if : Bool → Bool → ℕ
one_if true true = 1
one_if true false = 0
one_if false allowed = 0

abbrev pub allowed_on : String → List Hit → Memory → ℕ
allowed_on key [] memory = 0
allowed_on key (hit ∷ hits) memory =
    one_if (str_eq hit.key key) (memory_hit hit memory).1.allowed
    + allowed_on key hits (memory_hit hit memory).0

unswept :
    (hit : Hit) (memory : Memory)
    → length memory < window_cap
    → memory_hit hit memory ≡ hit_window hit (Dict.get str_eq memory hit.key) memory
unfolding memory_hit sweep
unswept hit memory l = let e : ltb (length memory) window_cap ≡ true = ground arith in rw e refl

get-hit_window :
    (hit : Hit) (o : Option Window) (memory : Memory) (key : String)
    → str_eq hit.key key ≡ false
    → Dict.get str_eq (hit_window hit o memory).0 key ≡ Dict.get str_eq memory key
unfolding hit_window open_window count_hit
get-hit_window hit none memory key n = rw (get-put memory hit.key key _, n) refl
get-hit_window hit (some w) memory key n = elim (Bool-cases (leb w.reset_at hit.now)) [
  | inl e ↦ rw (e, get-put memory hit.key key _, n) refl
  | inr e ↦ rw (e, get-put memory hit.key key _, n) refl
]

counted :
    (hit : Hit) (w : Window) (memory : Memory) (key : String)
    → str_eq hit.key key ≡ true
    → hit.now < w.reset_at
    → 1 ≤ w.count
    → (Dict.get str_eq (hit_window hit (some w) memory).0 key
        ≡ some (record w { count = w.count + 1 }))
      × ((hit_window hit (some w) memory).1.allowed ≡ leb (w.count + 1) hit.limit)
unfolding hit_window count_hit
counted hit w memory key i l p =
    let e : leb w.reset_at hit.now ≡ false = ground arith in
    let f : leb (w.count + 1) 1 ≡ false = ground arith in
    rw e (rw (get-put memory hit.key key _, i, f) (refl, refl))

one_more :
    (n l limit c : ℕ)
    → l ≡ limit
    → one_if true (leb (c + 1) l) + min n (limit - (c + 1)) ≡ min (1 + n) (limit - c)
one_more n l limit c same = elim (Bool-cases (leb (c + 1) l)) [
  | inl e ↦ rw e (ground arith)
  | inr e ↦ rw e (ground arith)
]

-- Once a window is open, as many of its hits are allowed as its limit has left.
open_lem :
    (key : String) (limit : ℕ) (hits : List Hit) (memory : Memory) (w : Window)
    → Dict.get str_eq memory key ≡ some w
    → 1 ≤ w.count
    → length memory + length hits ≤ window_cap
    → All (λ h. h.now < w.reset_at) hits
    → All (λ h. str_eq h.key key ≡ true → h.limit ≡ limit) hits
    → allowed_on key hits memory ≡ min (hits_on key hits) (limit - w.count)
open_lem key limit [] memory w g p l n e = omega arith
open_lem key limit (hit ∷ hits) memory w g p l (n, ns) (e, es) =
    let o = unswept hit memory (omega arith) in
    elim (Bool-cases (str_eq hit.key key)) [
      | inl i ↦
          let found : Dict.get str_eq memory hit.key ≡ some w =
            ap (Dict.get str_eq memory) ((eq_iff hit.key key).0 i) ∙ g in
          let now_open = counted hit w memory key i n p in
          rw (i, o, found, now_open.1)
            (rw
              (open_lem key limit hits (hit_window hit (some w) memory).0
                (record w { count = w.count + 1 }) now_open.0 (omega arith)
                (omega (arith, length-hit_window hit (some w) memory)) ns es)
              (one_more (hits_on key hits) hit.limit limit w.count (e i)))
      | inr i ↦
          rw (i, o)
            (omega (
              arith,
              open_lem key limit hits (hit_window hit (Dict.get str_eq memory hit.key) memory).0 w
                  (get-hit_window hit (Dict.get str_eq memory hit.key) memory key i ∙ g) p
                  (omega (arith, length-hit_window hit (Dict.get str_eq memory hit.key) memory)) ns
                  es,
            ))
    ]

-- Whether a hit at this time finds no window that is still open.
abbrev pub is_over : Option Window → ℕ → Bool
is_over none now = true
is_over (some w) now = leb w.reset_at now

opened :
    (hit : Hit) (o : Option Window) (memory : Memory)
    → is_over o hit.now ≡ true
    → hit_window hit o memory ≡ open_window hit memory
unfolding hit_window
opened hit none memory e = refl
opened hit (some w) memory e = rw e refl

get-open_window :
    (hit : Hit) (memory : Memory)
    → Dict.get str_eq (open_window hit memory).0 hit.key
      ≡ some (record { count = 1; reset_at = hit.now + hit.window_seconds * ticks })
unfolding open_window
get-open_window hit memory =
    rw (get-put memory hit.key hit.key _, (eq_iff hit.key hit.key).1 refl) refl

-- When the key of a hit has no window in the memory, or one that is over, then of this hit and those
-- that follow on the key as many are allowed as its limit says, or one if the limit is less: the
-- hits that follow come before the new window ends and have the same limit, those on other keys are
-- any, and the memory has room for all of them.
pub memory_hit-limit :
    (hit : Hit) (hits : List Hit) (memory : Memory)
    → is_over (Dict.get str_eq memory hit.key) hit.now ≡ true
    → length memory + suc (length hits) ≤ window_cap
    → All (λ h. h.now < hit.now + hit.window_seconds * ticks) hits
    → All (λ h. str_eq h.key hit.key ≡ true → h.limit ≡ hit.limit) hits
    → allowed_on hit.key (hit ∷ hits) memory ≡ min (hits_on hit.key (hit ∷ hits)) (max 1 hit.limit)
unfolding open_window
memory_hit-limit hit hits memory g l n e =
    let step =
      unswept hit memory (omega arith) ∙ opened hit (Dict.get str_eq memory hit.key) memory g in
    let rest =
      open_lem hit.key hit.limit hits (open_window hit memory).0 _ (get-open_window hit memory)
        (omega arith) (omega (arith, length-put memory hit.key _)) n e in
    rw (step, (eq_iff hit.key hit.key).1 refl) (omega (arith, rest))
