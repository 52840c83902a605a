-- ===== src/Auth/Store/Limits.antt =====
-- app/core/rate_limit.py in front of a request: what passing the limits changes.
use scholarscrib_backend.Auth.Store.{Db, Request, Gate, hit, judge}
use scholarscrib_backend.Prelude.{ℕ, ◌∙◌, String, ◌≡◌, refl, sym, ap}
use scholarscrib_backend.Prelude.Requests.{ok, and_then, and_then-ok, ◌>>◌}
use scholarscrib_backend.RateLimit.{Memory, Verdict, pass, rate_limited}

judge-memory :
    (s : Db) (r : Memory × Verdict)
    → (memory : Memory) × ((judge s r).0 ≡ record s { memory = memory })
judge-memory s (memory, pass) = (memory, refl)
judge-memory s (memory, rate_limited retry) = (memory, refl)

-- The limiter changes the memory alone.
pub hit-memory :
    (gate : Gate) (key : String) (limit seconds : ℕ) (s : Db)
    → (memory : Memory) × ((hit gate key limit seconds s).0 ≡ record s { memory = memory })
unfolding hit
hit-memory gate key limit seconds s = judge-memory s _

-- What passes two limits goes on with the same data.
pub hits-ok :
    {A : Type 0} (gate gate' : Gate) (key key' : String) (limit seconds limit' seconds' : ℕ)
    (rest : Request A) (s t : Db) (a : A)
    → (hit gate key limit seconds >> (hit gate' key' limit' seconds' >> rest)) s ≡ (t, ok a)
    → (memory : Memory) × (rest (record s { memory = memory }) ≡ (t, ok a))
hits-ok gate gate' key key' limit seconds limit' seconds' rest s t a h =
    let by_key = hit gate key limit seconds s in
    let by_both = hit gate' key' limit' seconds' by_key.0 in
    let one = and_then-ok (λ u. hit gate' key' limit' seconds' >> rest) by_key t a h in
    let two = and_then-ok (λ u. rest) by_both t a one.1.1 in
    let before = hit-memory gate key limit seconds s in
    let memory = hit-memory gate' key' limit' seconds' by_key.0 in
    let state : by_both.0 ≡ record s { memory = memory.0 } =
      memory.1 ∙ ap {A = Db} {B = Db} (λ u. record u { memory = memory.0 }) before.1 in
    (memory.0, ap rest (sym state) ∙ two.1.1)

-- Two limits that are passed lead to what follows.
pub hits_pass :
    {A : Type 0} (gate gate' : Gate) (key key' : String) (limit seconds limit' seconds' : ℕ)
    (rest : Request A) (s : Db)
    → (hit gate key limit seconds s).1 ≡ ok tt
    → (hit gate' key' limit' seconds' (hit gate key limit seconds s).0).1 ≡ ok tt
    → (memory : Memory) × ((hit gate key limit seconds >> (hit gate' key' limit' seconds' >> rest))
          s
        ≡ rest (record s { memory = memory }))
hits_pass gate gate' key key' limit seconds limit' seconds' rest s one two =
    let by_key = hit gate key limit seconds s in
    let by_both = hit gate' key' limit' seconds' by_key.0 in
    let before = hit-memory gate key limit seconds s in
    let memory = hit-memory gate' key' limit' seconds' by_key.0 in
    let state : by_both.0 ≡ record s { memory = memory.0 } =
      memory.1 ∙ ap {A = Db} {B = Db} (λ u. record u { memory = memory.0 }) before.1 in
    (
      memory.0,
      ap (λ b. and_then (λ u. hit gate' key' limit' seconds' >> rest) (by_key.0, b)) one
          ∙ (ap (λ b. and_then (λ u. rest) (by_both.0, b)) two ∙ ap rest state),
    )
