-- ===== src/Planner/Selection/Visits.antt =====
-- app/services/planner/topics.py: the search for foundations ends.
use scholarscrib_backend.Floats.{Floats}
use scholarscrib_backend.Learning.Graph.{GraphEdge, incoming_edges}
use scholarscrib_backend.Planner.Selection.{
  GapFrame, Visit, is_settled, enter, visit_edge, visit_edges, visit, gaps_for,
}
use scholarscrib_backend.Planner.Topics.{PlanTopic}
use scholarscrib_backend.Prelude.{
  ℕ, zero, suc, ◌+◌, ◌≤◌, ◌<◌, String, ◌≡◌, refl, sym, ap, ◌∙◌, inl, inr, Bool, true, false, ◌||◌,
  not, Option, none, some, List, [], ◌∷◌, ◌++◌, arith, str_eq, eq_iff, if◌then◌else◌, Bool-cases,
  length, sum_of, is_in,
}
use scholarscrib_backend.Prelude.Dict

-- How many of the topics have not been visited.
abbrev pub left : {A : Type 0} → List (String × A) → List String → ℕ
left entries visited = sum_of (λ e. if is_in e.0 visited then 0 else 1) entries

weight_mono :
    (id key : String) (visited : List String)
    → (if is_in id (key ∷ visited) then 0 else 1) ≤ (if is_in id visited then 0 else 1)
weight_mono id key visited = go (str_eq key id) (is_in id visited)
  where
    go : (b c : Bool) → (if b || c then 0 else 1) ≤ (if c then 0 else 1)
    go true true = omega arith
    go true false = omega arith
    go false c = omega arith

module _ {A : Type 0} where
  left-visit :
      (entries : List (String × A)) (key : String) (visited : List String)
      → left entries (key ∷ visited) ≤ left entries visited
  left-visit [] key visited = omega arith
  left-visit (e ∷ entries) key visited =
      omega (arith, weight_mono e.0 key visited, left-visit entries key visited)

  -- A visit to a topic that had none leaves fewer.
  left-get :
      (entries : List (String × A)) (key : String) (visited : List String) (found : A)
      → is_in key visited ≡ false
      → Dict.get str_eq entries key ≡ some found
      → left entries (key ∷ visited) < left entries visited
  left-get [] key visited found fresh h = cc
  left-get (e ∷ entries) key visited found fresh h = elim (Bool-cases (str_eq e.0 key)) [
    | inl same ↦
        let eq : e.0 ≡ key = (eq_iff e.0 key).0 same in
        let rest = left-visit entries key visited in
        let self : str_eq key key ≡ true = (eq_iff key key).1 refl in
        rw (eq, self, fresh) (omega (arith, rest))
    | inr apart ↦
        let later : Dict.get str_eq entries key ≡ some found = rw apart at h in
        omega (arith, weight_mono e.0 key visited, left-get entries key visited found fresh later)
  ]

module _ (F : Floats) (frame : GapFrame F) where
  unvisited : Visit F → ℕ
  unvisited s = left frame.by_id s.visited

  -- A search that loses no visit, and two that agree from where fewer than `n` topics are left.
  abbrev Shrinks : (String → Visit F → Visit F) → Type 0
  Shrinks go =
      (id : String) (s : Visit F) → left frame.by_id (go id s).visited ≤ left frame.by_id s.visited

  abbrev Agree : ℕ → (go more : String → Visit F → Visit F) → Type 0
  Agree n go more =
      (id : String) (s : Visit F) → left frame.by_id s.visited < n → go id s ≡ more id s

  enter-settled :
      (go : String → Visit F → Visit F) (prereq : PlanTopic F) (s : Visit F)
      → is_settled F frame prereq ≡ true
      → enter F frame go (some prereq) s ≡ s
  unfolding enter
  enter-settled go prereq s e = rw (e, enter) refl

  enter-open :
      (go : String → Visit F → Visit F) (prereq : PlanTopic F) (s : Visit F)
      → is_settled F frame prereq ≡ false
      → enter F frame go (some prereq) s
        ≡ (let deeper = go prereq.id s in record deeper { out = deeper.out ++ prereq ∷ [] })
  unfolding enter
  enter-open go prereq s e = rw (e, enter) refl

  visit_edge-Shrinks :
      (go : String → Visit F → Visit F)
      → Shrinks go
      → (edge : GraphEdge F) (s : Visit F)
      → left frame.by_id (visit_edge F frame go edge s).visited ≤ left frame.by_id s.visited
  unfolding visit_edge
  visit_edge-Shrinks go shrinks edge s =
      elim (Bool-cases (not (str_eq edge.kind "PREREQUISITE") || is_in edge.source s.visited)) [
        | inl e ↦ rw (e, visit_edge) (omega arith)
        | inr e ↦ rw (e, visit_edge) (found (Dict.get str_eq frame.by_id edge.source))
      ]
    where
      s' : Visit F
      s' = record s { visited = edge.source ∷ s.visited }

      measure : Visit F → ℕ
      measure t = left frame.by_id t.visited

      found :
          (o : Option (PlanTopic F))
          → left frame.by_id (enter F frame go o s').visited ≤ left frame.by_id s.visited
      found none = left-visit frame.by_id edge.source s.visited
      found (some prereq) = elim (Bool-cases (is_settled F frame prereq)) [
        | inl e ↦
            let same = ap measure (enter-settled go prereq s' e) in
            omega (arith, same, left-visit frame.by_id edge.source s.visited)
        | inr e ↦
            let same = ap measure (enter-open go prereq s' e) in
            omega (arith, same, shrinks prereq.id s', left-visit frame.by_id edge.source s.visited)
      ]

  visit_edges-Shrinks :
      (go : String → Visit F → Visit F)
      → Shrinks go
      → (edges : List (GraphEdge F)) (s : Visit F)
      → left frame.by_id (visit_edges F frame go edges s).visited ≤ left frame.by_id s.visited
  unfolding visit_edges
  visit_edges-Shrinks go shrinks [] s = omega arith
  visit_edges-Shrinks go shrinks (edge ∷ edges) s = omega (
    arith,
    visit_edge-Shrinks go shrinks edge s,
    visit_edges-Shrinks go shrinks edges (visit_edge F frame go edge s),
  )

  visit-Shrinks : (fuel : ℕ) → Shrinks (visit F frame fuel)
  unfolding visit
  visit-Shrinks zero id s = omega arith
  visit-Shrinks (suc fuel) id s =
      visit_edges-Shrinks (visit F frame fuel) (visit-Shrinks fuel)
        (incoming_edges F frame.graph id) s

  visit_edge-Agree :
      (n : ℕ) (go more : String → Visit F → Visit F)
      → Agree n go more
      → (edge : GraphEdge F) (s : Visit F) → left frame.by_id s.visited ≤ n
      → visit_edge F frame go edge s ≡ visit_edge F frame more edge s
  unfolding visit_edge
  visit_edge-Agree n go more agree edge s h =
      elim (Bool-cases (not (str_eq edge.kind "PREREQUISITE") || is_in edge.source s.visited)) [
        | inl e ↦ rw (e, visit_edge) refl
        | inr e ↦
            rw (e, visit_edge) (found (Dict.get str_eq frame.by_id edge.source) refl (fresh e))
      ]
    where
      s' : Visit F
      s' = record s { visited = edge.source ∷ s.visited }

      fresh :
          (not (str_eq edge.kind "PREREQUISITE") || is_in edge.source s.visited) ≡ false
          → is_in edge.source s.visited ≡ false
      fresh e = second (not (str_eq edge.kind "PREREQUISITE")) (is_in edge.source s.visited) e
        where
          second : (b c : Bool) → (b || c) ≡ false → c ≡ false
          second true c k = cc
          second false c k = k

      found :
          (o : Option (PlanTopic F))
          → Dict.get str_eq frame.by_id edge.source ≡ o
          → is_in edge.source s.visited ≡ false
          → enter F frame go o s' ≡ enter F frame more o s'
      found none k new = refl
      found (some prereq) k new = elim (Bool-cases (is_settled F frame prereq)) [
        | inl e ↦ enter-settled go prereq s' e ∙ sym (enter-settled more prereq s' e)
        | inr e ↦
            let less = left-get frame.by_id edge.source s.visited prereq new k in
            enter-open go prereq s' e
            ∙ (ap (λ (t : Visit F). record t { out = t.out ++ prereq ∷ [] })
                  (agree prereq.id s' (omega (arith, less, h)))
                ∙ sym (enter-open more prereq s' e))
      ]

  visit_edges-Agree :
      (n : ℕ) (go more : String → Visit F → Visit F)
      → Agree n go more
      → Shrinks go
      → (edges : List (GraphEdge F)) (s : Visit F) → left frame.by_id s.visited ≤ n
      → visit_edges F frame go edges s ≡ visit_edges F frame more edges s
  unfolding visit_edges
  visit_edges-Agree n go more agree shrinks [] s h = refl
  visit_edges-Agree n go more agree shrinks (edge ∷ edges) s h =
      visit_edges-Agree n go more agree shrinks edges (visit_edge F frame go edge s)
        (omega (arith, h, visit_edge-Shrinks go shrinks edge s))
      ∙ ap (visit_edges F frame more edges) (visit_edge-Agree n go more agree edge s h)

  visit-suc : (fuel : ℕ) → Agree fuel (visit F frame fuel) (visit F frame (suc fuel))
  unfolding visit
  visit-suc zero id s h = absurd (omega arith)
  visit-suc (suc fuel) id s h =
      visit_edges-Agree fuel (visit F frame fuel) (visit F frame (suc fuel)) (visit-suc fuel)
        (visit-Shrinks fuel) (incoming_edges F frame.graph id) s (omega arith)

  left-length : (entries : List (String × PlanTopic F)) → left entries [] ≡ length entries
  left-length [] = refl
  left-length (e ∷ entries) = omega (arith, left-length entries)

  visit-more :
      (more fuel : ℕ) (id : String) (s : Visit F)
      → left frame.by_id s.visited < fuel
      → visit F frame fuel id s ≡ visit F frame (more + fuel) id s
  visit-more zero fuel id s h = ap (λ n. visit F frame n id s) (omega arith)
  visit-more (suc more) fuel id s h =
      visit-more more fuel id s h
      ∙ (visit-suc (more + fuel) id s (omega arith) ∙ ap (λ n. visit F frame n id s) (omega arith))

-- The fuel of the search is enough: more of it changes nothing.
pub gaps_for-fuel :
    (F : Floats) (frame : GapFrame F) (target : PlanTopic F) (more : ℕ)
    → gaps_for F frame target
      ≡ (visit F frame
          (more + (length frame.by_id + 1))
          target.id
          (record { visited = []; out = [] })).out
unfolding gaps_for
gaps_for-fuel F frame target more =
    ap (λ (s : Visit F). s.out)
      (visit-more F frame more (length frame.by_id + 1) target.id
        (record { visited = []; out = [] }) (omega (arith, left-length F frame frame.by_id)))
