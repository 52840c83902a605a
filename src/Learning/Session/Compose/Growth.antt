-- ===== src/Learning/Session/Compose/Growth.antt =====
-- app/services/learning/session.py: the rounds of compose_session add entries of the engine that keep
-- to the minutes, the number of items and one item for each topic.
use mathlib.Core.List.{append_assoc}
use scholarscrib_backend.Floats.{Floats}
use scholarscrib_backend.Learning.Session.Compose.{
  session_max_items, Draft, use_topic, with_found, pick_round,
}
use scholarscrib_backend.Learning.Session.Entries.{Entry}
use scholarscrib_backend.Learning.Session.Picks.Unused.{Offer}
use scholarscrib_backend.Prelude.{
  ℕ, ◌+◌, ◌-◌, ◌≤◌, ◌<◌, String, ◌≡◌, refl, ap, inl, inr, Bool, true, false, ◌&&◌, ◌||◌, not,
  Option, none, some, List, [], ◌∷◌, ◌++◌, arith, leb, Bool-cases, &&-true, length, length-append,
  sum_of, sum_of-append, is_in,
}

module _ (F : Floats) where
  abbrev pub minutes_of : List (Entry F) → ℕ
  minutes_of entries = sum_of (λ e. e.item.minutes) entries

  abbrev pub is_new : List String → Option String → Bool
  is_new used none = false
  is_new used (some id) = not (is_in id used)

  -- Whether entries are of the engine, for topics that differ from each other and from those used.
  abbrev pub is_fresh : List String → List (Entry F) → Bool
  is_fresh used [] = true
  is_fresh used (entry ∷ entries) =
      not entry.item.from_plan
      && (is_new used entry.item.topic_id
          && is_fresh (use_topic F entry.item.topic_id used) entries)

  unfoldable pub pushed : List String → List (Entry F) → List String
  pushed used [] = used
  pushed used (entry ∷ entries) = pushed (use_topic F entry.item.topic_id used) entries

  pushed-append :
      (used : List String) (xs ys : List (Entry F))
      → pushed used (xs ++ ys) ≡ pushed (pushed used xs) ys
  unfolding pushed
  pushed-append used [] ys = refl
  pushed-append used (x ∷ xs) ys = pushed-append (use_topic F x.item.topic_id used) xs ys

  is_fresh-append :
      (used : List String) (xs ys : List (Entry F))
      → is_fresh used xs ≡ true
      → is_fresh (pushed used xs) ys ≡ true
      → is_fresh used (xs ++ ys) ≡ true
  unfolding pushed
  is_fresh-append used [] ys h k = k
  is_fresh-append used (x ∷ xs) ys h k =
      let parts = &&-true {a = not x.item.from_plan} h in
      let later = &&-true {a = is_new used x.item.topic_id} parts.1 in
      let rest = is_fresh-append (use_topic F x.item.topic_id used) xs ys later.1 k in
      rw (parts.0, later.0, rest) refl

  -- A draft that comes from another by entries of the engine.
  pub record Grown (budget : ℕ) (p d : Draft F) : Type 0 where
    pub engine : List (Entry F)
    pub items : d.items ≡ p.items ++ engine
    pub used : d.used ≡ pushed p.used engine
    pub spent : d.spent ≡ p.spent + minutes_of engine
    pub time : minutes_of engine ≤ budget - p.spent
    pub size : length d.items ≤ session_max_items
    pub fresh : is_fresh p.used engine ≡ true

  with_found-Grown :
      (budget : ℕ) (p d : Draft F) (o : Option (Entry F))
      → Grown budget p d
      → Offer F d.used (budget - d.spent) o
      → length d.items < session_max_items
      → d.spent < budget
      → Grown budget p (with_found F o d)
  unfolding pushed
  with_found-Grown budget p d none g h l s = g
  with_found-Grown budget p d (some entry) g (m, (from, (id, (t, u)))) l s = record {
    engine = g.engine ++ entry ∷ [];
    items = rw (g.items) (append_assoc p.items g.engine (entry ∷ []));
    used =
        rw (pushed-append p.used g.engine (entry ∷ []))
          (ap (use_topic F entry.item.topic_id) g.used);
    spent =
        omega
          (arith, g.spent, sum_of-append (λ (e : Entry F). e.item.minutes) g.engine (entry ∷ []));
    time = omega (
      arith,
      g.spent,
      g.time,
      m,
      sum_of-append (λ (e : Entry F). e.item.minutes) g.engine (entry ∷ []),
    );
    size = omega (arith, length-append d.items (entry ∷ []));
    fresh =
        is_fresh-append p.used g.engine (entry ∷ []) g.fresh (rw⁻¹ g.used (rw (from, t, u) refl));
  }

  pub pick_round-Grown :
      (budget : ℕ) (p d : Draft F) (pick : List String → ℕ → Option (Entry F))
      → Grown budget p d
      → ((used : List String) (remaining : ℕ) → Offer F used remaining (pick used remaining))
      → Grown budget p (pick_round F budget pick d)
  unfolding pick_round
  pick_round-Grown budget p d pick g h =
      elim (Bool-cases (leb session_max_items (length d.items) || leb budget d.spent)) [
        | inl e ↦ rw e g
        | inr e ↦ rw e (
            with_found-Grown budget p d (pick d.used (budget - d.spent)) g
              (h d.used (budget - d.spent)) (ground arith) (ground arith))
      ]

  is_in-append :
      (id : String) (xs ys : List String) → is_in id (xs ++ ys) ≡ false → is_in id xs ≡ false
  is_in-append id [] ys h = refl
  is_in-append id (x ∷ xs) ys h = ground (arith, is_in-append id xs ys)

  pub held-Offer :
      (used held : List String) (remaining : ℕ) (o : Option (Entry F))
      → Offer F (used ++ held) remaining o
      → Offer F used remaining o
  held-Offer used held remaining none h = tt
  held-Offer used held remaining (some entry) (m, (from, (id, (t, u)))) =
      (m, (from, (id, (t, is_in-append id used held u))))
