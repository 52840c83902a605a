-- ===== src/Prelude/Dict/Laws.antt =====
-- The laws of the dictionaries, over an equality test that decides equality.
use mathlib.Core.Path.{◌≡◌, refl, sym, ◌∙◌, subst}
use mathlib.Core.Logic.{inl, inr}
use mathlib.Core.Bool.{Bool, true, false}
use mathlib.Core.List.{List, [], ◌∷◌}
use scholarscrib_backend.Prelude.Tests.{if◌then◌else◌, Bool-cases}
use scholarscrib_backend.Prelude.Lists.{All}
use scholarscrib_backend.Prelude.Dict.{get_or, put}

module _ {K V : Type 0} (eq : K → K → Bool) (eq_sound : (a b : K) → eq a b ≡ true → a ≡ b)
    (eq_same : (a : K) → eq a a ≡ true) where
  pub get_or-put :
      (d : List (K × V)) (k j : K) (v w : V)
      → get_or eq (put eq d k v) j w ≡ (if eq k j then v else get_or eq d j w)
  get_or-put [] k j v w = refl
  get_or-put ((i, u) ∷ d) k j v w = elim (Bool-cases (eq i k)) [
    | inl e ↦ rw (e, eq_sound i k e) (if_same (eq k j))
    | inr e ↦ rw (e, get_or-put d k j v w) (swap (eq i j) (eq k j) (λ p q. different e p q))
  ]
    where
      if_same :
          (b : Bool)
          → (if b then v else get_or eq d j w) ≡ (if b then v else if b then u else get_or eq d j w)
      if_same true = refl
      if_same false = refl

      different : eq i k ≡ false → eq i j ≡ true → eq k j ≡ true → ⊥
      different e p q =
          let same : i ≡ k = eq_sound i j p ∙ sym (eq_sound k j q) in
          let t : eq i k ≡ true = subst (λ x. eq i x ≡ true) same (eq_same i) in cc

      swap :
          (b c : Bool)
          → (b ≡ true → c ≡ true → ⊥)
          → (if b then u else if c then v else get_or eq d j w)
            ≡ (if c then v else if b then u else get_or eq d j w)
      swap true true f = absurd (f refl refl)
      swap true false f = refl
      swap false true f = refl
      swap false false f = refl

  -- Each key stands once.
  abbrev pub Unique : List (K × V) → Type 0
  Unique [] = Unit
  Unique (e ∷ d) = All (λ f. eq e.0 f.0 ≡ false) d × Unique d

  put-apart :
      (d : List (K × V)) (j k : K) (v : V)
      → eq j k ≡ false
      → All (λ f. eq j f.0 ≡ false) d
      → All (λ f. eq j f.0 ≡ false) (put eq d k v)
  put-apart [] j k v h a = (h, tt)
  put-apart ((i, u) ∷ d) j k v h a = elim (Bool-cases (eq i k)) [
    | inl e ↦ rw e (a.0, a.1)
    | inr e ↦ rw e (a.0, put-apart d j k v h a.1)
  ]

  pub put-Unique : (d : List (K × V)) (k : K) (v : V) → Unique d → Unique (put eq d k v)
  put-Unique [] k v h = (tt, tt)
  put-Unique ((i, u) ∷ d) k v h = elim (Bool-cases (eq i k)) [
    | inl e ↦ rw e h
    | inr e ↦ rw e (put-apart d i k v e h.0, put-Unique d k v h.1)
  ]

  -- Looking an entry's key up finds the entry.
  pub Unique-entries : (d : List (K × V)) (w : V) → Unique d → All (λ e. get_or eq d e.0 w ≡ e.1) d
  Unique-entries [] w h = tt
  Unique-entries ((i, u) ∷ d) w h = (rw (eq_same i) refl, later d h.0 (Unique-entries d w h.1))
    where
      later :
          (l : List (K × V))
          → All (λ f. eq i f.0 ≡ false) l
          → All (λ e. get_or eq d e.0 w ≡ e.1) l
          → All (λ e. (if eq i e.0 then u else get_or eq d e.0 w) ≡ e.1) l
      later [] a b = tt
      later (e ∷ l) a b = (rw a.0 b.0, later l a.1 b.1)

  -- What holds of the entries and of the default holds of what a lookup returns.
  pub get_or-All :
      (P : K → V → Type 0) (d : List (K × V)) (k : K) (w : V)
      → All (λ e. P e.0 e.1) d
      → P k w
      → P k (get_or eq d k w)
  get_or-All P [] k w h z = z
  get_or-All P ((i, u) ∷ d) k w h z = elim (Bool-cases (eq i k)) [
    | inl e ↦ rw e (subst (λ x. P x u) (eq_sound i k e) h.0)
    | inr e ↦ rw e (get_or-All P d k w h.1 z)
  ]
