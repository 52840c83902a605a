-- ===== src/Gamification/Levels.antt =====
-- app/services/gamification/levels.py: the level curve.
use scholarscrib_backend.Prelude.{
  ℕ, ◌+◌, ◌-◌, ◌≤◌, ◌<◌, String, ◌≡◌, ◌↔◌, Bool, true, false, Option, none, some, List, [], ◌∷◌,
  arith, leb, if◌then◌else◌, get_elem?,
}

pub record Level : Type 0 where
  pub level : ℕ
  pub threshold : ℕ
  pub title : String

abbrev new_level : ℕ → ℕ → String → Level
new_level level threshold title = record { level = level; threshold = threshold; title = title }

unfoldable pub levels : List Level
levels =
    new_level 1 0 "Starter Scholar"
    ∷ new_level 2 100 "Starter Scholar"
    ∷ new_level 3 250 "Rising Scholar"
    ∷ new_level 4 450 "Rising Scholar"
    ∷ new_level 5 700 "Focused Learner"
    ∷ new_level 6 1000 "Focused Learner"
    ∷ new_level 7 1400 "Subject Specialist"
    ∷ new_level 8 1900 "Subject Specialist"
    ∷ new_level 9 2500 "Exam Strategist"
    ∷ new_level 10 3200 "ScholarsCrib Elite"
    ∷ []

pub record LevelProgress : Type 0 where
  pub level : ℕ
  pub title : String
  pub xp_into_level : ℕ
  pub xp_to_next : ℕ
  pub level_span : ℕ
  pub is_max : Bool

-- The loop over LEVELS: the last level whose threshold is reached.
unfoldable pub current_level : ℕ → Level → List Level → Level
current_level xp current [] = current
current_level xp current (candidate ∷ rest) =
    current_level xp (if leb candidate.threshold xp then candidate else current) rest

progress_at : ℕ → Level → Option Level → LevelProgress
progress_at xp current none = record {
  level = current.level;
  title = current.title;
  xp_into_level = xp - current.threshold;
  xp_to_next = 0;
  level_span = 0;
  is_max = true;
}
progress_at xp current (some next) = record {
  level = current.level;
  title = current.title;
  xp_into_level = xp - current.threshold;
  xp_to_next = next.threshold - xp;
  level_span = next.threshold - current.threshold;
  is_max = false;
}

-- The level after `current` stands in LEVELS at the index `current.level`. A total below zero
-- counts as zero, so the argument is a natural number.
unfoldable pub level_progress : ℕ → LevelProgress
unfolding levels current_level progress_at
level_progress xp =
    let current = current_level xp (new_level 1 0 "Starter Scholar") levels in
    progress_at xp current (get_elem? levels current.level)

-- Below the top level the XP into the level and the XP still to earn make up the level's span,
-- and there is something left to earn.
pub level_progress-below :
    (xp : ℕ)
    → (level_progress xp).is_max ≡ false
    → ((level_progress xp).xp_into_level + (level_progress xp).xp_to_next
        ≡ (level_progress xp).level_span)
      × (0 < (level_progress xp).xp_to_next)
unfolding level_progress
level_progress-below xp h = ground arith

-- The top level is the one that starts at 3200 XP.
pub level_progress-is_max : (xp : ℕ) → ((level_progress xp).is_max ≡ true) ↔ (3200 ≤ xp)
unfolding level_progress
level_progress-is_max xp = (λ h. ground arith, λ h. ground arith)
