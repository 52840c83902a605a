-- ===== src/Auth/Devices/Counts.antt =====
-- app/services/auth/service.py: how many devices are live, and what revoking some of them changes.
use scholarscrib_backend.Auth.Devices.{has_id}
use scholarscrib_backend.Auth.{Micros}
use scholarscrib_backend.Auth.Store.{UserDevice, is_live_of, is_other, revoke_ids}
use scholarscrib_backend.Prelude.{
  ℕ, zero, suc, ◌≤◌, String, ◌≡◌, refl, inl, inr, Bool, true, false, ◌&&◌, some, List, [], ◌∷◌, map,
  arith, str_eq, eq_iff, if◌then◌else◌, Bool-cases, drop, keep, any, is_in, sum_of, All,
}

-- The devices on which a user is signed in.
abbrev pub live_devices : String → List UserDevice → ℕ
live_devices user_id devices = sum_of (λ d. if is_live_of user_id d then 1 else 0) devices

-- A device that is counted unless it is among some ids.
pub kept : List String → UserDevice → ℕ
kept ids d = if is_in d.id ids then 0 else 1

unfoldable pub ids_of : List UserDevice → List String
ids_of rows = map (λ row. row.id) rows

All-weaken :
    (id : String) (ids : List String) (rows : List UserDevice)
    → All (λ d. is_in d.id ids ≡ true) rows
    → All (λ d. is_in d.id (id ∷ ids) ≡ true) rows
All-weaken id ids [] h = tt
All-weaken id ids (d ∷ rows) (h, hs) = (ground (arith, h), All-weaken id ids rows hs)

pub all_in : (rows : List UserDevice) → All (λ d. is_in d.id (ids_of rows) ≡ true) rows
unfolding ids_of
all_in [] = tt
all_in (d ∷ rows) =
    (rw ((eq_iff d.id d.id).1 refl) refl, All-weaken d.id (ids_of rows) rows (all_in rows))

none_kept :
    (ids : List String) (rows : List UserDevice)
    → All (λ d. is_in d.id ids ≡ true) rows
    → sum_of (kept ids) rows ≡ 0
unfolding kept
none_kept ids [] h = refl
none_kept ids (d ∷ rows) (h, hs) = rw h (omega (arith, none_kept ids rows hs))

-- Of a list of which all but the first few are revoked, those stay at most.
pub kept_le :
    (n : ℕ) (rows : List UserDevice) (ids : List String)
    → All (λ d. is_in d.id ids ≡ true) (drop n rows)
    → sum_of (kept ids) rows ≤ n
unfolding kept
kept_le zero rows ids h = omega (arith, none_kept ids rows h)
kept_le (suc n) [] ids h = omega arith
kept_le (suc n) (d ∷ rows) ids h = ground (arith, kept_le n rows ids h)

pub and_false : (b : Bool) → (b && false) ≡ false
and_false b = ground arith

-- Among the devices none of which has the new id, those that stay live were live and are kept.
pub revoke_ids_le :
    (user_id id : String) (now : Micros) (ids : List String) (devices : List UserDevice)
    → any (has_id id) devices ≡ false
    → live_devices user_id (revoke_ids now ids devices)
      ≤ sum_of (kept ids) (keep (λ d. is_live_of user_id d && is_other (some id) d) devices)
unfolding revoke_ids kept has_id
revoke_ids_le user_id id now ids [] h = omega arith
revoke_ids_le user_id id now ids (d ∷ devices) h =
    let other : str_eq d.id id ≡ false = ground arith in
    let ih = revoke_ids_le user_id id now ids devices (ground arith) in
    elim (Bool-cases (is_live_of user_id d)) [
      | inl live ↦ elim (Bool-cases (is_in d.id ids)) [
        | inl gone ↦
            rw (live, other, gone, and_false (str_eq d.user_id user_id)) (omega (arith, ih))
        | inr stays ↦ rw (live, other, stays, live) (omega (arith, ih))
      ]
      | inr dead ↦ elim (Bool-cases (is_in d.id ids)) [
        | inl gone ↦ rw (dead, gone, and_false (str_eq d.user_id user_id)) (omega (arith, ih))
        | inr stays ↦ rw (dead, stays, dead) (omega (arith, ih))
      ]
    ]

pub drop_none :
    (id : String) (n : ℕ) (rows : List UserDevice)
    → All (λ d. is_other (some id) d ≡ true) rows
    → is_in id (ids_of (drop n rows)) ≡ false
unfolding ids_of
drop_none id zero [] h = refl
drop_none id (suc n) [] h = refl
drop_none id zero (d ∷ rows) (h, hs) = ground (arith, drop_none id zero rows hs, h)
drop_none id (suc n) (d ∷ rows) (h, hs) = drop_none id n rows hs

pub keep-is_other :
    (user_id id : String) (devices : List UserDevice)
    → All
        (λ d. is_other (some id) d ≡ true)
        (keep (λ d. is_live_of user_id d && is_other (some id) d) devices)
keep-is_other user_id id [] = tt
keep-is_other user_id id (d ∷ devices) =
    let rest = keep-is_other user_id id devices in
    elim (Bool-cases (is_live_of user_id d && is_other (some id) d)) [
      | inl e ↦ rw e ((ground (arith, e)), rest)
      | inr e ↦ rw e rest
    ]
