-- ===== src/Auth/Devices/Revoked.antt =====
-- app/services/auth/service.py: what signing out of every device leaves.
use scholarscrib_backend.Auth.Devices.{revoke_devices, revoke_other_devices}
use scholarscrib_backend.Auth.{Micros}
use scholarscrib_backend.Auth.Store.{UserDevice, Db, is_live_of, active_except, revoke_ids}
use scholarscrib_backend.Prelude.{
  String, ◌≡◌, refl, inl, inr, Bool, true, false, ◌&&◌, none, List, [], ◌∷◌, map, arith, eq_iff,
  Bool-cases, keep, is_in, All,
}

ids_among : (UserDevice → Bool) → List UserDevice → List String
ids_among p devices = map (λ row. row.id) (keep p devices)

-- The devices of a list that pass a test have ids among its ids.
Covers : List String → (UserDevice → Bool) → List UserDevice → Type 0
Covers ids p devices = All (λ d. p d ≡ true → is_in d.id ids ≡ true) devices

Covers-cons :
    (id : String) (ids : List String) (p : UserDevice → Bool) (devices : List UserDevice)
    → Covers ids p devices
    → Covers (id ∷ ids) p devices
unfolding Covers
Covers-cons id ids p [] h = tt
Covers-cons id ids p (d ∷ devices) (h, hs) =
    (λ live. ground (arith, h live), Covers-cons id ids p devices hs)

ids_among-live :
    (p : UserDevice → Bool) (d : UserDevice) (devices : List UserDevice)
    → p d ≡ true
    → ids_among p (d ∷ devices) ≡ d.id ∷ ids_among p devices
unfolding ids_among
ids_among-live p d devices e = rw e refl

ids_among-dead :
    (p : UserDevice → Bool) (d : UserDevice) (devices : List UserDevice)
    → p d ≡ false
    → ids_among p (d ∷ devices) ≡ ids_among p devices
unfolding ids_among
ids_among-dead p d devices e = rw e refl

Covers-nil : (ids : List String) (p : UserDevice → Bool) → Covers ids p []
unfolding Covers
Covers-nil ids p = tt

Covers-also :
    (ids : List String) (p : UserDevice → Bool) (d : UserDevice) (devices : List UserDevice)
    → (p d ≡ true → is_in d.id ids ≡ true)
    → Covers ids p devices
    → Covers ids p (d ∷ devices)
unfolding Covers
Covers-also ids p d devices h k = (h, k)

-- A stronger test passes fewer devices.
Covers-weaken :
    (ids : List String) (p q : UserDevice → Bool) (devices : List UserDevice)
    → ((d : UserDevice) → q d ≡ true → p d ≡ true)
    → Covers ids p devices
    → Covers ids q devices
unfolding Covers
Covers-weaken ids p q [] f h = tt
Covers-weaken ids p q (d ∷ devices) f (h, hs) =
    ((λ e. h (f d e)), Covers-weaken ids p q devices f hs)

Covers-ids_among :
    (p : UserDevice → Bool) (devices : List UserDevice) → Covers (ids_among p devices) p devices
Covers-ids_among p [] = Covers-nil (ids_among p []) p
Covers-ids_among p (d ∷ devices) = elim (Bool-cases (p d)) [
  | inl e ↦ rw (ids_among-live p d devices e) (
      Covers-also (d.id ∷ ids_among p devices) p d devices
        (λ live. rw ((eq_iff d.id d.id).1 refl) refl)
        (Covers-cons d.id (ids_among p devices) p devices (Covers-ids_among p devices)))
  | inr e ↦
      rw (ids_among-dead p d devices e)
        (Covers-also (ids_among p devices) p d devices (λ live. cc) (Covers-ids_among p devices))
]

revoke_ids-Covers :
    (user_id : String) (now : Micros) (ids : List String) (devices : List UserDevice)
    → Covers ids (is_live_of user_id) devices
    → All (λ d. is_live_of user_id d ≡ false) (revoke_ids now ids devices)
unfolding revoke_ids Covers
revoke_ids-Covers user_id now ids [] h = tt
revoke_ids-Covers user_id now ids (d ∷ devices) (h, hs) =
    let rest = revoke_ids-Covers user_id now ids devices hs in
    elim (Bool-cases (is_in d.id ids)) [
      | inl e ↦ rw e ((ground arith), rest)
      | inr e ↦ rw e ((ground (arith, h)), rest)
    ]

-- No device of the user is live after the others of none are revoked.
pub all_revoked :
    (now : Micros) (user_id : String) (s : Db)
    → All (λ d. is_live_of user_id d ≡ false) (revoke_other_devices now user_id none s).devices
unfolding revoke_other_devices revoke_devices active_except ids_among
all_revoked now user_id s =
    revoke_ids-Covers user_id now (ids_among (λ d. is_live_of user_id d && true) s.devices)
      s.devices
      (Covers-weaken _ (λ d. is_live_of user_id d && true) (is_live_of user_id) s.devices
        (λ d e. ground (arith, e)) (Covers-ids_among (λ d. is_live_of user_id d && true) s.devices))
