-- ===== src/Auth/Devices/Limit.antt =====
-- app/services/auth/service.py: how many devices a paid account has after signing in.
use scholarscrib_backend.Auth.Devices.{
  device_limit, NewDevice, fresh_device, has_id, add_device, newest_first, overflow, sign_out,
  revoke_overflow, register_device,
}
use scholarscrib_backend.Auth.Store.{
  Student, UserDevice, Db, is_live_of, is_other, active_except, device_by_id, revoke_ids,
}
use scholarscrib_backend.Billing.Tiers.{tier_rank, standard}
use scholarscrib_backend.Prelude.{
  ◌≤◌, String, ◌≡◌, refl, ap, inl, inr, Bool, true, false, ◌&&◌, first, some, List, ◌∷◌, arith,
  eq_iff, ltb, if◌then◌else◌, Bool-cases, drop, keep, any, is_in, sum_of, sum_of-sort_by, sort_by,
  sort_by-All,
}
use scholarscrib_backend.Prelude.Requests.{ok, err, integrity_error}
use scholarscrib_backend.Auth.Devices.Counts.{
  all_in, and_false, drop_none, ids_of, keep-is_other, kept, kept_le, live_devices, revoke_ids_le,
}

module _ (new : NewDevice) (user : Student) (s : Db) where
  -- The store with the new device, and the ids that are too many in it.
  abbrev added : Db
  unfolding fresh_device
  added = record s { devices = fresh_device user.id new ∷ s.devices }

  too_many : List String
  unfolding overflow added
  too_many = overflow user.id (fresh_device user.id new) added

  add_lem :
      any (has_id new.id) s.devices ≡ false
      → add_device (fresh_device user.id new) s ≡ (added, ok tt)
  unfolding add_device fresh_device added
  add_lem unused = rw (unused, add_device) refl

  overflow_lem :
      tier_rank standard ≤ tier_rank user.tier
      → revoke_overflow new.now user (fresh_device user.id new) added
        ≡ (sign_out new.now too_many added, ok tt)
  unfolding revoke_overflow too_many
  overflow_lem paid =
      let over : ltb (tier_rank user.tier) (tier_rank standard) ≡ false = ground arith in
      rw over refl

  paid_lem :
      any (has_id new.id) s.devices ≡ false
      → tier_rank standard ≤ tier_rank user.tier
      → register_device new user s
        ≡ (sign_out new.now too_many added, ok (fresh_device user.id new))
  unfolding register_device
  paid_lem unused paid = rw (add_lem unused, overflow_lem paid) refl

  others-added :
      active_except user.id (some new.id) added
      ≡ keep (λ d. is_live_of user.id d && is_other (some new.id) d) s.devices
  unfolding active_except added fresh_device
  others-added =
      rw ((eq_iff new.id new.id).1 refl)
        (rw (and_false (is_live_of user.id (fresh_device user.id new))) refl)

  others : List UserDevice
  others =
      sort_by newest_first (keep (λ d. is_live_of user.id d && is_other (some new.id) d) s.devices)

  too_many_lem : too_many ≡ ids_of (drop 1 others)
  unfolding too_many overflow others ids_of fresh_device
  too_many_lem = rw others-added refl

  new_stays : is_in new.id too_many ≡ false
  unfolding others
  new_stays = rw too_many_lem (
      drop_none new.id 1 others (
        sort_by-All newest_first (λ d. is_other (some new.id) d ≡ true) _
          (keep-is_other user.id new.id s.devices)))

  others_kept : sum_of (kept too_many) others ≤ 1
  others_kept = kept_le 1 others too_many (rw too_many_lem (all_in (drop 1 others)))

  marked :
      revoke_ids new.now too_many added.devices
      ≡ fresh_device user.id new ∷ revoke_ids new.now too_many s.devices
  unfolding revoke_ids added fresh_device
  marked = rw new_stays refl

  one_at_most : (b : Bool) → (if b then 1 else 0) ≤ 1
  one_at_most b = ground arith

  few_live :
      any (has_id new.id) s.devices ≡ false
      → live_devices user.id (revoke_ids new.now too_many added.devices) ≤ device_limit
  unfolding others
  few_live unused = rw marked (
      omega (
        arith,
        one_at_most (is_live_of user.id (fresh_device user.id new)),
        revoke_ids_le user.id new.id new.now too_many s.devices unused,
        sum_of-sort_by newest_first (kept too_many)
            (keep (λ d. is_live_of user.id d && is_other (some new.id) d) s.devices),
        others_kept,
      ))

  new_found :
      first (has_id new.id) (revoke_ids new.now too_many added.devices)
      ≡ some (fresh_device user.id new)
  unfolding has_id fresh_device
  new_found = rw marked (rw ((eq_iff new.id new.id).1 refl) refl)

  -- On a paid account, registering a device whose id is new succeeds. The student is then signed
  -- in on two devices at most, and the new device is one of them.
  pub register_device-live :
      any (has_id new.id) s.devices ≡ false
      → tier_rank standard ≤ tier_rank user.tier
      → ((register_device new user s).1 ≡ ok (fresh_device user.id new))
        × (live_devices user.id (register_device new user s).0.devices ≤ device_limit)
        × (device_by_id new.id (register_device new user s).0 ≡ some (fresh_device user.id new))
        × (is_live_of user.id (fresh_device user.id new) ≡ true)
  unfolding sign_out device_by_id has_id fresh_device
  register_device-live unused paid =
      rw (paid_lem unused paid)
        (refl, few_live unused, new_found, rw ((eq_iff user.id user.id).1 refl) refl)

  taken_lem :
      any (has_id new.id) s.devices ≡ true → (register_device new user s).1 ≡ err integrity_error
  unfolding register_device add_device fresh_device
  taken_lem taken = rw (taken, add_device) refl

  free_lem :
      any (has_id new.id) s.devices ≡ false
      → ltb (tier_rank user.tier) (tier_rank standard) ≡ true
      → register_device new user s ≡ (added, ok (fresh_device user.id new))
  unfolding register_device revoke_overflow
  free_lem unused free = rw (add_lem unused, free) refl

  Registers : Db → UserDevice → Type 0
  Registers t device =
      (device ≡ fresh_device user.id new)
      × (device_by_id new.id t ≡ some (fresh_device user.id new))
      × (t.users ≡ s.users)

  same_result :
      (t u : Db) (device : UserDevice)
      → register_device new user s ≡ (t, ok device)
      → register_device new user s ≡ (u, ok (fresh_device user.id new))
      → device_by_id new.id u ≡ some (fresh_device user.id new)
      → u.users ≡ s.users
      → Registers t device
  unfolding Registers
  same_result t u device h h' found users =
      let same_state : t ≡ u = cc in
      let same_device : device ≡ fresh_device user.id new = cc in
      (same_device, rw same_state found, rw same_state users)

  -- What registering a device leaves when it succeeds, whatever the account.
  pub register_device-ok :
      (t : Db) (device : UserDevice)
      → register_device new user s ≡ (t, ok device)
      → (device ≡ fresh_device user.id new)
        × (device_by_id new.id t ≡ some (fresh_device user.id new))
        × (t.users ≡ s.users)
  unfolding Registers device_by_id has_id sign_out added fresh_device
  register_device-ok t device h = elim (Bool-cases (any (has_id new.id) s.devices)) [
    | inl taken ↦ let failed = taken_lem taken in cc
    | inr unused ↦ elim (Bool-cases (ltb (tier_rank user.tier) (tier_rank standard))) [
      | inl free ↦
          same_result t added device h (free_lem unused free)
            (rw ((eq_iff new.id new.id).1 refl) refl) refl
      | inr paid ↦
          same_result t (sign_out new.now too_many added) device h
            (paid_lem unused (ground (arith, paid))) new_found refl
    ]
  ]

  -- A device whose id is new can be registered.
  pub register_device_new :
      any (has_id new.id) s.devices ≡ false
      → (register_device new user s).1 ≡ ok (fresh_device user.id new)
  register_device_new unused = elim (Bool-cases (ltb (tier_rank user.tier) (tier_rank standard))) [
    | inl free ↦ ap (λ r. r.1) (free_lem unused free)
    | inr paid ↦ ap (λ r. r.1) (paid_lem unused (ground (arith, paid)))
  ]
