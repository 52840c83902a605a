-- ===== src/Auth/Devices.antt =====
-- app/services/auth/service.py: the devices that a student signs in from. The moments of the clock
-- and the new id are arguments.
pub mod Counts
pub mod Limit
pub mod Revoked
use mathlib.Core.List.{List}
use scholarscrib_backend.Auth.{Micros}
use scholarscrib_backend.Auth.Store.{
  Student, UserDevice, Db, Request, is_text, is_unset, device_by_id, active_except, revoke_ids,
  delete_for_devices,
}
use scholarscrib_backend.Billing.Tiers.{tier_rank, standard}
use scholarscrib_backend.Prelude.{
  ℕ, ◌-◌, String, Bool, true, false, ◌&&◌, ◌||◌, not, Option, none, some, [], ◌∷◌, map, str_eq, ltb,
  ◌==◌, if◌then◌else◌, length, take, drop, any, sort_by, text_leb,
}
use scholarscrib_backend.Prelude.Strings.{prefix}
use scholarscrib_backend.Prelude.Requests.{
  ok, err, integrity_error, ◌>>=◌, ◌>>◌, pure, fail, require,
}

abbrev pub device_limit : ℕ
device_limit = 2

-- What comes with a new device: its id, the label of the browser and the moment when it signs in.
pub record NewDevice : Type 0 where
  pub id : String
  pub label : String
  pub now : Micros

-- self.label[:120] or "Browser"
unfoldable pub device_label : String → String
unfolding prefix
device_label label = if str_eq label "" then "Browser" else prefix 120 label

unfoldable pub fresh_device : String → NewDevice → UserDevice
unfolding device_label
fresh_device user_id new = record {
  id = new.id;
  user_id = user_id;
  label = device_label new.label;
  last_seen_at = new.now;
  revoked_at = none;
  created_at = new.now;
}

unfoldable pub has_id : String → UserDevice → Bool
has_id id device = str_eq device.id id

-- `devices_repository.add(..., flush=True)`
unfoldable pub add_device : UserDevice → Request (Unit {0})
unfolding has_id
add_device device s = elim (any (has_id device.id) s.devices) [
  | true ↦ (s, err integrity_error)
  | false ↦ (record s { devices = device ∷ s.devices }, ok tt)
]

-- The order of the sort by (created_at, id), reversed.
unfoldable pub newest_first : UserDevice → UserDevice → Bool
newest_first a b =
    ltb b.created_at a.created_at || (a.created_at == b.created_at && text_leb b.id a.id)

-- The ids of the other devices that are too many.
unfoldable pub overflow : String → UserDevice → Db → List String
unfolding active_except newest_first
overflow user_id device s =
    map (λ row. row.id)
      (drop (device_limit - 1) (sort_by newest_first (active_except user_id (some device.id) s)))

unfoldable pub sign_out : Micros → List String → Db → Db
unfolding revoke_ids delete_for_devices
sign_out now ids s = delete_for_devices ids (record s { devices = revoke_ids now ids s.devices })

-- `_revoke_overflow`
unfoldable pub revoke_overflow : Micros → Student → UserDevice → Request (Unit {0})
unfolding tier_rank overflow sign_out
revoke_overflow now user device s =
    if ltb (tier_rank user.tier) (tier_rank standard)
    then (s, ok tt)
    else (sign_out now (overflow user.id device s) s, ok tt)

-- RegisterDeviceService.process
unfoldable pub register_device : NewDevice → Student → Request UserDevice
unfolding fresh_device add_device revoke_overflow
register_device new user = do
  add_device (fresh_device user.id new)
  revoke_overflow new.now user (fresh_device user.id new)
  pure (fresh_device user.id new)

-- DeviceIn, whose validator leaves one of the two.
pub data DeviceIn : Type 0 where
  all_others : DeviceIn
  one_device : String → DeviceIn

unfoldable pub found_target : String → Option UserDevice → Request (List UserDevice)
found_target user_id none s = fail 404 "Device not found" s
found_target user_id (some row) s =
    if str_eq row.user_id user_id
    then (s, ok (if is_unset row.revoked_at then row ∷ [] else []))
    else fail 404 "Device not found" s

-- `_targets`
unfoldable pub targets : String → Option String → DeviceIn → Request (List UserDevice)
unfolding active_except found_target device_by_id
targets user_id current all_others s = (s, ok (active_except user_id current s))
targets user_id current (one_device device_id) s =
    if is_text current device_id
    then fail 400 "Use Sign out to leave this device" s
    else found_target user_id (device_by_id device_id s) s

abbrev pub revoke_rows : Micros → List UserDevice → Request ℕ
unfolding sign_out
revoke_rows now rows s = (sign_out now (map (λ row. row.id) rows) s, ok (length rows))

-- RevokeDevicesService.process
unfoldable pub revoke_devices : Micros → String → Option String → DeviceIn → Request ℕ
unfolding targets sign_out
revoke_devices now user_id current body = do
  rows ← targets user_id current body
  revoke_rows now rows

-- RevokeOtherDevicesService.process: its call raises no error of this code.
unfoldable pub revoke_other_devices : Micros → String → Option String → Db → Db
unfolding revoke_devices
revoke_other_devices now user_id current s = (revoke_devices now user_id current all_others s).0

abbrev pub sign_out_live : Micros → Option UserDevice → Db → Db
unfolding sign_out
sign_out_live now none s = s
sign_out_live now (some device) s =
    if is_unset device.revoked_at then sign_out now (device.id ∷ []) s else s

-- `logout` of app/api/student/auth.py, for the device of the student who is signed in
unfoldable pub logout : Micros → Option String → Db → Db
unfolding sign_out device_by_id
logout now none s = s
logout now (some device_id) s =
    if str_eq device_id "" then s else sign_out_live now (device_by_id device_id s) s
