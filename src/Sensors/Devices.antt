-- ===== src/Sensors/Devices.antt =====
-- Devices of SensorsService: registerDevice, rotateDeviceApiKey and the reads by id.
use Prim.Native.String.{String}
use text.Mathlib.Text.{◌==◌ as str_eq}
use water_credits_backend.Prelude.{
  ℕ, ◌+◌, ◌<◌, ◌≡◌, inl, inr, refl, Bool, true, false, not, ◌&&◌, Option, none, some, List, [], ◌∷◌,
  ◌++◌, ◌==◌, ltb, is_some, if◌then◌else◌, ok, err, bad_request, not_found, conflict, Action, ◌>>=◌,
  ◌>>◌, gets, modify, require, throw_if, pure, find, find_id, update_id, arith, Option-cases,
  id_of-find_id, find_id-update_id,
}
use water_credits_backend.Users.{UserRole}
use water_credits_backend.Sensors.Entities.{SensorDevice, SensorDevice-entity, Db}
use water_credits_backend.Sensors.Access.{assert_project_access}

-- `Map<string, number>` of the service
abbrev pub lookup : ℕ → List (ℕ × ℕ) → Option ℕ
lookup k [] = none
lookup k ((j, v) ∷ m) = if j == k then some v else lookup k m

abbrev pub insert : ℕ → ℕ → List (ℕ × ℕ) → List (ℕ × ℕ)
insert k v [] = (k, v) ∷ []
insert k v ((j, w) ∷ m) = if j == k then (k, v) ∷ m else (j, w) ∷ insert k v m

-- The fields of RegisterDeviceDto that the service stores; the free-form parameter map is left out.
pub record RegisterDeviceDto : Type 0 where
  pub device_id : String
  pub manufacturer : String
  pub model : String
  pub public_key : String

-- What generateDeviceApiKey returns: random bytes and their bcrypt hash.
pub record ApiKey : Type 0 where
  pub plaintext : String
  pub hash : String

unfoldable pub register_device :
    ℕ → ApiKey → ℕ → RegisterDeviceDto → ℕ → Option UserRole → Action Db (SensorDevice × String)
register_device id key project_id dto user_id role = do
  assert_project_access user_id role project_id
  existing ← gets (λ db. find (λ d. str_eq d.device_id dto.device_id) db.devices)
  throw_if (is_some existing) bad_request
  let device : SensorDevice = record {
    id = id;
    project_id = project_id;
    device_id = dto.device_id;
    manufacturer = dto.manufacturer;
    model = dto.model;
    public_key = dto.public_key;
    api_key_hash = some key.hash;
    is_active = true;
    last_reading_at = none;
  }
  modify (λ db. record db { devices = db.devices ++ device ∷ [] })
  pure (device, key.plaintext)

-- ROTATION_WINDOW_MS
abbrev pub rotation_window_ms : ℕ
rotation_window_ms = 300000

-- `lastRotation && now - lastRotation < ROTATION_WINDOW_MS`; a rotation at time 0 is falsy.
abbrev pub rotated_recently : ℕ → Option ℕ → Bool
rotated_recently now none = false
rotated_recently now (some last) = not (last == 0) && ltb now (last + rotation_window_ms)

unfoldable pub rotate_device_api_key : ApiKey → ℕ → ℕ → ℕ → Option UserRole → Action Db String
rotate_device_api_key key now device_id user_id role = do
  found ← gets (λ db. find_id device_id db.devices)
  device ← require found not_found
  assert_project_access user_id role device.project_id
  last ← gets (λ db. lookup device.id db.last_rotation_at)
  throw_if (rotated_recently now last) conflict
  modify (λ db. record db {
    devices = update_id device.id (λ d. record d { api_key_hash = some key.hash }) db.devices;
    last_rotation_at = insert device.id now db.last_rotation_at;
  })
  pure key.plaintext

unfoldable pub get_device_by_id : ℕ → ℕ → Option UserRole → Action Db SensorDevice
get_device_by_id device_id user_id role = do
  found ← gets (λ db. find_id device_id db.devices)
  device ← require found not_found
  assert_project_access user_id role device.project_id
  pure device

lookup-insert_self : (k v : ℕ) (m : List (ℕ × ℕ)) → lookup k (insert k v m) ≡ some v
lookup-insert_self k v [] = ground arith
lookup-insert_self k v ((j, w) ∷ m) = ground (arith, lookup-insert_self k v m)

-- Once a key is rotated, a further rotation of the device by the same caller inside five minutes is
-- a conflict and writes nothing.
pub rotate_device_api_key_limited :
    (key key' : ApiKey) (now now' device_id user_id : ℕ) (role : Option UserRole) (db : Db)
    {plaintext : String}
    → (rotate_device_api_key key now device_id user_id role db).0 ≡ ok plaintext
    → 0 < now
    → now' < now + rotation_window_ms
    → let db' = (rotate_device_api_key key now device_id user_id role db).1 in
      rotate_device_api_key key' now' device_id user_id role db' ≡ (err conflict, db')
unfolding rotate_device_api_key assert_project_access
rotate_device_api_key_limited key key' now now' device_id user_id role db done positive soon =
    elim (Option-cases (find_id device_id db.devices)) [
      | inl missing ↦ absurd (ground arith)
      | inr (device, found) ↦ ground (
        arith,
        id_of-find_id device_id db.devices found,
        find_id-update_id device.id device_id
            (λ (d : SensorDevice). record d { api_key_hash = some key.hash }) db.devices
            (λ x. refl),
        lookup-insert_self device.id now db.last_rotation_at,
      )
    ]
