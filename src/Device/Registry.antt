-- ===== src/Device/Registry.antt =====
-- Device ids and inventories: src/device/include/device/inventory.hpp and device_register.hpp.
-- One counter numbers the devices of every type; each device type has an inventory of its own.
-- `DeviceId_t` is an `int` that an atomic counter wraps: an id is its 32-bit pattern.
pub mod Laws
use hhctrl_mgmt.Base.{
  ℕ, ◌+◌, ◌%◌, ◌^◌, Bool, true, false, Option, none, some, List, [], ◌∷◌, if◌then◌else◌, is_some,
}
use hhctrl_mgmt.Base.Maps.{lookup, insert, erase, contains}
use hhctrl_mgmt.Base.Outcome.{Outcome, done, thrown}

module _ {D : Type 0} where
  -- `DeviceInventory::add` and `emplace`.
  unfoldable pub add : ℕ → D → List (ℕ × D) → Outcome (List (ℕ × D))
  add device_id device devices =
      if contains device_id devices then thrown else done (insert device_id device devices)

  unfoldable pub get : ℕ → List (ℕ × D) → Outcome D
  get device_id devices = elim (lookup device_id devices) [ none ↦ thrown | some d ↦ done d ]

  unfoldable pub remove : ℕ → List (ℕ × D) → List (ℕ × D)
  remove device_id devices = erase device_id devices

  abbrev pub exists : ℕ → List (ℕ × D) → Bool
  exists device_id devices = contains device_id devices

-- The counter's value before and after.
unfoldable pub new_id : ℕ → ℕ × ℕ
new_id counter = (counter, (counter + 1) % 2 ^ 32)

-- The id of the device, the inventory with it, and the counter.
unfoldable pub register_device :
    {D : Type 0} → D → ℕ → List (ℕ × D) → Outcome (ℕ × List (ℕ × D) × ℕ)
unfolding add new_id
register_device device counter devices =
    let (device_id, counter') = new_id counter in
    elim (add device_id device devices) [
      | Outcome.done devices' ↦ done (device_id, devices', counter')
      | Outcome.thrown ↦ thrown
      | Outcome.stuck ↦ Outcome.stuck
    ]

unfoldable pub deregister_device : {D : Type 0} → ℕ → List (ℕ × D) → List (ℕ × D)
unfolding remove
deregister_device device_id devices = remove device_id devices
