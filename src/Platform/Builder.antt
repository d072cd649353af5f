-- ===== src/Platform/Builder.antt =====
-- platform_builder.hpp, device_loader.hpp and generic_device_loading_strategy.hpp. A closure is what it
-- captures: a loader is the provider that made it, and the path.
use hhctrl_mgmt.Base.{ℕ, Bool, true, none, List, [], ◌∷◌, ◌++◌, String, if◌then◌else◌}
use hhctrl_mgmt.Base.Outcome.{Outcome, done, thrown, M, ◌>>=◌, ◌>>◌, pure, lift}
use hhctrl_mgmt.Board.{Indicator}
use hhctrl_mgmt.Device.Tree.{add_child}
use hhctrl_mgmt.Platform.{
  System, ds18b20, cpu_temp_sensor, DeviceType, hatch_type, temp_sensor_type, register_hatch,
  register_temp_sensor, poll_device, publish_event,
}

-- `DeviceLoader`, with the device type of `add_loader`.
pub data DeviceLoader : Type 0 where
  hatch_loader ds18b20_loader cpu_temp_sensor_loader : String → DeviceLoader

abbrev pub type_of : DeviceLoader → DeviceType
type_of (hatch_loader path) = hatch_type
type_of (ds18b20_loader path) = temp_sensor_type
type_of (cpu_temp_sensor_loader path) = temp_sensor_type

pub record PlatformBuilder : Type 0 where
  pub indicators : List Indicator
  pub generic_loaders : List DeviceLoader

abbrev pub empty_builder : PlatformBuilder
empty_builder = record { indicators = []; generic_loaders = [] }

unfoldable pub add_device : Indicator → PlatformBuilder → PlatformBuilder
add_device indicator b = record b { indicators = b.indicators ++ (indicator ∷ []) }

unfoldable pub add_loader : DeviceLoader → PlatformBuilder → PlatformBuilder
add_loader dev_loader b = record b { generic_loaders = b.generic_loaders ++ (dev_loader ∷ []) }

-- `get_path` of src/common/utils/include/utils/sysfs.hpp; `exists` is `std::filesystem::exists`.
unfoldable pub get_path : (String → Bool) → String → Outcome String
get_path exists path = if exists path then done path else thrown

-- A loader's `load`.
unfoldable pub load : (String → Bool) → DeviceLoader → M System ℕ
unfolding get_path register_hatch register_temp_sensor poll_device
load exists (hatch_loader path) = do
  sysfsdir ← lift (get_path exists path)
  device_id ← register_hatch sysfsdir
  poll_device device_id 2000
  pure device_id
load exists (ds18b20_loader path) = do
  sysfsdir ← lift (get_path exists path)
  device_id ← register_temp_sensor (ds18b20 sysfsdir)
  poll_device device_id 10000
  pure device_id
load exists (cpu_temp_sensor_loader path) = do
  sysfsdir ← lift (get_path exists path)
  device_id ← register_temp_sensor (cpu_temp_sensor sysfsdir)
  poll_device device_id 2000
  pure device_id

-- What `add_child` tells is dropped.
unfoldable pub add_to_board : ℕ → ℕ → M System (Unit {0})
unfolding add_child
add_to_board board_id device_id s =
    done (tt, record s { dtree = (add_child board_id device_id none s.dtree).0 })

-- `DefaultGenericDeviceLoadingStrategy::handle`, on the strategy's `board_id_`. `created` are the event
-- ids of `DeviceCreated`.
unfoldable pub handle : (String → Bool) → (DeviceType → ℕ) → ℕ → DeviceLoader → M System Bool
unfolding load add_to_board publish_event
handle exists created board_id loader = do
  device_id ← load exists loader
  add_to_board board_id device_id
  publish_event (record { event_id = created (type_of loader); device_id = device_id })
  pure true
