-- ===== src/Platform/Discovery/Entries.antt =====
-- Descriptions of the platform as JSON, and what they stand for.
use hhctrl_mgmt.Base.{ℕ, ◌≡◌, Bool, ◌&&◌, Option, none, some, List, [], ◌∷◌, ◌++◌, String, is_some}
use hhctrl_mgmt.Board.{Indicator, rgb_indicators}
use hhctrl_mgmt.Platform.Pdtree.{
  PdTreeValue, text, array, object, PdTreeArray, end_array, item, PdTreeObject, end_object, member,
}
use hhctrl_mgmt.Platform.Builder.{
  DeviceLoader, hatch_loader, ds18b20_loader, cpu_temp_sensor_loader, PlatformBuilder,
}
use hhctrl_mgmt.Platform.Providers.{
  Provider, hatch_provider, ds18b20_provider, cpu_temp_sensor_provider, compatible,
}

pub data GenericType : Type 0 where
  hatch2sr ds18b20 cpu_temp_sensor : GenericType

abbrev pub provider_of : GenericType → Provider
provider_of hatch2sr = hatch_provider
provider_of ds18b20 = ds18b20_provider
provider_of cpu_temp_sensor = cpu_temp_sensor_provider

abbrev pub loader_of : GenericType → String → DeviceLoader
loader_of hatch2sr = hatch_loader
loader_of ds18b20 = ds18b20_loader
loader_of cpu_temp_sensor = cpu_temp_sensor_loader

-- An entry of the description: a generic device with its model and, where it has one, its path; or the
-- indicators on an RGB LED, with the paths of those of its LEDs that it has.
pub data Entry : Type 0 where
  generic : GenericType → String → Option (String × String) → Entry
  rgb : (red green blue : Option (String × ℕ)) → Entry

abbrev pub path_member : {A : Type 0} → Option (String × A) → PdTreeObject
path_member none = end_object
path_member (some (path, a)) = member "sysfs_path" (text path) end_object

abbrev pub led_item : String → Option (String × ℕ) → PdTreeArray → PdTreeArray
led_item color none rest = rest
led_item color (some led) rest =
    item (object (member "color" (text color) (path_member (some led)))) rest

abbrev pub led_items : Option (String × ℕ) → Option (String × ℕ) → Option (String × ℕ) → PdTreeArray
led_items red green blue =
    led_item "red" red (led_item "green" green (led_item "blue" blue end_array))

-- The entry as JSON.
abbrev pub describe_entry : Entry → PdTreeValue
describe_entry (generic t model path) = object (
    member "compatible" (text (compatible (provider_of t)))
      (member "model" (text model) (path_member path)))
describe_entry (rgb red green blue) = object (
    member "compatible" (text "sysfs_rgbled_indicator")
      (member "leds" (array (led_items red green blue)) end_object))

-- The entries as JSON, before others.
abbrev pub describe : List Entry → PdTreeArray → PdTreeArray
describe [] rest = rest
describe (e ∷ es) rest = item (describe_entry e) (describe es rest)

-- What the entries give the board and its loaders.
abbrev pub indicators_of : List Entry → List Indicator
indicators_of [] = []
indicators_of (rgb (some (_, r)) (some (_, g)) (some (_, b)) ∷ es) =
    rgb_indicators r g b ++ indicators_of es
indicators_of (_ ∷ es) = indicators_of es

abbrev pub loaders_of : List Entry → List DeviceLoader
loaders_of [] = []
loaders_of (generic t model (some (_, word)) ∷ es) = loader_of t word ∷ loaders_of es
loaders_of (_ ∷ es) = loaders_of es

abbrev pub has_leds : Option (String × ℕ) → Option (String × ℕ) → Option (String × ℕ) → Bool
has_leds red green blue = is_some red && is_some green && is_some blue

abbrev pub with_entries : List Entry → PlatformBuilder → PlatformBuilder
with_entries es b = record {
  indicators = b.indicators ++ indicators_of es;
  generic_loaders = b.generic_loaders ++ loaders_of es;
}

abbrev pub Reads : {A : Type 0} → (String → Option A) → Option (String × A) → Type 0
Reads read none = Unit {0}
Reads read (some (path, a)) = read path ≡ some a
