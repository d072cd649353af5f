-- ===== src/Platform/Providers.antt =====
-- The providers: hatch2sr_provider.hpp, sysfs_ds18b20_provider.hpp, sysfs_cpu_temp_sensor_provider.hpp
-- and sysfs_rgb_indicator_provider.hpp.
use hhctrl_mgmt.Base.{ℕ, Bool, true, false, not, Option, none, some, String, str_eq, if◌then◌else◌}
use hhctrl_mgmt.Base.Outcome.{Outcome, done, thrown, after}
use hhctrl_mgmt.Board.{rgb_indicator, fault, maintenance, status, warning}
use hhctrl_mgmt.Platform.Pdtree.{
  PdTreeArray, PdTreeObject, end_array, item, at, contains, as_array, as_object, pdtree_to_string,
  pdtree_get,
}
use hhctrl_mgmt.Platform.Builder.{
  DeviceLoader, hatch_loader, ds18b20_loader, cpu_temp_sensor_loader, PlatformBuilder, add_device,
  add_loader,
}

-- The variant of `PlatformDeviceDiscovery` in the order of `main_board_init`.
pub data Provider : Type 0 where
  rgb_indicator_provider hatch_provider ds18b20_provider cpu_temp_sensor_provider : Provider

abbrev pub compatible : Provider → String
compatible rgb_indicator_provider = "sysfs_rgbled_indicator"
compatible hatch_provider = "sysfs_hatch2sr"
compatible ds18b20_provider = "sysfs_ds18b20"
compatible cpu_temp_sensor_provider = "sysfs_cpu_temp_sensor"

-- The body that the three providers of generic devices share; the attribute `model` is read for the
-- log. The result is what `load` returns and the builder after it.
unfoldable pub load_generic :
    (String → Option String)
    → (String → DeviceLoader)
    → PdTreeObject
    → PlatformBuilder
    → Outcome (Bool × PlatformBuilder)
unfolding pdtree_to_string pdtree_get add_loader
load_generic extract loader descriptor b = after (at "model" descriptor) λ model.
    after (pdtree_to_string model) λ shown.
      if not (contains "sysfs_path" descriptor)
      then done (false, b)
      else after (pdtree_get extract descriptor "sysfs_path")
          λ path. done (true, add_loader (loader path) b)

-- `load` of `HatchProvider`, `SysfsDS18B20Provider` and `SysfsCPUTempSensorProvider`.
abbrev pub hatch_load :
    (String → Option String) → PdTreeObject → PlatformBuilder → Outcome (Bool × PlatformBuilder)
hatch_load extract = load_generic extract hatch_loader

abbrev pub ds18b20_load :
    (String → Option String) → PdTreeObject → PlatformBuilder → Outcome (Bool × PlatformBuilder)
ds18b20_load extract = load_generic extract ds18b20_loader

abbrev pub cpu_temp_sensor_load :
    (String → Option String) → PdTreeObject → PlatformBuilder → Outcome (Bool × PlatformBuilder)
cpu_temp_sensor_load extract = load_generic extract cpu_temp_sensor_loader

unfoldable pub has_color : String → PdTreeObject → Outcome Bool
unfolding pdtree_to_string
has_color led_label e_obj =
    if not (contains "color" e_obj)
    then done false
    else after (at "color" e_obj)
        λ color. after (pdtree_to_string color) λ shown. done (str_eq shown led_label)

-- `std::find_if` over the descriptors; one that is no object, or whose colour is no text, makes it throw.
unfoldable pub find_led : String → PdTreeArray → Outcome (Option PdTreeObject)
unfolding has_color
find_led led_label end_array = done none
find_led led_label (item prop leds) = after (as_object prop) λ e_obj.
    after (has_color led_label e_obj)
      λ hit. elim hit [ true ↦ done (some e_obj) | false ↦ find_led led_label leds ]

-- `led_at` is the LED whose directory has this path, `none` where the path does not exist.
unfoldable pub load_led : (String → Option ℕ) → PdTreeArray → String → Outcome (Option ℕ)
unfolding find_led pdtree_to_string
load_led led_at leds led_label = after (find_led led_label leds) λ found. elim found [
  | none ↦ done none
  | some descriptor_obj ↦
      if not (contains "sysfs_path" descriptor_obj)
      then done none
      else after (at "sysfs_path" descriptor_obj) λ path.
        after (pdtree_to_string path)
          λ shown. elim (led_at shown) [ none ↦ thrown | some led ↦ done (some led) ]
]

-- `RGBIndicatorProvider::load`. Where a LED is missing it calls a method through
-- `spdlog::get("hw")`, which is null since nothing registers that logger: `null_call` is what
-- comes of it, which C++ leaves undefined.
unfoldable pub load_rgb_indicator :
    (String → Option ℕ)
    → (PlatformBuilder → Outcome (Bool × PlatformBuilder))
    → PdTreeObject
    → PlatformBuilder
    → Outcome (Bool × PlatformBuilder)
unfolding load_led add_device
load_rgb_indicator led_at null_call descriptor b = after (at "leds" descriptor) λ val.
    after (as_array val) λ leds. after (load_led led_at leds "red") λ red.
      after (load_led led_at leds "green") λ green. after (load_led led_at leds "blue") λ blue.
        elim red [
          | none ↦ null_call b
          | some r ↦ elim green [
            | none ↦ null_call b
            | some g ↦ elim blue [
              | none ↦ null_call b
              | some l ↦
                  let b₁ = add_device (rgb_indicator fault r g l) b in
                  let b₂ = add_device (rgb_indicator maintenance r g l) b₁ in
                  let b₃ = add_device (rgb_indicator status r g l) b₂ in
                  done (true, add_device (rgb_indicator warning r g l) b₃)
            ]
          ]
        ]
