-- ===== src/Platform/Discovery.antt =====
-- platform_device_discovery.hpp, on the content of the description's file.
pub mod Entries
pub mod Leds
pub mod Laws
use hhctrl_mgmt.Base.{ℕ, Bool, Option, none, some, List, [], ◌∷◌, String, str_eq, find_if}
use hhctrl_mgmt.Base.Outcome.{Outcome, done, thrown, after}
use hhctrl_mgmt.Platform.Pdtree.{
  PdTreeValue, PdTreeArray, PdTreeObject, end_array, item, at, as_array, as_object,
  pdtree_to_string,
}
use hhctrl_mgmt.Platform.Builder.{
  hatch_loader, ds18b20_loader, cpu_temp_sensor_loader, PlatformBuilder,
}
use hhctrl_mgmt.Platform.Providers.{
  Provider, rgb_indicator_provider, hatch_provider, ds18b20_provider, cpu_temp_sensor_provider,
  compatible, hatch_load, ds18b20_load, cpu_temp_sensor_load, load_rgb_indicator,
}

-- `providers_`, as `main_board_init` gives them.
abbrev pub providers : List Provider
providers =
    rgb_indicator_provider ∷ hatch_provider ∷ ds18b20_provider ∷ cpu_temp_sensor_provider ∷ []

module _ (extract : String → Option String) (led_at : String → Option ℕ)
    (null_call : PlatformBuilder → Outcome (Bool × PlatformBuilder)) where
  -- `std::visit` of a provider's `load`.
  unfoldable pub provider_load :
      Provider → PdTreeObject → PlatformBuilder → Outcome (Bool × PlatformBuilder)
  unfolding load_rgb_indicator
  provider_load rgb_indicator_provider descriptor b =
      load_rgb_indicator led_at null_call descriptor b
  provider_load hatch_provider descriptor b = hatch_load extract descriptor b
  provider_load ds18b20_provider descriptor b = ds18b20_load extract descriptor b
  provider_load cpu_temp_sensor_provider descriptor b = cpu_temp_sensor_load extract descriptor b

  -- One round of the loop; what the provider's `load` returns is dropped.
  unfoldable pub setup_entry : PdTreeValue → PlatformBuilder → Outcome PlatformBuilder
  unfolding provider_load pdtree_to_string
  setup_entry entry b = after (as_object entry) λ descriptor.
      after (at "compatible" descriptor) λ val. after (pdtree_to_string val) λ wanted.
        elim (find_if (λ p. str_eq (compatible p) wanted) providers) [
          | none ↦ thrown
          | some provider ↦ after (provider_load provider descriptor b) λ r. done r.1
        ]

  unfoldable pub setup_entries : PdTreeArray → PlatformBuilder → Outcome PlatformBuilder
  unfolding setup_entry
  setup_entries end_array b = done b
  setup_entries (item entry rest) b = after (setup_entry entry b) (setup_entries rest)

  unfoldable pub setup : PdTreeValue → PlatformBuilder → Outcome PlatformBuilder
  unfolding setup_entries
  setup pdtree_content b = after (as_array pdtree_content) λ entries. setup_entries entries b
