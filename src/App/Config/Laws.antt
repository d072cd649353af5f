-- ===== src/App/Config/Laws.antt =====
-- Which files are read as a configuration.
use hhctrl_mgmt.Base.{ℕ, ◌*◌, ◌^◌, ◌<◌, ◌≡◌, refl, true, some, List, ltb, arith, length}
use hhctrl_mgmt.Base.Outcome.{done}
use hhctrl_mgmt.Utils.Streams.{StreamParser, IsIncremental, open_file, parse}
use hhctrl_mgmt.Utils.Streams.Laws.{read_json-parse}
use hhctrl_mgmt.Platform.Pdtree.{PdTreeValue, text, number, object, member, end_object, find_member}
use hhctrl_mgmt.App.Config.{
  EntityClientConfig, AppConfig, read_client_config, read_app_config, load_config,
}

-- The numbers fit the integer types of their fields.
pub record IsBounded (c : EntityClientConfig) : Type 0 where
  pub server_port : c.server_port < 2 ^ 31
  pub keep_alive_interval : c.keep_alive_interval < 2 ^ 16
  pub max_reconnect_attempts : c.max_reconnect_attempts < 2 ^ 31
  pub reconnect_delay : c.reconnect_delay < 2 ^ 31

-- The configuration as JSON.
abbrev pub client_value : EntityClientConfig → PdTreeValue
client_value c = object (
    member "username" (text c.username) (
      member "password" (text c.password) (
        member "server_address" (text c.server_address) (
          member "server_port" (number c.server_port) (
            member "keep_alive_interval" (number c.keep_alive_interval) (
              member "max_reconnect_attempts" (number c.max_reconnect_attempts)
                (member "reconnect_delay_seconds" (number c.reconnect_delay) end_object)))))))

abbrev pub config_value : AppConfig → PdTreeValue
config_value c = object (
    member "log_dir" (text c.log_dir) (
      member "dtree_file" (text c.dtree_file)
        (member "entity_client_config" (client_value c.entity_client_config) end_object)))

within : (n bound : ℕ) → n < bound → ltb n bound ≡ true
within n bound h = ground (arith, h)

read_app_config-value :
    (c : AppConfig) → IsBounded c.entity_client_config → read_app_config (config_value c) ≡ done c
unfolding read_app_config read_client_config find_member
read_app_config-value c h =
    simp
      (
        within _ _ h.server_port,
        within _ _ h.keep_alive_interval,
        within _ _ h.max_reconnect_attempts,
        within _ _ h.reconnect_delay,
      )
      refl

module _ (P : StreamParser PdTreeValue) where
  -- A file in which the parser finds a configuration whose numbers fit their types is read as that
  -- configuration, given a unit of fuel for each 4096 bytes and one more.
  pub load_config-value :
      (fuel : ℕ) (bytes : List ℕ) (c : AppConfig)
      → IsIncremental P
      → length bytes < fuel * 4096
      → parse P bytes ≡ done (some (config_value c))
      → IsBounded c.entity_client_config
      → load_config P fuel (open_file (some bytes)) ≡ done c
  unfolding load_config
  load_config-value fuel bytes c i h p b =
      simp (load_config, read_json-parse P i fuel bytes h, p, read_app_config-value c b) refl
